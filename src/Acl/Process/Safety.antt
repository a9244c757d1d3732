-- ===== src/Acl/Process/Safety.antt =====
-- common/acl_processor.rs: no packet makes the processor panic.
use peer_link.Common.{
  ℕ, ◌*◌, ◌≡◌, ◌≢◌, ◌⊎◌, refl, Bool, true, false, List, [], ◌∷◌, Option, none, some, if◌then◌else◌,
  Bool-cases, inl, inr, arith, length, ltb, ◌==◌, ==_refl, done,
}
use peer_link.Acl.{chain_number, PacketInfo}
use peer_link.TokenBucket.{TokenBucket, try_consume}
use peer_link.Acl.Process.{
  RateLimitKey, AclResult, AclCacheKey, AclCacheEntry, AclProcessor, ConnKey, lookup, insert,
  same_limit, same_cache_key,
}
use peer_link.Acl.Process.Steps.{
  bucket_of, check_rate_limit, check_limits, process_packet_with_cache_entry, cache_result,
  inc_cache_entry_stats, check_connection_state, track, limited, cleanup_cache,
}
use peer_link.Acl.Process.Handle.{answer}
use peer_link.Common.Tables.{
  Has, AllValues, AllOf, AllOf-map, AllValues-map, Has-insert, Has-insert_self, AllValues-insert,
}
use peer_link.Acl.Process.Tables.{AllValues-cleanup_cache}

abbrev pub Limiters : Type 0
Limiters = List (RateLimitKey × TokenBucket)

-- A cached entry has a result, and a bucket for each of its limits.
abbrev pub IsReady : Limiters → AclCacheEntry → Type 0
IsReady limiters entry =
    (result : AclResult) × (entry.acl_result ≡ some result)
    × AllOf (λ key. Has same_limit key limiters) entry.rate_limit_keys

-- Every entry of the cache is so.
abbrev pub IsSound : AclProcessor → Type 0
IsSound s = AllValues (IsReady s.rate_limiters) s.rule_cache

-- What a step to the buckets keeps.
abbrev pub Grows : Limiters → Limiters → Type 0
Grows before after = (k : RateLimitKey) → Has same_limit k before → Has same_limit k after

IsReady-Grows :
    (before after : Limiters) (entry : AclCacheEntry)
    → Grows before after
    → IsReady before entry
    → IsReady after entry
IsReady-Grows before after entry g (result, e, limits) = (
  result,
  e,
  AllOf-map (λ key. Has same_limit key before) (λ key. Has same_limit key after)
      entry.rate_limit_keys g limits,
)

bucket_of_lem :
    (allow_create : Bool) (rate burst : ℕ) (found : Option TokenBucket)
    → ((allow_create ≡ true) ⊎ ((b : TokenBucket) × (found ≡ some b)))
    → (b : TokenBucket) × (bucket_of allow_create rate burst found ≡ done b)
unfolding bucket_of
bucket_of_lem allow_create rate burst (some b) h = (b, refl)
bucket_of_lem true rate burst none h = (_, refl)
bucket_of_lem false rate burst none (inl e) = cc e
bucket_of_lem false rate burst none (inr (b, e)) = cc e

same_limit_refl : (key : RateLimitKey) → same_limit key key ≡ true
same_limit_refl key = rw (==_refl (chain_number key.chain_type), ==_refl key.rule_priority) refl

-- A rate check at a key that has a bucket, or may get one: it answers, adds the key's bucket at most.
pub check_rate_limit_lem :
    (key : RateLimitKey) (rate burst : ℕ) (allow_create : Bool) (s : AclProcessor)
    → rate ≢ 0
    → ((allow_create ≡ true) ⊎ Has same_limit key s.rate_limiters)
    → (limiters : Limiters) × (b : Bool) × (check_rate_limit key rate burst allow_create s
        ≡ done (record s { rate_limiters = limiters }, b))
      × Grows s.rate_limiters limiters
      × Has same_limit key limiters
unfolding check_rate_limit
check_rate_limit_lem key rate burst allow_create s positive h =
    let (bucket, runs) =
      bucket_of_lem allow_create rate burst (lookup same_limit key s.rate_limiters) h in
    let zero : (rate == 0) ≡ false = ground arith in
    (
      insert same_limit key (try_consume 1 bucket).0 s.rate_limiters,
      (try_consume 1 bucket).1,
      rw (zero, runs) refl,
      λ k has. Has-insert same_limit k key (try_consume 1 bucket).0 s.rate_limiters has,
      Has-insert_self same_limit key (try_consume 1 bucket).0 s.rate_limiters (same_limit_refl key),
    )

-- The limits of a cached entry are checked, up to the first that is reached.
check_limits_lem :
    (keys : List RateLimitKey) (s : AclProcessor)
    → AllOf (λ key. Has same_limit key s.rate_limiters) keys
    → (limiters : Limiters) × (b : Bool) × (check_limits keys s
        ≡ done (record s { rate_limiters = limiters }, b))
      × Grows s.rate_limiters limiters
unfolding check_limits
check_limits_lem [] s a = (s.rate_limiters, true, refl, λ k h. h)
check_limits_lem (key ∷ keys) s a =
    let (limiters, b, runs, grows, has) =
      check_rate_limit_lem key 1 1 false s (omega arith) (inr a.0) in
    let t : AclProcessor = record s { rate_limiters = limiters } in
    let (last, c, rest, more) = check_limits_lem keys t (
      AllOf-map (λ k. Has same_limit k s.rate_limiters) (λ k. Has same_limit k limiters) keys grows
        a.1) in
    elim (Bool-cases b) [
      | inl within ↦ (last, c, rw (runs, within) rest, λ k h. more k (grows k h))
      | inr over ↦ (limiters, false, rw (runs, over) refl, grows)
    ]

pub IsSound-Grows :
    (before after : Limiters) (cache : List (AclCacheKey × AclCacheEntry))
    → Grows before after
    → AllValues (IsReady before) cache
    → AllValues (IsReady after) cache
IsSound-Grows before after cache g a =
    AllValues-map (IsReady before) (IsReady after) cache
      (λ entry. IsReady-Grows before after entry g) a

track_lem :
    (now : ℕ) (packet : PacketInfo) (key : Option ConnKey) (s : AclProcessor)
    → IsSound s
    → IsSound (track now key packet s)
unfolding check_connection_state
track_lem now packet none s a = a
track_lem now packet (some key) s a = a

-- A cached entry answers a packet.
pub cached_lem :
    (now : ℕ) (packet : PacketInfo) (entry : AclCacheEntry) (s : AclProcessor)
    → IsReady s.rate_limiters entry
    → IsSound s
    → (t : AclProcessor) × (r : AclResult) × (process_packet_with_cache_entry now packet entry s
        ≡ done (t, r))
      × IsSound t
unfolding process_packet_with_cache_entry inc_cache_entry_stats check_connection_state
cached_lem now packet entry s (result, has_result, limits) sound =
    let (limiters, b, runs, grows) = check_limits_lem entry.rate_limit_keys s limits in
    elim (Bool-cases b) [
      | inl within ↦
          let u : AclProcessor = record s { rate_limiters = limiters } in
          (
            inc_cache_entry_stats entry packet (track now entry.conn_track_key packet u),
            result,
            rw (runs, within, has_result) refl,
            track_lem now packet entry.conn_track_key u
                (IsSound-Grows s.rate_limiters limiters s.rule_cache grows sound),
          )
      | inr over ↦ (
        record s { rate_limiters = limiters },
        limited entry.matched_rule,
        rw (runs, over) refl,
        IsSound-Grows s.rate_limiters limiters s.rule_cache grows sound,
      )
    ]

-- An entry that has its result and its buckets is answered and cached.
pub answer_lem :
    (key : AclCacheKey) (packet : PacketInfo) (entry : AclCacheEntry) (result : AclResult)
    (s : AclProcessor)
    → entry.acl_result ≡ some result
    → AllOf (λ k. Has same_limit k s.rate_limiters) entry.rate_limit_keys
    → IsSound s
    → (t : AclProcessor) × (answer key packet entry s ≡ done (t, result)) × IsSound t
unfolding answer inc_cache_entry_stats cache_result
answer_lem key packet entry result s has_result limits sound =
    let inserted : AllValues (IsReady s.rate_limiters)
        (insert same_cache_key key entry s.rule_cache) =
      AllValues-insert same_cache_key (IsReady s.rate_limiters) key entry s.rule_cache
        (result, has_result, limits) sound in
    (
      cache_result key entry (inc_cache_entry_stats entry packet s),
      rw has_result refl,
      kept (insert same_cache_key key entry s.rule_cache) inserted,
    )
  where
    kept :
        (cache : List (AclCacheKey × AclCacheEntry))
        → AllValues (IsReady s.rate_limiters) cache
        → AllValues (IsReady s.rate_limiters) (
            if ltb (s.cache_max_size * 2) (length cache)
            then cleanup_cache cache s.cache_max_size
            else cache)
    kept cache a = elim (Bool-cases (ltb (s.cache_max_size * 2) (length cache))) [
      | inl e ↦ rw e (AllValues-cleanup_cache (IsReady s.rate_limiters) cache s.cache_max_size a)
      | inr e ↦ rw e a
    ]

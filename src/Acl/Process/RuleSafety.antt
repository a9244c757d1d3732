-- ===== src/Acl/Process/RuleSafety.antt =====
-- common/acl_processor.rs: a rule that matches answers its packet, within its limit or over it.
use peer_link.Common.{
  sym, ◌∙◌, if◌then◌else◌, ℕ, ◌≡◌, ◌≢◌, refl, Bool, true, [], ◌∷◌, some, Bool-cases, inl, inr,
  arith, ◌==◌, done,
}
use peer_link.Acl.{ChainType, FastLookupRule, PacketInfo}
use peer_link.Acl.Process.{
  RateLimitKey, AclResult, AclCacheKey, AclCacheEntry, AclProcessor, same_limit, increment_stat,
  by_priority, rule_matches_count,
}
use peer_link.Acl.Process.Steps.{check_connection_state, limited}
use peer_link.Acl.Process.Handle.{
  empty_entry, limit_rule, keeps_state, rule_result, rule_entry, connect, apply_rule,
}
use peer_link.Acl.Process.Decision.{is_within, check_rate_limit-is_within}
use peer_link.Common.Tables.{Has, AllOf}
use peer_link.Acl.Process.Safety.{IsSound, check_rate_limit_lem, IsSound-Grows, answer_lem}

-- The entry of a rule within its limit, and the processor: a key in it has its bucket.
limit_rule_lem :
    (chain : ChainType) (rule : FastLookupRule) (now : ℕ) (s : AclProcessor)
    → IsSound s
    → (entry : AclCacheEntry) × (t : AclProcessor) × (b : Bool) × (limit_rule chain rule
          (empty_entry now chain)
          s
        ≡ done (entry, t, b))
      × (b ≡ is_within chain rule s)
      × AllOf (λ key. Has same_limit key t.rate_limiters) entry.rate_limit_keys
      × IsSound t
unfolding limit_rule
limit_rule_lem chain rule now s sound = elim (Bool-cases (rule.rate_limit == 0)) [
  | inl unlimited ↦
      (empty_entry now chain, s, true, rw unlimited refl, rw unlimited refl, tt, sound)
  | inr is_limited ↦
      let key : RateLimitKey = record { chain_type = chain; rule_priority = rule.priority } in
      let positive : rule.rate_limit ≢ 0 = λ e. ground (arith, e, is_limited) in
      let (limiters, b, runs, grows, has) =
        check_rate_limit_lem key rule.rate_limit rule.burst_limit true s positive (inl refl) in
      (
        record (empty_entry now chain) {
          rate_limit_keys = key ∷ [];
          rule_stats_vec = rule.rule_stats ∷ [];
        },
        record s { rate_limiters = limiters },
        b,
        rw (is_limited, runs) refl,
        check_rate_limit-is_within chain rule s _ b is_limited runs,
        (has, tt),
        IsSound-Grows s.rate_limiters limiters s.rule_cache grows sound,
      )
]

connected :
    (now : ℕ) (rule : FastLookupRule) (packet : PacketInfo) (t : AclProcessor)
    → IsSound t
    → IsSound (increment_stat rule_matches_count (connect now rule packet t))
unfolding increment_stat check_connection_state
connected now rule packet t a = elim (Bool-cases (keeps_state rule)) [
  | inl e ↦ rw e a
  | inr e ↦ rw e a
]

rule_entry-acl_result :
    (rule : FastLookupRule) (packet : PacketInfo) (entry : AclCacheEntry)
    → (rule_entry rule packet entry).acl_result ≡ some (rule_result rule packet)
unfolding rule_entry
rule_entry-acl_result rule packet entry = elim (Bool-cases (keeps_state rule)) [
  | inl e ↦ rw e refl
  | inr e ↦ rw e refl
]

ready :
    (now : ℕ) (rule : FastLookupRule) (packet : PacketInfo) (entry : AclCacheEntry)
    (t : AclProcessor)
    → AllOf (λ k. Has same_limit k t.rate_limiters) entry.rate_limit_keys
    → AllOf
        (λ k.
          Has same_limit k
            (increment_stat rule_matches_count (connect now rule packet t)).rate_limiters)
        (rule_entry rule packet entry).rate_limit_keys
unfolding increment_stat check_connection_state rule_entry
ready now rule packet entry t a = elim (Bool-cases (keeps_state rule)) [
  | inl e ↦ rw e a
  | inr e ↦ rw e a
]

-- A rule answers a packet: with its result, or, over its limit, with a drop.
pub apply_rule_lem :
    (now : ℕ) (key : AclCacheKey) (chain : ChainType) (packet : PacketInfo) (rule : FastLookupRule)
    (s : AclProcessor)
    → IsSound s
    → (t : AclProcessor) × (r : AclResult) × (apply_rule now key chain packet rule s ≡ done (t, r))
      × (r ≡ (
          if is_within chain rule s
          then rule_result rule packet
          else limited (by_priority rule.priority)))
      × IsSound t
unfolding apply_rule
apply_rule_lem now key chain packet rule s sound =
    let (entry, t, b, runs, because, limits, kept) = limit_rule_lem chain rule now s sound in
    elim (Bool-cases b) [
      | inl within ↦
          let u : AclProcessor = increment_stat rule_matches_count (connect now rule packet t) in
          let (after, answers, last) =
            answer_lem key packet (rule_entry rule packet entry) (rule_result rule packet) u
              (rule_entry-acl_result rule packet entry) (ready now rule packet entry t limits)
              (connected now rule packet t kept) in
          (
            after,
            rule_result rule packet,
            rw (runs, within) answers,
            rw (sym because ∙ within) refl,
            last,
          )
      | inr over ↦ (
        t,
        limited (by_priority rule.priority),
        rw (runs, over) refl,
        rw (sym because ∙ over) refl,
        kept,
      )
    ]

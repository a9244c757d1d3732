-- ===== src/Acl/Process/Answers.antt =====
-- common/acl_processor.rs: what `process_packet` answers, and that it does.
use peer_link.Common.{
  ℕ, ◌≡◌, refl, List, [], ◌∷◌, Option, none, some, if◌then◌else◌, Exec, done, ◌>>=◌, length, suc,
  ap,
}
use peer_link.TokenBucket.{TokenBucket}
use peer_link.Acl.{
  Heap, Chain, ChainType, unspecified_chain, inbound, outbound, forward, CidrCrate, FastLookupRule,
  PacketInfo,
}
use peer_link.Acl.Process.{
  AclResult, AclCacheEntry, AclProcessor, ConnKey, ConnTrackEntry, RateLimitKey, AclStatKey,
  new_with_shared_state, lookup, insert, same_cache_key, increment_stat, from_packet_info,
  cache_hits, default_drops, default_allows,
}
use peer_link.Acl.Process.Steps.{rules_of, is_drop, default_action, unsupported}
use peer_link.Acl.Process.Handle.{
  empty_entry, first_match, apply_default, apply_rules, process_packet,
}
use peer_link.Common.Tables.{AllValues-insert, AllValues-lookup}
use peer_link.Acl.Process.Safety.{IsSound, IsReady, cached_lem, answer_lem}
use peer_link.Acl.Process.RuleSafety.{apply_rule_lem}
use peer_link.Acl.Process.Decision.{IsAnswer, GoesWith, GoesWith-IsDecided, by_action}

-- The answers to a packet that are right when the cache has none, by the rules that are found.
abbrev Answered :
    CidrCrate
    → ChainType
    → PacketInfo
    → AclProcessor
    → AclResult
    → Option (List FastLookupRule)
    → Type 0
Answered cidr chain packet s r none = r ≡ unsupported
Answered cidr chain packet s r (some rules) =
    GoesWith chain packet s (default_action chain s) r (first_match cidr packet rules)

Answered-IsAnswer :
    (cidr : CidrCrate) (chain : ChainType) (packet : PacketInfo) (s : AclProcessor) (r : AclResult)
    → Answered cidr chain packet s r (rules_of chain s)
    → IsAnswer cidr chain packet s r
unfolding rules_of default_action
Answered-IsAnswer cidr unspecified_chain packet s r h = h
Answered-IsAnswer cidr inbound packet s r h = GoesWith-IsDecided cidr inbound packet s _ _ r h
Answered-IsAnswer cidr outbound packet s r h = GoesWith-IsDecided cidr outbound packet s _ _ r h
Answered-IsAnswer cidr forward packet s r h = GoesWith-IsDecided cidr forward packet s _ _ r h

apply_default_lem :
    (now : ℕ) (chain : ChainType) (packet : PacketInfo) (s : AclProcessor)
    → IsSound s
    → (t : AclProcessor) × (apply_default now (from_packet_info packet chain) chain packet s
        ≡ done (t, by_action (default_action chain s)))
      × IsSound t
unfolding apply_default increment_stat
apply_default_lem now chain packet s sound =
    answer_lem (from_packet_info packet chain) packet
      (record (empty_entry now chain) {
        rule_stats_vec = s.default_rule_stats ∷ [];
        acl_result = some (by_action (default_action chain s));
      })
      (by_action (default_action chain s))
      (increment_stat (if is_drop (default_action chain s) then default_drops else default_allows)
        s)
      refl tt sound

apply_rules_lem :
    (cidr : CidrCrate) (now : ℕ) (chain : ChainType) (packet : PacketInfo) (s : AclProcessor)
    → IsSound s
    → (t : AclProcessor) × (r : AclResult) × (apply_rules cidr now chain packet s ≡ done (t, r))
      × Answered cidr chain packet s r (rules_of chain s)
      × IsSound t
unfolding apply_rules
apply_rules_lem cidr now chain packet s sound = by_rules (rules_of chain s) refl
  where
    by_rules :
        (found : Option (List FastLookupRule))
        → rules_of chain s ≡ found
        → (t : AclProcessor) × (r : AclResult) × (apply_rules cidr now chain packet s ≡ done (t, r))
          × Answered cidr chain packet s r found
          × IsSound t
    by_rules none e = (s, unsupported, rw (apply_rules, e) refl, refl, sound)
    by_rules (some rules) e = by_match (first_match cidr packet rules) refl
      where
        by_match :
            (found : Option FastLookupRule)
            → first_match cidr packet rules ≡ found
            → (t : AclProcessor) × (r : AclResult) × (apply_rules cidr now chain packet s
                ≡ done (t, r))
              × GoesWith chain packet s (default_action chain s) r (first_match cidr packet rules)
              × IsSound t
        by_match none f =
            let (t, runs, last) = apply_default_lem now chain packet s sound in
            (
              t,
              by_action (default_action chain s),
              rw (apply_rules, e) (rw f runs),
              rw f refl,
              last,
            )
        by_match (some rule) f =
            let (t, r, runs, right, last) =
              apply_rule_lem now (from_packet_info packet chain) chain packet rule s sound in
            (t, r, rw (apply_rules, e) (rw f runs), rw f right, last)

-- A processor whose cached entries each have a result, and a bucket for each of their rate limits,
-- answers any packet at any time, so that the panics "bucket not found" and `unwrap` never happen, and
-- stays such a processor.
pub process_packet-IsSound :
    (cidr : CidrCrate) (now : ℕ) (packet : PacketInfo) (chain : ChainType) (s : AclProcessor)
    → IsSound s
    → (t : AclProcessor) × (r : AclResult) × (process_packet cidr now packet chain s ≡ done (t, r))
      × IsSound t
unfolding process_packet increment_stat
process_packet-IsSound cidr now packet chain s sound =
    by_cache (lookup same_cache_key (from_packet_info packet chain) s.rule_cache) refl
  where
    by_cache :
        (found : Option AclCacheEntry)
        → lookup same_cache_key (from_packet_info packet chain) s.rule_cache ≡ found
        → (t : AclProcessor) × (r : AclResult) × (process_packet cidr now packet chain s
            ≡ done (t, r))
          × IsSound t
    by_cache none e =
        let (t, r, runs, _, last) = apply_rules_lem cidr now chain packet s sound in
        (t, r, rw (process_packet, e) runs, last)
    by_cache (some entry) e =
        let is_ready : IsReady s.rate_limiters entry =
          AllValues-lookup same_cache_key (IsReady s.rate_limiters) (from_packet_info packet chain)
            entry s.rule_cache e sound in
        let touched : AclCacheEntry = record entry { last_access = now } in
        let (t, r, runs, last) =
          cached_lem now packet touched
            (increment_stat cache_hits (record s {
              rule_cache =
                  insert same_cache_key (from_packet_info packet chain) touched s.rule_cache;
            }))
            is_ready
            (AllValues-insert same_cache_key (IsReady s.rate_limiters)
              (from_packet_info packet chain) touched s.rule_cache is_ready sound) in
        (t, r, rw (process_packet, e) runs, last)

-- A packet that the cache has no entry for, at a processor with a sound cache, is answered by the
-- first rule of its chain that is enabled and matches it: dropped if the rule has a rate limit and
-- no token is left in its bucket; and otherwise allowed as of a known connection if the rule keeps
-- the state of connections and allows, and else answered with the rule's action. Where no rule is
-- enabled and matches it, it is answered with the chain's default action; and it is dropped where
-- the chain's type is not one of the three.
pub process_packet_miss :
    (cidr : CidrCrate) (now : ℕ) (packet : PacketInfo) (chain : ChainType) (s : AclProcessor)
    → IsSound s
    → lookup same_cache_key (from_packet_info packet chain) s.rule_cache ≡ none
    → (t : AclProcessor) × (r : AclResult) × (process_packet cidr now packet chain s ≡ done (t, r))
      × IsAnswer cidr chain packet s r
unfolding process_packet
process_packet_miss cidr now packet chain s sound miss =
    let (t, r, runs, right, _) = apply_rules_lem cidr now chain packet s sound in
    (t, r, rw (process_packet, miss) runs, Answered-IsAnswer cidr chain packet s r right)

-- Packets that come one after another, each at its time and for its chain.
unfoldable pub process_all :
    CidrCrate
    → List (ℕ × PacketInfo × ChainType)
    → AclProcessor
    → Exec (AclProcessor × List AclResult)
process_all cidr [] s = done (s, [])
process_all cidr ((now, packet, chain) ∷ packets) s =
    process_packet cidr now packet chain s >>= λ r.
    process_all cidr packets r.0 >>= λ rest. done (rest.0, r.1 ∷ rest.1)

process_all_from :
    (cidr : CidrCrate) (packets : List (ℕ × PacketInfo × ChainType)) (s : AclProcessor)
    → IsSound s
    → (t : AclProcessor) × (rs : List AclResult) × (process_all cidr packets s ≡ done (t, rs))
      × (length rs ≡ length packets)
unfolding process_all
process_all_from cidr [] s sound = (s, [], refl, refl)
process_all_from cidr ((now, packet, chain) ∷ packets) s sound =
    let (t, r, runs, kept) = process_packet-IsSound cidr now packet chain s sound in
    let (u, rs, rest, same) = process_all_from cidr packets t kept in
    (u, r ∷ rs, rw (runs, rest) refl, ap suc same)

-- A processor made from any configuration and any tables kept from an earlier one answers every packet
-- of any sequence: it never panics, and there is one answer for each packet.
pub process_all_lem :
    (cidr : CidrCrate) (config : Option (List Chain)) (heap : Heap)
    (conn_track : Option (List (ConnKey × ConnTrackEntry)))
    (limiters : Option (List (RateLimitKey × TokenBucket))) (stats : Option (List (AclStatKey × ℕ)))
    (packets : List (ℕ × PacketInfo × ChainType))
    → (t : AclProcessor) × (rs : List AclResult) × (process_all cidr packets
          (new_with_shared_state cidr config heap conn_track limiters stats)
        ≡ done (t, rs))
      × (length rs ≡ length packets)
unfolding new_with_shared_state
process_all_lem cidr config heap conn_track limiters stats packets =
    process_all_from cidr packets (new_with_shared_state cidr config heap conn_track limiters stats)
      tt

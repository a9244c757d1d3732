-- ===== src/Acl/Process/Handle.antt =====
-- common/acl_processor.rs: `process_packet`.
use peer_link.Common.{
  ℕ, Bool, true, false, List, [], ◌∷◌, ◌++◌, ◌&&◌, ◌||◌, not, Option, none, some, ◌==◌,
  if◌then◌else◌, Exec, done, ◌>>=◌, unwrap,
}
use peer_link.Acl.{Action, allow, ChainType, CidrCrate, FastLookupRule, PacketInfo}
use peer_link.Acl.Matching.{rule_matches}
use peer_link.Acl.Process.{
  RateLimitKey, by_priority, stateful, by_default, stateful_match, rule_match, default_drop,
  default_allow, AclResult, AclCacheKey, AclCacheEntry, cache_hits, rule_matches_count,
  default_allows, default_drops, AclProcessor, lookup, insert, same_cache_key, from_packet_info,
  conn_track_key, increment_stat,
}
use peer_link.Acl.Process.Steps.{
  check_connection_state, check_rate_limit, inc_cache_entry_stats, limited,
  process_packet_with_cache_entry, cache_result, rules_of, unsupported, default_action, is_drop,
  is_allow,
}

abbrev pub empty_entry : ℕ → ChainType → AclCacheEntry
empty_entry now chain = record {
  action = allow;
  matched_rule = by_default;
  last_access = now;
  conn_track_key = none;
  rate_limit_keys = [];
  chain_type = chain;
  acl_result = none;
  rule_stats_vec = [];
}

-- The entry and the processor after the rate limit of a rule; false is over the limit.
unfoldable pub limit_rule :
    ChainType
    → FastLookupRule
    → AclCacheEntry
    → AclProcessor
    → Exec (AclCacheEntry × AclProcessor × Bool)
limit_rule chain rule entry s =
    if rule.rate_limit == 0
    then done (entry, s, true)
    else (let key : RateLimitKey = record { chain_type = chain; rule_priority = rule.priority } in
        check_rate_limit key rule.rate_limit rule.burst_limit true s >>= λ r. done (
          record entry {
            rate_limit_keys = entry.rate_limit_keys ++ (key ∷ []);
            rule_stats_vec = entry.rule_stats_vec ++ (rule.rule_stats ∷ []);
          },
          r.0,
          r.1,
        ))

abbrev pub keeps_state : FastLookupRule → Bool
keeps_state rule = rule.stateful && is_allow rule.action

-- The result of a rule.
unfoldable pub rule_result : FastLookupRule → PacketInfo → AclResult
rule_result rule packet =
    if keeps_state rule
    then record {
      action = allow;
      matched_rule = some (stateful rule.priority);
      should_log = false;
      log_context = some (stateful_match packet.src_ip packet.dst_ip);
    }
    else record {
      action = rule.action;
      matched_rule = some (by_priority rule.priority);
      should_log = false;
      log_context = some (rule_match packet.src_ip packet.dst_ip rule.action);
    }

-- The entry of a rule within its limit.
unfoldable pub rule_entry : FastLookupRule → PacketInfo → AclCacheEntry → AclCacheEntry
unfolding rule_result
rule_entry rule packet entry =
    if keeps_state rule
    then record entry {
      rule_stats_vec = entry.rule_stats_vec ++ (rule.rule_stats ∷ []);
      matched_rule = stateful rule.priority;
      conn_track_key = some (conn_track_key packet);
      acl_result = some (rule_result rule packet);
    }
    else record entry {
      rule_stats_vec = entry.rule_stats_vec ++ (rule.rule_stats ∷ []);
      matched_rule = by_priority rule.priority;
      acl_result = some (rule_result rule packet);
    }

-- The entry is counted, cached and answered.
unfoldable pub answer :
    AclCacheKey → PacketInfo → AclCacheEntry → AclProcessor → Exec (AclProcessor × AclResult)
answer key packet entry s = unwrap entry.acl_result >>= λ result.
    done (cache_result key entry (inc_cache_entry_stats entry packet s), result)

abbrev pub connect : ℕ → FastLookupRule → PacketInfo → AclProcessor → AclProcessor
connect now rule packet s =
    if keeps_state rule then check_connection_state now (conn_track_key packet) packet s else s

-- The body of the loop for a rule that matches.
unfoldable pub apply_rule :
    ℕ
    → AclCacheKey
    → ChainType
    → PacketInfo
    → FastLookupRule
    → AclProcessor
    → Exec (AclProcessor × AclResult)
apply_rule now key chain packet rule s = limit_rule chain rule (empty_entry now chain) s >>= λ r.
    let (entry, t, within) = r in
    if within
    then answer key packet (rule_entry rule packet entry)
        (increment_stat rule_matches_count (connect now rule packet t))
    else done (t, limited (by_priority rule.priority))

-- The first rule of the loop that is enabled and matches.
unfoldable pub first_match : CidrCrate → PacketInfo → List FastLookupRule → Option FastLookupRule
first_match cidr packet [] = none
first_match cidr packet (rule ∷ rules) =
    if not rule.enabled || not (rule_matches cidr rule packet)
    then first_match cidr packet rules
    else some rule

-- No rule matched.
unfoldable pub apply_default :
    ℕ → AclCacheKey → ChainType → PacketInfo → AclProcessor → Exec (AclProcessor × AclResult)
apply_default now key chain packet s =
    let action : Action = default_action chain s in
    answer key packet
      (record (empty_entry now chain) {
        rule_stats_vec = s.default_rule_stats ∷ [];
        acl_result = some (record {
          action = action;
          matched_rule = some by_default;
          should_log = false;
          log_context = some (if is_drop action then default_drop else default_allow);
        });
      })
      (increment_stat (if is_drop action then default_drops else default_allows) s)

unfoldable pub apply_rules :
    CidrCrate → ℕ → ChainType → PacketInfo → AclProcessor → Exec (AclProcessor × AclResult)
apply_rules cidr now chain packet s =
    let key : AclCacheKey = from_packet_info packet chain in
    elim (rules_of chain s) [
      | none ↦ done (s, unsupported)
      | some rules ↦ elim (first_match cidr packet rules) [
        | some rule ↦ apply_rule now key chain packet rule s
        | none ↦ apply_default now key chain packet s
      ]
    ]

unfoldable pub process_packet :
    CidrCrate → ℕ → PacketInfo → ChainType → AclProcessor → Exec (AclProcessor × AclResult)
process_packet cidr now packet chain s =
    elim (lookup same_cache_key (from_packet_info packet chain) s.rule_cache) [
      | some cached ↦
          let touched : AclCacheEntry = record cached { last_access = now } in
          process_packet_with_cache_entry now packet touched (
            increment_stat cache_hits (record s {
              rule_cache =
                  insert same_cache_key (from_packet_info packet chain) touched s.rule_cache;
            }))
      | none ↦ apply_rules cidr now chain packet s
    ]

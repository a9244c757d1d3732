-- ===== src/Acl/Process/Steps.antt =====
-- common/acl_processor.rs: `process_packet` and what it calls.
use peer_link.Common.{
  ℕ, ◌+◌, ◌-◌, ◌*◌, ◌/◌, Bool, true, false, List, [], ◌∷◌, Option, none, some, ◌==◌, leb, ltb,
  if◌then◌else◌, Exec, done, panic, ◌>>=◌, length, map, take, unwrap,
}
use peer_link.Acl.{
  Action, allow, drop_packet, action_number, ChainType, unspecified_chain, inbound, outbound,
  forward, FastLookupRule, PacketInfo, Heap, port_or_zero,
}
use peer_link.TokenBucket.{TokenBucket, BucketConfig, try_consume}
use peer_link.Acl.Process.{
  RateLimitKey, RuleId, by_default, unsupported_chain_type, rate_limit_drop, AclResult, AclCacheKey,
  ConnKey, AclCacheEntry, ConnTrackEntry, new_state, established, AclProcessor, lookup, insert,
  delete, same_limit, same_conn, same_cache_key, wrap,
}

-- `check_connection_state`
abbrev pub seen : ℕ → PacketInfo → Option ConnTrackEntry → ConnTrackEntry
seen now packet (some x) = record x {
  last_seen = now;
  packet_count = wrap (x.packet_count + 1);
  byte_count = wrap (x.byte_count + packet.packet_size);
  state = established;
}
seen now packet none = record {
  src_addr = (packet.src_ip, port_or_zero packet.src_port);
  dst_addr = (packet.dst_ip, port_or_zero packet.dst_port);
  protocol = packet.protocol;
  state = new_state;
  created_at = now;
  last_seen = now;
  packet_count = 1;
  byte_count = packet.packet_size;
}

unfoldable pub check_connection_state : ℕ → ConnKey → PacketInfo → AclProcessor → AclProcessor
check_connection_state now key packet s = record s {
  conn_track =
      insert same_conn key (seen now packet (lookup same_conn key s.conn_track)) s.conn_track;
}

-- The bucket of a rule: the one there is, or a new one where that is allowed.
unfoldable pub bucket_of : Bool → ℕ → ℕ → Option TokenBucket → Exec TokenBucket
bucket_of allow_create rate burst (some bucket) = done bucket
bucket_of true rate burst none = done (peer_link.TokenBucket.new burst rate 10)
bucket_of false rate burst none = panic

unfoldable pub check_rate_limit :
    RateLimitKey → ℕ → ℕ → Bool → AclProcessor → Exec (AclProcessor × Bool)
check_rate_limit key rate burst allow_create s =
    if rate == 0
    then done (s, true)
    else (bucket_of allow_create rate burst (lookup same_limit key s.rate_limiters) >>= λ bucket.
        let (after, answer) = try_consume 1 bucket in
        done (record s { rate_limiters = insert same_limit key after s.rate_limiters }, answer))

-- The statistics at a place, with a packet more.
unfoldable pub bump : PacketInfo → ℕ → Heap → Heap
bump packet place heap = record heap {
  at = λ i.
      if i == place
      then record (heap.at i) {
        stat = record {
          packet_count = wrap ((heap.at i).stat.packet_count + 1);
          byte_count = wrap ((heap.at i).stat.byte_count + packet.packet_size);
        };
      }
      else heap.at i;
}

unfoldable pub bump_all : PacketInfo → List ℕ → Heap → Heap
bump_all packet [] heap = heap
bump_all packet (place ∷ places) heap = bump_all packet places (bump packet place heap)

unfoldable pub inc_cache_entry_stats : AclCacheEntry → PacketInfo → AclProcessor → AclProcessor
inc_cache_entry_stats entry packet s = record s {
  heap = bump_all packet entry.rule_stats_vec s.heap;
}

abbrev pub limited : RuleId → AclResult
limited id = record {
  action = drop_packet;
  matched_rule = some id;
  should_log = false;
  log_context = some rate_limit_drop;
}

-- The loop over the keys of a cached entry: whether one of them is over its limit.
unfoldable pub check_limits : List RateLimitKey → AclProcessor → Exec (AclProcessor × Bool)
check_limits [] s = done (s, true)
check_limits (key ∷ keys) s = check_rate_limit key 1 1 false s >>= λ r.
    if r.1 then check_limits keys r.0 else done (r.0, false)

abbrev pub track : ℕ → Option ConnKey → PacketInfo → AclProcessor → AclProcessor
track now none packet s = s
track now (some key) packet s = check_connection_state now key packet s

unfoldable pub process_packet_with_cache_entry :
    ℕ → PacketInfo → AclCacheEntry → AclProcessor → Exec (AclProcessor × AclResult)
process_packet_with_cache_entry now packet entry s = check_limits entry.rate_limit_keys s >>= λ r.
    if r.1
    then (unwrap entry.acl_result >>= λ result.
        done
          (inc_cache_entry_stats entry packet (track now entry.conn_track_key packet r.0), result))
    else done (r.0, limited entry.matched_rule)

-- The entries, the oldest access first; the sort is stable.
unfoldable pub insert_by_access : AclCacheKey × ℕ → List (AclCacheKey × ℕ) → List (AclCacheKey × ℕ)
insert_by_access e [] = e ∷ []
insert_by_access e (f ∷ fs) = if leb e.1 f.1 then e ∷ f ∷ fs else f ∷ insert_by_access e fs

unfoldable pub sort_by_access : List (AclCacheKey × ℕ) → List (AclCacheKey × ℕ)
unfolding insert_by_access
sort_by_access [] = []
sort_by_access (e ∷ es) = insert_by_access e (sort_by_access es)

unfoldable pub delete_all :
    List (AclCacheKey × ℕ) → List (AclCacheKey × AclCacheEntry) → List (AclCacheKey × AclCacheEntry)
delete_all [] cache = cache
delete_all (e ∷ es) cache = delete_all es (delete same_cache_key e.0 cache)

unfoldable pub cleanup_cache :
    List (AclCacheKey × AclCacheEntry) → ℕ → List (AclCacheKey × AclCacheEntry)
cleanup_cache cache max_size =
    if leb (length cache) max_size
    then cache
    else delete_all
        (take (length cache - max_size + max_size / 5)
          (sort_by_access (map (λ e. (e.0, e.1.last_access)) cache)))
        cache

unfoldable pub cache_result : AclCacheKey → AclCacheEntry → AclProcessor → AclProcessor
cache_result key entry s =
    let cache = insert same_cache_key key entry s.rule_cache in
    record s {
      rule_cache =
          if ltb (s.cache_max_size * 2) (length cache)
          then cleanup_cache cache s.cache_max_size
          else cache;
    }

unfoldable pub rules_of : ChainType → AclProcessor → Option (List FastLookupRule)
rules_of inbound s = some s.rules.inbound_rules
rules_of outbound s = some s.rules.outbound_rules
rules_of forward s = some s.rules.forward_rules
rules_of unspecified_chain s = none

abbrev pub unsupported : AclResult
unsupported = record {
  action = drop_packet;
  matched_rule = some by_default;
  should_log = false;
  log_context = some unsupported_chain_type;
}

unfoldable pub default_action : ChainType → AclProcessor → Action
default_action inbound s = s.default_inbound_action
default_action outbound s = s.default_outbound_action
default_action forward s = s.default_forward_action
default_action unspecified_chain s = allow

abbrev pub is_drop : Action → Bool
is_drop a = action_number a == 2

abbrev pub is_allow : Action → Bool
is_allow a = action_number a == 1

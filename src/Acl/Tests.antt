-- ===== src/Acl/Tests.antt =====
-- common/acl_processor.rs: two rules for packets that come in, one of them limited.
use peer_link.Common.{
  ◌↔◌, ◌<◌, arith, subst, ℕ, ◌-◌, ◌/◌, ◌^◌, ◌≡◌, refl, true, false, List, [], ◌∷◌, none, some, ◌==◌,
  Exec, done, ◌>>=◌, length, map, if◌then◌else◌,
}
use peer_link.Acl.{
  action_number, Text, tcp, udp, any, allow, drop_packet, inbound, outbound, ChainType, v4, cidr4,
  CidrCrate, Rule, Chain, Heap, PacketInfo, FastLookupRule,
}
use peer_link.Acl.Matching.{rule_matches}
use peer_link.Acl.Matching.Meaning.{Matches, rule_matches_lem}
use peer_link.Acl.Parse.{parse_port_range}
use peer_link.Acl.Rules.{zero_stat, build_rules}
use peer_link.Acl.Process.{
  AclProcessor, AclResult, ConnKey, ConnTrackEntry, RateLimitKey, AclStatKey, new_with_shared_state,
  lookup, same_cache_key, from_packet_info,
}
use peer_link.Acl.Process.{established, conn_track_key, same_conn}
use peer_link.Acl.Process.Expiry.{
  Connections, IsLeft, keys_to_remove, delete_keys, cleanup_expired_connections,
  cleanup_expired_connections_lem,
}
use peer_link.Acl.Process.Steps.{limited}
use peer_link.Acl.Process.Handle.{process_packet, first_match}
use peer_link.Acl.Process.Safety.{IsSound}
use peer_link.Acl.Process.Decision.{IsAnswer}
use peer_link.Acl.Process.Answers.{
  process_all, process_packet-IsSound, process_packet_miss, process_all_lem,
}
use peer_link.Acl.Process.Priority.{IsDecisive, first_match-sort_by_priority}
use peer_link.Acl.Rules.{sort_by_priority}

abbrev cidr : CidrCrate
cidr = record {
  contains_v4 = λ address len a. address / 2 ^ (32 - len) == a / 2 ^ (32 - len);
  contains_v6 = λ address len a. address / 2 ^ (128 - len) == a / 2 ^ (128 - len);
  from_str = λ text. if length text == 0 then none else some (cidr4 167772160 8);
}

abbrev empty_heap : Heap
empty_heap = record { next = 0; at = λ _. record { rule = none; stat = zero_stat } }

-- Ports "80-90", from a network, 2 packets at once.
abbrev web : Rule
web = record {
  priority = 5;
  enabled = true;
  protocol = tcp;
  ports = (56 ∷ 48 ∷ 45 ∷ 57 ∷ 48 ∷ []) ∷ [];
  source_ips = (49 ∷ []) ∷ [];
  destination_ips = [];
  source_ports = [];
  action = allow;
  rate_limit = 10;
  burst_limit = 2;
  stateful = true;
  source_groups = [];
  destination_groups = [];
}

abbrev deny : Rule
deny = record web {
  priority = 9;
  rate_limit = 0;
  ports = (50 ∷ 50 ∷ []) ∷ [];
  action = drop_packet;
}

abbrev chain : Chain
chain = record {
  chain_type = inbound;
  enabled = true;
  rules = web ∷ deny ∷ [];
  default_action = drop_packet;
}

abbrev packet : PacketInfo
packet = record {
  src_ip = v4 167772161;
  dst_ip = v4 167772162;
  src_port = some 1000;
  dst_port = some 85;
  protocol = tcp;
  packet_size = 100;
  src_groups = [];
  dst_groups = [];
}

abbrev start : AclProcessor
start = new_with_shared_state cidr (some (chain ∷ [])) empty_heap none none none

parsed : parse_port_range (56 ∷ 48 ∷ 45 ∷ 57 ∷ 48 ∷ []) ≡ some (80, 90)
unfolding parse_port_range
parsed = refl

abbrev actions : Exec (AclProcessor × List AclResult) → Exec (List ℕ)
actions run = run >>= λ r. done (map (λ a. action_number a.action) r.1)

-- Two packets pass, the third is over the limit.
third_dropped :
    actions (
      process_all cidr
        ((1, packet, inbound) ∷ (2, packet, inbound) ∷ (3, packet, inbound) ∷ [])
        start)
    ≡ done (1 ∷ 1 ∷ 2 ∷ [])
unfolding process_all process_packet new_with_shared_state lookup first_match sort_by_priority
    build_rules from_packet_info parse_port_range peer_link.Acl.Process.Handle.apply_rules
    peer_link.Acl.Process.Handle.apply_rule peer_link.Acl.Process.Handle.limit_rule
    peer_link.Acl.Process.Handle.answer peer_link.Acl.Process.Handle.apply_default
    peer_link.Acl.Process.Handle.rule_entry peer_link.Acl.Process.Handle.rule_result
    peer_link.Acl.Process.Steps.rules_of peer_link.Acl.Process.Steps.check_rate_limit
    peer_link.Acl.Process.Steps.bucket_of peer_link.Acl.Process.Steps.bump
    peer_link.Acl.Process.Steps.bump_all peer_link.Acl.Process.Steps.cache_result
    peer_link.Acl.Process.Steps.check_connection_state peer_link.Acl.Process.Steps.check_limits
    peer_link.Acl.Process.Steps.cleanup_cache peer_link.Acl.Process.Steps.default_action
    peer_link.Acl.Process.Steps.delete_all peer_link.Acl.Process.Steps.inc_cache_entry_stats
    peer_link.Acl.Process.Steps.process_packet_with_cache_entry peer_link.Acl.Process.conn_track_key
    peer_link.Acl.Process.delete peer_link.Acl.Process.increment_stat peer_link.Acl.Process.insert
    peer_link.Acl.Rules.add_chains peer_link.Acl.Rules.extend peer_link.Acl.Rules.convert_rules
    peer_link.Acl.Rules.insert_by_priority peer_link.Acl.Rules.convert_to_fast_lookup_rule
    peer_link.Acl.Rules.alloc peer_link.Acl.Rules.build_default_actions
    peer_link.Acl.Rules.default_action_of peer_link.Acl.Matching.rule_matches
    peer_link.TokenBucket.new peer_link.TokenBucket.new_from_cfg peer_link.TokenBucket.try_consume
    peer_link.Acl.Parse.digits_u16 peer_link.Acl.Parse.parse_u16 peer_link.Acl.Parse.split_once
    peer_link.Acl.Parse.trim peer_link.Acl.Parse.trim_end peer_link.Acl.Parse.trim_start
third_dropped = refl

-- A limited rule counts each of its packets twice.
counted_twice :
    (process_packet cidr 1 packet inbound start >>= λ r. done ((r.0.heap.at 0).stat.packet_count))
    ≡ done 2
unfolding process_packet new_with_shared_state lookup first_match sort_by_priority build_rules
    from_packet_info parse_port_range peer_link.Acl.Process.Handle.apply_rules
    peer_link.Acl.Process.Handle.apply_rule peer_link.Acl.Process.Handle.limit_rule
    peer_link.Acl.Process.Handle.answer peer_link.Acl.Process.Handle.apply_default
    peer_link.Acl.Process.Handle.rule_entry peer_link.Acl.Process.Handle.rule_result
    peer_link.Acl.Process.Steps.rules_of peer_link.Acl.Process.Steps.check_rate_limit
    peer_link.Acl.Process.Steps.bucket_of peer_link.Acl.Process.Steps.bump
    peer_link.Acl.Process.Steps.bump_all peer_link.Acl.Process.Steps.cache_result
    peer_link.Acl.Process.Steps.check_connection_state peer_link.Acl.Process.Steps.check_limits
    peer_link.Acl.Process.Steps.cleanup_cache peer_link.Acl.Process.Steps.default_action
    peer_link.Acl.Process.Steps.delete_all peer_link.Acl.Process.Steps.inc_cache_entry_stats
    peer_link.Acl.Process.Steps.process_packet_with_cache_entry peer_link.Acl.Process.conn_track_key
    peer_link.Acl.Process.delete peer_link.Acl.Process.increment_stat peer_link.Acl.Process.insert
    peer_link.Acl.Rules.add_chains peer_link.Acl.Rules.extend peer_link.Acl.Rules.convert_rules
    peer_link.Acl.Rules.insert_by_priority peer_link.Acl.Rules.convert_to_fast_lookup_rule
    peer_link.Acl.Rules.alloc peer_link.Acl.Rules.build_default_actions
    peer_link.Acl.Rules.default_action_of peer_link.Acl.Matching.rule_matches
    peer_link.TokenBucket.new peer_link.TokenBucket.new_from_cfg peer_link.TokenBucket.try_consume
    peer_link.Acl.Parse.digits_u16 peer_link.Acl.Parse.parse_u16 peer_link.Acl.Parse.split_once
    peer_link.Acl.Parse.trim peer_link.Acl.Parse.trim_end peer_link.Acl.Parse.trim_start
counted_twice = refl

process_packet-IsSound_example :
    (t : AclProcessor) × (r : AclResult) × (process_packet cidr 1 packet inbound start
      ≡ done (t, r))
    × IsSound t
unfolding new_with_shared_state
process_packet-IsSound_example = process_packet-IsSound cidr 1 packet inbound start tt

process_packet_miss_example :
    (t : AclProcessor) × (r : AclResult) × (process_packet cidr 1 packet inbound start
      ≡ done (t, r))
    × IsAnswer cidr inbound packet start r
unfolding new_with_shared_state lookup
process_packet_miss_example = process_packet_miss cidr 1 packet inbound start tt refl

process_all_lem_example :
    (t : AclProcessor) × (rs : List AclResult) × (process_all cidr
        ((1, packet, inbound) ∷ (2, packet, outbound) ∷ [])
        (new_with_shared_state cidr (some (chain ∷ [])) empty_heap none none none)
      ≡ done (t, rs))
    × (length rs ≡ 2)
process_all_lem_example =
    process_all_lem cidr (some (chain ∷ [])) empty_heap none none none
      ((1, packet, inbound) ∷ (2, packet, outbound) ∷ [])

abbrev low : FastLookupRule
low = record {
  priority = 1;
  protocol = any;
  src_ip_ranges = [];
  dst_ip_ranges = [];
  src_port_ranges = [];
  dst_port_ranges = [];
  source_groups = [];
  destination_groups = [];
  action = allow;
  enabled = true;
  stateful = false;
  rate_limit = 0;
  burst_limit = 0;
  rule_stats = 0;
}

first_match-sort_by_priority_example :
    IsDecisive cidr packet
      (low ∷ record low { priority = 7 } ∷ [])
      (first_match cidr packet (sort_by_priority (low ∷ record low { priority = 7 } ∷ [])))
first_match-sort_by_priority_example =
    first_match-sort_by_priority cidr packet (low ∷ record low { priority = 7 } ∷ [])

rule_matches_lem_example :
    (rule_matches cidr (record low { dst_port_ranges = (80, 90) ∷ [] }) packet ≡ true)
    ↔ Matches cidr (record low { dst_port_ranges = (80, 90) ∷ [] }) packet
rule_matches_lem_example =
    rule_matches_lem cidr (record low { dst_port_ranges = (80, 90) ∷ [] }) packet

abbrev connection : ℕ → ConnTrackEntry
connection last_seen = record {
  src_addr = (packet.src_ip, 1000);
  dst_addr = (packet.dst_ip, 85);
  protocol = tcp;
  state = established;
  created_at = 1;
  last_seen = last_seen;
  packet_count = 2;
  byte_count = 200;
}

-- Seen 10 and 100 seconds before.
abbrev connections : Connections
connections =
    (conn_track_key packet, connection 190)
    ∷ (conn_track_key (record packet { src_port = none }), connection 100)
    ∷ []

connections-seen :
    (e : ConnTrackEntry)
    → lookup same_conn (conn_track_key packet) connections ≡ some e
    → e.last_seen < 2 ^ 64
unfolding lookup conn_track_key
connections-seen e f =
    let g : connection 190 ≡ e = cc f in subst (λ x. x.last_seen < 2 ^ 64) g (omega arith)

cleanup_expired_connections_lem_example :
    IsLeft 60 200
      (lookup same_conn (conn_track_key packet) connections)
      (lookup same_conn (conn_track_key packet) (cleanup_expired_connections 200 60 connections))
unfolding lookup conn_track_key
cleanup_expired_connections_lem_example =
    cleanup_expired_connections_lem 60 200 connections (conn_track_key packet) (refl, (refl, tt))
      (omega arith) connections-seen

only_one_left : length (cleanup_expired_connections 200 60 connections) ≡ 1
unfolding cleanup_expired_connections keys_to_remove delete_keys peer_link.Acl.Process.delete
    conn_track_key
only_one_left = refl

-- ===== src/Acl/Process.antt =====
-- common/acl_processor.rs: a packet goes through the rules of a chain, whose answer is cached. Every
-- call takes the time of day in seconds; the tables of the processor are association lists, and two
-- connections have the same text as key when they have the same four parts.
pub mod Steps
pub mod Handle
pub mod Tables
pub mod Safety
pub mod RuleSafety
pub mod Decision
pub mod Answers
pub mod Priority
pub mod Expiry
use peer_link.Common.{
  ℕ, ◌+◌, ◌-◌, ◌*◌, ◌/◌, ◌%◌, ◌^◌, Bool, true, false, List, [], ◌∷◌, ◌++◌, ◌&&◌, ◌||◌, not, Option,
  none, some, ◌==◌, leb, ltb, if◌then◌else◌, Exec, done, panic, ◌>>=◌, length, map, take,
}
unfoldable pub use peer_link.Common.Tables.{lookup, insert, delete}
use peer_link.Acl.{
  Text, Protocol, protocol_number, Action, noop, allow, drop_packet, action_number, ChainType,
  unspecified_chain, inbound, outbound, forward, chain_number, IpAddr, CidrCrate, Chain,
  FastLookupRule, PacketInfo, Heap, StatItem, RuleStats, same_addr, same_texts, port_or_zero,
}
use peer_link.Acl.Rules.{zero_stat, alloc, build_rules, build_default_actions, RuleSets}
use peer_link.Acl.Matching.{rule_matches}
use peer_link.TokenBucket.{TokenBucket, try_consume}
use peer_link.TokenBucket as Bucket

pub record RateLimitKey : Type 0 where
  pub chain_type : ChainType
  pub rule_priority : ℕ

pub data RuleId : Type 0 where
  by_priority : (p : ℕ) → RuleId
  stateful : (p : ℕ) → RuleId
  by_default : RuleId

pub data AclLogContext : Type 0 where
  stateful_match : (src_ip dst_ip : IpAddr) → AclLogContext
  rule_match : (src_ip dst_ip : IpAddr) (action : Action) → AclLogContext
  default_drop : AclLogContext
  default_allow : AclLogContext
  unsupported_chain_type : AclLogContext
  rate_limit_drop : AclLogContext

pub record AclResult : Type 0 where
  pub action : Action
  pub matched_rule : Option RuleId
  pub should_log : Bool
  pub log_context : Option AclLogContext

pub record AclCacheKey : Type 0 where
  pub chain_type : ChainType
  pub protocol : Protocol
  pub src_ip : IpAddr
  pub dst_ip : IpAddr
  pub src_port : ℕ
  pub dst_port : ℕ
  pub src_groups : List Text
  pub dst_groups : List Text

pub record ConnKey : Type 0 where
  pub src_ip : IpAddr
  pub src_port : ℕ
  pub dst_ip : IpAddr
  pub dst_port : ℕ

pub record AclCacheEntry : Type 0 where
  pub action : Action
  pub matched_rule : RuleId
  pub last_access : ℕ
  pub conn_track_key : Option ConnKey
  pub rate_limit_keys : List RateLimitKey
  pub chain_type : ChainType
  pub acl_result : Option AclResult
  pub rule_stats_vec : List ℕ

pub data ConnState : Type 0 where
  new_state : ConnState
  established : ConnState
  related : ConnState
  invalid : ConnState

pub record ConnTrackEntry : Type 0 where
  pub src_addr : IpAddr × ℕ
  pub dst_addr : IpAddr × ℕ
  pub protocol : Protocol
  pub state : ConnState
  pub created_at : ℕ
  pub last_seen : ℕ
  pub packet_count : ℕ
  pub byte_count : ℕ

-- The counters that the processor itself increments.
pub data AclStatKey : Type 0 where
  cache_hits : AclStatKey
  rule_matches_count : AclStatKey
  default_allows : AclStatKey
  default_drops : AclStatKey

abbrev stat_number : AclStatKey → ℕ
stat_number cache_hits = 0
stat_number rule_matches_count = 3
stat_number default_allows = 4
stat_number default_drops = 5

pub record AclProcessor : Type 0 where
  pub rules : RuleSets
  pub default_inbound_action : Action
  pub default_outbound_action : Action
  pub default_forward_action : Action
  pub default_rule_stats : ℕ
  pub conn_track : List (ConnKey × ConnTrackEntry)
  pub rate_limiters : List (RateLimitKey × TokenBucket)
  pub rule_cache : List (AclCacheKey × AclCacheEntry)
  pub cache_max_size : ℕ
  pub stats : List (AclStatKey × ℕ)
  pub heap : Heap

abbrev pub same_limit : RateLimitKey → RateLimitKey → Bool
same_limit a b =
    chain_number a.chain_type == chain_number b.chain_type && a.rule_priority == b.rule_priority

abbrev pub same_conn : ConnKey → ConnKey → Bool
same_conn a b =
    same_addr a.src_ip b.src_ip
    && a.src_port == b.src_port
    && same_addr a.dst_ip b.dst_ip
    && a.dst_port == b.dst_port

abbrev pub same_cache_key : AclCacheKey → AclCacheKey → Bool
same_cache_key a b =
    chain_number a.chain_type == chain_number b.chain_type
    && protocol_number a.protocol == protocol_number b.protocol
    && same_addr a.src_ip b.src_ip
    && same_addr a.dst_ip b.dst_ip
    && a.src_port == b.src_port
    && a.dst_port == b.dst_port
    && same_texts a.src_groups b.src_groups
    && same_texts a.dst_groups b.dst_groups

abbrev pub same_stat : AclStatKey → AclStatKey → Bool
same_stat a b = stat_number a == stat_number b

abbrev pub wrap : ℕ → ℕ
wrap n = n % 2 ^ 64

unfoldable pub from_packet_info : PacketInfo → ChainType → AclCacheKey
from_packet_info packet chain = record {
  chain_type = chain;
  protocol = packet.protocol;
  src_ip = packet.src_ip;
  dst_ip = packet.dst_ip;
  src_port = port_or_zero packet.src_port;
  dst_port = port_or_zero packet.dst_port;
  src_groups = packet.src_groups;
  dst_groups = packet.dst_groups;
}

unfoldable pub conn_track_key : PacketInfo → ConnKey
conn_track_key packet = record {
  src_ip = packet.src_ip;
  src_port = port_or_zero packet.src_port;
  dst_ip = packet.dst_ip;
  dst_port = port_or_zero packet.dst_port;
}

-- `new_with_shared_state`: the cache starts empty.
unfoldable pub new_with_shared_state :
    CidrCrate
    → Option (List Chain)
    → Heap
    → Option (List (ConnKey × ConnTrackEntry))
    → Option (List (RateLimitKey × TokenBucket))
    → Option (List (AclStatKey × ℕ))
    → AclProcessor
unfolding build_rules build_default_actions alloc
new_with_shared_state cidr config heap conn_track rate_limiters stats =
    let (built, rules) = build_rules cidr config heap in
    let (inbound_action, outbound_action, forward_action) = build_default_actions config in
    let (allocated, place) = alloc none built in
    record {
      rules = rules;
      default_inbound_action = inbound_action;
      default_outbound_action = outbound_action;
      default_forward_action = forward_action;
      default_rule_stats = place;
      conn_track = elim conn_track [ none ↦ [] | some t ↦ t ];
      rate_limiters = elim rate_limiters [ none ↦ [] | some t ↦ t ];
      rule_cache = [];
      cache_max_size = 10000;
      stats = elim stats [ none ↦ [] | some t ↦ t ];
      heap = allocated;
    }

-- `increment_stat`
abbrev pub count_up : Option ℕ → ℕ
count_up none = 1
count_up (some n) = wrap (n + 1)

unfoldable pub increment_stat : AclStatKey → AclProcessor → AclProcessor
unfolding lookup insert
increment_stat k s = record s {
  stats = insert same_stat k (count_up (lookup same_stat k s.stats)) s.stats;
}

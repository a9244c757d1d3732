-- ===== src/Acl.antt =====
-- common/acl_processor.rs: the types of the packet filter, from proto/acl.proto and the code. A text is
-- the list of its characters. What is shared behind an `Arc<RuleStats>` stands in a heap, and a rule
-- holds its place there; a counter wraps at 2 ^ 64.
pub mod Parse
pub mod Rules
pub mod Matching
pub mod Process
mod Tests
use peer_link.Common.{
  ℕ, ◌+◌, ◌*◌, ◌%◌, ◌^◌, Bool, true, false, List, [], ◌∷◌, ◌&&◌, ◌||◌, not, Option, none, some,
  ◌==◌, if◌then◌else◌,
}
pub use peer_link.Common.Tables.{Text, same_text}

pub data Protocol : Type 0 where
  unspecified : Protocol
  tcp : Protocol
  udp : Protocol
  icmp : Protocol
  icmpv6 : Protocol
  any : Protocol

pub data Action : Type 0 where
  noop : Action
  allow : Action
  drop_packet : Action

pub data ChainType : Type 0 where
  unspecified_chain : ChainType
  inbound : ChainType
  outbound : ChainType
  forward : ChainType

abbrev pub protocol_number : Protocol → ℕ
protocol_number unspecified = 0
protocol_number tcp = 1
protocol_number udp = 2
protocol_number icmp = 3
protocol_number icmpv6 = 4
protocol_number any = 5

abbrev pub action_number : Action → ℕ
action_number noop = 0
action_number allow = 1
action_number drop_packet = 2

abbrev pub chain_number : ChainType → ℕ
chain_number unspecified_chain = 0
chain_number inbound = 1
chain_number outbound = 2
chain_number forward = 3

pub data IpAddr : Type 0 where
  v4 : (bits : ℕ) → IpAddr
  v6 : (bits : ℕ) → IpAddr

-- The crate `cidr`: a block is an address and the length of its prefix.
pub data IpCidr : Type 0 where
  cidr4 : (address network_length : ℕ) → IpCidr
  cidr6 : (address network_length : ℕ) → IpCidr

pub record CidrCrate : Type 0 where
  pub contains_v4 : (address network_length : ℕ) → ℕ → Bool
  pub contains_v6 : (address network_length : ℕ) → ℕ → Bool
  pub from_str : Text → Option IpCidr

pub record Rule : Type 0 where
  pub priority : ℕ
  pub enabled : Bool
  pub protocol : Protocol
  pub ports : List Text
  pub source_ips : List Text
  pub destination_ips : List Text
  pub source_ports : List Text
  pub action : Action
  pub rate_limit : ℕ
  pub burst_limit : ℕ
  pub stateful : Bool
  pub source_groups : List Text
  pub destination_groups : List Text

pub record Chain : Type 0 where
  pub chain_type : ChainType
  pub enabled : Bool
  pub rules : List Rule
  pub default_action : Action

pub record StatItem : Type 0 where
  pub packet_count : ℕ
  pub byte_count : ℕ

pub record RuleStats : Type 0 where
  pub rule : Option Rule
  pub stat : StatItem

-- The places handed out so far are those below `next`.
pub record Heap : Type 0 where
  pub next : ℕ
  pub at : ℕ → RuleStats

pub record FastLookupRule : Type 0 where
  pub priority : ℕ
  pub protocol : Protocol
  pub src_ip_ranges : List IpCidr
  pub dst_ip_ranges : List IpCidr
  pub src_port_ranges : List (ℕ × ℕ)
  pub dst_port_ranges : List (ℕ × ℕ)
  pub source_groups : List Text
  pub destination_groups : List Text
  pub action : Action
  pub enabled : Bool
  pub stateful : Bool
  pub rate_limit : ℕ
  pub burst_limit : ℕ
  pub rule_stats : ℕ

pub record PacketInfo : Type 0 where
  pub src_ip : IpAddr
  pub dst_ip : IpAddr
  pub src_port : Option ℕ
  pub dst_port : Option ℕ
  pub protocol : Protocol
  pub packet_size : ℕ
  pub src_groups : List Text
  pub dst_groups : List Text

abbrev pub same_texts : List Text → List Text → Bool
same_texts [] [] = true
same_texts (x ∷ xs) (y ∷ ys) = same_text x y && same_texts xs ys
same_texts _ _ = false

abbrev pub same_addr : IpAddr → IpAddr → Bool
same_addr (v4 a) (v4 b) = a == b
same_addr (v6 a) (v6 b) = a == b
same_addr _ _ = false

abbrev pub port_or_zero : Option ℕ → ℕ
port_or_zero none = 0
port_or_zero (some p) = p

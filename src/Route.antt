-- ===== src/Route.antt =====
-- peers/peer_ospf_route.rs: what a peer knows of the network and tells the others. The concurrent
-- maps are association lists, an atomic version is a number below 2 ^ 32, a set of peers is an
-- increasing list.
pub mod Synced
pub mod Known
pub mod Taken
pub mod Newest
pub mod Duplicate
pub mod Bitmap
pub mod Learn
pub mod Session
pub mod Graph
pub mod Table
pub mod Trust
pub mod Handler
pub mod Samples
mod Tests
use peer_link.Common.{
  ℕ, ◌+◌, ◌%◌, ◌^◌, Bool, true, false, List, [], ◌∷◌, ◌&&◌, Option, none, some, ◌==◌, ltb,
  if◌then◌else◌,
}
use peer_link.Common.Tables.{Text, same_text}

-- proto/common.proto
pub record Uuid : Type 0 where
  pub part1 : ℕ
  pub part2 : ℕ
  pub part3 : ℕ
  pub part4 : ℕ

pub record Ipv4Addr : Type 0 where
  pub addr : ℕ

pub record Ipv6Addr : Type 0 where
  pub part1 : ℕ
  pub part2 : ℕ
  pub part3 : ℕ
  pub part4 : ℕ

pub record Ipv6Inet : Type 0 where
  pub address : Option Ipv6Addr
  pub network_length : ℕ

pub record PeerFeatureFlag : Type 0 where
  pub is_public_server : Bool
  pub avoid_relay_data : Bool
  pub kcp_input : Bool
  pub no_relay_kcp : Bool

-- A time at or after the epoch.
pub record Timestamp : Type 0 where
  pub seconds : ℕ
  pub nanos : ℕ

pub record PeerGroupInfo : Type 0 where
  pub group_name : Text
  pub group_proof : List ℕ

pub record RoutePeerInfo : Type 0 where
  pub peer_id : ℕ
  pub inst_id : Option Uuid
  pub cost : ℕ
  pub ipv4_addr : Option Ipv4Addr
  pub proxy_cidrs : List Text
  pub hostname : Option Text
  pub udp_stun_info : ℕ
  pub last_update : Option Timestamp
  pub version : ℕ
  pub peerlink_version : Text
  pub feature_flag : Option PeerFeatureFlag
  pub peer_route_id : ℕ
  pub network_length : ℕ
  pub quic_port : Option ℕ
  pub ipv6_addr : Option Ipv6Inet
  pub groups : List PeerGroupInfo

-- The program's version and the present time are the caller's.
unfoldable pub new_peer_info : (peerlink_version : Text) (now : Timestamp) → RoutePeerInfo
new_peer_info peerlink_version now = record {
  peer_id = 0;
  inst_id = some (record { part1 = 0; part2 = 0; part3 = 0; part4 = 0 });
  cost = 0;
  ipv4_addr = none;
  proxy_cidrs = [];
  hostname = none;
  udp_stun_info = 0;
  last_update = some now;
  version = 0;
  peerlink_version = peerlink_version;
  feature_flag = none;
  peer_route_id = 0;
  network_length = 24;
  quic_port = none;
  ipv6_addr = none;
  groups = [];
}

-- `peer_ids` with their versions, and a bit for each pair of them.
pub record RouteConnBitmap : Type 0 where
  pub peer_ids : List (ℕ × ℕ)
  pub bitmap : List ℕ

pub record ForeignNetworkRouteInfoKey : Type 0 where
  pub peer_id : ℕ
  pub network_name : Text

pub record ForeignNetworkRouteInfoEntry : Type 0 where
  pub foreign_peer_ids : List ℕ
  pub last_update : Option Timestamp
  pub version : ℕ
  pub network_secret_digest : List ℕ
  pub my_peer_id_for_this_network : ℕ

-- `route_foreign_network_infos::Info`
pub record ForeignNetworkInfo : Type 0 where
  pub key : Option ForeignNetworkRouteInfoKey
  pub value : Option ForeignNetworkRouteInfoEntry

abbrev pub same_network : ForeignNetworkRouteInfoKey → ForeignNetworkRouteInfoKey → Bool
same_network j k = j.peer_id == k.peer_id && same_text j.network_name k.network_name

pub data Error : Type 0 where
  duplicate_peer_id stopped : Error

pub data Result (A : Type 0) : Type 0 where
  ok : A → Result A
  err : Error → Result A

-- `AtomicVersion::inc`, which wraps around.
abbrev pub inc : ℕ → ℕ
inc v = (v + 1) % 2 ^ 32

-- `AtomicVersion::set_if_larger`: the version kept, and whether it was set.
unfoldable pub set_if_larger : ℕ → ℕ → ℕ × Bool
set_if_larger old version = if ltb old version then (version, true) else (old, false)

-- Everything synced from all peers. A `DynamicMessage` is a `Raw`.
pub record SyncedRouteInfo (Raw : Type 0) : Type 0 where
  pub peer_infos : List (ℕ × RoutePeerInfo)
  pub raw_peer_infos : List (ℕ × Raw)
  pub conn_map : List (ℕ × (List ℕ × ℕ))
  pub foreign_network : List (ForeignNetworkRouteInfoKey × ForeignNetworkRouteInfoEntry)
  pub group_trust_map : List (ℕ × List (Text × List ℕ))
  pub group_trust_map_cache : List (ℕ × List Text)
  pub version : ℕ

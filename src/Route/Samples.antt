-- ===== src/Route/Samples.antt =====
-- peers/peer_ospf_route.rs: concrete peers for the tests.
use peer_link.Common.{ℕ, List, [], ◌∷◌, Option, none, some}
use peer_link.Route.{Timestamp, RoutePeerInfo, SyncedRouteInfo}

abbrev pub noon : Timestamp
noon = record { seconds = 1700000000; nanos = 0 }

-- The info of a peer, with its route id and its version.
abbrev pub info : (peer_id peer_route_id version : ℕ) → RoutePeerInfo
info p r v = record {
  peer_id = p;
  inst_id = none;
  cost = 0;
  ipv4_addr = none;
  proxy_cidrs = [];
  hostname = none;
  udp_stun_info = 0;
  last_update = none;
  version = v;
  peerlink_version = [];
  feature_flag = none;
  peer_route_id = r;
  network_length = 24;
  quic_port = none;
  ipv6_addr = none;
  groups = [];
}

-- A raw message is the number of its peer.
abbrev pub raw_id : ℕ → Option ℕ
raw_id p = some p

abbrev pub state : List (ℕ × RoutePeerInfo) → SyncedRouteInfo ℕ
state infos = record {
  peer_infos = infos;
  raw_peer_infos = [];
  conn_map = (1, (2 ∷ [], 4)) ∷ (2, (1 ∷ 3 ∷ [], 5)) ∷ (3, ([], 0)) ∷ [];
  foreign_network = [];
  group_trust_map = [];
  group_trust_map_cache = [];
  version = 7;
}

-- What the peer 2 has.
abbrev pub sender : SyncedRouteInfo ℕ
sender = state ((1, info 1 11 3) ∷ (2, info 2 22 6) ∷ (3, info 3 33 8) ∷ [])

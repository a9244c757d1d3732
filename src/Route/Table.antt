-- ===== src/Route/Table.antt =====
-- peers/peer_ospf_route.rs: `RouteTable`, computed from what is synced. A node of the graph is named by
-- its peer; the edges of a node are listed in the order in which they are added. What the cost calculator
-- answers is a parameter, as a number that is not negative.
pub mod NextHops
pub mod Reachable
mod Tests
use peer_link.Common.{
  ℕ, ◌+◌, ◌-◌, ◌^◌, ◌%◌, Bool, true, false, not, List, [], ◌∷◌, ◌&&◌, Option, none, some, ◌==◌, ltb,
  leb, if◌then◌else◌, Exec, done, ◌>>=◌, unwrap,
}
use peer_link.Common.Tables.{lookup, insert}
use peer_link.Route.{RoutePeerInfo, Ipv4Addr, Ipv6Addr, SyncedRouteInfo, set_if_larger}
use peer_link.Route.Synced.{get_connected_peers, get_avoid_relay_data, unwrap_or}
use peer_link.Route.Graph.{dijkstra_with_first_hop}

pub record NextHopInfo : Type 0 where
  pub next_hop_peer_id : ℕ
  pub path_latency : ℕ
  pub path_len : ℕ
  pub version : ℕ

pub record PeerIdAndVersion : Type 0 where
  pub peer_id : ℕ
  pub version : ℕ

-- `cidr::IpCidr` is a parameter.
pub record RouteTable (Cidr : Type 0) : Type 0 where
  pub peer_infos : List (ℕ × RoutePeerInfo)
  pub next_hop_map : List (ℕ × NextHopInfo)
  pub ipv4_peer_id_map : List (Ipv4Addr × PeerIdAndVersion)
  pub ipv6_peer_id_map : List (Ipv6Addr × PeerIdAndVersion)
  pub cidr_peer_id_map : List (Cidr × PeerIdAndVersion)
  pub next_hop_map_version : ℕ

abbrev pub avoid_relay_cost : ℕ
avoid_relay_cost = 2 ^ 31 - 1

-- A next hop of the present version, or a later one.
unfoldable pub current : (cur_version : ℕ) → Option NextHopInfo → Option NextHopInfo
current cur_version none = none
current cur_version (some x) = if leb cur_version x.version then some x else none

abbrev pub is_some : {A : Type 0} → Option A → Bool
is_some none = false
is_some (some _) = true

-- The infos of the peers that are in the graph: those of version 0 are not.
abbrev pub has_version : Option RoutePeerInfo → Bool
has_version none = false
has_version (some info) = not (info.version == 0)

module _ {Raw : Type 0} (calculate_cost : ℕ → ℕ → ℕ) (s : SyncedRouteInfo Raw) where
  unfoldable pub is_node : ℕ → Bool
  is_node p = has_version (lookup ◌==◌ p s.peer_infos)

  unfoldable pub edge_cost : (src dst : ℕ) → ℕ
  edge_cost src dst =
      if get_avoid_relay_data src s
      then calculate_cost src dst + avoid_relay_cost
      else calculate_cost src dst

  unfoldable pub edges_to : (src : ℕ) → List ℕ → List (ℕ × ℕ)
  edges_to src [] = []
  edges_to src (dst ∷ dsts) =
      let rest = edges_to src dsts in if is_node dst then (dst, edge_cost src dst) ∷ rest else rest

  -- The graph of `build_peer_graph_from_synced_info`, by the edges of each peer.
  unfoldable pub peer_edges : ℕ → List (ℕ × ℕ)
  peer_edges src =
      if is_node src then edges_to src (unwrap_or [] (get_connected_peers src s)) else []

-- `next_hop_map.entry(dst)`
unfoldable pub newer_hop :
    Option NextHopInfo → ℕ → NextHopInfo → List (ℕ × NextHopInfo) → List (ℕ × NextHopInfo)
newer_hop none dst info t = insert ◌==◌ dst info t
newer_hop (some x) dst info t = if ltb x.version info.version then insert ◌==◌ dst info t else t

abbrev pub hop_info : (version cost : ℕ) → ℕ × ℕ → NextHopInfo
hop_info version cost (next_hop, path_len) = record {
  next_hop_peer_id = next_hop;
  path_latency = cost % avoid_relay_cost;
  path_len = path_len;
  version = version;
}

-- The loop of `gen_next_hop_map_with_least_cost`.
unfoldable pub put_next_hops :
    (version : ℕ) (costs : List (ℕ × ℕ))
    → List (ℕ × (ℕ × ℕ))
    → List (ℕ × NextHopInfo)
    → Exec (List (ℕ × NextHopInfo))
put_next_hops version costs [] t = done t
put_next_hops version costs ((dst, hop) ∷ rest) t = unwrap (lookup ◌==◌ dst costs) >>= λ cost.
    put_next_hops version costs rest
      (newer_hop (lookup ◌==◌ dst t) dst (hop_info version cost hop) t)

-- The entries whose values, or keys, pass a test.
unfoldable pub retain : {K V : Type 0} → (K → V → Bool) → List (K × V) → List (K × V)
retain test [] = []
retain test ((k, v) ∷ rest) = if test k v then (k, v) ∷ retain test rest else retain test rest

abbrev pub has_key : {V : Type 0} → ℕ → List (ℕ × V) → Bool
has_key k t = is_some (lookup ◌==◌ k t)

module _ {Cidr : Type 0} where
  unfoldable pub get_next_hop : ℕ → RouteTable Cidr → Option NextHopInfo
  get_next_hop dst t = current t.next_hop_map_version (lookup ◌==◌ dst t.next_hop_map)

  unfoldable pub peer_reachable : ℕ → RouteTable Cidr → Bool
  peer_reachable p t = is_some (get_next_hop p t)

  unfoldable pub gen_next_hop_map_with_least_cost :
      (fuel : ℕ) (edges : ℕ → List (ℕ × ℕ)) (start version : ℕ)
      → RouteTable Cidr
      → Exec (RouteTable Cidr)
  gen_next_hop_map_with_least_cost fuel edges start version t =
      dijkstra_with_first_hop edges start fuel >>= λ found.
      put_next_hops version found.0 found.1 t.next_hop_map >>= λ next_hops. done (record t {
        next_hop_map = next_hops;
        next_hop_map_version = (set_if_larger t.next_hop_map_version version).0;
      })

  unfoldable pub clean_expired_route_info : RouteTable Cidr → RouteTable Cidr
  clean_expired_route_info t =
      let next_hops = retain (λ k v. leb t.next_hop_map_version v.version) t.next_hop_map in
      record t {
        next_hop_map = next_hops;
        peer_infos = retain (λ k v. has_key k next_hops) t.peer_infos;
        ipv4_peer_id_map = retain (λ k v. has_key v.peer_id next_hops) t.ipv4_peer_id_map;
        ipv6_peer_id_map = retain (λ k v. has_key v.peer_id next_hops) t.ipv6_peer_id_map;
        cidr_peer_id_map = retain (λ k v. has_key v.peer_id next_hops) t.cidr_peer_id_map;
      }

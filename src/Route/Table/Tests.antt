-- ===== src/Route/Table/Tests.antt =====
-- peers/peer_ospf_route.rs: a route table computed from concrete peers.
use peer_link.Common.{
  ℕ, ◌+◌, ◌<◌, ◌≤◌, ◌≡◌, refl, ap, inl, inr, true, false, [], ◌∷◌, Option, none, some, ◌==◌, ==_iff,
  Bool-cases, done, arith,
}
use peer_link.Common.Tables.{lookup}
use peer_link.Route.Synced.{get_connected_peers, get_avoid_relay_data}
use peer_link.Route.Graph.Invariant.{Walk}
use peer_link.Route.Graph.Shortest.{edge_count}
use peer_link.Route.Samples.{sender}
use peer_link.Route.Table.{
  NextHopInfo, RouteTable, is_node, edges_to, edge_cost, peer_edges, get_next_hop, peer_reachable,
  gen_next_hop_map_with_least_cost,
}
use peer_link.Route.Table.Reachable.{IsLeast, IsOlder, get_next_hop-peer_edges}

abbrev ten : ℕ → ℕ → ℕ
ten src dst = 10

-- An outdated entry for the peer 3.
abbrev outdated : RouteTable ℕ
outdated = record {
  peer_infos = [];
  next_hop_map =
      (3, record { next_hop_peer_id = 3; path_latency = 9; path_len = 1; version = 6 }) ∷ [];
  ipv4_peer_id_map = [];
  ipv6_peer_id_map = [];
  cidr_peer_id_map = [];
  next_hop_map_version = 6;
}

abbrev version_of : Option NextHopInfo → ℕ
version_of none = 0
version_of (some x) = x.version

outdated-IsOlder : IsOlder 7 outdated
unfolding lookup
outdated-IsOlder = (
  omega arith,
  λ k x e. elim (Bool-cases (k == 3)) [
    | inl a ↦
        let f : some (record { next_hop_peer_id = 3; path_latency = 9; path_len = 1; version = 6 })
            ≡ some x =
          rw a at e in
        let g : 6 ≡ x.version = ap version_of f in omega (arith, g)
    | inr a ↦ let f : none ≡ some x = rw a at e in cc f
  ],
)

nodes_below : (p : ℕ) → is_node ten sender p ≡ true → p < 4
unfolding is_node lookup
nodes_below p h = elim (Bool-cases (p == 1)) [
  | inl a ↦ let f : p ≡ 1 = (==_iff p 1).0 a in omega (arith, f)
  | inr a ↦ elim (Bool-cases (p == 2)) [
    | inl b ↦ let f : p ≡ 2 = (==_iff p 2).0 b in omega (arith, f)
    | inr b ↦ elim (Bool-cases (p == 3)) [
      | inl c ↦ let f : p ≡ 3 = (==_iff p 3).0 c in omega (arith, f)
      | inr c ↦ let f : false ≡ true = rw (a, b, c) at h in cc f
    ]
  ]
]

start_node : is_node ten sender 2 ≡ true
unfolding is_node lookup
start_node = refl

enough : edge_count (peer_edges ten sender) 4 [] + 2 ≤ 8
unfolding peer_edges edges_to edge_cost is_node get_connected_peers get_avoid_relay_data lookup
enough = omega arith

get_next_hop-peer_edges_example :
    (t' : RouteTable ℕ) × (gen_next_hop_map_with_least_cost 8 (peer_edges ten sender) 2 7 outdated
      ≡ done t')
    × (t'.next_hop_map_version ≡ 7)
    × ((dst : ℕ) (info : NextHopInfo)
        → get_next_hop dst t' ≡ some info
        → IsLeast (peer_edges ten sender) 2 dst info)
    × ((dst first hops cost : ℕ)
        → Walk (peer_edges ten sender) 2 first hops cost dst
        → peer_reachable dst t' ≡ true)
get_next_hop-peer_edges_example =
    get_next_hop-peer_edges ten sender 2 4 8 7 outdated start_node nodes_below enough
      outdated-IsOlder

-- ===== src/Route/Table/Reachable.antt =====
-- peers/peer_ospf_route.rs: the next hops of the route table are those of least-cost walks over the peers
-- that are synced.
use peer_link.Common.{
  ℕ, ◌+◌, ◌%◌, ◌≤◌, ◌<◌, ◌≡◌, ◌⊎◌, refl, sym, ap, ap₂, ◌∙◌, subst, inl, inr, true, false, List, [],
  ◌∷◌, Option, none, some, ◌==◌, ltb, leb, Bool-cases, Option-cases, done, arith,
}
use peer_link.Common.Tables.{lookup}
use peer_link.Route.{SyncedRouteInfo, set_if_larger}
use peer_link.Route.Synced.{get_connected_peers, unwrap_or}
use peer_link.Route.Graph.Heap.{In}
use peer_link.Route.Graph.Invariant.{Walk}
use peer_link.Route.Graph.Shortest.{edge_count, dijkstra_with_first_hop-shortest}
use peer_link.Route.Table.{
  NextHopInfo, RouteTable, avoid_relay_cost, is_some, current, is_node, edges_to, peer_edges,
  hop_info, get_next_hop, peer_reachable, gen_next_hop_map_with_least_cost,
}
use peer_link.Route.Table.NextHops.{pick, hop_of, put_next_hops_lem, In-lookup}

-- What the table says of a peer: it is the start itself, or the first hop is that of a walk to the peer,
-- of which no other walk costs less.
abbrev pub IsLeast : (ℕ → List (ℕ × ℕ)) → (start dst : ℕ) → NextHopInfo → Type 0
IsLeast edges start dst info =
    ((dst ≡ start) × (info.next_hop_peer_id ≡ start) × (info.path_len ≡ 0))
    ⊎ ((cost : ℕ) × Walk edges start info.next_hop_peer_id info.path_len cost dst
        × ((first hops c : ℕ) → Walk edges start first hops c dst → cost ≤ c)
        × (info.path_latency ≡ cost % avoid_relay_cost))

-- Everything in the table is of a version before this.
abbrev pub IsOlder : {Cidr : Type 0} → (version : ℕ) → RouteTable Cidr → Type 0
IsOlder version t =
    (t.next_hop_map_version ≤ version)
    × ((k : ℕ) (x : NextHopInfo) → lookup ◌==◌ k t.next_hop_map ≡ some x → x.version < version)

set_if_larger_lem : (old v : ℕ) → old ≤ v → (set_if_larger old v).0 ≡ v
unfolding set_if_larger
set_if_larger_lem old v h = elim (Bool-cases (ltb old v)) [
  | inl e ↦ rw e refl
  | inr e ↦ rw e (ground (arith, h, e))
]

-- Of the picked entry only a hop of this version is current.
current-pick :
    (version : ℕ) (old : Option NextHopInfo) (cost : Option ℕ) (hop : Option (ℕ × ℕ))
    → ((x : NextHopInfo) → old ≡ some x → x.version < version)
    → current version (pick version old (hop_of version cost hop)) ≡ hop_of version cost hop
unfolding current
current-pick version none none hop h = refl
current-pick version none (some c) none h = refl
current-pick version none (some c) (some p) h =
    let l : leb version version ≡ true = ground arith in rw l refl
current-pick version (some x) none hop h =
    let o = h x refl in let l : leb version x.version ≡ false = ground (arith, o) in rw l refl
current-pick version (some x) (some c) none h =
    let o = h x refl in let l : leb version x.version ≡ false = ground (arith, o) in rw l refl
current-pick version (some x) (some c) (some p) h =
    let o = h x refl in
    let l : ltb x.version version ≡ true = ground (arith, o) in
    let m : leb version version ≡ true = ground arith in rw l (rw m refl)

module _ (edges : ℕ → List (ℕ × ℕ)) (start : ℕ) (version : ℕ) (costs : List (ℕ × ℕ))
    (hops : List (ℕ × (ℕ × ℕ))) (home : lookup ◌==◌ start hops ≡ some (start, 0))
    (reached : (w d : ℕ)
      → lookup ◌==◌ w costs ≡ some d
      → ((w ≡ start) × (d ≡ 0))
        ⊎ ((first : ℕ) × (k : ℕ) × (lookup ◌==◌ w hops ≡ some (first, k))
            × Walk edges start first k d w)) where
  scored-hop :
      (w d : ℕ) → lookup ◌==◌ w costs ≡ some d → (hop : ℕ × ℕ) × (lookup ◌==◌ w hops ≡ some hop)
  scored-hop w d e = elim (reached w d e) [
    | inl (f, z) ↦ ((start, 0), ap (λ x. lookup ◌==◌ x hops) f ∙ home)
    | inr (first, k, f, walk) ↦ ((first, k), f)
  ]

  module _
      (within : (first k cost w : ℕ)
        → Walk edges start first k cost w
        → (d : ℕ) × (lookup ◌==◌ w costs ≡ some d) × (d ≤ cost)) where
    least_cost :
        (dst d : ℕ)
        → lookup ◌==◌ dst costs ≡ some d
        → (first k c : ℕ) → Walk edges start first k c dst
        → d ≤ c
    least_cost dst d e first k c walk =
        let (x, f, l) = within first k c dst walk in
        let g : some x ≡ some d = sym f ∙ e in let h : x ≡ d = cc g in omega (arith, l, h)

    hop_of-IsLeast :
        (dst : ℕ) (info : NextHopInfo)
        → hop_of version (lookup ◌==◌ dst costs) (lookup ◌==◌ dst hops) ≡ some info
        → IsLeast edges start dst info
    hop_of-IsLeast dst info e = elim (Option-cases (lookup ◌==◌ dst costs)) [
      | inl f ↦
          let g : none ≡ some info =
            ap (λ z. hop_of version z (lookup ◌==◌ dst hops)) (sym f) ∙ e in
          cc g
      | inr (d, f) ↦ elim (reached dst d f) [
        | inl (q, z) ↦
            let h : lookup ◌==◌ dst hops ≡ some (start, 0) =
              ap (λ x. lookup ◌==◌ x hops) q ∙ home in
            let g : some (hop_info version d (start, 0)) ≡ some info =
              sym (ap₂ (hop_of version) f h) ∙ e in
            let i : hop_info version d (start, 0) ≡ info = cc g in
            subst (IsLeast edges start dst) i (inl (q, refl, refl))
        | inr (first, k, h, walk) ↦
            let g : some (hop_info version d (first, k)) ≡ some info =
              sym (ap₂ (hop_of version) f h) ∙ e in
            let i : hop_info version d (first, k) ≡ info = cc g in
            subst (IsLeast edges start dst) i (inr (d, walk, least_cost dst d f, refl))
      ]
    ]

module _ {Cidr : Type 0} (edges : ℕ → List (ℕ × ℕ)) (start n fuel version : ℕ)
    (t : RouteTable Cidr) where
  -- After the search a next hop is current exactly if the search has found one.
  gen_next_hop_map_lem :
      start < n
      → ((u w c : ℕ) → In (w, c) (edges u) → w < n)
      → edge_count edges n [] + 2 ≤ fuel
      → IsOlder version t
      → (t' : RouteTable Cidr) × (gen_next_hop_map_with_least_cost fuel edges start version t
          ≡ done t')
        × (t'.next_hop_map_version ≡ version)
        × ((dst : ℕ) (info : NextHopInfo)
            → get_next_hop dst t' ≡ some info
            → IsLeast edges start dst info)
        × ((dst first hops cost : ℕ)
            → Walk edges start first hops cost dst
            → peer_reachable dst t' ≡ true)
  unfolding gen_next_hop_map_with_least_cost get_next_hop peer_reachable
  gen_next_hop_map_lem small targets enough (old_version, old) =
      let (costs, hops, e, started, home, hopped, reached, within) =
        dijkstra_with_first_hop-shortest edges start n fuel small targets enough in
      let (m, f, looked) =
        put_next_hops_lem version costs hops t.next_hop_map
          (λ k hop i. let (w, g) = In-lookup k hop hops i in hopped k w g) in
      let v = set_if_larger_lem t.next_hop_map_version version old_version in
      let now : (dst : ℕ)
          → current (set_if_larger t.next_hop_map_version version).0 (lookup ◌==◌ dst m)
            ≡ hop_of version (lookup ◌==◌ dst costs) (lookup ◌==◌ dst hops) =
        λ dst.
          ap₂ current v (looked dst)
          ∙ current-pick version (lookup ◌==◌ dst t.next_hop_map) (lookup ◌==◌ dst costs)
              (lookup ◌==◌ dst hops) (old dst) in
      (
        record t {
          next_hop_map = m;
          next_hop_map_version = (set_if_larger t.next_hop_map_version version).0;
        },
        (rw e (rw f refl)),
        v,
        (λ dst info g.
            hop_of-IsLeast edges start version costs hops home reached within dst info
              (sym (now dst) ∙ g)),
        (λ dst first k cost walk.
            let (d, g, l) = within first k cost dst walk in
            let (hop, h) = scored-hop edges start version costs hops home reached dst d g in
            let q : current (set_if_larger t.next_hop_map_version version).0 (lookup ◌==◌ dst m)
                ≡ some (hop_info version d hop) =
              now dst ∙ ap₂ (hop_of version) g h in
            ap is_some q),
      )

-- The edges of the graph of peers lead from peers that it has to such.
module _ {Raw : Type 0} (calculate_cost : ℕ → ℕ → ℕ) (s : SyncedRouteInfo Raw) where
  edges_to-is_node :
      (src : ℕ) (dsts : List ℕ) (w c : ℕ)
      → In (w, c) (edges_to calculate_cost s src dsts)
      → is_node calculate_cost s w ≡ true
  unfolding edges_to
  edges_to-is_node src [] w c h = absurd h
  edges_to-is_node src (d ∷ ds) w c h = elim (Bool-cases (is_node calculate_cost s d)) [
    | inl e ↦ elim (rw e at h) [
      | inl q ↦ let f : w ≡ d = ap (λ z. z.0) q in ap (is_node calculate_cost s) f ∙ e
      | inr i ↦ edges_to-is_node src ds w c i
    ]
    | inr e ↦ edges_to-is_node src ds w c (rw e at h)
  ]

  peer_edges-is_node :
      (u w c : ℕ) → In (w, c) (peer_edges calculate_cost s u) → is_node calculate_cost s w ≡ true
  unfolding peer_edges
  peer_edges-is_node u w c h = elim (Bool-cases (is_node calculate_cost s u)) [
    | inl e ↦ edges_to-is_node u (unwrap_or [] (get_connected_peers u s)) w c (rw e at h)
    | inr e ↦ absurd (rw e at h)
  ]

-- When the start is a peer of the graph, the numbers of these peers are below `n`, the fuel is that of the
-- search, and the table holds only entries of versions before this, `gen_next_hop_map_with_least_cost`
-- succeeds on the graph of the synced peers: a next hop that the table then gives is the start itself for
-- the start, or the first hop of a walk to the peer of which no other costs less, with its length and its
-- cost up to the weight of avoided relays; and every peer that a walk leads to is reachable.
pub get_next_hop-peer_edges :
    {Raw Cidr : Type 0} (calculate_cost : ℕ → ℕ → ℕ) (s : SyncedRouteInfo Raw)
    (start n fuel version : ℕ) (t : RouteTable Cidr)
    → is_node calculate_cost s start ≡ true
    → ((p : ℕ) → is_node calculate_cost s p ≡ true → p < n)
    → edge_count (peer_edges calculate_cost s) n [] + 2 ≤ fuel
    → IsOlder version t
    → (t' : RouteTable Cidr) × (gen_next_hop_map_with_least_cost fuel
          (peer_edges calculate_cost s)
          start
          version
          t
        ≡ done t')
      × (t'.next_hop_map_version ≡ version)
      × ((dst : ℕ) (info : NextHopInfo)
          → get_next_hop dst t' ≡ some info
          → IsLeast (peer_edges calculate_cost s) start dst info)
      × ((dst first hops cost : ℕ)
          → Walk (peer_edges calculate_cost s) start first hops cost dst
          → peer_reachable dst t' ≡ true)
get_next_hop-peer_edges calculate_cost s start n fuel version t node bounded enough old =
    gen_next_hop_map_lem (peer_edges calculate_cost s) start n fuel version t (bounded start node)
      (λ u w c h. bounded w (peer_edges-is_node calculate_cost s u w c h)) enough old

-- ===== src/Route/Graph/Shortest.antt =====
-- peers/graph_algo.rs: the search ends, with the least costs and the first hops of walks of these costs.
use peer_link.Common.{
  ℕ, zero, suc, ◌+◌, ◌≤◌, ◌<◌, ◌≡◌, ◌≢◌, ◌⊎◌, refl, sym, ap, ap₂, ◌∙◌, subst, inl, inr, true, false,
  List, [], ◌∷◌, none, some, ◌==◌, ==_iff, ==_refl, if◌then◌else◌, Bool-cases, done, arith, length,
}
use peer_link.Common.Tables.{lookup}
use peer_link.Route.Synced.{contains}
use peer_link.Route.Graph.{
  Entry, Search, pop_least, visit, search, initial, dijkstra_with_first_hop,
}
use peer_link.Route.Graph.Heap.{In, Pops, pop_least-Pops}
use peer_link.Route.Graph.Invariant.{score, is_visited, Within, Walk, first_edge, one_more, Inv, At}
use peer_link.Route.Graph.Visit.{visit_edges-Goes, Inv-marked}

-- The number of edges of the nodes below a number that are not visited.
abbrev pub edge_count : (edges : ℕ → List (ℕ × ℕ)) (n : ℕ) (visited : List ℕ) → ℕ
edge_count edges zero visited = 0
edge_count edges (suc v) visited =
    (if contains v visited then 0 else length (edges v)) + edge_count edges v visited

edge_count_above :
    (edges : ℕ → List (ℕ × ℕ)) (n u : ℕ) (visited : List ℕ)
    → n ≤ u
    → edge_count edges n (u ∷ visited) ≡ edge_count edges n visited
edge_count_above edges zero u visited h = refl
edge_count_above edges (suc v) u visited h = elim (Bool-cases (v == u)) [
  | inl e ↦ let f : v ≡ u = (==_iff v u).0 e in absurd (omega (arith, h, f))
  | inr e ↦ rw e (rw (edge_count_above edges v u visited (omega (arith, h))) refl)
]

edge_count_below :
    (edges : ℕ → List (ℕ × ℕ)) (n u : ℕ) (visited : List ℕ)
    → u < n
    → contains u visited ≡ false
    → length (edges u) + edge_count edges n (u ∷ visited) ≡ edge_count edges n visited
edge_count_below edges zero u visited h f = absurd (omega (arith, h))
edge_count_below edges (suc v) u visited h f = elim (Bool-cases (v == u)) [
  | inl e ↦
      let g : v ≡ u = (==_iff v u).0 e in
      let k = edge_count_above edges v u visited (omega (arith, g)) in
      let m : contains v visited ≡ false = ap (λ x. contains x visited) g ∙ f in
      let j : length (edges v) ≡ length (edges u) = ap (λ x. length (edges x)) g in
      rw e (rw m (omega (arith, k, j)))
  | inr e ↦
      let ne : v ≢ u = λ q. cc (e, (==_iff v u).1 q) in
      let ih = edge_count_below edges v u visited (omega arith) f in rw e (omega (arith, ih))
]

module _ (edges : ℕ → List (ℕ × ℕ)) (start n : ℕ) where
  abbrev Whole : Search → Type 0
  Whole st = Inv edges start n (λ v. Unit {0}) st

  module _ (st : Search) (x : Entry) (xs : List Entry) (heap : st.visit_next ≡ x ∷ xs)
      (inv : Whole st) (p : Entry × List Entry) (pops : Pops x xs p) where
    abbrev rest : Search
    rest = record st { visit_next = p.1 }

    In-heap : (e : Entry) → In e (x ∷ xs) → In e st.visit_next
    In-heap e h = subst (In e) (sym heap) h

    still : (e : Entry) → In e p.1 → In e st.visit_next
    still e h = In-heap e (pops.1 e h)

    -- Without the popped entry only its node may be without one.
    Inv-popped :
        (Waits : ℕ → Type 0)
        → ((v : ℕ) → is_visited st v ≡ false → Waits v → v ≢ p.0.1)
        → Inv edges start n Waits rest
    Inv-popped Waits other = record {
      started = inv.started;
      home = inv.home;
      hopped = inv.hopped;
      reached = inv.reached;
      bounded = λ s v h. inv.bounded s v (still (s, v) h);
      scored = λ s v h. inv.scored s v (still (s, v) h);
      waiting = λ v d e f g.
          elim (pops.2 (d, v) (subst (In (d, v)) heap (inv.waiting v d e f tt))) [
            | inl q ↦ absurd (other v f g (ap (λ z. z.1) q))
            | inr h ↦ h
          ];
      settled = inv.settled;
      least = λ v d s y h e i. inv.least v d s y h e (still (s, y) i);
      closed = inv.closed;
    }

    In-popped : In p.0 st.visit_next
    In-popped = In-heap p.0 pops.0

    At-popped : is_visited st p.0.1 ≡ false → At edges start n p.0.1 p.0.0 rest
    At-popped f =
        let (d, e, l) = inv.scored p.0.0 p.0.1 In-popped in
        let i = subst (In (d, p.0.1)) heap (inv.waiting p.0.1 d e f tt) in
        let m = pops.3 (d, p.0.1) i in
        let q : d ≡ p.0.0 = omega (arith, l, m) in
        record {
          its_score = e ∙ ap some q;
          unvisited = f;
          above = λ v k h g. inv.least v k p.0.0 p.0.1 h g In-popped;
          below = λ s v h. pops.3 (s, v) (pops.1 (s, v) h);
        }

    -- A round keeps the invariant, and something is used up.
    visit-Inv :
        ((u w c : ℕ) → In (w, c) (edges u) → w < n)
        → (st' : Search) × (visit edges start p.0 rest ≡ done st')
          × Whole st'
          × (length st'.visit_next + edge_count edges n st'.visited
              < length st.visit_next + edge_count edges n st.visited)
    unfolding visit
    visit-Inv small =
        let len : length st.visit_next ≡ suc (length p.1) = ap length heap ∙ ap suc (sym pops.4) in
        elim (Bool-cases (contains p.0.1 st.visited)) [
          | inl h ↦
              rw h (
                rest,
                refl,
                Inv-popped (λ v. Unit {0}) (λ v f _ q. cc (h, f, q)),
                omega (arith, len),
              )
          | inr h ↦
              let (st', (e, inv', at', up, vis, pushed), all) =
                visit_edges-Goes edges start n p.0.1 p.0.0 (edges p.0.1) rest
                  (Inv-popped (λ v. v ≢ p.0.1) (λ v f ne. ne)) (At-popped h) (λ w c i. i)
                  (small p.0.1) in
              let less =
                edge_count_below edges n p.0.1 st.visited (inv.bounded p.0.0 p.0.1 In-popped) h in
              let same : edge_count edges n (p.0.1 ∷ st'.visited)
                  ≡ edge_count edges n (p.0.1 ∷ st.visited) =
                ap (λ z. edge_count edges n (p.0.1 ∷ z)) vis in
              rw h (
                rw e (
                  record st' { visited = p.0.1 ∷ st'.visited },
                  refl,
                  Inv-marked edges start n p.0.1 p.0.0 st' inv' at' all,
                  omega (arith, len, pushed, less, same),
                ))
        ]

  search-Inv :
      (fuel : ℕ) (heap : List Entry) (st : Search)
      → st.visit_next ≡ heap
      → Whole st
      → ((u w c : ℕ) → In (w, c) (edges u) → w < n)
      → length st.visit_next + edge_count edges n st.visited < fuel
      → (st' : Search) × (search edges start fuel heap st ≡ done st')
        × Whole st'
        × (st'.visit_next ≡ [])
  unfolding search
  search-Inv zero heap st e inv small h = absurd (omega (arith, h))
  search-Inv (suc fuel) [] st e inv small h = (st, refl, inv, e)
  search-Inv (suc fuel) (x ∷ xs) st e inv small h =
      let (st1, r, inv1, less) =
        visit-Inv st x xs e inv (pop_least x xs) (pop_least-Pops x xs) small in
      let (st2, r2, inv2, empty) =
        search-Inv fuel st1.visit_next st1 refl inv1 small (omega (arith, less, h)) in
      (st2, (rw r r2), inv2, empty)

  initial-Inv : start < n → Whole (initial edges start)
  unfolding lookup
  initial-Inv small = record {
    started = rw (==_refl start) refl;
    home = rw (==_refl start) refl;
    hopped = λ w h e. elim (Bool-cases (w == start)) [
      | inl f ↦ (0, rw f refl)
      | inr f ↦ let g : none ≡ some h = rw f at e in cc g
    ];
    reached = λ w d e. elim (Bool-cases (w == start)) [
      | inl f ↦ let g : some 0 ≡ some d = rw f at e in inl ((==_iff w start).0 f, cc g)
      | inr f ↦ let g : none ≡ some d = rw f at e in cc g
    ];
    bounded = λ s v h. elim h [
      | inl q ↦ let f : v ≡ start = ap (λ z. z.1) q in omega (arith, f, small)
      | inr i ↦ absurd i
    ];
    scored = λ s v h. elim h [
      | inl q ↦
          let f : v ≡ start = ap (λ z. z.1) q in (0, (rw f (rw (==_refl start) refl)), omega arith)
      | inr i ↦ absurd i
    ];
    waiting = λ v d e f _. elim (Bool-cases (v == start)) [
      | inl g ↦
          let h : some 0 ≡ some d = rw g at e in
          let k : d ≡ 0 = cc h in inl (ap₂ (λ x y. (x, y)) k ((==_iff v start).0 g))
      | inr g ↦ let h : none ≡ some d = rw g at e in cc h
    ];
    settled = λ v h. cc h;
    least = λ v d s x h e i. cc h;
    closed = λ v d h e w c i. cc h;
  }

  visited_all :
      (st : Search) (v d : ℕ)
      → Whole st
      → st.visit_next ≡ []
      → score st v ≡ some d
      → is_visited st v ≡ true
  visited_all st v d inv empty e = elim (Bool-cases (is_visited st v)) [
    | inl h ↦ h
    | inr h ↦ absurd (subst (In (d, v)) empty (inv.waiting v d e h tt))
  ]

  -- When the heap is empty, every walk from a scored node stays within the scores.
  Walk-Within :
      (st : Search) (first hops cost w : ℕ)
      → Whole st
      → st.visit_next ≡ []
      → Walk edges start first hops cost w
      → Within st w cost
  Walk-Within st first hops cost w inv empty (first_edge next x e) =
      let (y, f, l) =
        inv.closed start 0 (visited_all st start 0 inv empty inv.started) inv.started next x e in
      (y, f, omega (arith, l))
  Walk-Within st first hops cost w inv empty (one_more h k d v next c walk e) =
      let (x, f, l) = Walk-Within st h k d v inv empty walk in
      let (y, g, m) = inv.closed v x (visited_all st v x inv empty f) f next c e in
      (y, g, omega (arith, l, m))

-- With the fuel of one round for each edge of the nodes below `n` and two more, when the start and all
-- targets of edges are below `n`, the search ends without a panic: the start has the score 0 and itself
-- as first hop; what has a first hop has a score; every score with its first hop and its number of hops
-- is that of a walk from the start to the node, or the start's; and the target of every walk from the start has a score that is not more than the walk's cost.
pub dijkstra_with_first_hop-shortest :
    (edges : ℕ → List (ℕ × ℕ)) (start n fuel : ℕ)
    → start < n
    → ((u w c : ℕ) → In (w, c) (edges u) → w < n)
    → edge_count edges n [] + 2 ≤ fuel
    → (scores : List (ℕ × ℕ)) × (first_hop : List (ℕ × (ℕ × ℕ))) × (dijkstra_with_first_hop edges
          start fuel
        ≡ done (scores, first_hop))
      × (lookup ◌==◌ start scores ≡ some 0)
      × (lookup ◌==◌ start first_hop ≡ some (start, 0))
      × ((w : ℕ) (hop : ℕ × ℕ)
          → lookup ◌==◌ w first_hop ≡ some hop
          → (d : ℕ) × (lookup ◌==◌ w scores ≡ some d))
      × ((w d : ℕ)
          → lookup ◌==◌ w scores ≡ some d
          → ((w ≡ start) × (d ≡ 0))
            ⊎ ((first : ℕ) × (hops : ℕ) × (lookup ◌==◌ w first_hop ≡ some (first, hops))
                × Walk edges start first hops d w))
      × ((first hops cost w : ℕ)
          → Walk edges start first hops cost w
          → (d : ℕ) × (lookup ◌==◌ w scores ≡ some d) × (d ≤ cost))
unfolding dijkstra_with_first_hop
dijkstra_with_first_hop-shortest edges start n fuel small targets enough =
    let (st, e, inv, empty) =
      search-Inv edges start n fuel ((0, start) ∷ []) (initial edges start) refl
        (initial-Inv edges start n small) targets (omega (arith, enough)) in
    (
      st.scores,
      st.first_hop,
      (rw e refl),
      inv.started,
      inv.home,
      inv.hopped,
      inv.reached,
      (λ first hops cost w walk. Walk-Within edges start n st first hops cost w inv empty walk),
    )

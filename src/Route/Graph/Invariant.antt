-- ===== src/Route/Graph/Invariant.antt =====
-- peers/graph_algo.rs: what holds of the search in every round.
use peer_link.Common.{ℕ, ◌+◌, ◌≤◌, ◌<◌, ◌≡◌, ◌⊎◌, Bool, true, false, List, Option, some, ◌==◌}
use peer_link.Common.Tables.{lookup}
use peer_link.Route.Synced.{contains}
use peer_link.Route.Graph.{Search}
use peer_link.Route.Graph.Heap.{In}

abbrev pub score : Search → ℕ → Option ℕ
score st v = lookup ◌==◌ v st.scores

abbrev pub is_visited : Search → ℕ → Bool
is_visited st v = contains v st.visited

-- The node is scored this or less.
abbrev pub Within : Search → ℕ → ℕ → Type 0
Within st v s = (d : ℕ) × (score st v ≡ some d) × (d ≤ s)

module _ (edges : ℕ → List (ℕ × ℕ)) (start : ℕ) where
  -- A walk from the start, by its first node, its number of edges, its cost and its target.
  pub data Walk : (first hops cost target : ℕ) → Type 0 where
    first_edge : (next cost : ℕ) → In (next, cost) (edges start) → Walk next 1 cost next
    one_more :
        (first hops cost v next c : ℕ)
        → Walk first hops cost v
        → In (next, c) (edges v)
        → Walk first (hops + 1) (cost + c) next

  -- The score and the first hop of a node are those of one walk.
  abbrev pub IsReached : Search → ℕ → ℕ → Type 0
  IsReached st w d =
      ((w ≡ start) × (d ≡ 0))
      ⊎ ((first : ℕ) × (hops : ℕ) × (lookup ◌==◌ w st.first_hop ≡ some (first, hops))
          × Walk first hops d w)

  -- Every edge of the node is taken into account.
  abbrev pub IsClosed : Search → ℕ → ℕ → Type 0
  IsClosed st v d = (w c : ℕ) → In (w, c) (edges v) → Within st w (d + c)

  module _ (n : ℕ) where
    -- `current` is the node whose edges are looked at; its entry is not in the heap any more.
    pub record Inv (Waits : ℕ → Type 0) (st : Search) : Type 0 where
      pub started : score st start ≡ some 0
      pub home : lookup ◌==◌ start st.first_hop ≡ some (start, 0)
      pub hopped :
          (w : ℕ) (hop : ℕ × ℕ)
          → lookup ◌==◌ w st.first_hop ≡ some hop
          → (d : ℕ) × (score st w ≡ some d)
      pub reached : (w d : ℕ) → score st w ≡ some d → IsReached st w d
      pub bounded : (s v : ℕ) → In (s, v) st.visit_next → v < n
      pub scored : (s v : ℕ) → In (s, v) st.visit_next → Within st v s
      pub waiting :
          (v d : ℕ)
          → score st v ≡ some d
          → is_visited st v ≡ false
          → Waits v
          → In (d, v) st.visit_next
      pub settled : (v : ℕ) → is_visited st v ≡ true → (d : ℕ) × (score st v ≡ some d)
      pub least :
          (v d s x : ℕ)
          → is_visited st v ≡ true
          → score st v ≡ some d
          → In (s, x) st.visit_next
          → d ≤ s
      pub closed : (v d : ℕ) → is_visited st v ≡ true → score st v ≡ some d → IsClosed st v d

    -- The node whose edges are looked at, with its score.
    pub record At (node node_score : ℕ) (st : Search) : Type 0 where
      pub its_score : score st node ≡ some node_score
      pub unvisited : is_visited st node ≡ false
      pub above : (v d : ℕ) → is_visited st v ≡ true → score st v ≡ some d → d ≤ node_score
      pub below : (s v : ℕ) → In (s, v) st.visit_next → node_score ≤ s

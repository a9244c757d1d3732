-- ===== src/Route/Graph.antt =====
-- peers/graph_algo.rs: shortest paths with the first hop of each. A graph is the list of the outgoing
-- edges of every node, each with its target and its cost, which are natural numbers without a bound
-- (`usize` in the code); of the entries of the heap with the least score the first is popped.
pub mod Heap
pub mod Invariant
pub mod Update
pub mod Visit
pub mod Shortest
use peer_link.Common.{
  ℕ, zero, suc, ◌+◌, Bool, true, false, List, [], ◌∷◌, Option, none, some, ◌==◌, ltb, if◌then◌else◌,
  Exec, done, panic, ◌>>=◌, unwrap, length,
}
use peer_link.Common.Tables.{lookup, insert}
use peer_link.Route.Synced.{contains}

-- `MinScored`: a score and a node.
abbrev pub Entry : Type 0
Entry = ℕ × ℕ

-- The local variables of `dijkstra_with_first_hop`.
pub record Search : Type 0 where
  pub visited : List ℕ
  pub scores : List (ℕ × ℕ)
  pub first_hop : List (ℕ × (ℕ × ℕ))
  pub visit_next : List Entry

-- `BinaryHeap::pop` of an entry and others: the least, and the rest.
unfoldable pub pop_least : Entry → List Entry → Entry × List Entry
pop_least x [] = (x, [])
pop_least x (y ∷ ys) =
    let below = pop_least y ys in
    let above = pop_least x ys in
    if ltb y.0 x.0 then (below.0, x ∷ below.1) else (above.0, y ∷ above.1)

module _ (edges : ℕ → List (ℕ × ℕ)) (start : ℕ) where
  -- A new score of a node, with the first hop of its predecessor, or its own.
  unfoldable pub set_score : (node next next_score : ℕ) → Search → Exec Search
  set_score node next next_score st =
      (if node == start then done (next, 0) else unwrap (lookup ◌==◌ node st.first_hop)) >>= λ hop.
      done (record st {
        scores = insert ◌==◌ next next_score st.scores;
        visit_next = (next_score, next) ∷ st.visit_next;
        first_hop = insert ◌==◌ next (hop.0, hop.1 + 1) st.first_hop;
      })

  -- `match scores.entry(next)`
  unfoldable pub update_entry : Option ℕ → (node next next_score : ℕ) → Search → Exec Search
  update_entry none node next next_score st = set_score node next next_score st
  update_entry (some old) node next next_score st =
      if ltb next_score old then set_score node next next_score st else done st

  unfoldable pub visit_edge : (node node_score : ℕ) → ℕ × ℕ → Search → Exec Search
  visit_edge node node_score (next, cost) st =
      if contains next st.visited
      then done st
      else update_entry (lookup ◌==◌ next st.scores) node next (node_score + cost) st

  unfoldable pub visit_edges : (node node_score : ℕ) → List (ℕ × ℕ) → Search → Exec Search
  visit_edges node node_score [] st = done st
  visit_edges node node_score (e ∷ es) st =
      visit_edge node node_score e st >>= λ st'. visit_edges node node_score es st'

  -- One round of the loop, with the popped entry taken off the heap.
  unfoldable pub visit : Entry → Search → Exec Search
  visit (node_score, node) st =
      if contains node st.visited
      then done st
      else visit_edges node node_score (edges node) st >>= λ st'.
          done (record st' { visited = node ∷ st'.visited })

  -- `panic` also when the fuel is used up.
  unfoldable pub search : (fuel : ℕ) → List Entry → Search → Exec Search
  search zero heap st = panic
  search (suc fuel) [] st = done st
  search (suc fuel) (x ∷ xs) st =
      let popped = pop_least x xs in
      visit popped.0 (record st { visit_next = popped.1 }) >>= λ st'. search fuel st'.visit_next st'

  abbrev pub initial : Search
  initial = record {
    visited = [];
    scores = (start, 0) ∷ [];
    first_hop = (start, (start, 0)) ∷ [];
    visit_next = (0, start) ∷ [];
  }

  unfoldable pub dijkstra_with_first_hop : (fuel : ℕ) → Exec (List (ℕ × ℕ) × List (ℕ × (ℕ × ℕ)))
  dijkstra_with_first_hop fuel =
      search fuel initial.visit_next initial >>= λ st. done (st.scores, st.first_hop)

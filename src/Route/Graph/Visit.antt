-- ===== src/Route/Graph/Visit.antt =====
-- peers/graph_algo.rs: the edges of a node, and one round of the loop.
use peer_link.Common.{
  ℕ, ◌+◌, ◌≤◌, ◌<◌, ◌≡◌, ◌≢◌, ◌⊎◌, refl, sym, ap, ◌∙◌, subst, inl, inr, Bool, true, false, List, [],
  ◌∷◌, Option, none, some, ◌==◌, ==_iff, ltb, Bool-cases, Exec, done, arith, length, ◌||◌,
}
use peer_link.Common.Tables.{lookup}
use peer_link.Route.Synced.{contains}
use peer_link.Route.Graph.{Search, set_score, update_entry, visit_edge, visit_edges}
use peer_link.Route.Graph.Heap.{In}
use peer_link.Route.Graph.Invariant.{score, is_visited, Within, Inv, At}
use peer_link.Route.Graph.Update.{
  updated, set_score-done, Within-updated, Within-updated_self, Inv-updated, At-updated,
}

below_old :
    (t old : ℕ) (found : Option ℕ)
    → found ≡ some old
    → ltb t old ≡ true
    → (x : ℕ) → found ≡ some x
    → t < x
below_old t old found e l x f =
    let g : some old ≡ some x = sym e ∙ f in let h : old ≡ x = cc g in ground (arith, h, l)

or-false : (a b : Bool) → (a || b) ≡ false → (a ≡ false) × (b ≡ false)
or-false true b h = cc h
or-false false b h = (refl, h)

or-true : (a b : Bool) → (a || b) ≡ true → (a ≡ true) ⊎ (b ≡ true)
or-true true b h = inl refl
or-true false b h = inr h

module _ (edges : ℕ → List (ℕ × ℕ)) (start : ℕ) (n : ℕ) (u s : ℕ) where
  -- The search after some edges of the node `u`, of which it pushes at most one entry each.
  abbrev pub Goes : (st : Search) (pushes : ℕ) → Exec Search → Search → Type 0
  Goes st pushes result st' =
      (result ≡ done st')
      × Inv edges start n (λ v. v ≢ u) st'
      × At edges start n u s st'
      × ((v x : ℕ) → Within st v x → Within st' v x)
      × (st'.visited ≡ st.visited)
      × (length st'.visit_next ≤ pushes + length st.visit_next)

  lowered :
      (w c : ℕ) (st : Search)
      → Inv edges start n (λ v. v ≢ u) st
      → At edges start n u s st
      → In (w, c) (edges u)
      → w < n
      → is_visited st w ≡ false
      → ((old : ℕ) → score st w ≡ some old → s + c < old)
      → (st' : Search) × Goes st 1 (set_score edges start u w (s + c) st) st' × Within st' w (s + c)
  lowered w c st inv at edge small fresh lower =
      let (hop, e, walk) = set_score-done edges start n u s w c st inv at edge small fresh lower in
      (
        updated w (s + c) hop st,
        (
          e,
          Inv-updated edges start n u s w c st inv at edge small fresh lower hop walk,
          At-updated edges start n u s w c st inv at edge small fresh lower hop walk,
          Within-updated edges start n u s w c st inv at edge small fresh lower hop walk,
          refl,
          omega arith,
        ),
        Within-updated_self edges start n u s w c st inv at edge small fresh lower hop walk,
      )

  update_entry-Goes :
      (found : Option ℕ) (w c : ℕ) (st : Search)
      → Inv edges start n (λ v. v ≢ u) st
      → At edges start n u s st
      → In (w, c) (edges u)
      → w < n
      → is_visited st w ≡ false
      → score st w ≡ found
      → (st' : Search) × Goes st 1 (update_entry edges start found u w (s + c) st) st'
        × Within st' w (s + c)
  unfolding update_entry
  update_entry-Goes none w c st inv at edge small fresh e =
      lowered w c st inv at edge small fresh (λ old f. cc (e, f))
  update_entry-Goes (some old) w c st inv at edge small fresh e =
      elim (Bool-cases (ltb (s + c) old)) [
        | inl l ↦
            rw l (lowered w c st inv at edge small fresh (below_old (s + c) old (score st w) e l))
        | inr l ↦
            rw l (st, (refl, inv, at, (λ v x h. h), refl, omega arith), (old, e, ground (arith, l)))
      ]

  visit_edge-Goes :
      (w c : ℕ) (st : Search)
      → Inv edges start n (λ v. v ≢ u) st
      → At edges start n u s st
      → In (w, c) (edges u)
      → w < n
      → (st' : Search) × Goes st 1 (visit_edge edges start u s (w, c) st) st' × Within st' w (s + c)
  unfolding visit_edge
  visit_edge-Goes w c st inv at edge small = elim (Bool-cases (contains w st.visited)) [
    | inl h ↦
        let (d, e) = inv.settled w h in
        let l = at.above w d h e in
        rw h (st, (refl, inv, at, (λ v x h. h), refl, omega arith), (d, e, omega (arith, l)))
    | inr h ↦ rw h (update_entry-Goes (lookup ◌==◌ w st.scores) w c st inv at edge small h refl)
  ]

  pub visit_edges-Goes :
      (es : List (ℕ × ℕ)) (st : Search)
      → Inv edges start n (λ v. v ≢ u) st
      → At edges start n u s st
      → ((w c : ℕ) → In (w, c) es → In (w, c) (edges u))
      → ((w c : ℕ) → In (w, c) (edges u) → w < n)
      → (st' : Search) × Goes st (length es) (visit_edges edges start u s es st) st'
        × ((w c : ℕ) → In (w, c) es → Within st' w (s + c))
  unfolding visit_edges
  visit_edges-Goes [] st inv at sub small =
      (st, (refl, inv, at, (λ v x h. h), refl, omega arith), (λ w c i. absurd i))
  visit_edges-Goes ((w, c) ∷ es) st inv at sub small =
      let edge = sub w c (inl refl) in
      let (st1, (e1, inv1, at1, up1, vis1, len1), here) =
        visit_edge-Goes w c st inv at edge (small w c edge) in
      let (st2, (e2, inv2, at2, up2, vis2, len2), there) =
        visit_edges-Goes es st1 inv1 at1 (λ x k i. sub x k (inr i)) small in
      (
        st2,
        (
          (rw e1 e2),
          inv2,
          at2,
          (λ v x h. up2 v x (up1 v x h)),
          vis2 ∙ vis1,
          omega (arith, len1, len2),
        ),
        (λ x k i. elim i [
          | inl q ↦ up2 x (s + k) (subst (λ z. Within st1 z.0 (s + z.1)) (sym q) here)
          | inr j ↦ there x k j
        ]),
      )

  -- The node is visited when its edges have been.
  pub Inv-marked :
      (st : Search)
      → Inv edges start n (λ v. v ≢ u) st
      → At edges start n u s st
      → ((w c : ℕ) → In (w, c) (edges u) → Within st w (s + c))
      → Inv edges start n (λ v. Unit {0}) (record st { visited = u ∷ st.visited })
  Inv-marked st inv at edges_done = record {
    started = inv.started;
    home = inv.home;
    hopped = inv.hopped;
    reached = inv.reached;
    bounded = inv.bounded;
    scored = inv.scored;
    waiting = λ v d e f _.
        let (ne, g) = or-false (v == u) (contains v st.visited) f in
        inv.waiting v d e g (λ q. cc (ne, (==_iff v u).1 q));
    settled = λ v h. elim (or-true (v == u) (contains v st.visited) h) [
      | inl q ↦ (s, ap (score st) ((==_iff v u).0 q) ∙ at.its_score)
      | inr g ↦ inv.settled v g
    ];
    least = λ v d x y h e i. elim (or-true (v == u) (contains v st.visited) h) [
      | inl q ↦
          let f : some s ≡ some d = sym at.its_score ∙ ap (score st) (sym ((==_iff v u).0 q)) ∙ e in
          let g : s ≡ d = cc f in subst (λ z. z ≤ x) g (at.below x y i)
      | inr g ↦ inv.least v d x y g e i
    ];
    closed = λ v d h e w c i. elim (or-true (v == u) (contains v st.visited) h) [
      | inl q ↦
          let a : v ≡ u = (==_iff v u).0 q in
          let f : some s ≡ some d = sym at.its_score ∙ ap (score st) (sym a) ∙ e in
          let g : s ≡ d = cc f in
          subst (λ z. Within st w (z + c)) g (edges_done w c (subst (λ z. In (w, c) (edges z)) a i))
      | inr g ↦ inv.closed v d g e w c i
    ];
  }

-- ===== src/Route/Graph/Update.antt =====
-- peers/graph_algo.rs: a new score for the target of an edge.
use peer_link.Common.{
  ℕ, ◌+◌, ◌<◌, ◌≡◌, ◌≢◌, ◌⊎◌, refl, sym, ap, ap₂, ◌∙◌, subst, inl, inr, true, false, List, ◌∷◌,
  some, ◌==◌, ==_iff, ==_refl, Bool-cases, done, arith,
}
use peer_link.Common.Tables.{lookup, insert}
use peer_link.Route.Known.{lookup-insert_num}
use peer_link.Route.Graph.{Search, set_score}
use peer_link.Route.Graph.Heap.{In}
use peer_link.Route.Graph.Invariant.{
  score, is_visited, Within, Walk, first_edge, one_more, IsReached, Inv, At,
}

abbrev pub updated : (next t : ℕ) → ℕ × ℕ → Search → Search
updated next t hop st = record st {
  scores = insert ◌==◌ next t st.scores;
  visit_next = (t, next) ∷ st.visit_next;
  first_hop = insert ◌==◌ next (hop.0, hop.1 + 1) st.first_hop;
}

-- What the insertion has left: the new value, or the old one of another key.
lookup-insert_cases :
    {V : Type 0} (w v : ℕ) (t d : V) (m : List (ℕ × V))
    → lookup ◌==◌ v (insert ◌==◌ w t m) ≡ some d
    → ((v ≡ w) × (d ≡ t)) ⊎ ((v ≢ w) × (lookup ◌==◌ v m ≡ some d))
lookup-insert_cases w v t d m e =
    let f = sym (lookup-insert_num w v t m) ∙ e in
    elim (Bool-cases (v == w)) [
      | inl a ↦ let g : some t ≡ some d = rw a at f in inl ((==_iff v w).0 a, cc g)
      | inr a ↦ inr ((λ q. cc (a, (==_iff v w).1 q)), rw a at f)
    ]

lookup-insert_other :
    {V : Type 0} (w v : ℕ) (t : V) (m : List (ℕ × V))
    → v ≢ w
    → lookup ◌==◌ v (insert ◌==◌ w t m) ≡ lookup ◌==◌ v m
lookup-insert_other w v t m ne = elim (Bool-cases (v == w)) [
  | inl a ↦ absurd (ne ((==_iff v w).0 a))
  | inr a ↦ lookup-insert_num w v t m ∙ (rw a refl)
]

lookup-insert_self :
    {V : Type 0} (w : ℕ) (t : V) (m : List (ℕ × V)) → lookup ◌==◌ w (insert ◌==◌ w t m) ≡ some t
lookup-insert_self w t m = lookup-insert_num w w t m ∙ (rw (==_refl w) refl)

module _ (edges : ℕ → List (ℕ × ℕ)) (start : ℕ) (n : ℕ) (u s w c : ℕ) (st : Search)
    (inv : Inv edges start n (λ v. v ≢ u) st) (at : At edges start n u s st)
    (edge : In (w, c) (edges u)) (small : w < n) (fresh : is_visited st w ≡ false)
    (lower : (old : ℕ) → score st w ≡ some old → s + c < old) where
  w-≢-u : w ≢ u
  w-≢-u e = let l = lower s (ap (score st) e ∙ at.its_score) in omega (arith, l)

  w-≢-start : start ≢ w
  w-≢-start e = let l = lower 0 (ap (score st) (sym e) ∙ inv.started) in omega (arith, l)

  visited-≢-w : (v : ℕ) → is_visited st v ≡ true → v ≢ w
  visited-≢-w v h e = cc (h, fresh, ap (is_visited st) e)

  -- The hop that the new score is stored with.
  pub set_score-done :
      (hop : ℕ × ℕ) × (set_score edges start u w (s + c) st ≡ done (updated w (s + c) hop st))
      × Walk edges start hop.0 (hop.1 + 1) (s + c) w
  unfolding set_score
  set_score-done = elim (Bool-cases (u == start)) [
    | inl e ↦
        let f : u ≡ start = (==_iff u start).0 e in
        let g : some s ≡ some 0 = sym at.its_score ∙ ap (score st) f ∙ inv.started in
        let z : s ≡ 0 = cc g in
        (
          (w, 0),
          (rw e refl),
          subst (λ x. Walk edges start w 1 x w) (let q : c ≡ s + c = omega (arith, z) in q)
              (first_edge w c (subst (λ x. In (w, c) (edges x)) f edge)),
        )
    | inr e ↦ elim (inv.reached u s at.its_score) [
      | inl (f, z) ↦ cc (e, (==_iff u start).1 f)
      | inr (first, hops, h, walk) ↦
          ((first, hops), (rw e (rw h refl)), one_more first hops s u w c walk edge)
    ]
  ]

  module _ (hop : ℕ × ℕ) (walk : Walk edges start hop.0 (hop.1 + 1) (s + c) w) where
    abbrev st' : Search
    st' = updated w (s + c) hop st

    pub Within-updated : (v x : ℕ) → Within st v x → Within st' v x
    Within-updated v x (d, e, l) = elim (Bool-cases (v == w)) [
      | inl a ↦
          let f : v ≡ w = (==_iff v w).0 a in
          let k = lower d (ap (score st) (sym f) ∙ e) in
          (s + c, ap (score st') f ∙ lookup-insert_self w (s + c) st.scores, omega (arith, k, l))
      | inr a ↦
          (d, lookup-insert_other w v (s + c) st.scores (λ q. cc (a, (==_iff v w).1 q)) ∙ e, l)
    ]

    pub Within-updated_self : Within st' w (s + c)
    Within-updated_self = (s + c, lookup-insert_self w (s + c) st.scores, omega arith)

    -- The scores of the visited nodes are the old ones.
    visited_score : (v d : ℕ) → is_visited st v ≡ true → score st' v ≡ some d → score st v ≡ some d
    visited_score v d h e = sym (lookup-insert_other w v (s + c) st.scores (visited-≢-w v h)) ∙ e

    IsReached-updated : (v d : ℕ) → score st' v ≡ some d → IsReached edges start st' v d
    IsReached-updated v d e = elim (lookup-insert_cases w v (s + c) d st.scores e) [
      | inl (f, g) ↦ inr (
        hop.0,
        hop.1 + 1,
        ap (λ x. lookup ◌==◌ x st'.first_hop) f
            ∙ lookup-insert_self w (hop.0, hop.1 + 1) st.first_hop,
        subst (λ x. Walk edges start hop.0 (hop.1 + 1) d x) (sym f)
            (subst (λ x. Walk edges start hop.0 (hop.1 + 1) x w) (sym g) walk),
      )
      | inr (ne, f) ↦ elim (inv.reached v d f) [
        | inl q ↦ inl q
        | inr (first, hops, h, k) ↦
            inr (first, hops, lookup-insert_other w v (hop.0, hop.1 + 1) st.first_hop ne ∙ h, k)
      ]
    ]

    pub Inv-updated : Inv edges start n (λ v. v ≢ u) st'
    Inv-updated = record {
      started = lookup-insert_other w start (s + c) st.scores w-≢-start ∙ inv.started;
      home = lookup-insert_other w start (hop.0, hop.1 + 1) st.first_hop w-≢-start ∙ inv.home;
      hopped = λ v h e. elim (lookup-insert_cases w v (hop.0, hop.1 + 1) h st.first_hop e) [
        | inl (f, g) ↦ (s + c, ap (score st') f ∙ lookup-insert_self w (s + c) st.scores)
        | inr (ne, f) ↦
            let (d, g) = inv.hopped v h f in (d, lookup-insert_other w v (s + c) st.scores ne ∙ g)
      ];
      reached = IsReached-updated;
      bounded = λ x v h. elim h [
        | inl q ↦ let f : v ≡ w = ap (λ z. z.1) q in omega (arith, f, small)
        | inr i ↦ inv.bounded x v i
      ];
      scored = λ x v h. elim h [
        | inl q ↦ subst (λ z. Within st' z.1 z.0) (sym q) Within-updated_self
        | inr i ↦ Within-updated v x (inv.scored x v i)
      ];
      waiting = λ v d e f g. elim (lookup-insert_cases w v (s + c) d st.scores e) [
        | inl (a, b) ↦ inl (ap₂ (λ x y. (x, y)) b a)
        | inr (ne, b) ↦ inr (inv.waiting v d b f g)
      ];
      settled = λ v h.
          let (d, e) = inv.settled v h in
          (d, lookup-insert_other w v (s + c) st.scores (visited-≢-w v h) ∙ e);
      least = λ v d x y h e i. elim i [
        | inl q ↦
            let f : x ≡ s + c = ap (λ z. z.0) q in
            let g = at.above v d h (visited_score v d h e) in omega (arith, f, g)
        | inr j ↦ inv.least v d x y h (visited_score v d h e) j
      ];
      closed = λ v d h e x k i.
          Within-updated x (d + k) (inv.closed v d h (visited_score v d h e) x k i);
    }

    pub At-updated : At edges start n u s st'
    At-updated = record {
      its_score = lookup-insert_other w u (s + c) st.scores (λ e. w-≢-u (sym e)) ∙ at.its_score;
      unvisited = at.unvisited;
      above = λ v d h e. at.above v d h (visited_score v d h e);
      below = λ x v i. elim i [
        | inl q ↦ let f : x ≡ s + c = ap (λ z. z.0) q in omega (arith, f)
        | inr j ↦ at.below x v j
      ];
    }

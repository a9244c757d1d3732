-- ===== src/Route/Graph/Heap.antt =====
-- peers/graph_algo.rs: the heap of scored nodes.
use peer_link.Common.{
  ◌≤◌, ◌≡◌, ◌⊎◌, refl, sym, ap, subst, inl, inr, true, false, List, [], ◌∷◌, ltb, Bool-cases, arith,
  length,
}
use peer_link.Route.Graph.{Entry, pop_least}

abbrev pub In : {A : Type 0} → A → List A → Type 0
In x [] = ⊥
In x (y ∷ ys) = (x ≡ y) ⊎ In x ys

-- What pops is in the heap, and nothing else goes; it has the least score.
abbrev pub Pops : Entry → List Entry → Entry × List Entry → Type 0
Pops x xs (least, rest) =
    In least (x ∷ xs)
    × ((e : Entry) → In e rest → In e (x ∷ xs))
    × ((e : Entry) → In e (x ∷ xs) → (e ≡ least) ⊎ In e rest)
    × ((e : Entry) → In e (x ∷ xs) → least.0 ≤ e.0)
    × (length rest ≡ length xs)

keep :
    (x y : Entry) (ys : List Entry) (p : Entry × List Entry)
    → x.0 ≤ y.0
    → Pops x ys p
    → Pops x (y ∷ ys) (p.0, y ∷ p.1)
keep x y ys p l (least_in, back, forth, least, len) = (
  elim least_in [ inl e ↦ inl e | inr e ↦ inr (inr e) ],
  (λ e h. elim h [
    | inl q ↦ inr (inl q)
    | inr q ↦ elim (back e q) [ inl r ↦ inl r | inr r ↦ inr (inr r) ]
  ]),
  (λ e h. elim h [
    | inl q ↦ elim (forth e (inl q)) [ inl r ↦ inl r | inr r ↦ inr (inr r) ]
    | inr (inl q) ↦ inr (inl q)
    | inr (inr q) ↦ elim (forth e (inr q)) [ inl r ↦ inl r | inr r ↦ inr (inr r) ]
  ]),
  (λ e h. elim h [
    | inl q ↦ least e (inl q)
    | inr (inl q) ↦
        let a = least x (inl refl) in let b : e.0 ≡ y.0 = ap (λ z. z.0) q in omega (arith, a, b, l)
    | inr (inr q) ↦ least e (inr q)
  ]),
  omega (arith, len),
)

swap :
    (x y : Entry) (ys : List Entry) (p : Entry × List Entry)
    → y.0 ≤ x.0
    → Pops y ys p
    → Pops x (y ∷ ys) (p.0, x ∷ p.1)
swap x y ys p l h =
    let (least_in, back, forth, least, len) = keep y x ys p l h in
    (
      turn y x ys p.0 least_in,
      (λ e i. turn y x ys e (back e i)),
      (λ e i. forth e (turn x y ys e i)),
      (λ e i. least e (turn x y ys e i)),
      len,
    )
  where
    turn : (x y : Entry) (ys : List Entry) (e : Entry) → In e (x ∷ y ∷ ys) → In e (y ∷ x ∷ ys)
    turn x y ys e (inl q) = inr (inl q)
    turn x y ys e (inr (inl q)) = inl q
    turn x y ys e (inr (inr q)) = inr (inr q)

pop_least_below :
    (x y : Entry) (ys : List Entry)
    → ltb y.0 x.0 ≡ true
    → pop_least x (y ∷ ys) ≡ ((pop_least y ys).0, x ∷ (pop_least y ys).1)
unfolding pop_least
pop_least_below x y ys e = rw e refl

pop_least_above :
    (x y : Entry) (ys : List Entry)
    → ltb y.0 x.0 ≡ false
    → pop_least x (y ∷ ys) ≡ ((pop_least x ys).0, y ∷ (pop_least x ys).1)
unfolding pop_least
pop_least_above x y ys e = rw e refl

pop_least_last : (x : Entry) → pop_least x [] ≡ (x, [])
unfolding pop_least
pop_least_last x = refl

pub pop_least-Pops : (x : Entry) (xs : List Entry) → Pops x xs (pop_least x xs)
pop_least-Pops x [] = subst (Pops x []) (sym (pop_least_last x)) (
  inl refl,
  (λ e h. absurd h),
  (λ e h. elim h [ inl q ↦ inl q | inr q ↦ absurd q ]),
  (λ e h. elim h [
    | inl q ↦ let f : e.0 ≡ x.0 = ap (λ z. z.0) q in omega (arith, f)
    | inr q ↦ absurd q
  ]),
  refl,
)
pop_least-Pops x (y ∷ ys) = elim (Bool-cases (ltb y.0 x.0)) [
  | inl a ↦
      subst (Pops x (y ∷ ys)) (sym (pop_least_below x y ys a))
        (swap x y ys (pop_least y ys) (ground arith) (pop_least-Pops y ys))
  | inr a ↦
      subst (Pops x (y ∷ ys)) (sym (pop_least_above x y ys a))
        (keep x y ys (pop_least x ys) (ground arith) (pop_least-Pops x ys))
]

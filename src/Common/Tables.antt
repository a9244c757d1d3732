-- ===== src/Common/Tables.antt =====
-- Tables as association lists: a map's lookup, `insert`, which keeps the place of a key, and `remove`.
use peer_link.Common.{
  ℕ, ◌≡◌, refl, sym, ap, ap₂, ◌∙◌, Bool, true, false, List, [], ◌∷◌, Option, none, some,
  if◌then◌else◌, Bool-cases, inl, inr, arith, subst, ◌&&◌, ◌==◌, ==_iff, ==_refl,
}

-- A text is the list of its characters.
abbrev pub Text : Type 0
Text = List ℕ

abbrev pub same_text : Text → Text → Bool
same_text [] [] = true
same_text (x ∷ xs) (y ∷ ys) = x == y && same_text xs ys
same_text _ _ = false

pub same_text_refl : (x : Text) → same_text x x ≡ true
same_text_refl [] = refl
same_text_refl (c ∷ cs) = rw (==_refl c) (same_text_refl cs)

pub and-true : (a b : Bool) → (a && b) ≡ true → (a ≡ true) × (b ≡ true)
and-true true b h = (refl, h)
and-true false b h = cc h

pub same_text-≡ : (x y : Text) → same_text x y ≡ true → x ≡ y
same_text-≡ [] [] h = refl
same_text-≡ [] (d ∷ ds) h = cc h
same_text-≡ (c ∷ cs) [] h = cc h
same_text-≡ (c ∷ cs) (d ∷ ds) h =
    let (a, b) = and-true (c == d) (same_text cs ds) h in
    ap₂ ◌∷◌ ((==_iff c d).0 a) (same_text-≡ cs ds b)

-- A table: looking up, and `insert`, in the place of the key if it has one.
unfoldable pub lookup : {K V : Type 0} → (K → K → Bool) → K → List (K × V) → Option V
lookup same k [] = none
lookup same k ((l, v) ∷ rest) = if same k l then some v else lookup same k rest

unfoldable pub insert : {K V : Type 0} → (K → K → Bool) → K → V → List (K × V) → List (K × V)
insert same k v [] = (k, v) ∷ []
insert same k v ((l, w) ∷ rest) = if same k l then (l, v) ∷ rest else (l, w) ∷ insert same k v rest

unfoldable pub delete : {K V : Type 0} → (K → K → Bool) → K → List (K × V) → List (K × V)
delete same k [] = []
delete same k ((l, w) ∷ rest) = if same k l then delete same k rest else (l, w) ∷ delete same k rest

-- The table has the key.
abbrev pub Has : {K V : Type 0} → (K → K → Bool) → K → List (K × V) → Type 0
Has {V = V} same k t = (v : V) × (lookup same k t ≡ some v)

-- Every value of the table, or element of the list.
abbrev pub AllValues : {K V : Type 0} → (V → Type 0) → List (K × V) → Type 0
AllValues P [] = Unit {0}
AllValues P ((k, v) ∷ rest) = P v × AllValues P rest

abbrev pub AllOf : {A : Type 0} → (A → Type 0) → List A → Type 0
AllOf P [] = Unit {0}
AllOf P (x ∷ xs) = P x × AllOf P xs

pub AllOf-map :
    {A : Type 0} (P Q : A → Type 0) (xs : List A) → ((x : A) → P x → Q x) → AllOf P xs → AllOf Q xs
AllOf-map P Q [] f a = tt
AllOf-map P Q (x ∷ xs) f a = (f x a.0, AllOf-map P Q xs f a.1)

pub AllValues-map :
    {K V : Type 0} (P Q : V → Type 0) (t : List (K × V))
    → ((v : V) → P v → Q v)
    → AllValues P t
    → AllValues Q t
AllValues-map P Q [] f a = tt
AllValues-map P Q ((k, v) ∷ rest) f a = (f v a.0, AllValues-map P Q rest f a.1)

module _ {K V : Type 0} (same : K → K → Bool) where
  pub Has-insert :
      (k j : K) (v : V) (t : List (K × V)) → Has same k t → Has same k (insert same j v t)
  unfolding lookup insert
  Has-insert k j v [] (w, e) = cc e
  Has-insert k j v ((l, u) ∷ rest) (w, e) = elim (Bool-cases (same j l)) [
    | inl a ↦ elim (Bool-cases (same k l)) [
      | inl b ↦ (v, rw a (rw b refl))
      | inr b ↦ (w, rw a (rw b (ground (arith, e, b))))
    ]
    | inr a ↦ elim (Bool-cases (same k l)) [
      | inl b ↦ (u, rw a (rw b refl))
      | inr b ↦ let (x, f) = Has-insert k j v rest (w, ground (arith, e, b)) in (x, rw a (rw b f))
    ]
  ]

  pub Has-insert_self :
      (k : K) (v : V) (t : List (K × V)) → same k k ≡ true → Has same k (insert same k v t)
  unfolding lookup insert
  Has-insert_self k v [] h = (v, rw h refl)
  Has-insert_self k v ((l, u) ∷ rest) h = elim (Bool-cases (same k l)) [
    | inl a ↦ (v, rw a (rw a refl))
    | inr a ↦ let (x, f) = Has-insert_self k v rest h in (x, rw a (rw a f))
  ]

  module _ (P : V → Type 0) where
    pub AllValues-insert :
        (k : K) (v : V) (t : List (K × V)) → P v → AllValues P t → AllValues P (insert same k v t)
    unfolding insert
    AllValues-insert k v [] p a = (p, tt)
    AllValues-insert k v ((l, u) ∷ rest) p a = elim (Bool-cases (same k l)) [
      | inl e ↦ rw e (p, a.1)
      | inr e ↦ rw e (a.0, AllValues-insert k v rest p a.1)
    ]

    pub AllValues-delete :
        (k : K) (t : List (K × V)) → AllValues P t → AllValues P (delete same k t)
    unfolding delete
    AllValues-delete k [] a = tt
    AllValues-delete k ((l, u) ∷ rest) a = elim (Bool-cases (same k l)) [
      | inl e ↦ rw e (AllValues-delete k rest a.1)
      | inr e ↦ rw e (a.0, AllValues-delete k rest a.1)
    ]

    pub AllValues-lookup :
        (k : K) (v : V) (t : List (K × V)) → lookup same k t ≡ some v → AllValues P t → P v
    unfolding lookup
    AllValues-lookup k v [] e a = cc e
    AllValues-lookup k v ((l, u) ∷ rest) e a = elim (Bool-cases (same k l)) [
      | inl b ↦ let f : u ≡ v = ground (arith, e, b) in subst P f a.0
      | inr b ↦ AllValues-lookup k v rest (ground (arith, e, b)) a.1
    ]

other :
    {K : Type 0} (same : K → K → Bool)
    → ((j k : K) → same j k ≡ true → j ≡ k)
    → (j k l : K) → same j l ≡ false
    → same k l ≡ true
    → same k j ≡ false
other same same-≡ j k l a b = elim (Bool-cases (same k j)) [
  | inl c ↦ cc (a, b, same-≡ k j c)
  | inr c ↦ c
]

-- Tables whose keys are compared by a test that tells equal keys apart from others.
module _ {K V : Type 0} (same : K → K → Bool) (same_refl : (k : K) → same k k ≡ true)
    (same-≡ : (j k : K) → same j k ≡ true → j ≡ k) where
  pub lookup-delete :
      (j k : K) (t : List (K × V))
      → lookup same k (delete same j t) ≡ (if same k j then none else lookup same k t)
  unfolding lookup delete
  lookup-delete j k [] = elim (Bool-cases (same k j)) [ inl e ↦ rw e refl | inr e ↦ rw e refl ]
  lookup-delete j k ((l, v) ∷ rest) =
      let ih = lookup-delete j k rest in
      elim (Bool-cases (same j l)) [
        | inl a ↦
            let q : same k l ≡ same k j = ap (same k) (sym (same-≡ j l a)) in
            rw a (elim (Bool-cases (same k j)) [
              | inl b ↦ rw b (rw b at ih)
              | inr b ↦ rw b (rw q (rw b (rw b at ih)))
            ])
        | inr a ↦ rw a (elim (Bool-cases (same k l)) [
          | inl b ↦ let r : same k j ≡ false = other same same-≡ j k l a b in rw (b, r) refl
          | inr b ↦ rw b ih
        ])
      ]

  pub lookup-insert :
      (j k : K) (v : V) (t : List (K × V))
      → lookup same k (insert same j v t) ≡ (if same k j then some v else lookup same k t)
  unfolding lookup insert
  lookup-insert j k v [] = refl
  lookup-insert j k v ((l, u) ∷ rest) = elim (Bool-cases (same j l)) [
    | inl a ↦
        let q : same k l ≡ same k j = ap (same k) (sym (same-≡ j l a)) in
        elim (Bool-cases (same k j)) [
          | inl b ↦ let c : same k l ≡ true = q ∙ b in rw a (rw (b, c) refl)
          | inr b ↦ let c : same k l ≡ false = q ∙ b in rw a (rw (b, c) refl)
        ]
    | inr a ↦ elim (Bool-cases (same k l)) [
      | inl b ↦ let r : same k j ≡ false = other same same-≡ j k l a b in rw a (rw (b, r) refl)
      | inr b ↦ rw a (rw b (lookup-insert j k v rest))
    ]
  ]

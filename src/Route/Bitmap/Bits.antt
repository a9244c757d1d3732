-- ===== src/Route/Bitmap/Bits.antt =====
-- peers/peer_ospf_route.rs: the bits of the bitmap of connections.
use Prim.Native.Nat.{bit_and, bit_or}
use peer_link.Common.{
  ℕ, suc, zero, ◌*◌, ◌/◌, ◌%◌, ◌^◌, ◌<◌, ◌≡◌, ◌≢◌, refl, sym, ap, ap₂, ◌∙◌, subst, inl, inr, Bool,
  true, false, ◌||◌, List, [], ◌∷◌, some, ◌==◌, ==_iff, ==_refl, ltb, Bool-cases, done, get_elem?,
  get_or, set, length, length-set, get_elem?-get_or, arith, holds_below, holds_below-at,
}
use peer_link.Route.Bitmap.{get_bit, set_bit}

abbrev pub bit_of : ℕ → ℕ → Bool
bit_of byte k = bit_and (byte / 2 ^ k) 1 == 1

-- The bit at a place, off behind the end.
abbrev pub bit_at : List ℕ → ℕ → Bool
bit_at bitmap idx = bit_of (get_or bitmap (idx / 8) 0) (idx % 8)

abbrev same_bool : Bool → Bool → Bool
same_bool true b = b
same_bool false true = false
same_bool false false = true

same_bool-≡ : (a b : Bool) → same_bool a b ≡ true → a ≡ b
same_bool-≡ true b h = sym h
same_bool-≡ false true h = h
same_bool-≡ false false h = refl

abbrev fits : ℕ → ℕ → ℕ → Bool
fits i j byte = same_bool (bit_of (bit_or byte (2 ^ i)) j) (i == j || bit_of byte j)

abbrev small_with : ℕ → ℕ → Bool
small_with i byte = ltb (bit_or byte (2 ^ i)) 256

all_fit : holds_below 8 (λ i. holds_below 8 (λ j. holds_below 256 (fits i j))) ≡ true
unfolding holds_below
all_fit = refl

all_small : holds_below 8 (λ i. holds_below 256 (small_with i)) ≡ true
unfolding holds_below
all_small = refl

bit_of-bit_or :
    (i j byte : ℕ)
    → i < 8
    → j < 8
    → byte < 256
    → bit_of (bit_or byte (2 ^ i)) j ≡ (i == j || bit_of byte j)
bit_of-bit_or i j byte hi hj hb = same_bool-≡ _ _ (
    holds_below-at 256 (fits i j) byte
      (holds_below-at 8 (λ j. holds_below 256 (fits i j)) j
        (holds_below-at 8 (λ i. holds_below 8 (λ j. holds_below 256 (fits i j))) i all_fit hi) hj)
      hb)

bit_or-lt : (i byte : ℕ) → i < 8 → byte < 256 → bit_or byte (2 ^ i) < 256
bit_or-lt i byte hi hb =
    let h =
      holds_below-at 256 (small_with i) byte
        (holds_below-at 8 (λ i. holds_below 256 (small_with i)) i all_small hi) hb in
    ground (arith, h)

module _ {A : Type 0} where
  get_or-set_self : (xs : List A) (i : ℕ) (v d : A) → i < length xs → get_or (set xs i v) i d ≡ v
  get_or-set_self [] i v d h = absurd (omega (arith, h))
  get_or-set_self (x ∷ xs) zero v d h = refl
  get_or-set_self (x ∷ xs) (suc i) v d h = get_or-set_self xs i v d (omega (arith, h))

  get_or-set_ne :
      (xs : List A) (i j : ℕ) (v d : A) → i ≢ j → get_or (set xs i v) j d ≡ get_or xs j d
  get_or-set_ne [] i j v d h = refl
  get_or-set_ne (x ∷ xs) zero zero v d h = absurd (h refl)
  get_or-set_ne (x ∷ xs) zero (suc j) v d h = refl
  get_or-set_ne (x ∷ xs) (suc i) zero v d h = refl
  get_or-set_ne (x ∷ xs) (suc i) (suc j) v d h = get_or-set_ne xs i j v d (λ e. h (ap suc e))

abbrev pub IsBytes : List ℕ → Type 0
IsBytes b = (k : ℕ) → get_or b k 0 < 256

pub get_bit_lem : (b : List ℕ) (idx : ℕ) → idx < 8 * length b → get_bit b idx ≡ done (bit_at b idx)
unfolding get_bit
get_bit_lem b idx h =
    let e : get_elem? b (idx / 8) ≡ some (get_or b (idx / 8) 0) =
      get_elem?-get_or b (idx / 8) 0 (omega (arith, h)) in
    rw e refl

-- `set_bit` within the bitmap.
abbrev written : ℕ → List ℕ → List ℕ
written n b = set b (n / 8) (bit_or (get_or b (n / 8) 0) (2 ^ (n % 8)))

bit_at-written :
    (n m : ℕ) (b : List ℕ)
    → n < 8 * length b
    → IsBytes b
    → bit_at (written n b) m ≡ (n == m || bit_at b m)
bit_at-written n m b h bytes = elim (Bool-cases (n / 8 == m / 8)) [
  | inl e ↦
      let q : n / 8 ≡ m / 8 = (==_iff (n / 8) (m / 8)).0 e in
      let v = bit_or (get_or b (n / 8) 0) (2 ^ (n % 8)) in
      let g : get_or (written n b) (m / 8) 0 ≡ v =
        subst (λ k. get_or (written n b) k 0 ≡ v) q
          (get_or-set_self b (n / 8) v 0 (omega (arith, h))) in
      let r : (n % 8 == m % 8) ≡ (n == m) = same_rest n m q in
      ap (λ x. bit_of x (m % 8)) g
      ∙ bit_of-bit_or (n % 8) (m % 8) (get_or b (n / 8) 0) (omega arith) (omega arith)
          (bytes (n / 8))
      ∙ ap₂ ◌||◌ r (ap (λ k. bit_of (get_or b k 0) (m % 8)) q)
  | inr e ↦
      let ne : n / 8 ≢ m / 8 = λ q. cc (e, (==_iff (n / 8) (m / 8)).1 q) in
      let r : (n == m) ≡ false = differ n m ne in
      ap (λ x. bit_of x (m % 8)) (get_or-set_ne b (n / 8) (m / 8) _ 0 ne) ∙ (rw r refl)
]
  where
    same_rest : (n m : ℕ) → n / 8 ≡ m / 8 → (n % 8 == m % 8) ≡ (n == m)
    same_rest n m q = elim (Bool-cases (n == m)) [
      | inl a ↦ let d : n ≡ m = (==_iff n m).0 a in rw d (rw (==_refl m) (==_refl (m % 8)))
      | inr a ↦ elim (Bool-cases (n % 8 == m % 8)) [
        | inl c ↦
            let k : n % 8 ≡ m % 8 = (==_iff (n % 8) (m % 8)).0 c in
            let d : n ≡ m = omega (arith, q, k) in c ∙ sym ((==_iff n m).1 d)
        | inr c ↦ cc (a, c)
      ]
    ]

    differ : (n m : ℕ) → n / 8 ≢ m / 8 → (n == m) ≡ false
    differ n m ne = elim (Bool-cases (n == m)) [
      | inl a ↦ absurd (ne (ap (λ k. k / 8) ((==_iff n m).0 a)))
      | inr a ↦ a
    ]

IsBytes-written : (n : ℕ) (b : List ℕ) → n < 8 * length b → IsBytes b → IsBytes (written n b)
IsBytes-written n b h bytes k = elim (Bool-cases (n / 8 == k)) [
  | inl e ↦
      let q : n / 8 ≡ k = (==_iff (n / 8) k).0 e in
      let v = bit_or (get_or b (n / 8) 0) (2 ^ (n % 8)) in
      subst (λ k. get_or (written n b) k 0 < 256) q
        (subst (λ x. x < 256) (sym (get_or-set_self b (n / 8) v 0 (omega (arith, h))))
          (bit_or-lt (n % 8) (get_or b (n / 8) 0) (omega arith) (bytes (n / 8))))
  | inr e ↦
      let ne : n / 8 ≢ k = λ q. cc (e, (==_iff (n / 8) k).1 q) in
      subst (λ x. x < 256) (sym (get_or-set_ne b (n / 8) k _ 0 ne)) (bytes k)
]

-- Setting a bit within the bitmap does not panic, and sets that bit alone.
pub set_bit_lem :
    (n : ℕ) (b : List ℕ)
    → n < 8 * length b
    → IsBytes b
    → (b' : List ℕ) × (set_bit n b ≡ done b')
      × (length b' ≡ length b)
      × IsBytes b'
      × ((m : ℕ) → bit_at b' m ≡ (n == m || bit_at b m))
unfolding set_bit
set_bit_lem n b h bytes =
    let e : get_elem? b (n / 8) ≡ some (get_or b (n / 8) 0) =
      get_elem?-get_or b (n / 8) 0 (omega (arith, h)) in
    (
      written n b,
      (rw e refl),
      length-set b (n / 8) _,
      IsBytes-written n b h bytes,
      λ m. bit_at-written n m b h bytes,
    )

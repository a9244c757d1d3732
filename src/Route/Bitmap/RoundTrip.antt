-- ===== src/Route/Bitmap/RoundTrip.antt =====
-- peers/peer_ospf_route.rs: the bitmap that a peer sends tells the others who is connected to whom.
use peer_link.Common.{
  not, holds_below, holds_below-at, ℕ, suc, zero, ◌+◌, ◌-◌, ◌*◌, ◌/◌, ◌%◌, ◌<◌, ◌≤◌, ◌≡◌, ◌≢◌, refl,
  sym, ap, ap₂, ◌∙◌, inl, inr, Bool, true, false, ◌&&◌, ◌||◌, List, [], ◌∷◌, some, ◌==◌, ==_iff,
  ==_refl, ltb, if◌then◌else◌, Bool-cases, done, get_elem?, get_elem?-lt, get_or, replicate, length,
  length-replicate, arith,
}
use peer_link.Route.{RouteConnBitmap}
use peer_link.Route.Synced.{contains}
use peer_link.Route.Bitmap.{set_insert, get_bit, collect_row, get_connected_peers, new_conn_bitmap}
use peer_link.Route.Bitmap.Bits.{bit_of, bit_at, IsBytes, get_bit_lem}
use peer_link.Route.Bitmap.Rows.{row_bit, rows_bit, connections, fill_rows-Filled}

differ : (a b : ℕ) → a ≢ b → (a == b) ≡ false
differ a b h = elim (Bool-cases (a == b)) [ inl e ↦ absurd (h ((==_iff a b).0 e)) | inr e ↦ e ]

row_bit_below :
    (c : List ℕ) (at : ℕ) (rest : List (ℕ × ℕ)) (m : ℕ) → m < at → row_bit c at rest m ≡ false
row_bit_below c at [] m h = refl
row_bit_below c at ((p, v) ∷ rest) m h =
    rw (differ at m (λ e. omega (arith, e, h))) (row_bit_below c (suc at) rest m (omega (arith, h)))

row_bit_above :
    (c : List ℕ) (at : ℕ) (rest : List (ℕ × ℕ)) (m : ℕ)
    → at + length rest ≤ m
    → row_bit c at rest m ≡ false
row_bit_above c at [] m h = refl
row_bit_above c at ((p, v) ∷ rest) m h =
    rw (differ at m (λ e. omega (arith, e, h))) (row_bit_above c (suc at) rest m (omega (arith, h)))

or_false : (x : Bool) → (x || false) ≡ x
or_false true = refl
or_false false = refl

row_bit-at :
    (c : List ℕ) (at : ℕ) (rest : List (ℕ × ℕ)) (j m q w : ℕ)
    → m ≡ at + j
    → get_elem? rest j ≡ some (q, w)
    → row_bit c at rest m ≡ contains q c
row_bit-at c at [] j m q w e g = cc g
row_bit-at c at ((p, v) ∷ rest) zero m q w e g =
    let k : at ≡ m = omega (arith, e) in
    let f : p ≡ q = cc g in
    rw k (
      rw (==_refl m)
        (rw (row_bit_below c (suc m) rest m (omega arith)) (rw f (or_false (contains q c)))))
row_bit-at c at ((p, v) ∷ rest) (suc j) m q w e g =
    rw (differ at m (λ k. omega (arith, e, k)))
      (row_bit-at c (suc at) rest j m q w (omega (arith, e)) g)

rows_bit_below :
    (conn : List (ℕ × (List ℕ × ℕ))) (all : List (ℕ × ℕ)) (i : ℕ) (rest : List (ℕ × ℕ)) (m : ℕ)
    → m < i * length all
    → rows_bit conn all i rest m ≡ false
rows_bit_below conn all i [] m h = refl
rows_bit_below conn all i ((p, v) ∷ rest) m h =
    rw (row_bit_below (connections conn p) (i * length all) all m h)
      (rows_bit_below conn all (suc i) rest m (ground (arith, h)))

rows_bit-at :
    (conn : List (ℕ × (List ℕ × ℕ))) (all : List (ℕ × ℕ)) (i : ℕ) (rest : List (ℕ × ℕ))
    (d j m p v q w : ℕ)
    → m ≡ (i + d) * length all + j
    → get_elem? rest d ≡ some (p, v)
    → get_elem? all j ≡ some (q, w)
    → rows_bit conn all i rest m ≡ contains q (connections conn p)
rows_bit-at conn all i [] d j m p v q w e g a = cc g
rows_bit-at conn all i ((r, u) ∷ rest) zero j m p v q w e g a =
    let f : r ≡ p = cc g in
    let l : j < length all = get_elem?-lt all j (q, w) a in
    rw (rows_bit_below conn all (suc i) rest m (ground (arith, e, l))) (
      or_false (row_bit (connections conn r) (i * length all) all m)
      ∙ (rw f (row_bit-at (connections conn p) (i * length all) all j m q w (ground (arith, e)) a)))
rows_bit-at conn all i ((r, u) ∷ rest) (suc d) j m p v q w e g a =
    rw (row_bit_above (connections conn r) (i * length all) all m (ground (arith, e)))
      (rows_bit-at conn all (suc i) rest d j m p v q w (ground (arith, e)) g a)

contains-set_insert :
    (q p : ℕ) (s : List ℕ) → contains q (set_insert p s) ≡ (q == p || contains q s)
unfolding set_insert
contains-set_insert q p [] = refl
contains-set_insert q p (y ∷ ys) = elim (Bool-cases (ltb p y)) [
  | inl a ↦ rw a refl
  | inr a ↦ elim (Bool-cases (p == y)) [
    | inl b ↦
        let e : p ≡ y = (==_iff p y).0 b in rw a (rw b (rw e (twice (q == y) (contains q ys))))
    | inr b ↦ rw a (rw b (rw (contains-set_insert q p ys) (swap (q == y) (q == p) (contains q ys))))
  ]
]
  where
    twice : (x z : Bool) → (x || z) ≡ (x || (x || z))
    twice true z = refl
    twice false z = refl

    swap : (x y z : Bool) → (x || (y || z)) ≡ (y || (x || z))
    swap true true z = refl
    swap true false z = refl
    swap false y z = refl

-- The peer is one of the bitmap's.
abbrev pub mentions : ℕ → List (ℕ × ℕ) → Bool
mentions q [] = false
mentions q ((p, _) ∷ rest) = q == p || mentions q rest

taken :
    (q p : ℕ) (acc c : List ℕ) (rest : List (ℕ × ℕ))
    → (contains q (if contains p c then set_insert p acc else acc)
        || (mentions q rest && contains q c))
      ≡ (contains q acc || ((q == p || mentions q rest) && contains q c))
taken q p acc c rest = elim (Bool-cases (q == p)) [
  | inl e ↦
      let f : q ≡ p = (==_iff q p).0 e in
      elim (Bool-cases (contains p c)) [
        | inl a ↦
            let b : contains q c ≡ true = ap (λ x. contains x c) f ∙ a in
            rw a (rw (contains-set_insert q p acc) (rw (e, b) (absorb (contains q acc))))
        | inr a ↦
            let b : contains q c ≡ false = ap (λ x. contains x c) f ∙ a in
            rw (a, e, b) (ap (◌||◌ (contains q acc)) (and_false (mentions q rest)))
      ]
  | inr e ↦ elim (Bool-cases (contains p c)) [
    | inl a ↦ rw a (rw (contains-set_insert q p acc) (rw e refl))
    | inr a ↦ rw (a, e) refl
  ]
]
  where
    absorb : (x : Bool) → true ≡ (x || true)
    absorb true = refl
    absorb false = refl

    and_false : (x : Bool) → (x && false) ≡ false
    and_false true = refl
    and_false false = refl

collect_row-contains :
    (b : List ℕ) (at : ℕ) (c : List ℕ) (rest : List (ℕ × ℕ)) (acc : List ℕ)
    → at + length rest ≤ 8 * length b
    → ((j q w : ℕ) → get_elem? rest j ≡ some (q, w) → bit_at b (at + j) ≡ contains q c)
    → (found : List ℕ) × (collect_row b at rest acc ≡ done found)
      × ((q : ℕ) → contains q found ≡ (contains q acc || (mentions q rest && contains q c)))
unfolding collect_row
collect_row-contains b at c [] acc h bits = (acc, refl, λ q. sym (or_false (contains q acc)))
collect_row-contains b at c ((p, v) ∷ rest) acc h bits =
    let on = contains p c in
    let first : get_bit b at ≡ done on =
      get_bit_lem b at (omega (arith, h))
      ∙ ap done (ap (bit_at b) (omega arith) ∙ bits 0 p v refl) in
    let (found, e, m) =
      collect_row-contains b (suc at) c rest (if on then set_insert p acc else acc)
        (omega (arith, h)) (λ j q w g. ap (bit_at b) (omega arith) ∙ bits (suc j) q w g) in
    (found, (rw first e), λ q. m q ∙ taken q p acc c rest)

get_or-replicate : (k i : ℕ) → get_or {A = ℕ} (replicate k 0) i 0 ≡ 0
get_or-replicate zero i = refl
get_or-replicate (suc k) zero = refl
get_or-replicate (suc k) (suc i) = get_or-replicate k i

IsBytes-zeros : (k : ℕ) → IsBytes (replicate k 0)
IsBytes-zeros k i = omega (arith, get_or-replicate k i)

all_off : holds_below 8 (λ k. not (bit_of 0 k)) ≡ true
unfolding holds_below
all_off = refl

zero_bit : (k : ℕ) → k < 8 → bit_of 0 k ≡ false
zero_bit k h = off (bit_of 0 k) (holds_below-at 8 (λ k. not (bit_of 0 k)) k all_off h)
  where
    off : (x : Bool) → not x ≡ true → x ≡ false
    off true e = cc e
    off false e = refl

bit_at-zeros : (k m : ℕ) → bit_at (replicate k 0) m ≡ false
bit_at-zeros k m =
    ap (λ x. bit_of x (m % 8)) (get_or-replicate k (m / 8)) ∙ zero_bit (m % 8) (omega arith)

-- What is below a product of two numbers, by the factors.
row_inside : (i n len : ℕ) → i < n → len ≡ (n * n + 7) / 8 → i * n + n ≤ 8 * len
row_inside i zero len h e = absurd (omega (arith, h))
row_inside i (suc n) len h e =
    let (d, f) = split i (suc n) h in
    let s : suc n * suc n ≡ i * suc n + suc n + d * suc n = rw (sym f) (ground arith) in
    omega (arith, e, s)
  where
    split : (i n : ℕ) → i < n → (d : ℕ) × (i + 1 + d ≡ n)
    split i n h = (n - suc i, omega (arith, h))

from_zero : (i j n : ℕ) → i * n + j ≡ (0 + i) * n + j
from_zero i j n = ground arith

-- Filling the bitmap for any list of peers does not panic, and reading the row of the peer at a place of
-- that list does not either: it gives those peers of the list that the map says this peer is connected to.
pub get_connected_peers-new_conn_bitmap :
    (conn_map : List (ℕ × (List ℕ × ℕ))) (peer_ids : List (ℕ × ℕ))
    → (m : RouteConnBitmap) × (new_conn_bitmap conn_map peer_ids ≡ done m)
      × (m.peer_ids ≡ peer_ids)
      × ((i p v : ℕ)
          → get_elem? peer_ids i ≡ some (p, v)
          → (found : List ℕ) × (get_connected_peers m i ≡ done found)
            × ((q : ℕ)
                → contains q found ≡ (mentions q peer_ids && contains q (connections conn_map p))))
unfolding new_conn_bitmap get_connected_peers
get_connected_peers-new_conn_bitmap conn ids =
    let n = length ids in
    let zeros = replicate ((n * n + 7) / 8) 0 in
    let size : length zeros ≡ (n * n + 7) / 8 = length-replicate ((n * n + 7) / 8) 0 in
    let (b, e, l, y, bits) =
      fill_rows-Filled conn ids 0 ids zeros (omega (arith, size))
        (IsBytes-zeros ((n * n + 7) / 8)) in
    (
      record { peer_ids = ids; bitmap = b },
      (rw e refl),
      refl,
      λ i p v g.
          collect_row-contains b (i * n) (connections conn p) ids []
            (row_inside i n (length b) (get_elem?-lt ids i (p, v) g) (l ∙ size))
            (λ j q w a.
              bits (i * n + j)
              ∙ ap₂ ◌||◌ (rows_bit-at conn ids 0 ids i j (i * n + j) p v q w (from_zero i j n) g a)
                  (bit_at-zeros ((n * n + 7) / 8) (i * n + j))
              ∙ or_false (contains q (connections conn p))),
    )

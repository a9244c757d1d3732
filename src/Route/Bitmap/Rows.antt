-- ===== src/Route/Bitmap/Rows.antt =====
-- peers/peer_ospf_route.rs: the bitmap that `update_route_table_and_cached_local_conn_bitmap` fills, and
-- what `get_connected_peers` reads of it.
use peer_link.Common.{
  ℕ, suc, ◌+◌, ◌*◌, ◌<◌, ◌≤◌, ◌≡◌, refl, sym, ap, ◌∙◌, subst, inl, inr, Bool, true, false, ◌&&◌,
  ◌||◌, List, [], ◌∷◌, Option, none, some, ◌==◌, if◌then◌else◌, Bool-cases, Exec, done, length,
  arith,
}
use peer_link.Common.Tables.{lookup}
use peer_link.Route.Synced.{contains}
use peer_link.Route.Bitmap.{set_bit, fill_row, fill_peer, fill_rows}
use peer_link.Route.Bitmap.Bits.{bit_at, IsBytes, set_bit_lem}

-- The bits of a row from `at` on.
abbrev pub row_bit : List ℕ → ℕ → List (ℕ × ℕ) → ℕ → Bool
row_bit c at [] m = false
row_bit c at ((p, _) ∷ rest) m = (at == m && contains p c) || row_bit c (suc at) rest m

-- Filling gives a bitmap of the same length, with the bits `on` besides those there were.
abbrev pub Filled : Exec (List ℕ) → List ℕ → (ℕ → Bool) → Type 0
Filled result b on =
    (b' : List ℕ) × (result ≡ done b')
    × (length b' ≡ length b)
    × IsBytes b'
    × ((m : ℕ) → bit_at b' m ≡ (on m || bit_at b m))

or_assoc : (a b c : Bool) → (b || (a || c)) ≡ ((a || b) || c)
or_assoc true true c = refl
or_assoc true false c = refl
or_assoc false b c = refl

fill_one :
    (on : Bool) (at : ℕ) (b : List ℕ)
    → at < 8 * length b
    → IsBytes b
    → Filled (if on then set_bit at b else done b) b (λ m. at == m && on)
fill_one true at b h bytes =
    let (b', e, l, y, f) = set_bit_lem at b h bytes in
    (b', e, l, y, λ m. f m ∙ ap (λ x. x || bit_at b m) (sym (and_true (at == m))))
  where
    and_true : (x : Bool) → (x && true) ≡ x
    and_true true = refl
    and_true false = refl
fill_one false at b h bytes =
    (b, refl, refl, bytes, λ m. ap (λ x. x || bit_at b m) (sym (and_false (at == m))))
  where
    and_false : (x : Bool) → (x && false) ≡ false
    and_false true = refl
    and_false false = refl

fill_row-Filled :
    (c : List ℕ) (at : ℕ) (rest : List (ℕ × ℕ)) (b : List ℕ)
    → at + length rest ≤ 8 * length b
    → IsBytes b
    → Filled (fill_row c at rest b) b (row_bit c at rest)
unfolding fill_row
fill_row-Filled c at [] b h bytes = (b, refl, refl, bytes, λ m. refl)
fill_row-Filled c at ((p, v) ∷ rest) b h bytes =
    let (b1, e1, l1, y1, f1) = fill_one (contains p c) at b (omega (arith, h)) bytes in
    let (b2, e2, l2, y2, f2) = fill_row-Filled c (suc at) rest b1 (omega (arith, h, l1)) y1 in
    (
      b2,
      (rw e1 e2),
      l2 ∙ l1,
      y2,
      λ m.
          f2 m
          ∙ ap (◌||◌ (row_bit c (suc at) rest m)) (f1 m)
          ∙ or_assoc (at == m && contains p c) (row_bit c (suc at) rest m) (bit_at b m),
    )

-- Who a peer is connected to, as the map says.
abbrev pub connections : List (ℕ × (List ℕ × ℕ)) → ℕ → List ℕ
connections conn_map p = elim (lookup ◌==◌ p conn_map) [ none ↦ [] | some c ↦ c.0 ]

row_bit_none : (at : ℕ) (rest : List (ℕ × ℕ)) (m : ℕ) → row_bit [] at rest m ≡ false
row_bit_none at [] m = refl
row_bit_none at ((p, v) ∷ rest) m = elim (Bool-cases (at == m)) [
  | inl e ↦ rw e (row_bit_none (suc at) rest m)
  | inr e ↦ rw e (row_bit_none (suc at) rest m)
]

fill_peer-Filled :
    (found : Option (List ℕ × ℕ)) (at : ℕ) (all : List (ℕ × ℕ)) (b : List ℕ)
    → at + length all ≤ 8 * length b
    → IsBytes b
    → Filled (fill_peer found at all b) b (row_bit (elim found [ none ↦ [] | some c ↦ c.0 ]) at all)
unfolding fill_peer
fill_peer-Filled none at all b h bytes =
    (b, refl, refl, bytes, λ m. rw (row_bit_none at all m) refl)
fill_peer-Filled (some c) at all b h bytes = fill_row-Filled c.0 at all b h bytes

-- The bits of the rows from a peer on.
abbrev pub rows_bit : List (ℕ × (List ℕ × ℕ)) → List (ℕ × ℕ) → ℕ → List (ℕ × ℕ) → ℕ → Bool
rows_bit conn all i [] m = false
rows_bit conn all i ((p, _) ∷ rest) m =
    row_bit (connections conn p) (i * length all) all m || rows_bit conn all (suc i) rest m

pub fill_rows-Filled :
    (conn : List (ℕ × (List ℕ × ℕ))) (all : List (ℕ × ℕ)) (i : ℕ) (rest : List (ℕ × ℕ)) (b : List ℕ)
    → (i + length rest) * length all ≤ 8 * length b
    → IsBytes b
    → Filled (fill_rows conn all i rest b) b (rows_bit conn all i rest)
unfolding fill_rows
fill_rows-Filled conn all i [] b h bytes = (b, refl, refl, bytes, λ m. refl)
fill_rows-Filled conn all i ((p, v) ∷ rest) b h bytes =
    let fits = row_fits i (length rest) (length all) (8 * length b) h in
    let (b1, e1, l1, y1, f1) =
      fill_peer-Filled (lookup ◌==◌ p conn) (i * length all) all b fits.0 bytes in
    let (b2, e2, l2, y2, f2) =
      fill_rows-Filled conn all (suc i) rest b1
        (subst (λ k. (suc i + length rest) * length all ≤ 8 * k) (sym l1) fits.1) y1 in
    (
      b2,
      (rw e1 e2),
      l2 ∙ l1,
      y2,
      λ m.
          f2 m
          ∙ ap (◌||◌ (rows_bit conn all (suc i) rest m)) (f1 m)
          ∙ or_assoc (row_bit (connections conn p) (i * length all) all m)
              (rows_bit conn all (suc i) rest m) (bit_at b m),
    )
  where
    row_fits :
        (i r n bound : ℕ)
        → (i + suc r) * n ≤ bound
        → (i * n + n ≤ bound) × ((suc i + r) * n ≤ bound)
    row_fits i r n bound h = (ground (arith, h), ground (arith, h))

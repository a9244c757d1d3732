-- ===== src/Reassembly/Fragments.antt =====
-- gateway/ip_reassembler.rs: fragments of one datagram that do not overlap, and their order.
use peer_link.Common.{
  ℕ, ◌+◌, ◌^◌, ◌≤◌, ◌<◌, ◌≡◌, ◌∙◌, refl, ap, Bool, true, false, List, [], ◌∷◌, ◌++◌, ◌&&◌, arith,
  length, take, drop, ltb, leb, done, Bool-cases, inl, inr,
}
use peer_link.Reassembly.{
  IpFragment, len16, add16, starts_inside, overlaps_any, sum_lengths, insert_sorted, sort_by_offset,
}

abbrev pub size : IpFragment → ℕ
size f = length f.data_bytes

-- A fragment holds bytes of the datagram, at its offset.
abbrev pub Within : List ℕ → IpFragment → Type 0
Within whole f =
    (f.data_bytes ≡ take (size f) (drop f.offset whole)) × (f.offset + size f ≤ length whole)

abbrev pub AllWithin : List ℕ → List IpFragment → Type 0
AllWithin whole [] = Unit {0}
AllWithin whole (f ∷ fs) = Within whole f × AllWithin whole fs

-- Neither of two fragments starts inside the other.
abbrev pub Apart : IpFragment → IpFragment → Type 0
Apart f g =
    (f.offset ≤ g.offset → f.offset + size f ≤ g.offset)
    × (g.offset ≤ f.offset → g.offset + size g ≤ f.offset)

abbrev pub AllApart : IpFragment → List IpFragment → Type 0
AllApart g [] = Unit {0}
AllApart g (f ∷ fs) = Apart f g × AllApart g fs

abbrev pub PairwiseApart : List IpFragment → Type 0
PairwiseApart [] = Unit {0}
PairwiseApart (f ∷ fs) = AllApart f fs × PairwiseApart fs

abbrev pub total_size : List IpFragment → ℕ
total_size [] = 0
total_size (f ∷ fs) = size f + total_size fs

starts_inside_lem :
    (f g : IpFragment)
    → f.offset + size f < 2 ^ 16
    → starts_inside f g ≡ done (leb f.offset g.offset && ltb g.offset (f.offset + size f))
unfolding starts_inside add16
starts_inside_lem f g h = let e : len16 f ≡ size f = omega arith in rw e (ground arith)

-- The test for overlaps does not overflow within a datagram, and exactly the fragments that pass it
-- are apart.
pub overlaps_any_lem :
    (whole : List ℕ) (fs : List IpFragment) (g : IpFragment)
    → length whole < 2 ^ 16
    → AllWithin whole fs
    → Within whole g
    → (b : Bool) × (overlaps_any fs g ≡ done b)
      × (b ≡ false → AllApart g fs)
      × (b ≡ true → ¬ AllApart g fs)
unfolding overlaps_any
overlaps_any_lem whole [] g small a v = (false, refl, (λ e. tt), (λ e. cc e))
overlaps_any_lem whole (f ∷ fs) g small a v =
    let first = starts_inside_lem f g (omega arith) in
    let second = starts_inside_lem g f (omega arith) in
    let (b, runs, apart, not_apart) = overlaps_any_lem whole fs g small a.1 v in
    elim (Bool-cases (leb f.offset g.offset && ltb g.offset (f.offset + size f))) [
      | inl inside ↦ (true, rw (first, inside) refl, λ e. cc, λ _ h. ground (arith, h.0.0, inside))
      | inr outside ↦
          elim (Bool-cases (leb g.offset f.offset && ltb f.offset (g.offset + size g))) [
            | inl inside ↦ (
              true,
              rw (first, outside, second, inside) refl,
              λ e. cc,
              λ _ h. ground (arith, h.0.1, inside),
            )
            | inr clear ↦ (
              b,
              rw (first, outside, second, clear, runs) refl,
              λ e. ((ground arith, ground arith), apart e),
              λ e h. not_apart e h.1,
            )
          ]
    ]

pub Apart-sym : (f g : IpFragment) → Apart f g → Apart g f
Apart-sym f g h = (h.1, h.0)

AllApart-append :
    (f : IpFragment) (fs : List IpFragment) (g : IpFragment)
    → AllApart f fs
    → Apart g f
    → AllApart f (fs ++ (g ∷ []))
AllApart-append f [] g a h = (h, tt)
AllApart-append f (x ∷ fs) g a h = (a.0, AllApart-append f fs g a.1 h)

pub PairwiseApart-append :
    (fs : List IpFragment) (g : IpFragment)
    → PairwiseApart fs
    → AllApart g fs
    → PairwiseApart (fs ++ (g ∷ []))
PairwiseApart-append [] g p a = (tt, tt)
PairwiseApart-append (f ∷ fs) g p a =
    (AllApart-append f fs g p.0 (Apart-sym f g a.0), PairwiseApart-append fs g p.1 a.1)

pub AllWithin-append :
    (whole : List ℕ) (fs : List IpFragment) (g : IpFragment)
    → AllWithin whole fs
    → Within whole g
    → AllWithin whole (fs ++ (g ∷ []))
AllWithin-append whole [] g a v = (v, tt)
AllWithin-append whole (f ∷ fs) g a v = (a.0, AllWithin-append whole fs g a.1 v)

-- Fragments one behind the other, from `from` on and up to `to`.
abbrev pub IsChain : ℕ → ℕ → List IpFragment → Type 0
IsChain from to [] = from ≤ to
IsChain from to (f ∷ fs) = (from ≤ f.offset) × IsChain (f.offset + size f) to fs

insert_sorted-IsChain :
    (from to : ℕ) (f : IpFragment) (gs : List IpFragment)
    → from ≤ f.offset
    → f.offset + size f ≤ to
    → AllApart f gs
    → IsChain from to gs
    → IsChain from to (insert_sorted f gs)
unfolding insert_sorted
insert_sorted-IsChain from to f [] h l a c = (h, l)
insert_sorted-IsChain from to f (g ∷ gs) h l a c = elim (Bool-cases (leb f.offset g.offset)) [
  | inl before ↦ rw before (h, (a.0.1 (ground arith), c.1))
  | inr behind ↦
      rw behind
        (c.0, insert_sorted-IsChain (g.offset + size g) to f gs (a.0.0 (ground arith)) l a.1 c.1)
]

AllApart-insert_sorted :
    (x f : IpFragment) (gs : List IpFragment)
    → Apart f x
    → AllApart x gs
    → AllApart x (insert_sorted f gs)
unfolding insert_sorted
AllApart-insert_sorted x f [] h a = (h, tt)
AllApart-insert_sorted x f (g ∷ gs) h a = elim (Bool-cases (leb f.offset g.offset)) [
  | inl before ↦ rw before (h, (a.0, a.1))
  | inr behind ↦ rw behind (a.0, AllApart-insert_sorted x f gs h a.1)
]

AllApart-sort_by_offset :
    (x : IpFragment) (fs : List IpFragment) → AllApart x fs → AllApart x (sort_by_offset fs)
unfolding sort_by_offset
AllApart-sort_by_offset x [] a = tt
AllApart-sort_by_offset x (f ∷ fs) a =
    AllApart-insert_sorted x f (sort_by_offset fs) a.0 (AllApart-sort_by_offset x fs a.1)

-- Sorted, the fragments of a datagram stand one behind the other.
pub sort_by_offset-IsChain :
    (whole : List ℕ) (fs : List IpFragment)
    → AllWithin whole fs
    → PairwiseApart fs
    → IsChain 0 (length whole) (sort_by_offset fs)
unfolding sort_by_offset
sort_by_offset-IsChain whole [] a p = omega arith
sort_by_offset-IsChain whole (f ∷ fs) a p =
    insert_sorted-IsChain 0 (length whole) f (sort_by_offset fs) (omega arith) a.0.1
      (AllApart-sort_by_offset f fs p.0) (sort_by_offset-IsChain whole fs a.1 p.1)

insert_sorted-AllWithin :
    (whole : List ℕ) (f : IpFragment) (gs : List IpFragment)
    → Within whole f
    → AllWithin whole gs
    → AllWithin whole (insert_sorted f gs)
unfolding insert_sorted
insert_sorted-AllWithin whole f [] v a = (v, tt)
insert_sorted-AllWithin whole f (g ∷ gs) v a = elim (Bool-cases (leb f.offset g.offset)) [
  | inl before ↦ rw before (v, (a.0, a.1))
  | inr behind ↦ rw behind (a.0, insert_sorted-AllWithin whole f gs v a.1)
]

pub sort_by_offset-AllWithin :
    (whole : List ℕ) (fs : List IpFragment)
    → AllWithin whole fs
    → AllWithin whole (sort_by_offset fs)
unfolding sort_by_offset
sort_by_offset-AllWithin whole [] a = tt
sort_by_offset-AllWithin whole (f ∷ fs) a =
    insert_sorted-AllWithin whole f (sort_by_offset fs) a.0 (sort_by_offset-AllWithin whole fs a.1)

total_size-insert_sorted :
    (f : IpFragment) (gs : List IpFragment)
    → total_size (insert_sorted f gs) ≡ size f + total_size gs
unfolding insert_sorted
total_size-insert_sorted f [] = refl
total_size-insert_sorted f (g ∷ gs) = ground (arith, total_size-insert_sorted f gs)

pub total_size-sort_by_offset :
    (fs : List IpFragment) → total_size (sort_by_offset fs) ≡ total_size fs
unfolding sort_by_offset
total_size-sort_by_offset [] = refl
total_size-sort_by_offset (f ∷ fs) =
    omega (arith, total_size-insert_sorted f (sort_by_offset fs), total_size-sort_by_offset fs)

pub total_size-IsChain :
    (from to : ℕ) (fs : List IpFragment) → IsChain from to fs → from + total_size fs ≤ to
total_size-IsChain from to [] c = omega arith
total_size-IsChain from to (f ∷ fs) c =
    omega (arith, total_size-IsChain (f.offset + size f) to fs c.1)

-- The sum of the lengths does not overflow where it is less than 2 ^ 16.
pub sum_lengths_lem :
    (acc : ℕ) (fs : List IpFragment)
    → acc + total_size fs < 2 ^ 16
    → sum_lengths acc fs ≡ done (acc + total_size fs)
unfolding sum_lengths
sum_lengths_lem acc [] h = ap done (omega arith)
sum_lengths_lem acc (f ∷ fs) h =
    let e : len16 f ≡ size f = omega arith in
    rw (e, add16_lem) (sum_lengths_lem (acc + size f) fs (omega arith) ∙ ap done (omega arith))
  where
    add16_lem : add16 acc (size f) ≡ done (acc + size f)
    add16_lem = ground arith

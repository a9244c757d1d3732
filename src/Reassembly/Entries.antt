-- ===== src/Reassembly/Entries.antt =====
-- gateway/ip_reassembler.rs: the table of packets that are being put together.
use mathlib.Core.Bool.{false≢true}
use peer_link.Common.{
  ◌≡◌, ◌∙◌, sym, ap, refl, Bool, true, false, [], ◌∷◌, arith, some, none, if◌then◌else◌, Bool-cases,
  inl, inr,
}
use peer_link.Reassembly.{IpResemblerKey, IpResemblerValue, Packets, same_key, find, remove, put}

pub same_key_refl : (a : IpResemblerKey) → same_key a a ≡ true
same_key_refl a = ground arith

same_key→eq : (a b : IpResemblerKey) → same_key a b ≡ true → a ≡ b
same_key→eq a b h = ground arith

if_again :
    {A : Type 0} (b : Bool) (x y z : A)
    → (if b then x else z) ≡ (if b then x else (if b then y else z))
if_again true x y z = refl
if_again false x y z = refl

-- Two keys that differ are not both the third.
if_swap :
    {A : Type 0} (j key k : IpResemblerKey) (x y z : A)
    → same_key j key ≡ false
    → (if same_key j k then y else (if same_key key k then x else z))
      ≡ (if same_key key k then x else (if same_key j k then y else z))
if_swap j key k x y z other = elim (Bool-cases (same_key j k)) [
  | inr differs ↦ rw differs refl
  | inl same ↦ elim (Bool-cases (same_key key k)) [
    | inr differs ↦ rw differs refl
    | inl also ↦
        let e : j ≡ key = same_key→eq j k same ∙ sym (same_key→eq key k also) in
        absurd (false≢true (sym other ∙ ap (λ a. same_key a key) e ∙ same_key_refl key))
  ]
]

pub find-remove :
    (key k : IpResemblerKey) (ps : Packets)
    → find k (remove key ps) ≡ (if same_key key k then none else find k ps)
unfolding find remove
find-remove key k [] = ground arith
find-remove key k ((j, v) ∷ ps) = elim (Bool-cases (same_key j key)) [
  | inl same ↦
      rw (same_key→eq j key same, same_key_refl key, find-remove key k ps)
        (if_again (same_key key k) none (some v) (find k ps))
  | inr other ↦ rw (other, find-remove key k ps) (if_swap j key k none (some v) (find k ps) other)
]

pub find-put :
    (key k : IpResemblerKey) (v : IpResemblerValue) (ps : Packets)
    → find k (put key v ps) ≡ (if same_key key k then some v else find k ps)
unfolding find put
find-put key k v ps =
    rw (find-remove key k ps) (sym (if_again (same_key key k) (some v) none (find k ps)))

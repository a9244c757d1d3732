-- ===== src/Reassembly/Assemble.antt =====
-- gateway/ip_reassembler.rs: the fragments of a datagram, complete, make up the datagram.
use mathlib.Core.List.{append_assoc, append-nil}
use peer_link.Common.{
  ◌⊎◌, ◌≢◌, inl, inr, ℕ, ◌+◌, ◌-◌, ◌^◌, ◌≤◌, ◌<◌, ◌≡◌, ◌∙◌, refl, sym, ap, ap₂, true, false, List,
  [], ◌∷◌, ◌++◌, ◌==◌, arith, length, take, drop, replicate, length-append, length-take,
  length-replicate, take-append, take_all, drop-append, drop-drop, take-add, drop-replicate, done,
  some, none,
}
use peer_link.Packet.Buffer.{copy_slice}
use peer_link.Packet.Buffer.Payload.{copy_slice_lem}
use peer_link.Reassembly.{
  IpFragment, IpPacket, copy_fragments, sort_by_offset, is_complete, assemble,
}
use peer_link.Reassembly.Fragments.{
  size, Within, AllWithin, PairwiseApart, IsChain, total_size, total_size-IsChain,
  total_size-sort_by_offset, sort_by_offset-IsChain, sort_by_offset-AllWithin, sum_lengths_lem,
}

module _ (whole : List ℕ) where
  -- The buffer when the first `n` bytes are copied.
  abbrev filled : ℕ → List ℕ
  filled n = take n whole ++ replicate (length whole - n) 0

  length-filled : (n : ℕ) → n ≤ length whole → length (filled n) ≡ length whole
  length-filled n h = omega (
    arith,
    length-append (take n whole) (replicate (length whole - n) 0),
    length-take n whole,
    length-replicate {A = ℕ} (length whole - n) 0,
  )

  length-prefix : (n : ℕ) → n ≤ length whole → n ≡ length (take n whole)
  length-prefix n h = omega (arith, length-take n whole)

  -- Copying the next fragment.
  copy_next :
      (f : IpFragment)
      → Within whole f
      → copy_slice f.offset (f.offset + size f) f.data_bytes (filled f.offset)
        ≡ done (filled (f.offset + size f))
  copy_next f v =
      copy_slice_lem f.offset (f.offset + size f) f.data_bytes (filled f.offset) refl
        (omega (arith, length-filled f.offset (omega arith)))
      ∙ ap done (
          ap₂ (λ xs ys. xs ++ (f.data_bytes ++ ys))
            (take-append f.offset (take f.offset whole) (replicate (length whole - f.offset) 0)
              (length-prefix f.offset (omega arith)))
            rest
          ∙ ap (λ xs. take f.offset whole ++ (xs ++ zeros)) v.0
          ∙ sym (append_assoc (take f.offset whole) (take (size f) (drop f.offset whole)) zeros)
          ∙ ap (λ xs. xs ++ zeros) (take-add f.offset (size f) (f.offset + size f) whole refl))
    where
      zeros : List ℕ
      zeros = replicate (length whole - (f.offset + size f)) 0

      rest : drop (f.offset + size f) (filled f.offset) ≡ zeros
      rest =
          sym (drop-drop (size f) f.offset (f.offset + size f) (filled f.offset) (omega arith))
          ∙ ap (drop (size f)) (
              drop-append f.offset (take f.offset whole) (replicate (length whole - f.offset) 0)
                (length-prefix f.offset (omega arith)))
          ∙ drop-replicate (size f) (length whole - (f.offset + size f)) (length whole - f.offset) 0
              (omega arith)

  -- A chain of fragments whose lengths make up what is missing leaves no gap.
  copy_chain :
      (from : ℕ) (fs : List IpFragment)
      → AllWithin whole fs
      → IsChain from (length whole) fs
      → from + total_size fs ≡ length whole
      → copy_fragments fs (filled from) ≡ done whole
  unfolding copy_fragments
  copy_chain from [] a c e = ap done (
      ap₂ ◌++◌ (take_all from whole (omega arith))
        (ap {B = List ℕ} (λ n. replicate n 0) {y = 0} (omega arith))
      ∙ append-nil whole)
  copy_chain from (f ∷ fs) a c e =
      let start : from ≡ f.offset =
        omega (arith, total_size-IsChain (f.offset + size f) (length whole) fs c.1) in
      rw (start, copy_next f a.0) (copy_chain (f.offset + size f) fs a.1 c.1 (omega (arith, start)))

  -- Whether all bytes are there: fragments of the datagram that do not overlap, as many bytes as its
  -- length, which the last fragment has told.
  pub assemble_lem :
      (p : IpPacket)
      → length whole < 2 ^ 16
      → AllWithin whole p.fragments
      → PairwiseApart p.fragments
      → p.total_length ≡ some (length whole)
      → total_size p.fragments ≡ length whole
      → assemble p ≡ done (record p { fragments = sort_by_offset p.fragments }, some whole)
  unfolding assemble is_complete
  assemble_lem p small a apart told e =
      rw (told, is_complete, sum_lengths_lem 0 p.fragments (omega arith), enough, copied) refl
    where
      enough : (0 + total_size p.fragments == length whole) ≡ true
      enough = ground (arith, e)

      copied : copy_fragments (sort_by_offset p.fragments) (replicate (length whole) 0) ≡ done whole
      copied =
          ap (copy_fragments (sort_by_offset p.fragments))
            (ap (λ n. replicate n 0) {y = length whole - 0} (omega arith))
          ∙ copy_chain 0 (sort_by_offset p.fragments) (sort_by_offset-AllWithin whole p.fragments a)
              (sort_by_offset-IsChain whole p.fragments a apart)
              (omega (arith, total_size-sort_by_offset p.fragments, e))

-- Before the last fragment, or with bytes missing, nothing is assembled.
pub assemble-none :
    (whole : List ℕ) (p : IpPacket)
    → total_size p.fragments < 2 ^ 16
    → (p.total_length ≡ none)
      ⊎ ((p.total_length ≡ some (length whole)) × (total_size p.fragments ≢ length whole))
    → assemble p ≡ done (p, none)
unfolding assemble is_complete
assemble-none whole p small (inl e) = rw (e, is_complete) refl
assemble-none whole p small (inr (e, ne)) =
    rw (e, is_complete, sum_lengths_lem 0 p.fragments (omega arith), missing) refl
  where
    missing : (0 + total_size p.fragments == length whole) ≡ false
    missing = ground (arith, ne)

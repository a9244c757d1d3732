-- ===== src/Reassembly/Tests.antt =====
-- gateway/ip_reassembler.rs: a datagram of 16 bytes in two fragments.
use peer_link.Common.{
  length, ◌^◌, true, ℕ, ◌<◌, ◌≡◌, ◌⊎◌, inl, refl, List, [], ◌∷◌, false, arith, done, ◌>>=◌, Option,
  some, none,
}
use peer_link.Reassembly.{
  Ipv4Packet, IpFragment, IpPacket, IpReassembler, IpResemblerKey, IpResemblerValue, new,
  new_packet, is_last_fragment, add_fragment, find, same_key, is_packet_fragmented,
  remove_expired_packets, assemble,
}
use peer_link.Reassembly.Fragments.{PairwiseApart}
use peer_link.Reassembly.Sequence.{add_fragments, fragments_of, has_last, add_fragments-whole}
use peer_link.Reassembly.Datagram.{IsNext, IsPartial, IsFragment, IsWhole, key_of, add_fragment_lem}

abbrev bytes : List ℕ
bytes = 1 ∷ 2 ∷ 3 ∷ 4 ∷ 5 ∷ 6 ∷ 7 ∷ 8 ∷ 9 ∷ 10 ∷ 11 ∷ 12 ∷ []

abbrev first : Ipv4Packet
first = record {
  identification = 7;
  fragment_offset = 0;
  flags = 1;
  total_length = 28;
  header_length = 5;
  payload = 1 ∷ 2 ∷ 3 ∷ 4 ∷ 5 ∷ 6 ∷ 7 ∷ 8 ∷ [];
}

abbrev second : Ipv4Packet
second = record {
  identification = 7;
  fragment_offset = 1;
  flags = 0;
  total_length = 24;
  header_length = 5;
  payload = 9 ∷ 10 ∷ 11 ∷ 12 ∷ [];
}

both :
    (add_fragment 5 (new 10) 1 2 second >>= λ t. add_fragment 6 t.0 1 2 first)
    ≡ done (new 10, some bytes)
unfolding add_fragment peer_link.Reassembly.sub16 peer_link.Reassembly.from_packet
    peer_link.Reassembly.update_entry peer_link.Reassembly.set_total_length
    peer_link.Reassembly.add16 peer_link.Reassembly.add_to_packet peer_link.Reassembly.overlaps_any
    find new peer_link.Reassembly.new_packet assemble peer_link.Reassembly.is_complete
    peer_link.Reassembly.sum_lengths peer_link.Reassembly.put peer_link.Reassembly.copy_fragments
    peer_link.Reassembly.sort_by_offset
both = refl

twelve : length bytes < 2 ^ 16
twelve = omega arith

fresh-IsPartial : IsPartial bytes (new_packet 1 2)
unfolding new_packet
fresh-IsPartial = record { within = tt; apart = tt; told = inl refl }

second-IsFragment : IsFragment bytes second
unfolding is_last_fragment
second-IsFragment = record {
  headed = refl;
  short = omega arith;
  placed = omega arith;
  carried = refl;
  last = λ _. refl;
}

add_fragment_lem_example :
    (t : IpReassembler) × (r : Option (List ℕ)) × (q : IpPacket) × (add_fragment 5
        (new 10)
        1
        2
        second
      ≡ done (t, r))
    × IsNext bytes second (new_packet 1 2) q
    × IsPartial bytes q
    × ((IsWhole bytes twelve q × (r ≡ some bytes) × (find (key_of 1 2 second) t.packets ≡ none))
        ⊎ ((¬ IsWhole bytes twelve q)
            × (r ≡ none)
            × (find (key_of 1 2 second) t.packets ≡ some (record { packet = q; timestamp = 5 }))))
    × ((k : IpResemblerKey) → same_key (key_of 1 2 second) k ≡ false → find k t.packets ≡ find k [])
unfolding new find
add_fragment_lem_example =
    add_fragment_lem bytes twelve 5 (new 10) 1 2 second second-IsFragment fresh-IsPartial

first-IsFragment : IsFragment bytes first
unfolding is_last_fragment
first-IsFragment = record {
  headed = refl;
  short = omega arith;
  placed = omega arith;
  carried = refl;
  last = λ e. cc e;
}

abbrev fragments : List (ℕ × Ipv4Packet)
fragments = (5, second) ∷ (6, first) ∷ []

fragments-apart : PairwiseApart (fragments_of fragments)
fragments-apart = ((((λ _. omega arith), (λ e. absurd (omega (arith, e)))), tt), (tt, tt))

has_last-fragments : has_last fragments ≡ true
unfolding is_last_fragment
has_last-fragments = refl

find-new : find (key_of 1 2 first) (new 10).packets ≡ none
unfolding find new
find-new = refl

add_fragments-whole_example :
    (t : IpReassembler) × (add_fragments 1 2 fragments (new 10) ≡ done (t, none ∷ some bytes ∷ []))
    × (find (key_of 1 2 first) t.packets ≡ none)
    × ((k : IpResemblerKey)
        → same_key (key_of 1 2 first) k ≡ false
        → find k t.packets ≡ find k (new 10).packets)
add_fragments-whole_example =
    add_fragments-whole bytes twelve 1 2 7 fragments (new 10)
      (second-IsFragment, refl, (λ e. cc e), (first-IsFragment, refl, (λ e. cc e), tt))
      fragments-apart refl has_last-fragments find-new

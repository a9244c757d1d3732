-- ===== src/Reassembly/Sequence.antt =====
-- gateway/ip_reassembler.rs: a datagram, cut into fragments that arrive in any order.
use mathlib.Core.List.{append_assoc}
use peer_link.Common.{
  ℕ, ◌+◌, ◌-◌, ◌^◌, ◌<◌, ◌≡◌, ◌≢◌, ◌⊎◌, ◌∙◌, inl, inr, refl, sym, ap, subst, Bool, true, false,
  List, [], ◌∷◌, ◌++◌, ◌||◌, arith, length, replicate, done, Exec, ◌>>=◌, Option, some, none,
  Bool-cases,
}
use peer_link.Reassembly.{
  Ipv4Packet, IpFragment, IpPacket, IpReassembler, IpResemblerKey, is_last_fragment, find, same_key,
  entry_or_new, add_fragment, new_packet,
}
use peer_link.Reassembly.Fragments.{size, Apart, AllApart, PairwiseApart, total_size, Apart-sym}
use peer_link.Reassembly.Datagram.{
  fragment_of, key_of, IsPartial, IsFragment, IsNext, IsWhole, add_fragment_lem,
}

-- Packets that come one after another, each at its time.
unfoldable pub add_fragments :
    (source destination : ℕ)
    → List (ℕ × Ipv4Packet)
    → IpReassembler
    → Exec (IpReassembler × List (Option (List ℕ)))
add_fragments source destination [] s = done (s, [])
add_fragments source destination ((now, packet) ∷ packets) s =
    add_fragment now s source destination packet >>= λ r.
    add_fragments source destination packets r.0 >>= λ rest. done (rest.0, r.1 ∷ rest.1)

abbrev pub fragments_of : List (ℕ × Ipv4Packet) → List IpFragment
fragments_of [] = []
fragments_of ((now, packet) ∷ packets) = fragment_of packet ∷ fragments_of packets

abbrev pub has_last : List (ℕ × Ipv4Packet) → Bool
has_last [] = false
has_last ((now, packet) ∷ packets) = is_last_fragment packet || has_last packets

-- Fragments of a datagram, with its identification, none of them empty.
abbrev pub AllFragments : (whole : List ℕ) (id : ℕ) → List (ℕ × Ipv4Packet) → Type 0
AllFragments whole id [] = Unit {0}
AllFragments whole id ((now, packet) ∷ packets) =
    IsFragment whole packet
    × (packet.identification ≡ id)
    × (packet.payload ≢ [])
    × AllFragments whole id packets

Apart-within :
    (x f : IpFragment) (fs gs : List IpFragment) → AllApart x (fs ++ (f ∷ gs)) → Apart f x
Apart-within x f [] gs a = a.0
Apart-within x f (g ∷ fs) gs a = Apart-within x f fs gs a.1

AllApart-within :
    (f : IpFragment) (fs gs : List IpFragment) → PairwiseApart (fs ++ (f ∷ gs)) → AllApart f fs
AllApart-within f [] gs a = tt
AllApart-within f (x ∷ fs) gs a =
    (Apart-sym f x (Apart-within x f fs gs a.0), AllApart-within f fs gs a.1)

total_size-append :
    (fs : List IpFragment) (f : IpFragment) → total_size (fs ++ (f ∷ [])) ≡ total_size fs + size f
total_size-append [] f = omega arith
total_size-append (x ∷ fs) f = omega (arith, total_size-append fs f)

length-nonempty : (bytes : List ℕ) → bytes ≢ [] → 0 < length bytes
length-nonempty [] ne = absurd (ne refl)
length-nonempty (x ∷ bytes) ne = omega arith

module _ (whole : List ℕ) (small : length whole < 2 ^ 16) (source destination id : ℕ) where
  abbrev key : IpResemblerKey
  key = record { source = source; destination = destination; id = id }

  -- What is held of the datagram and what is still to come make it up.
  record IsAwaiting (packets : List (ℕ × Ipv4Packet)) (p : IpPacket) : Type 0 where
    partial : IsPartial whole p
    apart : PairwiseApart (p.fragments ++ fragments_of packets)
    all : total_size p.fragments + total_size (fragments_of packets) ≡ length whole
    told : (p.total_length ≡ some (length whole)) ⊎ (has_last packets ≡ true)

  -- The fragment that comes next is taken.
  IsAwaiting-next :
      (now : ℕ) (packet : Ipv4Packet) (packets : List (ℕ × Ipv4Packet)) (p q : IpPacket)
      → IsAwaiting ((now, packet) ∷ packets) p
      → IsNext whole packet p q
      → IsPartial whole q
      → IsAwaiting packets q
  IsAwaiting-next now packet packets p q v next vq =
      let f = fragment_of packet in
      let here : AllApart f p.fragments =
        AllApart-within f p.fragments (fragments_of packets) v.apart in
      let added : q.fragments ≡ p.fragments ++ (f ∷ []) = elim next.taken [
        | inl (_, e) ↦ e
        | inr (overlaps, _) ↦ absurd (overlaps here)
      ] in
      record {
        partial = vq;
        apart =
            subst PairwiseApart
              (sym (append_assoc p.fragments (f ∷ []) (fragments_of packets))
                ∙ ap (λ fs. fs ++ fragments_of packets) (sym added))
              v.apart;
        all = omega (arith, v.all, total_size-append p.fragments f, ap total_size added);
        told = elim (Bool-cases (is_last_fragment packet)) [
          | inl last ↦ inl (next.length_told ∙ (rw last refl))
          | inr more ↦ elim v.told [
            | inl known ↦ inl (next.length_told ∙ (rw more known))
            | inr rest ↦ inr (rw more at rest)
          ]
        ];
      }

  -- What `add_fragment` makes of a fragment, by the key of its datagram.
  abbrev AddedAt : IpResemblerKey → (now : ℕ) → Ipv4Packet → IpReassembler → Type 0
  AddedAt k now packet s =
      (t : IpReassembler) × (r : Option (List ℕ)) × (q : IpPacket) × (add_fragment now s source
          destination packet
        ≡ done (t, r))
      × IsNext whole packet (entry_or_new source destination (find k s.packets)) q
      × IsPartial whole q
      × ((IsWhole whole small q × (r ≡ some whole) × (find k t.packets ≡ none))
          ⊎ ((¬ IsWhole whole small q)
              × (r ≡ none)
              × (find k t.packets ≡ some (record { packet = q; timestamp = now }))))
      × ((j : IpResemblerKey) → same_key k j ≡ false → find j t.packets ≡ find j s.packets)

  added_at :
      (now : ℕ) (packet : Ipv4Packet) (s : IpReassembler)
      → IsFragment whole packet
      → packet.identification ≡ id
      → IsPartial whole (entry_or_new source destination (find key s.packets))
      → AddedAt key now packet s
  added_at now packet s f e v =
      let same : key_of source destination packet ≡ key =
        ap (λ i. record { source = source; destination = destination; id = i }) e in
      subst (λ k. AddedAt k now packet s) same
        (add_fragment_lem whole small now s source destination packet f (
          subst (λ k. IsPartial whole (entry_or_new source destination (find k s.packets)))
            (sym same) v))

  add_fragments-IsAwaiting :
      (now : ℕ) (packet : Ipv4Packet) (packets : List (ℕ × Ipv4Packet)) (s : IpReassembler)
      → AllFragments whole id ((now, packet) ∷ packets)
      → IsAwaiting ((now, packet) ∷ packets) (entry_or_new source destination (find key s.packets))
      → (t : IpReassembler) × (add_fragments source destination ((now, packet) ∷ packets) s
          ≡ done (t, replicate (length packets) none ++ (some whole ∷ [])))
        × (find key t.packets ≡ none)
        × ((k : IpResemblerKey) → same_key key k ≡ false → find k t.packets ≡ find k s.packets)
  unfolding add_fragments
  add_fragments-IsAwaiting now packet [] s (f, e, ne, fs) v =
      let (t, r, q, runs, next, vq, outcome, others) = added_at now packet s f e v.partial in
      let a = IsAwaiting-next now packet [] _ q v next vq in
      elim outcome [
        | inl (_, answer, gone) ↦ (t, (rw (runs, answer) refl), gone, others)
        | inr (not_whole, _, _) ↦ absurd (
            not_whole
              (elim a.told [ inl known ↦ known | inr last ↦ cc last ], omega (arith, a.all)))
      ]
  add_fragments-IsAwaiting now packet ((now', packet') ∷ packets) s (f, e, ne, fs) v =
      let (t, r, q, runs, next, vq, outcome, others) = added_at now packet s f e v.partial in
      let a = IsAwaiting-next now packet ((now', packet') ∷ packets) _ q v next vq in
      elim outcome [
        | inl (is_whole, _, _) ↦
            absurd (omega (arith, is_whole.1, a.all, length-nonempty packet'.payload fs.2))
        | inr (_, answer, there) ↦
            let (u, rest, gone, others') = add_fragments-IsAwaiting now' packet' packets t fs (
              subst (IsAwaiting ((now', packet') ∷ packets))
                (sym (ap (entry_or_new source destination) there)) a) in
            (u, (rw (runs, answer, rest) refl), gone, λ k other. others' k other ∙ others k other)
      ]

  -- The fragments of a datagram of less than 2 ^ 16 bytes, none of them empty and no two
  -- overlapping, that make it up and of which one is the last, arrive in any order and at any times
  -- at a reassembler that holds nothing of it: each call but the last returns nothing, and the last
  -- returns the datagram; the reassembler then holds nothing of it, and of others what it held.
  pub add_fragments-whole :
      (packets : List (ℕ × Ipv4Packet)) (s : IpReassembler)
      → AllFragments whole id packets
      → PairwiseApart (fragments_of packets)
      → total_size (fragments_of packets) ≡ length whole
      → has_last packets ≡ true
      → find key s.packets ≡ none
      → (t : IpReassembler) × (add_fragments source destination packets s
          ≡ done (t, replicate (length packets - 1) none ++ (some whole ∷ [])))
        × (find key t.packets ≡ none)
        × ((k : IpResemblerKey) → same_key key k ≡ false → find k t.packets ≡ find k s.packets)
  unfolding new_packet
  add_fragments-whole [] s fs apart all last fresh = cc last
  add_fragments-whole ((now, packet) ∷ packets) s fs apart all last fresh =
      let before : length ((now, packet) ∷ packets) - 1 ≡ length packets = omega arith in
      rw before (
        add_fragments-IsAwaiting now packet packets s fs (
          subst (IsAwaiting ((now, packet) ∷ packets))
            (sym (ap (entry_or_new source destination) fresh))
            (record {
              partial = record { within = tt; apart = tt; told = inl refl };
              apart = apart;
              all = omega (arith, all);
              told = inr last;
            })))

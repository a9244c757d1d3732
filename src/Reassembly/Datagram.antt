-- ===== src/Reassembly/Datagram.antt =====
-- gateway/ip_reassembler.rs: a fragment of a datagram, at a reassembler that holds some of its fragments.
use peer_link.Common.{
  ℕ, ◌+◌, ◌*◌, ◌%◌, ◌^◌, ◌≤◌, ◌<◌, ◌≡◌, ◌≢◌, ◌⊎◌, inl, inr, refl, ap, true, false, List, [], ◌∷◌,
  ◌++◌, ◌==◌, ◌∙◌, subst, if◌then◌else◌, arith, length, take, drop, done, Option, some, none,
  Bool-cases,
}
use peer_link.Reassembly.{
  Ipv4Packet, IpFragment, IpPacket, IpReassembler, IpResemblerKey, IpResemblerValue, from_packet,
  add16, sub16, add_to_packet, is_last_fragment, set_total_length, update_entry, assemble, find,
  remove, put, same_key, entry_or_new, add_fragment,
}
use peer_link.Reassembly.Entries.{same_key_refl, find-put, find-remove}
use peer_link.Reassembly.Fragments.{
  Within, AllWithin, AllApart, PairwiseApart, total_size, overlaps_any_lem, PairwiseApart-append,
  AllWithin-append, total_size-IsChain, total_size-sort_by_offset, sort_by_offset-IsChain,
}
use peer_link.Reassembly.Assemble.{assemble_lem, assemble-none}

add16_lem : (a b : ℕ) → a + b < 2 ^ 16 → add16 a b ≡ done (a + b)
unfolding add16
add16_lem a b h = ground arith

sub16_lem : (a b c : ℕ) → b + c ≡ a → sub16 a b ≡ done c
unfolding sub16
sub16_lem a b c e = ground arith

-- The fragment that a packet carries.
abbrev pub fragment_of : Ipv4Packet → IpFragment
fragment_of packet = record {
  id = packet.identification;
  offset = packet.fragment_offset * 8;
  data_bytes = packet.payload;
}

abbrev pub key_of : ℕ → ℕ → Ipv4Packet → IpResemblerKey
key_of source destination packet = record {
  source = source;
  destination = destination;
  id = packet.identification;
}

-- The fragment stands behind those there were, if it overlaps none, and is left out otherwise.
abbrev pub IsTaken : IpFragment → (fs gs : List IpFragment) → Type 0
IsTaken f fs gs = (AllApart f fs × (gs ≡ fs ++ (f ∷ []))) ⊎ ((¬ AllApart f fs) × (gs ≡ fs))

module _ (whole : List ℕ) where
  -- A packet that holds some fragments of the datagram, and its length or none.
  pub record IsPartial (p : IpPacket) : Type 0 where
    pub within : AllWithin whole p.fragments
    pub apart : PairwiseApart p.fragments
    pub told : (p.total_length ≡ none) ⊎ (p.total_length ≡ some (length whole))

  -- A packet of the network that carries a fragment of the datagram.
  pub record IsFragment (packet : Ipv4Packet) : Type 0 where
    pub headed : packet.header_length * 4 + length packet.payload ≡ packet.total_length
    pub short : packet.total_length < 2 ^ 16
    pub placed : packet.fragment_offset * 8 + length packet.payload ≤ length whole
    pub carried :
        packet.payload ≡ take (length packet.payload) (drop (packet.fragment_offset * 8) whole)
    pub last :
        is_last_fragment packet ≡ true
        → packet.fragment_offset * 8 + length packet.payload ≡ length whole

  -- A packet with a fragment more: the last one tells the length.
  pub record IsNext (packet : Ipv4Packet) (p q : IpPacket) : Type 0 where
    pub length_told :
        q.total_length ≡ (if is_last_fragment packet then some (length whole) else p.total_length)
    pub taken : IsTaken (fragment_of packet) p.fragments q.fragments

  -- The fragments of a datagram hold no more bytes than it.
  pub total_size-le : (p : IpPacket) → IsPartial p → total_size p.fragments ≤ length whole
  total_size-le p v = omega (
    arith,
    total_size-sort_by_offset p.fragments,
    total_size-IsChain 0 (length whole) _
        (sort_by_offset-IsChain whole p.fragments v.within v.apart),
  )

  module _ (small : length whole < 2 ^ 16) where
    add_to_packet-IsPartial :
        (p : IpPacket) (g : IpFragment)
        → IsPartial p
        → Within whole g
        → (q : IpPacket) × (add_to_packet p g ≡ done q)
          × IsPartial q
          × (q.total_length ≡ p.total_length)
          × IsTaken g p.fragments q.fragments
    unfolding add_to_packet
    add_to_packet-IsPartial p g v w =
        let (b, runs, apart, not_apart) = overlaps_any_lem whole p.fragments g small v.within w in
        elim (Bool-cases b) [
          | inl overlap ↦ (p, rw (runs, overlap) refl, v, refl, inr (not_apart overlap, refl))
          | inr clear ↦ (
            record p { fragments = p.fragments ++ (g ∷ []) },
            rw (runs, clear) refl,
            record {
              within = AllWithin-append whole p.fragments g v.within w;
              apart = PairwiseApart-append p.fragments g v.apart (apart clear);
              told = v.told;
            },
            refl,
            inl (apart clear, refl),
          )
        ]

    -- All bytes have come, and the last fragment.
    abbrev pub IsWhole : IpPacket → Type 0
    IsWhole p = (p.total_length ≡ some (length whole)) × (total_size p.fragments ≡ length whole)

    -- What `assemble` makes of fragments of the datagram.
    assembled :
        (p : IpPacket)
        → IsPartial p
        → ((assemble p ≡ done (p, none)) × ¬ IsWhole p)
          ⊎ ((q : IpPacket) × (assemble p ≡ done (q, some whole)) × IsWhole p)
    assembled p v = elim v.told [
      | inl untold ↦ inl (assemble-none whole p few (inl untold), λ w. cc (untold, w.0))
      | inr told ↦ elim (Bool-cases (total_size p.fragments == length whole)) [
        | inl enough ↦
            let e : total_size p.fragments ≡ length whole = ground arith in
            inr (_, assemble_lem whole p small v.within v.apart told e, (told, e))
        | inr missing ↦
            let ne : total_size p.fragments ≢ length whole = λ e. ground arith in
            inl (assemble-none whole p few (inr (told, ne)), λ w. ne w.1)
      ]
    ]
      where
        few : total_size p.fragments < 2 ^ 16
        few = omega (arith, total_size-le p v)

    from_packet_lem :
        (packet : Ipv4Packet) → IsFragment packet → from_packet packet ≡ done (fragment_of packet)
    unfolding from_packet
    from_packet_lem packet f = ground (arith, f.placed, small)

    set_total_length-IsPartial :
        (packet : Ipv4Packet) (p : IpPacket)
        → IsFragment packet
        → IsPartial p
        → (q : IpPacket) × (set_total_length packet (length packet.payload) (fragment_of packet) p
            ≡ done q)
          × IsPartial q
          × (q.total_length
              ≡ (if is_last_fragment packet then some (length whole) else p.total_length))
          × (q.fragments ≡ p.fragments)
    unfolding set_total_length
    set_total_length-IsPartial packet p f v = elim (Bool-cases (is_last_fragment packet)) [
      | inl last ↦
          let told : length packet.payload + packet.fragment_offset * 8 ≡ length whole =
            omega (arith, f.last last) in
          (
            record p { total_length = some (length packet.payload + packet.fragment_offset * 8) },
            rw (last, fits) refl,
            record { within = v.within; apart = v.apart; told = inr (ap some told) },
            rw last (ap some told),
            refl,
          )
      | inr more ↦ (p, rw more refl, v, rw more refl, refl)
    ]
      where
        fits :
            add16 (length packet.payload) (packet.fragment_offset * 8)
            ≡ done (length packet.payload + packet.fragment_offset * 8)
        fits = add16_lem _ _ (omega (arith, f.placed, small))

    -- Outcome of a fragment: it is taken, and the packet is kept, or the datagram is whole.
    updated :
        (packet : Ipv4Packet) (p : IpPacket)
        → IsFragment packet
        → IsPartial p
        → (q : IpPacket) × IsNext packet p q
          × IsPartial q
          × (((update_entry packet (length packet.payload) (fragment_of packet) p ≡ done (q, none))
                × ¬ IsWhole q)
              ⊎ ((u : IpPacket) × (update_entry packet
                      (length packet.payload)
                      (fragment_of packet)
                      p
                    ≡ done (u, some whole))
                  × IsWhole q))
    unfolding update_entry
    updated packet p f v =
        let (a, sets, va, told, same) = set_total_length-IsPartial packet p f v in
        let (b, adds, vb, also, taken) =
          add_to_packet-IsPartial a (fragment_of packet) va (f.carried, f.placed) in
        (
          b,
          record {
            length_told = also ∙ told;
            taken = subst (λ fs. IsTaken (fragment_of packet) fs b.fragments) same taken;
          },
          vb,
          elim (assembled b vb) [
            | inl (keeps, not_whole) ↦ inl (rw (sets, adds) keeps, not_whole)
            | inr (u, yields, is_whole) ↦ inr (u, rw (sets, adds) yields, is_whole)
          ],
        )

    -- A fragment of a datagram, at a reassembler whose entry for it, if it has one, holds fragments
    -- of it that do not overlap and its length or none: the call does not panic. The fragment is
    -- added to those of the entry if it overlaps none of them, and left out otherwise; the last one
    -- tells the length. If all bytes and the length are there then, the call returns the whole
    -- datagram and removes the entry; if not, it returns nothing and keeps the entry, with the
    -- time. No other entry changes.
    pub add_fragment_lem :
        (now : ℕ) (s : IpReassembler) (source destination : ℕ) (packet : Ipv4Packet)
        → IsFragment packet
        → IsPartial
            (entry_or_new source destination (find (key_of source destination packet) s.packets))
        → (t : IpReassembler) × (r : Option (List ℕ)) × (q : IpPacket) × (add_fragment now s source
              destination packet
            ≡ done (t, r))
          × IsNext packet
              (entry_or_new source destination (find (key_of source destination packet) s.packets))
              q
          × IsPartial q
          × ((IsWhole q
                × (r ≡ some whole)
                × (find (key_of source destination packet) t.packets ≡ none))
              ⊎ ((¬ IsWhole q)
                  × (r ≡ none)
                  × (find (key_of source destination packet) t.packets
                      ≡ some (record { packet = q; timestamp = now }))))
          × ((k : IpResemblerKey)
              → same_key (key_of source destination packet) k ≡ false
              → find k t.packets ≡ find k s.packets)
    unfolding add_fragment
    add_fragment_lem now s source destination packet f v =
        let key : IpResemblerKey = key_of source destination packet in
        let p : IpPacket = entry_or_new source destination (find key s.packets) in
        let (q, next, vq, outcome) = updated packet p f v in
        let kept : IpResemblerValue = record { packet = q; timestamp = now } in
        elim outcome [
          | inl (runs, not_whole) ↦ (
            record s { packets = put key kept s.packets },
            none,
            q,
            rw (total, same, from_packet_lem packet f, runs) refl,
            next,
            vq,
            inr (not_whole, refl, rw (find-put key key kept s.packets, same_key_refl key) refl),
            λ k other. rw (find-put key k kept s.packets, other) refl,
          )
          | inr (u, runs, is_whole) ↦ (
            record s { packets = remove key s.packets },
            some whole,
            q,
            rw (total, same, from_packet_lem packet f, runs) refl,
            next,
            vq,
            inl (is_whole, refl, rw (find-remove key key s.packets, same_key_refl key) refl),
            λ k other. rw (find-remove key k s.packets, other) refl,
          )
        ]
      where
        total : sub16 packet.total_length (packet.header_length * 4) ≡ done (length packet.payload)
        total = sub16_lem _ _ _ f.headed

        same : (length packet.payload == length packet.payload % 2 ^ 16) ≡ true
        same = ground (arith, f.headed, f.short)

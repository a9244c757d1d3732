-- ===== src/Packet/Foreign/RoundTrip.antt =====
-- tunnel/packet_def.rs: a packet of another network, wrapped and taken out again.
use mathlib.Core.List.{append_assoc, append-nil}
use peer_link.Common.{
  ℕ, ◌+◌, ◌%◌, ◌^◌, ◌≤◌, ◌<◌, ◌≡◌, ◌∙◌, refl, sym, ap, Bool, true, List, ◌++◌, some, arith, take,
  drop, length, leb, length-append, length-drop, take-append, drop-append, drop-drop,
  slice_from_lem, done,
}
use peer_link.Packet.Crates.{Crates}
use peer_link.Packet.Layout.{nic, dummy_tunnel, payload_off}
use peer_link.Packet.Header.{PeerManagerHeader, PacketType, to_u8}
use peer_link.Packet.Buffer.{
  ZcPacket, new_nic_packet, copy_to_payload, payload, tunnel_payload, peer_manager_header,
}
use peer_link.Packet.Buffer.Fill.{mut_peer_manager_header_lem}
use peer_link.Packet.Buffer.Payload.{
  blank, blank_payload, payload-blank, length-blank_payload, blank_long, copy_to_payload_lem,
  drop_all, length-patch, payload_lem,
}
use peer_link.Packet.Foreign.{
  ForeignNetworkPacketHeader, get_network_name, foreign_as_bytes, foreign_of_bytes,
  new_for_foreign_network, foreign_network_hdr, foreign_network_packet,
}
use peer_link.Packet.Foreign.Bytes.{
  header, new_header_lem, length-foreign_as_bytes, foreign_of_bytes-foreign_as_bytes,
}

-- Three writes, one behind the other, fill a buffer of their total length.
module _ (a b c old : List ℕ) (i j k : ℕ) (ei : i ≡ length a) (ej : j ≡ i + length b)
    (ek : k ≡ j + length c) (e : length old ≡ k) where
  abbrev first : List ℕ
  first = take 0 old ++ (a ++ drop i old)

  abbrev second : List ℕ
  second = take i first ++ (b ++ drop j first)

  length-first : length first ≡ k
  length-first = length-patch 0 i a old (omega arith) (omega arith) ∙ e

  length-second : length second ≡ k
  length-second =
      length-patch i j b first (omega arith) (omega (arith, length-first)) ∙ length-first

  second_lem : second ≡ (a ++ b) ++ drop j first
  second_lem =
      ap (λ xs. xs ++ (b ++ drop j first)) (take-append i a (drop i old) ei)
      ∙ sym (append_assoc a b (drop j first))

  three_writes : take j second ++ (c ++ drop k second) ≡ a ++ (b ++ c)
  three_writes =
      rw
        (
          drop_all k second (sym length-second),
          second_lem,
          take-append j (a ++ b) (drop j first) (omega (arith, length-append a b)),
          append-nil,
        )
        (append_assoc a b c)

module _ (w : Crates) (uninit : ℕ → ℕ) (name : List ℕ) (dst : ℕ) (f : ZcPacket) (carried : List ℕ)
    (named : 10 + length name < 2 ^ 16) (reads : tunnel_payload f ≡ done carried) where
  abbrev total : ℕ
  total = 10 + length name + length carried

  abbrev front : List ℕ
  front = foreign_as_bytes w (header dst name)

  -- The three copies into the fresh packet.
  copies :
      (p q r : ZcPacket) × (copy_to_payload 0 10 front (blank uninit total) ≡ done p)
      × (copy_to_payload 10 (10 + length name) name p ≡ done q)
      × (copy_to_payload (10 + length name) total carried q ≡ done r)
      × (r.packet_type ≡ nic)
      × (payload_off nic ≤ length r.inner)
      × (payload r ≡ done (front ++ (name ++ carried)))
  unfolding new_nic_packet
  copies =
      let blank_len = length-blank_payload uninit total in
      let front_len = length-foreign_as_bytes w (header dst name) in
      let long : payload_off nic ≤ length (blank uninit total).inner = blank_long uninit total in
      let (p, runs_p, kind_p, same_p, read_p) =
        copy_to_payload_lem (blank uninit total) (blank_payload uninit total)
          (payload-blank uninit total) long 0 10 front (omega (arith, front_len))
          (omega (arith, blank_len)) in
      let first_len =
        length-first front name carried (blank_payload uninit total) 10 (10 + length name) total
          (sym front_len) refl refl blank_len in
      let (q, runs_q, kind_q, same_q, read_q) =
        copy_to_payload_lem p _ read_p (omega (arith, ap payload_off kind_p, same_p, long)) 10
          (10 + length name) name refl (omega (arith, first_len)) in
      let second_len =
        length-second front name carried (blank_payload uninit total) 10 (10 + length name) total
          (sym front_len) refl refl blank_len in
      let (r, runs_r, kind_r, same_r, read_r) =
        copy_to_payload_lem q _ read_q
          (omega (arith, ap payload_off kind_q, ap payload_off kind_p, same_q, same_p, long))
          (10 + length name) total carried refl (omega (arith, second_len)) in
      let filled =
        three_writes front name carried (blank_payload uninit total) 10 (10 + length name) total
          (sym front_len) refl refl blank_len in
      (
        p,
        q,
        r,
        runs_p,
        runs_q,
        runs_r,
        kind_r ∙ kind_q ∙ kind_p,
        omega (arith, same_r, same_q, same_p, long),
        read_r ∙ ap done filled,
      )

  -- The wrapped packet: its kind, its payload, and the fields of its header that are written.
  wrapped :
      (q : ZcPacket) × (hdr : PeerManagerHeader) × (new_for_foreign_network w uninit name dst f
        ≡ done q)
      × (q.packet_type ≡ nic)
      × (payload_off nic ≤ length q.inner)
      × (peer_manager_header w q ≡ done (some hdr))
      × (hdr.packet_type ≡ to_u8 PacketType.foreign_network_packet)
      × (payload q ≡ done (front ++ (name ++ carried)))
  unfolding new_for_foreign_network
  wrapped =
      let (p, q, r, runs_p, runs_q, runs_r, kind, long, read) = copies in
      let (s, runs, kind_s, same_s, header_s, read_s) =
        mut_peer_manager_header_lem w r (omega (arith, ap payload_off kind, long))
          (λ pm. record pm {
            from_peer_id = 0;
            to_peer_id = 0;
            packet_type = to_u8 PacketType.foreign_network_packet;
            len = total % 2 ^ 32;
          })
          (record { from_in = omega arith; to_in = omega arith; len_in = omega arith }) in
      (
        s,
        _,
        rw (new_header_lem dst name named, reads, runs_p, runs_q, runs_r) runs,
        kind_s ∙ kind,
        omega (arith, same_s, long),
        header_s,
        refl,
        read_s ∙ read,
      )

  module _ (small : dst < 2 ^ 32) where
    front_lem : foreign_of_bytes w front ≡ header dst name
    front_lem =
        foreign_of_bytes-foreign_as_bytes w (header dst name) (omega arith) small (omega arith)
          (omega arith)

    -- The header of a foreign packet is found behind the peer manager's.
    hdr_lem :
        (q : ZcPacket) (pm : PeerManagerHeader)
        → peer_manager_header w q ≡ done (some pm)
        → pm.packet_type ≡ to_u8 PacketType.foreign_network_packet
        → payload q ≡ done (front ++ (name ++ carried))
        → foreign_network_hdr w q ≡ done (some (header dst name))
    unfolding foreign_network_hdr
    hdr_lem q pm found kind read =
        rw (found, kind, read, w.ref_from_prefix_lem 10 (front ++ (name ++ carried)), fits, cut)
          (ap (λ h. done (some h)) front_lem)
      where
        fits : leb 10 (length (front ++ (name ++ carried))) ≡ true
        fits = ground (
          arith,
          length-append front (name ++ carried),
          length-foreign_as_bytes w (header dst name),
        )

        cut : take 10 (front ++ (name ++ carried)) ≡ front
        cut =
            take-append 10 front (name ++ carried)
              (sym (length-foreign_as_bytes w (header dst name)))

    -- Behind the foreign header and the name stands the packet that was wrapped.
    behind : drop (10 + length name) (front ++ (name ++ carried)) ≡ carried
    behind =
        sym
          (drop-drop (length name) 10 (10 + length name) (front ++ (name ++ carried)) (omega arith))
        ∙ ap (drop (length name)) (
            drop-append 10 front (name ++ carried)
              (sym (length-foreign_as_bytes w (header dst name))))
        ∙ drop-append (length name) name carried refl

    named_lem :
        (valid_utf8 : List ℕ → Bool)
        → valid_utf8 name ≡ true
        → get_network_name valid_utf8 (header dst name) (front ++ (name ++ carried)) ≡ done name
    unfolding get_network_name
    named_lem valid_utf8 valid = rw (
      drop-append 10 front (name ++ carried) (sym (length-foreign_as_bytes w (header dst name))),
      take-append (length name) name carried refl,
      fits,
      valid,
    )
      where
        fits : leb (10 + length name) (length (front ++ (name ++ carried))) ≡ true
        fits = ground (
          arith,
          length-append front (name ++ carried),
          length-append name carried,
          length-foreign_as_bytes w (header dst name),
        )

    unwrapped :
        (q : ZcPacket)
        → q.packet_type ≡ nic
        → payload_off nic ≤ length q.inner
        → foreign_network_hdr w q ≡ done (some (header dst name))
        → payload q ≡ done (front ++ (name ++ carried))
        → (u : ZcPacket) × (foreign_network_packet w q ≡ done u)
          × (u.packet_type ≡ dummy_tunnel)
          × (tunnel_payload u ≡ done carried)
    unfolding foreign_network_packet tunnel_payload
    unwrapped q kind long found read = (
      record {
        inner = drop (10 + length name + payload_off nic) q.inner;
        packet_type = dummy_tunnel;
      },
      rw (found, kind, w.split_off_lem (10 + length name + payload_off nic) q.inner enough),
      refl,
      rw (slice_from_lem 0 (drop (10 + length name + payload_off nic) q.inner) (omega arith))
          (ap done rest),
    )
      where
        inside : front ++ (name ++ carried) ≡ drop (payload_off nic) q.inner
        inside =
            payload_lem q _ read (omega (arith, ap payload_off kind, long))
            ∙ ap (λ t. drop (payload_off t) q.inner) kind

        enough : 10 + length name + payload_off nic ≤ length q.inner
        enough = omega (
          arith,
          ap length inside,
          length-drop (payload_off nic) q.inner,
          length-append front (name ++ carried),
          length-append name carried,
          length-foreign_as_bytes w (header dst name),
          long,
        )

        rest : drop (10 + length name + payload_off nic) q.inner ≡ carried
        rest =
            sym (drop-drop (10 + length name) (payload_off nic) _ q.inner refl)
            ∙ ap (drop (10 + length name)) (sym inside)
            ∙ behind

    -- A packet that is long enough for its headers, wrapped for another network under a valid UTF-8
    -- name that fits a 16-bit length with its header, and for a destination of 32 bits, goes into a
    -- packet whose foreign header names the destination and the network, and out of which the bytes of
    -- the packet come back unchanged.
    pub foreign_network_packet-new_for_foreign_network :
        (valid_utf8 : List ℕ → Bool)
        → valid_utf8 name ≡ true
        → (q u : ZcPacket) × (hdr : ForeignNetworkPacketHeader) × (bytes : List ℕ)
          × (new_for_foreign_network w uninit name dst f ≡ done q)
          × (foreign_network_hdr w q ≡ done (some hdr))
          × (hdr.dst_peer_id ≡ dst)
          × (payload q ≡ done bytes)
          × (get_network_name valid_utf8 hdr bytes ≡ done name)
          × (foreign_network_packet w q ≡ done u)
          × (u.packet_type ≡ dummy_tunnel)
          × (tunnel_payload u ≡ tunnel_payload f)
    foreign_network_packet-new_for_foreign_network valid_utf8 valid =
        let (q, pm, runs, kind, long, found, foreign, read) = wrapped in
        let hdr_found = hdr_lem q pm found foreign read in
        let (u, taken, kind_u, back) = unwrapped q kind long hdr_found read in
        (
          q,
          u,
          header dst name,
          front ++ (name ++ carried),
          runs,
          hdr_found,
          refl,
          read,
          named_lem valid_utf8 valid,
          taken,
          kind_u,
          back ∙ sym reads,
        )

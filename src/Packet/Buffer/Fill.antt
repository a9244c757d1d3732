-- ===== src/Packet/Buffer/Fill.antt =====
-- tunnel/packet_def.rs: writing the peer manager's header in place.
use peer_link.Common.{
  ℕ, ◌+◌, ◌-◌, ◌%◌, ◌^◌, ◌≤◌, ◌<◌, ◌≡◌, ◌∙◌, refl, sym, ap, List, ◌++◌, some, arith, take, drop,
  length, length-append, length-take, length-drop, drop-append, drop-drop, slice_from_lem, done,
}
use peer_link.Packet.Crates.{Crates}
use peer_link.Packet.Layout.{
  ZcPacketType, tcp, udp, wg, nic, dummy_tunnel, get_packet_offsets, payload_off, manager_off,
}
use peer_link.Packet.Header.{PeerManagerHeader, as_bytes, of_bytes}
use peer_link.Packet.Header.Bytes.{IsInRange, length-as_bytes, from_prefix-as_bytes}
use peer_link.Packet.Buffer.{
  ZcPacket, payload, payload_len, peer_manager_header, mut_peer_manager_header,
  fill_peer_manager_hdr,
}

-- The payload follows the header in every kind of packet.
pub payload_off_lem : (t : ZcPacketType) → payload_off t ≡ manager_off t + 16
unfolding get_packet_offsets
payload_off_lem tcp = refl
payload_off_lem udp = refl
payload_off_lem wg = refl
payload_off_lem nic = refl
payload_off_lem dummy_tunnel = refl

-- The header that stands in the buffer.
abbrev pub stored : Crates → ZcPacket → PeerManagerHeader
stored w p = of_bytes w (take 16 (drop (manager_off p.packet_type) p.inner))

-- What is read from a buffer is in range.
pub stored-IsInRange : (w : Crates) (p : ZcPacket) → IsInRange (stored w p)
unfolding of_bytes
stored-IsInRange w p = record {
  from_in = w.u32_get-lt _;
  to_in = w.u32_get-lt _;
  len_in = w.u32_get-lt _;
}

module _ (w : Crates) (p : ZcPacket) (long : payload_off p.packet_type ≤ length p.inner) where
  abbrev at : ℕ
  at = manager_off p.packet_type

  long_header : at + 16 ≤ length p.inner
  long_header = omega (arith, payload_off_lem p.packet_type)

  pub peer_manager_header_lem : peer_manager_header w p ≡ done (some (stored w p))
  unfolding peer_manager_header
  peer_manager_header_lem = ground (
    arith,
    slice_from_lem at p.inner,
    w.ref_from_prefix_lem 16 (drop at p.inner),
    length-drop at p.inner,
    long_header,
  )

  module _ (write : PeerManagerHeader → PeerManagerHeader)
      (v : IsInRange (write (stored w p))) where
    bytes : List ℕ
    bytes = take at p.inner ++ (as_bytes w (write (stored w p)) ++ drop (at + 16) p.inner)

    length-bytes : length bytes ≡ length p.inner
    unfolding bytes
    length-bytes = omega (
      arith,
      long_header,
      length-append (take at p.inner) (as_bytes w (write (stored w p)) ++ drop (at + 16) p.inner),
      length-append (as_bytes w (write (stored w p))) (drop (at + 16) p.inner),
      length-take at p.inner,
      length-drop (at + 16) p.inner,
      length-as_bytes w (write (stored w p)),
    )

    drop-bytes : drop at bytes ≡ as_bytes w (write (stored w p)) ++ drop (at + 16) p.inner
    unfolding bytes
    drop-bytes =
        drop-append at (take at p.inner) _ (omega (arith, length-take at p.inner, long_header))

    drop-bytes_payload : drop (at + 16) bytes ≡ drop (at + 16) p.inner
    drop-bytes_payload =
        sym (drop-drop 16 at (at + 16) bytes (omega arith))
        ∙ ap (drop 16) drop-bytes
        ∙ drop-append 16 (as_bytes w (write (stored w p))) _
            (sym (length-as_bytes w (write (stored w p))))

    abbrev written : ZcPacket
    written = record p { inner = bytes }

    written_lem : mut_peer_manager_header w write p ≡ done written
    unfolding mut_peer_manager_header bytes
    written_lem = rw (peer_manager_header_lem)

    read_back : peer_manager_header w written ≡ done (some (write (stored w p)))
    unfolding peer_manager_header
    read_back =
        rw (slice_from_lem at bytes (omega (arith, length-bytes, long_header)), drop-bytes)
          (ap done (from_prefix-as_bytes w (write (stored w p)) (drop (at + 16) p.inner) v))

    kept : payload written ≡ payload p
    unfolding payload
    kept =
        rw
          (
            payload_off_lem p.packet_type,
            slice_from_lem (at + 16) bytes (omega (arith, length-bytes, long_header)),
            slice_from_lem (at + 16) p.inner long_header,
          )
          (ap done drop-bytes_payload)

    -- A write through the reference changes the header that is read, and nothing else.
    pub mut_peer_manager_header_lem :
        (q : ZcPacket) × (mut_peer_manager_header w write p ≡ done q)
        × (q.packet_type ≡ p.packet_type)
        × (length q.inner ≡ length p.inner)
        × (peer_manager_header w q ≡ done (some (write (stored w p))))
        × (payload q ≡ payload p)
    mut_peer_manager_header_lem = (written, written_lem, refl, length-bytes, read_back, kept)

  payload_len_lem : payload_len p ≡ done (length p.inner - payload_off p.packet_type)
  unfolding payload_len
  payload_len_lem = ground (arith, long)

  abbrev pub filled : ℕ → ℕ → ℕ → PeerManagerHeader
  filled a b t = record {
    from_peer_id = a;
    to_peer_id = b;
    packet_type = t;
    flags = 0;
    forward_counter = 1;
    reserved = (stored w p).reserved;
    len = (length p.inner - payload_off p.packet_type) % 2 ^ 32;
  }

  -- Filling the header of a packet that has room for one succeeds for peers of 32 bits; the header then reads
  -- as it was filled, with the payload's length and no flag, its reserved byte left as it was, and the
  -- payload, the length and the kind of the packet are unchanged.
  pub fill_peer_manager_hdr_lem :
      (a b t : ℕ)
      → a < 2 ^ 32
      → b < 2 ^ 32
      → (q : ZcPacket) × (fill_peer_manager_hdr w a b t p ≡ done q)
        × (q.packet_type ≡ p.packet_type)
        × (length q.inner ≡ length p.inner)
        × (peer_manager_header w q ≡ done (some (filled a b t)))
        × (payload q ≡ payload p)
  unfolding fill_peer_manager_hdr
  fill_peer_manager_hdr_lem a b t ha hb =
      rw (payload_len_lem)
        (mut_peer_manager_header_lem _ (record { from_in = ha; to_in = hb; len_in = omega arith }))

-- ===== src/Compressor/RoundTrip.antt =====
-- common/compressor.rs: decompression undoes compression.
use mathlib.Core.List.{append_assoc}
use peer_link.Common.{
  ℕ, ◌+◌, ◌-◌, ◌*◌, ◌^◌, ◌≤◌, ◌<◌, ◌≡◌, ◌⊎◌, ◌∙◌, refl, sym, ap, Bool, true, false, List, [], ◌∷◌,
  ◌++◌, some, none, take, drop, length, length-append, take-append, drop-append, leb, ltb, ◌==◌,
  arith, if◌then◌else◌, done, ◌>>=◌, Bool-cases, inl, inr, Option,
}
use peer_link.Packet.Crates.{Crates}
use peer_link.Packet.Layout.{payload_off}
use peer_link.Packet.Header.{PeerManagerHeader, is_compressed, set_compressed}
use peer_link.Packet.Header.Bytes.{IsInRange, flags-IsInRange}
use peer_link.Packet.Header.Flags.{compression, write-write}
use peer_link.Packet.Buffer.{ZcPacket, payload, peer_manager_header}
use peer_link.Packet.Buffer.Fill.{
  stored, stored-IsInRange, peer_manager_header_lem, mut_peer_manager_header_lem,
}
use peer_link.Packet.Buffer.Payload.{
  length-payload, payload-replaced, length-replaced, peer_manager_header-replaced,
}
use peer_link.Compressor.{
  Zstd, ok, err, zstd_default, compress_raw, decompress_raw, mark_compressed, replace_compressed,
  compress, replace_decompressed, decompress_payload, decompress, with_compressed,
  failed_to_compress,
}
use peer_link.Compressor.Attempts.{decompress_raw-compress}

-- `truncate` to the headers, and another payload.
abbrev remake : List ℕ → ZcPacket → ZcPacket
remake new q = record q { inner = take (payload_off q.packet_type) q.inner ++ new }

module _ (zstd : Zstd) (w : Crates) (p : ZcPacket) (hdr h' : PeerManagerHeader) (on : Bool)
    (long : payload_off p.packet_type ≤ length p.inner)
    (found : peer_manager_header w p ≡ done (some hdr)) (sets : set_compressed w hdr on ≡ done h')
    (v : IsInRange h') where
  -- What both directions share: the mark in the header, then another payload.
  remake_lem :
      (new : List ℕ)
      → (q : ZcPacket) × (mark_compressed zstd w on p ≡ done q)
        × ((remake new q).packet_type ≡ p.packet_type)
        × (length (remake new q).inner ≡ payload_off p.packet_type + length new)
        × (peer_manager_header w (remake new q) ≡ done (some h'))
        × (payload (remake new q) ≡ done new)
  unfolding mark_compressed
  remake_lem new =
      let (q, runs, kind, same, header, body) = mut_peer_manager_header_lem w p long (λ _. h') v in
      let long_q : payload_off q.packet_type ≤ length q.inner =
        omega (arith, same, ap payload_off kind) in
      (
        q,
        rw (found, sets) runs,
        kind,
        length-replaced w q new long_q ∙ ap (λ t. payload_off t + length new) kind,
        peer_manager_header-replaced w q new long_q ∙ header,
        payload-replaced w q new long_q,
      )

-- The compressed payload of a packet that is marked, back.
decompress_payload_lem :
    (zstd : Zstd) (w : Crates) (old packed : List ℕ) (len : ℕ) (q b : ZcPacket)
    → zstd.compress old ≡ some packed
    → length old ≤ 64 * 1024
    → len ≡ length old
    → mark_compressed zstd w false q ≡ done b
    → decompress_payload zstd w len (packed ++ (1 ∷ [])) q ≡ done (ok (remake old b))
unfolding decompress_payload replace_decompressed
decompress_payload_lem zstd w old packed len q b compressed fits told marks =
    rw (some_byte, suffix, front, back, same, marks) refl
  where
    total : length (packed ++ (1 ∷ [])) ≡ length packed + 1
    total = length-append packed (1 ∷ [])

    some_byte : ltb (length (packed ++ (1 ∷ []))) 1 ≡ false
    some_byte = ground (arith, total)

    at_end : length packed + 1 - 1 ≡ length packed
    at_end = omega arith

    suffix : w.ref_from_suffix 1 (packed ++ (1 ∷ [])) ≡ some (1 ∷ [])
    suffix =
        w.ref_from_suffix_lem 1 (packed ++ (1 ∷ []))
        ∙ ap
            (λ b.
              if b
              then some (drop (length (packed ++ (1 ∷ [])) - 1) (packed ++ (1 ∷ [])))
              else none)
            {x = leb 1 (length (packed ++ (1 ∷ [])))} {y = true} (ground (arith, total))
        ∙ ap some (drop-append _ packed (1 ∷ []) (omega (arith, total)))

    front : take (length (packed ++ (1 ∷ [])) - 1) (packed ++ (1 ∷ [])) ≡ packed
    front = take-append _ packed (1 ∷ []) (omega (arith, total))

    back : decompress_raw zstd zstd_default packed ≡ ok old
    back = decompress_raw-compress zstd old packed compressed ∙ ground (arith, fits)

    same : (length old == len) ≡ true
    same = ground (arith, told)

-- A compressed packet: its payload is the compressed bytes and the tail, it is no longer than the
-- packet and marked, and `decompress` makes the packet of it.
abbrev pub IsShorter : Zstd → Crates → (packed : List ℕ) → ZcPacket → ZcPacket → Type 0
IsShorter zstd w packed p q =
    (payload q ≡ done (packed ++ (1 ∷ [])))
    × (length q.inner ≤ length p.inner)
    × (hdr : PeerManagerHeader) × (peer_manager_header w q ≡ done (some hdr))
    × (is_compressed w hdr ≡ done true)
    × (r : ZcPacket) × (decompress zstd w q ≡ done (ok r))
    × (r.packet_type ≡ p.packet_type)
    × (length r.inner ≡ length p.inner)
    × (peer_manager_header w r ≡ peer_manager_header w p)
    × (payload r ≡ payload p)

module _ (zstd : Zstd) (w : Crates) (p : ZcPacket) (old : List ℕ)
    (long : payload_off p.packet_type ≤ length p.inner) (reads : payload p ≡ done old)
    (flags_byte : (stored w p).flags < 2 ^ 8) (told : (stored w p).len ≡ length old)
    (plain : is_compressed w (stored w p) ≡ done false) (fits : length old ≤ 64 * 1024) where
  shorter :
      (packed : List ℕ)
      → zstd.compress old ≡ some packed
      → length packed + 1 ≤ length old
      → (q : ZcPacket) × (replace_compressed zstd w zstd_default (length old) packed p ≡ done q)
        × IsShorter zstd w packed p q
  unfolding replace_compressed decompress
  shorter packed compressed short =
      let found = peer_manager_header_lem w p long in
      let (h', sets, same, byte, marked, unsets) =
        write-write w (stored w p) flags_byte compression plain in
      let (a, marks, kind_q, len_q, header_q, body_q) =
        remake_lem zstd w p (stored w p) h' true long found sets
          (flags-IsInRange same (stored-IsInRange w p)) (packed ++ (1 ∷ [])) in
      let q : ZcPacket = remake (packed ++ (1 ∷ [])) a in
      let long_q : payload_off q.packet_type ≤ length q.inner =
        omega (arith, len_q, ap payload_off kind_q) in
      let (b, unmarks, kind_r, len_r, header_r, body_r) =
        remake_lem zstd w q h' (stored w p) false long_q header_q unsets (stored-IsInRange w p)
          old in
      (
        q,
        rw (long_enough, marks)
            (ap done (
              ap (λ xs. record a { inner = xs })
                (append_assoc (take (payload_off a.packet_type) a.inner) packed (1 ∷ [])))),
        (
          body_q,
          omega (arith, len_q, length-append packed (1 ∷ []), length-payload p old reads long),
          h',
          header_q,
          marked,
          remake old b,
          rw (header_q, marked, body_q)
              (decompress_payload_lem zstd w old packed h'.len q b compressed fits
                (ap PeerManagerHeader.len same ∙ told) unmarks),
          kind_r ∙ kind_q,
          len_r
              ∙ ap (λ t. payload_off t + length old) kind_q
              ∙ sym (length-payload p old reads long),
          header_r ∙ sym found,
          body_r ∙ sym reads,
        ),
      )
    where
      long_enough : ltb (length old) (length packed + 1) ≡ false
      long_enough = ground arith

  unchanged :
      (packed : List ℕ)
      → ltb (length old) (length packed + 1) ≡ true
      → (replace_compressed zstd w zstd_default (length old) packed p >>= λ q. done (ok q))
        ≡ done (ok p)
  unfolding replace_compressed
  unchanged packed grows = rw grows refl

  -- What `compress` makes of the packet, by what zstd makes of its payload.
  abbrev pub IsCompressed : Option (List ℕ) → Type 0
  IsCompressed none = compress zstd w zstd_default p ≡ done (err failed_to_compress)
  IsCompressed (some packed) =
      ((length old < length packed + 1) × (compress zstd w zstd_default p ≡ done (ok p)))
      ⊎ ((length packed + 1 ≤ length old)
          × (q : ZcPacket) × (compress zstd w zstd_default p ≡ done (ok q))
          × IsShorter zstd w packed p q)

  -- What `compress` makes of a packet in the clear whose header tells its payload's length, of at
  -- most 64 KiB: an error if zstd fails on the payload; the packet itself if the compressed payload
  -- and its tail are longer than the payload; and otherwise a packet that is no longer, has these
  -- two as its payload, is marked as compressed, and of which `decompress` makes a packet with the
  -- kind, the length, the header and the payload of the first.
  pub decompress-compress_packet : IsCompressed (zstd.compress old)
  unfolding compress compress_raw with_compressed
  decompress-compress_packet = by_result (zstd.compress old) refl
    where
      found : peer_manager_header w p ≡ done (some (stored w p))
      found = peer_manager_header_lem w p long

      by_result : (result : Option (List ℕ)) → zstd.compress old ≡ result → IsCompressed result
      by_result none e = rw (found, plain, reads) (rw (compress_raw, e) refl)
      by_result (some packed) e =
          let runs : compress zstd w zstd_default p ≡ (
              replace_compressed zstd w zstd_default (length old) packed p >>= λ q. done (ok q)) =
            rw (found, plain, reads)
              (rw (compress_raw, e)
                (ap (λ n. replace_compressed zstd w zstd_default n packed p >>= λ q. done (ok q))
                  told)) in
          elim (Bool-cases (ltb (length old) (length packed + 1))) [
            | inl grows ↦ inl (ground arith, runs ∙ unchanged packed grows)
            | inr less ↦
                let fewer : length packed + 1 ≤ length old = ground arith in
                let (q, replaces, is_shorter) = shorter packed e fewer in
                inr (fewer, q, runs ∙ rw replaces refl, is_shorter)
          ]

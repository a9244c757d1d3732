-- ===== src/Packet/Foreign/Bytes.antt =====
-- tunnel/packet_def.rs: the header of a foreign packet as bytes.
use mathlib.Core.List.{append-nil}
use peer_link.Common.{
  ℕ, ◌+◌, ◌%◌, ◌^◌, ◌<◌, ◌≡◌, ◌∙◌, sym, ap, subst, List, [], ◌++◌, arith, take, drop, length,
  length-append, take-append, drop-append, drop-drop, done,
}
use peer_link.Packet.Crates.{Crates}
use peer_link.Packet.Foreign.{
  ForeignNetworkPacketHeader, new_header, foreign_as_bytes, foreign_of_bytes,
}

abbrev pub header : ℕ → List ℕ → ForeignNetworkPacketHeader
header dst name = record {
  header_len = 10 + length name;
  dst_peer_id = dst;
  network_name_offset = 10;
  network_name_len = length name;
}

-- A name that fits, with its header, a 16-bit length.
pub new_header_lem :
    (dst : ℕ) (name : List ℕ)
    → 10 + length name < 2 ^ 16
    → new_header dst name ≡ done (header dst name)
unfolding new_header
new_header_lem dst name h =
    let e : length name % 2 ^ 16 ≡ length name = omega arith in rw e (ground arith)

module _ (w : Crates) (h : ForeignNetworkPacketHeader) where
  open w use {u16_new, u32_new, length-u16_new, length-u32_new, u16_get-u16_new, u32_get-u32_new}

  pub length-foreign_as_bytes : length (foreign_as_bytes w h) ≡ 10
  unfolding foreign_as_bytes
  length-foreign_as_bytes = omega (
    arith,
    length-append (u16_new h.header_len)
        (u32_new h.dst_peer_id ++ (u16_new h.network_name_offset ++ u16_new h.network_name_len)),
    length-append (u32_new h.dst_peer_id)
        (u16_new h.network_name_offset ++ u16_new h.network_name_len),
    length-append (u16_new h.network_name_offset) (u16_new h.network_name_len),
    length-u16_new h.header_len,
    length-u32_new h.dst_peer_id,
    length-u16_new h.network_name_offset,
    length-u16_new h.network_name_len,
  )

  drop_two :
      drop 2 (foreign_as_bytes w h)
      ≡ u32_new h.dst_peer_id ++ (u16_new h.network_name_offset ++ u16_new h.network_name_len)
  unfolding foreign_as_bytes
  drop_two = drop-append 2 (u16_new h.header_len) _ (sym (length-u16_new h.header_len))

  drop_six :
      drop 6 (foreign_as_bytes w h) ≡ u16_new h.network_name_offset ++ u16_new h.network_name_len
  drop_six =
      sym (drop-drop 4 2 6 (foreign_as_bytes w h) (omega arith))
      ∙ ap (drop 4) drop_two
      ∙ drop-append 4 (u32_new h.dst_peer_id) _ (sym (length-u32_new h.dst_peer_id))

  drop_eight : drop 8 (foreign_as_bytes w h) ≡ u16_new h.network_name_len
  drop_eight =
      sym (drop-drop 2 6 8 (foreign_as_bytes w h) (omega arith))
      ∙ ap (drop 2) drop_six
      ∙ drop-append 2 (u16_new h.network_name_offset) _ (sym (length-u16_new h.network_name_offset))

  take_two : take 2 (foreign_as_bytes w h) ≡ u16_new h.header_len
  unfolding foreign_as_bytes
  take_two = take-append 2 (u16_new h.header_len) _ (sym (length-u16_new h.header_len))

  last_two : take 2 (u16_new h.network_name_len) ≡ u16_new h.network_name_len
  last_two =
      subst (λ b. take 2 b ≡ u16_new h.network_name_len) (append-nil (u16_new h.network_name_len))
        (take-append 2 (u16_new h.network_name_len) [] (sym (length-u16_new h.network_name_len)))

  pub foreign_of_bytes-foreign_as_bytes :
      h.header_len < 2 ^ 16
      → h.dst_peer_id < 2 ^ 32
      → h.network_name_offset < 2 ^ 16
      → h.network_name_len < 2 ^ 16
      → foreign_of_bytes w (foreign_as_bytes w h) ≡ h
  unfolding foreign_of_bytes
  foreign_of_bytes-foreign_as_bytes a b c d = rw (
    drop_two,
    drop_six,
    drop_eight,
    take_two,
    last_two,
    take-append 4 (u32_new h.dst_peer_id)
        (u16_new h.network_name_offset ++ u16_new h.network_name_len)
        (sym (length-u32_new h.dst_peer_id)),
    take-append 2 (u16_new h.network_name_offset) (u16_new h.network_name_len)
        (sym (length-u16_new h.network_name_offset)),
    u16_get-u16_new _ a,
    u32_get-u32_new _ b,
    u16_get-u16_new _ c,
    u16_get-u16_new _ d,
  )

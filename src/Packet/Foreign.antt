-- ===== src/Packet/Foreign.antt =====
-- tunnel/packet_def.rs: packets of another network, wrapped whole into the payload of a packet of ours.
-- A name is the bytes of its UTF-8.
pub mod Bytes
pub mod RoundTrip
use mathlib.Core.Option
use peer_link.Common.{
  ℕ, ◌+◌, ◌%◌, ◌^◌, Bool, List, [], ◌++◌, Option, none, take, drop, length, leb, ltb, ◌==◌, Exec,
  done, panic, ◌>>=◌, unwrap, if◌then◌else◌,
}
use peer_link.Packet.Crates.{Crates}
use peer_link.Packet.Layout.{payload_off, nic, dummy_tunnel, foreign_header_size}
use peer_link.Packet.Header.{PacketType, to_u8}
use peer_link.Packet.Buffer.{
  ZcPacket, new_nic_packet, new_from_buf, set_len, copy_to_payload, payload, tunnel_payload,
  peer_manager_header, mut_peer_manager_header,
}

pub record ForeignNetworkPacketHeader : Type 0 where
  pub header_len : ℕ
  pub dst_peer_id : ℕ
  pub network_name_offset : ℕ
  pub network_name_len : ℕ

-- The sum is of `u16`: one that overflows is a panic, as in a build with overflow checks.
unfoldable pub new_header : ℕ → List ℕ → Exec ForeignNetworkPacketHeader
new_header dst_peer_id network_name =
    if ltb (foreign_header_size + length network_name % 2 ^ 16) (2 ^ 16)
    then done (record {
      header_len = foreign_header_size + length network_name % 2 ^ 16;
      dst_peer_id = dst_peer_id;
      network_name_offset = foreign_header_size;
      network_name_len = length network_name % 2 ^ 16;
    })
    else panic

-- `&bytes[from..from + len]`
slice : ℕ → ℕ → List ℕ → Exec (List ℕ)
slice from len bytes =
    if leb (from + len) (length bytes) then done (take len (drop from bytes)) else panic

unfoldable pub get_network_name :
    (List ℕ → Bool) → ForeignNetworkPacketHeader → List ℕ → Exec (List ℕ)
unfolding slice
get_network_name valid_utf8 hdr payload =
    slice hdr.network_name_offset hdr.network_name_len payload >>= λ name.
    if valid_utf8 name then done name else panic

module _ (w : Crates) where
  open w use {u16_new, u16_get, u32_new, u32_get, ref_from_prefix, split_off}

  unfoldable pub foreign_as_bytes : ForeignNetworkPacketHeader → List ℕ
  foreign_as_bytes h =
      u16_new h.header_len
      ++ (u32_new h.dst_peer_id ++ (u16_new h.network_name_offset ++ u16_new h.network_name_len))

  unfoldable pub foreign_of_bytes : List ℕ → ForeignNetworkPacketHeader
  foreign_of_bytes bytes = record {
    header_len = u16_get (take 2 bytes);
    dst_peer_id = u32_get (take 4 (drop 2 bytes));
    network_name_offset = u16_get (take 2 (drop 6 bytes));
    network_name_len = u16_get (take 2 (drop 8 bytes));
  }

  unfoldable pub new_for_foreign_network : (ℕ → ℕ) → List ℕ → ℕ → ZcPacket → Exec ZcPacket
  unfolding new_header tunnel_payload new_nic_packet set_len copy_to_payload foreign_as_bytes
      mut_peer_manager_header
  new_for_foreign_network uninit network_name dst_peer_id foreign_zc_packet =
      new_header dst_peer_id network_name >>= λ hdr.
      tunnel_payload foreign_zc_packet >>= λ foreign_bytes.
      (let total = hdr.header_len + length foreign_bytes in
        copy_to_payload 0 foreign_header_size (foreign_as_bytes hdr)
          (record new_nic_packet { inner = set_len uninit (payload_off nic + total) [] })
        >>= λ p.
            copy_to_payload hdr.network_name_offset (hdr.network_name_offset + hdr.network_name_len)
              network_name p
            >>= λ q. copy_to_payload hdr.header_len total foreign_bytes q >>= λ r.
                mut_peer_manager_header w
                  (λ pm. record pm {
                    from_peer_id = 0;
                    to_peer_id = 0;
                    packet_type = to_u8 PacketType.foreign_network_packet;
                    len = total % 2 ^ 32;
                  })
                  r)

  unfoldable pub foreign_network_hdr : ZcPacket → Exec (Option ForeignNetworkPacketHeader)
  unfolding peer_manager_header payload foreign_of_bytes
  foreign_network_hdr p = peer_manager_header w p >>= λ found. unwrap found >>= λ pm.
      if pm.packet_type == to_u8 PacketType.foreign_network_packet
      then (payload p >>= λ bytes.
          done (Option.map foreign_of_bytes (ref_from_prefix foreign_header_size bytes)))
      else done none

  unfoldable pub foreign_network_packet : ZcPacket → Exec ZcPacket
  unfolding new_from_buf
  foreign_network_packet p = foreign_network_hdr p >>= λ found. unwrap found >>= λ hdr.
      split_off (hdr.header_len + payload_off p.packet_type) p.inner >>= λ bytes.
      done (new_from_buf bytes dummy_tunnel)

-- ===== src/Packet/Layout.antt =====
-- tunnel/packet_def.rs: the sizes of the headers and the offsets of each kind of packet.
use peer_link.Common.{ℕ, ◌+◌, ◌-◌, ◌^◌, ltb, if◌then◌else◌}

abbrev pub tcp_tunnel_header_size : ℕ
tcp_tunnel_header_size = 4

abbrev pub udp_tunnel_header_size : ℕ
udp_tunnel_header_size = 4 + 1 + 1 + 2

abbrev pub wg_tunnel_header_size : ℕ
wg_tunnel_header_size = 20

abbrev pub peer_manager_header_size : ℕ
peer_manager_header_size = 4 + 4 + 1 + 1 + 1 + 1 + 4

abbrev pub foreign_header_size : ℕ
foreign_header_size = 2 + 4 + 2 + 2

abbrev pub max : ℕ → ℕ → ℕ
max a b = if ltb a b then b else a

-- `usize::MAX` of a 64-bit target.
abbrev pub invalid_offset : ℕ
invalid_offset = 2 ^ 64 - 1

abbrev pub payload_offset_for_nic_packet : ℕ
payload_offset_for_nic_packet =
    max (max tcp_tunnel_header_size udp_tunnel_header_size) wg_tunnel_header_size
    + peer_manager_header_size

unfoldable pub get_converted_offset : ℕ → ℕ → ℕ
get_converted_offset old_hdr_size new_hdr_size =
    if ltb old_hdr_size new_hdr_size then invalid_offset else old_hdr_size - new_hdr_size

pub data ZcPacketType : Type 0 where
  tcp udp wg nic dummy_tunnel : ZcPacketType

pub record ZcPacketOffsets : Type 0 where
  pub payload_offset : ℕ
  pub peer_manager_header_offset : ℕ
  pub tcp_tunnel_header_offset : ℕ
  pub udp_tunnel_header_offset : ℕ
  pub wg_tunnel_header_offset : ℕ
  pub dummy_tunnel_header_offset : ℕ

unfoldable pub get_packet_offsets : ZcPacketType → ZcPacketOffsets
unfolding get_converted_offset
get_packet_offsets tcp = record {
  payload_offset = tcp_tunnel_header_size + peer_manager_header_size;
  peer_manager_header_offset = tcp_tunnel_header_size;
  tcp_tunnel_header_offset = 0;
  udp_tunnel_header_offset = get_converted_offset tcp_tunnel_header_size udp_tunnel_header_size;
  wg_tunnel_header_offset = get_converted_offset tcp_tunnel_header_size wg_tunnel_header_size;
  dummy_tunnel_header_offset = get_converted_offset tcp_tunnel_header_size 0;
}
get_packet_offsets udp = record {
  payload_offset = udp_tunnel_header_size + peer_manager_header_size;
  peer_manager_header_offset = udp_tunnel_header_size;
  tcp_tunnel_header_offset = get_converted_offset udp_tunnel_header_size tcp_tunnel_header_size;
  udp_tunnel_header_offset = 0;
  wg_tunnel_header_offset = get_converted_offset udp_tunnel_header_size wg_tunnel_header_size;
  dummy_tunnel_header_offset = get_converted_offset udp_tunnel_header_size 0;
}
get_packet_offsets wg = record {
  payload_offset = wg_tunnel_header_size + peer_manager_header_size;
  peer_manager_header_offset = wg_tunnel_header_size;
  tcp_tunnel_header_offset = get_converted_offset wg_tunnel_header_size tcp_tunnel_header_size;
  udp_tunnel_header_offset = get_converted_offset wg_tunnel_header_size udp_tunnel_header_size;
  wg_tunnel_header_offset = 0;
  dummy_tunnel_header_offset = get_converted_offset wg_tunnel_header_size 0;
}
get_packet_offsets nic = record {
  payload_offset = payload_offset_for_nic_packet;
  peer_manager_header_offset = payload_offset_for_nic_packet - peer_manager_header_size;
  tcp_tunnel_header_offset =
      payload_offset_for_nic_packet - peer_manager_header_size - tcp_tunnel_header_size;
  udp_tunnel_header_offset =
      payload_offset_for_nic_packet - peer_manager_header_size - udp_tunnel_header_size;
  wg_tunnel_header_offset =
      payload_offset_for_nic_packet - peer_manager_header_size - wg_tunnel_header_size;
  dummy_tunnel_header_offset = payload_offset_for_nic_packet - peer_manager_header_size;
}
get_packet_offsets dummy_tunnel = record {
  payload_offset = peer_manager_header_size;
  peer_manager_header_offset = 0;
  tcp_tunnel_header_offset = get_converted_offset 0 tcp_tunnel_header_size;
  udp_tunnel_header_offset = get_converted_offset 0 udp_tunnel_header_size;
  wg_tunnel_header_offset = get_converted_offset 0 wg_tunnel_header_size;
  dummy_tunnel_header_offset = 0;
}

abbrev pub payload_off : ZcPacketType → ℕ
payload_off t = (get_packet_offsets t).payload_offset

abbrev pub manager_off : ZcPacketType → ℕ
manager_off t = (get_packet_offsets t).peer_manager_header_offset

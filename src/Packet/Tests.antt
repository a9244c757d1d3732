-- ===== src/Packet/Tests.antt =====
-- Packets at concrete inputs.
use peer_link.Common.{
  ℕ, ◌^◌, ◌<◌, ◌≤◌, ◌≡◌, refl, true, false, List, [], ◌∷◌, ◌++◌, some, length, done, arith,
}
use peer_link.Packet.Samples.{little_endian, stale}
use peer_link.Packet.Layout.{udp, nic, dummy_tunnel, get_packet_offsets, payload_off}
use peer_link.Packet.Header.{PeerManagerHeader, as_bytes, from_prefix}
use peer_link.Packet.Header.Flags.{latency, compression, read, write, read-write}
use peer_link.Packet.Header.Bytes.{from_prefix-as_bytes}
use peer_link.Packet.Buffer.{
  ZcPacket, payload, tunnel_payload, peer_manager_header, fill_peer_manager_hdr, convert_type,
  new_with_payload,
}
use peer_link.Packet.Buffer.Fill.{fill_peer_manager_hdr_lem, filled}
use peer_link.Packet.Buffer.Convert.{convert_type_lem}
use peer_link.Packet.Buffer.Payload.{new_with_payload_lem}
use peer_link.Packet.Foreign.{
  ForeignNetworkPacketHeader, get_network_name, new_for_foreign_network, foreign_network_hdr,
  foreign_network_packet,
}
use peer_link.Packet.Foreign.RoundTrip.{foreign_network_packet-new_for_foreign_network}

abbrev sample : PeerManagerHeader
sample = record {
  from_peer_id = 0x01020304;
  to_peer_id = 500;
  packet_type = 1;
  flags = 0x12;
  forward_counter = 1;
  reserved = 7;
  len = 3;
}

-- A packet of the network card with three bytes of payload.
abbrev sample_packet : ZcPacket
sample_packet = record {
  inner =
      7 ∷ 7 ∷ 7 ∷ 7 ∷ 7 ∷ 7 ∷ 7 ∷ 7 ∷ 7 ∷ 7 ∷ 7 ∷ 7 ∷ 7 ∷ 7 ∷ 7 ∷ 7 ∷ 7 ∷ 7 ∷ 7 ∷ 7 ∷ 7 ∷ 7 ∷ 7 ∷ 7
      ∷ 7 ∷ 7 ∷ 7 ∷ 7 ∷ 7 ∷ 7 ∷ 7 ∷ 7 ∷ 7 ∷ 7 ∷ 7 ∷ 7 ∷ 1 ∷ 2 ∷ 3 ∷ [];
  packet_type = nic;
}

sample_packet_long : payload_off sample_packet.packet_type ≤ length sample_packet.inner
unfolding get_packet_offsets
sample_packet_long = omega arith

new_with_payload_runs : new_with_payload stale (1 ∷ 2 ∷ 3 ∷ []) ≡ done sample_packet
unfolding new_with_payload get_packet_offsets
new_with_payload_runs = refl

new_with_payload_lem_example :
    (q : ZcPacket) × (new_with_payload stale (1 ∷ 2 ∷ 3 ∷ []) ≡ done q)
    × (q.packet_type ≡ nic)
    × (length q.inner ≡ 39)
    × (payload q ≡ done (1 ∷ 2 ∷ 3 ∷ []))
unfolding get_packet_offsets
new_with_payload_lem_example = new_with_payload_lem stale (1 ∷ 2 ∷ 3 ∷ [])

from_prefix-as_bytes_example :
    from_prefix little_endian (as_bytes little_endian sample ++ 9 ∷ []) ≡ some sample
from_prefix-as_bytes_example = from_prefix-as_bytes little_endian sample (9 ∷ []) (omega arith)

read-write_example :
    (h' : PeerManagerHeader) × (write little_endian latency sample false ≡ done h')
    × (h' ≡ record sample { flags = h'.flags })
    × (h'.flags < 2 ^ 8)
    × (read little_endian compression h' ≡ read little_endian compression sample)
read-write_example = read-write little_endian sample (omega arith) latency compression false

fill_peer_manager_hdr_lem_example :
    (q : ZcPacket) × (fill_peer_manager_hdr little_endian 5 6 1 sample_packet ≡ done q)
    × (q.packet_type ≡ nic)
    × (length q.inner ≡ 39)
    × (peer_manager_header little_endian q
        ≡ done (some (filled little_endian sample_packet sample_packet_long 5 6 1)))
    × (payload q ≡ payload sample_packet)
unfolding get_packet_offsets
fill_peer_manager_hdr_lem_example =
    fill_peer_manager_hdr_lem little_endian sample_packet sample_packet_long 5 6 1 (omega arith)
      (omega arith)

convert_type_lem_example :
    (q : ZcPacket) × (convert_type little_endian stale udp sample_packet ≡ done q)
    × (q.packet_type ≡ udp)
    × (tunnel_payload q ≡ tunnel_payload sample_packet)
    × (peer_manager_header little_endian q ≡ peer_manager_header little_endian sample_packet)
unfolding get_packet_offsets
convert_type_lem_example =
    convert_type_lem little_endian stale sample_packet udp (omega arith) (λ e. cc)

foreign_network_packet-new_for_foreign_network_example :
    (q u : ZcPacket) × (hdr : ForeignNetworkPacketHeader) × (bytes : List ℕ)
    × (new_for_foreign_network little_endian stale (110 ∷ 101 ∷ 116 ∷ []) 9 sample_packet ≡ done q)
    × (foreign_network_hdr little_endian q ≡ done (some hdr))
    × (hdr.dst_peer_id ≡ 9)
    × (payload q ≡ done bytes)
    × (get_network_name (λ _. true) hdr bytes ≡ done (110 ∷ 101 ∷ 116 ∷ []))
    × (foreign_network_packet little_endian q ≡ done u)
    × (u.packet_type ≡ dummy_tunnel)
    × (tunnel_payload u ≡ tunnel_payload sample_packet)
unfolding get_packet_offsets tunnel_payload
foreign_network_packet-new_for_foreign_network_example =
    foreign_network_packet-new_for_foreign_network little_endian stale (110 ∷ 101 ∷ 116 ∷ []) 9
      sample_packet _ (omega arith) refl (omega arith) (λ _. true) refl

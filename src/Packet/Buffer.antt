-- ===== src/Packet/Buffer.antt =====
-- tunnel/packet_def.rs: `ZCPacket`, one buffer that holds a tunnel's header, the peer manager's header
-- and the payload. A slice out of range and an underflow of `usize` are panics.
pub mod Fill
pub mod Convert
pub mod Payload
use mathlib.Core.Option
use peer_link.Common.{
  ℕ, zero, suc, ◌+◌, ◌-◌, ◌%◌, ◌^◌, Bool, true, false, List, [], ◌∷◌, ◌++◌, ◌&&◌, Option, none,
  some, take, drop, length, leb, ltb, ◌==◌, Exec, done, panic, ◌>>=◌, unwrap, slice_from,
  if◌then◌else◌,
}
use peer_link.Packet.Crates.{Crates}
use peer_link.Packet.Layout.{
  ZcPacketType, tcp, udp, wg, nic, dummy_tunnel, get_packet_offsets, payload_off, manager_off,
  invalid_offset, udp_tunnel_header_size, peer_manager_header_size,
}
use peer_link.Packet.Header.{PeerManagerHeader, PacketType, to_u8, as_bytes, from_prefix}

pub record ZcPacket : Type 0 where
  pub inner : List ℕ
  pub packet_type : ZcPacketType

unfoldable pub new_nic_packet : ZcPacket
new_nic_packet = record { inner = []; packet_type = nic }

unfoldable pub new_from_buf : List ℕ → ZcPacketType → ZcPacket
new_from_buf buf t = record { inner = buf; packet_type = t }

-- `count` bytes of memory from an index on.
abbrev pub memory : (ℕ → ℕ) → ℕ → ℕ → List ℕ
memory uninit start zero = []
memory uninit start (suc count) = uninit start ∷ memory uninit (suc start) count

-- `set_len` uncovers bytes that nobody has written: `uninit` is what stands there.
unfoldable pub set_len : (ℕ → ℕ) → ℕ → List ℕ → List ℕ
set_len uninit n bytes = take n bytes ++ memory uninit (length bytes) (n - length bytes)

-- `bytes[from..to].copy_from_slice(src)`
unfoldable pub copy_slice : ℕ → ℕ → List ℕ → List ℕ → Exec (List ℕ)
copy_slice from to src bytes =
    if leb from to && leb to (length bytes) && (to - from == length src)
    then done (take from bytes ++ (src ++ drop to bytes))
    else panic

unfoldable pub payload : ZcPacket → Exec (List ℕ)
unfolding get_packet_offsets
payload p = slice_from (payload_off p.packet_type) p.inner

unfoldable pub tunnel_payload : ZcPacket → Exec (List ℕ)
unfolding get_packet_offsets
tunnel_payload p = slice_from (manager_off p.packet_type) p.inner

-- `self.mut_payload()[from..to].copy_from_slice(src)`
unfoldable pub copy_to_payload : ℕ → ℕ → List ℕ → ZcPacket → Exec ZcPacket
unfolding copy_slice payload
copy_to_payload from to src p = payload p >>= λ old. copy_slice from to src old >>= λ new.
    done (record p { inner = take (payload_off p.packet_type) p.inner ++ new })

-- `write` on the bytes that `mut_payload` gives.
unfoldable pub mut_payload : (List ℕ → List ℕ) → ZcPacket → Exec ZcPacket
unfolding payload
mut_payload write p = payload p >>= λ old.
    done (record p { inner = take (payload_off p.packet_type) p.inner ++ write old })

-- `self.mut_inner().truncate(len)` and `self.mut_inner().extend_from_slice(bytes)`
unfoldable pub truncate : ℕ → ZcPacket → ZcPacket
truncate n p = record p { inner = take n p.inner }

unfoldable pub extend : List ℕ → ZcPacket → ZcPacket
extend bytes p = record p { inner = p.inner ++ bytes }

unfoldable pub payload_len : ZcPacket → Exec ℕ
unfolding get_packet_offsets
payload_len p =
    if ltb (length p.inner) (payload_off p.packet_type)
    then panic
    else done (length p.inner - payload_off p.packet_type)

unfoldable pub buf_len : ZcPacket → ℕ
buf_len p = length p.inner

-- Where the kind has no such header, the sum with `INVALID_OFFSET` overflows: a panic, as in a build with
-- overflow checks.
unfoldable pub udp_payload : ZcPacket → Exec (List ℕ)
unfolding get_packet_offsets
udp_payload p =
    slice_from
      ((get_packet_offsets p.packet_type).udp_tunnel_header_offset + udp_tunnel_header_size) p.inner

unfoldable pub new_with_payload : (ℕ → ℕ) → List ℕ → Exec ZcPacket
unfolding new_nic_packet set_len copy_to_payload
new_with_payload uninit bytes =
    copy_to_payload 0 (length bytes) bytes
      (record new_nic_packet { inner = set_len uninit (payload_off nic + length bytes) [] })

unfoldable pub new_for_tun : (ℕ → ℕ) → ℕ → Exec ZcPacket
unfolding new_nic_packet set_len get_packet_offsets
new_for_tun uninit packet_info_len =
    if ltb (payload_off nic) packet_info_len
    then panic
    else done
        (record new_nic_packet { inner = set_len uninit (payload_off nic - packet_info_len) [] })

-- `self.packet_type == target_packet_type`
same_type : ZcPacketType → ZcPacketType → Bool
same_type tcp tcp = true
same_type udp udp = true
same_type wg wg = true
same_type nic nic = true
same_type dummy_tunnel dummy_tunnel = true
same_type _ _ = false

-- The offset at which `convert_type` cuts the old buffer.
new_offset : ZcPacketType → ZcPacketType → Exec ℕ
unfolding get_packet_offsets
new_offset old tcp = done (get_packet_offsets old).tcp_tunnel_header_offset
new_offset old udp = done (get_packet_offsets old).udp_tunnel_header_offset
new_offset old wg = done (get_packet_offsets old).wg_tunnel_header_offset
new_offset old dummy_tunnel = done (get_packet_offsets old).dummy_tunnel_header_offset
new_offset old nic = panic

-- The branch that copies the peer manager's header and the payload to a new buffer.
unfoldable copy_converted : (ℕ → ℕ) → ZcPacketType → ZcPacket → Exec ZcPacket
unfolding tunnel_payload set_len new_from_buf
copy_converted uninit target p = tunnel_payload p >>= λ rest.
    done (new_from_buf (set_len uninit (manager_off target) [] ++ rest) target)

module _ (w : Crates) where
  open w use {split_off}

  unfoldable pub peer_manager_header : ZcPacket → Exec (Option PeerManagerHeader)
  unfolding from_prefix get_packet_offsets
  peer_manager_header p =
      slice_from (manager_off p.packet_type) p.inner >>= λ bytes. done (from_prefix w bytes)

  -- `mut_peer_manager_header().unwrap()`, and what the caller then writes through the reference.
  unfoldable pub mut_peer_manager_header :
      (PeerManagerHeader → PeerManagerHeader) → ZcPacket → Exec ZcPacket
  unfolding peer_manager_header as_bytes
  mut_peer_manager_header write p = peer_manager_header p >>= λ found. unwrap found >>= λ hdr.
      done (record p {
        inner =
            take (manager_off p.packet_type) p.inner
            ++ (as_bytes w (write hdr)
                ++ drop (manager_off p.packet_type + peer_manager_header_size) p.inner);
      })

  unfoldable pub fill_peer_manager_hdr : ℕ → ℕ → ℕ → ZcPacket → Exec ZcPacket
  unfolding payload_len mut_peer_manager_header
  fill_peer_manager_hdr from_peer_id to_peer_id packet_type p = payload_len p >>= λ n.
      mut_peer_manager_header
        (λ hdr. record hdr {
          from_peer_id = from_peer_id;
          to_peer_id = to_peer_id;
          packet_type = packet_type;
          flags = 0;
          forward_counter = 1;
          len = n % 2 ^ 32;
        })
        p

  unfoldable pub payload_bytes : ZcPacket → Exec (List ℕ)
  unfolding get_packet_offsets
  payload_bytes p = split_off (payload_off p.packet_type) p.inner

  unfoldable pub tunnel_payload_bytes : ZcPacket → Exec (List ℕ)
  unfolding get_packet_offsets
  tunnel_payload_bytes p = split_off (manager_off p.packet_type) p.inner

  unfoldable pub is_lossy : ZcPacket → Exec Bool
  unfolding peer_manager_header
  is_lossy p = peer_manager_header p >>= λ found.
      done
        (elim found [ none ↦ false | some hdr ↦ hdr.packet_type == to_u8 PacketType.data_packet ])

  unfoldable pub get_src_peer_id : ZcPacket → Exec (Option ℕ)
  unfolding peer_manager_header
  get_src_peer_id p =
      peer_manager_header p >>= λ found. done (Option.map (λ hdr. hdr.from_peer_id) found)

  unfoldable pub get_dst_peer_id : ZcPacket → Exec (Option ℕ)
  unfolding peer_manager_header
  get_dst_peer_id p =
      peer_manager_header p >>= λ found. done (Option.map (λ hdr. hdr.to_peer_id) found)

  unfoldable pub convert_type : (ℕ → ℕ) → ZcPacketType → ZcPacket → Exec ZcPacket
  unfolding same_type new_offset copy_converted new_from_buf
  convert_type uninit target p =
      if same_type target p.packet_type
      then done p
      else (new_offset p.packet_type target >>= λ at.
          if at == invalid_offset
          then copy_converted uninit target p
          else (split_off at p.inner >>= λ bytes. done (new_from_buf bytes target)))

-- ===== src/Packet/Header.antt =====
-- tunnel/packet_def.rs: `PeerManagerHeader`, its bytes, and its flags.
pub mod Bytes
pub mod Flags
use mathlib.Core.Option
use peer_link.Common.{
  ℕ, Bool, List, ◌∷◌, ◌++◌, Option, take, drop, get_or, Exec, done, ◌>>=◌, unwrap, if◌then◌else◌,
}
use peer_link.Packet.Crates.{Crates}
use peer_link.Packet.Layout.{peer_manager_header_size}

pub record PeerManagerHeader : Type 0 where
  pub from_peer_id : ℕ
  pub to_peer_id : ℕ
  pub packet_type : ℕ
  pub flags : ℕ
  pub forward_counter : ℕ
  pub reserved : ℕ
  pub len : ℕ

-- `enum PacketType`, by its numbers.
pub data PacketType : Type 0 where
  invalid data_packet hand_shake route_packet ping pong ta_rpc route rpc_req rpc_resp : PacketType
  foreign_network_packet kcp_src kcp_dst : PacketType

abbrev pub to_u8 : PacketType → ℕ
to_u8 invalid = 0
to_u8 data_packet = 1
to_u8 hand_shake = 2
to_u8 route_packet = 3
to_u8 ping = 4
to_u8 pong = 5
to_u8 ta_rpc = 6
to_u8 route = 7
to_u8 rpc_req = 8
to_u8 rpc_resp = 9
to_u8 foreign_network_packet = 10
to_u8 kcp_src = 11
to_u8 kcp_dst = 12

-- `PeerManagerHeaderFlags`
abbrev pub encrypted : ℕ
encrypted = 0b0000_0001

abbrev pub latency_first : ℕ
latency_first = 0b0000_0010

abbrev pub exit_node : ℕ
exit_node = 0b0000_0100

abbrev pub no_proxy : ℕ
no_proxy = 0b0000_1000

abbrev pub compressed : ℕ
compressed = 0b0001_0000

abbrev pub kcp_src_modified : ℕ
kcp_src_modified = 0b0010_0000

module _ (w : Crates) where
  open w use {u32_new, u32_get, ref_from_prefix, from_bits, contains, insert, remove}

  -- The fields in the order of the declaration, with no gaps (`repr(C, packed)`).
  unfoldable pub as_bytes : PeerManagerHeader → List ℕ
  as_bytes h =
      u32_new h.from_peer_id
      ++ (u32_new h.to_peer_id
          ++ (h.packet_type ∷ h.flags ∷ h.forward_counter ∷ h.reserved ∷ u32_new h.len))

  unfoldable pub of_bytes : List ℕ → PeerManagerHeader
  of_bytes bytes = record {
    from_peer_id = u32_get (take 4 bytes);
    to_peer_id = u32_get (take 4 (drop 4 bytes));
    packet_type = get_or (drop 8 bytes) 0 0;
    flags = get_or (drop 8 bytes) 1 0;
    forward_counter = get_or (drop 8 bytes) 2 0;
    reserved = get_or (drop 8 bytes) 3 0;
    len = u32_get (take 4 (drop 12 bytes));
  }

  unfoldable pub from_prefix : List ℕ → Option PeerManagerHeader
  unfolding of_bytes
  from_prefix bytes = Option.map of_bytes (ref_from_prefix peer_manager_header_size bytes)

  is_flag : ℕ → PeerManagerHeader → Exec Bool
  is_flag mask h = unwrap (from_bits h.flags) >>= λ bits. done (contains bits mask)

  set_flag : ℕ → PeerManagerHeader → Bool → Exec PeerManagerHeader
  set_flag mask h on = unwrap (from_bits h.flags) >>= λ bits.
      done (record h { flags = if on then insert bits mask else remove bits mask })

  unfoldable pub is_encrypted : PeerManagerHeader → Exec Bool
  unfolding is_flag
  is_encrypted = is_flag encrypted

  unfoldable pub set_encrypted : PeerManagerHeader → Bool → Exec PeerManagerHeader
  unfolding set_flag
  set_encrypted = set_flag encrypted

  unfoldable pub is_latency_first : PeerManagerHeader → Exec Bool
  unfolding is_flag
  is_latency_first = is_flag latency_first

  unfoldable pub is_exit_node : PeerManagerHeader → Exec Bool
  unfolding is_flag
  is_exit_node = is_flag exit_node

  unfoldable pub is_no_proxy : PeerManagerHeader → Exec Bool
  unfolding is_flag
  is_no_proxy = is_flag no_proxy

  unfoldable pub is_compressed : PeerManagerHeader → Exec Bool
  unfolding is_flag
  is_compressed = is_flag compressed

  unfoldable pub set_latency_first : PeerManagerHeader → Bool → Exec PeerManagerHeader
  unfolding set_flag
  set_latency_first = set_flag latency_first

  unfoldable pub set_exit_node : PeerManagerHeader → Bool → Exec PeerManagerHeader
  unfolding set_flag
  set_exit_node = set_flag exit_node

  unfoldable pub set_no_proxy : PeerManagerHeader → Bool → Exec PeerManagerHeader
  unfolding set_flag
  set_no_proxy = set_flag no_proxy

  unfoldable pub set_compressed : PeerManagerHeader → Bool → Exec PeerManagerHeader
  unfolding set_flag
  set_compressed = set_flag compressed

  unfoldable pub set_kcp_src_modified : PeerManagerHeader → Bool → Exec PeerManagerHeader
  unfolding set_flag
  set_kcp_src_modified = set_flag kcp_src_modified

  unfoldable pub is_kcp_src_modified : PeerManagerHeader → Exec Bool
  unfolding is_flag
  is_kcp_src_modified = is_flag kcp_src_modified

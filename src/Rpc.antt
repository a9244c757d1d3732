-- ===== src/Rpc.antt =====
-- proto/rpc_impl/packet.rs: a call's content cut into pieces, and the pieces merged again. The
-- protobuf messages of proto/common.proto are records; the type of a descriptor and the encoding of a
-- message are parameters. A transaction's id stands for its 64-bit pattern.
pub mod Split
pub mod Slots
pub mod Merge
pub mod Content
mod Tests
use peer_link.Common.{
  ℕ, zero, suc, ◌+◌, ◌-◌, ◌*◌, ◌/◌, ◌%◌, ◌^◌, Bool, true, false, List, [], ◌∷◌, ◌++◌, ◌||◌, ◌&&◌,
  not, Option, none, some, length, take, drop, set, replicate, ltb, leb, ◌==◌, if◌then◌else◌, Exec,
  done, ◌>>=◌,
}
use peer_link.Packet.Crates.{Crates}
use peer_link.Packet.Header.{PacketType, to_u8}
use peer_link.Packet.Buffer.{ZcPacket, new_with_payload, fill_peer_manager_hdr}

pub record RpcCompressionInfo : Type 0 where
  pub algo : ℕ
  pub accepted_algo : ℕ

-- `CompressionAlgoPb::None as i32`
abbrev pub compression_none : ℕ
compression_none = 1

abbrev pub rpc_packet_content_mtu : ℕ
rpc_packet_content_mtu = 1300

pub record RpcPacket (Descriptor : Type 0) : Type 0 where
  pub from_peer : ℕ
  pub to_peer : ℕ
  pub transaction_id : ℕ
  pub descriptor : Option Descriptor
  pub body : List ℕ
  pub is_request : Bool
  pub total_pieces : ℕ
  pub piece_idx : ℕ
  pub trace_id : ℕ
  pub compression_info : Option RpcCompressionInfo

pub record BuildRpcPacketArgs (Descriptor : Type 0) : Type 0 where
  pub from_peer : ℕ
  pub to_peer : ℕ
  pub rpc_desc : Descriptor
  pub transaction_id : ℕ
  pub is_req : Bool
  pub content : List ℕ
  pub trace_id : ℕ
  pub compression_info : RpcCompressionInfo

pub record PacketMerger (Descriptor : Type 0) : Type 0 where
  pub first_piece : Option (RpcPacket Descriptor)
  pub pieces : List (RpcPacket Descriptor)
  pub last_updated : ℕ

abbrev pub div_ceil : ℕ → ℕ → ℕ
div_ceil n d = (n + (d - 1)) / d

abbrev pub cur_len : List ℕ → ℕ → ℕ
cur_len content cur_offset =
    if ltb (length content) (cur_offset + rpc_packet_content_mtu)
    then length content - cur_offset
    else rpc_packet_content_mtu

pub data Error : Type 0 where
  descriptor_missing invalid_total_pieces piece_idx_out_of_range : Error

-- What `feed` returns.
pub data Fed (Descriptor : Type 0) : Type 0 where
  ok : Option (RpcPacket Descriptor) → Fed Descriptor
  malformat_rpc_packet : Error → Fed Descriptor

module _ {Descriptor : Type 0} where
  -- `RpcPacket::default()`
  abbrev pub default : RpcPacket Descriptor
  default = record {
    from_peer = 0;
    to_peer = 0;
    transaction_id = 0;
    descriptor = none;
    body = [];
    is_request = false;
    total_pieces = 0;
    piece_idx = 0;
    trace_id = 0;
    compression_info = none;
  }

  -- The piece of `cur_len` bytes at `cur_offset`.
  unfoldable pub piece_at : BuildRpcPacketArgs Descriptor → ℕ → ℕ → RpcPacket Descriptor
  piece_at args cur_offset cur_len = record {
    from_peer = args.from_peer;
    to_peer = args.to_peer;
    descriptor =
        if cur_offset == 0 || args.compression_info.algo == compression_none
        then some args.rpc_desc
        else none;
    is_request = args.is_req;
    total_pieces = div_ceil (length args.content) rpc_packet_content_mtu % 2 ^ 32;
    piece_idx = cur_offset / rpc_packet_content_mtu % 2 ^ 32;
    transaction_id = args.transaction_id;
    body = take cur_len (drop cur_offset args.content);
    trace_id = args.trace_id;
    compression_info = if cur_offset == 0 then some args.compression_info else none;
  }

  -- The loop of `build_rpc_packet` on fuel. It breaks after the one piece of an empty content.
  unfoldable pub pieces_from : ℕ → BuildRpcPacketArgs Descriptor → ℕ → List (RpcPacket Descriptor)
  unfolding piece_at
  pieces_from zero args cur_offset = []
  pieces_from (suc fuel) args cur_offset =
      let n = cur_len args.content cur_offset in
      let piece = piece_at args cur_offset n in
      let rest = pieces_from fuel args (cur_offset + n) in
      if length args.content == 0
      then piece ∷ []
      else if ltb cur_offset (length args.content)
      then piece ∷ rest
      else []

  -- Each round takes a byte, so the content's length is fuel enough.
  unfoldable pub build_pieces : BuildRpcPacketArgs Descriptor → List (RpcPacket Descriptor)
  unfolding pieces_from
  build_pieces args = pieces_from (suc (length args.content)) args 0

  module _ (w : Crates) (encode : RpcPacket Descriptor → List ℕ) (uninit : ℕ → ℕ) where
    unfoldable pub wrap_piece : BuildRpcPacketArgs Descriptor → RpcPacket Descriptor → Exec ZcPacket
    wrap_piece args piece = new_with_payload uninit (encode piece) >>= λ p.
        fill_peer_manager_hdr w args.from_peer args.to_peer
          (to_u8 (if args.is_req then PacketType.rpc_req else PacketType.rpc_resp)) p

    wrap_all : BuildRpcPacketArgs Descriptor → List (RpcPacket Descriptor) → Exec (List ZcPacket)
    unfolding wrap_piece
    wrap_all args [] = done []
    wrap_all args (piece ∷ rest) =
        wrap_piece args piece >>= λ p. wrap_all args rest >>= λ ps. done (p ∷ ps)

    unfoldable pub build_rpc_packet : BuildRpcPacketArgs Descriptor → Exec (List ZcPacket)
    unfolding build_pieces wrap_all
    build_rpc_packet args = wrap_all args (build_pieces args)

  unfoldable pub new : ℕ → PacketMerger Descriptor
  new now = record { first_piece = none; pieces = []; last_updated = now }

  -- Some piece has not come: its slot still holds the default.
  unfoldable pub is_missing : List (RpcPacket Descriptor) → Bool
  is_missing [] = false
  is_missing (p ∷ ps) = p.total_pieces == 0 || is_missing ps

  unfoldable pub bodies : List (RpcPacket Descriptor) → List ℕ
  bodies [] = []
  bodies (p ∷ ps) = p.body ++ bodies ps

  unfoldable pub merge_slots : List (RpcPacket Descriptor) → Option (RpcPacket Descriptor)
  unfolding is_missing bodies
  merge_slots [] = none
  merge_slots (p ∷ ps) =
      if is_missing (p ∷ ps)
      then none
      else some (record p { total_pieces = 1; piece_idx = 0; body = bodies (p ∷ ps) })

  unfoldable pub try_merge_pieces : PacketMerger Descriptor → Option (RpcPacket Descriptor)
  unfolding merge_slots
  try_merge_pieces m = elim m.first_piece [ none ↦ none | some _ ↦ merge_slots m.pieces ]

  abbrev pub is_none : Option Descriptor → Bool
  is_none none = true
  is_none (some _) = false

  -- Whether the piece belongs to another call than the pieces that are kept.
  unfoldable pub is_other : Option (RpcPacket Descriptor) → RpcPacket Descriptor → Bool
  is_other none p = true
  is_other (some f) p =
      not (f.transaction_id == p.transaction_id) || not (f.from_peer == p.from_peer)

  -- `Vec::resize` with defaults.
  abbrev pub resize : ℕ → List (RpcPacket Descriptor) → List (RpcPacket Descriptor)
  resize n ps = take n ps ++ replicate (n - length ps) default

  -- The piece is put in its slot; `now` is the time.
  unfoldable pub store :
      ℕ → PacketMerger Descriptor → RpcPacket Descriptor → PacketMerger Descriptor
  unfolding is_other
  store now m p =
      let other = is_other m.first_piece p in
      record {
        first_piece = if other then some p else m.first_piece;
        pieces = set (resize p.total_pieces (if other then [] else m.pieces)) p.piece_idx p;
        last_updated = now;
      }

  unfoldable pub feed :
      ℕ → PacketMerger Descriptor → RpcPacket Descriptor → PacketMerger Descriptor × Fed Descriptor
  feed now m p =
      if p.total_pieces == 0 && p.piece_idx == 0
      then (m, ok (some p))
      else if p.piece_idx == 0 && is_none p.descriptor
      then (m, malformat_rpc_packet descriptor_missing)
      else if ltb (32 * 1024) p.total_pieces || p.total_pieces == 0
      then (m, malformat_rpc_packet invalid_total_pieces)
      else if leb p.total_pieces p.piece_idx
      then (m, malformat_rpc_packet piece_idx_out_of_range)
      else (store now m p, ok (try_merge_pieces (store now m p)))

-- ===== src/Rpc/Split.antt =====
-- proto/rpc_impl/packet.rs: `build_rpc_packet` cuts a content into numbered pieces.
use peer_link.Common.{
  ℕ, zero, suc, ◌+◌, ◌-◌, ◌*◌, ◌^◌, ◌≤◌, ◌<◌, ◌≡◌, ◌∙◌, refl, sym, ap, false, List, [], ◌∷◌, ◌++◌,
  ◌&&◌, arith, length, take, drop, take-append-drop, drop-drop, ltb, ◌==◌, Bool-cases, inl, inr,
  ◌⊎◌,
}
use peer_link.Rpc.{
  RpcPacket, BuildRpcPacketArgs, piece_at, pieces_from, build_pieces, bodies, cur_len, div_ceil,
  is_none, rpc_packet_content_mtu,
}
use peer_link.Packet.Buffer.Payload.{drop_all}

-- Pieces of one call, numbered from `i` on, as the receiver wants them: none that it would refuse.
abbrev pub IsNumbered : {Descriptor : Type 0} → ℕ → ℕ → ℕ → ℕ → List (RpcPacket Descriptor) → Type 0
IsNumbered total transaction peer i [] = Unit {0}
IsNumbered total transaction peer i (p ∷ ps) =
    (p.piece_idx ≡ i)
    × (p.total_pieces ≡ total)
    × (p.transaction_id ≡ transaction)
    × (p.from_peer ≡ peer)
    × ((p.piece_idx == 0 && is_none p.descriptor) ≡ false)
    × IsNumbered total transaction peer (suc i) ps

pieces_none :
    {Descriptor : Type 0} (args : BuildRpcPacketArgs Descriptor) (off : ℕ)
    → pieces_from zero args off ≡ []
unfolding pieces_from
pieces_none args off = refl

-- The pieces of a content that is not empty.
abbrev pub pieces_of : {Descriptor : Type 0} → BuildRpcPacketArgs Descriptor → ℕ
pieces_of args = div_ceil (length args.content) rpc_packet_content_mtu

module _ {Descriptor : Type 0} (args : BuildRpcPacketArgs Descriptor)
    (not_empty : 0 < length args.content) where
  cur_len_pos :
      (off : ℕ)
      → off < length args.content
      → (0 < cur_len args.content off) × (off + cur_len args.content off ≤ length args.content)
  cur_len_pos off h = ground arith

  pieces_step :
      (fuel off : ℕ)
      → off < length args.content
      → pieces_from (suc fuel) args off
        ≡ piece_at args off (cur_len args.content off)
          ∷ pieces_from fuel args (off + cur_len args.content off)
  unfolding pieces_from
  pieces_step fuel off h = ground arith

  pieces_end : (fuel off : ℕ) → off ≡ length args.content → pieces_from fuel args off ≡ []
  unfolding pieces_from
  pieces_end zero off e = refl
  pieces_end (suc fuel) off e = ground arith

  -- The body of a piece, and what follows it.
  bodies_step :
      (fuel off : ℕ)
      → off < length args.content
      → bodies (pieces_from fuel args (off + cur_len args.content off))
        ≡ drop (off + cur_len args.content off) args.content
      → bodies (pieces_from (suc fuel) args off) ≡ drop off args.content
  unfolding bodies piece_at
  bodies_step fuel off h ih =
      rw (pieces_step fuel off h, ih)
        (ap (◌++◌ (take (cur_len args.content off) (drop off args.content)))
            (sym (drop-drop (cur_len args.content off) off _ args.content (omega arith)))
          ∙ take-append-drop (cur_len args.content off) (drop off args.content))

  bodies-pieces_from :
      (fuel off : ℕ)
      → off ≤ length args.content
      → length args.content < off + fuel
      → bodies (pieces_from fuel args off) ≡ drop off args.content
  unfolding bodies
  bodies-pieces_from zero off h f = absurd (omega arith)
  bodies-pieces_from (suc fuel) off h f = elim (Bool-cases (ltb off (length args.content))) [
    | inl more ↦
        bodies_step fuel off (ground arith)
          (bodies-pieces_from fuel (off + cur_len args.content off) (ground arith) (ground arith))
    | inr end ↦
        rw (pieces_end (suc fuel) off (ground arith))
          (sym (drop_all off args.content (ground arith)))
  ]

  length-pieces_from :
      (fuel off : ℕ)
      → off ≤ length args.content
      → length args.content < off + fuel
      → length (pieces_from fuel args off)
        ≡ div_ceil (length args.content - off) rpc_packet_content_mtu
  unfolding pieces_from
  length-pieces_from zero off h f = absurd (omega arith)
  length-pieces_from (suc fuel) off h f =
      ground (arith, length-pieces_from fuel (off + cur_len args.content off))

  -- Where the next piece starts: behind `i` whole pieces, or at the end.
  abbrev Starts : ℕ → ℕ → Type 0
  Starts off i = (off ≡ rpc_packet_content_mtu * i) ⊎ (off ≡ length args.content)

  piece_at-numbered :
      (off i : ℕ)
      → pieces_of args < 2 ^ 32
      → off < length args.content
      → off ≡ rpc_packet_content_mtu * i
      → let p = piece_at args off (cur_len args.content off) in
        (p.piece_idx ≡ i)
        × (p.total_pieces ≡ pieces_of args)
        × ((p.piece_idx == 0 && is_none p.descriptor) ≡ false)
  unfolding piece_at
  piece_at-numbered off i small h e = (omega arith, omega arith, ground arith)

  pieces_from-IsNumbered :
      (fuel off i : ℕ)
      → pieces_of args < 2 ^ 32
      → off ≤ length args.content
      → Starts off i
      → IsNumbered (pieces_of args) args.transaction_id args.from_peer i (pieces_from fuel args off)
  unfolding piece_at
  pieces_from-IsNumbered zero off i small h e = rw (pieces_none args off) tt
  pieces_from-IsNumbered (suc fuel) off i small h e =
      elim (Bool-cases (ltb off (length args.content))) [
        | inl more ↦
            let starts : off ≡ rpc_packet_content_mtu * i = ground arith in
            let (index, count, named) = piece_at-numbered off i small (ground arith) starts in
            rw (pieces_step fuel off (ground arith)) (
              index,
              count,
              refl,
              refl,
              named,
              pieces_from-IsNumbered fuel (off + cur_len args.content off) (suc i) small
                  (ground arith) (ground arith),
            )
        | inr end ↦ rw (pieces_end (suc fuel) off (ground arith)) tt
      ]

  -- The first piece, and the others.
  pub build_pieces_cons :
      (rest : List (RpcPacket Descriptor)) × (build_pieces args
        ≡ piece_at args 0 (cur_len args.content 0) ∷ rest)
  unfolding build_pieces
  build_pieces_cons = (_, pieces_step (length args.content) 0 not_empty)

  -- A content that is not empty and has fewer than 2 ^ 32 pieces is cut into its pieces: as many as
  -- the content has parts of 1300 bytes, each numbered by its place and marked for its call, and their
  -- bodies are the content.
  pub build_pieces_lem :
      pieces_of args < 2 ^ 32
      → (bodies (build_pieces args) ≡ args.content)
        × (length (build_pieces args) ≡ pieces_of args)
        × IsNumbered (pieces_of args) args.transaction_id args.from_peer 0 (build_pieces args)
  unfolding build_pieces
  build_pieces_lem small = (
    bodies-pieces_from (suc (length args.content)) 0 (omega arith) (omega arith),
    omega (arith, length-pieces_from (suc (length args.content)) 0 (omega arith) (omega arith)),
    pieces_from-IsNumbered (suc (length args.content)) 0 0 small (omega arith) (inl (omega arith)),
  )

-- ===== src/Rpc/Merge.antt =====
-- proto/rpc_impl/packet.rs: `PacketMerger` puts the pieces of a call together, in whatever order they
-- come and however often.
use peer_link.Common.{
  ◌⊎◌, ◌≢◌, get_elem?-get_or, ℕ, ◌-◌, ◌*◌, ◌^◌, ◌≤◌, ◌<◌, ◌≡◌, ◌∙◌, refl, sym, ap, ap₂, Bool, true,
  false, List, [], ◌∷◌, arith, length, set, get_elem?, get_or, replicate, length-set,
  length-replicate, take_all, Bool-cases, inl, inr, Option, some, none, if◌then◌else◌,
}
use mathlib.Core.List.{append-nil}
use peer_link.Rpc.{
  piece_at, cur_len, RpcPacket, BuildRpcPacketArgs, PacketMerger, default, bodies, is_missing,
  merge_slots, try_merge_pieces, is_other, resize, store, feed, Fed, ok, build_pieces,
}
use peer_link.Rpc.Split.{IsNumbered, pieces_of, build_pieces_lem, build_pieces_cons}
use peer_link.Rpc.Slots.{
  all_set, fill, length-fill, set-fill, fill_all, fill_none, is_missing-fill, IsPiece, numbered_at,
}

-- The merged packet: the first piece with the bodies of all.
abbrev pub merged :
    {Descriptor : Type 0} → List (RpcPacket Descriptor) → Option (RpcPacket Descriptor)
merged [] = none
merged (p ∷ rest) = some (record p { total_pieces = 1; piece_idx = 0; body = bodies (p ∷ rest) })

is_other_same :
    {Descriptor : Type 0} (f p : RpcPacket Descriptor)
    → f.transaction_id ≡ p.transaction_id
    → f.from_peer ≡ p.from_peer
    → is_other (some f) p ≡ false
unfolding is_other
is_other_same f p e d = ground arith

merge_slots_lem :
    {Descriptor : Type 0} (qs : List (RpcPacket Descriptor))
    → merge_slots qs ≡ (if is_missing qs then none else merged qs)
unfolding merge_slots
merge_slots_lem [] = refl
merge_slots_lem (q ∷ qs) = refl

abbrev pub AllPlaces : ℕ → List (ℕ × ℕ) → Type 0
AllPlaces total [] = Unit {0}
AllPlaces total ((i, now) ∷ order) = (i < total) × AllPlaces total order

module _ {Descriptor : Type 0} where
  -- A merger that is fed packets at their times, and what it returns for each.
  unfoldable pub feed_all :
      PacketMerger Descriptor → List (ℕ × RpcPacket Descriptor) → List (Fed Descriptor)
  feed_all m [] = []
  feed_all m ((now, p) ∷ rest) = let (m', fed) = feed now m p in fed ∷ feed_all m' rest

  -- Pieces come at their times, each named by its place in the call.
  abbrev pub arrivals : List (RpcPacket Descriptor) → List (ℕ × ℕ) → List (ℕ × RpcPacket Descriptor)
  arrivals ps [] = []
  arrivals ps ((i, now) ∷ order) = (now, get_or ps i default) ∷ arrivals ps order

  -- What is owed for pieces in this order: the whole as soon as every place is marked.
  unfoldable pub replies :
      Option (RpcPacket Descriptor) → List Bool → List (ℕ × ℕ) → List (Fed Descriptor)
  unfolding all_set
  replies whole marks [] = []
  replies whole marks ((i, now) ∷ order) =
      ok (if all_set (set marks i true) then whole else none)
      ∷ replies whole (set marks i true) order

  -- The merger holds nothing of the transaction.
  abbrev pub IsElsewhere : ℕ → PacketMerger Descriptor → Type 0
  IsElsewhere transaction m =
      (m.first_piece ≡ none)
      ⊎ ((f : RpcPacket Descriptor) × (m.first_piece ≡ some f) × (f.transaction_id ≢ transaction))

  elsewhere_other :
      (transaction : ℕ) (m : PacketMerger Descriptor) (p : RpcPacket Descriptor)
      → IsElsewhere transaction m
      → p.transaction_id ≡ transaction
      → is_other m.first_piece p ≡ true
  unfolding is_other
  elsewhere_other transaction m p (inl e) h = rw e refl
  elsewhere_other transaction m p (inr (f, e, ne)) h = rw (e, is_other) (ground arith)

module _ {Descriptor : Type 0} (ps : List (RpcPacket Descriptor)) (total transaction peer : ℕ)
    (some_pieces : 0 < total) (few : total ≤ 32 * 1024) (complete : length ps ≡ total)
    (numbered : IsNumbered total transaction peer 0 ps) where
  -- The merger keeps the marked pieces of this call.
  record Holds (m : PacketMerger Descriptor) (marks : List Bool) : Type 0 where
    first : RpcPacket Descriptor
    kept : m.first_piece ≡ some first
    same_transaction : first.transaction_id ≡ transaction
    same_peer : first.from_peer ≡ peer
    slots : m.pieces ≡ fill marks ps
    marks_len : length marks ≡ total

  merge_slots-fill :
      (bs : List Bool)
      → length bs ≡ length ps
      → merge_slots (fill bs ps) ≡ (if all_set bs then merged ps else none)
  merge_slots-fill bs e =
      let missing = is_missing-fill total transaction peer some_pieces bs ps 0 e numbered in
      elim (Bool-cases (all_set bs)) [
        | inl all ↦ rw (merge_slots_lem (fill bs ps), missing, all, fill_all bs ps e all) refl
        | inr some_missing ↦ rw (merge_slots_lem (fill bs ps), missing, some_missing) refl
      ]

  resize-fill : (bs : List Bool) → length bs ≡ total → resize total (fill bs ps) ≡ fill bs ps
  resize-fill bs e = rw (
    take_all total (fill bs ps) (omega (arith, length-fill bs ps (omega arith))),
    no_more,
    append-nil,
  )
    where
      none_left : total - length (fill bs ps) ≡ 0
      none_left = omega (arith, length-fill bs ps (omega arith))

      no_more : replicate (total - length (fill bs ps)) (default {Descriptor = Descriptor}) ≡ []
      no_more = rw none_left

  resize_nil : resize total [] ≡ fill (replicate total false) ps
  resize_nil =
      rw (take_all {A = RpcPacket Descriptor} total [] (omega arith), whole)
        (sym (fill_none total ps (sym complete)))
    where
      whole : total - 0 ≡ total
      whole = omega arith

  module _ (now : ℕ) (m : PacketMerger Descriptor) (i : ℕ) (p : RpcPacket Descriptor)
      (at : get_elem? ps i ≡ some p) where
    is_piece : IsPiece total transaction peer some_pieces i p
    is_piece = numbered_at total transaction peer some_pieces ps 0 i i p (omega arith) numbered at

    -- A piece of the call goes to its slot.
    store_same : (marks : List Bool) → Holds m marks → Holds (store now m p) (set marks i true)
    unfolding store
    store_same marks v =
        let (index, count, _, _, _) = is_piece in
        record {
          first = v.first;
          kept = rw same_call v.kept;
          same_transaction = v.same_transaction;
          same_peer = v.same_peer;
          slots =
              ap (λ b. set (resize p.total_pieces (if b then [] else m.pieces)) p.piece_idx p)
                same_call
              ∙ ap₂ (λ n j. set (resize n m.pieces) j p) count index
              ∙ ap (λ xs. set xs i p) (ap (resize total) v.slots ∙ resize-fill marks v.marks_len)
              ∙ set-fill marks ps i p at;
          marks_len = length-set marks i true ∙ v.marks_len;
        }
      where
        same_call : is_other m.first_piece p ≡ false
        same_call =
            let (_, _, transaction_p, peer_p, _) = is_piece in
            rw v.kept (
              is_other_same v.first p (v.same_transaction ∙ sym transaction_p)
                (v.same_peer ∙ sym peer_p))

    store_other :
        is_other m.first_piece p ≡ true → Holds (store now m p) (set (replicate total false) i true)
    unfolding store
    store_other o =
        let (index, count, transaction_p, peer_p, _) = is_piece in
        record {
          first = p;
          kept = rw o refl;
          same_transaction = transaction_p;
          same_peer = peer_p;
          slots =
              ap (λ b. set (resize p.total_pieces (if b then [] else m.pieces)) p.piece_idx p) o
              ∙ ap₂ (λ n j. set (resize n []) j p) count index
              ∙ ap (λ xs. set xs i p) resize_nil
              ∙ set-fill (replicate total false) ps i p at;
          marks_len = length-set (replicate total false) i true ∙ length-replicate total false;
        }

    -- What `feed` does with a piece that is not malformed.
    feed_stores : i < total → feed now m p ≡ (store now m p, ok (try_merge_pieces (store now m p)))
    unfolding feed
    feed_stores h =
        let (index, count, _, _, named) = is_piece in
        ground (arith, index, count, named, few, some_pieces)

    try_merge_stored :
        (marks : List Bool)
        → Holds (store now m p) marks
        → try_merge_pieces (store now m p) ≡ (if all_set marks then merged ps else none)
    unfolding try_merge_pieces
    try_merge_stored marks v =
        rw (v.kept, v.slots) (merge_slots-fill marks (v.marks_len ∙ sym complete))

  feed_all-Holds :
      (order : List (ℕ × ℕ)) (m : PacketMerger Descriptor) (marks : List Bool)
      → AllPlaces total order
      → Holds m marks
      → feed_all m (arrivals ps order) ≡ replies (merged ps) marks order
  unfolding feed_all replies
  feed_all-Holds [] m marks h v = refl
  feed_all-Holds ((i, now) ∷ order) m marks h v =
      let at : get_elem? ps i ≡ some (get_or ps i default) =
        get_elem?-get_or ps i default (omega (arith, complete, h.0)) in
      let v' = store_same now m i _ at marks v in
      rw (feed_stores now m i _ at h.0, try_merge_stored now m i _ at _ v')
        (ap (◌∷◌ (ok (if all_set (set marks i true) then merged ps else none)))
          (feed_all-Holds order _ _ h.1 v'))

  -- From a merger that holds another call or none, the pieces of a call may come in any order and more
  -- than once: each is answered with the merged packet if by then all have come, and else with none.
  pub feed_all-arrivals :
      (m : PacketMerger Descriptor) (order : List (ℕ × ℕ))
      → IsElsewhere transaction m
      → AllPlaces total order
      → feed_all m (arrivals ps order) ≡ replies (merged ps) (replicate total false) order
  unfolding feed_all replies
  feed_all-arrivals m [] o h = refl
  feed_all-arrivals m ((i, now) ∷ order) o h =
      let at : get_elem? ps i ≡ some (get_or ps i default) =
        get_elem?-get_or ps i default (omega (arith, complete, h.0)) in
      let (_, _, same_transaction, _, _) = is_piece now m i _ at in
      let v' = store_other now m i _ at (elsewhere_other transaction m _ o same_transaction) in
      rw (feed_stores now m i _ at h.0, try_merge_stored now m i _ at _ v')
        (ap (◌∷◌ (ok (if all_set (set (replicate total false) i true) then merged ps else none)))
          (feed_all-Holds order _ _ h.1 v'))

-- The packet that a call's pieces merge into.
abbrev pub whole : {Descriptor : Type 0} → BuildRpcPacketArgs Descriptor → RpcPacket Descriptor
whole args = record (piece_at args 0 (cur_len args.content 0)) {
  total_pieces = 1;
  piece_idx = 0;
  body = args.content;
}

merged_lem :
    {Descriptor : Type 0} (args : BuildRpcPacketArgs Descriptor)
    → 0 < length args.content
    → pieces_of args < 2 ^ 32
    → merged (build_pieces args) ≡ some (whole args)
merged_lem args not_empty small =
    let (same, _, _) = build_pieces_lem args not_empty small in
    let (rest, cons) = build_pieces_cons args not_empty in
    ap merged cons ∙ ap (λ b. some (record (whole args) { body = b })) (ap bodies (sym cons) ∙ same)

-- A call with a content that is not empty and of at most 32 * 1024 pieces, cut and fed to a merger that holds nothing of its
-- transaction, in any order and with repetitions: each piece is answered with none until all have
-- come, and from then on with the first piece's fields and the content that was sent.
pub feed_all-build_pieces :
    {Descriptor : Type 0} (args : BuildRpcPacketArgs Descriptor) (m : PacketMerger Descriptor)
    (order : List (ℕ × ℕ))
    → 0 < length args.content
    → pieces_of args ≤ 32 * 1024
    → IsElsewhere args.transaction_id m
    → AllPlaces (pieces_of args) order
    → feed_all m (arrivals (build_pieces args) order)
      ≡ replies (some (whole args)) (replicate (pieces_of args) false) order
feed_all-build_pieces args m order not_empty few elsewhere places =
    let (same, count, numbered) = build_pieces_lem args not_empty (omega (arith, few)) in
    rw (← merged_lem args not_empty (omega (arith, few))) (
      feed_all-arrivals (build_pieces args) (pieces_of args) args.transaction_id args.from_peer
        (omega (arith, not_empty)) few count numbered m order elsewhere places)

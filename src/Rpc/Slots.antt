-- ===== src/Rpc/Slots.antt =====
-- proto/rpc_impl/packet.rs: the slots of a `PacketMerger` while pieces come in.
use peer_link.Common.{
  ℕ, zero, suc, ◌+◌, ◌<◌, ◌≡◌, refl, ap, Bool, true, false, List, [], ◌∷◌, ◌&&◌, not, arith, length,
  set, get_elem?, replicate, ◌==◌, some, if◌then◌else◌,
}
use peer_link.Rpc.{RpcPacket, default, is_missing, is_none}
use peer_link.Rpc.Split.{IsNumbered}

-- Every piece has come.
unfoldable pub all_set : List Bool → Bool
all_set [] = true
all_set (b ∷ bs) = b && all_set bs

module _ {Descriptor : Type 0} where
  -- The slots when the marked pieces have come.
  abbrev pub fill : List Bool → List (RpcPacket Descriptor) → List (RpcPacket Descriptor)
  fill [] ps = []
  fill (b ∷ bs) [] = []
  fill (b ∷ bs) (p ∷ ps) = (if b then p else default) ∷ fill bs ps

  pub length-fill :
      (bs : List Bool) (ps : List (RpcPacket Descriptor))
      → length bs ≡ length ps
      → length (fill bs ps) ≡ length ps
  length-fill [] ps e = omega arith
  length-fill (b ∷ bs) [] e = omega arith
  length-fill (b ∷ bs) (p ∷ ps) e = omega (arith, length-fill bs ps (omega arith))

  pub set-fill :
      (bs : List Bool) (ps : List (RpcPacket Descriptor)) (i : ℕ) (p : RpcPacket Descriptor)
      → get_elem? ps i ≡ some p
      → set (fill bs ps) i p ≡ fill (set bs i true) ps
  set-fill [] ps i p e = refl
  set-fill (b ∷ bs) [] i p e = cc
  set-fill (b ∷ bs) (q ∷ ps) zero p e = let same : q ≡ p = cc in rw same
  set-fill (b ∷ bs) (q ∷ ps) (suc i) p e =
      ap (◌∷◌ (if b then q else default)) (set-fill bs ps i p e)

  pub fill_all :
      (bs : List Bool) (ps : List (RpcPacket Descriptor))
      → length bs ≡ length ps
      → all_set bs ≡ true
      → fill bs ps ≡ ps
  unfolding all_set
  fill_all [] [] e a = refl
  fill_all [] (p ∷ ps) e a = absurd (omega arith)
  fill_all (b ∷ bs) [] e a = refl
  fill_all (true ∷ bs) (p ∷ ps) e a = ap (◌∷◌ p) (fill_all bs ps (omega arith) a)
  fill_all (false ∷ bs) (p ∷ ps) e a = cc

  pub fill_none :
      (n : ℕ) (ps : List (RpcPacket Descriptor))
      → n ≡ length ps
      → fill (replicate n false) ps ≡ replicate n default
  fill_none zero ps e = refl
  fill_none (suc n) [] e = absurd (omega arith)
  fill_none (suc n) (p ∷ ps) e = ap (◌∷◌ default) (fill_none n ps (omega arith))

  module _ (total transaction peer : ℕ) (some_pieces : 0 < total) where
    pub is_missing-fill :
        (bs : List Bool) (ps : List (RpcPacket Descriptor)) (i : ℕ)
        → length bs ≡ length ps
        → IsNumbered total transaction peer i ps
        → is_missing (fill bs ps) ≡ not (all_set bs)
    unfolding is_missing all_set
    is_missing-fill [] ps i e v = refl
    is_missing-fill (b ∷ bs) [] i e v = absurd (omega arith)
    is_missing-fill (true ∷ bs) (p ∷ ps) i e v =
        ground (arith, v.1, is_missing-fill bs ps (suc i) (omega arith) v.5)
    is_missing-fill (false ∷ bs) (p ∷ ps) i e v = refl

    -- What is known of a piece by its place.
    abbrev pub IsPiece : ℕ → RpcPacket Descriptor → Type 0
    IsPiece i p =
        (p.piece_idx ≡ i)
        × (p.total_pieces ≡ total)
        × (p.transaction_id ≡ transaction)
        × (p.from_peer ≡ peer)
        × ((p.piece_idx == 0 && is_none p.descriptor) ≡ false)

    pub numbered_at :
        (ps : List (RpcPacket Descriptor)) (i j k : ℕ) (p : RpcPacket Descriptor)
        → i + j ≡ k
        → IsNumbered total transaction peer i ps
        → get_elem? ps j ≡ some p
        → IsPiece k p
    numbered_at [] i j k p e v h = cc
    numbered_at (q ∷ ps) i zero k p e v h =
        let same : q ≡ p = cc in
        let here : i ≡ k = omega arith in rw (← same, ← here) (v.0, v.1, v.2, v.3, v.4)
    numbered_at (q ∷ ps) i (suc j) k p e v h = numbered_at ps (suc i) j k p (omega arith) v.5 h

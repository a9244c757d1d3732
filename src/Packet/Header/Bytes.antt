-- ===== src/Packet/Header/Bytes.antt =====
-- tunnel/packet_def.rs: the peer manager's header as bytes.
use mathlib.Core.List.{append_assoc, append-nil}
use peer_link.Common.{
  ℕ, ◌^◌, ◌<◌, ◌≡◌, ◌∙◌, sym, ap, subst, true, [], List, ◌∷◌, ◌++◌, some, arith, take, drop, length,
  take-append, drop-append, drop-drop, length-append, leb,
}
use peer_link.Packet.Crates.{Crates}
use peer_link.Packet.Header.{PeerManagerHeader, as_bytes, of_bytes, from_prefix}

pub record IsInRange (h : PeerManagerHeader) : Type 0 where
  pub from_in : h.from_peer_id < 2 ^ 32
  pub to_in : h.to_peer_id < 2 ^ 32
  pub len_in : h.len < 2 ^ 32

-- Other flags leave a header in range.
pub flags-IsInRange :
    {h h' : PeerManagerHeader} → h' ≡ record h { flags = h'.flags } → IsInRange h → IsInRange h'
flags-IsInRange {h} {h'} e v =
    subst IsInRange (sym e) (record { from_in = v.from_in; to_in = v.to_in; len_in = v.len_in })

module _ (w : Crates) (h : PeerManagerHeader) where
  open w use {u32_new, length-u32_new, u32_get-u32_new}

  pub length-as_bytes : length (as_bytes w h) ≡ 16
  unfolding as_bytes
  length-as_bytes = omega (
    arith,
    length-append (u32_new h.from_peer_id) (
        u32_new h.to_peer_id
        ++ (h.packet_type ∷ h.flags ∷ h.forward_counter ∷ h.reserved ∷ u32_new h.len)),
    length-append (u32_new h.to_peer_id)
        (h.packet_type ∷ h.flags ∷ h.forward_counter ∷ h.reserved ∷ u32_new h.len),
    length-u32_new h.from_peer_id,
    length-u32_new h.to_peer_id,
    length-u32_new h.len,
  )

  module _ (rest : List ℕ) where
    as_bytes_split :
        as_bytes w h ++ rest
        ≡ u32_new h.from_peer_id
          ++ (u32_new h.to_peer_id
              ++ (h.packet_type
                  ∷ h.flags
                  ∷ h.forward_counter
                  ∷ h.reserved
                  ∷ (u32_new h.len ++ rest)))
    unfolding as_bytes
    as_bytes_split = simp append_assoc

    drop_four :
        drop 4 (as_bytes w h ++ rest)
        ≡ u32_new h.to_peer_id
          ++ (h.packet_type ∷ h.flags ∷ h.forward_counter ∷ h.reserved ∷ (u32_new h.len ++ rest))
    drop_four =
        ap (drop 4) as_bytes_split
        ∙ drop-append 4 (u32_new h.from_peer_id) _ (sym (length-u32_new h.from_peer_id))

    drop_eight :
        drop 8 (as_bytes w h ++ rest)
        ≡ h.packet_type ∷ h.flags ∷ h.forward_counter ∷ h.reserved ∷ (u32_new h.len ++ rest)
    drop_eight =
        sym (drop-drop 4 4 8 (as_bytes w h ++ rest) (omega arith))
        ∙ ap (drop 4) drop_four
        ∙ drop-append 4 (u32_new h.to_peer_id) _ (sym (length-u32_new h.to_peer_id))

    drop_twelve : drop 12 (as_bytes w h ++ rest) ≡ u32_new h.len ++ rest
    drop_twelve =
        sym (drop-drop 4 8 12 (as_bytes w h ++ rest) (omega arith)) ∙ ap (drop 4) drop_eight

    -- What the fields are read back from.
    of_bytes-as_bytes : IsInRange h → of_bytes w (as_bytes w h ++ rest) ≡ h
    unfolding of_bytes
    of_bytes-as_bytes v = rw (
      drop_four,
      drop_eight,
      drop_twelve,
      as_bytes_split,
      take-append 4 (u32_new h.from_peer_id) _ (sym (length-u32_new h.from_peer_id)),
      take-append 4 (u32_new h.to_peer_id) _ (sym (length-u32_new h.to_peer_id)),
      take-append 4 (u32_new h.len) _ (sym (length-u32_new h.len)),
      u32_get-u32_new _ v.from_in,
      u32_get-u32_new _ v.to_in,
      u32_get-u32_new _ v.len_in,
    )

  -- A header in range, written before any bytes, is read back from their prefix.
  pub from_prefix-as_bytes :
      (rest : List ℕ) → IsInRange h → from_prefix w (as_bytes w h ++ rest) ≡ some h
  unfolding from_prefix
  from_prefix-as_bytes rest v =
      rw (w.ref_from_prefix_lem 16 (as_bytes w h ++ rest), fits, cut) (ap some whole)
    where
      fits : leb 16 (length (as_bytes w h ++ rest)) ≡ true
      fits = ground (arith, length-append (as_bytes w h) rest, length-as_bytes)

      cut : take 16 (as_bytes w h ++ rest) ≡ as_bytes w h
      cut = take-append 16 (as_bytes w h) rest (sym length-as_bytes)

      whole : of_bytes w (as_bytes w h) ≡ h
      whole = subst (λ b. of_bytes w b ≡ h) (append-nil (as_bytes w h)) (of_bytes-as_bytes [] v)

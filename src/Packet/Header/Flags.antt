-- ===== src/Packet/Header/Flags.antt =====
-- tunnel/packet_def.rs: setting one flag of a header and reading any.
use Prim.Native.Nat.{bit_and, bit_or}
use peer_link.Common.{
  ℕ, ◌-◌, ◌^◌, ◌<◌, ◌≡◌, refl, ap, ◌∙◌, ==_refl, Bool, true, false, ◌&&◌, ◌||◌, arith, ltb, ◌==◌,
  if◌then◌else◌, Exec, done, holds_below, holds_below-at,
}
use peer_link.Packet.Crates.{Crates}
use peer_link.Packet.Header.{
  PeerManagerHeader, is_encrypted, set_encrypted, is_latency_first, set_latency_first, is_exit_node,
  set_exit_node, is_no_proxy, set_no_proxy, is_compressed, set_compressed, is_kcp_src_modified,
  set_kcp_src_modified, encrypted, latency_first, exit_node, no_proxy, compressed, kcp_src_modified,
}

pub data Flag : Type 0 where
  encryption latency exit proxying compression kcp : Flag

abbrev mask : Flag → ℕ
mask encryption = encrypted
mask latency = latency_first
mask exit = exit_node
mask proxying = no_proxy
mask compression = compressed
mask kcp = kcp_src_modified

module _ (w : Crates) where
  abbrev pub read : Flag → PeerManagerHeader → Exec Bool
  read encryption = is_encrypted w
  read latency = is_latency_first w
  read exit = is_exit_node w
  read proxying = is_no_proxy w
  read compression = is_compressed w
  read kcp = is_kcp_src_modified w

  abbrev pub write : Flag → PeerManagerHeader → Bool → Exec PeerManagerHeader
  write encryption = set_encrypted w
  write latency = set_latency_first w
  write exit = set_exit_node w
  write proxying = set_no_proxy w
  write compression = set_compressed w
  write kcp = set_kcp_src_modified w

abbrev beq : Bool → Bool → Bool
beq true b = b
beq false true = false
beq false false = true

abbrev has : ℕ → ℕ → Bool
has bits m = bit_and bits m == m

abbrev after : ℕ → Bool → ℕ → ℕ
after m on bits = if on then bit_or bits m else bit_and bits (255 - m)

abbrev pub index : Flag → ℕ
index encryption = 0
index latency = 1
index exit = 2
index proxying = 3
index compression = 4
index kcp = 5

mask_lem : (f : Flag) → mask f ≡ 2 ^ index f
mask_lem encryption = refl
mask_lem latency = refl
mask_lem exit = refl
mask_lem proxying = refl
mask_lem compression = refl
mask_lem kcp = refl

index-lt : (f : Flag) → index f < 6
index-lt encryption = omega arith
index-lt latency = omega arith
index-lt exit = omega arith
index-lt proxying = omega arith
index-lt compression = omega arith
index-lt kcp = omega arith

-- One byte: the flag that is set reads as it was set, and the others as before.
abbrev fits : Bool → ℕ → ℕ → ℕ → Bool
fits on i j bits =
    beq (has (after (2 ^ i) on bits) (2 ^ j)) (if i == j then on else has bits (2 ^ j))
    && ltb (after (2 ^ i) on bits) 256

table : (on : Bool) → holds_below 6 (λ i. holds_below 6 (λ j. holds_below 256 (fits on i j))) ≡ true
unfolding holds_below
table true = refl
table false = refl

fits_lem : (on : Bool) (i j bits : ℕ) → i < 6 → j < 6 → bits < 256 → fits on i j bits ≡ true
fits_lem on i j bits hi hj hb =
    holds_below-at 256 (fits on i j) bits
      (holds_below-at 6 (λ k. holds_below 256 (fits on i k)) j
        (holds_below-at 6 (λ h. holds_below 6 (λ k. holds_below 256 (fits on h k))) i (table on) hi)
        hj)
      hb

-- Taking a flag away again, where it was not set before.
abbrev undoes : ℕ → ℕ → Bool
undoes i bits = has bits (2 ^ i) || (after (2 ^ i) false (after (2 ^ i) true bits) == bits)

undo_table : holds_below 6 (λ i. holds_below 256 (undoes i)) ≡ true
unfolding holds_below
undo_table = refl

undoes_lem : (i bits : ℕ) → i < 6 → bits < 256 → undoes i bits ≡ true
undoes_lem i bits hi hb =
    holds_below-at 256 (undoes i) bits
      (holds_below-at 6 (λ k. holds_below 256 (undoes k)) i undo_table hi) hb

module _ (w : Crates) (h : PeerManagerHeader) (small : h.flags < 2 ^ 8) where
  write_lem :
      (f : Flag) (on : Bool)
      → write w f h on ≡ done (record h { flags = after (mask f) on h.flags })
  unfolding set_encrypted set_latency_first set_exit_node set_no_proxy set_compressed
      set_kcp_src_modified
  write_lem encryption on = ground (
    arith,
    w.from_bits_lem h.flags small,
    w.insert_lem h.flags encrypted,
    w.remove_lem h.flags encrypted,
  )
  write_lem f on = ground (
    arith,
    w.from_bits_lem h.flags small,
    w.insert_lem h.flags (mask f),
    w.remove_lem h.flags (mask f),
  )

  read_lem : (g : Flag) → read w g h ≡ done (has h.flags (mask g))
  unfolding is_encrypted is_latency_first is_exit_node is_no_proxy is_compressed is_kcp_src_modified
  read_lem encryption =
      ground (arith, w.from_bits_lem h.flags small, w.contains_lem h.flags encrypted)
  read_lem g = ground (arith, w.from_bits_lem h.flags small, w.contains_lem h.flags (mask g))

module _ (w : Crates) (h : PeerManagerHeader) (small : h.flags < 2 ^ 8) where
  module _ (f g : Flag) (on : Bool) where
    checked : fits on (index f) (index g) h.flags ≡ true
    checked = fits_lem on (index f) (index g) h.flags (index-lt f) (index-lt g) small

    after_byte : after (mask f) on h.flags < 2 ^ 8
    after_byte = rw (mask_lem f) (ground (arith, checked))

    abbrev wrote : PeerManagerHeader
    wrote = record h { flags = after (mask f) on h.flags }

    reads : read w g wrote ≡ (if index f == index g then done on else read w g h)
    reads =
        rw (read_lem w wrote after_byte g, read_lem w h small g, mask_lem f, mask_lem g)
          (ground (arith, checked))

    -- Setting a flag of a header whose flags are a byte does not panic, writes no field but the flags, and keeps them a byte; after it
    -- that flag reads as it was set, and each other flag as before.
    pub read-write :
        (h' : PeerManagerHeader) × (write w f h on ≡ done h')
        × (h' ≡ record h { flags = h'.flags })
        × (h'.flags < 2 ^ 8)
        × (read w g h' ≡ (if index f == index g then done on else read w g h))
    read-write = (wrote, write_lem w h small f on, refl, after_byte, reads)

  -- Setting a flag that is not set, and taking it away again, gives the header back.
  pub write-write :
      (f : Flag)
      → read w f h ≡ done false
      → (h' : PeerManagerHeader) × (write w f h true ≡ done h')
        × (h' ≡ record h { flags = h'.flags })
        × (h'.flags < 2 ^ 8)
        × (read w f h' ≡ done true)
        × (write w f h' false ≡ done h)
  write-write f unset =
      let h' : PeerManagerHeader = wrote f f true in
      (
        h',
        write_lem w h small f true,
        refl,
        after_byte f f true,
        reads f f true ∙ rw (==_refl (index f)) refl,
        write_lem w h' (after_byte f f true) f false
            ∙ ap (λ b. done (record h { flags = b })) undone,
      )
    where
      clear : has h.flags (mask f) ≡ false
      clear = cc (read_lem w h small f)

      undone : after (mask f) false (after (mask f) true h.flags) ≡ h.flags
      undone =
          let t = undoes_lem (index f) h.flags (index-lt f) small in
          rw (mask_lem f) (ground (arith, t, clear, mask_lem f))

-- ===== src/Packet/Buffer/Convert.antt =====
-- tunnel/packet_def.rs: changing the tunnel of a packet.
use peer_link.Common.{
  ℕ, zero, suc, ◌+◌, ◌≤◌, ◌≡◌, ◌≢◌, ◌∙◌, refl, sym, ap, List, [], ◌++◌, arith, drop, length,
  length-append, length-drop, drop-append, drop-drop, slice_from_lem, Exec, done, ◌>>=◌,
}
use peer_link.Packet.Crates.{Crates}
use peer_link.Packet.Layout.{
  ZcPacketType, tcp, udp, wg, nic, dummy_tunnel, get_packet_offsets, manager_off,
}
use peer_link.Packet.Header.{from_prefix}
use peer_link.Packet.Buffer.{
  ZcPacket, memory, set_len, new_from_buf, tunnel_payload, copy_converted, peer_manager_header,
  convert_type,
}

length-memory : (uninit : ℕ → ℕ) (start n : ℕ) → length (memory uninit start n) ≡ n
length-memory uninit start zero = refl
length-memory uninit start (suc n) = ap suc (length-memory uninit (suc start) n)

-- A fresh buffer has the length that is set.
pub length-set_len : (uninit : ℕ → ℕ) (n : ℕ) → length (set_len uninit n []) ≡ n
unfolding set_len
length-set_len uninit zero = refl
length-set_len uninit (suc n) =
    ap (λ k. length (memory uninit 0 k)) {y = suc n} (omega arith) ∙ length-memory uninit 0 (suc n)

module _ (w : Crates) (uninit : ℕ → ℕ) (bytes : List ℕ) where
  abbrev packet : ZcPacketType → ZcPacket
  packet t = record { inner = bytes; packet_type = t }

  abbrev rest : ZcPacketType → List ℕ
  rest old = drop (manager_off old) bytes

  tunnel_payload_lem :
      (old : ZcPacketType)
      → manager_off old ≤ length bytes
      → tunnel_payload (packet old) ≡ done (rest old)
  unfolding tunnel_payload
  tunnel_payload_lem old long = slice_from_lem (manager_off old) bytes long

  -- What `r`, the result of a conversion, has of the packet.
  abbrev Carries : ZcPacketType → ZcPacketType → Exec ZcPacket → Type 0
  Carries old target r =
      (q : ZcPacket) × (r ≡ done q)
      × (q.packet_type ≡ target)
      × (tunnel_payload q ≡ tunnel_payload (packet old))

  unmoved : (old : ZcPacketType) → Carries old old (done (packet old))
  unmoved old = (packet old, refl, refl, refl)

  copied :
      (old target : ZcPacketType)
      → manager_off old ≤ length bytes
      → Carries old target (copy_converted uninit target (packet old))
  unfolding copy_converted new_from_buf tunnel_payload
  copied old target long = (
    record { inner = fresh ++ rest old; packet_type = target },
    rw (slice_from_lem (manager_off old) bytes long),
    refl,
    rw
        (
          slice_from_lem (manager_off target) (fresh ++ rest old) fits,
          slice_from_lem (manager_off old) bytes long,
        )
        (ap done (drop-append (manager_off target) fresh _ (sym (length-set_len uninit _)))),
  )
    where
      fresh : List ℕ
      fresh = set_len uninit (manager_off target) []

      fits : manager_off target ≤ length (fresh ++ rest old)
      fits =
          omega (arith, length-append fresh (rest old), length-set_len uninit (manager_off target))

  -- A cut that leaves the new tunnel's header in front.
  cut :
      (old target : ZcPacketType) (at : ℕ)
      → manager_off old ≤ length bytes
      → at + manager_off target ≡ manager_off old
      → Carries old target (w.split_off at bytes >>= λ b. done (new_from_buf b target))
  unfolding new_from_buf tunnel_payload
  cut old target at long e = (
    record { inner = drop at bytes; packet_type = target },
    rw (w.split_off_lem at bytes (omega arith)),
    refl,
    rw
        (
          slice_from_lem (manager_off target) (drop at bytes) (omega (arith, length-drop at bytes)),
          slice_from_lem (manager_off old) bytes long,
        )
        (ap done (drop-drop (manager_off target) at _ bytes (omega arith))),
  )

  converts :
      (old target : ZcPacketType)
      → manager_off old ≤ length bytes
      → target ≢ nic
      → Carries old target (convert_type w uninit target (packet old))
  unfolding convert_type get_packet_offsets
  converts tcp tcp h ne = unmoved tcp
  converts tcp udp h ne = copied tcp udp h
  converts tcp wg h ne = copied tcp wg h
  converts tcp nic h ne = absurd (ne refl)
  converts tcp dummy_tunnel h ne = cut tcp dummy_tunnel 4 h refl
  converts udp tcp h ne = cut udp tcp 4 h refl
  converts udp udp h ne = unmoved udp
  converts udp wg h ne = copied udp wg h
  converts udp nic h ne = absurd (ne refl)
  converts udp dummy_tunnel h ne = cut udp dummy_tunnel 8 h refl
  converts wg tcp h ne = cut wg tcp 16 h refl
  converts wg udp h ne = cut wg udp 12 h refl
  converts wg wg h ne = unmoved wg
  converts wg nic h ne = absurd (ne refl)
  converts wg dummy_tunnel h ne = cut wg dummy_tunnel 20 h refl
  converts nic tcp h ne = cut nic tcp 16 h refl
  converts nic udp h ne = cut nic udp 12 h refl
  converts nic wg h ne = cut nic wg 0 h refl
  converts nic nic h ne = absurd (ne refl)
  converts nic dummy_tunnel h ne = cut nic dummy_tunnel 20 h refl
  converts dummy_tunnel tcp h ne = copied dummy_tunnel tcp h
  converts dummy_tunnel udp h ne = copied dummy_tunnel udp h
  converts dummy_tunnel wg h ne = copied dummy_tunnel wg h
  converts dummy_tunnel nic h ne = absurd (ne refl)
  converts dummy_tunnel dummy_tunnel h ne = unmoved dummy_tunnel

-- A packet that is long enough for its headers can be converted to any tunnel: the result is of that
-- kind, and its peer manager's header and payload are those of the packet.
pub convert_type_lem :
    (w : Crates) (uninit : ℕ → ℕ) (p : ZcPacket) (target : ZcPacketType)
    → manager_off p.packet_type ≤ length p.inner
    → target ≢ nic
    → (q : ZcPacket) × (convert_type w uninit target p ≡ done q)
      × (q.packet_type ≡ target)
      × (tunnel_payload q ≡ tunnel_payload p)
      × (peer_manager_header w q ≡ peer_manager_header w p)
unfolding peer_manager_header tunnel_payload
convert_type_lem w uninit p target long ne =
    let (q, runs, kind, carried) = converts w uninit p.inner p.packet_type target long ne in
    (q, runs, kind, carried, ap (λ r. r >>= λ bytes. done (from_prefix w bytes)) carried)

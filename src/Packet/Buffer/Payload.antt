-- ===== src/Packet/Buffer/Payload.antt =====
-- tunnel/packet_def.rs: writing the payload.
use mathlib.Core.List.{append-nil}
use peer_link.Common.{
  ℕ, ◌+◌, ◌≤◌, ◌≡◌, ◌∙◌, refl, sym, ap, List, [], ◌++◌, arith, take, drop, length, length-append,
  length-take, length-drop, drop-append, slice_from_lem, done, some, take-drop_append,
}
use peer_link.Packet.Crates.{Crates}
use peer_link.Packet.Layout.{payload_off, manager_off, nic}
use peer_link.Packet.Header.{of_bytes}
use peer_link.Packet.Buffer.Fill.{peer_manager_header_lem, payload_off_lem}
use peer_link.Packet.Buffer.{
  ZcPacket, set_len, new_nic_packet, copy_slice, copy_to_payload, payload, new_with_payload,
  peer_manager_header,
}
use peer_link.Packet.Buffer.Convert.{length-set_len}

-- A copy in range.
pub copy_slice_lem :
    (from to : ℕ) (src bytes : List ℕ)
    → from + length src ≡ to
    → to ≤ length bytes
    → copy_slice from to src bytes ≡ done (take from bytes ++ (src ++ drop to bytes))
unfolding copy_slice
copy_slice_lem from to src bytes e h = ground arith

pub length-patch :
    (from to : ℕ) (src bytes : List ℕ)
    → from + length src ≡ to
    → to ≤ length bytes
    → length (take from bytes ++ (src ++ drop to bytes)) ≡ length bytes
length-patch from to src bytes e h = omega (
  arith,
  length-append (take from bytes) (src ++ drop to bytes),
  length-append src (drop to bytes),
  length-take from bytes,
  length-drop to bytes,
)

module _ (p : ZcPacket) (old : List ℕ) (read : payload p ≡ done old)
    (long : payload_off p.packet_type ≤ length p.inner) where
  -- Where the payload stands.
  pub payload_lem : old ≡ drop (payload_off p.packet_type) p.inner
  unfolding payload
  payload_lem = ground (arith, long)

  -- A copy within the payload writes there, and nowhere else.
  pub copy_to_payload_lem :
      (from to : ℕ) (src : List ℕ)
      → from + length src ≡ to
      → to ≤ length old
      → (q : ZcPacket) × (copy_to_payload from to src p ≡ done q)
        × (q.packet_type ≡ p.packet_type)
        × (length q.inner ≡ length p.inner)
        × (payload q ≡ done (take from old ++ (src ++ drop to old)))
  unfolding copy_to_payload
  copy_to_payload_lem from to src e h = (
    record p { inner = take off p.inner ++ new },
    rw (read, copy_slice_lem from to src old e h),
    refl,
    same,
    rw (slice_from_lem off (take off p.inner ++ new) (omega (arith, same)))
        (ap done (drop-append off (take off p.inner) new (omega (arith, length-take off p.inner)))),
  )
    where
      off : ℕ
      off = payload_off p.packet_type

      new : List ℕ
      new = take from old ++ (src ++ drop to old)

      same : length (take off p.inner ++ new) ≡ length p.inner
      same = omega (
        arith,
        length-append (take off p.inner) new,
        length-take off p.inner,
        length-patch from to src old e h,
        ap length payload_lem,
        length-drop off p.inner,
      )

-- A packet is the room in front of its payload, and the payload.
pub length-payload :
    (p : ZcPacket) (old : List ℕ)
    → payload p ≡ done old
    → payload_off p.packet_type ≤ length p.inner
    → length p.inner ≡ payload_off p.packet_type + length old
length-payload p old reads long = omega (
  arith,
  ap length (payload_lem p old reads long),
  length-drop (payload_off p.packet_type) p.inner,
)

-- Another payload behind the same headers.
module _ (w : Crates) (p : ZcPacket) (new : List ℕ)
    (long : payload_off p.packet_type ≤ length p.inner) where
  abbrev pub replaced : ZcPacket
  replaced = record p { inner = take (payload_off p.packet_type) p.inner ++ new }

  pub length-replaced : length replaced.inner ≡ payload_off p.packet_type + length new
  length-replaced = omega (
    arith,
    length-append (take (payload_off p.packet_type) p.inner) new,
    length-take (payload_off p.packet_type) p.inner,
    long,
  )

  pub payload-replaced : payload replaced ≡ done new
  unfolding payload
  payload-replaced =
      rw
        (slice_from_lem (payload_off p.packet_type) replaced.inner (omega (arith, length-replaced)))
        (ap done (
          drop-append (payload_off p.packet_type) (take (payload_off p.packet_type) p.inner) new
            (omega (arith, length-take (payload_off p.packet_type) p.inner, long))))

  pub peer_manager_header-replaced : peer_manager_header w replaced ≡ peer_manager_header w p
  peer_manager_header-replaced =
      peer_manager_header_lem w replaced (omega (arith, length-replaced))
      ∙ ap (λ b. done (some (of_bytes w b)))
          (take-drop_append (manager_off p.packet_type) 16 (payload_off p.packet_type) p.inner new
            (omega (arith, payload_off_lem p.packet_type)) long)
      ∙ sym (peer_manager_header_lem w p long)

module _ (uninit : ℕ → ℕ) (n : ℕ) where
  -- A fresh packet for the network card, with `n` bytes of payload that nobody has written.
  abbrev pub blank : ZcPacket
  blank = record new_nic_packet { inner = set_len uninit (payload_off nic + n) [] }

  abbrev pub blank_payload : List ℕ
  blank_payload = drop (payload_off nic) (set_len uninit (payload_off nic + n) [])

  pub payload-blank : payload blank ≡ done blank_payload
  unfolding payload new_nic_packet
  payload-blank = slice_from_lem _ _ (omega (arith, length-set_len uninit (payload_off nic + n)))

  pub length-blank_payload : length blank_payload ≡ n
  length-blank_payload = omega (
    arith,
    length-drop (payload_off nic) (set_len uninit (payload_off nic + n) []),
    length-set_len uninit (payload_off nic + n),
  )

  pub blank_long : payload_off blank.packet_type ≤ length blank.inner
  unfolding new_nic_packet
  blank_long = omega (arith, length-set_len uninit (payload_off nic + n))

pub drop_all : (n : ℕ) (xs : List ℕ) → n ≡ length xs → drop n xs ≡ []
drop_all n xs e = ap (drop n) (sym (append-nil xs)) ∙ drop-append n xs [] e

-- A packet that is built from bytes has them as its payload, behind room for any tunnel's header.
pub new_with_payload_lem :
    (uninit : ℕ → ℕ) (bytes : List ℕ)
    → (q : ZcPacket) × (new_with_payload uninit bytes ≡ done q)
      × (q.packet_type ≡ nic)
      × (length q.inner ≡ payload_off nic + length bytes)
      × (payload q ≡ done bytes)
unfolding new_with_payload
new_with_payload_lem uninit bytes =
    let (q, runs, kind, same, read) =
      copy_to_payload_lem (blank uninit n) (blank_payload uninit n) (payload-blank uninit n)
        (blank_long uninit n) 0 n bytes (omega arith)
        (omega (arith, length-blank_payload uninit n)) in
    (q, runs, kind, same ∙ length-set_len uninit (payload_off nic + n), read ∙ ap done whole)
  where
    n : ℕ
    n = length bytes

    whole : bytes ++ drop n (blank_payload uninit n) ≡ bytes
    whole =
        ap (◌++◌ bytes) (drop_all n (blank_payload uninit n) (sym (length-blank_payload uninit n)))
        ∙ append-nil bytes

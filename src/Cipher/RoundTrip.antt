-- ===== src/Cipher/RoundTrip.antt =====
-- peers/encrypt/xor_cipher.rs: decryption undoes encryption.
use Prim.Native.Nat.{bit_xor}
use peer_link.Common.{
  ℕ, ◌+◌, ◌%◌, ◌^◌, ◌≤◌, ◌<◌, ◌≡◌, ◌∙◌, refl, sym, ap, ap₂, Bool, true, false, List, [], ◌∷◌, some,
  arith, length, get_or, ==_iff, ◌==◌, holds_below, holds_below-at, done, ◌>>=◌,
}
use peer_link.Packet.Crates.{Crates}
use peer_link.Packet.Layout.{payload_off}
use peer_link.Packet.Header.{PeerManagerHeader, is_encrypted, set_encrypted}
use peer_link.Packet.Header.Bytes.{IsInRange, flags-IsInRange}
use peer_link.Packet.Header.Flags.{encryption, write-write}
use peer_link.Packet.Buffer.{ZcPacket, payload, mut_payload, peer_manager_header}
use peer_link.Packet.Buffer.Fill.{
  stored, stored-IsInRange, peer_manager_header_lem, mut_peer_manager_header_lem,
}
use peer_link.Packet.Buffer.Payload.{
  length-payload, replaced, payload-replaced, length-replaced, peer_manager_header-replaced,
}
use peer_link.Cipher.{xor_from, xor_data, mark_encrypted, encrypt, decrypt}

-- Every element is a byte.
abbrev pub AllBytes : List ℕ → Type 0
AllBytes [] = Unit {0}
AllBytes (x ∷ xs) = (x < 2 ^ 8) × AllBytes xs

xor_table : holds_below 256 (λ k. holds_below 256 (λ x. bit_xor (bit_xor x k) k == x)) ≡ true
unfolding holds_below
xor_table = refl

xor_twice : (x k : ℕ) → x < 2 ^ 8 → k < 2 ^ 8 → bit_xor (bit_xor x k) k ≡ x
xor_twice x k hx hk = (==_iff _ x).0 (
    holds_below-at 256 _ x
      (holds_below-at 256 (λ m. holds_below 256 (λ y. bit_xor (bit_xor y m) m == y)) k xor_table hk)
      hx)

AllBytes-get_or : (key : List ℕ) (i : ℕ) → AllBytes key → get_or key i 0 < 2 ^ 8
AllBytes-get_or [] i h = omega arith
AllBytes-get_or (k ∷ ks) Prim.Native.Nat.zero h = h.0
AllBytes-get_or (k ∷ ks) (Prim.Native.Nat.suc i) h = AllBytes-get_or ks i h.1

xor_from_twice :
    (key : List ℕ) (i : ℕ) (xs : List ℕ)
    → AllBytes key
    → AllBytes xs
    → xor_from key i (xor_from key i xs) ≡ xs
unfolding xor_from
xor_from_twice key i [] hk hx = refl
xor_from_twice key i (x ∷ xs) hk hx =
    ap₂ ◌∷◌ (xor_twice x (get_or key (i % length key) 0) hx.0 (AllBytes-get_or key _ hk))
      (xor_from_twice key (i + 1) xs hk hx.1)

length-xor_from : (key : List ℕ) (i : ℕ) (xs : List ℕ) → length (xor_from key i xs) ≡ length xs
unfolding xor_from
length-xor_from key i [] = refl
length-xor_from key i (x ∷ xs) = omega (arith, length-xor_from key (i + 1) xs)

xor_data_twice :
    (key xs : List ℕ) → AllBytes key → AllBytes xs → xor_data key (xor_data key xs) ≡ xs
unfolding xor_data
xor_data_twice key xs hk hx = xor_from_twice key 0 xs hk hx

length-xor_data : (key xs : List ℕ) → length (xor_data key xs) ≡ length xs
unfolding xor_data
length-xor_data key xs = length-xor_from key 0 xs

module _ (w : Crates) (p : ZcPacket) (old : List ℕ) (hdr h' : PeerManagerHeader) (on : Bool)
    (long : payload_off p.packet_type ≤ length p.inner) (reads : payload p ≡ done old)
    (found : peer_manager_header w p ≡ done (some hdr)) (sets : set_encrypted w hdr on ≡ done h')
    (v : IsInRange h') where
  -- The step that both directions share: another payload, then the mark in the header.
  recode :
      (write : List ℕ → List ℕ)
      → (r : ZcPacket) × ((mut_payload write p >>= λ q. mark_encrypted w on q) ≡ done r)
        × (r.packet_type ≡ p.packet_type)
        × (length r.inner ≡ payload_off p.packet_type + length (write old))
        × (peer_manager_header w r ≡ done (some h'))
        × (payload r ≡ done (write old))
  unfolding mut_payload mark_encrypted
  recode write =
      let q : ZcPacket = replaced w p (write old) long in
      let q_len = length-replaced w p (write old) long in
      let (r, runs, kind, same, header, body) =
        mut_peer_manager_header_lem w q (omega (arith, q_len)) (λ _. h') v in
      (
        r,
        rw (reads, peer_manager_header-replaced w p (write old) long, found, sets) runs,
        kind,
        same ∙ q_len,
        header,
        body ∙ payload-replaced w p (write old) long,
      )

module _ (w : Crates) (key : List ℕ) (p : ZcPacket) (old : List ℕ)
    (long : payload_off p.packet_type ≤ length p.inner) (reads : payload p ≡ done old)
    (key_bytes : AllBytes key) (old_bytes : AllBytes old) (flags_byte : (stored w p).flags < 2 ^ 8)
    (plain : is_encrypted w (stored w p) ≡ done false) where
  -- A packet of bytes in the clear, long enough for its headers, encrypted and decrypted by one key of
  -- bytes: the encrypted packet is marked
  -- and as long, its payload that of the packet under `xor_data`; the decrypted one has the kind, the
  -- length, the header and the payload of the packet.
  pub decrypt-encrypt :
      (q r : ZcPacket) × (hdr : PeerManagerHeader) × (encrypt w key p ≡ done q)
      × (peer_manager_header w q ≡ done (some hdr))
      × (is_encrypted w hdr ≡ done true)
      × (payload q ≡ done (xor_data key old))
      × (length q.inner ≡ length p.inner)
      × (decrypt w key q ≡ done r)
      × (r.packet_type ≡ p.packet_type)
      × (length r.inner ≡ length p.inner)
      × (peer_manager_header w r ≡ peer_manager_header w p)
      × (payload r ≡ payload p)
  unfolding encrypt decrypt
  decrypt-encrypt =
      let found = peer_manager_header_lem w p long in
      let (h', sets, same, byte, marked, unsets) =
        write-write w (stored w p) flags_byte encryption plain in
      let (q, runs_q, kind_q, len_q, header_q, body_q) =
        recode w p old (stored w p) h' true long reads found sets
          (flags-IsInRange same (stored-IsInRange w p)) (xor_data key) in
      let long_q : payload_off q.packet_type ≤ length q.inner =
        omega (arith, len_q, ap payload_off kind_q) in
      let (r, runs_r, kind_r, len_r, header_r, body_r) =
        recode w q (xor_data key old) h' (stored w p) false long_q body_q header_q unsets
          (stored-IsInRange w p) (xor_data key) in
      (
        q,
        r,
        h',
        rw (found, plain) runs_q,
        header_q,
        marked,
        body_q,
        len_q ∙ whole,
        rw (header_q, marked) runs_r,
        kind_r ∙ kind_q,
        len_r
            ∙ ap (λ t. payload_off t + length (xor_data key (xor_data key old))) kind_q
            ∙ ap (λ xs. payload_off p.packet_type + length xs) back
            ∙ sym (length-payload p old reads long),
        header_r ∙ sym found,
        body_r ∙ ap done back ∙ sym reads,
      )
    where
      back : xor_data key (xor_data key old) ≡ old
      back = xor_data_twice key old key_bytes old_bytes

      whole : payload_off p.packet_type + length (xor_data key old) ≡ length p.inner
      whole = omega (arith, length-xor_data key old, length-payload p old reads long)

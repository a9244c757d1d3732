-- ===== src/Cipher.antt =====
-- peers/encrypt: the ciphers that packets go through. `XorCipher` is modelled whole, `NullCipher` too;
-- the others only call their crates.
mod RoundTrip
mod Tests
use Prim.Native.Nat.{bit_xor}
use peer_link.Common.{
  ℕ, ◌+◌, ◌%◌, List, [], ◌∷◌, length, get_or, Bool, true, false, Exec, done, panic, ◌>>=◌, unwrap,
  if◌then◌else◌,
}
use peer_link.Packet.Crates.{Crates}
use peer_link.Packet.Header.{is_encrypted, set_encrypted}
use peer_link.Packet.Buffer.{ZcPacket, mut_payload, peer_manager_header, mut_peer_manager_header}

-- `XorCipher::new` panics on an empty key; `key` is what it keeps.
unfoldable pub new : List ℕ → Exec (List ℕ)
new [] = panic
new (k ∷ ks) = done (k ∷ ks)

-- The byte at index `i` meets the key's byte at `i % key.len()`.
unfoldable pub xor_from : List ℕ → ℕ → List ℕ → List ℕ
xor_from key i [] = []
xor_from key i (byte ∷ rest) =
    bit_xor byte (get_or key (i % length key) 0) ∷ xor_from key (i + 1) rest

-- For a key that is not empty, as `XorCipher::new` takes it.
unfoldable pub xor_data : List ℕ → List ℕ → List ℕ
unfolding xor_from
xor_data key = xor_from key 0

-- `Encryptor::encrypt` and `decrypt`, whose errors are `DecryptionFailed` in `NullCipher` only.
pub data Encrypted : Type 0 where
  ok : ZcPacket → Encrypted
  decryption_failed : Encrypted

module _ (w : Crates) where
  -- `zc_packet.mut_peer_manager_header().unwrap().set_encrypted(on)`
  unfoldable pub mark_encrypted : Bool → ZcPacket → Exec ZcPacket
  mark_encrypted on p = peer_manager_header w p >>= λ found. unwrap found >>= λ hdr.
      set_encrypted w hdr on >>= λ marked. mut_peer_manager_header w (λ _. marked) p

  unfoldable pub encrypt : List ℕ → ZcPacket → Exec ZcPacket
  encrypt key p = peer_manager_header w p >>= λ found. unwrap found >>= λ hdr.
      is_encrypted w hdr >>= λ already.
      if already then done p else (mut_payload (xor_data key) p >>= λ q. mark_encrypted true q)

  unfoldable pub decrypt : List ℕ → ZcPacket → Exec ZcPacket
  decrypt key p = peer_manager_header w p >>= λ found. unwrap found >>= λ hdr.
      is_encrypted w hdr >>= λ already.
      if already then (mut_payload (xor_data key) p >>= λ q. mark_encrypted false q) else done p

  unfoldable pub null_encrypt : ZcPacket → Encrypted
  null_encrypt p = ok p

  unfoldable pub null_decrypt : ZcPacket → Exec Encrypted
  null_decrypt p = peer_manager_header w p >>= λ found. unwrap found >>= λ hdr.
      is_encrypted w hdr >>= λ already. if already then done decryption_failed else done (ok p)

-- ===== src/Cipher/Tests.antt =====
-- Packets in the clear and encrypted, at concrete inputs.
use peer_link.Common.{ℕ, ◌≡◌, refl, true, List, [], ◌∷◌, some, length, done, panic, arith}
use peer_link.Packet.Layout.{tcp, get_packet_offsets}
use peer_link.Packet.Header.{PeerManagerHeader, is_encrypted, set_encrypted, of_bytes}
use peer_link.Packet.Buffer.{
  ZcPacket, payload, mut_payload, peer_manager_header, mut_peer_manager_header,
}
use peer_link.Packet.Samples.{little_endian}
use peer_link.Cipher.{
  new, xor_data, mark_encrypted, encrypt, decrypt, decryption_failed, null_decrypt,
}
use peer_link.Cipher.RoundTrip.{decrypt-encrypt}

-- A packet of a TCP tunnel, from peer 1 to peer 2, with three bytes of payload.
abbrev clear : ZcPacket
clear = record {
  inner =
      19 ∷ 0 ∷ 0 ∷ 0 ∷ 1 ∷ 0 ∷ 0 ∷ 0 ∷ 2 ∷ 0 ∷ 0 ∷ 0 ∷ 1 ∷ 4 ∷ 1 ∷ 0 ∷ 3 ∷ 0 ∷ 0 ∷ 0 ∷ 10 ∷ 20 ∷ 30
      ∷ [];
  packet_type = tcp;
}

abbrev key : List ℕ
key = 1 ∷ 255 ∷ []

-- The same packet under the key, with its flag.
abbrev secret : ZcPacket
secret = record {
  inner =
      19 ∷ 0 ∷ 0 ∷ 0 ∷ 1 ∷ 0 ∷ 0 ∷ 0 ∷ 2 ∷ 0 ∷ 0 ∷ 0 ∷ 1 ∷ 5 ∷ 1 ∷ 0 ∷ 3 ∷ 0 ∷ 0 ∷ 0 ∷ 11 ∷ 235 ∷ 31
      ∷ [];
  packet_type = tcp;
}

empty_key_panics : new [] ≡ panic
unfolding new
empty_key_panics = refl

encrypt_runs : encrypt little_endian key clear ≡ done secret
unfolding encrypt mark_encrypted mut_payload mut_peer_manager_header is_encrypted set_encrypted
    xor_data
encrypt_runs = refl

null_decrypt_refuses : null_decrypt little_endian secret ≡ done decryption_failed
unfolding null_decrypt peer_manager_header is_encrypted
null_decrypt_refuses = refl

decrypt-encrypt_example :
    (q r : ZcPacket) × (hdr : PeerManagerHeader) × (encrypt little_endian key clear ≡ done q)
    × (peer_manager_header little_endian q ≡ done (some hdr))
    × (is_encrypted little_endian hdr ≡ done true)
    × (payload q ≡ done (xor_data key (10 ∷ 20 ∷ 30 ∷ [])))
    × (length q.inner ≡ 23)
    × (decrypt little_endian key q ≡ done r)
    × (r.packet_type ≡ tcp)
    × (length r.inner ≡ 23)
    × (peer_manager_header little_endian r ≡ peer_manager_header little_endian clear)
    × (payload r ≡ payload clear)
unfolding get_packet_offsets payload of_bytes is_encrypted
decrypt-encrypt_example =
    decrypt-encrypt little_endian key clear (10 ∷ 20 ∷ 30 ∷ []) (omega arith) refl (omega arith)
      (omega arith) (omega arith) refl

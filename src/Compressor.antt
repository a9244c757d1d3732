-- ===== src/Compressor.antt =====
-- common/compressor.rs: the payload of a packet, compressed with a tail of one byte that names the
-- algorithm. zstd is a parameter.
pub mod Attempts
pub mod RoundTrip
mod Tests
use peer_link.Common.{
  ℕ, zero, suc, ◌+◌, ◌-◌, ◌*◌, ◌^◌, ◌≡◌, Bool, true, false, List, [], ◌∷◌, ◌++◌, ◌&&◌, Option, none,
  some, take, length, get_or, leb, ltb, ◌==◌, if◌then◌else◌, Exec, done, ◌>>=◌, unwrap,
}
use peer_link.Packet.Crates.{Crates}
use peer_link.Packet.Layout.{payload_off}
use peer_link.Packet.Header.{is_compressed, set_compressed}
use peer_link.Packet.Buffer.{
  ZcPacket, payload, truncate, extend, peer_manager_header, mut_peer_manager_header,
}

-- What zstd's `Decompressor::decompress` returns: the bytes, "buffer is too small", another error.
pub data Decompressed : Type 0 where
  buf : List ℕ → Decompressed
  too_small : Decompressed
  failed : Decompressed

-- zstd's bulk functions: what is decompressed is what was compressed, if the capacity is enough.
pub record Zstd : Type 0 where
  pub compress : List ℕ → Option (List ℕ)
  pub decompress : List ℕ → (capacity : ℕ) → Decompressed
  pub decompress-compress :
      (bytes packed : List ℕ) (capacity : ℕ)
      → compress bytes ≡ some packed
      → decompress packed capacity ≡ (if leb (length bytes) capacity then buf bytes else too_small)

pub data CompressorAlgo : Type 0 where
  none_algo : CompressorAlgo
  zstd_default : CompressorAlgo

-- `algo as u8`
abbrev pub algo_byte : CompressorAlgo → ℕ
algo_byte none_algo = 0
algo_byte zstd_default = 1

-- `CompressorTail::get_algo`
unfoldable pub get_algo : ℕ → Option CompressorAlgo
get_algo algo = if algo == 1 then some zstd_default else none

abbrev pub compressor_tail_size : ℕ
compressor_tail_size = 1

pub data Error : Type 0 where
  failed_to_compress packet_too_short unknown_algo failed_to_decompress length_mismatch : Error

pub data Result (A : Type 0) : Type 0 where
  ok : A → Result A
  err : Error → Result A

module _ (zstd : Zstd) where
  unfoldable pub compress_raw : CompressorAlgo → List ℕ → Result (List ℕ)
  compress_raw none_algo bytes = ok bytes
  compress_raw zstd_default bytes = elim (zstd.compress bytes) [
    | some packed ↦ ok packed
    | none ↦ err failed_to_compress
  ]

  -- The size of the buffer in round `i`.
  unfoldable pub buffer_len : ℕ → List ℕ → ℕ
  buffer_len i bytes =
      if i == 5 && ltb (length bytes * 2 ^ i) (64 * 1024) then 64 * 1024 else length bytes * 2 ^ i

  -- The rounds from `i` on.
  unfoldable pub attempts : (rounds i : ℕ) → List ℕ → Result (List ℕ)
  attempts zero i bytes = err failed_to_decompress
  attempts (suc rounds) i bytes =
      let rest = attempts rounds (i + 1) bytes in
      elim (zstd.decompress bytes (buffer_len i bytes)) [
        | buf plain ↦ ok plain
        | too_small ↦ rest
        | failed ↦ err failed_to_decompress
      ]

  unfoldable pub decompress_raw : CompressorAlgo → List ℕ → Result (List ℕ)
  unfolding attempts
  decompress_raw none_algo bytes = ok bytes
  decompress_raw zstd_default bytes = attempts 5 1 bytes

  module _ (w : Crates) where
    -- `zc_packet.mut_peer_manager_header().unwrap().set_compressed(on)`
    unfoldable pub mark_compressed : Bool → ZcPacket → Exec ZcPacket
    mark_compressed on p = peer_manager_header w p >>= λ found. unwrap found >>= λ hdr.
        set_compressed w hdr on >>= λ marked. mut_peer_manager_header w (λ _. marked) p

    -- The packet whose payload is `packed`, if that is shorter than what the header says.
    unfoldable pub replace_compressed : CompressorAlgo → ℕ → List ℕ → ZcPacket → Exec ZcPacket
    unfolding mark_compressed truncate extend
    replace_compressed algo len packed p =
        if ltb len (length packed + compressor_tail_size)
        then done p
        else (mark_compressed true p >>= λ q.
            done (
              extend (algo_byte algo ∷ [])
                (extend packed (truncate (payload_off q.packet_type) q))))

    unfoldable pub with_compressed : ℕ → ZcPacket → Result (List ℕ) → Exec (Result ZcPacket)
    with_compressed len p (err e) = done (err e)
    with_compressed len p (ok packed) =
        replace_compressed zstd_default len packed p >>= λ q. done (ok q)

    unfoldable pub compress : CompressorAlgo → ZcPacket → Exec (Result ZcPacket)
    compress none_algo p = done (ok p)
    compress zstd_default p = peer_manager_header w p >>= λ found. unwrap found >>= λ hdr.
        is_compressed w hdr >>= λ already.
        if already
        then done (ok p)
        else (payload p >>= λ bytes. with_compressed hdr.len p (compress_raw zstd_default bytes))

    -- The packet whose payload is `plain`, if that is as long as the header says.
    unfoldable pub replace_decompressed : ℕ → List ℕ → ZcPacket → Exec (Result ZcPacket)
    unfolding mark_compressed truncate extend
    replace_decompressed len plain p =
        if length plain == len
        then (mark_compressed false p >>= λ q.
            done (ok (extend plain (truncate (payload_off q.packet_type) q))))
        else done (err length_mismatch)

    unfoldable pub with_decompressed : ℕ → ZcPacket → Result (List ℕ) → Exec (Result ZcPacket)
    with_decompressed len p (err e) = done (err e)
    with_decompressed len p (ok plain) = replace_decompressed len plain p

    unfoldable pub with_algo :
        ℕ → List ℕ → ZcPacket → Option CompressorAlgo → Exec (Result ZcPacket)
    unfolding with_decompressed
    with_algo len text p none = done (err unknown_algo)
    with_algo len text p (some algo) = with_decompressed len p (decompress_raw algo text)

    unfoldable pub decompress_payload : ℕ → List ℕ → ZcPacket → Exec (Result ZcPacket)
    unfolding get_algo with_algo
    decompress_payload len bytes p =
        if ltb (length bytes) compressor_tail_size
        then done (err packet_too_short)
        else (unwrap (w.ref_from_suffix compressor_tail_size bytes) >>= λ tail.
            with_algo len (take (length bytes - compressor_tail_size) bytes) p
              (get_algo (get_or tail 0 0)))

    unfoldable pub decompress : ZcPacket → Exec (Result ZcPacket)
    unfolding decompress_payload
    decompress p = peer_manager_header w p >>= λ found. unwrap found >>= λ hdr.
        is_compressed w hdr >>= λ marked.
        if marked then (payload p >>= λ bytes. decompress_payload hdr.len bytes p) else done (ok p)

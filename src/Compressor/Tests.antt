-- ===== src/Compressor/Tests.antt =====
-- common/compressor.rs: a compressor of zeros in the place of zstd, and packets that it shortens.
use peer_link.Common.{
  ◌<◌, ◌≤◌, leb, length, ◌*◌, ℕ, zero, suc, ◌≡◌, ◌⊎◌, refl, ap, Bool, true, List, [], ◌∷◌, Option,
  some, replicate, length, leb, ◌==◌, ◌&&◌, if◌then◌else◌, arith, done, inl, inr, Bool-cases,
}
use peer_link.Packet.Layout.{tcp, get_packet_offsets}
use peer_link.Packet.Header.{is_compressed, set_compressed, of_bytes}
use peer_link.Packet.Buffer.{ZcPacket, payload, peer_manager_header, mut_peer_manager_header}
use peer_link.Packet.Samples.{little_endian}
use peer_link.Compressor.{
  Zstd, Decompressed, buf, too_small, failed, Result, ok, err, zstd_default, failed_to_compress,
  failed_to_decompress, compress, decompress, decompress_raw,
}
use peer_link.Compressor.Attempts.{decompress_raw-compress}
use peer_link.Compressor.RoundTrip.{IsShorter, decompress-compress_packet}
use peer_link.Rpc.Content.{Sent, zstd_pb, decompress_packet-compress_packet}

abbrev all_zero : List ℕ → Bool
all_zero [] = true
all_zero (x ∷ xs) = x == 0 && all_zero xs

abbrev pack : List ℕ → Option (List ℕ)
pack bytes = if all_zero bytes then some (0 ∷ length bytes ∷ []) else some (1 ∷ bytes)

abbrev within : ℕ → List ℕ → Decompressed
within capacity bytes = if leb (length bytes) capacity then buf bytes else too_small

abbrev unpack : List ℕ → ℕ → Decompressed
unpack (zero ∷ n ∷ []) capacity = within capacity (replicate n 0)
unpack (suc _ ∷ bytes) capacity = within capacity bytes
unpack _ capacity = failed

all_zero_lem : (bytes : List ℕ) → all_zero bytes ≡ true → replicate (length bytes) 0 ≡ bytes
all_zero_lem [] e = refl
all_zero_lem (x ∷ xs) e = ground (arith, all_zero_lem xs)

unpack-pack :
    (bytes packed : List ℕ) (capacity : ℕ)
    → pack bytes ≡ some packed
    → unpack packed capacity ≡ within capacity bytes
unpack-pack bytes packed capacity e = elim (Bool-cases (all_zero bytes)) [
  | inl zeros ↦
      let f : packed ≡ 0 ∷ length bytes ∷ [] = ground (arith, e, zeros) in
      rw f (ap (within capacity) (all_zero_lem bytes zeros))
  | inr other ↦ let f : packed ≡ 1 ∷ bytes = ground (arith, e, other) in rw f refl
]

abbrev zeros : Zstd
zeros = record { compress = pack; decompress = unpack; decompress-compress = unpack-pack }

-- A packet of a TCP tunnel with six zeros as payload, and their length in its header.
abbrev plain : ZcPacket
plain = record {
  inner =
      26 ∷ 0 ∷ 0 ∷ 0 ∷ 1 ∷ 0 ∷ 0 ∷ 0 ∷ 2 ∷ 0 ∷ 0 ∷ 0 ∷ 1 ∷ 4 ∷ 1 ∷ 0 ∷ 6 ∷ 0 ∷ 0 ∷ 0 ∷ 0 ∷ 0 ∷ 0 ∷ 0
      ∷ 0 ∷ 0 ∷ [];
  packet_type = tcp;
}

-- Its payload is packed to two numbers, and the tail follows.
abbrev short : ZcPacket
short = record {
  inner =
      26 ∷ 0 ∷ 0 ∷ 0 ∷ 1 ∷ 0 ∷ 0 ∷ 0 ∷ 2 ∷ 0 ∷ 0 ∷ 0 ∷ 1 ∷ 20 ∷ 1 ∷ 0 ∷ 6 ∷ 0 ∷ 0 ∷ 0 ∷ 0 ∷ 6 ∷ 1
      ∷ [];
  packet_type = tcp;
}

compress_runs : compress zeros little_endian zstd_default plain ≡ done (ok short)
unfolding compress peer_manager_header is_compressed payload peer_link.Compressor.with_compressed
    peer_link.Compressor.compress_raw peer_link.Compressor.replace_compressed set_compressed
    mut_peer_manager_header
compress_runs = refl

decompress_runs : decompress zeros little_endian short ≡ done (ok plain)
unfolding decompress peer_manager_header is_compressed payload
    peer_link.Compressor.decompress_payload peer_link.Compressor.decompress_raw
    peer_link.Compressor.buffer_len peer_link.Compressor.replace_decompressed set_compressed
    mut_peer_manager_header
decompress_runs = refl

decompress-compress_packet_example :
    ((6 < 3) × (compress zeros little_endian zstd_default plain ≡ done (ok plain)))
    ⊎ ((3 ≤ 6)
        × (q : ZcPacket) × (compress zeros little_endian zstd_default plain ≡ done (ok q))
        × IsShorter zeros little_endian (0 ∷ 6 ∷ []) plain q)
unfolding get_packet_offsets payload of_bytes is_compressed
decompress-compress_packet_example =
    decompress-compress_packet zeros little_endian plain (replicate 6 0) (omega arith) refl
      (omega arith) refl refl (omega arith)

decompress_packet-compress_packet_example : Sent zeros zstd_pb (replicate 70000 0)
decompress_packet-compress_packet_example =
    decompress_packet-compress_packet zeros zstd_pb (replicate 70000 0)

abbrev bytes : List ℕ
bytes = 5 ∷ 6 ∷ []

abbrev packed : List ℕ
packed = 1 ∷ 5 ∷ 6 ∷ []

decompress_raw-compress_example : decompress_raw zeros zstd_default packed ≡ (
    if leb (length bytes) (64 * 1024)
    then ok bytes
    else if leb (length bytes) (32 * length packed)
    then ok bytes
    else err failed_to_decompress)
decompress_raw-compress_example = decompress_raw-compress zeros bytes packed refl

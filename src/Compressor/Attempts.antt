-- ===== src/Compressor/Attempts.antt =====
-- common/compressor.rs: the rounds of decompression, with ever larger buffers.
use peer_link.Common.{
  ℕ, suc, ◌+◌, ◌*◌, ◌≡◌, List, some, length, leb, if◌then◌else◌, arith, Bool-cases, inl, inr, refl,
}
use peer_link.Compressor.{
  Zstd, ok, err, failed_to_decompress, zstd_default, buffer_len, attempts, decompress_raw,
}

module _ (zstd : Zstd) (plain packed : List ℕ)
    (compressed : zstd.compress plain ≡ some packed) where
  attempts_lem :
      (rounds i : ℕ)
      → attempts zstd (suc rounds) i packed ≡ (
          if leb (length plain) (buffer_len zstd i packed)
          then ok plain
          else attempts zstd rounds (i + 1) packed)
  unfolding attempts
  attempts_lem rounds i = elim (Bool-cases (leb (length plain) (buffer_len zstd i packed))) [
    | inl fits ↦
        rw
          (
            attempts,
            zstd.decompress-compress plain packed (buffer_len zstd i packed) compressed,
            fits,
          )
          refl
    | inr small ↦
        rw
          (
            attempts,
            zstd.decompress-compress plain packed (buffer_len zstd i packed) compressed,
            small,
          )
          refl
  ]

  no_rounds : (i : ℕ) → attempts zstd 0 i packed ≡ err failed_to_decompress
  unfolding attempts
  no_rounds i = refl

  -- What compression gives comes back out of `decompress_raw` exactly if the plain bytes fit 64 KiB, or 32
  -- times the compressed ones: beyond that, all rounds find their buffer too small.
  pub decompress_raw-compress : decompress_raw zstd zstd_default packed ≡ (
      if leb (length plain) (64 * 1024)
      then ok plain
      else if leb (length plain) (32 * length packed)
      then ok plain
      else err failed_to_decompress)
  unfolding decompress_raw buffer_len
  decompress_raw-compress = ground (
    arith,
    attempts_lem 4 1,
    attempts_lem 3 2,
    attempts_lem 2 3,
    attempts_lem 1 4,
    attempts_lem 0 5,
    no_rounds 6,
  )

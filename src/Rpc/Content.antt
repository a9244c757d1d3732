-- ===== src/Rpc/Content.antt =====
-- proto/rpc_impl/packet.rs: the content of a call, compressed by what the other side accepts.
use peer_link.Common.{
  ℕ, ◌*◌, ◌≤◌, ◌<◌, ◌≡◌, ◌⊎◌, ◌∙◌, refl, ap, List, Option, none, some, length, leb, if◌then◌else◌,
  arith, inl, inr, Bool-cases,
}
use peer_link.Compressor.{
  Zstd, CompressorAlgo, none_algo, zstd_default, Result, ok, err, Error, failed_to_compress,
  failed_to_decompress, compress_raw, decompress_raw,
}
use peer_link.Compressor.Attempts.{decompress_raw-compress}

-- `CompressionAlgoPb`
pub data CompressionAlgoPb : Type 0 where
  invalid_pb : CompressionAlgoPb
  none_pb : CompressionAlgoPb
  zstd_pb : CompressionAlgoPb

-- `TryFrom<CompressionAlgoPb> for CompressorAlgo`, and the other way.
unfoldable pub to_algo : CompressionAlgoPb → Option CompressorAlgo
to_algo invalid_pb = none
to_algo none_pb = some none_algo
to_algo zstd_pb = some zstd_default

unfoldable pub of_algo : CompressorAlgo → CompressionAlgoPb
of_algo none_algo = none_pb
of_algo zstd_default = zstd_pb

-- The content and its algorithm, or what could not be done; `invalid_algo` is a failed conversion.
pub data Content (A : Type 0) : Type 0 where
  content : A → Content A
  refused : Error → Content A
  invalid_algo : Content A

abbrev pub unwrap_or_none : Option CompressorAlgo → CompressorAlgo
unwrap_or_none none = none_algo
unwrap_or_none (some algo) = algo

-- The shorter of a content and its compressed form.
unfoldable pub choose :
    CompressorAlgo → List ℕ → Result (List ℕ) → Content (List ℕ × CompressionAlgoPb)
unfolding of_algo
choose algo plain (err e) = refused e
choose algo plain (ok compressed) =
    if leb (length plain) (length compressed)
    then content (plain, none_pb)
    else content (compressed, of_algo algo)

abbrev pub of_result : Result (List ℕ) → Content (List ℕ)
of_result (ok bytes) = content bytes
of_result (err e) = refused e

module _ (zstd : Zstd) where
  unfoldable pub compress_packet : CompressionAlgoPb → List ℕ → Content (List ℕ × CompressionAlgoPb)
  unfolding choose to_algo compress_raw
  compress_packet accepted plain =
      let algo = unwrap_or_none (to_algo accepted) in
      choose algo plain (compress_raw zstd algo plain)

  unfoldable pub decompress_packet : CompressionAlgoPb → List ℕ → Content (List ℕ)
  decompress_packet pb bytes = elim (to_algo pb) [
    | none ↦ invalid_algo
    | some algo ↦ of_result (decompress_raw zstd algo bytes)
  ]

  -- Whether what was sent as `sent` fits the largest buffer that `decompress_raw` tries.
  abbrev pub IsWithin : List ℕ → List ℕ → Type 0
  IsWithin plain sent = (length plain ≤ 64 * 1024) ⊎ (length plain ≤ 32 * length sent)

  plain_sent : (plain : List ℕ) → decompress_packet none_pb plain ≡ content plain
  unfolding decompress_packet to_algo decompress_raw
  plain_sent plain = refl

  zstd_sent :
      (plain sent : List ℕ)
      → zstd.compress plain ≡ some sent
      → decompress_packet zstd_pb sent
        ≡ of_result (
            if leb (length plain) (64 * 1024)
            then ok plain
            else if leb (length plain) (32 * length sent)
            then ok plain
            else err failed_to_decompress)
  unfolding decompress_packet to_algo
  zstd_sent plain sent e = ap of_result (decompress_raw-compress zstd plain sent e)

  -- A content that is sent as it is, and read so.
  abbrev IsSentPlain : CompressionAlgoPb → List ℕ → Type 0
  IsSentPlain accepted plain =
      (compress_packet accepted plain ≡ content (plain, none_pb))
      × (decompress_packet none_pb plain ≡ content plain)

  -- A content that is sent compressed, and what is made of it on the other side.
  abbrev IsSentPacked : CompressionAlgoPb → (plain packed : List ℕ) → Type 0
  IsSentPacked accepted plain packed =
      (compress_packet accepted plain ≡ content (packed, zstd_pb))
      × (decompress_packet zstd_pb packed ≡ (
          if leb (length plain) (64 * 1024)
          then content plain
          else if leb (length plain) (32 * length packed)
          then content plain
          else refused failed_to_decompress))

  -- What is sent where zstd is accepted, by what zstd makes of the content.
  abbrev IsSentZstd : (plain : List ℕ) → Option (List ℕ) → Type 0
  IsSentZstd plain none = compress_packet zstd_pb plain ≡ refused failed_to_compress
  IsSentZstd plain (some packed) =
      ((length packed < length plain) × IsSentPacked zstd_pb plain packed)
      ⊎ ((length plain ≤ length packed) × IsSentPlain zstd_pb plain)

  -- What is sent, by what is accepted.
  abbrev pub Sent : CompressionAlgoPb → List ℕ → Type 0
  Sent zstd_pb plain = IsSentZstd plain (zstd.compress plain)
  Sent none_pb plain = IsSentPlain none_pb plain
  Sent invalid_pb plain = IsSentPlain invalid_pb plain

  not_compressed : (plain : List ℕ) → choose none_algo plain (ok plain) ≡ content (plain, none_pb)
  unfolding choose
  not_compressed plain = ground arith

  -- Where the other side does not accept zstd, a content is sent as it is, and read so. Where it
  -- does, it is refused if zstd fails; sent compressed if that is shorter; and sent as it is, and
  -- read so, if not. What is sent compressed is read back, but for a content that is longer than 64
  -- KiB and than 32 times its compressed form: that is refused as not to be decompressed.
  pub decompress_packet-compress_packet :
      (accepted : CompressionAlgoPb) (plain : List ℕ) → Sent accepted plain
  unfolding compress_packet choose
  decompress_packet-compress_packet invalid_pb plain = (not_compressed plain, plain_sent plain)
  decompress_packet-compress_packet none_pb plain = (not_compressed plain, plain_sent plain)
  decompress_packet-compress_packet zstd_pb plain = by_result (zstd.compress plain) refl
    where
      by_result :
          (result : Option (List ℕ)) → zstd.compress plain ≡ result → IsSentZstd plain result
      by_result none e = rw (compress_raw, e) refl
      by_result (some packed) e = elim (Bool-cases (leb (length plain) (length packed))) [
        | inl long ↦ inr (ground arith, (rw (compress_raw, e) (rw long refl), plain_sent plain))
        | inr short ↦ inl (
          ground arith,
          (rw (compress_raw, e) (rw short refl), zstd_sent plain packed e ∙ ground arith),
        )
      ]

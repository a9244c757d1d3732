-- ===== src/Packet/Samples.antt =====
-- The crates' types as the little-endian bytes that they stand for, for the tests.
use Prim.Native.Nat.{bit_and, bit_or}
use peer_link.Common.{
  ℕ, ◌+◌, ◌-◌, ◌*◌, ◌/◌, ◌%◌, ◌^◌, ◌<◌, ◌≡◌, refl, List, [], ◌∷◌, some, none, take, drop, length,
  get_or, leb, ◌==◌, if◌then◌else◌, slice_from, slice_from_lem, arith,
}
use peer_link.Packet.Crates.{Crates}

abbrev pub put16 : ℕ → List ℕ
put16 x = x % 256 ∷ x / 256 % 256 ∷ []

abbrev pub get16 : List ℕ → ℕ
get16 b = get_or b 0 0 + 256 * get_or b 1 0

abbrev pub put32 : ℕ → List ℕ
put32 x = x % 256 ∷ x / 256 % 256 ∷ x / 65536 % 256 ∷ x / 16777216 % 256 ∷ []

abbrev pub get32 : List ℕ → ℕ
get32 b =
    (get_or b 0 0 + 256 * get_or b 1 0 + 65536 * get_or b 2 0 + 16777216 * get_or b 3 0) % 2 ^ 32

pub get16-put16 : (x : ℕ) → x < 2 ^ 16 → get16 (put16 x) ≡ x
get16-put16 x h = omega arith

pub get32-put32 : (x : ℕ) → x < 2 ^ 32 → get32 (put32 x) ≡ x
get32-put32 x h = omega arith

pub get32-lt : (b : List ℕ) → get32 b < 2 ^ 32
get32-lt b = omega arith

abbrev pub little_endian : Crates
little_endian = record {
  u16_new = put16;
  u16_get = get16;
  u32_new = put32;
  u32_get = get32;
  length-u16_new = λ x. refl;
  length-u32_new = λ x. refl;
  u16_get-u16_new = get16-put16;
  u32_get-u32_new = get32-put32;
  u32_get-lt = get32-lt;
  ref_from_prefix = λ size bytes. if leb size (length bytes) then some (take size bytes) else none;
  ref_from_prefix_lem = λ size bytes. refl;
  ref_from_suffix = λ size bytes.
      if leb size (length bytes) then some (drop (length bytes - size) bytes) else none;
  ref_from_suffix_lem = λ size bytes. refl;
  from_bits = λ bits. some bits;
  contains = λ bits mask. bit_and bits mask == mask;
  insert = bit_or;
  remove = λ bits mask. bit_and bits (255 - mask);
  from_bits_lem = λ bits h. refl;
  contains_lem = λ bits mask. refl;
  insert_lem = λ bits mask. refl;
  remove_lem = λ bits mask. refl;
  split_off = slice_from;
  split_off_lem = slice_from_lem;
}

-- What nobody has written reads as 7.
abbrev pub stale : ℕ → ℕ
stale i = 7

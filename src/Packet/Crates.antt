-- ===== src/Packet/Crates.antt =====
-- What tunnel/packet_def.rs uses of the crates zerocopy, bitflags and bytes: parameters of the packet
-- model, with their documented behaviour.
use Prim.Native.Nat.{bit_and, bit_or}
use peer_link.Common.{
  ℕ, ◌-◌, ◌^◌, ◌≤◌, ◌<◌, ◌≡◌, Bool, List, Option, some, none, length, take, drop, leb, ◌==◌,
  if◌then◌else◌, Exec, done,
}

pub record Crates : Type 0 where
  -- zerocopy: `U16<LittleEndian>` and `U32<LittleEndian>`, as the bytes that they stand for.
  pub u16_new : ℕ → List ℕ
  pub u16_get : List ℕ → ℕ
  pub u32_new : ℕ → List ℕ
  pub u32_get : List ℕ → ℕ
  pub length-u16_new : (x : ℕ) → length (u16_new x) ≡ 2
  pub length-u32_new : (x : ℕ) → length (u32_new x) ≡ 4
  pub u16_get-u16_new : (x : ℕ) → x < 2 ^ 16 → u16_get (u16_new x) ≡ x
  pub u32_get-u32_new : (x : ℕ) → x < 2 ^ 32 → u32_get (u32_new x) ≡ x
  pub u32_get-lt : (bytes : List ℕ) → u32_get bytes < 2 ^ 32
  -- zerocopy: `T::ref_from_prefix`, at the size of `T`.
  pub ref_from_prefix : ℕ → List ℕ → Option (List ℕ)
  pub ref_from_prefix_lem :
      (size : ℕ) (bytes : List ℕ)
      → ref_from_prefix size bytes
        ≡ (if leb size (length bytes) then some (take size bytes) else none)
  -- zerocopy: `T::ref_from_suffix`, at the size of `T`.
  pub ref_from_suffix : ℕ → List ℕ → Option (List ℕ)
  pub ref_from_suffix_lem :
      (size : ℕ) (bytes : List ℕ)
      → ref_from_suffix size bytes
        ≡ (if leb size (length bytes) then some (drop (length bytes - size) bytes) else none)
  -- bitflags: every bit is named, by `const _ = !0`.
  pub from_bits : ℕ → Option ℕ
  pub contains : ℕ → ℕ → Bool
  pub insert : ℕ → ℕ → ℕ
  pub remove : ℕ → ℕ → ℕ
  pub from_bits_lem : (bits : ℕ) → bits < 2 ^ 8 → from_bits bits ≡ some bits
  pub contains_lem : (bits mask : ℕ) → contains bits mask ≡ (bit_and bits mask == mask)
  pub insert_lem : (bits mask : ℕ) → insert bits mask ≡ bit_or bits mask
  pub remove_lem : (bits mask : ℕ) → remove bits mask ≡ bit_and bits (255 - mask)
  -- bytes: `BytesMut::split_off`; past the length it depends on the capacity.
  pub split_off : ℕ → List ℕ → Exec (List ℕ)
  pub split_off_lem :
      (at : ℕ) (bytes : List ℕ) → at ≤ length bytes → split_off at bytes ≡ done (drop at bytes)

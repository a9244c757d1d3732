-- ===== src/Common/Panics.antt =====
-- Code that may panic: a slice out of range, an `unwrap` of `None`, an `assert!`.
use mathlib.Core.Path.{◌≡◌}
use mathlib.Core.List.{List}
use mathlib.Core.Option.{Option, none, some}
use Prim.Native.Nat.{ℕ, ◌≤◌}
use native.Mathlib.Omega.{arith}
use peer_link.Common.Tests.{leb, if◌then◌else◌}
use peer_link.Common.Lists.{length, drop}

pub data Exec {ℓ} (A : Type ℓ) : Type ℓ where
  done : A → Exec A
  panic : Exec A

infixl 5 ◌>>=◌
abbrev pub ◌>>=◌ {ℓ κ} : {A : Type ℓ} {B : Type κ} → Exec A → (A → Exec B) → Exec B
done a >>= f = f a
panic >>= f = panic

abbrev pub unwrap {ℓ} : {A : Type ℓ} → Option A → Exec A
unwrap none = panic
unwrap (some a) = done a

-- `&bytes[from..]`
abbrev pub slice_from : ℕ → List ℕ → Exec (List ℕ)
slice_from from bytes = if leb from (length bytes) then done (drop from bytes) else panic

pub slice_from_lem :
    (from : ℕ) (bytes : List ℕ)
    → from ≤ length bytes
    → slice_from from bytes ≡ done (drop from bytes)
slice_from_lem from bytes h = ground arith

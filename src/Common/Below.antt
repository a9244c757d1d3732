-- ===== src/Common/Below.antt =====
-- Checking every value below a bound by evaluation.
use Prim.Native.Nat.{ℕ, zero, suc, ◌<◌}
use mathlib.Core.Path.{◌≡◌}
use mathlib.Core.Bool.{Bool, true, false}
use native.Mathlib.Omega.{arith}
use peer_link.Common.Tests.{if◌then◌else◌}

unfoldable pub holds_below : (bound : ℕ) (test : ℕ → Bool) → Bool
holds_below zero test = true
holds_below (suc last) test =
    let earlier = holds_below last test in if test last then earlier else false

-- What the evaluation has shown of one value.
pub holds_below-at :
    (bound : ℕ) (test : ℕ → Bool) (value : ℕ)
    → holds_below bound test ≡ true
    → value < bound
    → test value ≡ true
unfolding holds_below
holds_below-at zero test value checked small = absurd (omega arith)
holds_below-at (suc last) test value checked small = ground (arith, holds_below-at last test value)

-- ===== src/Base/Checked.antt =====
-- Checks of every number below a bound, by evaluation.
use Prim.Native.Nat.{ℕ, zero, suc, ◌<◌}
use mathlib.Core.Path.{◌≡◌}
use mathlib.Core.Bool.{Bool, true, false}
use eden_logger.Base.Tests.{if◌then◌else◌}
use native.Mathlib.Omega.{arith}

-- A Boolean test of all numbers below a bound, and its use at one of them.
unfoldable pub checked : (ℕ → Bool) → ℕ → Bool
checked test zero = true
checked test (suc bound) = let rest = checked test bound in if test bound then rest else false

pub checked-at :
    (test : ℕ → Bool) {bound : ℕ} (k : ℕ) → k < bound → checked test bound ≡ true → test k ≡ true
unfolding checked
checked-at test {bound = zero} k below all_hold = absurd (omega arith)
checked-at test {bound = suc bound} k below all_hold =
    ground (arith, checked-at test {bound = bound} k)

-- ===== src/Prelude/Bits.antt =====
-- Facts about bytes by evaluation over all 256 values.
use Prim.Native.Nat.{ℕ, zero, suc, ◌<◌}
use mathlib.Core.Path.{◌≡◌}
use mathlib.Core.Bool.{Bool, true, ◌&&◌}
use native.Mathlib.Omega.{arith}
use hih.Prelude.Tests.{◌==◌, ==_iff}

unfoldable pub all_below : ℕ → (ℕ → Bool) → Bool
all_below zero test = true
all_below (suc bound) test = let lower = all_below bound test in test bound && lower

holds_below :
    (test : ℕ → Bool) (bound i : ℕ) → i < bound → all_below bound test ≡ true → test i ≡ true
unfolding all_below
holds_below test (suc bound) i fit all = ground (arith, holds_below test bound i)
holds_below test zero i fit all = absurd (omega arith)

-- Two byte functions that agree at every byte.
pub byte_ext : (f g : ℕ → ℕ) (x : ℕ) → all_below 256 (λ y. f y == g y) ≡ true → x < 256 → f x ≡ g x
byte_ext f g x table h = (==_iff (f x) (g x)).0 (holds_below (λ y. f y == g y) 256 x h table)

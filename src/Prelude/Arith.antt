-- ===== src/Prelude/Arith.antt =====
-- Division and powers of two.
use Prim.Native.Nat.{ℕ, zero, suc, ◌+◌, ◌*◌, ◌/◌, ◌^◌, ◌≤◌, ◌<◌}
use mathlib.Core.Path.{◌≡◌}
use native.Mathlib.Nat.{div-div-eq-div-mul, pow-suc, add-zero}
use native.Mathlib.Omega.{arith}

pub div-mul : (n d : ℕ) → 0 < d → (n / d * d ≤ n) × (n < n / d * d + d)
div-mul n d pos = grind arith

mul_mono : (a b d : ℕ) → a ≤ b → a * d ≤ b * d
mul_mono a b d h = grind arith

le_of_mul : (a b d n : ℕ) → a * d ≤ n → n < b * d + d → a ≤ b
le_of_mul a b d n low high = ground (arith, mul_mono (b + 1) a d)

pub div_unique : (n d q : ℕ) → q * d ≤ n → n < q * d + d → n / d ≡ q
div_unique n d q low high =
    let (below, above) = div-mul n d (omega arith) in
    omega (arith, le_of_mul (n / d) q d n below high, le_of_mul q (n / d) d n low above)

pub two_pow_pos : (k : ℕ) → 0 < 2 ^ k
two_pow_pos zero = omega arith
two_pow_pos (suc k) = omega (arith, two_pow_pos k, pow-suc 2 k)

pub two_pow_suc : (k : ℕ) → 2 ^ suc k ≡ 2 * 2 ^ k
two_pow_suc k = omega (arith, pow-suc 2 k)

pub two_pow_add : (a b : ℕ) → 2 ^ (a + b) ≡ 2 ^ a * 2 ^ b
two_pow_add a zero = rw add-zero (omega arith)
two_pow_add a (suc b) =
    let shift : a + suc b ≡ suc (a + b) = omega arith in
    rw (shift, two_pow_suc (a + b), two_pow_suc b, two_pow_add a b) (grind arith)

-- The top bits of the top bits.
pub div_pow_div : (n a b c : ℕ) → a ≡ b + c → n / 2 ^ b / 2 ^ c ≡ n / 2 ^ a
div_pow_div n a b c e = rw (div-div-eq-div-mul n (2 ^ b) (2 ^ c), ← two_pow_add b c, e)

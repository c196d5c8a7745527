-- ===== src/Prelude/Division.antt =====
-- Rounding division: the source's `Math.ceil(a / b)` and `Math.round(a / b)` on whole numbers.
use Prim.Native.Nat.{ℕ, suc, ◌+◌, ◌-◌, ◌*◌, ◌/◌, ◌≤◌, ◌<◌}
use native.Mathlib.Nat.{
  lt-div-mul-add, div-mul-le_self, lt_of_mul-lt-mul_right, le-div_iff_mul-le, div-lt_iff_lt-mul,
}
use mathlib.Core.Logic.{◌↔◌}
use native.Mathlib.Omega.{arith}

unfoldable pub ceil_div : ℕ → ℕ → ℕ
ceil_div a b = (a + (b - 1)) / b

-- `Math.round` rounds halves up.
unfoldable pub round_div : ℕ → ℕ → ℕ
round_div a b = (2 * a + b) / (2 * b)

-- The rounded-up quotient covers the dividend.
pub le-ceil_div-mul : (a b : ℕ) → 0 < b → a ≤ ceil_div a b * b
unfolding ceil_div
le-ceil_div-mul a b h = omega (arith, lt-div-mul-add {a = a + (b - 1)} {b = b} h)

-- And by less than one divisor too much.
pub ceil_div-mul-lt : (a b : ℕ) → 0 < b → ceil_div a b * b < a + b
unfolding ceil_div
ceil_div-mul-lt a b h = omega (arith, div-mul-le_self (a + (b - 1)) b)

-- The quotient is the least number of divisors that covers the dividend.
pub ceil_div-le : (a b n : ℕ) → 0 < b → a ≤ n * b → ceil_div a b ≤ n
ceil_div-le a b n h k = omega (
  arith,
  lt_of_mul-lt-mul_right b {m = ceil_div a b} {n = suc n} (omega (arith, ceil_div-mul-lt a b h)),
)

pub le-round_div : (a b k : ℕ) → 0 < b → (k ≤ round_div a b) ↔ (k * (2 * b) ≤ 2 * a + b)
unfolding round_div
le-round_div a b k h = le-div_iff_mul-le (omega arith)

pub round_div-lt : (a b k : ℕ) → 0 < b → (round_div a b < k) ↔ (2 * a + b < k * (2 * b))
unfolding round_div
round_div-lt a b k h = div-lt_iff_lt-mul (omega arith)

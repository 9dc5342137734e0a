-- ===== src/Prelude/Division.antt =====
-- Division by a variable, as the two inequalities that `omega` works with.
use Prim.Native.Nat.{ℕ, ◌+◌, ◌*◌, ◌/◌, ◌≤◌, ◌<◌}
use native.Mathlib.Nat.{div-mul-le_self, lt-div-mul-add, le_of_mul-le-mul_right}
use native.Mathlib.Omega.{arith}

pub div_bounds : (a b : ℕ) → 0 < b → (a / b * b ≤ a) × (a < a / b * b + b)
div_bounds a b h = (div-mul-le_self a b, lt-div-mul-add h)

-- A quotient is below a bound when its dividend is below the bound times the divisor.
pub div-le_of_le-mul : (a b c : ℕ) → 0 < b → a ≤ c * b → a / b ≤ c
div-le_of_le-mul a b c h le = le_of_mul-le-mul_right (omega (arith, div-mul-le_self a b)) h

-- ===== src/Math/Decimal/Laws.antt =====
-- What a successful operation of decimal.rs returns, in the numbers that the decimals wrap.
use deltafi_contracts.Prelude.{ℕ, ◌+◌, ◌*◌, ◌^◌, ◌≤◌, ◌<◌, ◌≡◌, arith}
use deltafi_contracts.Prelude.Division.{div_bounds}
use deltafi_contracts.Outcome.{ok, ◌>>=◌}
use deltafi_contracts.Math.Sqrt.Correct.{sqrt-root}
use deltafi_contracts.Math.Checked.{wad}
use deltafi_contracts.Math.Decimal.{
  Decimal, try_add, try_sub, try_mul, try_mul_u64, try_div, try_div_u64, try_floor_u64,
  try_round_u128, from_u64, sqrt,
}

pub try_add-ok : (a b : Decimal) {c : Decimal} → try_add a b ≡ ok c → (c ≡ a + b) × (c < 2 ^ 192)
unfolding try_add
try_add-ok a b e = ground arith

pub try_sub-ok : (a b : Decimal) {c : Decimal} → try_sub a b ≡ ok c → (c + b ≡ a) × (c ≤ a)
unfolding try_sub
try_sub-ok a b e = ground arith

pub try_mul-ok :
    (a b : Decimal) {c : Decimal}
    → try_mul a b ≡ ok c
    → (c * wad ≤ a * b) × (a * b < c * wad + wad) × (a * b < 2 ^ 192)
unfolding try_mul ◌>>=◌
try_mul-ok a b e = ground arith

pub try_mul_u64-ok : (a n : ℕ) {c : ℕ} → try_mul_u64 a n ≡ ok c → (c ≡ a * n) × (c < 2 ^ 192)
unfolding try_mul_u64
try_mul_u64-ok a n e = ground arith

pub try_div-ok :
    (a b : Decimal) {c : Decimal}
    → try_div a b ≡ ok c
    → (0 < b) × (c * b ≤ a * wad) × (a * wad < c * b + b)
unfolding try_div ◌>>=◌
try_div-ok a b e = ground (arith, div_bounds (a * wad) b)

pub try_div_u64-ok :
    (a n : ℕ) {c : ℕ} → try_div_u64 a n ≡ ok c → (0 < n) × (c * n ≤ a) × (a < c * n + n)
unfolding try_div_u64
try_div_u64-ok a n e = ground (arith, div_bounds a n)

pub try_floor_u64-ok :
    (a : ℕ) {v : ℕ} → try_floor_u64 a ≡ ok v → (v * wad ≤ a) × (a < v * wad + wad) × (v < 2 ^ 64)
unfolding try_floor_u64 ◌>>=◌
try_floor_u64-ok a e = ground arith

try_round_u128-from_u64 : (v : ℕ) → v < 2 ^ 64 → try_round_u128 (from_u64 v) ≡ ok v
unfolding try_round_u128 ◌>>=◌
try_round_u128-from_u64 v h = ground arith

-- The root of a whole number is the whole part of its square root.
pub sqrt-from_u64 :
    (v : ℕ)
    → v < 2 ^ 64
    → (root : ℕ) × (sqrt (from_u64 v) ≡ ok (from_u64 root))
      × (root * root ≤ v)
      × (v < (root + 1) * (root + 1))
unfolding sqrt ◌>>=◌
sqrt-from_u64 v fits =
    let (root, e, lo, hi) = sqrt-root v (omega arith) in
    (root, rw (try_round_u128-from_u64 v fits) (ground arith), lo, hi)

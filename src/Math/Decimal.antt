-- ===== src/Math/Decimal.antt =====
-- math/decimal.rs. A `Decimal` is the `U192` that it wraps: the value times 10^9.
pub mod Laws
use deltafi_contracts.Prelude.{ℕ, ◌+◌, ◌*◌, ◌==◌, Bool}
use deltafi_contracts.Outcome.{Result, ok, ok_or, ◌>>=◌, calculation_failure}
use deltafi_contracts.Math.Checked.{
  wad, half_wad, percent_scaler, checked_add, checked_sub, checked_mul, checked_div, checked_pow,
  try_from,
}
use deltafi_contracts.Math.Sqrt

abbrev pub Decimal : Type 0
Decimal = ℕ

abbrev pub one : Decimal
one = wad

abbrev pub zero : Decimal
zero = 0

abbrev pub is_zero : Decimal → Bool
is_zero d = d == 0

unfoldable pub from_percent : ℕ → Decimal
from_percent percent = percent * percent_scaler

unfoldable pub to_scaled_val : Decimal → Result ℕ
to_scaled_val d = ok_or (try_from 128 d) calculation_failure

abbrev pub from_scaled_val : ℕ → Decimal
from_scaled_val v = v

-- The products of `From<u64>` and `From<u128>` are below 2^158, so they cannot overflow.
abbrev pub from_u64 : ℕ → Decimal
from_u64 v = wad * v

abbrev pub from_u128 : ℕ → Decimal
from_u128 v = wad * v

try_round : ℕ → Decimal → Result ℕ
try_round w d = do
  sum ← ok_or (checked_add 192 half_wad d) calculation_failure
  rounded ← ok_or (checked_div sum wad) calculation_failure
  ok_or (try_from w rounded) calculation_failure

try_ceil : ℕ → Decimal → Result ℕ
try_ceil w d = do
  below ← ok_or (checked_sub wad 1) calculation_failure
  sum ← ok_or (checked_add 192 below d) calculation_failure
  ceiling ← ok_or (checked_div sum wad) calculation_failure
  ok_or (try_from w ceiling) calculation_failure

try_floor : ℕ → Decimal → Result ℕ
try_floor w d = do
  floor ← ok_or (checked_div d wad) calculation_failure
  ok_or (try_from w floor) calculation_failure

unfoldable pub try_round_u128 : Decimal → Result ℕ
unfolding try_round
try_round_u128 = try_round 128

unfoldable pub try_ceil_u128 : Decimal → Result ℕ
unfolding try_ceil
try_ceil_u128 = try_ceil 128

unfoldable pub try_floor_u128 : Decimal → Result ℕ
unfolding try_floor
try_floor_u128 = try_floor 128

unfoldable pub try_round_u64 : Decimal → Result ℕ
unfolding try_round
try_round_u64 = try_round 64

unfoldable pub try_ceil_u64 : Decimal → Result ℕ
unfolding try_ceil
try_ceil_u64 = try_ceil 64

unfoldable pub try_floor_u64 : Decimal → Result ℕ
unfolding try_floor
try_floor_u64 = try_floor 64

unfoldable pub sqrt : Decimal → Result Decimal
sqrt d = do
  radicand ← try_round_u128 d
  root ← ok_or (Sqrt.sqrt radicand) calculation_failure
  ok (from_u128 root)

unfoldable pub reciprocal : Decimal → Result Decimal
reciprocal d = do
  square ← ok_or (checked_pow 192 wad 2) calculation_failure
  ok_or (checked_div square d) calculation_failure

unfoldable pub try_add : Decimal → Decimal → Result Decimal
try_add a b = ok_or (checked_add 192 a b) calculation_failure

unfoldable pub try_sub : Decimal → Decimal → Result Decimal
try_sub a b = ok_or (checked_sub a b) calculation_failure

-- impl TryDiv<u64>
unfoldable pub try_div_u64 : Decimal → ℕ → Result Decimal
try_div_u64 a n = ok_or (checked_div a n) calculation_failure

-- impl TryDiv<Decimal>
unfoldable pub try_div : Decimal → Decimal → Result Decimal
try_div a b = do
  scaled ← ok_or (checked_mul 192 a wad) calculation_failure
  ok_or (checked_div scaled b) calculation_failure

-- impl TryMul<u64>
unfoldable pub try_mul_u64 : Decimal → ℕ → Result Decimal
try_mul_u64 a n = ok_or (checked_mul 192 a n) calculation_failure

-- impl TryMul<Decimal>
unfoldable pub try_mul : Decimal → Decimal → Result Decimal
try_mul a b = do
  product ← ok_or (checked_mul 192 a b) calculation_failure
  ok_or (checked_div product wad) calculation_failure

-- ===== src/Math/Checked.antt =====
-- The checked operations of unsigned integers at `w` bits, and the constants of math/mod.rs.
use deltafi_contracts.Prelude.{
  ℕ, ◌+◌, ◌-◌, ◌*◌, ◌/◌, ◌^◌, Option, none, some, ltb, leb, ◌==◌, if◌then◌else◌,
}

abbrev pub scale : ℕ
scale = 9

abbrev pub wad : ℕ
wad = 1_000_000_000

abbrev pub half_wad : ℕ
half_wad = 500_000_000

abbrev pub percent_scaler : ℕ
percent_scaler = 10_000_000

abbrev pub checked_add : ℕ → ℕ → ℕ → Option ℕ
checked_add w a b = if ltb (a + b) (2 ^ w) then some (a + b) else none

abbrev pub checked_sub : ℕ → ℕ → Option ℕ
checked_sub a b = if leb b a then some (a - b) else none

abbrev pub checked_mul : ℕ → ℕ → ℕ → Option ℕ
checked_mul w a b = if ltb (a * b) (2 ^ w) then some (a * b) else none

abbrev pub checked_div : ℕ → ℕ → Option ℕ
checked_div a b = if b == 0 then none else some (a / b)

abbrev pub checked_pow : ℕ → ℕ → ℕ → Option ℕ
checked_pow w a n = if ltb (a ^ n) (2 ^ w) then some (a ^ n) else none

-- `TryFrom` to an integer of `w` bits.
abbrev pub try_from : ℕ → ℕ → Option ℕ
try_from w a = if ltb a (2 ^ w) then some a else none

-- ===== src/Math/Sqrt.antt =====
-- math/approximations.rs: the integer square root, at the one type that the program uses, `u128`.
-- `CheckedShl` and `CheckedShr` fail only for a shift of 128 bits or more, and what `<<` shifts out
-- is dropped.
pub mod Correct
use deltafi_contracts.Prelude.{
  ℕ, zero, suc, ◌+◌, ◌-◌, ◌*◌, ◌/◌, ◌%◌, ◌^◌, Option, none, some, true, false, ltb, leb, ◌==◌,
  if◌then◌else◌,
}
use deltafi_contracts.Math.Checked.{checked_add, checked_sub}

infixl 5 ◌>>=◌
abbrev pub ◌>>=◌ : {A B : Type 0} → Option A → (A → Option B) → Option B
none >>= f = none
some a >>= f = f a

abbrev pub checked_shl : ℕ → ℕ → Option ℕ
checked_shl a shift = if ltb shift 128 then some (a * 2 ^ shift % 2 ^ 128) else none

abbrev pub checked_shr : ℕ → ℕ → Option ℕ
checked_shr a shift = if ltb shift 128 then some (a / 2 ^ shift) else none

-- The number of digits in base two, among the lowest `w`.
unfoldable pub bit_length : ℕ → ℕ → ℕ
bit_length zero n = 0
bit_length (suc w) n = let rest = bit_length w (n / 2) in if n == 0 then 0 else rest + 1

unfoldable pub leading_zeros : ℕ → ℕ
leading_zeros n = 128 - bit_length 128 n

-- The largest power of four that is at most the radicand. `& !1` clears the lowest bit, and the
-- difference of u32 is not negative when the radicand is not 0.
unfoldable pub first_bit : ℕ → Option ℕ
first_bit radicand =
    let max_shift = leading_zeros 0 - 1 in
    checked_shl 1 ((max_shift - leading_zeros radicand) / 2 * 2)

-- The body of the loop.
unfoldable pub round : ℕ → ℕ → ℕ → Option (ℕ × ℕ)
round bit n result = do
  result_with_bit ← checked_add 128 result bit
  if leb result_with_bit n
      then (do
        n' ← checked_sub n result_with_bit
        half ← checked_shr result 1
        result' ← checked_add 128 half bit
        some (n', result'))
      else (do result' ← checked_shr result 1; some (n, result'))

-- `while bit != 0`. The first argument is fuel: one unit for each round, and one to leave.
unfoldable pub sqrt_loop : ℕ → ℕ → ℕ → ℕ → Option ℕ
sqrt_loop zero bit n result = none
sqrt_loop (suc fuel) bit n result = elim (bit == 0) [
  | true ↦ some result
  | false ↦ do
    (n', result') ← round bit n result
    bit' ← checked_shr bit 2
    sqrt_loop fuel bit' n' result'
]

-- An unsigned radicand is never below zero. 64 rounds clear the highest power of four in a u128.
unfoldable pub sqrt : ℕ → Option ℕ
sqrt radicand =
    if radicand == 0 then some 0 else (do bit ← first_bit radicand; sqrt_loop 65 bit radicand 0)

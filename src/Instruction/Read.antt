-- ===== src/Instruction/Read.antt =====
-- instruction.rs: the readers of one value off the front of the instruction's data. Unlike the
-- account data, data that is too short is an error of its own here.
use deltafi_contracts.Prelude.{ℕ, zero, suc, Bool, true, false, [], ◌∷◌}
use deltafi_contracts.Outcome.{Result, ok, ok_or, fail, ◌>>=◌, instruction_unpack_error}
use deltafi_contracts.Bytes.{Bytes, take_le}
use deltafi_contracts.State.Position.{Pubkey}

pub data SwapDirection : Type 0 where
  sell_base sell_quote : SwapDirection

-- `split_first`
unfoldable pub unpack_u8 : Bytes → Result (ℕ × Bytes)
unpack_u8 [] = fail instruction_unpack_error
unpack_u8 (byte ∷ rest) = ok (byte, rest)

unfoldable pub unpack_u64 : Bytes → Result (ℕ × Bytes)
unpack_u64 input = ok_or (take_le 8 input) instruction_unpack_error

unfoldable pub unpack_u128 : Bytes → Result (ℕ × Bytes)
unpack_u128 input = ok_or (take_le 16 input) instruction_unpack_error

unfoldable pub unpack_pubkey : Bytes → Result (Pubkey × Bytes)
unpack_pubkey input = ok_or (take_le 32 input) instruction_unpack_error

unfoldable pub bool_of : ℕ → Result Bool
bool_of zero = ok false
bool_of (suc zero) = ok true
bool_of (suc (suc _)) = fail instruction_unpack_error

unfoldable pub unpack_bool : Bytes → Result (Bool × Bytes)
unpack_bool input = do (value, rest) ← unpack_u8 input; b ← bool_of value; ok (b, rest)

unfoldable pub direction_of : ℕ → Result SwapDirection
direction_of zero = ok sell_base
direction_of (suc zero) = ok sell_quote
direction_of (suc (suc _)) = fail instruction_unpack_error

unfoldable pub unpack_swap_direction : Bytes → Result (SwapDirection × Bytes)
unpack_swap_direction input = do
  (value, rest) ← unpack_u8 input
  direction ← direction_of value
  ok (direction, rest)

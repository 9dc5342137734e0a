-- ===== src/Instruction/Swap/RoundTrip.antt =====
-- A packed swap instruction is read back.
use deltafi_contracts.Prelude.{some, arith, ◌<◌, ◌^◌, ◌≡◌, refl, ◌∙◌, Bool, true, false, [], ◌∷◌}
use deltafi_contracts.Outcome.{ok, ◌>>=◌, >>=-ok}
use deltafi_contracts.Instruction.{check, InstructionType}
use deltafi_contracts.Bytes.{Bytes, pack_bool, ok_or-take_le}
use deltafi_contracts.Instruction.Read.{
  SwapDirection, sell_base, sell_quote, unpack_u8, unpack_u64, unpack_u128, bool_of, unpack_bool,
  direction_of, unpack_swap_direction,
}
use deltafi_contracts.Instruction.Swap.{
  SwapInstruction, initialize, swap, deposit, withdraw, initialize_liquidity_provider,
  claim_liquidity_rewards, refresh_liquidity_obligation, unpack_initialize, unpack_swap,
  unpack_deposit, unpack_withdraw, unpack_tagged, unpack, direction_byte, pack,
}

-- The numbers of an instruction are of their machine widths.
abbrev pub IsSwapInstruction : SwapInstruction → Type 0
IsSwapInstruction (initialize i) = (i.nonce < 256) × (i.slope < 256 ^ 8) × (i.mid_price < 256 ^ 16)
IsSwapInstruction (swap i) = (i.amount_in < 256 ^ 8) × (i.minimum_amount_out < 256 ^ 8)
IsSwapInstruction (deposit i) =
    (i.token_a_amount < 256 ^ 8) × (i.token_b_amount < 256 ^ 8) × (i.min_mint_amount < 256 ^ 8)
IsSwapInstruction (withdraw i) =
    (i.pool_token_amount < 256 ^ 8)
    × (i.minimum_token_a_amount < 256 ^ 8)
    × (i.minimum_token_b_amount < 256 ^ 8)
IsSwapInstruction initialize_liquidity_provider = Unit
IsSwapInstruction claim_liquidity_rewards = Unit
IsSwapInstruction refresh_liquidity_obligation = Unit

read_bool : (b : Bool) → unpack_bool (pack_bool b ∷ []) ≡ ok (b, [])
unfolding unpack_bool unpack_u8 bool_of ◌>>=◌
read_bool true = refl
read_bool false = refl

read_direction : (d : SwapDirection) → unpack_swap_direction (direction_byte d ∷ []) ≡ ok (d, [])
unfolding unpack_swap_direction unpack_u8 direction_of ◌>>=◌
read_direction sell_base = refl
read_direction sell_quote = refl

-- An instruction whose numbers are of their widths is read back as it was packed.
pub swap_instruction_unpack-pack :
    (i : SwapInstruction) → IsSwapInstruction i → unpack (pack i) ≡ ok i
unfolding unpack unpack_tagged pack unpack_u8 unpack_u64 unpack_u128 unpack_initialize unpack_swap
    unpack_deposit unpack_withdraw ◌>>=◌
swap_instruction_unpack-pack (initialize i) (n, s, m) =
    ok_or-take_le 8 _ _ s ∙ ok_or-take_le 16 _ _ m ∙ >>=-ok _ _ (read_bool i.is_open_twap)
swap_instruction_unpack-pack (swap i) (a, m) =
    ok_or-take_le 8 _ _ a ∙ ok_or-take_le 8 _ _ m ∙ >>=-ok _ _ (read_direction i.swap_direction)
swap_instruction_unpack-pack (deposit i) (a, b, m) =
    ok_or-take_le 8 _ _ a ∙ ok_or-take_le 8 _ _ b ∙ ok_or-take_le 8 _ _ m
swap_instruction_unpack-pack (withdraw i) (p, a, b) =
    ok_or-take_le 8 _ _ p ∙ ok_or-take_le 8 _ _ a ∙ ok_or-take_le 8 _ _ b
swap_instruction_unpack-pack initialize_liquidity_provider h = refl
swap_instruction_unpack-pack claim_liquidity_rewards h = refl
swap_instruction_unpack-pack refresh_liquidity_obligation h = refl

-- Data that unpacks to a swap instruction is dispatched to the swap handlers: `check` finds a swap tag in
-- it.
pub unpack-check :
    (input : Bytes) (i : SwapInstruction)
    → unpack input ≡ ok i
    → check input ≡ some InstructionType.swap
unfolding check unpack unpack_u8 unpack_tagged ◌>>=◌
unpack-check [] i e = cc
unpack-check (tag ∷ rest) i e = ground arith

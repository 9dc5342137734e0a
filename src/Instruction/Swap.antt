-- ===== src/Instruction/Swap.antt =====
-- instruction.rs: `SwapInstruction`.
pub mod RoundTrip
use deltafi_contracts.Prelude.{ℕ, Bool, [], ◌∷◌, ◌==◌, if◌then◌else◌}
use deltafi_contracts.Outcome.{Result, ok, fail, ◌>>=◌, invalid_instruction}
use deltafi_contracts.Bytes.{Bytes, put_le, pack_bool}
use deltafi_contracts.Instruction.Read.{
  SwapDirection, sell_base, sell_quote, unpack_u8, unpack_u64, unpack_u128, unpack_bool,
  unpack_swap_direction,
}

pub record InitializeData : Type 0 where
  pub nonce : ℕ
  pub slope : ℕ
  pub mid_price : ℕ
  pub is_open_twap : Bool

pub record SwapData : Type 0 where
  pub amount_in : ℕ
  pub minimum_amount_out : ℕ
  pub swap_direction : SwapDirection

pub record DepositData : Type 0 where
  pub token_a_amount : ℕ
  pub token_b_amount : ℕ
  pub min_mint_amount : ℕ

pub record WithdrawData : Type 0 where
  pub pool_token_amount : ℕ
  pub minimum_token_a_amount : ℕ
  pub minimum_token_b_amount : ℕ

pub data SwapInstruction : Type 0 where
  initialize : InitializeData → SwapInstruction
  swap : SwapData → SwapInstruction
  deposit : DepositData → SwapInstruction
  withdraw : WithdrawData → SwapInstruction
  initialize_liquidity_provider claim_liquidity_rewards : SwapInstruction
  refresh_liquidity_obligation : SwapInstruction

unfoldable pub unpack_initialize : Bytes → Result SwapInstruction
unpack_initialize rest = do
  (nonce', rest) ← unpack_u8 rest
  (slope', rest) ← unpack_u64 rest
  (price, rest) ← unpack_u128 rest
  (open_twap, _) ← unpack_bool rest
  ok (
      initialize
        (record { nonce = nonce'; slope = slope'; mid_price = price; is_open_twap = open_twap }))

unfoldable pub unpack_swap : Bytes → Result SwapInstruction
unpack_swap rest = do
  (amount, rest) ← unpack_u64 rest
  (minimum, rest) ← unpack_u64 rest
  (direction, _) ← unpack_swap_direction rest
  ok (
      swap
        (record { amount_in = amount; minimum_amount_out = minimum; swap_direction = direction }))

unfoldable pub unpack_deposit : Bytes → Result SwapInstruction
unpack_deposit rest = do
  (a, rest) ← unpack_u64 rest
  (b, rest) ← unpack_u64 rest
  (minimum, _) ← unpack_u64 rest
  ok (deposit (record { token_a_amount = a; token_b_amount = b; min_mint_amount = minimum }))

unfoldable pub unpack_withdraw : Bytes → Result SwapInstruction
unpack_withdraw rest = do
  (amount, rest) ← unpack_u64 rest
  (a, rest) ← unpack_u64 rest
  (b, _) ← unpack_u64 rest
  ok (
      withdraw (record {
        pool_token_amount = amount;
        minimum_token_a_amount = a;
        minimum_token_b_amount = b;
      }))

unfoldable pub unpack_tagged : ℕ → Bytes → Result SwapInstruction
unpack_tagged tag rest =
    if tag == 0
    then unpack_initialize rest
    else if tag == 1
    then unpack_swap rest
    else if tag == 2
    then unpack_deposit rest
    else if tag == 3
    then unpack_withdraw rest
    else if tag == 4
    then ok initialize_liquidity_provider
    else if tag == 5
    then ok claim_liquidity_rewards
    else if tag == 6
    then ok refresh_liquidity_obligation
    else fail invalid_instruction

unfoldable pub unpack : Bytes → Result SwapInstruction
unpack input = do (tag, rest) ← unpack_u8 input; unpack_tagged tag rest

-- `swap_direction as u8`
abbrev pub direction_byte : SwapDirection → ℕ
direction_byte sell_base = 0
direction_byte sell_quote = 1

unfoldable pub pack : SwapInstruction → Bytes
pack (initialize i) =
    0 ∷ i.nonce ∷ put_le 8 i.slope (put_le 16 i.mid_price (pack_bool i.is_open_twap ∷ []))
pack (swap i) =
    1 ∷ put_le 8 i.amount_in (put_le 8 i.minimum_amount_out (direction_byte i.swap_direction ∷ []))
pack (deposit i) =
    2 ∷ put_le 8 i.token_a_amount (put_le 8 i.token_b_amount (put_le 8 i.min_mint_amount []))
pack (withdraw i) =
    3
    ∷ put_le 8 i.pool_token_amount
        (put_le 8 i.minimum_token_a_amount (put_le 8 i.minimum_token_b_amount []))
pack initialize_liquidity_provider = 4 ∷ []
pack claim_liquidity_rewards = 5 ∷ []
pack refresh_liquidity_obligation = 6 ∷ []

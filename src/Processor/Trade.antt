-- ===== src/Processor/Trade.antt =====
-- processor.rs: the amounts of `process_swap`, and the state that it records.
use deltafi_contracts.Prelude.{ℕ, ltb}
use deltafi_contracts.Prelude.Int.{u64_try_from}
use deltafi_contracts.Outcome.{
  Result, ok, ok_or, unwrap, refuse_if, ◌>>=◌, ◌>>◌, calculation_failure, exceeded_slippage,
}
use deltafi_contracts.Math.Checked.{checked_add, checked_sub}
use deltafi_contracts.Math.Decimal.{Decimal, from_u64}
use deltafi_contracts.Curve.Pool
use deltafi_contracts.Curve.Pool.{PoolState, Multiplier, sell_base_token, sell_quote_token}
use deltafi_contracts.State.Fees.{trade_fee, admin_trade_fee}
use deltafi_contracts.State.Rewards.{trade_reward_u64}
use deltafi_contracts.State.Swap.{SwapInfo}
use deltafi_contracts.Instruction.Read.{SwapDirection, sell_base, sell_quote}
use deltafi_contracts.Instruction.Swap.{SwapData}
use deltafi_contracts.Runtime.{Clock}

-- What a swap moves, and the balances and the multiplier that it leaves.
pub record SwapAmounts : Type 0 where
  pub amount_out : ℕ
  pub admin_fee : ℕ
  pub amount_to_reward : ℕ
  pub base_balance : ℕ
  pub quote_balance : ℕ
  pub multiplier : Multiplier

unfoldable pub receive : SwapDirection → PoolState → ℕ → Result (ℕ × Multiplier)
receive sell_base state amount_in = sell_base_token state amount_in
receive sell_quote state amount_in = sell_quote_token state amount_in

-- The balances of the two vaults after the swap.
unfoldable pub balances : SwapDirection → ℕ → ℕ → ℕ → ℕ → Result (ℕ × ℕ)
balances sell_base a b amount_in amount_out = do
  base ← ok_or (checked_add 64 a amount_in) calculation_failure
  quote ← ok_or (checked_sub b amount_out) calculation_failure
  ok (base, quote)
balances sell_quote a b amount_in amount_out = do
  base ← ok_or (checked_sub a amount_out) calculation_failure
  quote ← ok_or (checked_add 64 b amount_in) calculation_failure
  ok (base, quote)

-- `a` and `b` are what the vaults hold, `state` the pool at the new market price.
unfoldable pub swap_amounts : SwapInfo → PoolState → SwapData → ℕ → ℕ → Result SwapAmounts
swap_amounts token_swap state input a b = do
  (receive_amount, new_multiplier) ← receive input.swap_direction state input.amount_in
  fee ← trade_fee token_swap.fees receive_amount
  admin_part ← admin_trade_fee token_swap.fees fee
  reward ← trade_reward_u64 token_swap.rewards input.amount_in
  out ← ok_or (checked_sub receive_amount fee) calculation_failure
  refuse_if (ltb out input.minimum_amount_out) exceeded_slippage
  (base, quote) ← balances input.swap_direction a b input.amount_in out
  ok (record {
    amount_out = out;
    admin_fee = admin_part;
    amount_to_reward = reward;
    base_balance = base;
    quote_balance = quote;
    multiplier = new_multiplier;
  })

-- The cumulative price and the times that a swap, a deposit or a withdrawal records.
unfoldable pub record_time : SwapInfo → Clock → Decimal → Result SwapInfo
record_time token_swap clock base_price_cumulative = do
  now ← unwrap (u64_try_from clock.unix_timestamp)
  sum ← ok_or (checked_add 64 token_swap.cumulative_ticks now) calculation_failure
  ticks ← ok_or (checked_sub sum token_swap.block_timestamp_last) calculation_failure
  ok (record token_swap {
    cumulative_ticks = ticks;
    block_timestamp_last = now;
    base_price_cumulative_last = base_price_cumulative;
  })

-- The swap with the reserves and the multiplier that the amounts give.
unfoldable pub settle_swap : SwapInfo → PoolState → SwapAmounts → Result SwapInfo
settle_swap token_swap state amounts = do
  pool_state ← Pool.new (record state {
    base_reserve = from_u64 amounts.base_balance;
    quote_reserve = from_u64 amounts.quote_balance;
    multiplier = amounts.multiplier;
  })
  ok (record token_swap { pool_state = pool_state })

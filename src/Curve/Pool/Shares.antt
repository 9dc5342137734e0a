-- ===== src/Curve/Pool/Shares.antt =====
-- curve/pool.rs: deposits and withdrawals, `buy_shares`, `sell_shares` and
-- `calculate_deposit_amount`.
use deltafi_contracts.Prelude.{ℕ, ltb, ◌==◌, ◌&&◌, ◌||◌, if◌then◌else◌, min}
use deltafi_contracts.Outcome.{
  Result, ok, ◌>>=◌, ◌>>◌, fail, refuse_if, insufficient_funds, incorrect_mint, withdraw_not_enough,
}
use deltafi_contracts.Math.Decimal
use deltafi_contracts.Math.Decimal.{
  Decimal, is_zero, try_add, try_sub, try_mul, try_mul_u64, try_div, try_div_u64, try_floor_u64,
  from_u64, reciprocal,
}
use deltafi_contracts.Curve.Pool.Reserves.{PoolState}

-- Case 1 of `buy_shares`: no share has been issued. The result is the state and the shares.
unfoldable pub buy_initial : PoolState → Decimal → Decimal → Result (PoolState × Decimal)
buy_initial s base_balance quote_balance = do
  value ← try_mul s.market_price base_balance
  shares ← if ltb quote_balance value then try_div quote_balance s.market_price else ok base_balance
  quote_target ← try_mul shares s.market_price
  ok (record s { base_target = shares; quote_target = quote_target }, shares)

-- Case 2: both reserves hold something.
unfoldable pub buy_proportional : PoolState → Decimal → Decimal → ℕ → Result (PoolState × Decimal)
buy_proportional s base_input quote_input total_supply = do
  base_input_ratio ← try_div base_input s.base_reserve
  quote_input_ratio ← try_div quote_input s.quote_reserve
  let mint_ratio = min base_input_ratio quote_input_ratio
  shares ← try_mul_u64 mint_ratio total_supply
  base_growth ← try_mul s.base_target mint_ratio
  base_target ← try_add base_growth s.base_target
  quote_growth ← try_mul s.quote_target mint_ratio
  quote_target ← try_add quote_growth s.quote_target
  ok (record s { base_target = base_target; quote_target = quote_target }, shares)

unfoldable pub buy_shares : PoolState → ℕ → ℕ → ℕ → Result (PoolState × ℕ)
buy_shares s base_balance' quote_balance' total_supply = do
  let base_balance = from_u64 base_balance'
  let quote_balance = from_u64 quote_balance'
  base_input ← try_sub base_balance s.base_reserve
  quote_input ← try_sub quote_balance s.quote_reserve
  refuse_if (is_zero base_input) insufficient_funds
  (s', shares) ←
      if total_supply == 0
      then buy_initial s base_balance quote_balance
      else if ltb Decimal.zero s.base_reserve && ltb Decimal.zero s.quote_reserve
      then buy_proportional s base_input quote_input total_supply
      else fail incorrect_mint
  floor ← try_floor_u64 shares
  ok (record s' { base_reserve = base_balance; quote_reserve = quote_balance }, floor)

-- The part of `amount` that `share_amount` of `total_supply` stands for.
unfoldable pub share_of : Decimal → ℕ → ℕ → Result Decimal
share_of amount share_amount total_supply = do
  product ← try_mul_u64 amount share_amount
  try_div_u64 product total_supply

unfoldable pub sell_shares : PoolState → ℕ → ℕ → ℕ → ℕ → Result (PoolState × ℕ × ℕ)
sell_shares s share_amount base_min_amount quote_min_amount total_supply = do
  base_amount ← share_of s.base_reserve share_amount total_supply
  quote_amount ← share_of s.quote_reserve share_amount total_supply
  base_part ← share_of s.base_target share_amount total_supply
  base_target ← try_sub s.base_target base_part
  quote_part ← share_of s.quote_target share_amount total_supply
  quote_target ← try_sub s.quote_target quote_part
  refuse_if
      (ltb base_amount (from_u64 base_min_amount) || ltb quote_amount (from_u64 quote_min_amount))
      withdraw_not_enough
  base_reserve ← try_sub s.base_reserve base_amount
  quote_reserve ← try_sub s.quote_reserve quote_amount
  base_floor ← try_floor_u64 base_amount
  quote_floor ← try_floor_u64 quote_amount
  let s' = record s {
    base_target = base_target;
    quote_target = quote_target;
    base_reserve = base_reserve;
    quote_reserve = quote_reserve;
  }
  ok (s', base_floor, quote_floor)

-- The amounts before they are rounded down.
unfoldable pub deposit_amounts : PoolState → Decimal → Decimal → Result (Decimal × Decimal)
deposit_amounts s base_in quote_in =
    if is_zero s.base_reserve && is_zero s.quote_reserve
    then (do
      value ← try_mul s.market_price base_in
      shares ← if ltb quote_in value then try_div quote_in s.market_price else ok base_in
      quote ← try_mul shares s.market_price
      ok (shares, quote))
    else if ltb Decimal.zero s.base_reserve && ltb Decimal.zero s.quote_reserve
    then (do
      base_increase_ratio ← try_div base_in s.base_reserve
      quote_increase_ratio ← try_div quote_in s.quote_reserve
      if ltb base_increase_ratio quote_increase_ratio
          then (do quote ← try_mul s.quote_reserve base_increase_ratio; ok (base_in, quote))
          else (do base ← try_mul s.base_reserve quote_increase_ratio; ok (base, quote_in)))
    else ok (base_in, quote_in)

unfoldable pub calculate_deposit_amount : PoolState → ℕ → ℕ → Result (ℕ × ℕ)
calculate_deposit_amount s base_in_amount quote_in_amount = do
  (base_in, quote_in) ← deposit_amounts s (from_u64 base_in_amount) (from_u64 quote_in_amount)
  base_floor ← try_floor_u64 base_in
  quote_floor ← try_floor_u64 quote_in
  ok (base_floor, quote_floor)

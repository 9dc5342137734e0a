-- ===== src/Processor/Oracle.antt =====
-- processor.rs: the market price, from the Pyth accounts or else from the pool. The subtractions of u64 that
-- the source leaves unchecked wrap around, as they do in a release build.
use deltafi_contracts.Prelude.{
  ℕ, suc, ◌+◌, ◌-◌, ◌*◌, ◌%◌, ◌^◌, Bool, Option, none, some, ltb, leb, not, ◌&&◌, if◌then◌else◌,
}
use deltafi_contracts.Prelude.Int.{ℤ, pos, negsuc, u64_try_from}
use deltafi_contracts.Outcome.{
  Result, panicked, err, ok, ok_or, unwrap, refuse_if, ◌>>=◌, ◌>>◌, invalid_account_data,
  calculation_failure, invalid_oracle_config,
}
use deltafi_contracts.Math.Checked.{checked_sub, checked_pow}
use deltafi_contracts.Math.Decimal.{
  Decimal, from_u64, is_zero, try_add, try_sub, try_div, try_div_u64, try_mul_u64,
}
use deltafi_contracts.Curve.Pool.{PoolState, get_mid_price}
use deltafi_contracts.State.Swap.{SwapInfo}
use deltafi_contracts.Runtime.{Runtime, AccountInfo, Store, Clock, Price, PriceType, unknown, price}

abbrev pub stale_after_slots_elapsed : ℕ
stale_after_slots_elapsed = 5

abbrev pub wrapping_sub : ℕ → ℕ → ℕ
wrapping_sub a b = (2 ^ 64 + a - b) % 2 ^ 64

abbrev pub is_price : PriceType → Bool
is_price unknown = Bool.false
is_price price = Bool.true

-- `checked_abs` of a negative i32, -(n + 1).
abbrev pub checked_abs : ℕ → Option ℕ
checked_abs n = if ltb (suc n) (2 ^ 31) then some (suc n) else none

-- The price at the exponent.
unfoldable pub scaled_price : ℕ → ℤ → Result Decimal
scaled_price amount (pos exponent) = do
  zeros ← ok_or (checked_pow 64 10 exponent) calculation_failure
  try_mul_u64 (from_u64 amount) zeros
scaled_price amount (negsuc n) = do
  exponent ← ok_or (checked_abs n) calculation_failure
  decimals ← ok_or (checked_pow 64 10 exponent) calculation_failure
  try_div_u64 (from_u64 amount) decimals

unfoldable pub price_of : Price → Clock → Result Decimal
price_of pyth_price clock = do
  refuse_if (not (is_price pyth_price.ptype)) invalid_oracle_config
  slots_elapsed ← ok_or (checked_sub clock.slot pyth_price.valid_slot) calculation_failure
  refuse_if (leb stale_after_slots_elapsed slots_elapsed) invalid_oracle_config
  amount ← ok_or (u64_try_from pyth_price.agg.price) invalid_oracle_config
  refuse_if (ltb 0 pyth_price.agg.conf && ltb amount (pyth_price.agg.conf * 100 % 2 ^ 64))
      invalid_oracle_config
  scaled_price amount pyth_price.expo

-- `.map_err(|_| ProgramError::InvalidAccountData)`
abbrev pub invalid_data_error : Result Price → Result Price
invalid_data_error (ok p) = ok p
invalid_data_error (err _) = err invalid_account_data
invalid_data_error panicked = panicked

-- The larger price over the smaller.
unfoldable pub price_ratio : Decimal → Decimal → Result Decimal
price_ratio price_a price_b =
    if ltb price_b price_a then try_div price_a price_b else try_div price_b price_a

-- `if let Ok(price) = oracle { price } else { … }`
unfoldable pub or_else : Result Decimal → Result Decimal → Result Decimal
or_else (ok p) other = ok p
or_else (err _) other = other
or_else panicked other = panicked

-- The cumulative price after the time since the last update.
unfoldable pub accumulate : SwapInfo → PoolState → Decimal → ℕ → Result Decimal
accumulate token_swap pool_state pool_mid_price block_timestamp_last =
    let time_elapsed = wrapping_sub block_timestamp_last token_swap.block_timestamp_last in
    if token_swap.is_open_twap
      && (ltb 0 time_elapsed
          && (not (is_zero pool_state.base_reserve) && not (is_zero pool_state.quote_reserve)))
    then (do
      grown ← try_mul_u64 pool_mid_price time_elapsed
      try_add token_swap.base_price_cumulative_last grown)
    else ok token_swap.base_price_cumulative_last

unfoldable pub fallback_price : SwapInfo → Decimal → Decimal → ℕ → Result Decimal
fallback_price token_swap pool_mid_price base_price_cumulative_last block_timestamp_last =
    if token_swap.is_open_twap
    then try_div_u64 base_price_cumulative_last
        (wrapping_sub block_timestamp_last token_swap.cumulative_ticks)
    else ok pool_mid_price

-- The market price, where it is more than a hundredth of the mid price away from that price.
unfoldable pub settle_price : Decimal → Decimal → Result Decimal
settle_price pool_mid_price market_price = do
  deviation ←
      if ltb market_price pool_mid_price
      then try_sub pool_mid_price market_price
      else try_sub market_price pool_mid_price
  scaled ← try_mul_u64 deviation 100
  ok (if ltb pool_mid_price scaled then market_price else pool_mid_price)

module _ (rt : Runtime) where
  unfoldable pub get_pyth_price : Store → AccountInfo → Clock → Result Decimal
  get_pyth_price store pyth_price_info clock = do
    pyth_price ← invalid_data_error (rt.load_price (store pyth_price_info.key).contents)
    price_of pyth_price clock

  unfoldable pub get_market_price_from_pyth :
      Store → AccountInfo → AccountInfo → Clock → Result Decimal
  get_market_price_from_pyth store pyth_a_price_info pyth_b_price_info clock = do
    price_a ← get_pyth_price store pyth_a_price_info clock
    price_b ← get_pyth_price store pyth_b_price_info clock
    price_ratio price_a price_b

  -- The swap, whose pool `get_mid_price` changes, the new market price and the cumulative price.
  unfoldable pub get_new_market_price :
      Store → SwapInfo → AccountInfo → AccountInfo → Clock → Result (SwapInfo × Decimal × Decimal)
  get_new_market_price store token_swap pyth_a_price_info pyth_b_price_info clock = do
    (pool_state, pool_mid_price) ← get_mid_price token_swap.pool_state
    block_timestamp_last ← unwrap (u64_try_from clock.unix_timestamp)
    cumulative ← accumulate token_swap pool_state pool_mid_price block_timestamp_last
    market_price ←
        or_else (get_market_price_from_pyth store pyth_a_price_info pyth_b_price_info clock)
          (fallback_price token_swap pool_mid_price cumulative block_timestamp_last)
    new_price ← settle_price pool_mid_price market_price
    ok (record token_swap { pool_state = pool_state }, new_price, cumulative)

-- ===== src/Curve/Pool/Trade.antt =====
-- curve/pool.rs: the trades of a pool, `sell_base_token` and `sell_quote_token`.
use Prim.Native.Nat.{compare, Ordering}
use deltafi_contracts.Prelude.{ℕ, min}
use deltafi_contracts.Outcome.{Result, ok, ◌>>=◌}
use deltafi_contracts.Math.Decimal.{Decimal, try_add, try_sub, try_floor_u64, from_u64, reciprocal}
use deltafi_contracts.Curve.Calc.{get_target_amount, get_target_amount_reverse_direction}
use deltafi_contracts.Curve.Pool.Reserves.{Multiplier, above_one, below_one, PoolState}

unfoldable pub sell_base_token_with_multiplier : PoolState → Decimal → Multiplier → Result Decimal
sell_base_token_with_multiplier s base_amount Multiplier.one =
    get_target_amount_reverse_direction s.quote_target s.quote_target base_amount s.market_price
      s.slope
sell_base_token_with_multiplier s base_amount above_one = do
  future ← try_add s.base_reserve base_amount
  get_target_amount s.base_target future s.base_reserve s.market_price s.slope
sell_base_token_with_multiplier s base_amount below_one =
    get_target_amount_reverse_direction s.quote_target s.quote_reserve base_amount s.market_price
      s.slope

unfoldable pub sell_base_above_one : PoolState → ℕ → Result (Decimal × Multiplier)
sell_base_above_one s base_amount = do
  back_to_one_pay_base ← try_sub s.base_target s.base_reserve
  back_to_one_receive_quote ← try_sub s.quote_reserve s.quote_target
  elim (compare back_to_one_pay_base (from_u64 base_amount)) [
    | Ordering.gt ↦ (do
      amount ← sell_base_token_with_multiplier s (from_u64 base_amount) above_one
      ok (min amount back_to_one_receive_quote, above_one))
    | Ordering.eq ↦ ok (back_to_one_receive_quote, Multiplier.one)
    | Ordering.lt ↦ (do
      rest ← try_sub (from_u64 base_amount) back_to_one_pay_base
      amount ← sell_base_token_with_multiplier s rest Multiplier.one
      total ← try_add amount back_to_one_receive_quote
      ok (total, below_one))
  ]

-- The amount before it is rounded down.
unfoldable pub sell_base_amount : PoolState → ℕ → Result (Decimal × Multiplier)
unfolding sell_base_above_one
sell_base_amount s base_amount = elim s.multiplier [
  | Multiplier.one ↦ (do
    amount ← sell_base_token_with_multiplier s (from_u64 base_amount) Multiplier.one
    ok (amount, below_one))
  | below_one ↦ (do
    amount ← sell_base_token_with_multiplier s (from_u64 base_amount) below_one
    ok (amount, below_one))
  | above_one ↦ sell_base_above_one s base_amount
]

unfoldable pub sell_base_token : PoolState → ℕ → Result (ℕ × Multiplier)
unfolding sell_base_amount
sell_base_token s base_amount = do
  (quote_amount, new_multiplier) ← sell_base_amount s base_amount
  floor ← try_floor_u64 quote_amount
  ok (floor, new_multiplier)

unfoldable pub sell_quote_token_with_multiplier : PoolState → Decimal → Multiplier → Result Decimal
sell_quote_token_with_multiplier s quote_amount Multiplier.one = do
  price ← reciprocal s.market_price
  get_target_amount_reverse_direction s.base_target s.base_target quote_amount price s.slope
sell_quote_token_with_multiplier s quote_amount above_one = do
  price ← reciprocal s.market_price
  get_target_amount_reverse_direction s.base_target s.base_reserve quote_amount price s.slope
sell_quote_token_with_multiplier s quote_amount below_one = do
  future ← try_add s.quote_reserve quote_amount
  price ← reciprocal s.market_price
  get_target_amount s.quote_target future s.quote_reserve price s.slope

unfoldable pub sell_quote_below_one : PoolState → ℕ → Result (Decimal × Multiplier)
sell_quote_below_one s quote_amount = do
  back_to_one_pay_quote ← try_sub s.quote_target s.quote_reserve
  back_to_one_receive_base ← try_sub s.base_reserve s.base_target
  elim (compare back_to_one_pay_quote (from_u64 quote_amount)) [
    | Ordering.gt ↦ (do
      amount ← sell_quote_token_with_multiplier s (from_u64 quote_amount) below_one
      ok (min amount back_to_one_receive_base, below_one))
    | Ordering.eq ↦ ok (back_to_one_receive_base, Multiplier.one)
    | Ordering.lt ↦ (do
      rest ← try_sub (from_u64 quote_amount) back_to_one_pay_quote
      amount ← sell_quote_token_with_multiplier s rest Multiplier.one
      total ← try_add amount back_to_one_receive_base
      ok (total, above_one))
  ]

unfoldable pub sell_quote_amount : PoolState → ℕ → Result (Decimal × Multiplier)
unfolding sell_quote_below_one
sell_quote_amount s quote_amount = elim s.multiplier [
  | Multiplier.one ↦ (do
    amount ← sell_quote_token_with_multiplier s (from_u64 quote_amount) Multiplier.one
    ok (amount, above_one))
  | above_one ↦ (do
    amount ← sell_quote_token_with_multiplier s (from_u64 quote_amount) above_one
    ok (amount, above_one))
  | below_one ↦ sell_quote_below_one s quote_amount
]

unfoldable pub sell_quote_token : PoolState → ℕ → Result (ℕ × Multiplier)
unfolding sell_quote_amount
sell_quote_token s quote_amount = do
  (base_amount, new_multiplier) ← sell_quote_amount s quote_amount
  floor ← try_floor_u64 base_amount
  ok (floor, new_multiplier)

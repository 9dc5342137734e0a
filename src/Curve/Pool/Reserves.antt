-- ===== src/Curve/Pool/Reserves.antt =====
-- curve/pool.rs: `PoolState`, its regression targets and its mid price.
use deltafi_contracts.Prelude.{ℕ, ◌==◌, if◌then◌else◌}
use deltafi_contracts.Outcome.{Result, ok, err, ◌>>=◌, invalid_account_data}
use deltafi_contracts.Math.Decimal
use deltafi_contracts.Math.Decimal.{
  Decimal, is_zero, try_add, try_sub, try_mul, try_mul_u64, try_div, try_div_u64, try_floor_u64,
  from_u64, reciprocal,
}
use deltafi_contracts.Curve.Calc.{get_target_reserve}

-- Whether the price stands at the market price, above or below it.
pub data Multiplier : Type 0 where
  one above_one below_one : Multiplier

-- impl TryFrom<u8> for Multiplier
unfoldable pub multiplier_try_from : ℕ → Result Multiplier
multiplier_try_from byte =
    if byte == 0
    then ok Multiplier.one
    else if byte == 1
    then ok above_one
    else if byte == 2
    then ok below_one
    else err invalid_account_data

pub record PoolState : Type 0 where
  pub market_price : Decimal
  pub slope : Decimal
  pub base_target : Decimal
  pub quote_target : Decimal
  pub base_reserve : Decimal
  pub quote_reserve : Decimal
  pub multiplier : Multiplier

-- `PoolState::default()`
abbrev pub default : PoolState
default = record {
  market_price = Decimal.zero;
  slope = Decimal.zero;
  base_target = Decimal.zero;
  quote_target = Decimal.zero;
  base_reserve = Decimal.zero;
  quote_reserve = Decimal.zero;
  multiplier = Multiplier.one;
}

abbrev pub init : PoolState → PoolState → PoolState
init s params = record s {
  market_price = params.market_price;
  slope = params.slope;
  base_target = params.base_target;
  base_reserve = params.base_reserve;
  quote_target = params.quote_target;
  quote_reserve = params.quote_reserve;
  multiplier = params.multiplier;
}

unfoldable pub adjust_quote_target : PoolState → Result PoolState
adjust_quote_target s = do
  surplus ← try_sub s.base_reserve s.base_target
  target ← get_target_reserve s.quote_reserve surplus s.market_price s.slope
  ok (record s { quote_target = target })

unfoldable pub adjust_base_target : PoolState → Result PoolState
adjust_base_target s = do
  surplus ← try_sub s.quote_reserve s.quote_target
  price ← reciprocal s.market_price
  target ← get_target_reserve s.base_reserve surplus price s.slope
  ok (record s { base_target = target })

unfoldable pub adjust_target : PoolState → Result PoolState
unfolding adjust_quote_target adjust_base_target
adjust_target s = elim s.multiplier [
  | below_one ↦ adjust_quote_target s
  | above_one ↦ adjust_base_target s
  | Multiplier.one ↦ ok s
]

unfoldable pub new : PoolState → Result PoolState
new params = adjust_target (init default params)

-- `target^2 / reserve^2 * slope + 1 - slope`
unfoldable pub mid_multiplier : Decimal → Decimal → Decimal → Result Decimal
mid_multiplier target reserve slope = do
  square ← try_mul target target
  ratio ← try_div square reserve
  ratio' ← try_div ratio reserve
  weighted ← try_mul ratio' slope
  sum ← try_add weighted Decimal.one
  try_sub sum slope

-- `get_mid_price` adjusts the target first, and that change of the state is kept.
unfoldable pub get_mid_price : PoolState → Result (PoolState × Decimal)
unfolding mid_multiplier
get_mid_price s = do
  s' ← adjust_target s
  price ← elim s'.multiplier [
    | below_one ↦ (do
      multiplier ← mid_multiplier s'.quote_target s'.quote_reserve s'.slope
      try_div s'.market_price multiplier)
    | _ ↦ (do
      multiplier ← mid_multiplier s'.base_target s'.base_reserve s'.slope
      try_mul s'.market_price multiplier)
  ]
  ok (s', price)

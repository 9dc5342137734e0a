-- ===== src/Curve/Calc.antt =====
-- curve/calc.rs: the pricing functions of the intelligent market maker. Every amount is a Decimal.
pub mod Bounds
use deltafi_contracts.Prelude.{ℕ, Bool, true, false, ltb, leb, ◌==◌, ◌||◌, if◌then◌else◌, min}
use deltafi_contracts.Outcome.{
  Result, ok, ◌>>=◌, ◌>>◌, fail, refuse_if, calculation_failure, invalid_slope,
}
use deltafi_contracts.Math.Decimal
use deltafi_contracts.Math.Decimal.{
  Decimal, one, is_zero, try_add, try_sub, try_mul, try_mul_u64, try_div, try_div_u64,
  try_floor_u64, from_u64, sqrt,
}

-- `slope.lt(&Decimal::zero()) || slope.gt(&Decimal::one())`
abbrev pub slope_out_of_range : Decimal → Bool
slope_out_of_range slope = ltb slope Decimal.zero || ltb one slope

unfoldable pub get_target_amount : Decimal → Decimal → Decimal → Decimal → Decimal → Result Decimal
get_target_amount target_reserve future_reserve current_reserve market_price slope = do
  refuse_if
      (leb current_reserve Decimal.zero
        || ltb future_reserve current_reserve
        || ltb target_reserve future_reserve)
      calculation_failure
  traded ← try_sub future_reserve current_reserve
  fair_amount ← try_mul traded market_price
  refuse_if (slope_out_of_range slope) invalid_slope
  if is_zero slope then ok fair_amount else (do
    square ← try_mul target_reserve target_reserve
    ratio ← try_div square future_reserve
    penalty_ratio ← try_div ratio current_reserve
    penalty ← try_mul penalty_ratio slope
    sum ← try_add penalty one
    factor ← try_sub sum slope
    try_mul fair_amount factor)

-- `adjusted_ratio`, for a slope of one.
unfoldable pub adjusted_ratio : Decimal → Decimal → Decimal → Decimal → Decimal → Result Decimal
adjusted_ratio target_reserve current_reserve quote_amount market_price fair_amount =
    if is_zero fair_amount then ok Decimal.zero else (do
      product ← try_mul fair_amount current_reserve
      back ← try_div product fair_amount
      if back == current_reserve
          then (do
            again ← try_mul fair_amount current_reserve
            once ← try_div again target_reserve
            try_div once target_reserve)
          else (do
            quote ← try_mul quote_amount current_reserve
            once ← try_div quote target_reserve
            priced ← try_mul once market_price
            try_div priced target_reserve))

-- `candidate_reserve`: the reserve after the trade, a root of a quadratic equation, for a slope
-- between zero and one.
unfoldable pub candidate_reserve : Decimal → Decimal → Decimal → Decimal → Result Decimal
candidate_reserve target_reserve current_reserve fair_amount slope = do
  weighted ← try_mul slope target_reserve
  ratio ← try_div weighted current_reserve
  scaled ← try_mul ratio target_reserve
  future_reserve ← try_add scaled fair_amount
  rest ← try_sub one slope
  weighted_reserve ← try_mul rest current_reserve
  let is_smaller = ltb weighted_reserve future_reserve
  distance ←
      if is_smaller
      then try_sub future_reserve weighted_reserve
      else try_sub weighted_reserve future_reserve
  floor ← try_floor_u64 distance
  let adjusted_reserve = from_u64 floor
  rest' ← try_sub one slope
  four ← try_mul_u64 rest' 4
  four_slope ← try_mul four slope
  once ← try_mul four_slope target_reserve
  twice ← try_mul once target_reserve
  square ← try_mul adjusted_reserve adjusted_reserve
  radicand ← try_add square twice
  square_root ← sqrt radicand
  rest'' ← try_sub one slope
  denominator ← try_mul_u64 rest'' 2
  numerator ←
      if is_smaller
      then try_sub square_root adjusted_reserve
      else try_add adjusted_reserve square_root
  try_div numerator denominator

unfoldable pub get_target_amount_reverse_direction :
    Decimal → Decimal → Decimal → Decimal → Decimal → Result Decimal
get_target_amount_reverse_direction target_reserve current_reserve quote_amount market_price slope =
    do
      refuse_if (leb target_reserve Decimal.zero) calculation_failure
      if is_zero quote_amount then ok Decimal.zero else (do
        refuse_if (slope_out_of_range slope) invalid_slope
        fair_amount ← try_mul quote_amount market_price
        if is_zero slope
            then ok (min fair_amount current_reserve)
            else if slope == one
            then (do
              ratio ←
                  adjusted_ratio target_reserve current_reserve quote_amount market_price
                    fair_amount
              product ← try_mul current_reserve ratio
              sum ← try_add ratio one
              try_div product sum)
            else (do
              candidate ← candidate_reserve target_reserve current_reserve fair_amount slope
              if ltb current_reserve candidate
                  then ok Decimal.zero
                  else try_sub current_reserve candidate))

-- The root of 1 + 4 * slope * price * amount / reserve, in `get_target_reserve`.
unfoldable pub target_reserve_root : Decimal → Decimal → Decimal → Result Decimal
target_reserve_root price_offset quote_amount current_reserve =
    if is_zero price_offset then ok one else (do
      product ← try_mul price_offset quote_amount
      back ← try_div product price_offset
      if back == quote_amount
          then (do
            again ← try_mul price_offset quote_amount
            ratio ← try_div again current_reserve
            radicand ← try_add ratio one
            sqrt radicand)
          else (do
            ratio ← try_div price_offset current_reserve
            scaled ← try_mul ratio quote_amount
            radicand ← try_add scaled one
            sqrt radicand))

unfoldable pub get_target_reserve : Decimal → Decimal → Decimal → Decimal → Result Decimal
get_target_reserve current_reserve quote_amount market_price slope =
    if is_zero current_reserve
    then ok Decimal.zero
    else if is_zero slope
    then (do fair_amount ← try_mul quote_amount market_price; try_add fair_amount current_reserve)
    else (do
      refuse_if (slope_out_of_range slope) invalid_slope
      weighted ← try_mul market_price slope
      price_offset ← try_mul_u64 weighted 4
      square_root ← target_reserve_root price_offset quote_amount current_reserve
      above ← try_sub square_root one
      half ← try_div_u64 above 2
      share ← try_div half slope
      premium ← try_add share one
      try_mul premium current_reserve)

-- ===== src/Curve/Calc/Bounds.antt =====
-- How much the pricing functions can return.
use native.Mathlib.Nat.{le_of_mul-le-mul_right, mul-le-mul_right}
use deltafi_contracts.Prelude.{ℕ, ◌+◌, ◌*◌, ◌≤◌, ◌≡◌, arith}
use mathlib.Core.Path.{subst}
use deltafi_contracts.Outcome.{◌>>=◌, ok}
use deltafi_contracts.Math.Checked.{wad}
use deltafi_contracts.Math.Decimal.{Decimal, one, try_add, try_mul, try_div}
use deltafi_contracts.Math.Decimal.Laws.{try_add-ok, try_sub-ok, try_mul-ok, try_div-ok}
use deltafi_contracts.Curve.Calc.{get_target_amount_reverse_direction, get_target_reserve}

-- The part `ratio / (ratio + 1)` of a reserve is at most the reserve.
share-le :
    (reserve ratio product result : ℕ)
    → product * wad ≤ reserve * ratio
    → result * (ratio + wad) ≤ product * wad
    → result ≤ reserve
share-le reserve ratio product result lo hi =
    le_of_mul-le-mul_right {k = ratio + wad} (omega arith) (omega arith)

slope_one-le :
    (reserve ratio : Decimal) {product sum result : Decimal}
    → try_mul reserve ratio ≡ ok product
    → try_add ratio one ≡ ok sum
    → try_div product sum ≡ ok result
    → result ≤ reserve
slope_one-le reserve ratio {product} {sum} {result} ep es er =
    let whole : sum ≡ ratio + wad = (try_add-ok ratio one es).0 in
    let (_, below, _) = try_div-ok product sum er in
    share-le reserve ratio product result (try_mul-ok reserve ratio ep).0
      (subst (λ (n : ℕ). result * n ≤ product * wad) whole below)

-- What `get_target_amount_reverse_direction` returns is at most the reserve that it draws on.
pub get_target_amount_reverse_direction-le :
    (target_reserve current_reserve quote_amount market_price slope : Decimal) {amount : Decimal}
    → get_target_amount_reverse_direction target_reserve current_reserve quote_amount market_price
        slope
      ≡ ok amount
    → amount ≤ current_reserve
unfolding get_target_amount_reverse_direction ◌>>=◌
get_target_amount_reverse_direction-le t c q m s e = grind (arith, slope_one-le, try_sub-ok)

premium-le :
    (reserve share : Decimal) {premium result : Decimal}
    → try_add share one ≡ ok premium
    → try_mul premium reserve ≡ ok result
    → reserve ≤ result
premium-le reserve share {premium} {result} ep er =
    let whole = (try_add-ok share one ep).0 in
    let (_, above, _) = try_mul-ok premium reserve er in
    let more : wad * reserve ≤ premium * reserve = mul-le-mul_right reserve (omega arith) in
    omega arith

-- The regression target that `get_target_reserve` returns is at least the reserve.
pub get_target_reserve-le :
    (current_reserve quote_amount market_price slope : Decimal) {target : Decimal}
    → get_target_reserve current_reserve quote_amount market_price slope ≡ ok target
    → current_reserve ≤ target
unfolding get_target_reserve ◌>>=◌
get_target_reserve-le c q m s e = grind (arith, premium-le, try_add-ok)

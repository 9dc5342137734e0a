-- ===== src/Curve/Pool/Offer.antt =====
-- `calculate_deposit_amount`: how much of an offer is taken.
use native.Mathlib.Nat.{le_refl}
use deltafi_contracts.Prelude.{ℕ, ◌≤◌, ◌≡◌, arith}
use deltafi_contracts.Outcome.{ok, ◌>>=◌, >>=-ok-elim}
use deltafi_contracts.Math.Decimal.{Decimal, from_u64, try_mul, try_div, try_floor_u64}
use deltafi_contracts.Math.Decimal.Laws.{try_floor_u64-ok}
use deltafi_contracts.Curve.Pool.{PoolState, deposit_amounts, calculate_deposit_amount}
use deltafi_contracts.Curve.Pool.Issue.{target_growth, first_shares}

matched_le :
    (reserve input ratio : Decimal) {r out : Decimal}
    → try_div input reserve ≡ ok r
    → ratio ≤ r
    → try_mul reserve ratio ≡ ok out
    → out ≤ input
matched_le reserve input ratio er small eo =
    target_growth reserve reserve input ratio (le_refl reserve) er small eo

deposit_amounts-le :
    (s : PoolState) (base_in quote_in base quote : Decimal)
    → deposit_amounts s base_in quote_in ≡ ok (base, quote)
    → (base ≤ base_in) × (quote ≤ quote_in)
unfolding deposit_amounts ◌>>=◌
deposit_amounts-le s base_in quote_in base quote e = grind (arith, matched_le, first_shares)

-- Neither amount that `calculate_deposit_amount` returns is above the amount that was offered.
pub calculate_deposit_amount-le :
    (s : PoolState) (base_in quote_in base quote : ℕ)
    → calculate_deposit_amount s base_in quote_in ≡ ok (base, quote)
    → (base ≤ base_in) × (quote ≤ quote_in)
unfolding calculate_deposit_amount
calculate_deposit_amount-le s base_in quote_in base quote e0 =
    >>=-ok-elim (deposit_amounts s (from_u64 base_in) (from_u64 quote_in)) _ e0 λ amounts ea e1.
      >>=-ok-elim (try_floor_u64 amounts.0) _ e1 λ base' eb e2.
        >>=-ok-elim (try_floor_u64 amounts.1) _ e2 λ quote' eq e3.
          let (b, q) = deposit_amounts-le s _ _ amounts.0 amounts.1 ea in
          ground (arith, try_floor_u64-ok amounts.0 eb, try_floor_u64-ok amounts.1 eq)

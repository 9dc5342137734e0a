-- ===== src/Curve/Pool/Payout.antt =====
-- `sell_base_token` and `sell_quote_token`: what a trade pays out, and where it leaves the pool.
use deltafi_contracts.Prelude.{ℕ, ◌+◌, ◌-◌, ◌*◌, ◌≤◌, ◌<◌, ◌≡◌, ◌↔◌, arith}
use deltafi_contracts.Outcome.{ok, ◌>>=◌}
use deltafi_contracts.Math.Checked.{wad}
use deltafi_contracts.Math.Decimal.{Decimal, from_u64}
use deltafi_contracts.Math.Decimal.Laws.{try_add-ok, try_sub-ok, try_floor_u64-ok}
use deltafi_contracts.Curve.Calc.Bounds.{get_target_amount_reverse_direction-le}
use deltafi_contracts.Curve.Pool.{
  Multiplier, one, above_one, below_one, PoolState, sell_base_token_with_multiplier,
  sell_base_token, sell_quote_token_with_multiplier, sell_quote_token,
}
use deltafi_contracts.Curve.Pool.Target.{Surplus, HasSurplus}

-- The pool after base tokens came in and quote tokens went out.
abbrev pub base_sold : PoolState → ℕ → ℕ → Multiplier → PoolState
base_sold s amount_in amount_out m = record s {
  base_reserve = s.base_reserve + from_u64 amount_in;
  quote_reserve = s.quote_reserve - from_u64 amount_out;
  multiplier = m;
}

abbrev pub quote_sold : PoolState → ℕ → ℕ → Multiplier → PoolState
quote_sold s amount_in amount_out m = record s {
  base_reserve = s.base_reserve - from_u64 amount_out;
  quote_reserve = s.quote_reserve + from_u64 amount_in;
  multiplier = m;
}

sell_base_one-le :
    (s : PoolState) (amount : Decimal) {out : Decimal}
    → sell_base_token_with_multiplier s amount one ≡ ok out
    → out ≤ s.quote_target
unfolding sell_base_token_with_multiplier
sell_base_one-le s amount e =
    get_target_amount_reverse_direction-le _ _ amount s.market_price s.slope e

sell_base_below_one-le :
    (s : PoolState) (amount : Decimal) {out : Decimal}
    → sell_base_token_with_multiplier s amount below_one ≡ ok out
    → out ≤ s.quote_reserve
unfolding sell_base_token_with_multiplier
sell_base_below_one-le s amount e =
    get_target_amount_reverse_direction-le _ _ amount s.market_price s.slope e

-- A sale of base tokens into a pool whose surplus side stands at or above its target pays out at most
-- the quote reserve, to the unit of the token; and whatever part of that amount leaves the pool, the
-- side that the new multiplier names as surplus stands at or above its target.
pub sell_base_token-solvent :
    (s : PoolState) (amount_in amount_out receive : ℕ) (m : Multiplier)
    → HasSurplus s
    → sell_base_token s amount_in ≡ ok (receive, m)
    → amount_out ≤ receive
    → (receive * wad ≤ s.quote_reserve) × Surplus m (base_sold s amount_in amount_out m)
unfolding sell_base_token ◌>>=◌
sell_base_token-solvent s amount_in amount_out receive m h e le =
    grind
      (arith, sell_base_one-le, sell_base_below_one-le, try_sub-ok, try_add-ok, try_floor_u64-ok)

sell_quote_one-le :
    (s : PoolState) (amount : Decimal) {out : Decimal}
    → sell_quote_token_with_multiplier s amount one ≡ ok out
    → out ≤ s.base_target
unfolding sell_quote_token_with_multiplier ◌>>=◌
sell_quote_one-le s amount e = grind (arith, get_target_amount_reverse_direction-le)

sell_quote_above_one-le :
    (s : PoolState) (amount : Decimal) {out : Decimal}
    → sell_quote_token_with_multiplier s amount above_one ≡ ok out
    → out ≤ s.base_reserve
unfolding sell_quote_token_with_multiplier ◌>>=◌
sell_quote_above_one-le s amount e = grind (arith, get_target_amount_reverse_direction-le)

-- A sale of quote tokens into a pool whose surplus side stands at or above its target pays out at most
-- the base reserve, to the unit of the token; and whatever part of that amount leaves the pool, the
-- side that the new multiplier names as surplus stands at or above its target.
pub sell_quote_token-solvent :
    (s : PoolState) (amount_in amount_out receive : ℕ) (m : Multiplier)
    → HasSurplus s
    → sell_quote_token s amount_in ≡ ok (receive, m)
    → amount_out ≤ receive
    → (receive * wad ≤ s.base_reserve) × Surplus m (quote_sold s amount_in amount_out m)
unfolding sell_quote_token ◌>>=◌
sell_quote_token-solvent s amount_in amount_out receive m h e le =
    grind
      (arith, sell_quote_one-le, sell_quote_above_one-le, try_sub-ok, try_add-ok, try_floor_u64-ok)

-- After a successful sale of base tokens the new multiplier is above one exactly if the pool was above
-- one and its base reserve with the amount is still short of the target, and one exactly if the pool
-- was above one and that sum is the target.
pub sell_base_token-multiplier :
    (s : PoolState) (amount_in receive : ℕ) (m : Multiplier)
    → sell_base_token s amount_in ≡ ok (receive, m)
    → ((m ≡ above_one)
        ↔ ((s.multiplier ≡ above_one) × (s.base_reserve + from_u64 amount_in < s.base_target)))
      × ((m ≡ one)
          ↔ ((s.multiplier ≡ above_one) × (s.base_reserve + from_u64 amount_in ≡ s.base_target)))
unfolding sell_base_token ◌>>=◌
sell_base_token-multiplier s amount_in receive m e = (
  (λ h. grind (arith, try_sub-ok), λ h. grind (arith, try_sub-ok)),
  (λ h. grind (arith, try_sub-ok), λ h. grind (arith, try_sub-ok)),
)

-- After a successful sale of quote tokens the new multiplier is below one exactly if the pool was below
-- one and its quote reserve with the amount is still short of the target, and one exactly if the pool
-- was below one and that sum is the target.
pub sell_quote_token-multiplier :
    (s : PoolState) (amount_in receive : ℕ) (m : Multiplier)
    → sell_quote_token s amount_in ≡ ok (receive, m)
    → ((m ≡ below_one)
        ↔ ((s.multiplier ≡ below_one) × (s.quote_reserve + from_u64 amount_in < s.quote_target)))
      × ((m ≡ one)
          ↔ ((s.multiplier ≡ below_one) × (s.quote_reserve + from_u64 amount_in ≡ s.quote_target)))
unfolding sell_quote_token ◌>>=◌
sell_quote_token-multiplier s amount_in receive m e = (
  (λ h. grind (arith, try_sub-ok), λ h. grind (arith, try_sub-ok)),
  (λ h. grind (arith, try_sub-ok), λ h. grind (arith, try_sub-ok)),
)

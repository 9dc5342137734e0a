-- ===== src/State/Position.antt =====
-- state/liquidity.rs: `LiquidityPosition`, what a provider holds of one pool. Amounts are u64 and
-- timestamps i64. A method that takes `&mut self` returns the new state; where it fails the
-- instruction fails, and nothing is written back.
pub mod Accrual
use deltafi_contracts.Prelude.{ℕ, ltb, ◌==◌, not, if◌then◌else◌}
use deltafi_contracts.Prelude.Int.{
  ℤ, pos, ltb_ℤ, leb_ℤ, checked_add_i64, checked_sub_i64, u64_try_from,
}
use deltafi_contracts.Outcome.{
  Result, ok, ok_or, unwrap, refuse_if, ◌>>=◌, ◌>>◌, calculation_failure, insufficient_liquidity,
  insufficient_claim_amount,
}
use deltafi_contracts.Math.Checked.{checked_add, checked_sub}
use deltafi_contracts.Math.Decimal.{Decimal, try_mul_u64, try_div_u64, try_floor_u64}

-- The 32 bytes of a key, as the number that they spell from the lowest byte up.
abbrev pub Pubkey : Type 0
Pubkey = ℕ

abbrev pub min_claim_period : ℕ
min_claim_period = 2592000

pub record LiquidityPosition : Type 0 where
  pub pool : Pubkey
  pub liquidity_amount : ℕ
  pub rewards_owed : ℕ
  pub rewards_estimated : ℕ
  pub cumulative_interest : ℕ
  pub last_update_ts : ℤ
  pub next_claim_ts : ℤ

unfoldable pub new : Pubkey → ℤ → Result LiquidityPosition
new pool current_ts = do
  next_claim ← ok_or (checked_add_i64 current_ts (pos min_claim_period)) calculation_failure
  ok (record {
    pool = pool;
    liquidity_amount = 0;
    rewards_owed = 0;
    rewards_estimated = 0;
    cumulative_interest = 0;
    last_update_ts = current_ts;
    next_claim_ts = next_claim;
  })

unfoldable pub deposit : LiquidityPosition → ℕ → Result LiquidityPosition
deposit p deposit_amount = do
  amount ← ok_or (checked_add 64 p.liquidity_amount deposit_amount) calculation_failure
  ok (record p { liquidity_amount = amount })

unfoldable pub withdraw : LiquidityPosition → ℕ → Result LiquidityPosition
withdraw p withdraw_amount = do
  refuse_if (ltb p.liquidity_amount withdraw_amount) insufficient_liquidity
  amount ← ok_or (checked_sub p.liquidity_amount withdraw_amount) calculation_failure
  ok (record p { liquidity_amount = amount })

unfoldable pub update_claim_ts : LiquidityPosition → Result LiquidityPosition
update_claim_ts p =
    if not (p.liquidity_amount == 0)
    then (do
      next_claim ←
          ok_or (checked_add_i64 p.next_claim_ts (pos min_claim_period)) calculation_failure
      ok (record p { next_claim_ts = next_claim }))
    else ok p

-- The rewards for a period of more than no time.
unfoldable pub accrued : LiquidityPosition → Decimal → ℕ → Result ℕ
accrued p rewards_ratio calc_period = do
  whole ← try_mul_u64 rewards_ratio p.liquidity_amount
  rate ← try_div_u64 whole min_claim_period
  earned ← try_mul_u64 rate calc_period
  try_floor_u64 earned

unfoldable pub accrue : LiquidityPosition → Decimal → ℤ → Result LiquidityPosition
accrue p rewards_ratio current_ts = do
  calc_period ← ok_or (checked_sub_i64 current_ts p.last_update_ts) calculation_failure
  if ltb_ℤ (pos 0) calc_period
      then (do
        period ← unwrap (u64_try_from calc_period)
        floor ← accrued p rewards_ratio period
        estimated ← ok_or (checked_add 64 floor p.rewards_estimated) calculation_failure
        ok (record p { rewards_estimated = estimated; last_update_ts = current_ts }))
      else ok p

unfoldable pub settle : LiquidityPosition → ℤ → Result LiquidityPosition
settle p current_ts =
    if leb_ℤ p.next_claim_ts current_ts
    then (do
      owed ← ok_or (checked_add 64 p.rewards_owed p.rewards_estimated) calculation_failure
      update_claim_ts (record p { rewards_owed = owed; rewards_estimated = 0 }))
    else ok p

unfoldable pub calc_and_update_rewards : LiquidityPosition → Decimal → ℤ → Result LiquidityPosition
calc_and_update_rewards p rewards_ratio current_ts = do
  p' ← accrue p rewards_ratio current_ts
  settle p' current_ts

unfoldable pub claim_rewards : LiquidityPosition → Result (LiquidityPosition × ℕ)
claim_rewards p = do
  refuse_if (p.rewards_owed == 0) insufficient_claim_amount
  interest ← ok_or (checked_add 64 p.cumulative_interest p.rewards_owed) calculation_failure
  ok (record p { cumulative_interest = interest; rewards_owed = 0 }, p.rewards_owed)

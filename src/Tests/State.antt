-- ===== src/Tests/State.antt =====
-- Fees, rewards and positions at sample values.
use deltafi_contracts.Prelude.{◌⊎◌, ℕ, ◌+◌, ◌*◌, ◌≤◌, ◌<◌, ◌≡◌, refl, [], ◌∷◌, arith}
use deltafi_contracts.Prelude.Int.{pos, ◌≤ℤ◌, ◌<ℤ◌}
use deltafi_contracts.Outcome.{ok, ◌>>=◌}
use deltafi_contracts.Math.Checked.{wad}
use deltafi_contracts.Math.Decimal
use deltafi_contracts.Math.Decimal.{try_mul_u64, try_div_u64, try_floor_u64, try_round_u128}
use deltafi_contracts.Math.Sqrt
use deltafi_contracts.Math.Sqrt.{first_bit, bit_length, leading_zeros, round, sqrt_loop}
use deltafi_contracts.State.Fees.{trade_fee, admin_trade_fee, withdraw_fee, admin_withdraw_fee}
use deltafi_contracts.State.Fees.Bounds.{IsFraction}
use deltafi_contracts.State.Rewards.{trade_reward_u64}
use deltafi_contracts.State.Rewards.Bounds.{trade_reward_u64-root}
use deltafi_contracts.State.Position
use deltafi_contracts.State.Position.{
  LiquidityPosition, min_claim_period, update_claim_ts, accrued, accrue, settle,
  calc_and_update_rewards, claim_rewards,
}
use deltafi_contracts.State.Position.Accrual.{
  earned, claim_rewards-earned, IsRefreshed, calc_and_update_rewards-IsRefreshed,
  calc_and_update_rewards_again, calc_and_update_rewards-owed, accrued-le, accrued-add,
}
use deltafi_contracts.State.Liquidity.{
  LiquidityProvider, find_index, find_position_index, position_at, find_position,
  find_or_add_position, withdraw, claim,
}
use deltafi_contracts.State.Liquidity.Pools.{DistinctPools}
use deltafi_contracts.Tests.Samples.{fees, rewards, position, other_position, provider}

pub fees-IsFraction : IsFraction fees
fees-IsFraction = record {
  admin_trade = omega arith;
  admin_withdraw = omega arith;
  trade = omega arith;
  withdraw = omega arith;
}

trades : (trade_fee fees 1000 ≡ ok 60) × (admin_trade_fee fees 60 ≡ ok 30)
unfolding trade_fee admin_trade_fee ◌>>=◌
trades = (refl, refl)

withdraws : (withdraw_fee fees 1000 ≡ ok 60) × (admin_withdraw_fee fees 60 ≡ ok 30)
unfolding withdraw_fee admin_withdraw_fee ◌>>=◌
withdraws = (refl, refl)

rewarded : trade_reward_u64 rewards 1000 ≡ ok 15
unfolding trade_reward_u64 ◌>>=◌ try_mul_u64 try_div_u64 try_floor_u64 try_round_u128 Decimal.sqrt
    Sqrt.sqrt sqrt_loop round first_bit bit_length leading_zeros
rewarded = refl

-- A ratio of two units of reward for a unit of liquidity and a claim period.
month : accrued position 2000000000 2592000 ≡ ok 999
unfolding accrued ◌>>=◌ try_mul_u64 try_div_u64 try_floor_u64
month = refl

half_month : accrued position 2000000000 1296000 ≡ ok 499
unfolding accrued ◌>>=◌ try_mul_u64 try_div_u64 try_floor_u64
half_month = refl

abbrev refreshed : LiquidityPosition
refreshed = record position {
  rewards_owed = 1015;
  rewards_estimated = 0;
  last_update_ts = pos 2593000;
  next_claim_ts = pos 2594000;
}

refreshes : calc_and_update_rewards position 2000000000 (pos 2593000) ≡ ok refreshed
unfolding calc_and_update_rewards accrue settle update_claim_ts accrued ◌>>=◌ try_mul_u64
    try_div_u64 try_floor_u64
refreshes = refl

refreshes_again : calc_and_update_rewards refreshed 3000000000 (pos 2593000) ≡ ok refreshed
unfolding calc_and_update_rewards accrue settle update_claim_ts accrued ◌>>=◌ try_mul_u64
    try_div_u64 try_floor_u64
refreshes_again = refl

abbrev claimed : LiquidityPosition
claimed = record position { rewards_owed = 0; cumulative_interest = 41 }

claims : claim_rewards position ≡ ok (claimed, 11)
unfolding claim_rewards ◌>>=◌
claims = refl

abbrev partly_withdrawn : LiquidityProvider
partly_withdrawn = record provider {
  positions = record position { liquidity_amount = 200 } ∷ other_position ∷ [];
}

withdraws_part : withdraw provider 300 0 ≡ ok partly_withdrawn
unfolding withdraw position_at Position.withdraw ◌>>=◌
withdraws_part = refl

abbrev after_claim : LiquidityProvider
after_claim = record provider { positions = claimed ∷ other_position ∷ [] }

claims_pool : claim provider 7 ≡ ok (after_claim, 11)
unfolding claim find_position find_position_index find_index position_at claim_rewards ◌>>=◌
claims_pool = refl

abbrev extended : LiquidityProvider
extended = record provider {
  positions =
      position
      ∷ other_position
      ∷ record {
        pool = 9;
        liquidity_amount = 0;
        rewards_owed = 0;
        rewards_estimated = 0;
        cumulative_interest = 0;
        last_update_ts = pos 1000;
        next_claim_ts = pos 2593000;
      }
      ∷ [];
}

adds : find_or_add_position provider 9 (pos 1000) ≡ ok (extended, 2)
unfolding find_or_add_position find_position_index find_index Position.new ◌>>=◌
adds = refl

pub provider-DistinctPools : DistinctPools provider.positions
provider-DistinctPools = ((omega arith, tt), (tt, tt))

trade_reward_u64-root_example :
    (root : ℕ) × (root * root ≤ 1000)
    × (1000 < (root + 1) * (root + 1))
    × (15 ≤ 100)
    × (15 * 2 ≤ root * 1)
    × ((15 ≡ rewards.trade_reward_cap) ⊎ (root * 1 < (15 + 1) * 2))
trade_reward_u64-root_example = trade_reward_u64-root rewards 1000 15 (omega arith) rewarded

accrued-le_example : 999 * wad * min_claim_period ≤ 2000000000 * 500 * 2592000
accrued-le_example = accrued-le position 2000000000 2592000 999 month

accrued-add_example : (499 + 499 ≤ 999) × (999 ≤ 499 + 499 + 1)
accrued-add_example =
    accrued-add position 2000000000 1296000 1296000 499 499 999 half_month half_month month

calc_and_update_rewards-IsRefreshed_example : IsRefreshed position refreshed (pos 2593000)
calc_and_update_rewards-IsRefreshed_example =
    calc_and_update_rewards-IsRefreshed position refreshed 2000000000 (pos 2593000) refreshes

calc_and_update_rewards_again_example :
    (earned refreshed ≡ earned refreshed) × (refreshed.last_update_ts ≡ refreshed.last_update_ts)
calc_and_update_rewards_again_example =
    calc_and_update_rewards_again position refreshed refreshed 2000000000 3000000000 (pos 2593000)
      refreshes refreshes_again

calc_and_update_rewards-owed_example :
    ((pos 2593000 <ℤ pos 2000) × (refreshed.rewards_owed ≡ position.rewards_owed))
    ⊎ ((pos 2000 ≤ℤ pos 2593000)
        × (refreshed.rewards_estimated ≡ 0)
        × (11 + 5 ≤ refreshed.rewards_owed))
calc_and_update_rewards-owed_example =
    calc_and_update_rewards-owed position refreshed 2000000000 (pos 2593000) refreshes

claim_rewards-earned_example :
    (11 ≡ position.rewards_owed)
    × (0 < 11)
    × (claimed.rewards_owed ≡ 0)
    × (claimed.cumulative_interest ≡ 30 + 11)
    × (earned claimed ≡ earned position)
    × (claimed.liquidity_amount ≡ position.liquidity_amount)
claim_rewards-earned_example = claim_rewards-earned position claimed 11 claims

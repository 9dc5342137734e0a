-- ===== src/State/Rewards.antt =====
-- state/rewards.rs: the reward rates and the rewards that they give. All amounts are u64.
pub mod Bounds
pub mod Packing
use deltafi_contracts.Prelude.{ℕ, ltb, if◌then◌else◌}
use deltafi_contracts.Outcome.{Result, ok, ◌>>=◌}
use deltafi_contracts.Math.Decimal.{try_mul_u64, try_div_u64, try_floor_u64, from_u64, sqrt}

pub record Rewards : Type 0 where
  pub trade_reward_numerator : ℕ
  pub trade_reward_denominator : ℕ
  pub trade_reward_cap : ℕ
  pub liquidity_reward_numerator : ℕ
  pub liquidity_reward_denominator : ℕ

-- `Rewards::new`, which copies field by field.
abbrev pub new : Rewards → Rewards
new params = record {
  trade_reward_numerator = params.trade_reward_numerator;
  trade_reward_denominator = params.trade_reward_denominator;
  trade_reward_cap = params.trade_reward_cap;
  liquidity_reward_numerator = params.liquidity_reward_numerator;
  liquidity_reward_denominator = params.liquidity_reward_denominator;
}

unfoldable pub trade_reward_u64 : Rewards → ℕ → Result ℕ
trade_reward_u64 r amount = do
  root ← sqrt (from_u64 amount)
  product ← try_mul_u64 root r.trade_reward_numerator
  c_reward ← try_div_u64 product r.trade_reward_denominator
  if ltb (from_u64 r.trade_reward_cap) c_reward
      then ok r.trade_reward_cap
      else try_floor_u64 c_reward

unfoldable pub liquidity_reward_u64 : Rewards → ℕ → Result ℕ
liquidity_reward_u64 r amount = do
  product ← try_mul_u64 (from_u64 amount) r.liquidity_reward_numerator
  reward ← try_div_u64 product r.liquidity_reward_denominator
  try_floor_u64 reward

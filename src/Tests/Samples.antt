-- ===== src/Tests/Samples.antt =====
-- Sample states. A token amount is in its smallest unit; decimals carry nine places.
use deltafi_contracts.Prelude.{true, false, [], ◌∷◌}
use deltafi_contracts.Prelude.Int.{pos}
use deltafi_contracts.State.Fees.{Fees}
use deltafi_contracts.State.Rewards.{Rewards}
use deltafi_contracts.State.Position.{LiquidityPosition}
use deltafi_contracts.State.Liquidity.{LiquidityProvider}
use deltafi_contracts.State.Swap.{SwapInfo}
use deltafi_contracts.State.Config.{ConfigInfo}
use deltafi_contracts.Instruction.Read.{sell_base}
use deltafi_contracts.Instruction.Swap.{SwapInstruction, swap}
use deltafi_contracts.Instruction.Admin.{AdminInstruction, AdminInitializeData, set_new_fees}
use deltafi_contracts.Curve.Pool.{PoolState, one, above_one, below_one}

-- A balanced pool of 1000 base and 2000 quote tokens at a price of two and a slope of a tenth.
abbrev pub balanced : PoolState
balanced = record {
  market_price = 2000000000;
  slope = 100000000;
  base_target = 1000000000000;
  quote_target = 2000000000000;
  base_reserve = 1000000000000;
  quote_reserve = 2000000000000;
  multiplier = one;
}

-- The same pool, short of 100 base tokens and with 210 quote tokens above the target.
abbrev pub short_of_base : PoolState
short_of_base = record balanced {
  base_reserve = 900000000000;
  quote_reserve = 2210000000000;
  multiplier = above_one;
}

abbrev pub short_of_quote : PoolState
short_of_quote = record balanced {
  base_reserve = 1050000000000;
  quote_reserve = 1900000000000;
  multiplier = below_one;
}

-- The balanced pool after a deposit of 100 base and 300 quote tokens.
abbrev pub deposited : PoolState
deposited = record balanced {
  base_target = 1100000000000;
  quote_target = 2200000000000;
  base_reserve = 1100000000000;
  quote_reserve = 2300000000000;
}

-- The balanced pool after a tenth of its shares was withdrawn.
abbrev pub withdrawn : PoolState
withdrawn = record balanced {
  base_target = 900000000000;
  quote_target = 1800000000000;
  base_reserve = 900000000000;
  quote_reserve = 1800000000000;
}

abbrev pub fees : Fees
fees = record {
  admin_trade_fee_numerator = 1;
  admin_trade_fee_denominator = 2;
  admin_withdraw_fee_numerator = 1;
  admin_withdraw_fee_denominator = 2;
  trade_fee_numerator = 6;
  trade_fee_denominator = 100;
  withdraw_fee_numerator = 6;
  withdraw_fee_denominator = 100;
}

abbrev pub rewards : Rewards
rewards = record {
  trade_reward_numerator = 1;
  trade_reward_denominator = 2;
  trade_reward_cap = 100;
  liquidity_reward_numerator = 1;
  liquidity_reward_denominator = 1000;
}

-- 500 units in pool 7, updated at time 1000 and due from time 2000 on.
abbrev pub position : LiquidityPosition
position = record {
  pool = 7;
  liquidity_amount = 500;
  rewards_owed = 11;
  rewards_estimated = 5;
  cumulative_interest = 30;
  last_update_ts = pos 1000;
  next_claim_ts = pos 2000;
}

abbrev pub other_position : LiquidityPosition
other_position = record position { pool = 8; liquidity_amount = 40 }

abbrev pub provider : LiquidityProvider
provider = record { is_initialized = true; owner = 3; positions = position ∷ other_position ∷ [] }

abbrev pub eleven : LiquidityProvider
eleven = record provider {
  positions =
      position ∷ position ∷ position ∷ position ∷ position ∷ position ∷ position ∷ position
      ∷ position ∷ position ∷ position ∷ [];
}

abbrev pub swap_info : SwapInfo
swap_info = record {
  is_initialized = true;
  is_paused = false;
  nonce = 254;
  token_a = 11;
  token_b = 12;
  pool_mint = 13;
  token_a_mint = 14;
  token_b_mint = 15;
  admin_fee_key_a = 16;
  admin_fee_key_b = 17;
  fees = fees;
  rewards = rewards;
  pool_state = short_of_base;
  is_open_twap = true;
  block_timestamp_last = 1000;
  cumulative_ticks = 60;
  base_price_cumulative_last = 120000000000;
}

abbrev pub config_info : ConfigInfo
config_info = record {
  version = 1;
  bump_seed = 255;
  admin_key = 21;
  deltafi_mint = 22;
  fees = fees;
  rewards = rewards;
}

abbrev pub sale : SwapInstruction
sale = swap (record { amount_in = 150; minimum_amount_out = 300; swap_direction = sell_base })

abbrev pub settings : AdminInitializeData
settings = record { fees = fees; rewards = rewards }

abbrev pub set_fees : AdminInstruction
set_fees = set_new_fees fees

-- ===== src/Tests/Codec.antt =====
-- Encodings of sample values.
use deltafi_contracts.Prelude.{
  ℕ, ◌+◌, ℕ, ◌≡◌, refl, zero, suc, ◌==◌, if◌then◌else◌, [], ◌∷◌, length, arith,
}
use deltafi_contracts.Outcome.{Result, ok, err, invalid_account_data, panicked}
use deltafi_contracts.Bytes.{Bytes}
use deltafi_contracts.Curve.Pool.Packing.{IsPackable}
use deltafi_contracts.State.Fees.Packing as Fees
use deltafi_contracts.State.Fees.Packing.{IsFees, fees_unpack-pack}
use deltafi_contracts.State.Rewards.Packing as Rewards
use deltafi_contracts.State.Rewards.Packing.{IsRewards, rewards_unpack-pack}
use deltafi_contracts.State.Swap as Swap
use deltafi_contracts.State.Swap.Packing.{IsSwapInfo, swap_info_unpack-pack}
use deltafi_contracts.State.Config as Config
use deltafi_contracts.State.Config.Packing.{IsConfigInfo, config_info_unpack-pack}
use deltafi_contracts.State.Liquidity.Packing as Provider
use deltafi_contracts.State.Liquidity.Packing.RoundTrip.{
  IsPosition, provider_unpack-pack, provider_pack-panicked,
}
use deltafi_contracts.Instruction.Swap as SwapInstruction
use deltafi_contracts.Instruction.Swap.RoundTrip.{swap_instruction_unpack-pack}
use deltafi_contracts.Instruction.Admin as AdminInstruction
use deltafi_contracts.Instruction.Admin.{IsUnpackUnchecked}
use deltafi_contracts.Instruction.Admin.RoundTrip.{admin_instruction_unpack-pack}
use deltafi_contracts.Tests.Samples.{
  fees, rewards, position, other_position, provider, eleven, short_of_base, swap_info, config_info,
  sale, set_fees,
}

pub fees-IsFees : IsFees fees
fees-IsFees = record {
  admin_trade_numerator = omega arith;
  admin_trade_denominator = omega arith;
  admin_withdraw_numerator = omega arith;
  admin_withdraw_denominator = omega arith;
  trade_numerator = omega arith;
  trade_denominator = omega arith;
  withdraw_numerator = omega arith;
  withdraw_denominator = omega arith;
}

pub rewards-IsRewards : IsRewards rewards
rewards-IsRewards = record {
  trade_numerator = omega arith;
  trade_denominator = omega arith;
  cap = omega arith;
  liquidity_numerator = omega arith;
  liquidity_denominator = omega arith;
}

config_info-IsConfigInfo : IsConfigInfo config_info
config_info-IsConfigInfo = record {
  version = omega arith;
  bump_seed = omega arith;
  admin_key = omega arith;
  deltafi_mint = omega arith;
  fees = fees-IsFees;
  rewards = rewards-IsRewards;
}

position-IsPosition : IsPosition position
position-IsPosition = record {
  pool = omega arith;
  liquidity_amount = omega arith;
  rewards_owed = omega arith;
  rewards_estimated = omega arith;
  cumulative_interest = omega arith;
  last_update_ts = refl;
  next_claim_ts = refl;
}

other_position-IsPosition : IsPosition other_position
other_position-IsPosition = record {
  pool = omega arith;
  liquidity_amount = omega arith;
  rewards_owed = omega arith;
  rewards_estimated = omega arith;
  cumulative_interest = omega arith;
  last_update_ts = refl;
  next_claim_ts = refl;
}

fees_unpack-pack_example :
    Fees.unpack_from_slice (Fees.pack_into_slice fees (5 ∷ [])) ≡ ok (fees, 5 ∷ [])
fees_unpack-pack_example = fees_unpack-pack fees (5 ∷ []) fees-IsFees

rewards_unpack-pack_example :
    Rewards.unpack_from_slice (Rewards.pack_into_slice rewards (5 ∷ [])) ≡ ok (rewards, 5 ∷ [])
rewards_unpack-pack_example = rewards_unpack-pack rewards (5 ∷ []) rewards-IsRewards

config_info_unpack-pack_example :
    (Config.unpack_from_slice (Config.pack_into_slice config_info []) ≡ ok (config_info, []))
    × (length (Config.pack_into_slice config_info []) ≡ 170)
config_info_unpack-pack_example = config_info_unpack-pack config_info [] config_info-IsConfigInfo

short_of_base-IsPackable : IsPackable short_of_base
short_of_base-IsPackable = record {
  market_price = omega arith;
  slope = omega arith;
  base_reserve = omega arith;
  quote_reserve = omega arith;
  base_target = omega arith;
  quote_target = omega arith;
}

pub swap_info-IsSwapInfo : IsSwapInfo swap_info
swap_info-IsSwapInfo = record {
  nonce = omega arith;
  token_a = omega arith;
  token_b = omega arith;
  pool_mint = omega arith;
  token_a_mint = omega arith;
  token_b_mint = omega arith;
  admin_fee_key_a = omega arith;
  admin_fee_key_b = omega arith;
  fees = fees-IsFees;
  rewards = rewards-IsRewards;
  block_timestamp_last = omega arith;
  cumulative_ticks = omega arith;
  pool_state = short_of_base-IsPackable;
  base_price_cumulative_last = omega arith;
}

swap_info_unpack-pack_example :
    (output : Bytes) × (Swap.pack_into_slice swap_info [] ≡ ok output)
    × (Swap.unpack_from_slice output ≡ ok (swap_info, []))
    × (length output ≡ 461 + length {A = ℕ} [])
swap_info_unpack-pack_example = swap_info_unpack-pack swap_info [] swap_info-IsSwapInfo

abbrev zeros : ℕ → Bytes
zeros zero = []
zeros (suc n) = 0 ∷ zeros n

provider_unpack-pack_example :
    (output : Bytes) × (Provider.pack_into_slice provider (zeros 800) ≡ ok output)
    × (length output ≡ 834)
    × (Provider.unpack_from_slice output ≡ ok provider)
provider_unpack-pack_example =
    provider_unpack-pack provider (zeros 800) refl (omega arith)
      (position-IsPosition, (other_position-IsPosition, tt)) (omega arith)

provider_pack-panicked_example : Provider.pack_into_slice eleven (zeros 800) ≡ panicked
provider_pack-panicked_example = provider_pack-panicked eleven (zeros 800) refl (omega arith)

swap_instruction_unpack-pack_example : SwapInstruction.unpack (SwapInstruction.pack sale) ≡ ok sale
swap_instruction_unpack-pack_example = swap_instruction_unpack-pack sale (omega arith, omega arith)

-- `unpack_unchecked` as the reader itself where the length fits, and an error elsewhere.
unfoldable checked_unpack : (A : Type 0) → ℕ → (Bytes → Result A) → Bytes → Result A
checked_unpack A size unpack_from_slice input =
    if length input == size then unpack_from_slice input else err invalid_account_data

checked_unpack-IsUnpackUnchecked : IsUnpackUnchecked checked_unpack
unfolding checked_unpack
checked_unpack-IsUnpackUnchecked = record { at_size = λ {A} size read input e. ground arith }

admin_instruction_unpack-pack_example :
    AdminInstruction.unpack checked_unpack (AdminInstruction.pack set_fees) ≡ ok set_fees
admin_instruction_unpack-pack_example =
    admin_instruction_unpack-pack checked_unpack checked_unpack-IsUnpackUnchecked set_fees
      fees-IsFees

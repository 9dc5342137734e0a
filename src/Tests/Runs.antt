-- ===== src/Tests/Runs.antt =====
-- Sample accounts for the handlers, and that the code runs on them.
use deltafi_contracts.State.Position.{Pubkey}
use deltafi_contracts.Prelude.{ℕ, ◌≡◌, refl, true, List, [], ◌∷◌}
use deltafi_contracts.Outcome.{Result, ok, ◌>>=◌}
use deltafi_contracts.State.Pack.{config_pack, swap_pack, provider_pack}
use deltafi_contracts.Runtime.{AccountInfo, Clock}
use deltafi_contracts.Runtime.Accounts.{load, save}
use deltafi_contracts.Tests.Samples.{swap_info, config_info, provider}
use deltafi_contracts.Tests.Accounts.{
  runtime, store, at, signer, now, is_ok, ok_of, runtime-IsRuntime, runtime-KeepsOthers,
}
use deltafi_contracts.Instruction.Read.{sell_base}
use deltafi_contracts.Instruction.Swap.{SwapData, DepositData, WithdrawData, InitializeData}
use deltafi_contracts.Prelude.Int.{pos, negsuc}
use deltafi_contracts.Runtime.{Price, price}
use deltafi_contracts.Curve.Pool.{PoolState}
use deltafi_contracts.State.Swap.{SwapInfo}
use deltafi_contracts.Tests.Samples.{short_of_base}
use deltafi_contracts.Processor.Claimed.{ClaimAccounts, listed}
use deltafi_contracts.Bytes as By
use deltafi_contracts.State.Fees.Packing as FeP
use deltafi_contracts.State.Rewards.Packing as ReP
use deltafi_contracts.Curve.Pool.Packing as PoP
use deltafi_contracts.State.Config as Cf
use deltafi_contracts.State.Swap as Sw
use deltafi_contracts.State.Liquidity.Packing as LiP
use deltafi_contracts.State.Pack as Pk
use deltafi_contracts.Runtime.Accounts as Ac
use deltafi_contracts.Curve.Pool as Cp
use deltafi_contracts.Tests.Accounts as TA
use deltafi_contracts.Math.Decimal as De
use deltafi_contracts.Math.Sqrt as Sq
use deltafi_contracts.Curve.Calc as Ca
use deltafi_contracts.State.Fees as Fe
use deltafi_contracts.State.Rewards as Re
use deltafi_contracts.State.Position as Po
use deltafi_contracts.State.Liquidity as Li
use deltafi_contracts.Processor.Oracle as Or
use deltafi_contracts.Processor.Trade as Td
use deltafi_contracts.Processor.Swap as Ps
use deltafi_contracts.Processor.Deposit as Pd
use deltafi_contracts.Processor.Withdraw as Pw
use deltafi_contracts.Processor.Liquidity as Pl
use deltafi_contracts.Processor.Initialize as Pi
use deltafi_contracts.Admin as Ad
use deltafi_contracts.Instruction.Admin as IA
use deltafi_contracts.Instruction.Read as IR

abbrev pub swap_accounts : Ps.SwapAccounts
swap_accounts = record {
  config_info = at 1;
  swap_info = at 7;
  market_authority_info = at 77;
  swap_authority_info = at 77;
  user_transfer_authority_info = signer 9;
  source_info = at 31;
  swap_source_info = at 11;
  swap_destination_info = at 12;
  destination_info = at 32;
  reward_token_info = at 23;
  reward_mint_info = at 22;
  admin_destination_info = at 17;
  pyth_a_price_info = at 41;
  pyth_b_price_info = at 42;
  clock = now;
  token_program_info = at 200;
}

abbrev pub trade : SwapData
trade = record { amount_in = 150; minimum_amount_out = 200; swap_direction = sell_base }

abbrev pub deposit_accounts : Pd.DepositAccounts
deposit_accounts = record {
  swap_info = at 7;
  authority_info = at 77;
  user_transfer_authority_info = signer 9;
  source_a_info = at 31;
  source_b_info = at 32;
  token_a_info = at 11;
  token_b_info = at 12;
  pool_mint_info = at 13;
  destination_info = at 34;
  liquidity_provider_info = at 4;
  liquidity_owner_info = signer 3;
  pyth_a_price_info = at 41;
  pyth_b_price_info = at 42;
  clock = now;
  token_program_info = at 200;
}

abbrev pub offer : DepositData
offer = record { token_a_amount = 90; token_b_amount = 221; min_mint_amount = 50 }

abbrev pub withdraw_accounts : Pw.WithdrawAccounts
withdraw_accounts = record {
  swap_info = at 7;
  authority_info = at 77;
  user_transfer_authority_info = signer 9;
  pool_mint_info = at 13;
  source_info = at 34;
  token_a_info = at 11;
  token_b_info = at 12;
  dest_token_a_info = at 31;
  dest_token_b_info = at 32;
  admin_fee_dest_a_info = at 16;
  admin_fee_dest_b_info = at 17;
  liquidity_provider_info = at 4;
  liquidity_owner_info = signer 3;
  pyth_a_price_info = at 41;
  pyth_b_price_info = at 42;
  clock = now;
  token_program_info = at 200;
}

abbrev pub taken : WithdrawData
taken = record { pool_token_amount = 100; minimum_token_a_amount = 5; minimum_token_b_amount = 5 }

abbrev pub claim_accounts : ClaimAccounts
claim_accounts = record {
  config_info = at 1;
  swap_info = at 7;
  market_authority_info = at 77;
  liquidity_provider_info = at 4;
  liquidity_owner_info = signer 3;
  claim_destination_info = at 23;
  claim_mint_info = at 22;
  token_program_info = at 200;
  others = [];
}

abbrev pub four : Price
four = record {
  ptype = price;
  expo = negsuc 1;
  valid_slot = 50;
  agg = record { price = pos 400; conf = 3 };
}

abbrev pub initialize_accounts : Pi.InitializeAccounts
initialize_accounts = record {
  config_info = at 1;
  swap_info = at 60;
  authority_info = at 77;
  admin_fee_a_info = at 16;
  admin_fee_b_info = at 17;
  token_a_info = at 11;
  token_b_info = at 12;
  pool_mint_info = at 61;
  destination_info = at 34;
  pyth_a_price_info = at 41;
  pyth_b_price_info = at 42;
  clock = now;
  token_program_info = at 200;
}

abbrev pub start : InitializeData
start = record { nonce = 250; slope = 100000000; mid_price = 2000000000; is_open_twap = true }

abbrev pub admins : List AccountInfo
admins = at 1 ∷ at 7 ∷ signer 21 ∷ []

pub samples_loads_run :
    (load runtime config_pack store (at 1) ≡ ok config_info)
    × (load runtime swap_pack store (at 7) ≡ ok swap_info)
    × (load runtime provider_pack store (at 4) ≡ ok provider)
unfolding ◌>>=◌ By.put_le By.take_le By.from_i64 By.to_i64 By.unpack_bool By.take_bool
    FeP.pack_into_slice FeP.unpack_from_slice ReP.pack_into_slice ReP.unpack_from_slice
    PoP.pack_decimal PoP.unpack_decimal PoP.pack_into_slice PoP.unpack_from_slice Cf.pack_into_slice
    Cf.checked_version Cf.unpack_from_slice Sw.pack_into_slice Sw.unpack_from_slice LiP.put_position
    LiP.put_positions LiP.pack_into_slice LiP.take_position LiP.take_positions LiP.unpack_from_slice
    Pk.front Ac.load Ac.save Ac.assert_uninitialized Ac.unpack_mint Ac.unpack_token_account
    Ac.authority_id Ac.token_transfer Ac.token_mint_to Ac.token_burn Ac.set_authority
    Ac.assert_rent_exempt Cp.multiplier_try_from Cp.adjust_quote_target Cp.adjust_base_target
    Cp.adjust_target Cp.new Cp.mid_multiplier Cp.get_mid_price Cp.sell_base_token_with_multiplier
    Cp.sell_base_above_one Cp.sell_base_amount Cp.sell_base_token
    Cp.sell_quote_token_with_multiplier Cp.sell_quote_below_one Cp.sell_quote_amount
    Cp.sell_quote_token Cp.buy_initial Cp.buy_proportional Cp.buy_shares Cp.share_of Cp.sell_shares
    Cp.deposit_amounts Cp.calculate_deposit_amount TA.take_initialized TA.sized_unpack TA.sized_pack
    De.from_percent De.to_scaled_val De.try_round_u128 De.try_ceil_u128 De.try_floor_u128
    De.try_round_u64 De.try_ceil_u64 De.try_floor_u64 De.sqrt De.reciprocal De.try_add De.try_sub
    De.try_div_u64 De.try_div De.try_mul_u64 De.try_mul Sq.bit_length Sq.leading_zeros Sq.first_bit
    Sq.round Sq.sqrt_loop Sq.sqrt Ca.get_target_amount Ca.adjusted_ratio Ca.candidate_reserve
    Ca.get_target_amount_reverse_direction Ca.target_reserve_root Ca.get_target_reserve
    Fe.admin_trade_fee Fe.admin_withdraw_fee Fe.trade_fee Fe.withdraw_fee Re.trade_reward_u64
    Re.liquidity_reward_u64 Po.new Po.deposit Po.withdraw Po.update_claim_ts Po.accrued Po.accrue
    Po.settle Po.calc_and_update_rewards Po.claim_rewards Li.find_index Li.find_position_index
    Li.position_at Li.find_position Li.find_or_add_position Li.withdraw Li.claim Or.scaled_price
    Or.price_of Or.price_ratio Or.or_else Or.accumulate Or.fallback_price Or.settle_price
    Or.get_pyth_price Or.get_market_price_from_pyth Or.get_new_market_price Td.receive Td.balances
    Td.swap_amounts Td.record_time Td.settle_swap Ps.check_direction Ps.swap_accounts Ps.check_swap
    Ps.pay_legs Ps.pay_swap Ps.swap_with Ps.process_swap Pd.credit Pd.deposit_shares
    Pd.check_provider Pd.deposit_accounts Pd.check_deposit Pd.pay_deposit Pd.deposit_with
    Pd.process_deposit Pw.less_fee Pw.withdraw_amounts Pw.debit Pw.withdraw_accounts
    Pw.check_withdraw Pw.pay_withdraw Pw.withdraw_with Pw.process_withdraw Pl.refreshed
    Pl.get_reward_ratio Pl.refresh_all Pl.process_init_liquidity_provider Pl.check_claim
    Pl.process_claim_liquidity_rewards Pl.process_refresh_liquidity_obligation Pi.check_tokens
    Pi.empty_pool Pi.first_pool Pi.new_swap Pi.initialize_accounts Pi.read_tokens Pi.initialize_with
    Pi.process_initialize Ad.is_admin Ad.with_fee_account Ad.process_initialize Ad.admitted
    Ad.edit_swap Ad.process_set_fee_account Ad.process_commit_new_admin Ad.dispatch
    Ad.process_admin_instruction IA.fees_from_slice IA.rewards_from_slice IA.split_at
    IA.unpack_initialize IA.unpack_tagged IA.unpack IA.pack IR.unpack_u8 IR.unpack_u64
    IR.unpack_u128 IR.unpack_pubkey IR.bool_of IR.unpack_bool IR.direction_of
    IR.unpack_swap_direction
samples_loads_run = (refl, refl, refl)

pub samples_handlers_run :
    (is_ok (Ps.swap_with runtime 100 swap_accounts trade store) ≡ true)
    × (is_ok (Pd.deposit_with runtime 100 deposit_accounts offer store) ≡ true)
    × (is_ok (Pw.withdraw_with runtime 100 withdraw_accounts taken store) ≡ true)
    × (is_ok (Pl.process_claim_liquidity_rewards runtime 100 (listed claim_accounts) store) ≡ true)
    × (is_ok (Ad.process_admin_instruction runtime 100 admins (101 ∷ []) store) ≡ true)
    × (is_ok (Ad.process_pause runtime 100 admins store) ≡ true)
    × (is_ok (Pi.initialize_with runtime 100 initialize_accounts start store) ≡ true)
unfolding ◌>>=◌ By.put_le By.take_le By.from_i64 By.to_i64 By.unpack_bool By.take_bool
    FeP.pack_into_slice FeP.unpack_from_slice ReP.pack_into_slice ReP.unpack_from_slice
    PoP.pack_decimal PoP.unpack_decimal PoP.pack_into_slice PoP.unpack_from_slice Cf.pack_into_slice
    Cf.checked_version Cf.unpack_from_slice Sw.pack_into_slice Sw.unpack_from_slice LiP.put_position
    LiP.put_positions LiP.pack_into_slice LiP.take_position LiP.take_positions LiP.unpack_from_slice
    Pk.front Ac.load Ac.save Ac.assert_uninitialized Ac.unpack_mint Ac.unpack_token_account
    Ac.authority_id Ac.token_transfer Ac.token_mint_to Ac.token_burn Ac.set_authority
    Ac.assert_rent_exempt Cp.multiplier_try_from Cp.adjust_quote_target Cp.adjust_base_target
    Cp.adjust_target Cp.new Cp.mid_multiplier Cp.get_mid_price Cp.sell_base_token_with_multiplier
    Cp.sell_base_above_one Cp.sell_base_amount Cp.sell_base_token
    Cp.sell_quote_token_with_multiplier Cp.sell_quote_below_one Cp.sell_quote_amount
    Cp.sell_quote_token Cp.buy_initial Cp.buy_proportional Cp.buy_shares Cp.share_of Cp.sell_shares
    Cp.deposit_amounts Cp.calculate_deposit_amount TA.take_initialized TA.sized_unpack TA.sized_pack
    De.from_percent De.to_scaled_val De.try_round_u128 De.try_ceil_u128 De.try_floor_u128
    De.try_round_u64 De.try_ceil_u64 De.try_floor_u64 De.sqrt De.reciprocal De.try_add De.try_sub
    De.try_div_u64 De.try_div De.try_mul_u64 De.try_mul Sq.bit_length Sq.leading_zeros Sq.first_bit
    Sq.round Sq.sqrt_loop Sq.sqrt Ca.get_target_amount Ca.adjusted_ratio Ca.candidate_reserve
    Ca.get_target_amount_reverse_direction Ca.target_reserve_root Ca.get_target_reserve
    Fe.admin_trade_fee Fe.admin_withdraw_fee Fe.trade_fee Fe.withdraw_fee Re.trade_reward_u64
    Re.liquidity_reward_u64 Po.new Po.deposit Po.withdraw Po.update_claim_ts Po.accrued Po.accrue
    Po.settle Po.calc_and_update_rewards Po.claim_rewards Li.find_index Li.find_position_index
    Li.position_at Li.find_position Li.find_or_add_position Li.withdraw Li.claim Or.scaled_price
    Or.price_of Or.price_ratio Or.or_else Or.accumulate Or.fallback_price Or.settle_price
    Or.get_pyth_price Or.get_market_price_from_pyth Or.get_new_market_price Td.receive Td.balances
    Td.swap_amounts Td.record_time Td.settle_swap Ps.check_direction Ps.swap_accounts Ps.check_swap
    Ps.pay_legs Ps.pay_swap Ps.swap_with Ps.process_swap Pd.credit Pd.deposit_shares
    Pd.check_provider Pd.deposit_accounts Pd.check_deposit Pd.pay_deposit Pd.deposit_with
    Pd.process_deposit Pw.less_fee Pw.withdraw_amounts Pw.debit Pw.withdraw_accounts
    Pw.check_withdraw Pw.pay_withdraw Pw.withdraw_with Pw.process_withdraw Pl.refreshed
    Pl.get_reward_ratio Pl.refresh_all Pl.process_init_liquidity_provider Pl.check_claim
    Pl.process_claim_liquidity_rewards Pl.process_refresh_liquidity_obligation Pi.check_tokens
    Pi.empty_pool Pi.first_pool Pi.new_swap Pi.initialize_accounts Pi.read_tokens Pi.initialize_with
    Pi.process_initialize Ad.is_admin Ad.with_fee_account Ad.process_initialize Ad.admitted
    Ad.edit_swap Ad.process_set_fee_account Ad.process_commit_new_admin Ad.dispatch
    Ad.process_admin_instruction IA.fees_from_slice IA.rewards_from_slice IA.split_at
    IA.unpack_initialize IA.unpack_tagged IA.unpack IA.pack IR.unpack_u8 IR.unpack_u64
    IR.unpack_u128 IR.unpack_pubkey IR.bool_of IR.unpack_bool IR.direction_of
    IR.unpack_swap_direction
samples_handlers_run = (refl, refl, refl, refl, refl, refl, refl)

-- A claim and a deposit after it.
abbrev pub claimed_and_credited :
    Li.LiquidityProvider → Pubkey → Clock → ℕ → Result Li.LiquidityProvider
claimed_and_credited p pool clock amount = Li.claim p pool >>= λ r. Pd.credit r.0 pool clock amount

pub samples_amounts_run :
    (is_ok (Td.swap_amounts swap_info short_of_base trade 900 2210) ≡ true)
    × (is_ok (Pw.withdraw_amounts swap_info short_of_base taken 1000) ≡ true)
    × (Or.price_ratio 2000000000 4000000000 ≡ ok 2000000000)
    × (Or.price_of four now ≡ ok 4000000000)
    × (is_ok (Or.get_new_market_price runtime store swap_info (at 41) (at 42) now) ≡ true)
    × (is_ok (Li.claim provider 7) ≡ true)
    × (is_ok (Pd.credit (Li.new 3 []) 7 now 100) ≡ true)
    × (is_ok (claimed_and_credited provider 7 now 100) ≡ true)
unfolding ◌>>=◌ By.put_le By.take_le By.from_i64 By.to_i64 By.unpack_bool By.take_bool
    FeP.pack_into_slice FeP.unpack_from_slice ReP.pack_into_slice ReP.unpack_from_slice
    PoP.pack_decimal PoP.unpack_decimal PoP.pack_into_slice PoP.unpack_from_slice Cf.pack_into_slice
    Cf.checked_version Cf.unpack_from_slice Sw.pack_into_slice Sw.unpack_from_slice LiP.put_position
    LiP.put_positions LiP.pack_into_slice LiP.take_position LiP.take_positions LiP.unpack_from_slice
    Pk.front Ac.load Ac.save Ac.assert_uninitialized Ac.unpack_mint Ac.unpack_token_account
    Ac.authority_id Ac.token_transfer Ac.token_mint_to Ac.token_burn Ac.set_authority
    Ac.assert_rent_exempt Cp.multiplier_try_from Cp.adjust_quote_target Cp.adjust_base_target
    Cp.adjust_target Cp.new Cp.mid_multiplier Cp.get_mid_price Cp.sell_base_token_with_multiplier
    Cp.sell_base_above_one Cp.sell_base_amount Cp.sell_base_token
    Cp.sell_quote_token_with_multiplier Cp.sell_quote_below_one Cp.sell_quote_amount
    Cp.sell_quote_token Cp.buy_initial Cp.buy_proportional Cp.buy_shares Cp.share_of Cp.sell_shares
    Cp.deposit_amounts Cp.calculate_deposit_amount TA.take_initialized TA.sized_unpack TA.sized_pack
    De.from_percent De.to_scaled_val De.try_round_u128 De.try_ceil_u128 De.try_floor_u128
    De.try_round_u64 De.try_ceil_u64 De.try_floor_u64 De.sqrt De.reciprocal De.try_add De.try_sub
    De.try_div_u64 De.try_div De.try_mul_u64 De.try_mul Sq.bit_length Sq.leading_zeros Sq.first_bit
    Sq.round Sq.sqrt_loop Sq.sqrt Ca.get_target_amount Ca.adjusted_ratio Ca.candidate_reserve
    Ca.get_target_amount_reverse_direction Ca.target_reserve_root Ca.get_target_reserve
    Fe.admin_trade_fee Fe.admin_withdraw_fee Fe.trade_fee Fe.withdraw_fee Re.trade_reward_u64
    Re.liquidity_reward_u64 Po.new Po.deposit Po.withdraw Po.update_claim_ts Po.accrued Po.accrue
    Po.settle Po.calc_and_update_rewards Po.claim_rewards Li.find_index Li.find_position_index
    Li.position_at Li.find_position Li.find_or_add_position Li.withdraw Li.claim Or.scaled_price
    Or.price_of Or.price_ratio Or.or_else Or.accumulate Or.fallback_price Or.settle_price
    Or.get_pyth_price Or.get_market_price_from_pyth Or.get_new_market_price Td.receive Td.balances
    Td.swap_amounts Td.record_time Td.settle_swap Ps.check_direction Ps.swap_accounts Ps.check_swap
    Ps.pay_legs Ps.pay_swap Ps.swap_with Ps.process_swap Pd.credit Pd.deposit_shares
    Pd.check_provider Pd.deposit_accounts Pd.check_deposit Pd.pay_deposit Pd.deposit_with
    Pd.process_deposit Pw.less_fee Pw.withdraw_amounts Pw.debit Pw.withdraw_accounts
    Pw.check_withdraw Pw.pay_withdraw Pw.withdraw_with Pw.process_withdraw Pl.refreshed
    Pl.get_reward_ratio Pl.refresh_all Pl.process_init_liquidity_provider Pl.check_claim
    Pl.process_claim_liquidity_rewards Pl.process_refresh_liquidity_obligation Pi.check_tokens
    Pi.empty_pool Pi.first_pool Pi.new_swap Pi.initialize_accounts Pi.read_tokens Pi.initialize_with
    Pi.process_initialize Ad.is_admin Ad.with_fee_account Ad.process_initialize Ad.admitted
    Ad.edit_swap Ad.process_set_fee_account Ad.process_commit_new_admin Ad.dispatch
    Ad.process_admin_instruction IA.fees_from_slice IA.rewards_from_slice IA.split_at
    IA.unpack_initialize IA.unpack_tagged IA.unpack IA.pack IR.unpack_u8 IR.unpack_u64
    IR.unpack_u128 IR.unpack_pubkey IR.bool_of IR.unpack_bool IR.direction_of
    IR.unpack_swap_direction
samples_amounts_run = (refl, refl, refl, refl, refl, refl, refl, refl)

-- ===== src/Processor/Liquidity.antt =====
-- processor.rs: the accounts of liquidity providers: `process_init_liquidity_provider`,
-- `process_claim_liquidity_rewards` and `process_refresh_liquidity_obligation`.
use deltafi_contracts.Prelude.{List, [], ◌∷◌, ◌==◌, not, ◌||◌}
use deltafi_contracts.Prelude.Int.{ℤ}
use deltafi_contracts.Outcome.{
  Result, ok, refuse_if, ◌>>=◌, ◌>>◌, incorrect_mint, invalid_owner, invalid_signer,
  invalid_account_owner, invalid_program_address,
}
use deltafi_contracts.Math.Decimal as Decimal
use deltafi_contracts.Math.Decimal.{Decimal, try_div, try_div_u64}
use deltafi_contracts.Curve.Pool.{PoolState, get_mid_price}
use deltafi_contracts.State.Position.{Pubkey, calc_and_update_rewards}
use deltafi_contracts.State.Liquidity.{LiquidityProvider, init, find_position, set_position, claim}
use deltafi_contracts.State.Config.{ConfigInfo}
use deltafi_contracts.State.Pack.{config_pack, swap_pack, provider_pack}
use deltafi_contracts.Runtime.{Runtime, AccountInfo, Store}
use deltafi_contracts.Runtime.Accounts.{
  load, save, assert_uninitialized, assert_rent_exempt, authority_id, token_mint_to,
}

-- The provider with the rewards of its position in the pool brought up to date.
unfoldable pub refreshed : LiquidityProvider → Pubkey → Decimal → ℤ → Result LiquidityProvider
refreshed provider pool reward_ratio current_ts = do
  (position, position_index) ← find_position provider pool
  position' ← calc_and_update_rewards position reward_ratio current_ts
  ok (set_position provider position_index position')

-- The mid price of the pool over a price of a tenth.
unfoldable pub get_reward_ratio : PoolState → Result Decimal
get_reward_ratio pool_state = do
  (_, lp_price) ← get_mid_price pool_state
  deltafi_price ← try_div_u64 Decimal.one 10
  try_div lp_price deltafi_price

module _ (rt : Runtime) where
  -- The loop over the accounts that follow.
  unfoldable pub refresh_all : Pubkey → Decimal → ℤ → List AccountInfo → Store → Result Store
  refresh_all pool reward_ratio current_ts [] store = ok store
  refresh_all pool reward_ratio current_ts (info ∷ rest) store = do
    provider ← load rt provider_pack store info
    provider' ← refreshed provider pool reward_ratio current_ts
    store ← save rt provider_pack provider' store info
    refresh_all pool reward_ratio current_ts rest store

module _ (rt : Runtime) (program_id : Pubkey) where
  unfoldable pub process_init_liquidity_provider : List AccountInfo → Store → Result Store
  process_init_liquidity_provider accounts store = do
    (liquidity_provider_info, accounts) ← rt.next_account_info accounts
    (liquidity_owner_info, accounts) ← rt.next_account_info accounts
    (rent_info, _) ← rt.next_account_info accounts
    rent ← rt.rent_from_account_info store rent_info
    refuse_if (not ((store liquidity_provider_info.key).owner == program_id)) invalid_account_owner
    assert_rent_exempt rent store liquidity_provider_info
    provider ← assert_uninitialized rt provider_pack store liquidity_provider_info
    refuse_if (not liquidity_owner_info.is_signer) invalid_signer
    save rt provider_pack (init provider liquidity_owner_info.key []) store liquidity_provider_info

  -- The checks on the accounts of a claim, down to the provider's.
  unfoldable pub check_claim :
      Store
      → ConfigInfo
      → (config_info market_authority_info destination_info mint_info : AccountInfo)
      → Result (Unit {0})
  check_claim store config config_info market_authority_info destination_info mint_info = do
    authority ← authority_id rt program_id config_info.key config.bump_seed
    refuse_if (not (market_authority_info.key == authority)) invalid_program_address
    refuse_if (not (config.deltafi_mint == mint_info.key)) incorrect_mint
    refuse_if ((store destination_info.key).owner == market_authority_info.key) invalid_owner

  unfoldable pub process_claim_liquidity_rewards : List AccountInfo → Store → Result Store
  process_claim_liquidity_rewards accounts store = do
    (config_info, accounts) ← rt.next_account_info accounts
    (swap_info, accounts) ← rt.next_account_info accounts
    (market_authority_info, accounts) ← rt.next_account_info accounts
    (liquidity_provider_info, accounts) ← rt.next_account_info accounts
    (liquidity_owner_info, accounts) ← rt.next_account_info accounts
    (destination_info, accounts) ← rt.next_account_info accounts
    (mint_info, accounts) ← rt.next_account_info accounts
    (token_program_info, _) ← rt.next_account_info accounts
    refuse_if
        (not ((store swap_info.key).owner == program_id)
          || not ((store config_info.key).owner == program_id))
        invalid_account_owner
    config ← load rt config_pack store config_info
    check_claim store config config_info market_authority_info destination_info mint_info
    provider ← load rt provider_pack store liquidity_provider_info
    refuse_if (not (provider.owner == liquidity_owner_info.key)) invalid_owner
    refuse_if (not liquidity_owner_info.is_signer) invalid_signer
    (claimed, reward_amount) ← claim provider swap_info.key
    saved ← save rt provider_pack claimed store liquidity_provider_info
    token_mint_to rt config_info.key token_program_info mint_info destination_info
        market_authority_info config.bump_seed reward_amount saved

  unfoldable pub process_refresh_liquidity_obligation : List AccountInfo → Store → Result Store
  process_refresh_liquidity_obligation accounts store = do
    (swap_info, accounts) ← rt.next_account_info accounts
    (clock_info, providers) ← rt.next_account_info accounts
    clock ← rt.clock_from_account_info store clock_info
    refuse_if (not ((store swap_info.key).owner == program_id)) invalid_account_owner
    token_swap ← load rt swap_pack store swap_info
    reward_ratio ← get_reward_ratio token_swap.pool_state
    refresh_all rt swap_info.key reward_ratio clock.unix_timestamp providers store

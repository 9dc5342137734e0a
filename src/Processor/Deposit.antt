-- ===== src/Processor/Deposit.antt =====
-- processor.rs: `process_deposit`.
use deltafi_contracts.Prelude.{ℕ, List, ltb, ◌==◌, not}
use deltafi_contracts.Outcome.{
  Result, ok, ok_or, refuse_if, ◌>>=◌, ◌>>◌, calculation_failure, exceeded_slippage, incorrect_mint,
  invalid_owner, invalid_input, invalid_account_owner, invalid_signer, incorrect_swap_account,
  invalid_program_address, is_paused,
}
use deltafi_contracts.Math.Checked.{checked_add}
use deltafi_contracts.Curve.Pool
use deltafi_contracts.Curve.Pool.{PoolState, buy_shares}
use deltafi_contracts.State.Position as Position
use deltafi_contracts.State.Position.{Pubkey, LiquidityPosition}
use deltafi_contracts.State.Liquidity.{
  LiquidityProvider, find_or_add_position, position_at, set_position,
}
use deltafi_contracts.State.Swap.{SwapInfo}
use deltafi_contracts.State.Pack.{swap_pack, provider_pack}
use deltafi_contracts.Instruction.Swap.{DepositData}
use deltafi_contracts.Runtime.{Runtime, AccountInfo, Store, Clock}
use deltafi_contracts.Runtime.Accounts.{
  load, save, unpack_mint, unpack_token_account, authority_id, token_transfer, token_mint_to,
}
use deltafi_contracts.Processor.Oracle.{get_new_market_price}
use deltafi_contracts.Processor.Trade.{record_time}

pub record DepositAccounts : Type 0 where
  pub swap_info : AccountInfo
  pub authority_info : AccountInfo
  pub user_transfer_authority_info : AccountInfo
  pub source_a_info : AccountInfo
  pub source_b_info : AccountInfo
  pub token_a_info : AccountInfo
  pub token_b_info : AccountInfo
  pub pool_mint_info : AccountInfo
  pub destination_info : AccountInfo
  pub liquidity_provider_info : AccountInfo
  pub liquidity_owner_info : AccountInfo
  pub pyth_a_price_info : AccountInfo
  pub pyth_b_price_info : AccountInfo
  pub clock : Clock
  pub token_program_info : AccountInfo

-- The provider with the amount in its position in the pool.
unfoldable pub credit : LiquidityProvider → Pubkey → Clock → ℕ → Result LiquidityProvider
credit provider pool clock amount = do
  (found, position_index) ← find_or_add_position provider pool clock.unix_timestamp
  position ← position_at found position_index
  position' ← Position.deposit position amount
  ok (set_position found position_index position')

-- The pool and the shares that the vaults' balances with the deposit buy.
unfoldable pub deposit_shares : PoolState → DepositData → ℕ → ℕ → ℕ → Result (PoolState × ℕ)
deposit_shares state input a b supply = do
  base_balance ← ok_or (checked_add 64 input.token_a_amount a) calculation_failure
  quote_balance ← ok_or (checked_add 64 input.token_b_amount b) calculation_failure
  (bought, shares) ← buy_shares state base_balance quote_balance supply
  refuse_if (ltb shares input.min_mint_amount) exceeded_slippage
  ok (bought, shares)

-- The provider's account is the program's, and the provider's owner has signed.
unfoldable pub check_provider :
    Pubkey → Store → AccountInfo → AccountInfo → LiquidityProvider → Result (Unit {0})
check_provider program_id store liquidity_provider_info liquidity_owner_info provider = do
  refuse_if (not ((store liquidity_provider_info.key).owner == program_id)) invalid_account_owner
  refuse_if (not (provider.owner == liquidity_owner_info.key)) invalid_owner
  refuse_if (not liquidity_owner_info.is_signer) invalid_signer

module _ (rt : Runtime) (program_id : Pubkey) where
  unfoldable pub deposit_accounts : List AccountInfo → Store → Result DepositAccounts
  deposit_accounts accounts store = do
    (token_swap, accounts) ← rt.next_account_info accounts
    (authority, accounts) ← rt.next_account_info accounts
    (user_authority, accounts) ← rt.next_account_info accounts
    (source_a, accounts) ← rt.next_account_info accounts
    (source_b, accounts) ← rt.next_account_info accounts
    (token_a, accounts) ← rt.next_account_info accounts
    (token_b, accounts) ← rt.next_account_info accounts
    (pool_mint, accounts) ← rt.next_account_info accounts
    (destination, accounts) ← rt.next_account_info accounts
    (liquidity_provider, accounts) ← rt.next_account_info accounts
    (liquidity_owner, accounts) ← rt.next_account_info accounts
    (pyth_a, accounts) ← rt.next_account_info accounts
    (pyth_b, accounts) ← rt.next_account_info accounts
    (clock_info, accounts) ← rt.next_account_info accounts
    now ← rt.clock_from_account_info store clock_info
    (token_program, _) ← rt.next_account_info accounts
    ok (record {
      swap_info = token_swap;
      authority_info = authority;
      user_transfer_authority_info = user_authority;
      source_a_info = source_a;
      source_b_info = source_b;
      token_a_info = token_a;
      token_b_info = token_b;
      pool_mint_info = pool_mint;
      destination_info = destination;
      liquidity_provider_info = liquidity_provider;
      liquidity_owner_info = liquidity_owner;
      pyth_a_price_info = pyth_a;
      pyth_b_price_info = pyth_b;
      clock = now;
      token_program_info = token_program;
    })

  unfoldable pub check_deposit : DepositAccounts → SwapInfo → Result (Unit {0})
  check_deposit a token_swap = do
    authority ← authority_id rt program_id a.swap_info.key token_swap.nonce
    refuse_if (not (a.authority_info.key == authority)) invalid_program_address
    refuse_if (not (a.token_a_info.key == token_swap.token_a)) incorrect_swap_account
    refuse_if (not (a.token_b_info.key == token_swap.token_b)) incorrect_swap_account
    refuse_if (not (a.pool_mint_info.key == token_swap.pool_mint)) incorrect_mint
    refuse_if (a.token_a_info.key == a.source_a_info.key) invalid_input
    refuse_if (a.token_b_info.key == a.source_b_info.key) invalid_input

  -- What the user pays in, and the shares that are minted.
  unfoldable pub pay_deposit : DepositAccounts → ℕ → DepositData → ℕ → Store → Result Store
  pay_deposit a nonce input shares store = do
    store ←
        token_transfer rt a.swap_info.key a.token_program_info a.source_a_info a.token_a_info
          a.user_transfer_authority_info nonce input.token_a_amount store
    store ←
        token_transfer rt a.swap_info.key a.token_program_info a.source_b_info a.token_b_info
          a.user_transfer_authority_info nonce input.token_b_amount store
    token_mint_to rt a.swap_info.key a.token_program_info a.pool_mint_info a.destination_info
        a.authority_info nonce shares store

  unfoldable pub deposit_with : DepositAccounts → DepositData → Store → Result Store
  deposit_with a input store = do
    refuse_if (not ((store a.swap_info.key).owner == program_id)) invalid_account_owner
    token_swap ← load rt swap_pack store a.swap_info
    refuse_if token_swap.is_paused is_paused
    check_deposit a token_swap
    provider ← load rt provider_pack store a.liquidity_provider_info
    check_provider program_id store a.liquidity_provider_info a.liquidity_owner_info provider
    token_a ← unpack_token_account rt store a.token_a_info a.token_program_info.key
    token_b ← unpack_token_account rt store a.token_b_info a.token_program_info.key
    pool_mint ← unpack_mint rt store a.pool_mint_info a.token_program_info.key
    (priced, new_market_price, cumulative) ←
        get_new_market_price rt store token_swap a.pyth_a_price_info a.pyth_b_price_info a.clock
    state ← Pool.new (record priced.pool_state { market_price = new_market_price })
    (bought, shares) ← deposit_shares state input token_a.amount token_b.amount pool_mint.supply
    credited ← credit provider a.swap_info.key a.clock shares
    store ← save rt provider_pack credited store a.liquidity_provider_info
    recorded ← record_time (record priced { pool_state = bought }) a.clock cumulative
    store ← save rt swap_pack recorded store a.swap_info
    pay_deposit a token_swap.nonce input shares store

  unfoldable pub process_deposit : DepositData → List AccountInfo → Store → Result Store
  process_deposit input accounts store = do
    a ← deposit_accounts accounts store
    deposit_with a input store

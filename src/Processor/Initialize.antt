-- ===== src/Processor/Initialize.antt =====
-- processor.rs: `process_initialize`, which sets a swap up.
use deltafi_contracts.Prelude.{ℕ, true, false, List, ltb, ◌==◌, not, ◌||◌, ◌&&◌}
use deltafi_contracts.Prelude.Int.{u64_try_from}
use deltafi_contracts.Outcome.{
  Result, ok, unwrap, refuse_if, ◌>>=◌, ◌>>◌, invalid_owner, invalid_output_owner, repeated_mint,
  invalid_admin, empty_supply, invalid_delegate, invalid_close_authority, invalid_freeze_authority,
  invalid_supply, invalid_slope, invalid_program_address,
}
use deltafi_contracts.Math.Decimal as Decimal
use deltafi_contracts.Math.Decimal.{Decimal, from_scaled_val}
use deltafi_contracts.Curve.Pool
use deltafi_contracts.Curve.Pool.{PoolState, one, buy_shares}
use deltafi_contracts.State.Position.{Pubkey}
use deltafi_contracts.State.Config.{ConfigInfo}
use deltafi_contracts.State.Swap.{SwapInfo}
use deltafi_contracts.State.Pack.{config_pack, swap_pack}
use deltafi_contracts.Instruction.Swap.{InitializeData}
use deltafi_contracts.Runtime.{Runtime, AccountInfo, Store, Clock, TokenAccount, Mint}
use deltafi_contracts.Runtime.Accounts.{
  load, save, assert_uninitialized, unpack_mint, unpack_token_account, authority_id, token_mint_to,
}
use deltafi_contracts.Admin.{is_some, is_key}
use deltafi_contracts.Processor.Oracle.{get_market_price_from_pyth, or_else}

pub record InitializeAccounts : Type 0 where
  pub config_info : AccountInfo
  pub swap_info : AccountInfo
  pub authority_info : AccountInfo
  pub admin_fee_a_info : AccountInfo
  pub admin_fee_b_info : AccountInfo
  pub token_a_info : AccountInfo
  pub token_b_info : AccountInfo
  pub pool_mint_info : AccountInfo
  pub destination_info : AccountInfo
  pub pyth_a_price_info : AccountInfo
  pub pyth_b_price_info : AccountInfo
  pub clock : Clock
  pub token_program_info : AccountInfo

-- The token accounts of a new swap and the mint of its shares.
pub record SwapTokens : Type 0 where
  pub destination : TokenAccount
  pub token_a : TokenAccount
  pub token_b : TokenAccount
  pub pool_mint : Mint
  pub admin_fee_a : TokenAccount
  pub admin_fee_b : TokenAccount

unfoldable pub check_tokens : Pubkey → SwapTokens → Result (Unit {0})
check_tokens authority t = do
  refuse_if (not (authority == t.token_a.owner)) invalid_owner
  refuse_if (not (authority == t.token_b.owner)) invalid_owner
  refuse_if (authority == t.destination.owner) invalid_output_owner
  refuse_if (authority == t.admin_fee_a.owner) invalid_output_owner
  refuse_if (authority == t.admin_fee_b.owner) invalid_output_owner
  refuse_if (t.token_a.mint == t.token_b.mint) repeated_mint
  refuse_if (not (t.token_a.mint == t.admin_fee_a.mint)) invalid_admin
  refuse_if (not (t.token_b.mint == t.admin_fee_b.mint)) invalid_admin
  refuse_if (t.token_b.amount == 0) empty_supply
  refuse_if (t.token_a.amount == 0) empty_supply
  refuse_if (is_some t.token_a.delegate) invalid_delegate
  refuse_if (is_some t.token_b.delegate) invalid_delegate
  refuse_if (is_some t.token_a.close_authority) invalid_close_authority
  refuse_if (is_some t.token_b.close_authority) invalid_close_authority
  refuse_if
      (is_some t.pool_mint.mint_authority && not (is_key t.pool_mint.mint_authority authority))
      invalid_owner
  refuse_if (is_some t.pool_mint.freeze_authority) invalid_freeze_authority
  refuse_if (not (t.pool_mint.supply == 0)) invalid_supply

-- The pool without reserves.
unfoldable pub empty_pool : Decimal → ℕ → PoolState
empty_pool price slope' = record Pool.default {
  market_price = price;
  slope = from_scaled_val slope';
  multiplier = one;
}

-- The pool that holds the balances of the vaults, and the first shares.
unfoldable pub first_pool : Decimal → InitializeData → SwapTokens → Result (PoolState × ℕ)
first_pool price input t = do
  pool_state ← Pool.new (empty_pool price input.slope)
  buy_shares pool_state t.token_a.amount t.token_b.amount t.pool_mint.supply

unfoldable pub new_swap :
    InitializeAccounts → InitializeData → SwapTokens → ConfigInfo → PoolState → ℕ → SwapInfo
new_swap a input t config pool now = record {
  is_initialized = true;
  is_paused = false;
  nonce = input.nonce;
  token_a = a.token_a_info.key;
  token_b = a.token_b_info.key;
  pool_mint = a.pool_mint_info.key;
  token_a_mint = t.token_a.mint;
  token_b_mint = t.token_b.mint;
  admin_fee_key_a = a.admin_fee_a_info.key;
  admin_fee_key_b = a.admin_fee_b_info.key;
  fees = config.fees;
  rewards = config.rewards;
  pool_state = pool;
  is_open_twap = input.is_open_twap;
  block_timestamp_last = now;
  cumulative_ticks = 0;
  base_price_cumulative_last = Decimal.zero;
}

module _ (rt : Runtime) (program_id : Pubkey) where
  unfoldable pub initialize_accounts : List AccountInfo → Store → Result InitializeAccounts
  initialize_accounts accounts store = do
    (config, accounts) ← rt.next_account_info accounts
    (token_swap, accounts) ← rt.next_account_info accounts
    (authority, accounts) ← rt.next_account_info accounts
    (admin_fee_a, accounts) ← rt.next_account_info accounts
    (admin_fee_b, accounts) ← rt.next_account_info accounts
    (token_a, accounts) ← rt.next_account_info accounts
    (token_b, accounts) ← rt.next_account_info accounts
    (pool_mint, accounts) ← rt.next_account_info accounts
    (destination, accounts) ← rt.next_account_info accounts
    (pyth_a, accounts) ← rt.next_account_info accounts
    (pyth_b, accounts) ← rt.next_account_info accounts
    (clock_info, accounts) ← rt.next_account_info accounts
    now ← rt.clock_from_account_info store clock_info
    (token_program, _) ← rt.next_account_info accounts
    ok (record {
      config_info = config;
      swap_info = token_swap;
      authority_info = authority;
      admin_fee_a_info = admin_fee_a;
      admin_fee_b_info = admin_fee_b;
      token_a_info = token_a;
      token_b_info = token_b;
      pool_mint_info = pool_mint;
      destination_info = destination;
      pyth_a_price_info = pyth_a;
      pyth_b_price_info = pyth_b;
      clock = now;
      token_program_info = token_program;
    })

  unfoldable pub read_tokens : InitializeAccounts → Store → Result SwapTokens
  read_tokens a store = do
    destination' ← unpack_token_account rt store a.destination_info a.token_program_info.key
    a' ← unpack_token_account rt store a.token_a_info a.token_program_info.key
    b' ← unpack_token_account rt store a.token_b_info a.token_program_info.key
    mint ← unpack_mint rt store a.pool_mint_info a.token_program_info.key
    fee_a ← unpack_token_account rt store a.admin_fee_a_info a.token_program_info.key
    fee_b ← unpack_token_account rt store a.admin_fee_b_info a.token_program_info.key
    ok (record {
      destination = destination';
      token_a = a';
      token_b = b';
      pool_mint = mint;
      admin_fee_a = fee_a;
      admin_fee_b = fee_b;
    })

  unfoldable pub initialize_with : InitializeAccounts → InitializeData → Store → Result Store
  initialize_with a input store = do
    _ ← assert_uninitialized rt swap_pack store a.swap_info
    authority ← authority_id rt program_id a.swap_info.key input.nonce
    refuse_if (not (a.authority_info.key == authority)) invalid_program_address
    tokens ← read_tokens a store
    check_tokens a.authority_info.key tokens
    refuse_if (ltb input.slope Decimal.zero || ltb Decimal.one input.slope) invalid_slope
    price ←
        or_else
          (get_market_price_from_pyth rt store a.pyth_a_price_info a.pyth_b_price_info a.clock)
          (ok (from_scaled_val input.mid_price))
    (bought, mint_amount) ← first_pool price input tokens
    now ← unwrap (u64_try_from a.clock.unix_timestamp)
    config ← load rt config_pack store a.config_info
    saved ← save rt swap_pack (new_swap a input tokens config bought now) store a.swap_info
    token_mint_to rt a.swap_info.key a.token_program_info a.pool_mint_info a.destination_info
        a.authority_info input.nonce mint_amount saved

  unfoldable pub process_initialize : InitializeData → List AccountInfo → Store → Result Store
  process_initialize input accounts store = do
    a ← initialize_accounts accounts store
    initialize_with a input store

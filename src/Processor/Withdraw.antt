-- ===== src/Processor/Withdraw.antt =====
-- processor.rs: `process_withdraw`.
use deltafi_contracts.Prelude.{ℕ, List, ◌==◌, not}
use deltafi_contracts.Outcome.{
  Result, ok, ok_or, refuse_if, ◌>>=◌, ◌>>◌, calculation_failure, incorrect_mint, invalid_input,
  invalid_account_owner, invalid_admin, incorrect_swap_account, invalid_program_address,
  empty_supply,
}
use deltafi_contracts.Math.Checked.{checked_sub}
use deltafi_contracts.Curve.Pool
use deltafi_contracts.Curve.Pool.{PoolState, sell_shares}
use deltafi_contracts.State.Fees.{Fees, withdraw_fee, admin_withdraw_fee}
use deltafi_contracts.State.Position.{Pubkey}
use deltafi_contracts.State.Liquidity as Liquidity
use deltafi_contracts.State.Liquidity.{LiquidityProvider, find_position}
use deltafi_contracts.State.Swap.{SwapInfo}
use deltafi_contracts.State.Pack.{swap_pack, provider_pack}
use deltafi_contracts.Instruction.Swap.{WithdrawData}
use deltafi_contracts.Runtime.{Runtime, AccountInfo, Store, Clock}
use deltafi_contracts.Runtime.Accounts.{
  load, save, unpack_mint, authority_id, token_transfer, token_burn,
}
use deltafi_contracts.Processor.Oracle.{get_new_market_price}
use deltafi_contracts.Processor.Trade.{record_time}
use deltafi_contracts.Processor.Deposit.{check_provider}

pub record WithdrawAccounts : Type 0 where
  pub swap_info : AccountInfo
  pub authority_info : AccountInfo
  pub user_transfer_authority_info : AccountInfo
  pub pool_mint_info : AccountInfo
  pub source_info : AccountInfo
  pub token_a_info : AccountInfo
  pub token_b_info : AccountInfo
  pub dest_token_a_info : AccountInfo
  pub dest_token_b_info : AccountInfo
  pub admin_fee_dest_a_info : AccountInfo
  pub admin_fee_dest_b_info : AccountInfo
  pub liquidity_provider_info : AccountInfo
  pub liquidity_owner_info : AccountInfo
  pub pyth_a_price_info : AccountInfo
  pub pyth_b_price_info : AccountInfo
  pub clock : Clock
  pub token_program_info : AccountInfo

-- What a withdrawal pays of each token to the user and to the admin.
pub record WithdrawAmounts : Type 0 where
  pub base_out_amount : ℕ
  pub admin_fee_base : ℕ
  pub quote_out_amount : ℕ
  pub admin_fee_quote : ℕ

-- An amount less the withdrawal fee, and the admin's part of that fee.
unfoldable pub less_fee : Fees → ℕ → Result (ℕ × ℕ)
less_fee fees amount = do
  fee ← withdraw_fee fees amount
  admin_part ← admin_withdraw_fee fees fee
  out ← ok_or (checked_sub amount fee) calculation_failure
  ok (out, admin_part)

unfoldable pub withdraw_amounts :
    SwapInfo → PoolState → WithdrawData → ℕ → Result (PoolState × WithdrawAmounts)
withdraw_amounts token_swap state input supply = do
  (sold, base, quote) ←
      sell_shares state input.pool_token_amount input.minimum_token_a_amount
        input.minimum_token_b_amount supply
  (base_out, base_fee) ← less_fee token_swap.fees base
  (quote_out, quote_fee) ← less_fee token_swap.fees quote
  ok (
    sold,
    record {
      base_out_amount = base_out;
      admin_fee_base = base_fee;
      quote_out_amount = quote_out;
      admin_fee_quote = quote_fee;
    },
  )

-- The provider without the amount in its position in the pool.
unfoldable pub debit : LiquidityProvider → Pubkey → ℕ → Result LiquidityProvider
debit provider pool amount = do
  (_, position_index) ← find_position provider pool
  Liquidity.withdraw provider amount position_index

module _ (rt : Runtime) (program_id : Pubkey) where
  unfoldable pub withdraw_accounts : List AccountInfo → Store → Result WithdrawAccounts
  withdraw_accounts accounts store = do
    (token_swap, accounts) ← rt.next_account_info accounts
    (authority, accounts) ← rt.next_account_info accounts
    (user_authority, accounts) ← rt.next_account_info accounts
    (pool_mint, accounts) ← rt.next_account_info accounts
    (source, accounts) ← rt.next_account_info accounts
    (token_a, accounts) ← rt.next_account_info accounts
    (token_b, accounts) ← rt.next_account_info accounts
    (dest_token_a, accounts) ← rt.next_account_info accounts
    (dest_token_b, accounts) ← rt.next_account_info accounts
    (admin_fee_dest_a, accounts) ← rt.next_account_info accounts
    (admin_fee_dest_b, accounts) ← rt.next_account_info accounts
    (liquidity_provider, accounts) ← rt.next_account_info accounts
    (liquidity_owner, accounts) ← rt.next_account_info accounts
    (pyth_a, accounts) ← rt.next_account_info accounts
    (pyth_b, accounts) ← rt.next_account_info accounts
    (clock_info, accounts) ← rt.next_account_info accounts
    now ← rt.clock_from_account_info store clock_info
    (token_program, _) ← rt.next_account_info accounts
    ok (record {
      swap_info = token_swap;
      authority_info = authority;
      user_transfer_authority_info = user_authority;
      pool_mint_info = pool_mint;
      source_info = source;
      token_a_info = token_a;
      token_b_info = token_b;
      dest_token_a_info = dest_token_a;
      dest_token_b_info = dest_token_b;
      admin_fee_dest_a_info = admin_fee_dest_a;
      admin_fee_dest_b_info = admin_fee_dest_b;
      liquidity_provider_info = liquidity_provider;
      liquidity_owner_info = liquidity_owner;
      pyth_a_price_info = pyth_a;
      pyth_b_price_info = pyth_b;
      clock = now;
      token_program_info = token_program;
    })

  unfoldable pub check_withdraw : WithdrawAccounts → SwapInfo → Result (Unit {0})
  check_withdraw a token_swap = do
    authority ← authority_id rt program_id a.swap_info.key token_swap.nonce
    refuse_if (not (a.authority_info.key == authority)) invalid_program_address
    refuse_if (not (a.token_a_info.key == token_swap.token_a)) incorrect_swap_account
    refuse_if (not (a.token_b_info.key == token_swap.token_b)) incorrect_swap_account
    refuse_if (a.token_a_info.key == a.dest_token_a_info.key) invalid_input
    refuse_if (a.token_b_info.key == a.dest_token_b_info.key) invalid_input
    refuse_if (not (a.pool_mint_info.key == token_swap.pool_mint)) incorrect_mint
    refuse_if (not (a.admin_fee_dest_a_info.key == token_swap.admin_fee_key_a)) invalid_admin
    refuse_if (not (a.admin_fee_dest_b_info.key == token_swap.admin_fee_key_b)) invalid_admin

  -- What the vaults pay to the user and to the admin, and the shares that are burnt.
  unfoldable pub pay_withdraw :
      WithdrawAccounts → ℕ → WithdrawData → WithdrawAmounts → Store → Result Store
  pay_withdraw a nonce input amounts store = do
    store ←
        token_transfer rt a.swap_info.key a.token_program_info a.token_a_info a.dest_token_a_info
          a.authority_info nonce amounts.base_out_amount store
    store ←
        token_transfer rt a.swap_info.key a.token_program_info a.token_a_info
          a.admin_fee_dest_a_info a.authority_info nonce amounts.admin_fee_base store
    store ←
        token_transfer rt a.swap_info.key a.token_program_info a.token_b_info a.dest_token_b_info
          a.authority_info nonce amounts.quote_out_amount store
    store ←
        token_transfer rt a.swap_info.key a.token_program_info a.token_b_info
          a.admin_fee_dest_b_info a.authority_info nonce amounts.admin_fee_quote store
    token_burn rt a.swap_info.key a.token_program_info a.source_info a.pool_mint_info
        a.user_transfer_authority_info nonce input.pool_token_amount store

  unfoldable pub withdraw_with : WithdrawAccounts → WithdrawData → Store → Result Store
  withdraw_with a input store = do
    refuse_if (not ((store a.swap_info.key).owner == program_id)) invalid_account_owner
    token_swap ← load rt swap_pack store a.swap_info
    check_withdraw a token_swap
    pool_mint ← unpack_mint rt store a.pool_mint_info a.token_program_info.key
    refuse_if (pool_mint.supply == 0) empty_supply
    provider ← load rt provider_pack store a.liquidity_provider_info
    check_provider program_id store a.liquidity_provider_info a.liquidity_owner_info provider
    (priced, new_market_price, cumulative) ←
        get_new_market_price rt store token_swap a.pyth_a_price_info a.pyth_b_price_info a.clock
    state ← Pool.new (record priced.pool_state { market_price = new_market_price })
    (sold, amounts) ← withdraw_amounts priced state input pool_mint.supply
    debited ← debit provider a.swap_info.key input.pool_token_amount
    store ← save rt provider_pack debited store a.liquidity_provider_info
    recorded ← record_time (record priced { pool_state = sold }) a.clock cumulative
    store ← save rt swap_pack recorded store a.swap_info
    pay_withdraw a token_swap.nonce input amounts store

  unfoldable pub process_withdraw : WithdrawData → List AccountInfo → Store → Result Store
  process_withdraw input accounts store = do
    a ← withdraw_accounts accounts store
    withdraw_with a input store

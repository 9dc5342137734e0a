-- ===== src/Processor/Swap.antt =====
-- processor.rs: `process_swap`. The accounts are taken first; then come the checks, the amounts, the new
-- state and the calls of the token program.
use deltafi_contracts.Prelude.{ℕ, List, ltb, ◌==◌, not, ◌||◌, ◌&&◌, if◌then◌else◌}
use deltafi_contracts.Outcome.{
  Result, err, ok, refuse_if, ◌>>=◌, ◌>>◌, incorrect_program_id, insufficient_funds, invalid_admin,
  incorrect_mint, invalid_owner, invalid_input, incorrect_swap_account, invalid_program_address,
  is_paused,
}
use deltafi_contracts.Curve.Pool
use deltafi_contracts.Curve.Pool.{PoolState, Multiplier, sell_base_token, sell_quote_token}
use deltafi_contracts.State.Position.{Pubkey}
use deltafi_contracts.State.Config.{ConfigInfo}
use deltafi_contracts.State.Swap.{SwapInfo}
use deltafi_contracts.State.Pack.{config_pack, swap_pack}
use deltafi_contracts.Instruction.Read.{SwapDirection, sell_base, sell_quote}
use deltafi_contracts.Instruction.Swap.{SwapData}
use deltafi_contracts.Runtime.{Runtime, AccountInfo, Store, Clock}
use deltafi_contracts.Runtime.Accounts.{
  load, save, unpack_mint, unpack_token_account, authority_id, token_transfer, token_mint_to,
}
use deltafi_contracts.Admin.{is_some, is_key}
use deltafi_contracts.Processor.Oracle.{get_new_market_price}
use deltafi_contracts.Processor.Trade.{SwapAmounts, swap_amounts, record_time, settle_swap}

pub record SwapAccounts : Type 0 where
  pub config_info : AccountInfo
  pub swap_info : AccountInfo
  pub market_authority_info : AccountInfo
  pub swap_authority_info : AccountInfo
  pub user_transfer_authority_info : AccountInfo
  pub source_info : AccountInfo
  pub swap_source_info : AccountInfo
  pub swap_destination_info : AccountInfo
  pub destination_info : AccountInfo
  pub reward_token_info : AccountInfo
  pub reward_mint_info : AccountInfo
  pub admin_destination_info : AccountInfo
  pub pyth_a_price_info : AccountInfo
  pub pyth_b_price_info : AccountInfo
  pub clock : Clock
  pub token_program_info : AccountInfo

-- The vault of the side that is sold, and the admin's account for the other.
unfoldable pub check_direction : SwapAccounts → SwapInfo → SwapData → ℕ → ℕ → Result (Unit {0})
check_direction a token_swap input amount_a amount_b =
    let to_a = a.swap_destination_info.key == token_swap.token_a in
    let to_b = a.swap_destination_info.key == token_swap.token_b in
    let pays_a = a.admin_destination_info.key == token_swap.admin_fee_key_a in
    let pays_b = a.admin_destination_info.key == token_swap.admin_fee_key_b in
    elim input.swap_direction [
      | sell_base ↦ do
        refuse_if (to_a && not pays_a) invalid_admin
        refuse_if (to_b && not pays_b) invalid_admin
        refuse_if (ltb amount_a input.amount_in) insufficient_funds
      | sell_quote ↦ do
        refuse_if (to_a && not pays_b) invalid_admin
        refuse_if (to_b && not pays_a) invalid_admin
        refuse_if (ltb amount_b input.amount_in) insufficient_funds
    ]

module _ (rt : Runtime) (program_id : Pubkey) where
  unfoldable pub swap_accounts : List AccountInfo → Store → Result SwapAccounts
  swap_accounts accounts store = do
    (config, accounts) ← rt.next_account_info accounts
    (token_swap, accounts) ← rt.next_account_info accounts
    (market_authority, accounts) ← rt.next_account_info accounts
    (swap_authority, accounts) ← rt.next_account_info accounts
    (user_authority, accounts) ← rt.next_account_info accounts
    (source, accounts) ← rt.next_account_info accounts
    (swap_source, accounts) ← rt.next_account_info accounts
    (swap_destination, accounts) ← rt.next_account_info accounts
    (destination, accounts) ← rt.next_account_info accounts
    (reward_token, accounts) ← rt.next_account_info accounts
    (reward_mint, accounts) ← rt.next_account_info accounts
    (admin_destination, accounts) ← rt.next_account_info accounts
    (pyth_a, accounts) ← rt.next_account_info accounts
    (pyth_b, accounts) ← rt.next_account_info accounts
    (clock_info, accounts) ← rt.next_account_info accounts
    now ← rt.clock_from_account_info store clock_info
    (token_program, _) ← rt.next_account_info accounts
    ok (record {
      config_info = config;
      swap_info = token_swap;
      market_authority_info = market_authority;
      swap_authority_info = swap_authority;
      user_transfer_authority_info = user_authority;
      source_info = source;
      swap_source_info = swap_source;
      swap_destination_info = swap_destination;
      destination_info = destination;
      reward_token_info = reward_token;
      reward_mint_info = reward_mint;
      admin_destination_info = admin_destination;
      pyth_a_price_info = pyth_a;
      pyth_b_price_info = pyth_b;
      clock = now;
      token_program_info = token_program;
    })

  -- The accounts belong to the swap and to each other. The result is what the vaults hold.
  unfoldable pub check_swap :
      SwapAccounts → Store → ConfigInfo → SwapInfo → SwapData → Result (ℕ × ℕ)
  check_swap a store config token_swap input = do
    swap_authority ← authority_id rt program_id a.swap_info.key token_swap.nonce
    refuse_if (not (a.swap_authority_info.key == swap_authority)) invalid_program_address
    refuse_if
        (not (
          a.swap_source_info.key == token_swap.token_a
          || a.swap_source_info.key == token_swap.token_b))
        incorrect_swap_account
    refuse_if
        (not (
          a.swap_destination_info.key == token_swap.token_a
          || a.swap_destination_info.key == token_swap.token_b))
        incorrect_swap_account
    refuse_if (a.swap_source_info.key == a.swap_destination_info.key) invalid_input
    refuse_if
        (a.swap_source_info.key == a.source_info.key
          || a.swap_destination_info.key == a.destination_info.key)
        invalid_input
    token_a ← unpack_token_account rt store a.swap_source_info a.token_program_info.key
    token_b ← unpack_token_account rt store a.swap_destination_info a.token_program_info.key
    reward_token ← unpack_token_account rt store a.reward_token_info a.token_program_info.key
    reward_mint ← unpack_mint rt store a.reward_mint_info a.token_program_info.key
    market_authority ← authority_id rt program_id a.config_info.key config.bump_seed
    refuse_if (not (a.market_authority_info.key == market_authority)) invalid_program_address
    refuse_if (not (config.deltafi_mint == a.reward_mint_info.key)) incorrect_mint
    refuse_if (reward_token.owner == a.market_authority_info.key) invalid_owner
    refuse_if
        (is_some reward_mint.mint_authority
          && not (is_key reward_mint.mint_authority a.market_authority_info.key))
        invalid_owner
    refuse_if (not (reward_token.mint == a.reward_mint_info.key)) incorrect_mint
    check_direction a token_swap input token_a.amount token_b.amount
    ok (token_a.amount, token_b.amount)

  -- The user pays `vault_in`; `vault_out` pays the user and the admin; and the reward is minted.
  unfoldable pub pay_legs :
      SwapAccounts
      → ConfigInfo
      → (payer vault_in vault_out receiver : AccountInfo) → (nonce amount_in : ℕ) → SwapAmounts
      → Store
      → Result Store
  pay_legs a config payer vault_in vault_out receiver nonce amount_in amounts store = do
    store ←
        token_transfer rt a.swap_info.key a.token_program_info payer vault_in
          a.user_transfer_authority_info nonce amount_in store
    store ←
        token_transfer rt a.swap_info.key a.token_program_info vault_out receiver
          a.swap_authority_info nonce amounts.amount_out store
    store ←
        token_transfer rt a.swap_info.key a.token_program_info vault_out a.admin_destination_info
          a.swap_authority_info nonce amounts.admin_fee store
    token_mint_to rt a.config_info.key a.token_program_info a.reward_mint_info a.reward_token_info
        a.market_authority_info config.bump_seed amounts.amount_to_reward store

  unfoldable pub pay_swap :
      SwapDirection
      → SwapAccounts
      → ConfigInfo
      → (nonce amount_in : ℕ) → SwapAmounts
      → Store
      → Result Store
  pay_swap sell_base a config =
      pay_legs a config a.source_info a.swap_source_info a.swap_destination_info a.destination_info
  pay_swap sell_quote a config =
      pay_legs a config a.destination_info a.swap_destination_info a.swap_source_info a.source_info

  unfoldable pub swap_with : SwapAccounts → SwapData → Store → Result Store
  swap_with a input store = do
    (if not ((store a.swap_info.key).owner == program_id)
          || not ((store a.config_info.key).owner == program_id)
        then err incorrect_program_id
        else ok tt)
    config ← load rt config_pack store a.config_info
    token_swap ← load rt swap_pack store a.swap_info
    refuse_if token_swap.is_paused is_paused
    (amount_a, amount_b) ← check_swap a store config token_swap input
    (priced, new_market_price, cumulative) ←
        get_new_market_price rt store token_swap a.pyth_a_price_info a.pyth_b_price_info a.clock
    state ← Pool.new (record priced.pool_state { market_price = new_market_price })
    amounts ← swap_amounts priced state input amount_a amount_b
    settled ← settle_swap priced state amounts
    recorded ← record_time settled a.clock cumulative
    saved ← save rt swap_pack recorded store a.swap_info
    pay_swap input.swap_direction a config token_swap.nonce input.amount_in amounts saved

  unfoldable pub process_swap : SwapData → List AccountInfo → Store → Result Store
  process_swap input accounts store = do a ← swap_accounts accounts store; swap_with a input store

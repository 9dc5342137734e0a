-- ===== src/Admin.antt =====
-- admin.rs: the handlers of the admin instructions, on a store of accounts. A handler that fails leaves
-- nothing behind, so it returns no store.
pub mod Access
pub mod Effects
use deltafi_contracts.Prelude.{
  ℕ, Bool, true, false, Option, none, some, List, ◌==◌, not, ◌||◌, ◌&&◌, if◌then◌else◌,
}
use deltafi_contracts.Outcome.{
  Result, ok, err, fail, refuse_if, ◌>>=◌, ◌>>◌, unauthorized, missing_required_signature,
  invalid_account_owner, invalid_program_address, invalid_owner, invalid_freeze_authority,
  incorrect_mint,
}
use deltafi_contracts.Bytes.{Bytes}
use deltafi_contracts.State.Fees
use deltafi_contracts.State.Fees.{Fees}
use deltafi_contracts.State.Rewards
use deltafi_contracts.State.Rewards.{Rewards}
use deltafi_contracts.State.Position.{Pubkey}
use deltafi_contracts.State.Config.{ConfigInfo, program_version}
use deltafi_contracts.State.Swap.{SwapInfo}
use deltafi_contracts.State.Pack.{config_pack, swap_pack}
use deltafi_contracts.Instruction.Admin as Instruction
use deltafi_contracts.Instruction.Admin.{
  AdminInstruction, initialize, pause, unpause, set_fee_account, commit_new_admin, set_new_fees,
  set_new_rewards,
}
use deltafi_contracts.Runtime.{Runtime, AccountInfo, Account, Store, Mint, TokenAccount}
use deltafi_contracts.Runtime.Accounts.{
  load, save, assert_uninitialized, assert_rent_exempt, unpack_mint, unpack_token_account,
  authority_id, set_authority,
}

-- Access control for admin only instructions.
unfoldable pub is_admin : Pubkey → AccountInfo → Result (Unit {0})
is_admin expected_admin_key admin_info =
    if not (expected_admin_key == admin_info.key)
    then fail unauthorized
    else if not admin_info.is_signer
    then err missing_required_signature
    else ok tt

abbrev pub is_key : Option Pubkey → Pubkey → Bool
is_key none key = false
is_key (some other) key = other == key

abbrev pub is_some : Option Pubkey → Bool
is_some none = false
is_some (some _) = true

-- The swap with the fee account in the place that its mint names.
unfoldable pub with_fee_account : SwapInfo → Pubkey → Pubkey → Result SwapInfo
with_fee_account token_swap mint account =
    if mint == token_swap.token_a_mint
    then ok (record token_swap { admin_fee_key_a = account })
    else if mint == token_swap.token_b_mint
    then ok (record token_swap { admin_fee_key_b = account })
    else fail incorrect_mint

module _ (rt : Runtime) (program_id : Pubkey) where
  unfoldable pub process_initialize : Fees → Rewards → List AccountInfo → Store → Result Store
  process_initialize fees rewards accounts store = do
    (config_info, accounts) ← rt.next_account_info accounts
    (market_authority_info, accounts) ← rt.next_account_info accounts
    (deltafi_mint_info, accounts) ← rt.next_account_info accounts
    (admin_info, accounts) ← rt.next_account_info accounts
    (rent_info, accounts) ← rt.next_account_info accounts
    rent ← rt.rent_from_account_info store rent_info
    (token_program_info, _) ← rt.next_account_info accounts
    refuse_if (not ((store config_info.key).owner == program_id)) invalid_account_owner
    (if not admin_info.is_signer then err missing_required_signature else ok tt)
    assert_rent_exempt rent store config_info
    config ← assert_uninitialized rt config_pack store config_info
    let derived = rt.find_program_address config_info.key program_id
    refuse_if (not (derived.0 == market_authority_info.key)) invalid_program_address
    mint ← unpack_mint rt store deltafi_mint_info token_program_info.key
    refuse_if (not (is_key mint.mint_authority market_authority_info.key)) invalid_owner
    refuse_if (is_some mint.freeze_authority && not (is_key mint.freeze_authority admin_info.key))
        invalid_freeze_authority
    save rt config_pack
        (record config {
          version = program_version;
          bump_seed = derived.1;
          admin_key = admin_info.key;
          deltafi_mint = deltafi_mint_info.key;
          fees = Fees.new fees;
          rewards = Rewards.new rewards;
        })
        store config_info

  -- The configuration, if it is the program's, the swap is too and the admin has signed.
  unfoldable pub admitted : Store → AccountInfo → AccountInfo → AccountInfo → Result ConfigInfo
  admitted store config_info swap_info admin_info = do
    refuse_if
        (not ((store config_info.key).owner == program_id)
          || not ((store swap_info.key).owner == program_id))
        invalid_account_owner
    config ← load rt config_pack store config_info
    is_admin config.admin_key admin_info
    ok config

  -- `pause`, `unpause`, `set_new_fees` and `set_new_rewards`, which differ in the field that they set.
  unfoldable pub edit_swap : (SwapInfo → SwapInfo) → List AccountInfo → Store → Result Store
  edit_swap edit accounts store = do
    (config_info, accounts) ← rt.next_account_info accounts
    (swap_info, accounts) ← rt.next_account_info accounts
    (admin_info, _) ← rt.next_account_info accounts
    config ← admitted store config_info swap_info admin_info
    token_swap ← load rt swap_pack store swap_info
    save rt swap_pack (edit token_swap) store swap_info

  abbrev pub process_pause : List AccountInfo → Store → Result Store
  process_pause = edit_swap (λ token_swap. record token_swap { is_paused = true })

  abbrev pub process_unpause : List AccountInfo → Store → Result Store
  process_unpause = edit_swap (λ token_swap. record token_swap { is_paused = false })

  abbrev pub process_set_new_fees : Fees → List AccountInfo → Store → Result Store
  process_set_new_fees new_fees =
      edit_swap (λ token_swap. record token_swap { fees = Fees.new new_fees })

  abbrev pub process_set_new_rewards : Rewards → List AccountInfo → Store → Result Store
  process_set_new_rewards new_rewards =
      edit_swap (λ token_swap. record token_swap { rewards = Rewards.new new_rewards })

  unfoldable pub process_set_fee_account : List AccountInfo → Store → Result Store
  process_set_fee_account accounts store = do
    (config_info, accounts) ← rt.next_account_info accounts
    (swap_info, accounts) ← rt.next_account_info accounts
    (authority_info, accounts) ← rt.next_account_info accounts
    (admin_info, accounts) ← rt.next_account_info accounts
    (new_fee_account_info, accounts) ← rt.next_account_info accounts
    (token_program_info, _) ← rt.next_account_info accounts
    config ← admitted store config_info swap_info admin_info
    token_swap ← load rt swap_pack store swap_info
    authority ← authority_id rt program_id swap_info.key token_swap.nonce
    refuse_if (not (authority_info.key == authority)) invalid_program_address
    fee_account ← unpack_token_account rt store new_fee_account_info token_program_info.key
    refuse_if (not (authority_info.key == fee_account.owner)) invalid_owner
    changed ← with_fee_account token_swap fee_account.mint new_fee_account_info.key
    save rt swap_pack changed store swap_info

  unfoldable pub process_commit_new_admin : Pubkey → List AccountInfo → Store → Result Store
  process_commit_new_admin new_admin_key accounts store = do
    (config_info, accounts) ← rt.next_account_info accounts
    (admin_info, accounts) ← rt.next_account_info accounts
    (deltafi_mint_info, accounts) ← rt.next_account_info accounts
    (token_program_info, _) ← rt.next_account_info accounts
    refuse_if (not ((store config_info.key).owner == program_id)) invalid_account_owner
    config ← load rt config_pack store config_info
    is_admin config.admin_key admin_info
    saved ← save rt config_pack (record config { admin_key = new_admin_key }) store config_info
    set_authority rt token_program_info deltafi_mint_info (some new_admin_key) admin_info saved

  unfoldable pub dispatch : AdminInstruction → List AccountInfo → Store → Result Store
  dispatch (initialize params) = process_initialize params.fees params.rewards
  dispatch pause = process_pause
  dispatch unpause = process_unpause
  dispatch set_fee_account = process_set_fee_account
  dispatch (commit_new_admin new_admin_key) = process_commit_new_admin new_admin_key
  dispatch (set_new_fees new_fees) = process_set_new_fees new_fees
  dispatch (set_new_rewards new_rewards) = process_set_new_rewards new_rewards

  unfoldable pub process_admin_instruction : List AccountInfo → Bytes → Store → Result Store
  process_admin_instruction accounts input store = do
    instruction ← Instruction.unpack rt.unpack_unchecked input
    dispatch instruction accounts store

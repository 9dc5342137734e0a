-- ===== src/Runtime/Accounts.antt =====
-- processor.rs: the helpers on accounts that the handlers share, and the token program's calls.
pub mod Laws
pub mod Calls
use deltafi_contracts.Prelude.{ℕ, Bool, Option, none, some, List, ◌==◌, not, if◌then◌else◌, length}
use deltafi_contracts.Outcome.{
  Result, ok, err, panicked, custom, ok_or, fail, refuse_if, ◌>>=◌, ◌>>◌, already_in_use,
  not_rent_exempt, incorrect_token_program_id, expected_mint, expected_account,
  invalid_program_address,
}
use deltafi_contracts.Bytes.{Bytes}
use deltafi_contracts.State.Position.{Pubkey}
use deltafi_contracts.State.Pack.{Pack}
use deltafi_contracts.Runtime.{
  Runtime, AccountInfo, Account, Store, write, TokenAccount, Mint, TokenCall, transfer, mint_to,
  burn, set_freeze_authority,
}

module _ (rt : Runtime) where
  -- `T::unpack(&info.data.borrow())`
  unfoldable pub load : {A : Type 0} → Pack A → Store → AccountInfo → Result A
  load {A} p store info = rt.unpack A p (store info.key).contents

  -- `T::pack(value, &mut info.data.borrow_mut())`
  unfoldable pub save : {A : Type 0} → Pack A → A → Store → AccountInfo → Result Store
  save {A} p value store info = do
    bytes ← rt.pack A p value (store info.key).contents
    ok (write store info.key bytes)

  unfoldable pub assert_uninitialized : {A : Type 0} → Pack A → Store → AccountInfo → Result A
  assert_uninitialized {A} p store info = do
    account ← rt.unpack_unchecked A p.size p.unpack_from_slice (store info.key).contents
    if p.is_initialized account then fail already_in_use else ok account

  unfoldable pub unpack_mint : Store → AccountInfo → Pubkey → Result Mint
  unpack_mint store info token_program_id =
      if not ((store info.key).owner == token_program_id)
      then fail incorrect_token_program_id
      else ok_or (rt.mint (store info.key).contents) expected_mint

  unfoldable pub unpack_token_account : Store → AccountInfo → Pubkey → Result TokenAccount
  unpack_token_account store info token_program_id =
      if not ((store info.key).owner == token_program_id)
      then fail incorrect_token_program_id
      else ok_or (rt.token_account (store info.key).contents) expected_account

  unfoldable pub authority_id : Pubkey → Pubkey → ℕ → Result Pubkey
  authority_id program_id my_info nonce =
      ok_or (rt.create_program_address my_info nonce program_id) invalid_program_address

  unfoldable pub token_transfer :
      Pubkey → AccountInfo → AccountInfo → AccountInfo → AccountInfo → ℕ → ℕ → Store → Result Store
  token_transfer swap token_program source destination authority nonce amount =
      rt.invoke_signed swap nonce
        (transfer token_program.key source.key destination.key authority.key amount)

  unfoldable pub token_mint_to :
      Pubkey → AccountInfo → AccountInfo → AccountInfo → AccountInfo → ℕ → ℕ → Store → Result Store
  token_mint_to swap token_program mint destination authority nonce amount =
      rt.invoke_signed swap nonce
        (mint_to token_program.key mint.key destination.key authority.key amount)

  unfoldable pub token_burn :
      Pubkey → AccountInfo → AccountInfo → AccountInfo → AccountInfo → ℕ → ℕ → Store → Result Store
  token_burn swap token_program account mint authority nonce amount =
      rt.invoke_signed swap nonce (burn token_program.key account.key mint.key authority.key amount)

  -- with `AuthorityType::FreezeAccount`, the one that the program sets
  unfoldable pub set_authority :
      AccountInfo → AccountInfo → Option Pubkey → AccountInfo → Store → Result Store
  set_authority token_program account new_authority owner =
      rt.invoke (set_freeze_authority token_program.key account.key new_authority owner.key)

-- `rent` is the account's `is_exempt`.
unfoldable pub assert_rent_exempt : (ℕ → ℕ → Bool) → Store → AccountInfo → Result (Unit {0})
assert_rent_exempt is_exempt store info =
    refuse_if (not (is_exempt (store info.key).lamports (length (store info.key).contents)))
      not_rent_exempt

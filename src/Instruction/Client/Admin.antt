-- ===== src/Instruction/Client/Admin.antt =====
-- instruction.rs: the client's admin instructions.
use deltafi_contracts.Prelude.{true, false, [], ◌∷◌}
use deltafi_contracts.State.Fees.{Fees}
use deltafi_contracts.State.Rewards.{Rewards}
use deltafi_contracts.State.Position.{Pubkey}
use deltafi_contracts.Instruction.Admin as Data
use deltafi_contracts.Instruction.Client.{Instruction, account, readonly, made}

module _ (rent_id token_program_id : Pubkey) where
  unfoldable pub initialize_config :
      (program_id config_pubkey market_authority_pubkey deltafi_mint_pubkey admin_pubkey : Pubkey)
      → (fees : Fees) → (rewards : Rewards) → Instruction
  initialize_config program_id config_pubkey market_authority_pubkey deltafi_mint_pubkey
        admin_pubkey fees rewards =
      made program_id (Data.pack (Data.initialize (record { fees = fees; rewards = rewards }))) (
        account config_pubkey false
        ∷ readonly market_authority_pubkey false
        ∷ readonly deltafi_mint_pubkey false
        ∷ readonly admin_pubkey true
        ∷ readonly rent_id false
        ∷ readonly token_program_id false
        ∷ [])

  unfoldable pub pause : (program_id config_pubkey swap_pubkey admin_pubkey : Pubkey) → Instruction
  pause program_id config_pubkey swap_pubkey admin_pubkey =
      made program_id (Data.pack Data.pause)
        (readonly config_pubkey false ∷ account swap_pubkey false ∷ readonly admin_pubkey true ∷ [])

  unfoldable pub unpause :
      (program_id config_pubkey swap_pubkey admin_pubkey : Pubkey) → Instruction
  unpause program_id config_pubkey swap_pubkey admin_pubkey =
      made program_id (Data.pack Data.unpause)
        (readonly config_pubkey false ∷ account swap_pubkey false ∷ readonly admin_pubkey true ∷ [])

  unfoldable pub set_fee_account :
      (program_id config_pubkey swap_pubkey authority_pubkey admin_pubkey
        new_fee_account_pubkey : Pubkey)
      → Instruction
  set_fee_account program_id config_pubkey swap_pubkey authority_pubkey admin_pubkey
        new_fee_account_pubkey =
      made program_id (Data.pack Data.set_fee_account) (
        readonly config_pubkey false
        ∷ account swap_pubkey false
        ∷ readonly authority_pubkey false
        ∷ readonly admin_pubkey true
        ∷ readonly new_fee_account_pubkey false
        ∷ readonly token_program_id false
        ∷ [])

  unfoldable pub commit_new_admin :
      (program_id config_pubkey admin_pubkey deltafi_mint_pubkey new_admin_key : Pubkey)
      → Instruction
  commit_new_admin program_id config_pubkey admin_pubkey deltafi_mint_pubkey new_admin_key =
      made program_id (Data.pack (Data.commit_new_admin new_admin_key)) (
        account config_pubkey false
        ∷ readonly admin_pubkey true
        ∷ account deltafi_mint_pubkey false
        ∷ readonly token_program_id false
        ∷ [])

  unfoldable pub set_new_fees :
      (program_id config_pubkey swap_pubkey admin_pubkey : Pubkey) → (new_fees : Fees) → Instruction
  set_new_fees program_id config_pubkey swap_pubkey admin_pubkey new_fees =
      made program_id (Data.pack (Data.set_new_fees new_fees))
        (readonly config_pubkey false ∷ account swap_pubkey false ∷ readonly admin_pubkey true ∷ [])

  unfoldable pub set_new_rewards :
      (program_id config_pubkey swap_pubkey admin_pubkey : Pubkey)
      → (new_rewards : Rewards) → Instruction
  set_new_rewards program_id config_pubkey swap_pubkey admin_pubkey new_rewards =
      made program_id (Data.pack (Data.set_new_rewards new_rewards))
        (readonly config_pubkey false ∷ account swap_pubkey false ∷ readonly admin_pubkey true ∷ [])

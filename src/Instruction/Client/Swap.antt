-- ===== src/Instruction/Client/Swap.antt =====
-- instruction.rs: the client's swap instructions.
use deltafi_contracts.Prelude.{true, false, List, [], ◌∷◌}
use deltafi_contracts.State.Position.{Pubkey}
use deltafi_contracts.Instruction.Swap as Data
use deltafi_contracts.Instruction.Swap.{InitializeData, SwapData, DepositData, WithdrawData}
use deltafi_contracts.Instruction.Client.{AccountMeta, Instruction, account, readonly, made}

-- An account for each provider.
abbrev pub each : List Pubkey → List AccountMeta
each [] = []
each (key ∷ keys) = account key false ∷ each keys

module _ (clock_id rent_id token_program_id : Pubkey) where
  unfoldable pub initialize :
      (program_id config_pubkey swap_pubkey authority_pubkey admin_fee_a_pubkey admin_fee_b_pubkey
        token_a_pubkey token_b_pubkey pool_mint_pubkey destination_pubkey pyth_a_pubkey
        pyth_b_pubkey : Pubkey)
      → (init_data : InitializeData) → Instruction
  initialize program_id config_pubkey swap_pubkey authority_pubkey admin_fee_a_pubkey
        admin_fee_b_pubkey token_a_pubkey token_b_pubkey pool_mint_pubkey destination_pubkey
        pyth_a_pubkey pyth_b_pubkey init_data =
      made program_id (Data.pack (Data.initialize init_data)) (
        readonly config_pubkey false
        ∷ account swap_pubkey false
        ∷ readonly authority_pubkey false
        ∷ readonly admin_fee_a_pubkey false
        ∷ readonly admin_fee_b_pubkey false
        ∷ readonly token_a_pubkey false
        ∷ readonly token_b_pubkey false
        ∷ account pool_mint_pubkey false
        ∷ account destination_pubkey false
        ∷ readonly pyth_a_pubkey false
        ∷ readonly pyth_b_pubkey false
        ∷ readonly clock_id false
        ∷ readonly token_program_id false
        ∷ [])

  unfoldable pub swap :
      (program_id config_pubkey swap_pubkey market_authority_pubkey swap_authority_pubkey
        user_transfer_authority_pubkey source_pubkey swap_source_pubkey swap_destination_pubkey
        destination_pubkey reward_token_pubkey reward_mint_pubkey admin_fee_destination_pubkey
        pyth_a_pubkey pyth_b_pubkey : Pubkey)
      → (swap_data : SwapData) → Instruction
  swap program_id config_pubkey swap_pubkey market_authority_pubkey swap_authority_pubkey
        user_transfer_authority_pubkey source_pubkey swap_source_pubkey swap_destination_pubkey
        destination_pubkey reward_token_pubkey reward_mint_pubkey admin_fee_destination_pubkey
        pyth_a_pubkey pyth_b_pubkey swap_data =
      made program_id (Data.pack (Data.swap swap_data)) (
        readonly config_pubkey false
        ∷ account swap_pubkey false
        ∷ readonly market_authority_pubkey false
        ∷ readonly swap_authority_pubkey false
        ∷ readonly user_transfer_authority_pubkey true
        ∷ account source_pubkey false
        ∷ account swap_source_pubkey false
        ∷ account swap_destination_pubkey false
        ∷ account destination_pubkey false
        ∷ account reward_token_pubkey false
        ∷ account reward_mint_pubkey false
        ∷ account admin_fee_destination_pubkey false
        ∷ readonly pyth_a_pubkey false
        ∷ readonly pyth_b_pubkey false
        ∷ readonly clock_id false
        ∷ readonly token_program_id false
        ∷ [])

  unfoldable pub deposit :
      (program_id swap_pubkey authority_pubkey user_transfer_authority_pubkey deposit_token_a_pubkey
        deposit_token_b_pubkey swap_token_a_pubkey swap_token_b_pubkey pool_mint_pubkey
        destination_pubkey liquidity_provider_pubkey liquidity_owner_pubkey pyth_a_pubkey
        pyth_b_pubkey : Pubkey)
      → (deposit_data : DepositData) → Instruction
  deposit program_id swap_pubkey authority_pubkey user_transfer_authority_pubkey
        deposit_token_a_pubkey deposit_token_b_pubkey swap_token_a_pubkey swap_token_b_pubkey
        pool_mint_pubkey destination_pubkey liquidity_provider_pubkey liquidity_owner_pubkey
        pyth_a_pubkey pyth_b_pubkey deposit_data =
      made program_id (Data.pack (Data.deposit deposit_data)) (
        account swap_pubkey false
        ∷ readonly authority_pubkey false
        ∷ readonly user_transfer_authority_pubkey true
        ∷ account deposit_token_a_pubkey false
        ∷ account deposit_token_b_pubkey false
        ∷ account swap_token_a_pubkey false
        ∷ account swap_token_b_pubkey false
        ∷ account pool_mint_pubkey false
        ∷ account destination_pubkey false
        ∷ account liquidity_provider_pubkey false
        ∷ readonly liquidity_owner_pubkey true
        ∷ readonly pyth_a_pubkey false
        ∷ readonly pyth_b_pubkey false
        ∷ readonly clock_id false
        ∷ readonly token_program_id false
        ∷ [])

  unfoldable pub withdraw :
      (program_id swap_pubkey authority_pubkey user_transfer_authority_pubkey pool_mint_pubkey
        source_pubkey swap_token_a_pubkey swap_token_b_pubkey destination_token_a_pubkey
        destination_token_b_pubkey admin_fee_a_pubkey admin_fee_b_pubkey liquidity_provider_pubkey
        liquidity_owner_pubkey pyth_a_pubkey pyth_b_pubkey : Pubkey)
      → (withdraw_data : WithdrawData) → Instruction
  withdraw program_id swap_pubkey authority_pubkey user_transfer_authority_pubkey pool_mint_pubkey
        source_pubkey swap_token_a_pubkey swap_token_b_pubkey destination_token_a_pubkey
        destination_token_b_pubkey admin_fee_a_pubkey admin_fee_b_pubkey liquidity_provider_pubkey
        liquidity_owner_pubkey pyth_a_pubkey pyth_b_pubkey withdraw_data =
      made program_id (Data.pack (Data.withdraw withdraw_data)) (
        account swap_pubkey false
        ∷ readonly authority_pubkey false
        ∷ readonly user_transfer_authority_pubkey true
        ∷ account pool_mint_pubkey false
        ∷ account source_pubkey false
        ∷ account swap_token_a_pubkey false
        ∷ account swap_token_b_pubkey false
        ∷ account destination_token_a_pubkey false
        ∷ account destination_token_b_pubkey false
        ∷ account admin_fee_a_pubkey false
        ∷ account admin_fee_b_pubkey false
        ∷ account liquidity_provider_pubkey false
        ∷ readonly liquidity_owner_pubkey true
        ∷ readonly pyth_a_pubkey false
        ∷ readonly pyth_b_pubkey false
        ∷ readonly clock_id false
        ∷ readonly token_program_id false
        ∷ [])

  unfoldable pub init_liquidity_provider :
      (program_id liquidity_provider_pubkey liquidity_owner_pubkey : Pubkey) → Instruction
  init_liquidity_provider program_id liquidity_provider_pubkey liquidity_owner_pubkey =
      made program_id (Data.pack Data.initialize_liquidity_provider) (
        account liquidity_provider_pubkey false
        ∷ readonly liquidity_owner_pubkey true
        ∷ readonly rent_id false
        ∷ [])

  unfoldable pub claim_liquidity_rewards :
      (program_id config_pubkey swap_pubkey market_authority_info liquidity_provider_pubkey
        liquidity_owner_pubkey claim_destination_pubkey claim_mint_pubkey : Pubkey)
      → Instruction
  claim_liquidity_rewards program_id config_pubkey swap_pubkey market_authority_info
        liquidity_provider_pubkey liquidity_owner_pubkey claim_destination_pubkey
        claim_mint_pubkey =
      made program_id (Data.pack Data.claim_liquidity_rewards) (
        readonly config_pubkey false
        ∷ readonly swap_pubkey false
        ∷ readonly market_authority_info false
        ∷ account liquidity_provider_pubkey false
        ∷ readonly liquidity_owner_pubkey true
        ∷ account claim_destination_pubkey false
        ∷ account claim_mint_pubkey false
        ∷ readonly token_program_id false
        ∷ [])

  unfoldable pub refresh_liquidity_obligation :
      (program_id swap_pubkey : Pubkey) → (liquidity_provider_pubkeys : List Pubkey) → Instruction
  refresh_liquidity_obligation program_id swap_pubkey liquidity_provider_pubkeys =
      made program_id (Data.pack Data.refresh_liquidity_obligation)
        (readonly swap_pubkey false ∷ readonly clock_id false ∷ each liquidity_provider_pubkeys)

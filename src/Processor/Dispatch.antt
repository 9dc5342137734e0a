-- ===== src/Processor/Dispatch.antt =====
-- An instruction that a client packs reaches its own handler.
use deltafi_contracts.Prelude.{◌<◌, ◌^◌, ◌≡◌, refl, ◌∙◌, true, false, some, List, [], ◌∷◌}
use deltafi_contracts.Outcome.{ok, >>=-ok}
use deltafi_contracts.State.Position.{Pubkey}
use deltafi_contracts.State.Config.{ConfigInfo}
use deltafi_contracts.State.Swap.{SwapInfo}
use deltafi_contracts.State.Swap.Packing.{IsSwapInfo}
use deltafi_contracts.State.Pack.{config_pack, swap_pack}
use deltafi_contracts.Instruction.{check, InstructionType}
use deltafi_contracts.Instruction.Swap as SwapData
use deltafi_contracts.Instruction.Swap.{SwapInstruction}
use deltafi_contracts.Instruction.Swap.RoundTrip.{
  IsSwapInstruction, swap_instruction_unpack-pack, unpack-check,
}
use deltafi_contracts.Instruction.Admin as AdminData
use deltafi_contracts.Instruction.Admin.{AdminInstruction, IsUnpackUnchecked}
use deltafi_contracts.Instruction.Admin.RoundTrip.{
  IsAdminInstruction, admin_instruction_unpack-pack,
}
use deltafi_contracts.Instruction.Client.{handed}
use deltafi_contracts.Instruction.Client.Admin as Client
use deltafi_contracts.Runtime.{Runtime, IsRuntime, AccountInfo, Store}
use deltafi_contracts.Runtime.Accounts.{load}
use deltafi_contracts.Admin as Admin
use deltafi_contracts.Admin.{process_admin_instruction}
use deltafi_contracts.Admin.Effects.{edited, process_pause_live}
use deltafi_contracts.Processor.Swap.{process_swap}
use deltafi_contracts.Processor.Deposit.{process_deposit}
use deltafi_contracts.Processor.Withdraw.{process_withdraw}
use deltafi_contracts.Processor.Liquidity.{
  process_init_liquidity_provider, process_claim_liquidity_rewards,
  process_refresh_liquidity_obligation,
}
use deltafi_contracts.Processor.Initialize.{process_initialize}
use deltafi_contracts.State.Fees.{Fees}
use deltafi_contracts.State.Rewards.{Rewards}
use deltafi_contracts.State.Fees.Packing.{IsFees}
use deltafi_contracts.State.Rewards.Packing.{IsRewards}
use deltafi_contracts.Processor.{dispatch, process_swap_instruction, process}

check-admin : (i : AdminInstruction) → check (AdminData.pack i) ≡ some InstructionType.admin
unfolding check AdminData.pack
check-admin (AdminData.initialize i) = refl
check-admin AdminData.pause = refl
check-admin AdminData.unpause = refl
check-admin AdminData.set_fee_account = refl
check-admin (AdminData.commit_new_admin key) = refl
check-admin (AdminData.set_new_fees fees) = refl
check-admin (AdminData.set_new_rewards rewards) = refl

module _ (rt : Runtime) (program_id : Pubkey) where
  process-swap :
      (i : SwapInstruction) (accounts : List AccountInfo) (s : Store)
      → IsSwapInstruction i
      → process rt program_id accounts (SwapData.pack i) s ≡ dispatch rt program_id i accounts s
  unfolding process process_swap_instruction
  process-swap i accounts s sound =
      let read = swap_instruction_unpack-pack i sound in
      rw (unpack-check (SwapData.pack i) i read, process) (>>=-ok _ _ read)

  process-admin :
      (i : AdminInstruction) (accounts : List AccountInfo) (s : Store)
      → IsUnpackUnchecked rt.unpack_unchecked
      → IsAdminInstruction i
      → process rt program_id accounts (AdminData.pack i) s
        ≡ Admin.dispatch rt program_id i accounts s
  unfolding process process_admin_instruction
  process-admin i accounts s unchecked sound =
      rw (check-admin i, process)
        (>>=-ok _ _ (admin_instruction_unpack-pack rt.unpack_unchecked unchecked i sound))

  -- The packed data of an instruction, whose numbers are of their widths, is processed by the handler of
  -- that instruction with the values that were packed: an initialization, a swap, a deposit and a
  -- withdrawal; the tags 4, 5 and 6 set up, claim for and refresh a provider; and, where `unpack_unchecked`
  -- unpacks data of the packed length, an initialization of the configuration, a new admin, new fees and new
  -- rewards; the tags 101, 102 and 103 pause, unpause and set the fee account.
  pub process-pack :
      (accounts : List AccountInfo) (s : Store) (i : SwapData.InitializeData)
      (t : SwapData.SwapData) (d : SwapData.DepositData) (w : SwapData.WithdrawData)
      (c : AdminData.AdminInitializeData) (key : Pubkey) (fees : Fees) (rewards : Rewards)
      → IsSwapInstruction (SwapData.initialize i)
      → IsSwapInstruction (SwapData.swap t)
      → IsSwapInstruction (SwapData.deposit d)
      → IsSwapInstruction (SwapData.withdraw w)
      → IsAdminInstruction (AdminData.initialize c)
      → key < 256 ^ 32
      → IsFees fees
      → IsRewards rewards
      → IsUnpackUnchecked rt.unpack_unchecked
      → (process rt program_id accounts (SwapData.pack (SwapData.initialize i)) s
          ≡ process_initialize rt program_id i accounts s)
        × (process rt program_id accounts (SwapData.pack (SwapData.swap t)) s
            ≡ process_swap rt program_id t accounts s)
        × (process rt program_id accounts (SwapData.pack (SwapData.deposit d)) s
            ≡ process_deposit rt program_id d accounts s)
        × (process rt program_id accounts (SwapData.pack (SwapData.withdraw w)) s
            ≡ process_withdraw rt program_id w accounts s)
        × (process rt program_id accounts (4 ∷ []) s
            ≡ process_init_liquidity_provider rt program_id accounts s)
        × (process rt program_id accounts (5 ∷ []) s
            ≡ process_claim_liquidity_rewards rt program_id accounts s)
        × (process rt program_id accounts (6 ∷ []) s
            ≡ process_refresh_liquidity_obligation rt program_id accounts s)
        × (process rt program_id accounts (AdminData.pack (AdminData.initialize c)) s
            ≡ Admin.process_initialize rt program_id c.fees c.rewards accounts s)
        × (process rt program_id accounts (101 ∷ []) s
            ≡ Admin.process_pause rt program_id accounts s)
        × (process rt program_id accounts (102 ∷ []) s
            ≡ Admin.process_unpause rt program_id accounts s)
        × (process rt program_id accounts (103 ∷ []) s
            ≡ Admin.process_set_fee_account rt program_id accounts s)
        × (process rt program_id accounts (AdminData.pack (AdminData.commit_new_admin key)) s
            ≡ Admin.process_commit_new_admin rt program_id key accounts s)
        × (process rt program_id accounts (AdminData.pack (AdminData.set_new_fees fees)) s
            ≡ Admin.process_set_new_fees rt program_id fees accounts s)
        × (process rt program_id accounts (AdminData.pack (AdminData.set_new_rewards rewards)) s
            ≡ Admin.process_set_new_rewards rt program_id rewards accounts s)
  unfolding dispatch Admin.dispatch SwapData.pack AdminData.pack
  process-pack accounts s i t d w c key fees rewards hi ht hd hw hc hk hf hr unchecked = (
    process-swap (SwapData.initialize i) accounts s hi,
    process-swap (SwapData.swap t) accounts s ht,
    process-swap (SwapData.deposit d) accounts s hd,
    process-swap (SwapData.withdraw w) accounts s hw,
    process-swap SwapData.initialize_liquidity_provider accounts s tt,
    process-swap SwapData.claim_liquidity_rewards accounts s tt,
    process-swap SwapData.refresh_liquidity_obligation accounts s tt,
    process-admin (AdminData.initialize c) accounts s unchecked hc,
    process-admin AdminData.pause accounts s unchecked tt,
    process-admin AdminData.unpause accounts s unchecked tt,
    process-admin AdminData.set_fee_account accounts s unchecked tt,
    process-admin (AdminData.commit_new_admin key) accounts s unchecked hk,
    process-admin (AdminData.set_new_fees fees) accounts s unchecked hf,
    process-admin (AdminData.set_new_rewards rewards) accounts s unchecked hr,
  )

  -- Where an account of the program's holds a configuration and another a swap, whose fields are of their
  -- widths when it is paused, the instruction that a client builds to pause the swap, for the admin that
  -- the configuration names and with that admin's signature, succeeds and leaves a paused swap.
  pub client_pause_live :
      IsRuntime rt
      → IsUnpackUnchecked rt.unpack_unchecked
      → (rent_id token_program_id config_pubkey swap_pubkey : Pubkey) (s : Store)
        (config : ConfigInfo) (old : SwapInfo)
      → ((s config_pubkey).owner ≡ program_id) × ((s swap_pubkey).owner ≡ program_id)
      → load rt config_pack s (record { key = config_pubkey; is_signer = false }) ≡ ok config
      → load rt swap_pack s (record { key = swap_pubkey; is_signer = false }) ≡ ok old
      → IsSwapInfo (edited AdminData.pause old)
      → (s' : Store) × (process rt program_id
            (handed
              (Client.pause rent_id token_program_id program_id config_pubkey swap_pubkey
                config.admin_key).accounts)
            (Client.pause rent_id token_program_id program_id config_pubkey swap_pubkey
              config.admin_key).data_bytes
            s
          ≡ ok s')
        × (load rt swap_pack s' (record { key = swap_pubkey; is_signer = false })
            ≡ ok (edited AdminData.pause old))
  unfolding Client.pause Admin.dispatch
  client_pause_live lawful unchecked rent_id token_program_id config_pubkey swap_pubkey s config old
        owned held_config held sound =
      let a : AccountInfo = record { key = config_pubkey; is_signer = false } in
      let b : AccountInfo = record { key = swap_pubkey; is_signer = false } in
      let c : AccountInfo = record { key = config.admin_key; is_signer = true } in
      let (s', done, paused) =
        process_pause_live rt program_id lawful a b (c ∷ []) s old held c [] config refl owned
          held_config (refl, refl) sound in
      (s', process-admin AdminData.pause (a ∷ b ∷ c ∷ []) s unchecked tt ∙ done, paused)

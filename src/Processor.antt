-- ===== src/Processor.antt =====
-- processor.rs: `process`, which sends the data of an instruction to its handler. The handlers of the swap
-- instructions work on a store of accounts; one that fails leaves nothing behind, so it returns no store.
pub mod Oracle
pub mod Trade
pub mod Swap
pub mod Deposit
pub mod Withdraw
pub mod Liquidity
pub mod Initialize
pub mod Paused
pub mod Amounts
pub mod Steps
pub mod Recorded
pub mod Vaults
pub mod Payments
pub mod Deposited
pub mod Withdrawn
pub mod Swapped
pub mod Claimed
pub mod Prices
pub mod Providers
pub mod Claims
pub mod Dispatch
pub mod Initialized
use deltafi_contracts.Prelude.{Option, none, some, List}
use deltafi_contracts.Outcome.{Result, err, ◌>>=◌, invalid_instruction_data}
use deltafi_contracts.Bytes.{Bytes}
use deltafi_contracts.State.Position.{Pubkey}
use deltafi_contracts.Instruction as Kinds
use deltafi_contracts.Instruction.Swap as Instruction
use deltafi_contracts.Instruction.Swap.{
  SwapInstruction, initialize, swap, deposit, withdraw, initialize_liquidity_provider,
  claim_liquidity_rewards, refresh_liquidity_obligation,
}
use deltafi_contracts.Runtime.{Runtime, AccountInfo, Store}
use deltafi_contracts.Admin.{process_admin_instruction}
use deltafi_contracts.Processor.Swap.{process_swap}
use deltafi_contracts.Processor.Deposit.{process_deposit}
use deltafi_contracts.Processor.Withdraw.{process_withdraw}
use deltafi_contracts.Processor.Liquidity.{
  process_init_liquidity_provider, process_claim_liquidity_rewards,
  process_refresh_liquidity_obligation,
}
use deltafi_contracts.Processor.Initialize.{process_initialize}

module _ (rt : Runtime) (program_id : Pubkey) where
  unfoldable pub dispatch : SwapInstruction → List AccountInfo → Store → Result Store
  dispatch (initialize input) = process_initialize rt program_id input
  dispatch (swap input) = process_swap rt program_id input
  dispatch (deposit input) = process_deposit rt program_id input
  dispatch (withdraw input) = process_withdraw rt program_id input
  dispatch initialize_liquidity_provider = process_init_liquidity_provider rt program_id
  dispatch claim_liquidity_rewards = process_claim_liquidity_rewards rt program_id
  dispatch refresh_liquidity_obligation = process_refresh_liquidity_obligation rt program_id

  unfoldable pub process_swap_instruction : List AccountInfo → Bytes → Store → Result Store
  process_swap_instruction accounts input store = do
    instruction ← Instruction.unpack input
    dispatch instruction accounts store

  unfoldable pub process : List AccountInfo → Bytes → Store → Result Store
  process accounts input store = elim (Kinds.check input) [
    | some Kinds.InstructionType.admin ↦
        process_admin_instruction rt program_id accounts input store
    | some Kinds.InstructionType.swap ↦ process_swap_instruction accounts input store
    | none ↦ err invalid_instruction_data
  ]

-- ===== src/Tests/Processor.antt =====
-- The theorems on the handlers at sample accounts.
use deltafi_contracts.Prelude.{ℕ, ◌+◌, ◌*◌, ◌%◌, ◌^◌, ◌≤◌, ◌<◌, ◌⊎◌, ◌≡◌, ◌≢◌, refl, [], ◌∷◌, arith}
use deltafi_contracts.Outcome.{ok, ◌>>=◌, >>=-ok-elim}
use deltafi_contracts.State.Pack.{swap_pack}
use deltafi_contracts.Runtime.{Store, Clock}
use deltafi_contracts.Runtime.Accounts.{load}
use deltafi_contracts.Tests.Samples.{swap_info, config_info, provider}
use deltafi_contracts.Tests.Accounts.{
  runtime, store, at, signer, now, ok_of, runtime-IsRuntime, runtime-KeepsOthers,
}
use deltafi_contracts.Instruction.Read.{sell_base}
use deltafi_contracts.Instruction.Swap.{SwapData, DepositData, WithdrawData, InitializeData}
use deltafi_contracts.Prelude.Int.{pos}
use deltafi_contracts.Runtime.{price}
use deltafi_contracts.Curve.Pool.{PoolState}
use deltafi_contracts.State.Swap.{SwapInfo}
use deltafi_contracts.State.Liquidity.Pools.{DistinctPools}
use deltafi_contracts.State.Liquidity.Amounts.{total_liquidity}
use deltafi_contracts.Processor.Claims.{claim_again}
use deltafi_contracts.Processor.Claims as Again
use deltafi_contracts.Tests.Samples.{short_of_base}
use deltafi_contracts.Tests.State.{fees-IsFraction, provider-DistinctPools}
use deltafi_contracts.Processor.Swapped.{IsSwapped, swap_with-IsSwapped}
use deltafi_contracts.Processor.Deposited.{IsDeposited, deposit_with-IsDeposited}
use deltafi_contracts.Processor.Withdrawn.{IsWithdrawn, withdraw_with-IsWithdrawn}
use deltafi_contracts.Processor.Claimed.{IsClaimed, process_claim_liquidity_rewards-IsClaimed}
use deltafi_contracts.Processor.Amounts.{
  IsFairSwap, swap_amounts-IsFairSwap, IsFairWithdrawal, withdraw_amounts-IsFairWithdrawal,
}
use deltafi_contracts.Processor.Prices.{
  price_ratio-ge, price_of-fresh, IsNewPrice, get_new_market_price-IsNewPrice,
}
use deltafi_contracts.Processor.Providers.{born, deposited, Lives-balanced}
use deltafi_contracts.Processor.Claimed.{listed}
use deltafi_contracts.Bytes as By
use deltafi_contracts.State.Liquidity as Li
use deltafi_contracts.Processor.Oracle as Or
use deltafi_contracts.Processor.Trade as Td
use deltafi_contracts.Processor.Swap as Ps
use deltafi_contracts.Processor.Deposit as Pd
use deltafi_contracts.Processor.Withdraw as Pw
use deltafi_contracts.Processor.Liquidity as Pl
use deltafi_contracts.Processor.Initialize as Pi
use deltafi_contracts.Admin as Ad
use deltafi_contracts.Instruction.Admin as IA
use deltafi_contracts.Instruction.Read as IR
use deltafi_contracts.Tests.Runs.{
  swap_accounts, trade, deposit_accounts, offer, withdraw_accounts, taken, claim_accounts, four,
  initialize_accounts, start, admins, samples_loads_run, samples_handlers_run, samples_amounts_run,
  claimed_and_credited,
}
use deltafi_contracts.State.Swap.Packing.{IsSwapInfo}
use deltafi_contracts.Instruction.Admin.{pause}
use deltafi_contracts.Runtime.Accounts.Laws.{IsWrite}
use deltafi_contracts.Admin.{process_pause}
use deltafi_contracts.Admin.Access.{IsSigned, process_admin_instruction-IsSigned}
use deltafi_contracts.Admin.Effects.{edited, process_admin_instruction-edited}
use deltafi_contracts.Processor.{process}
use deltafi_contracts.Processor.Initialized.{IsInitialized, initialize_with-IsInitialized}
use deltafi_contracts.Processor.Dispatch.{process-pack, client_pause_live}
use deltafi_contracts.Instruction.Client.{handed}
use deltafi_contracts.Instruction.Client.Admin as Client
use deltafi_contracts.Instruction.Admin.{IsUnpackUnchecked}
use deltafi_contracts.Instruction.Swap as SwapData
use deltafi_contracts.Tests.Samples.{fees, rewards, settings}
use deltafi_contracts.State.Position.{Pubkey}
use deltafi_contracts.Processor.Paused.{process_pause-halts}
use deltafi_contracts.Tests.Codec.{swap_info-IsSwapInfo, fees-IsFees, rewards-IsRewards}

swapped : (s' : Store) × (Ps.swap_with runtime 100 swap_accounts trade store ≡ ok s')
swapped = ok_of _ samples_handlers_run.0

swap_with-IsSwapped_example : IsSwapped runtime 100 swap_accounts trade store swapped.0
swap_with-IsSwapped_example =
    swap_with-IsSwapped runtime 100 runtime-KeepsOthers swap_accounts (omega arith) trade store
      swapped.0 swapped.1

deposit_done : (s' : Store) × (Pd.deposit_with runtime 100 deposit_accounts offer store ≡ ok s')
deposit_done = ok_of _ samples_handlers_run.1

deposit_with-IsDeposited_example :
    IsDeposited runtime 100 deposit_accounts offer store deposit_done.0
deposit_with-IsDeposited_example =
    deposit_with-IsDeposited runtime 100 runtime-IsRuntime runtime-KeepsOthers deposit_accounts
      (omega arith) offer store deposit_done.0 deposit_done.1

withdrawn : (s' : Store) × (Pw.withdraw_with runtime 100 withdraw_accounts taken store ≡ ok s')
withdrawn = ok_of _ samples_handlers_run.2

withdraw_with-IsWithdrawn_example :
    IsWithdrawn runtime 100 withdraw_accounts taken store withdrawn.0
withdraw_with-IsWithdrawn_example =
    withdraw_with-IsWithdrawn runtime 100 runtime-IsRuntime runtime-KeepsOthers withdraw_accounts
      (omega arith) taken store withdrawn.0 withdrawn.1

claimed :
    (s' : Store) × (Pl.process_claim_liquidity_rewards runtime 100 (listed claim_accounts) store
      ≡ ok s')
claimed = ok_of _ samples_handlers_run.3

process_claim_liquidity_rewards-IsClaimed_example :
    IsClaimed runtime 100 claim_accounts store claimed.0
process_claim_liquidity_rewards-IsClaimed_example =
    process_claim_liquidity_rewards-IsClaimed runtime 100 runtime-IsRuntime runtime-KeepsOthers
      claim_accounts store claimed.0 (omega arith) claimed.1

traded : (r : Td.SwapAmounts) × (Td.swap_amounts swap_info short_of_base trade 900 2210 ≡ ok r)
traded = ok_of _ samples_amounts_run.0

swap_amounts-IsFairSwap_example : IsFairSwap swap_info short_of_base trade 900 2210 traded.0
swap_amounts-IsFairSwap_example =
    swap_amounts-IsFairSwap swap_info short_of_base trade 900 2210 traded.0 fees-IsFraction
      (omega arith) traded.1

paid :
    (r : PoolState × Pw.WithdrawAmounts) × (Pw.withdraw_amounts swap_info short_of_base taken 1000
      ≡ ok r)
paid = ok_of _ samples_amounts_run.1

withdraw_amounts-IsFairWithdrawal_example :
    IsFairWithdrawal short_of_base paid.0.0 taken 1000 paid.0.1
withdraw_amounts-IsFairWithdrawal_example =
    withdraw_amounts-IsFairWithdrawal swap_info short_of_base paid.0.0 taken 1000 paid.0.1
      fees-IsFraction paid.1

price_ratio-ge_example :
    (1000000000 ≤ 2000000000) × (Or.price_ratio 4000000000 2000000000 ≡ ok 2000000000)
price_ratio-ge_example = price_ratio-ge 2000000000 4000000000 2000000000 samples_amounts_run.2

price_of-fresh_example :
    (four.ptype ≡ price)
    × (50 ≤ 52)
    × (52 < 50 + 5)
    × ((n : ℕ) × ((four.agg.price ≡ pos n)
          × ((four.agg.conf ≡ 0) ⊎ (four.agg.conf * 100 % 2 ^ 64 ≤ n))))
price_of-fresh_example = price_of-fresh four now 4000000000 samples_amounts_run.3

priced :
    (r : SwapInfo × ℕ × ℕ) × (Or.get_new_market_price runtime store swap_info (at 41) (at 42) now
      ≡ ok r)
priced = ok_of _ samples_amounts_run.4

get_new_market_price-IsNewPrice_example :
    IsNewPrice runtime store swap_info (at 41) (at 42) now priced.0.1 priced.0.2
get_new_market_price-IsNewPrice_example =
    get_new_market_price-IsNewPrice runtime store swap_info priced.0.0 (at 41) (at 42) now
      priced.0.1 priced.0.2 priced.1

claimed_then :
    (pool : Pubkey) (p q : Li.LiquidityProvider) (clock : Clock) (amount : ℕ)
    → claimed_and_credited p pool clock amount ≡ ok q
    → (r : Li.LiquidityProvider × ℕ) × (Li.claim p pool ≡ ok r)
      × (Pd.credit r.0 pool clock amount ≡ ok q)
claimed_then pool p q clock amount e0 = >>=-ok-elim (Li.claim p pool) _ e0 λ r er e1. (r, er, e1)

later : (q : Li.LiquidityProvider) × (claimed_and_credited provider 7 now 100 ≡ ok q)
later = ok_of _ samples_amounts_run.7

paid_then :
    (r : Li.LiquidityProvider × ℕ) × (Li.claim provider 7 ≡ ok r)
    × (Pd.credit r.0 7 now 100 ≡ ok later.0)
paid_then = claimed_then 7 provider later.0 now 100 later.1

claim_again_example : Li.claim later.0 7 ≢ ok (provider, 11)
claim_again_example =
    claim_again 7 provider paid_then.0.0 later.0 paid_then.0.1 provider-DistinctPools paid_then.1
      (Again.deposited 7 now 100 (Again.untouched paid_then.0.0) paid_then.2) provider 11

credited : (p : Li.LiquidityProvider) × (Pd.credit (Li.new 3 []) 7 now 100 ≡ ok p)
credited = ok_of _ samples_amounts_run.6

Lives-balanced_example :
    DistinctPools credited.0.positions × (total_liquidity credited.0.positions + 0 ≡ 0 + 100)
Lives-balanced_example = Lives-balanced (deposited 7 now 100 (born Li.default 3) credited.1)

paused-IsSwapInfo : IsSwapInfo (edited pause swap_info)
paused-IsSwapInfo =
    let h = swap_info-IsSwapInfo in
    record {
      nonce = h.nonce;
      token_a = h.token_a;
      token_b = h.token_b;
      pool_mint = h.pool_mint;
      token_a_mint = h.token_a_mint;
      token_b_mint = h.token_b_mint;
      admin_fee_key_a = h.admin_fee_key_a;
      admin_fee_key_b = h.admin_fee_key_b;
      fees = h.fees;
      rewards = h.rewards;
      block_timestamp_last = h.block_timestamp_last;
      cumulative_ticks = h.cumulative_ticks;
      pool_state = h.pool_state;
      base_price_cumulative_last = h.base_price_cumulative_last;
    }

pauses : (s' : Store) × (Ad.process_admin_instruction runtime 100 admins (101 ∷ []) store ≡ ok s')
pauses = ok_of _ samples_handlers_run.4

reads_pause : IA.unpack runtime.unpack_unchecked (101 ∷ []) ≡ ok pause
unfolding IA.unpack IA.unpack_tagged IR.unpack_u8 ◌>>=◌ By.take_le
reads_pause = refl

process_admin_instruction-IsSigned_example : IsSigned runtime 100 admins store
process_admin_instruction-IsSigned_example =
    process_admin_instruction-IsSigned runtime 100 runtime-IsRuntime pause admins (101 ∷ []) store
      pauses.0 reads_pause tt pauses.1

process_admin_instruction-edited_example :
    (load runtime swap_pack pauses.0 (at 7) ≡ ok (edited pause swap_info))
    × IsWrite store pauses.0 7
process_admin_instruction-edited_example =
    process_admin_instruction-edited runtime 100 runtime-IsRuntime (at 1) (at 7) (signer 21 ∷ [])
      store swap_info samples_loads_run.1 pause (101 ∷ []) pauses.0 reads_pause tt paused-IsSwapInfo
      pauses.1

started : (s' : Store) × (Pi.initialize_with runtime 100 initialize_accounts start store ≡ ok s')
started = ok_of _ samples_handlers_run.6

initialize_with-IsInitialized_example :
    IsInitialized runtime 100 initialize_accounts start store started.0
initialize_with-IsInitialized_example =
    initialize_with-IsInitialized runtime 100 runtime-KeepsOthers initialize_accounts start store
      started.0 (omega arith) started.1

runtime-IsUnpackUnchecked : IsUnpackUnchecked runtime.unpack_unchecked
runtime-IsUnpackUnchecked = record { at_size = λ {A} size read input e. ground arith }

process-pack_example :
    (process runtime 100 admins (SwapData.pack (SwapData.initialize start)) store
      ≡ Pi.process_initialize runtime 100 start admins store)
    × (process runtime 100 admins (SwapData.pack (SwapData.swap trade)) store
        ≡ Ps.process_swap runtime 100 trade admins store)
    × (process runtime 100 admins (SwapData.pack (SwapData.deposit offer)) store
        ≡ Pd.process_deposit runtime 100 offer admins store)
    × (process runtime 100 admins (SwapData.pack (SwapData.withdraw taken)) store
        ≡ Pw.process_withdraw runtime 100 taken admins store)
    × (process runtime 100 admins (4 ∷ []) store
        ≡ Pl.process_init_liquidity_provider runtime 100 admins store)
    × (process runtime 100 admins (5 ∷ []) store
        ≡ Pl.process_claim_liquidity_rewards runtime 100 admins store)
    × (process runtime 100 admins (6 ∷ []) store
        ≡ Pl.process_refresh_liquidity_obligation runtime 100 admins store)
    × (process runtime 100 admins (IA.pack (IA.initialize settings)) store
        ≡ Ad.process_initialize runtime 100 settings.fees settings.rewards admins store)
    × (process runtime 100 admins (101 ∷ []) store ≡ Ad.process_pause runtime 100 admins store)
    × (process runtime 100 admins (102 ∷ []) store ≡ Ad.process_unpause runtime 100 admins store)
    × (process runtime 100 admins (103 ∷ []) store
        ≡ Ad.process_set_fee_account runtime 100 admins store)
    × (process runtime 100 admins (IA.pack (IA.commit_new_admin 33)) store
        ≡ Ad.process_commit_new_admin runtime 100 33 admins store)
    × (process runtime 100 admins (IA.pack (IA.set_new_fees fees)) store
        ≡ Ad.process_set_new_fees runtime 100 fees admins store)
    × (process runtime 100 admins (IA.pack (IA.set_new_rewards rewards)) store
        ≡ Ad.process_set_new_rewards runtime 100 rewards admins store)
process-pack_example =
    process-pack runtime 100 admins store start trade offer taken settings 33 fees rewards
      (omega arith, omega arith, omega arith) (omega arith, omega arith)
      (omega arith, omega arith, omega arith) (omega arith, omega arith, omega arith)
      (fees-IsFees, rewards-IsRewards) (omega arith) fees-IsFees rewards-IsRewards
      runtime-IsUnpackUnchecked

client_pause_live_example :
    (s' : Store) × (process runtime 100
        (handed (Client.pause 90 200 100 1 7 21).accounts)
        (Client.pause 90 200 100 1 7 21).data_bytes
        store
      ≡ ok s')
    × (load runtime swap_pack s' (at 7) ≡ ok (edited pause swap_info))
client_pause_live_example =
    client_pause_live runtime 100 runtime-IsRuntime runtime-IsUnpackUnchecked 90 200 1 7 store
      config_info swap_info (refl, refl) samples_loads_run.0 samples_loads_run.1 paused-IsSwapInfo

halted : (s' : Store) × (process_pause runtime 100 admins store ≡ ok s')
halted = ok_of _ samples_handlers_run.5

process_pause-halts_example :
    (Ps.process_swap runtime 100 trade (at 1 ∷ at 7 ∷ []) halted.0 ≢ ok store)
    × (Pd.process_deposit runtime 100 offer (at 7 ∷ []) halted.0 ≢ ok store)
process_pause-halts_example =
    process_pause-halts runtime 100 runtime-IsRuntime (at 1) (at 7) (signer 21 ∷ []) store halted.0
      store swap_info samples_loads_run.1 paused-IsSwapInfo halted.1 trade offer (at 1) []

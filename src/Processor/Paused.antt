-- ===== src/Processor/Paused.antt =====
-- A swap that is paused is neither traded on nor deposited into.
use deltafi_contracts.Prelude.{◌≡◌, ◌≢◌, refl, sym, ap, ◌∙◌, true, List, ◌∷◌, arith}
use deltafi_contracts.Outcome.{
  Result, ok, refuse_if, ok-injective, ◌>>=◌, >>=-ok, >>=-ok-elim, is_paused,
}
use deltafi_contracts.State.Position.{Pubkey}
use deltafi_contracts.State.Swap.{SwapInfo}
use deltafi_contracts.State.Swap.Packing.{IsSwapInfo}
use deltafi_contracts.State.Pack.{config_pack, swap_pack}
use deltafi_contracts.Instruction.Admin.{pause}
use deltafi_contracts.Instruction.Swap.{SwapData, DepositData}
use deltafi_contracts.Runtime.{Runtime, IsRuntime, AccountInfo, Store}
use deltafi_contracts.Runtime.Accounts.{load}
use deltafi_contracts.Runtime.Accounts.Laws.{next-elim, next-here}
use deltafi_contracts.Admin.{process_pause}
use deltafi_contracts.Admin.Effects.{edited, pause-holds}
use deltafi_contracts.Processor.Swap.{SwapAccounts, swap_accounts, swap_with, process_swap}
use deltafi_contracts.Processor.Deposit.{
  DepositAccounts, deposit_accounts, deposit_with, process_deposit,
}

refuses-paused :
    {W : Type 0} (token_swap : SwapInfo) (rest : Unit {0} → Result W) {w : W}
    → token_swap.is_paused ≡ true
    → (refuse_if token_swap.is_paused is_paused >>= rest) ≢ ok w
unfolding ◌>>=◌
refuses-paused token_swap rest paused e = ground arith

module _ (rt : Runtime) (program_id : Pubkey) (lawful : IsRuntime rt) where
  swap_accounts-swap_info :
      (config_info swap_info : AccountInfo) (others : List AccountInfo) (s : Store)
      (a : SwapAccounts)
      → swap_accounts rt program_id (config_info ∷ swap_info ∷ others) s ≡ ok a
      → a.swap_info ≡ swap_info
  unfolding swap_accounts
  swap_accounts-swap_info config_info swap_info others s a e0 =
      let e1 = next-here rt lawful swap_info others _ (next-here rt lawful config_info _ _ e0) in
      next-elim rt lawful others _ e1 λ i1 l1 o1 e2. next-elim rt lawful l1 _ e2 λ i2 l2 o2 e3.
        next-elim rt lawful l2 _ e3 λ i3 l3 o3 e4. next-elim rt lawful l3 _ e4 λ i4 l4 o4 e5.
          next-elim rt lawful l4 _ e5 λ i5 l5 o5 e6. next-elim rt lawful l5 _ e6 λ i6 l6 o6 e7.
            next-elim rt lawful l6 _ e7 λ i7 l7 o7 e8. next-elim rt lawful l7 _ e8 λ i8 l8 o8 e9.
              next-elim rt lawful l8 _ e9 λ i9 l9 o9 e10.
                next-elim rt lawful l9 _ e10 λ i10 l10 o10 e11.
                  next-elim rt lawful l10 _ e11 λ i11 l11 o11 e12.
                    next-elim rt lawful l11 _ e12 λ i12 l12 o12 e13.
                      next-elim rt lawful l12 _ e13 λ i13 l13 o13 e14.
                        >>=-ok-elim (rt.clock_from_account_info s i13) _ e14 λ now en e15.
                          next-elim rt lawful l13 _ e15 λ i15 l15 o15 e16.
                            sym (ap (λ (x : SwapAccounts). x.swap_info) (ok-injective e16))

  deposit_accounts-swap_info :
      (swap_info : AccountInfo) (others : List AccountInfo) (s : Store) (a : DepositAccounts)
      → deposit_accounts rt program_id (swap_info ∷ others) s ≡ ok a
      → a.swap_info ≡ swap_info
  unfolding deposit_accounts
  deposit_accounts-swap_info swap_info others s a e0 =
      let e1 = next-here rt lawful swap_info others _ e0 in
      next-elim rt lawful others _ e1 λ i1 l1 o1 e2. next-elim rt lawful l1 _ e2 λ i2 l2 o2 e3.
        next-elim rt lawful l2 _ e3 λ i3 l3 o3 e4. next-elim rt lawful l3 _ e4 λ i4 l4 o4 e5.
          next-elim rt lawful l4 _ e5 λ i5 l5 o5 e6. next-elim rt lawful l5 _ e6 λ i6 l6 o6 e7.
            next-elim rt lawful l6 _ e7 λ i7 l7 o7 e8. next-elim rt lawful l7 _ e8 λ i8 l8 o8 e9.
              next-elim rt lawful l8 _ e9 λ i9 l9 o9 e10.
                next-elim rt lawful l9 _ e10 λ i10 l10 o10 e11.
                  next-elim rt lawful l10 _ e11 λ i11 l11 o11 e12.
                    next-elim rt lawful l11 _ e12 λ i12 l12 o12 e13.
                      next-elim rt lawful l12 _ e13 λ i13 l13 o13 e14.
                        >>=-ok-elim (rt.clock_from_account_info s i13) _ e14 λ now en e15.
                          next-elim rt lawful l13 _ e15 λ i15 l15 o15 e16.
                            sym (ap (λ (x : DepositAccounts). x.swap_info) (ok-injective e16))

  module _ (s : Store) (swap_info : AccountInfo) (token_swap : SwapInfo)
      (held : load rt swap_pack s swap_info ≡ ok token_swap)
      (paused : token_swap.is_paused ≡ true) where
    process_swap-paused :
        (input : SwapData) (config_info : AccountInfo) (others : List AccountInfo) (s' : Store)
        → process_swap rt program_id input (config_info ∷ swap_info ∷ others) s ≢ ok s'
    unfolding process_swap swap_with
    process_swap-paused input config_info others s' e0 =
        >>=-ok-elim (swap_accounts rt program_id (config_info ∷ swap_info ∷ others) s) _ e0
          λ a ea e1. >>=-ok-elim _ _ e1 λ u eu e2.
            >>=-ok-elim (load rt config_pack s a.config_info) _ e2 λ config ec e3.
              let same = swap_accounts-swap_info config_info swap_info others s a ea in
              let e4 = sym (>>=-ok _ _ (ap (load rt swap_pack s) same ∙ held)) ∙ e3 in
              refuses-paused token_swap _ paused e4

    process_deposit-paused :
        (input : DepositData) (others : List AccountInfo) (s' : Store)
        → process_deposit rt program_id input (swap_info ∷ others) s ≢ ok s'
    unfolding process_deposit deposit_with
    process_deposit-paused input others s' e0 =
        >>=-ok-elim (deposit_accounts rt program_id (swap_info ∷ others) s) _ e0 λ a ea e1.
          >>=-ok-elim _ _ e1 λ u eu e2.
            let same = deposit_accounts-swap_info swap_info others s a ea in
            let e3 = sym (>>=-ok _ _ (ap (load rt swap_pack s) same ∙ held)) ∙ e2 in
            refuses-paused token_swap _ paused e3

  -- Where an account holds a swap, whose fields are of their widths when it is paused, and an admin has
  -- paused it, no swap and no deposit on that account succeeds.
  pub process_pause-halts :
      (config_info swap_info : AccountInfo) (others : List AccountInfo) (s s' s'' : Store)
      (old : SwapInfo)
      → load rt swap_pack s swap_info ≡ ok old
      → IsSwapInfo (edited pause old)
      → process_pause rt program_id (config_info ∷ swap_info ∷ others) s ≡ ok s'
      → (input : SwapData) (offer : DepositData) (config_info' : AccountInfo)
        (others' : List AccountInfo)
      → (process_swap rt program_id input (config_info' ∷ swap_info ∷ others') s' ≢ ok s'')
        × (process_deposit rt program_id offer (swap_info ∷ others') s' ≢ ok s'')
  process_pause-halts config_info swap_info others s s' s'' old held sound e input offer
        config_info' others' =
      let (holds, _) =
        pause-holds rt program_id lawful config_info swap_info others s old held s' sound e in
      (
        process_swap-paused s' swap_info (edited pause old) holds refl input config_info' others'
            s'',
        process_deposit-paused s' swap_info (edited pause old) holds refl offer others' s'',
      )

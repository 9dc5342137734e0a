-- ===== src/Processor/Payments.antt =====
-- The calls of the token program that a swap, a deposit and a withdrawal make, in their order.
use deltafi_contracts.Prelude.{ℕ, List, [], ◌∷◌, ◌≡◌, refl}
use deltafi_contracts.Outcome.{ok, >>=-ok-elim}
use deltafi_contracts.State.Position.{Pubkey}
use deltafi_contracts.State.Config.{ConfigInfo}
use deltafi_contracts.Instruction.Read.{SwapDirection, sell_base, sell_quote}
use deltafi_contracts.Instruction.Swap.{DepositData, WithdrawData}
use deltafi_contracts.Runtime.{Runtime, Store, TokenCall, transfer, mint_to, burn}
use deltafi_contracts.Runtime.Accounts.{token_transfer, token_mint_to, token_burn}
use deltafi_contracts.Runtime.Accounts.Calls.{SignedCall, Runs}
use deltafi_contracts.Processor.Trade.{SwapAmounts}
use deltafi_contracts.Processor.Swap.{SwapAccounts, pay_legs, pay_swap}
use deltafi_contracts.Processor.Deposit.{DepositAccounts, pay_deposit}
use deltafi_contracts.Processor.Withdraw.{WithdrawAccounts, WithdrawAmounts, pay_withdraw}

abbrev pub signed : Pubkey → ℕ → TokenCall → SignedCall
signed seed nonce call = record { seed = seed; nonce = nonce; call = call }

-- The user's payment into a vault; what the other vault pays to the user and to the admin; the reward.
abbrev pub swap_calls :
    SwapDirection → SwapAccounts → (bump_seed nonce amount_in : ℕ) → SwapAmounts → List SignedCall
swap_calls sell_base a bump_seed nonce amount_in r =
    signed a.swap_info.key nonce (
      transfer a.token_program_info.key a.source_info.key a.swap_source_info.key
        a.user_transfer_authority_info.key amount_in)
    ∷ signed a.swap_info.key nonce (
        transfer a.token_program_info.key a.swap_destination_info.key a.destination_info.key
          a.swap_authority_info.key r.amount_out)
    ∷ signed a.swap_info.key nonce (
        transfer a.token_program_info.key a.swap_destination_info.key a.admin_destination_info.key
          a.swap_authority_info.key r.admin_fee)
    ∷ signed a.config_info.key bump_seed (
        mint_to a.token_program_info.key a.reward_mint_info.key a.reward_token_info.key
          a.market_authority_info.key r.amount_to_reward)
    ∷ []
swap_calls sell_quote a bump_seed nonce amount_in r =
    signed a.swap_info.key nonce (
      transfer a.token_program_info.key a.destination_info.key a.swap_destination_info.key
        a.user_transfer_authority_info.key amount_in)
    ∷ signed a.swap_info.key nonce (
        transfer a.token_program_info.key a.swap_source_info.key a.source_info.key
          a.swap_authority_info.key r.amount_out)
    ∷ signed a.swap_info.key nonce (
        transfer a.token_program_info.key a.swap_source_info.key a.admin_destination_info.key
          a.swap_authority_info.key r.admin_fee)
    ∷ signed a.config_info.key bump_seed (
        mint_to a.token_program_info.key a.reward_mint_info.key a.reward_token_info.key
          a.market_authority_info.key r.amount_to_reward)
    ∷ []

-- The user's payments into the vaults, and the shares.
abbrev pub deposit_calls :
    DepositAccounts → (nonce token_a_amount token_b_amount shares : ℕ) → List SignedCall
deposit_calls a nonce token_a_amount token_b_amount shares =
    signed a.swap_info.key nonce (
      transfer a.token_program_info.key a.source_a_info.key a.token_a_info.key
        a.user_transfer_authority_info.key token_a_amount)
    ∷ signed a.swap_info.key nonce (
        transfer a.token_program_info.key a.source_b_info.key a.token_b_info.key
          a.user_transfer_authority_info.key token_b_amount)
    ∷ signed a.swap_info.key nonce (
        mint_to a.token_program_info.key a.pool_mint_info.key a.destination_info.key
          a.authority_info.key shares)
    ∷ []

-- What each vault pays to the user and to the admin, and the shares that are burnt.
abbrev pub withdraw_calls :
    WithdrawAccounts → (nonce : ℕ) → WithdrawAmounts → (pool_token_amount : ℕ) → List SignedCall
withdraw_calls a nonce r pool_token_amount =
    signed a.swap_info.key nonce (
      transfer a.token_program_info.key a.token_a_info.key a.dest_token_a_info.key
        a.authority_info.key r.base_out_amount)
    ∷ signed a.swap_info.key nonce (
        transfer a.token_program_info.key a.token_a_info.key a.admin_fee_dest_a_info.key
          a.authority_info.key r.admin_fee_base)
    ∷ signed a.swap_info.key nonce (
        transfer a.token_program_info.key a.token_b_info.key a.dest_token_b_info.key
          a.authority_info.key r.quote_out_amount)
    ∷ signed a.swap_info.key nonce (
        transfer a.token_program_info.key a.token_b_info.key a.admin_fee_dest_b_info.key
          a.authority_info.key r.admin_fee_quote)
    ∷ signed a.swap_info.key nonce (
        burn a.token_program_info.key a.source_info.key a.pool_mint_info.key
          a.user_transfer_authority_info.key pool_token_amount)
    ∷ []

module _ (rt : Runtime) (program_id : Pubkey) where
  pub pay_swap-Runs :
      (d : SwapDirection) (a : SwapAccounts) (config : ConfigInfo) (nonce amount_in : ℕ)
      (r : SwapAmounts) (s s' : Store)
      → pay_swap rt program_id d a config nonce amount_in r s ≡ ok s'
      → Runs rt (swap_calls d a config.bump_seed nonce amount_in r) s s'
  unfolding pay_swap pay_legs token_transfer token_mint_to
  pay_swap-Runs sell_base a config nonce amount_in r s s' e0 =
      >>=-ok-elim (rt.invoke_signed _ _ _ s) _ e0 λ s1 c1 e1.
        >>=-ok-elim (rt.invoke_signed _ _ _ s1) _ e1 λ s2 c2 e2.
          >>=-ok-elim (rt.invoke_signed _ _ _ s2) _ e2
            λ s3 c3 e3. (s1, c1, (s2, c2, (s3, c3, (s', e3, refl))))
  pay_swap-Runs sell_quote a config nonce amount_in r s s' e0 =
      >>=-ok-elim (rt.invoke_signed _ _ _ s) _ e0 λ s1 c1 e1.
        >>=-ok-elim (rt.invoke_signed _ _ _ s1) _ e1 λ s2 c2 e2.
          >>=-ok-elim (rt.invoke_signed _ _ _ s2) _ e2
            λ s3 c3 e3. (s1, c1, (s2, c2, (s3, c3, (s', e3, refl))))

  pub pay_deposit-Runs :
      (a : DepositAccounts) (nonce : ℕ) (input : DepositData) (shares : ℕ) (s s' : Store)
      → pay_deposit rt program_id a nonce input shares s ≡ ok s'
      → Runs rt (deposit_calls a nonce input.token_a_amount input.token_b_amount shares) s s'
  unfolding pay_deposit token_transfer token_mint_to
  pay_deposit-Runs a nonce input shares s s' e0 =
      >>=-ok-elim (rt.invoke_signed _ _ _ s) _ e0 λ s1 c1 e1.
        >>=-ok-elim (rt.invoke_signed _ _ _ s1) _ e1 λ s2 c2 e2. (s1, c1, (s2, c2, (s', e2, refl)))

  pub pay_withdraw-Runs :
      (a : WithdrawAccounts) (nonce : ℕ) (input : WithdrawData) (r : WithdrawAmounts) (s s' : Store)
      → pay_withdraw rt program_id a nonce input r s ≡ ok s'
      → Runs rt (withdraw_calls a nonce r input.pool_token_amount) s s'
  unfolding pay_withdraw token_transfer token_burn
  pay_withdraw-Runs a nonce input r s s' e0 =
      >>=-ok-elim (rt.invoke_signed _ _ _ s) _ e0 λ s1 c1 e1.
        >>=-ok-elim (rt.invoke_signed _ _ _ s1) _ e1 λ s2 c2 e2.
          >>=-ok-elim (rt.invoke_signed _ _ _ s2) _ e2 λ s3 c3 e3.
            >>=-ok-elim (rt.invoke_signed _ _ _ s3) _ e3
              λ s4 c4 e4. (s1, c1, (s2, c2, (s3, c3, (s4, c4, (s', e4, refl)))))

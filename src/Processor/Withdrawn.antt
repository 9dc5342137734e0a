-- ===== src/Processor/Withdrawn.antt =====
-- What a withdrawal that succeeds has checked and leaves behind.
use deltafi_contracts.Prelude.{ℕ, ◌+◌, ◌≡◌, ◌≢◌, sym, ap, ◌∙◌, ◌==◌, arith}
use deltafi_contracts.Outcome.{
  ◌>>=◌, ok, refuse_if, >>=-ok-elim, invalid_account_owner, empty_supply,
}
use deltafi_contracts.Math.Decimal.{Decimal}
use deltafi_contracts.Curve.Pool
use deltafi_contracts.Curve.Pool.{PoolState}
use deltafi_contracts.State.Position.{Pubkey}
use deltafi_contracts.State.Liquidity as Liquidity
use deltafi_contracts.State.Liquidity.{LiquidityProvider, find_position, position_at}
use deltafi_contracts.State.Liquidity.Amounts.{total_liquidity, withdraw-total}
use deltafi_contracts.State.Swap.{SwapInfo}
use deltafi_contracts.State.Pack.{swap_pack, provider_pack}
use deltafi_contracts.Instruction.Swap.{WithdrawData}
use deltafi_contracts.Runtime.{Runtime, IsRuntime, KeepsOthers, Store, Mint}
use deltafi_contracts.Runtime.Accounts.{load, save, unpack_mint, authority_id}
use deltafi_contracts.Runtime.Accounts.Calls.{
  Keeps, Holds, Runs, Runs-Keeps, loads-apart, saves-Holds,
}
use deltafi_contracts.Processor.Oracle.{get_new_market_price}
use deltafi_contracts.Processor.Trade.{record_time}
use deltafi_contracts.Processor.Deposit.{check_provider}
use deltafi_contracts.Processor.Steps.{IsOwnersAct, check_provider-IsOwnersAct, owned_by}
use deltafi_contracts.Processor.Withdraw.{
  WithdrawAccounts, WithdrawAmounts, debit, withdraw_amounts, check_withdraw, withdraw_with,
}
use deltafi_contracts.Processor.Recorded.{IsRecorded, record_time-IsRecorded}
use deltafi_contracts.Processor.Vaults.{check_withdraw-lem}
use deltafi_contracts.Processor.Payments.{withdraw_calls, pay_withdraw-Runs}

pub debit-total :
    (provider debited : LiquidityProvider) (pool : Pubkey) (amount : ℕ)
    → debit provider pool amount ≡ ok debited
    → total_liquidity debited.positions + amount ≡ total_liquidity provider.positions
unfolding debit
debit-total provider debited pool amount e0 =
    >>=-ok-elim (find_position provider pool) _ e0
      λ found ef e1. withdraw-total provider debited amount found.1 e1

withdraw-owner :
    (provider debited : LiquidityProvider) (amount i : ℕ)
    → Liquidity.withdraw provider amount i ≡ ok debited
    → debited.owner ≡ provider.owner
unfolding Liquidity.withdraw position_at ◌>>=◌
withdraw-owner provider debited amount i e = ground arith

debit-owner :
    (provider debited : LiquidityProvider) (pool : Pubkey) (amount : ℕ)
    → debit provider pool amount ≡ ok debited
    → debited.owner ≡ provider.owner
unfolding debit
debit-owner provider debited pool amount e0 =
    >>=-ok-elim (find_position provider pool) _ e0
      λ found ef e1. withdraw-owner provider debited amount found.1 e1

-- The swap and its accounts, the provider and the owner, the amounts, the calls, and what the two accounts
-- of the program hold in the end.
pub record IsWithdrawn (rt : Runtime) (program_id : Pubkey) (a : WithdrawAccounts)
    (input : WithdrawData) (s s' : Store) : Type 0 where
  pub swap_owned : (s a.swap_info.key).owner ≡ program_id
  pub old : SwapInfo
  pub swap_held : load rt swap_pack s a.swap_info ≡ ok old
  pub authority : authority_id rt program_id a.swap_info.key old.nonce ≡ ok a.authority_info.key
  pub is_vault_a : a.token_a_info.key ≡ old.token_a
  pub is_vault_b : a.token_b_info.key ≡ old.token_b
  pub dest_a_apart : a.token_a_info.key ≢ a.dest_token_a_info.key
  pub dest_b_apart : a.token_b_info.key ≢ a.dest_token_b_info.key
  pub is_mint : a.pool_mint_info.key ≡ old.pool_mint
  pub is_fee_a : a.admin_fee_dest_a_info.key ≡ old.admin_fee_key_a
  pub is_fee_b : a.admin_fee_dest_b_info.key ≡ old.admin_fee_key_b
  pub provider : LiquidityProvider
  pub held : load rt provider_pack s a.liquidity_provider_info ≡ ok provider
  pub allowed : IsOwnersAct program_id s a.liquidity_provider_info a.liquidity_owner_info provider
  pub debited : LiquidityProvider
  pub debits :
      total_liquidity debited.positions + input.pool_token_amount
      ≡ total_liquidity provider.positions
  pub same_owner : debited.owner ≡ provider.owner
  pub token_swap : SwapInfo
  pub priced : SwapInfo
  pub new_market_price : Decimal
  pub recorded :
      IsRecorded rt s old token_swap a.pyth_a_price_info a.pyth_b_price_info a.clock priced
        new_market_price
  pub state : PoolState
  pub at_price : Pool.new (record priced.pool_state { market_price = new_market_price }) ≡ ok state
  pub pool_mint : Mint
  pub mint_held : unpack_mint rt s a.pool_mint_info a.token_program_info.key ≡ ok pool_mint
  pub amounts : WithdrawAmounts
  pub moved :
      withdraw_amounts priced state input pool_mint.supply ≡ ok (token_swap.pool_state, amounts)
  pub between : Store
  pub provider_written : save rt provider_pack debited s a.liquidity_provider_info ≡ ok between
  pub saved : Store
  pub swap_written : save rt swap_pack token_swap between a.swap_info ≡ ok saved
  pub paid : Runs rt (withdraw_calls a old.nonce amounts input.pool_token_amount) saved s'
  pub provider_left : Holds rt provider_pack debited s s' a.liquidity_provider_info
  pub swap_left : Holds rt swap_pack token_swap s s' a.swap_info

module _ (rt : Runtime) (program_id : Pubkey) (lawful : IsRuntime rt) (keeps : KeepsOthers rt)
    (a : WithdrawAccounts) (foreign : program_id ≢ a.token_program_info.key) where
  withdraw_calls-Keeps :
      (nonce burnt : ℕ) (r : WithdrawAmounts) (s s' : Store)
      → Runs rt (withdraw_calls a nonce r burnt) s s'
      → Keeps program_id s s'
  withdraw_calls-Keeps nonce burnt r s s' runs =
      Runs-Keeps rt program_id keeps (withdraw_calls a nonce r burnt) s s'
        (foreign, (foreign, (foreign, (foreign, (foreign, tt))))) runs

  -- A withdrawal that succeeds is given the vaults, which are not the accounts that they pay to, the mint,
  -- the authority and the admin's fee accounts of a swap in an account of the program's, and was signed by the owner of the provider, which is the
  -- program's account. Where a call of the token program, which is not this program, changes no account of
  -- another owner, the provider's account holds in the end the packed provider with that much less
  -- liquidity and the same owner, and the swap's account the packed swap that was held, with the pool that
  -- the withdrawal leaves at the new market price, at the time of the clock. After both are saved exactly
  -- five calls are made: each vault pays the user and the admin the amounts of that withdrawal, and the
  -- shares are burnt.
  pub withdraw_with-IsWithdrawn :
      (input : WithdrawData) (s s' : Store)
      → withdraw_with rt program_id a input s ≡ ok s'
      → IsWithdrawn rt program_id a input s s'
  unfolding withdraw_with
  withdraw_with-IsWithdrawn input s s' e0 =
      >>=-ok-elim (refuse_if _ invalid_account_owner) _ e0 λ u0 c0 e1.
        >>=-ok-elim (load rt swap_pack s a.swap_info) _ e1 λ t ct e2.
          >>=-ok-elim (check_withdraw rt program_id a t) _ e2 λ u2 c2 e3.
            >>=-ok-elim (unpack_mint rt s a.pool_mint_info a.token_program_info.key) _ e3
              λ mint cm e4. >>=-ok-elim (refuse_if (mint.supply == 0) empty_supply) _ e4 λ u4 c4 e5.
                >>=-ok-elim (load rt provider_pack s a.liquidity_provider_info) _ e5 λ p cp e6.
                  >>=-ok-elim
                    (check_provider program_id s a.liquidity_provider_info a.liquidity_owner_info p)
                    _ e6
                    λ u3 c3 e9.
                      >>=-ok-elim
                        (get_new_market_price rt s t a.pyth_a_price_info a.pyth_b_price_info
                          a.clock)
                        _ e9
                        λ price cx f0.
                          >>=-ok-elim
                            (Pool.new (record price.0.pool_state { market_price = price.1 })) _ f0
                            λ state' cs f1.
                              >>=-ok-elim (withdraw_amounts price.0 state' input mint.supply) _ f1
                                λ got cg f2.
                                  >>=-ok-elim (debit p a.swap_info.key input.pool_token_amount) _ f2
                                    λ p' cd f3.
                                      >>=-ok-elim
                                        (save rt provider_pack p' s a.liquidity_provider_info) _ f3
                                        λ s1 k1 f4.
                                          >>=-ok-elim
                                            (record_time (record price.0 { pool_state = got.0 })
                                              a.clock price.2)
                                            _ f4
                                            λ t' cr f5.
                                              >>=-ok-elim (save rt swap_pack t' s1 a.swap_info) _ f5
                                                λ s2 k2 f6.
                                                  let act =
                                                    check_provider-IsOwnersAct program_id s
                                                      a.liquidity_provider_info
                                                      a.liquidity_owner_info p u3 c3 in
                                                  let own =
                                                    owned_by program_id s a.swap_info u0 c0 in
                                                  let (
                                                    authority', vault_a', vault_b', mint', fee_a',
                                                    fee_b', apart_a, apart_b,
                                                  ) =
                                                    check_withdraw-lem rt program_id a t u2 c2 in
                                                  let (recorded', pool) =
                                                    record_time-IsRecorded rt s t t' price.0 got.0
                                                      a.pyth_a_price_info a.pyth_b_price_info
                                                      a.clock price.1 price.2 cx cr in
                                                  let apart =
                                                    loads-apart rt lawful s a.swap_info
                                                      a.liquidity_provider_info t p ct cp in
                                                  let runs =
                                                    pay_withdraw-Runs rt program_id a t.nonce input
                                                      got.1 s2 s' f6 in
                                                  let (provider_left', swap_left') =
                                                    saves-Holds rt provider_pack swap_pack
                                                      program_id s s1 s2 s'
                                                      a.liquidity_provider_info a.swap_info p' t'
                                                      (λ h. apart (sym h)) (act.program_owns, own)
                                                      k1 k2
                                                      (withdraw_calls-Keeps t.nonce
                                                        input.pool_token_amount got.1 s2 s' runs) in
                                                  record {
                                                    swap_owned = own;
                                                    old = t;
                                                    swap_held = ct;
                                                    authority = authority';
                                                    is_vault_a = vault_a';
                                                    is_vault_b = vault_b';
                                                    dest_a_apart = apart_a;
                                                    dest_b_apart = apart_b;
                                                    is_mint = mint';
                                                    is_fee_a = fee_a';
                                                    is_fee_b = fee_b';
                                                    provider = p;
                                                    held = cp;
                                                    allowed = act;
                                                    debited = p';
                                                    debits =
                                                        debit-total p p' a.swap_info.key
                                                          input.pool_token_amount cd;
                                                    same_owner =
                                                        debit-owner p p' a.swap_info.key
                                                          input.pool_token_amount cd;
                                                    token_swap = t';
                                                    priced = price.0;
                                                    new_market_price = price.1;
                                                    recorded = recorded';
                                                    state = state';
                                                    at_price = cs;
                                                    pool_mint = mint;
                                                    mint_held = cm;
                                                    amounts = got.1;
                                                    moved =
                                                        cg
                                                        ∙ ap (λ (x : PoolState). ok (x, got.1))
                                                            (sym pool);
                                                    between = s1;
                                                    provider_written = k1;
                                                    saved = s2;
                                                    swap_written = k2;
                                                    paid = runs;
                                                    provider_left = provider_left';
                                                    swap_left = swap_left';
                                                  }

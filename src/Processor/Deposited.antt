-- ===== src/Processor/Deposited.antt =====
-- What a deposit that succeeds has checked and leaves behind.
use deltafi_contracts.Prelude.{ℕ, ◌+◌, ◌≤◌, ◌≡◌, ◌≢◌, sym, ap, ◌∙◌, false, arith}
use deltafi_contracts.Outcome.{ok, refuse_if, >>=-ok-elim, invalid_account_owner, is_paused}
use deltafi_contracts.Math.Decimal.{Decimal, from_u64}
use deltafi_contracts.Curve.Pool
use deltafi_contracts.Curve.Pool.{PoolState, buy_shares}
use deltafi_contracts.State.Position.{Pubkey}
use deltafi_contracts.State.Liquidity.{LiquidityProvider}
use deltafi_contracts.State.Liquidity.Amounts.{total_liquidity}
use deltafi_contracts.State.Swap.{SwapInfo}
use deltafi_contracts.State.Pack.{swap_pack, provider_pack}
use deltafi_contracts.Instruction.Swap.{DepositData}
use deltafi_contracts.Runtime.{Runtime, IsRuntime, KeepsOthers, Store, TokenAccount, Mint}
use deltafi_contracts.Runtime.Accounts.{load, save, unpack_mint, unpack_token_account, authority_id}
use deltafi_contracts.Runtime.Accounts.Calls.{
  Keeps, Holds, Runs, Runs-Keeps, loads-apart, saves-Holds,
}
use deltafi_contracts.Processor.Oracle.{get_new_market_price}
use deltafi_contracts.Processor.Trade.{record_time}
use deltafi_contracts.Processor.Deposit.{
  DepositAccounts, credit, deposit_shares, check_provider, check_deposit, deposit_with,
}
use deltafi_contracts.Processor.Steps.{
  IsOwnersAct, check_provider-IsOwnersAct, owned_by, credit-total, deposit_shares-lem,
}
use deltafi_contracts.Processor.Recorded.{IsRecorded, record_time-IsRecorded}
use deltafi_contracts.Processor.Vaults.{check_deposit-lem}
use deltafi_contracts.Processor.Payments.{deposit_calls, pay_deposit-Runs}

unpaused :
    (t : SwapInfo) (u : Unit {0}) → refuse_if t.is_paused is_paused ≡ ok u → t.is_paused ≡ false
unpaused t u e = ground arith

-- The swap and its vaults, the provider and the owner, the shares, the calls, and what the two accounts of
-- the program hold in the end.
pub record IsDeposited (rt : Runtime) (program_id : Pubkey) (a : DepositAccounts)
    (input : DepositData) (s s' : Store) : Type 0 where
  pub swap_owned : (s a.swap_info.key).owner ≡ program_id
  pub old : SwapInfo
  pub swap_held : load rt swap_pack s a.swap_info ≡ ok old
  pub not_paused : old.is_paused ≡ false
  pub authority : authority_id rt program_id a.swap_info.key old.nonce ≡ ok a.authority_info.key
  pub is_vault_a : a.token_a_info.key ≡ old.token_a
  pub is_vault_b : a.token_b_info.key ≡ old.token_b
  pub source_a_apart : a.token_a_info.key ≢ a.source_a_info.key
  pub source_b_apart : a.token_b_info.key ≢ a.source_b_info.key
  pub is_mint : a.pool_mint_info.key ≡ old.pool_mint
  pub provider : LiquidityProvider
  pub held : load rt provider_pack s a.liquidity_provider_info ≡ ok provider
  pub allowed : IsOwnersAct program_id s a.liquidity_provider_info a.liquidity_owner_info provider
  pub token_a : TokenAccount
  pub vault_a : unpack_token_account rt s a.token_a_info a.token_program_info.key ≡ ok token_a
  pub token_b : TokenAccount
  pub vault_b : unpack_token_account rt s a.token_b_info a.token_program_info.key ≡ ok token_b
  pub pool_mint : Mint
  pub mint_held : unpack_mint rt s a.pool_mint_info a.token_program_info.key ≡ ok pool_mint
  pub token_swap : SwapInfo
  pub priced : SwapInfo
  pub new_market_price : Decimal
  pub recorded :
      IsRecorded rt s old token_swap a.pyth_a_price_info a.pyth_b_price_info a.clock priced
        new_market_price
  pub state : PoolState
  pub at_price : Pool.new (record priced.pool_state { market_price = new_market_price }) ≡ ok state
  pub shares : ℕ
  pub issued :
      buy_shares state
        (input.token_a_amount + token_a.amount)
        (input.token_b_amount + token_b.amount)
        pool_mint.supply
      ≡ ok (token_swap.pool_state, shares)
  pub base : token_swap.pool_state.base_reserve ≡ from_u64 (input.token_a_amount + token_a.amount)
  pub quote : token_swap.pool_state.quote_reserve ≡ from_u64 (input.token_b_amount + token_b.amount)
  pub enough : input.min_mint_amount ≤ shares
  pub credited : LiquidityProvider
  pub credits : total_liquidity credited.positions ≡ total_liquidity provider.positions + shares
  pub same_owner : credited.owner ≡ provider.owner
  pub between : Store
  pub provider_written : save rt provider_pack credited s a.liquidity_provider_info ≡ ok between
  pub saved : Store
  pub swap_written : save rt swap_pack token_swap between a.swap_info ≡ ok saved
  pub paid :
      Runs rt (deposit_calls a old.nonce input.token_a_amount input.token_b_amount shares) saved s'
  pub provider_left : Holds rt provider_pack credited s s' a.liquidity_provider_info
  pub swap_left : Holds rt swap_pack token_swap s s' a.swap_info

module _ (rt : Runtime) (program_id : Pubkey) (lawful : IsRuntime rt) (keeps : KeepsOthers rt)
    (a : DepositAccounts) (foreign : program_id ≢ a.token_program_info.key) where
  deposit_calls-Keeps :
      (nonce x y shares : ℕ) (s s' : Store)
      → Runs rt (deposit_calls a nonce x y shares) s s'
      → Keeps program_id s s'
  deposit_calls-Keeps nonce x y shares s s' runs =
      Runs-Keeps rt program_id keeps (deposit_calls a nonce x y shares) s s'
        (foreign, (foreign, (foreign, tt))) runs

  -- A deposit that succeeds finds a swap that is not paused, in an account of the program's, is given that
  -- swap's vaults, which are not the accounts that pay into them, its mint and its authority, was signed by the owner of the provider, which is the program's
  -- account, and issues at least the minimum of shares, those that the vaults' balances with the deposit
  -- buy at the new market price. Where a call of the token program, which is not this program, changes no
  -- account of another owner, the provider's account holds in the end the packed provider with the shares
  -- in addition and the same owner, and the swap's account the packed swap that was held, with the pool
  -- after the deposit, whose reserves are what the vaults held with the deposit, at the time of the clock.
  -- After both are saved exactly three calls are made: the two amounts are paid into the vaults, and the
  -- shares are minted.
  pub deposit_with-IsDeposited :
      (input : DepositData) (s s' : Store)
      → deposit_with rt program_id a input s ≡ ok s'
      → IsDeposited rt program_id a input s s'
  unfolding deposit_with
  deposit_with-IsDeposited input s s' e0 =
      >>=-ok-elim (refuse_if _ invalid_account_owner) _ e0 λ u0 c0 e1.
        >>=-ok-elim (load rt swap_pack s a.swap_info) _ e1 λ t ct e2.
          >>=-ok-elim (refuse_if t.is_paused is_paused) _ e2 λ u1 c1 e3.
            >>=-ok-elim (check_deposit rt program_id a t) _ e3 λ u2 c2 e4.
              >>=-ok-elim (load rt provider_pack s a.liquidity_provider_info) _ e4 λ p cp e5.
                >>=-ok-elim
                  (check_provider program_id s a.liquidity_provider_info a.liquidity_owner_info p) _
                  e5
                  λ u3 c3 e6.
                    >>=-ok-elim (unpack_token_account rt s a.token_a_info a.token_program_info.key)
                      _ e6
                      λ ta ca e7.
                        >>=-ok-elim
                          (unpack_token_account rt s a.token_b_info a.token_program_info.key) _ e7
                          λ tb cb e8.
                            >>=-ok-elim (unpack_mint rt s a.pool_mint_info a.token_program_info.key)
                              _ e8
                              λ mint cm e9.
                                >>=-ok-elim
                                  (get_new_market_price rt s t a.pyth_a_price_info
                                    a.pyth_b_price_info a.clock)
                                  _ e9
                                  λ price cx f0.
                                    >>=-ok-elim
                                      (Pool.new
                                        (record price.0.pool_state { market_price = price.1 }))
                                      _ f0
                                      λ state' cs f1.
                                        >>=-ok-elim
                                          (deposit_shares state' input ta.amount tb.amount
                                            mint.supply)
                                          _ f1
                                          λ got cg f2.
                                            >>=-ok-elim (credit p a.swap_info.key a.clock got.1) _
                                              f2
                                              λ p' cc' f3.
                                                >>=-ok-elim
                                                  (save rt provider_pack p' s
                                                    a.liquidity_provider_info)
                                                  _ f3
                                                  λ s1 k1 f4.
                                                    >>=-ok-elim
                                                      (record_time
                                                        (record price.0 { pool_state = got.0 })
                                                        a.clock price.2)
                                                      _ f4
                                                      λ t' cr f5.
                                                        >>=-ok-elim
                                                          (save rt swap_pack t' s1 a.swap_info) _ f5
                                                          λ s2 k2 f6.
                                                            let act =
                                                            check_provider-IsOwnersAct program_id s
                                                            a.liquidity_provider_info
                                                            a.liquidity_owner_info p u3 c3 in
                                                            let own =
                                                            owned_by program_id s a.swap_info u0
                                                            c0 in
                                                            let (
                                                            authority', vault_a', vault_b', mint',
                                                            apart_a, apart_b,
                                                            ) =
                                                            check_deposit-lem rt program_id a t u2
                                                            c2 in
                                                            let (issued', base', quote', enough') =
                                                            deposit_shares-lem state' got.0 input
                                                            ta.amount tb.amount mint.supply got.1
                                                            cg in
                                                            let (total, owner') =
                                                            credit-total p p' a.swap_info.key
                                                            a.clock got.1 cc' in
                                                            let (recorded', pool) =
                                                            record_time-IsRecorded rt s t t' price.0
                                                            got.0 a.pyth_a_price_info
                                                            a.pyth_b_price_info a.clock price.1
                                                            price.2 cx cr in
                                                            let apart =
                                                            loads-apart rt lawful s a.swap_info
                                                            a.liquidity_provider_info t p ct cp in
                                                            let runs =
                                                            pay_deposit-Runs rt program_id a t.nonce
                                                            input got.1 s2 s' f6 in
                                                            let (provider_left', swap_left') =
                                                            saves-Holds rt provider_pack swap_pack
                                                            program_id s s1 s2 s'
                                                            a.liquidity_provider_info a.swap_info p'
                                                            t' (λ h. apart (sym h))
                                                            (act.program_owns, own) k1 k2
                                                            (deposit_calls-Keeps t.nonce
                                                            input.token_a_amount
                                                            input.token_b_amount got.1 s2 s'
                                                            runs) in
                                                            record {
                                                            swap_owned = own;
                                                            old = t;
                                                            swap_held = ct;
                                                            not_paused = unpaused t u1 c1;
                                                            authority = authority';
                                                            is_vault_a = vault_a';
                                                            is_vault_b = vault_b';
                                                            source_a_apart = apart_a;
                                                            source_b_apart = apart_b;
                                                            is_mint = mint';
                                                            provider = p;
                                                            held = cp;
                                                            allowed = act;
                                                            token_a = ta;
                                                            vault_a = ca;
                                                            token_b = tb;
                                                            vault_b = cb;
                                                            pool_mint = mint;
                                                            mint_held = cm;
                                                            token_swap = t';
                                                            priced = price.0;
                                                            new_market_price = price.1;
                                                            recorded = recorded';
                                                            state = state';
                                                            at_price = cs;
                                                            shares = got.1;
                                                            issued =
                                                            issued'
                                                            ∙ ap (λ (x : PoolState). ok (x, got.1))
                                                            (sym pool);
                                                            base =
                                                            ap (λ (x : PoolState). x.base_reserve)
                                                            pool
                                                            ∙ base';
                                                            quote =
                                                            ap (λ (x : PoolState). x.quote_reserve)
                                                            pool
                                                            ∙ quote';
                                                            enough = enough';
                                                            credited = p';
                                                            credits = total;
                                                            same_owner = owner';
                                                            between = s1;
                                                            provider_written = k1;
                                                            saved = s2;
                                                            swap_written = k2;
                                                            paid = runs;
                                                            provider_left = provider_left';
                                                            swap_left = swap_left';
                                                            }

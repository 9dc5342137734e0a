-- ===== src/Processor/Steps.antt =====
-- The steps of the handlers of deposits and withdrawals: who has signed, and what is credited.
use deltafi_contracts.Prelude.{ℕ, ◌+◌, ◌≤◌, ◌≡◌, sym, ap, ◌∙◌, true, ◌==◌, not, ltb, arith}
use deltafi_contracts.Prelude.Int.{ℤ}
use deltafi_contracts.Outcome.{
  ok, ok_or, refuse_if, ok-injective, ◌>>=◌, >>=-ok-elim, exceeded_slippage, invalid_account_owner,
}
use deltafi_contracts.Math.Checked.{checked_add}
use deltafi_contracts.Math.Decimal.{from_u64}
use deltafi_contracts.Curve.Pool.{PoolState, buy_shares}
use deltafi_contracts.Curve.Pool.Deposit.{buy_shares-IsFairIssue}
use deltafi_contracts.State.Position as Position
use deltafi_contracts.State.Position.{Pubkey, LiquidityPosition}
use deltafi_contracts.State.Liquidity.{LiquidityProvider, find_or_add_position, position_at}
use deltafi_contracts.State.Liquidity.Amounts.{
  total_liquidity, total_liquidity-append, total_liquidity-set, position_at-ok,
}
use deltafi_contracts.Instruction.Swap.{DepositData}
use deltafi_contracts.Runtime.{AccountInfo, Store, Clock}
use deltafi_contracts.Processor.Deposit.{credit, deposit_shares, check_provider}

-- The provider's account is the program's, and its owner is among the accounts and has signed.
pub record IsOwnersAct (program_id : Pubkey) (s : Store) (provider_info owner_info : AccountInfo)
    (provider : LiquidityProvider) : Type 0 where
  pub program_owns : (s provider_info.key).owner ≡ program_id
  pub named : provider.owner ≡ owner_info.key
  pub signed : owner_info.is_signer ≡ true

pub check_provider-IsOwnersAct :
    (program_id : Pubkey) (s : Store) (provider_info owner_info : AccountInfo)
    (p : LiquidityProvider) (u : Unit {0})
    → check_provider program_id s provider_info owner_info p ≡ ok u
    → IsOwnersAct program_id s provider_info owner_info p
unfolding check_provider ◌>>=◌
check_provider-IsOwnersAct program_id s provider_info owner_info p u e = record {
  program_owns = ground arith;
  named = ground arith;
  signed = ground arith;
}

pub owned_by :
    (program_id : Pubkey) (s : Store) (a : AccountInfo) (u : Unit {0})
    → refuse_if (not ((s a.key).owner == program_id)) invalid_account_owner ≡ ok u
    → (s a.key).owner ≡ program_id
owned_by program_id s a u e = ground arith

pub deposit_position :
    (p p' : LiquidityPosition) (amount : ℕ)
    → Position.deposit p amount ≡ ok p'
    → (p'.liquidity_amount ≡ p.liquidity_amount + amount) × (p'.pool ≡ p.pool)
unfolding Position.deposit ◌>>=◌
deposit_position p p' amount e = ground arith

fresh_position :
    (pool : Pubkey) (current_ts : ℤ) (p : LiquidityPosition)
    → Position.new pool current_ts ≡ ok p
    → p.liquidity_amount ≡ 0
unfolding Position.new ◌>>=◌
fresh_position pool current_ts p e = ground arith

found_total :
    (provider found : LiquidityProvider) (pool : Pubkey) (current_ts : ℤ) (i : ℕ)
    → find_or_add_position provider pool current_ts ≡ ok (found, i)
    → (total_liquidity found.positions ≡ total_liquidity provider.positions)
      × (found.owner ≡ provider.owner)
unfolding find_or_add_position ◌>>=◌
found_total provider found pool current_ts i e =
    grind (arith, total_liquidity-append, fresh_position)

pub credit-total :
    (provider credited : LiquidityProvider) (pool : Pubkey) (clock : Clock) (amount : ℕ)
    → credit provider pool clock amount ≡ ok credited
    → (total_liquidity credited.positions ≡ total_liquidity provider.positions + amount)
      × (credited.owner ≡ provider.owner)
unfolding credit
credit-total provider credited pool clock amount e0 =
    >>=-ok-elim (find_or_add_position provider pool clock.unix_timestamp) _ e0 λ found ef e1.
      >>=-ok-elim (position_at found.0 found.1) _ e1 λ p ep e2.
        >>=-ok-elim (Position.deposit p amount) _ e2 λ p' ed e3.
          let (total, owner) = found_total provider found.0 pool clock.unix_timestamp found.1 ef in
          let (more, _) = deposit_position p p' amount ed in
          let placed =
            total_liquidity-set found.0.positions found.1 p p'
              (position_at-ok found.0 found.1 ep) in
          let same = ok-injective e3 in
          (
            sym (ap (λ (x : LiquidityProvider). total_liquidity x.positions) same) ∙ omega arith,
            sym (ap (λ (x : LiquidityProvider). x.owner) same) ∙ owner,
          )

-- The shares are those of the vaults' balances with the deposit, which are the reserves of the pool.
pub deposit_shares-lem :
    (state bought : PoolState) (input : DepositData) (a b supply shares : ℕ)
    → deposit_shares state input a b supply ≡ ok (bought, shares)
    → (buy_shares state (input.token_a_amount + a) (input.token_b_amount + b) supply
        ≡ ok (bought, shares))
      × (bought.base_reserve ≡ from_u64 (input.token_a_amount + a))
      × (bought.quote_reserve ≡ from_u64 (input.token_b_amount + b))
      × (input.min_mint_amount ≤ shares)
unfolding deposit_shares
deposit_shares-lem state bought input a b supply shares e0 =
    >>=-ok-elim (ok_or (checked_add 64 input.token_a_amount a) _) _ e0 λ base eb e1.
      >>=-ok-elim (ok_or (checked_add 64 input.token_b_amount b) _) _ e1 λ quote eq e2.
        >>=-ok-elim (buy_shares state base quote supply) _ e2 λ got eg e3.
          >>=-ok-elim (refuse_if (ltb got.1 input.min_mint_amount) exceeded_slippage) _ e3
            λ u eu e4.
              let enough : input.min_mint_amount ≤ got.1 = ground arith in
              let sum_a : base ≡ input.token_a_amount + a = ground arith in
              let sum_b : quote ≡ input.token_b_amount + b = ground arith in
              let same = ok-injective e4 in
              let bought_at =
                ap (λ (x : ℕ). buy_shares state x (input.token_b_amount + b) supply) (sym sum_a)
                ∙ ap (λ (x : ℕ). buy_shares state base x supply) (sym sum_b)
                ∙ eg
                ∙ ap ok same in
              let fair = buy_shares-IsFairIssue state bought _ _ supply shares bought_at in
              (
                bought_at,
                fair.base_reserve,
                fair.quote_reserve,
                rw (← ap (λ (x : PoolState × ℕ). x.1) same) enough,
              )

-- ===== src/Processor/Providers.antt =====
-- Sequences of what the handlers do to a provider: deposits, withdrawals, claims and refreshes, in any order.
use mathlib.Core.Path.{subst}
use deltafi_contracts.Prelude.{ℕ, ◌+◌, ◌≡◌, refl, [], set, arith}
use deltafi_contracts.Prelude.Int.{ℤ}
use deltafi_contracts.Outcome.{ok, ok-injective, >>=-ok-elim}
use deltafi_contracts.Math.Decimal.{Decimal}
use deltafi_contracts.State.Position as Position
use deltafi_contracts.State.Position.{Pubkey, LiquidityPosition}
use deltafi_contracts.State.Position.Accrual.{calc_and_update_rewards-IsRefreshed}
use deltafi_contracts.State.Liquidity.{
  LiquidityProvider, init, find_or_add_position, find_position, position_at, claim,
}
use deltafi_contracts.State.Liquidity.Amounts.{
  total_liquidity, total_liquidity-set, claim-total, position_at-ok, find_position-at,
}
use deltafi_contracts.State.Liquidity.Pools.{
  DistinctPools, DistinctPools-set, find_or_add_position-DistinctPools, withdraw-DistinctPools,
  claim-DistinctPools,
}
use deltafi_contracts.Runtime.{Clock}
use deltafi_contracts.Processor.Deposit.{credit}
use deltafi_contracts.Processor.Steps.{credit-total, deposit_position}
use deltafi_contracts.Processor.Withdraw.{debit}
use deltafi_contracts.Processor.Withdrawn.{debit-total}
use deltafi_contracts.Processor.Liquidity.{refreshed}

-- The number is the liquidity that has come in, less what has gone out.
pub data Lives : LiquidityProvider → (paid_in paid_out : ℕ) → Type 0 where
  born : (fresh : LiquidityProvider) (owner : Pubkey) → Lives (init fresh owner []) 0 0
  deposited :
      {p p' : LiquidityProvider} {paid_in paid_out : ℕ} (pool : Pubkey) (clock : Clock) (amount : ℕ)
      → Lives p paid_in paid_out
      → credit p pool clock amount ≡ ok p'
      → Lives p' (paid_in + amount) paid_out
  withdrawn :
      {p p' : LiquidityProvider} {paid_in paid_out : ℕ} (pool : Pubkey) (amount : ℕ)
      → Lives p paid_in paid_out
      → debit p pool amount ≡ ok p'
      → Lives p' paid_in (paid_out + amount)
  claimed :
      {p p' : LiquidityProvider} {paid_in paid_out : ℕ} (pool : Pubkey) (amount : ℕ)
      → Lives p paid_in paid_out
      → claim p pool ≡ ok (p', amount)
      → Lives p' paid_in paid_out
  updated :
      {p p' : LiquidityProvider} {paid_in paid_out : ℕ} (pool : Pubkey) (ratio : Decimal) (ts : ℤ)
      → Lives p paid_in paid_out
      → refreshed p pool ratio ts ≡ ok p'
      → Lives p' paid_in paid_out

credit-DistinctPools :
    (p p' : LiquidityProvider) (pool : Pubkey) (clock : Clock) (amount : ℕ)
    → DistinctPools p.positions
    → credit p pool clock amount ≡ ok p'
    → DistinctPools p'.positions
unfolding credit
credit-DistinctPools p p' pool clock amount d e0 =
    >>=-ok-elim (find_or_add_position p pool clock.unix_timestamp) _ e0 λ found ef e1.
      >>=-ok-elim (position_at found.0 found.1) _ e1 λ q eq e2.
        >>=-ok-elim (Position.deposit q amount) _ e2 λ q' ed e3.
          let (distinct, _) =
            find_or_add_position-DistinctPools p found.0 pool clock.unix_timestamp found.1 d ef in
          let (_, pool_kept) = deposit_position q q' amount ed in
          subst (λ (x : LiquidityProvider). DistinctPools x.positions) (ok-injective e3)
            (DistinctPools-set found.0.positions found.1 q q' (position_at-ok found.0 found.1 eq)
              pool_kept distinct)

debit-DistinctPools :
    (p p' : LiquidityProvider) (pool : Pubkey) (amount : ℕ)
    → DistinctPools p.positions
    → debit p pool amount ≡ ok p'
    → DistinctPools p'.positions
unfolding debit
debit-DistinctPools p p' pool amount d e0 =
    >>=-ok-elim (find_position p pool) _ e0
      λ found ef e1. withdraw-DistinctPools p p' amount found.1 d e1

refreshed-lem :
    (p p' : LiquidityProvider) (pool : Pubkey) (ratio : Decimal) (ts : ℤ)
    → DistinctPools p.positions
    → refreshed p pool ratio ts ≡ ok p'
    → DistinctPools p'.positions × (total_liquidity p'.positions ≡ total_liquidity p.positions)
unfolding refreshed
refreshed-lem p p' pool ratio ts d e0 = >>=-ok-elim (find_position p pool) _ e0 λ found ef e1.
    let (q, i) = found in
    >>=-ok-elim (Position.calc_and_update_rewards q ratio ts) _ e1 λ q' eq e2.
      let at = find_position-at p pool q i ef in
      let up = calc_and_update_rewards-IsRefreshed q q' ratio ts eq in
      let total = total_liquidity-set p.positions i q q' at in
      let same : total_liquidity (set p.positions i q') ≡ total_liquidity p.positions =
        omega (arith, up.liquidity) in
      subst
        (λ (x : LiquidityProvider).
          DistinctPools x.positions × (total_liquidity x.positions ≡ total_liquidity p.positions))
        (ok-injective e2) (DistinctPools-set p.positions i q q' at up.pool d, same)

-- Whatever deposits, withdrawals, claims and refreshes a provider has gone through since it was set up, it has
-- no two positions in one pool, and its liquidity over all positions is the shares that were issued to it
-- less the shares that it has withdrawn.
pub Lives-balanced :
    {p : LiquidityProvider} {paid_in paid_out : ℕ}
    → Lives p paid_in paid_out
    → DistinctPools p.positions × (total_liquidity p.positions + paid_out ≡ paid_in)
Lives-balanced (born fresh owner) = (tt, refl)
Lives-balanced (deposited {p} {p'} pool clock amount before e) =
    let (d, sum) = Lives-balanced before in
    let (total, _) = credit-total p p' pool clock amount e in
    (credit-DistinctPools p p' pool clock amount d e, omega arith)
Lives-balanced (withdrawn {p} {p'} pool amount before e) =
    let (d, sum) = Lives-balanced before in
    let total = debit-total p p' pool amount e in
    (debit-DistinctPools p p' pool amount d e, omega arith)
Lives-balanced (claimed {p} {p'} pool amount before e) =
    let (d, sum) = Lives-balanced before in
    let (total, _, _) = claim-total p p' pool amount e in
    (claim-DistinctPools p p' pool amount d e, omega arith)
Lives-balanced (updated {p} {p'} pool ratio ts before e) =
    let (d, sum) = Lives-balanced before in
    let (distinct, total) = refreshed-lem p p' pool ratio ts d e in (distinct, omega arith)

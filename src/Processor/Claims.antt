-- ===== src/Processor/Claims.antt =====
-- A provider cannot claim the rewards of a pool twice, whatever happens to it before they are refreshed.
use mathlib.Core.Path.{subst}
use deltafi_contracts.Prelude.{ℕ, ◌≡◌, ◌≢◌, All}
use deltafi_contracts.Prelude.Int.{ℤ}
use deltafi_contracts.Outcome.{ok, ok-injective, >>=-ok-elim}
use deltafi_contracts.Math.Decimal.{Decimal}
use deltafi_contracts.State.Position as Position
use deltafi_contracts.State.Position.{Pubkey}
use deltafi_contracts.State.Position.Accrual.{calc_and_update_rewards-IsRefreshed}
use deltafi_contracts.State.Liquidity.{
  LiquidityProvider, find_or_add_position, find_position, position_at, claim,
}
use deltafi_contracts.State.Liquidity.Amounts.{position_at-ok}
use deltafi_contracts.State.Liquidity.Pools.{DistinctPools}
use deltafi_contracts.State.Liquidity.Claims.{
  IsPaid, claim-IsPaid, added-IsPaid, deposited-IsPaid, withdraw-IsPaid, claim-IsPaid-keep,
  refreshed-IsPaid, IsPaid-claim,
}
use deltafi_contracts.Runtime.{Clock}
use deltafi_contracts.Processor.Deposit.{credit}
use deltafi_contracts.Processor.Withdraw.{debit}
use deltafi_contracts.Processor.Liquidity.{refreshed}

-- What the handlers make of the first provider, in any order, without a refresh of the rewards of the pool:
-- deposits, withdrawals and claims of whatever pool, and refreshes of the rewards of other pools.
pub data Unrefreshed (pool : Pubkey) : (p q : LiquidityProvider) → Type 0 where
  untouched : (p : LiquidityProvider) → Unrefreshed pool p p
  deposited :
      {p q q' : LiquidityProvider} (other : Pubkey) (clock : Clock) (amount : ℕ)
      → Unrefreshed pool p q
      → credit q other clock amount ≡ ok q'
      → Unrefreshed pool p q'
  withdrawn :
      {p q q' : LiquidityProvider} (other : Pubkey) (amount : ℕ)
      → Unrefreshed pool p q
      → debit q other amount ≡ ok q'
      → Unrefreshed pool p q'
  claimed :
      {p q q' : LiquidityProvider} (other : Pubkey) (amount : ℕ)
      → Unrefreshed pool p q
      → claim q other ≡ ok (q', amount)
      → Unrefreshed pool p q'
  updated :
      {p q q' : LiquidityProvider} (other : Pubkey) (ratio : Decimal) (ts : ℤ)
      → other ≢ pool
      → Unrefreshed pool p q
      → refreshed q other ratio ts ≡ ok q'
      → Unrefreshed pool p q'

credit-IsPaid :
    (p p' : LiquidityProvider) (pool other : Pubkey) (clock : Clock) (amount : ℕ)
    → credit p other clock amount ≡ ok p'
    → All (IsPaid pool) p.positions
    → All (IsPaid pool) p'.positions
unfolding credit
credit-IsPaid p p' pool other clock amount e0 all =
    >>=-ok-elim (find_or_add_position p other clock.unix_timestamp) _ e0 λ found ef e1.
      >>=-ok-elim (position_at found.0 found.1) _ e1 λ q eq e2.
        >>=-ok-elim (Position.deposit q amount) _ e2 λ q' ed e3.
          subst (λ (x : LiquidityProvider). All (IsPaid pool) x.positions) (ok-injective e3)
            (deposited-IsPaid pool found.0.positions found.1 amount q q'
              (position_at-ok found.0 found.1 eq) ed
              (added-IsPaid p found.0 pool other clock.unix_timestamp found.1 ef all))

debit-IsPaid :
    (p p' : LiquidityProvider) (pool other : Pubkey) (amount : ℕ)
    → debit p other amount ≡ ok p'
    → All (IsPaid pool) p.positions
    → All (IsPaid pool) p'.positions
unfolding debit
debit-IsPaid p p' pool other amount e0 all =
    >>=-ok-elim (find_position p other) _ e0
      λ found ef e1. withdraw-IsPaid p p' pool amount found.1 e1 all

update-IsPaid :
    (p p' : LiquidityProvider) (pool other : Pubkey) (ratio : Decimal) (ts : ℤ)
    → other ≢ pool
    → refreshed p other ratio ts ≡ ok p'
    → All (IsPaid pool) p.positions
    → All (IsPaid pool) p'.positions
unfolding refreshed
update-IsPaid p p' pool other ratio ts apart e0 all =
    >>=-ok-elim (find_position p other) _ e0 λ found ef e1.
      let (q, i) = found in
      >>=-ok-elim (Position.calc_and_update_rewards q ratio ts) _ e1 λ q' eq e2.
        let up = calc_and_update_rewards-IsRefreshed q q' ratio ts eq in
        subst (λ (x : LiquidityProvider). All (IsPaid pool) x.positions) (ok-injective e2)
          (refreshed-IsPaid p pool other i q q' apart ef up.pool all)

unrefreshed-IsPaid :
    {pool : Pubkey} {p q : LiquidityProvider}
    → Unrefreshed pool p q
    → All (IsPaid pool) p.positions
    → All (IsPaid pool) q.positions
unrefreshed-IsPaid (untouched p) all = all
unrefreshed-IsPaid {pool} (deposited {q = q} {q' = q'} other clock amount before e) all =
    credit-IsPaid q q' pool other clock amount e (unrefreshed-IsPaid before all)
unrefreshed-IsPaid {pool} (withdrawn {q = q} {q' = q'} other amount before e) all =
    debit-IsPaid q q' pool other amount e (unrefreshed-IsPaid before all)
unrefreshed-IsPaid {pool} (claimed {q = q} {q' = q'} other amount before e) all =
    claim-IsPaid-keep q q' pool other amount e (unrefreshed-IsPaid before all)
unrefreshed-IsPaid {pool} (updated {q = q} {q' = q'} other ratio ts apart before e) all =
    update-IsPaid q q' pool other ratio ts apart e (unrefreshed-IsPaid before all)

-- A provider that has no two positions in one pool and has claimed the rewards of a pool cannot claim of
-- that pool again after any deposits, withdrawals and claims, of that pool and of others, and any refreshes
-- of the rewards of other pools.
pub claim_again :
    (pool : Pubkey) (provider provider' later : LiquidityProvider) (reward : ℕ)
    → DistinctPools provider.positions
    → claim provider pool ≡ ok (provider', reward)
    → Unrefreshed pool provider' later
    → (last : LiquidityProvider) (more : ℕ) → claim later pool ≢ ok (last, more)
claim_again pool provider provider' later reward d e steps last more =
    IsPaid-claim later last pool more
      (unrefreshed-IsPaid steps (claim-IsPaid provider provider' pool reward d e))

-- ===== src/Curve/Pool/RoundTrip.antt =====
-- A deposit that is withdrawn at once.
use native.Mathlib.Nat.{le_of_mul-le-mul_right}
use deltafi_contracts.Prelude.{◌⊎◌, inl, inr, ℕ, ◌+◌, ◌-◌, ◌*◌, ◌≤◌, ◌<◌, ◌≡◌, arith}
use deltafi_contracts.Outcome.{ok}
use deltafi_contracts.Math.Checked.{wad}
use deltafi_contracts.Math.Decimal.{from_u64}
use deltafi_contracts.Curve.Pool.{PoolState, buy_shares, sell_shares}
use deltafi_contracts.Curve.Pool.Deposit.{buy_shares-IsFairIssue}
use deltafi_contracts.Curve.Pool.Withdraw.{sell_shares-IsFairPayment}

back-le :
    (reserve input total shares paid : ℕ)
    → 0 < total
    → shares * reserve ≤ total * input
    → paid * (total + shares) ≤ (reserve + input) * shares
    → paid ≤ input
back-le reserve input total shares paid pos issued pays =
    le_of_mul-le-mul_right {k = total + shares} (omega arith) (omega arith)

-- Of a supply that is not empty, the second case.
later :
    {total_supply : ℕ} {A B : Type 0}
    → 0 < total_supply
    → ((total_supply ≡ 0) × A) ⊎ ((0 < total_supply) × B)
    → B
later pos (inl (none_yet, _)) = absurd (omega arith)
later pos (inr (_, fair)) = fair

-- With shares already in supply, the shares that a deposit buys, sold again at once with the supply
-- grown by them, pay back at most what the deposit brought in, of each token.
pub sell_shares-buy_shares-le :
    (s s' s'' : PoolState)
    (base quote total_supply shares base_min quote_min base_back quote_back : ℕ)
    → 0 < total_supply
    → buy_shares s base quote total_supply ≡ ok (s', shares)
    → sell_shares s' shares base_min quote_min (total_supply + shares)
      ≡ ok (s'', base_back, quote_back)
    → (base_back * wad ≤ from_u64 base - s.base_reserve)
      × (quote_back * wad ≤ from_u64 quote - s.quote_reserve)
sell_shares-buy_shares-le s s' s'' base quote t shares bm qm bb qb pos bought sold =
    let i = buy_shares-IsFairIssue s s' base quote t shares bought in
    let p = sell_shares-IsFairPayment s' s'' shares bm qm (t + shares) bb qb sold in
    let base_all : s.base_reserve + (from_u64 base - s.base_reserve) ≡ s'.base_reserve =
      omega (arith, i.base_input, i.base_reserve) in
    let quote_all : s.quote_reserve + (from_u64 quote - s.quote_reserve) ≡ s'.quote_reserve =
      omega (arith, i.quote_input, i.quote_reserve) in
    let (base_fair, quote_fair) = later pos i.fair in
    (
      back-le s.base_reserve _ t shares (bb * wad) pos base_fair (rw base_all p.base_pays),
      back-le s.quote_reserve _ t shares (qb * wad) pos quote_fair (rw quote_all p.quote_pays),
    )

-- ===== src/Curve/Pool/Deposit.antt =====
-- `buy_shares`: what a deposit is worth.
use mathlib.Core.Path.{subst}
use deltafi_contracts.Prelude.{inl, inr, ℕ, zero, suc, ◌-◌, ◌≡◌, arith, sym, inl, inr, refl}
use deltafi_contracts.Outcome.{ok}
use deltafi_contracts.Math.Decimal.{from_u64}
use deltafi_contracts.Math.Decimal.Laws.{try_floor_u64-ok}
use deltafi_contracts.Curve.Pool.{Multiplier, one, PoolState, buy_shares}
use deltafi_contracts.Curve.Pool.Target.{Surplus, HasSurplus, Surplus-map, Surplus-one}
use deltafi_contracts.Curve.Pool.Issue.{
  IsFairIssue, initial_lem, proportional_lem, buy_shares-parts, later_issue,
}

-- What a successful `buy_shares` issues is fair in the sense of `IsFairIssue`: the new reserves are the
-- balances; a first deposit sets targets within the reserves and issues no more shares than base tokens;
-- any other issues shares that are worth at most what came in, of each token. The price, the slope and
-- the multiplier stay.
pub buy_shares-IsFairIssue :
    (s s' : PoolState) (base quote total_supply shares : ℕ)
    → buy_shares s base quote total_supply ≡ ok (s', shares)
    → IsFairIssue s s' base quote total_supply shares
buy_shares-IsFairIssue s s' base quote zero shares e =
    let p = buy_shares-parts s s' base quote 0 shares e in
    let (g, bt, qt, fits) = initial_lem s p.grown (from_u64 base) (from_u64 quote) p.issue in
    let (lo, _, _) = try_floor_u64-ok p.amount p.floor in
    rw p.result (record {
      base_reserve = refl;
      quote_reserve = refl;
      market_price = g.market_price;
      slope = g.slope;
      multiplier = g.multiplier;
      base_input = p.base_input;
      quote_input = p.quote_input;
      fair = inl (refl, ((bt, qt), omega arith));
    })
buy_shares-IsFairIssue s s' base quote (suc t) shares e =
    let p = buy_shares-parts s s' base quote (suc t) shares e in
    let issue = later_issue s p.grown (from_u64 base) (from_u64 quote) t p.issue in
    let (g, _, _, bf, qf) =
      proportional_lem s p.grown (from_u64 base - s.base_reserve) (from_u64 quote - s.quote_reserve)
        (suc t) issue p.floor in
    rw p.result (record {
      base_reserve = refl;
      quote_reserve = refl;
      market_price = g.market_price;
      slope = g.slope;
      multiplier = g.multiplier;
      base_input = p.base_input;
      quote_input = p.quote_input;
      fair = inr (omega arith, (bf, qf));
    })

first-Surplus :
    {s s' : PoolState} {base quote shares : ℕ}
    → IsFairIssue s s' base quote 0 shares
    → Surplus one s'
first-Surplus i = elim i.fair [ inl (_, (h, _)) ↦ h | inr (pos, _) ↦ absurd (omega arith) ]

-- A successful deposit leaves the surplus side of the pool at or above its target, where it was so
-- before, and the multiplier as it was.
pub buy_shares-HasSurplus :
    (s s' : PoolState) (base quote total_supply shares : ℕ)
    → HasSurplus s
    → buy_shares s base quote total_supply ≡ ok (s', shares)
    → HasSurplus s' × (s'.multiplier ≡ s.multiplier)
buy_shares-HasSurplus s s' base quote zero shares h e =
    let i = buy_shares-IsFairIssue s s' base quote zero shares e in
    (Surplus-one s'.multiplier s' (first-Surplus i), i.multiplier)
buy_shares-HasSurplus s s' base quote (suc t) shares h e =
    let p = buy_shares-parts s s' base quote (suc t) shares e in
    let i = buy_shares-IsFairIssue s s' base quote (suc t) shares e in
    let issue = later_issue s p.grown (from_u64 base) (from_u64 quote) t p.issue in
    let (_, bt, qt, _, _) =
      proportional_lem s p.grown (from_u64 base - s.base_reserve) (from_u64 quote - s.quote_reserve)
        (suc t) issue p.floor in
    (
      subst (λ (m : Multiplier). Surplus m s') (sym i.multiplier)
          (Surplus-map s.multiplier s s' (λ le. rw p.result (omega (arith, bt le, p.base_input)))
            (λ le. rw p.result (omega (arith, qt le, p.quote_input))) h),
      i.multiplier,
    )

-- ===== src/Curve/Pool/Issue.antt =====
-- The parts of `buy_shares`.
use native.Mathlib.Nat.{
  le_of_mul-le-mul_right, lt_of_mul-lt-mul_right, mul-le-mul_right, mul-le-mul,
}
use deltafi_contracts.Prelude.{
  ◌⊎◌, ℕ, suc, ◌+◌, ◌-◌, ◌*◌, ◌≤◌, ◌<◌, ◌≡◌, ltb, ◌==◌, if◌then◌else◌, ◌&&◌, min, arith, inl, inr,
  Bool-cases, refl,
}
use deltafi_contracts.Outcome.{
  ok, refuse_if, fail, incorrect_mint, insufficient_funds, >>=-ok-elim, ok-injective,
}
use deltafi_contracts.Math.Checked.{wad}
use deltafi_contracts.Math.Decimal.{
  Decimal, from_u64, try_add, try_sub, try_mul, try_mul_u64, try_div, try_floor_u64,
}
use deltafi_contracts.Math.Decimal.Laws.{
  try_add-ok, try_sub-ok, try_mul-ok, try_mul_u64-ok, try_div-ok, try_floor_u64-ok,
}
use deltafi_contracts.Curve.Pool.{one, PoolState, buy_initial, buy_proportional, buy_shares}
use deltafi_contracts.Curve.Pool.Target.{Surplus}

-- A target that is not above its reserve grows by at most what came in.
pub target_growth :
    (target reserve input ratio : ℕ) {r growth : Decimal}
    → target ≤ reserve
    → try_div input reserve ≡ ok r
    → ratio ≤ r
    → try_mul target ratio ≡ ok growth
    → growth ≤ input
target_growth target reserve input ratio {r} {growth} le er small eg =
    let (_, below, _) = try_div-ok input reserve er in
    let more : target * ratio ≤ reserve * r = mul-le-mul le small in
    le_of_mul-le-mul_right {k = wad} (omega (arith, try_mul-ok target ratio eg)) (omega arith)

-- Shares issued at a ratio of what came in are worth at most what came in.
no_dilution :
    (reserve input ratio total_supply : ℕ) {r shares floor : Decimal}
    → try_div input reserve ≡ ok r
    → ratio ≤ r
    → try_mul_u64 ratio total_supply ≡ ok shares
    → try_floor_u64 shares ≡ ok floor
    → floor * reserve ≤ total_supply * input
no_dilution reserve input ratio t {r} {shares} {floor} er small es ef =
    let (_, below, _) = try_div-ok input reserve er in
    let whole : shares ≡ ratio * t = (try_mul_u64-ok ratio t es).0 in
    let (lo, _, _) = try_floor_u64-ok shares ef in
    let a : floor * wad * reserve ≤ ratio * t * reserve = mul-le-mul_right reserve (omega arith) in
    let b : ratio * reserve * t ≤ r * reserve * t =
      mul-le-mul_right t (mul-le-mul_right reserve small) in
    let c : r * reserve * t ≤ input * wad * t = mul-le-mul_right t below in
    le_of_mul-le-mul_right {k = wad} (omega arith) (omega arith)

-- At the market price the shares of a first deposit take at most each of its two amounts.
first_shares_short :
    (price base quote : ℕ) {value shares quote_target : Decimal}
    → try_mul price base ≡ ok value
    → quote < value
    → try_div quote price ≡ ok shares
    → try_mul shares price ≡ ok quote_target
    → (shares ≤ base) × (quote_target ≤ quote)
first_shares_short price base quote {value} {shares} {quote_target} ev short es et =
    let (lo, _, _) = try_mul-ok price base ev in
    let (_, below, _) = try_div-ok quote price es in
    let (tl, _, _) = try_mul-ok shares price et in
    let less : shares * price < base * price = omega arith in
    let fits : shares < base = lt_of_mul-lt-mul_right price less in (omega arith, omega arith)

pub first_shares :
    (price base quote : ℕ) {value shares quote_target : Decimal}
    → try_mul price base ≡ ok value
    → (if ltb quote value then try_div quote price else ok base) ≡ ok shares
    → try_mul shares price ≡ ok quote_target
    → (shares ≤ base) × (quote_target ≤ quote)
first_shares price base quote {value} {shares} {quote_target} ev es et =
    elim (Bool-cases (ltb quote value)) [
      | inl short ↦ first_shares_short price base quote ev (ground arith) (rw short at es) et
      | inr enough ↦
          let same : base ≡ shares = ok-injective (rw enough at es) in
          let (_, above, _) = try_mul-ok price base ev in
          let (tl, _, _) = try_mul-ok base price (rw (← same) at et) in (omega arith, ground arith)
    ]

-- What `buy_shares` issues and where it leaves the pool: the reserves are the balances, the rest of the
-- pool but the targets is as before. With no supply each target is at most its reserve. Otherwise
-- the shares are worth at most what came in of each token, and no target grows by more than its
-- reserve.
pub record IsFairIssue (s s' : PoolState) (base quote total_supply shares : ℕ) : Type 0 where
  pub base_reserve : s'.base_reserve ≡ from_u64 base
  pub quote_reserve : s'.quote_reserve ≡ from_u64 quote
  pub market_price : s'.market_price ≡ s.market_price
  pub slope : s'.slope ≡ s.slope
  pub multiplier : s'.multiplier ≡ s.multiplier
  pub base_input : s.base_reserve < from_u64 base
  pub quote_input : s.quote_reserve ≤ from_u64 quote
  pub fair :
      ((total_supply ≡ 0) × (Surplus one s' × (shares * wad ≤ from_u64 base)))
      ⊎ ((0 < total_supply)
          × ((shares * s.base_reserve ≤ total_supply * (from_u64 base - s.base_reserve))
              × (shares * s.quote_reserve ≤ total_supply * (from_u64 quote - s.quote_reserve))))

-- What the two cases of `buy_shares` do to the targets.
pub record IsGrown (s grown : PoolState) : Type 0 where
  pub market_price : grown.market_price ≡ s.market_price
  pub slope : grown.slope ≡ s.slope
  pub multiplier : grown.multiplier ≡ s.multiplier

pub initial_lem :
    (s grown : PoolState) (base quote : Decimal) {shares : Decimal}
    → buy_initial s base quote ≡ ok (grown, shares)
    → IsGrown s grown × (grown.base_target ≤ base) × (grown.quote_target ≤ quote) × (shares ≤ base)
unfolding buy_initial
initial_lem s grown base quote e0 = >>=-ok-elim (try_mul s.market_price base) _ e0 λ value ev e1.
    >>=-ok-elim _ _ e1 λ issued es e2.
      >>=-ok-elim (try_mul issued s.market_price) _ e2 λ quote_target et e3.
        let (fits, fits') = first_shares s.market_price base quote ev es et in ground arith

pub proportional_lem :
    (s grown : PoolState) (base_input quote_input total_supply : ℕ) {amount shares : Decimal}
    → buy_proportional s base_input quote_input total_supply ≡ ok (grown, amount)
    → try_floor_u64 amount ≡ ok shares
    → IsGrown s grown
      × (s.base_target ≤ s.base_reserve → grown.base_target ≤ s.base_target + base_input)
      × (s.quote_target ≤ s.quote_reserve → grown.quote_target ≤ s.quote_target + quote_input)
      × (shares * s.base_reserve ≤ total_supply * base_input)
      × (shares * s.quote_reserve ≤ total_supply * quote_input)
unfolding buy_proportional
proportional_lem s grown bi qi t {amount} {shares} e0 ef =
    >>=-ok-elim (try_div bi s.base_reserve) _ e0 λ rb eb e1.
      >>=-ok-elim (try_div qi s.quote_reserve) _ e1 λ rq eq e2.
        >>=-ok-elim (try_mul_u64 (min rb rq) t) _ e2 λ amount' es e3.
          >>=-ok-elim (try_mul s.base_target (min rb rq)) _ e3 λ base_growth eg e4.
            >>=-ok-elim (try_add base_growth s.base_target) _ e4 λ base_target et e5.
              >>=-ok-elim (try_mul s.quote_target (min rb rq)) _ e5 λ quote_growth eg' e6.
                >>=-ok-elim (try_add quote_growth s.quote_target) _ e6 λ quote_target et' e7.
                  let low : min rb rq ≤ rb = omega arith in
                  let low' : min rb rq ≤ rq = omega arith in
                  let same : grown
                      ≡ record s { base_target = base_target; quote_target = quote_target } =
                    ground arith in
                  let issued : amount' ≡ amount = ground arith in
                  let floor : try_floor_u64 amount' ≡ ok shares = rw issued ef in
                  (
                    rw same (record { market_price = refl; slope = refl; multiplier = refl }),
                    (λ le. rw same (
                        omega (
                          arith,
                          target_growth _ _ bi _ le eb low eg,
                          try_add-ok base_growth s.base_target et,
                        ))),
                    (λ le. rw same (
                        omega (
                          arith,
                          target_growth _ _ qi _ le eq low' eg',
                          try_add-ok quote_growth s.quote_target et',
                        ))),
                    no_dilution s.base_reserve bi _ t eb low es floor,
                    no_dilution s.quote_reserve qi _ t eq low' es floor,
                  )

pub record BoughtParts (s s' : PoolState) (base quote total_supply shares : ℕ) : Type 0 where
  pub grown : PoolState
  pub amount : Decimal
  pub issue :
      (if total_supply == 0
        then buy_initial s (from_u64 base) (from_u64 quote)
        else if ltb 0 s.base_reserve && ltb 0 s.quote_reserve
        then buy_proportional s
            (from_u64 base - s.base_reserve)
            (from_u64 quote - s.quote_reserve)
            total_supply
        else fail incorrect_mint)
      ≡ ok (grown, amount)
  pub floor : try_floor_u64 amount ≡ ok shares
  pub base_input : s.base_reserve < from_u64 base
  pub quote_input : s.quote_reserve ≤ from_u64 quote
  pub result : s' ≡ record grown { base_reserve = from_u64 base; quote_reserve = from_u64 quote }

pub buy_shares-parts :
    (s s' : PoolState) (base quote total_supply shares : ℕ)
    → buy_shares s base quote total_supply ≡ ok (s', shares)
    → BoughtParts s s' base quote total_supply shares
unfolding buy_shares
buy_shares-parts s s' base quote t shares e0 =
    >>=-ok-elim (try_sub (from_u64 base) s.base_reserve) _ e0 λ base_input eb e1.
      >>=-ok-elim (try_sub (from_u64 quote) s.quote_reserve) _ e1 λ quote_input eq e2.
        >>=-ok-elim (refuse_if (base_input == 0) insufficient_funds) _ e2 λ _ some_input e3.
          >>=-ok-elim _ _ e3 λ result issue e4.
            >>=-ok-elim (try_floor_u64 result.1) _ e4 λ floor ef e5.
              let (base_left, _) = try_sub-ok (from_u64 base) s.base_reserve eb in
              let (quote_left, _) = try_sub-ok (from_u64 quote) s.quote_reserve eq in
              let base_eq : from_u64 base - s.base_reserve ≡ base_input = omega arith in
              let quote_eq : from_u64 quote - s.quote_reserve ≡ quote_input = omega arith in
              record {
                grown = result.0;
                amount = result.1;
                issue = rw (base_eq, quote_eq) issue;
                floor = ground arith;
                base_input = ground arith;
                quote_input = omega arith;
                result = ground arith;
              }

-- With a supply, both reserves hold something.
pub later_issue :
    (s grown : PoolState) (base quote : Decimal) (t : ℕ) {amount : Decimal}
    → (if suc t == 0
        then buy_initial s base quote
        else if ltb 0 s.base_reserve && ltb 0 s.quote_reserve
        then buy_proportional s (base - s.base_reserve) (quote - s.quote_reserve) (suc t)
        else fail incorrect_mint)
      ≡ ok (grown, amount)
    → buy_proportional s (base - s.base_reserve) (quote - s.quote_reserve) (suc t)
      ≡ ok (grown, amount)
later_issue s grown base quote t e = ground arith

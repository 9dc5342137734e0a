-- ===== src/Curve/Pool/Withdraw.antt =====
-- `sell_shares`: what a withdrawal pays, and what it leaves.
use native.Mathlib.Nat.{lt_of_mul-lt-mul_right, mul-le-mul_right, mul-le-mul_left}
use deltafi_contracts.Prelude.{ℕ, ◌+◌, ◌-◌, ◌*◌, ◌≤◌, ◌<◌, ◌≡◌, arith, ap, sym}
use deltafi_contracts.Outcome.{ok, refuse_if, withdraw_not_enough, >>=-ok-elim}
use deltafi_contracts.Math.Checked.{wad}
use deltafi_contracts.Math.Decimal.{Decimal, from_u64, try_sub, try_mul_u64, try_floor_u64}
use deltafi_contracts.Math.Decimal.Laws.{
  try_sub-ok, try_mul_u64-ok, try_div_u64-ok, try_floor_u64-ok,
}
use mathlib.Core.Path.{subst}
use deltafi_contracts.Curve.Pool.{Multiplier, PoolState, share_of, sell_shares}
use deltafi_contracts.Curve.Pool.Target.{Surplus, HasSurplus, Surplus-map}

share_of-ok :
    (amount share_amount total_supply : ℕ) {part : Decimal}
    → share_of amount share_amount total_supply ≡ ok part
    → (0 < total_supply)
      × (part * total_supply ≤ amount * share_amount)
      × (amount * share_amount < part * total_supply + total_supply)
unfolding share_of
share_of-ok a n t e =
    >>=-ok-elim (try_mul_u64 a n) _ e
      λ product ep er. rw (← (try_mul_u64-ok a n ep).0) (try_div_u64-ok product t er)

-- What is left of a smaller amount is at most what is left of a larger one.
share_of_rest :
    (a b share_amount total_supply : ℕ) {x y : Decimal}
    → a ≤ b
    → share_amount ≤ total_supply
    → share_of a share_amount total_supply ≡ ok x
    → share_of b share_amount total_supply ≡ ok y
    → a + y ≤ b + x
share_of_rest a b n t {x} {y} le part ex ey =
    let (pos, xl, xh) = share_of-ok a n t ex in
    let (_, yl, yh) = share_of-ok b n t ey in
    let split : b ≡ a + (b - a) = omega arith in
    let more : (b - a) * n ≤ (b - a) * t = mul-le-mul_left (b - a) part in
    let scaled : (a + y) * t < (b + x + 1) * t =
      omega (arith, ap (λ (z : ℕ). z * n) split, ap (λ (z : ℕ). z * t) split) in
    let close : a + y < b + x + 1 = lt_of_mul-lt-mul_right t scaled in omega arith

-- What `sell_shares` pays, against the reserves and the minimum amounts.
pub record IsFairPayment (s s' : PoolState)
    (share_amount base_min quote_min total_supply base quote : ℕ) : Type 0 where
  pub base_pays : base * wad * total_supply ≤ s.base_reserve * share_amount
  pub quote_pays : quote * wad * total_supply ≤ s.quote_reserve * share_amount
  pub base_fair : s.base_reserve * share_amount < (base * wad + wad) * total_supply
  pub quote_fair : s.quote_reserve * share_amount < (quote * wad + wad) * total_supply
  pub base_enough : base_min ≤ base
  pub quote_enough : quote_min ≤ quote
  pub base_left : s'.base_reserve + base * wad ≤ s.base_reserve
  pub quote_left : s'.quote_reserve + quote * wad ≤ s.quote_reserve

floor_share :
    (reserve n t min_amount : ℕ) {part floor : ℕ}
    → share_of reserve n t ≡ ok part
    → try_floor_u64 part ≡ ok floor
    → from_u64 min_amount ≤ part
    → (floor * wad * t ≤ reserve * n)
      × (reserve * n < (floor * wad + wad) * t)
      × (min_amount ≤ floor)
      × (floor * wad ≤ part)
floor_share reserve n t min_amount {part} {floor} ep ef enough =
    let (pos, lo, hi) = share_of-ok reserve n t ep in
    let (below, above, _) = try_floor_u64-ok part ef in
    let le : floor * wad * t ≤ part * t = mul-le-mul_right t below in
    let ge : (part + 1) * t ≤ (floor * wad + wad) * t = mul-le-mul_right t (omega arith) in
    (omega arith, omega arith, omega arith, below)

-- The intermediate values of a successful `sell_shares`.
record SoldParts (s s' : PoolState) (share_amount base_min quote_min total_supply base quote : ℕ)
    : Type 0 where
  base_amount : Decimal
  quote_amount : Decimal
  base_part : Decimal
  quote_part : Decimal
  base_eq : share_of s.base_reserve share_amount total_supply ≡ ok base_amount
  quote_eq : share_of s.quote_reserve share_amount total_supply ≡ ok quote_amount
  base_part_eq : share_of s.base_target share_amount total_supply ≡ ok base_part
  quote_part_eq : share_of s.quote_target share_amount total_supply ≡ ok quote_part
  base_enough : from_u64 base_min ≤ base_amount
  quote_enough : from_u64 quote_min ≤ quote_amount
  base_target_eq : s'.base_target + base_part ≡ s.base_target
  quote_target_eq : s'.quote_target + quote_part ≡ s.quote_target
  base_reserve_eq : s'.base_reserve + base_amount ≡ s.base_reserve
  quote_reserve_eq : s'.quote_reserve + quote_amount ≡ s.quote_reserve
  base_floor : try_floor_u64 base_amount ≡ ok base
  quote_floor : try_floor_u64 quote_amount ≡ ok quote
  multiplier_eq : s'.multiplier ≡ s.multiplier

sell_shares-parts :
    (s s' : PoolState) (share_amount base_min quote_min total_supply base quote : ℕ)
    → sell_shares s share_amount base_min quote_min total_supply ≡ ok (s', base, quote)
    → SoldParts s s' share_amount base_min quote_min total_supply base quote
unfolding sell_shares
sell_shares-parts s s' n bm qm t base quote e0 =
    >>=-ok-elim (share_of s.base_reserve n t) _ e0 λ base_amount base_eq e1.
      >>=-ok-elim (share_of s.quote_reserve n t) _ e1 λ quote_amount quote_eq e2.
        >>=-ok-elim (share_of s.base_target n t) _ e2 λ base_part base_part_eq e3.
          >>=-ok-elim (try_sub s.base_target base_part) _ e3 λ base_target base_target_eq e4.
            >>=-ok-elim (share_of s.quote_target n t) _ e4 λ quote_part quote_part_eq e5.
              >>=-ok-elim (try_sub s.quote_target quote_part) _ e5
                λ quote_target quote_target_eq e6.
                  >>=-ok-elim (refuse_if _ withdraw_not_enough) _ e6 λ _ enough e7.
                    >>=-ok-elim (try_sub s.base_reserve base_amount) _ e7
                      λ base_reserve base_reserve_eq e8.
                        >>=-ok-elim (try_sub s.quote_reserve quote_amount) _ e8
                          λ quote_reserve quote_reserve_eq e9.
                            >>=-ok-elim (try_floor_u64 base_amount) _ e9
                              λ base_floor base_floor_eq e10.
                                >>=-ok-elim (try_floor_u64 quote_amount) _ e10
                                  λ quote_floor quote_floor_eq e11. record {
                                    base_amount = base_amount;
                                    quote_amount = quote_amount;
                                    base_part = base_part;
                                    quote_part = quote_part;
                                    base_eq = base_eq;
                                    quote_eq = quote_eq;
                                    base_part_eq = base_part_eq;
                                    quote_part_eq = quote_part_eq;
                                    base_enough = ground arith;
                                    quote_enough = ground arith;
                                    base_target_eq =
                                        ground (
                                          arith,
                                          try_sub-ok s.base_target base_part base_target_eq,
                                        );
                                    quote_target_eq = ground (
                                      arith,
                                      try_sub-ok s.quote_target quote_part quote_target_eq,
                                    );
                                    base_reserve_eq = ground (
                                      arith,
                                      try_sub-ok s.base_reserve base_amount base_reserve_eq,
                                    );
                                    quote_reserve_eq = ground (
                                      arith,
                                      try_sub-ok s.quote_reserve quote_amount quote_reserve_eq,
                                    );
                                    base_floor = ground arith;
                                    quote_floor = ground arith;
                                    multiplier_eq = ground arith;
                                  }

-- A successful withdrawal pays each token in proportion to the shares, rounded down to the unit of the token,
-- at least the minimum asked, and out of the reserve.
pub sell_shares-IsFairPayment :
    (s s' : PoolState) (share_amount base_min quote_min total_supply base quote : ℕ)
    → sell_shares s share_amount base_min quote_min total_supply ≡ ok (s', base, quote)
    → IsFairPayment s s' share_amount base_min quote_min total_supply base quote
sell_shares-IsFairPayment s s' n bm qm t base quote e =
    let p = sell_shares-parts s s' n bm qm t base quote e in
    let (bl, bh, bmin, bp) =
      floor_share s.base_reserve n t bm p.base_eq p.base_floor p.base_enough in
    let (ql, qh, qmin, qp) =
      floor_share s.quote_reserve n t qm p.quote_eq p.quote_floor p.quote_enough in
    record {
      base_pays = bl;
      quote_pays = ql;
      base_fair = bh;
      quote_fair = qh;
      base_enough = bmin;
      quote_enough = qmin;
      base_left = omega (arith, p.base_reserve_eq);
      quote_left = omega (arith, p.quote_reserve_eq);
    }

-- A successful withdrawal of at most the whole supply leaves the surplus side of the pool at or above
-- its target, where it was so before, and the multiplier as it was.
pub sell_shares-HasSurplus :
    (s s' : PoolState) (share_amount base_min quote_min total_supply base quote : ℕ)
    → share_amount ≤ total_supply
    → HasSurplus s
    → sell_shares s share_amount base_min quote_min total_supply ≡ ok (s', base, quote)
    → HasSurplus s' × (s'.multiplier ≡ s.multiplier)
sell_shares-HasSurplus s s' n bm qm t base quote part h e =
    let p = sell_shares-parts s s' n bm qm t base quote e in
    let base_rest : s.base_target ≤ s.base_reserve → s'.base_target ≤ s'.base_reserve =
      λ le. omega (arith, share_of_rest _ _ n t le part p.base_part_eq p.base_eq) in
    let quote_rest : s.quote_target ≤ s.quote_reserve → s'.quote_target ≤ s'.quote_reserve =
      λ le. omega (arith, share_of_rest _ _ n t le part p.quote_part_eq p.quote_eq) in
    (
      subst (λ (m : Multiplier). Surplus m s') (sym p.multiplier_eq)
          (Surplus-map s.multiplier s s' base_rest quote_rest h),
      p.multiplier_eq,
    )

-- ===== src/State/Position/Accrual.antt =====
-- The rewards of a position over time.
use native.Mathlib.Nat.{mul-le-mul_right}
use deltafi_contracts.Prelude.{
  ◌⊎◌, inl, inr, Bool-cases, ℕ, ◌+◌, ◌*◌, ◌≤◌, ◌<◌, ◌≡◌, arith, ◌∙◌, ap,
}
use deltafi_contracts.Prelude.Int.{ltb_ℤ, ℤ, ◌≤ℤ◌, ◌<ℤ◌}
use deltafi_contracts.Outcome.{ok, ◌>>=◌, >>=-ok-elim}
use deltafi_contracts.Math.Checked.{wad}
use deltafi_contracts.Math.Decimal.{Decimal, try_mul_u64, try_div_u64}
use deltafi_contracts.Math.Decimal.Laws.{try_mul_u64-ok, try_div_u64-ok, try_floor_u64-ok}
use deltafi_contracts.State.Position.{
  LiquidityPosition, min_claim_period, update_claim_ts, accrued, accrue, settle,
  calc_and_update_rewards, claim_rewards,
}

-- All that a position has earned: paid out, owed and estimated.
abbrev pub earned : LiquidityPosition → ℕ
earned p = p.cumulative_interest + p.rewards_owed + p.rewards_estimated

-- A successful claim pays all that is owed, which is not nothing, moves it to what has been paid, and
-- changes neither the sum of all earnings nor the liquidity.
pub claim_rewards-earned :
    (p p' : LiquidityPosition) (claimed : ℕ)
    → claim_rewards p ≡ ok (p', claimed)
    → (claimed ≡ p.rewards_owed)
      × (0 < claimed)
      × (p'.rewards_owed ≡ 0)
      × (p'.cumulative_interest ≡ p.cumulative_interest + claimed)
      × (earned p' ≡ earned p)
      × (p'.liquidity_amount ≡ p.liquidity_amount)
unfolding claim_rewards ◌>>=◌
claim_rewards-earned p p' claimed e = ground arith

settle-earned :
    (p p' : LiquidityPosition) (current_ts : ℤ)
    → settle p current_ts ≡ ok p'
    → (earned p' ≡ earned p)
      × (p'.last_update_ts ≡ p.last_update_ts)
      × (p'.liquidity_amount ≡ p.liquidity_amount)
      × (p.next_claim_ts ≤ℤ p'.next_claim_ts)
unfolding settle update_claim_ts ◌>>=◌
settle-earned p p' ts e = ground arith

-- A refresh leaves the position alone but for its rewards and timestamps.
pub record IsRefreshed (p p' : LiquidityPosition) (ts : ℤ) : Type 0 where
  pub pool : p'.pool ≡ p.pool
  pub liquidity : p'.liquidity_amount ≡ p.liquidity_amount
  pub paid : p'.cumulative_interest ≡ p.cumulative_interest
  pub earns : earned p ≤ earned p'
  pub owes : p.rewards_owed ≤ p'.rewards_owed
  pub up_to_date : ts ≤ℤ p'.last_update_ts
  pub claim_later : p.next_claim_ts ≤ℤ p'.next_claim_ts

-- What the time since the last update adds to the estimate, at most.
accrue_lem :
    (p p' : LiquidityPosition) (ratio : Decimal) (ts : ℤ)
    → accrue p ratio ts ≡ ok p'
    → (p'.pool ≡ p.pool)
      × (p'.liquidity_amount ≡ p.liquidity_amount)
      × (p'.cumulative_interest ≡ p.cumulative_interest)
      × (p'.rewards_owed ≡ p.rewards_owed)
      × (p'.next_claim_ts ≡ p.next_claim_ts)
      × (p.rewards_estimated ≤ p'.rewards_estimated)
      × (ts ≤ℤ p'.last_update_ts)
unfolding accrue ◌>>=◌
accrue_lem p p' ratio ts e = ground arith

accrue_again :
    (p p' : LiquidityPosition) (ratio : Decimal) (ts : ℤ)
    → ts ≤ℤ p.last_update_ts
    → accrue p ratio ts ≡ ok p'
    → p' ≡ p
unfolding accrue ◌>>=◌
accrue_again p p' ratio ts le e = ground arith

settle_lem :
    (p p' : LiquidityPosition) (ts : ℤ)
    → settle p ts ≡ ok p'
    → (p'.pool ≡ p.pool)
      × (p'.cumulative_interest ≡ p.cumulative_interest)
      × (p.rewards_owed ≤ p'.rewards_owed)
unfolding settle update_claim_ts ◌>>=◌
settle_lem p p' ts e = ground arith

-- A successful refresh takes no earned or owed rewards away, leaves the pool, the liquidity and what was
-- paid alone, sets the claim time no earlier, and leaves the position updated at the given time or
-- later.
pub calc_and_update_rewards-IsRefreshed :
    (p p' : LiquidityPosition) (ratio : Decimal) (ts : ℤ)
    → calc_and_update_rewards p ratio ts ≡ ok p'
    → IsRefreshed p p' ts
unfolding calc_and_update_rewards
calc_and_update_rewards-IsRefreshed p p' ratio ts e0 =
    >>=-ok-elim (accrue p ratio ts) _ e0 λ q ea es.
      let (a0, a1, a2, a3, a4, a5, a6) = accrue_lem p q ratio ts ea in
      let (s0, s1, s2, s3) = settle-earned q p' ts es in
      let (t0, t1, t2) = settle_lem q p' ts es in
      record {
        pool = t0 ∙ a0;
        liquidity = s2 ∙ a1;
        paid = t1 ∙ a2;
        earns = omega arith;
        owes = omega arith;
        up_to_date = rw s1 a6;
        claim_later = rw (← a4) s3;
      }

again :
    (p p' : LiquidityPosition) (ratio : Decimal) (ts : ℤ)
    → ts ≤ℤ p.last_update_ts
    → calc_and_update_rewards p ratio ts ≡ ok p'
    → (earned p' ≡ earned p) × (p'.last_update_ts ≡ p.last_update_ts)
unfolding calc_and_update_rewards
again p p' ratio ts le e0 = >>=-ok-elim (accrue p ratio ts) _ e0 λ q ea es.
    let same = accrue_again p q ratio ts le ea in
    let (s0, s1, _, _) = settle-earned q p' ts es in
    (s0 ∙ ap earned same, s1 ∙ ap (λ (x : LiquidityPosition). x.last_update_ts) same)

settle-owed :
    (p p' : LiquidityPosition) (ts : ℤ)
    → settle p ts ≡ ok p'
    → (ts <ℤ p.next_claim_ts → p'.rewards_owed ≡ p.rewards_owed)
      × (p.next_claim_ts ≤ℤ ts
          → (p'.rewards_estimated ≡ 0) × (p'.rewards_owed ≡ p.rewards_owed + p.rewards_estimated))
unfolding settle update_claim_ts ◌>>=◌
settle-owed p p' ts e = (λ h. ground arith, λ h. ground arith)

-- A second refresh at the same time, at whatever ratio, earns nothing more and leaves the time of the
-- last update.
pub calc_and_update_rewards_again :
    (p p' p'' : LiquidityPosition) (ratio ratio' : Decimal) (ts : ℤ)
    → calc_and_update_rewards p ratio ts ≡ ok p'
    → calc_and_update_rewards p' ratio' ts ≡ ok p''
    → (earned p'' ≡ earned p') × (p''.last_update_ts ≡ p'.last_update_ts)
calc_and_update_rewards_again p p' p'' ratio ratio' ts first second =
    let r = calc_and_update_rewards-IsRefreshed p p' ratio ts first in
    again p' p'' ratio' ts r.up_to_date second

due_or_early : (a b : ℤ) → (b <ℤ a) ⊎ (a ≤ℤ b)
due_or_early a b = elim (Bool-cases (ltb_ℤ b a)) [
  | inl early ↦ inl (ground arith)
  | inr due ↦ inr (ground arith)
]

-- A successful refresh is either before the claim time and makes nothing owed, or at or after it, leaves
-- no estimate and makes at least the estimate before owed.
pub calc_and_update_rewards-owed :
    (p p' : LiquidityPosition) (ratio : Decimal) (ts : ℤ)
    → calc_and_update_rewards p ratio ts ≡ ok p'
    → ((ts <ℤ p.next_claim_ts) × (p'.rewards_owed ≡ p.rewards_owed))
      ⊎ ((p.next_claim_ts ≤ℤ ts)
          × (p'.rewards_estimated ≡ 0)
          × (p.rewards_owed + p.rewards_estimated ≤ p'.rewards_owed))
unfolding calc_and_update_rewards
calc_and_update_rewards-owed p p' ratio ts e0 = >>=-ok-elim (accrue p ratio ts) _ e0 λ q ea es.
    let (_, _, _, a3, a4, a5, _) = accrue_lem p q ratio ts ea in
    let (early, due) = settle-owed q p' ts es in
    elim (due_or_early p.next_claim_ts ts) [
      | inl h ↦ inl (h, early (rw a4 h) ∙ a3)
      | inr h ↦ let (z, o) = due (rw a4 h) in inr (h, z, omega arith)
    ]

-- A computed reward, times the claim period, is at most the ratio times the liquidity times the time that
-- has passed.
pub accrued-le :
    (p : LiquidityPosition) (ratio : Decimal) (period reward : ℕ)
    → accrued p ratio period ≡ ok reward
    → reward * wad * min_claim_period ≤ ratio * p.liquidity_amount * period
unfolding accrued
accrued-le p ratio period reward e0 =
    >>=-ok-elim (try_mul_u64 ratio p.liquidity_amount) _ e0 λ whole ew e1.
      >>=-ok-elim (try_div_u64 whole min_claim_period) _ e1 λ rate er e2.
        >>=-ok-elim (try_mul_u64 rate period) _ e2 λ amount ea ef.
          let (w, _) = try_mul_u64-ok ratio p.liquidity_amount ew in
          let (_, lo, _) = try_div_u64-ok whole min_claim_period er in
          let (a, _) = try_mul_u64-ok rate period ea in
          let (fl, _, _) = try_floor_u64-ok amount ef in
          let more : rate * min_claim_period * period ≤ whole * period =
            mul-le-mul_right period lo in
          omega (arith, ap (λ (x : ℕ). x * period) w)

-- The rewards computed for two periods add up to the reward computed for both together, or to one unit
-- less.
pub accrued-add :
    (p : LiquidityPosition) (ratio : Decimal) (first second a b c : ℕ)
    → accrued p ratio first ≡ ok a
    → accrued p ratio second ≡ ok b
    → accrued p ratio (first + second) ≡ ok c
    → (a + b ≤ c) × (c ≤ a + b + 1)
unfolding accrued
accrued-add p ratio first second a b c ea0 eb0 ec0 =
    >>=-ok-elim (try_mul_u64 ratio p.liquidity_amount) _ ea0 λ whole ew ea1.
      >>=-ok-elim (try_div_u64 whole min_claim_period) _ ea1 λ rate er ea2.
        >>=-ok-elim (try_mul_u64 rate first) _ ea2 λ x ex ea.
          >>=-ok-elim (try_mul_u64 ratio p.liquidity_amount) _ eb0 λ whole' ew' eb1.
            >>=-ok-elim (try_div_u64 whole' min_claim_period) _ eb1 λ rate' er' eb2.
              >>=-ok-elim (try_mul_u64 rate' second) _ eb2 λ y ey eb.
                >>=-ok-elim (try_mul_u64 ratio p.liquidity_amount) _ ec0 λ whole'' ew'' ec1.
                  >>=-ok-elim (try_div_u64 whole'' min_claim_period) _ ec1 λ rate'' er'' ec2.
                    >>=-ok-elim (try_mul_u64 rate'' (first + second)) _ ec2 λ z ez ec.
                      let same : rate' ≡ rate = cc in
                      let same' : rate'' ≡ rate = cc in
                      let x-eq = (try_mul_u64-ok rate first ex).0 in
                      let y-eq : y ≡ rate * second =
                        (try_mul_u64-ok rate' second ey).0 ∙ ap (λ (r : ℕ). r * second) same in
                      let z-eq : z ≡ rate * (first + second) =
                        (try_mul_u64-ok rate'' (first + second) ez).0
                        ∙ ap (λ (r : ℕ). r * (first + second)) same' in
                      omega
                        (arith, try_floor_u64-ok x ea, try_floor_u64-ok y eb, try_floor_u64-ok z ec)

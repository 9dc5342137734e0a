-- ===== src/State/Rewards/Bounds.antt =====
-- The trade reward in closed form.
use native.Mathlib.Nat.{mul-le-mul_right}
use deltafi_contracts.Prelude.{
  ◌⊎◌, refl, ℕ, ◌+◌, ◌*◌, ◌^◌, ◌≤◌, ◌<◌, ◌≡◌, ◌∙◌, ltb, if◌then◌else◌, arith, inl, inr, Bool-cases,
  sym, ap,
}
use deltafi_contracts.Outcome.{ok, >>=-ok-elim, ok-injective}
use deltafi_contracts.Math.Checked.{wad}
use deltafi_contracts.Math.Decimal.{try_mul_u64, try_div_u64, try_floor_u64, from_u64, sqrt}
use deltafi_contracts.Math.Decimal.Laws.{
  try_mul_u64-ok, try_div_u64-ok, try_floor_u64-ok, sqrt-from_u64,
}
use deltafi_contracts.State.Rewards.{Rewards, trade_reward_u64}

-- A quotient `c` of `wad * root * num` by `den`, rounded down to a whole number or capped.
capped_lem :
    (num den cap root c reward : ℕ)
    → c * den ≤ wad * root * num
    → wad * root * num < c * den + den
    → (if ltb (from_u64 cap) c then ok cap else try_floor_u64 c) ≡ ok reward
    → (reward ≤ cap)
      × (reward * den ≤ root * num)
      × ((reward ≡ cap) ⊎ (root * num < (reward + 1) * den))
capped_lem num den cap root c reward lo hi e = elim (Bool-cases (ltb (from_u64 cap) c)) [
  | inl above ↦
      let same : cap ≡ reward = ok-injective (rw above at e) in
      let over : wad * cap ≤ c = ground arith in
      let more : wad * cap * den ≤ c * den = mul-le-mul_right den over in
      rw (← same) (omega arith, omega arith, inl refl)
  | inr below ↦
      let (fl, fh, _) = try_floor_u64-ok c (rw below at e) in
      let under : c ≤ wad * cap = ground arith in
      let less : reward * wad * den ≤ c * den = mul-le-mul_right den fl in
      let more : (c + 1) * den ≤ (reward * wad + wad) * den = mul-le-mul_right den (omega arith) in
      (omega arith, omega arith, inr (omega arith))
]

-- The trade reward of a u64 amount, if it is computed, is the numerator over the denominator of the
-- integer square root of the amount, rounded down, or the cap where that is smaller.
pub trade_reward_u64-root :
    (r : Rewards) (amount reward : ℕ)
    → amount < 2 ^ 64
    → trade_reward_u64 r amount ≡ ok reward
    → (root : ℕ) × (root * root ≤ amount)
      × (amount < (root + 1) * (root + 1))
      × (reward ≤ r.trade_reward_cap)
      × (reward * r.trade_reward_denominator ≤ root * r.trade_reward_numerator)
      × ((reward ≡ r.trade_reward_cap)
          ⊎ (root * r.trade_reward_numerator < (reward + 1) * r.trade_reward_denominator))
unfolding trade_reward_u64
trade_reward_u64-root r amount reward fits e0 =
    let (root, es, lo, hi) = sqrt-from_u64 amount fits in
    >>=-ok-elim (sqrt (from_u64 amount)) _ e0 λ root' es' e1.
      >>=-ok-elim (try_mul_u64 root' r.trade_reward_numerator) _ e1 λ product ep e2.
        >>=-ok-elim (try_div_u64 product r.trade_reward_denominator) _ e2 λ c ec e3.
          let same : root' ≡ from_u64 root = ok-injective (sym es' ∙ es) in
          let scaled : product ≡ wad * root * r.trade_reward_numerator =
            (try_mul_u64-ok root' r.trade_reward_numerator ep).0
            ∙ ap (λ (x : ℕ). x * r.trade_reward_numerator) same in
          let (_, below, above) = try_div_u64-ok product r.trade_reward_denominator ec in
          let (capped, small, large) =
            capped_lem r.trade_reward_numerator r.trade_reward_denominator r.trade_reward_cap root c
              reward (omega arith) (omega arith) e3 in
          (root, lo, hi, capped, small, large)

-- ===== src/Processor/Prices.antt =====
-- The market price that a handler trades at.
use native.Mathlib.Nat.{lt_of_mul-lt-mul_right, mul-le-mul_right}
use deltafi_contracts.Prelude.{
  ℕ, suc, ◌+◌, ◌*◌, ◌≤◌, ◌<◌, ◌%◌, ◌^◌, ◌≡◌, ap, ltb, leb, not, ◌&&◌, ◌⊎◌, arith,
}
use deltafi_contracts.Prelude.Int.{pos, u64_try_from}
use deltafi_contracts.Outcome.{
  ok, ok_or, unwrap, refuse_if, ok-injective, ◌>>=◌, >>=-ok-elim, invalid_oracle_config,
  calculation_failure,
}
use deltafi_contracts.Math.Checked.{wad, checked_sub}
use deltafi_contracts.Math.Decimal.{Decimal, try_div}
use deltafi_contracts.Math.Decimal.Laws.{try_add-ok, try_sub-ok, try_div-ok, try_mul_u64-ok}
use deltafi_contracts.Curve.Pool.{PoolState, get_mid_price}
use deltafi_contracts.State.Swap.{SwapInfo}
use deltafi_contracts.Runtime.{Runtime, AccountInfo, Store, Clock, Price, price}
use deltafi_contracts.Processor.Oracle.{
  is_price, stale_after_slots_elapsed, price_of, price_ratio, accumulate, fallback_price, or_else,
  settle_price, get_market_price_from_pyth, get_new_market_price,
}
use deltafi_contracts.Prelude.{some}

quotient-ge : (a b r : ℕ) → b ≤ a → try_div a b ≡ ok r → wad ≤ r
quotient-ge a b r le e =
    let (_, _, above) = try_div-ok a b e in
    let scaled : b * wad ≤ a * wad = mul-le-mul_right wad le in
    let below : wad < suc r = lt_of_mul-lt-mul_right b (omega arith) in omega arith

-- The ratio of two prices is at least one, and it does not depend on their order.
pub price_ratio-ge : (a b r : ℕ) → price_ratio a b ≡ ok r → (wad ≤ r) × (price_ratio b a ≡ ok r)
unfolding price_ratio
price_ratio-ge a b r e = (grind (arith, quotient-ge), grind arith)

confident :
    (conf amount : ℕ) (u : Unit {0})
    → refuse_if (ltb 0 conf && ltb amount (conf * 100 % 2 ^ 64)) invalid_oracle_config ≡ ok u
    → (conf ≡ 0) ⊎ (conf * 100 % 2 ^ 64 ≤ amount)
confident conf amount u e = ground arith

-- A price that is accepted is a price of the last five slots, and not negative, and it is no less than a
-- hundred times the confidence, wrapped to 64 bits.
pub price_of-fresh :
    (p : Price) (clock : Clock) (d : Decimal)
    → price_of p clock ≡ ok d
    → (p.ptype ≡ price)
      × (p.valid_slot ≤ clock.slot)
      × (clock.slot < p.valid_slot + 5)
      × ((n : ℕ) × ((p.agg.price ≡ pos n) × ((p.agg.conf ≡ 0) ⊎ (p.agg.conf * 100 % 2 ^ 64 ≤ n))))
unfolding price_of
price_of-fresh p clock d e0 =
    >>=-ok-elim (refuse_if (not (is_price p.ptype)) invalid_oracle_config) _ e0 λ u0 c0 e1.
      >>=-ok-elim (ok_or (checked_sub clock.slot p.valid_slot) calculation_failure) _ e1
        λ elapsed c1 e2.
          >>=-ok-elim (refuse_if (leb stale_after_slots_elapsed elapsed) invalid_oracle_config) _ e2
            λ u2 c2 e3.
              >>=-ok-elim (ok_or (u64_try_from p.agg.price) invalid_oracle_config) _ e3
                λ amount c3 e4. >>=-ok-elim (refuse_if _ invalid_oracle_config) _ e4 λ u4 c4 e5. (
                  ground arith,
                  ground arith,
                  ground arith,
                  (amount, (ground arith, confident p.agg.conf amount u4 c4)),
                )

accumulate-le :
    (t : SwapInfo) (pool : PoolState) (mid : Decimal) (now cumulative : ℕ)
    → accumulate t pool mid now ≡ ok cumulative
    → t.base_price_cumulative_last ≤ cumulative
unfolding accumulate ◌>>=◌
accumulate-le t pool mid now cumulative e = grind (arith, try_add-ok)

settle_price-lem :
    (mid market p : Decimal)
    → settle_price mid market ≡ ok p
    → ((p ≡ market) × ((mid + 100 * market < 100 * mid) ⊎ (101 * mid < 100 * market)))
      ⊎ ((p ≡ mid) × ((99 * mid ≤ 100 * market) × (100 * market ≤ 101 * mid)))
unfolding settle_price ◌>>=◌
settle_price-lem mid market p e = grind (arith, try_sub-ok, try_mul_u64-ok)

-- The prices that a handler goes by: the mid price of the pool, and the market price, which is the oracle's
-- where the oracle gives one.
pub record IsNewPrice (rt : Runtime) (s : Store) (t : SwapInfo) (a b : AccountInfo) (clock : Clock)
    (new : Decimal) (cumulative : Decimal) : Type 0 where
  pub pool : PoolState
  pub mid : Decimal
  pub now : ℕ
  pub market : Decimal
  pub mid_priced : get_mid_price t.pool_state ≡ ok (pool, mid)
  pub timed : u64_try_from clock.unix_timestamp ≡ some now
  pub marketed :
      or_else (get_market_price_from_pyth rt s a b clock) (fallback_price t mid cumulative now)
      ≡ ok market
  pub grown : t.base_price_cumulative_last ≤ cumulative
  pub chosen :
      ((new ≡ market) × ((mid + 100 * market < 100 * mid) ⊎ (101 * mid < 100 * market)))
      ⊎ ((new ≡ mid) × ((99 * mid ≤ 100 * market) × (100 * market ≤ 101 * mid)))

-- The price that a handler trades at, if there is one, is the market price where that is more than a
-- hundredth of the mid price away from the mid price, and the mid price otherwise; the cumulative price
-- does not fall.
pub get_new_market_price-IsNewPrice :
    (rt : Runtime) (s : Store) (t t' : SwapInfo) (a b : AccountInfo) (clock : Clock)
    (new cumulative : Decimal)
    → get_new_market_price rt s t a b clock ≡ ok (t', new, cumulative)
    → IsNewPrice rt s t a b clock new cumulative
unfolding get_new_market_price
get_new_market_price-IsNewPrice rt s t t' a b clock new cumulative e0 =
    >>=-ok-elim (get_mid_price t.pool_state) _ e0 λ got c0 e1.
      >>=-ok-elim (unwrap (u64_try_from clock.unix_timestamp)) _ e1 λ now' c1 e2.
        >>=-ok-elim (accumulate t got.0 got.1 now') _ e2 λ total c2 e3.
          >>=-ok-elim (or_else _ _) _ e3 λ market' c3 e4.
            >>=-ok-elim (settle_price got.1 market') _ e4 λ new' c4 e5.
              let same = ok-injective e5 in
              rw
                (
                  ← ap (λ (x : SwapInfo × Decimal × Decimal). x.1) same,
                  ← ap (λ (x : SwapInfo × Decimal × Decimal). x.2) same,
                )
                (record {
                  pool = got.0;
                  mid = got.1;
                  now = now';
                  market = market';
                  mid_priced = c0;
                  timed = ground arith;
                  marketed = c3;
                  grown = accumulate-le t got.0 got.1 now' total c2;
                  chosen = settle_price-lem got.1 market' new' c4;
                })

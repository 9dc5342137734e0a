-- ===== src/Processor/Recorded.antt =====
-- What a handler that trades, takes deposits or pays withdrawals records in the swap: the times, the
-- cumulative price and the pool.
use mathlib.Core.Path.{subst}
use deltafi_contracts.Prelude.{ℕ, ◌+◌, ◌≡◌, refl, sym, ap, ◌∙◌, some, arith}
use deltafi_contracts.Prelude.Int.{u64_try_from}
use deltafi_contracts.Outcome.{ok, ok_or, unwrap, ok-injective, >>=-ok-elim, calculation_failure}
use deltafi_contracts.Math.Checked.{checked_add, checked_sub}
use deltafi_contracts.Math.Decimal.{Decimal}
use deltafi_contracts.Curve.Pool.{PoolState, get_mid_price}
use deltafi_contracts.State.Swap.{SwapInfo}
use deltafi_contracts.Runtime.{Runtime, AccountInfo, Store, Clock}
use deltafi_contracts.Processor.Oracle.{accumulate, or_else, settle_price, get_new_market_price}
use deltafi_contracts.Processor.Trade.{record_time}

-- The times and the cumulative price are recorded, and no other field changes.
pub record IsTimed (t t' : SwapInfo) (clock : Clock) (cumulative : Decimal) : Type 0 where
  pub now : ℕ
  pub timed : u64_try_from clock.unix_timestamp ≡ some now
  pub ticks : t'.cumulative_ticks + t.block_timestamp_last ≡ t.cumulative_ticks + now
  pub stamp : t'.block_timestamp_last ≡ now
  pub price : t'.base_price_cumulative_last ≡ cumulative
  pub pool : t'.pool_state ≡ t.pool_state
  pub frame : t' ≡ record t {
    cumulative_ticks = t'.cumulative_ticks;
    block_timestamp_last = t'.block_timestamp_last;
    base_price_cumulative_last = t'.base_price_cumulative_last;
  }

pub record_time-IsTimed :
    (t t' : SwapInfo) (clock : Clock) (cumulative : Decimal)
    → record_time t clock cumulative ≡ ok t'
    → IsTimed t t' clock cumulative
unfolding record_time
record_time-IsTimed t t' clock cumulative e0 =
    >>=-ok-elim (unwrap (u64_try_from clock.unix_timestamp)) _ e0 λ now en e1.
      >>=-ok-elim (ok_or (checked_add 64 t.cumulative_ticks now) calculation_failure) _ e1
        λ sum es e2.
          >>=-ok-elim (ok_or (checked_sub sum t.block_timestamp_last) calculation_failure) _ e2
            λ ticks et e3.
              let same = ok-injective e3 in
              let total : ticks + t.block_timestamp_last ≡ t.cumulative_ticks + now =
                ground arith in
              subst (λ (x : SwapInfo). IsTimed t x clock cumulative) same
                (record {
                  now = now;
                  timed = ground arith;
                  ticks = total;
                  stamp = refl;
                  price = refl;
                  pool = refl;
                  frame = refl;
                })

-- The price is read off the swap, of which only the pool changes.
pub get_new_market_price-frame :
    (rt : Runtime) (s : Store) (t t' : SwapInfo) (a b : AccountInfo) (clock : Clock)
    (new cumulative : Decimal)
    → get_new_market_price rt s t a b clock ≡ ok (t', new, cumulative)
    → t' ≡ record t { pool_state = t'.pool_state }
unfolding get_new_market_price
get_new_market_price-frame rt s t t' a b clock new cumulative e0 =
    >>=-ok-elim (get_mid_price t.pool_state) _ e0 λ got c0 e1.
      >>=-ok-elim (unwrap (u64_try_from clock.unix_timestamp)) _ e1 λ now c1 e2.
        >>=-ok-elim (accumulate t got.0 got.1 now) _ e2 λ total c2 e3.
          >>=-ok-elim (or_else _ _) _ e3 λ market c3 e4.
            >>=-ok-elim (settle_price got.1 market) _ e4 λ price c4 e5.
              subst
                (λ (x : SwapInfo × Decimal × Decimal).
                  x.0 ≡ record t { pool_state = x.0.pool_state })
                (ok-injective e5) refl

-- The swap at the new market price, with the pool that a handler leaves, at the time of the clock.
pub record IsRecorded (rt : Runtime) (s : Store) (old new : SwapInfo) (a b : AccountInfo)
    (clock : Clock) (priced : SwapInfo) (new_market_price : Decimal) : Type 0 where
  pub now : ℕ
  pub timed : u64_try_from clock.unix_timestamp ≡ some now
  pub cumulative : Decimal
  pub market : get_new_market_price rt s old a b clock ≡ ok (priced, new_market_price, cumulative)
  pub ticks : new.cumulative_ticks + old.block_timestamp_last ≡ old.cumulative_ticks + now
  pub stamp : new.block_timestamp_last ≡ now
  pub price : new.base_price_cumulative_last ≡ cumulative
  pub frame : new ≡ record old {
    pool_state = new.pool_state;
    cumulative_ticks = new.cumulative_ticks;
    block_timestamp_last = new.block_timestamp_last;
    base_price_cumulative_last = new.base_price_cumulative_last;
  }

pub record_time-IsRecorded :
    (rt : Runtime) (s : Store) (old new priced : SwapInfo) (pool : PoolState) (a b : AccountInfo)
    (clock : Clock) (new_market_price cumulative : Decimal)
    → get_new_market_price rt s old a b clock ≡ ok (priced, new_market_price, cumulative)
    → record_time (record priced { pool_state = pool }) clock cumulative ≡ ok new
    → IsRecorded rt s old new a b clock priced new_market_price × (new.pool_state ≡ pool)
record_time-IsRecorded rt s old new priced pool a b clock new_market_price cumulative em er =
    let t = record_time-IsTimed (record priced { pool_state = pool }) new clock cumulative er in
    let f = get_new_market_price-frame rt s old priced a b clock new_market_price cumulative em in
    let same_ticks = ap (λ (x : SwapInfo). x.cumulative_ticks) f in
    let same_stamp = ap (λ (x : SwapInfo). x.block_timestamp_last) f in
    (
      record {
        now = t.now;
        timed = t.timed;
        cumulative = cumulative;
        market = em;
        ticks = omega (arith, t.ticks, same_ticks, same_stamp);
        stamp = t.stamp;
        price = t.price;
        frame =
            t.frame
            ∙ ap
                (λ (x : SwapInfo). record x {
                  pool_state = pool;
                  cumulative_ticks = new.cumulative_ticks;
                  block_timestamp_last = new.block_timestamp_last;
                  base_price_cumulative_last = new.base_price_cumulative_last;
                })
                f
            ∙ ap
                (λ (x : PoolState). record old {
                  pool_state = x;
                  cumulative_ticks = new.cumulative_ticks;
                  block_timestamp_last = new.block_timestamp_last;
                  base_price_cumulative_last = new.base_price_cumulative_last;
                })
                (sym t.pool);
      },
      t.pool,
    )

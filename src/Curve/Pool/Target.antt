-- ===== src/Curve/Pool/Target.antt =====
-- `adjust_target`: the regression targets against the reserves.
use deltafi_contracts.Prelude.{◌≤◌, ◌≡◌, arith}
use deltafi_contracts.Outcome.{ok, ◌>>=◌}
use deltafi_contracts.Math.Decimal.Laws.{try_sub-ok}
use deltafi_contracts.Curve.Calc.Bounds.{get_target_reserve-le}
use deltafi_contracts.Curve.Pool.{Multiplier, one, above_one, below_one, PoolState, adjust_target}

-- The reserve that stands above its target: both at a multiplier of one.
abbrev pub Surplus : Multiplier → PoolState → Type 0
Surplus one s = (s.base_target ≤ s.base_reserve) × (s.quote_target ≤ s.quote_reserve)
Surplus below_one s = s.base_target ≤ s.base_reserve
Surplus above_one s = s.quote_target ≤ s.quote_reserve

-- The reserve that stands below its target.
abbrev pub Deficit : Multiplier → PoolState → Type 0
Deficit one s = Unit
Deficit below_one s = s.quote_reserve ≤ s.quote_target
Deficit above_one s = s.base_reserve ≤ s.base_target

abbrev pub HasSurplus : PoolState → Type 0
HasSurplus s = Surplus s.multiplier s

abbrev pub HasDeficit : PoolState → Type 0
HasDeficit s = Deficit s.multiplier s

pub Surplus-one : (m : Multiplier) (s : PoolState) → Surplus one s → Surplus m s
Surplus-one one s h = h
Surplus-one below_one s h = h.0
Surplus-one above_one s h = h.1

pub Surplus-map :
    (m : Multiplier) (s s' : PoolState)
    → (s.base_target ≤ s.base_reserve → s'.base_target ≤ s'.base_reserve)
    → (s.quote_target ≤ s.quote_reserve → s'.quote_target ≤ s'.quote_reserve)
    → Surplus m s
    → Surplus m s'
Surplus-map one s s' f g h = (f h.0, g h.1)
Surplus-map below_one s s' f g h = f h
Surplus-map above_one s s' f g h = g h

-- After a successful `adjust_target` the surplus side of the pool stands at or above its target and the
-- other side at or below it; of a pool at a multiplier of one, which is left as it is, this is assumed
-- before.
pub adjust_target-HasSurplus :
    (s s' : PoolState)
    → (s.multiplier ≡ one → Surplus one s)
    → adjust_target s ≡ ok s'
    → HasSurplus s' × HasDeficit s'
unfolding adjust_target ◌>>=◌
adjust_target-HasSurplus s s' h e = grind (arith, get_target_reserve-le, try_sub-ok)

-- A pool that `adjust_target` returned is left as it is by a second `adjust_target`.
pub adjust_target_idem : (s s' : PoolState) → adjust_target s ≡ ok s' → adjust_target s' ≡ ok s'
unfolding adjust_target ◌>>=◌
adjust_target_idem s s' e = ground arith

-- ===== src/Curve.antt =====
-- curve/: the pricing functions (calc.rs) and the pool that trades by them (pool.rs).
pub mod Calc
pub mod Pool

-- ===== src/Math.antt =====
-- math/mod.rs: the constants of the fixed-point arithmetic, and the checked operations of Rust's
-- unsigned integers and of `construct_uint!` at `w` bits. A word is its number; that it is below
-- `2 ^ w` is an invariant, which every operation keeps.
pub mod Decimal
pub mod Sqrt
pub mod Checked

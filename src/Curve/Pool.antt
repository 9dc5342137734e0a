-- ===== src/Curve/Pool.antt =====
-- curve/pool.rs: the pool of a base and a quote token. A method that takes `&mut self` returns the
-- new state; where it fails its caller fails, and nothing of the old state is written back.
mod Reserves
mod Trade
mod Shares
unfoldable pub use Reserves.*
unfoldable pub use Trade.*
unfoldable pub use Shares.*
pub mod Payout
pub mod Withdraw
pub mod Issue
pub mod Deposit
pub mod Offer
pub mod RoundTrip
pub mod Packing
pub mod Target

-- ===== src/State.antt =====
-- state/: the accounts of the program, and the bytes that they are stored in.
pub mod Fees
pub mod Rewards
pub mod Position
pub mod Liquidity
pub mod Config
pub mod Swap
pub mod Pack

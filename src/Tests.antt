-- ===== src/Tests.antt =====
-- Runs of the code on concrete values, and the theorems at them.
mod Accounts
mod Samples
mod Pool
mod State
mod Codec
mod Runs
mod Processor

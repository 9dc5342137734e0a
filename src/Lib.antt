-- ===== src/Lib.antt =====
-- The DeltaFi swap program: a proactive market maker for a pair of tokens on Solana, with rewards for
-- traders and liquidity providers.
--
-- The parts and how they meet. A pool (src/curve/pool.rs) holds the reserves of a base and a quote token
-- and the regression targets of both; it prices a trade by the curve of src/curve/calc.rs, which
-- computes with the decimals of src/math/decimal.rs and the square root of src/math/approximations.rs.
-- The states of src/state are what the accounts hold: the swap with its pool, fees and rewards, the
-- configuration, and a provider with its positions. Instructions (src/instruction.rs) come as bytes and
-- are dispatched to the handlers of src/processor.rs and src/admin.rs.
--
-- Which file models which part:
--   Outcome          src/error.rs: SwapError, and the result of an instruction: a value, an error or a panic
--   Math.Checked     the constants of src/math/mod.rs and the checked operations of a w-bit integer
--   Math.Decimal     src/math/decimal.rs: a decimal is its raw 192-bit number, WAD = 10^9 for one
--   Math.Sqrt        src/math/approximations.rs: sqrt at u128
--   Curve.Calc       src/curve/calc.rs: get_target_amount, its reverse direction, get_target_reserve
--   Curve.Pool       src/curve/pool.rs: PoolState and its targets (Reserves), sales (Trade), deposits and
--                    withdrawals (Shares), and the Pack instance (Packing)
--   State.Fees, State.Rewards, State.Config, State.Swap
--                    the files of src/state of these names, with their Pack instances
--   State.Position   src/state/liquidity.rs: LiquidityPosition
--   State.Liquidity  src/state/liquidity.rs: LiquidityProvider; State.Liquidity.Packing is its Pack instance
--   Bytes            to_le_bytes and from_le_bytes, slices, and the booleans of src/state/mod.rs
--   Instruction      src/instruction.rs: tags, readers, unpack and pack of both instruction sets; the functions
--                    that build an instruction for a client are in Instruction.Client
--   State.Pack       the Pack instances of src/state as records
--   Runtime          accounts, the clock, token accounts and mints, and what the program takes from outside;
--                    Runtime.Accounts: the helpers of src/processor.rs on accounts
--   Admin            src/admin.rs: the handlers of the admin instructions
--   Processor        src/processor.rs: process and, in children named for the handlers, process_swap (Swap
--                    and Trade), process_deposit, process_withdraw, process_initialize, the accounts of
--                    providers (Liquidity) and the market price (Oracle)
--                    Payments lists the calls of the token program that a swap, a deposit and a withdrawal
--                    make, and Runtime.Accounts.Calls says what it is to run such a list
--   Prelude          Boolean tests, lists measured by native numbers, i64, division
--   Tests            runs on sample values
--
-- How code becomes definitions. A method that takes `&mut self` returns the new state; an instruction
-- that fails or panics is rolled back, so a failing step returns no state. The operator `?` is the bind
-- of `Result`. Unsigned integers are native numbers, and every checked operation compares with 2^w where
-- the source does; i64 is a pair of constructors with its range checked. A reference into a vector is an
-- index. A key is the number that its 32 bytes spell. The packers put a field in front of the bytes that
-- follow it; array_ref! out of range and unwrap are the result `panicked`.
--
-- Fuel. A round of the square root's loop divides a power of four by four, and 64 rounds bring any power
-- of four below 2^128 to zero; the loop runs on 65.
--
-- Accounts. An account is its key, and a store gives what each key holds, so two accounts of an instruction
-- with one key share what they hold. A handler takes its accounts from the list first; then come its
-- checks, its amounts, what it saves and its calls of the token program, in the order of the source. A
-- call gives the store that it leaves, or fails. Arithmetic of u64 that the source leaves unchecked wraps
-- around, as in a release build. The guards of the RefCell borrows are not modelled: no handler holds one
-- over another.
--
-- Parameters. The keys of the sysvars and of the token program, in the client's instructions; and the record
-- `Runtime`: the iterator of accounts, the clock and the rent, program addresses, `unpack`,
-- `unpack_unchecked` and `pack` of solana_program, the token accounts and mints of spl_token, the cast of a
-- price account, and the calls of the token program. `IsRuntime` is what is relied on: accounts come in
-- order, and a value is unpacked from initialized data of its packed length and packed into such data, by
-- the type's own reader and writer. `KeepsOthers`: a call changes no account that the called program does
-- not own. `IsUnpackUnchecked`: `unpack_unchecked` unpacks data of the packed length by the type's reader.
--
-- Not modelled: src/math/rate.rs, which nothing else uses; _get_pyth_product_quote_currency of
-- src/processor.rs, which nothing calls; the bytes of the price account in src/pyth.rs, which are cast; the
-- entry point; printing; the TypeScript client, the simulation and the tests.
pub mod Admin
pub mod Bytes
pub mod Curve
pub mod Instruction
pub mod Math
pub mod Outcome
pub mod Prelude
pub mod Processor
pub mod Runtime
pub mod State
pub mod Tests

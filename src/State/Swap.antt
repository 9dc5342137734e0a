-- ===== src/State/Swap.antt =====
-- state/swap.rs: the state of a swap, and its packed form of 461 bytes.
pub mod Packing
use deltafi_contracts.Prelude.{ℕ, Bool}
use deltafi_contracts.Outcome.{Result, ok, unwrap, ◌>>=◌}
use deltafi_contracts.Bytes.{Bytes, put_le, take_le, put_bool, take_bool, array_ref}
use deltafi_contracts.Math.Decimal.{Decimal}
use deltafi_contracts.Curve.Pool
use deltafi_contracts.Curve.Pool.Packing as PoolPacking
use deltafi_contracts.Curve.Pool.Packing.{pack_decimal, unpack_decimal}
use deltafi_contracts.State.Fees
use deltafi_contracts.State.Fees.Packing as FeesPacking
use deltafi_contracts.State.Rewards
use deltafi_contracts.State.Rewards.Packing as RewardsPacking
use deltafi_contracts.State.Position.{Pubkey}

pub record SwapInfo : Type 0 where
  pub is_initialized : Bool
  pub is_paused : Bool
  pub nonce : ℕ
  pub token_a : Pubkey
  pub token_b : Pubkey
  pub pool_mint : Pubkey
  pub token_a_mint : Pubkey
  pub token_b_mint : Pubkey
  pub admin_fee_key_a : Pubkey
  pub admin_fee_key_b : Pubkey
  pub fees : Fees.Fees
  pub rewards : Rewards.Rewards
  pub pool_state : Pool.PoolState
  pub is_open_twap : Bool
  pub block_timestamp_last : ℕ
  pub cumulative_ticks : ℕ
  pub base_price_cumulative_last : Decimal

abbrev pub swap_info_size : ℕ
swap_info_size = 461

unfoldable pub pack_into_slice : SwapInfo → Bytes → Result Bytes
pack_into_slice s rest = do
  output ← pack_decimal s.base_price_cumulative_last rest
  output ← PoolPacking.pack_into_slice s.pool_state (
      put_bool s.is_open_twap
        (put_le 8 s.block_timestamp_last (put_le 8 s.cumulative_ticks output)))
  ok (
      put_bool s.is_initialized (
        put_bool s.is_paused (
          put_le 1 s.nonce (
            put_le 32 s.token_a (
              put_le 32 s.token_b (
                put_le 32 s.pool_mint (
                  put_le 32 s.token_a_mint (
                    put_le 32 s.token_b_mint (
                      put_le 32 s.admin_fee_key_a (
                        put_le 32 s.admin_fee_key_b (
                          FeesPacking.pack_into_slice s.fees
                            (RewardsPacking.pack_into_slice s.rewards output))))))))))))

unfoldable pub unpack_from_slice : Bytes → Result (SwapInfo × Bytes)
unpack_from_slice input = array_ref swap_info_size input do
  (initialized, input) ← take_bool input
  (paused, input) ← take_bool input
  (nonce', input) ← unwrap (take_le 1 input)
  (a, input) ← unwrap (take_le 32 input)
  (b, input) ← unwrap (take_le 32 input)
  (mint, input) ← unwrap (take_le 32 input)
  (a_mint, input) ← unwrap (take_le 32 input)
  (b_mint, input) ← unwrap (take_le 32 input)
  (fee_a, input) ← unwrap (take_le 32 input)
  (fee_b, input) ← unwrap (take_le 32 input)
  (fees', input) ← FeesPacking.unpack_from_slice input
  (rewards', input) ← RewardsPacking.unpack_from_slice input
  (pool, input) ← PoolPacking.unpack_from_slice input
  (open_twap, input) ← take_bool input
  (timestamp, input) ← unwrap (take_le 8 input)
  (ticks, input) ← unwrap (take_le 8 input)
  (price, input) ← unpack_decimal input
  ok (
    record {
      is_initialized = initialized;
      is_paused = paused;
      nonce = nonce';
      token_a = a;
      token_b = b;
      pool_mint = mint;
      token_a_mint = a_mint;
      token_b_mint = b_mint;
      admin_fee_key_a = fee_a;
      admin_fee_key_b = fee_b;
      fees = fees';
      rewards = rewards';
      pool_state = pool;
      is_open_twap = open_twap;
      block_timestamp_last = timestamp;
      cumulative_ticks = ticks;
      base_price_cumulative_last = price;
    },
    input,
  )

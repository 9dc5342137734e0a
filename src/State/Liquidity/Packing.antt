-- ===== src/State/Liquidity/Packing.antt =====
-- state/liquidity.rs: `Pack for LiquidityProvider`: one byte, the owner, the number of positions and
-- 800 bytes for ten positions of 80 bytes each. The bytes behind the last position keep what the
-- buffer held before. A slice that is out of range panics.
pub mod RoundTrip
use deltafi_contracts.Prelude.{
  ℕ, zero, suc, Bool, Option, none, some, List, [], ◌∷◌, ltb, if◌then◌else◌, length, take, drop,
}
use deltafi_contracts.Outcome.{Result, ok, panicked, unwrap, ◌>>=◌}
use deltafi_contracts.Math.Checked.{try_from}
use deltafi_contracts.Bytes.{
  Bytes, put_le, take_le, put_bool, take_bool, from_i64, to_i64, array_ref,
}
use deltafi_contracts.State.Position.{LiquidityPosition}
use deltafi_contracts.State.Liquidity.{LiquidityProvider}

abbrev pub liquidity_position_size : ℕ
liquidity_position_size = 80

abbrev pub liquidity_provider_size : ℕ
liquidity_provider_size = 834

abbrev pub data_size : ℕ
data_size = 800

unfoldable pub put_position : LiquidityPosition → Bytes → Bytes
put_position p rest = put_le 32 p.pool (
    put_le 8 p.liquidity_amount (
      put_le 8 p.rewards_owed (
        put_le 8 p.rewards_estimated (
          put_le 8 p.cumulative_interest
            (put_le 8 (from_i64 p.last_update_ts) (put_le 8 (from_i64 p.next_claim_ts) rest))))))

-- The loop over the positions, on the part of `data_flat` from `offset` on.
unfoldable pub put_positions : List LiquidityPosition → Bytes → Result Bytes
put_positions [] flat = ok flat
put_positions (p ∷ ps) flat =
    array_ref liquidity_position_size flat
      do more ← put_positions ps (drop liquidity_position_size flat); ok (put_position p more)

-- `data_flat` is what the buffer held there.
unfoldable pub pack_into_slice : LiquidityProvider → Bytes → Result Bytes
pack_into_slice provider data_flat = do
  positions_len ← unwrap (try_from 8 (length provider.positions))
  flat ← put_positions provider.positions data_flat
  ok (put_bool provider.is_initialized (put_le 32 provider.owner (put_le 1 positions_len flat)))

unfoldable pub take_position : Bytes → Result (LiquidityPosition × Bytes)
take_position input = do
  (key, input) ← unwrap (take_le 32 input)
  (liquidity, input) ← unwrap (take_le 8 input)
  (owed, input) ← unwrap (take_le 8 input)
  (estimated, input) ← unwrap (take_le 8 input)
  (interest, input) ← unwrap (take_le 8 input)
  (update_ts, input) ← unwrap (take_le 8 input)
  (claim_ts, input) ← unwrap (take_le 8 input)
  ok (
    record {
      pool = key;
      liquidity_amount = liquidity;
      rewards_owed = owed;
      rewards_estimated = estimated;
      cumulative_interest = interest;
      last_update_ts = to_i64 update_ts;
      next_claim_ts = to_i64 claim_ts;
    },
    input,
  )

unfoldable pub take_positions : ℕ → Bytes → Result (List LiquidityPosition)
take_positions zero flat = ok []
take_positions (suc n) flat = do
  (p, flat) ← take_position flat
  ps ← take_positions n flat
  ok (p ∷ ps)

unfoldable pub unpack_from_slice : Bytes → Result LiquidityProvider
unpack_from_slice input = array_ref liquidity_provider_size input do
  (initialized, input) ← take_bool input
  (owner', input) ← unwrap (take_le 32 input)
  (positions_len, input) ← unwrap (take_le 1 input)
  positions' ← take_positions positions_len (take data_size input)
  ok (record { is_initialized = initialized; owner = owner'; positions = positions' })

-- ===== src/State/Rewards/Packing.antt =====
-- state/rewards.rs: `Pack for Rewards`, five u64 in 40 bytes.
use deltafi_contracts.Prelude.{◌+◌, ◌<◌, ◌^◌, ◌≡◌, ◌∙◌, length, arith}
use deltafi_contracts.Outcome.{Result, ok, unwrap, ◌>>=◌}
use deltafi_contracts.Bytes.{Bytes, put_le, take_le, unwrap-take_le, length-put_le}
use deltafi_contracts.State.Rewards.{Rewards}

unfoldable pub pack_into_slice : Rewards → Bytes → Bytes
pack_into_slice r rest = put_le 8 r.trade_reward_numerator (
    put_le 8 r.trade_reward_denominator (
      put_le 8 r.trade_reward_cap
        (put_le 8 r.liquidity_reward_numerator (put_le 8 r.liquidity_reward_denominator rest))))

unfoldable pub unpack_from_slice : Bytes → Result (Rewards × Bytes)
unpack_from_slice input = do
  (trade_numerator, input) ← unwrap (take_le 8 input)
  (trade_denominator, input) ← unwrap (take_le 8 input)
  (cap, input) ← unwrap (take_le 8 input)
  (liquidity_numerator, input) ← unwrap (take_le 8 input)
  (liquidity_denominator, input) ← unwrap (take_le 8 input)
  ok (
    record {
      trade_reward_numerator = trade_numerator;
      trade_reward_denominator = trade_denominator;
      trade_reward_cap = cap;
      liquidity_reward_numerator = liquidity_numerator;
      liquidity_reward_denominator = liquidity_denominator;
    },
    input,
  )

-- The fields are u64.
pub record IsRewards (r : Rewards) : Type 0 where
  pub trade_numerator : r.trade_reward_numerator < 256 ^ 8
  pub trade_denominator : r.trade_reward_denominator < 256 ^ 8
  pub cap : r.trade_reward_cap < 256 ^ 8
  pub liquidity_numerator : r.liquidity_reward_numerator < 256 ^ 8
  pub liquidity_denominator : r.liquidity_reward_denominator < 256 ^ 8

-- Rewards of u64 fields are read back as they were packed, whatever bytes follow.
pub rewards_unpack-pack :
    (r : Rewards) (rest : Bytes)
    → IsRewards r
    → unpack_from_slice (pack_into_slice r rest) ≡ ok (r, rest)
unfolding unpack_from_slice pack_into_slice
rewards_unpack-pack r rest h =
    unwrap-take_le 8 _ h.trade_numerator
    ∙ unwrap-take_le 8 _ h.trade_denominator
    ∙ unwrap-take_le 8 _ h.cap
    ∙ unwrap-take_le 8 _ h.liquidity_numerator
    ∙ unwrap-take_le 8 _ h.liquidity_denominator

pub length-pack_into_slice :
    (r : Rewards) (rest : Bytes) → length (pack_into_slice r rest) ≡ 40 + length rest
unfolding pack_into_slice
length-pack_into_slice r rest = simp length-put_le (omega arith)

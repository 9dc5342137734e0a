-- ===== src/State/Swap/Packing.antt =====
-- The packed state of a swap is read back.
use deltafi_contracts.Prelude.{◌+◌, ◌<◌, ◌≤◌, ◌^◌, ◌≡◌, ◌∙◌, length, arith}
use deltafi_contracts.Outcome.{ok, >>=-ok}
use deltafi_contracts.Bytes.{
  Bytes, put_le, put_bool, unwrap-take_le, length-put_le, take_bool-put_bool, array_ref-enough,
}
use deltafi_contracts.Curve.Pool.Packing.{
  IsPackable, pack_decimal-lt, pack_decimal, unpack_decimal-pack_decimal, length-pack_decimal,
}
use deltafi_contracts.Curve.Pool.Packing as Pool
use deltafi_contracts.State.Fees.Packing.{IsFees}
use deltafi_contracts.State.Fees.Packing as Fees
use deltafi_contracts.State.Rewards.Packing.{IsRewards}
use deltafi_contracts.State.Rewards.Packing as Rewards
use deltafi_contracts.State.Swap.{SwapInfo, pack_into_slice, unpack_from_slice}

-- The fields are of the widths that they are stored in.
pub record IsSwapInfo (s : SwapInfo) : Type 0 where
  pub nonce : s.nonce < 256 ^ 1
  pub token_a : s.token_a < 256 ^ 32
  pub token_b : s.token_b < 256 ^ 32
  pub pool_mint : s.pool_mint < 256 ^ 32
  pub token_a_mint : s.token_a_mint < 256 ^ 32
  pub token_b_mint : s.token_b_mint < 256 ^ 32
  pub admin_fee_key_a : s.admin_fee_key_a < 256 ^ 32
  pub admin_fee_key_b : s.admin_fee_key_b < 256 ^ 32
  pub fees : IsFees s.fees
  pub rewards : IsRewards s.rewards
  pub block_timestamp_last : s.block_timestamp_last < 256 ^ 8
  pub cumulative_ticks : s.cumulative_ticks < 256 ^ 8
  pub pool_state : IsPackable s.pool_state
  pub base_price_cumulative_last : s.base_price_cumulative_last < 256 ^ 16

-- The bytes in front of the packed pool.
head_bytes : SwapInfo → Bytes → Bytes
head_bytes s output = put_bool s.is_initialized (
    put_bool s.is_paused (
      put_le 1 s.nonce (
        put_le 32 s.token_a (
          put_le 32 s.token_b (
            put_le 32 s.pool_mint (
              put_le 32 s.token_a_mint (
                put_le 32 s.token_b_mint (
                  put_le 32 s.admin_fee_key_a (
                    put_le 32 s.admin_fee_key_b (
                      Fees.pack_into_slice s.fees
                        (Rewards.pack_into_slice s.rewards output)))))))))))

length-head_bytes :
    (s : SwapInfo) (output : Bytes) → length (head_bytes s output) ≡ 331 + length output
unfolding head_bytes
length-head_bytes s output =
    simp (length-put_le, Fees.length-pack_into_slice, Rewards.length-pack_into_slice) (omega arith)

length-tail :
    (s : SwapInfo) (output : Bytes)
    → length (
        put_bool s.is_open_twap
          (put_le 8 s.block_timestamp_last (put_le 8 s.cumulative_ticks output)))
      ≡ 17 + length output
length-tail s output = simp length-put_le (omega arith)

unpack_head :
    (s : SwapInfo) (rest price pool : Bytes)
    → IsSwapInfo s
    → pack_decimal s.base_price_cumulative_last rest ≡ ok price
    → Pool.unpack_from_slice pool
      ≡ ok (
        s.pool_state,
        put_bool s.is_open_twap
            (put_le 8 s.block_timestamp_last (put_le 8 s.cumulative_ticks price)),
      )
    → 461 ≤ length (head_bytes s pool)
    → unpack_from_slice (head_bytes s pool) ≡ ok (s, rest)
unfolding unpack_from_slice head_bytes
unpack_head s rest price pool h e_price e_pool long =
    array_ref-enough 461 (head_bytes s pool) _ long
    ∙ take_bool-put_bool s.is_initialized _
    ∙ take_bool-put_bool s.is_paused _
    ∙ unwrap-take_le 1 _ h.nonce
    ∙ unwrap-take_le 32 _ h.token_a
    ∙ unwrap-take_le 32 _ h.token_b
    ∙ unwrap-take_le 32 _ h.pool_mint
    ∙ unwrap-take_le 32 _ h.token_a_mint
    ∙ unwrap-take_le 32 _ h.token_b_mint
    ∙ unwrap-take_le 32 _ h.admin_fee_key_a
    ∙ unwrap-take_le 32 _ h.admin_fee_key_b
    ∙ >>=-ok _ _ (Fees.fees_unpack-pack s.fees _ h.fees)
    ∙ >>=-ok _ _ (Rewards.rewards_unpack-pack s.rewards _ h.rewards)
    ∙ >>=-ok _ _ e_pool
    ∙ take_bool-put_bool s.is_open_twap _
    ∙ unwrap-take_le 8 _ h.block_timestamp_last
    ∙ unwrap-take_le 8 _ h.cumulative_ticks
    ∙ unpack_decimal-pack_decimal s.base_price_cumulative_last rest price _ e_price

-- A swap whose fields are of their widths packs without a panic into 461 bytes, and is read back as it
-- was, whatever bytes follow.
pub swap_info_unpack-pack :
    (s : SwapInfo) (rest : Bytes)
    → IsSwapInfo s
    → (output : Bytes) × (pack_into_slice s rest ≡ ok output)
      × (unpack_from_slice output ≡ ok (s, rest))
      × (length output ≡ 461 + length rest)
unfolding pack_into_slice head_bytes
swap_info_unpack-pack s rest h =
    let price = put_le 16 s.base_price_cumulative_last rest in
    let e_price = pack_decimal-lt s.base_price_cumulative_last rest h.base_price_cumulative_last in
    let tail =
      put_bool s.is_open_twap
        (put_le 8 s.block_timestamp_last (put_le 8 s.cumulative_ticks price)) in
    let (pool, e_pool, back, pool_size) = Pool.pool_unpack-pack s.pool_state tail h.pool_state in
    let size : length (head_bytes s pool) ≡ 461 + length rest = omega (
      arith,
      length-head_bytes s pool,
      length-tail s price,
      length-pack_decimal s.base_price_cumulative_last rest price e_price,
    ) in
    (
      head_bytes s pool,
      >>=-ok _ _ e_price ∙ >>=-ok _ _ e_pool,
      unpack_head s rest price pool h e_price back (omega arith),
      size,
    )

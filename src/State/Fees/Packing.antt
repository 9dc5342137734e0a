-- ===== src/State/Fees/Packing.antt =====
-- state/fees.rs: `Pack for Fees`, eight u64 in 64 bytes. A value is packed in front of the bytes
-- that follow it in the buffer, and unpacked with the bytes that follow it; a buffer that is too
-- short makes array_ref! panic.
use deltafi_contracts.Prelude.{◌+◌, ◌<◌, ◌^◌, ◌≡◌, ◌∙◌, length, arith}
use deltafi_contracts.Outcome.{Result, ok, unwrap, ◌>>=◌}
use deltafi_contracts.Bytes.{Bytes, put_le, take_le, unwrap-take_le, length-put_le}
use deltafi_contracts.State.Fees.{Fees}

unfoldable pub pack_into_slice : Fees → Bytes → Bytes
pack_into_slice f rest = put_le 8 f.admin_trade_fee_numerator (
    put_le 8 f.admin_trade_fee_denominator (
      put_le 8 f.admin_withdraw_fee_numerator (
        put_le 8 f.admin_withdraw_fee_denominator (
          put_le 8 f.trade_fee_numerator (
            put_le 8 f.trade_fee_denominator
              (put_le 8 f.withdraw_fee_numerator (put_le 8 f.withdraw_fee_denominator rest)))))))

unfoldable pub unpack_from_slice : Bytes → Result (Fees × Bytes)
unpack_from_slice input = do
  (admin_trade_numerator, input) ← unwrap (take_le 8 input)
  (admin_trade_denominator, input) ← unwrap (take_le 8 input)
  (admin_withdraw_numerator, input) ← unwrap (take_le 8 input)
  (admin_withdraw_denominator, input) ← unwrap (take_le 8 input)
  (trade_numerator, input) ← unwrap (take_le 8 input)
  (trade_denominator, input) ← unwrap (take_le 8 input)
  (withdraw_numerator, input) ← unwrap (take_le 8 input)
  (withdraw_denominator, input) ← unwrap (take_le 8 input)
  ok (
    record {
      admin_trade_fee_numerator = admin_trade_numerator;
      admin_trade_fee_denominator = admin_trade_denominator;
      admin_withdraw_fee_numerator = admin_withdraw_numerator;
      admin_withdraw_fee_denominator = admin_withdraw_denominator;
      trade_fee_numerator = trade_numerator;
      trade_fee_denominator = trade_denominator;
      withdraw_fee_numerator = withdraw_numerator;
      withdraw_fee_denominator = withdraw_denominator;
    },
    input,
  )

-- The fields are u64.
pub record IsFees (f : Fees) : Type 0 where
  pub admin_trade_numerator : f.admin_trade_fee_numerator < 256 ^ 8
  pub admin_trade_denominator : f.admin_trade_fee_denominator < 256 ^ 8
  pub admin_withdraw_numerator : f.admin_withdraw_fee_numerator < 256 ^ 8
  pub admin_withdraw_denominator : f.admin_withdraw_fee_denominator < 256 ^ 8
  pub trade_numerator : f.trade_fee_numerator < 256 ^ 8
  pub trade_denominator : f.trade_fee_denominator < 256 ^ 8
  pub withdraw_numerator : f.withdraw_fee_numerator < 256 ^ 8
  pub withdraw_denominator : f.withdraw_fee_denominator < 256 ^ 8

-- Fees of u64 fields are read back as they were packed, whatever bytes follow.
pub fees_unpack-pack :
    (f : Fees) (rest : Bytes) → IsFees f → unpack_from_slice (pack_into_slice f rest) ≡ ok (f, rest)
unfolding unpack_from_slice pack_into_slice
fees_unpack-pack f rest h =
    unwrap-take_le 8 _ h.admin_trade_numerator
    ∙ unwrap-take_le 8 _ h.admin_trade_denominator
    ∙ unwrap-take_le 8 _ h.admin_withdraw_numerator
    ∙ unwrap-take_le 8 _ h.admin_withdraw_denominator
    ∙ unwrap-take_le 8 _ h.trade_numerator
    ∙ unwrap-take_le 8 _ h.trade_denominator
    ∙ unwrap-take_le 8 _ h.withdraw_numerator
    ∙ unwrap-take_le 8 _ h.withdraw_denominator

pub length-pack_into_slice :
    (f : Fees) (rest : Bytes) → length (pack_into_slice f rest) ≡ 64 + length rest
unfolding pack_into_slice
length-pack_into_slice f rest = simp length-put_le (omega arith)

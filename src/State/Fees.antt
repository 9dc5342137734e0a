-- ===== src/State/Fees.antt =====
-- state/fees.rs: the fee rates and the fees that they give. All amounts are u64.
pub mod Bounds
pub mod Packing
use deltafi_contracts.Prelude.{ℕ}
use deltafi_contracts.Outcome.{Result, ok_or, ◌>>=◌, calculation_failure}
use deltafi_contracts.Math.Checked.{checked_mul, checked_div}

pub record Fees : Type 0 where
  pub admin_trade_fee_numerator : ℕ
  pub admin_trade_fee_denominator : ℕ
  pub admin_withdraw_fee_numerator : ℕ
  pub admin_withdraw_fee_denominator : ℕ
  pub trade_fee_numerator : ℕ
  pub trade_fee_denominator : ℕ
  pub withdraw_fee_numerator : ℕ
  pub withdraw_fee_denominator : ℕ

-- `Fees::new`, which copies field by field.
abbrev pub new : Fees → Fees
new params = record {
  admin_trade_fee_numerator = params.admin_trade_fee_numerator;
  admin_trade_fee_denominator = params.admin_trade_fee_denominator;
  admin_withdraw_fee_numerator = params.admin_withdraw_fee_numerator;
  admin_withdraw_fee_denominator = params.admin_withdraw_fee_denominator;
  trade_fee_numerator = params.trade_fee_numerator;
  trade_fee_denominator = params.trade_fee_denominator;
  withdraw_fee_numerator = params.withdraw_fee_numerator;
  withdraw_fee_denominator = params.withdraw_fee_denominator;
}

unfoldable pub admin_trade_fee : Fees → ℕ → Result ℕ
admin_trade_fee fees fee_amount = do
  product ← ok_or (checked_mul 64 fee_amount fees.admin_trade_fee_numerator) calculation_failure
  ok_or (checked_div product fees.admin_trade_fee_denominator) calculation_failure

unfoldable pub admin_withdraw_fee : Fees → ℕ → Result ℕ
admin_withdraw_fee fees fee_amount = do
  product ← ok_or (checked_mul 64 fee_amount fees.admin_withdraw_fee_numerator) calculation_failure
  ok_or (checked_div product fees.admin_withdraw_fee_denominator) calculation_failure

unfoldable pub trade_fee : Fees → ℕ → Result ℕ
trade_fee fees trade_amount = do
  product ← ok_or (checked_mul 64 trade_amount fees.trade_fee_numerator) calculation_failure
  ok_or (checked_div product fees.trade_fee_denominator) calculation_failure

unfoldable pub withdraw_fee : Fees → ℕ → Result ℕ
withdraw_fee fees withdraw_amount = do
  product ← ok_or (checked_mul 64 withdraw_amount fees.withdraw_fee_numerator) calculation_failure
  ok_or (checked_div product fees.withdraw_fee_denominator) calculation_failure

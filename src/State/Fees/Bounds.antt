-- ===== src/State/Fees/Bounds.antt =====
-- The fees against the amounts that they are taken from.
use deltafi_contracts.Prelude.{ℕ, ◌*◌, ◌/◌, ◌≤◌, ◌<◌, ◌≡◌, arith}
use native.Mathlib.Nat.{mul-le-mul_left}
use deltafi_contracts.Prelude.Division.{div-le_of_le-mul}
use deltafi_contracts.Outcome.{ok, ◌>>=◌}
use deltafi_contracts.State.Fees.{
  Fees, admin_trade_fee, admin_withdraw_fee, trade_fee, withdraw_fee,
}

-- No rate is above one.
pub record IsFraction (fees : Fees) : Type 0 where
  pub admin_trade : fees.admin_trade_fee_numerator ≤ fees.admin_trade_fee_denominator
  pub admin_withdraw : fees.admin_withdraw_fee_numerator ≤ fees.admin_withdraw_fee_denominator
  pub trade : fees.trade_fee_numerator ≤ fees.trade_fee_denominator
  pub withdraw : fees.withdraw_fee_numerator ≤ fees.withdraw_fee_denominator

fraction_le :
    (amount numerator denominator : ℕ)
    → numerator ≤ denominator
    → 0 < denominator
    → amount * numerator / denominator ≤ amount
fraction_le amount n d le pos =
    div-le_of_le-mul (amount * n) d amount pos (mul-le-mul_left amount le)

-- Where no rate is above one, a computed trade fee is at most the amount traded, and the admin's part of
-- that fee at most the fee.
pub trade_fee-le :
    (fees : Fees) (amount fee admin : ℕ)
    → IsFraction fees
    → trade_fee fees amount ≡ ok fee
    → admin_trade_fee fees fee ≡ ok admin
    → (fee ≤ amount) × (admin ≤ fee)
unfolding trade_fee admin_trade_fee ◌>>=◌
trade_fee-le fees amount fee admin h ef ea = grind (arith, fraction_le)

-- Where no rate is above one, a computed withdrawal fee is at most the amount withdrawn, and the admin's
-- part of that fee at most the fee.
pub withdraw_fee-le :
    (fees : Fees) (amount fee admin : ℕ)
    → IsFraction fees
    → withdraw_fee fees amount ≡ ok fee
    → admin_withdraw_fee fees fee ≡ ok admin
    → (fee ≤ amount) × (admin ≤ fee)
unfolding withdraw_fee admin_withdraw_fee ◌>>=◌
withdraw_fee-le fees amount fee admin h ef ea = grind (arith, fraction_le)

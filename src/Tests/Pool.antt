-- ===== src/Tests/Pool.antt =====
-- Trades, deposits and withdrawals at sample pools.
use deltafi_contracts.Prelude.{ℕ, ◌+◌, ◌-◌, ◌*◌, ◌≤◌, ◌<◌, ◌≡◌, ◌↔◌, refl, some, arith}
use deltafi_contracts.Outcome.{ok, ◌>>=◌}
use deltafi_contracts.Math.Checked.{wad}
use deltafi_contracts.Math.Decimal
use deltafi_contracts.Math.Decimal.{
  Decimal, from_u64, try_add, try_sub, try_mul, try_mul_u64, try_div, try_div_u64, try_floor_u64,
  try_floor_u128, try_round_u128, reciprocal,
}
use deltafi_contracts.Math.Sqrt
use deltafi_contracts.Math.Sqrt.{first_bit, bit_length, leading_zeros, round, sqrt_loop}
use deltafi_contracts.Math.Sqrt.Correct.{sqrt-root}
use deltafi_contracts.Curve.Calc.{
  get_target_amount, get_target_amount_reverse_direction, get_target_reserve, adjusted_ratio,
  candidate_reserve, target_reserve_root,
}
use deltafi_contracts.Curve.Pool.{
  one, above_one, below_one, adjust_target, adjust_base_target, adjust_quote_target,
  sell_base_token, sell_base_amount, sell_base_above_one, sell_base_token_with_multiplier,
  sell_quote_token, sell_quote_amount, sell_quote_below_one, sell_quote_token_with_multiplier,
  buy_shares, buy_initial, buy_proportional, sell_shares, share_of, calculate_deposit_amount,
  deposit_amounts,
}
use deltafi_contracts.Curve.Pool.Target.{Surplus}
use deltafi_contracts.Curve.Pool.Payout.{
  base_sold, quote_sold, sell_base_token-solvent, sell_quote_token-solvent,
  sell_base_token-multiplier, sell_quote_token-multiplier,
}
use deltafi_contracts.Curve.Pool.Target.{HasSurplus}
use deltafi_contracts.Curve.Pool.Withdraw.{
  sell_shares-HasSurplus, IsFairPayment, sell_shares-IsFairPayment,
}
use deltafi_contracts.Curve.Pool.Issue.{IsFairIssue}
use deltafi_contracts.Curve.Pool.Deposit.{buy_shares-HasSurplus, buy_shares-IsFairIssue}
use deltafi_contracts.Curve.Pool.RoundTrip.{sell_shares-buy_shares-le}
use deltafi_contracts.Tests.Samples.{balanced, short_of_base, short_of_quote, deposited, withdrawn}

reverse_direction :
    get_target_amount_reverse_direction 2000000000000 2000000000000 10000000000 2000000000 100000000
    ≡ ok 20000000000
unfolding ◌>>=◌ get_target_amount get_target_amount_reverse_direction get_target_reserve
    adjusted_ratio candidate_reserve target_reserve_root try_add try_sub try_mul try_mul_u64 try_div
    try_div_u64 try_floor_u64 try_round_u128 reciprocal Decimal.sqrt Sqrt.sqrt sqrt_loop round
    first_bit bit_length leading_zeros
reverse_direction = refl

target_reserve : get_target_reserve 900000000000 210000000000 500000000 100000000 ≡ ok 900000000000
unfolding ◌>>=◌ get_target_amount get_target_amount_reverse_direction get_target_reserve
    adjusted_ratio candidate_reserve target_reserve_root try_add try_sub try_mul try_mul_u64 try_div
    try_div_u64 try_floor_u64 try_round_u128 reciprocal Decimal.sqrt Sqrt.sqrt sqrt_loop round
    first_bit bit_length leading_zeros
target_reserve = refl

base_for_quote : sell_base_token short_of_base 150 ≡ ok (310, below_one)
unfolding ◌>>=◌ sell_base_token sell_base_amount sell_base_above_one sell_base_token_with_multiplier
    get_target_amount get_target_amount_reverse_direction get_target_reserve adjusted_ratio
    candidate_reserve target_reserve_root try_add try_sub try_mul try_mul_u64 try_div try_div_u64
    try_floor_u64 try_round_u128 reciprocal Decimal.sqrt Sqrt.sqrt sqrt_loop round first_bit
    bit_length leading_zeros
base_for_quote = refl

quote_for_base : sell_quote_token short_of_quote 150 ≡ ok (75, above_one)
unfolding ◌>>=◌ sell_quote_token sell_quote_amount sell_quote_below_one
    sell_quote_token_with_multiplier get_target_amount get_target_amount_reverse_direction
    get_target_reserve adjusted_ratio candidate_reserve target_reserve_root try_add try_sub try_mul
    try_mul_u64 try_div try_div_u64 try_floor_u64 try_round_u128 reciprocal Decimal.sqrt Sqrt.sqrt
    sqrt_loop round first_bit bit_length leading_zeros
quote_for_base = refl

quote_for_base_again : sell_quote_token short_of_base 150 ≡ ok (73, above_one)
unfolding ◌>>=◌ sell_quote_token sell_quote_amount sell_quote_below_one
    sell_quote_token_with_multiplier get_target_amount get_target_amount_reverse_direction
    get_target_reserve adjusted_ratio candidate_reserve target_reserve_root try_add try_sub try_mul
    try_mul_u64 try_div try_div_u64 try_floor_u64 try_round_u128 reciprocal Decimal.sqrt Sqrt.sqrt
    sqrt_loop round first_bit bit_length leading_zeros
quote_for_base_again = refl

-- The premium of the target is lost to the whole-number root: the target is the reserve.
adjusts : adjust_target short_of_base ≡ ok (record short_of_base { base_target = 900000000000 })
unfolding ◌>>=◌ adjust_target adjust_base_target adjust_quote_target get_target_amount
    get_target_amount_reverse_direction get_target_reserve adjusted_ratio candidate_reserve
    target_reserve_root try_add try_sub try_mul try_mul_u64 try_div try_div_u64 try_floor_u64
    try_round_u128 reciprocal Decimal.sqrt Sqrt.sqrt sqrt_loop round first_bit bit_length
    leading_zeros
adjusts = refl

deposits : buy_shares balanced 1100 2300 1000 ≡ ok (deposited, 100)
unfolding ◌>>=◌ buy_shares buy_initial buy_proportional try_add try_sub try_mul try_mul_u64 try_div
    try_div_u64 try_floor_u64 try_round_u128 reciprocal Decimal.sqrt Sqrt.sqrt sqrt_loop round
    first_bit bit_length leading_zeros
deposits = refl

withdraws : sell_shares balanced 100 5 5 1000 ≡ ok (withdrawn, 100, 200)
unfolding ◌>>=◌ sell_shares share_of try_add try_sub try_mul try_mul_u64 try_div try_div_u64
    try_floor_u64 try_round_u128 reciprocal Decimal.sqrt Sqrt.sqrt sqrt_loop round first_bit
    bit_length leading_zeros
withdraws = refl

withdraws_deposit :
    sell_shares deposited 100 5 5 1100
    ≡ ok (record balanced { quote_reserve = 2090909090910 }, 100, 209)
unfolding ◌>>=◌ sell_shares share_of try_add try_sub try_mul try_mul_u64 try_div try_div_u64
    try_floor_u64 try_round_u128 reciprocal Decimal.sqrt Sqrt.sqrt sqrt_loop round first_bit
    bit_length leading_zeros
withdraws_deposit = refl

takes : calculate_deposit_amount balanced 100 300 ≡ ok (100, 200)
unfolding ◌>>=◌ calculate_deposit_amount deposit_amounts try_add try_sub try_mul try_mul_u64 try_div
    try_div_u64 try_floor_u64 try_round_u128 reciprocal Decimal.sqrt Sqrt.sqrt sqrt_loop round
    first_bit bit_length leading_zeros
takes = refl

sqrt-root_example :
    (r : ℕ) × (Sqrt.sqrt 1000 ≡ some r) × (r * r ≤ 1000) × (1000 < (r + 1) * (r + 1))
sqrt-root_example = sqrt-root 1000 (omega arith)

sell_base_token-solvent_example :
    (310 * wad ≤ 2210000000000) × Surplus below_one (base_sold short_of_base 150 300 below_one)
sell_base_token-solvent_example =
    sell_base_token-solvent short_of_base 150 300 310 below_one (omega arith) base_for_quote
      (omega arith)

sell_quote_token-solvent_example :
    (75 * wad ≤ 1050000000000) × Surplus above_one (quote_sold short_of_quote 150 70 above_one)
sell_quote_token-solvent_example =
    sell_quote_token-solvent short_of_quote 150 70 75 above_one (omega arith) quote_for_base
      (omega arith)

sell_base_token-multiplier_example :
    ((below_one ≡ above_one)
      ↔ ((above_one ≡ above_one) × (900000000000 + from_u64 150 < 1000000000000)))
    × ((below_one ≡ one)
        ↔ ((above_one ≡ above_one) × (900000000000 + from_u64 150 ≡ 1000000000000)))
sell_base_token-multiplier_example =
    sell_base_token-multiplier short_of_base 150 310 below_one base_for_quote

sell_quote_token-multiplier_example :
    ((above_one ≡ below_one)
      ↔ ((below_one ≡ below_one) × (1900000000000 + from_u64 150 < 2000000000000)))
    × ((above_one ≡ one)
        ↔ ((below_one ≡ below_one) × (1900000000000 + from_u64 150 ≡ 2000000000000)))
sell_quote_token-multiplier_example =
    sell_quote_token-multiplier short_of_quote 150 75 above_one quote_for_base

buy_shares-IsFairIssue_example : IsFairIssue balanced deposited 1100 2300 1000 100
buy_shares-IsFairIssue_example =
    buy_shares-IsFairIssue balanced deposited 1100 2300 1000 100 deposits

sell_shares-IsFairPayment_example : IsFairPayment balanced withdrawn 100 5 5 1000 100 200
sell_shares-IsFairPayment_example =
    sell_shares-IsFairPayment balanced withdrawn 100 5 5 1000 100 200 withdraws

sell_shares-buy_shares-le_example :
    (100 * wad ≤ from_u64 1100 - 1000000000000) × (209 * wad ≤ from_u64 2300 - 2000000000000)
sell_shares-buy_shares-le_example =
    sell_shares-buy_shares-le balanced deposited (record balanced { quote_reserve = 2090909090910 })
      1100 2300 1000 100 5 5 100 209 (omega arith) deposits withdraws_deposit

buy_shares-HasSurplus_example : HasSurplus deposited × (deposited.multiplier ≡ balanced.multiplier)
buy_shares-HasSurplus_example =
    buy_shares-HasSurplus balanced deposited 1100 2300 1000 100 (omega arith, omega arith) deposits

sell_shares-HasSurplus_example : HasSurplus withdrawn × (withdrawn.multiplier ≡ balanced.multiplier)
sell_shares-HasSurplus_example =
    sell_shares-HasSurplus balanced withdrawn 100 5 5 1000 100 200 (omega arith)
      (omega arith, omega arith) withdraws

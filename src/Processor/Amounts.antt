-- ===== src/Processor/Amounts.antt =====
-- What a swap and a withdrawal move, against the vaults, the pool and the limits that the user sets.
use deltafi_contracts.Prelude.{ℕ, ◌+◌, ◌*◌, ◌≤◌, ◌≡◌, ap, ltb, arith}
use native.Mathlib.Nat.{mul-le-mul_right, le_trans}
use deltafi_contracts.Outcome.{
  ok, ok_or, refuse_if, ◌>>=◌, >>=-ok-elim, ok-injective, exceeded_slippage,
}
use deltafi_contracts.Math.Checked.{wad, checked_sub}
use deltafi_contracts.Curve.Pool.{PoolState, Multiplier, sell_shares}
use deltafi_contracts.Curve.Pool.Target.{HasSurplus}
use deltafi_contracts.Curve.Pool.Payout.{sell_base_token-solvent, sell_quote_token-solvent}
use deltafi_contracts.Curve.Pool.Withdraw.{sell_shares-IsFairPayment}
use deltafi_contracts.State.Fees.{
  Fees, trade_fee, admin_trade_fee, withdraw_fee, admin_withdraw_fee,
}
use deltafi_contracts.State.Fees.Bounds.{IsFraction, trade_fee-le, withdraw_fee-le}
use deltafi_contracts.State.Rewards.{trade_reward_u64}
use deltafi_contracts.State.Swap.{SwapInfo}
use deltafi_contracts.Instruction.Read.{SwapDirection, sell_base, sell_quote}
use deltafi_contracts.Instruction.Swap.{SwapData, WithdrawData}
use deltafi_contracts.Processor.Trade.{SwapAmounts, receive, balances, swap_amounts}
use deltafi_contracts.Processor.Withdraw.{WithdrawAmounts, less_fee, withdraw_amounts}

-- The vault that is paid into grows by the amount that comes in, the other shrinks by the amount that
-- goes out to the user.
abbrev pub IsSettled : SwapDirection → ℕ → ℕ → ℕ → ℕ → ℕ → ℕ → Type 0
IsSettled sell_base a b amount_in amount_out base quote =
    (base ≡ a + amount_in) × (quote + amount_out ≡ b)
IsSettled sell_quote a b amount_in amount_out base quote =
    (base + amount_out ≡ a) × (quote ≡ b + amount_in)

-- The reserve of the token that is paid out.
abbrev pub paid_reserve : SwapDirection → PoolState → ℕ
paid_reserve sell_base s = s.quote_reserve
paid_reserve sell_quote s = s.base_reserve

-- The user gets at least the minimum, and together with what the admin gets that is no more than the pool
-- pays for the amount and than it holds.
pub record IsFairSwap (t : SwapInfo) (state : PoolState) (input : SwapData) (a b : ℕ)
    (r : SwapAmounts) : Type 0 where
  pub paid : ℕ
  pub priced : receive input.swap_direction state input.amount_in ≡ ok (paid, r.multiplier)
  pub enough : input.minimum_amount_out ≤ r.amount_out
  pub shared : r.amount_out + r.admin_fee ≤ paid
  pub covered : (r.amount_out + r.admin_fee) * wad ≤ paid_reserve input.swap_direction state
  pub settled :
      IsSettled input.swap_direction a b input.amount_in r.amount_out r.base_balance r.quote_balance

balances-IsSettled :
    (d : SwapDirection) (a b amount_in amount_out base quote : ℕ)
    → balances d a b amount_in amount_out ≡ ok (base, quote)
    → IsSettled d a b amount_in amount_out base quote
unfolding balances ◌>>=◌
balances-IsSettled sell_base a b i o base quote e = ground arith
balances-IsSettled sell_quote a b i o base quote e = ground arith

receive-le :
    (d : SwapDirection) (s : PoolState) (amount paid : ℕ) (m : Multiplier)
    → HasSurplus s
    → receive d s amount ≡ ok (paid, m)
    → paid * wad ≤ paid_reserve d s
unfolding receive
receive-le sell_base s amount paid m h e =
    (sell_base_token-solvent s amount paid paid m h e (omega arith)).0
receive-le sell_quote s amount paid m h e =
    (sell_quote_token-solvent s amount paid paid m h e (omega arith)).0

-- Where no rate of the swap is above one and the pool's surplus side stands at or above its target, the
-- amounts of a swap that are computed are fair in the sense of `IsFairSwap`.
pub swap_amounts-IsFairSwap :
    (t : SwapInfo) (state : PoolState) (input : SwapData) (a b : ℕ) (r : SwapAmounts)
    → IsFraction t.fees
    → HasSurplus state
    → swap_amounts t state input a b ≡ ok r
    → IsFairSwap t state input a b r
unfolding swap_amounts
swap_amounts-IsFairSwap t state input a b r h surplus e0 =
    >>=-ok-elim (receive input.swap_direction state input.amount_in) _ e0 λ got eg e1.
      >>=-ok-elim (trade_fee t.fees got.0) _ e1 λ fee ef e2.
        >>=-ok-elim (admin_trade_fee t.fees fee) _ e2 λ admin_part ea e3.
          >>=-ok-elim (trade_reward_u64 t.rewards input.amount_in) _ e3 λ reward er e4.
            >>=-ok-elim (ok_or (checked_sub got.0 fee) _) _ e4 λ out eo e5.
              >>=-ok-elim (refuse_if (ltb out input.minimum_amount_out) exceeded_slippage) _ e5
                λ u eu e6.
                  >>=-ok-elim (balances input.swap_direction a b input.amount_in out) _ e6
                    λ left el e7.
                      let (fee_le, admin_le) = trade_fee-le t.fees got.0 fee admin_part h ef ea in
                      let rest : out + fee ≡ got.0 = ground arith in
                      let slip : input.minimum_amount_out ≤ out = ground arith in
                      let pays =
                        receive-le input.swap_direction state input.amount_in got.0 got.1 surplus
                          eg in
                      rw (← ok-injective e7) (record {
                        paid = got.0;
                        priced = eg;
                        enough = slip;
                        shared = omega arith;
                        covered = omega arith;
                        settled =
                            balances-IsSettled input.swap_direction a b input.amount_in out left.0
                              left.1 el;
                      })

-- What a withdrawal pays of one token: the amount that the shares stand for, less what the user pays
-- as a fee; the admin's part is within that fee.
less_fee-le :
    (fees : Fees) (amount out admin : ℕ)
    → IsFraction fees
    → less_fee fees amount ≡ ok (out, admin)
    → out + admin ≤ amount
unfolding less_fee
less_fee-le fees amount out admin h e0 = >>=-ok-elim (withdraw_fee fees amount) _ e0 λ fee ef e1.
    >>=-ok-elim (admin_withdraw_fee fees fee) _ e1 λ part ea e2.
      >>=-ok-elim (ok_or (checked_sub amount fee) _) _ e2 λ left el e3.
        let (fee_le, admin_le) = withdraw_fee-le fees amount fee part h ef ea in
        let rest : left + fee ≡ amount = ground arith in grind arith

-- What leaves the pool pays the user and the admin, of each token, and no more than the shares stand for.
pub record IsFairWithdrawal (state sold : PoolState) (input : WithdrawData) (supply : ℕ)
    (r : WithdrawAmounts) : Type 0 where
  pub base_left :
      sold.base_reserve + (r.base_out_amount + r.admin_fee_base) * wad ≤ state.base_reserve
  pub quote_left :
      sold.quote_reserve + (r.quote_out_amount + r.admin_fee_quote) * wad ≤ state.quote_reserve
  pub base_share :
      (r.base_out_amount + r.admin_fee_base) * wad * supply
      ≤ state.base_reserve * input.pool_token_amount
  pub quote_share :
      (r.quote_out_amount + r.admin_fee_quote) * wad * supply
      ≤ state.quote_reserve * input.pool_token_amount

within :
    (left part whole reserve : ℕ)
    → left + whole * wad ≤ reserve
    → part ≤ whole
    → left + part * wad ≤ reserve
within left part whole reserve le part_le = omega arith

scaled_le :
    (part whole supply bound : ℕ)
    → whole * wad * supply ≤ bound
    → part ≤ whole
    → part * wad * supply ≤ bound
scaled_le part whole supply bound le part_le =
    le_trans (mul-le-mul_right supply (mul-le-mul_right wad part_le)) le

-- Where no rate of the swap is above one, the amounts of a withdrawal that are computed are fair in the
-- sense of `IsFairWithdrawal`.
pub withdraw_amounts-IsFairWithdrawal :
    (t : SwapInfo) (state sold : PoolState) (input : WithdrawData) (supply : ℕ)
    (r : WithdrawAmounts)
    → IsFraction t.fees
    → withdraw_amounts t state input supply ≡ ok (sold, r)
    → IsFairWithdrawal state sold input supply r
unfolding withdraw_amounts
withdraw_amounts-IsFairWithdrawal t state sold input supply r h e0 =
    >>=-ok-elim (sell_shares state _ _ _ supply) _ e0 λ got eg e1.
      >>=-ok-elim (less_fee t.fees got.1) _ e1 λ base eb e2.
        >>=-ok-elim (less_fee t.fees got.2) _ e2 λ quote eq e3.
          let fair = sell_shares-IsFairPayment state got.0 _ _ _ supply got.1 got.2 eg in
          let base_le = less_fee-le t.fees got.1 base.0 base.1 h eb in
          let quote_le = less_fee-le t.fees got.2 quote.0 quote.1 h eq in
          let same = ok-injective e3 in
          rw
            (
              ← ap (λ (x : PoolState × WithdrawAmounts). x.0) same,
              ← ap (λ (x : PoolState × WithdrawAmounts). x.1) same,
            )
            (record {
              base_left = within _ _ _ _ fair.base_left base_le;
              quote_left = within _ _ _ _ fair.quote_left quote_le;
              base_share = scaled_le _ _ _ _ fair.base_pays base_le;
              quote_share = scaled_le _ _ _ _ fair.quote_pays quote_le;
            })

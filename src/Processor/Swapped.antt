-- ===== src/Processor/Swapped.antt =====
-- What a swap that succeeds has checked and leaves behind.
use mathlib.Core.Path.{subst}
use deltafi_contracts.Prelude.{
  ℕ, ◌≡◌, ◌≢◌, sym, ap, ◌∙◌, false, ◌==◌, not, ◌||◌, if◌then◌else◌, arith,
}
use deltafi_contracts.Outcome.{
  ok, err, refuse_if, ok-injective, ◌>>=◌, >>=-ok-elim, incorrect_program_id, is_paused,
}
use deltafi_contracts.Math.Decimal.{Decimal, from_u64}
use deltafi_contracts.Curve.Pool
use deltafi_contracts.Curve.Pool.{
  PoolState, Multiplier, adjust_target, adjust_base_target, adjust_quote_target,
}
use deltafi_contracts.State.Position.{Pubkey}
use deltafi_contracts.State.Config.{ConfigInfo}
use deltafi_contracts.State.Swap.{SwapInfo}
use deltafi_contracts.State.Pack.{config_pack, swap_pack}
use deltafi_contracts.Instruction.Read.{SwapDirection, sell_base, sell_quote}
use deltafi_contracts.Instruction.Swap.{SwapData}
use deltafi_contracts.Runtime.{Runtime, KeepsOthers, AccountInfo, Account, Store, TokenAccount}
use deltafi_contracts.Runtime.Accounts.{load, save}
use deltafi_contracts.Runtime.Accounts.Calls.{Keeps, Holds, Runs, Runs-Keeps, save-stored}
use deltafi_contracts.Processor.Oracle.{get_new_market_price}
use deltafi_contracts.Processor.Trade.{SwapAmounts, swap_amounts, settle_swap, record_time}
use deltafi_contracts.Processor.Swap.{SwapAccounts, check_swap, swap_with}
use deltafi_contracts.Processor.Recorded.{IsRecorded, record_time-IsRecorded}
use deltafi_contracts.Processor.Vaults.{IsSwapVaults, check_swap-IsSwapVaults}
use deltafi_contracts.Processor.Payments.{swap_calls, pay_swap-Runs}

owner_checked :
    (program_id : Pubkey) (s : Store) (a b : AccountInfo) (u : Unit {0})
    → (if not ((s a.key).owner == program_id) || not ((s b.key).owner == program_id)
        then err incorrect_program_id
        else ok tt)
      ≡ ok u
    → (s a.key).owner ≡ program_id
owner_checked program_id s a b u e = ground arith

unpaused :
    (t : SwapInfo) (u : Unit {0}) → refuse_if t.is_paused is_paused ≡ ok u → t.is_paused ≡ false
unpaused t u e = ground arith

-- The pool of a swap that is settled: the balances, the new multiplier and nothing else but the targets.
pub record IsSettled (state pool : PoolState) (r : SwapAmounts) : Type 0 where
  pub made :
      Pool.new (record state {
        base_reserve = from_u64 r.base_balance;
        quote_reserve = from_u64 r.quote_balance;
        multiplier = r.multiplier;
      })
      ≡ ok pool
  pub base : pool.base_reserve ≡ from_u64 r.base_balance
  pub quote : pool.quote_reserve ≡ from_u64 r.quote_balance
  pub multiplier : pool.multiplier ≡ r.multiplier
  pub market_price : pool.market_price ≡ state.market_price
  pub slope : pool.slope ≡ state.slope

new-IsSettled :
    (state made : PoolState) (r : SwapAmounts)
    → Pool.new (record state {
      base_reserve = from_u64 r.base_balance;
      quote_reserve = from_u64 r.quote_balance;
      multiplier = r.multiplier;
    })
      ≡ ok made
    → IsSettled state made r
unfolding Pool.new adjust_target adjust_base_target adjust_quote_target ◌>>=◌
new-IsSettled state made r e = record {
  made = e;
  base = ground arith;
  quote = ground arith;
  multiplier = ground arith;
  market_price = ground arith;
  slope = ground arith;
}

settle_swap-IsSettled :
    (t settled : SwapInfo) (state : PoolState) (r : SwapAmounts)
    → settle_swap t state r ≡ ok settled
    → (pool : PoolState) × (settled ≡ record t { pool_state = pool }) × IsSettled state pool r
unfolding settle_swap
settle_swap-IsSettled t settled state r e0 =
    >>=-ok-elim (Pool.new _) _ e0
      λ made em e1. (made, sym (ok-injective e1), new-IsSettled state made r em)

-- The swap before, the amounts at the new market price, the calls that pay them, and the swap that its
-- account holds in the end.
pub record IsSwapped (rt : Runtime) (program_id : Pubkey) (a : SwapAccounts) (input : SwapData)
    (s s' : Store) : Type 0 where
  pub program_owns : (s a.swap_info.key).owner ≡ program_id
  pub config : ConfigInfo
  pub config_held : load rt config_pack s a.config_info ≡ ok config
  pub old : SwapInfo
  pub held : load rt swap_pack s a.swap_info ≡ ok old
  pub not_paused : old.is_paused ≡ false
  pub token_a : TokenAccount
  pub token_b : TokenAccount
  pub vaults : IsSwapVaults rt program_id a s config old input.swap_direction token_a token_b
  pub token_swap : SwapInfo
  pub priced : SwapInfo
  pub new_market_price : Decimal
  pub recorded :
      IsRecorded rt s old token_swap a.pyth_a_price_info a.pyth_b_price_info a.clock priced
        new_market_price
  pub state : PoolState
  pub at_price : Pool.new (record priced.pool_state { market_price = new_market_price }) ≡ ok state
  pub amounts : SwapAmounts
  pub moved : swap_amounts priced state input token_a.amount token_b.amount ≡ ok amounts
  pub settled : IsSettled state token_swap.pool_state amounts
  pub saved : Store
  pub written : save rt swap_pack token_swap s a.swap_info ≡ ok saved
  pub paid :
      Runs rt
        (swap_calls input.swap_direction a config.bump_seed old.nonce input.amount_in amounts)
        saved
        s'
  pub swap_left : Holds rt swap_pack token_swap s s' a.swap_info

module _ (rt : Runtime) (program_id : Pubkey) (keeps : KeepsOthers rt) (a : SwapAccounts)
    (foreign : program_id ≢ a.token_program_info.key) where
  swap_calls-Keeps :
      (d : SwapDirection) (bump_seed nonce amount_in : ℕ) (r : SwapAmounts) (s s' : Store)
      → Runs rt (swap_calls d a bump_seed nonce amount_in r) s s'
      → Keeps program_id s s'
  swap_calls-Keeps sell_base bump_seed nonce amount_in r s s' runs =
      Runs-Keeps rt program_id keeps (swap_calls sell_base a bump_seed nonce amount_in r) s s'
        (foreign, (foreign, (foreign, (foreign, tt)))) runs
  swap_calls-Keeps sell_quote bump_seed nonce amount_in r s s' runs =
      Runs-Keeps rt program_id keeps (swap_calls sell_quote a bump_seed nonce amount_in r) s s'
        (foreign, (foreign, (foreign, (foreign, tt)))) runs

  -- A swap that succeeds finds a swap that is not paused, in an account of the program's. The source and the
  -- destination of the swap are two different vaults of that swap and neither is the user's account of its
  -- side, the authority is the one that the swap's key and nonce derive, and the fees go to the admin's
  -- account for the vault that pays out. Where a call of the token program, which is not this program, changes no account of another
  -- owner, the account holds in the end the packed swap that was held, with the amounts that the pool gives
  -- at the new market price in its pool, at the time of the clock. After that swap is saved exactly four
  -- calls are made: the user pays the amount that is sold, the other vault pays the user and the admin
  -- their amounts, and the reward is minted.
  pub swap_with-IsSwapped :
      (input : SwapData) (s s' : Store)
      → swap_with rt program_id a input s ≡ ok s'
      → IsSwapped rt program_id a input s s'
  unfolding swap_with
  swap_with-IsSwapped input s s' e0 = >>=-ok-elim _ _ e0 λ u0 c0 e1.
      >>=-ok-elim (load rt config_pack s a.config_info) _ e1 λ config' cc' e2.
        >>=-ok-elim (load rt swap_pack s a.swap_info) _ e2 λ t ct e3.
          >>=-ok-elim (refuse_if t.is_paused is_paused) _ e3 λ u1 c1 e4.
            >>=-ok-elim (check_swap rt program_id a s config' t input) _ e4 λ balances cv e5.
              >>=-ok-elim
                (get_new_market_price rt s t a.pyth_a_price_info a.pyth_b_price_info a.clock) _ e5
                λ price cx f0.
                  >>=-ok-elim (Pool.new (record price.0.pool_state { market_price = price.1 })) _ f0
                    λ state' cs f1.
                      >>=-ok-elim (swap_amounts price.0 state' input balances.0 balances.1) _ f1
                        λ got cg f2.
                          >>=-ok-elim (settle_swap price.0 state' got) _ f2 λ settled' cl f3.
                            >>=-ok-elim (record_time settled' a.clock price.2) _ f3 λ t' cr f4.
                              >>=-ok-elim (save rt swap_pack t' s a.swap_info) _ f4 λ s1 k1 f5.
                                let own =
                                  owner_checked program_id s a.swap_info a.config_info u0 c0 in
                                let (x, y, vaults', both) =
                                  check_swap-IsSwapVaults rt program_id a s config' t input balances
                                    cv in
                                let (pool, same, fields) =
                                  settle_swap-IsSettled price.0 settled' state' got cl in
                                let (recorded', left_pool) =
                                  record_time-IsRecorded rt s t t' price.0 pool a.pyth_a_price_info
                                    a.pyth_b_price_info a.clock price.1 price.2 cx
                                    (ap (λ (z : SwapInfo). record_time z a.clock price.2) (sym same)
                                      ∙ cr) in
                                let (left, wrote) =
                                  save-stored rt swap_pack t' s s1 a.swap_info k1 in
                                let runs =
                                  pay_swap-Runs rt program_id input.swap_direction a config' t.nonce
                                    input.amount_in got s1 s' f5 in
                                let kept =
                                  (swap_calls-Keeps input.swap_direction config'.bump_seed t.nonce
                                      input.amount_in got s1 s' runs).same
                                    a.swap_info.key (wrote.owner a.swap_info.key ∙ own) in
                                record {
                                  program_owns = own;
                                  config = config';
                                  config_held = cc';
                                  old = t;
                                  held = ct;
                                  not_paused = unpaused t u1 c1;
                                  token_a = x;
                                  token_b = y;
                                  vaults = vaults';
                                  token_swap = t';
                                  priced = price.0;
                                  new_market_price = price.1;
                                  recorded = recorded';
                                  state = state';
                                  at_price = cs;
                                  amounts = got;
                                  moved =
                                      ap (λ (b : ℕ × ℕ). swap_amounts price.0 state' input b.0 b.1)
                                        (sym both)
                                      ∙ cg;
                                  settled =
                                      subst (λ (z : PoolState). IsSettled state' z got)
                                        (sym left_pool) fields;
                                  saved = s1;
                                  written = k1;
                                  paid = runs;
                                  swap_left = record {
                                    bytes = left.bytes;
                                    packed = left.packed;
                                    stored = ap (λ (z : Account). z.contents) kept ∙ left.stored;
                                  };
                                }

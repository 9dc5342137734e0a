-- ===== src/Processor/Initialized.antt =====
-- What the initialization of a swap has checked and leaves behind.
use mathlib.Core.Path.{subst}
use deltafi_contracts.Prelude.{
  sym, List, [], ◌∷◌, true, false, refl, some, ℕ, ◌≤◌, ◌<◌, ◌≡◌, ◌≢◌, ap, ◌∙◌, ltb, ◌==◌, not, ◌||◌,
  arith,
}
use deltafi_contracts.Prelude.Int.{u64_try_from}
use deltafi_contracts.Outcome.{
  ok, unwrap, refuse_if, ok-injective, ◌>>=◌, >>=-ok-elim, invalid_program_address, invalid_slope,
}
use deltafi_contracts.Math.Decimal as Decimal
use deltafi_contracts.Math.Decimal.{Decimal, from_u64, from_scaled_val}
use deltafi_contracts.Curve.Pool
use deltafi_contracts.Curve.Pool.{PoolState, one, buy_shares, adjust_target}
use deltafi_contracts.Curve.Pool.Target.{HasSurplus}
use deltafi_contracts.Curve.Pool.Deposit.{buy_shares-IsFairIssue, buy_shares-HasSurplus}
use deltafi_contracts.State.Position.{Pubkey}
use deltafi_contracts.State.Config.{ConfigInfo}
use deltafi_contracts.State.Swap.{SwapInfo}
use deltafi_contracts.State.Pack.{config_pack, swap_pack}
use deltafi_contracts.Instruction.Swap.{InitializeData}
use deltafi_contracts.Runtime.{Runtime, KeepsOthers, AccountInfo, Account, Store, mint_to}
use deltafi_contracts.Runtime.Accounts.{
  load, save, assert_uninitialized, authority_id, token_mint_to,
}
use deltafi_contracts.Runtime.Accounts.Calls.{SignedCall, Holds, Runs, Runs-Keeps, save-stored}
use deltafi_contracts.Processor.Payments.{signed}
use deltafi_contracts.Processor.Oracle.{or_else, get_market_price_from_pyth}
use deltafi_contracts.Processor.Initialize.{
  InitializeAccounts, SwapTokens, check_tokens, empty_pool, first_pool, new_swap, read_tokens,
  initialize_with,
}

-- The vaults are the authority's, hold something and are of different mints; the accounts for the user and
-- the admin are not the authority's; and no share has been issued.
pub record IsSwapTokens (authority : Pubkey) (t : SwapTokens) : Type 0 where
  pub vault_a : authority ≡ t.token_a.owner
  pub vault_b : authority ≡ t.token_b.owner
  pub output : authority ≢ t.destination.owner
  pub admin_a : authority ≢ t.admin_fee_a.owner
  pub admin_b : authority ≢ t.admin_fee_b.owner
  pub distinct : t.token_a.mint ≢ t.token_b.mint
  pub fee_mint_a : t.token_a.mint ≡ t.admin_fee_a.mint
  pub fee_mint_b : t.token_b.mint ≡ t.admin_fee_b.mint
  pub base : 0 < t.token_a.amount
  pub quote : 0 < t.token_b.amount
  pub unissued : t.pool_mint.supply ≡ 0

check_tokens-IsSwapTokens :
    (authority : Pubkey) (t : SwapTokens) (u : Unit {0})
    → check_tokens authority t ≡ ok u
    → IsSwapTokens authority t
unfolding check_tokens ◌>>=◌
check_tokens-IsSwapTokens authority t u e = record {
  vault_a = ground arith;
  vault_b = ground arith;
  output = ground arith;
  admin_a = ground arith;
  admin_b = ground arith;
  distinct = ground arith;
  fee_mint_a = ground arith;
  fee_mint_b = ground arith;
  base = ground arith;
  quote = ground arith;
  unissued = ground arith;
}

empty_pool-HasSurplus :
    (price : Decimal) (slope' : ℕ) (state : PoolState)
    → Pool.new (empty_pool price slope') ≡ ok state
    → HasSurplus state
unfolding Pool.new adjust_target empty_pool
empty_pool-HasSurplus price slope' state e =
    subst HasSurplus (ok-injective e) (omega arith, omega arith)

first_pool-lem :
    (price : Decimal) (input : InitializeData) (t : SwapTokens) (pool : PoolState) (shares : ℕ)
    → first_pool price input t ≡ ok (pool, shares)
    → HasSurplus pool
      × (pool.base_reserve ≡ from_u64 t.token_a.amount)
      × (pool.quote_reserve ≡ from_u64 t.token_b.amount)
unfolding first_pool
first_pool-lem price input t pool shares e0 =
    >>=-ok-elim (Pool.new (empty_pool price input.slope)) _ e0 λ state es e1.
      let fair = buy_shares-IsFairIssue state pool _ _ _ shares e1 in
      let (surplus, _) =
        buy_shares-HasSurplus state pool _ _ _ shares
          (empty_pool-HasSurplus price input.slope state es) e1 in
      (surplus, fair.base_reserve, fair.quote_reserve)

-- The fields of the swap of an initialization, each from where it comes.
pub record IsNewSwap (a : InitializeAccounts) (input : InitializeData) (t : SwapTokens)
    (config : ConfigInfo) (now : ℕ) (new : SwapInfo) : Type 0 where
  pub initialized : new.is_initialized ≡ true
  pub running : new.is_paused ≡ false
  pub nonce : new.nonce ≡ input.nonce
  pub vault_a : new.token_a ≡ a.token_a_info.key
  pub vault_b : new.token_b ≡ a.token_b_info.key
  pub shares : new.pool_mint ≡ a.pool_mint_info.key
  pub mint_a : new.token_a_mint ≡ t.token_a.mint
  pub mint_b : new.token_b_mint ≡ t.token_b.mint
  pub fee_a : new.admin_fee_key_a ≡ a.admin_fee_a_info.key
  pub fee_b : new.admin_fee_key_b ≡ a.admin_fee_b_info.key
  pub fees : new.fees ≡ config.fees
  pub rewards : new.rewards ≡ config.rewards
  pub surplus : HasSurplus new.pool_state
  pub base : new.pool_state.base_reserve ≡ from_u64 t.token_a.amount
  pub quote : new.pool_state.quote_reserve ≡ from_u64 t.token_b.amount
  pub twap : new.is_open_twap ≡ input.is_open_twap
  pub stamp : new.block_timestamp_last ≡ now
  pub ticks : new.cumulative_ticks ≡ 0
  pub price : new.base_price_cumulative_last ≡ Decimal.zero

new_swap-IsNewSwap :
    (a : InitializeAccounts) (input : InitializeData) (t : SwapTokens) (config : ConfigInfo)
    (pool : PoolState) (now : ℕ)
    → HasSurplus pool
      × (pool.base_reserve ≡ from_u64 t.token_a.amount)
      × (pool.quote_reserve ≡ from_u64 t.token_b.amount)
    → IsNewSwap a input t config now (new_swap a input t config pool now)
unfolding new_swap
new_swap-IsNewSwap a input t config pool now (full, x, y) = record {
  initialized = refl;
  running = refl;
  nonce = refl;
  vault_a = refl;
  vault_b = refl;
  shares = refl;
  mint_a = refl;
  mint_b = refl;
  fee_a = refl;
  fee_b = refl;
  fees = refl;
  rewards = refl;
  surplus = full;
  base = x;
  quote = y;
  twap = refl;
  stamp = refl;
  ticks = refl;
  price = refl;
}

new_swap-pool :
    (a : InitializeAccounts) (input : InitializeData) (t : SwapTokens) (config : ConfigInfo)
    (pool : PoolState) (now : ℕ)
    → (new_swap a input t config pool now).pool_state ≡ pool
unfolding new_swap
new_swap-pool a input t config pool now = refl

-- The shares, minted by the authority of the swap.
abbrev pub initialize_calls : InitializeAccounts → (nonce shares : ℕ) → List SignedCall
initialize_calls a nonce shares =
    signed a.swap_info.key nonce (
      mint_to a.token_program_info.key a.pool_mint_info.key a.destination_info.key
        a.authority_info.key shares)
    ∷ []

-- The tokens that were checked, the new swap, and the one call that mints the first shares.
pub record IsInitialized (rt : Runtime) (program_id : Pubkey) (a : InitializeAccounts)
    (input : InitializeData) (s s' : Store) : Type 0 where
  pub authorized : authority_id rt program_id a.swap_info.key input.nonce ≡ ok a.authority_info.key
  pub tokens : SwapTokens
  pub read : read_tokens rt program_id a s ≡ ok tokens
  pub sound : IsSwapTokens a.authority_info.key tokens
  pub slope_le : input.slope ≤ Decimal.one
  pub config : ConfigInfo
  pub config_held : load rt config_pack s a.config_info ≡ ok config
  pub market_price : Decimal
  pub priced :
      or_else
        (get_market_price_from_pyth rt s a.pyth_a_price_info a.pyth_b_price_info a.clock)
        (ok (from_scaled_val input.mid_price))
      ≡ ok market_price
  pub token_swap : SwapInfo
  pub shares : ℕ
  pub issued : first_pool market_price input tokens ≡ ok (token_swap.pool_state, shares)
  pub now : ℕ
  pub timed : u64_try_from a.clock.unix_timestamp ≡ some now
  pub new : IsNewSwap a input tokens config now token_swap
  pub saved : Store
  pub written : save rt swap_pack token_swap s a.swap_info ≡ ok saved
  pub minted : Runs rt (initialize_calls a input.nonce shares) saved s'
  pub swap_left : Holds rt swap_pack token_swap s s' a.swap_info

named_authority :
    (info : AccountInfo) (key : Pubkey) (u : Unit {0})
    → refuse_if (not (info.key == key)) invalid_program_address ≡ ok u
    → key ≡ info.key
named_authority info key u e = ground arith

slope-le :
    (slope' : ℕ) (u : Unit {0})
    → refuse_if (ltb slope' Decimal.zero || ltb Decimal.one slope') invalid_slope ≡ ok u
    → slope' ≤ Decimal.one
slope-le slope' u e = ground arith

first-Runs :
    (rt : Runtime) (a : InitializeAccounts) (nonce shares : ℕ) (s s' : Store)
    → token_mint_to rt a.swap_info.key a.token_program_info a.pool_mint_info a.destination_info
        a.authority_info nonce shares s
      ≡ ok s'
    → Runs rt (initialize_calls a nonce shares) s s'
unfolding token_mint_to
first-Runs rt a nonce shares s s' e = (s', e, refl)

-- An initialization that succeeds has found the vaults to be the authority's, filled and of different
-- mints, and a slope of at most one. It saves a swap that is not paused, names the accounts that were given
-- and has the configuration's fees and rewards and the time of the clock; the reserves of its pool are what
-- the vaults hold, and the pool's surplus side stands at or above its target. Then exactly one call is
-- made, which mints the first shares. Where a call of the token program changes no account of another
-- owner, and the swap's account is not the token program's, that account holds in the end that swap,
-- packed.
pub initialize_with-IsInitialized :
    (rt : Runtime) (program_id : Pubkey)
    → KeepsOthers rt
    → (a : InitializeAccounts) (input : InitializeData) (s s' : Store)
    → (s a.swap_info.key).owner ≢ a.token_program_info.key
    → initialize_with rt program_id a input s ≡ ok s'
    → IsInitialized rt program_id a input s s'
unfolding initialize_with
initialize_with-IsInitialized rt program_id keeps a input s s' foreign e0 =
    >>=-ok-elim (assert_uninitialized rt swap_pack s a.swap_info) _ e0 λ fresh c0 e1.
      >>=-ok-elim (authority_id rt program_id a.swap_info.key input.nonce) _ e1 λ key ck e2.
        >>=-ok-elim (refuse_if _ invalid_program_address) _ e2 λ u2 c2 e3.
          >>=-ok-elim (read_tokens rt program_id a s) _ e3 λ tokens' ct e4.
            >>=-ok-elim (check_tokens a.authority_info.key tokens') _ e4 λ u4 c4 e5.
              >>=-ok-elim (refuse_if _ invalid_slope) _ e5 λ u5 c5 e6.
                >>=-ok-elim (or_else _ _) _ e6 λ price' cp e7.
                  >>=-ok-elim (first_pool price' input tokens') _ e7 λ got cg e8.
                    >>=-ok-elim (unwrap (u64_try_from a.clock.unix_timestamp)) _ e8 λ now' cn e9.
                      >>=-ok-elim (load rt config_pack s a.config_info) _ e9 λ config' cc' f0.
                        >>=-ok-elim
                          (save rt swap_pack (new_swap a input tokens' config' got.0 now') s
                            a.swap_info)
                          _ f0
                          λ s1 k1 f1.
                            let (left, wrote) = save-stored rt swap_pack _ s s1 a.swap_info k1 in
                            let runs = first-Runs rt a input.nonce got.1 s1 s' f1 in
                            let kept =
                              (Runs-Keeps rt (s a.swap_info.key).owner keeps
                                  (initialize_calls a input.nonce got.1) s1 s' (foreign, tt)
                                  runs).same
                                a.swap_info.key (wrote.owner a.swap_info.key) in
                            record {
                              authorized = ck ∙ ap ok (named_authority a.authority_info key u2 c2);
                              tokens = tokens';
                              read = ct;
                              sound = check_tokens-IsSwapTokens a.authority_info.key tokens' u4 c4;
                              slope_le = slope-le input.slope u5 c5;
                              config = config';
                              config_held = cc';
                              market_price = price';
                              priced = cp;
                              token_swap = new_swap a input tokens' config' got.0 now';
                              shares = got.1;
                              issued =
                                  cg
                                  ∙ ap (λ (x : PoolState). ok (x, got.1))
                                      (sym (new_swap-pool a input tokens' config' got.0 now'));
                              now = now';
                              timed = ground arith;
                              new =
                                  new_swap-IsNewSwap a input tokens' config' got.0 now'
                                    (first_pool-lem price' input tokens' got.0 got.1 cg);
                              saved = s1;
                              written = k1;
                              minted = runs;
                              swap_left = record {
                                bytes = left.bytes;
                                packed = left.packed;
                                stored = ap (λ (x : Account). x.contents) kept ∙ left.stored;
                              };
                            }

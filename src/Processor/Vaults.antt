-- ===== src/Processor/Vaults.antt =====
-- The accounts that the checks of a swap, a deposit and a withdrawal pin to the swap's own fields.
use deltafi_contracts.Prelude.{ℕ, ◌≡◌, ◌≢◌, ◌⊎◌, refl, sym, ap, ◌∙◌, ◌==◌, not, ◌||◌, arith}
use deltafi_contracts.Outcome.{SwapError, ok, refuse_if, ok-injective, ◌>>=◌, >>=-ok-elim}
use deltafi_contracts.State.Position.{Pubkey}
use deltafi_contracts.State.Config.{ConfigInfo}
use deltafi_contracts.State.Swap.{SwapInfo}
use deltafi_contracts.Instruction.Read.{SwapDirection, sell_base, sell_quote}
use deltafi_contracts.Instruction.Swap.{SwapData}
use deltafi_contracts.Runtime.{Runtime, AccountInfo, Store, TokenAccount}
use deltafi_contracts.Runtime.Accounts.{unpack_mint, unpack_token_account, authority_id}
use deltafi_contracts.Processor.Swap.{SwapAccounts, check_direction, check_swap}
use deltafi_contracts.Processor.Deposit.{DepositAccounts, check_deposit}
use deltafi_contracts.Processor.Withdraw.{WithdrawAccounts, check_withdraw}

-- The account is a vault of the swap.
abbrev pub IsVault : SwapInfo → AccountInfo → Type 0
IsVault old info = (info.key ≡ old.token_a) ⊎ (info.key ≡ old.token_b)

-- The vault, and the admin's account for the fees in the vault's token.
abbrev pub IsFeeOf : SwapInfo → AccountInfo → AccountInfo → Type 0
IsFeeOf old vault admin =
    ((vault.key ≡ old.token_a) × (admin.key ≡ old.admin_fee_key_a))
    ⊎ ((vault.key ≡ old.token_b) × (admin.key ≡ old.admin_fee_key_b))

-- The vault that pays out.
abbrev pub vault_out : SwapDirection → SwapAccounts → AccountInfo
vault_out sell_base a = a.swap_destination_info
vault_out sell_quote a = a.swap_source_info

pub record IsSwapVaults (rt : Runtime) (program_id : Pubkey) (a : SwapAccounts) (s : Store)
    (config : ConfigInfo) (old : SwapInfo) (d : SwapDirection) (token_a token_b : TokenAccount)
    : Type 0 where
  pub authority :
      authority_id rt program_id a.swap_info.key old.nonce ≡ ok a.swap_authority_info.key
  pub market :
      authority_id rt program_id a.config_info.key config.bump_seed ≡ ok a.market_authority_info.key
  pub source : IsVault old a.swap_source_info
  pub destination : IsVault old a.swap_destination_info
  pub distinct : a.swap_source_info.key ≢ a.swap_destination_info.key
  pub payer_apart : a.swap_source_info.key ≢ a.source_info.key
  pub receiver_apart : a.swap_destination_info.key ≢ a.destination_info.key
  pub fee : IsFeeOf old (vault_out d a) a.admin_destination_info
  pub reward : a.reward_mint_info.key ≡ config.deltafi_mint
  pub read_a : unpack_token_account rt s a.swap_source_info a.token_program_info.key ≡ ok token_a
  pub read_b :
      unpack_token_account rt s a.swap_destination_info a.token_program_info.key ≡ ok token_b

named :
    (info : AccountInfo) (key : Pubkey) (e : SwapError) (u : Unit {0})
    → refuse_if (not (info.key == key)) e ≡ ok u
    → info.key ≡ key
named info key e u h = ground arith

one_of :
    (old : SwapInfo) (info : AccountInfo) (e : SwapError) (u : Unit {0})
    → refuse_if (not (info.key == old.token_a || info.key == old.token_b)) e ≡ ok u
    → IsVault old info
one_of old info e u h = ground arith

apart :
    (a b : AccountInfo) (e : SwapError) (u : Unit {0})
    → refuse_if (a.key == b.key) e ≡ ok u
    → a.key ≢ b.key
apart a b e u h = ground arith

both_apart :
    (a b c d : AccountInfo) (e : SwapError) (u : Unit {0})
    → refuse_if (a.key == b.key || c.key == d.key) e ≡ ok u
    → (a.key ≢ b.key) × (c.key ≢ d.key)
both_apart a b c d e u h = (ground arith, ground arith)

check_direction-IsFeeOf :
    (a : SwapAccounts) (old : SwapInfo) (input : SwapData) (d : SwapDirection) (x y : ℕ)
    (u : Unit {0})
    → input.swap_direction ≡ d
    → IsVault old a.swap_source_info
    → IsVault old a.swap_destination_info
    → a.swap_source_info.key ≢ a.swap_destination_info.key
    → check_direction a old input x y ≡ ok u
    → IsFeeOf old (vault_out d a) a.admin_destination_info
unfolding check_direction ◌>>=◌
check_direction-IsFeeOf a old input sell_base x y u same src dst ne e = ground arith
check_direction-IsFeeOf a old input sell_quote x y u same src dst ne e = ground arith

module _ (rt : Runtime) (program_id : Pubkey) where
  pub check_swap-IsSwapVaults :
      (a : SwapAccounts) (s : Store) (config : ConfigInfo) (old : SwapInfo) (input : SwapData)
      (vaults : ℕ × ℕ)
      → check_swap rt program_id a s config old input ≡ ok vaults
      → (x : TokenAccount) × (y : TokenAccount) × IsSwapVaults rt program_id a s config old
          input.swap_direction x y
        × (vaults ≡ (x.amount, y.amount))
  unfolding check_swap
  check_swap-IsSwapVaults a s config old input vaults e0 =
      >>=-ok-elim (authority_id rt program_id a.swap_info.key old.nonce) _ e0 λ k1 c1 e1.
        >>=-ok-elim (refuse_if _ _) _ e1 λ u2 c2 e2. >>=-ok-elim (refuse_if _ _) _ e2 λ u3 c3 e3.
          >>=-ok-elim (refuse_if _ _) _ e3 λ u4 c4 e4. >>=-ok-elim (refuse_if _ _) _ e4 λ u5 c5 e5.
            >>=-ok-elim (refuse_if _ _) _ e5 λ u6 c6 e6.
              >>=-ok-elim (unpack_token_account rt s a.swap_source_info a.token_program_info.key) _
                e6
                λ x cx e7.
                  >>=-ok-elim
                    (unpack_token_account rt s a.swap_destination_info a.token_program_info.key) _
                    e7
                    λ y cy e8.
                      >>=-ok-elim
                        (unpack_token_account rt s a.reward_token_info a.token_program_info.key) _
                        e8
                        λ z cz e9.
                          >>=-ok-elim (unpack_mint rt s a.reward_mint_info a.token_program_info.key)
                            _ e9
                            λ m cm f0.
                              >>=-ok-elim
                                (authority_id rt program_id a.config_info.key config.bump_seed) _ f0
                                λ k2 d1 f1. >>=-ok-elim (refuse_if _ _) _ f1 λ v2 d2 f2.
                                  >>=-ok-elim
                                    (refuse_if (not (config.deltafi_mint == a.reward_mint_info.key))
                                      _)
                                    _ f2
                                    λ v3 d3 f3. >>=-ok-elim (refuse_if _ _) _ f3 λ v4 d4 f4.
                                      >>=-ok-elim (refuse_if _ _) _ f4 λ v5 d5 f5.
                                        >>=-ok-elim (refuse_if _ _) _ f5 λ v6 d6 f6.
                                          >>=-ok-elim
                                            (check_direction a old input x.amount y.amount) _ f6
                                            λ v7 d7 f7.
                                              let src = one_of old a.swap_source_info _ u3 c3 in
                                              let dst =
                                                one_of old a.swap_destination_info _ u4 c4 in
                                              let ne =
                                                apart a.swap_source_info a.swap_destination_info _
                                                  u5 c5 in
                                              let users =
                                                both_apart a.swap_source_info a.source_info
                                                  a.swap_destination_info a.destination_info _ u6
                                                  c6 in
                                              (
                                                x,
                                                y,
                                                record {
                                                  authority =
                                                      c1
                                                      ∙ ap ok (
                                                          sym (
                                                            named a.swap_authority_info k1 _ u2
                                                            c2));
                                                  market =
                                                      d1
                                                      ∙ ap ok (
                                                          sym (
                                                            named a.market_authority_info k2 _ v2
                                                            d2));
                                                  source = src;
                                                  destination = dst;
                                                  distinct = ne;
                                                  payer_apart = users.0;
                                                  receiver_apart = users.1;
                                                  fee =
                                                      check_direction-IsFeeOf a old input
                                                        input.swap_direction x.amount y.amount v7
                                                        refl src dst ne d7;
                                                  reward = sym (ground arith);
                                                  read_a = cx;
                                                  read_b = cy;
                                                },
                                                sym (ok-injective f7),
                                              )

  -- The vaults, the mint and the authority are the swap's, and the vaults are not the user's accounts.
  pub check_deposit-lem :
      (a : DepositAccounts) (old : SwapInfo) (u : Unit {0})
      → check_deposit rt program_id a old ≡ ok u
      → (authority_id rt program_id a.swap_info.key old.nonce ≡ ok a.authority_info.key)
        × (a.token_a_info.key ≡ old.token_a)
        × (a.token_b_info.key ≡ old.token_b)
        × (a.pool_mint_info.key ≡ old.pool_mint)
        × (a.token_a_info.key ≢ a.source_a_info.key)
        × (a.token_b_info.key ≢ a.source_b_info.key)
  unfolding check_deposit
  check_deposit-lem a old u e0 =
      >>=-ok-elim (authority_id rt program_id a.swap_info.key old.nonce) _ e0 λ k1 c1 e1.
        >>=-ok-elim (refuse_if _ _) _ e1 λ u2 c2 e2. >>=-ok-elim (refuse_if _ _) _ e2 λ u3 c3 e3.
          >>=-ok-elim (refuse_if _ _) _ e3 λ u4 c4 e4. >>=-ok-elim (refuse_if _ _) _ e4 λ u5 c5 e5.
            >>=-ok-elim (refuse_if _ _) _ e5 λ u6 c6 e6. (
              c1 ∙ ap ok (sym (named a.authority_info k1 _ u2 c2)),
              named a.token_a_info old.token_a _ u3 c3,
              named a.token_b_info old.token_b _ u4 c4,
              named a.pool_mint_info old.pool_mint _ u5 c5,
              apart a.token_a_info a.source_a_info _ u6 c6,
              apart a.token_b_info a.source_b_info _ u e6,
            )

  -- The vaults, the mint, the authority and the fee accounts are the swap's, and the vaults are not the
  -- user's accounts.
  pub check_withdraw-lem :
      (a : WithdrawAccounts) (old : SwapInfo) (u : Unit {0})
      → check_withdraw rt program_id a old ≡ ok u
      → (authority_id rt program_id a.swap_info.key old.nonce ≡ ok a.authority_info.key)
        × (a.token_a_info.key ≡ old.token_a)
        × (a.token_b_info.key ≡ old.token_b)
        × (a.pool_mint_info.key ≡ old.pool_mint)
        × (a.admin_fee_dest_a_info.key ≡ old.admin_fee_key_a)
        × (a.admin_fee_dest_b_info.key ≡ old.admin_fee_key_b)
        × (a.token_a_info.key ≢ a.dest_token_a_info.key)
        × (a.token_b_info.key ≢ a.dest_token_b_info.key)
  unfolding check_withdraw
  check_withdraw-lem a old u e0 =
      >>=-ok-elim (authority_id rt program_id a.swap_info.key old.nonce) _ e0 λ k1 c1 e1.
        >>=-ok-elim (refuse_if _ _) _ e1 λ u2 c2 e2. >>=-ok-elim (refuse_if _ _) _ e2 λ u3 c3 e3.
          >>=-ok-elim (refuse_if _ _) _ e3 λ u4 c4 e4. >>=-ok-elim (refuse_if _ _) _ e4 λ u5 c5 e5.
            >>=-ok-elim (refuse_if _ _) _ e5 λ u6 c6 e6.
              >>=-ok-elim (refuse_if _ _) _ e6 λ u7 c7 e7.
                >>=-ok-elim (refuse_if _ _) _ e7 λ u8 c8 e8. (
                  c1 ∙ ap ok (sym (named a.authority_info k1 _ u2 c2)),
                  named a.token_a_info old.token_a _ u3 c3,
                  named a.token_b_info old.token_b _ u4 c4,
                  named a.pool_mint_info old.pool_mint _ u7 c7,
                  named a.admin_fee_dest_a_info old.admin_fee_key_a _ u8 c8,
                  named a.admin_fee_dest_b_info old.admin_fee_key_b _ u e8,
                  apart a.token_a_info a.dest_token_a_info _ u5 c5,
                  apart a.token_b_info a.dest_token_b_info _ u6 c6,
                )

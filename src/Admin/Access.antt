-- ===== src/Admin/Access.antt =====
-- Who may change what: every admin instruction but the first initialization needs the signature of the
-- admin that the program's configuration names.
use deltafi_contracts.Prelude.{
  ◌≡◌, refl, sym, ap, ◌∙◌, true, List, [], ◌∷◌, ◌⊎◌, inl, inr, ◌==◌, not, ◌||◌, arith,
}
use deltafi_contracts.Outcome.{ok, refuse_if, ok-injective, >>=-ok-elim, invalid_account_owner}
use deltafi_contracts.Bytes.{Bytes}
use deltafi_contracts.State.Position.{Pubkey}
use deltafi_contracts.State.Config.{ConfigInfo}
use deltafi_contracts.State.Swap.{SwapInfo}
use deltafi_contracts.State.Pack.{config_pack}
use deltafi_contracts.Instruction.Admin as Instruction
use deltafi_contracts.Instruction.Admin.{
  AdminInstruction, initialize, pause, unpause, set_fee_account, commit_new_admin, set_new_fees,
  set_new_rewards,
}
use deltafi_contracts.Runtime.{Runtime, IsRuntime, AccountInfo, Store}
use deltafi_contracts.Runtime.Accounts.{load}
use deltafi_contracts.Runtime.Accounts.Laws.{next-elim}
use deltafi_contracts.Admin.{
  is_admin, admitted, edit_swap, process_set_fee_account, process_commit_new_admin, dispatch,
  process_admin_instruction,
}

abbrev pub Occurs : AccountInfo → List AccountInfo → Type 0
Occurs info [] = ⊥
Occurs info (other ∷ rest) = (other ≡ info) ⊎ Occurs info rest

-- Among the accounts is the one that the program's configuration names as the admin, and it has signed.
pub record IsSigned (rt : Runtime) (program_id : Pubkey) (accounts : List AccountInfo) (s : Store)
    : Type 0 where
  pub config_info : AccountInfo
  pub admin_info : AccountInfo
  pub config : ConfigInfo
  pub config_listed : Occurs config_info accounts
  pub admin_listed : Occurs admin_info accounts
  pub config_owner : (s config_info.key).owner ≡ program_id
  pub held : load rt config_pack s config_info ≡ ok config
  pub named : admin_info.key ≡ config.admin_key
  pub signed : admin_info.is_signer ≡ true

is_admin-ok :
    (expected : Pubkey) (info : AccountInfo) (u : Unit {0})
    → is_admin expected info ≡ ok u
    → (info.key ≡ expected) × (info.is_signer ≡ true)
unfolding is_admin
is_admin-ok expected info u e = ground arith

pub owners :
    (program_id : Pubkey) (s : Store) (a b : AccountInfo) (u : Unit {0})
    → refuse_if
        (not ((s a.key).owner == program_id) || not ((s b.key).owner == program_id))
        invalid_account_owner
      ≡ ok u
    → ((s a.key).owner ≡ program_id) × ((s b.key).owner ≡ program_id)
owners program_id s a b u e = ground arith

owner_of :
    (program_id : Pubkey) (s : Store) (a : AccountInfo) (u : Unit {0})
    → refuse_if (not ((s a.key).owner == program_id)) invalid_account_owner ≡ ok u
    → (s a.key).owner ≡ program_id
owner_of program_id s a u e = ground arith

-- Every instruction but the initialization of a configuration.
abbrev pub ChangesOnly : AdminInstruction → Type 0
ChangesOnly (initialize _) = ⊥
ChangesOnly pause = Unit
ChangesOnly unpause = Unit
ChangesOnly set_fee_account = Unit
ChangesOnly (commit_new_admin _) = Unit
ChangesOnly (set_new_fees _) = Unit
ChangesOnly (set_new_rewards _) = Unit

module _ (rt : Runtime) (program_id : Pubkey) where
  pub admitted-ok :
      (s : Store) (config_info swap_info admin_info : AccountInfo) (config : ConfigInfo)
      → admitted rt program_id s config_info swap_info admin_info ≡ ok config
      → ((s config_info.key).owner ≡ program_id)
        × ((s swap_info.key).owner ≡ program_id)
        × (load rt config_pack s config_info ≡ ok config)
        × (admin_info.key ≡ config.admin_key)
        × (admin_info.is_signer ≡ true)
  unfolding admitted
  admitted-ok s config_info swap_info admin_info config e0 =
      >>=-ok-elim (refuse_if _ invalid_account_owner) _ e0 λ u eo e1.
        >>=-ok-elim (load rt config_pack s config_info) _ e1 λ c ec e2.
          >>=-ok-elim (is_admin c.admin_key admin_info) _ e2 λ v ea e3.
            let (config_owner, swap_owner) = owners program_id s config_info swap_info u eo in
            let (named, signed) = is_admin-ok c.admin_key admin_info v ea in
            let same = ok-injective e3 in
            (
              config_owner,
              swap_owner,
              ec ∙ e3,
              named ∙ ap (λ (x : ConfigInfo). x.admin_key) same,
              signed,
            )

  module _ (lawful : IsRuntime rt) where
    edit_swap-IsSigned :
        (edit : SwapInfo → SwapInfo) (accounts : List AccountInfo) (s s' : Store)
        → edit_swap rt program_id edit accounts s ≡ ok s'
        → IsSigned rt program_id accounts s
    unfolding edit_swap
    edit_swap-IsSigned edit accounts s s' e0 =
        next-elim rt lawful accounts _ e0 λ config_info l1 o1 e1.
          next-elim rt lawful l1 _ e1 λ swap_info l2 o2 e2.
            next-elim rt lawful l2 _ e2 λ admin_info l3 o3 e3.
              >>=-ok-elim (admitted rt program_id s config_info swap_info admin_info) _ e3
                λ config ec e4.
                  let (owned, _, held, named, signed) =
                    admitted-ok s config_info swap_info admin_info config ec in
                  record {
                    config_info = config_info;
                    admin_info = admin_info;
                    config = config;
                    config_listed = rw o1 (inl refl);
                    admin_listed = rw o1 (inr (rw o2 (inr (rw o3 (inl refl)))));
                    config_owner = owned;
                    held = held;
                    named = named;
                    signed = signed;
                  }

    set_fee_account-IsSigned :
        (accounts : List AccountInfo) (s s' : Store)
        → process_set_fee_account rt program_id accounts s ≡ ok s'
        → IsSigned rt program_id accounts s
    unfolding process_set_fee_account
    set_fee_account-IsSigned accounts s s' e0 =
        next-elim rt lawful accounts _ e0 λ config_info l1 o1 e1.
          next-elim rt lawful l1 _ e1 λ swap_info l2 o2 e2.
            next-elim rt lawful l2 _ e2 λ authority_info l3 o3 e3.
              next-elim rt lawful l3 _ e3 λ admin_info l4 o4 e4.
                next-elim rt lawful l4 _ e4 λ fee_info l5 o5 e5.
                  next-elim rt lawful l5 _ e5 λ token_info l6 o6 e6.
                    >>=-ok-elim (admitted rt program_id s config_info swap_info admin_info) _ e6
                      λ config ec e7.
                        let (owned, _, held, named, signed) =
                          admitted-ok s config_info swap_info admin_info config ec in
                        record {
                          config_info = config_info;
                          admin_info = admin_info;
                          config = config;
                          config_listed = rw o1 (inl refl);
                          admin_listed = rw o1 (inr (rw o2 (inr (rw o3 (inr (rw o4 (inl refl)))))));
                          config_owner = owned;
                          held = held;
                          named = named;
                          signed = signed;
                        }

    commit_new_admin-IsSigned :
        (new_admin_key : Pubkey) (accounts : List AccountInfo) (s s' : Store)
        → process_commit_new_admin rt program_id new_admin_key accounts s ≡ ok s'
        → IsSigned rt program_id accounts s
    unfolding process_commit_new_admin
    commit_new_admin-IsSigned new_admin_key accounts s s' e0 =
        next-elim rt lawful accounts _ e0 λ config_info l1 o1 e1.
          next-elim rt lawful l1 _ e1 λ admin_info l2 o2 e2.
            next-elim rt lawful l2 _ e2 λ mint_info l3 o3 e3.
              next-elim rt lawful l3 _ e3 λ token_info l4 o4 e4.
                >>=-ok-elim (refuse_if _ invalid_account_owner) _ e4 λ u eo e5.
                  >>=-ok-elim (load rt config_pack s config_info) _ e5 λ config ec e6.
                    >>=-ok-elim (is_admin config.admin_key admin_info) _ e6 λ v ea e7.
                      let (named, signed) = is_admin-ok config.admin_key admin_info v ea in
                      record {
                        config_info = config_info;
                        admin_info = admin_info;
                        config = config;
                        config_listed = rw o1 (inl refl);
                        admin_listed = rw o1 (inr (rw o2 (inl refl)));
                        config_owner = owner_of program_id s config_info u eo;
                        held = ec;
                        named = named;
                        signed = signed;
                      }

    dispatch-IsSigned :
        (i : AdminInstruction) (accounts : List AccountInfo) (s s' : Store)
        → ChangesOnly i
        → dispatch rt program_id i accounts s ≡ ok s'
        → IsSigned rt program_id accounts s
    unfolding dispatch
    dispatch-IsSigned (initialize _) accounts s s' only e = absurd only
    dispatch-IsSigned pause accounts s s' only e = edit_swap-IsSigned _ accounts s s' e
    dispatch-IsSigned unpause accounts s s' only e = edit_swap-IsSigned _ accounts s s' e
    dispatch-IsSigned set_fee_account accounts s s' only e =
        set_fee_account-IsSigned accounts s s' e
    dispatch-IsSigned (commit_new_admin key) accounts s s' only e =
        commit_new_admin-IsSigned key accounts s s' e
    dispatch-IsSigned (set_new_fees _) accounts s s' only e = edit_swap-IsSigned _ accounts s s' e
    dispatch-IsSigned (set_new_rewards _) accounts s s' only e =
        edit_swap-IsSigned _ accounts s s' e

    -- Where the accounts are handed out in order, admin data that does not ask for an initialization is
    -- processed only if the accounts hold the program's configuration and the admin that it names, and
    -- that admin has signed.
    pub process_admin_instruction-IsSigned :
        (i : AdminInstruction) (accounts : List AccountInfo) (input : Bytes) (s s' : Store)
        → Instruction.unpack rt.unpack_unchecked input ≡ ok i
        → ChangesOnly i
        → process_admin_instruction rt program_id accounts input s ≡ ok s'
        → IsSigned rt program_id accounts s
    unfolding process_admin_instruction
    process_admin_instruction-IsSigned i accounts input s s' read only e0 =
        >>=-ok-elim (Instruction.unpack rt.unpack_unchecked input) _ e0 λ j ej e1.
          let same : j ≡ i = ok-injective (sym ej ∙ read) in
          dispatch-IsSigned i accounts s s' only (rw same at e1)

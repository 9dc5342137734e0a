-- ===== src/Admin/Effects.antt =====
-- What the admin instructions on a swap do: the account of the swap comes to hold the swap with one field set,
-- and no other account changes.
use deltafi_contracts.Prelude.{
  ◌≡◌, refl, sym, ap, ◌∙◌, true, false, List, ◌∷◌, ◌==◌, not, ◌||◌, arith,
}
use deltafi_contracts.Outcome.{ok, refuse_if, >>=-ok, >>=-ok-elim, invalid_account_owner}
use deltafi_contracts.Bytes.{Bytes}
use deltafi_contracts.State.Position.{Pubkey}
use deltafi_contracts.State.Config.{ConfigInfo}
use deltafi_contracts.State.Swap.{SwapInfo}
use deltafi_contracts.State.Swap.Packing.{IsSwapInfo}
use deltafi_contracts.State.Pack.{config_pack, swap_pack}
use deltafi_contracts.State.Pack.Laws.{swap_pack-IsPack}
use deltafi_contracts.Instruction.Admin as Instruction
use deltafi_contracts.Instruction.Admin.{
  AdminInstruction, initialize, pause, unpause, set_fee_account, commit_new_admin, set_new_fees,
  set_new_rewards,
}
use deltafi_contracts.Runtime.{Runtime, IsRuntime, AccountInfo, Store}
use deltafi_contracts.Runtime.Accounts.{load}
use deltafi_contracts.Runtime.Accounts.Laws.{
  IsWrite, next-elim, next-here, load-initialized, save-load, load-save,
}
use deltafi_contracts.Admin.{
  is_admin, admitted, edit_swap, process_pause, dispatch, process_admin_instruction,
}

-- The instructions on a swap that set one of its fields, and the swap that they ask for.
abbrev pub EditsSwap : AdminInstruction → Type 0
EditsSwap (initialize _) = ⊥
EditsSwap pause = Unit
EditsSwap unpause = Unit
EditsSwap set_fee_account = ⊥
EditsSwap (commit_new_admin _) = ⊥
EditsSwap (set_new_fees _) = Unit
EditsSwap (set_new_rewards _) = Unit

abbrev pub edited : AdminInstruction → SwapInfo → SwapInfo
edited (initialize _) s = s
edited pause s = record s { is_paused = true }
edited unpause s = record s { is_paused = false }
edited set_fee_account s = s
edited (commit_new_admin _) s = s
edited (set_new_fees fees) s = record s { fees = fees }
edited (set_new_rewards rewards) s = record s { rewards = rewards }

is_admin-intro :
    (expected : Pubkey) (info : AccountInfo)
    → info.key ≡ expected
    → info.is_signer ≡ true
    → is_admin expected info ≡ ok tt
unfolding is_admin
is_admin-intro expected info named signed = ground arith

admits-owners :
    (program_id : Pubkey) (s : Store) (a b : AccountInfo)
    → (s a.key).owner ≡ program_id
    → (s b.key).owner ≡ program_id
    → refuse_if
        (not ((s a.key).owner == program_id) || not ((s b.key).owner == program_id))
        invalid_account_owner
      ≡ ok tt
admits-owners program_id s a b own_a own_b = ground arith

module _ (rt : Runtime) (program_id : Pubkey) where
  admitted-intro :
      (s : Store) (config_info swap_info admin_info : AccountInfo) (config : ConfigInfo)
      → ((s config_info.key).owner ≡ program_id) × ((s swap_info.key).owner ≡ program_id)
      → load rt config_pack s config_info ≡ ok config
      → (admin_info.key ≡ config.admin_key) × (admin_info.is_signer ≡ true)
      → admitted rt program_id s config_info swap_info admin_info ≡ ok config
  unfolding admitted
  admitted-intro s config_info swap_info admin_info config (own_config, own_swap) held
        (named, signed) =
      >>=-ok _ _ (admits-owners program_id s config_info swap_info own_config own_swap)
      ∙ (>>=-ok _ _ held ∙ >>=-ok _ _ (is_admin-intro config.admin_key admin_info named signed))

  module _ (lawful : IsRuntime rt) (config_info swap_info : AccountInfo) (others : List AccountInfo)
      (s : Store) (old : SwapInfo) (held : load rt swap_pack s swap_info ≡ ok old) where
    edit_swap-holds :
        (edit : SwapInfo → SwapInfo) (s' : Store)
        → IsSwapInfo (edit old)
        → (edit old).is_initialized ≡ old.is_initialized
        → edit_swap rt program_id edit (config_info ∷ swap_info ∷ others) s ≡ ok s'
        → (load rt swap_pack s' swap_info ≡ ok (edit old)) × IsWrite s s' swap_info.key
    unfolding edit_swap
    edit_swap-holds edit s' sound initialized e0 =
        let e2 = next-here rt lawful swap_info others _ (next-here rt lawful config_info _ _ e0) in
        next-elim rt lawful others _ e2 λ admin_info rest o3 e3.
          >>=-ok-elim (admitted rt program_id s config_info swap_info admin_info) _ e3
            λ config ec e4.
              let e5 = sym (>>=-ok _ _ held) ∙ e4 in
              save-load rt lawful swap_pack IsSwapInfo swap_pack-IsPack (edit old) s s' swap_info
                sound (initialized ∙ load-initialized rt lawful swap_pack old s swap_info held) e5

    pub pause-holds :
        (s' : Store)
        → IsSwapInfo (edited pause old)
        → process_pause rt program_id (config_info ∷ swap_info ∷ others) s ≡ ok s'
        → (load rt swap_pack s' swap_info ≡ ok (edited pause old)) × IsWrite s s' swap_info.key
    pause-holds s' sound e = edit_swap-holds (edited pause) s' sound refl e

    dispatch-edited :
        (i : AdminInstruction) (s' : Store)
        → EditsSwap i
        → IsSwapInfo (edited i old)
        → dispatch rt program_id i (config_info ∷ swap_info ∷ others) s ≡ ok s'
        → (load rt swap_pack s' swap_info ≡ ok (edited i old)) × IsWrite s s' swap_info.key
    unfolding dispatch
    dispatch-edited (initialize _) s' edits sound e = absurd edits
    dispatch-edited pause s' edits sound e = edit_swap-holds _ s' sound refl e
    dispatch-edited unpause s' edits sound e = edit_swap-holds _ s' sound refl e
    dispatch-edited set_fee_account s' edits sound e = absurd edits
    dispatch-edited (commit_new_admin _) s' edits sound e = absurd edits
    dispatch-edited (set_new_fees _) s' edits sound e = edit_swap-holds _ s' sound refl e
    dispatch-edited (set_new_rewards _) s' edits sound e = edit_swap-holds _ s' sound refl e

    -- Where the second account holds a swap, and the fields of the edited swap are of their widths, admin
    -- data that pauses or unpauses a swap or sets its fees or rewards, if it is processed, leaves the edited
    -- swap in that account and every other account as it was.
    pub process_admin_instruction-edited :
        (i : AdminInstruction) (input : Bytes) (s' : Store)
        → Instruction.unpack rt.unpack_unchecked input ≡ ok i
        → EditsSwap i
        → IsSwapInfo (edited i old)
        → process_admin_instruction rt program_id (config_info ∷ swap_info ∷ others) input s ≡ ok s'
        → (load rt swap_pack s' swap_info ≡ ok (edited i old)) × IsWrite s s' swap_info.key
    unfolding process_admin_instruction
    process_admin_instruction-edited i input s' read edits sound e0 =
        dispatch-edited i s' edits sound (sym (>>=-ok _ _ read) ∙ e0)

    -- Where the first two accounts are the program's and hold a configuration and a swap, whose fields are
    -- of their widths, and the third is the configuration's admin, who has signed, the swap can be paused:
    -- the instruction succeeds and leaves a paused swap.
    pub process_pause_live :
        (admin_info : AccountInfo) (rest : List AccountInfo) (config : ConfigInfo)
        → others ≡ admin_info ∷ rest
        → ((s config_info.key).owner ≡ program_id) × ((s swap_info.key).owner ≡ program_id)
        → load rt config_pack s config_info ≡ ok config
        → (admin_info.key ≡ config.admin_key) × (admin_info.is_signer ≡ true)
        → IsSwapInfo (edited pause old)
        → (s' : Store) × (process_pause rt program_id (config_info ∷ swap_info ∷ others) s ≡ ok s')
          × (load rt swap_pack s' swap_info ≡ ok (edited pause old))
    unfolding edit_swap
    process_pause_live admin_info rest config o owned ec named sound =
        let (s', es) =
          load-save rt lawful swap_pack IsSwapInfo swap_pack-IsPack (edited pause old) old s
            swap_info sound held in
        let e : process_pause rt program_id (config_info ∷ swap_info ∷ others) s ≡ ok s' =
          >>=-ok _ _ (lawful.next_of_some _ config_info)
          ∙ (>>=-ok _ _ (lawful.next_of_some _ swap_info)
              ∙ (>>=-ok _ _ (ap rt.next_account_info o ∙ lawful.next_of_some rest admin_info)
                  ∙ (>>=-ok _ _
                        (admitted-intro s config_info swap_info admin_info config owned ec named)
                      ∙ (>>=-ok _ _ held ∙ es)))) in
        let (holds, _) = edit_swap-holds (edited pause) s' sound refl e in (s', e, holds)

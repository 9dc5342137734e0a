-- ===== src/Instruction/Admin/RoundTrip.antt =====
-- A packed admin instruction is read back.
use deltafi_contracts.Prelude.{
  ℕ, zero, suc, ◌<◌, ◌^◌, ◌≡◌, refl, ap, ◌∙◌, [], ◌∷◌, ◌++◌, length, take, drop, take_all, drop_all,
  arith, length-append,
}
use deltafi_contracts.Outcome.{Result, ok, ◌>>=◌, >>=-ok}
use deltafi_contracts.Bytes.{Bytes, ok_or-take_le, array_ref-enough}
use deltafi_contracts.Instruction.Read.{unpack_u8, unpack_pubkey}
use deltafi_contracts.State.Fees.{Fees}
use deltafi_contracts.State.Fees.Packing as FeesPacking
use deltafi_contracts.State.Fees.Packing.{IsFees}
use deltafi_contracts.State.Rewards.{Rewards}
use deltafi_contracts.State.Rewards.Packing as RewardsPacking
use deltafi_contracts.State.Rewards.Packing.{IsRewards}
use deltafi_contracts.Instruction.Admin.{
  AdminInitializeData, AdminInstruction, initialize, pause, unpause, set_fee_account,
  commit_new_admin, set_new_fees, set_new_rewards, fees_size, rewards_size, fees_from_slice,
  rewards_from_slice, split_at, IsUnpackUnchecked, unpack_initialize, unpack_tagged, unpack, pack,
}

-- The numbers of an instruction are of their machine widths.
abbrev pub IsAdminInstruction : AdminInstruction → Type 0
IsAdminInstruction (initialize i) = IsFees i.fees × IsRewards i.rewards
IsAdminInstruction (commit_new_admin new_admin_key) = new_admin_key < 256 ^ 32
IsAdminInstruction (set_new_fees fees) = IsFees fees
IsAdminInstruction (set_new_rewards rewards) = IsRewards rewards
IsAdminInstruction pause = Unit
IsAdminInstruction unpause = Unit
IsAdminInstruction set_fee_account = Unit

split_at-append : (xs ys : Bytes) (n : ℕ) → length xs ≡ n → split_at (xs ++ ys) n ≡ ok (xs, ys)
unfolding split_at
split_at-append xs ys n e =
    array_ref-enough n (xs ++ ys) _ (omega (arith, length-append xs ys)) ∙ ap ok (parts xs ys n e)
  where
    parts :
        (xs ys : Bytes) (n : ℕ)
        → length xs ≡ n
        → ◌≡◌ {A = Bytes × Bytes} (take n (xs ++ ys), drop n (xs ++ ys)) (xs, ys)
    parts [] ys zero e = refl
    parts [] ys (suc n) e = ground arith
    parts (x ∷ xs) ys zero e = ground arith
    parts (x ∷ xs) ys (suc n) e =
        ap (λ (p : Bytes × Bytes). (x ∷ p.0, p.1)) (parts xs ys n (omega arith))

split_at-all : (xs : Bytes) (n : ℕ) → length xs ≡ n → split_at xs n ≡ ok (xs, [])
unfolding split_at
split_at-all xs n e =
    array_ref-enough n xs _ (omega arith) ∙ rw (take_all n xs e, drop_all n xs e) refl

fees_from_slice-pack :
    (f : Fees) → IsFees f → fees_from_slice (FeesPacking.pack_into_slice f []) ≡ ok f
unfolding fees_from_slice
fees_from_slice-pack f h = >>=-ok _ _ (FeesPacking.fees_unpack-pack f [] h)

rewards_from_slice-pack :
    (r : Rewards) → IsRewards r → rewards_from_slice (RewardsPacking.pack_into_slice r []) ≡ ok r
unfolding rewards_from_slice
rewards_from_slice-pack r h = >>=-ok _ _ (RewardsPacking.rewards_unpack-pack r [] h)

module _ (unpack_unchecked : (A : Type 0) → ℕ → (Bytes → Result A) → Bytes → Result A)
    (unchecked : IsUnpackUnchecked unpack_unchecked) where
  read_fees :
      (f : Fees)
      → IsFees f
      → unpack_unchecked Fees fees_size fees_from_slice (FeesPacking.pack_into_slice f []) ≡ ok f
  read_fees f h =
      unchecked.at_size fees_size fees_from_slice (FeesPacking.pack_into_slice f [])
        (FeesPacking.length-pack_into_slice f [])
      ∙ fees_from_slice-pack f h

  read_rewards :
      (r : Rewards)
      → IsRewards r
      → unpack_unchecked Rewards rewards_size rewards_from_slice
          (RewardsPacking.pack_into_slice r [])
        ≡ ok r
  read_rewards r h =
      unchecked.at_size rewards_size rewards_from_slice (RewardsPacking.pack_into_slice r [])
        (RewardsPacking.length-pack_into_slice r [])
      ∙ rewards_from_slice-pack r h

  read_initialize :
      (i : AdminInitializeData)
      → IsFees i.fees
      → IsRewards i.rewards
      → unpack_initialize unpack_unchecked
          (FeesPacking.pack_into_slice i.fees [] ++ RewardsPacking.pack_into_slice i.rewards [])
        ≡ ok (initialize i)
  unfolding unpack_initialize
  read_initialize i f r =
      >>=-ok _ _ (
        split_at-append (FeesPacking.pack_into_slice i.fees []) _ fees_size
          (FeesPacking.length-pack_into_slice i.fees []))
      ∙ >>=-ok _ _ (read_fees i.fees f)
      ∙ >>=-ok _ _ (
          split_at-all (RewardsPacking.pack_into_slice i.rewards []) rewards_size
            (RewardsPacking.length-pack_into_slice i.rewards []))
      ∙ >>=-ok _ _ (read_rewards i.rewards r)

  -- An instruction whose numbers are of their widths is read back as it was packed, where
  -- `unpack_unchecked` unpacks data of the packed length.
  pub admin_instruction_unpack-pack :
      (i : AdminInstruction) → IsAdminInstruction i → unpack unpack_unchecked (pack i) ≡ ok i
  unfolding unpack unpack_tagged pack unpack_u8 unpack_pubkey ◌>>=◌
  admin_instruction_unpack-pack (initialize i) (f, r) = read_initialize i f r
  admin_instruction_unpack-pack pause h = refl
  admin_instruction_unpack-pack unpause h = refl
  admin_instruction_unpack-pack set_fee_account h = refl
  admin_instruction_unpack-pack (commit_new_admin new_admin_key) h = ok_or-take_le 32 _ _ h
  admin_instruction_unpack-pack (set_new_fees fees) h = >>=-ok _ _ (read_fees fees h)
  admin_instruction_unpack-pack (set_new_rewards rewards) h = >>=-ok _ _ (read_rewards rewards h)

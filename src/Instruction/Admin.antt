-- ===== src/Instruction/Admin.antt =====
-- instruction.rs: `AdminInstruction`. `Pack::unpack_unchecked` belongs to solana_program and is the
-- parameter `unpack_unchecked`, of the packed length and the type's own `unpack_from_slice`.
pub mod RoundTrip
use deltafi_contracts.Prelude.{ℕ, ◌≡◌, [], ◌∷◌, ◌++◌, ◌==◌, ltb, if◌then◌else◌, length, take, drop}
use deltafi_contracts.Outcome.{Result, ok, panicked, fail, ◌>>=◌, invalid_instruction}
use deltafi_contracts.Bytes.{Bytes, put_le, array_ref}
use deltafi_contracts.Instruction.Read.{unpack_u8, unpack_pubkey}
use deltafi_contracts.State.Fees.{Fees}
use deltafi_contracts.State.Fees.Packing as FeesPacking
use deltafi_contracts.State.Rewards.{Rewards}
use deltafi_contracts.State.Rewards.Packing as RewardsPacking
use deltafi_contracts.State.Position.{Pubkey}

pub record AdminInitializeData : Type 0 where
  pub fees : Fees
  pub rewards : Rewards

pub data AdminInstruction : Type 0 where
  initialize : AdminInitializeData → AdminInstruction
  pause unpause set_fee_account : AdminInstruction
  commit_new_admin : Pubkey → AdminInstruction
  set_new_fees : Fees → AdminInstruction
  set_new_rewards : Rewards → AdminInstruction

abbrev pub fees_size : ℕ
fees_size = 64

abbrev pub rewards_size : ℕ
rewards_size = 40

-- `unpack_from_slice` reads the front of the slice, and what follows is not looked at.
unfoldable pub fees_from_slice : Bytes → Result Fees
fees_from_slice input = do (fees', _) ← FeesPacking.unpack_from_slice input; ok fees'

unfoldable pub rewards_from_slice : Bytes → Result Rewards
rewards_from_slice input = do (rewards', _) ← RewardsPacking.unpack_from_slice input; ok rewards'

-- `split_at`, which panics out of range.
unfoldable pub split_at : Bytes → ℕ → Result (Bytes × Bytes)
split_at input n = array_ref n input (ok (take n input, drop n input))

-- Only data of the packed length is unpacked; what other data gives is left open.
pub record IsUnpackUnchecked
    (unpack_unchecked : (A : Type 0) → ℕ → (Bytes → Result A) → Bytes → Result A) : Type 1 where
  pub at_size :
      {A : Type 0} (size : ℕ) (unpack_from_slice : Bytes → Result A) (input : Bytes)
      → length input ≡ size
      → unpack_unchecked A size unpack_from_slice input ≡ unpack_from_slice input

module _ (unpack_unchecked : (A : Type 0) → ℕ → (Bytes → Result A) → Bytes → Result A) where
  unfoldable pub unpack_initialize : Bytes → Result AdminInstruction
  unpack_initialize rest = do
    (fees_slice, rest) ← split_at rest fees_size
    fees' ← unpack_unchecked Fees fees_size fees_from_slice fees_slice
    (rewards_slice, _) ← split_at rest rewards_size
    rewards' ← unpack_unchecked Rewards rewards_size rewards_from_slice rewards_slice
    ok (initialize (record { fees = fees'; rewards = rewards' }))

  unfoldable pub unpack_tagged : ℕ → Bytes → Result AdminInstruction
  unpack_tagged tag rest =
      if tag == 100
      then unpack_initialize rest
      else if tag == 101
      then ok pause
      else if tag == 102
      then ok unpause
      else if tag == 103
      then ok set_fee_account
      else if tag == 104
      then (do (new_admin_key, _) ← unpack_pubkey rest; ok (commit_new_admin new_admin_key))
      else if tag == 105
      then (do
        fees' ← unpack_unchecked Fees fees_size fees_from_slice rest
        ok (set_new_fees fees'))
      else if tag == 106
      then (do
        rewards' ← unpack_unchecked Rewards rewards_size rewards_from_slice rest
        ok (set_new_rewards rewards'))
      else fail invalid_instruction

  unfoldable pub unpack : Bytes → Result AdminInstruction
  unpack input = do (tag, rest) ← unpack_u8 input; unpack_tagged tag rest

unfoldable pub pack : AdminInstruction → Bytes
pack (initialize i) =
    100 ∷ (FeesPacking.pack_into_slice i.fees [] ++ RewardsPacking.pack_into_slice i.rewards [])
pack pause = 101 ∷ []
pack unpause = 102 ∷ []
pack set_fee_account = 103 ∷ []
pack (commit_new_admin new_admin_key) = 104 ∷ put_le 32 new_admin_key []
pack (set_new_fees fees) = 105 ∷ FeesPacking.pack_into_slice fees []
pack (set_new_rewards rewards) = 106 ∷ RewardsPacking.pack_into_slice rewards []

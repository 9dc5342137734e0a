-- ===== src/State/Config/Packing.antt =====
-- The packed configuration is read back.
use deltafi_contracts.Prelude.{ℕ, ◌+◌, ◌<◌, ◌≤◌, ◌^◌, ◌≡◌, ◌∙◌, length, arith}
use deltafi_contracts.Outcome.{Result, ok, ◌>>=◌, >>=-ok}
use deltafi_contracts.Bytes.{Bytes, unwrap-take_le, length-put_le, array_ref-enough}
use deltafi_contracts.State.Fees.Packing.{IsFees}
use deltafi_contracts.State.Fees.Packing as Fees
use deltafi_contracts.State.Rewards.Packing.{IsRewards}
use deltafi_contracts.State.Rewards.Packing as Rewards
use deltafi_contracts.State.Config.{
  ConfigInfo, program_version, checked_version, pack_into_slice, unpack_from_slice,
}

-- The fields are of their machine widths, and the version is one of this program's.
pub record IsConfigInfo (c : ConfigInfo) : Type 0 where
  pub version : c.version ≤ program_version
  pub bump_seed : c.bump_seed < 256 ^ 1
  pub admin_key : c.admin_key < 256 ^ 32
  pub deltafi_mint : c.deltafi_mint < 256 ^ 32
  pub fees : IsFees c.fees
  pub rewards : IsRewards c.rewards

length-pack_into_slice :
    (c : ConfigInfo) (rest : Bytes) → length (pack_into_slice c rest) ≡ 170 + length rest
unfolding pack_into_slice
length-pack_into_slice c rest =
    simp (length-put_le, Fees.length-pack_into_slice, Rewards.length-pack_into_slice) (omega arith)

read_version {ℓ} :
    {A : Type ℓ} (version : ℕ) (f : ℕ → Result A)
    → version ≤ program_version
    → (checked_version version >>= f) ≡ f version
unfolding checked_version
read_version version f h = >>=-ok (checked_version version) f (ground arith)

-- A configuration whose fields fit takes 170 bytes and is read back as it was packed, whatever
-- bytes follow.
pub config_info_unpack-pack :
    (c : ConfigInfo) (rest : Bytes)
    → IsConfigInfo c
    → (unpack_from_slice (pack_into_slice c rest) ≡ ok (c, rest))
      × (length (pack_into_slice c rest) ≡ 170 + length rest)
unfolding pack_into_slice unpack_from_slice
config_info_unpack-pack c rest h =
    let size = length-pack_into_slice c rest in
    (
      array_ref-enough 170 (pack_into_slice c rest) _ (omega arith)
          ∙ unwrap-take_le 1 _ (omega (arith, h.version))
          ∙ read_version c.version _ h.version
          ∙ unwrap-take_le 1 _ h.bump_seed
          ∙ unwrap-take_le 32 _ h.admin_key
          ∙ unwrap-take_le 32 _ h.deltafi_mint
          ∙ >>=-ok _ _ (Fees.fees_unpack-pack c.fees _ h.fees)
          ∙ >>=-ok _ _ (Rewards.rewards_unpack-pack c.rewards rest h.rewards),
      size,
    )

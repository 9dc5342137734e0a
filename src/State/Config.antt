-- ===== src/State/Config.antt =====
-- state/config.rs: the configuration of the program, and its packed form of 170 bytes.
pub mod Packing
use deltafi_contracts.Prelude.{ℕ, Bool, ◌==◌, not, ltb, if◌then◌else◌}
use deltafi_contracts.Outcome.{Result, ok, err, unwrap, invalid_account_data, ◌>>=◌}
use deltafi_contracts.Bytes.{Bytes, put_le, take_le, array_ref}
use deltafi_contracts.State.Fees
use deltafi_contracts.State.Fees.Packing as FeesPacking
use deltafi_contracts.State.Rewards
use deltafi_contracts.State.Rewards.Packing as RewardsPacking
use deltafi_contracts.State.Position.{Pubkey}

abbrev pub program_version : ℕ
program_version = 1

abbrev pub uninitialized_version : ℕ
uninitialized_version = 0

pub record ConfigInfo : Type 0 where
  pub version : ℕ
  pub bump_seed : ℕ
  pub admin_key : Pubkey
  pub deltafi_mint : Pubkey
  pub fees : Fees.Fees
  pub rewards : Rewards.Rewards

abbrev pub is_initialized : ConfigInfo → Bool
is_initialized c = not (c.version == uninitialized_version)

abbrev pub config_info_size : ℕ
config_info_size = 170

unfoldable pub pack_into_slice : ConfigInfo → Bytes → Bytes
pack_into_slice c rest = put_le 1 c.version (
    put_le 1 c.bump_seed (
      put_le 32 c.admin_key (
        put_le 32 c.deltafi_mint
          (FeesPacking.pack_into_slice c.fees (RewardsPacking.pack_into_slice c.rewards rest)))))

-- A version above the program's is refused.
unfoldable pub checked_version : ℕ → Result ℕ
checked_version version =
    if ltb program_version version then err invalid_account_data else ok version

unfoldable pub unpack_from_slice : Bytes → Result (ConfigInfo × Bytes)
unpack_from_slice src = array_ref config_info_size src do
  (version_byte, src) ← unwrap (take_le 1 src)
  checked ← checked_version version_byte
  (seed, src) ← unwrap (take_le 1 src)
  (admin, src) ← unwrap (take_le 32 src)
  (mint, src) ← unwrap (take_le 32 src)
  (config_fees, src) ← FeesPacking.unpack_from_slice src
  (config_rewards, src) ← RewardsPacking.unpack_from_slice src
  ok (
    record {
      version = checked;
      bump_seed = seed;
      admin_key = admin;
      deltafi_mint = mint;
      fees = config_fees;
      rewards = config_rewards;
    },
    src,
  )

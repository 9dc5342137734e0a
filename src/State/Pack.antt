-- ===== src/State/Pack.antt =====
-- The trait `Pack` with `IsInitialized`, as the record of what a type of src/state gives for it, and its
-- five instances. A packer writes over the `size` bytes that the buffer held.
pub mod Laws
use deltafi_contracts.Prelude.{ℕ, Bool, true, [], drop}
use deltafi_contracts.Outcome.{Result, ok, ◌>>=◌}
use deltafi_contracts.Bytes.{Bytes}
use deltafi_contracts.State.Fees.{Fees}
use deltafi_contracts.State.Fees.Packing as FeesPacking
use deltafi_contracts.State.Rewards.{Rewards}
use deltafi_contracts.State.Rewards.Packing as RewardsPacking
use deltafi_contracts.State.Config
use deltafi_contracts.State.Config.{ConfigInfo}
use deltafi_contracts.State.Swap
use deltafi_contracts.State.Swap.{SwapInfo}
use deltafi_contracts.State.Liquidity.{LiquidityProvider}
use deltafi_contracts.State.Liquidity.Packing as ProviderPacking

pub record Pack (A : Type 0) : Type 0 where
  pub size : ℕ
  pub unpack_from_slice : Bytes → Result A
  pub pack_into_slice : A → Bytes → Result Bytes
  pub is_initialized : A → Bool

-- A reader of the front of a slice, without the bytes that follow.
unfoldable pub front : {A : Type 0} → Result (A × Bytes) → Result A
front read = do (value, _) ← read; ok value

abbrev pub fees_pack : Pack Fees
fees_pack = record {
  size = 64;
  unpack_from_slice = λ input. front (FeesPacking.unpack_from_slice input);
  pack_into_slice = λ value _. ok (FeesPacking.pack_into_slice value []);
  is_initialized = λ _. true;
}

abbrev pub rewards_pack : Pack Rewards
rewards_pack = record {
  size = 40;
  unpack_from_slice = λ input. front (RewardsPacking.unpack_from_slice input);
  pack_into_slice = λ value _. ok (RewardsPacking.pack_into_slice value []);
  is_initialized = λ _. true;
}

abbrev pub config_pack : Pack ConfigInfo
config_pack = record {
  size = Config.config_info_size;
  unpack_from_slice = λ input. front (Config.unpack_from_slice input);
  pack_into_slice = λ value _. ok (Config.pack_into_slice value []);
  is_initialized = Config.is_initialized;
}

abbrev pub swap_pack : Pack SwapInfo
swap_pack = record {
  size = Swap.swap_info_size;
  unpack_from_slice = λ input. front (Swap.unpack_from_slice input);
  pack_into_slice = λ value _. Swap.pack_into_slice value [];
  is_initialized = λ value. value.is_initialized;
}

-- The head of a provider takes 34 bytes, and the slots of the positions the rest.
abbrev pub provider_pack : Pack LiquidityProvider
provider_pack = record {
  size = ProviderPacking.liquidity_provider_size;
  unpack_from_slice = ProviderPacking.unpack_from_slice;
  pack_into_slice = λ value output. ProviderPacking.pack_into_slice value (drop 34 output);
  is_initialized = λ value. value.is_initialized;
}

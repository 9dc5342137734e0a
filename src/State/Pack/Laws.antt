-- ===== src/State/Pack/Laws.antt =====
-- The instances read back what they pack.
use deltafi_contracts.Prelude.{
  ◌<◌, ◌≤◌, ◌^◌, ◌≡◌, refl, ◌∙◌, [], length, drop, All, length-drop, arith,
}
use deltafi_contracts.Outcome.{Result, ok, >>=-ok}
use deltafi_contracts.Bytes.{Bytes}
use deltafi_contracts.State.Config.Packing.{IsConfigInfo, config_info_unpack-pack}
use deltafi_contracts.State.Swap.Packing.{IsSwapInfo, swap_info_unpack-pack}
use deltafi_contracts.State.Liquidity.{LiquidityProvider, max_liquidity_positions}
use deltafi_contracts.State.Liquidity.Packing.RoundTrip.{IsPosition, provider_unpack-pack}
use deltafi_contracts.State.Pack.{Pack, front, config_pack, swap_pack, provider_pack}

-- What is packed over `size` bytes fills them, and is read back.
pub record IsPack {A : Type 0} (p : Pack A) (Valid : A → Type 0) : Type 0 where
  pub round_trip :
      (value : A) (output : Bytes)
      → Valid value
      → length output ≡ p.size
      → (bytes : Bytes) × (p.pack_into_slice value output ≡ ok bytes)
        × (length bytes ≡ p.size)
        × (p.unpack_from_slice bytes ≡ ok value)

-- The fields of the provider are of their widths, and its positions fit.
pub record IsProvider (p : LiquidityProvider) : Type 0 where
  pub owner : p.owner < 256 ^ 32
  pub positions : All IsPosition p.positions
  pub few : length p.positions ≤ max_liquidity_positions

front-ok :
    {A : Type 0} (read : Result (A × Bytes)) {value : A} {rest : Bytes}
    → read ≡ ok (value, rest)
    → front read ≡ ok value
unfolding front
front-ok read e = >>=-ok read _ e

pub config_pack-IsPack : IsPack config_pack IsConfigInfo
config_pack-IsPack = record {
  round_trip = λ value output valid size.
      let (back, long) = config_info_unpack-pack value [] valid in (_, refl, long, front-ok _ back);
}

pub swap_pack-IsPack : IsPack swap_pack IsSwapInfo
swap_pack-IsPack = record {
  round_trip = λ value output valid size.
      let (bytes, packs, back, long) = swap_info_unpack-pack value [] valid in
      (bytes, packs, long, front-ok _ back);
}

pub provider_pack-IsPack : IsPack provider_pack IsProvider
provider_pack-IsPack = record {
  round_trip = λ value output valid size.
      provider_unpack-pack value (drop 34 output) (length-drop 34 output ∙ omega arith) valid.owner
        valid.positions valid.few;
}

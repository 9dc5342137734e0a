-- ===== src/State/Liquidity.antt =====
-- state/liquidity.rs: `LiquidityProvider`. A reference into `positions` is its index, and a method
-- that takes `&mut self` returns the new state.
pub mod Pools
pub mod Claims
pub mod Amounts
pub mod Packing
use deltafi_contracts.Prelude.{
  ℕ, suc, ◌+◌, Bool, true, false, Option, none, some, List, [], ◌∷◌, ◌++◌, ◌==◌, ◌&&◌,
  if◌then◌else◌, length, get_elem?, set, remove,
}
use deltafi_contracts.Prelude.Int.{ℤ}
use deltafi_contracts.Outcome.{
  Result, ok, err, panicked, ok_or, unwrap, fail, ◌>>=◌, liquidity_position_empty,
  invalid_position_key,
}
use deltafi_contracts.State.Position
use deltafi_contracts.State.Position.{Pubkey, LiquidityPosition}

abbrev pub max_liquidity_positions : ℕ
max_liquidity_positions = 10

pub record LiquidityProvider : Type 0 where
  pub is_initialized : Bool
  pub owner : Pubkey
  pub positions : List LiquidityPosition

abbrev pub default : LiquidityProvider
default = record { is_initialized = false; owner = 0; positions = [] }

abbrev pub init : LiquidityProvider → Pubkey → List LiquidityPosition → LiquidityProvider
init p owner positions = record p { is_initialized = true; owner = owner; positions = positions }

abbrev pub new : Pubkey → List LiquidityPosition → LiquidityProvider
new owner positions = init default owner positions

-- `iter().position(|position| position.pool == pool)`
unfoldable pub find_index : Pubkey → List LiquidityPosition → Option ℕ
find_index pool [] = none
find_index pool (p ∷ ps) =
    if p.pool == pool
    then some 0
    else elim (find_index pool ps) [ none ↦ none | some i ↦ some (suc i) ]

unfoldable pub find_position_index : LiquidityProvider → Pubkey → Option ℕ
find_position_index provider pool = find_index pool provider.positions

-- `.unwrap()` and indexing panic out of bounds.
unfoldable pub position_at : LiquidityProvider → ℕ → Result LiquidityPosition
position_at provider index = unwrap (get_elem? provider.positions index)

unfoldable pub find_position : LiquidityProvider → Pubkey → Result (LiquidityPosition × ℕ)
find_position provider pool = elim provider.positions [
  | [] ↦ fail liquidity_position_empty
  | _ ↦ do
    position_index ← ok_or (find_position_index provider pool) invalid_position_key
    position ← position_at provider position_index
    ok (position, position_index)
]

-- The provider with another position at the index.
abbrev pub set_position : LiquidityProvider → ℕ → LiquidityPosition → LiquidityProvider
set_position provider index position = record provider {
  positions = set provider.positions index position;
}

-- `LiquidityPosition::new(…).unwrap()`
abbrev pub unwrap_result : Result LiquidityPosition → Result LiquidityPosition
unwrap_result (ok p) = ok p
unwrap_result (err _) = panicked
unwrap_result panicked = panicked

-- The provider with the position, and the position's index.
unfoldable pub find_or_add_position :
    LiquidityProvider → Pubkey → ℤ → Result (LiquidityProvider × ℕ)
find_or_add_position provider pool current_ts = elim (find_position_index provider pool) [
  | some position_index ↦ ok (provider, position_index)
  | none ↦ do
    position ← unwrap_result (Position.new pool current_ts)
    ok (
      record provider { positions = provider.positions ++ (position ∷ []) },
      length provider.positions,
    )
]

unfoldable pub withdraw : LiquidityProvider → ℕ → ℕ → Result LiquidityProvider
withdraw provider withdraw_amount position_index = do
  position ← position_at provider position_index
  if withdraw_amount == position.liquidity_amount && position.rewards_owed == 0
      then ok (record provider { positions = remove provider.positions position_index })
      else (do
        position' ← Position.withdraw position withdraw_amount
        ok (record provider { positions = set provider.positions position_index position' }))

unfoldable pub claim : LiquidityProvider → Pubkey → Result (LiquidityProvider × ℕ)
claim provider pool = do
  (position, position_index) ← find_position provider pool
  (position', claimed_amount) ← Position.claim_rewards position
  let positions' =
      if position'.liquidity_amount == 0 && position'.rewards_estimated == 0
      then remove provider.positions position_index
      else set provider.positions position_index position'
  ok (record provider { positions = positions' }, claimed_amount)

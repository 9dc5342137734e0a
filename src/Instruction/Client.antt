-- ===== src/Instruction/Client.antt =====
-- instruction.rs: the instructions that a client sends: the accounts in the order that the handlers take them
-- in, and the data. The keys of the clock, the rent and the token program are parameters.
pub mod Admin
pub mod Swap
use deltafi_contracts.Prelude.{Bool, true, false, List, [], ◌∷◌}
use deltafi_contracts.Bytes.{Bytes}
use deltafi_contracts.State.Position.{Pubkey}
use deltafi_contracts.Runtime.{AccountInfo}

-- solana_program's `AccountMeta` and `Instruction`
pub record AccountMeta : Type 0 where
  pub pubkey : Pubkey
  pub is_signer : Bool
  pub is_writable : Bool

pub record Instruction : Type 0 where
  pub program_id : Pubkey
  pub accounts : List AccountMeta
  pub data_bytes : Bytes

-- `AccountMeta::new`
abbrev pub account : Pubkey → Bool → AccountMeta
account key signs = record { pubkey = key; is_signer = signs; is_writable = true }

-- `AccountMeta::new_readonly`
abbrev pub readonly : Pubkey → Bool → AccountMeta
readonly key signs = record { pubkey = key; is_signer = signs; is_writable = false }

abbrev pub made : Pubkey → Bytes → List AccountMeta → Instruction
made program input metas = record { program_id = program; accounts = metas; data_bytes = input }

-- The accounts as the runtime hands them to the program, which it does if those that are to sign have signed.
abbrev pub handed : List AccountMeta → List AccountInfo
handed [] = []
handed (meta ∷ metas) = record { key = meta.pubkey; is_signer = meta.is_signer } ∷ handed metas

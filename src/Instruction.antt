-- ===== src/Instruction.antt =====
-- instruction.rs: the instructions and their encoding in bytes. The first byte is the tag.
pub mod Read
pub mod Swap
pub mod Admin
pub mod Client
use deltafi_contracts.Prelude.{ℕ, Option, none, some, [], ◌∷◌, leb, ◌&&◌, if◌then◌else◌}
use deltafi_contracts.Bytes.{Bytes}

pub data InstructionType : Type 0 where
  admin swap : InstructionType

unfoldable pub check : Bytes → Option InstructionType
check [] = none
check (tag ∷ rest) =
    if leb 100 tag && leb tag 106
    then some InstructionType.admin
    else if leb tag 7
    then some InstructionType.swap
    else none

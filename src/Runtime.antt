-- ===== src/Runtime.antt =====
-- What the program takes from outside src: the accounts of the Solana runtime, the helpers of
-- solana_program, the SPL token program and the Pyth oracle. Accounts that share a key share what they
-- hold, so an account is its key, and what it holds stands in a store.
pub mod Accounts
use deltafi_contracts.Prelude.{
  ℕ, ◌≡◌, ◌≢◌, true, Bool, Option, List, ◌∷◌, ◌==◌, if◌then◌else◌, length,
}
use deltafi_contracts.Prelude.Int.{ℤ}
use deltafi_contracts.Outcome.{Result, ok}
use deltafi_contracts.Bytes.{Bytes}
use deltafi_contracts.State.Position.{Pubkey}
use deltafi_contracts.State.Pack.{Pack}

-- `AccountInfo`, less what the store holds.
pub record AccountInfo : Type 0 where
  pub key : Pubkey
  pub is_signer : Bool

pub record Account : Type 0 where
  pub owner : Pubkey
  pub lamports : ℕ
  pub contents : Bytes

abbrev pub Store : Type 0
Store = Pubkey → Account

-- A write through the `data` of an account.
abbrev pub write : Store → Pubkey → Bytes → Store
write store key bytes other =
    if other == key then record (store other) { contents = bytes } else store other

pub record Clock : Type 0 where
  pub slot : ℕ
  pub unix_timestamp : ℤ

-- The fields of spl_token's `Account` and `Mint` that the program reads.
pub record TokenAccount : Type 0 where
  pub mint : Pubkey
  pub owner : Pubkey
  pub amount : ℕ
  pub delegate : Option Pubkey
  pub close_authority : Option Pubkey

pub record Mint : Type 0 where
  pub mint_authority : Option Pubkey
  pub supply : ℕ
  pub freeze_authority : Option Pubkey

-- The fields of Pyth's `Price` that the program reads.
pub data PriceType : Type 0 where
  unknown price : PriceType

pub record PriceInfo : Type 0 where
  pub price : ℤ
  pub conf : ℕ

pub record Price : Type 0 where
  pub ptype : PriceType
  pub expo : ℤ
  pub valid_slot : ℕ
  pub agg : PriceInfo

-- The instructions of the token program that the program issues: the first key is the token program.
pub data TokenCall : Type 0 where
  transfer : (token_program source destination authority : Pubkey) (amount : ℕ) → TokenCall
  mint_to : (token_program mint destination authority : Pubkey) (amount : ℕ) → TokenCall
  burn : (token_program account mint authority : Pubkey) (amount : ℕ) → TokenCall
  set_freeze_authority :
      (token_program account : Pubkey) (new_authority : Option Pubkey) (owner : Pubkey) → TokenCall

abbrev pub token_program_of : TokenCall → Pubkey
token_program_of (transfer token_program _ _ _ _) = token_program
token_program_of (mint_to token_program _ _ _ _) = token_program
token_program_of (burn token_program _ _ _ _) = token_program
token_program_of (set_freeze_authority token_program _ _ _) = token_program

pub record Runtime : Type 1 where
  pub next_account_info : List AccountInfo → Result (AccountInfo × List AccountInfo)
  pub clock_from_account_info : Store → AccountInfo → Result Clock
  -- `Rent::from_account_info`, as its `is_exempt` of the lamports and the length
  pub rent_from_account_info : Store → AccountInfo → Result (ℕ → ℕ → Bool)
  pub create_program_address : Pubkey → ℕ → Pubkey → Option Pubkey
  pub find_program_address : Pubkey → Pubkey → Pubkey × ℕ
  pub unpack_unchecked : (A : Type 0) → ℕ → (Bytes → Result A) → Bytes → Result A
  pub unpack : (A : Type 0) → Pack A → Bytes → Result A
  pub pack : (A : Type 0) → Pack A → A → Bytes → Result Bytes
  pub token_account : Bytes → Option TokenAccount
  pub mint : Bytes → Option Mint
  pub load_price : Bytes → Result Price
  pub invoke : TokenCall → Store → Result Store
  -- the seeds of the signing authority are an account's key and a nonce
  pub invoke_signed : Pubkey → ℕ → TokenCall → Store → Result Store

-- What is relied on: an iterator hands accounts out in order; a value is unpacked from initialized data of
-- its packed length, and packed into such data.
pub record IsRuntime (rt : Runtime) : Type 1 where
  pub next_in_order :
      (accounts rest : List AccountInfo) (info : AccountInfo)
      → rt.next_account_info accounts ≡ ok (info, rest)
      → accounts ≡ info ∷ rest
  pub next_of_some :
      (rest : List AccountInfo) (info : AccountInfo)
      → rt.next_account_info (info ∷ rest) ≡ ok (info, rest)
  pub unpacks :
      (A : Type 0) (p : Pack A) (value : A) (input : Bytes)
      → length input ≡ p.size
      → p.unpack_from_slice input ≡ ok value
      → p.is_initialized value ≡ true
      → rt.unpack A p input ≡ ok value
  pub unpacked :
      (A : Type 0) (p : Pack A) (value : A) (input : Bytes)
      → rt.unpack A p input ≡ ok value
      → (length input ≡ p.size)
        × (p.unpack_from_slice input ≡ ok value)
        × (p.is_initialized value ≡ true)
  pub packs :
      (A : Type 0) (p : Pack A) (value : A) (output : Bytes)
      → length output ≡ p.size
      → rt.pack A p value output ≡ p.pack_into_slice value output
  pub packed :
      (A : Type 0) (p : Pack A) (value : A) (output bytes : Bytes)
      → rt.pack A p value output ≡ ok bytes
      → (length output ≡ p.size) × (p.pack_into_slice value output ≡ ok bytes)

-- A call of a program changes no account but those that the program owns.
pub record KeepsOthers (rt : Runtime) : Type 1 where
  pub invoke_keeps :
      (call : TokenCall) (s s' : Store) (key : Pubkey)
      → rt.invoke call s ≡ ok s'
      → (s key).owner ≢ token_program_of call
      → s' key ≡ s key
  pub invoke_signed_keeps :
      (seed : Pubkey) (nonce : ℕ) (call : TokenCall) (s s' : Store) (key : Pubkey)
      → rt.invoke_signed seed nonce call s ≡ ok s'
      → (s key).owner ≢ token_program_of call
      → s' key ≡ s key

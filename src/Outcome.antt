-- ===== src/Outcome.antt =====
-- How an instruction ends (error.rs and the `Result` and panics of Rust): with a value, with a
-- `ProgramError`, or by a panic, which aborts the transaction.
use deltafi_contracts.Prelude.{◌≡◌, refl, Bool, true, false, Option, none, some}

-- enum SwapError
pub data SwapError : Type 0 where
  already_in_use invalid_admin active_transfer no_active_transfer admin_deadline_exceeded :
      SwapError
  unauthorized invalid_account_owner invalid_owner invalid_signer invalid_output_owner : SwapError
  incorrect_swap_account invalid_program_address invalid_close_authority : SwapError
  invalid_freeze_authority incorrect_token_program_id incorrect_mint expected_mint : SwapError
  repeated_mint expected_account invalid_instruction instruction_unpack_error empty_pool : SwapError
  empty_supply invalid_supply invalid_delegate invalid_input is_paused not_rent_exempt : SwapError
  calculation_failure exceeded_slippage mismatched_decimals invalid_oracle_config : SwapError
  insufficient_liquidity liquidity_position_empty invalid_position_key invalid_claim_time :
      SwapError
  insufficient_claim_amount insufficient_funds withdraw_not_enough : SwapError
  token_initialize_mint_failed invalid_slope : SwapError

-- `custom` is the conversion from SwapError; the others are the runtime's errors that the code
-- returns itself.
pub data ProgramError : Type 0 where
  custom : SwapError → ProgramError
  invalid_account_data invalid_instruction_data incorrect_program_id : ProgramError
  missing_required_signature not_enough_account_keys uninitialized_account : ProgramError

pub data Result {ℓ} (V : Type ℓ) : Type ℓ where
  panicked : Result V
  err : ProgramError → Result V
  ok : V → Result V

-- The operator `?` on a `Result`: the rest of the block runs on the value alone.
infixl 5 ◌>>=◌ ◌>>◌
unfoldable pub ◌>>=◌ {ℓ κ} : {V : Type ℓ} {W : Type κ} → Result V → (V → Result W) → Result W
panicked >>= rest = panicked
err e >>= rest = err e
ok v >>= rest = rest v

-- A statement in front of the rest.
abbrev pub ◌>>◌ {κ} : {W : Type κ} → Result (Unit {0}) → Result W → Result W
statement >> rest = statement >>= λ done. rest

-- `.ok_or(SwapError::e)?`
abbrev pub ok_or {ℓ} : {A : Type ℓ} → Option A → SwapError → Result A
ok_or none e = err (custom e)
ok_or (some a) e = ok a

-- `.unwrap()`
abbrev pub unwrap {ℓ} : {A : Type ℓ} → Option A → Result A
unwrap none = panicked
unwrap (some a) = ok a

abbrev pub fail {ℓ} : {A : Type ℓ} → SwapError → Result A
fail e = err (custom e)

-- `if refused { return Err(e.into()) }`
abbrev pub refuse_if : Bool → SwapError → Result (Unit {0})
refuse_if true e = fail e
refuse_if false e = ok tt

pub ok-injective {ℓ} : {A : Type ℓ} {a b : A} → ok a ≡ ok b → a ≡ b
ok-injective e = cc

-- A block that succeeds, taken apart after its first step: that step returned a value, and a proof goes
-- on with the value as a variable.
pub >>=-ok-elim {ℓ κ μ} :
    {V : Type ℓ} {W : Type κ} {Goal : Type μ} (step : Result V) (rest : V → Result W) {w : W}
    → (step >>= rest) ≡ ok w
    → ((v : V) → step ≡ ok v → rest v ≡ ok w → Goal)
    → Goal
unfolding ◌>>=◌
>>=-ok-elim panicked rest e go = cc
>>=-ok-elim (err _) rest e go = cc
>>=-ok-elim (ok v) rest e go = go v refl e

-- A step that is known to succeed, at the head of a block.
pub >>=-ok {ℓ κ} :
    {A : Type ℓ} {B : Type κ} (m : Result A) (f : A → Result B) {a : A} → m ≡ ok a → (m >>= f) ≡ f a
unfolding ◌>>=◌
>>=-ok m f e = rw e refl

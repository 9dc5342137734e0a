-- ===== src/Tests/Accounts.antt =====
-- A runtime whose token program accepts every call, and accounts in which it keeps samples.
use deltafi_contracts.Prelude.{
  ℕ, ◌≡◌, refl, sym, ap, ◌∙◌, ◌||◌, zero, suc, Bool, true, false, Option, none, some, List, [], ◌∷◌,
  ◌==◌, if◌then◌else◌, length, arith,
}
use deltafi_contracts.Prelude.Int.{pos, negsuc}
use deltafi_contracts.Outcome.{
  Result, ok, err, panicked, ok-injective, ◌>>=◌, >>=-ok-elim, not_enough_account_keys,
  invalid_account_data, uninitialized_account,
}
use deltafi_contracts.Bytes.{Bytes}
use deltafi_contracts.State.Config as Config
use deltafi_contracts.State.Swap as Swap
use deltafi_contracts.State.Swap.{SwapInfo}
use deltafi_contracts.State.Position.{Pubkey}
use deltafi_contracts.State.Pack.{Pack, provider_pack}
use deltafi_contracts.Runtime.{
  Runtime, IsRuntime, KeepsOthers, AccountInfo, Store, Clock, TokenAccount, Mint, Price, price,
}
use deltafi_contracts.Tests.Samples.{swap_info, config_info, provider}

abbrev pub take_next : List AccountInfo → Result (AccountInfo × List AccountInfo)
take_next [] = err not_enough_account_keys
take_next (info ∷ rest) = ok (info, rest)

-- A value is taken if it is initialized.
unfoldable pub take_initialized : {A : Type 0} → (A → Bool) → A → Result A
take_initialized marked value = if marked value then ok value else err uninitialized_account

unfoldable pub sized_unpack : (A : Type 0) → Pack A → Bytes → Result A
sized_unpack A p input =
    if length input == p.size
    then p.unpack_from_slice input >>= take_initialized p.is_initialized
    else err invalid_account_data

unfoldable pub sized_pack : (A : Type 0) → Pack A → A → Bytes → Result Bytes
sized_pack A p value output =
    if length output == p.size then p.pack_into_slice value output else err invalid_account_data

-- A token account is its mint, its owner and its amount; a mint is its authority and its supply.
abbrev pub read_token : Bytes → Option TokenAccount
read_token (m ∷ o ∷ n ∷ []) =
    some (record { mint = m; owner = o; amount = n; delegate = none; close_authority = none })
read_token _ = none

abbrev pub read_mint : Bytes → Option Mint
read_mint (o ∷ n ∷ []) =
    some (record { mint_authority = some o; supply = n; freeze_authority = none })
read_mint _ = none

-- A price with two decimals, of slot 50.
abbrev pub read_price : Bytes → Result Price
read_price (n ∷ []) = ok (record {
  ptype = price;
  expo = negsuc 1;
  valid_slot = 50;
  agg = record { price = pos n; conf = 0 };
})
read_price _ = err invalid_account_data

abbrev pub now : Clock
now = record { slot = 52; unix_timestamp = pos 5000 }

abbrev pub runtime : Runtime
runtime = record {
  next_account_info = take_next;
  clock_from_account_info = λ _ _. ok now;
  rent_from_account_info = λ _ _. ok (λ _ _. true);
  create_program_address = λ _ _ _. some 77;
  find_program_address = λ _ _. (77, 255);
  unpack_unchecked =
      λ A n read input. if length input == n then read input else err invalid_account_data;
  unpack = sized_unpack;
  pack = sized_pack;
  token_account = read_token;
  mint = read_mint;
  load_price = read_price;
  invoke = λ _ s. ok s;
  invoke_signed = λ _ _ _ s. ok s;
}

taken_in_order :
    (accounts rest : List AccountInfo) (info : AccountInfo)
    → take_next accounts ≡ ok (info, rest)
    → accounts ≡ info ∷ rest
taken_in_order [] rest info e = cc
taken_in_order (x ∷ xs) rest info e = ground arith

sized_unpack-ok :
    (A : Type 0) (p : Pack A) (value : A) (input : Bytes)
    → length input ≡ p.size
    → p.unpack_from_slice input ≡ ok value
    → p.is_initialized value ≡ true
    → sized_unpack A p input ≡ ok value
unfolding sized_unpack take_initialized ◌>>=◌
sized_unpack-ok A p value input size e marked = ground arith

take_initialized-ok :
    {A : Type 0} (marked : A → Bool) (value v : A)
    → take_initialized marked v ≡ ok value
    → (v ≡ value) × (marked value ≡ true)
unfolding take_initialized
take_initialized-ok marked value v e = ground arith

sized_unpack-elim :
    (A : Type 0) (p : Pack A) (value : A) (input : Bytes)
    → sized_unpack A p input ≡ ok value
    → (length input ≡ p.size)
      × (p.unpack_from_slice input ≡ ok value)
      × (p.is_initialized value ≡ true)
unfolding sized_unpack
sized_unpack-elim A p value input e =
    let long : length input ≡ p.size = ground arith in
    let inner : (p.unpack_from_slice input >>= take_initialized p.is_initialized) ≡ ok value =
      ground arith in
    >>=-ok-elim (p.unpack_from_slice input) _ inner λ v ev e1.
      let (same, marked) = take_initialized-ok p.is_initialized value v e1 in
      (long, ev ∙ ap ok same, marked)

sized_pack-ok :
    (A : Type 0) (p : Pack A) (value : A) (output : Bytes)
    → length output ≡ p.size
    → sized_pack A p value output ≡ p.pack_into_slice value output
unfolding sized_pack
sized_pack-ok A p value output size = ground arith

sized_pack-elim :
    (A : Type 0) (p : Pack A) (value : A) (output bytes : Bytes)
    → sized_pack A p value output ≡ ok bytes
    → (length output ≡ p.size) × (p.pack_into_slice value output ≡ ok bytes)
unfolding sized_pack
sized_pack-elim A p value output bytes e = ground arith

pub runtime-IsRuntime : IsRuntime runtime
runtime-IsRuntime = record {
  next_in_order = taken_in_order;
  next_of_some = λ rest info. refl;
  unpacks = sized_unpack-ok;
  unpacked = sized_unpack-elim;
  packs = sized_pack-ok;
  packed = sized_pack-elim;
}

pub runtime-KeepsOthers : KeepsOthers runtime
runtime-KeepsOthers = record {
  invoke_keeps = λ call s s' key e foreign. sym (ap (λ (x : Store). x key) (ok-injective e));
  invoke_signed_keeps =
      λ seed nonce call s s' key e foreign. sym (ap (λ (x : Store). x key) (ok-injective e));
}

-- The value of a result that is one.
abbrev pub is_ok {ℓ} : {A : Type ℓ} → Result A → Bool
is_ok (ok _) = true
is_ok (err _) = false
is_ok panicked = false

pub ok_of {ℓ} : {A : Type ℓ} (r : Result A) → is_ok r ≡ true → (a : A) × (r ≡ ok a)
ok_of (ok a) e = (a, refl)
ok_of (err _) e = cc
ok_of panicked e = cc

-- What a packer writes, where it does not fail.
abbrev pub bytes_of : Result Bytes → Bytes
bytes_of (ok bytes) = bytes
bytes_of (err _) = []
bytes_of panicked = []

abbrev pub zeros : ℕ → Bytes
zeros zero = []
zeros (suc n) = 0 ∷ zeros n

-- The program is 100 and the token program 200. The configuration is in account 1 and the swap in account
-- 7; the vaults are 11 and 12, the provider is in account 4, and the prices are four and two. Account 60
-- is free for a swap.
abbrev pub contents_at : Pubkey → Bytes
contents_at key =
    if key == 1
    then Config.pack_into_slice config_info []
    else if key == 7
    then bytes_of (Swap.pack_into_slice swap_info [])
    else if key == 4
    then bytes_of (provider_pack.pack_into_slice provider (zeros 834))
    else if key == 11
    then 14 ∷ 77 ∷ 900 ∷ []
    else if key == 12
    then 15 ∷ 77 ∷ 2210 ∷ []
    else if key == 13
    then 77 ∷ 1000 ∷ []
    else if key == 22
    then 77 ∷ 0 ∷ []
    else if key == 23
    then 22 ∷ 9 ∷ 0 ∷ []
    else if key == 16
    then 14 ∷ 8 ∷ 0 ∷ []
    else if key == 17
    then 15 ∷ 8 ∷ 0 ∷ []
    else if key == 34
    then 13 ∷ 9 ∷ 0 ∷ []
    else if key == 60
    then zeros 461
    else if key == 61
    then 77 ∷ 0 ∷ []
    else if key == 41
    then 400 ∷ []
    else if key == 42
    then 200 ∷ []
    else []

abbrev pub owner_at : Pubkey → Pubkey
owner_at key = if key == 1 || (key == 7 || (key == 4 || key == 60)) then 100 else 200

abbrev pub store : Store
store key = record { owner = owner_at key; lamports = 0; contents = contents_at key }

abbrev pub at : Pubkey → AccountInfo
at key = record { key = key; is_signer = false }

abbrev pub signer : Pubkey → AccountInfo
signer key = record { key = key; is_signer = true }

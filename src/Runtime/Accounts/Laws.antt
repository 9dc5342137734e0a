-- ===== src/Runtime/Accounts/Laws.antt =====
-- A value that is saved in an account is loaded from it, and no other account changes.
use deltafi_contracts.Prelude.{◌≡◌, ◌≢◌, sym, ap, ◌∙◌, true, List, ◌∷◌, arith}
use deltafi_contracts.Outcome.{Result, ok, ok-injective, ◌>>=◌, >>=-ok, >>=-ok-elim}
use deltafi_contracts.Bytes.{Bytes}
use deltafi_contracts.State.Position.{Pubkey}
use deltafi_contracts.State.Pack.{Pack}
use deltafi_contracts.State.Pack.Laws.{IsPack}
use deltafi_contracts.Runtime.{Runtime, IsRuntime, AccountInfo, Store, write}
use deltafi_contracts.Runtime.Accounts.{load, save}

-- The stores agree but at one account, of which only the contents may differ.
pub record IsWrite (s s' : Store) (key : Pubkey) : Type 0 where
  pub others : (other : Pubkey) → other ≢ key → s' other ≡ s other
  pub owner : (other : Pubkey) → (s' other).owner ≡ (s other).owner

pub write-here :
    (s : Store) (key : Pubkey) (bytes : Bytes) → (write s key bytes key).contents ≡ bytes
write-here s key bytes = ground arith

pub write-IsWrite : (s : Store) (key : Pubkey) (bytes : Bytes) → IsWrite s (write s key bytes) key
write-IsWrite s key bytes = record {
  others = λ other apart. ground arith;
  owner = λ other. ground arith;
}

-- A block that takes the next account and succeeds, taken apart.
pub next-elim {ℓ} :
    {W : Type 0} {Goal : Type ℓ} (rt : Runtime)
    → IsRuntime rt
    → (accounts : List AccountInfo) (rest : AccountInfo × List AccountInfo → Result W) {w : W}
    → (rt.next_account_info accounts >>= rest) ≡ ok w
    → ((info : AccountInfo) (others : List AccountInfo)
        → accounts ≡ info ∷ others
        → rest (info, others) ≡ ok w
        → Goal)
    → Goal
next-elim rt lawful accounts rest e0 go =
    >>=-ok-elim (rt.next_account_info accounts) rest e0
      λ taken ea e1. go taken.0 taken.1 (lawful.next_in_order accounts taken.1 taken.0 ea) e1

-- The same, where the account is known.
pub next-here :
    {W : Type 0} (rt : Runtime)
    → IsRuntime rt
    → (info : AccountInfo) (others : List AccountInfo)
      (rest : AccountInfo × List AccountInfo → Result W) {w : W}
    → (rt.next_account_info (info ∷ others) >>= rest) ≡ ok w
    → rest (info, others) ≡ ok w
next-here rt lawful info others rest e = sym (>>=-ok _ rest (lawful.next_of_some others info)) ∙ e

-- What is loaded is initialized.
pub load-initialized :
    {A : Type 0} (rt : Runtime)
    → IsRuntime rt
    → (p : Pack A) (value : A) (s : Store) (info : AccountInfo) → load rt p s info ≡ ok value
    → p.is_initialized value ≡ true
unfolding load
load-initialized rt lawful p value s info e =
    let (_, _, marked) = lawful.unpacked _ p value (s info.key).contents e in marked

module _ (rt : Runtime) (lawful : IsRuntime rt) {A : Type 0} (p : Pack A) (Valid : A → Type 0)
    (packs : IsPack p Valid) where
  pub save-load :
      (value : A) (s s' : Store) (info : AccountInfo)
      → Valid value
      → p.is_initialized value ≡ true
      → save rt p value s info ≡ ok s'
      → (load rt p s' info ≡ ok value) × IsWrite s s' info.key
  unfolding save load
  save-load value s s' info valid initialized e0 =
      >>=-ok-elim (rt.pack A p value (s info.key).contents) _ e0 λ bytes eb e1.
        let (size, eb') = lawful.packed A p value (s info.key).contents bytes eb in
        let (bytes', written, long, back) =
          packs.round_trip value (s info.key).contents valid size in
        let same : bytes' ≡ bytes = ok-injective (sym written ∙ eb') in
        let stored : write s info.key bytes ≡ s' = ok-injective e1 in
        let held : (s' info.key).contents ≡ bytes = rw (← stored) (write-here s info.key bytes) in
        (
          ap (rt.unpack A p) held
              ∙ lawful.unpacks A p value bytes (rw (← same) long) (rw (← same) back) initialized,
          rw (← stored) (write-IsWrite s info.key bytes),
        )

  -- An account that holds a value of the type can be written.
  pub load-save :
      (value old : A) (s : Store) (info : AccountInfo)
      → Valid value
      → load rt p s info ≡ ok old
      → (s' : Store) × (save rt p value s info ≡ ok s')
  unfolding save load
  load-save value old s info valid e =
      let (size, _, _) = lawful.unpacked A p old (s info.key).contents e in
      let (bytes, written, _, _) = packs.round_trip value (s info.key).contents valid size in
      (
        write s info.key bytes,
        >>=-ok _ _ (lawful.packs A p value (s info.key).contents size ∙ written),
      )

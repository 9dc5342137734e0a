-- ===== src/Runtime/Accounts/Calls.antt =====
-- What a handler leaves behind: the values that it saved, since the token program that it calls afterwards
-- changes no account of the program's.
use deltafi_contracts.Prelude.{ℕ, List, [], ◌∷◌, All, ◌≡◌, ◌≢◌, sym, ap, ◌∙◌, length, arith}
use deltafi_contracts.Outcome.{ok, ok-injective, >>=-ok-elim}
use deltafi_contracts.Bytes.{Bytes}
use deltafi_contracts.State.Position.{Pubkey}
use deltafi_contracts.State.Liquidity.{LiquidityProvider}
use deltafi_contracts.State.Swap.{SwapInfo}
use deltafi_contracts.State.Pack.{Pack, swap_pack, provider_pack}
use deltafi_contracts.Runtime.{
  Runtime, IsRuntime, KeepsOthers, AccountInfo, Account, Store, write, TokenCall, token_program_of,
}
use deltafi_contracts.Runtime.Accounts.{load, save}
use deltafi_contracts.Runtime.Accounts.Laws.{IsWrite, write-here, write-IsWrite}

-- An account that the program owns is the same in both stores.
pub record Keeps (program_id : Pubkey) (s s' : Store) : Type 0 where
  pub same : (key : Pubkey) → (s key).owner ≡ program_id → s' key ≡ s key

pub Keeps-trans :
    {program_id : Pubkey} {s t u : Store}
    → Keeps program_id s t
    → Keeps program_id t u
    → Keeps program_id s u
Keeps-trans {s = s} first second = record {
  same = λ key owned.
      let e = first.same key owned in second.same key (ap (λ (x : Account). x.owner) e ∙ owned) ∙ e;
}

-- The account holds the packed value in the second store.
pub record Holds (rt : Runtime) {A : Type 0} (p : Pack A) (value : A) (s s' : Store)
    (info : AccountInfo) : Type 0 where
  pub bytes : Bytes
  pub packed : rt.pack A p value (s info.key).contents ≡ ok bytes
  pub stored : (s' info.key).contents ≡ bytes

-- A call that an address of the program signs, by the seed and the nonce that the address is made of.
pub record SignedCall : Type 0 where
  pub seed : Pubkey
  pub nonce : ℕ
  pub call : TokenCall

-- The calls, in this order and no others, lead from the first store to the second.
abbrev pub Runs : Runtime → List SignedCall → Store → Store → Type 0
Runs rt [] s s' = s ≡ s'
Runs rt (c ∷ cs) s s' =
    (t : Store) × (rt.invoke_signed c.seed c.nonce c.call s ≡ ok t) × Runs rt cs t s'

abbrev pub IsForeign : Pubkey → SignedCall → Type 0
IsForeign program_id c = program_id ≢ token_program_of c.call

pub Runs-Keeps :
    (rt : Runtime) (program_id : Pubkey)
    → KeepsOthers rt
    → (calls : List SignedCall) (s s' : Store) → All (IsForeign program_id) calls
    → Runs rt calls s s'
    → Keeps program_id s s'
Runs-Keeps rt program_id keeps [] s s' foreign same = record {
  same = λ key owned. sym (ap (λ (x : Store). x key) same);
}
Runs-Keeps rt program_id keeps (c ∷ cs) s s' (foreign, others) (t, e, rest) =
    Keeps-trans
      (record {
        same = λ key owned.
            keeps.invoke_signed_keeps c.seed c.nonce c.call s t key e
              (λ h. foreign (sym owned ∙ h));
      })
      (Runs-Keeps rt program_id keeps cs t s' others rest)

-- One account cannot hold both a swap and a provider: they differ in length.
pub loads-apart :
    (rt : Runtime)
    → IsRuntime rt
    → (s : Store) (swap_info provider_info : AccountInfo) (token_swap : SwapInfo)
      (provider : LiquidityProvider)
    → load rt swap_pack s swap_info ≡ ok token_swap
    → load rt provider_pack s provider_info ≡ ok provider
    → swap_info.key ≢ provider_info.key
unfolding load
loads-apart rt lawful s swap_info provider_info t p et ep same =
    let (short, _, _) = lawful.unpacked _ swap_pack t (s swap_info.key).contents et in
    let (long, _, _) = lawful.unpacked _ provider_pack p (s provider_info.key).contents ep in
    let shared = ap (λ (key : Pubkey). length (s key).contents) same in
    omega (arith, short, long, shared)

pub save-stored :
    (rt : Runtime) {A : Type 0} (p : Pack A) (value : A) (s s' : Store) (info : AccountInfo)
    → save rt p value s info ≡ ok s'
    → Holds rt p value s s' info × IsWrite s s' info.key
unfolding save
save-stored rt {A} p value s s' info e0 =
    >>=-ok-elim (rt.pack A p value (s info.key).contents) _ e0 λ bytes eb e1.
      let done : write s info.key bytes ≡ s' = ok-injective e1 in
      (
        record { bytes = bytes; packed = eb; stored = rw (← done) (write-here s info.key bytes) },
        rw (← done) (write-IsWrite s info.key bytes),
      )

module _ (rt : Runtime) {A B : Type 0} (p : Pack A) (q : Pack B) (program_id : Pubkey)
    (s t u s' : Store) (a b : AccountInfo) where
  -- Two values that are saved in two accounts of the program's stand there after the calls.
  pub saves-Holds :
      (x : A) (y : B)
      → a.key ≢ b.key
      → ((s a.key).owner ≡ program_id) × ((s b.key).owner ≡ program_id)
      → save rt p x s a ≡ ok t
      → save rt q y t b ≡ ok u
      → Keeps program_id u s'
      → Holds rt p x s s' a × Holds rt q y s s' b
  saves-Holds x y apart (own_a, own_b) e f kept =
      let (in_a, only_a) = save-stored rt p x s t a e in
      let (in_b, only_b) = save-stored rt q y t u b f in
      let last_a : s' a.key ≡ t a.key =
        kept.same a.key (only_b.owner a.key ∙ (only_a.owner a.key ∙ own_a))
        ∙ only_b.others a.key apart in
      let last_b : s' b.key ≡ u b.key =
        kept.same b.key (only_b.owner b.key ∙ (only_a.owner b.key ∙ own_b)) in
      let before : t b.key ≡ s b.key = only_a.others b.key (λ h. apart (sym h)) in
      (
        record {
          bytes = in_a.bytes;
          packed = in_a.packed;
          stored = ap (λ (x : Account). x.contents) last_a ∙ in_a.stored;
        },
        record {
          bytes = in_b.bytes;
          packed = ap (λ (x : Account). rt.pack B q y x.contents) (sym before) ∙ in_b.packed;
          stored = ap (λ (x : Account). x.contents) last_b ∙ in_b.stored;
        },
      )

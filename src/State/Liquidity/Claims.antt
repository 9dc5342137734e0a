-- ===== src/State/Liquidity/Claims.antt =====
-- What a claim leaves owed, and what later operations keep of it.
use deltafi_contracts.Prelude.{
  ℕ, zero, suc, ◌<◌, ◌≡◌, ◌≢◌, Bool, true, false, Option, none, some, List, [], ◌∷◌, ◌==◌, ◌&&◌,
  ◌⊎◌, inl, inr, ◌++◌, ◌∙◌, sym, ap, if◌then◌else◌, get_elem?, set, remove, All, arith,
}
use deltafi_contracts.Prelude.Int.{ℤ}
use mathlib.Core.Path.{subst}
use deltafi_contracts.Outcome.{ok, ok-injective, ◌>>=◌, >>=-ok-elim}
use deltafi_contracts.State.Position
use deltafi_contracts.State.Position.{Pubkey, LiquidityPosition}
use deltafi_contracts.State.Liquidity.{
  LiquidityProvider, find_position_index, position_at, find_position, claim, withdraw,
  find_or_add_position, unwrap_result,
}
use deltafi_contracts.State.Liquidity.Amounts.{find_position-at, position_at-ok}
use deltafi_contracts.State.Liquidity.Pools.{IsElsewhere, DistinctPools, find_index-some}

-- The position is in another pool, or nothing is owed.
abbrev pub IsPaid : Pubkey → LiquidityPosition → Type 0
IsPaid pool p = (p.pool ≢ pool) ⊎ (p.rewards_owed ≡ 0)

others-IsPaid :
    (pool : Pubkey) (ps : List LiquidityPosition) → All (IsElsewhere pool) ps → All (IsPaid pool) ps
others-IsPaid pool [] all = tt
others-IsPaid pool (p ∷ ps) (a, all) = (inl a, others-IsPaid pool ps all)

elsewhere_at :
    (pool : Pubkey) (ps : List LiquidityPosition) (i : ℕ) (p : LiquidityPosition)
    → All (IsElsewhere pool) ps
    → get_elem? ps i ≡ some p
    → p.pool ≢ pool
elsewhere_at pool [] i p all e = cc
elsewhere_at pool (x ∷ ps) zero p (a, all) e = ground arith
elsewhere_at pool (x ∷ ps) (suc i) p (a, all) e = elsewhere_at pool ps i p all e

IsPaid-at :
    (pool : Pubkey) (ps : List LiquidityPosition) (i : ℕ) (p : LiquidityPosition)
    → All (IsPaid pool) ps
    → get_elem? ps i ≡ some p
    → IsPaid pool p
IsPaid-at pool [] i p all e = cc
IsPaid-at pool (x ∷ ps) zero p (a, all) e = ground arith
IsPaid-at pool (x ∷ ps) (suc i) p (a, all) e = IsPaid-at pool ps i p all e

settled-IsPaid :
    (ps : List LiquidityPosition) (i : ℕ) (p p' : LiquidityPosition)
    → get_elem? ps i ≡ some p
    → p'.rewards_owed ≡ 0
    → DistinctPools ps
    → (dropped : Bool) → All (IsPaid p.pool) (if dropped then remove ps i else set ps i p')
settled-IsPaid [] i p p' at owed d dropped = cc
settled-IsPaid (x ∷ ps) zero p p' at owed (a, d) true = others-IsPaid p.pool ps (
    subst (λ pool. All (IsElsewhere pool) ps)
      (ap (λ (q : Option LiquidityPosition). elim q [ none ↦ x.pool | some y ↦ y.pool ]) at) a)
settled-IsPaid (x ∷ ps) zero p p' at owed (a, d) false = (
  inr owed,
  others-IsPaid p.pool ps (
      subst (λ pool. All (IsElsewhere pool) ps)
        (ap (λ (q : Option LiquidityPosition). elim q [ none ↦ x.pool | some y ↦ y.pool ]) at) a),
)
settled-IsPaid (x ∷ ps) (suc i) p p' at owed (a, d) true =
    (inl (λ h. elsewhere_at x.pool ps i p a at (sym h)), settled-IsPaid ps i p p' at owed d true)
settled-IsPaid (x ∷ ps) (suc i) p p' at owed (a, d) false =
    (inl (λ h. elsewhere_at x.pool ps i p a at (sym h)), settled-IsPaid ps i p p' at owed d false)

-- The position that is found is in the pool.
find_position-pool :
    (provider : LiquidityProvider) (pool : Pubkey) (p : LiquidityPosition) (i : ℕ)
    → find_position provider pool ≡ ok (p, i)
    → p.pool ≡ pool
unfolding find_position find_position_index position_at ◌>>=◌
find_position-pool provider pool p i e = grind (arith, find_index-some)

claim_position :
    (p p' : LiquidityPosition) (claimed : ℕ)
    → Position.claim_rewards p ≡ ok (p', claimed)
    → (0 < p.rewards_owed) × (p'.rewards_owed ≡ 0)
unfolding Position.claim_rewards ◌>>=◌
claim_position p p' claimed e = ground arith

-- After a claim nothing is owed of the pool.
pub claim-IsPaid :
    (provider provider' : LiquidityProvider) (pool : Pubkey) (claimed : ℕ)
    → DistinctPools provider.positions
    → claim provider pool ≡ ok (provider', claimed)
    → All (IsPaid pool) provider'.positions
unfolding claim
claim-IsPaid provider provider' pool claimed d e0 =
    >>=-ok-elim (find_position provider pool) _ e0 λ found ef e1.
      let (p, i) = found in
      >>=-ok-elim (Position.claim_rewards p) _ e1 λ paid ec e2.
        let (p', c) = paid in
        let left =
          if p'.liquidity_amount == 0 && p'.rewards_estimated == 0
          then remove provider.positions i
          else set provider.positions i p' in
        subst (λ (x : LiquidityProvider × ℕ). All (IsPaid pool) x.0.positions) (ok-injective e2)
          (subst (λ key. All (IsPaid key) left) (find_position-pool provider pool p i ef)
            (settled-IsPaid provider.positions i p p' (find_position-at provider pool p i ef)
              (claim_position p p' c ec).1 d
              (p'.liquidity_amount == 0 && p'.rewards_estimated == 0)))

IsPaid-set :
    (pool : Pubkey) (ps : List LiquidityPosition) (i : ℕ) (q : LiquidityPosition)
    → IsPaid pool q
    → All (IsPaid pool) ps
    → All (IsPaid pool) (set ps i q)
IsPaid-set pool [] i q paid all = tt
IsPaid-set pool (x ∷ ps) zero q paid (a, all) = (paid, all)
IsPaid-set pool (x ∷ ps) (suc i) q paid (a, all) = (a, IsPaid-set pool ps i q paid all)

IsPaid-remove :
    (pool : Pubkey) (ps : List LiquidityPosition) (i : ℕ)
    → All (IsPaid pool) ps
    → All (IsPaid pool) (remove ps i)
IsPaid-remove pool [] i all = tt
IsPaid-remove pool (x ∷ ps) zero (a, all) = all
IsPaid-remove pool (x ∷ ps) (suc i) (a, all) = (a, IsPaid-remove pool ps i all)

IsPaid-append :
    (pool : Pubkey) (ps : List LiquidityPosition) (q : LiquidityPosition)
    → IsPaid pool q
    → All (IsPaid pool) ps
    → All (IsPaid pool) (ps ++ (q ∷ []))
IsPaid-append pool [] q paid all = (paid, tt)
IsPaid-append pool (x ∷ ps) q paid (a, all) = (a, IsPaid-append pool ps q paid all)

-- A position that is in the same pool and is owed the same is paid as well.
IsPaid-same :
    (pool : Pubkey) (p q : LiquidityPosition)
    → q.pool ≡ p.pool
    → q.rewards_owed ≡ p.rewards_owed
    → IsPaid pool p
    → IsPaid pool q
IsPaid-same pool p q same owed (inl apart) = inl (λ h. apart (sym same ∙ h))
IsPaid-same pool p q same owed (inr nothing) = inr (owed ∙ nothing)

fresh_owed :
    (p : LiquidityPosition) (pool : Pubkey) (ts : ℤ)
    → unwrap_result (Position.new pool ts) ≡ ok p
    → p.rewards_owed ≡ 0
unfolding Position.new ◌>>=◌
fresh_owed p pool ts e = ground arith

pub added-IsPaid :
    (provider found : LiquidityProvider) (pool other : Pubkey) (ts : ℤ) (i : ℕ)
    → find_or_add_position provider other ts ≡ ok (found, i)
    → All (IsPaid pool) provider.positions
    → All (IsPaid pool) found.positions
unfolding find_or_add_position ◌>>=◌
added-IsPaid provider found pool other ts i e all = grind (arith, IsPaid-append, fresh_owed)

deposit_owed :
    (p p' : LiquidityPosition) (amount : ℕ)
    → Position.deposit p amount ≡ ok p'
    → (p'.pool ≡ p.pool) × (p'.rewards_owed ≡ p.rewards_owed)
unfolding Position.deposit ◌>>=◌
deposit_owed p p' amount e = ground arith

withdraw_owed :
    (p p' : LiquidityPosition) (amount : ℕ)
    → Position.withdraw p amount ≡ ok p'
    → (p'.pool ≡ p.pool) × (p'.rewards_owed ≡ p.rewards_owed)
unfolding Position.withdraw ◌>>=◌
withdraw_owed p p' amount e = ground arith

-- A deposit into the position at an index leaves what was claimed claimed.
pub deposited-IsPaid :
    (pool : Pubkey) (ps : List LiquidityPosition) (i amount : ℕ) (p p' : LiquidityPosition)
    → get_elem? ps i ≡ some p
    → Position.deposit p amount ≡ ok p'
    → All (IsPaid pool) ps
    → All (IsPaid pool) (set ps i p')
deposited-IsPaid pool ps i amount p p' at e all =
    let (same, owed) = deposit_owed p p' amount e in
    IsPaid-set pool ps i p' (IsPaid-same pool p p' same owed (IsPaid-at pool ps i p all at)) all

withdrawn_from :
    (provider provider' : LiquidityProvider) (pool : Pubkey) (amount i : ℕ) (p : LiquidityPosition)
    → get_elem? provider.positions i ≡ some p
    → All (IsPaid pool) provider.positions
    → (dropped : Bool)
    → (if dropped then ok (record provider { positions = remove provider.positions i }) else (do
      p' ← Position.withdraw p amount
      ok (record provider { positions = set provider.positions i p' })))
      ≡ ok provider'
    → All (IsPaid pool) provider'.positions
withdrawn_from provider provider' pool amount i p at all true e =
    subst (λ (x : LiquidityProvider). All (IsPaid pool) x.positions) (ok-injective e)
      (IsPaid-remove pool provider.positions i all)
withdrawn_from provider provider' pool amount i p at all false e0 =
    >>=-ok-elim (Position.withdraw p amount) _ e0 λ p' ep e.
      let (same, owed) = withdraw_owed p p' amount ep in
      subst (λ (x : LiquidityProvider). All (IsPaid pool) x.positions) (ok-injective e)
        (IsPaid-set pool provider.positions i p'
          (IsPaid-same pool p p' same owed (IsPaid-at pool provider.positions i p all at)) all)

pub withdraw-IsPaid :
    (provider provider' : LiquidityProvider) (pool : Pubkey) (amount i : ℕ)
    → withdraw provider amount i ≡ ok provider'
    → All (IsPaid pool) provider.positions
    → All (IsPaid pool) provider'.positions
unfolding withdraw
withdraw-IsPaid provider provider' pool amount i e0 all =
    >>=-ok-elim (position_at provider i) _ e0 λ p ep e1.
      withdrawn_from provider provider' pool amount i p (position_at-ok provider i ep) all
        (amount == p.liquidity_amount && p.rewards_owed == 0) e1

IsPaid-if :
    (pool : Pubkey) (ps : List LiquidityPosition) (i : ℕ) (q : LiquidityPosition)
    → q.rewards_owed ≡ 0
    → All (IsPaid pool) ps
    → (dropped : Bool) → All (IsPaid pool) (if dropped then remove ps i else set ps i q)
IsPaid-if pool ps i q owed all true = IsPaid-remove pool ps i all
IsPaid-if pool ps i q owed all false = IsPaid-set pool ps i q (inr owed) all

-- A claim, of whatever pool, leaves what was claimed claimed.
pub claim-IsPaid-keep :
    (provider provider' : LiquidityProvider) (pool other : Pubkey) (claimed : ℕ)
    → claim provider other ≡ ok (provider', claimed)
    → All (IsPaid pool) provider.positions
    → All (IsPaid pool) provider'.positions
unfolding claim
claim-IsPaid-keep provider provider' pool other claimed e0 all =
    >>=-ok-elim (find_position provider other) _ e0 λ found ef e1.
      let (p, i) = found in
      >>=-ok-elim (Position.claim_rewards p) _ e1 λ paid ec e2.
        subst (λ (x : LiquidityProvider × ℕ). All (IsPaid pool) x.0.positions) (ok-injective e2)
          (IsPaid-if pool provider.positions i paid.0 (claim_position p paid.0 paid.1 ec).1 all
            (paid.0.liquidity_amount == 0 && paid.0.rewards_estimated == 0))

-- The position at the index is in a pool other than the one that was claimed from.
pub refreshed-IsPaid :
    (provider : LiquidityProvider) (pool other : Pubkey) (i : ℕ) (p p' : LiquidityPosition)
    → other ≢ pool
    → find_position provider other ≡ ok (p, i)
    → p'.pool ≡ p.pool
    → All (IsPaid pool) provider.positions
    → All (IsPaid pool) (set provider.positions i p')
refreshed-IsPaid provider pool other i p p' apart ef same all =
    let here = find_position-pool provider other p i ef in
    IsPaid-set pool provider.positions i p' (inl (λ h. apart (sym here ∙ sym same ∙ h))) all

-- A provider that is owed nothing of a pool cannot claim of that pool.
pub IsPaid-claim :
    (provider provider' : LiquidityProvider) (pool : Pubkey) (more : ℕ)
    → All (IsPaid pool) provider.positions
    → claim provider pool ≢ ok (provider', more)
unfolding claim
IsPaid-claim provider provider' pool more all f0 =
    >>=-ok-elim (find_position provider pool) _ f0 λ found ef f1.
      let (p, i) = found in
      >>=-ok-elim (Position.claim_rewards p) _ f1 λ paid ec f2.
        let here =
          IsPaid-at pool provider.positions i p all (find_position-at provider pool p i ef) in
        let (owed, _) = claim_position p paid.0 paid.1 ec in
        let same = find_position-pool provider pool p i ef in
        elim here [ inl apart ↦ apart same | inr nothing ↦ omega (arith, owed, nothing) ]

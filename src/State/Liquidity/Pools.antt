-- ===== src/State/Liquidity/Pools.antt =====
-- A provider has at most one position in a pool, and it is the one that is found.
use mathlib.Core.Path.{subst}
use deltafi_contracts.Prelude.{
  ℕ, zero, suc, ◌≡◌, ◌≢◌, Bool, true, false, Option, none, some, List, [], ◌∷◌, ◌++◌, ◌==◌, ◌&&◌,
  refl, sym, ap, ◌∙◌, if◌then◌else◌, length, get_elem?, set, remove, All, arith,
}
use deltafi_contracts.Prelude.Int.{ℤ}
use deltafi_contracts.Outcome.{Result, ok, ok-injective, ◌>>=◌, >>=-ok-elim}
use deltafi_contracts.State.Position
use deltafi_contracts.State.Position.{Pubkey, LiquidityPosition}
use deltafi_contracts.State.Liquidity.Amounts.{position_at-ok, withdraw_position, find_position-at}
use deltafi_contracts.State.Liquidity.{
  LiquidityProvider, find_index, unwrap_result, find_position_index, position_at, find_position,
  find_or_add_position, withdraw, claim,
}

abbrev pub IsElsewhere : Pubkey → LiquidityPosition → Type 0
IsElsewhere pool p = p.pool ≢ pool

-- No two positions are in one pool.
abbrev pub DistinctPools : List LiquidityPosition → Type 0
DistinctPools [] = Unit
DistinctPools (p ∷ ps) = All (IsElsewhere p.pool) ps × DistinctPools ps

first_none :
    (pool : Pubkey) (p : LiquidityPosition) (ps : List LiquidityPosition) (rest : Option ℕ)
    → rest ≡ find_index pool ps
    → (if p.pool == pool then some 0 else elim rest [ none ↦ none | some i ↦ some (suc i) ]) ≡ none
    → (find_index pool ps ≡ none → All (IsElsewhere pool) ps)
    → All (IsElsewhere pool) (p ∷ ps)
first_none pool p ps none same e others = (ground arith, others (sym same))
first_none pool p ps (some i) same e others = ground arith

find_index-none :
    (pool : Pubkey) (ps : List LiquidityPosition)
    → find_index pool ps ≡ none
    → All (IsElsewhere pool) ps
unfolding find_index
find_index-none pool [] e = tt
find_index-none pool (p ∷ ps) e =
    first_none pool p ps (find_index pool ps) refl e (find_index-none pool ps)

first_some :
    (pool : Pubkey) (p : LiquidityPosition) (ps : List LiquidityPosition) (i : ℕ) (here : Bool)
    → here ≡ (p.pool == pool)
    → (rest : Option ℕ)
    → (if here then some 0 else elim rest [ none ↦ none | some j ↦ some (suc j) ]) ≡ some i
    → ((j : ℕ)
        → rest ≡ some j
        → (q : LiquidityPosition) × ((get_elem? ps j ≡ some q) × (q.pool ≡ pool)))
    → (q : LiquidityPosition) × ((get_elem? (p ∷ ps) i ≡ some q) × (q.pool ≡ pool))
first_some pool p ps zero true test rest e later = (p, (refl, ground arith))
first_some pool p ps (suc i) true test rest e later = cc
first_some pool p ps i false test none e later = cc
first_some pool p ps zero false test (some j) e later = ground arith
first_some pool p ps (suc i) false test (some j) e later = later i (ap some (ground arith))

pub find_index-some :
    (pool : Pubkey) (ps : List LiquidityPosition) (i : ℕ)
    → find_index pool ps ≡ some i
    → (p : LiquidityPosition) × ((get_elem? ps i ≡ some p) × (p.pool ≡ pool))
unfolding find_index
find_index-some pool [] i e = cc
find_index-some pool (p ∷ ps) i e =
    first_some pool p ps i (p.pool == pool) refl (find_index pool ps) e
      λ j ej. find_index-some pool ps j ej

All-set :
    (pool : Pubkey) (ps : List LiquidityPosition) (i : ℕ) (p q : LiquidityPosition)
    → get_elem? ps i ≡ some p
    → q.pool ≡ p.pool
    → All (IsElsewhere pool) ps
    → All (IsElsewhere pool) (set ps i q)
All-set pool [] i p q at same all = tt
All-set pool (x ∷ ps) zero p q at same (a, all) = (ground arith, all)
All-set pool (x ∷ ps) (suc i) p q at same (a, all) = (a, All-set pool ps i p q at same all)

All-remove :
    (pool : Pubkey) (ps : List LiquidityPosition) (i : ℕ)
    → All (IsElsewhere pool) ps
    → All (IsElsewhere pool) (remove ps i)
All-remove pool [] i all = tt
All-remove pool (x ∷ ps) zero (a, all) = all
All-remove pool (x ∷ ps) (suc i) (a, all) = (a, All-remove pool ps i all)

All-moved :
    (ps : List LiquidityPosition) (pool pool' : Pubkey)
    → pool' ≡ pool
    → All (IsElsewhere pool) ps
    → All (IsElsewhere pool') ps
All-moved [] pool pool' e all = tt
All-moved (x ∷ ps) pool pool' e (a, all) = (λ h. a (h ∙ e), All-moved ps pool pool' e all)

pub DistinctPools-set :
    (ps : List LiquidityPosition) (i : ℕ) (p q : LiquidityPosition)
    → get_elem? ps i ≡ some p
    → q.pool ≡ p.pool
    → DistinctPools ps
    → DistinctPools (set ps i q)
DistinctPools-set [] i p q at same d = tt
DistinctPools-set (x ∷ ps) zero p q at same (a, d) =
    (All-moved ps x.pool q.pool (ground arith) a, d)
DistinctPools-set (x ∷ ps) (suc i) p q at same (a, d) =
    (All-set x.pool ps i p q at same a, DistinctPools-set ps i p q at same d)

DistinctPools-remove :
    (ps : List LiquidityPosition) (i : ℕ) → DistinctPools ps → DistinctPools (remove ps i)
DistinctPools-remove [] i d = tt
DistinctPools-remove (x ∷ ps) zero (a, d) = d
DistinctPools-remove (x ∷ ps) (suc i) (a, d) =
    (All-remove x.pool ps i a, DistinctPools-remove ps i d)

All-append :
    (pool : Pubkey) (ps : List LiquidityPosition) (q : LiquidityPosition)
    → All (IsElsewhere pool) ps
    → IsElsewhere pool q
    → All (IsElsewhere pool) (ps ++ (q ∷ []))
All-append pool [] q all e = (e, tt)
All-append pool (x ∷ ps) q (a, all) e = (a, All-append pool ps q all e)

DistinctPools-append :
    (ps : List LiquidityPosition) (q : LiquidityPosition)
    → All (IsElsewhere q.pool) ps
    → DistinctPools ps
    → DistinctPools (ps ++ (q ∷ []))
DistinctPools-append [] q all d = (tt, tt)
DistinctPools-append (x ∷ ps) q (e, all) (a, d) =
    (All-append x.pool ps q a (λ h. e (sym h)), DistinctPools-append ps q all d)

new_position :
    (p : LiquidityPosition) (pool : Pubkey) (ts : ℤ)
    → unwrap_result (Position.new pool ts) ≡ ok p
    → (p.pool ≡ pool) × (p.liquidity_amount ≡ 0)
unfolding Position.new ◌>>=◌
new_position p pool ts e = ground arith

get_elem?-append :
    (ps : List LiquidityPosition) (q : LiquidityPosition)
    → get_elem? (ps ++ (q ∷ [])) (length ps) ≡ some q
get_elem?-append [] q = refl
get_elem?-append (p ∷ ps) q = get_elem?-append ps q

added :
    (provider provider' : LiquidityProvider) (pool : Pubkey) (ts : ℤ) (index : ℕ)
    → (o : Option ℕ) → find_index pool provider.positions ≡ o
    → ◌≡◌ {A = Result (LiquidityProvider × ℕ)}
        (elim o [
          | some position_index ↦ ok (provider, position_index)
          | none ↦ do
            position ← unwrap_result (Position.new pool ts)
            ok (
              record provider { positions = provider.positions ++ (position ∷ []) },
              length provider.positions,
            )
        ])
        (ok (provider', index))
    → DistinctPools provider.positions
    → DistinctPools provider'.positions
      × ((p : LiquidityPosition) × ((get_elem? provider'.positions index ≡ some p)
            × (p.pool ≡ pool)))
added provider provider' pool ts index (some i) found e d =
    let same = ok-injective e in
    let here = find_index-some pool provider.positions i found in
    subst
      (λ (x : LiquidityProvider × ℕ).
        DistinctPools x.0.positions
        × ((p : LiquidityPosition) × ((get_elem? x.0.positions x.1 ≡ some p) × (p.pool ≡ pool))))
      same (d, here)
added provider provider' pool ts index none missing e0 d =
    >>=-ok-elim (unwrap_result (Position.new pool ts)) _ e0 λ q eq e.
      let (named, _) = new_position q pool ts eq in
      let others =
        All-moved provider.positions pool q.pool named
          (find_index-none pool provider.positions missing) in
      subst
        (λ (x : LiquidityProvider × ℕ).
          DistinctPools x.0.positions
          × ((p : LiquidityPosition) × ((get_elem? x.0.positions x.1 ≡ some p) × (p.pool ≡ pool))))
        (ok-injective e)
        (
          DistinctPools-append provider.positions q others d,
          (q, (get_elem?-append provider.positions q, named)),
        )

-- A provider that has no two positions in one pool still has none after a position is found or
-- added, and the index returned is that of a position in the pool.
pub find_or_add_position-DistinctPools :
    (provider provider' : LiquidityProvider) (pool : Pubkey) (ts : ℤ) (index : ℕ)
    → DistinctPools provider.positions
    → find_or_add_position provider pool ts ≡ ok (provider', index)
    → DistinctPools provider'.positions
      × ((p : LiquidityPosition) × ((get_elem? provider'.positions index ≡ some p)
            × (p.pool ≡ pool)))
unfolding find_or_add_position find_position_index
find_or_add_position-DistinctPools provider provider' pool ts index d e =
    added provider provider' pool ts index (find_index pool provider.positions) refl e d

withdrawn :
    (provider provider' : LiquidityProvider) (amount index : ℕ) (p : LiquidityPosition)
    → get_elem? provider.positions index ≡ some p
    → DistinctPools provider.positions
    → (dropped : Bool)
    → (if dropped then ok (record provider { positions = remove provider.positions index }) else (do
      p' ← Position.withdraw p amount
      ok (record provider { positions = set provider.positions index p' })))
      ≡ ok provider'
    → DistinctPools provider'.positions
withdrawn provider provider' amount index p at d true e =
    subst (λ (x : LiquidityProvider). DistinctPools x.positions) (ok-injective e)
      (DistinctPools-remove provider.positions index d)
withdrawn provider provider' amount index p at d false e0 =
    >>=-ok-elim (Position.withdraw p amount) _ e0 λ p' ep e.
      subst (λ (x : LiquidityProvider). DistinctPools x.positions) (ok-injective e)
        (DistinctPools-set provider.positions index p p' at (withdraw_position p p' amount ep).1 d)

-- A successful withdrawal from a provider that has no two positions in one pool leaves it so.
pub withdraw-DistinctPools :
    (provider provider' : LiquidityProvider) (amount index : ℕ)
    → DistinctPools provider.positions
    → withdraw provider amount index ≡ ok provider'
    → DistinctPools provider'.positions
unfolding withdraw
withdraw-DistinctPools provider provider' amount index d e0 =
    >>=-ok-elim (position_at provider index) _ e0 λ p ep e1.
      withdrawn provider provider' amount index p (position_at-ok provider index ep) d
        (amount == p.liquidity_amount && p.rewards_owed == 0) e1

claim_rewards-pool :
    (p p' : LiquidityPosition) (claimed : ℕ)
    → Position.claim_rewards p ≡ ok (p', claimed)
    → p'.pool ≡ p.pool
unfolding Position.claim_rewards ◌>>=◌
claim_rewards-pool p p' claimed e = ground arith

DistinctPools-if :
    (ps : List LiquidityPosition) (i : ℕ) (p p' : LiquidityPosition)
    → get_elem? ps i ≡ some p
    → p'.pool ≡ p.pool
    → DistinctPools ps
    → (dropped : Bool) → DistinctPools (if dropped then remove ps i else set ps i p')
DistinctPools-if ps i p p' at same d true = DistinctPools-remove ps i d
DistinctPools-if ps i p p' at same d false = DistinctPools-set ps i p p' at same d

-- A successful claim of a provider that has no two positions in one pool leaves it so.
pub claim-DistinctPools :
    (provider provider' : LiquidityProvider) (pool : Pubkey) (claimed : ℕ)
    → DistinctPools provider.positions
    → claim provider pool ≡ ok (provider', claimed)
    → DistinctPools provider'.positions
unfolding claim
claim-DistinctPools provider provider' pool claimed d e0 =
    >>=-ok-elim (find_position provider pool) _ e0 λ found ef e1.
      let (p, i) = found in
      >>=-ok-elim (Position.claim_rewards p) _ e1 λ paid ec e2.
        let (p', c) = paid in
        subst (λ (x : LiquidityProvider × ℕ). DistinctPools x.0.positions) (ok-injective e2)
          (DistinctPools-if provider.positions i p p' (find_position-at provider pool p i ef)
            (claim_rewards-pool p p' c ec) d
            (p'.liquidity_amount == 0 && p'.rewards_estimated == 0))

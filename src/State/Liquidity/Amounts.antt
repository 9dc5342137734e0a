-- ===== src/State/Liquidity/Amounts.antt =====
-- The liquidity of a provider over all positions.
use deltafi_contracts.Prelude.{
  ℕ, zero, suc, ◌+◌, ◌≡◌, refl, sym, ap, ◌∙◌, ◌<◌, Bool, true, false, some, List, [], ◌∷◌, ◌++◌,
  ◌==◌, ◌&&◌, if◌then◌else◌, get_elem?, set, remove, arith,
}
use deltafi_contracts.Outcome.{ok, ok-injective, ◌>>=◌, >>=-ok-elim}
use deltafi_contracts.State.Position
use deltafi_contracts.State.Position.{Pubkey, LiquidityPosition}
use deltafi_contracts.State.Position.Accrual.{claim_rewards-earned}
use deltafi_contracts.State.Liquidity.{
  LiquidityProvider, find_position_index, position_at, find_position, withdraw, claim,
}

abbrev pub total_liquidity : List LiquidityPosition → ℕ
total_liquidity [] = 0
total_liquidity (p ∷ ps) = p.liquidity_amount + total_liquidity ps

pub total_liquidity-append :
    (ps : List LiquidityPosition) (q : LiquidityPosition)
    → total_liquidity (ps ++ (q ∷ [])) ≡ total_liquidity ps + q.liquidity_amount
total_liquidity-append [] q = omega arith
total_liquidity-append (p ∷ ps) q = omega (arith, total_liquidity-append ps q)

pub total_liquidity-set :
    (ps : List LiquidityPosition) (i : ℕ) (p q : LiquidityPosition)
    → get_elem? ps i ≡ some p
    → total_liquidity (set ps i q) + p.liquidity_amount ≡ total_liquidity ps + q.liquidity_amount
total_liquidity-set [] i p q e = cc
total_liquidity-set (x ∷ ps) zero p q e = ground arith
total_liquidity-set (x ∷ ps) (suc i) p q e = omega (arith, total_liquidity-set ps i p q e)

total_liquidity-remove :
    (ps : List LiquidityPosition) (i : ℕ) (p : LiquidityPosition)
    → get_elem? ps i ≡ some p
    → total_liquidity (remove ps i) + p.liquidity_amount ≡ total_liquidity ps
total_liquidity-remove [] i p e = cc
total_liquidity-remove (x ∷ ps) zero p e = ground arith
total_liquidity-remove (x ∷ ps) (suc i) p e = omega (arith, total_liquidity-remove ps i p e)

pub position_at-ok :
    (provider : LiquidityProvider) (i : ℕ) {p : LiquidityPosition}
    → position_at provider i ≡ ok p
    → get_elem? provider.positions i ≡ some p
unfolding position_at
position_at-ok provider i e = ground arith

pub withdraw_position :
    (p p' : LiquidityPosition) (amount : ℕ)
    → Position.withdraw p amount ≡ ok p'
    → (p'.liquidity_amount + amount ≡ p.liquidity_amount) × (p'.pool ≡ p.pool)
unfolding Position.withdraw ◌>>=◌
withdraw_position p p' amount e = ground arith

take-total :
    (provider provider' : LiquidityProvider) (amount index : ℕ) (p : LiquidityPosition)
    → get_elem? provider.positions index ≡ some p
    → (dropped : Bool) → (dropped ≡ true → amount ≡ p.liquidity_amount)
    → (if dropped then ok (record provider { positions = remove provider.positions index }) else (do
      p' ← Position.withdraw p amount
      ok (record provider { positions = set provider.positions index p' })))
      ≡ ok provider'
    → total_liquidity provider'.positions + amount ≡ total_liquidity provider.positions
take-total provider provider' amount index p at true all e =
    let gone = total_liquidity-remove provider.positions index p at in
    let same = ap (λ (x : LiquidityProvider). total_liquidity x.positions) (ok-injective e) in
    omega (arith, all refl)
take-total provider provider' amount index p at false all e0 =
    >>=-ok-elim (Position.withdraw p amount) _ e0 λ p' ep e.
      let (sum, _) = withdraw_position p p' amount ep in
      let kept = total_liquidity-set provider.positions index p p' at in
      let same = ap (λ (x : LiquidityProvider). total_liquidity x.positions) (ok-injective e) in
      omega arith

both : (a b : ℕ) (c : Bool) → ((a == b) && c) ≡ true → a ≡ b
both a b c h = ground arith

-- A successful withdrawal takes exactly its amount off the provider's liquidity, whether the position is kept
-- or dropped.
pub withdraw-total :
    (provider provider' : LiquidityProvider) (amount index : ℕ)
    → withdraw provider amount index ≡ ok provider'
    → total_liquidity provider'.positions + amount ≡ total_liquidity provider.positions
unfolding withdraw
withdraw-total provider provider' amount index e0 =
    >>=-ok-elim (position_at provider index) _ e0 λ p ep e1.
      take-total provider provider' amount index p (position_at-ok provider index ep)
        (amount == p.liquidity_amount && p.rewards_owed == 0)
        (both amount p.liquidity_amount (p.rewards_owed == 0)) e1

-- A position that is found is the one at the index that comes with it.
pub find_position-at :
    (provider : LiquidityProvider) (pool : Pubkey) (p : LiquidityPosition) (i : ℕ)
    → find_position provider pool ≡ ok (p, i)
    → get_elem? provider.positions i ≡ some p
unfolding find_position find_position_index position_at ◌>>=◌
find_position-at provider pool p i e = ground arith

drop-total :
    (ps : List LiquidityPosition) (i : ℕ) (p p' : LiquidityPosition)
    → get_elem? ps i ≡ some p
    → p'.liquidity_amount ≡ p.liquidity_amount
    → (dropped : Bool) → (dropped ≡ true → p'.liquidity_amount ≡ 0)
    → total_liquidity (if dropped then remove ps i else set ps i p') ≡ total_liquidity ps
drop-total ps i p p' at same true nothing =
    omega (arith, total_liquidity-remove ps i p at, nothing refl)
drop-total ps i p p' at same false nothing = omega (arith, total_liquidity-set ps i p p' at)

-- A successful claim pays what one of the provider's positions is owed, which is not nothing, and
-- leaves the provider's liquidity over all positions as it is.
pub claim-total :
    (provider provider' : LiquidityProvider) (pool : Pubkey) (claimed : ℕ)
    → claim provider pool ≡ ok (provider', claimed)
    → (total_liquidity provider'.positions ≡ total_liquidity provider.positions)
      × (0 < claimed)
      × ((p : LiquidityPosition) × ((i : ℕ) × (get_elem? provider.positions i ≡ some p)
            × (claimed ≡ p.rewards_owed)))
unfolding claim
claim-total provider provider' pool claimed e0 =
    >>=-ok-elim (find_position provider pool) _ e0 λ found ef e1.
      let (p, i) = found in
      let at = find_position-at provider pool p i ef in
      >>=-ok-elim (Position.claim_rewards p) _ e1 λ paid ec e2.
        let (p', c) = paid in
        let (owed, some_owed, _, _, _, kept) = claim_rewards-earned p p' c ec in
        let amount : c ≡ claimed = ap (λ (x : LiquidityProvider × ℕ). x.1) (ok-injective e2) in
        let same =
          ap (λ (x : LiquidityProvider × ℕ). total_liquidity x.0.positions) (ok-injective e2) in
        let total =
          drop-total provider.positions i p p' at kept
            (p'.liquidity_amount == 0 && p'.rewards_estimated == 0)
            (both p'.liquidity_amount 0 (p'.rewards_estimated == 0)) in
        (sym same ∙ total, rw (← amount) some_owed, (p, (i, at, sym amount ∙ owed)))

-- ===== src/Math/Sqrt/Correct.antt =====
-- The loop of `sqrt` finds one digit of the root, in base two, in each round.
use native.Mathlib.Nat.{pow-suc, one-le-pow, mul-le-mul_right, mod-eq_of_lt, pow-le-pow_right}
use mathlib.Core.Path.{subst}
use deltafi_contracts.Prelude.{
  sym, ℕ, zero, suc, ◌+◌, ◌-◌, ◌*◌, ◌/◌, ◌%◌, ◌^◌, ◌≤◌, ◌<◌, ◌≡◌, refl, ◌∙◌, ap, some, leb, ◌==◌,
  inl, inr, Bool-cases, arith,
}
use deltafi_contracts.Math.Sqrt.{
  bit_length, leading_zeros, checked_shl, first_bit, round, sqrt_loop, sqrt,
}

-- `root` is the digits found so far of the root of `radicand`, and `bit` the weight of the last one:
-- `n` is what is left of the radicand.
record IsPartial (radicand root bit n : ℕ) : Type 0 where
  rest : n + root * root * bit ≡ radicand
  tight : radicand < (root + 1) * (root + 1) * bit

-- A round on a partial root at the weight `4 * bit` gives one at the weight `bit`.
round-IsPartial :
    (radicand root bit n : ℕ)
    → IsPartial radicand root (4 * bit) n
    → root * (4 * bit) + 2 * bit < 2 ^ 128
    → (root' n' : ℕ) × (round bit n (root * (4 * bit)) ≡ some (n', root' * bit))
      × IsPartial radicand root' bit n'
      × (root' ≤ 2 * root + 1)
unfolding round
round-IsPartial radicand root bit n p room = elim (Bool-cases (leb (root * (4 * bit) + bit) n)) [
  | inl more ↦ (2 * root + 1, n - (root * (4 * bit) + bit), ground arith, ground arith, omega arith)
  | inr less ↦ (2 * root, n, ground arith, ground arith, omega arith)
]

sqrt_loop_step :
    (fuel bit n result n' result' : ℕ)
    → 0 < bit
    → round bit n result ≡ some (n', result')
    → sqrt_loop (suc fuel) bit n result ≡ sqrt_loop fuel (bit / 4) n' result'
unfolding sqrt_loop
sqrt_loop_step fuel bit n result n' result' pos e = ground arith

sqrt_loop_done : (fuel n result : ℕ) → sqrt_loop (suc fuel) 0 n result ≡ some result
unfolding sqrt_loop
sqrt_loop_done fuel n result = refl

four-pow-suc : (k : ℕ) → 4 ^ suc k ≡ 4 * 4 ^ k
four-pow-suc k = omega (arith, pow-suc 4 k)

four-pow-pos : (k : ℕ) → 0 < 4 ^ k
four-pow-pos k = one-le-pow k 4 (omega arith)

-- From the bit 4 ^ k, `k + 2` units of fuel are enough, and the loop ends with the root.
sqrt_loop-root :
    (k fuel radicand root n bit result : ℕ)
    → bit ≡ 4 ^ k
    → result ≡ root * (4 * bit)
    → k < fuel
    → IsPartial radicand root (4 * bit) n
    → result + 2 * bit < 2 ^ 128
    → (r : ℕ) × (sqrt_loop (suc fuel) bit n result ≡ some r)
      × (r * r ≤ radicand)
      × (radicand < (r + 1) * (r + 1))
sqrt_loop-root k zero radicand root n bit result eb er h p room = absurd (omega arith)
sqrt_loop-root zero (suc fuel) radicand root n bit result eb er h p room =
    let (r, n', e, q, _) = round-IsPartial radicand root bit n p (omega arith) in
    let last : IsPartial radicand r 1 n' = subst (λ (b : ℕ). IsPartial radicand r b n') eb q in
    let over : bit / 4 ≡ 0 = omega arith in
    let unit : r * bit ≡ r = ap (λ (b : ℕ). r * b) eb ∙ omega arith in
    (
      r,
      ap (sqrt_loop (suc (suc fuel)) bit n) er
          ∙ sqrt_loop_step (suc fuel) bit n _ n' (r * bit) (omega arith) e
          ∙ ap (λ (b : ℕ). sqrt_loop (suc fuel) b n' (r * bit)) over
          ∙ sqrt_loop_done fuel n' (r * bit)
          ∙ ap some unit,
      omega (arith, last.rest),
      omega (arith, last.tight),
    )
sqrt_loop-root (suc k) (suc fuel) radicand root n bit result eb er h p room =
    let (root', n', e, q, small) = round-IsPartial radicand root bit n p (omega arith) in
    let quarter : bit / 4 ≡ 4 ^ k = omega (arith, four-pow-suc k) in
    let whole : 4 * (bit / 4) ≡ bit = omega (arith, four-pow-suc k) in
    let (r, er', lo, hi) =
      sqrt_loop-root k fuel radicand root' n' (bit / 4) (root' * bit) quarter
        (ap (λ (b : ℕ). root' * b) (sym whole)) (omega arith)
        (subst (λ (b : ℕ). IsPartial radicand root' b n') (sym whole) q)
        (omega (arith, mul-le-mul_right bit small)) in
    (
      r,
      ap (sqrt_loop (suc (suc fuel)) bit n) er
          ∙ sqrt_loop_step (suc fuel) bit n _ n' (root' * bit) (omega (arith, four-pow-pos k)) e
          ∙ er',
      lo,
      hi,
    )

two-pow-double : (k : ℕ) → 2 ^ (k * 2) ≡ 4 ^ k
two-pow-double zero = refl
two-pow-double (suc k) =
    ap (λ (e : ℕ). 2 ^ e) (omega arith)
    ∙ pow-suc 2 (suc (k * 2))
    ∙ omega (arith, pow-suc 2 (k * 2), two-pow-double k, four-pow-suc k)

bit_length_step : (w n l : ℕ) → 0 < n → bit_length w (n / 2) ≡ l → bit_length (suc w) n ≡ suc l
unfolding bit_length
bit_length_step w n l pos e = ground arith

bit_length-zero : (w : ℕ) → bit_length w 0 ≡ 0
unfolding bit_length
bit_length-zero zero = refl
bit_length-zero (suc w) = refl

bit_length-bounds :
    (w n : ℕ)
    → 0 < n
    → n < 2 ^ w
    → (l : ℕ) × (bit_length w n ≡ suc l) × (l < w) × (2 ^ l ≤ n) × (n < 2 * 2 ^ l)
bit_length-bounds zero n pos h = absurd (omega arith)
bit_length-bounds (suc w) n pos h = elim (Bool-cases (n / 2 == 0)) [
  | inl e ↦
      let single : n ≡ 1 = ground arith in
      (
        0,
        rw single (bit_length_step w 1 0 (omega arith) (bit_length-zero w)),
        omega arith,
        omega arith,
        omega arith,
      )
  | inr e ↦
      let (l, el, hl, lo, hi) =
        bit_length-bounds w (n / 2) (ground arith) (omega (arith, pow-suc 2 w)) in
      (
        suc l,
        bit_length_step w n (suc l) pos el,
        omega arith,
        omega (arith, pow-suc 2 l),
        omega (arith, pow-suc 2 l),
      )
]

leading_zeros-lem : (n l : ℕ) → bit_length 128 n ≡ l → leading_zeros n ≡ 128 - l
unfolding leading_zeros
leading_zeros-lem n l e = rw e

shift-even :
    (n l : ℕ) → leading_zeros n ≡ 127 - l → l < 128 → first_bit n ≡ checked_shl 1 (l / 2 * 2)
unfolding first_bit
shift-even n l e h =
    ap (λ (s : ℕ). checked_shl 1 (s / 2 * 2))
      (omega (arith, leading_zeros-lem 0 0 (bit_length-zero 128)))

checked_shl-one :
    (shift v : ℕ) → shift < 128 → 2 ^ shift ≡ v → v < 2 ^ 128 → checked_shl 1 shift ≡ some v
checked_shl-one shift v h e fits = rw e (ground (arith, mod-eq_of_lt fits))

two-pow-halves : (l : ℕ) → (4 ^ (l / 2) ≤ 2 ^ l) × (2 * 2 ^ l ≤ 4 * 4 ^ (l / 2))
two-pow-halves l = elim (Bool-cases (l % 2 == 0)) [
  | inl even ↦
      let same : l ≡ l / 2 * 2 = ground arith in
      let e : 2 ^ l ≡ 4 ^ (l / 2) = ap (λ (x : ℕ). 2 ^ x) same ∙ two-pow-double (l / 2) in
      omega (arith, e)
  | inr odd ↦
      let next : l ≡ suc (l / 2 * 2) = ground arith in
      let e : 2 ^ l ≡ 2 * 4 ^ (l / 2) =
        ap (λ (x : ℕ). 2 ^ x) next
        ∙ pow-suc 2 (l / 2 * 2)
        ∙ omega (arith, two-pow-double (l / 2)) in
      omega (arith, e)
]

-- The first bit is the largest power of four that is at most the radicand.
first_bit-largest :
    (radicand : ℕ)
    → 0 < radicand
    → radicand < 2 ^ 128
    → (k : ℕ) × (first_bit radicand ≡ some (4 ^ k))
      × (k < 64)
      × (4 ^ k ≤ radicand)
      × (radicand < 4 * 4 ^ k)
first_bit-largest radicand pos fits =
    let (l, el, hl, lo, hi) = bit_length-bounds 128 radicand pos fits in
    let (below, above) = two-pow-halves l in
    (
      l / 2,
      shift-even radicand l (leading_zeros-lem radicand (suc l) el ∙ omega arith) hl
          ∙ checked_shl-one (l / 2 * 2) (4 ^ (l / 2)) (omega arith) (two-pow-double (l / 2))
              (omega arith),
      omega arith,
      omega arith,
      omega arith,
    )

sqrt_start : (m bit : ℕ) → first_bit (suc m) ≡ some bit → sqrt (suc m) ≡ sqrt_loop 65 bit (suc m) 0
unfolding sqrt
sqrt_start m bit e = rw e (ground arith)

-- On every u128 the function ends, no checked operation fails, and the result is the integer part of
-- the square root.
pub sqrt-root :
    (radicand : ℕ)
    → radicand < 2 ^ 128
    → (r : ℕ) × (sqrt radicand ≡ some r) × (r * r ≤ radicand) × (radicand < (r + 1) * (r + 1))
sqrt-root zero fits = (0, unfold sqrt in refl, omega arith, omega arith)
sqrt-root (suc m) fits =
    let (k, e, hk, lo, hi) = first_bit-largest (suc m) (omega arith) fits in
    let most : k ≤ 63 = omega arith in
    let small : 4 ^ k ≤ 4 ^ 63 = pow-le-pow_right {n = 4} (omega arith) most in
    let (r, er, below, above) =
      sqrt_loop-root k 64 (suc m) 0 (suc m) (4 ^ k) 0 refl (omega arith) hk
        (record { rest = omega arith; tight = omega arith }) (omega arith) in
    (r, sqrt_start m (4 ^ k) e ∙ er, below, above)

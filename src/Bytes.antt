-- ===== src/Bytes.antt =====
-- Little-endian numbers in a byte buffer: `to_le_bytes` and `from_le_bytes`, and the slices that
-- array_refs! and split_at take off the front. A byte is a number below 256.
use native.Mathlib.Numerals.{unary_clauses}
use deltafi_contracts.Prelude.{
  ℕ, zero, suc, ◌+◌, ◌-◌, ◌*◌, ◌/◌, ◌%◌, ◌^◌, ◌≤◌, ◌<◌, ◌≡◌, refl, ap, Bool, true, false, Option,
  none, some, List, [], ◌∷◌, ltb, if◌then◌else◌, length, arith,
}
use deltafi_contracts.Prelude.Int.{ℤ, pos, negsuc, in_i64}
use deltafi_contracts.Outcome.{
  Result, SwapError, ok, err, panicked, ok_or, unwrap, ◌>>=◌, invalid_account_data,
}

abbrev pub Bytes : Type 0
Bytes = List ℕ

-- The `w` bytes of a number, the lowest first, in front of the rest of the buffer.
unfoldable pub put_le : ℕ → ℕ → Bytes → Bytes
put_le zero n rest = rest
put_le (suc w) n rest = n % 256 ∷ put_le w (n / 256) rest

-- The number in the first `w` bytes of a buffer, with the bytes that follow.
unfoldable pub take_le : ℕ → Bytes → Option (ℕ × Bytes)
take_le zero bytes = some (0, bytes)
take_le (suc w) [] = none
take_le (suc w) (b ∷ bytes) = elim (take_le w bytes) [
  | none ↦ none
  | some (high, rest) ↦ some (b + 256 * high, rest)
]

-- An i64 is stored in two's complement.
unfoldable pub from_i64 : ℤ → ℕ
from_i64 (pos n) = n
from_i64 (negsuc n) = 2 ^ 64 - 1 - n

unfoldable pub to_i64 : ℕ → ℤ
to_i64 n = if ltb n (2 ^ 63) then pos n else negsuc (2 ^ 64 - 1 - n)

-- state/mod.rs: `pack_bool`, `unpack_bool`.
abbrev pub pack_bool : Bool → ℕ
pack_bool true = 1
pack_bool false = 0

unfoldable pub unpack_bool : ℕ → Result Bool
unpack_bool zero = ok false
unpack_bool (suc zero) = ok true
unpack_bool (suc (suc n)) = err invalid_account_data

power : (w : ℕ) → 256 ^ suc w ≡ 256 * 256 ^ w
power w = simp unary_clauses (omega arith)

pub take_le-put_le :
    (w n : ℕ) (rest : Bytes) → n < 256 ^ w → take_le w (put_le w n rest) ≡ some (n, rest)
unfolding take_le put_le
take_le-put_le zero n rest h = ap (λ (x : ℕ). some (x, rest)) (omega arith)
take_le-put_le (suc w) n rest h =
    rw (take_le-put_le w (n / 256) rest (omega (arith, power w)))
      (ap (λ (x : ℕ). some (x, rest)) (omega arith))

pub length-put_le : (w n : ℕ) (rest : Bytes) → length (put_le w n rest) ≡ w + length rest
unfolding put_le
length-put_le zero n rest = omega arith
length-put_le (suc w) n rest = omega (arith, length-put_le w (n / 256) rest)

pub to_i64-from_i64 : (n : ℤ) → in_i64 n ≡ true → to_i64 (from_i64 n) ≡ n
unfolding to_i64 from_i64
to_i64-from_i64 (pos n) h = ground arith
to_i64-from_i64 (negsuc n) h = ground arith

pub from_i64-lt : (n : ℤ) → in_i64 n ≡ true → from_i64 n < 256 ^ 8
unfolding from_i64
from_i64-lt (pos n) h = ground arith
from_i64-lt (negsuc n) h = ground arith

-- A read of what was just written, at the head of a block that goes on with it.
pub unwrap-take_le {ℓ} :
    {A : Type ℓ} (w : ℕ) {n : ℕ} {rest : Bytes} (f : ℕ × Bytes → Result A)
    → n < 256 ^ w
    → (unwrap (take_le w (put_le w n rest)) >>= f) ≡ f (n, rest)
unfolding ◌>>=◌
unwrap-take_le w {n} {rest} f h = rw (take_le-put_le w n rest h) refl

pub ok_or-take_le {ℓ} :
    {A : Type ℓ} (w : ℕ) {n : ℕ} {rest : Bytes} (e : SwapError) (f : ℕ × Bytes → Result A)
    → n < 256 ^ w
    → (ok_or (take_le w (put_le w n rest)) e >>= f) ≡ f (n, rest)
unfolding ◌>>=◌
ok_or-take_le w {n} {rest} e f h = rw (take_le-put_le w n rest h) refl

-- array_ref!: a buffer that is shorter than the slice makes it panic.
abbrev pub array_ref {ℓ} : {A : Type ℓ} → ℕ → Bytes → Result A → Result A
array_ref size input body = if ltb (length input) size then panicked else body

abbrev pub put_bool : Bool → Bytes → Bytes
put_bool b rest = put_le 1 (pack_bool b) rest

unfoldable pub take_bool : Bytes → Result (Bool × Bytes)
take_bool input = do (byte, rest) ← unwrap (take_le 1 input); b ← unpack_bool byte; ok (b, rest)

pack_bool-lt : (b : Bool) → pack_bool b < 256 ^ 1
pack_bool-lt b = ground arith

unpack_bool-pack_bool : (b : Bool) → unpack_bool (pack_bool b) ≡ ok b
unfolding unpack_bool
unpack_bool-pack_bool true = refl
unpack_bool-pack_bool false = refl

pub take_bool-put_bool {ℓ} :
    {A : Type ℓ} (b : Bool) {rest : Bytes} (f : Bool × Bytes → Result A)
    → (take_bool (put_bool b rest) >>= f) ≡ f (b, rest)
unfolding take_bool ◌>>=◌
take_bool-put_bool b {rest} f =
    rw (take_le-put_le 1 (pack_bool b) rest (pack_bool-lt b)) (rw (unpack_bool-pack_bool b) refl)

pub array_ref-enough {ℓ} :
    {A : Type ℓ} (size : ℕ) (input : Bytes) (body : Result A)
    → size ≤ length input
    → array_ref size input body ≡ body
array_ref-enough size input body h = ground arith

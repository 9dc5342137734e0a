-- ===== src/Curve/Pool/Packing.antt =====
-- curve/pool.rs: `Pack for PoolState`, six decimals of 16 bytes and the multiplier in 97 bytes, with
-- `pack_decimal` and `unpack_decimal` of state/mod.rs. A field is put in front of those that follow
-- it, so the last one is packed first; a decimal of 2^128 or more cannot be packed and panics.
use deltafi_contracts.Prelude.{ℕ, ◌+◌, ◌<◌, ◌^◌, ◌≡◌, refl, ◌∙◌, length, arith}
use deltafi_contracts.Outcome.{Result, ok, err, panicked, unwrap, ◌>>=◌, >>=-ok-elim}
use deltafi_contracts.Bytes.{Bytes, put_le, take_le, take_le-put_le, unwrap-take_le, length-put_le}
use deltafi_contracts.Math.Decimal.{Decimal, to_scaled_val, from_scaled_val}
use deltafi_contracts.Curve.Pool.{PoolState, Multiplier, above_one, below_one, multiplier_try_from}

-- `.expect("Decimal cannot be packed")`
abbrev pub expect : Result ℕ → Result ℕ
expect (ok v) = ok v
expect (err _) = panicked
expect panicked = panicked

unfoldable pub pack_decimal : Decimal → Bytes → Result Bytes
pack_decimal decimal rest = do v ← expect (to_scaled_val decimal); ok (put_le 16 v rest)

unfoldable pub unpack_decimal : Bytes → Result (Decimal × Bytes)
unpack_decimal input = do (v, rest) ← unwrap (take_le 16 input); ok (from_scaled_val v, rest)

-- `self.multiplier as u8`
abbrev pub multiplier_byte : Multiplier → ℕ
multiplier_byte Multiplier.one = 0
multiplier_byte above_one = 1
multiplier_byte below_one = 2

unfoldable pub pack_into_slice : PoolState → Bytes → Result Bytes
pack_into_slice s rest = do
  output ← pack_decimal s.quote_target (put_le 1 (multiplier_byte s.multiplier) rest)
  output ← pack_decimal s.base_target output
  output ← pack_decimal s.quote_reserve output
  output ← pack_decimal s.base_reserve output
  output ← pack_decimal s.slope output
  pack_decimal s.market_price output

unfoldable pub unpack_from_slice : Bytes → Result (PoolState × Bytes)
unpack_from_slice input = do
  (price, input) ← unpack_decimal input
  (slope', input) ← unpack_decimal input
  (base, input) ← unpack_decimal input
  (quote, input) ← unpack_decimal input
  (base_goal, input) ← unpack_decimal input
  (quote_goal, input) ← unpack_decimal input
  (byte, input) ← unwrap (take_le 1 input)
  m ← multiplier_try_from byte
  ok (
    record {
      market_price = price;
      slope = slope';
      base_reserve = base;
      quote_reserve = quote;
      base_target = base_goal;
      quote_target = quote_goal;
      multiplier = m;
    },
    input,
  )

pack_decimal-ok :
    (d : Decimal) (rest output : Bytes)
    → pack_decimal d rest ≡ ok output
    → (d < 256 ^ 16) × (output ≡ put_le 16 d rest)
unfolding pack_decimal ◌>>=◌ to_scaled_val
pack_decimal-ok d rest output e = ground arith

pub pack_decimal-lt :
    (d : Decimal) (rest : Bytes) → d < 256 ^ 16 → pack_decimal d rest ≡ ok (put_le 16 d rest)
unfolding pack_decimal ◌>>=◌ to_scaled_val
pack_decimal-lt d rest h = ground arith

-- A decimal that packs at all is read back by the block that goes on with it.
pub unpack_decimal-pack_decimal {ℓ} :
    {A : Type ℓ} (d : Decimal) (rest output : Bytes) (f : Decimal × Bytes → Result A)
    → pack_decimal d rest ≡ ok output
    → (unpack_decimal output >>= f) ≡ f (d, rest)
unfolding unpack_decimal ◌>>=◌
unpack_decimal-pack_decimal d rest output f e =
    let (small, written) = pack_decimal-ok d rest output e in
    rw written (rw (take_le-put_le 16 d rest small) refl)

pub length-pack_decimal :
    (d : Decimal) (rest output : Bytes)
    → pack_decimal d rest ≡ ok output
    → length output ≡ 16 + length rest
length-pack_decimal d rest output e =
    let (_, written) = pack_decimal-ok d rest output e in rw written (length-put_le 16 d rest)

multiplier_byte-lt : (m : Multiplier) → multiplier_byte m < 256 ^ 1
multiplier_byte-lt m = ground arith

multiplier_try_from-multiplier_byte :
    (m : Multiplier) → multiplier_try_from (multiplier_byte m) ≡ ok m
unfolding multiplier_try_from
multiplier_try_from-multiplier_byte m = ground arith

read_multiplier {ℓ} :
    {A : Type ℓ} (m : Multiplier) (f : Multiplier → Result A)
    → (multiplier_try_from (multiplier_byte m) >>= f) ≡ f m
unfolding ◌>>=◌
read_multiplier m f = rw (multiplier_try_from-multiplier_byte m) refl

-- What packing a pool gives takes 97 bytes more, and the pool is read back from it.
read_packed :
    (s : PoolState) (rest output : Bytes)
    → pack_into_slice s rest ≡ ok output
    → (unpack_from_slice output ≡ ok (s, rest)) × (length output ≡ 97 + length rest)
unfolding pack_into_slice unpack_from_slice
read_packed s rest output e0 =
    let byte = put_le 1 (multiplier_byte s.multiplier) rest in
    >>=-ok-elim (pack_decimal s.quote_target byte) _ e0 λ o1 e1 r1.
      >>=-ok-elim (pack_decimal s.base_target o1) _ r1 λ o2 e2 r2.
        >>=-ok-elim (pack_decimal s.quote_reserve o2) _ r2 λ o3 e3 r3.
          >>=-ok-elim (pack_decimal s.base_reserve o3) _ r3 λ o4 e4 r4.
            >>=-ok-elim (pack_decimal s.slope o4) _ r4 λ o5 e5 e6. (
              unpack_decimal-pack_decimal s.market_price o5 output _ e6
                  ∙ unpack_decimal-pack_decimal s.slope o4 o5 _ e5
                  ∙ unpack_decimal-pack_decimal s.base_reserve o3 o4 _ e4
                  ∙ unpack_decimal-pack_decimal s.quote_reserve o2 o3 _ e3
                  ∙ unpack_decimal-pack_decimal s.base_target o1 o2 _ e2
                  ∙ unpack_decimal-pack_decimal s.quote_target byte o1 _ e1
                  ∙ unwrap-take_le 1 _ (multiplier_byte-lt s.multiplier)
                  ∙ read_multiplier s.multiplier _,
              omega (
                arith,
                length-pack_decimal s.market_price o5 output e6,
                length-pack_decimal s.slope o4 o5 e5,
                length-pack_decimal s.base_reserve o3 o4 e4,
                length-pack_decimal s.quote_reserve o2 o3 e3,
                length-pack_decimal s.base_target o1 o2 e2,
                length-pack_decimal s.quote_target byte o1 e1,
                length-put_le 1 (multiplier_byte s.multiplier) rest,
              ),
            )

-- Every decimal of the pool fits the u128 that it is stored in.
pub record IsPackable (s : PoolState) : Type 0 where
  pub market_price : s.market_price < 256 ^ 16
  pub slope : s.slope < 256 ^ 16
  pub base_reserve : s.base_reserve < 256 ^ 16
  pub quote_reserve : s.quote_reserve < 256 ^ 16
  pub base_target : s.base_target < 256 ^ 16
  pub quote_target : s.quote_target < 256 ^ 16

step {ℓ} :
    {A : Type ℓ} (d : Decimal) (rest : Bytes) (f : Bytes → Result A)
    → d < 256 ^ 16
    → (pack_decimal d rest >>= f) ≡ f (put_le 16 d rest)
unfolding ◌>>=◌
step d rest f h = rw (pack_decimal-lt d rest h) refl

pack_into_slice-IsPackable :
    (s : PoolState) (rest : Bytes)
    → IsPackable s
    → (output : Bytes) × (pack_into_slice s rest ≡ ok output)
unfolding pack_into_slice
pack_into_slice-IsPackable s rest h = (
  _,
  step s.quote_target _ _ h.quote_target
      ∙ step s.base_target _ _ h.base_target
      ∙ step s.quote_reserve _ _ h.quote_reserve
      ∙ step s.base_reserve _ _ h.base_reserve
      ∙ step s.slope _ _ h.slope
      ∙ pack_decimal-lt s.market_price _ h.market_price,
)

-- A pool whose decimals fit a u128 packs without a panic into 97 bytes, and is read back as it was,
-- whatever bytes follow.
pub pool_unpack-pack :
    (s : PoolState) (rest : Bytes)
    → IsPackable s
    → (output : Bytes) × (pack_into_slice s rest ≡ ok output)
      × (unpack_from_slice output ≡ ok (s, rest))
      × (length output ≡ 97 + length rest)
pool_unpack-pack s rest h =
    let (output, packs) = pack_into_slice-IsPackable s rest h in
    let (back, size) = read_packed s rest output packs in (output, packs, back, size)

-- ===== src/State/Liquidity/Packing/RoundTrip.antt =====
-- A packed provider is read back; an eleventh position cannot be packed.
use deltafi_contracts.Prelude.{
  ℕ, ◌+◌, ◌*◌, ◌<◌, ◌≤◌, ◌^◌, ◌≡◌, refl, ◌⊎◌, inl, inr, sym, ◌∙◌, ap, true, List, [], ◌∷◌, length,
  drop, All, length-drop, take_all, arith,
}
use deltafi_contracts.Prelude.Int.{in_i64}
use deltafi_contracts.Outcome.{
  Result, ok, panicked, unwrap, ok-injective, ◌>>=◌, >>=-ok, >>=-ok-elim,
}
use deltafi_contracts.Math.Checked.{try_from}
use deltafi_contracts.Bytes.{
  Bytes, put_le, put_bool, unwrap-take_le, length-put_le, take_bool-put_bool, array_ref-enough,
  array_ref, to_i64-from_i64, from_i64-lt,
}
use deltafi_contracts.State.Position.{LiquidityPosition}
use deltafi_contracts.State.Liquidity.{LiquidityProvider, max_liquidity_positions}
use deltafi_contracts.State.Liquidity.Packing.{
  put_position, put_positions, pack_into_slice, take_position, take_positions, unpack_from_slice,
  data_size,
}

-- The fields are of their machine widths.
pub record IsPosition (p : LiquidityPosition) : Type 0 where
  pub pool : p.pool < 256 ^ 32
  pub liquidity_amount : p.liquidity_amount < 256 ^ 8
  pub rewards_owed : p.rewards_owed < 256 ^ 8
  pub rewards_estimated : p.rewards_estimated < 256 ^ 8
  pub cumulative_interest : p.cumulative_interest < 256 ^ 8
  pub last_update_ts : in_i64 p.last_update_ts ≡ true
  pub next_claim_ts : in_i64 p.next_claim_ts ≡ true

length-put_position :
    (p : LiquidityPosition) (rest : Bytes) → length (put_position p rest) ≡ 80 + length rest
unfolding put_position
length-put_position p rest = simp length-put_le (omega arith)

take_position-put_position :
    (p : LiquidityPosition) (rest : Bytes)
    → IsPosition p
    → take_position (put_position p rest) ≡ ok (p, rest)
unfolding take_position put_position
take_position-put_position p rest h =
    unwrap-take_le 32 _ h.pool
    ∙ unwrap-take_le 8 _ h.liquidity_amount
    ∙ unwrap-take_le 8 _ h.rewards_owed
    ∙ unwrap-take_le 8 _ h.rewards_estimated
    ∙ unwrap-take_le 8 _ h.cumulative_interest
    ∙ unwrap-take_le 8 _ (from_i64-lt p.last_update_ts h.last_update_ts)
    ∙ unwrap-take_le 8 _ (from_i64-lt p.next_claim_ts h.next_claim_ts)
    ∙ rw (to_i64-from_i64 p.last_update_ts h.last_update_ts)
        (rw (to_i64-from_i64 p.next_claim_ts h.next_claim_ts) refl)

array_ref-ok :
    (size : ℕ) (input : Bytes) (body : Result Bytes) (output : Bytes)
    → array_ref size input body ≡ ok output
    → (size ≤ length input) × (body ≡ ok output)
array_ref-ok size input body output e = ground arith

put_positions-length :
    (ps : List LiquidityPosition) (flat output : Bytes)
    → put_positions ps flat ≡ ok output
    → length output ≡ length flat
unfolding put_positions
put_positions-length [] flat output e = ap length (sym (ok-injective e))
put_positions-length (p ∷ ps) flat output e0 =
    let (long, e1) = array_ref-ok 80 flat _ output e0 in
    >>=-ok-elim (put_positions ps (drop 80 flat)) _ e1 λ more em e2. rw (← ok-injective e2) (
      omega (
        arith,
        length-put_position p more,
        put_positions-length ps (drop 80 flat) more em,
        length-drop 80 flat,
      ))

take_positions-put_positions :
    (ps : List LiquidityPosition) (flat output : Bytes)
    → All IsPosition ps
    → put_positions ps flat ≡ ok output
    → take_positions (length ps) output ≡ ok ps
unfolding put_positions take_positions
take_positions-put_positions [] flat output h e = refl
take_positions-put_positions (p ∷ ps) flat output (hp, hs) e0 =
    let (_, e1) = array_ref-ok 80 flat _ output e0 in
    >>=-ok-elim (put_positions ps (drop 80 flat)) _ e1 λ more em e2. rw (← ok-injective e2) (
      >>=-ok _ _ (take_position-put_position p more hp)
      ∙ >>=-ok _ _ (take_positions-put_positions ps (drop 80 flat) more hs em))

-- A write of the positions succeeds exactly where they fit.
put_positions-fit :
    (ps : List LiquidityPosition) (flat : Bytes)
    → 80 * length ps ≤ length flat
    → (output : Bytes) × (put_positions ps flat ≡ ok output)
unfolding put_positions
put_positions-fit [] flat h = (flat, refl)
put_positions-fit (p ∷ ps) flat h =
    let (more, em) = put_positions-fit ps (drop 80 flat) (omega (arith, length-drop 80 flat)) in
    (put_position p more, array_ref-enough 80 flat _ (omega arith) ∙ >>=-ok _ _ em)

-- A slice is out of range, or what is done with it panics.
out_of_range :
    (input : Bytes) (body : Result Bytes)
    → (80 ≤ length input → body ≡ panicked)
    → array_ref 80 input body ≡ panicked
out_of_range input body h = ground arith

put_positions-panicked :
    (ps : List LiquidityPosition) (flat : Bytes)
    → length flat < 80 * length ps
    → put_positions ps flat ≡ panicked
unfolding put_positions ◌>>=◌
put_positions-panicked [] flat h = ground arith
put_positions-panicked (p ∷ ps) flat h =
    out_of_range flat _ λ long.
      rw (put_positions-panicked ps (drop 80 flat) (omega (arith, length-drop 80 flat))) refl

-- A provider of at most ten positions, its fields being of their widths, packs into 834 bytes,
-- whatever the buffer held, and is read back as it was.
pub provider_unpack-pack :
    (p : LiquidityProvider) (flat : Bytes)
    → length flat ≡ data_size
    → p.owner < 256 ^ 32
    → All IsPosition p.positions
    → length p.positions ≤ max_liquidity_positions
    → (output : Bytes) × (pack_into_slice p flat ≡ ok output)
      × (length output ≡ 834)
      × (unpack_from_slice output ≡ ok p)
unfolding pack_into_slice unpack_from_slice
provider_unpack-pack p flat size owner all few =
    let (written, ew) = put_positions-fit p.positions flat (omega arith) in
    let written_size = put_positions-length p.positions flat written ew in
    let output =
      put_bool p.is_initialized (put_le 32 p.owner (put_le 1 (length p.positions) written)) in
    let long : length output ≡ 834 = simp length-put_le (omega arith) in
    (
      output,
      >>=-ok (unwrap (try_from 8 (length p.positions))) _ (ground arith) ∙ >>=-ok _ _ ew,
      long,
      array_ref-enough 834 output _ (omega arith)
          ∙ take_bool-put_bool p.is_initialized _
          ∙ unwrap-take_le 32 _ owner
          ∙ unwrap-take_le 1 _ (omega arith)
          ∙ rw (take_all data_size written (written_size ∙ size))
              (>>=-ok _ _ (take_positions-put_positions p.positions flat written all ew)),
    )

panics :
    {A B C : Type 0} (m : Result A) {n : Result B} (f : A → B → Result C)
    → n ≡ panicked
    → (m ≡ panicked) ⊎ ((a : A) × (m ≡ ok a))
    → (m >>= λ a. n >>= f a) ≡ panicked
unfolding ◌>>=◌
panics m {n} f e (inl stop) = rw stop refl
panics m {n} f e (inr (a, go)) = rw (go, e) refl

-- A provider of more than ten positions cannot be packed: the write is out of range and panics.
pub provider_pack-panicked :
    (p : LiquidityProvider) (flat : Bytes)
    → length flat ≡ data_size
    → max_liquidity_positions < length p.positions
    → pack_into_slice p flat ≡ panicked
unfolding pack_into_slice ◌>>=◌
provider_pack-panicked p flat size many =
    panics (unwrap (try_from 8 (length p.positions))) _
      (put_positions-panicked p.positions flat (omega arith)) (ground arith)

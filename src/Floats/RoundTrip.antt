-- ===== src/Floats/RoundTrip.antt =====
-- `lex_to_float` inverts `float_to_lex`.
use hypothesis.Common.{
  ℕ, ◌+◌, ◌*◌, ◌/◌, ◌^◌, ◌≤◌, ◌<◌, ◌≡◌, refl, ap, ◌∙◌, arith, true, false, ltb, ◌==◌, inl, inr,
  Bool-cases, Option, some, Option-cases,
}
use Prim.Native.Nat.{◌%◌}
use hypothesis.Common.Int.{ℤ, pos, ◌-ℤ◌}
use hypothesis.Common.Result.{ok}
use hypothesis.Floats.{
  bias, update_mantissa, decode_exponent, encode_exponent, base_float_to_lex, float_to_lex,
  lex_to_float, is_simple,
}
use hypothesis.Floats.Mantissa.{updated, update_mantissa_lem, updated-lt, updated-updated}
use hypothesis.Floats.Tables.{encode_exponent_lem}

module _ (of_int : ℕ → ℕ) (whole : ℕ → Option ℕ) where
  encode_step :
      (bits e m n j : ℕ)
      → bits % 2 ^ 63 / 2 ^ 52 ≡ e
      → bits % 2 ^ 63 % 2 ^ 52 ≡ m
      → update_mantissa (pos e -ℤ pos bias) m ≡ ok n
      → encode_exponent e ≡ ok j
      → n < 2 ^ 52
      → base_float_to_lex bits ≡ ok (2 ^ 63 + j * 2 ^ 52 + n)
  unfolding base_float_to_lex
  encode_step bits e m n j p q h g l =
      let s : ltb n (2 ^ 52) ≡ true = ground arith in rw (p, q, h, g, s) refl

  decode_step :
      (i e m n j : ℕ)
      → i < 2 ^ 64
      → 2 ^ 63 ≤ i
      → i / 2 ^ 52 % 2 ^ 11 ≡ j
      → i % 2 ^ 52 ≡ n
      → decode_exponent j ≡ ok e
      → update_mantissa (pos e -ℤ pos bias) n ≡ ok m
      → m < 2 ^ 52
      → lex_to_float of_int whole i ≡ ok (e * 2 ^ 52 + m)
  unfolding lex_to_float
  decode_step i e m n j a b p q h g l =
      let s : ltb m (2 ^ 52) ≡ true = ground arith in
      let t : ltb i (2 ^ 64) ≡ true = ground arith in
      let u : (i / 2 ^ 63 == 0) ≡ false = ground arith in rw (t, u, p, q, h, g, s) refl

  -- Where a float is not simple
  base_roundtrip :
      (bits : ℕ)
      → bits < 2 ^ 63
      → (i : ℕ) × (base_float_to_lex bits ≡ ok i)
        × (2 ^ 63 ≤ i)
        × (i < 2 ^ 64)
        × (lex_to_float of_int whole i ≡ ok bits)
  base_roundtrip bits h =
      let e : ℕ = bits / 2 ^ 52 in
      let m : ℕ = bits % 2 ^ 52 in
      let u : ℤ = pos e -ℤ pos bias in
      let small : m < 2 ^ 52 = omega arith in
      let n : ℕ = updated u m in
      let below : n < 2 ^ 52 = updated-lt u m small in
      let (j, f, l, g) = encode_exponent_lem e (omega arith) in
      let i : ℕ = 2 ^ 63 + j * 2 ^ 52 + n in
      let there =
        encode_step bits e m n j (omega arith) (omega arith) (update_mantissa_lem u m small) f
          below in
      let again = update_mantissa_lem u n below ∙ ap ok (updated-updated u m small) in
      let back =
        decode_step i e m n j (omega arith) (omega arith) (omega arith) (omega arith) g again
          small in
      let parts : e * 2 ^ 52 + m ≡ bits = omega arith in
      (i, there, omega arith, omega arith, back ∙ ap ok parts)

  simple_bounds :
      (w : ℕ)
      → ltb w (2 ^ 56) ≡ true
      → (w < 2 ^ 64) × (ltb w (2 ^ 64) ≡ true) × ((w / 2 ^ 63 == 0) ≡ true) × (w % 2 ^ 56 ≡ w)
  simple_bounds w s =
      let l : w < 2 ^ 56 = ground arith in
      let b : w < 2 ^ 64 = omega arith in
      let z : w / 2 ^ 63 ≡ 0 = omega arith in
      let m : w % 2 ^ 56 ≡ w = omega arith in
      let t : ltb w (2 ^ 64) ≡ true = ground arith in (b, t, rw z refl, m)

  -- The encoding of a float without a sign bit is below 2 ** 64, and below 2 ** 56 exactly where the
  -- float is simple; decoding it gives the float. It is assumed that `float` of the integer that `int`
  -- gives for this float, if they are equal, is the float.
  pub float_roundtrip :
      (bits : ℕ)
      → bits < 2 ^ 63
      → ((i : ℕ) → whole bits ≡ some i → of_int i ≡ bits)
      → (i : ℕ) × (float_to_lex of_int whole bits ≡ ok i)
        × (i < 2 ^ 64)
        × (ltb i (2 ^ 56) ≡ is_simple of_int whole bits)
        × (lex_to_float of_int whole i ≡ ok bits)
  unfolding float_to_lex is_simple lex_to_float
  float_roundtrip bits h exact =
      let (i, f, l, b, g) = base_roundtrip bits h in
      let large : ltb i (2 ^ 56) ≡ false = ground arith in
      elim (Option-cases (whole bits)) [
        | inl n ↦ (i, rw (n, float_to_lex) f, b, rw (large, n, is_simple) refl, g)
        | inr (w, e) ↦ elim (Bool-cases (ltb w (2 ^ 56))) [
          | inl s ↦
              let (b', t, u, k) = simple_bounds w s in
              (
                w,
                rw (e, s, float_to_lex) refl,
                b',
                rw (e, s, is_simple) refl,
                rw (t, u, k, exact w e) refl,
              )
          | inr s ↦ (i, rw (e, s, float_to_lex) f, b, rw (large, e, s, is_simple) refl, g)
        ]
      ]

-- ===== src/Database/Leb.antt =====
-- `_unpack_uleb128` inverts `_pack_uleb128`, whatever follows.
use hypothesis.Common.{
  ℕ, zero, suc, ◌+◌, ◌*◌, ◌/◌, ◌%◌, ◌^◌, ◌<◌, ◌≡◌, refl, ap, ◌∙◌, false, List, [], ◌∷◌, ◌++◌, arith,
  ◌==◌, length, length-append, inl, inr, Bool-cases,
}
use hypothesis.Common.Result.{ok}
use hypothesis.Database.{pack_loop, pack_uleb128, unpack_loop, unpack_uleb128}
use native.Mathlib.Nat.{pow-zero, pow-suc, add-mul}

-- The low seven bits and the rest, at the place `p`
split_value : (v p : ℕ) → v % 128 * p + v / 128 * (p * 128) ≡ v * p
split_value v p =
    let q : ℕ = v / 128 in
    let r : ℕ = v % 128 in
    let e : v ≡ r + q * 128 = omega arith in
    let f : q * (p * 128) ≡ q * 128 * p = grind arith in
    omega (arith, add-mul r (q * 128) p, f, ap (λ (t : ℕ). t * p) e)

next_power : (i : ℕ) → 128 ^ (i + 1) ≡ 128 ^ i * 128
next_power i = let e : i + 1 ≡ suc i = omega arith in ap (λ t. 128 ^ t) e ∙ pow-suc 128 i

unpack_loop-pack_loop :
    (fuel v i acc : ℕ) (rest : List ℕ)
    → v < fuel
    → unpack_loop i acc (pack_loop fuel v ++ rest)
      ≡ (i + length (pack_loop fuel v), acc + v * 128 ^ i)
unfolding pack_loop unpack_loop
unpack_loop-pack_loop zero v i acc rest h = absurd (omega arith)
unpack_loop-pack_loop (suc fuel) v i acc rest h = elim (Bool-cases (v / 128 == 0)) [
  | inl e ↦
      let small : v % 128 ≡ v = ground arith in
      rw (e, small, e) (ap (λ (t : ℕ). (i + 1, acc + t * 128 ^ i)) small)
  | inr e ↦
      let more : ((v % 128 + 128) / 128 == 0) ≡ false = ground arith in
      let low : (v % 128 + 128) % 128 ≡ v % 128 = omega arith in
      let there : i + 1 + length (pack_loop fuel (v / 128))
          ≡ i + suc (length (pack_loop fuel (v / 128))) =
        omega arith in
      let power : 128 ^ (i + 1) ≡ 128 ^ i * 128 = next_power i in
      let value : acc + v % 128 * 128 ^ i + v / 128 * 128 ^ (i + 1) ≡ acc + v * 128 ^ i =
        omega (arith, ap (λ (t : ℕ). v / 128 * t) power, split_value v (128 ^ i)) in
      rw (e, more, low)
        (unpack_loop-pack_loop fuel (v / 128) (i + 1) (acc + v % 128 * 128 ^ i) rest (ground arith)
          ∙ (λ j. (there j, value j)))
]

pub pack_loop_some : (fuel v : ℕ) → 0 < length (pack_loop (suc fuel) v)
unfolding pack_loop
pack_loop_some fuel v = ground arith

unpack_uleb128-some : (b : List ℕ) → 0 < length b → unpack_uleb128 b ≡ ok (unpack_loop 0 0 b)
unfolding unpack_uleb128
unpack_uleb128-some [] h = absurd (omega arith)
unpack_uleb128-some (x ∷ b) h = refl

zero_add : (n : ℕ) → 0 + n ≡ n
zero_add n = omega arith

whole : (v : ℕ) → 0 + v * 128 ^ 0 ≡ v
whole v = omega (arith, ap (λ (t : ℕ). v * t) (pow-zero 128))

-- `_unpack_uleb128` of what `_pack_uleb128` wrote gives the number of bytes and the value, whatever
-- bytes follow.
pub unpack_uleb128-pack_uleb128 :
    (value : ℕ) (rest : List ℕ)
    → unpack_uleb128 (pack_uleb128 value ++ rest) ≡ ok (length (pack_uleb128 value), value)
unfolding pack_uleb128
unpack_uleb128-pack_uleb128 value rest =
    unpack_uleb128-some (pack_loop (suc value) value ++ rest)
      (omega (arith, length-append (pack_loop (suc value) value) rest, pack_loop_some value value))
    ∙ ap ok (
        unpack_loop-pack_loop (suc value) value 0 0 rest (omega arith)
        ∙ (λ j. (zero_add (length (pack_loop (suc value) value)) j, whole value j)))

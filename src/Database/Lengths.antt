-- ===== src/Database/Lengths.antt =====
-- The number of bytes that `choices_to_bytes` gives to an integer is enough.
use hypothesis.Common.{
  ℕ, zero, suc, ◌+◌, ◌*◌, ◌/◌, ◌^◌, ◌≤◌, ◌<◌, ◌≡◌, inl, inr, Bool, true, arith, ltb, leb, ◌==◌,
  Bool-cases,
}
use native.Mathlib.Nat.{pow-zero, pow-suc, pow-le-pow_right}
use hypothesis.Common.Int.{ℤ, pos, negsuc, abs}
use hypothesis.Shrinking.Integer.{bits, bit_length}

-- Whether a two's complement of so many bytes has the integer.
abbrev pub fits : ℕ → ℤ → Bool
fits size (pos n) = ltb (2 * n) (2 ^ (8 * size))
fits size (negsuc n) = leb (2 * (n + 1)) (2 ^ (8 * size))

lt-bits : (fuel n : ℕ) → n ≤ fuel → n < 2 ^ bits fuel n
unfolding bits
lt-bits zero n h = omega (arith, pow-zero 2)
lt-bits (suc fuel) n h = elim (Bool-cases (n == 0)) [
  | inl e ↦ rw e (let z : n ≡ 0 = ground arith in omega (arith, pow-zero 2))
  | inr e ↦
      let r = lt-bits fuel (n / 2) (ground arith) in
      rw e (
        let k : bits fuel (n / 2) + 1 ≡ suc (bits fuel (n / 2)) = omega arith in
        rw k (omega (arith, pow-suc 2 (bits fuel (n / 2)))))
]

enough : (n : ℕ) → 2 * n < 2 ^ (8 * (1 + bit_length n / 8))
unfolding bit_length
enough n =
    let b : ℕ = bits n n in
    let l = lt-bits n n (omega arith) in
    let g =
      pow-le-pow_right {n = 2} (omega arith) {i = suc b} {j = 8 * (1 + b / 8)} (omega arith) in
    omega (arith, pow-suc 2 b)

pub length-fits : (n : ℤ) → fits (1 + bit_length (abs n) / 8) n ≡ true
length-fits (pos n) = let h = enough n in ground arith
length-fits (negsuc n) = let h = enough (n + 1) in ground arith

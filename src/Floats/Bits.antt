-- ===== src/Floats/Bits.antt =====
-- The reversal of the low bits of a number.
use hypothesis.Common.{
  ℕ, zero, suc, ◌+◌, ◌-◌, ◌*◌, ◌/◌, ◌^◌, ◌≤◌, ◌<◌, ◌≡◌, refl, sym, ap, ◌∙◌, arith, true, ltb, leb,
  inl, inr, Bool-cases,
}
use Prim.Native.Nat.{◌%◌}
use native.Mathlib.Nat.{pow-zero, pow-suc, div-eq_of_lt, div-div-eq-div-mul, mul-add-div_right}
use hypothesis.Common.Result.{ok}
use hypothesis.Floats.{reverse_byte_loop, reverse_byte, reverse64, reverse_bits}

-- The low `n` bits, reversed
pub rev : ℕ → ℕ → ℕ
rev zero x = 0
rev (suc n) x = x % 2 * 2 ^ n + rev n (x / 2)

pub two_pow_pos : (n : ℕ) → 0 < 2 ^ n
two_pow_pos zero = omega (arith, pow-zero 2)
two_pow_pos (suc n) = omega (arith, pow-suc 2 n, two_pow_pos n)

pub rev-lt : (n x : ℕ) → rev n x < 2 ^ n
unfolding rev
rev-lt zero x = omega (arith, pow-zero 2)
rev-lt (suc n) x =
    let h = rev-lt n (x / 2) in
    elim (Bool-cases (ltb (x % 2) 1)) [
      | inl e ↦ let z : x % 2 ≡ 0 = ground arith in rw z (omega (arith, pow-suc 2 n))
      | inr e ↦ let z : x % 2 ≡ 1 = ground arith in rw z (omega (arith, pow-suc 2 n))
    ]

below_div : (r p : ℕ) → r < p → r / p ≡ 0
below_div r p h = div-eq_of_lt h

twice : (p q : ℕ) → p * q * 2 ≡ p * 2 * q
twice p q = grind arith

pub two_pow_add : (m n : ℕ) → 2 ^ (m + n) ≡ 2 ^ m * 2 ^ n
two_pow_add zero n =
    let k : 0 + n ≡ n = omega arith in ap (λ k. 2 ^ k) k ∙ rw (pow-zero 2) (omega arith)
two_pow_add (suc m) n =
    let k : suc m + n ≡ suc (m + n) = omega arith in
    ap (λ k. 2 ^ k) k
    ∙ pow-suc 2 (m + n)
    ∙ ap (λ p. p * 2) (two_pow_add m n)
    ∙ twice (2 ^ m) (2 ^ n)
    ∙ ap (λ p. p * 2 ^ n) (sym (pow-suc 2 m))

regroup : (a p q r s : ℕ) → a * (p * q) + (r * q + s) ≡ (a * p + r) * q + s
regroup a p q r s = grind arith

rev_split : (m n x : ℕ) → rev (m + n) x ≡ rev m x * 2 ^ n + rev n (x / 2 ^ m)
unfolding rev
rev_split zero n x =
    let k : 0 + n ≡ n = omega arith in
    let whole : x / 2 ^ 0 ≡ x = rw (pow-zero 2) (omega arith) in
    ap (λ k. rev k x) k ∙ rw whole (omega arith)
rev_split (suc m) n x =
    let k : suc m + n ≡ suc (m + n) = omega arith in
    let half : x / 2 / 2 ^ m ≡ x / 2 ^ suc m =
      div-div-eq-div-mul x 2 (2 ^ m) ∙ ap (λ d. x / d) (omega (arith, pow-suc 2 m)) in
    ap (λ k. rev k x) k
    ∙ rw (rev_split m n (x / 2), half, two_pow_add m n)
        (regroup (x % 2) (2 ^ m) (2 ^ n) (rev m (x / 2)) (rev n (x / 2 ^ suc m)))

-- What lies above the low bits does not matter.
doubled : (a p : ℕ) → a * (p * 2) ≡ a * p * 2
doubled a p = grind arith

rev_low : (n a r : ℕ) → rev n (a * 2 ^ n + r) ≡ rev n r
unfolding rev
rev_low zero a r = refl
rev_low (suc n) a r =
    let e : a * 2 ^ suc n ≡ a * 2 ^ n * 2 = ap (◌*◌ a) (pow-suc 2 n) ∙ doubled a (2 ^ n) in
    let low : (a * 2 ^ suc n + r) % 2 ≡ r % 2 = rw e (omega arith) in
    let high : (a * 2 ^ suc n + r) / 2 ≡ a * 2 ^ n + r / 2 = rw e (omega arith) in
    rw (low, high, rev_low n a (r / 2)) refl

rev_one : (x : ℕ) → x < 2 → rev 1 x ≡ x
unfolding rev
rev_one x h = let p = pow-zero 2 in let e : x % 2 ≡ x = omega arith in rw (e, p) (omega arith)

-- Reversing the low bits twice gives the number back.
pub rev-rev : (n x : ℕ) → x < 2 ^ n → rev n (rev n x) ≡ x
unfolding rev
rev-rev zero x h = let p = pow-zero 2 in omega arith
rev-rev (suc n) x h =
    let y : ℕ = x % 2 * 2 ^ n + rev n (x / 2) in
    let one : suc n ≡ n + 1 = omega arith in
    let top : y / 2 ^ n ≡ x % 2 =
      mul-add-div_right (two_pow_pos n) (x % 2) (rev n (x / 2))
      ∙ ap (λ d. x % 2 + d) (below_div (rev n (x / 2)) (2 ^ n) (rev-lt n (x / 2)))
      ∙ omega arith in
    let half = rev-rev n (x / 2) (omega (arith, pow-suc 2 n)) in
    ap (λ k. rev k y) one
    ∙ rev_split n 1 y
    ∙ rw (top, rev_low n (x % 2) (rev n (x / 2)), half, rev_one (x % 2) (omega arith)) (omega arith)

carry : (r b p s : ℕ) → (r * 2 + b) * p + s ≡ r * (p * 2) + (b * p + s)
carry r b p s = grind arith

reverse_byte_loop-rev : (k r b : ℕ) → reverse_byte_loop k r b ≡ r * 2 ^ k + rev k b
unfolding reverse_byte_loop rev
reverse_byte_loop-rev zero r b = rw (pow-zero 2) (omega arith)
reverse_byte_loop-rev (suc k) r b =
    reverse_byte_loop-rev k (r * 2 + b % 2) (b / 2)
    ∙ carry r (b % 2) (2 ^ k) (rev k (b / 2))
    ∙ ap (λ p. r * p + (b % 2 * 2 ^ k + rev k (b / 2))) (sym (pow-suc 2 k))

reverse_byte-rev : (w : ℕ) → reverse_byte (w % 256) ≡ rev 8 w
unfolding reverse_byte
reverse_byte-rev w =
    let parts : w / 256 * 2 ^ 8 + w % 256 ≡ w = omega arith in
    reverse_byte_loop-rev 8 0 (w % 256)
    ∙ (let z : 0 * 2 ^ 8 + rev 8 (w % 256) ≡ rev 8 (w % 256) = omega arith in z)
    ∙ sym (rev_low 8 (w / 256) (w % 256))
    ∙ ap (rev 8) parts

-- One byte, and the rest
byte_step :
    (n v p : ℕ) → rev (8 + n) (v / p) ≡ reverse_byte (v / p % 256) * 2 ^ n + rev n (v / (p * 256))
byte_step n v p =
    rev_split 8 n (v / p) ∙ rw (reverse_byte-rev (v / p), div-div-eq-div-mul v p 256) refl

all_bytes :
    (v : ℕ)
    → reverse_byte (v % 256) * 2 ^ 56
        + reverse_byte (v / 2 ^ 8 % 256) * 2 ^ 48
        + reverse_byte (v / 2 ^ 16 % 256) * 2 ^ 40
        + reverse_byte (v / 2 ^ 24 % 256) * 2 ^ 32
        + reverse_byte (v / 2 ^ 32 % 256) * 2 ^ 24
        + reverse_byte (v / 2 ^ 40 % 256) * 2 ^ 16
        + reverse_byte (v / 2 ^ 48 % 256) * 2 ^ 8
        + reverse_byte (v / 2 ^ 56 % 256)
      ≡ rev 64 v
all_bytes v =
    let one : v / 1 ≡ v = omega arith in
    let first : rev 64 v ≡ reverse_byte (v % 256) * 2 ^ 56 + rev 56 (v / 2 ^ 8) =
      rev_split 8 56 v ∙ rw (reverse_byte-rev v) refl in
    let b1 = byte_step 48 v (2 ^ 8) in
    let b2 = byte_step 40 v (2 ^ 16) in
    let b3 = byte_step 32 v (2 ^ 24) in
    let b4 = byte_step 24 v (2 ^ 32) in
    let b5 = byte_step 16 v (2 ^ 40) in
    let b6 = byte_step 8 v (2 ^ 48) in let b7 = sym (reverse_byte-rev (v / 2 ^ 56)) in omega arith

rev_none : (n : ℕ) → rev n 0 ≡ 0
unfolding rev
rev_none zero = refl
rev_none (suc n) = rw (rev_none n) (omega arith)

le_mul : (p q : ℕ) → 0 < q → p ≤ p * q
le_mul p zero h = absurd (omega arith)
le_mul p (suc q) h = let e : p * suc q ≡ p + p * q = grind arith in omega arith

pub pow-le_two : (n : ℕ) → n ≤ 64 → 2 ^ n ≤ 2 ^ 64
pow-le_two n l =
    let whole : n + (64 - n) ≡ 64 = omega arith in
    let power : 2 ^ n * 2 ^ (64 - n) ≡ 2 ^ 64 =
      sym (two_pow_add n (64 - n)) ∙ ap (λ k. 2 ^ k) whole in
    let h = le_mul (2 ^ n) (2 ^ (64 - n)) (two_pow_pos (64 - n)) in omega arith

pub reverse_bits_lem : (x n : ℕ) → x < 2 ^ n → n ≤ 64 → reverse_bits x n ≡ ok (rev n x)
unfolding reverse_bits reverse64
reverse_bits_lem x n h l =
    let whole : n + (64 - n) ≡ 64 = omega arith in
    let grows : 2 ^ n ≤ 2 ^ 64 = pow-le_two n l in
    let small : ltb x (2 ^ 64) ≡ true = ground arith in
    let fits : ltb x (2 ^ n) ≡ true = ground arith in
    let width : leb n 64 ≡ true = ground arith in
    let shifted : rev 64 x / 2 ^ (64 - n) ≡ rev n x =
      ap (λ r. r / 2 ^ (64 - n))
        (ap (λ k. rev k x) (sym whole)
          ∙ rev_split n (64 - n) x
          ∙ rw (below_div x (2 ^ n) h, rev_none (64 - n)) refl)
      ∙ mul-add-div_right (two_pow_pos (64 - n)) (rev n x) 0
      ∙ rw (below_div 0 (2 ^ (64 - n)) (two_pow_pos (64 - n))) (omega arith) in
    rw (fits, width, small, all_bytes x, shifted) refl

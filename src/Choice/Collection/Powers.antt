-- ===== src/Choice/Collection/Powers.antt =====
-- Geometric sums, and the logarithms that invert them.
use hypothesis.Common.{
  ℕ, zero, suc, ◌+◌, ◌-◌, ◌*◌, ◌/◌, ◌^◌, ◌≤◌, ◌<◌, ◌≡◌, refl, ap, sym, subst, ◌∙◌, true, false,
  Option, some, arith, leb, dec_lt, Option-cases, inl, inr,
}
use hypothesis.Common.Result.{ok}
use hypothesis.Choice.Collection.{size_to_index, integer_log, index_to_size}
use native.Mathlib.Nat.{
  mul-le-mul_right, mul-suc, pow-zero, add-mul, mul-add-div_right, div-eq_of_lt, div-lt_self,
  pow-suc, one-le-pow, pow-le-pow_right, div-lt_iff_lt-mul,
}

-- How many sequences are shorter than `n`.
unfoldable pub shorter : ℕ → ℕ → ℕ
shorter a zero = 0
shorter a (suc n) = shorter a n + a ^ n

-- (q * d + r) / d = q for a remainder r.
pub div_unique : (q d r : ℕ) → r < d → (q * d + r) / d ≡ q
div_unique q d r h = mul-add-div_right (omega arith) q r ∙ omega (arith, div-eq_of_lt h)

pub pow-pos : (a n : ℕ) → 0 < a → 0 < a ^ n
pow-pos a n h = one-le-pow n a h

pow_one_lem : (a : ℕ) → a ^ 1 ≡ a
pow_one_lem a = pow-suc a 0 ∙ ap (λ t. t * a) (pow-zero a) ∙ omega arith

pub shorter-closed : (b n : ℕ) → shorter (suc (suc b)) n * suc b + 1 ≡ suc (suc b) ^ n
unfolding shorter
shorter-closed b zero = omega (arith, pow-zero (suc (suc b)))
shorter-closed b (suc n) =
    let p : ℕ = suc (suc b) ^ n in
    let g : ℕ = shorter (suc (suc b)) n in
    let e : (g + p) * suc b ≡ g * suc b + p * suc b = add-mul g p (suc b) in
    let k : p * suc (suc b) ≡ p * suc b + p = mul-suc p (suc b) in
    omega (arith, e, k, pow-suc (suc (suc b)) n, shorter-closed b n)

one_pow : (n : ℕ) → 1 ^ n ≡ 1
one_pow zero = pow-zero 1
one_pow (suc n) = omega (arith, pow-suc 1 n, one_pow n)

shorter_one : (n : ℕ) → shorter 1 n ≡ n
unfolding shorter
shorter_one zero = refl
shorter_one (suc n) = omega (arith, one_pow n, shorter_one n)

pub size_to_index_lem : (a n : ℕ) → 0 < a → size_to_index n a ≡ ok (shorter a n)
unfolding size_to_index
size_to_index_lem zero n h = absurd (omega arith)
size_to_index_lem (suc zero) n h = ap ok (sym (shorter_one n))
size_to_index_lem (suc (suc b)) n h =
    let e : suc (suc b) ^ n - 1 ≡ shorter (suc (suc b)) n * suc b + 0 =
      omega (arith, shorter-closed b n) in
    ap ok (ap (λ t. t / suc b) e ∙ div_unique (shorter (suc (suc b)) n) (suc b) 0 (omega arith))

div_above : (total a m : ℕ) → 1 < a → a ^ suc m ≤ total → a ^ m ≤ total / a
div_above total a m l h = elim (dec_lt (total / a) (a ^ m)) [
  | yes c ↦ absurd (
      omega
        (arith, (div-lt_iff_lt-mul {k = a} {x = total} {y = a ^ m} (omega arith)).0 c, pow-suc a m))
  | no c ↦ omega arith
]

pub integer_log_lem :
    (fuel total a n : ℕ)
    → 1 < a
    → total ≤ fuel
    → a ^ n ≤ total
    → total < a ^ n * a
    → integer_log fuel total a ≡ n
unfolding integer_log
integer_log_lem zero total a n l f h k = absurd (omega (arith, pow-pos a n))
integer_log_lem (suc fuel) total a zero l f h k =
    let small : leb a total ≡ false = ground (arith, pow-zero a) in rw small
integer_log_lem (suc fuel) total a (suc m) l f h k =
    let p : a ≤ a ^ suc m = omega (
      arith,
      pow-le-pow_right {n = a} (omega arith) {i = 1} {j = suc m} (omega arith),
      pow_one_lem a,
    ) in
    let large : leb a total ≡ true = ground arith in
    let q : total / a < total = div-lt_self (omega (arith, p)) l in
    rw
      (
        large,
        integer_log_lem fuel (total / a) a m l (omega arith) (div_above total a m l h)
            ((div-lt_iff_lt-mul (omega arith)).1 (rw (sym (pow-suc a m)) k)),
      )
      (omega arith)

-- `log` gives the whole part of the logarithm of this number, where it answers.
abbrev pub Exact : (ℕ → ℕ → Option ℕ) → ℕ → ℕ → Type 0
Exact log a total = (n : ℕ) → log total a ≡ some n → (a ^ n ≤ total) × (total < a ^ suc n)

pow_lt-reflect : (a m n : ℕ) → 0 < a → a ^ m < a ^ n → m < n
pow_lt-reflect a m n h k = elim (dec_lt m n) [
  | yes l ↦ l
  | no l ↦ absurd (omega (arith, pow-le-pow_right {n = a} h {i = n} {j = m} (omega arith)))
]

total_bounds :
    (b n r : ℕ)
    → r < suc (suc b) ^ n
    → (suc (suc b) ^ n ≤ (shorter (suc (suc b)) n + r) * suc b + 1)
      × ((shorter (suc (suc b)) n + r) * suc b + 1 < suc (suc b) ^ suc n)
total_bounds b n r k =
    let p : ℕ = suc (suc b) ^ n in
    let g : ℕ = shorter (suc (suc b)) n in
    let e : (g + r) * suc b ≡ g * suc b + r * suc b = add-mul g r (suc b) in
    let u : p * suc (suc b) ≡ p * suc b + p = mul-suc p (suc b) in
    let w : suc r * suc b ≤ p * suc b = mul-le-mul_right (suc b) k in
    (
      omega (arith, e, shorter-closed b n),
      omega (arith, e, u, w, add-mul r 1 (suc b), shorter-closed b n, pow-suc (suc (suc b)) n),
    )

-- The size of the sequence at the position `r` among those of the size `n`.
pub index_to_size_lem :
    (log : ℕ → ℕ → Option ℕ) (a n r : ℕ)
    → 0 < a
    → r < a ^ n
    → Exact log a ((shorter a n + r) * (a - 1) + 1)
    → index_to_size log (shorter a n + r) a ≡ n
unfolding index_to_size
index_to_size_lem log zero n r h k e = absurd (omega arith)
index_to_size_lem log (suc zero) n r h k e = omega (arith, shorter_one n, one_pow n)
index_to_size_lem log (suc (suc b)) n r h k e =
    let a : ℕ = suc (suc b) in
    let (low, high) = total_bounds b n r k in
    elim (Option-cases (log ((shorter a n + r) * suc b + 1) a)) [
      | inl none_there ↦
          rw (none_there, index_to_size)
            (integer_log_lem ((shorter a n + r) * suc b + 1) ((shorter a n + r) * suc b + 1) a n
              (omega arith) (omega arith) low (omega (arith, high, pow-suc a n)))
      | inr (m, there) ↦
          let one_less : a - 1 ≡ suc b = omega arith in
          let (low', high') =
            subst (λ t. Exact log a ((shorter a n + r) * t + 1)) one_less e m there in
          rw (there, index_to_size)
            (omega (
              arith,
              pow_lt-reflect a n (suc m) h (omega arith),
              pow_lt-reflect a m (suc n) h (omega arith),
            ))
    ]

pub shorter_mono : (a m n : ℕ) → m ≤ n → shorter a m ≤ shorter a n
unfolding shorter
shorter_mono a m zero h = let e : m ≡ 0 = omega arith in rw e (omega arith)
shorter_mono a m (suc n) h = elim (dec_lt m (suc n)) [
  | yes l ↦ omega (arith, shorter_mono a m n (omega arith))
  | no l ↦ let e : m ≡ suc n = omega arith in rw e (omega arith)
]

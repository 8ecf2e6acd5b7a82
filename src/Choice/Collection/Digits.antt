-- ===== src/Choice/Collection/Digits.antt =====
-- The loops of `collection_index` and `collection_value`: they weigh the digits of a number, and find
-- them again.
use hypothesis.Common.{
  ℕ, suc, ◌+◌, ◌*◌, ◌/◌, ◌^◌, ◌≤◌, ◌<◌, ◌≡◌, refl, ap, sym, ◌∙◌, false, List, [], ◌∷◌, ◌++◌, arith,
  length, length-append, dec_lt,
}
use hypothesis.Common.Int.{ℤ, pos, ◌+ℤ◌, ◌-ℤ◌, ◌*ℤ◌, eq_ℤ}
use hypothesis.Choice.Collection.{index_loop, value_loop, floor_div, reverse}
use hypothesis.Choice.Collection.Powers.{div_unique}
use native.Mathlib.Nat.{pow-zero, pow-suc, add-mul, mul-le-mul_right, mul_comm, zero-div}

times_pos : (q p : ℕ) → pos q *ℤ pos p ≡ pos (q * p)
unfolding ◌*ℤ◌
times_pos q p = ground (arith)

pub sub_pos : (m r : ℕ) → pos (m + r) -ℤ pos m ≡ pos r
unfolding ◌-ℤ◌
sub_pos m r = ground arith

regroup_power : (e a p : ℕ) → e * a * p ≡ e * (p * a)
regroup_power e a p = grind arith

add_pos : (k m : ℕ) → pos k +ℤ pos m ≡ pos (k + m)
unfolding ◌+ℤ◌
add_pos k m = ground arith

module _ {ℓ} {A : Type ℓ} (to_order : A → ℕ) (a : ℕ) where
  -- The number of which the elements are the digits, the most significant first.
  unfoldable pub number : List A → ℕ
  number [] = 0
  number (x ∷ xs) = to_order x * a ^ length xs + number xs

  abbrev pub AreDigits : List A → Type 0
  AreDigits [] = Unit
  AreDigits (x ∷ xs) = (to_order x < a) × AreDigits xs

  -- The order of every element can be read.
  abbrev pub AreRead : (ℤ → A) → List A → Type ℓ
  AreRead from_order [] = Unit
  AreRead from_order (x ∷ xs) = (from_order (pos (to_order x)) ≡ x) × AreRead from_order xs

  weigh : ℕ → List A → ℕ
  weigh e [] = 0
  weigh e (x ∷ xs) = e * to_order x + weigh (e * a) xs

  index_loop-weigh :
      (e : ℕ) (xs : List A) (k : ℕ) → index_loop to_order a e xs (pos k) ≡ pos (k + weigh e xs)
  unfolding index_loop weigh
  index_loop-weigh e [] k = ap pos (omega arith)
  index_loop-weigh e (x ∷ xs) k =
      rw (add_pos k (e * to_order x))
        (index_loop-weigh (e * a) xs (k + e * to_order x) ∙ ap pos (omega arith))

  weigh-append :
      (e : ℕ) (xs : List A) (x : A)
      → weigh e (xs ++ x ∷ []) ≡ weigh e xs + e * a ^ length xs * to_order x
  unfolding weigh
  weigh-append e [] x =
      let h : e * a ^ 0 ≡ e = ap (◌*◌ e) (pow-zero a) ∙ omega arith in
      omega (arith, ap (λ (t : ℕ). t * to_order x) h)
  weigh-append e (y ∷ xs) x =
      let h : e * a * a ^ length xs ≡ e * a ^ suc (length xs) =
        regroup_power e a (a ^ length xs) ∙ ap (◌*◌ e) (sym (pow-suc a (length xs))) in
      omega (arith, weigh-append (e * a) xs x, ap (λ (t : ℕ). t * to_order x) h)

  length-reverse : (xs : List A) → length (reverse xs) ≡ length xs
  unfolding reverse
  length-reverse [] = refl
  length-reverse (x ∷ xs) = omega (arith, length-append (reverse xs) (x ∷ []), length-reverse xs)

  weigh-reverse : (xs : List A) → weigh 1 (reverse xs) ≡ number xs
  unfolding weigh reverse number
  weigh-reverse [] = refl
  weigh-reverse (x ∷ xs) =
      let h : 1 * a ^ length (reverse xs) ≡ a ^ length xs =
        omega (arith, ap (λ t. a ^ t) (length-reverse xs)) in
      weigh-append 1 (reverse xs) x
      ∙ omega (
        arith,
        weigh-reverse xs,
        ap (λ (t : ℕ). t * to_order x) h,
        mul_comm (a ^ length xs) (to_order x),
      )

  pub index_loop-number :
      (xs : List A) (k : ℕ) → index_loop to_order a 1 (reverse xs) (pos k) ≡ pos (k + number xs)
  index_loop-number xs k =
      index_loop-weigh 1 (reverse xs) k ∙ ap (λ t. pos (k + t)) (weigh-reverse xs)

  pub number-lt : (xs : List A) → AreDigits xs → number xs < a ^ length xs
  unfolding number
  number-lt [] d = omega (arith, pow-zero a)
  number-lt (x ∷ xs) d =
      let p : ℕ = a ^ length xs in
      let w : suc (to_order x) * p ≤ a * p = mul-le-mul_right p d.0 in
      omega
        (arith, w, add-mul (to_order x) 1 p, mul_comm a p, number-lt xs d.1, pow-suc a (length xs))

  module _ (from_order : ℤ → A) where
    value_loop-step :
        (i q r : ℕ)
        → r < a ^ i
        → value_loop from_order a (suc i) (pos (q * a ^ i + r))
          ≡ from_order (pos q) ∷ value_loop from_order a i (pos r)
    unfolding value_loop floor_div
    value_loop-step i q r h = elim (dec_lt 0 (q * a ^ i + r)) [
      | yes l ↦
          let n : eq_ℤ (pos (q * a ^ i + r)) (pos 0) ≡ false = ground arith in
          rw (n, div_unique q (a ^ i) r h, times_pos q (a ^ i), sub_pos (q * a ^ i) r)
      | no l ↦
          let e : q * a ^ i + r ≡ 0 = omega arith in
          let n : q ≡ 0 =
            sym (div_unique q (a ^ i) r h) ∙ ap (λ t. t / a ^ i) e ∙ zero-div (a ^ i) in
          let z : r ≡ 0 = omega arith in rw (e, n, z)
    ]

    -- The loop of `collection_value` finds the digits of a number.
    pub value_loop-number :
        (xs : List A)
        → AreRead from_order xs
        → AreDigits xs
        → value_loop from_order a (length xs) (pos (number xs)) ≡ xs
    unfolding value_loop number
    value_loop-number [] i d = refl
    value_loop-number (x ∷ xs) i d =
        value_loop-step (length xs) (to_order x) (number xs) (number-lt xs d.1)
        ∙ rw (i.0, value_loop-number xs i.1 d.1)

-- ===== src/Floats/Mantissa.antt =====
-- `update_mantissa` is its own inverse.
use hypothesis.Common.{
  ℕ, zero, suc, ◌+◌, ◌-◌, ◌*◌, ◌/◌, ◌^◌, ◌≤◌, ◌<◌, ◌≡◌, refl, sym, ap, ◌∙◌, arith, leb, inl, inr,
  Bool-cases, if◌then◌else◌,
}
use Prim.Native.Nat.{◌%◌}
use native.Mathlib.Nat.{
  mul-add-mod_self_right, mod-lt, mod-eq_of_lt, mul-le-mul_right, div-lt_iff_lt-mul, div-add-mod',
}
use hypothesis.Common.Int.{ℤ, pos, negsuc}
use hypothesis.Common.Result.{ok}
use hypothesis.Floats.{update_mantissa}
use hypothesis.Floats.Bits.{rev, rev-lt, rev-rev, two_pow_pos, two_pow_add, reverse_bits_lem}

-- What `update_mantissa` gives
unfoldable pub updated : ℤ → ℕ → ℕ
updated (negsuc n) m = rev 52 m
updated (pos zero) m = rev 52 m
updated (pos (suc u)) m =
    if leb (suc u) 51 then m - m % 2 ^ (52 - suc u) + rev (52 - suc u) (m % 2 ^ (52 - suc u)) else m

pub update_mantissa_lem : (u : ℤ) (m : ℕ) → m < 2 ^ 52 → update_mantissa u m ≡ ok (updated u m)
unfolding update_mantissa updated
update_mantissa_lem (negsuc n) m h = reverse_bits_lem m 52 h (omega arith)
update_mantissa_lem (pos zero) m h = reverse_bits_lem m 52 h (omega arith)
update_mantissa_lem (pos (suc u)) m h = elim (Bool-cases (leb (suc u) 51)) [
  | inl e ↦
      let b : ℕ = 52 - suc u in
      rw (e, reverse_bits_lem (m % 2 ^ b) b (mod-lt m (two_pow_pos b)) (omega arith)) refl
  | inr e ↦ rw e refl
]

remainder : (p q r : ℕ) → r < p → (q * p + r) % p ≡ r
remainder p q r h = mul-add-mod_self_right q p r ∙ mod-eq_of_lt h

still_below : (p q r s : ℕ) → r < p → q < s → q * p + r < s * p
still_below p q r s h k =
    let l : suc q * p ≤ s * p = mul-le-mul_right p k in
    let e : suc q * p ≡ q * p + p = grind arith in omega arith

-- With the low `b` bits reversed
abbrev flipped : ℕ → ℕ → ℕ
flipped b m = m - m % 2 ^ b + rev b (m % 2 ^ b)

module _ (b m : ℕ) where
  high : m - m % 2 ^ b ≡ m / 2 ^ b * 2 ^ b
  high = let e = div-add-mod' m (2 ^ b) in omega arith

  flipped_parts : flipped b m ≡ m / 2 ^ b * 2 ^ b + rev b (m % 2 ^ b)
  flipped_parts = ap (λ t. t + rev b (m % 2 ^ b)) high

  flipped-lt : (u : ℕ) → b + u ≡ 52 → m < 2 ^ 52 → flipped b m < 2 ^ 52
  flipped-lt u whole h =
      let power : 2 ^ u * 2 ^ b ≡ 2 ^ 52 =
        (let k : u + b ≡ 52 = omega arith in sym (two_pow_add u b) ∙ ap (λ k. 2 ^ k) k) in
      let q : m / 2 ^ b < 2 ^ u = (div-lt_iff_lt-mul (two_pow_pos b)).1 (omega arith) in
      let l =
        still_below (2 ^ b) (m / 2 ^ b) (rev b (m % 2 ^ b)) (2 ^ u) (rev-lt b (m % 2 ^ b)) q in
      let f = flipped_parts in omega arith

  flipped-flipped : flipped b (flipped b m) ≡ m
  flipped-flipped =
      let low : flipped b m % 2 ^ b ≡ rev b (m % 2 ^ b) =
        ap (λ t. t % 2 ^ b) flipped_parts
        ∙ remainder (2 ^ b) (m / 2 ^ b) (rev b (m % 2 ^ b)) (rev-lt b (m % 2 ^ b)) in
      let back = rev-rev b (m % 2 ^ b) (mod-lt m (two_pow_pos b)) in
      let h = high in let e = div-add-mod' m (2 ^ b) in rw (low, back) (omega arith)

pub updated-lt : (u : ℤ) (m : ℕ) → m < 2 ^ 52 → updated u m < 2 ^ 52
unfolding updated
updated-lt (negsuc n) m h = rev-lt 52 m
updated-lt (pos zero) m h = rev-lt 52 m
updated-lt (pos (suc u)) m h = elim (Bool-cases (leb (suc u) 51)) [
  | inl e ↦ rw e (flipped-lt (52 - suc u) m (suc u) (ground arith) h)
  | inr e ↦ rw e h
]

pub updated-updated : (u : ℤ) (m : ℕ) → m < 2 ^ 52 → updated u (updated u m) ≡ m
unfolding updated
updated-updated (negsuc n) m h = rev-rev 52 m h
updated-updated (pos zero) m h = rev-rev 52 m h
updated-updated (pos (suc u)) m h = elim (Bool-cases (leb (suc u) 51)) [
  | inl e ↦ rw e (flipped-flipped (52 - suc u) m)
  | inr e ↦ rw e refl
]

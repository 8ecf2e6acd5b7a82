-- ===== src/Choice/Integer/RoundTrip.antt =====
-- Integers and their indices correspond.
use hypothesis.Common.{
  ℕ, ◌+◌, ◌-◌, ◌*◌, ◌≤◌, ◌<◌, ◌≡◌, ◌⊎◌, ◌↔◌, refl, ◌∙◌, Bool, true, false, Option, none, some,
  arith, ltb, leb, dec_lt, tests, le→leb, lt→leb_false, Bool-cases, if◌then◌else◌, inl, inr,
}
use hypothesis.Common.Int.{
  ℤ, pos, negsuc, pos_part, neg_part, ◌+ℤ◌, ◌-ℤ◌, ◌≤ℤ◌, ltb_ℤ, leb_ℤ, abs, int_laws, eq_of_parts,
  +ℤ_parts, -ℤ_parts,
}
use hypothesis.Common.Result.{ok}
use hypothesis.Choice.Zigzag.{zigzag_index, zigzag_value-index, zigzag_index_le, zigzag_index_gt}
use hypothesis.Choice.Integer.{
  IntegerConstraints, raise_to, lower_to, index_from_below, index_from_above, integer_index,
  integer_to_index, value_from_below, value_from_above, integer_value, integer_from_index, is_below,
  is_above, integer_permitted,
}

pub abs_parts : (a : ℤ) → abs a ≡ pos_part a + neg_part a
abs_parts (pos n) = omega arith
abs_parts (negsuc n) = omega arith

-- one of the parts is zero
pub parts_cases : (a : ℤ) → (pos_part a ≡ 0) ⊎ (neg_part a ≡ 0)
parts_cases (pos n) = inr refl
parts_cases (negsuc n) = inl refl

pub ruleset distances = (tests, abs_parts, -ℤ_parts)

pub diff_pos :
    (v lo : ℤ) → lo ≤ℤ v → v -ℤ lo ≡ pos (pos_part v + neg_part lo - (pos_part lo + neg_part v))
unfolding ◌-ℤ◌
diff_pos v lo k = ground arith

add_back :
    (v lo : ℤ) → lo ≤ℤ v → pos (pos_part v + neg_part lo - (pos_part lo + neg_part v)) +ℤ lo ≡ v
add_back v lo k = rw (← diff_pos v lo k) (omega int_laws)

sub_back :
    (v hi : ℤ) → v ≤ℤ hi → hi -ℤ pos (pos_part hi + neg_part v - (pos_part v + neg_part hi)) ≡ v
sub_back v hi k = rw (← diff_pos hi v k) (omega int_laws)

module _ (v s lo : ℤ) (h : lo ≤ℤ s) (k : lo ≤ℤ v) where
  -- As near to `s` as `lo` is, or nearer.
  near_le_below : leb_ℤ (pos (abs (v -ℤ s))) (s -ℤ lo) ≡ true → zigzag_index v s ≤ zigzag_index lo s
  near_le_below a = elim (dec_lt (pos_part s + neg_part v) (pos_part v + neg_part s)) [
    | yes b ↦
        omega (
          distances,
          parts_cases (v -ℤ s),
          zigzag_index_le lo s h,
          zigzag_index_gt v s (omega arith),
        )
    | no b ↦
        omega (
          distances,
          parts_cases (v -ℤ s),
          zigzag_index_le lo s h,
          zigzag_index_le v s (omega arith),
        )
  ]

  far_lt_below :
      leb_ℤ (pos (abs (v -ℤ s))) (s -ℤ lo) ≡ false
      → zigzag_index lo s + (pos_part lo + neg_part v) < pos_part v + neg_part lo
  far_lt_below a = omega (distances, parts_cases (v -ℤ s), zigzag_index_le lo s h)

  -- A value from `lo` on has an index, and is the value with that index.
  below_roundtrip : (n : ℕ) × (index_from_below v s lo ≡ pos n) × (value_from_below n s lo ≡ v)
  unfolding index_from_below value_from_below
  below_roundtrip = elim (Bool-cases (leb_ℤ (pos (abs (v -ℤ s))) (s -ℤ lo))) [
    | inl a ↦ (zigzag_index v s, rw a, rw (le→leb _ _ (near_le_below a)) (zigzag_value-index v s))
    | inr a ↦
        let n : ℕ = pos_part v + neg_part lo - (pos_part lo + neg_part v) in
        let e : v -ℤ lo ≡ pos n = diff_pos v lo k in
        let f : zigzag_index lo s < n = omega (arith, far_lt_below a) in
        (n, rw (a, e), rw (lt→leb_false _ _ f) (add_back v lo k))
  ]

module _ (v s hi : ℤ) (h : s ≤ℤ hi) (k : v ≤ℤ hi) where
  far_lt_above :
      leb_ℤ (pos (abs (v -ℤ s))) (hi -ℤ s) ≡ false
      → zigzag_index hi s + (pos_part v + neg_part hi) < pos_part hi + neg_part v
  far_lt_above a = elim (dec_lt (pos_part s + neg_part hi) (pos_part hi + neg_part s)) [
    | yes b ↦ omega (distances, parts_cases (v -ℤ s), zigzag_index_gt hi s (omega arith))
    | no b ↦ omega (distances, parts_cases (v -ℤ s), zigzag_index_le hi s (omega arith))
  ]

  -- `hi` has the index before that of its mirror image, which is the last of the zigzag.
  mirrored :
      leb_ℤ (pos (abs (v -ℤ s))) (hi -ℤ s) ≡ true
      → leb (zigzag_index v s) (zigzag_index hi s) ≡ false
      → hi -ℤ pos (zigzag_index v s) ≡ v
  mirrored a b = elim (dec_lt (pos_part s + neg_part v) (pos_part v + neg_part s)) [
    | yes c ↦ absurd (
        omega (
          distances,
          parts_cases (v -ℤ s),
          zigzag_index_gt v s (omega arith),
          zigzag_index_gt hi s (omega arith),
        ))
    | no c ↦ elim (dec_lt (pos_part s + neg_part hi) (pos_part hi + neg_part s)) [
      | yes d ↦ omega (
        distances,
        int_laws,
        parts_cases (v -ℤ s),
        zigzag_index_le v s (omega arith),
        zigzag_index_gt hi s (omega arith),
      )
      | no d ↦ omega (
        distances,
        int_laws,
        parts_cases (v -ℤ s),
        zigzag_index_le v s (omega arith),
        zigzag_index_le hi s (omega arith),
      )
    ]
  ]

  above_roundtrip : (n : ℕ) × (index_from_above v s hi ≡ pos n) × (value_from_above n s hi ≡ v)
  unfolding index_from_above value_from_above
  above_roundtrip = elim (Bool-cases (leb_ℤ (pos (abs (v -ℤ s))) (hi -ℤ s))) [
    | inl a ↦ elim (Bool-cases (leb (zigzag_index v s) (zigzag_index hi s))) [
      | inl b ↦ (zigzag_index v s, rw a, rw b (zigzag_value-index v s))
      | inr b ↦ (zigzag_index v s, rw a, rw b (mirrored a b))
    ]
    | inr a ↦
        let n : ℕ = pos_part hi + neg_part v - (pos_part v + neg_part hi) in
        let e : hi -ℤ v ≡ pos n = diff_pos hi v k in
        let f : zigzag_index hi s < n = omega (arith, far_lt_above a) in
        (n, rw (a, e), rw (lt→leb_false _ _ f) (sub_back v hi k))
  ]

-- `shrink_towards` as it is moved into the range.
abbrev pub centre : IntegerConstraints → ℤ
centre c = lower_to c.max_value (raise_to c.min_value c.shrink_towards)

-- The bounds, where there are some.
abbrev pub AtLeast : ℤ → Option ℤ → Type 0
AtLeast v none = Unit
AtLeast v (some lo) = lo ≤ℤ v

abbrev pub AtMost : ℤ → Option ℤ → Type 0
AtMost v none = Unit
AtMost v (some hi) = v ≤ℤ hi

pub centre_bounds :
    (lo hi : Option ℤ) (s v : ℤ)
    → AtLeast v lo
    → AtMost v hi
    → AtLeast (lower_to hi (raise_to lo s)) lo × AtMost (lower_to hi (raise_to lo s)) hi
unfolding lower_to raise_to
centre_bounds none none s v a b = (tt, tt)
centre_bounds (some lo) none s v a b = (ground arith, tt)
centre_bounds none (some hi) s v a b = (tt, ground arith)
centre_bounds (some lo) (some hi) s v a b = (ground arith, ground arith)

pub AtLeast-is_below : (v : ℤ) (m : Option ℤ) → (is_below v m ≡ false) ↔ AtLeast v m
unfolding is_below
AtLeast-is_below v none = (λ _. tt, λ _. refl)
AtLeast-is_below v (some lo) = (λ h. ground arith, λ h. ground arith)

pub AtMost-is_above : (v : ℤ) (m : Option ℤ) → (is_above v m ≡ false) ↔ AtMost v m
unfolding is_above
AtMost-is_above v none = (λ _. tt, λ _. refl)
AtMost-is_above v (some hi) = (λ h. ground arith, λ h. ground arith)

permitted_bounds :
    (v : ℤ) (c : IntegerConstraints)
    → integer_permitted v c ≡ true
    → AtLeast v c.min_value × AtMost v c.max_value
unfolding integer_permitted
permitted_bounds v c h = (
  (AtLeast-is_below v c.min_value).0 (ground arith),
  (AtMost-is_above v c.max_value).0 (ground arith),
)

value_roundtrip :
    (lo hi : Option ℤ) (s v : ℤ)
    → AtLeast v lo
    → AtMost v hi
    → AtLeast s lo
    → AtMost s hi
    → (n : ℕ) × (integer_index lo hi true s v ≡ ok (pos n)) × (integer_value lo hi true s n ≡ ok v)
unfolding integer_index integer_value
value_roundtrip none none s v a b p q = (zigzag_index v s, refl, rw (zigzag_value-index v s))
value_roundtrip (some lo) none s v a b p q =
    let (n, e, f) = below_roundtrip v s lo p a in (n, rw e, rw f)
value_roundtrip none (some hi) s v a b p q =
    let (n, e, f) = above_roundtrip v s hi q b in (n, rw e, rw f)
value_roundtrip (some lo) (some hi) s v a b p q = elim (Bool-cases (ltb_ℤ (s -ℤ lo) (hi -ℤ s))) [
  | inl t ↦ let (n, e, f) = below_roundtrip v s lo p a in (n, rw (t, e), rw (t, f))
  | inr t ↦ let (n, e, f) = above_roundtrip v s hi q b in (n, rw (t, e), rw (t, f))
]

-- A permitted integer has an index, and it is the integer that has this index. (Where both bounds are
-- given, the code asserts that no weight is zero.)
pub integer_roundtrip :
    (v : ℤ) (c : IntegerConstraints)
    → integer_permitted v c ≡ true
    → c.positive_weights ≡ true
    → (n : ℕ) × (integer_to_index v c ≡ ok (pos n)) × (integer_from_index n c ≡ ok v)
unfolding integer_to_index integer_from_index
integer_roundtrip v c h w =
    let (a, b) = permitted_bounds v c h in
    let (p, q) = centre_bounds c.min_value c.max_value c.shrink_towards v a b in
    rw w (value_roundtrip c.min_value c.max_value (centre c) v a b p q)

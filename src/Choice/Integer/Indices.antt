-- ===== src/Choice/Integer/Indices.antt =====
-- Every index in range is the index of a permitted integer.
use hypothesis.Common.{
  ℕ, ◌+◌, ◌*◌, ◌≤◌, ◌<◌, ◌≡◌, ◌⊎◌, refl, true, false, Option, none, some, arith, leb, dec_lt, tests,
  Bool-cases, inl, inr,
}
use hypothesis.Common.Int.{
  ℤ, pos, pos_part, neg_part, ◌+ℤ◌, ◌-ℤ◌, ◌≤ℤ◌, ltb_ℤ, leb_ℤ, abs, int_laws, +ℤ_parts, -ℤ_parts,
}
use hypothesis.Common.Result.{ok}
use hypothesis.Choice.Zigzag.{
  zigzag_index, zigzag_value, zigzag_index-value, zigzag_index_le, zigzag_index_gt,
}
use hypothesis.Choice.Integer.{
  IntegerConstraints, raise_to, lower_to, index_from_below, index_from_above, integer_index,
  integer_to_index, value_from_below, value_from_above, integer_value, integer_from_index,
  integer_permitted,
}
use hypothesis.Choice.Integer.RoundTrip.{
  distances, parts_cases, AtLeast, AtMost, centre, centre_bounds, AtLeast-is_below, AtMost-is_above,
}

-- What a value with the index `i` is to satisfy, as its distance to `s` shows it.
near_below :
    (v s lo : ℤ)
    → lo ≤ℤ s
    → zigzag_index v s ≤ zigzag_index lo s
    → (lo ≤ℤ v) × (leb_ℤ (pos (abs (v -ℤ s))) (s -ℤ lo) ≡ true)
near_below v s lo h k = elim (dec_lt (pos_part s + neg_part v) (pos_part v + neg_part s)) [
  | yes b ↦ (
    omega arith,
    omega (
      distances,
      parts_cases (v -ℤ s),
      zigzag_index_le lo s h,
      zigzag_index_gt v s (omega arith),
    ),
  )
  | no b ↦ (
    omega (zigzag_index_le lo s h, zigzag_index_le v s (omega arith), arith),
    omega (
      distances,
      parts_cases (v -ℤ s),
      zigzag_index_le lo s h,
      zigzag_index_le v s (omega arith),
    ),
  )
]

-- The upper bound has the last index of the zigzag on its side.
hi_index :
    (s hi : ℤ)
    → s ≤ℤ hi
    → (zigzag_index hi s + 1 + 2 * (pos_part s + neg_part hi) ≡ 2 * (pos_part hi + neg_part s))
      ⊎ ((zigzag_index hi s ≡ 0) × (pos_part s + neg_part hi ≡ pos_part hi + neg_part s))
hi_index s hi h = elim (dec_lt (pos_part s + neg_part hi) (pos_part hi + neg_part s)) [
  | yes d ↦ inl (zigzag_index_gt hi s (omega arith))
  | no d ↦ let e = zigzag_index_le hi s (omega arith) in inr (omega arith, omega arith)
]

near_above :
    (v s hi : ℤ)
    → s ≤ℤ hi
    → zigzag_index v s ≤ zigzag_index hi s
    → (v ≤ℤ hi) × (leb_ℤ (pos (abs (v -ℤ s))) (hi -ℤ s) ≡ true)
near_above v s hi h k =
    let e = hi_index s hi h in
    elim (dec_lt (pos_part s + neg_part v) (pos_part v + neg_part s)) [
      | yes b ↦
          let f = zigzag_index_gt v s (omega arith) in
          (omega arith, omega (distances, parts_cases (v -ℤ s)))
      | no b ↦
          let f = zigzag_index_le v s (omega arith) in
          (omega arith, omega (distances, parts_cases (v -ℤ s)))
    ]

module _ (i : ℕ) (s lo : ℤ) (h : lo ≤ℤ s) where
  below_index :
      (v : ℤ) × (value_from_below i s lo ≡ v)
      × (lo ≤ℤ v)
      × (index_from_below v s lo ≡ pos i)
      × ((zigzag_index v s ≤ zigzag_index lo s) ⊎ (v ≡ pos i +ℤ lo))
  unfolding value_from_below index_from_below
  below_index = elim (Bool-cases (leb i (zigzag_index lo s))) [
    | inl a ↦
        let v : ℤ = zigzag_value i s in
        let e : zigzag_index v s ≡ i = zigzag_index-value i s in
        let (b, c) = near_below v s lo h (omega tests) in (v, rw a, b, rw (c, e), inl (omega tests))
    | inr a ↦
        let v : ℤ = pos i +ℤ lo in
        let far : leb_ℤ (pos (abs (v -ℤ s))) (s -ℤ lo) ≡ false =
          omega (distances, +ℤ_parts, parts_cases (v -ℤ s), zigzag_index_le lo s h) in
        (v, rw a, omega int_laws, rw far (omega int_laws), inr refl)
  ]

module _ (i : ℕ) (s hi : ℤ) (h : s ≤ℤ hi) where
  past_end : ℤ
  past_end = hi -ℤ pos i

  past_end_index : zigzag_index hi s < i → index_from_above past_end s hi ≡ pos i
  unfolding index_from_above past_end
  past_end_index b =
      let hi_case = hi_index s hi h in
      elim (Bool-cases (leb_ℤ (pos (abs (past_end -ℤ s))) (hi -ℤ s))) [
        | inl c ↦
            let v : ℤ = hi -ℤ pos i in
            let e : zigzag_index v s ≡ i =
              omega (distances, parts_cases (v -ℤ s), zigzag_index_le v s (omega distances)) in
            rw (c, e)
        | inr c ↦ rw c (omega int_laws)
      ]

  above_index :
      (v : ℤ) × (value_from_above i s hi ≡ v)
      × (v ≤ℤ hi)
      × (index_from_above v s hi ≡ pos i)
      × ((zigzag_index v s ≤ zigzag_index hi s) ⊎ (v ≡ hi -ℤ pos i))
  unfolding value_from_above index_from_above past_end
  above_index = elim (Bool-cases (leb i (zigzag_index hi s))) [
    | inl a ↦
        let v : ℤ = zigzag_value i s in
        let e : zigzag_index v s ≡ i = zigzag_index-value i s in
        let (b, c) = near_above v s hi h (omega tests) in (v, rw a, b, rw (c, e), inl (omega tests))
    | inr a ↦ (past_end, rw a, omega int_laws, past_end_index (omega tests), inr refl)
  ]

-- An index is in range if there is no bound on one side, or it counts no more values than there are.
abbrev pub InRange : ℕ → Option ℤ → Option ℤ → Type 0
InRange i (some lo) (some hi) = pos i +ℤ lo ≤ℤ hi
InRange i _ _ = Unit

-- Where the values below `s` run out first, the values above do not pass `hi`; and the other way round.
below_hi :
    (v lo hi s : ℤ) (i : ℕ)
    → pos i +ℤ lo ≤ℤ hi
    → lo ≤ℤ s
    → s ≤ℤ hi
    → pos_part s + pos_part s + neg_part lo + neg_part hi
      < pos_part hi + pos_part lo + neg_part s + neg_part s
    → (zigzag_index v s ≤ zigzag_index lo s) ⊎ (v ≡ pos i +ℤ lo)
    → v ≤ℤ hi
below_hi v lo hi s i r p q t (inl a) =
    elim (dec_lt (pos_part s + neg_part v) (pos_part v + neg_part s)) [
      | yes b ↦ omega (arith, zigzag_index_le lo s p, zigzag_index_gt v s (omega arith))
      | no b ↦ omega arith
    ]
below_hi v lo hi s i r p q t (inr e) = rw e r

above_lo :
    (v lo hi s : ℤ) (i : ℕ)
    → pos i +ℤ lo ≤ℤ hi
    → lo ≤ℤ s
    → s ≤ℤ hi
    → pos_part hi + pos_part lo + neg_part s + neg_part s
      ≤ pos_part s + pos_part s + neg_part lo + neg_part hi
    → (zigzag_index v s ≤ zigzag_index hi s) ⊎ (v ≡ hi -ℤ pos i)
    → lo ≤ℤ v
above_lo v lo hi s i r p q t (inl a) =
    let e = hi_index s hi q in
    elim (dec_lt (pos_part s + neg_part v) (pos_part v + neg_part s)) [
      | yes b ↦ omega arith
      | no b ↦ omega (arith, zigzag_index_le v s (omega arith))
    ]
above_lo v lo hi s i r p q t (inr e) = rw e (omega int_laws)

bounded_index :
    (i : ℕ) (lo hi s : ℤ)
    → pos i +ℤ lo ≤ℤ hi
    → lo ≤ℤ s
    → s ≤ℤ hi
    → (v : ℤ) × (integer_value (some lo) (some hi) true s i ≡ ok v)
      × (lo ≤ℤ v)
      × (v ≤ℤ hi)
      × (integer_index (some lo) (some hi) true s v ≡ ok (pos i))
unfolding integer_value integer_index
bounded_index i lo hi s r p q = elim (Bool-cases (ltb_ℤ (s -ℤ lo) (hi -ℤ s))) [
  | inl t ↦
      let (v, e, b, f, g) = below_index i s lo p in
      (v, rw (t, e), b, below_hi v lo hi s i r p q (omega (tests, -ℤ_parts)) g, rw (t, f))
  | inr t ↦
      let (v, e, b, f, g) = above_index i s hi q in
      (v, rw (t, e), above_lo v lo hi s i r p q (omega (tests, -ℤ_parts)) g, b, rw (t, f))
]

range_bounds :
    (i : ℕ) (lo hi : Option ℤ) (s : ℤ)
    → InRange i lo hi
    → AtLeast (lower_to hi (raise_to lo s)) lo × AtMost (lower_to hi (raise_to lo s)) hi
range_bounds i none none s r = centre_bounds none none s s tt tt
range_bounds i (some lo) none s r = centre_bounds (some lo) none s lo (omega arith) tt
range_bounds i none (some hi) s r = centre_bounds none (some hi) s hi tt (omega arith)
range_bounds i (some lo) (some hi) s r =
    centre_bounds (some lo) (some hi) s lo (omega arith) (omega int_laws)

index_roundtrip :
    (lo hi : Option ℤ) (s : ℤ) (i : ℕ)
    → InRange i lo hi
    → AtLeast s lo
    → AtMost s hi
    → (v : ℤ) × (integer_value lo hi true s i ≡ ok v)
      × AtLeast v lo
      × AtMost v hi
      × (integer_index lo hi true s v ≡ ok (pos i))
unfolding integer_value integer_index
index_roundtrip none none s i r p q = (zigzag_value i s, refl, tt, tt, rw (zigzag_index-value i s))
index_roundtrip (some lo) none s i r p q =
    let (v, e, b, f, _) = below_index i s lo p in (v, rw e, b, tt, rw f)
index_roundtrip none (some hi) s i r p q =
    let (v, e, b, f, _) = above_index i s hi q in (v, rw e, tt, b, rw f)
index_roundtrip (some lo) (some hi) s i r p q = bounded_index i lo hi s r p q

-- Where the bounds are not crossed, every index in range has an integer: it is permitted, and has this
-- index. With `integer_roundtrip`, indices and permitted integers correspond one to one.
pub integer_index_roundtrip :
    (i : ℕ) (c : IntegerConstraints)
    → InRange i c.min_value c.max_value
    → c.positive_weights ≡ true
    → (v : ℤ) × (integer_from_index i c ≡ ok v)
      × (integer_permitted v c ≡ true)
      × (integer_to_index v c ≡ ok (pos i))
unfolding integer_to_index integer_from_index integer_permitted
integer_index_roundtrip i c r w =
    let (p, q) = range_bounds i c.min_value c.max_value c.shrink_towards r in
    let (v, e, a, b, f) = index_roundtrip c.min_value c.max_value (centre c) i r p q in
    (
      v,
      rw w e,
      rw ((AtLeast-is_below v c.min_value).1 a, (AtMost-is_above v c.max_value).1 b),
      rw w f,
    )

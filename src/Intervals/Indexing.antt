-- ===== src/Intervals/Indexing.antt =====
-- `__getitem__` against the order of `__iter__`.
use native.Mathlib.Numerals.{add-one}
use hypothesis.Common.{
  ℕ, zero, suc, ◌+◌, ◌-◌, ◌/◌, ◌≤◌, ◌<◌, ◌≡◌, refl, ◌∙◌, none, some, List, [], ◌∷◌, arith, dec_lt,
  length, get_elem?, get_or, ltb, if◌then◌else◌,
}
use hypothesis.Common.Int.{pos, negsuc}
use hypothesis.Common.Result.{ok, raise, of_option, index_error}
use hypothesis.Intervals.{Interval, make, offsets_from, iter, locate_loop, locate, get_item}
use hypothesis.Intervals.Members.{IsOrdered}
use hypothesis.Intervals.Offsets.{
  offsets_from_total, end_of, next_offset, last_offset, offsets_from-iter,
}

-- The binary search ends at an interval whose offset is at most `i`, before one whose offset is not.
locate_loop_lem :
    (offsets : List ℕ) (i fuel lo hi : ℕ)
    → lo < hi
    → hi ≤ lo + fuel
    → get_or offsets lo 0 ≤ i
    → i < get_or offsets hi 0
    → (locate_loop offsets i fuel lo hi < hi)
      × (get_or offsets (locate_loop offsets i fuel lo hi) 0 ≤ i)
      × (i < get_or offsets (locate_loop offsets i fuel lo hi + 1) 0)
unfolding locate_loop
locate_loop_lem offsets i zero lo hi h e p q = absurd (omega arith)
locate_loop_lem offsets i (suc fuel) lo hi h e p q = ground (
  arith,
  locate_loop_lem offsets i fuel ((lo + hi) / 2) hi,
  locate_loop_lem offsets i fuel lo ((lo + hi) / 2),
)

locate_search :
    (offsets : List ℕ) (i j : ℕ)
    → i < get_or offsets j 0
    → locate offsets i j ≡ locate_loop offsets i j 0 j
unfolding locate
locate_search offsets i j h = ground arith

locate_last : (offsets : List ℕ) (i j : ℕ) → get_or offsets j 0 ≤ i → locate offsets i j ≡ j
unfolding locate
locate_last offsets i j h = ground arith

first_offset : (l : List Interval) → get_or (offsets_from 0 l).0 0 0 ≡ 0
unfolding offsets_from
first_offset [] = refl
first_offset (p ∷ l) = refl

total_pos : (l : List Interval) (i : ℕ) → i < (offsets_from 0 l).1 → 0 < length l
unfolding offsets_from
total_pos [] i h = absurd (omega arith)
total_pos (p ∷ l) i h = omega arith

get_elem?-none {ℓ} : {A : Type ℓ} (xs : List A) (i : ℕ) → length xs ≤ i → get_elem? xs i ≡ none
get_elem?-none [] i h = refl
get_elem?-none (x ∷ xs) zero h = absurd (omega arith)
get_elem?-none (x ∷ xs) (suc i) h = get_elem?-none xs i (omega arith)

module _ (l : List Interval) (o : IsOrdered 0 l) where
  abbrev offs : List ℕ
  offs = (offsets_from 0 l).0

  abbrev pub total : ℕ
  total = (offsets_from 0 l).1

  abbrev Encloses : ℕ → ℕ → Type 0
  Encloses i j = (j < length l) × (get_or offs j 0 ≤ i) × (i < end_of offs l j)

  -- The interval that is located holds the element.
  locate-Encloses : (i j : ℕ) → suc j ≡ length l → i < total → Encloses i (locate offs i j)
  locate-Encloses i zero e h = rw (locate_last offs i 0 (omega (arith, first_offset l))) (
    omega arith,
    omega (arith, first_offset l),
    omega (arith, last_offset 0 0 0 l o (omega arith)),
  )
  locate-Encloses i (suc j) e h = elim (dec_lt i (get_or offs (suc j) 0)) [
    | yes a ↦
        let (b, c, d) =
          locate_loop_lem offs i (suc j) 0 (suc j) (omega arith) (omega arith)
            (omega (arith, first_offset l)) a in
        rw (locate_search offs i (suc j) a) (
          omega arith,
          c,
          omega (
            arith,
            next_offset 0 0 (locate_loop offs i (suc j) 0 (suc j)) l o (omega arith),
            rw add-one at d,
          ),
        )
    | no a ↦
        rw (locate_last offs i (suc j) (omega arith))
          (omega arith, omega arith, omega (arith, last_offset 0 0 (suc j) l o (omega arith)))
  ]

  pub item : ℕ → ℕ
  item i = let j = locate offs i (length l - 1) in (get_or l j (0, 0)).0 + (i - get_or offs j 0)

  pub get_item_inside : (i : ℕ) → i < total → get_item (make l) (pos i) ≡ ok (item i)
  unfolding get_item make item
  get_item_inside i h =
      let p : 0 < length l = total_pos l i h in
      ground (arith, locate-Encloses i (length l - 1) (omega arith) h)

  iter_inside : (i : ℕ) → i < total → get_elem? (iter l) i ≡ some (item i)
  unfolding item
  iter_inside i h =
      let p : 0 < length l = total_pos l i h in
      let (a, b, c) = locate-Encloses i (length l - 1) (omega arith) h in
      let e : i - 0 ≡ i = omega arith in
      rw e at ((offsets_from-iter 0 0 (locate offs i (length l - 1)) i l o a b c).1)

  pub get_item_outside : (i : ℕ) → total ≤ i → get_item (make l) (pos i) ≡ raise index_error
  unfolding get_item make
  get_item_outside i h = ground arith

  -- For a valid set, `s[i]` at an index that is not negative is the element `i` of `iter(s)`, and an
  -- IndexError from the size on.
  pub get_item-iter :
      (i : ℕ) → get_item (make l) (pos i) ≡ of_option index_error (get_elem? (iter l) i)
  get_item-iter i = elim (dec_lt i total) [
    | yes h ↦ get_item_inside i h ∙ rw (iter_inside i h)
    | no h ↦
        get_item_outside i (omega arith)
        ∙ rw (get_elem?-none (iter l) i (omega (arith, offsets_from_total 0 0 l o)))
  ]

  get_item_wrap :
      (i : ℕ) → i < total → get_item (make l) (negsuc i) ≡ get_item (make l) (pos (total - 1 - i))
  unfolding get_item make
  get_item_wrap i h = ground arith

  get_item_too_negative : (i : ℕ) → total ≤ i → get_item (make l) (negsuc i) ≡ raise index_error
  unfolding get_item make
  get_item_too_negative i h = ground arith

  -- A negative index counts from the end.
  pub get_item_negative :
      (i : ℕ)
      → get_item (make l) (negsuc i) ≡ (
          if ltb i (length (iter l))
          then of_option index_error (get_elem? (iter l) (length (iter l) - 1 - i))
          else raise index_error)
  get_item_negative i =
      let t = offsets_from_total 0 0 l o in
      elim (dec_lt i total) [
        | yes h ↦ ground (arith, get_item_wrap i h, get_item-iter (total - 1 - i))
        | no h ↦ ground (arith, get_item_too_negative i (omega arith))
      ]

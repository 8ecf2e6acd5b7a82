-- ===== src/Intervals/Examples.antt =====
-- Runs of `IntervalSet`, and instances of the theorems about it.
use hypothesis.Common.{
  ℕ, ◌≤◌, ◌≡◌, ◌↔◌, refl, true, false, not, ◌&&◌, ◌||◌, List, [], ◌∷◌, arith, get_elem?,
}
use hypothesis.Common.Int.{pos, ◌+ℤ◌}
use hypothesis.Common.Result.{ok, raise, of_option, index_error, value_error}
use hypothesis.Intervals.{
  max_code, chr, Interval, IntervalSet, make, within, covers, iter, index, get_item, union,
  difference, intersection, from_string, char_in_shrink_order, index_from_char_in_shrink_order,
}
use hypothesis.Intervals.Laws.{
  IsValid, members, make-IsValid, union_lem, intersection_lem, difference_lem,
}
use hypothesis.Intervals.Indexing.{get_item-iter}
use hypothesis.Intervals.Index.{get_item-index_iff, index-contains_iff}
use hypothesis.Intervals.ShrinkOrder.{index-char_in_shrink_order}

abbrev digits_and_letters : List Interval
digits_and_letters = (48, 57) ∷ (65, 90) ∷ (97, 122) ∷ []

abbrev vowels : List Interval
vowels = (65, 65) ∷ (69, 69) ∷ []

-- the docstrings' examples
from_string_runs :
    (from_string (102 ∷ 97 ∷ 98 ∷ 99 ∷ 101 ∷ 100 ∷ 49 ∷ 48 ∷ [])).intervals
    ≡ (48, 49) ∷ (97, 102) ∷ []
unfolding from_string
from_string_runs = refl

union_runs : (union (make ((3, 10) ∷ [])) (make ((1, 2) ∷ (5, 17) ∷ []))).intervals ≡ (1, 17) ∷ []
unfolding union make
union_runs = refl

difference_runs :
    difference (make ((1, 10) ∷ [])) (make ((2, 3) ∷ (9, 15) ∷ []))
    ≡ ok (make ((1, 1) ∷ (4, 8) ∷ []))
unfolding difference make
difference_runs = refl

shrink_order_runs : char_in_shrink_order (make digits_and_letters) (pos 36) ≡ ok 97
unfolding char_in_shrink_order make chr
shrink_order_runs = refl

valid : IsValid (make digits_and_letters)
valid = make-IsValid digits_and_letters (omega arith)

vowels-IsValid : IsValid (make vowels)
vowels-IsValid = make-IsValid vowels (omega arith)

union_example :
    IsValid (union (make digits_and_letters) (make vowels))
    × ((n : ℕ)
        → members (union (make digits_and_letters) (make vowels)) n
          ≡ members (make digits_and_letters) n || members (make vowels) n)
union_example = union_lem (make digits_and_letters) (make vowels) valid vowels-IsValid

intersection_example :
    IsValid (intersection (make digits_and_letters) (make vowels))
    × ((n : ℕ)
        → members (intersection (make digits_and_letters) (make vowels)) n
          ≡ members (make digits_and_letters) n && members (make vowels) n)
intersection_example = intersection_lem (make digits_and_letters) (make vowels) valid vowels-IsValid

difference_example :
    (d : IntervalSet) × (difference (make digits_and_letters) (make vowels) ≡ ok d)
    × IsValid d
    × ((n : ℕ) → members d n ≡ members (make digits_and_letters) n && not (members (make vowels) n))
difference_example = difference_lem (make digits_and_letters) (make vowels) valid vowels-IsValid

get_item-iter_example :
    get_item (make digits_and_letters) (pos 12)
    ≡ of_option index_error (get_elem? (iter digits_and_letters) 12)
get_item-iter_example = get_item-iter digits_and_letters (omega arith) 12

get_item-index_example :
    (index (make digits_and_letters) 67 ≡ ok 12)
    ↔ (get_item (make digits_and_letters) (pos 12) ≡ ok 67)
get_item-index_example = get_item-index_iff digits_and_letters (omega arith) 67 12

index-contains_example :
    (index (make digits_and_letters) 64 ≡ raise value_error)
    ↔ (covers digits_and_letters 64 ≡ false)
index-contains_example = index-contains_iff digits_and_letters (omega arith) 64

codes : (c : ℕ) → covers digits_and_letters c ≡ true → c ≤ max_code
unfolding covers within
codes c h = ground arith

-- a set of a code above all characters
chr_runs : char_in_shrink_order (make ((0x110000, 0x110000) ∷ [])) (pos 0) ≡ raise value_error
unfolding char_in_shrink_order make chr ◌+ℤ◌
chr_runs = refl

shrink_order_example :
    (c : ℕ) × (char_in_shrink_order (make digits_and_letters) (pos 40) ≡ ok c)
    × (index_from_char_in_shrink_order (make digits_and_letters) c ≡ ok (pos 40))
unfolding make
shrink_order_example =
    index-char_in_shrink_order digits_and_letters (omega arith) codes 40 (omega arith)

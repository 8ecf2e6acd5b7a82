-- ===== src/LazyCopy/Examples.antt =====
-- Tests and instances of the theorems on `LazySequenceCopy`, at a copy of a short list that was popped
-- from and written to.
use hypothesis.Common.{
  ℕ, ◌≡◌, refl, ap, Bool, false, none, some, [], ◌∷◌, arith, get_elem?, set, length, if◌then◌else◌,
  ◌==◌,
}
use hypothesis.Common.Int.{pos}
use hypothesis.Common.Result.{ok, of_option, index_error}
use hypothesis.LazyCopy.{LazyCopy, mask_get, size, get_item, set_item, pop, swap}
use hypothesis.LazyCopy.Swap.{swap-view}
use hypothesis.LazyCopy.View.{view, delete_at, delete_all, masked}
use hypothesis.LazyCopy.Refines.{IsValid, get_item-view, set_item-view, pop-view, size-view}

-- The list 5, 6, 7, 8 with the position 1 popped and 9 written at the position 2.
abbrev edited : LazyCopy ℕ
edited = record {
  values = 5 ∷ 6 ∷ 7 ∷ 8 ∷ [];
  len = 4;
  mask = some (λ j. if j == 3 then some 9 else none);
  popped_at = some (1 ∷ []);
}

edited-IsValid : IsValid edited
edited-IsValid = record { len_values = refl; fits = (omega arith, tt) }

get_item-view_example : get_item edited (pos 2) ≡ of_option index_error (get_elem? (view edited) 2)
get_item-view_example = get_item-view edited edited-IsValid 2

size-view_example : size edited ≡ length (view edited)
size-view_example = size-view edited edited-IsValid

view_runs : view edited ≡ 5 ∷ 7 ∷ 9 ∷ []
unfolding view delete_all delete_at masked mask_get
view_runs = refl

set_item-view_example :
    (s' : LazyCopy ℕ) × (set_item edited (pos 0) 4 ≡ ok s')
    × IsValid s'
    × (view s' ≡ set (view edited) 0 4)
set_item-view_example = set_item-view edited edited-IsValid 0 4 (omega (arith, ap length view_runs))

never : ℕ → Bool
never _ = false

pop-view_example :
    (v : ℕ) × (s' : LazyCopy ℕ) × (pop never edited (pos 1) ≡ ok (v, s'))
    × (get_elem? (view edited) 1 ≡ some v)
    × IsValid s'
    × (view s' ≡ delete_at 1 (view edited))
unfolding never
pop-view_example =
    pop-view edited edited-IsValid never 1 (omega (arith, ap length view_runs)) (λ _. refl)

swap-view_example :
    (s' : LazyCopy ℕ) × (swap edited (pos 0) (pos 2) ≡ ok s')
    × IsValid s'
    × (view s' ≡ set (set (view edited) 0 9) 2 5)
unfolding view delete_all delete_at masked mask_get
swap-view_example =
    swap-view edited edited-IsValid 0 2 5 9 (omega (arith, ap length view_runs))
      (omega (arith, ap length view_runs)) refl refl

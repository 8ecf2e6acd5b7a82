-- ===== src/IntList/Examples.antt =====
-- Runs of `IntList`, and instances of the theorems about it.
use hypothesis.Common.{◌≡◌, ◌⊎◌, refl, true, false, some, [], ◌∷◌, set}
use hypothesis.Common.Int.{pos, negsuc}
use hypothesis.Common.Result.{ok, raise, value_error}
use hypothesis.IntList.{
  IntList, byte, int, all, fits, non_negative, make, set_item, set_item_loop, assign, upgrade,
  position, array_or_list, is_positive, is_array, next_array_code,
}
use hypothesis.IntList.Storage.{IsValid, set_item_lem, make_lem}

abbrev small : IntList
small = record { code = byte; items = pos 3 ∷ pos 255 ∷ [] }

small-IsValid : IsValid small
unfolding all fits non_negative
small-IsValid = record { fitting = refl; natural = refl }

upgrade_runs :
    set_item small (pos 1) (pos 70000)
    ≡ some (ok (record { code = int; items = pos 3 ∷ pos 70000 ∷ [] }))
unfolding set_item set_item_loop assign upgrade position array_or_list fits all is_positive is_array
    next_array_code
upgrade_runs = refl

set_item_lem_example :
    (s' : IntList) × (set_item small (pos 1) (pos 70000) ≡ some (ok s'))
    × (s'.items ≡ set small.items 1 (pos 70000))
    × IsValid s'
unfolding position non_negative
set_item_lem_example = set_item_lem small (pos 1) (pos 70000) 1 small-IsValid refl refl

make_lem_example :
    ((s : IntList) × (make (pos 1 ∷ negsuc 0 ∷ []) ≡ ok s)
      × (s.items ≡ pos 1 ∷ negsuc 0 ∷ [])
      × IsValid s
      × (all non_negative (pos 1 ∷ negsuc 0 ∷ []) ≡ true))
    ⊎ ((make (pos 1 ∷ negsuc 0 ∷ []) ≡ raise value_error)
        × (all non_negative (pos 1 ∷ negsuc 0 ∷ []) ≡ false))
make_lem_example = make_lem (pos 1 ∷ negsuc 0 ∷ [])

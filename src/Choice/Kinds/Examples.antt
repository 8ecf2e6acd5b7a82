-- ===== src/Choice/Kinds/Examples.antt =====
-- Runs of the functions on choices of all kinds, and an instance of their theorem at two bytes.
use hypothesis.Common.{ℕ, ◌≡◌, refl, true, false, [], ◌∷◌, arith}
use hypothesis.Common.Int.{pos, ◌+ℤ◌}
use hypothesis.Common.Result.{ok}
use hypothesis.Intervals.{make, index_from_char_in_shrink_order}
use hypothesis.Choice.Collection.{collection_index, index_loop, size_to_index, buffer_size, reverse}
use hypothesis.Choice.Collection.Examples.{small_log, small_log-Exact}
use hypothesis.Choice.Kinds.{
  boolean, bytes, string, BooleanConstraints, BytesConstraints, StringConstraints, least_chance,
  certain, boolean_to_index, for_each, choice_to_index, choice_from_index, choice_permitted,
}
use hypothesis.Choice.Kinds.RoundTrip.{choice_roundtrip}

-- With a probability above 0 and at most 2 ** -64, True is permitted, and has the index of False.
abbrev rare : BooleanConstraints
rare = record { p = 1 }

rare_permitted : choice_permitted boolean true rare ≡ ok true
unfolding choice_permitted certain
rare_permitted = refl

rare_index : choice_to_index boolean true rare ≡ ok (pos 0)
unfolding choice_to_index boolean_to_index least_chance
rare_index = refl

rare_value : choice_from_index small_log boolean 0 rare ≡ ok false
unfolding choice_from_index least_chance
rare_value = refl

abbrev lower_case : StringConstraints
lower_case = record { intervals = make ((97, 122) ∷ []); min_size = 1; max_size = 3 }

string_index_runs : choice_to_index string (98 ∷ 97 ∷ []) lower_case ≡ ok (pos 52)
unfolding choice_to_index for_each index_from_char_in_shrink_order make collection_index index_loop
    reverse size_to_index ◌+ℤ◌
string_index_runs = refl

abbrev few_bytes : BytesConstraints
few_bytes = record { min_size = 1; max_size = 5 }

choice_roundtrip_example :
    (n : ℕ) × (choice_to_index bytes (7 ∷ 200 ∷ []) few_bytes ≡ ok (pos n))
    × (choice_from_index small_log bytes n few_bytes ≡ ok (7 ∷ 200 ∷ []))
unfolding choice_permitted buffer_size
choice_roundtrip_example =
    choice_roundtrip small_log bytes (7 ∷ 200 ∷ []) few_bytes refl
      ((omega arith, (omega arith, tt)), omega arith, small_log-Exact _ (omega arith))

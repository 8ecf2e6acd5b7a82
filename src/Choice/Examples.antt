-- ===== src/Choice/Examples.antt =====
-- Runs of the choice order, and instances of the theorems about it.
use hypothesis.Common.{ℕ, ◌≡◌, refl, Bool, true, false, Option, none, some, arith}
use hypothesis.Common.Int.{ℤ, pos, negsuc}
use hypothesis.Common.Result.{ok}
use hypothesis.Choice.Zigzag.{zigzag_index, zigzag_value}
use hypothesis.Choice.Integer.{
  IntegerConstraints, integer_to_index, integer_from_index, integer_permitted,
}
use hypothesis.Choice.Integer.RoundTrip.{integer_roundtrip}
use hypothesis.Choice.Integer.Indices.{integer_index_roundtrip}

-- range = [-2, 5], shrink_towards = 2
abbrev bounded : IntegerConstraints
bounded = record {
  min_value = some (negsuc 1);
  max_value = some (pos 5);
  positive_weights = true;
  shrink_towards = pos 2;
}

-- the table in the comment of `choice_to_index`
table :
    (integer_from_index 0 bounded ≡ ok (pos 2))
    × (integer_from_index 1 bounded ≡ ok (pos 3))
    × (integer_from_index 4 bounded ≡ ok (pos 0))
    × (integer_from_index 5 bounded ≡ ok (pos 5))
    × (integer_from_index 7 bounded ≡ ok (negsuc 1))
unfolding integer_from_index zigzag_index zigzag_value hypothesis.Common.Int.◌+ℤ◌
    hypothesis.Common.Int.◌-ℤ◌
table = (refl, refl, refl, refl, refl)

integer_roundtrip_example :
    (n : ℕ) × (integer_to_index (negsuc 1) bounded ≡ ok (pos n))
    × (integer_from_index n bounded ≡ ok (negsuc 1))
unfolding integer_permitted
integer_roundtrip_example = integer_roundtrip (negsuc 1) bounded refl refl

integer_index_roundtrip_example :
    (v : ℤ) × (integer_from_index 6 bounded ≡ ok v)
    × (integer_permitted v bounded ≡ true)
    × (integer_to_index v bounded ≡ ok (pos 6))
unfolding hypothesis.Common.Int.◌+ℤ◌
integer_index_roundtrip_example = integer_index_roundtrip 6 bounded (omega arith) refl

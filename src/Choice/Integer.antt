-- ===== src/Choice/Integer.antt =====
-- The integer cases of `choice_to_index`, `choice_from_index` and `choice_permitted`.
pub mod RoundTrip
pub mod Indices
use hypothesis.Common.{
  ℕ, ◌+◌, ◌-◌, ◌*◌, ◌≤◌, ◌<◌, ◌≡◌, Bool, true, false, not, ◌&&◌, Option, none, some, ltb, leb,
  if◌then◌else◌,
}
use hypothesis.Common.Int.{ℤ, pos, negsuc, ◌+ℤ◌, ◌-ℤ◌, ltb_ℤ, leb_ℤ, min_ℤ, max_ℤ, abs}
use hypothesis.Common.Result.{Result, ok, ◌>>=◌, ◌>>◌, check}
use hypothesis.Choice.Zigzag.{zigzag_index, zigzag_value}

-- `IntegerConstraints`. Of `weights` only the test of the assertions is kept: that there are none, or
-- all are above zero.
pub record IntegerConstraints : Type 0 where
  pub min_value : Option ℤ
  pub max_value : Option ℤ
  pub positive_weights : Bool
  pub shrink_towards : ℤ

-- `shrink_towards`, moved into the range
unfoldable pub raise_to : Option ℤ → ℤ → ℤ
raise_to none s = s
raise_to (some m) s = max_ℤ m s

unfoldable pub lower_to : Option ℤ → ℤ → ℤ
lower_to none s = s
lower_to (some m) s = min_ℤ m s

-- Semibounded below: a zigzag until `min_value` is reached.
unfoldable pub index_from_below : ℤ → ℤ → ℤ → ℤ
index_from_below choice s min_value =
    if leb_ℤ (pos (abs (choice -ℤ s))) (s -ℤ min_value)
    then pos (zigzag_index choice s)
    else choice -ℤ min_value

unfoldable pub index_from_above : ℤ → ℤ → ℤ → ℤ
index_from_above choice s max_value =
    if leb_ℤ (pos (abs (choice -ℤ s))) (max_value -ℤ s)
    then pos (zigzag_index choice s)
    else max_value -ℤ choice

unfoldable pub integer_index : Option ℤ → Option ℤ → Bool → ℤ → ℤ → Result ℤ
unfolding index_from_below index_from_above
integer_index none none weights s choice = ok (pos (zigzag_index choice s))
integer_index (some lo) none weights s choice = ok (index_from_below choice s lo)
integer_index none (some hi) weights s choice = ok (index_from_above choice s hi)
integer_index (some lo) (some hi) weights s choice = do
  check weights
  ok (
      if ltb_ℤ (s -ℤ lo) (hi -ℤ s)
      then index_from_below choice s lo
      else index_from_above choice s hi)

-- `choice_to_index` of an integer
unfoldable pub integer_to_index : ℤ → IntegerConstraints → Result ℤ
unfolding raise_to lower_to integer_index
integer_to_index choice c =
    integer_index c.min_value c.max_value c.positive_weights
      (lower_to c.max_value (raise_to c.min_value c.shrink_towards)) choice

unfoldable pub value_from_below : ℕ → ℤ → ℤ → ℤ
value_from_below index s min_value =
    if leb index (zigzag_index min_value s) then zigzag_value index s else pos index +ℤ min_value

unfoldable pub value_from_above : ℕ → ℤ → ℤ → ℤ
value_from_above index s max_value =
    if leb index (zigzag_index max_value s) then zigzag_value index s else max_value -ℤ pos index

unfoldable pub integer_value : Option ℤ → Option ℤ → Bool → ℤ → ℕ → Result ℤ
unfolding value_from_below value_from_above
integer_value none none weights s index = ok (zigzag_value index s)
integer_value (some lo) none weights s index = ok (value_from_below index s lo)
integer_value none (some hi) weights s index = ok (value_from_above index s hi)
integer_value (some lo) (some hi) weights s index = do
  check weights
  ok (
      if ltb_ℤ (s -ℤ lo) (hi -ℤ s)
      then value_from_below index s lo
      else value_from_above index s hi)

-- `choice_from_index(index, "integer", constraints)`; `assert index >= 0` is the type of `index`.
unfoldable pub integer_from_index : ℕ → IntegerConstraints → Result ℤ
unfolding raise_to lower_to integer_value
integer_from_index index c =
    integer_value c.min_value c.max_value c.positive_weights
      (lower_to c.max_value (raise_to c.min_value c.shrink_towards)) index

unfoldable pub is_below : ℤ → Option ℤ → Bool
is_below choice none = false
is_below choice (some lo) = ltb_ℤ choice lo

unfoldable pub is_above : ℤ → Option ℤ → Bool
is_above choice none = false
is_above choice (some hi) = ltb_ℤ hi choice

-- `choice_permitted` of an integer
unfoldable pub integer_permitted : ℤ → IntegerConstraints → Bool
unfolding is_below is_above
integer_permitted choice c =
    if is_below choice c.min_value then false else not (is_above choice c.max_value)

-- ===== src/Choice/Kinds.antt =====
-- `choice_to_index`, `choice_from_index` and `choice_permitted` of internal/conjecture/choice.py, for
-- integers, booleans, bytes and strings. The constraints of a choice are of its kind, as the casts say.
-- Bytes and code points are natural numbers. `log` is the logarithm of Choice/Collection.
pub mod Orders
pub mod RoundTrip
pub mod Examples
use hypothesis.Common.{
  ℕ, zero, suc, ◌+◌, ◌^◌, Bool, true, false, not, ◌&&◌, ◌||◌, Option, none, some, List, [], ◌∷◌,
  ltb, leb, ◌==◌, if◌then◌else◌, length,
}
use hypothesis.Common.Int.{ℤ, pos, negsuc}
use hypothesis.Common.Result.{Result, ok, raise, ◌>>=◌, ◌>>◌, check, value_error}
use hypothesis.Intervals.{
  IntervalSet, char_in_shrink_order, index_from_char_in_shrink_order, contains,
}
use hypothesis.Choice.Integer.{
  IntegerConstraints, integer_to_index, integer_from_index, integer_permitted,
}
use hypothesis.Choice.Collection.{collection_index, collection_value, size_to_index}

-- `p` is counted in units of 2 ** -1074, of which every float that is not negative has a whole number.
pub record BooleanConstraints : Type 0 where
  pub p : ℕ

-- 2 ** -64
unfoldable pub least_chance : ℕ
least_chance = 2 ^ 1010

-- 1.0, and also 1 - 2 ** -64, which is rounded to it
unfoldable pub certain : ℕ
certain = 2 ^ 1074

pub record BytesConstraints : Type 0 where
  pub min_size : ℕ
  pub max_size : ℕ

pub record StringConstraints : Type 0 where
  pub intervals : IntervalSet
  pub min_size : ℕ
  pub max_size : ℕ

-- `ChoiceTypeT`, less floats
pub data Kind : Type 0 where
  integer boolean bytes string : Kind

abbrev pub Choice : Kind → Type 0
Choice integer = ℤ
Choice boolean = Bool
Choice bytes = List ℕ
Choice string = List ℕ

abbrev pub Constraints : Kind → Type 0
Constraints integer = IntegerConstraints
Constraints boolean = BooleanConstraints
Constraints bytes = BytesConstraints
Constraints string = StringConstraints

-- Calls that may raise, one for each element
unfoldable pub for_each {ℓ κ} :
    {A : Type ℓ} {B : Type κ} → (A → Result B) → List A → Result (List B)
for_each f [] = ok []
for_each f (x ∷ xs) = do y ← f x; ys ← for_each f xs; ok (y ∷ ys)

unfoldable pub boolean_to_index : Bool → BooleanConstraints → ℤ
boolean_to_index choice c =
    if not (ltb least_chance c.p && ltb c.p certain) then pos 0 else if choice then pos 1 else pos 0

-- The order of a character, which is not negative
unfoldable pub magnitude : ℤ → ℕ
magnitude (pos n) = n
magnitude (negsuc n) = 0

-- The sizes are computed before the characters are asked for their order.
unfoldable pub string_to_index : List ℕ → StringConstraints → Result ℤ
unfolding magnitude
string_to_index choice c = do
  _ ← size_to_index (length choice) c.intervals.size
  _ ← size_to_index c.min_size c.intervals.size
  orders ← for_each (index_from_char_in_shrink_order c.intervals) choice
  collection_index magnitude c.intervals.size orders c.min_size

-- `choice_to_index`
unfoldable pub choice_to_index : (k : Kind) → Choice k → Constraints k → Result ℤ
unfolding boolean_to_index string_to_index
choice_to_index integer choice c = integer_to_index choice c
choice_to_index boolean choice c = ok (boolean_to_index choice c)
choice_to_index bytes choice c = collection_index (λ b. b) 256 choice c.min_size
choice_to_index string choice c = string_to_index choice c

-- `only`
unfoldable pub only_choice : ℕ → Option Bool
only_choice p = if leb p least_chance then some false else if leb certain p then some true else none

unfoldable pub boolean_from_index : ℕ → BooleanConstraints → Result Bool
unfolding only_choice
boolean_from_index index c = do
  check (index == 0 || index == 1)
  elim (only_choice c.p) [
    | some only ↦ check (index == 0) >> ok only
    | none ↦ ok (not (index == 0))
  ]

-- `bytes` of a list refuses what is no byte.
unfoldable pub to_byte : ℤ → Result ℕ
to_byte (pos n) = if ltb n 256 then ok n else raise value_error
to_byte (negsuc n) = raise value_error

-- `choice_from_index`; `assert index >= 0` is the type of `index`.
unfoldable pub choice_from_index :
    (ℕ → ℕ → Option ℕ) → (k : Kind) → ℕ → Constraints k → Result (Choice k)
unfolding boolean_from_index to_byte
choice_from_index log integer index c = integer_from_index index c
choice_from_index log boolean index c = boolean_from_index index c
choice_from_index log bytes index c = do
  value ← collection_value (λ z. z) log index c.min_size 256
  for_each to_byte value
choice_from_index log string index c = do
  value ← collection_value (λ z. z) log index c.min_size c.intervals.size
  for_each (char_in_shrink_order c.intervals) value

-- all(ord(c) in intervals for c in choice), which stops at the first that is not
unfoldable pub all_contained : IntervalSet → List ℕ → Result Bool
all_contained s [] = ok true
all_contained s (c ∷ cs) = do there ← contains s c; if there then all_contained s cs else ok false

unfoldable pub boolean_permitted : Bool → BooleanConstraints → Bool
boolean_permitted choice c =
    if c.p == 0 then not choice else if leb certain c.p then choice else true

-- `choice_permitted`
unfoldable pub choice_permitted : (k : Kind) → Choice k → Constraints k → Result Bool
unfolding boolean_permitted all_contained
choice_permitted integer choice c = ok (integer_permitted choice c)
choice_permitted boolean choice c = ok (boolean_permitted choice c)
choice_permitted bytes choice c =
    ok (if ltb (length choice) c.min_size then false else leb (length choice) c.max_size)
choice_permitted string choice c =
    if ltb (length choice) c.min_size
    then ok false
    else if ltb c.max_size (length choice)
    then ok false
    else all_contained c.intervals choice

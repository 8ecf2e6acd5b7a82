-- ===== src/IntList.antt =====
-- `IntList` of internal/conjecture/junkdrawer.py: non-negative integers in an array of the smallest word
-- size that holds them, or in a list. An array raises an OverflowError for what its word does not hold;
-- the sizes are those of the array module where a C long has 64 bits.
pub mod Words
pub mod Storage
pub mod Examples
use hypothesis.Common.{
  ℕ, zero, suc, ◌+◌, ◌-◌, Bool, true, false, ◌&&◌, ◌||◌, not, Option, none, some, List, [], ◌∷◌,
  ◌++◌, ltb, leb, ◌==◌, if◌then◌else◌, length, get_elem?, set,
}
use hypothesis.Common.Int.{ℤ, pos, negsuc, eq_ℤ}
use hypothesis.Common.Result.{
  Result, ok, raise, check, ◌>>=◌, ◌>>◌, of_option, index_error, overflow_error, value_error,
  key_error, assertion_error,
}

-- `ARRAY_CODES`
pub data Code : Type 0 where
  byte short int long quad object : Code

abbrev pub array_codes : List Code
array_codes = byte ∷ short ∷ int ∷ long ∷ quad ∷ object ∷ []

-- `NEXT_ARRAY_CODE`
unfoldable pub next_array_code : Code → Option Code
next_array_code byte = some short
next_array_code short = some int
next_array_code int = some long
next_array_code long = some quad
next_array_code quad = some object
next_array_code object = none

unfoldable pub is_array : Code → Bool
is_array object = false
is_array _ = true

unfoldable pub fits : Code → ℤ → Bool
fits byte (pos n) = ltb n 256
fits short (pos n) = ltb n 65536
fits int (pos n) = ltb n 4294967296
fits long (pos n) = ltb n 18446744073709551616
fits quad (pos n) = ltb n 18446744073709551616
fits object n = true
fits _ (negsuc n) = false

unfoldable pub all : (ℤ → Bool) → List ℤ → Bool
all test [] = true
all test (v ∷ vs) = test v && all test vs

pub record IntList : Type 0 where
  pub code : Code
  pub items : List ℤ

-- `_array_or_list`
unfoldable pub array_or_list : Code → List ℤ → Result IntList
array_or_list c contents =
    if all (fits c) contents
    then ok (record { code = c; items = contents })
    else raise overflow_error

-- for code in self.ARRAY_CODES: the first one that raises no OverflowError
unfoldable pub first_storage : List Code → List ℤ → Result IntList
first_storage [] values = raise assertion_error
first_storage (c ∷ cs) values = elim (array_or_list c values) [
  | ok s ↦ ok s
  | raise e ↦ first_storage cs values
]

unfoldable pub non_negative : ℤ → Bool
non_negative (pos n) = true
non_negative (negsuc n) = false

-- `IntList(values)`
unfoldable pub make : List ℤ → Result IntList
make values = do
  s ← first_storage array_codes values
  if is_array s.code || all non_negative s.items then ok s else raise value_error

-- Where an index stands, counted from the end if it is negative.
unfoldable pub position : ℕ → ℤ → Result ℕ
position n (pos i) = if ltb i n then ok i else raise index_error
position n (negsuc i) = if ltb i n then ok (n - (i + 1)) else raise index_error

-- self.__underlying[i] = n
unfoldable pub assign : IntList → ℤ → ℤ → Result IntList
assign s i n = do
  k ← position (length s.items) i
  if fits s.code n then ok (record s { items = set s.items k n }) else raise overflow_error

-- `__upgrade`
unfoldable pub upgrade : IntList → Result IntList
upgrade s = do
  check (is_array s.code)
  c ← of_option key_error (next_array_code s.code)
  array_or_list c s.items

unfoldable pub is_positive : ℤ → Bool
is_positive (pos zero) = false
is_positive (pos (suc n)) = true
is_positive (negsuc n) = false

-- `__setitem__`, whose loop runs at most once for each code: none if the fuel did not do.
unfoldable pub set_item_loop : ℕ → IntList → ℤ → ℤ → Option (Result IntList)
set_item_loop zero s i n = none
set_item_loop (suc fuel) s i n = elim (assign s i n) [
  | ok s' ↦ some (ok s')
  | raise overflow_error ↦ elim (check (is_positive n) >> upgrade s) [
    | ok s' ↦ set_item_loop fuel s' i n
    | raise e ↦ some (raise e)
  ]
  | raise e ↦ some (raise e)
]

unfoldable pub set_item : IntList → ℤ → ℤ → Option (Result IntList)
set_item s i n = set_item_loop 6 s i n

-- `append`
unfoldable pub append : IntList → ℤ → Option (Result IntList)
append s n =
    if fits s.code n
    then some (ok (record s { items = s.items ++ n ∷ [] }))
    else set_item (record s { items = s.items ++ pos 0 ∷ [] }) (pos (length s.items)) n

-- `extend`
unfoldable pub extend : IntList → List ℤ → Option (Result IntList)
extend s [] = some (ok s)
extend s (n ∷ ns) = elim (append s n) [
  | none ↦ none
  | some (raise e) ↦ some (raise e)
  | some (ok s') ↦ extend s' ns
]

-- `__getitem__` at an integer, `__delitem__` at an integer, and `of_length`
unfoldable pub get_item : IntList → ℤ → Result ℤ
get_item s i = do k ← position (length s.items) i; of_option index_error (get_elem? s.items k)

unfoldable pub zeros : ℕ → List ℤ
zeros zero = []
zeros (suc n) = pos 0 ∷ zeros n

unfoldable pub of_length : ℕ → Result IntList
of_length n = make (zeros n)

-- ===== src/Intervals.antt =====
-- `IntervalSet` of internal/intervalsets.py: code points as a tuple of intervals, each given by its
-- two ends. Indices are integers, since `__getitem__` takes negative ones and `_idx_of_Z` is -1 for
-- the empty set.
use hypothesis.Common.{
  ℕ, zero, suc, ◌+◌, ◌-◌, ◌/◌, Bool, true, false, ◌&&◌, ◌||◌, Option, none, some, List, [], ◌∷◌,
  ◌++◌, map, ltb, leb, ◌==◌, if◌then◌else◌, max, min, length, get_or,
}
use hypothesis.Common.Int.{ℤ, pos, negsuc, ◌+ℤ◌, ◌-ℤ◌, ltb_ℤ, leb_ℤ, min_ℤ}
use hypothesis.Common.Result.{
  Result, ok, raise, ◌>>=◌, ◌>>◌, check, assertion_error, index_error, value_error,
}
pub mod Overlap
pub mod Members
pub mod Minus
pub mod Offsets
pub mod Indexing
pub mod Index
pub mod ShrinkOrder
pub mod Ordered
pub mod Laws
pub mod Examples

abbrev pub Interval : Type 0
Interval = ℕ × ℕ

pub record IntervalSet : Type 0 where
  pub intervals : List Interval
  pub offsets : List ℕ
  pub size : ℕ
  pub idx_of_zero : ℕ
  pub idx_of_z : ℤ

-- The offsets of the intervals, and the total that follows them.
unfoldable pub offsets_from : ℕ → List Interval → List ℕ × ℕ
offsets_from offset [] = ([], offset)
offsets_from offset ((u, v) ∷ l) =
    let (rest, total) = offsets_from (offset + v + 1 - u) l in (offset ∷ rest, total)

-- The loop of `index_above` over `zip(self.offsets, self.intervals)`.
unfoldable pub index_above_loop : ℕ → ℕ → List ℕ → List Interval → ℕ
index_above_loop size value (offset ∷ offsets) ((u, v) ∷ l) =
    if leb value u
    then offset
    else if leb value v
    then offset + (value - u)
    else index_above_loop size value offsets l
index_above_loop size value _ _ = size

abbrev pub ord_zero : ℕ
ord_zero = 48

abbrev pub ord_z : ℕ
ord_z = 90

-- `IntervalSet(intervals)`: `__init__`
unfoldable pub make : List Interval → IntervalSet
unfolding offsets_from index_above_loop ◌-ℤ◌
make l =
    let (offsets, size) = offsets_from 0 l in
    record {
      intervals = l;
      offsets = offsets;
      size = size;
      idx_of_zero = index_above_loop size ord_zero offsets l;
      idx_of_z = min_ℤ (pos (index_above_loop size ord_z offsets l)) (pos size -ℤ pos 1);
    }

unfoldable pub index_above : IntervalSet → ℕ → ℕ
unfolding index_above_loop
index_above s value = index_above_loop s.size value s.offsets s.intervals

-- `start <= elem <= end`
pub within : ℕ → ℕ → ℕ → Bool
within u v n = leb u n && leb n v

-- `any(start <= elem <= end for start, end in self.intervals)`
pub covers : List Interval → ℕ → Bool
covers [] n = false
covers ((u, v) ∷ l) n = within u v n || covers l n

abbrev pub max_code : ℕ
max_code = 0x10FFFF

-- `__contains__`, on the code point
unfoldable pub contains : IntervalSet → ℕ → Result Bool
contains s n = do check (leb n max_code); ok (covers s.intervals n)

-- `__iter__`
pub range : ℕ → ℕ → List ℕ
range u zero = []
range u (suc n) = u ∷ range (u + 1) n

unfoldable pub iter : List Interval → List ℕ
unfolding range
iter [] = []
iter ((u, v) ∷ l) = range u (v + 1 - u) ++ iter l

-- The loop of `index` over `zip(self.offsets, self.intervals)`.
unfoldable pub index_loop : ℕ → List ℕ → List Interval → Result ℕ
index_loop value (offset ∷ offsets) ((u, v) ∷ l) =
    if u == value
    then ok offset
    else if ltb value u
    then raise value_error
    else if leb value v
    then ok (offset + (value - u))
    else index_loop value offsets l
index_loop value _ _ = raise value_error

unfoldable pub index : IntervalSet → ℕ → Result ℕ
unfolding index_loop
index s value = index_loop value s.offsets s.intervals

-- The binary search of `__getitem__`: offsets[lo] <= i < offsets[hi].
unfoldable pub locate_loop : List ℕ → ℕ → ℕ → ℕ → ℕ → ℕ
locate_loop offsets i zero lo hi = lo
locate_loop offsets i (suc fuel) lo hi =
    let mid = (lo + hi) / 2 in
    elim (ltb (lo + 1) hi) [
      | true ↦ elim (leb (get_or offsets mid 0) i) [
        | true ↦ locate_loop offsets i fuel mid hi
        | false ↦ locate_loop offsets i fuel lo mid
      ]
      | false ↦ lo
    ]

-- The position of the interval that holds the element `i`; the search takes at most `j` rounds.
unfoldable pub locate : List ℕ → ℕ → ℕ → ℕ
unfolding locate_loop
locate offsets i j = if ltb i (get_or offsets j 0) then locate_loop offsets i j 0 j else j

-- `if i < 0: i = self.size + i`, and the range check
unfoldable pub normal_index : ℕ → ℤ → Result ℕ
normal_index size (pos n) = if ltb n size then ok n else raise index_error
normal_index size (negsuc n) = if ltb n size then ok (size - 1 - n) else raise index_error

unfoldable pub get_item : IntervalSet → ℤ → Result ℕ
unfolding locate normal_index
get_item s index = do
  i ← normal_index s.size index
  let j = locate s.offsets i (length s.intervals - 1)
  let (u, v) = get_or s.intervals j (0, 0)
  let r = u + (i - get_or s.offsets j 0)
  check (leb r v)
  ok r

-- `sorted` on pairs of numbers, in ascending order.
unfoldable pub pair_le : Interval → Interval → Bool
pair_le (a, b) (u, v) = ltb a u || (a == u && leb b v)

unfoldable pub insert : Interval → List Interval → List Interval
unfolding pair_le
insert p [] = p ∷ []
insert p (q ∷ l) = let rest = insert p l in if pair_le p q then p ∷ q ∷ l else q ∷ rest

unfoldable pub sort : List Interval → List Interval
unfolding insert
sort [] = []
sort (p ∷ l) = insert p (sort l)

-- The loop of `union`: `(a, b)` is the last interval of the result, and the list is what is still to
-- be popped.
unfoldable pub merge_loop : ℕ → ℕ → List Interval → List Interval
merge_loop a b [] = (a, b) ∷ []
merge_loop a b ((u, v) ∷ l) = elim (leb u (b + 1)) [
  | true ↦ merge_loop a (max v b) l
  | false ↦ (a, b) ∷ merge_loop u v l
]

unfoldable pub merge : List Interval → List Interval
unfolding merge_loop
merge [] = []
merge ((a, b) ∷ l) = merge_loop a b l

unfoldable pub union_intervals : List Interval → List Interval → List Interval
unfolding merge sort
union_intervals [] y = y
union_intervals x [] = x
union_intervals x y = merge (sort (x ++ y))

unfoldable pub union : IntervalSet → IntervalSet → IntervalSet
unfolding union_intervals
union s other = make (union_intervals s.intervals other.intervals)

-- The loop of `difference`, over `x[i:]` and `y[j:]`; it moves the left end of `x[i]` in place.
unfoldable pub difference_loop : List Interval → List Interval → Result (List Interval)
difference_loop [] y = ok []
difference_loop (p ∷ xs) [] = ok (p ∷ xs)
difference_loop ((xl, xr) ∷ xs) ((yl, yr) ∷ ys) =
    let next_y = difference_loop ((xl, xr) ∷ xs) ys in
    let next_x = difference_loop xs ((yl, yr) ∷ ys) in
    let cut_x = difference_loop ((yr + 1, xr) ∷ xs) ys in
    if ltb xr xl || ltb yr yl
    then raise assertion_error
    else if ltb yr xl
    then next_y
    else if ltb xr yl
    then (do rest ← next_x; ok ((xl, xr) ∷ rest))
    else if leb yl xl
    then (if leb xr yr then next_x else cut_x)
    else if leb (yr + 1) xr
    then (do rest ← cut_x; ok ((xl, yl - 1) ∷ rest))
    else (do rest ← next_x; ok ((xl, yl - 1) ∷ rest))

unfoldable pub difference_intervals : List Interval → List Interval → Result (List Interval)
unfolding difference_loop
difference_intervals x [] = ok x
difference_intervals x (q ∷ y) = difference_loop x (q ∷ y)

unfoldable pub difference : IntervalSet → IntervalSet → Result IntervalSet
unfolding difference_intervals
difference s other = do result ← difference_intervals s.intervals other.intervals; ok (make result)

-- The loop of `intersection`, over what is left of the two tuples.
unfoldable pub intersection_loop : List Interval → List Interval → List Interval
intersection_loop [] y = []
intersection_loop (p ∷ xs) [] = []
intersection_loop ((u, v) ∷ xs) ((u', v') ∷ ys) =
    let next_y = intersection_loop ((u, v) ∷ xs) ys in
    let next_x = intersection_loop xs ((u', v') ∷ ys) in
    if ltb v' u
    then next_y
    else if ltb v u'
    then next_x
    else (max u u', min v v') ∷ (if ltb v v' then next_x else next_y)

unfoldable pub intersection : IntervalSet → IntervalSet → IntervalSet
unfolding intersection_loop
intersection s other = make (intersection_loop s.intervals other.intervals)

-- `from_string`, on the code points of the string
unfoldable pub insert_code : ℕ → List ℕ → List ℕ
insert_code c [] = c ∷ []
insert_code c (d ∷ l) = let rest = insert_code c l in if leb c d then c ∷ d ∷ l else d ∷ rest

unfoldable pub sort_codes : List ℕ → List ℕ
unfolding insert_code
sort_codes [] = []
sort_codes (c ∷ l) = insert_code c (sort_codes l)

unfoldable pub from_string : List ℕ → IntervalSet
unfolding sort_codes make union
from_string codes = let x = make (map (λ c. (c, c)) (sort_codes codes)) in union x x

-- the index of the set that `char_in_shrink_order` reads
unfoldable pub unrotate : ℕ → ℤ → ℤ → Result ℤ
unrotate zero_at z_at i =
    if leb_ℤ i z_at
    then (do
      let n = z_at -ℤ pos zero_at
      let j = if leb_ℤ i n then i +ℤ pos zero_at else pos zero_at -ℤ (i -ℤ n)
      check (leb_ℤ i n || ltb_ℤ j (pos zero_at))
      check (leb_ℤ (pos 0) j && leb_ℤ j z_at)
      ok j)
    else ok i

-- `chr`, where the code point stands for the character
unfoldable pub chr : ℕ → Result ℕ
chr code = if leb code max_code then ok code else raise value_error

unfoldable pub char_in_shrink_order : IntervalSet → ℤ → Result ℕ
unfolding unrotate get_item chr
char_in_shrink_order s i = do j ← unrotate s.idx_of_zero s.idx_of_z i; code ← get_item s j; chr code

unfoldable pub rotate : ℕ → ℤ → ℤ → Result ℤ
rotate zero_at z_at i =
    if leb_ℤ i z_at
    then (do
      let n = z_at -ℤ pos zero_at
      let low = leb_ℤ (pos zero_at) i && leb_ℤ i z_at
      let j = if low then i -ℤ pos zero_at else pos zero_at -ℤ i +ℤ n
      check (if low then leb_ℤ (pos 0) j && leb_ℤ j n else leb_ℤ (n +ℤ pos 1) j && leb_ℤ j z_at)
      check (leb_ℤ (pos 0) j && leb_ℤ j z_at)
      ok j)
    else ok i

unfoldable pub index_from_char_in_shrink_order : IntervalSet → ℕ → Result ℤ
unfolding rotate index
index_from_char_in_shrink_order s c = do i ← index s c; rotate s.idx_of_zero s.idx_of_z (pos i)

-- ===== src/Intervals/Laws.antt =====
-- The set operations on values of `IntervalSet`.
use hypothesis.Common.{ℕ, ◌≡◌, refl, Bool, false, not, ◌&&◌, ◌||◌, List, [], ◌∷◌, map, arith, ◌==◌}
use hypothesis.Common.Result.{Result, ok, raise}
use hypothesis.Intervals.{
  Interval, IntervalSet, make, within, covers, union, intersection, difference, from_string,
  insert_code, sort_codes, union_intervals, intersection_loop, difference_loop,
  difference_intervals,
}
use hypothesis.Intervals.Members.{IsOrdered, covers-union_intervals, covers-intersection_loop}
use hypothesis.Intervals.Minus.{Minus, difference_loop-Minus}
use hypothesis.Intervals.Ordered.{
  AreNonempty, union_both-IsOrdered, union_intervals-IsOrdered, intersection_loop-IsOrdered, Keeps,
  difference_loop-Keeps,
}

-- The intervals are ordered, and the cached fields are those that `__init__` computes.
pub record IsValid (s : IntervalSet) : Type 0 where
  pub ordered : IsOrdered 0 s.intervals
  pub cached : s ≡ make s.intervals

abbrev pub members : IntervalSet → ℕ → Bool
members s n = covers s.intervals n

-- `__init__` on ordered intervals gives a valid set.
pub make-IsValid : (l : List Interval) → IsOrdered 0 l → IsValid (make l)
unfolding make
make-IsValid l o = record { ordered = o; cached = refl }

module _ (s t : IntervalSet) (v : IsValid s) (w : IsValid t) where
  -- The union of two valid sets is valid, and has the members of both and no others.
  pub union_lem :
      IsValid (union s t) × ((n : ℕ) → members (union s t) n ≡ members s n || members t n)
  unfolding union make
  union_lem = (
    make-IsValid (union_intervals s.intervals t.intervals)
        (union_intervals-IsOrdered 0 0 s.intervals t.intervals v.ordered w.ordered),
    covers-union_intervals s.intervals t.intervals,
  )

  -- The intersection of two valid sets is valid, and its members are those of both.
  pub intersection_lem :
      IsValid (intersection s t)
      × ((n : ℕ) → members (intersection s t) n ≡ members s n && members t n)
  unfolding intersection make
  intersection_lem = (
    make-IsValid (intersection_loop s.intervals t.intervals) (
        intersection_loop-IsOrdered 0 0 0 s.intervals t.intervals (omega arith) v.ordered
          w.ordered),
    λ n. covers-intersection_loop s.intervals t.intervals n 0 v.ordered w.ordered,
  )

difference_result :
    (x y : List Interval) (r : Result (List Interval))
    → ((n : ℕ) → Minus n x y r)
    → Keeps 0 r
    → (z : List Interval) × (r ≡ ok z)
      × IsOrdered 0 z
      × ((n : ℕ) → covers z n ≡ covers x n && not (covers y n))
difference_result x y (ok z) h k = (z, refl, k, h)
difference_result x y (raise e) h k = absurd (h 0)

difference_intervals_lem :
    (x y : List Interval)
    → IsOrdered 0 x
    → IsOrdered 0 y
    → (z : List Interval) × (difference_intervals x y ≡ ok z)
      × IsOrdered 0 z
      × ((n : ℕ) → covers z n ≡ covers x n && not (covers y n))
unfolding difference_intervals covers
difference_intervals_lem x [] o p = (x, refl, o, λ n. ground arith)
difference_intervals_lem x (q ∷ y) o p =
    difference_result x (q ∷ y) (difference_loop x (q ∷ y))
      (λ n. difference_loop-Minus x (q ∷ y) n 0 0 o p)
      (difference_loop-Keeps 0 0 0 x (q ∷ y) (omega arith) o p)

module _ (s t : IntervalSet) (v : IsValid s) (w : IsValid t) where
  -- The difference of two valid sets meets no failing assertion; it is valid, and its members are
  -- those of the first that are not in the second.
  pub difference_lem :
      (d : IntervalSet) × (difference s t ≡ ok d)
      × IsValid d
      × ((n : ℕ) → members d n ≡ members s n && not (members t n))
  unfolding difference make
  difference_lem =
      let (z, e, o, m) = difference_intervals_lem s.intervals t.intervals v.ordered w.ordered in
      (make z, rw e, make-IsValid z o, m)

-- Whether a code point occurs in the string.
pub occurs : ℕ → List ℕ → Bool
occurs n [] = false
occurs n (c ∷ l) = c == n || occurs n l

covers-insert_code :
    (c : ℕ) (l : List ℕ) (n : ℕ)
    → covers (map (λ d. (d, d)) (insert_code c l)) n ≡ c == n || covers (map (λ d. (d, d)) l) n
unfolding covers within insert_code
covers-insert_code c [] n = ground arith
covers-insert_code c (d ∷ l) n = ground (arith, covers-insert_code c l n)

covers-sort_codes : (l : List ℕ) (n : ℕ) → covers (map (λ d. (d, d)) (sort_codes l)) n ≡ occurs n l
unfolding covers sort_codes occurs
covers-sort_codes [] n = refl
covers-sort_codes (c ∷ l) n =
    ground (arith, covers-insert_code c (sort_codes l) n, covers-sort_codes l n)

points-AreNonempty : (l : List ℕ) → AreNonempty (map (λ d. (d, d)) l)
points-AreNonempty [] = tt
points-AreNonempty (c ∷ l) = (omega arith, points-AreNonempty l)

points-IsOrdered :
    (l : List ℕ) → IsOrdered 0 (union_intervals (map (λ d. (d, d)) l) (map (λ d. (d, d)) l))
points-IsOrdered [] = unfold union_intervals in tt
points-IsOrdered (c ∷ l) =
    union_both-IsOrdered (c, c) (map (λ d. (d, d)) l) (c, c) (map (λ d. (d, d)) l)
      (points-AreNonempty (c ∷ l)) (points-AreNonempty (c ∷ l))

-- `from_string` gives a valid set, with the characters of the string as its members, whatever their
-- order and however often they occur.
pub from_string_lem :
    (codes : List ℕ)
    → IsValid (from_string codes) × ((n : ℕ) → members (from_string codes) n ≡ occurs n codes)
unfolding from_string
from_string_lem codes =
    let x = map (λ (d : ℕ). (d, d)) (sort_codes codes) in
    (
      make-IsValid (union_intervals x x) (points-IsOrdered (sort_codes codes)),
      λ n. ground (arith, covers-union_intervals x x n, covers-sort_codes codes n),
    )

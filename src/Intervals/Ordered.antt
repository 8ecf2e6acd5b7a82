-- ===== src/Intervals/Ordered.antt =====
-- The set operations give ordered intervals.
use hypothesis.Common.{ℕ, ◌+◌, ◌-◌, ◌≤◌, ◌<◌, List, [], ◌∷◌, ◌++◌, arith, max, dec_lt}
use hypothesis.Common.Result.{Result, ok, raise, ◌>>=◌}
use hypothesis.Intervals.{
  Interval, insert, sort, merge, merge_loop, union_intervals, intersection_loop, difference_loop,
}
use hypothesis.Intervals.Minus.{
  loop_y_left, loop_x_left, loop_covered, loop_front, loop_middle, loop_back,
}
use hypothesis.Intervals.Members.{Ascends, Ascends-le, IsOrdered, IsOrdered-le, sort-Ascends}

abbrev pub AreNonempty : List Interval → Type 0
AreNonempty [] = Unit
AreNonempty ((u, v) ∷ l) = (u ≤ v) × AreNonempty l

IsOrdered-AreNonempty : (lo : ℕ) (l : List Interval) → IsOrdered lo l → AreNonempty l
IsOrdered-AreNonempty lo [] o = tt
IsOrdered-AreNonempty lo ((u, v) ∷ l) o = (o.1, IsOrdered-AreNonempty (v + 1) l o.2)

append-AreNonempty : (x y : List Interval) → AreNonempty x → AreNonempty y → AreNonempty (x ++ y)
append-AreNonempty [] y p q = q
append-AreNonempty ((u, v) ∷ x) y p q = (p.0, append-AreNonempty x y p.1 q)

insert-AreNonempty :
    (a b : ℕ) (l : List Interval) → a ≤ b → AreNonempty l → AreNonempty (insert (a, b) l)
unfolding insert
insert-AreNonempty a b [] h p = (h, tt)
insert-AreNonempty a b ((u, v) ∷ l) h p = ground (arith, insert-AreNonempty a b l)

sort-AreNonempty : (l : List Interval) → AreNonempty l → AreNonempty (sort l)
unfolding sort
sort-AreNonempty [] p = tt
sort-AreNonempty ((a, b) ∷ l) p = insert-AreNonempty a b (sort l) p.0 (sort-AreNonempty l p.1)

merge_loop-IsOrdered :
    (lo a b : ℕ) (l : List Interval)
    → lo ≤ a
    → a ≤ b
    → Ascends a l
    → AreNonempty l
    → IsOrdered lo (merge_loop a b l)
unfolding merge_loop
merge_loop-IsOrdered lo a b [] h k s p = (h, k, tt)
merge_loop-IsOrdered lo a b ((u, v) ∷ l) h k s p = elim (dec_lt (b + 1) u) [
  | yes d ↦ ground (arith, merge_loop-IsOrdered (b + 1) u v l (omega arith) p.0 s.1 p.1)
  | no d ↦
      ground (
        arith,
        merge_loop-IsOrdered lo a (max v b) l h (omega arith) (Ascends-le a u l s.0 s.1) p.1,
      )
]

merge-IsOrdered : (l : List Interval) → Ascends 0 l → AreNonempty l → IsOrdered 0 (merge l)
unfolding merge
merge-IsOrdered [] s p = tt
merge-IsOrdered ((a, b) ∷ l) s p = merge_loop-IsOrdered 0 a b l s.0 p.0 s.1 p.1

pub union_both-IsOrdered :
    (q : Interval) (x : List Interval) (r : Interval) (y : List Interval)
    → AreNonempty (q ∷ x)
    → AreNonempty (r ∷ y)
    → IsOrdered 0 (union_intervals (q ∷ x) (r ∷ y))
unfolding union_intervals
union_both-IsOrdered q x r y o p =
    merge-IsOrdered (sort (q ∷ x ++ r ∷ y)) (sort-Ascends (q ∷ x ++ r ∷ y))
      (sort-AreNonempty (q ∷ x ++ r ∷ y) (append-AreNonempty (q ∷ x) (r ∷ y) o p))

-- The union of ordered intervals is ordered.
pub union_intervals-IsOrdered :
    (lo lo' : ℕ) (x y : List Interval)
    → IsOrdered lo x
    → IsOrdered lo' y
    → IsOrdered 0 (union_intervals x y)
unfolding union_intervals
union_intervals-IsOrdered lo lo' [] y o p = IsOrdered-le 0 lo' y (omega arith) p
union_intervals-IsOrdered lo lo' (q ∷ x) [] o p = IsOrdered-le 0 lo (q ∷ x) (omega arith) o
union_intervals-IsOrdered lo lo' (q ∷ x) (r ∷ y) o p =
    union_both-IsOrdered q x r y (IsOrdered-AreNonempty lo (q ∷ x) o)
      (IsOrdered-AreNonempty lo' (r ∷ y) p)

pub intersection_loop-IsOrdered :
    (k lo lo' : ℕ) (x y : List Interval)
    → k ≤ max lo lo'
    → IsOrdered lo x
    → IsOrdered lo' y
    → IsOrdered k (intersection_loop x y)
unfolding intersection_loop
intersection_loop-IsOrdered k lo lo' [] y h o p = tt
intersection_loop-IsOrdered k lo lo' (q ∷ x) [] h o p = tt
intersection_loop-IsOrdered k lo lo' ((u, v) ∷ x) ((u', v') ∷ y) h o p = ground (
  arith,
  intersection_loop-IsOrdered k lo (v' + 1) ((u, v) ∷ x) y (omega arith) o p.2,
  intersection_loop-IsOrdered k (v + 1) lo' x ((u', v') ∷ y) (omega arith) o.2 p,
  intersection_loop-IsOrdered (v' + 1) lo (v' + 1) ((u, v) ∷ x) y (omega arith) o p.2,
  intersection_loop-IsOrdered (v + 1) (v + 1) lo' x ((u', v') ∷ y) (omega arith) o.2 p,
)

abbrev pub Keeps : ℕ → Result (List Interval) → Type 0
Keeps lo (ok z) = IsOrdered lo z
Keeps lo (raise e) = Unit

Keeps-cons :
    (k u v : ℕ) (r : Result (List Interval))
    → k ≤ u
    → u ≤ v
    → Keeps (v + 1) r
    → Keeps k (r >>= λ rest. ok ((u, v) ∷ rest))
Keeps-cons k u v (ok z) h e p = (h, e, p)
Keeps-cons k u v (raise _) h e p = tt

-- The two intervals meet.
difference_inside :
    (k xl xr : ℕ) (x : List Interval) (yl yr : ℕ) (y : List Interval)
    → k ≤ xl
    → xl ≤ xr
    → yl ≤ yr
    → xl ≤ yr
    → yl ≤ xr
    → ((j : ℕ) → j ≤ xr + 1 → Keeps j (difference_loop x ((yl, yr) ∷ y)))
    → ((j : ℕ) → j ≤ yr + 1 → yr < xr → Keeps j (difference_loop ((yr + 1, xr) ∷ x) y))
    → Keeps k (difference_loop ((xl, xr) ∷ x) ((yl, yr) ∷ y))
difference_inside k xl xr x yl yr y h ox oy a b next_x cut_x = elim (dec_lt yr xr) [
  | yes c ↦ elim (dec_lt xl yl) [
    | yes d ↦
        rw (loop_middle xl xr x yl yr y ox oy d c)
          (Keeps-cons k xl (yl - 1) _ h (omega arith) (cut_x (yl - 1 + 1) (omega arith) c))
    | no d ↦ rw (loop_front xl xr x yl yr y ox oy (omega arith) a c) (cut_x k (omega arith) c)
  ]
  | no c ↦ elim (dec_lt xl yl) [
    | yes d ↦
        rw (loop_back xl xr x yl yr y ox oy d b (omega arith))
          (Keeps-cons k xl (yl - 1) _ h (omega arith) (next_x (yl - 1 + 1) (omega arith)))
    | no d ↦
        rw (loop_covered xl xr x yl yr y ox oy (omega arith) (omega arith)) (next_x k (omega arith))
  ]
]

pub difference_loop-Keeps :
    (k lo lo' : ℕ) (x y : List Interval)
    → k ≤ lo
    → IsOrdered lo x
    → IsOrdered lo' y
    → Keeps k (difference_loop x y)
unfolding difference_loop
difference_loop-Keeps k lo lo' [] y h o p = tt
difference_loop-Keeps k lo lo' (q ∷ x) [] h o p = IsOrdered-le k lo (q ∷ x) h o
difference_loop-Keeps k lo lo' ((xl, xr) ∷ x) ((yl, yr) ∷ y) h o p =
    let next_x =
      λ (j : ℕ) (e : j ≤ xr + 1). difference_loop-Keeps j (xr + 1) lo' x ((yl, yr) ∷ y) e o.2 p in
    let cut_x = λ (j : ℕ) (e : j ≤ yr + 1) (f : yr < xr).
      difference_loop-Keeps j (yr + 1) (yr + 1) ((yr + 1, xr) ∷ x) y e
        (omega arith, omega arith, o.2) p.2 in
    elim (dec_lt yr xl) [
      | yes a ↦
          rw (loop_y_left xl xr x yl yr y o.1 p.1 a)
            (difference_loop-Keeps k lo (yr + 1) ((xl, xr) ∷ x) y h o p.2)
      | no a ↦ elim (dec_lt xr yl) [
        | yes b ↦
            rw (loop_x_left xl xr x yl yr y o.1 p.1 b)
              (Keeps-cons k xl xr _ (omega arith) o.1 (next_x (xr + 1) (omega arith)))
        | no b ↦
            difference_inside k xl xr x yl yr y (omega arith) o.1 p.1 (omega arith) (omega arith)
              next_x cut_x
      ]
    ]

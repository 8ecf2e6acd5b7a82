-- ===== src/Intervals/Members.antt =====
-- The members of unions and of intersections.
use hypothesis.Common.{
  ℕ, ◌+◌, ◌≤◌, ◌<◌, ◌≡◌, refl, ◌∙◌, false, ◌&&◌, ◌||◌, List, [], ◌∷◌, ◌++◌, arith, max, dec_lt,
}
use hypothesis.Intervals.{
  Interval, within, covers, insert, sort, merge, merge_loop, union_intervals, intersection_loop,
}
use hypothesis.Intervals.Overlap.{meet_y_left, meet_x_left, meet_x_first, meet_y_first}

-- Sorted by the left ends, which are at least `lo`.
abbrev pub Ascends : ℕ → List Interval → Type 0
Ascends lo [] = Unit
Ascends lo ((u, v) ∷ l) = (lo ≤ u) × Ascends u l

-- Non-empty intervals from `lo` on, each to the right of the one before.
abbrev pub IsOrdered : ℕ → List Interval → Type 0
IsOrdered lo [] = Unit
IsOrdered lo ((u, v) ∷ l) = (lo ≤ u) × (u ≤ v) × IsOrdered (v + 1) l

pub covers-append : (x y : List Interval) (n : ℕ) → covers (x ++ y) n ≡ covers x n || covers y n
unfolding covers
covers-append [] y n = refl
covers-append ((u, v) ∷ x) y n = ground (arith, covers-append x y n)

covers-insert :
    (p : Interval) (l : List Interval) (n : ℕ) → covers (insert p l) n ≡ covers (p ∷ l) n
unfolding covers insert
covers-insert p [] n = refl
covers-insert (a, b) ((u, v) ∷ l) n = ground (arith, covers-insert (a, b) l n)

covers-sort : (l : List Interval) (n : ℕ) → covers (sort l) n ≡ covers l n
unfolding covers sort
covers-sort [] n = refl
covers-sort ((a, b) ∷ l) n = ground (arith, covers-insert (a, b) (sort l) n, covers-sort l n)

insert-Ascends :
    (lo a b : ℕ) (l : List Interval) → lo ≤ a → Ascends lo l → Ascends lo (insert (a, b) l)
unfolding insert
insert-Ascends lo a b [] h s = (h, tt)
insert-Ascends lo a b ((u, v) ∷ l) h s = ground (arith, insert-Ascends u a b l)

pub sort-Ascends : (l : List Interval) → Ascends 0 (sort l)
unfolding sort
sort-Ascends [] = tt
sort-Ascends ((a, b) ∷ l) = insert-Ascends 0 a b (sort l) (omega arith) (sort-Ascends l)

pub Ascends-le : (lo lo' : ℕ) (l : List Interval) → lo ≤ lo' → Ascends lo' l → Ascends lo l
Ascends-le lo lo' [] h s = tt
Ascends-le lo lo' ((u, v) ∷ l) h s = (omega arith, s.1)

covers-merge_loop :
    (a b : ℕ) (l : List Interval) (n : ℕ)
    → Ascends a l
    → covers (merge_loop a b l) n ≡ covers ((a, b) ∷ l) n
unfolding covers merge_loop within
covers-merge_loop a b [] n s = refl
covers-merge_loop a b ((u, v) ∷ l) n s = ground (
  arith,
  covers-merge_loop a (max v b) l n (Ascends-le a u l s.0 s.1),
  covers-merge_loop u v l n s.1,
)

covers-merge : (l : List Interval) (n : ℕ) → Ascends 0 l → covers (merge l) n ≡ covers l n
unfolding merge covers
covers-merge [] n s = refl
covers-merge ((a, b) ∷ l) n s = covers-merge_loop a b l n s.1

-- The union has the members of both.
pub covers-union_intervals :
    (x y : List Interval) (n : ℕ) → covers (union_intervals x y) n ≡ covers x n || covers y n
unfolding union_intervals covers
covers-union_intervals [] y n = refl
covers-union_intervals (p ∷ x) [] n = ground arith
covers-union_intervals (p ∷ x) (q ∷ y) n =
    covers-merge (sort (p ∷ x ++ q ∷ y)) n (sort-Ascends (p ∷ x ++ q ∷ y))
    ∙ covers-sort (p ∷ x ++ q ∷ y) n
    ∙ covers-append (p ∷ x) (q ∷ y) n

pub covers_below : (lo n : ℕ) (l : List Interval) → IsOrdered lo l → n < lo → covers l n ≡ false
unfolding covers within
covers_below lo n [] o h = refl
covers_below lo n ((u, v) ∷ l) o h = ground (arith, covers_below (v + 1) n l o.2 (omega arith))

pub IsOrdered-le : (lo lo' : ℕ) (l : List Interval) → lo ≤ lo' → IsOrdered lo' l → IsOrdered lo l
IsOrdered-le lo lo' [] h o = tt
IsOrdered-le lo lo' ((u, v) ∷ l) h o = (omega arith, o.1, o.2)

meet_step :
    (u v : ℕ) (xs : List Interval) (u' v' : ℕ) (ys : List Interval) (n : ℕ)
    → u ≤ v
    → IsOrdered (v + 1) xs
    → u' ≤ v'
    → IsOrdered (v' + 1) ys
    → covers (intersection_loop ((u, v) ∷ xs) ys) n ≡ covers ((u, v) ∷ xs) n && covers ys n
    → covers (intersection_loop xs ((u', v') ∷ ys)) n ≡ covers xs n && covers ((u', v') ∷ ys) n
    → covers (intersection_loop ((u, v) ∷ xs) ((u', v') ∷ ys)) n
      ≡ covers ((u, v) ∷ xs) n && covers ((u', v') ∷ ys) n
unfolding intersection_loop covers
meet_step u v xs u' v' ys n h o k p next_y next_x =
    let nx = λ (e : n ≤ v). covers_below (v + 1) n xs o (omega arith) in
    let ny = λ (e : n ≤ v'). covers_below (v' + 1) n ys p (omega arith) in
    elim (dec_lt v' u) [
      | yes a ↦
          ground (arith, next_y, meet_y_left u v u' v' n (covers xs n) (covers ys n) nx ny a h)
      | no a ↦ elim (dec_lt v u') [
        | yes b ↦
            ground (arith, next_x, meet_x_left u v u' v' n (covers xs n) (covers ys n) nx ny b k)
        | no b ↦ elim (dec_lt v v') [
          | yes c ↦
              ground (arith, next_x, meet_x_first u v u' v' n (covers xs n) (covers ys n) nx ny c)
          | no c ↦ ground (
            arith,
            next_y,
            meet_y_first u v u' v' n (covers xs n) (covers ys n) nx ny (omega arith),
          )
        ]
      ]
    ]

-- The intersection of ordered intervals has the members that are in both.
pub covers-intersection_loop :
    (x y : List Interval) (n lo : ℕ)
    → IsOrdered lo x
    → IsOrdered lo y
    → covers (intersection_loop x y) n ≡ covers x n && covers y n
unfolding intersection_loop covers
covers-intersection_loop [] y n lo o p = refl
covers-intersection_loop (q ∷ xs) [] n lo o p = ground arith
covers-intersection_loop ((u, v) ∷ xs) ((u', v') ∷ ys) n lo o p =
    meet_step u v xs u' v' ys n o.1 o.2 p.1 p.2
      (covers-intersection_loop ((u, v) ∷ xs) ys n lo o
        (IsOrdered-le lo (v' + 1) ys (omega arith) p.2))
      (covers-intersection_loop xs ((u', v') ∷ ys) n lo
        (IsOrdered-le lo (v + 1) xs (omega arith) o.2) p)

-- ===== src/Intervals/Minus.antt =====
-- The members of a difference.
use hypothesis.Common.{
  ℕ, ◌+◌, ◌-◌, ◌≤◌, ◌<◌, ◌≡◌, refl, ◌∙◌, Bool, false, not, ◌&&◌, ◌||◌, List, [], ◌∷◌, arith, dec_lt,
}
use hypothesis.Common.Result.{Result, ok, raise, ◌>>=◌}
use hypothesis.Intervals.{Interval, within, covers, difference_loop}
use hypothesis.Intervals.Members.{IsOrdered, covers_below}
use hypothesis.Intervals.Overlap.{
  minus_y_left, minus_x_left, minus_covered, minus_front, minus_middle, minus_back,
}

-- What `difference` is to return for the members `n`; it is not to raise.
abbrev pub Minus : ℕ → List Interval → List Interval → Result (List Interval) → Type 0
Minus n x y (ok z) = covers z n ≡ covers x n && not (covers y n)
Minus n x y (raise e) = ⊥

Minus-cons :
    (x' y' x y : List Interval) (n u v : ℕ) (r : Result (List Interval))
    → (within u v n || (covers x' n && not (covers y' n))) ≡ covers x n && not (covers y n)
    → Minus n x' y' r
    → Minus n x y (r >>= λ rest. ok ((u, v) ∷ rest))
unfolding covers
Minus-cons x' y' x y n u v (ok z) e h = rw h e
Minus-cons x' y' x y n u v (raise _) e h = h

Minus-eq :
    (x' y' x y : List Interval) (n : ℕ) (r : Result (List Interval))
    → covers x' n && not (covers y' n) ≡ covers x n && not (covers y n)
    → Minus n x' y' r
    → Minus n x y r
Minus-eq x' y' x y n (ok z) e h = h ∙ e
Minus-eq x' y' x y n (raise _) e h = h

-- The branches of the loop, for intervals that are not empty.
module _ (xl xr : ℕ) (xs : List Interval) (yl yr : ℕ) (ys : List Interval) (h : xl ≤ xr)
    (k : yl ≤ yr) where
  pub loop_y_left :
      yr < xl → difference_loop ((xl, xr) ∷ xs) ((yl, yr) ∷ ys) ≡ difference_loop ((xl, xr) ∷ xs) ys
  unfolding difference_loop
  loop_y_left a = ground arith

  pub loop_x_left :
      xr < yl
      → difference_loop ((xl, xr) ∷ xs) ((yl, yr) ∷ ys)
        ≡ (difference_loop xs ((yl, yr) ∷ ys) >>= λ rest. ok ((xl, xr) ∷ rest))
  unfolding difference_loop
  loop_x_left a = ground arith

  pub loop_covered :
      yl ≤ xl
      → xr ≤ yr
      → difference_loop ((xl, xr) ∷ xs) ((yl, yr) ∷ ys) ≡ difference_loop xs ((yl, yr) ∷ ys)
  unfolding difference_loop
  loop_covered a b = ground arith

  pub loop_front :
      yl ≤ xl
      → xl ≤ yr
      → yr < xr
      → difference_loop ((xl, xr) ∷ xs) ((yl, yr) ∷ ys) ≡ difference_loop ((yr + 1, xr) ∷ xs) ys
  unfolding difference_loop
  loop_front a b c = ground arith

  pub loop_middle :
      xl < yl
      → yr < xr
      → difference_loop ((xl, xr) ∷ xs) ((yl, yr) ∷ ys)
        ≡ (difference_loop ((yr + 1, xr) ∷ xs) ys >>= λ rest. ok ((xl, yl - 1) ∷ rest))
  unfolding difference_loop
  loop_middle a b = ground arith

  pub loop_back :
      xl < yl
      → yl ≤ xr
      → xr ≤ yr
      → difference_loop ((xl, xr) ∷ xs) ((yl, yr) ∷ ys)
        ≡ (difference_loop xs ((yl, yr) ∷ ys) >>= λ rest. ok ((xl, yl - 1) ∷ rest))
  unfolding difference_loop
  loop_back a b c = ground arith

  module _ (n : ℕ) (o : IsOrdered (xr + 1) xs) (p : IsOrdered (yr + 1) ys)
      (next_y : Minus n ((xl, xr) ∷ xs) ys (difference_loop ((xl, xr) ∷ xs) ys))
      (next_x : Minus n xs ((yl, yr) ∷ ys) (difference_loop xs ((yl, yr) ∷ ys)))
      (cut_x : yr < xr
        → Minus n ((yr + 1, xr) ∷ xs) ys (difference_loop ((yr + 1, xr) ∷ xs) ys)) where
    abbrev cx : Bool
    cx = covers xs n

    abbrev cy : Bool
    cy = covers ys n

    abbrev x : List Interval
    x = (xl, xr) ∷ xs

    abbrev y : List Interval
    y = (yl, yr) ∷ ys

    nx : n ≤ xr → cx ≡ false
    nx e = covers_below (xr + 1) n xs o (omega arith)

    ny : n ≤ yr → cy ≡ false
    ny e = covers_below (yr + 1) n ys p (omega arith)

    Minus-starts_left : xl < yl → yl ≤ xr → Minus n x y (difference_loop x y)
    unfolding covers
    Minus-starts_left a b = elim (dec_lt yr xr) [
      | yes c ↦ rw (loop_middle a c) (
          Minus-cons ((yr + 1, xr) ∷ xs) ys x y n xl (yl - 1) _
            (minus_middle xl xr yl yr n cx cy nx ny a k c) (cut_x c))
      | no c ↦ rw (loop_back a b (omega arith)) (
          Minus-cons xs y x y n xl (yl - 1) _
            (minus_back xl xr yl yr n cx cy nx ny a b (omega arith)) next_x)
    ]

    Minus-starts_right : yl ≤ xl → xl ≤ yr → Minus n x y (difference_loop x y)
    unfolding covers
    Minus-starts_right a b = elim (dec_lt yr xr) [
      | yes c ↦ rw (loop_front a b c) (
          Minus-eq ((yr + 1, xr) ∷ xs) ys x y n _ (minus_front xl xr yl yr n cx cy nx ny a b c)
            (cut_x c))
      | no c ↦
          rw (loop_covered a (omega arith))
            (Minus-eq xs y x y n _ (minus_covered xl xr yl yr n cx cy nx ny a (omega arith)) next_x)
    ]

    Minus-step : Minus n x y (difference_loop x y)
    unfolding covers
    Minus-step = elim (dec_lt yr xl) [
      | yes a ↦
          rw (loop_y_left a)
            (Minus-eq x ys x y n _ (minus_y_left xl xr yl yr n cx cy nx ny a h) next_y)
      | no a ↦ elim (dec_lt xr yl) [
        | yes b ↦
            rw (loop_x_left b)
              (Minus-cons xs y x y n xl xr _ (minus_x_left xl xr yl yr n cx cy nx ny b k) next_x)
        | no b ↦ elim (dec_lt xl yl) [
          | yes c ↦ Minus-starts_left c (omega arith)
          | no c ↦ Minus-starts_right (omega arith) (omega arith)
        ]
      ]
    ]

pub difference_loop-Minus :
    (x y : List Interval) (n lo lo' : ℕ)
    → IsOrdered lo x
    → IsOrdered lo' y
    → Minus n x y (difference_loop x y)
unfolding difference_loop covers
difference_loop-Minus [] y n lo lo' o p = refl
difference_loop-Minus (q ∷ xs) [] n lo lo' o p = ground arith
difference_loop-Minus ((xl, xr) ∷ xs) ((yl, yr) ∷ ys) n lo lo' o p =
    Minus-step xl xr xs yl yr ys o.1 p.1 n o.2 p.2
      (difference_loop-Minus ((xl, xr) ∷ xs) ys n lo (yr + 1) o p.2)
      (difference_loop-Minus xs ((yl, yr) ∷ ys) n (xr + 1) lo' o.2 p)
      (λ h.
        difference_loop-Minus ((yr + 1, xr) ∷ xs) ys n 0 (yr + 1) (omega arith, omega arith, o.2)
          p.2)

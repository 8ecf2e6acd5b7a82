-- ===== src/Intervals/Offsets.antt =====
-- The offsets of the intervals, and the elements in the order of `__iter__`.
use hypothesis.Common.{
  ℕ, zero, suc, ◌+◌, ◌-◌, ◌≤◌, ◌<◌, ◌≡◌, refl, ◌∙◌, some, List, [], ◌∷◌, ◌++◌, arith, length,
  get_elem?, get_or, length-append,
}
use hypothesis.Intervals.{Interval, offsets_from, range, iter}
use hypothesis.Intervals.Members.{IsOrdered}

length-range : (u n : ℕ) → length (range u n) ≡ n
unfolding range
length-range u zero = refl
length-range u (suc n) = omega (arith, length-range (u + 1) n)

get_elem?-range : (u n i : ℕ) → i < n → get_elem? (range u n) i ≡ some (u + i)
unfolding range
get_elem?-range u zero i h = absurd (omega arith)
get_elem?-range u (suc n) zero h = ground arith
get_elem?-range u (suc n) (suc i) h = ground (arith, get_elem?-range (u + 1) n i (omega arith))

module _ {ℓ} {A : Type ℓ} where
  get_elem?-append_left :
      (xs ys : List A) (i : ℕ) → i < length xs → get_elem? (xs ++ ys) i ≡ get_elem? xs i
  get_elem?-append_left [] ys i h = absurd (omega arith)
  get_elem?-append_left (x ∷ xs) ys zero h = refl
  get_elem?-append_left (x ∷ xs) ys (suc i) h = get_elem?-append_left xs ys i (omega arith)

  get_elem?-append_right :
      (xs ys : List A) (i j : ℕ) → i ≡ length xs + j → get_elem? (xs ++ ys) i ≡ get_elem? ys j
  get_elem?-append_right [] ys i j h = let e : i ≡ j = omega arith in rw e
  get_elem?-append_right (x ∷ xs) ys zero j h = absurd (omega arith)
  get_elem?-append_right (x ∷ xs) ys (suc i) j h = get_elem?-append_right xs ys i j (omega arith)

-- The element `i` of the first interval, and of the others.
pub iter_first :
    (u v : ℕ) (l : List Interval) (i : ℕ)
    → u + i ≤ v
    → get_elem? (iter ((u, v) ∷ l)) i ≡ some (u + i)
unfolding iter
iter_first u v l i h =
    get_elem?-append_left (range u (v + 1 - u)) (iter l) i (rw length-range (omega arith))
    ∙ get_elem?-range u (v + 1 - u) i (omega arith)

pub iter_rest :
    (u v : ℕ) (l : List Interval) (i j : ℕ)
    → u + i ≡ v + 1 + j
    → u ≤ v
    → get_elem? (iter ((u, v) ∷ l)) i ≡ get_elem? (iter l) j
unfolding iter
iter_rest u v l i j h k =
    get_elem?-append_right (range u (v + 1 - u)) (iter l) i j (rw length-range (omega arith))

-- The total is the number of elements.
pub offsets_from_total :
    (offset lo : ℕ) (l : List Interval)
    → IsOrdered lo l
    → (offsets_from offset l).1 ≡ offset + length (iter l)
unfolding offsets_from iter
offsets_from_total offset lo [] o = omega arith
offsets_from_total offset lo ((u, v) ∷ l) o = omega (
  arith,
  offsets_from_total (offset + v + 1 - u) (v + 1) l o.2,
  length-append (range u (v + 1 - u)) (iter l),
  length-range u (v + 1 - u),
)

-- Where the interval `j` ends.
abbrev pub end_of : List ℕ → List Interval → ℕ → ℕ
end_of offsets l j = get_or offsets j 0 + (get_or l j (0, 0)).1 + 1 - (get_or l j (0, 0)).0

-- An interval starts where the one before it ends.
pub next_offset :
    (offset lo j : ℕ) (l : List Interval)
    → IsOrdered lo l
    → suc j < length l
    → get_or (offsets_from offset l).0 (suc j) 0 ≡ end_of (offsets_from offset l).0 l j
unfolding offsets_from
next_offset offset lo j [] o h = absurd (omega arith)
next_offset offset lo zero ((u, v) ∷ (u', v') ∷ l) o h = refl
next_offset offset lo (suc j) ((u, v) ∷ l) o h =
    next_offset (offset + v + 1 - u) (v + 1) j l o.2 (omega arith)
next_offset offset lo zero ((u, v) ∷ []) o h = absurd (omega arith)

pub last_offset :
    (offset lo j : ℕ) (l : List Interval)
    → IsOrdered lo l
    → j + 1 ≡ length l
    → (offsets_from offset l).1 ≡ end_of (offsets_from offset l).0 l j
unfolding offsets_from
last_offset offset lo j [] o h = absurd (omega arith)
last_offset offset lo zero ((u, v) ∷ []) o h = refl
last_offset offset lo zero ((u, v) ∷ q ∷ l) o h = absurd (omega arith)
last_offset offset lo (suc j) ((u, v) ∷ l) o h =
    last_offset (offset + v + 1 - u) (v + 1) j l o.2 (omega arith)

-- The element `i` is found in the interval whose offsets enclose it.
pub offsets_from-iter :
    (offset lo j i : ℕ) (l : List Interval)
    → IsOrdered lo l
    → j < length l
    → get_or (offsets_from offset l).0 j 0 ≤ i
    → i < end_of (offsets_from offset l).0 l j
    → (offset ≤ i)
      × (get_elem? (iter l) (i - offset)
          ≡ some ((get_or l j (0, 0)).0 + (i - get_or (offsets_from offset l).0 j 0)))
unfolding offsets_from
offsets_from-iter offset lo j i [] o h a b = absurd (omega arith)
offsets_from-iter offset lo zero i ((u, v) ∷ l) o h a b =
    (a, iter_first u v l (i - offset) (omega arith))
offsets_from-iter offset lo (suc j) i ((u, v) ∷ l) o h a b =
    let (c, e) = offsets_from-iter (offset + v + 1 - u) (v + 1) j i l o.2 (omega arith) a b in
    (omega arith, iter_rest u v l (i - offset) (i - (offset + v + 1 - u)) (omega arith) o.1 ∙ e)

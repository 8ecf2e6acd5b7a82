-- ===== src/Intervals/Index.antt =====
-- `index` against `__getitem__` and `__contains__`.
use hypothesis.Common.{
  ℕ, ◌+◌, ◌-◌, ◌≤◌, ◌≡◌, ◌↔◌, refl, sym, ◌∙◌, true, false, some, List, [], ◌∷◌, arith, dec_lt,
  get_elem?,
}
use hypothesis.Common.Int.{pos}
use hypothesis.Common.Result.{ok, raise, value_error}
use hypothesis.Intervals.{
  Interval, make, offsets_from, iter, within, covers, get_item, index, index_loop,
}
use hypothesis.Intervals.Members.{IsOrdered, covers_below}
use hypothesis.Intervals.Offsets.{iter_first, iter_rest}
use hypothesis.Intervals.Indexing.{get_item-iter}

-- Elements of later intervals are larger.
iter_lower :
    (lo i : ℕ) (l : List Interval) (v : ℕ) → IsOrdered lo l → get_elem? (iter l) i ≡ some v → lo ≤ v
iter_lower lo i [] v o e = absurd (unfold iter in cc e)
iter_lower lo i ((u, w) ∷ l) v o e = elim (dec_lt i (w + 1 - u)) [
  | yes h ↦ let f = iter_first u w l i (omega arith) in ground arith
  | no h ↦
      let f = iter_rest u w l i (u + i - (w + 1)) (omega arith) o.1 in
      omega (arith, iter_lower (w + 1) (u + i - (w + 1)) l v o.2 (sym f ∙ e))
]

index_loop-iter :
    (offset lo i : ℕ) (l : List Interval) (v : ℕ)
    → IsOrdered lo l
    → get_elem? (iter l) i ≡ some v
    → index_loop v (offsets_from offset l).0 l ≡ ok (offset + i)
unfolding index_loop offsets_from
index_loop-iter offset lo i [] v o e = absurd (unfold iter in cc e)
index_loop-iter offset lo i ((u, w) ∷ l) v o e = elim (dec_lt i (w + 1 - u)) [
  | yes h ↦ let f = iter_first u w l i (omega arith) in ground arith
  | no h ↦
      let j : ℕ = u + i - (w + 1) in
      let f = sym (iter_rest u w l i j (omega arith) o.1) ∙ e in
      ground (
        arith,
        iter_lower (w + 1) j l v o.2 f,
        index_loop-iter (offset + w + 1 - u) (w + 1) j l v o.2 f,
      )
]

index_loop_found :
    (offset lo : ℕ) (l : List Interval) (v k : ℕ)
    → IsOrdered lo l
    → index_loop v (offsets_from offset l).0 l ≡ ok k
    → (offset ≤ k) × (get_elem? (iter l) (k - offset) ≡ some v)
unfolding index_loop offsets_from
index_loop_found offset lo [] v k o e = cc e
index_loop_found offset lo ((u, w) ∷ l) v k o e = elim (dec_lt w v) [
  | yes h ↦
      let (a, f) = index_loop_found (offset + w + 1 - u) (w + 1) l v k o.2 (ground arith) in
      (omega arith, iter_rest u w l (k - offset) (k - (offset + w + 1 - u)) (omega arith) o.1 ∙ f)
  | no h ↦ elim (dec_lt v u) [
    | yes a ↦ absurd (ground arith)
    | no a ↦ ground (arith, iter_first u w l (v - u) (omega arith))
  ]
]

-- `index` raises a ValueError for what the set does not contain, and only for that.
pub index_loop_absent :
    (offset lo : ℕ) (l : List Interval) (v : ℕ)
    → IsOrdered lo l
    → (index_loop v (offsets_from offset l).0 l ≡ raise value_error) ↔ (covers l v ≡ false)
unfolding index_loop offsets_from covers within
index_loop_absent offset lo [] v o = (λ _. refl, λ _. refl)
index_loop_absent offset lo ((u, w) ∷ l) v o =
    let r = index_loop_absent (offset + w + 1 - u) (w + 1) l v o.2 in
    let b = covers_below (w + 1) v l o.2 in (λ e. ground (arith, r.0), λ e. ground (arith, r.1))

index_loop_covered :
    (offset lo : ℕ) (l : List Interval) (v : ℕ)
    → IsOrdered lo l
    → covers l v ≡ true
    → (j : ℕ) × (index_loop v (offsets_from offset l).0 l ≡ ok j)
unfolding index_loop offsets_from covers within
index_loop_covered offset lo [] v o h = cc
index_loop_covered offset lo ((u, w) ∷ l) v o h = elim (dec_lt w v) [
  | yes a ↦
      let (j, e) = index_loop_covered (offset + w + 1 - u) (w + 1) l v o.2 (ground arith) in
      (j, ground arith)
  | no a ↦ elim (dec_lt v u) [
    | yes b ↦ let z = covers_below (w + 1) v l o.2 in absurd (ground arith)
    | no b ↦ elim (dec_lt u v) [
      | yes g ↦ (offset + (v - u), ground arith)
      | no g ↦ (offset, ground arith)
    ]
  ]
]

module _ (l : List Interval) (o : IsOrdered 0 l) where
  -- In a valid set, the position that `index` returns holds the value, and `index` finds the position of what
  -- `__getitem__` returns: on the positions of the set the two are inverse to each other.
  pub get_item-index_iff :
      (v i : ℕ) → (index (make l) v ≡ ok i) ↔ (get_item (make l) (pos i) ≡ ok v)
  unfolding index make
  get_item-index_iff v i = (
    λ e.
        let f : i - 0 ≡ i = omega arith in
        get_item-iter l o i ∙ rw (rw f at ((index_loop_found 0 0 l v i o e).1)) refl,
    λ e. ground (arith, get_item-iter l o i, index_loop-iter 0 0 i l v o),
  )

  -- In a valid set, `index` raises a ValueError exactly for what the set does not contain.
  pub index-contains_iff : (v : ℕ) → (index (make l) v ≡ raise value_error) ↔ (covers l v ≡ false)
  unfolding index make
  index-contains_iff v = index_loop_absent 0 0 l v o

  -- What a valid set contains has a position.
  pub index_covered : (v : ℕ) → covers l v ≡ true → (j : ℕ) × (index (make l) v ≡ ok j)
  unfolding index make
  index_covered v h = index_loop_covered 0 0 l v o h

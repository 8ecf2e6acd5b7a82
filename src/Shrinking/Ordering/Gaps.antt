-- ===== src/Shrinking/Ordering/Gaps.antt =====
-- `sort_regions_with_gaps` of the shrinker of orders: what it keeps, and that it ends.
use hypothesis.Common.{
  ℕ, zero, suc, ◌+◌, ◌-◌, ◌≤◌, ◌<◌, ◌≡◌, inl, inr, refl, ap, Bool, true, some, List, arith, ltb,
  Bool-cases, length, drop, lt→ltb,
}
use hypothesis.Search.Keeping.{find_integer_kept}
use hypothesis.Shrinking.{Simplicity, Shrinker}
use hypothesis.Shrinking.Integer.{left_by}
use hypothesis.Shrinking.Ordering.{
  in_order, can_sort, try_right, try_left, after_right, sort_gap, sort_gaps,
}
use hypothesis.Shrinking.Ordering.Permutes.{gap-Permᴰ}
use hypothesis.Shrinking.Ordering.Keeping.{
  IsKept, attempt-IsKept, IsKept-length, IsKept-refl, IsKept-trans,
}

module _ {ℓ κ} {A : Type ℓ} {K : Type κ} (elements : Simplicity A) (keys : Simplicity K)
    (key : A → K) (predicate : List A → Bool) where
  can_sort-IsKept :
      (i a b : ℕ) (s0 s : Shrinker (List A))
      → a ≤ i
      → i < b
      → IsKept elements keys key predicate s0 s
      → IsKept elements keys key predicate s0 (can_sort elements keys key predicate i a b s).1
  unfolding can_sort
  can_sort-IsKept i a b s0 s l m h = elim (Bool-cases (ltb (length s.current) b)) [
    | inl e ↦ rw e h
    | inr e ↦ rw e (
        attempt-IsKept elements keys key predicate _ s0 s h
          (gap-Permᴰ elements.better i a b s.current l m))
  ]

  try_left-IsKept :
      (i right k : ℕ) (s0 s : Shrinker (List A))
      → i < right
      → IsKept elements keys key predicate s0 s
      → IsKept elements keys key predicate s0 (try_left elements keys key predicate i right k s).1
  unfolding try_left
  try_left-IsKept i right k s0 s m h = elim (Bool-cases (ltb i k)) [
    | inl e ↦ rw e h
    | inr e ↦ rw e (can_sort-IsKept i (i - k) right s0 s (omega arith) m h)
  ]

  sort_gap-IsKept :
      (i : ℕ) (s : Shrinker (List A))
      → predicate s.current ≡ true
      → (s' : Shrinker (List A)) × (sort_gap elements keys key predicate i s ≡ some s')
        × IsKept elements keys key predicate s s'
  unfolding sort_gap after_right try_right left_by try_left can_sort
  sort_gap-IsKept i s h = elim (Bool-cases (in_order elements.better (drop (i - 1) s.current))) [
    | inl e ↦ (s, rw e refl, IsKept-refl elements keys key predicate s h)
    | inr e ↦
        let (r, s1, e1, h1) =
          find_integer_kept (try_right elements keys key predicate i)
            (IsKept elements keys key predicate s) (length s.current + 1)
            (λ k t q. can_sort-IsKept i i (i + 1 + k) s t (omega arith) (omega arith) q)
            (λ k t q b.
              let n = IsKept-length elements keys key predicate s t q in
              rw (lt→ltb (length t.current) (i + 1 + k) (omega arith)) refl)
            (length s.current + 2) s (IsKept-refl elements keys key predicate s h) (omega arith) in
        let (l, s2, e2, h2) =
          find_integer_kept (try_left elements keys key predicate i (i + 1 + r))
            (IsKept elements keys key predicate s) (i + 1)
            (λ k t q. try_left-IsKept i (i + 1 + r) k s t (omega arith) q)
            (λ k t q b. rw (lt→ltb i k (omega arith)) refl) (i + 2) s1 h1 (omega arith) in
        (s2, rw (e, e1) (ap left_by e2), h2)
  ]

  pub sort_gaps-IsKept :
      (rounds i : ℕ) (s : Shrinker (List A))
      → predicate s.current ≡ true
      → (s' : Shrinker (List A)) × (sort_gaps elements keys key predicate rounds i s ≡ some s')
        × IsKept elements keys key predicate s s'
  unfolding sort_gaps
  sort_gaps-IsKept zero i s h = (s, refl, IsKept-refl elements keys key predicate s h)
  sort_gaps-IsKept (suc rounds) i s h =
      let (s1, e1, h1) = sort_gap-IsKept i s h in
      let (s2, e2, h2) = sort_gaps-IsKept rounds (i + 1) s1 h1.satisfied in
      (s2, rw (e1, sort_gaps) e2, IsKept-trans elements keys key predicate s s1 s2 h1 h2)

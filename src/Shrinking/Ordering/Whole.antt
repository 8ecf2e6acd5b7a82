-- ===== src/Shrinking/Ordering/Whole.antt =====
-- What the shrinker of orders returns.
use hypothesis.Common.{
  if_false, ◌+◌, ◌-◌, ◌≡◌, refl, ◌∙◌, Bool, true, false, some, List, arith, length,
}
use hypothesis.Shrinking.{Simplicity, Shrinker, start, run, after_short_circuit}
use hypothesis.Shrinking.Ordering.{
  sorted, sequences, by_key, attempt, short_circuit, sort_regions, sort_regions_with_gaps, run_step,
  shrink,
}
use hypothesis.Shrinking.Ordering.Permutes.{sorted-Permᴰ}
use mathlib.Core.List.{Permᴰ}
use hypothesis.Shrinking.Ordering.Keeping.{
  consider_full, IsKept, attempt-IsKept, IsKept-refl, IsKept-trans,
}
use hypothesis.Shrinking.Ordering.Regions.{sort_regions_from-IsKept}
use hypothesis.Shrinking.Ordering.Gaps.{sort_gaps-IsKept}

module _ {ℓ κ} {A : Type ℓ} {K : Type κ} (elements : Simplicity A) (keys : Simplicity K)
    (key : A → K) (predicate : List A → Bool) where
  run_step-IsKept :
      (s : Shrinker (List A))
      → predicate s.current ≡ true
      → (s' : Shrinker (List A)) × (run_step elements keys key predicate s ≡ some s')
        × IsKept elements keys key predicate s s'
  unfolding run_step sort_regions sort_regions_with_gaps
  run_step-IsKept s h =
      let (s1, e1, h1) =
        sort_regions_from-IsKept elements keys key predicate (length s.current + 1) 0 s
          (omega arith) (omega arith) h in
      let (s2, e2, h2) =
        sort_gaps-IsKept elements keys key predicate (length s1.current - 2) 1 s1 h1.satisfied in
      (s2, rw (e1, run_step) e2, IsKept-trans elements keys key predicate s s1 s2 h1 h2)

  after_sorted-IsKept :
      (b : Bool) (s : Shrinker (List A))
      → s.full ≡ false
      → predicate s.current ≡ true
      → (s' : Shrinker (List A)) × (after_short_circuit
            (short_circuit elements keys key predicate)
            (run_step elements keys key predicate)
            1
            (some (b, s))
          ≡ some s')
        × IsKept elements keys key predicate s s'
  unfolding after_short_circuit
  after_sorted-IsKept true s f h = (s, refl, IsKept-refl elements keys key predicate s h)
  after_sorted-IsKept false s f h =
      let (s', e, k) = run_step-IsKept s h in (s', if_false _ _ f ∙ e, k)

  -- On a sequence that satisfies the predicate, the loops of the shrinker of orders end, and what is left
  -- satisfies the predicate and is a permutation of the sequence.
  ordering_lem :
      (initial : List A)
      → predicate initial ≡ true
      → (s : Shrinker (List A)) × (shrink elements keys key predicate initial ≡ some s)
        × (predicate s.current ≡ true)
        × Permᴰ s.current initial
  unfolding shrink run short_circuit start
  ordering_lem initial h =
      let v = sorted (by_key elements keys key) initial in
      let s0 = start (sequences elements keys key) initial false in
      let s1 = (attempt elements keys key predicate v s0).1 in
      let h1 : IsKept elements keys key predicate s0 s1 =
        attempt-IsKept elements keys key predicate v s0 s0
          (IsKept-refl elements keys key predicate s0 h)
          (sorted-Permᴰ (by_key elements keys key) initial) in
      let (s2, e2, h2) =
        after_sorted-IsKept (attempt elements keys key predicate v s0).0 s1
          (consider_full elements keys key predicate v s0) h1.satisfied in
      (s2, e2, h2.satisfied, Permᴰ.trans h2.permuted h1.permuted)

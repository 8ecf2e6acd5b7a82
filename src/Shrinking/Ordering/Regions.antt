-- ===== src/Shrinking/Ordering/Regions.antt =====
-- `sort_regions` of the shrinker of orders: what it keeps, and that it ends.
use hypothesis.Common.{
  ℕ, zero, suc, ◌+◌, ◌≤◌, ◌<◌, ◌≡◌, inl, inr, refl, sym, ap, ◌∙◌, Bool, true, some, List, ◌++◌,
  arith, ltb, leb, Bool-cases, length, take, drop, le→leb, take-append-drop, ltb→lt, lt→leb_false,
}
use hypothesis.Search.{find_integer}
use hypothesis.Search.Keeping.{find_integer_kept, find_integer_positive}
use hypothesis.Shrinking.{Simplicity, Shrinker}
use hypothesis.Shrinking.Ordering.{sorted, by_key, try_region, sort_regions_from}
use hypothesis.Shrinking.Ordering.Permutes.{
  Permᴰ_eq, region-Permᴰ, rejoin, take-append_take, sorted_one,
}
use mathlib.Core.List.Permᴰ
use hypothesis.Shrinking.Ordering.Keeping.{
  consider_cases, IsKept, attempt-IsKept, IsKept-length, IsKept-refl, IsKept-trans, attempt_current,
}

module _ {ℓ κ} {A : Type ℓ} {K : Type κ} (elements : Simplicity A) (keys : Simplicity K)
    (key : A → K) (predicate : List A → Bool) where
  -- In a region, the elements before `i` stay.
  InRegion : ℕ → Shrinker (List A) → Shrinker (List A) → Type ℓ
  InRegion i s0 s = IsKept elements keys key predicate s0 s × (take i s.current ≡ take i s0.current)

  try_region-InRegion :
      (i k : ℕ) (s0 s : Shrinker (List A))
      → i ≤ length s0.current
      → InRegion i s0 s
      → InRegion i s0 (try_region elements keys key predicate i (take i s0.current) k s).1
  unfolding try_region InRegion
  try_region-InRegion i k s0 s b h = elim (Bool-cases (leb (i + k) (length s.current))) [
    | inl e ↦
        let rest =
          sorted (by_key elements keys key) (take k (drop i s.current)) ++ drop (i + k) s.current in
        let v = take i s0.current ++ rest in
        let same : v ≡ take i s.current ++ rest = ap (λ p. p ++ rest) (sym h.1) in
        rw e (
          attempt-IsKept elements keys key predicate v s0 s h.0
              (Permᴰ.trans (Permᴰ_eq same) (region-Permᴰ (by_key elements keys key) i k s.current)),
          elim (consider_cases elements keys key predicate v s) [
            | inl q ↦ ap (take i) q ∙ h.1
            | inr (q, _) ↦ ap (take i) q ∙ take-append_take i s0.current rest b
          ],
        )
    | inr e ↦ rw e h
  ]

  try_region_one :
      (i : ℕ) (s : Shrinker (List A))
      → i + 1 ≤ length s.current
      → (try_region elements keys key predicate i (take i s.current) 1 s).0 ≡ true
  unfolding try_region
  try_region_one i s h = rw (le→leb _ _ h) (
      attempt_current elements keys key predicate _ s (
        ap (λ r. take i s.current ++ (r ++ drop (i + 1) s.current))
          (sorted_one (by_key elements keys key) (drop i s.current))
        ∙ ap (λ r. take i s.current ++ r) (rejoin 1 i (i + 1) s.current refl)
        ∙ take-append-drop i s.current))

  sort_regions_step :
      (fuel i : ℕ) (s : Shrinker (List A)) (k : ℕ) (s1 s2 : Shrinker (List A))
      → ltb (i + 1) (length s.current) ≡ true
      → find_integer
          (try_region elements keys key predicate i (take i s.current))
          (length s.current + 2)
          s
        ≡ (some k, s1)
      → sort_regions_from elements keys key predicate fuel (i + k) s1 ≡ some s2
      → sort_regions_from elements keys key predicate (suc fuel) i s ≡ some s2
  unfolding sort_regions_from
  sort_regions_step fuel i s k s1 s2 more e e2 =
      rw (more, ap (λ r. r.0) e, ap (λ r. r.1) e, sort_regions_from) e2

  pub sort_regions_from-IsKept :
      (fuel i : ℕ) (s : Shrinker (List A))
      → 0 < fuel
      → length s.current < fuel + i
      → predicate s.current ≡ true
      → (s' : Shrinker (List A)) × (sort_regions_from elements keys key predicate fuel i s
          ≡ some s')
        × IsKept elements keys key predicate s s'
  unfolding sort_regions_from InRegion try_region
  sort_regions_from-IsKept zero i s p l h = absurd (omega arith)
  sort_regions_from-IsKept (suc fuel) i s p l h =
      elim (Bool-cases (ltb (i + 1) (length s.current))) [
        | inl more ↦
            let lt = ltb→lt _ _ more in
            let f = try_region elements keys key predicate i (take i s.current) in
            let (k, s1, e, (h1, _)) =
              find_integer_kept f (InRegion i s) (length s.current + 1)
                (λ k t r. try_region-InRegion i k s t (omega arith) r)
                (λ k t r b.
                  let n = IsKept-length elements keys key predicate s t r.0 in
                  rw (lt→leb_false (i + k) (length t.current) (omega arith)))
                (length s.current + 2) s (IsKept-refl elements keys key predicate s h, refl)
                (omega arith) in
            let pos =
              find_integer_positive f (length s.current + 2) s (try_region_one i s (omega arith))
                e in
            let n = IsKept-length elements keys key predicate s s1 h1 in
            let (s2, e2, h2) =
              sort_regions_from-IsKept fuel (i + k) s1 (omega arith) (omega arith) h1.satisfied in
            (
              s2,
              sort_regions_step fuel i s k s1 s2 more e e2,
              IsKept-trans elements keys key predicate s s1 s2 h1 h2,
            )
        | inr done ↦ (s, rw (done, sort_regions_from), IsKept-refl elements keys key predicate s h)
      ]

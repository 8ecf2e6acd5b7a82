-- ===== src/Search/Keeping.antt =====
-- Searches by a predicate that keeps a property of the states it comes to, and refuses every number
-- from a bound on.
use hypothesis.Common.{
  ℕ, zero, suc, ◌+◌, ◌*◌, ◌/◌, ◌≤◌, ◌<◌, ◌≡◌, refl, inl, inr, true, false, Option, none, some,
  arith, ltb, Bool-cases, ltb→lt, subst, sym, ◌∙◌,
}
use hypothesis.Search.{
  Probe, linear_scan, exponential_probe, bisect, after_probe, after_scan, find_integer,
}
use hypothesis.Search.Bracket.{IsProbing, find_integer_total}

module _ {ℓ κ} {S : Type ℓ} (f : Probe S) (P : S → Type κ) (bound : ℕ)
    (keep : (k : ℕ) (s : S) → P s → P (f k s).1)
    (refuse : (k : ℕ) (s : S) → P s → bound ≤ k → (f k s).0 ≡ false) where
  probing : IsProbing f (λ _. P) (λ _. P)
  probing = record {
    hit = λ _ k s h _. keep k s h;
    miss = λ _ k s h _. keep k s h;
    keep_hit = λ _ k s h _. keep k s h;
    keep_miss = λ _ k s h. keep k s h;
  }

  pub find_integer_kept :
      (fuel : ℕ) (s : S)
      → P s
      → bound < fuel
      → (n : ℕ) × (s' : S) × (find_integer f fuel s ≡ (some n, s')) × P s'
  find_integer_kept fuel s h b =
      let (n, s', e, t, _) =
        find_integer_total f (λ _. P) (λ _. P) probing bound (λ _ k s h. refuse k s h) fuel s h b in
      (n, s', e, t)

module _ {ℓ} {S : Type ℓ} (f : Probe S) where
  abbrev AtLeast : ℕ → Option ℕ × S → Type 0
  AtLeast m (none, s) = Unit
  AtLeast m (some n, s) = m ≤ n

  bisect_ge : (fuel lo hi : ℕ) (s : S) → lo ≤ (bisect f fuel lo hi s).0
  unfolding bisect
  bisect_ge zero lo hi s = omega arith
  bisect_ge (suc fuel) lo hi s = elim (Bool-cases (ltb (lo + 1) hi)) [
    | inl more ↦
        let mid : ℕ = (lo + hi) / 2 in
        let lt = ltb→lt _ _ more in
        elim (Bool-cases (f mid s).0) [
          | inl a ↦
              let h = bisect_ge fuel mid hi (f mid s).1 in
              let h' : lo ≤ (bisect f fuel mid hi (f mid s).1).0 = omega arith in
              rw (more, a, bisect) h'
          | inr a ↦ rw (more, a, bisect) (bisect_ge fuel lo mid (f mid s).1)
        ]
    | inr done ↦ rw (done, bisect) (omega arith)
  ]

  probed_ge :
      (fuel lo hi : ℕ) (s : S)
      → 1 ≤ lo
      → lo ≤ hi
      → AtLeast 1 (after_probe f (exponential_probe f fuel lo hi s))
  unfolding after_probe exponential_probe
  probed_ge zero lo hi s p h = tt
  probed_ge (suc fuel) lo hi s p h = elim (Bool-cases (f hi s).0) [
    | inl a ↦
        rw (a, exponential_probe)
          (probed_ge fuel hi (hi * 2) (f hi s).1 (omega arith) (omega arith))
    | inr a ↦ let b = bisect_ge hi lo hi (f hi s).1 in rw (a, exponential_probe) (omega arith)
  ]

  scanned_ge :
      (fuel rounds i : ℕ) (s : S) → 2 ≤ i → AtLeast 1 (after_scan f fuel (linear_scan f rounds i s))
  unfolding after_scan linear_scan
  scanned_ge fuel zero i s h = probed_ge fuel 4 5 s (omega arith) (omega arith)
  scanned_ge fuel (suc rounds) i s h = elim (Bool-cases (f i s).0) [
    | inl a ↦ rw (a, linear_scan) (scanned_ge fuel rounds (i + 1) (f i s).1 (omega arith))
    | inr a ↦ rw (a, linear_scan) (omega arith)
  ]

  -- If 1 is accepted at first, then the answer is positive.
  pub find_integer_positive :
      (fuel : ℕ) (s : S) {n : ℕ} {s' : S}
      → (f 1 s).0 ≡ true
      → find_integer f fuel s ≡ (some n, s')
      → 1 ≤ n
  unfolding find_integer linear_scan
  find_integer_positive fuel s a e =
      let h = scanned_ge fuel 3 2 (f 1 s).1 (omega arith) in
      let first : find_integer f fuel s ≡ after_scan f fuel (linear_scan f 3 2 (f 1 s).1) =
        rw (a, linear_scan) refl in
      subst (AtLeast 1) (sym first ∙ e) h

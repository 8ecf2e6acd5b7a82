-- ===== src/Search/Bracket.antt =====
-- What `find_integer` returns, for predicates that change the state they share with the caller, and
-- the fuel after which it returns.
use hypothesis.Common.{
  ℕ, zero, suc, ◌+◌, ◌-◌, ◌*◌, ◌/◌, ◌≤◌, ◌<◌, ◌≡◌, refl, inl, inr, true, false, Option, none, some,
  arith, ltb, dec_lt, subst, Bool-cases, ltb→lt,
}
use hypothesis.Search.{
  Probe, linear_scan, exponential_probe, bisect, after_probe, after_scan, find_integer,
}

-- `T k s`: the predicate has accepted `k` by the state `s`. `F k s`: it has refused `k`.
pub record IsProbing {ℓ κ} {S : Type ℓ} (f : Probe S) (T F : ℕ → S → Type κ) : Type (ℓ ⊔ κ) where
  pub hit : (j k : ℕ) (s : S) → T j s → (f k s).0 ≡ true → T k (f k s).1
  pub miss : (j k : ℕ) (s : S) → T j s → (f k s).0 ≡ false → F k (f k s).1
  pub keep_hit : (j k : ℕ) (s : S) → T j s → (f k s).0 ≡ false → T j (f k s).1
  pub keep_miss : (j k : ℕ) (s : S) → F j s → F j (f k s).1

-- The answer stands between an accepted number and the next one, which was refused.
abbrev pub Brackets {ℓ κ} : {S : Type ℓ} → (ℕ → S → Type κ) → (ℕ → S → Type κ) → ℕ × S → Type κ
Brackets T F r = T r.0 r.1 × F (r.0 + 1) r.1

module _ {ℓ κ} {S : Type ℓ} (f : Probe S) (T F : ℕ → S → Type κ) (p : IsProbing f T F) where
  -- after the linear scan: an answer, or the last number was accepted
  abbrev Scanned : ℕ → Option ℕ × S → Type κ
  Scanned n (none, s) = T n s
  Scanned n (some k, s) = Brackets T F (k, s)

  abbrev Probed : Option (ℕ × ℕ) × S → Type κ
  Probed (none, s) = (k : ℕ) × T k s
  Probed (some (lo, hi), s) = (lo < hi) × T lo s × F hi s

  bisect-Brackets :
      (fuel lo hi : ℕ) (s : S)
      → lo < hi
      → hi ≤ lo + fuel
      → T lo s
      → F hi s
      → Brackets T F (bisect f fuel lo hi s)
  unfolding bisect
  bisect-Brackets zero lo hi s h e t u = absurd (omega arith)
  bisect-Brackets (suc fuel) lo hi s h e t u = elim (Bool-cases (ltb (lo + 1) hi)) [
    | inl more ↦
        let mid : ℕ = (lo + hi) / 2 in
        let lt : lo + 1 < hi = ltb→lt _ _ more in
        elim (Bool-cases (f mid s).0) [
          | inl a ↦
              rw (more, a, bisect, Brackets)
                (bisect-Brackets fuel mid hi (f mid s).1 (omega arith) (omega arith)
                  (p.hit lo mid s t a) (p.keep_miss hi mid s u))
          | inr a ↦
              rw (more, a, bisect, Brackets)
                (bisect-Brackets fuel lo mid (f mid s).1 (omega arith) (omega arith)
                  (p.keep_hit lo mid s t a) (p.miss lo mid s t a))
        ]
    | inr done ↦ let e' : hi ≡ lo + 1 = ground arith in rw (done, bisect, Brackets) (t, rw (← e') u)
  ]

  linear_scan-Scanned :
      (rounds i j : ℕ) (s : S) → i + rounds ≡ j → T i s → Scanned j (linear_scan f rounds (i + 1) s)
  unfolding linear_scan
  linear_scan-Scanned zero i j s e t = let e' : i ≡ j = omega arith in rw (← e') t
  linear_scan-Scanned (suc rounds) i j s e t = elim (Bool-cases (f (i + 1) s).0) [
    | inl a ↦
        rw (a, linear_scan, Scanned)
          (linear_scan-Scanned rounds (i + 1) j (f (i + 1) s).1 (omega arith)
            (p.hit i (i + 1) s t a))
    | inr a ↦
        let e' : i ≡ i + 1 - 1 = omega arith in
        rw (a, linear_scan, Scanned)
          (rw (← e') (p.keep_hit i (i + 1) s t a, p.miss i (i + 1) s t a))
  ]

  exponential_probe-Probed :
      (fuel lo hi : ℕ) (s : S) → lo < hi → T lo s → Probed (exponential_probe f fuel lo hi s)
  unfolding exponential_probe
  exponential_probe-Probed zero lo hi s h t = (lo, t)
  exponential_probe-Probed (suc fuel) lo hi s h t = elim (Bool-cases (f hi s).0) [
    | inl a ↦
        rw (a, exponential_probe, Probed)
          (exponential_probe-Probed fuel hi (hi * 2) (f hi s).1 (omega arith) (p.hit lo hi s t a))
    | inr a ↦ rw (a, exponential_probe, Probed) (h, p.keep_hit lo hi s t a, p.miss lo hi s t a)
  ]

  abbrev pub Answered : Option ℕ × S → Type κ
  Answered (none, s) = (k : ℕ) × T k s
  Answered (some n, s) = Brackets T F (n, s)

  after_probe-Answered : (r : Option (ℕ × ℕ) × S) → Probed r → Answered (after_probe f r)
  unfolding after_probe
  after_probe-Answered (none, s) h = h
  after_probe-Answered (some (lo, hi), s) h = bisect-Brackets hi lo hi s h.0 (omega arith) h.1 h.2

  after_scan-Answered : (fuel : ℕ) (r : Option ℕ × S) → Scanned 4 r → Answered (after_scan f fuel r)
  unfolding after_scan
  after_scan-Answered fuel (none, s) h =
      after_probe-Answered (exponential_probe f fuel 4 5 s)
        (exponential_probe-Probed fuel 4 5 s (omega arith) h)
  after_scan-Answered fuel (some n, s) h = h

  -- What is returned is accepted, and the next number is refused.
  pub find_integer-Answered : (fuel : ℕ) (s : S) → T 0 s → Answered (find_integer f fuel s)
  unfolding find_integer
  find_integer-Answered fuel s t =
      after_scan-Answered fuel (linear_scan f 4 1 s) (linear_scan-Scanned 4 0 4 s (omega arith) t)

-- A predicate that refuses every number from a bound on, in the states that it comes to.
module _ {ℓ κ} {S : Type ℓ} (f : Probe S) (T F : ℕ → S → Type κ) (p : IsProbing f T F) (bound : ℕ)
    (refuses : (j k : ℕ) (s : S) → T j s → bound ≤ k → (f k s).0 ≡ false) where
  -- an accepted number lies below the bound
  lt-bound : (j k : ℕ) (s : S) → T j s → (f k s).0 ≡ true → k < bound
  lt-bound j k s t a = elim (dec_lt k bound) [
    | yes h ↦ h
    | no h ↦ cc (refuses j k s t (omega arith))
  ]

  exponential_probe_total :
      (fuel lo hi : ℕ) (s : S)
      → 0 < hi
      → 0 < fuel
      → bound < hi + fuel
      → T lo s
      → (q : ℕ × ℕ) × (s' : S) × (exponential_probe f fuel lo hi s ≡ (some q, s'))
  unfolding exponential_probe
  exponential_probe_total zero lo hi s pos room h t = absurd (omega arith)
  exponential_probe_total (suc fuel) lo hi s pos room h t = elim (Bool-cases (f hi s).0) [
    | inl a ↦
        let below : hi < bound = lt-bound lo hi s t a in
        rw (a, exponential_probe)
          (exponential_probe_total fuel hi (hi * 2) (f hi s).1 (omega arith) (omega arith)
            (omega arith) (p.hit lo hi s t a))
    | inr a ↦ ((lo, hi), (f hi s).1, rw (a, exponential_probe))
  ]

  after_scan_total :
      (fuel : ℕ) (r : Option ℕ × S)
      → bound < fuel
      → Scanned f T F p 4 r
      → (n : ℕ) × (s' : S) × (after_scan f fuel r ≡ (some n, s'))
  unfolding after_scan after_probe
  after_scan_total fuel (none, s) h t =
      let ((lo, hi), s', e) =
        exponential_probe_total fuel 4 5 s (omega arith) (omega arith) (omega arith) t in
      ((bisect f hi lo hi s').0, (bisect f hi lo hi s').1, rw e)
  after_scan_total fuel (some n, s) h t = (n, s, refl)

  -- Where the predicate refuses every number from a bound on, `find_integer` returns: with more fuel
  -- than the bound there is an answer `n`, which was accepted, and `n + 1` was refused. `T` and `F` say
  -- what is known in a state of the numbers that were accepted last and refused.
  pub find_integer_total :
      (fuel : ℕ) (s : S)
      → T 0 s
      → bound < fuel
      → (n : ℕ) × (s' : S) × (find_integer f fuel s ≡ (some n, s')) × T n s' × F (n + 1) s'
  unfolding find_integer
  find_integer_total fuel s t h =
      let scanned = linear_scan-Scanned f T F p 4 0 4 s (omega arith) t in
      let (n, s', e) = after_scan_total fuel (linear_scan f 4 1 s) h scanned in
      let b = subst (Answered f T F p) e (find_integer-Answered f T F p fuel s t) in
      (n, s', e, b.0, b.1)

-- What every call keeps, `find_integer` keeps.
module _ {ℓ κ} {S : Type ℓ} (f : Probe S) (P : S → Type κ)
    (keep : (k : ℕ) (s : S) → P s → P (f k s).1) where
  keeps_probing : IsProbing f (λ _ s. P s) (λ _ s. P s)
  keeps_probing = record {
    hit = λ _ k s h _. keep k s h;
    miss = λ _ k s h _. keep k s h;
    keep_hit = λ _ k s h _. keep k s h;
    keep_miss = λ _ k s h. keep k s h;
  }

  from_Answered : (r : Option ℕ × S) → Answered f (λ _ s. P s) (λ _ s. P s) keeps_probing r → P r.1
  from_Answered (none, s) h = h.1
  from_Answered (some n, s) h = h.0

  pub find_integer_keeps : (fuel : ℕ) (s : S) → P s → P (find_integer f fuel s).1
  find_integer_keeps fuel s h =
      from_Answered (find_integer f fuel s)
        (find_integer-Answered f (λ _ s. P s) (λ _ s. P s) keeps_probing fuel s h)

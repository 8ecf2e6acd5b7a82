-- ===== src/Shrinking/Integer/Minimal.antt =====
-- What `shrink_by_multiples` ends at, and what the whole shrinker of integers does.
use hypothesis.Common.{
  ℕ, ◌+◌, ◌-◌, ◌*◌, ◌≤◌, ◌<◌, ◌≡◌, inl, inr, Bool, true, false, some, arith, leb, Bool-cases, sym,
  ◌∙◌, leb→le, leb_false→lt, lt→leb_false,
}
use mathlib.Core.Bool.{true≢false}
use native.Mathlib.Nat.{add-mul, le-mul_of_pos_right}
use hypothesis.Search.Bracket.{IsProbing, find_integer_total}
use hypothesis.Shrinking.{Shrinker, consider}
use hypothesis.Shrinking.Consider.{IsSound, consider-answer}
use hypothesis.Shrinking.Integer.{smaller, left_by, search, shrunk, shrink_by_multiples}
use hypothesis.Shrinking.Integer.Steps.{
  ltb_trans, ltb_irrefl, checked, IsStep, IsStep-refl, consider-IsStep,
}

module _ (predicate : ℕ → Bool) where
  pub consider_taken :
      (v : ℕ) (s : Shrinker ℕ)
      → (consider smaller predicate v s).0 ≡ true
      → (consider smaller predicate v s).1.current ≡ v
  unfolding consider
  consider_taken v s h = ground arith

  consider_refused :
      (v : ℕ) (s : Shrinker ℕ)
      → (consider smaller predicate v s).0 ≡ false
      → (consider smaller predicate v s).1.current ≡ s.current
  unfolding consider
  consider_refused v s h = ground arith

  consider_le : (v : ℕ) (s : Shrinker ℕ) → (consider smaller predicate v s).1.current ≤ s.current
  unfolding consider
  consider_le v s = ground arith

  consider-smaller :
      (v : ℕ) (s : Shrinker ℕ)
      → IsSound smaller predicate s
      → (consider smaller predicate v s).0 ≡ false
      → v < s.current
      → predicate v ≡ false
  consider-smaller v s h e l =
      let a = consider-answer smaller predicate ltb_trans ltb_irrefl checked v s h in
      elim (Bool-cases (predicate v)) [ inl p ↦ ground arith | inr p ↦ p ]

  module _ (m : ℕ) (positive : 0 < m) (s : Shrinker ℕ) (sound : IsSound smaller predicate s) where
    Taken : ℕ → Shrinker ℕ → Type 0
    Taken n t = IsStep predicate s t × (n * m ≤ s.current) × (t.current ≡ s.current - n * m)

    Refused : ℕ → Shrinker ℕ → Type 0
    Refused k t =
        k * m ≤ s.current → s.current - k * m < t.current → predicate (s.current - k * m) ≡ false

    shrunk-IsProbing : IsProbing (shrunk predicate s.current m) Taken Refused
    unfolding Taken Refused shrunk
    shrunk-IsProbing = record {
      hit = λ j k t h e. elim (Bool-cases (leb (k * m) s.current)) [
        | inl b ↦ rw b (
          consider-IsStep predicate (s.current - k * m) s t h.0,
          leb→le _ _ b,
          consider_taken (s.current - k * m) t (rw b at e),
        )
        | inr b ↦ absurd (true≢false (sym (rw b at e)))
      ];
      miss = λ j k t h e. elim (Bool-cases (leb (k * m) s.current)) [
        | inl b ↦ λ l less.
            let e' = rw b at e in
            consider-smaller (s.current - k * m) t h.0.sound e' (
              let q = consider_refused (s.current - k * m) t e' in
              let less' = rw b at less in omega arith)
        | inr b ↦ λ l less. absurd (let b' = leb_false→lt _ _ b in omega arith)
      ];
      keep_hit = λ j k t h e. elim (Bool-cases (leb (k * m) s.current)) [
        | inl b ↦ rw b (
          consider-IsStep predicate (s.current - k * m) s t h.0,
          h.1,
          consider_refused (s.current - k * m) t (rw b at e) ∙ h.2,
        )
        | inr b ↦ rw b h
      ];
      keep_miss = λ j k t h. elim (Bool-cases (leb (k * m) s.current)) [
        | inl b ↦ λ l less.
            h l
              (let less' = rw b at less in let q = consider_le (s.current - k * m) t in omega arith)
        | inr b ↦ rw b h
      ];
    }

    shrunk_refuses :
        (j k : ℕ) (t : Shrinker ℕ)
        → Taken j t
        → s.current + 1 ≤ k
        → (shrunk predicate s.current m k t).0 ≡ false
    unfolding shrunk
    shrunk_refuses j k t h b =
        let big = le-mul_of_pos_right k positive in
        rw (lt→leb_false (k * m) s.current (omega arith))

    -- Where it returns, a further step of `m` is refused.
    pub shrink_by_multiples-IsStep :
        (s' : Shrinker ℕ) × (shrink_by_multiples predicate m s ≡ some s')
        × IsStep predicate s s'
        × (m ≤ s'.current → predicate (s'.current - m) ≡ false)
    unfolding shrink_by_multiples search left_by Taken Refused
    shrink_by_multiples-IsStep =
        let (n, s', e, t, r) =
          find_integer_total (shrunk predicate s.current m) Taken Refused shrunk-IsProbing
            (s.current + 1) shrunk_refuses (s.current + 2) s
            (IsStep-refl predicate s sound, omega arith, omega arith) (omega arith) in
        let split : (n + 1) * m ≡ n * m + m = rw (add-mul n 1 m) (omega arith) in
        (
          s',
          rw e,
          t.0,
          λ l.
              let c = t.2 in
              let q : s'.current - m ≡ s.current - (n + 1) * m = omega arith in
              rw q (r (omega arith) (omega arith)),
        )

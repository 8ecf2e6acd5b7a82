-- ===== src/Shrinking/Integer/Whole.antt =====
-- What `Integer.shrink` returns.
use hypothesis.Common.{
  leb, leb→le, leb_false→lt, ◌⊎◌, if_true, if_false, ℕ, zero, suc, ◌+◌, ◌-◌, ◌/◌, ◌^◌, ◌≤◌, ◌<◌,
  ◌≡◌, inl, inr, refl, Bool, true, false, some, arith, ltb, ◌==◌, Bool-cases, ◌∙◌,
}
use hypothesis.Shrinking.{Shrinker, start, consider, run, repeat_steps, after_short_circuit}
use hypothesis.Shrinking.Consider.{IsSound, consider-answer, start-IsSound}
use hypothesis.Shrinking.Integer.{
  smaller, size, squeeze, after_mask, short_circuit, then_step, run_step, current_of, shrink,
}
use hypothesis.Shrinking.Integer.Steps.{
  ltb_trans, ltb_irrefl, checked, IsStep, IsStep-refl, IsStep-trans, consider-IsStep,
  shift_right-IsStep, mask_high_bits-IsStep,
}
use hypothesis.Shrinking.Integer.Minimal.{consider_taken, shrink_by_multiples-IsStep}

module _ (predicate : ℕ → Bool) where
  -- The value less `k` does not satisfy the predicate.
  pub IsRefused : ℕ → Shrinker ℕ → Type 0
  IsRefused k s = k ≤ s.current → predicate (s.current - k) ≡ false

  -- All smaller values that are 0 or 1 were refused.
  record IsTried (s : Shrinker ℕ) : Type 0 where
    pub zero_tried : predicate 0 ≡ true → s.current ≡ 0
    pub one_tried : predicate 1 ≡ true → s.current ≤ 1

  run_step-IsStep :
      (s : Shrinker ℕ)
      → IsSound smaller predicate s
      → (s' : Shrinker ℕ) × (run_step predicate s ≡ some s')
        × IsStep predicate s s'
        × IsRefused 1 s'
        × (s'.changes ≡ s.changes → IsRefused 2 s')
  unfolding run_step then_step IsRefused
  run_step-IsStep s h =
      let (s1, e1, h1) = shift_right-IsStep predicate s h in
      let (s2, e2, h2, r2) = shrink_by_multiples-IsStep predicate 2 (omega arith) s1 h1.sound in
      let (s3, e3, h3, r3) = shrink_by_multiples-IsStep predicate 1 (omega arith) s2 h2.sound in
      (
        s3,
        rw (e1, e2, e3),
        IsStep-trans predicate s s1 s3 h1 (IsStep-trans predicate s1 s2 s3 h2 h3),
        r3,
        λ e l.
            let c1 = h1.changed in
            let c2 = h2.changed in
            let c3 = h3.changed in
            let same : s3.current ≡ s2.current = ground arith in rw same (r2 (omega arith)),
      )

  repeat_steps-IsStep :
      (fuel : ℕ) (s : Shrinker ℕ)
      → s.current < fuel
      → IsSound smaller predicate s
      → (s' : Shrinker ℕ) × (repeat_steps (short_circuit predicate) (run_step predicate) fuel s
          ≡ some s')
        × IsStep predicate s s'
        × IsRefused 1 s'
        × IsRefused 2 s'
  unfolding repeat_steps
  repeat_steps-IsStep zero s l h = absurd (omega arith)
  repeat_steps-IsStep (suc fuel) s l h =
      let (s', e, h', r1, r2) = run_step-IsStep s h in
      elim (Bool-cases (s'.changes == s.changes)) [
        | inl q ↦ (s', rw (e, q, repeat_steps), h', r1, r2 (ground arith))
        | inr q ↦
            let c = h'.changed in
            let (s'', e'', h'', p1, p2) = repeat_steps-IsStep fuel s' (ground arith) h'.sound in
            (s'', rw (e, q, e'', repeat_steps), IsStep-trans predicate s s' s'' h' h'', p1, p2)
      ]

  squeeze-IsStep :
      (r s : Shrinker ℕ) → IsStep predicate r s → IsStep predicate r (squeeze predicate s)
  unfolding squeeze
  squeeze-IsStep r s h = elim (Bool-cases (ltb 8 (size s))) [
    | inl e ↦ rw e (
        consider-IsStep predicate _ r _
          (consider-IsStep predicate (s.current / 2 ^ (size s - 8)) r s h))
    | inr e ↦ rw e h
  ]

  zero_refused :
      (s : Shrinker ℕ)
      → IsSound smaller predicate s
      → (consider smaller predicate 0 s).0 ≡ false
      → predicate 0 ≡ false
  zero_refused s h e =
      let a = consider-answer smaller predicate ltb_trans ltb_irrefl checked 0 s h in ground arith

  one_refused :
      (s : Shrinker ℕ)
      → IsSound smaller predicate s
      → predicate 0 ≡ false
      → (consider smaller predicate 1 s).0 ≡ false
      → predicate 1 ≡ false
  one_refused s h z e =
      let a = consider-answer smaller predicate ltb_trans ltb_irrefl checked 1 s h in
      let p = h.satisfied in
      let n : 0 < s.current = elim (Bool-cases (ltb 0 s.current)) [
        | inl b ↦ ground arith
        | inr b ↦ let q : s.current ≡ 0 = ground arith in cc
      ] in
      ground arith

  short_circuit-IsStep :
      (s : Shrinker ℕ)
      → IsSound smaller predicate s
      → (b : Bool) × (s' : Shrinker ℕ) × (short_circuit predicate s ≡ some (b, s'))
        × IsStep predicate s s'
        × IsTried s'
        × (b ≡ true → IsRefused 1 s' × IsRefused 2 s')
  unfolding short_circuit after_mask IsRefused
  short_circuit-IsStep s h =
      let s0 = (consider smaller predicate 0 s).1 in
      let s1 = (consider smaller predicate 1 s0).1 in
      let h0 : IsStep predicate s s0 =
        consider-IsStep predicate 0 s s (IsStep-refl predicate s h) in
      let h1 : IsStep predicate s s1 = consider-IsStep predicate 1 s s0 h0 in
      elim (Bool-cases (consider smaller predicate 0 s).0) [
        | inl a ↦
            let c = consider_taken predicate 0 s a in
            (
              true,
              s0,
              rw a,
              h0,
              record { zero_tried = λ _. c; one_tried = λ _. omega arith },
              λ _. (λ l. absurd (omega arith), λ l. absurd (omega arith)),
            )
        | inr a ↦
            let z = zero_refused s h a in
            elim (Bool-cases (consider smaller predicate 1 s0).0) [
              | inl b ↦
                  let c = consider_taken predicate 1 s0 b in
                  (
                    true,
                    s1,
                    rw (a, b),
                    h1,
                    record { zero_tried = λ p. cc; one_tried = λ _. omega arith },
                    λ _. (λ l. rw c z, λ l. absurd (omega arith)),
                  )
              | inr b ↦
                  let o = one_refused s0 h0.sound z b in
                  let (s2, e2, h2) = mask_high_bits-IsStep predicate s1 h1.sound in
                  let s3 = squeeze predicate s2 in
                  (
                    s3.current == 2,
                    s3,
                    rw (a, b, e2),
                    squeeze-IsStep s s2 (IsStep-trans predicate s s1 s2 h1 h2),
                    record { zero_tried = λ p. cc; one_tried = λ p. cc },
                    λ q. let q' : s3.current ≡ 2 = ground arith in (λ l. rw q' o, λ l. rw q' z),
                  )
            ]
      ]

  after_short_circuit-IsStep :
      (fuel : ℕ) (b : Bool) (s : Shrinker ℕ)
      → s.current < fuel
      → IsSound smaller predicate s
      → (b ≡ true → IsRefused 1 s × IsRefused 2 s)
      → (s' : Shrinker ℕ) × (after_short_circuit
            (short_circuit predicate)
            (run_step predicate)
            fuel
            (some (b, s))
          ≡ some s')
        × IsStep predicate s s'
        × IsRefused 1 s'
        × (s.full ≡ true → IsRefused 2 s')
  unfolding after_short_circuit
  after_short_circuit-IsStep fuel true s l h r =
      (s, refl, IsStep-refl predicate s h, (r refl).0, λ _. (r refl).1)
  after_short_circuit-IsStep fuel false s l h r = elim (Bool-cases s.full) [
    | inl f ↦
        let (s', e, h', r1, r2) = repeat_steps-IsStep fuel s l h in
        (s', if_true _ _ f ∙ e, h', r1, λ _. r2)
    | inr f ↦
        let (s', e, h', r1, _) = run_step-IsStep s h in (s', if_false _ _ f ∙ e, h', r1, λ f'. cc)
  ]

  -- For a predicate that the initial value satisfies, the shrinker of integers returns a value: it
  -- satisfies the predicate and is no larger than the initial one; it is 0 if 0 satisfies the
  -- predicate, and at most 1 if 1 does; its predecessor, if any, does not satisfy it; and in full
  -- mode, neither does the number two below.
  pub shrink_lem :
      (initial : ℕ) (full : Bool)
      → predicate initial ≡ true
      → (r : ℕ) × (shrink predicate initial full ≡ some r)
        × (predicate r ≡ true)
        × (r ≤ initial)
        × ((r ≡ 0) ⊎ (predicate 0 ≡ false))
        × ((r ≤ 1) ⊎ (predicate 1 ≡ false))
        × ((r ≡ 0) ⊎ (predicate (r - 1) ≡ false))
        × ((full ≡ false) ⊎ ((r ≤ 1) ⊎ (predicate (r - 2) ≡ false)))
  unfolding shrink current_of run start IsRefused
  shrink_lem initial full p =
      let s = start smaller initial full in
      let (b, s1, e1, h1, t1, r1) =
        short_circuit-IsStep s
          (start-IsSound smaller predicate ltb_trans ltb_irrefl checked initial full p) in
      let low : s1.current ≤ initial = h1.no_larger in
      let (s2, e2, h2, p1, p2) =
        after_short_circuit-IsStep (initial + 1) b s1 (omega arith) h1.sound r1 in
      let lower : s2.current ≤ s1.current = h2.no_larger in
      (
        s2.current,
        rw (e1, e2),
        h2.sound.satisfied,
        omega arith,
        elim (Bool-cases (predicate 0)) [
          | inl z ↦ let z' = t1.zero_tried z in inl (omega arith)
          | inr z ↦ inr z
        ],
        elim (Bool-cases (predicate 1)) [
          | inl o ↦ let o' = t1.one_tried o in inl (omega arith)
          | inr o ↦ inr o
        ],
        elim (Bool-cases (leb 1 s2.current)) [
          | inl l ↦ inr (p1 (leb→le _ _ l))
          | inr l ↦ let l' = leb_false→lt _ _ l in inl (omega arith)
        ],
        elim (Bool-cases full) [
          | inl f ↦ inr (elim (Bool-cases (leb 2 s2.current)) [
            | inl l ↦ inr (p2 (h1.same_full ∙ f) (leb→le _ _ l))
            | inr l ↦ let l' = leb_false→lt _ _ l in inl (omega arith)
          ])
          | inr f ↦ inl f
        ],
      )

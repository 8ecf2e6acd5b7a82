-- ===== src/Optimiser/Climb.antt =====
-- That hill climbing does not lose what it has reached.
use hypothesis.Common.{
  ◌+◌, ◌≤◌, ◌≡◌, refl, ◌∙◌, inl, inr, Bool, true, false, List, [], ◌∷◌, arith, ltb, leb, length,
  Bool-cases,
}
use hypothesis.Common.Keys.{KeyEquality}
use hypothesis.Common.Result.{ok}
use hypothesis.Dominance.{Status, rank, Scores, ConjectureResult}
use hypothesis.Optimiser.{
  Optimiser, score_function, current_score, consider_lateral, consider_new_data, consider_all,
}

module _ {ℓ} {T O K S : Type ℓ} (tag : KeyEquality T) (origin : KeyEquality O)
    (names : KeyEquality K) (scores : Scores S) (same : KeyEquality S) where
  -- The target stays, the count of improvements does not fall, and the score of `o'` is no lower.
  pub record IsNoWorse (o o' : Optimiser T O K S) : Type ℓ where
    pub same_target : o'.target ≡ o.target
    pub no_fewer : o.improvements ≤ o'.improvements
    pub no_lower :
        scores.above
          (current_score tag origin names scores same o)
          (current_score tag origin names scores same o')
        ≡ false

module _ {ℓ} {T O K S : Type ℓ} (tag : KeyEquality T) (origin : KeyEquality O)
    (names : KeyEquality K) (scores : Scores S) (same : KeyEquality S)
    (total : (a b : S) → scores.above a b ≡ false → scores.above b a ≡ false → same.eq a b ≡ true)
    (asymmetric : (a b : S) → scores.above a b ≡ true → scores.above b a ≡ false)
    (negative : (a b c : S)
      → scores.above a b ≡ false
      → scores.above b c ≡ false
      → scores.above a c ≡ false) where
  unchanged : (o : Optimiser T O K S) → IsNoWorse tag origin names scores same o o
  unchanged o = record {
    same_target = refl;
    no_fewer = omega arith;
    no_lower =
        let s = current_score tag origin names scores same o in
        elim (Bool-cases (scores.above s s)) [ inl e ↦ asymmetric s s e | inr e ↦ e ];
  }

  consider_new_data-IsNoWorse :
      (d : ConjectureResult T O K S) (o : Optimiser T O K S)
      → (b : Bool) × (o' : Optimiser T O K S) × (consider_new_data tag origin names scores same d o
          ≡ ok (b, o'))
        × IsNoWorse tag origin names scores same o o'
  unfolding consider_new_data consider_lateral score_function current_score
  consider_new_data-IsNoWorse d o =
      let old = current_score tag origin names scores same o in
      let new = score_function tag origin names scores same o d in
      elim (Bool-cases (ltb (rank d.status) (rank Status.valid))) [
        | inl e ↦ (false, o, rw e refl, unchanged o)
        | inr e ↦ elim (Bool-cases (scores.above old new)) [
          | inl lower ↦ (false, o, rw (e, lower) refl, unchanged o)
          | inr no_lower ↦ elim (Bool-cases (scores.above new old)) [
            | inl higher ↦ (
              true,
              record o { current_data = d; improvements = o.improvements + 1 },
              rw (e, no_lower, higher) refl,
              record { same_target = refl; no_fewer = omega arith; no_lower = no_lower },
            )
            | inr no_higher ↦
                elim (Bool-cases (leb (length d.indices) (length o.current_data.indices))) [
                  | inl l ↦ (
                    true,
                    record o { current_data = d },
                    rw (e, no_lower, no_higher, total new old no_higher no_lower, l) refl,
                    record { same_target = refl; no_fewer = omega arith; no_lower = no_lower },
                  )
                  | inr l ↦ (
                    false,
                    o,
                    rw (e, no_lower, no_higher, total new old no_higher no_lower, l) refl,
                    unchanged o,
                  )
                ]
          ]
        ]
      ]

  -- Where the comparison of scores is a total order: considering any results, one after the other, fails
  -- no assertion; the target stays, the count of improvements does not fall, and the score is no lower than before.
  pub consider_all-IsNoWorse :
      (l : List (ConjectureResult T O K S)) (o : Optimiser T O K S)
      → (o' : Optimiser T O K S) × (consider_all tag origin names scores same l o ≡ ok o')
        × IsNoWorse tag origin names scores same o o'
  unfolding consider_all current_score score_function
  consider_all-IsNoWorse [] o = (o, refl, unchanged o)
  consider_all-IsNoWorse (d ∷ l) o =
      let (b, o1, e1, h1) = consider_new_data-IsNoWorse d o in
      let (o2, e2, h2) = consider_all-IsNoWorse l o1 in
      (
        o2,
        rw (e1, consider_all) e2,
        record {
          same_target = h2.same_target ∙ h1.same_target;
          no_fewer = let a = h1.no_fewer in let c = h2.no_fewer in omega arith;
          no_lower = negative _ _ _ h1.no_lower h2.no_lower;
        },
      )

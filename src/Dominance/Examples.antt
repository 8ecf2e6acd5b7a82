-- ===== src/Dominance/Examples.antt =====
-- Instances of the theorems on dominance: results with one tag and one target.
use hypothesis.Common.{ℕ, ◌≡◌, ◌↔◌, refl, none, List, [], ◌∷◌, arith, ltb}
use hypothesis.Common.Keys.{number_keys, mem}
use hypothesis.Common.Result.{ok}
use hypothesis.Dominance.{DominanceRelation, Status, Scores, ConjectureResult, dominance}
use hypothesis.Dominance.Laws.{flip, dominance-flip}
use hypothesis.Dominance.Better.{IsBetter, dominance-IsBetter, dominance_trans}

abbrev pub number_scores : Scores ℕ
number_scores = record { above = λ a b. ltb b a; no_score = 0 }

abbrev pub result : List ℕ → Status → ℕ → ConjectureResult ℕ ℕ ℕ ℕ
result indices status score = record {
  indices = indices;
  status = status;
  tags = 7 ∷ [];
  interesting_origin = none;
  target_observations = (1, score) ∷ [];
}

abbrev best : ConjectureResult ℕ ℕ ℕ ℕ
best = result (1 ∷ []) Status.valid 9

abbrev middling : ConjectureResult ℕ ℕ ℕ ℕ
middling = result (2 ∷ []) Status.valid 5

abbrev worst : ConjectureResult ℕ ℕ ℕ ℕ
worst = result (0 ∷ 0 ∷ []) Status.invalid 5

dominance-flip_example :
    (x : DominanceRelation) × (dominance number_keys number_keys number_keys number_scores best
        worst
      ≡ ok x)
    × (dominance number_keys number_keys number_keys number_scores worst best ≡ ok (flip x))
dominance-flip_example = dominance-flip number_keys number_keys number_keys number_scores best worst

dominance-IsBetter_example :
    (dominance number_keys number_keys number_keys number_scores best middling
      ≡ ok DominanceRelation.left_dominates)
    ↔ IsBetter number_keys number_keys number_keys number_scores best middling
dominance-IsBetter_example =
    dominance-IsBetter number_keys number_keys number_keys number_scores refl best middling

best_first :
    dominance number_keys number_keys number_keys number_scores best middling
    ≡ ok DominanceRelation.left_dominates
unfolding dominance mem
best_first = refl

worst_last :
    dominance number_keys number_keys number_keys number_scores middling worst
    ≡ ok DominanceRelation.left_dominates
unfolding dominance mem
worst_last = refl

dominance_trans_example :
    dominance number_keys number_keys number_keys number_scores best worst
    ≡ ok DominanceRelation.left_dominates
dominance_trans_example =
    dominance_trans number_keys number_keys number_keys number_scores refl
      (λ a b c h k. ground arith) best middling worst (λ o e. cc) best_first worst_last

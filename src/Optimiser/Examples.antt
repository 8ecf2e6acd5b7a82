-- ===== src/Optimiser/Examples.antt =====
-- An instance of the theorem on hill climbing: a lower score, a lateral move and a higher score.
use hypothesis.Common.{ℕ, ◌≡◌, List, [], ◌∷◌, arith}
use hypothesis.Common.Keys.{number_keys}
use hypothesis.Common.Result.{ok}
use hypothesis.Dominance.{Status, ConjectureResult}
use hypothesis.Dominance.Examples.{number_scores, result}
use hypothesis.Optimiser.{Optimiser, consider_all}
use hypothesis.Optimiser.Climb.{IsNoWorse, consider_all-IsNoWorse}

abbrev beginning : Optimiser ℕ ℕ ℕ ℕ
beginning = record {
  current_data = result (4 ∷ 4 ∷ []) Status.valid 5;
  target = 1;
  max_improvements = 100;
  improvements = 0;
}

abbrev proposals : List (ConjectureResult ℕ ℕ ℕ ℕ)
proposals =
    result (1 ∷ []) Status.valid 3
    ∷ result (2 ∷ []) Status.valid 5
    ∷ result (3 ∷ 3 ∷ 3 ∷ []) Status.interesting 8
    ∷ []

consider_all-IsNoWorse_example :
    (o : Optimiser ℕ ℕ ℕ ℕ) × (consider_all number_keys number_keys number_keys number_scores
        number_keys proposals beginning
      ≡ ok o)
    × IsNoWorse number_keys number_keys number_keys number_scores number_keys beginning o
consider_all-IsNoWorse_example =
    consider_all-IsNoWorse number_keys number_keys number_keys number_scores number_keys
      (λ a b h k. ground arith) (λ a b h. ground arith) (λ a b c h k. ground arith) proposals
      beginning

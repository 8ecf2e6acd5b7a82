-- ===== src/Optimiser.antt =====
-- `Optimiser.consider_new_data` of internal/conjecture/optimiser.py: which results hill climbing moves to.
-- The loop that proposes them runs user code.
pub mod Climb
pub mod Examples
use hypothesis.Common.{ℕ, ◌+◌, Bool, true, false, List, [], ◌∷◌, ltb, leb, if◌then◌else◌, length}
use hypothesis.Common.Keys.{KeyEquality}
use hypothesis.Common.Result.{Result, ok, ◌>>=◌, ◌>>◌, check}
use hypothesis.Dominance.{Status, rank, Scores, ConjectureResult, score}

pub record Optimiser {ℓ} (T O K S : Type ℓ) : Type ℓ where
  pub current_data : ConjectureResult T O K S
  pub target : K
  pub max_improvements : ℕ
  pub improvements : ℕ

module _ {ℓ} {T O K S : Type ℓ} (tag : KeyEquality T) (origin : KeyEquality O)
    (names : KeyEquality K) (scores : Scores S) (same : KeyEquality S) where
  unfoldable pub score_function : Optimiser T O K S → ConjectureResult T O K S → S
  unfolding score
  score_function o d = score tag origin names scores o.target d.target_observations

  unfoldable pub current_score : Optimiser T O K S → S
  unfolding score_function
  current_score o = score_function o o.current_data

  -- an equal score: a lateral move is taken unless it adds nodes
  unfoldable pub consider_lateral :
      ConjectureResult T O K S → Optimiser T O K S → Bool × Optimiser T O K S
  consider_lateral d o =
      if leb (length d.indices) (length o.current_data.indices)
      then (true, record o { current_data = d })
      else (false, o)

  unfoldable pub consider_new_data :
      ConjectureResult T O K S → Optimiser T O K S → Result (Bool × Optimiser T O K S)
  unfolding rank score_function current_score consider_lateral
  consider_new_data d o =
      if ltb (rank d.status) (rank Status.valid)
      then ok (false, o)
      else if scores.above (current_score o) (score_function o d)
      then ok (false, o)
      else if scores.above (score_function o d) (current_score o)
      then ok (true, record o { current_data = d; improvements = o.improvements + 1 })
      else (do check (same.eq (score_function o d) (current_score o)); ok (consider_lateral d o))

  -- The results that a run of the loop considers, one after the other.
  pub consider_all :
      List (ConjectureResult T O K S) → Optimiser T O K S → Result (Optimiser T O K S)
  unfolding consider_new_data
  consider_all [] o = ok o
  consider_all (d ∷ l) o = do r ← consider_new_data d o; consider_all l r.1

-- ===== src/Dominance.antt =====
-- `dominance` of internal/conjecture/pareto.py, and what it reads of results: their order by `sort_key`
-- of internal/conjecture/shrinker.py, and `Status` and `ConjectureResult` of
-- internal/conjecture/data.py. Tags, origins, targets and scores are of any type.
pub mod Order
pub mod Laws
pub mod Better
pub mod Examples
use hypothesis.Common.{
  ℕ, zero, suc, ◌≡◌, Bool, true, false, not, ◌&&◌, ◌||◌, Option, none, some, List, [], ◌∷◌, ◌++◌,
  map, ltb, ◌==◌, if◌then◌else◌, length,
}
use hypothesis.Common.Keys.{KeyEquality, mem}
use hypothesis.Common.Result.{Result, ok, raise, ◌>>=◌, assertion_error, recursion_error}

pub data DominanceRelation : Type 0 where
  no_dominance equal left_dominates right_dominates : DominanceRelation

pub data Status : Type 0 where
  overrun invalid valid interesting : Status

-- the values of the enumeration
unfoldable pub rank : Status → ℕ
rank Status.overrun = 0
rank Status.invalid = 1
rank Status.valid = 2
rank Status.interesting = 3

-- The comparison of scores, `>`, with the score of a target that was not observed.
pub record Scores {ℓ} (S : Type ℓ) : Type ℓ where
  pub above : S → S → Bool
  pub no_score : S

-- `T` are tags, `O` origins, `K` the names of targets. Of the nodes, the indices that `choice_to_index`
-- gives.
pub record ConjectureResult {ℓ} (T O K S : Type ℓ) : Type ℓ where
  pub indices : List ℕ
  pub status : Status
  pub tags : List T
  pub interesting_origin : Option O
  pub target_observations : List (K × S)

-- `<` on tuples of numbers
unfoldable pub tuple_less : List ℕ → List ℕ → Bool
tuple_less [] [] = false
tuple_less [] (b ∷ r) = true
tuple_less (a ∷ l) [] = false
tuple_less (a ∷ l) (b ∷ r) = let rest = tuple_less l r in if a == b then rest else ltb a b

unfoldable pub tuple_equal : List ℕ → List ℕ → Bool
tuple_equal [] [] = true
tuple_equal (a ∷ l) (b ∷ r) = (a == b) && tuple_equal l r
tuple_equal _ _ = false

-- `<` of two `sort_key`s
unfoldable pub key_less : List ℕ → List ℕ → Bool
unfolding tuple_less
key_less l r = if length l == length r then tuple_less l r else ltb (length l) (length r)

module _ {ℓ} {T O K S : Type ℓ} (tag : KeyEquality T) (origin : KeyEquality O)
    (target : KeyEquality K) (scores : Scores S) where
  -- `right.tags.issubset(left.tags)`
  unfoldable pub is_subset : List T → List T → Bool
  is_subset [] r = true
  is_subset (x ∷ l) r = mem tag x r && is_subset l r

  -- right.interesting_origin is not None and left.interesting_origin != right.interesting_origin
  unfoldable pub differs : Option O → Option O → Bool
  differs left none = false
  differs none (some o) = true
  differs (some p) (some o) = not (origin.eq p o)

  unfoldable pub is_interesting : Status → Bool
  is_interesting Status.interesting = true
  is_interesting _ = false

  -- target_observations.get(target, NO_SCORE)
  unfoldable pub score : K → List (K × S) → S
  score k [] = scores.no_score
  score k ((j, s) ∷ l) = if target.eq k j then s else score k l

  unfoldable pub targets : List (K × S) → List K
  targets [] = []
  targets ((k, s) ∷ l) = k ∷ targets l

  -- whether some target has a higher score in the second
  unfoldable pub exceeded : List K → List (K × S) → List (K × S) → Bool
  unfolding score
  exceeded [] left right = false
  exceeded (k ∷ ks) left right =
      scores.above (score k right) (score k left) || exceeded ks left right

  -- from `left_key < right_key` on
  unfoldable pub against_larger :
      ConjectureResult T O K S → ConjectureResult T O K S → DominanceRelation
  unfolding rank is_subset is_interesting differs exceeded targets
  against_larger left right =
      if ltb (rank left.status) (rank right.status)
      then DominanceRelation.no_dominance
      else if not (is_subset right.tags left.tags)
      then DominanceRelation.no_dominance
      else if is_interesting left.status && differs left.interesting_origin right.interesting_origin
      then DominanceRelation.no_dominance
      else if exceeded (targets left.target_observations ++ targets right.target_observations)
          left.target_observations right.target_observations
      then DominanceRelation.no_dominance
      else DominanceRelation.left_dominates

  unfoldable pub mirrored : DominanceRelation → Result DominanceRelation
  mirrored DominanceRelation.left_dominates = ok DominanceRelation.right_dominates
  mirrored DominanceRelation.no_dominance = ok DominanceRelation.no_dominance
  mirrored _ = raise assertion_error

  -- The code calls itself with the results swapped; `depth` bounds how often.
  pub dominance_within :
      ℕ → ConjectureResult T O K S → ConjectureResult T O K S → Result DominanceRelation
  unfolding tuple_equal key_less against_larger mirrored
  dominance_within zero left right = raise recursion_error
  dominance_within (suc depth) left right =
      let swapped = dominance_within depth right left in
      if tuple_equal left.indices right.indices
      then ok DominanceRelation.equal
      else if key_less right.indices left.indices
      then swapped >>= mirrored
      else if key_less left.indices right.indices
      then ok (against_larger left right)
      else raise assertion_error

  unfoldable pub dominance :
      ConjectureResult T O K S → ConjectureResult T O K S → Result DominanceRelation
  unfolding dominance_within
  dominance left right = dominance_within 2 left right

-- ===== src/Shrinking.antt =====
-- `Shrinker` of internal/conjecture/shrinking/common.py: a value, and what has been seen, under a
-- predicate. The order and the equality of the values are parameters, which the subclasses give: a value
-- stands for its canonical form, so two that are equal have the same.
pub mod Consider
pub mod Integer
pub mod Ordering
pub mod Examples
use hypothesis.Common.{
  ℕ, zero, suc, Option, none, some, ◌==◌, ◌+◌, ◌≡◌, ◌↔◌, Bool, true, false, List, [], ◌∷◌,
  if◌then◌else◌, not, ◌||◌,
}

-- `make_canonical` with the equality of its values, `left_is_better`, and whether the assertions of
-- `check_invariants` hold, of a value and the current one.
pub record Simplicity {ℓ} (A : Type ℓ) : Type ℓ where
  pub eq : A → A → Bool
  pub eq_iff : (a b : A) → (eq a b ≡ true) ↔ (a ≡ b)
  pub better : A → A → Bool
  pub check_invariants : A → A → Bool

-- `failed` says that an assertion of `check_invariants` failed: there the call of `shrink` raises, and the
-- other fields are of no account.
pub record Shrinker {ℓ} (A : Type ℓ) : Type ℓ where
  pub current : A
  pub initial : A
  pub full : Bool
  pub changes : ℕ
  pub seen : List A
  pub failed : Bool

module _ {ℓ} {A : Type ℓ} (order : Simplicity A) where
  unfoldable pub has_seen : A → List A → Bool
  has_seen v [] = false
  has_seen v (x ∷ l) = order.eq v x || has_seen v l

  -- `__init__`
  unfoldable pub start : A → Bool → Shrinker A
  start initial full = record {
    current = initial;
    initial = initial;
    full = full;
    changes = 0;
    seen = initial ∷ [];
    failed = false;
  }

  -- `consider`: the answer, and the shrinker that it leaves
  unfoldable pub consider : (A → Bool) → A → Shrinker A → Bool × Shrinker A
  consider predicate value s =
      if order.eq value s.current
      then (true, s)
      else if has_seen value s.seen
      then (false, s)
      else if not (order.check_invariants value s.current)
      then (false, record s { seen = value ∷ s.seen; failed = true })
      else if order.better value s.current
      then (if predicate value
          then (true, record s { current = value; changes = s.changes + 1; seen = value ∷ s.seen })
          else (false, record s { seen = value ∷ s.seen }))
      else (false, record s { seen = value ∷ s.seen })

-- `run`, over the two methods that a subclass gives, which are none where their fuel was not enough.
module _ {ℓ} {A : Type ℓ} (short_circuit : Shrinker A → Option (Bool × Shrinker A))
    (run_step : Shrinker A → Option (Shrinker A)) where
  -- while self.changes != prev: prev = self.changes; self.run_step()
  pub repeat_steps : ℕ → Shrinker A → Option (Shrinker A)
  repeat_steps zero s = none
  repeat_steps (suc fuel) s = elim (run_step s) [
    | none ↦ none
    | some s' ↦ elim (s'.changes == s.changes) [ true ↦ some s' | false ↦ repeat_steps fuel s' ]
  ]

  unfoldable pub after_short_circuit : ℕ → Option (Bool × Shrinker A) → Option (Shrinker A)
  after_short_circuit fuel none = none
  after_short_circuit fuel (some (true, s)) = some s
  after_short_circuit fuel (some (false, s)) = if s.full then repeat_steps fuel s else run_step s

  unfoldable pub run : ℕ → Shrinker A → Option (Shrinker A)
  unfolding after_short_circuit
  run fuel s = after_short_circuit fuel (short_circuit s)

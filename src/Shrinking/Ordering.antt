-- ===== src/Shrinking/Ordering.antt =====
-- `Ordering` of internal/conjecture/shrinking/ordering.py, the shrinker that sorts a sequence. Elements
-- and their keys are of any ordered types; `better` of an order is `<`.
pub mod Permutes
pub mod Keeping
pub mod Regions
pub mod Gaps
pub mod Whole
use hypothesis.Common.{
  ℕ, zero, suc, ◌+◌, ◌-◌, ◌≡◌, ◌↔◌, refl, Bool, true, false, not, ◌&&◌, Option, none, some, List,
  [], ◌∷◌, ◌++◌, arith, ltb, leb, ◌==◌, if◌then◌else◌, length, take, drop, Bool-cases,
}
use hypothesis.Search.{Probe, find_integer}
use hypothesis.Shrinking.{Simplicity, Shrinker, start, consider, run}
use hypothesis.Shrinking.Integer.{left_by, then_step}

-- `sorted`, which leaves elements in their order where neither is less
module _ {ℓ} {A : Type ℓ} (less : A → A → Bool) where
  pub insert : A → List A → List A
  insert x [] = x ∷ []
  insert x (y ∷ ys) = if less y x then y ∷ insert x ys else x ∷ y ∷ ys

  pub sorted : List A → List A
  unfolding insert
  sorted [] = []
  sorted (x ∷ xs) = insert x (sorted xs)

-- `a[i - 1] <= a[i] <= a[i + 1]`, of the sequence from `i - 1` on, which has these elements
unfoldable pub in_order {ℓ} : {A : Type ℓ} → (A → A → Bool) → List A → Bool
in_order less (x ∷ y ∷ z ∷ l) = not (less y x) && not (less z y)
in_order less l = true

module _ {ℓ κ} {A : Type ℓ} {K : Type κ} (elements : Simplicity A) (keys : Simplicity K)
    (key : A → K) where
  -- `==` of tuples
  unfoldable pub equal : List A → List A → Bool
  equal [] [] = true
  equal (a ∷ l) (b ∷ r) = elements.eq a b && equal l r
  equal _ _ = false

  pub equal_iff : (l r : List A) → (equal l r ≡ true) ↔ (l ≡ r)
  unfolding equal
  equal_iff [] [] = (λ _. refl, λ _. refl)
  equal_iff [] (b ∷ r) = (λ e. cc, λ e. cc)
  equal_iff (a ∷ l) [] = (λ e. cc, λ e. cc)
  equal_iff (a ∷ l) (b ∷ r) =
      let h = equal_iff l r in let k = elements.eq_iff a b in (λ e. ground arith, λ e. ground arith)

  -- tuple(map(self.key, left)) < tuple(map(self.key, right))
  unfoldable pub left_is_better : List A → List A → Bool
  left_is_better [] [] = false
  left_is_better [] (b ∷ r) = true
  left_is_better (a ∷ l) [] = false
  left_is_better (a ∷ l) (b ∷ r) =
      let rest = left_is_better l r in
      if keys.eq (key a) (key b) then rest else keys.better (key a) (key b)

  unfoldable pub check_invariants : List A → List A → Bool
  check_invariants value current =
      (length value == length current)
      && equal (sorted elements.better value) (sorted elements.better current)

  unfoldable pub sequences : Simplicity (List A)
  sequences = record {
    eq = equal;
    eq_iff = equal_iff;
    better = left_is_better;
    check_invariants = check_invariants;
  }

  abbrev pub by_key : A → A → Bool
  by_key a b = keys.better (key a) (key b)

  module _ (predicate : List A → Bool) where
    abbrev pub attempt : List A → Shrinker (List A) → Bool × Shrinker (List A)
    attempt = consider sequences predicate

    unfoldable pub short_circuit : Shrinker (List A) → Option (Bool × Shrinker (List A))
    short_circuit s = some (attempt (sorted by_key s.current) s)

    -- the lambda of `sort_regions`
    unfoldable pub try_region : ℕ → List A → Probe (Shrinker (List A))
    try_region i prefix k s =
        if leb (i + k) (length s.current)
        then attempt
            (prefix ++ (sorted by_key (take k (drop i s.current)) ++ drop (i + k) s.current)) s
        else (false, s)

    -- while i + 1 < len(self.current)
    pub sort_regions_from : ℕ → ℕ → Shrinker (List A) → Option (Shrinker (List A))
    sort_regions_from zero i s = none
    sort_regions_from (suc fuel) i s = elim (ltb (i + 1) (length s.current)) [
      | true ↦
          let (answer, s') =
            find_integer (try_region i (take i s.current)) (length s.current + 2) s in
          elim answer [ none ↦ none | some k ↦ sort_regions_from fuel (i + k) s' ]
      | false ↦ some s
    ]

    -- Every round moves on by at least one.
    unfoldable pub sort_regions : Shrinker (List A) → Option (Shrinker (List A))
    unfolding sort_regions_from
    sort_regions s = sort_regions_from (length s.current + 1) 0 s

    -- `can_sort`, for an `a` that is not negative; in the calls below `a <= i < b`, as is asserted
    unfoldable pub can_sort : ℕ → ℕ → ℕ → Shrinker (List A) → Bool × Shrinker (List A)
    can_sort i a b s =
        if ltb (length s.current) b
        then (false, s)
        else (let split = i - a in
            let values =
              sorted elements.better
                (take split (drop a s.current) ++ take (b - (i + 1)) (drop (i + 1) s.current)) in
            attempt
              (take a s.current
                ++ (take split values
                    ++ (take 1 (drop i s.current) ++ (drop split values ++ drop b s.current))))
              s)

    -- `can_sort(left, right + k)` and `can_sort(left - k, right)`
    unfoldable pub try_right : ℕ → Probe (Shrinker (List A))
    unfolding can_sort
    try_right i k s = can_sort i i (i + 1 + k) s

    unfoldable pub try_left : ℕ → ℕ → Probe (Shrinker (List A))
    unfolding can_sort
    try_left i right k s = if ltb i k then (false, s) else can_sort i (i - k) right s

    unfoldable pub after_right : ℕ → Option ℕ × Shrinker (List A) → Option (Shrinker (List A))
    unfolding try_left left_by
    after_right i (none, s) = none
    after_right i (some k, s) = left_by (find_integer (try_left i (i + 1 + k)) (i + 2) s)

    -- the body of the loop of `sort_regions_with_gaps`
    unfoldable pub sort_gap : ℕ → Shrinker (List A) → Option (Shrinker (List A))
    unfolding in_order try_right after_right
    sort_gap i s =
        if in_order elements.better (drop (i - 1) s.current)
        then some s
        else after_right i (find_integer (try_right i) (length s.current + 2) s)

    -- for i in range(i, i + rounds)
    pub sort_gaps : ℕ → ℕ → Shrinker (List A) → Option (Shrinker (List A))
    unfolding sort_gap
    sort_gaps zero i s = some s
    sort_gaps (suc rounds) i s = elim (sort_gap i s) [
      | none ↦ none
      | some s' ↦ sort_gaps rounds (i + 1) s'
    ]

    unfoldable pub sort_regions_with_gaps : Shrinker (List A) → Option (Shrinker (List A))
    unfolding sort_gaps
    sort_regions_with_gaps s = sort_gaps (length s.current - 2) 1 s

    unfoldable pub run_step : Shrinker (List A) → Option (Shrinker (List A))
    unfolding sort_regions sort_regions_with_gaps
    run_step s = elim (sort_regions s) [ none ↦ none | some s' ↦ sort_regions_with_gaps s' ]

    -- `Ordering.shrink` as the engine calls it, where `full` is false
    unfoldable pub shrink : List A → Option (Shrinker (List A))
    unfolding short_circuit run_step sequences
    shrink initial = run short_circuit run_step 1 (start sequences initial false)

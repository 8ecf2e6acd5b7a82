-- ===== src/Shrinking/Examples.antt =====
-- An instance of the theorem on `Integer`.
use hypothesis.Common.{◌⊎◌, ℕ, ◌-◌, ◌≤◌, some, ◌≡◌, refl, Bool, true, false, leb}
use hypothesis.Shrinking.Integer.{shrink}
use hypothesis.Shrinking.Integer.Whole.{shrink_lem}

abbrev large : ℕ → Bool
large = leb 10

shrink_lem_example :
    (r : ℕ) × (shrink large 1000 true ≡ some r)
    × (large r ≡ true)
    × (r ≤ 1000)
    × ((r ≡ 0) ⊎ (large 0 ≡ false))
    × ((r ≤ 1) ⊎ (large 1 ≡ false))
    × ((r ≡ 0) ⊎ (large (r - 1) ≡ false))
    × ((true ≡ false) ⊎ ((r ≤ 1) ⊎ (large (r - 2) ≡ false)))
shrink_lem_example = shrink_lem large 1000 true refl

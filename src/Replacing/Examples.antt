-- ===== src/Replacing/Examples.antt =====
-- A run of `replace_all`, and an instance of its theorem.
use hypothesis.Common.{ℕ, ◌≡◌, refl, [], ◌∷◌, arith, List}
use hypothesis.Common.Int.{◌+ℤ◌, ◌-ℤ◌}
use hypothesis.Common.Result.{ok}
use hypothesis.Replacing.{slice, replace_all}
use hypothesis.Replacing.Backwards.{substituted, replace_all-substituted}

abbrev letters : List ℕ
letters = 97 ∷ 98 ∷ 99 ∷ 100 ∷ 101 ∷ []

abbrev replacements : List (ℕ × ℕ × List ℕ)
replacements = (1, 2, 1 ∷ 2 ∷ 3 ∷ []) ∷ (3, 5, []) ∷ []

replace_all_runs : replace_all letters replacements ≡ ok (97 ∷ 1 ∷ 2 ∷ 3 ∷ 99 ∷ [])
unfolding replace_all slice ◌+ℤ◌ ◌-ℤ◌
replace_all_runs = refl

replace_all-substituted_example :
    replace_all letters replacements ≡ ok (substituted letters replacements)
replace_all-substituted_example =
    replace_all-substituted letters replacements
      (omega arith, omega arith, (omega arith, omega arith, omega arith))

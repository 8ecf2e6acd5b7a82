-- ===== src/Common/Keys.antt =====
-- Equality tests on keys of any type, and membership in a list of keys.
use Prim.Native.Nat.{ℕ}
use hypothesis.Common.Tests.{Bool-cases, ◌==◌, ==_iff}
use mathlib.Core.Path.{◌≡◌, refl}
use mathlib.Core.Logic.{◌≢◌, ◌↔◌, inl, inr}
use mathlib.Core.Bool.{Bool, true, false, ◌||◌, ◌&&◌, not}
use mathlib.Core.List.{List, [], ◌∷◌, ◌++◌}
use native.Mathlib.Omega.{arith}

pub record KeyEquality {ℓ} (K : Type ℓ) : Type ℓ where
  pub eq : K → K → Bool
  pub eq_iff : (a b : K) → (eq a b ≡ true) ↔ (a ≡ b)

module _ {ℓ} {K : Type ℓ} (keys : KeyEquality K) where
  pub eq_refl : (k : K) → keys.eq k k ≡ true
  eq_refl k = (keys.eq_iff k k).1 refl

  pub eq_ne : (j k : K) → j ≢ k → keys.eq j k ≡ false
  eq_ne j k n = elim (Bool-cases (keys.eq j k)) [
    | inl e ↦ absurd (n ((keys.eq_iff j k).0 e))
    | inr e ↦ e
  ]

  unfoldable pub mem : K → List K → Bool
  mem k [] = false
  mem k (x ∷ xs) = keys.eq k x || mem k xs

  -- No key occurs twice.
  unfoldable pub distinct : List K → Bool
  distinct [] = true
  distinct (x ∷ xs) = not (mem x xs) && distinct xs

  pub mem-append : (k : K) (xs ys : List K) → mem k (xs ++ ys) ≡ (mem k xs || mem k ys)
  unfolding mem
  mem-append k [] ys = refl
  mem-append k (x ∷ xs) ys = ground (arith, mem-append k xs ys)

  pub mem_subst : (j k : K) (xs : List K) → keys.eq j k ≡ true → mem j xs ≡ mem k xs
  mem_subst j k xs e = rw ((keys.eq_iff j k).0 e)

abbrev pub number_keys : KeyEquality ℕ
number_keys = record { eq = λ a b. a == b; eq_iff = ==_iff }

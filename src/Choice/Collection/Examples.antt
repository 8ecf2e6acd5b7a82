-- ===== src/Choice/Collection/Examples.antt =====
-- Runs of the order of collections, and a logarithm for instances of theorems.
use hypothesis.Common.{
  ℕ, ◌≤◌, ◌≡◌, refl, sym, ◌∙◌, ◌&&◌, Option, none, some, [], ◌∷◌, arith, leb, ltb, if◌then◌else◌,
  dec_lt,
}
use hypothesis.Common.Int.{◌-ℤ◌, ◌*ℤ◌, pos, negsuc}
use hypothesis.Common.Result.{ok}
use hypothesis.Choice.Collection.{
  collection_value, value_loop, index_to_size, size_to_index, buffer_size, floor_div,
}
use hypothesis.Choice.Collection.Powers.{Exact}
use native.Mathlib.Nat.{pow-zero, pow-suc}

some_inj : {m n : ℕ} → some m ≡ some n → m ≡ n
some_inj h = cc

-- A logarithm that answers below the base only, and leaves the rest to whole numbers.
abbrev pub small_log : ℕ → ℕ → Option ℕ
small_log total base = if leb 1 total && ltb total base then some 0 else none

pub small_log-Exact : (total : ℕ) → 1 ≤ total → Exact small_log 256 total
small_log-Exact total l n h = elim (dec_lt total 256) [
  | yes k ↦
      let e : small_log total 256 ≡ some 0 = ground arith in
      let z : n ≡ 0 = some_inj (sym h ∙ e) in
      rw (z, pow-zero 256) (l, omega (arith, pow-suc 256 0, pow-zero 256))
  | no k ↦ let e : small_log total 256 ≡ none = ground arith in cc
]

-- A logarithm that is rounded up at the last sequence of two elements gives a size that is too large by
-- one, and a first element that is negative.
rounded_up : collection_value (λ z. z) (λ _ _. some 3) 6 0 2 ≡ ok (negsuc 0 ∷ pos 1 ∷ pos 1 ∷ [])
unfolding collection_value value_loop index_to_size size_to_index buffer_size floor_div ◌-ℤ◌ ◌*ℤ◌
rounded_up = refl

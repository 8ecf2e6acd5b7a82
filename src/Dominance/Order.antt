-- ===== src/Dominance/Order.antt =====
-- `sort_key` orders: keys are equal or one is less, and less is transitive.
use hypothesis.Common.{ℕ, ◌≡◌, refl, ◌⊎◌, true, false, List, [], ◌∷◌, arith, length}
use hypothesis.Dominance.{tuple_less, tuple_equal, key_less}

tuple_less_trans :
    (a b c : List ℕ) → tuple_less a b ≡ true → tuple_less b c ≡ true → tuple_less a c ≡ true
unfolding tuple_less
tuple_less_trans a [] [] h k = cc
tuple_less_trans [] [] (z ∷ c) h k = cc
tuple_less_trans [] (y ∷ b) [] h k = cc
tuple_less_trans [] (y ∷ b) (z ∷ c) h k = refl
tuple_less_trans (x ∷ a) [] (z ∷ c) h k = cc
tuple_less_trans (x ∷ a) (y ∷ b) [] h k = cc
tuple_less_trans (x ∷ a) (y ∷ b) (z ∷ c) h k = let i = tuple_less_trans a b c in ground arith

tuple_cases :
    (a b : List ℕ)
    → ((tuple_equal a b ≡ true) × (tuple_less a b ≡ false) × (tuple_less b a ≡ false))
      ⊎ (((tuple_equal a b ≡ false) × (tuple_less a b ≡ true) × (tuple_less b a ≡ false))
          ⊎ ((tuple_equal a b ≡ false) × (tuple_less a b ≡ false) × (tuple_less b a ≡ true)))
unfolding tuple_less tuple_equal
tuple_cases [] [] = ground arith
tuple_cases [] (y ∷ b) = ground arith
tuple_cases (x ∷ a) [] = ground arith
tuple_cases (x ∷ a) (y ∷ b) = let i = tuple_cases a b in ground arith

tuple_equal-length : (a b : List ℕ) → tuple_equal a b ≡ true → length a ≡ length b
unfolding tuple_equal
tuple_equal-length [] [] h = refl
tuple_equal-length [] (y ∷ b) h = cc
tuple_equal-length (x ∷ a) [] h = cc
tuple_equal-length (x ∷ a) (y ∷ b) h = let i = tuple_equal-length a b in ground arith

pub tuple_equal_sym : (a b : List ℕ) → tuple_equal a b ≡ tuple_equal b a
unfolding tuple_equal
tuple_equal_sym [] [] = refl
tuple_equal_sym [] (y ∷ b) = refl
tuple_equal_sym (x ∷ a) [] = refl
tuple_equal_sym (x ∷ a) (y ∷ b) = let i = tuple_equal_sym a b in ground arith

pub key_less_trans :
    (a b c : List ℕ) → key_less a b ≡ true → key_less b c ≡ true → key_less a c ≡ true
unfolding key_less
key_less_trans a b c h k = let i = tuple_less_trans a b c in ground arith

-- Of two keys, exactly one is less, or they are equal.
pub key_cases :
    (a b : List ℕ)
    → ((tuple_equal a b ≡ true) × (key_less a b ≡ false) × (key_less b a ≡ false))
      ⊎ (((tuple_equal a b ≡ false) × (key_less a b ≡ true) × (key_less b a ≡ false))
          ⊎ ((tuple_equal a b ≡ false) × (key_less a b ≡ false) × (key_less b a ≡ true)))
unfolding key_less
key_cases a b = let i = tuple_cases a b in let l = tuple_equal-length a b in ground arith

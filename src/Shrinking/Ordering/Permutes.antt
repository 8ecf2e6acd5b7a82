-- ===== src/Shrinking/Ordering/Permutes.antt =====
-- That all sequences which the shrinker of orders tries are permutations of the current one.
use hypothesis.Common.{
  ℕ, zero, suc, ◌+◌, ◌-◌, ◌≤◌, ◌<◌, ◌≡◌, refl, sym, ap, ◌∙◌, subst, Bool, inl, inr, List, [], ◌∷◌,
  ◌++◌, arith, append_assoc, length, take, drop, take-append-drop, Bool-cases,
}
use hypothesis.Shrinking.Ordering.{insert, sorted}
use mathlib.Core.List.{Permᴰ}
use mathlib.Core.List.Permᴰ
use native.Mathlib.Nat.{zero-add, suc-add}

module _ {ℓ} {A : Type ℓ} where
  pub Permᴰ-length : {l r : List A} → Permᴰ l r → length l ≡ length r
  Permᴰ-length Permᴰ.nil = refl
  Permᴰ-length (Permᴰ.cons e p) = ap suc (Permᴰ-length p)
  Permᴰ-length (Permᴰ.swap e e') = refl
  Permᴰ-length (Permᴰ.trans p q) = Permᴰ-length p ∙ Permᴰ-length q

  pub Permᴰ_eq : {l r : List A} → l ≡ r → Permᴰ l r
  Permᴰ_eq {l} {r} e = subst (λ x. Permᴰ l x) e (Permᴰ.refl l)

  middle : (x y z : List A) → Permᴰ (x ++ (y ++ z)) (y ++ (x ++ z))
  middle x [] z = Permᴰ.refl (x ++ z)
  middle x (a ∷ y) z = Permᴰ.trans (Permᴰ.middle a x (y ++ z)) (Permᴰ.cons refl (middle x y z))

  module _ (less : A → A → Bool) where
    insert-Permᴰ : (x : A) (l : List A) → Permᴰ (insert less x l) (x ∷ l)
    unfolding insert
    insert-Permᴰ x [] = Permᴰ.refl (x ∷ [])
    insert-Permᴰ x (y ∷ ys) = elim (Bool-cases (less y x)) [
      | inl e ↦ rw e (Permᴰ.trans (Permᴰ.cons refl (insert-Permᴰ x ys)) (Permᴰ.swap refl refl))
      | inr e ↦ rw e (Permᴰ.refl (x ∷ y ∷ ys))
    ]

    pub sorted-Permᴰ : (l : List A) → Permᴰ (sorted less l) l
    unfolding sorted
    sorted-Permᴰ [] = Permᴰ.nil
    sorted-Permᴰ (x ∷ xs) =
        Permᴰ.trans (insert-Permᴰ x (sorted less xs)) (Permᴰ.cons refl (sorted-Permᴰ xs))

  pub drop-drop : (m n : ℕ) (l : List A) → drop m (drop n l) ≡ drop (n + m) l
  drop-drop m zero l = rw (zero-add m)
  drop-drop zero (suc n) [] = rw (suc-add n 0)
  drop-drop (suc m) (suc n) [] = rw (suc-add n (suc m))
  drop-drop m (suc n) (x ∷ l) = drop-drop m n l ∙ rw (suc-add n m)

  -- Sorting a stretch of a list permutes the list.
  pub region-Permᴰ :
      (less : A → A → Bool) (i k : ℕ) (l : List A)
      → Permᴰ (take i l ++ (sorted less (take k (drop i l)) ++ drop (i + k) l)) l
  region-Permᴰ less i k l =
      Permᴰ.trans
        (Permᴰ.append_left (take i l)
          (Permᴰ.append_right (drop (i + k) l) (sorted-Permᴰ less (take k (drop i l)))))
        (Permᴰ_eq (
          ap (λ r. take i l ++ (take k (drop i l) ++ r)) (sym (drop-drop k i l))
          ∙ ap (λ r. take i l ++ r) (take-append-drop k (drop i l))
          ∙ take-append-drop i l))

  around-Permᴰ :
      (vs x y z : List A) (n : ℕ)
      → Permᴰ vs (x ++ z)
      → Permᴰ (take n vs ++ (y ++ drop n vs)) (x ++ (y ++ z))
  around-Permᴰ vs x y z n p = Permᴰ.trans (middle (take n vs) y (drop n vs)) (
      Permᴰ.trans (Permᴰ.append_left y (Permᴰ.trans (Permᴰ_eq (take-append-drop n vs)) p))
        (Permᴰ.symm (middle x y z)))

  pub rejoin : (m n k : ℕ) (l : List A) → n + m ≡ k → take m (drop n l) ++ drop k l ≡ drop n l
  rejoin m n k l e =
      ap (λ r. take m (drop n l) ++ r) (ap (λ j. drop j l) (sym e) ∙ sym (drop-drop m n l))
      ∙ take-append-drop m (drop n l)

  -- So does sorting what stands around an element.
  pub gap-Permᴰ :
      (less : A → A → Bool) (i a b : ℕ) (l : List A)
      → a ≤ i
      → i < b
      → Permᴰ
          (take a l
            ++ (take
                  (i - a)
                  (sorted less (take (i - a) (drop a l) ++ take (b - (i + 1)) (drop (i + 1) l)))
                ++ (take 1 (drop i l)
                    ++ (drop (i - a) (
                          sorted less
                            (take (i - a) (drop a l) ++ take (b - (i + 1)) (drop (i + 1) l)))
                        ++ drop b l))))
          l
  gap-Permᴰ less i a b l h k =
      let x = take (i - a) (drop a l) in
      let y = take 1 (drop i l) in
      let z = take (b - (i + 1)) (drop (i + 1) l) in
      let vs = sorted less (x ++ z) in
      let d = drop b l in
      let tail : z ++ d ≡ drop (i + 1) l = rejoin (b - (i + 1)) (i + 1) b l (omega arith) in
      let from_i : y ++ drop (i + 1) l ≡ drop i l = rejoin 1 i (i + 1) l (omega arith) in
      let from_a : x ++ drop i l ≡ drop a l = rejoin (i - a) a i l (omega arith) in
      Permᴰ.trans
        (Permᴰ.append_left (take a l) (
          Permᴰ.trans
            (Permᴰ_eq (
              ap (λ r. take (i - a) vs ++ r) (sym (append_assoc y (drop (i - a) vs) d))
              ∙ sym (append_assoc (take (i - a) vs) (y ++ drop (i - a) vs) d)))
            (Permᴰ.trans
              (Permᴰ.append_right d (around-Permᴰ vs x y z (i - a) (sorted-Permᴰ less (x ++ z))))
              (Permᴰ_eq (
                append_assoc x (y ++ z) d
                ∙ ap (λ r. x ++ r) (append_assoc y z d ∙ ap (λ r. y ++ r) tail ∙ from_i)
                ∙ from_a)))))
        (Permᴰ_eq (take-append-drop a l))

  pub take-append_take : (n : ℕ) (l r : List A) → n ≤ length l → take n (take n l ++ r) ≡ take n l
  take-append_take zero l r h = refl
  take-append_take (suc n) [] r h = absurd (omega arith)
  take-append_take (suc n) (x ∷ l) r h = ap (λ k. x ∷ k) (take-append_take n l r (omega arith))

  pub sorted_one : (less : A → A → Bool) (l : List A) → sorted less (take 1 l) ≡ take 1 l
  unfolding sorted insert
  sorted_one less [] = refl
  sorted_one less (x ∷ l) = refl

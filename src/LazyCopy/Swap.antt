-- ===== src/LazyCopy/Swap.antt =====
-- `swap` of `LazySequenceCopy`, from what its reads and writes do.
use hypothesis.Common.{
  ℕ, zero, suc, ◌<◌, ◌≡◌, refl, ap, sym, ◌∙◌, false, some, List, [], ◌∷◌, arith, length, get_elem?,
  set, length-set, inl, inr, Bool-cases,
}
use hypothesis.Common.Int.{pos, eq_ℤ}
use hypothesis.Common.Result.{ok, of_option, index_error}
use hypothesis.LazyCopy.{LazyCopy, get_item, set_item, swap}
use hypothesis.LazyCopy.View.{view}
use hypothesis.LazyCopy.Refines.{IsValid, get_item-view, set_item-view}

module _ {ℓ} {A : Type ℓ} where
  set_same : (xs : List A) (i : ℕ) (a : A) → get_elem? xs i ≡ some a → set xs i a ≡ xs
  set_same [] i a h = refl
  set_same (x ∷ xs) zero a h = ground arith
  set_same (x ∷ xs) (suc i) a h = ap (◌∷◌ x) (set_same xs i a h)

  set_twice :
      (xs : List A) (i j : ℕ) (a b : A)
      → i ≡ j
      → get_elem? xs j ≡ some b
      → some a ≡ some b
      → set (set xs i b) j a ≡ xs
  set_twice xs i j a b p e q =
      let inner : set xs i b ≡ xs = rw p (set_same xs j b e) in
      rw inner (set_same xs j a (e ∙ sym q))

  module _ (s : LazyCopy A) (h : IsValid s) where
    read : (i : ℕ) (a : A) → get_elem? (view s) i ≡ some a → get_item s (pos i) ≡ ok a
    read i a e = get_item-view s h i ∙ ap (of_option index_error) e

    swap_apart :
        (i j : ℕ) (a b : A) (t u : LazyCopy A)
        → eq_ℤ (pos i) (pos j) ≡ false
        → get_item s (pos j) ≡ ok b
        → get_item s (pos i) ≡ ok a
        → set_item s (pos i) b ≡ ok t
        → set_item t (pos j) a ≡ ok u
        → swap s (pos i) (pos j) ≡ ok u
    unfolding swap
    swap_apart i j a b t u n f e w x = rw (n, f, e, w) x

    -- For a valid copy, `swap` of two indices from 0 to the size exchanges the two elements of the list
    -- that the copy stands for, and leaves a valid copy.
    pub swap-view :
        (i j : ℕ) (a b : A)
        → i < length (view s)
        → j < length (view s)
        → get_elem? (view s) i ≡ some a
        → get_elem? (view s) j ≡ some b
        → (s' : LazyCopy A) × (swap s (pos i) (pos j) ≡ ok s')
          × IsValid s'
          × (view s' ≡ set (set (view s) i b) j a)
    unfolding swap
    swap-view i j a b l m e f = elim (Bool-cases (eq_ℤ (pos i) (pos j))) [
      | inl q ↦
          let same : i ≡ j = ground arith in
          let e' : get_elem? (view s) j ≡ some a = rw same at e in
          let ab : some a ≡ some b = sym e' ∙ f in
          (s, rw q, h, sym (set_twice (view s) i j a b same f ab))
      | inr n ↦
          let (t, w, v, p) = set_item-view s h i b l in
          let (u, x, v', p') =
            set_item-view t v j a (omega (arith, ap length p, length-set (view s) i b)) in
          (
            u,
            swap_apart i j a b t u n (read j b f) (read i a e) w x,
            v',
            p' ∙ ap (λ xs. set xs j a) p,
          )
    ]

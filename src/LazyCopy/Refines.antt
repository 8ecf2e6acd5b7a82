-- ===== src/LazyCopy/Refines.antt =====
-- `LazySequenceCopy` behaves as the list that it stands for.
use hypothesis.Common.{
  ℕ, zero, suc, ◌+◌, ◌≤◌, ◌<◌, ◌≡◌, ◌≢◌, refl, ap, sym, ◌∙◌, Bool, false, Option, none, some, List,
  [], ◌∷◌, ◌++◌, arith, ◌==◌, length, get_elem?, set, dec_lt,
}
use hypothesis.Common.Int.{pos}
use hypothesis.Common.Result.{ok, raise, index_error, of_option}
use hypothesis.LazyCopy.{
  Mask, LazyCopy, shift_all, pops, mask_get, mask_set, mask_drop, size, underlying_index, get_item,
  set_item, pop, popped_value,
}
use hypothesis.LazyCopy.View.{
  delete_at, delete_all, masked, written, view, Fits, get_elem?-delete_all, set-delete_all,
  delete_at-set, delete_all-append, length-delete_all, length-masked, masked-update, masked-change,
  get_elem?-masked, Fits-append,
}

-- The cached length is that of the values, and every pop was in range.
pub record IsValid {ℓ} {A : Type ℓ} (s : LazyCopy A) : Type ℓ where
  pub len_values : s.len ≡ length s.values
  pub fits : Fits (length s.values) (pops s)

module _ {ℓ} {A : Type ℓ} where
  get_elem?_lt : (xs : List A) (i : ℕ) → i < length xs → (x : A) × (get_elem? xs i ≡ some x)
  get_elem?_lt [] i h = absurd (omega arith)
  get_elem?_lt (x ∷ xs) zero h = (x, refl)
  get_elem?_lt (x ∷ xs) (suc i) h = get_elem?_lt xs i (omega arith)

  get_elem?-none : (xs : List A) (i : ℕ) → length xs ≤ i → get_elem? xs i ≡ none
  get_elem?-none [] i h = refl
  get_elem?-none (x ∷ xs) zero h = absurd (omega arith)
  get_elem?-none (x ∷ xs) (suc i) h = get_elem?-none xs i (omega arith)

  lt_of_get_elem? : (xs : List A) (i : ℕ) (x : A) → get_elem? xs i ≡ some x → i < length xs
  lt_of_get_elem? [] i x h = cc
  lt_of_get_elem? (y ∷ xs) zero x h = omega arith
  lt_of_get_elem? (y ∷ xs) (suc i) x h = omega (arith, lt_of_get_elem? xs i x h)

  module _ (s : LazyCopy A) (h : IsValid s) where
    length-view : length (view s) + length (pops s) ≡ length s.values
    unfolding view
    length-view =
        let e = length-masked (mask_get s.mask) 0 s.values in
        length-delete_all (pops s) (masked (mask_get s.mask) 0 s.values) (rw e h.fits) ∙ e

    -- `len` is the length of the list.
    pub size-view : size s ≡ length (view s)
    unfolding size
    size-view = ground (arith, length-view)

    underlying_inside :
        (i : ℕ) → i < length (view s) → underlying_index s (pos i) ≡ ok (i, shift_all (pops s) i)
    unfolding underlying_index
    underlying_inside i l = ground (arith, size-view, length-view)

    underlying_outside :
        (i : ℕ) → length (view s) ≤ i → underlying_index s (pos i) ≡ raise index_error
    unfolding underlying_index
    underlying_outside i l = ground (arith, size-view)

    underlying_value :
        (i : ℕ)
        → i < length (view s)
        → (x : A) × (get_elem? s.values (shift_all (pops s) i) ≡ some x)
          × (get_elem? (view s) i ≡ some (written (mask_get s.mask (shift_all (pops s) i)) x))
    unfolding view
    underlying_value i l =
        let u : ℕ = shift_all (pops s) i in
        let m = masked (mask_get s.mask) 0 s.values in
        let e = get_elem?-delete_all (pops s) m i in
        let (y, f) = get_elem?_lt (view s) i l in
        let g = lt_of_get_elem? m u y (sym e ∙ f) in
        let (x, k) =
          get_elem?_lt s.values u (omega (arith, length-masked (mask_get s.mask) 0 s.values)) in
        (x, k, e ∙ get_elem?-masked (mask_get s.mask) 0 u u s.values x (omega arith) k)

    get_item_outside : (i : ℕ) → length (view s) ≤ i → get_item s (pos i) ≡ raise index_error
    unfolding get_item
    get_item_outside i l = rw (underlying_outside i l)

    get_item_inside :
        (i : ℕ)
        → i < length (view s)
        → get_item s (pos i) ≡ of_option index_error (get_elem? (view s) i)
    unfolding get_item
    get_item_inside i l =
        let (x, e, f) = underlying_value i l in rw (underlying_inside i l, e, f) (ground arith)

    -- For a valid copy and an index that is not negative, `s[i]` is the element of the list that the
    -- copy stands for, or an IndexError.
    pub get_item-view : (i : ℕ) → get_item s (pos i) ≡ of_option index_error (get_elem? (view s) i)
    get_item-view i = elim (dec_lt i (length (view s))) [
      | yes l ↦ get_item_inside i l
      | no l ↦ get_item_outside i (omega arith) ∙ rw (get_elem?-none (view s) i (omega arith))
    ]

    after_set : ℕ → A → LazyCopy A
    after_set i v = record s { mask = mask_set s.mask (shift_all (pops s) i) v }

    mask_get-set_self : (m : Option (Mask A)) (u : ℕ) (v : A) → mask_get (mask_set m u v) u ≡ some v
    unfolding mask_get mask_set
    mask_get-set_self none u v = ground arith
    mask_get-set_self (some m) u v = ground arith

    mask_get-set_ne :
        (m : Option (Mask A)) (u : ℕ) (v : A) (j : ℕ)
        → j ≢ u
        → mask_get (mask_set m u v) j ≡ mask_get m j
    unfolding mask_get mask_set
    mask_get-set_ne none u v j n = ground arith
    mask_get-set_ne (some m) u v j n = ground arith

    view-after_set : (i : ℕ) (v : A) → view (after_set i v) ≡ set (view s) i v
    unfolding view after_set
    view-after_set i v =
        let u : ℕ = shift_all (pops s) i in
        ap (delete_all (pops s)) (
          masked-update (mask_get s.mask) (mask_get (mask_set s.mask u v)) v 0 u u s.values
            (omega arith) (mask_get-set_self s.mask u v) (mask_get-set_ne s.mask u v))
        ∙ set-delete_all (pops s) (masked (mask_get s.mask) 0 s.values) i v

    -- For a valid copy, `s[i] = v` at an index from 0 to the size writes to the list that the copy
    -- stands for, and leaves a valid copy.
    pub set_item-view :
        (i : ℕ) (v : A)
        → i < length (view s)
        → (s' : LazyCopy A) × (set_item s (pos i) v ≡ ok s')
          × IsValid s'
          × (view s' ≡ set (view s) i v)
    unfolding set_item after_set
    set_item-view i v l = (
      after_set i v,
      rw (underlying_inside i l),
      record { len_values = h.len_values; fits = h.fits },
      view-after_set i v,
    )

    mask_get-drop_ne :
        (m : Option (Mask A)) (u j : ℕ) → j ≢ u → mask_get (mask_drop m u) j ≡ mask_get m j
    unfolding mask_get mask_drop
    mask_get-drop_ne none u j n = refl
    mask_get-drop_ne (some m) u j n = ground arith

    module _ (is_none : A → Bool) where
      after_pop : ℕ → LazyCopy A
      after_pop i = record s {
        mask = mask_drop s.mask (shift_all (pops s) i);
        popped_at = some (pops s ++ i ∷ []);
      }

      view-after_pop : (i : ℕ) → i < length (view s) → view (after_pop i) ≡ delete_at i (view s)
      unfolding view after_pop
      view-after_pop i l =
          let u : ℕ = shift_all (pops s) i in
          let m = masked (mask_get s.mask) 0 s.values in
          let m' = masked (mask_get (mask_drop s.mask u)) 0 s.values in
          let (x, e, f) = underlying_value i l in
          delete_all-append (pops s) i m'
          ∙ ap (λ t. delete_at i (delete_all (pops s) t))
              (masked-change (mask_get s.mask) (mask_get (mask_drop s.mask u)) 0 u u s.values x
                (omega arith) e (mask_get-drop_ne s.mask u))
          ∙ ap (delete_at i) (set-delete_all (pops s) m i _)
          ∙ delete_at-set i (view s) _

      after_pop-IsValid : (i : ℕ) → i < length (view s) → IsValid (after_pop i)
      unfolding after_pop
      after_pop-IsValid i l = record {
        len_values = h.len_values;
        fits = Fits-append (length s.values) (pops s) i h.fits (omega (arith, length-view));
      }

      popped_value_lem :
          (o : Option A) (x : A)
          → ((v : A) → is_none v ≡ false)
          → popped_value is_none o (ok x) ≡ ok (written o x)
      unfolding popped_value
      popped_value_lem none x n = refl
      popped_value_lem (some v) x n = rw (n v)

      -- For a valid copy, `s.pop(i)` at an index from 0 to the size returns the element and deletes it
      -- from the list that the copy stands for, as long as no element is None; it leaves a valid copy.
      pub pop-view :
          (i : ℕ)
          → i < length (view s)
          → ((v : A) → is_none v ≡ false)
          → (v : A) × (s' : LazyCopy A) × (pop is_none s (pos i) ≡ ok (v, s'))
            × (get_elem? (view s) i ≡ some v)
            × IsValid s'
            × (view s' ≡ delete_at i (view s))
      unfolding pop after_pop
      pop-view i l no_none =
          let (x, e, f) = underlying_value i l in
          let some_left : (size s == 0) ≡ false = ground (arith, size-view) in
          (
            written (mask_get s.mask (shift_all (pops s) i)) x,
            after_pop i,
            rw (
              some_left,
              underlying_inside i l,
              e,
              popped_value_lem (mask_get s.mask (shift_all (pops s) i)) x no_none,
            ),
            f,
            after_pop-IsValid i l,
            view-after_pop i l,
          )

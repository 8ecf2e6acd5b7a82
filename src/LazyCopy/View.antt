-- ===== src/LazyCopy/View.antt =====
-- The list that a `LazyCopy` stands for.
use hypothesis.Common.{
  ℕ, zero, suc, ◌+◌, ◌-◌, ◌≤◌, ◌<◌, ◌≡◌, ◌≢◌, refl, ap, ◌∙◌, Option, none, some, List, [], ◌∷◌,
  ◌++◌, arith, leb, if◌then◌else◌, length, get_elem?, set,
}
use hypothesis.LazyCopy.{LazyCopy, shift_all, pops, mask_get}

-- Every pop was in range when it was made.
abbrev pub Fits : ℕ → List ℕ → Type 0
Fits n [] = Unit
Fits n (p ∷ ps) = (p < n) × Fits (n - 1) ps

pub Fits-append :
    (n : ℕ) (ps : List ℕ) (p : ℕ) → Fits n ps → p + length ps < n → Fits n (ps ++ p ∷ [])
Fits-append n [] p f h = (omega arith, tt)
Fits-append n (q ∷ ps) p f h = (f.0, Fits-append (n - 1) ps p f.1 (omega arith))

module _ {ℓ} {A : Type ℓ} where
  unfoldable pub delete_at : ℕ → List A → List A
  delete_at p [] = []
  delete_at zero (x ∷ xs) = xs
  delete_at (suc p) (x ∷ xs) = x ∷ delete_at p xs

  unfoldable pub delete_all : List ℕ → List A → List A
  delete_all [] xs = xs
  delete_all (p ∷ ps) xs = delete_all ps (delete_at p xs)

  abbrev pub written : Option A → A → A
  written none x = x
  written (some v) x = v

  -- The underlying values, from the position `k` on, with what was written over them.
  unfoldable pub masked : (ℕ → Option A) → ℕ → List A → List A
  masked m k [] = []
  masked m k (x ∷ xs) = written (m k) x ∷ masked m (k + 1) xs

  unfoldable pub view : LazyCopy A → List A
  view s = delete_all (pops s) (masked (mask_get s.mask) 0 s.values)

  pub length-delete_at :
      (p : ℕ) (xs : List A) → p < length xs → length (delete_at p xs) + 1 ≡ length xs
  unfolding delete_at
  length-delete_at p [] h = absurd (omega arith)
  length-delete_at zero (x ∷ xs) h = omega arith
  length-delete_at (suc p) (x ∷ xs) h = omega (arith, length-delete_at p xs (omega arith))

  get_elem?-delete_at :
      (p : ℕ) (xs : List A) (i : ℕ)
      → get_elem? (delete_at p xs) i ≡ get_elem? xs (if leb p i then i + 1 else i)
  unfolding delete_at
  get_elem?-delete_at p [] i = refl
  get_elem?-delete_at zero (x ∷ xs) i = ground arith
  get_elem?-delete_at (suc p) (x ∷ xs) zero = ground arith
  get_elem?-delete_at (suc p) (x ∷ xs) (suc i) = ground (arith, get_elem?-delete_at p xs i)

  pub get_elem?-delete_all :
      (ps : List ℕ) (xs : List A) (i : ℕ)
      → get_elem? (delete_all ps xs) i ≡ get_elem? xs (shift_all ps i)
  unfolding delete_all shift_all
  get_elem?-delete_all [] xs i = refl
  get_elem?-delete_all (p ∷ ps) xs i =
      get_elem?-delete_all ps (delete_at p xs) i ∙ get_elem?-delete_at p xs (shift_all ps i)

  set-delete_at :
      (p : ℕ) (xs : List A) (i : ℕ) (v : A)
      → delete_at p (set xs (if leb p i then i + 1 else i) v) ≡ set (delete_at p xs) i v
  unfolding delete_at
  set-delete_at p [] i v = refl
  set-delete_at zero (x ∷ xs) i v = ground arith
  set-delete_at (suc p) (x ∷ xs) zero v = ground arith
  set-delete_at (suc p) (x ∷ xs) (suc i) v = ground (arith, set-delete_at p xs i v)

  pub set-delete_all :
      (ps : List ℕ) (xs : List A) (i : ℕ) (v : A)
      → delete_all ps (set xs (shift_all ps i) v) ≡ set (delete_all ps xs) i v
  unfolding delete_all shift_all
  set-delete_all [] xs i v = refl
  set-delete_all (p ∷ ps) xs i v =
      ap (delete_all ps) (set-delete_at p xs (shift_all ps i) v)
      ∙ set-delete_all ps (delete_at p xs) i v

  pub delete_at-set : (p : ℕ) (xs : List A) (v : A) → delete_at p (set xs p v) ≡ delete_at p xs
  unfolding delete_at
  delete_at-set p [] v = refl
  delete_at-set zero (x ∷ xs) v = refl
  delete_at-set (suc p) (x ∷ xs) v = ap (◌∷◌ x) (delete_at-set p xs v)

  pub delete_all-append :
      (ps : List ℕ) (p : ℕ) (xs : List A)
      → delete_all (ps ++ p ∷ []) xs ≡ delete_at p (delete_all ps xs)
  unfolding delete_all
  delete_all-append [] p xs = refl
  delete_all-append (q ∷ ps) p xs = delete_all-append ps p (delete_at q xs)

  pub length-delete_all :
      (ps : List ℕ) (xs : List A)
      → Fits (length xs) ps
      → length (delete_all ps xs) + length ps ≡ length xs
  unfolding delete_all
  length-delete_all [] xs f = omega arith
  length-delete_all (p ∷ ps) xs f =
      let e = length-delete_at p xs f.0 in
      let g : length xs - 1 ≡ length (delete_at p xs) = omega arith in
      omega (arith, length-delete_all ps (delete_at p xs) (rw g at f.1))

  pub length-masked : (m : ℕ → Option A) (k : ℕ) (xs : List A) → length (masked m k xs) ≡ length xs
  unfolding masked
  length-masked m k [] = refl
  length-masked m k (x ∷ xs) = ap suc (length-masked m (k + 1) xs)

  masked_ext :
      (m m' : ℕ → Option A) (k : ℕ) (xs : List A)
      → ((j : ℕ) → k ≤ j → m j ≡ m' j)
      → masked m k xs ≡ masked m' k xs
  unfolding masked
  masked_ext m m' k [] h = refl
  masked_ext m m' k (x ∷ xs) h =
      rw (h k (omega arith), masked_ext m m' (k + 1) xs (λ j e. h j (omega arith)))

  -- Writing through the mask at one position.
  pub masked-update :
      (m m' : ℕ → Option A) (v : A) (k i u : ℕ) (xs : List A)
      → k + i ≡ u
      → m' u ≡ some v
      → ((j : ℕ) → j ≢ u → m' j ≡ m j)
      → masked m' k xs ≡ set (masked m k xs) i v
  unfolding masked
  masked-update m m' v k i u [] e h o = refl
  masked-update m m' v k zero u (x ∷ xs) e h o =
      let e' : k ≡ u = omega arith in
      rw (masked_ext m' m (k + 1) xs (λ j l. o j (omega arith)), e', h)
  masked-update m m' v k (suc i) u (x ∷ xs) e h o =
      rw (masked-update m m' v (k + 1) i u xs (omega arith) h o, o k (omega arith))

  pub masked-change :
      (m m' : ℕ → Option A) (k i u : ℕ) (xs : List A) (x : A)
      → k + i ≡ u
      → get_elem? xs i ≡ some x
      → ((j : ℕ) → j ≢ u → m' j ≡ m j)
      → masked m' k xs ≡ set (masked m k xs) i (written (m' u) x)
  unfolding masked
  masked-change m m' k i u [] x e h o = cc
  masked-change m m' k zero u (y ∷ xs) x e h o =
      let e' : k ≡ u = omega arith in
      rw (masked_ext m' m (k + 1) xs (λ j l. o j (omega arith)), e') (ground arith)
  masked-change m m' k (suc i) u (y ∷ xs) x e h o =
      rw (masked-change m m' (k + 1) i u xs x (omega arith) h o, o k (omega arith))

  pub get_elem?-masked :
      (m : ℕ → Option A) (k i u : ℕ) (xs : List A) (x : A)
      → k + i ≡ u
      → get_elem? xs i ≡ some x
      → get_elem? (masked m k xs) i ≡ some (written (m u) x)
  unfolding masked
  get_elem?-masked m k i u [] x e h = cc
  get_elem?-masked m k zero u (y ∷ xs) x e h =
      let e' : k ≡ u = omega arith in rw (← e') (ground arith)
  get_elem?-masked m k (suc i) u (y ∷ xs) x e h =
      get_elem?-masked m (k + 1) i u xs x (omega arith) h

-- ===== src/IntList/Words.antt =====
-- The word sizes of the arrays: what each holds, and that an upgrade holds more.
use hypothesis.Common.{
  ℕ, zero, suc, ◌+◌, ◌≤◌, ◌≡◌, refl, ap, Bool, true, false, ◌&&◌, some, List, [], ◌∷◌, ◌++◌, arith,
  ltb, length, set,
}
use hypothesis.Common.Int.{ℤ, pos, negsuc}
use hypothesis.IntList.{
  Code, byte, short, int, long, quad, object, next_array_code, is_array, fits, all, non_negative,
  is_positive,
}

module _ (test : ℤ → Bool) where
  pub all-append : (xs ys : List ℤ) → all test (xs ++ ys) ≡ (all test xs && all test ys)
  unfolding all
  all-append [] ys = refl
  all-append (x ∷ xs) ys = ground (arith, all-append xs ys)

  pub all-set :
      (xs : List ℤ) (k : ℕ) (n : ℤ)
      → all test xs ≡ true
      → test n ≡ true
      → all test (set xs k n) ≡ true
  unfolding all
  all-set [] k n h t = refl
  all-set (x ∷ xs) zero n h t = ground arith
  all-set (x ∷ xs) (suc k) n h t = ground (arith, all-set xs k n)

pub set-length : (xs : List ℤ) (a b : ℤ) → set (xs ++ a ∷ []) (length xs) b ≡ xs ++ b ∷ []
set-length [] a b = refl
set-length (x ∷ xs) a b = ap (◌∷◌ x) (set-length xs a b)

-- How many upgrades are left.
abbrev pub rank : Code → ℕ
rank byte = 5
rank short = 4
rank int = 3
rank long = 2
rank quad = 1
rank object = 0

pub fits-natural :
    (c : Code) (n : ℤ) → non_negative n ≡ true → fits c n ≡ false → is_positive n ≡ true
unfolding fits non_negative is_positive
fits-natural byte (pos zero) h f = ground arith
fits-natural short (pos zero) h f = ground arith
fits-natural int (pos zero) h f = ground arith
fits-natural long (pos zero) h f = ground arith
fits-natural quad (pos zero) h f = ground arith
fits-natural object n h f = cc
fits-natural c (pos (suc n)) h f = refl
fits-natural c (negsuc n) h f = cc

widen : {a b : ℕ} (n : ℕ) → a ≤ b → ltb n a ≡ true → ltb n b ≡ true
widen n l h = ground arith

fits-byte : (n : ℤ) → fits byte n ≡ true → fits short n ≡ true
unfolding fits
fits-byte (pos n) h = widen n (omega arith) h
fits-byte (negsuc n) h = cc

fits-short : (n : ℤ) → fits short n ≡ true → fits int n ≡ true
unfolding fits
fits-short (pos n) h = widen n (omega arith) h
fits-short (negsuc n) h = cc

fits-int : (n : ℤ) → fits int n ≡ true → fits long n ≡ true
unfolding fits
fits-int (pos n) h = widen n (omega arith) h
fits-int (negsuc n) h = cc

fits-long : (n : ℤ) → fits long n ≡ true → fits quad n ≡ true
unfolding fits
fits-long (pos n) h = h
fits-long (negsuc n) h = cc

fits-object : (n : ℤ) → fits object n ≡ true
unfolding fits
fits-object (pos n) = refl
fits-object (negsuc n) = refl

-- The next word size holds what a word size holds, and has fewer upgrades left.
pub fits-next :
    (c : Code)
    → is_array c ≡ true
    → (d : Code) × (next_array_code c ≡ some d)
      × (rank d + 1 ≡ rank c)
      × ((n : ℤ) → fits c n ≡ true → fits d n ≡ true)
unfolding next_array_code is_array
fits-next byte h = (short, refl, refl, fits-byte)
fits-next short h = (int, refl, refl, fits-short)
fits-next int h = (long, refl, refl, fits-int)
fits-next long h = (quad, refl, refl, fits-long)
fits-next quad h = (object, refl, refl, λ n _. fits-object n)
fits-next object h = cc

pub all_object : (xs : List ℤ) → all (fits object) xs ≡ true
unfolding all
all_object [] = refl
all_object (x ∷ xs) = rw (fits-object x, all_object xs)

pub is_array-full : (c : Code) (n : ℤ) → fits c n ≡ false → is_array c ≡ true
unfolding is_array
is_array-full object n h = let e = fits-object n in cc
is_array-full byte n h = refl
is_array-full short n h = refl
is_array-full int n h = refl
is_array-full long n h = refl
is_array-full quad n h = refl

pub all_mono :
    (p q : ℤ → Bool) (xs : List ℤ)
    → ((n : ℤ) → p n ≡ true → q n ≡ true)
    → all p xs ≡ true
    → all q xs ≡ true
unfolding all
all_mono p q [] f h = refl
all_mono p q (x ∷ xs) f h = ground (arith, f x, all_mono p q xs f)

pub fits_zero : (c : Code) → fits c (pos 0) ≡ true
unfolding fits
fits_zero byte = refl
fits_zero short = refl
fits_zero int = refl
fits_zero long = refl
fits_zero quad = refl
fits_zero object = refl

pub array-natural : (c : Code) (n : ℤ) → is_array c ≡ true → fits c n ≡ true → non_negative n ≡ true
unfolding is_array fits non_negative
array-natural c (pos n) a f = refl
array-natural object (negsuc n) a f = cc
array-natural byte (negsuc n) a f = cc
array-natural short (negsuc n) a f = cc
array-natural int (negsuc n) a f = cc
array-natural long (negsuc n) a f = cc
array-natural quad (negsuc n) a f = cc

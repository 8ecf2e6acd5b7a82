-- ===== src/LazyCopy.antt =====
-- `LazySequenceCopy` of internal/conjecture/junkdrawer.py: a sequence under a mask of what was written
-- and a record of what was popped. Elements are of any type, with the test `is None` as a parameter.
pub mod View
pub mod Refines
pub mod Swap
pub mod Examples
use hypothesis.Common.{
  ℕ, zero, suc, ◌+◌, ◌-◌, Bool, true, false, ◌&&◌, Option, none, some, List, [], ◌∷◌, ◌++◌, ltb,
  leb, ◌==◌, if◌then◌else◌, length, get_elem?,
}
use hypothesis.Common.Int.{ℤ, pos, negsuc, eq_ℤ}
use hypothesis.Common.Result.{Result, ok, raise, ◌>>=◌, ◌>>◌, check, of_option, index_error}

-- A dictionary from positions to elements, as a function.
abbrev pub Mask {ℓ} : Type ℓ → Type ℓ
Mask A = ℕ → Option A

pub record LazyCopy {ℓ} (A : Type ℓ) : Type ℓ where
  pub values : List A
  pub len : ℕ
  pub mask : Option (Mask A)
  pub popped_at : Option (List ℕ)

-- for p in reversed(self.__popped_at): u += p <= u
pub shift_all : List ℕ → ℕ → ℕ
shift_all [] u = u
shift_all (p ∷ ps) u = let u' = shift_all ps u in if leb p u' then u' + 1 else u'

-- `if i < -n or i >= n: raise IndexError`, `if i < 0: i += n`
unfoldable pub normalise : ℕ → ℤ → Result ℕ
normalise n (pos i) = if ltb i n then ok i else raise index_error
normalise n (negsuc i) = if ltb i n then ok (n - (i + 1)) else raise index_error

module _ {ℓ} {A : Type ℓ} where
  -- `self.__popped_at` and `self.__mask`, where None is the same as empty
  abbrev pub pops : LazyCopy A → List ℕ
  pops s = elim s.popped_at [ none ↦ [] | some ps ↦ ps ]

  unfoldable pub mask_get : Option (Mask A) → ℕ → Option A
  mask_get none u = none
  mask_get (some m) u = m u

  -- self.__mask[u] = v, where the mask is made when it is first written to
  unfoldable pub mask_set : Option (Mask A) → ℕ → A → Option (Mask A)
  mask_set none u v = some (λ j. if j == u then some v else none)
  mask_set (some m) u v = some (λ j. if j == u then some v else m j)

  -- what self.__mask.pop(u, None) leaves
  unfoldable pub mask_drop : Option (Mask A) → ℕ → Option (Mask A)
  mask_drop none u = none
  mask_drop (some m) u = some (λ j. if j == u then none else m j)

  -- `LazySequenceCopy(values)`
  unfoldable pub init : List A → LazyCopy A
  init values = record { values = values; len = length values; mask = none; popped_at = none }

  -- `__len__`
  unfoldable pub size : LazyCopy A → ℕ
  size s = elim s.popped_at [ none ↦ s.len | some ps ↦ s.len - length ps ]

  unfoldable pub underlying_index : LazyCopy A → ℤ → Result (ℕ × ℕ)
  unfolding normalise size
  underlying_index s index = do
    let n = size s
    i ← normalise n index
    check (ltb i n)
    check (leb (length (pops s)) (length s.values))
    ok (i, shift_all (pops s) i)

  unfoldable pub get_item : LazyCopy A → ℤ → Result A
  unfolding underlying_index mask_get
  get_item s index = do
    (_, u) ← underlying_index s index
    default ← of_option index_error (get_elem? s.values u)
    ok (elim (mask_get s.mask u) [ none ↦ default | some v ↦ v ])

  unfoldable pub set_item : LazyCopy A → ℤ → A → Result (LazyCopy A)
  unfolding underlying_index mask_set
  set_item s index v = do
    (_, u) ← underlying_index s index
    ok (record s { mask = mask_set s.mask u v })

  unfoldable pub swap : LazyCopy A → ℤ → ℤ → Result (LazyCopy A)
  swap s i j =
      if eq_ℤ i j
      then ok s
      else do a ← get_item s j; b ← get_item s i; t ← set_item s i a; set_item t j b

  module _ (is_none : A → Bool) where
    -- The masked value if there is one and it is not None, or else the underlying one.
    unfoldable pub popped_value : Option A → Result A → Result A
    popped_value none underlying = underlying
    popped_value (some v) underlying = if is_none v then underlying else ok v

    unfoldable pub pop : LazyCopy A → ℤ → Result (A × LazyCopy A)
    unfolding underlying_index mask_get mask_drop popped_value
    pop s index = if size s == 0 then raise index_error else do
      (i, u) ← underlying_index s index
      v ← popped_value (mask_get s.mask u) (of_option index_error (get_elem? s.values u))
      ok (v, record s { mask = mask_drop s.mask u; popped_at = some (pops s ++ i ∷ []) })

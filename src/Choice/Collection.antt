-- ===== src/Choice/Collection.antt =====
-- `collection_index` and `collection_value` of internal/conjecture/choice.py, the order of bytes and
-- strings. `math.log` is a parameter: `log total base` is the floor of the floating-point logarithm, or
-- none where that is within 1e-7 below a whole number and the code falls back to whole numbers.
pub mod Powers
pub mod Digits
pub mod RoundTrip
pub mod Examples
use hypothesis.Common.{
  ℕ, zero, suc, ◌+◌, ◌-◌, ◌*◌, ◌/◌, ◌^◌, Bool, Option, none, some, List, [], ◌∷◌, ◌++◌, leb, ◌==◌,
  if◌then◌else◌, length,
}
use hypothesis.Common.Int.{ℤ, pos, negsuc, ◌+ℤ◌, ◌-ℤ◌, ◌*ℤ◌, eq_ℤ}
use hypothesis.Common.Result.{Result, ok, raise, ◌>>=◌, ◌>>◌, check, choice_too_large}

-- `_size_to_index`
unfoldable pub size_to_index : ℕ → ℕ → Result ℕ
size_to_index size zero = do check (size == 0); ok 0
size_to_index size (suc zero) = ok size
size_to_index size (suc (suc b)) = ok ((suc (suc b) ^ size - 1) / suc b)

-- while total >= alphabet_size: total //= alphabet_size; s += 1
unfoldable pub integer_log : ℕ → ℕ → ℕ → ℕ
integer_log zero total alphabet_size = 0
integer_log (suc fuel) total alphabet_size =
    let rest = integer_log fuel (total / alphabet_size) alphabet_size in
    if leb alphabet_size total then rest + 1 else 0

unfoldable pub buffer_size : ℕ
buffer_size = 8192

-- index // d
unfoldable pub floor_div : ℤ → ℕ → ℤ
floor_div (pos n) d = pos (n / d)
floor_div (negsuc n) d = negsuc (n / d)

unfoldable pub reverse {ℓ} : {A : Type ℓ} → List A → List A
reverse [] = []
reverse (x ∷ xs) = reverse xs ++ x ∷ []

module _ {ℓ} {A : Type ℓ} (to_order : A → ℕ) (alphabet_size : ℕ) where
  -- The loop of `collection_index`, with `running_exp`
  unfoldable pub index_loop : ℕ → List A → ℤ → ℤ
  index_loop running_exp [] index = index
  index_loop running_exp (c ∷ cs) index =
      index_loop (running_exp * alphabet_size) cs (index +ℤ pos (running_exp * to_order c))

  unfoldable pub collection_index : List A → ℕ → Result ℤ
  unfolding reverse
  collection_index choice min_size = do
    size ← size_to_index (length choice) alphabet_size
    least ← size_to_index min_size alphabet_size
    ok (index_loop 1 (reverse choice) (pos size -ℤ pos least))

module _ (log : ℕ → ℕ → Option ℕ) where
  -- `_index_to_size`; the integer logarithm halves `total` at least, so `total` rounds are enough.
  unfoldable pub index_to_size : ℕ → ℕ → ℕ
  index_to_size index zero = 0
  index_to_size index (suc zero) = index
  index_to_size index (suc (suc b)) =
      let total = index * suc b + 1 in
      elim (log total (suc (suc b))) [
        | none ↦ integer_log total total (suc (suc b))
        | some size ↦ size
      ]

module _ {ℓ} {A : Type ℓ} (from_order : ℤ → A) where
  -- The loop of `collection_value`, from the position `size` down
  unfoldable pub value_loop : ℕ → ℕ → ℤ → List A
  value_loop alphabet_size zero index = []
  value_loop alphabet_size (suc i) index =
      let n = if eq_ℤ index (pos 0) then pos 0 else floor_div index (alphabet_size ^ i) in
      let index' = if eq_ℤ index (pos 0) then index else index -ℤ n *ℤ pos (alphabet_size ^ i) in
      from_order n ∷ value_loop alphabet_size i index'

  unfoldable pub collection_value : (ℕ → ℕ → Option ℕ) → ℕ → ℕ → ℕ → Result (List A)
  collection_value log index min_size alphabet_size = do
    least ← size_to_index min_size alphabet_size
    let size = index_to_size log (index + least) alphabet_size
    if leb buffer_size size then raise choice_too_large else do
      start ← size_to_index size alphabet_size
      ok (value_loop alphabet_size size (pos (index + least) -ℤ pos start))

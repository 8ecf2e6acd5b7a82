-- ===== src/Choice/Kinds/Orders.antt =====
-- Collections whose elements are their own orders, as those of bytes are.
use hypothesis.Common.{
  ℕ, ◌+◌, ◌-◌, ◌*◌, ◌≤◌, ◌<◌, ◌≡◌, refl, sym, ap, ◌∙◌, Option, List, [], ◌∷◌, ◌++◌, arith, length,
  map, length-map,
}
use hypothesis.Common.Int.{ℤ, pos, ◌+ℤ◌, ◌-ℤ◌}
use hypothesis.Common.Result.{Result, ok, raise, ◌>>=◌}
use hypothesis.Choice.Collection.{
  index_loop, reverse, collection_index, collection_value, buffer_size, size_to_index,
}
use hypothesis.Choice.Collection.Powers.{shorter, Exact}
use hypothesis.Choice.Collection.Digits.{number, AreDigits, AreRead}
use hypothesis.Choice.Collection.RoundTrip.{collection_roundtrip}
use hypothesis.Choice.Kinds.{magnitude}

index_loop-map :
    (a e : ℕ) (xs : List ℕ) (i : ℤ)
    → index_loop magnitude a e (map pos xs) i ≡ index_loop (λ x. x) a e xs i
unfolding index_loop magnitude
index_loop-map a e [] i = refl
index_loop-map a e (x ∷ xs) i = index_loop-map a (e * a) xs (i +ℤ pos (e * x))

map-append : (xs ys : List ℕ) → map pos (xs ++ ys) ≡ map pos xs ++ map pos ys
map-append [] ys = refl
map-append (x ∷ xs) ys = ap (◌∷◌ (pos x)) (map-append xs ys)

reverse-map : (xs : List ℕ) → reverse (map pos xs) ≡ map pos (reverse xs)
unfolding reverse
reverse-map [] = refl
reverse-map (x ∷ xs) =
    ap (λ l. l ++ pos x ∷ []) (reverse-map xs) ∙ sym (map-append (reverse xs) (x ∷ []))

loops_alike :
    (size least : Result ℕ) (f g : ℤ → ℤ)
    → ((i : ℤ) → f i ≡ g i)
    → (size >>= (λ s. least >>= (λ l. ok (f (pos s -ℤ pos l)))))
      ≡ (size >>= (λ s. least >>= (λ l. ok (g (pos s -ℤ pos l)))))
loops_alike (raise error) least f g h = refl
loops_alike (ok s) (raise error) f g h = refl
loops_alike (ok s) (ok l) f g h = ap ok (h (pos s -ℤ pos l))

-- The order of a number is the number.
pub collection_index-map :
    (a : ℕ) (xs : List ℕ) (min_size : ℕ)
    → collection_index (λ x. x) a xs min_size ≡ collection_index magnitude a (map pos xs) min_size
unfolding collection_index
collection_index-map a xs min_size =
    rw (length-map xs pos, reverse-map xs)
      (loops_alike (size_to_index (length xs) a) (size_to_index min_size a)
        (index_loop (λ x. x) a 1 (reverse xs)) (index_loop magnitude a 1 (map pos (reverse xs)))
        (λ i. sym (index_loop-map a 1 (reverse xs) i)))

number-map : (a : ℕ) (xs : List ℕ) → number magnitude a (map pos xs) ≡ number (λ x. x) a xs
unfolding number magnitude
number-map a [] = refl
number-map a (x ∷ xs) = rw (length-map xs pos, number-map a xs) refl

AreDigits-map : (a : ℕ) (xs : List ℕ) → AreDigits (λ x. x) a xs → AreDigits magnitude a (map pos xs)
unfolding magnitude
AreDigits-map a [] d = tt
AreDigits-map a (x ∷ xs) d = (d.0, AreDigits-map a xs d.1)

map-AreRead : (a : ℕ) (xs : List ℕ) → AreRead magnitude a (λ z. z) (map pos xs)
unfolding magnitude
map-AreRead a [] = tt
map-AreRead a (x ∷ xs) = (refl, map-AreRead a xs)

module _ (log : ℕ → ℕ → Option ℕ) where
  -- The logarithm of the total for these orders is exact.
  abbrev pub IsExactAt : ℕ → List ℕ → Type 0
  IsExactAt a orders =
      Exact log a ((shorter a (length orders) + number (λ x. x) a orders) * (a - 1) + 1)

  pub orders_roundtrip :
      (a : ℕ) (orders : List ℕ) (min_size : ℕ)
      → 0 < a
      → AreDigits (λ x. x) a orders
      → min_size ≤ length orders
      → length orders < buffer_size
      → IsExactAt a orders
      → (n : ℕ) × (collection_index magnitude a (map pos orders) min_size ≡ ok (pos n))
        × (collection_value (λ z. z) log n min_size a ≡ ok (map pos orders))
  orders_roundtrip a orders min_size p d l b e =
      let same : length (map pos orders) ≡ length orders = length-map orders pos in
      collection_roundtrip magnitude (λ z. z) log a p (map pos orders) min_size
        (map-AreRead a orders) (AreDigits-map a orders d) (omega arith) (omega arith)
        (rw (same, number-map a orders) e)

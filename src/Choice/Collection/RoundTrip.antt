-- ===== src/Choice/Collection/RoundTrip.antt =====
-- `collection_value` inverts `collection_index`.
use hypothesis.Common.{
  ℕ, ◌+◌, ◌-◌, ◌*◌, ◌≤◌, ◌<◌, ◌≡◌, ap, ◌∙◌, false, Option, List, arith, leb, length,
}
use hypothesis.Common.Int.{ℤ, pos, ◌-ℤ◌}
use hypothesis.Common.Result.{ok}
use hypothesis.Choice.Collection.{collection_index, collection_value, buffer_size}
use hypothesis.Choice.Collection.Powers.{
  shorter, Exact, size_to_index_lem, index_to_size_lem, shorter_mono,
}
use hypothesis.Choice.Collection.Digits.{
  number, AreDigits, AreRead, index_loop-number, number-lt, value_loop-number, sub_pos,
}

sub_pos_le : (m n : ℕ) → m ≤ n → pos n -ℤ pos m ≡ pos (n - m)
sub_pos_le m n h =
    let e : n ≡ m + (n - m) = omega arith in ap (λ t. pos t -ℤ pos m) e ∙ sub_pos m (n - m)

module _ {ℓ} {A : Type ℓ} (to_order : A → ℕ) (from_order : ℤ → A) (log : ℕ → ℕ → Option ℕ) (a : ℕ)
    (positive : 0 < a) where
  index_lem :
      (xs : List A) (min_size : ℕ)
      → min_size ≤ length xs
      → collection_index to_order a xs min_size
        ≡ ok (pos (shorter a (length xs) - shorter a min_size + number to_order a xs))
  unfolding collection_index
  index_lem xs min_size l =
      rw
        (
          size_to_index_lem a (length xs) positive,
          size_to_index_lem a min_size positive,
          sub_pos_le (shorter a min_size) (shorter a (length xs))
              (shorter_mono a min_size (length xs) l),
        )
        (ap ok (index_loop-number to_order a xs (shorter a (length xs) - shorter a min_size)))

  -- For an alphabet that is not empty and a collection of its elements, of at least the least size and below the size of the buffer,
  -- `collection_index` gives a number that is not negative, and `collection_value` of it is the
  -- collection, where the order of every element can be read and the logarithm of the `total` that it computes is exact.
  pub collection_roundtrip :
      (xs : List A) (min_size : ℕ)
      → AreRead to_order a from_order xs
      → AreDigits to_order a xs
      → min_size ≤ length xs
      → length xs < buffer_size
      → Exact log a ((shorter a (length xs) + number to_order a xs) * (a - 1) + 1)
      → (index : ℕ) × (collection_index to_order a xs min_size ≡ ok (pos index))
        × (collection_value from_order log index min_size a ≡ ok xs)
  unfolding collection_value
  collection_roundtrip xs min_size inverse d l b e =
      let n : ℕ = length xs in
      let r : ℕ = number to_order a xs in
      let g : ℕ = shorter a n in
      let k : ℕ = shorter a min_size in
      let total : g - k + r + k ≡ g + r = omega (arith, shorter_mono a min_size n l) in
      let fits : leb buffer_size n ≡ false = ground arith in
      (
        g - k + r,
        index_lem xs min_size l,
        rw
            (
              size_to_index_lem a min_size positive,
              total,
              index_to_size_lem log a n r positive (number-lt to_order a xs d) e,
              fits,
              size_to_index_lem a n positive,
              sub_pos g r,
            )
            (ap ok (value_loop-number to_order a from_order xs inverse d)),
      )

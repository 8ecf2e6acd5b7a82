-- ===== src/Intervals/ShrinkOrder.antt =====
-- `char_in_shrink_order` and its inverse.
use hypothesis.Common.{
  ℕ, ◌+◌, ◌-◌, ◌≤◌, ◌<◌, ◌≡◌, refl, true, List, [], ◌∷◌, arith, dec_lt, leb, if◌then◌else◌, le→leb,
  Bool-cases, inl, inr,
}
use hypothesis.Common.Int.{pos, ◌+ℤ◌, ◌-ℤ◌}
use hypothesis.Common.Result.{ok}
use hypothesis.Intervals.{
  max_code, chr, Interval, IntervalSet, make, offsets_from, index_above_loop, ord_zero, ord_z,
  get_item, unrotate, rotate, covers, char_in_shrink_order, index_from_char_in_shrink_order,
}
use hypothesis.Intervals.Members.{IsOrdered}
use hypothesis.Intervals.Indexing.{get_item_inside, get_item_outside, item}
use hypothesis.Intervals.Index.{get_item-index_iff, index-contains_iff, index_covered}

above_bounds :
    (offset lo a : ℕ) (l : List Interval)
    → IsOrdered lo l
    → (offset ≤ index_above_loop (offsets_from offset l).1 a (offsets_from offset l).0 l)
      × (index_above_loop (offsets_from offset l).1 a (offsets_from offset l).0 l
          ≤ (offsets_from offset l).1)
unfolding index_above_loop offsets_from
above_bounds offset lo a [] o = omega arith
above_bounds offset lo a ((u, v) ∷ l) o =
    ground (arith, above_bounds (offset + v + 1 - u) (v + 1) a l o.2)

above_mono :
    (offset lo a b : ℕ) (l : List Interval)
    → IsOrdered lo l
    → a ≤ b
    → index_above_loop (offsets_from offset l).1 a (offsets_from offset l).0 l
      ≤ index_above_loop (offsets_from offset l).1 b (offsets_from offset l).0 l
unfolding index_above_loop offsets_from
above_mono offset lo a b [] o h = omega arith
above_mono offset lo a b ((u, v) ∷ l) o h = ground (
  arith,
  above_bounds (offset + v + 1 - u) (v + 1) b l o.2,
  above_mono (offset + v + 1 - u) (v + 1) a b l o.2,
)

-- `idx_of_zero` is at most one above `idx_of_Z`, which is below the size.
record IsRotation (s : IntervalSet) (size m : ℕ) : Type 0 where
  at_z : s.idx_of_z ≡ pos m
  zero_le : s.idx_of_zero ≤ m + 1
  lt_size : m < size

make-IsRotation :
    (l : List Interval)
    → IsOrdered 0 l
    → 0 < (offsets_from 0 l).1
    → (m : ℕ) × IsRotation (make l) (offsets_from 0 l).1 m
unfolding make ◌-ℤ◌
make-IsRotation l o h =
    let a = above_mono 0 0 ord_zero ord_z l o (omega arith) in
    let b = above_bounds 0 0 ord_zero l o in
    let c = above_bounds 0 0 ord_z l o in
    let z : ℕ = index_above_loop (offsets_from 0 l).1 ord_z (offsets_from 0 l).0 l in
    elim (dec_lt z (offsets_from 0 l).1) [
      | yes d ↦ (z, record { at_z = ground arith; zero_le = omega arith; lt_size = omega arith })
      | no d ↦ (
        (offsets_from 0 l).1 - 1,
        record { at_z = ground arith; zero_le = omega arith; lt_size = omega arith },
      )
    ]

-- The position of the character with index `i`.
abbrev turn : ℕ → ℕ → ℕ → ℕ
turn a m i = if leb i m then (if leb (i + a) m then i + a else m - i) else i

unrotate_lem : (a m i : ℕ) → a ≤ m + 1 → unrotate a (pos m) (pos i) ≡ ok (pos (turn a m i))
unfolding unrotate ◌+ℤ◌ ◌-ℤ◌
unrotate_lem a m i h = ground arith

abbrev unturn : ℕ → ℕ → ℕ → ℕ
unturn a m j = if leb j m then (if leb a j then j - a else m - j) else j

rotate_lem : (a m j : ℕ) → a ≤ m + 1 → rotate a (pos m) (pos j) ≡ ok (pos (unturn a m j))
unfolding rotate ◌+ℤ◌ ◌-ℤ◌
rotate_lem a m j h = ground arith

unturn-turn : (a m i : ℕ) → a ≤ m + 1 → unturn a m (turn a m i) ≡ i
unturn-turn a m i h = ground arith

turn-unturn : (a m j : ℕ) → a ≤ m + 1 → turn a m (unturn a m j) ≡ j
turn-unturn a m j h = ground arith

turn_lt : (a m i size : ℕ) → m < size → i < size → turn a m i < size
turn_lt a m i size h k = ground arith

size_pos : (l : List Interval) (i : ℕ) → i < (make l).size → 0 < (offsets_from 0 l).1
unfolding make
size_pos l i h = omega arith

chr_lem : (c : ℕ) → c ≤ max_code → chr c ≡ ok c
unfolding chr
chr_lem c h = rw (le→leb c max_code h) refl

module _ (l : List Interval) (o : IsOrdered 0 l) where
  item_covered : (j c : ℕ) → get_item (make l) (pos j) ≡ ok c → covers l c ≡ true
  item_covered j c e = elim (Bool-cases (covers l c)) [
    | inl h ↦ h
    | inr h ↦
        let a = (get_item-index_iff l o c j).1 e in let b = (index-contains_iff l o c).1 h in cc
  ]

  -- In a valid set of code points, at most 0x10FFFF, every index below the size has a character, and the
  -- index of that character is the index.
  pub index-char_in_shrink_order :
      ((c : ℕ) → covers l c ≡ true → c ≤ max_code)
      → (i : ℕ) → i < (make l).size
      → (c : ℕ) × (char_in_shrink_order (make l) (pos i) ≡ ok c)
        × (index_from_char_in_shrink_order (make l) c ≡ ok (pos i))
  unfolding char_in_shrink_order index_from_char_in_shrink_order
  index-char_in_shrink_order codes i h =
      let (m, r) = make-IsRotation l o (size_pos l i h) in
      let a : ℕ = (make l).idx_of_zero in
      let j : ℕ = turn a m i in
      let e : get_item (make l) (pos j) ≡ ok (item l o j) =
        get_item_inside l o j (turn_lt a m i _ r.lt_size (unfold make in h)) in
      (
        item l o j,
        rw (r.at_z, unrotate_lem a m i r.zero_le, e)
            (chr_lem (item l o j) (codes (item l o j) (item_covered j (item l o j) e))),
        rw
            (
              (get_item-index_iff l o (item l o j) j).1 e,
              r.at_z,
              rotate_lem a m j r.zero_le,
              unturn-turn a m i r.zero_le,
            )
            refl,
      )

  index_lt : (c j : ℕ) → get_item (make l) (pos j) ≡ ok c → j < (make l).size
  unfolding make
  index_lt c j e = elim (dec_lt j (offsets_from 0 l).1) [
    | yes h ↦ h
    | no h ↦ let z = get_item_outside l o j (omega arith) in cc
  ]

  unturn_lt : (a m j size : ℕ) → m < size → j < size → unturn a m j < size
  unturn_lt a m j size h k = ground arith

  -- In a valid set, every code point of it that is a character has an index, below the size, and is the character of that index.
  pub char-index_from_char :
      (c : ℕ)
      → c ≤ max_code
      → covers l c ≡ true
      → (i : ℕ) × (index_from_char_in_shrink_order (make l) c ≡ ok (pos i))
        × (i < (make l).size)
        × (char_in_shrink_order (make l) (pos i) ≡ ok c)
  unfolding char_in_shrink_order index_from_char_in_shrink_order
  char-index_from_char c top h =
      let (j, e) = index_covered l o c h in
      let g = (get_item-index_iff l o c j).0 e in
      let k = index_lt c j g in
      let (m, r) = make-IsRotation l o (size_pos l j k) in
      let a : ℕ = (make l).idx_of_zero in
      (
        unturn a m j,
        rw (e, r.at_z, rotate_lem a m j r.zero_le) refl,
        unturn_lt a m j (make l).size (unfold make in r.lt_size) k,
        rw (r.at_z, unrotate_lem a m (unturn a m j) r.zero_le, turn-unturn a m j r.zero_le, g)
            (chr_lem c top),
      )

-- ===== src/Choice/Kinds/RoundTrip.antt =====
-- `choice_from_index` inverts `choice_to_index`, for choices of every kind.
use hypothesis.Common.{
  ℕ, suc, ◌≤◌, ◌<◌, ◌≡◌, ◌⊎◌, refl, ap, ◌∙◌, inl, inr, Bool, true, false, Option, List, [], ◌∷◌,
  arith, ltb, leb, leb→le, length, map, Bool-cases,
}
use hypothesis.Common.Int.{pos}
use hypothesis.Common.Result.{ok}
use hypothesis.Intervals.Members.{IsOrdered}
use hypothesis.Intervals.{
  Interval, max_code, make, covers, contains, char_in_shrink_order, index_from_char_in_shrink_order,
}
use hypothesis.Intervals.Laws.{IsValid}
use hypothesis.Intervals.ShrinkOrder.{char-index_from_char}
use hypothesis.Choice.Integer.RoundTrip.{integer_roundtrip}
use hypothesis.Choice.Integer.{integer_permitted}
use hypothesis.Choice.Collection.{buffer_size}
use hypothesis.Choice.Collection.Powers.{size_to_index_lem}
use hypothesis.Choice.Collection.Digits.{AreDigits}
use hypothesis.Choice.Kinds.Orders.{collection_index-map, IsExactAt, orders_roundtrip}
use hypothesis.Choice.Kinds.{
  Kind, integer, boolean, bytes, string, Choice, Constraints, BooleanConstraints, BytesConstraints,
  StringConstraints, least_chance, certain, for_each, boolean_to_index, boolean_from_index,
  only_choice, boolean_permitted, string_to_index, to_byte, all_contained, choice_to_index,
  choice_from_index, choice_permitted,
}

boolean_roundtrip :
    (b : Bool) (c : BooleanConstraints)
    → least_chance < certain
    → boolean_permitted b c ≡ true
    → (c.p ≡ 0) ⊎ (least_chance < c.p)
    → (n : ℕ) × (boolean_to_index b c ≡ pos n) × (boolean_from_index n c ≡ ok b)
unfolding boolean_permitted boolean_to_index boolean_from_index only_choice
boolean_roundtrip true c o h p = elim (Bool-cases (leb certain c.p)) [
  | inl e ↦ (0, ground arith, ground arith)
  | inr e ↦ (1, ground arith, ground arith)
]
boolean_roundtrip false c o h p = (0, ground arith, ground arith)

module _ (log : ℕ → ℕ → Option ℕ) where
  to_bytes-map : (v : List ℕ) → AreDigits (λ b. b) 256 v → for_each to_byte (map pos v) ≡ ok v
  unfolding for_each to_byte
  to_bytes-map [] d = refl
  to_bytes-map (b ∷ v) d =
      let e : ltb b 256 ≡ true = ground arith in rw (e, to_bytes-map v d.1) refl

  bytes_roundtrip :
      (v : List ℕ) (c : BytesConstraints)
      → choice_permitted bytes v c ≡ ok true
      → AreDigits (λ b. b) 256 v
      → length v < buffer_size
      → IsExactAt log 256 v
      → (n : ℕ) × (choice_to_index bytes v c ≡ ok (pos n))
        × (choice_from_index log bytes n c ≡ ok v)
  unfolding choice_permitted choice_to_index choice_from_index
  bytes_roundtrip v c h d b e =
      let l : c.min_size ≤ length v = elim (Bool-cases (ltb (length v) c.min_size)) [
        | inl q ↦ absurd (let z = rw q at h in cc)
        | inr q ↦ ground arith
      ] in
      let (n, f, g) = orders_roundtrip log 256 v c.min_size (omega arith) d l b e in
      (n, collection_index-map 256 v c.min_size ∙ f, rw g (to_bytes-map v d))

  -- The orders of the characters of a set
  module _ (l : List Interval) (o : IsOrdered 0 l) where
    contained_cons :
        (c : ℕ) (v : List ℕ)
        → all_contained (make l) (c ∷ v) ≡ ok true
        → (c ≤ max_code) × (covers l c ≡ true) × (all_contained (make l) v ≡ ok true)
    unfolding all_contained contains make
    contained_cons c v h = elim (Bool-cases (leb c max_code)) [
      | inl a ↦ elim (Bool-cases (covers l c)) [
        | inl b ↦ (leb→le c max_code a, b, rw (a, b) at h)
        | inr b ↦ absurd (let z = rw (a, b) at h in cc)
      ]
      | inr a ↦ absurd (let z = rw a at h in cc)
    ]

    -- The characters of a string of the set have orders below the size of the set, from which they are read.
    record HasOrders (v : List ℕ) : Type 0 where
      orders : List ℕ
      found : for_each (index_from_char_in_shrink_order (make l)) v ≡ ok (map pos orders)
      read : for_each (char_in_shrink_order (make l)) (map pos orders) ≡ ok v
      below : AreDigits (λ x. x) (make l).size orders
      as_many : length orders ≡ length v

    orders_of : (v : List ℕ) → all_contained (make l) v ≡ ok true → HasOrders v
    unfolding for_each
    orders_of [] h = record { orders = []; found = refl; read = refl; below = tt; as_many = refl }
    orders_of (c ∷ v) h =
        let (top, there, rest) = contained_cons c v h in
        let r = orders_of v rest in
        let (i, e, k, g) = char-index_from_char l o c top there in
        record {
          orders = i ∷ r.orders;
          found = rw (e, r.found) refl;
          read = rw (g, r.read) refl;
          below = (k, r.below);
          as_many = ap suc r.as_many;
        }

    string_roundtrip :
        (v : List ℕ) (c : StringConstraints)
        → c.intervals ≡ make l
        → choice_permitted string v c ≡ ok true
        → 0 < c.intervals.size
        → length v < buffer_size
        → ((orders : List ℕ)
            → for_each (index_from_char_in_shrink_order c.intervals) v ≡ ok (map pos orders)
            → IsExactAt log c.intervals.size orders)
        → (n : ℕ) × (choice_to_index string v c ≡ ok (pos n))
          × (choice_from_index log string n c ≡ ok v)
    unfolding choice_permitted choice_to_index choice_from_index string_to_index
    string_roundtrip v c s h p b e = elim (Bool-cases (ltb (length v) c.min_size)) [
      | inl q ↦ absurd (let z = rw q at h in cc)
      | inr q ↦ elim (Bool-cases (ltb c.max_size (length v))) [
        | inl t ↦ absurd (let z = rw (q, t) at h in cc)
        | inr t ↦
            let r = orders_of v (rw (q, t, s) at h) in
            let as_many = r.as_many in
            let size = c.intervals.size in
            let found : for_each (index_from_char_in_shrink_order c.intervals) v
                ≡ ok (map pos r.orders) =
              rw s r.found in
            let read : for_each (char_in_shrink_order c.intervals) (map pos r.orders) ≡ ok v =
              rw s r.read in
            let (n, f, g) =
              orders_roundtrip log size r.orders c.min_size p (rw s r.below) (ground arith)
                (omega arith) (e r.orders found) in
            (
              n,
              rw (size_to_index_lem size (length v) p, size_to_index_lem size c.min_size p, found)
                  f,
              rw g read,
            )
      ]
    ]

  -- What is assumed of a choice besides that it is permitted.
  abbrev pub IsRegular : (k : Kind) → Choice k → Constraints k → Type 0
  IsRegular integer v c = c.positive_weights ≡ true
  IsRegular boolean v c = (c.p ≡ 0) ⊎ (least_chance < c.p)
  IsRegular bytes v c = AreDigits (λ b. b) 256 v × (length v < buffer_size) × IsExactAt log 256 v
  IsRegular string v c =
      IsValid c.intervals
      × (0 < c.intervals.size)
      × (length v < buffer_size)
      × ((orders : List ℕ)
          → for_each (index_from_char_in_shrink_order c.intervals) v ≡ ok (map pos orders)
          → IsExactAt log c.intervals.size orders)

  -- A permitted integer, boolean, bytes or string has an index, which is not negative, and it is the
  -- choice that has this index. Assumed are, of an integer between two bounds, that no weight is zero; of
  -- a boolean, that its probability is 0 or above 2 ** -64; of bytes, that they are below 256; of bytes
  -- and strings, that they are shorter than the buffer and the floating-point logarithm is exact at the
  -- total for them; and of strings also that the set of their characters is valid and not empty.
  pub choice_roundtrip :
      (k : Kind) (v : Choice k) (c : Constraints k)
      → choice_permitted k v c ≡ ok true
      → IsRegular k v c
      → (n : ℕ) × (choice_to_index k v c ≡ ok (pos n)) × (choice_from_index log k n c ≡ ok v)
  unfolding choice_permitted choice_to_index choice_from_index least_chance certain
  choice_roundtrip integer v c h w =
      let p : integer_permitted v c ≡ true = cc in integer_roundtrip v c p w
  choice_roundtrip boolean b c h p =
      let q : boolean_permitted b c ≡ true = cc in
      let (n, f, g) = boolean_roundtrip b c (omega arith) q p in (n, ap ok f, g)
  choice_roundtrip bytes v c h (d, b, e) = bytes_roundtrip v c h d b e
  choice_roundtrip string v c h (s, p, b, e) =
      string_roundtrip c.intervals.intervals s.ordered v c s.cached h p b e

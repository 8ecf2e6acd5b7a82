-- ===== src/GenericCache/Heap.antt =====
-- The heap order on an array whose elements are compared by a strict weak order, and what exchanging an
-- element with its parent does to it. `at` gives the element at an index.
use hypothesis.Common.{
  ℕ, zero, suc, ◌<◌, ◌≤◌, ◌≡◌, ◌≢◌, inl, inr, Bool, true, false, arith, ◌==◌, if◌then◌else◌,
  Bool-cases, ap,
}
use hypothesis.GenericCache.{parent}

pub record IsWeakOrder {ℓ} {E : Type ℓ} (below : E → E → Bool) : Type ℓ where
  pub asymmetric : (a b : E) → below a b ≡ true → below b a ≡ false
  pub negative : (a b c : E) → below a b ≡ false → below b c ≡ false → below a c ≡ false

-- The array with the elements at `i` and `j` exchanged.
abbrev pub swapped {ℓ} : {E : Type ℓ} → (ℕ → E) → ℕ → ℕ → ℕ → E
swapped f i j k = if k == i then f j else if k == j then f i else f k

module _ {ℓ} {E : Type ℓ} (f : ℕ → E) (i j : ℕ) where
  pub swapped_left : swapped f i j i ≡ f j
  swapped_left = ground arith

  pub swapped_right : swapped f i j j ≡ f i
  swapped_right = elim (Bool-cases (j == i)) [
    | inl e ↦ let q : j ≡ i = ground arith in rw e (ap f q)
    | inr e ↦ ground arith
  ]

  pub swapped_other : (k : ℕ) → k ≢ i → k ≢ j → swapped f i j k ≡ f k
  swapped_other k a b = ground arith

module _ {ℓ} {E : Type ℓ} (below : E → E → Bool) (order : IsWeakOrder below) where
  -- No element is below its parent.
  abbrev pub IsHeap : (ℕ → E) → Type 0
  IsHeap f = (c : ℕ) → 0 < c → below (f c) (f (parent c)) ≡ false

  -- Only the edges at `i` may be out of order, and across `i` its children are in order with its parent.
  pub record IsHeapBut (f : ℕ → E) (i : ℕ) : Type 0 where
    pub edge : (c : ℕ) → 0 < c → c ≢ i → parent c ≢ i → below (f c) (f (parent c)) ≡ false
    pub bridge : (c : ℕ) → 0 < c → parent c ≡ i → 0 < i → below (f c) (f (parent i)) ≡ false

  pub irreflexive : (a : E) → below a a ≡ false
  irreflexive a = elim (Bool-cases (below a a)) [ inl e ↦ order.asymmetric a a e | inr e ↦ e ]

  pub settled :
      (f : ℕ → E) (i : ℕ)
      → IsHeapBut f i
      → (0 < i → below (f i) (f (parent i)) ≡ false)
      → ((c : ℕ) → 0 < c → parent c ≡ i → below (f c) (f i) ≡ false)
      → IsHeap f
  settled f i h up down c p = elim (Bool-cases (c == i)) [
    | inl e ↦ let q : c ≡ i = ground arith in rw q (up (omega arith))
    | inr n ↦ elim (Bool-cases (parent c == i)) [
      | inl e ↦ let q : parent c ≡ i = ground arith in rw q (down c p q)
      | inr m ↦ h.edge c p (ground arith) (ground arith)
    ]
  ]

  pub rise :
      (f : ℕ → E) (i : ℕ)
      → 0 < i
      → IsHeapBut f i
      → below (f i) (f (parent i)) ≡ true
      → IsHeapBut (swapped f (parent i) i) (parent i)
  rise f i p h b =
      let q = parent i in
      let left = swapped_left f q i in
      let right = swapped_right f q i in
      record {
        edge = λ c pos n m. elim (Bool-cases (parent c == i)) [
          | inl e ↦
              let e' : parent c ≡ i = ground arith in
              let other = swapped_other f q i c n (ground arith) in
              rw (e', other, right) (h.bridge c pos e' p)
          | inr e ↦
              let other = swapped_other f q i c n (ground arith) in
              let other' = swapped_other f q i (parent c) m (ground arith) in
              rw (other, other') (h.edge c pos (ground arith) (ground arith))
        ];
        bridge = λ c pos e above.
            let top = swapped_other f q i (parent q) (omega arith) (omega arith) in
            let upper = h.edge q above (omega arith) (omega arith) in
            elim (Bool-cases (c == i)) [
              | inl s ↦ let s' : c ≡ i = ground arith in rw (s', right, top) upper
              | inr s ↦
                  let other = swapped_other f q i c (ground arith) (ground arith) in
                  let lower = h.edge c pos (ground arith) (ground arith) in
                  rw (other, top) (order.negative (f c) (f q) (f (parent q)) (rw e at lower) upper)
            ];
      }

  -- `m` is a least child of `i`.
  pub record IsSmallest (f : ℕ → E) (i m : ℕ) : Type 0 where
    pub positive : 0 < m
    pub child : parent m ≡ i
    pub least : (c : ℕ) → 0 < c → parent c ≡ i → below (f c) (f m) ≡ false

  pub sink :
      (f : ℕ → E) (i m : ℕ)
      → IsSmallest f i m
      → IsHeapBut f i
      → (0 < i → below (f i) (f (parent i)) ≡ false)
      → below (f m) (f i) ≡ true
      → IsHeapBut (swapped f i m) m
        × (0 < m → below (swapped f i m m) (swapped f i m (parent m)) ≡ false)
  sink f i m s h up b =
      let left = swapped_left f i m in
      let right = swapped_right f i m in
      let child = s.child in
      let positive = s.positive in
      let lower = order.asymmetric (f m) (f i) b in
      (
        record {
          edge = λ c pos n k. elim (Bool-cases (c == i)) [
            | inl e ↦
                let e' : c ≡ i = ground arith in
                let top = swapped_other f i m (parent i) (ground arith) (ground arith) in
                rw (e', left, top) (h.bridge m positive child (ground arith))
            | inr e ↦
                let other = swapped_other f i m c (ground arith) n in
                elim (Bool-cases (parent c == i)) [
                  | inl g ↦
                      let g' : parent c ≡ i = ground arith in
                      rw (g', other, left) (s.least c pos g')
                  | inr g ↦
                      let other' = swapped_other f i m (parent c) (ground arith) k in
                      rw (other, other') (h.edge c pos (ground arith) (ground arith))
                ]
          ];
          bridge = λ c pos e above.
              let other = swapped_other f i m c (ground arith) (ground arith) in
              let edge = h.edge c pos (ground arith) (ground arith) in
              rw (other, child, left) (rw e at edge);
        },
        λ _. rw (child, left, right) lower,
      )

  pub root_least : (fuel : ℕ) (f : ℕ → E) (i : ℕ) → IsHeap f → i ≤ fuel → below (f i) (f 0) ≡ false
  root_least zero f i h l = let e : i ≡ 0 = omega arith in rw e (irreflexive (f 0))
  root_least (suc fuel) f i h l = elim (Bool-cases (i == 0)) [
    | inl e ↦ let e' : i ≡ 0 = ground arith in rw e' (irreflexive (f 0))
    | inr e ↦
        order.negative (f i) (f (parent i)) (f 0) (h i (ground arith))
          (root_least fuel f (parent i) h (ground arith))
  ]

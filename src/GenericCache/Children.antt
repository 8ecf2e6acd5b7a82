-- ===== src/GenericCache/Children.antt =====
-- Which child of an index `__balance` compares with.
use hypothesis.Common.{
  ℕ, ◌+◌, ◌*◌, ◌≤◌, ◌<◌, ◌≡◌, ◌⊎◌, refl, ◌∙◌, inl, inr, false, Option, some, List, [], ◌∷◌, arith,
  ltb, length, get_elem?, Bool-cases, ltb→lt, ltb_false→le,
}
use hypothesis.Common.Keys.{KeyEquality}
use hypothesis.Common.Result.{ok}
use hypothesis.GenericCache.{
  Entry, Cache, Scoring, entry_at, entry_less, children, smallest, parent,
}
use hypothesis.GenericCache.Heap.{IsWeakOrder, IsSmallest, irreflexive}
use hypothesis.GenericCache.Index.{below}
use hypothesis.GenericCache.Edges.{element, outside, ordered}

module _ {ℓ} {K V S X : Type ℓ} (keys : KeyEquality K) (scoring : Scoring K V S X)
    (order : IsWeakOrder scoring.less) where
  below_at :
      (c : Cache K V S X) (i j : ℕ) (x y : Entry K V S)
      → get_elem? c.entries i ≡ some x
      → get_elem? c.entries j ≡ some y
      → below keys scoring (get_elem? c.entries i) (get_elem? c.entries j)
        ≡ entry_less keys scoring x y
  unfolding below
  below_at c i j x y a b = rw (a, b) refl

  pub below_missing :
      (c : Cache K V S X) (i : ℕ) (o : Option (Entry K V S))
      → length c.entries ≤ i
      → below keys scoring (get_elem? c.entries i) o ≡ false
  unfolding below
  below_missing c i o h = rw (outside c.entries i h) refl

  child_cases : (i j : ℕ) → 0 < j → parent j ≡ i → (j ≡ 2 * i + 1) ⊎ (j ≡ 2 * i + 2)
  child_cases i j p e = ground arith

  -- What the choice of the child to sink to gives.
  abbrev pub IsChoice : Cache K V S X → ℕ → ℕ → List ℕ → Type 0
  IsChoice c i j js =
      (m : ℕ) × (smallest keys scoring c j js ≡ ok m)
      × IsSmallest (below keys scoring) (ordered keys scoring order) (get_elem? c.entries) i m
      × (m < length c.entries)

  choose_one :
      (c : Cache K V S X) (i : ℕ)
      → 2 * i + 1 < length c.entries
      → length c.entries ≤ 2 * i + 2
      → IsChoice c i (2 * i + 1) []
  unfolding smallest
  choose_one c i h l = (
    2 * i + 1,
    refl,
    record {
      positive = omega arith;
      child = omega arith;
      least = λ j p e. elim (child_cases i j p e) [
        | inl q ↦ rw q (irreflexive (below keys scoring) (ordered keys scoring order) _)
        | inr q ↦ below_missing c j _ (omega arith)
      ];
    },
    h,
  )

  choose_two :
      (c : Cache K V S X) (i : ℕ)
      → 2 * i + 2 < length c.entries
      → IsChoice c i (2 * i + 1) ((2 * i + 2) ∷ [])
  unfolding smallest entry_at
  choose_two c i h =
      let l = 2 * i + 1 in
      let r = 2 * i + 2 in
      let (x, at_l) = element c.entries l (omega arith) in
      let (y, at_r) = element c.entries r h in
      elim (Bool-cases (entry_less keys scoring y x)) [
        | inl b ↦
            let below_l = below_at c r l y x at_r at_l ∙ b in
            (
              r,
              rw (at_l, at_r, b) refl,
              record {
                positive = omega arith;
                child = omega arith;
                least = λ j p e. elim (child_cases i j p e) [
                  | inl q ↦ rw q (
                      (ordered keys scoring order).asymmetric (get_elem? c.entries r)
                        (get_elem? c.entries l) below_l)
                  | inr q ↦ rw q (irreflexive (below keys scoring) (ordered keys scoring order) _)
                ];
              },
              h,
            )
        | inr b ↦ (
          l,
          rw (at_l, at_r, b) refl,
          record {
            positive = omega arith;
            child = omega arith;
            least = λ j p e. elim (child_cases i j p e) [
              | inl q ↦ rw q (irreflexive (below keys scoring) (ordered keys scoring order) _)
              | inr q ↦ rw q (below_at c r l y x at_r at_l ∙ b)
            ];
          },
          omega arith,
        )
      ]

  pub children_cases :
      (c : Cache K V S X) (i : ℕ)
      → ((children keys scoring i (length c.entries) ≡ []) × (length c.entries ≤ 2 * i + 1))
        ⊎ ((j : ℕ) × (js : List ℕ) × (children keys scoring i (length c.entries) ≡ j ∷ js)
            × IsChoice c i j js)
  unfolding children
  children_cases c i = elim (Bool-cases (ltb (2 * i + 2) (length c.entries))) [
    | inl two ↦ inr (2 * i + 1, (2 * i + 2) ∷ [], rw two refl, choose_two c i (ltb→lt _ _ two))
    | inr n ↦ elim (Bool-cases (ltb (2 * i + 1) (length c.entries))) [
      | inl one ↦
          inr
            (2 * i + 1, [], rw (n, one) refl, choose_one c i (ltb→lt _ _ one) (ltb_false→le _ _ n))
      | inr no_child ↦ inl (rw (n, no_child) refl, ltb_false→le _ _ no_child)
    ]
  ]

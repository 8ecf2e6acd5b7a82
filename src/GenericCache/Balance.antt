-- ===== src/GenericCache/Balance.antt =====
-- `__balance` restores the heap around an index: after the entry rose, it sinks.
use hypothesis.Common.{
  ℕ, zero, suc, ◌+◌, ◌≤◌, ◌<◌, ◌≡◌, refl, ap, ◌∙◌, inl, inr, true, false, List, [], ◌∷◌, arith,
  length, get_elem?, Bool-cases,
}
use hypothesis.Common.Keys.{KeyEquality}
use hypothesis.Common.Result.{ok}
use hypothesis.GenericCache.{
  Cache, Scoring, entry_less, out_of_order, swap, bubble_up, children, smallest, bubble_down,
  balance, parent,
}
use hypothesis.GenericCache.Heap.{IsWeakOrder, swapped, settled, sink}
use hypothesis.GenericCache.Index.{below, IsSynced, IsRearranged}
use hypothesis.GenericCache.Rise.{bubble_up_restores}
use hypothesis.GenericCache.Children.{below_missing, children_cases}
use hypothesis.GenericCache.Edges.{
  ordered, IsOrdered, IsOrderedBut, IsBelowParent, IsRearranged-refl, IsRearranged-trans,
  IsHeapBut-ext, find-IsEdge, out_of_order_edge, below_edge, swap_edge,
}

module _ {ℓ} {K V S X : Type ℓ} (keys : KeyEquality K) (scoring : Scoring K V S X)
    (order : IsWeakOrder scoring.less) where
  down_leaf :
      (fuel i : ℕ) (c : Cache K V S X)
      → children keys scoring i (length c.entries) ≡ []
      → bubble_down keys scoring (suc fuel) i c ≡ ok c
  unfolding bubble_down
  down_leaf fuel i c e = rw (e, bubble_down) refl

  down_stop :
      (fuel i j m : ℕ) (js : List ℕ) (c : Cache K V S X)
      → children keys scoring i (length c.entries) ≡ j ∷ js
      → smallest keys scoring c j js ≡ ok m
      → out_of_order keys scoring i m c ≡ ok false
      → bubble_down keys scoring (suc fuel) i c ≡ ok c
  unfolding bubble_down
  down_stop fuel i j m js c e s o = rw (e, s, o, bubble_down) refl

  down_step :
      (fuel i j m : ℕ) (js : List ℕ) (c c' r : Cache K V S X)
      → children keys scoring i (length c.entries) ≡ j ∷ js
      → smallest keys scoring c j js ≡ ok m
      → out_of_order keys scoring i m c ≡ ok true
      → swap keys scoring i m c ≡ ok c'
      → bubble_down keys scoring fuel m c' ≡ ok r
      → bubble_down keys scoring (suc fuel) i c ≡ ok r
  unfolding bubble_down
  down_step fuel i j m js c c' r e s o w h = rw (e, s, o, w, bubble_down) h

  bubble_down_restores :
      (fuel i : ℕ) (c : Cache K V S X)
      → length c.entries ≤ fuel + i
      → i < length c.entries
      → IsSynced keys scoring c
      → IsOrderedBut keys scoring order c i
      → IsBelowParent keys scoring order c i
      → (c' : Cache K V S X) × (bubble_down keys scoring fuel i c ≡ ok c')
        × IsSynced keys scoring c'
        × IsRearranged keys scoring c c'
        × IsOrdered keys scoring order c'
  bubble_down_restores zero i c f h s o p = absurd (omega arith)
  bubble_down_restores (suc fuel) i c f h s o p = elim (children_cases keys scoring order c i) [
    | inl (e, l) ↦ (
      c,
      down_leaf fuel i c e,
      s,
      IsRearranged-refl keys scoring order c,
      settled (below keys scoring) (ordered keys scoring order) (get_elem? c.entries) i o p
          (λ j q r. below_missing keys scoring order c j _ (omega arith)),
    )
    | inr (j, js, e, choice) ↦
        let (m, e_m, least, in_m) = choice in
        let (x, y, edge) = find-IsEdge keys scoring order c i m least.positive least.child in_m in
        let o_edge = out_of_order_edge keys scoring order c i m x y edge in
        let b_edge = below_edge keys scoring order c i m x y edge in
        elim (Bool-cases (entry_less keys scoring y x)) [
          | inl b ↦
              let (c1, e1, s1, r1, at1) = swap_edge keys scoring order c i m x y edge s b in
              let lower =
                sink (below keys scoring) (ordered keys scoring order) (get_elem? c.entries) i m
                  least o p (b_edge ∙ b) in
              let o1 =
                IsHeapBut-ext keys scoring order (swapped (get_elem? c.entries) i m)
                  (get_elem? c1.entries) m at1 lower.0 in
              let p1 : IsBelowParent keys scoring order c1 m =
                λ q. rw (at1 m, at1 (parent m)) (lower.1 q) in
              let same = r1.same_length in
              let positive = least.positive in
              let child = least.child in
              let (c2, e2, s2, r2, o2) =
                bubble_down_restores fuel m c1 (omega arith) (omega arith) s1 o1 p1 in
              (
                c2,
                down_step fuel i j m js c c1 c2 e e_m (o_edge ∙ ap ok b) e1 e2,
                s2,
                IsRearranged-trans keys scoring order c c1 c2 r1 r2,
                o2,
              )
          | inr b ↦ (
            c,
            down_stop fuel i j m js c e e_m (o_edge ∙ ap ok b),
            s,
            IsRearranged-refl keys scoring order c,
            settled (below keys scoring) (ordered keys scoring order) (get_elem? c.entries) i o p
                (λ k q r.
                  (ordered keys scoring order).negative (get_elem? c.entries k)
                    (get_elem? c.entries m) (get_elem? c.entries i) (least.least k q r)
                    (b_edge ∙ b)),
          )
        ]
  ]

  balance_step :
      (i j : ℕ) (c c1 c2 : Cache K V S X)
      → bubble_up keys scoring i i c ≡ ok (j, c1)
      → bubble_down keys scoring (length c.entries) j c1 ≡ ok c2
      → balance keys scoring i c ≡ ok c2
  unfolding balance
  balance_step i j c c1 c2 e h = rw e h

  -- Where only the edges at `i` are out of order, `balance` returns with the heap restored, the indices
  -- in step, and the entries of all keys as they were.
  pub balance_restores :
      (i : ℕ) (c : Cache K V S X)
      → i < length c.entries
      → IsSynced keys scoring c
      → IsOrderedBut keys scoring order c i
      → (c' : Cache K V S X) × (balance keys scoring i c ≡ ok c')
        × IsSynced keys scoring c'
        × IsRearranged keys scoring c c'
        × IsOrdered keys scoring order c'
  balance_restores i c h s o =
      let (j, c1, e1, s1, r1, o1, p1, h1) =
        bubble_up_restores keys scoring order i i c (omega arith) h s o in
      let same = r1.same_length in
      let (c2, e2, s2, r2, o2) =
        bubble_down_restores (length c.entries) j c1 (omega arith) h1 s1 o1 p1 in
      (
        c2,
        balance_step i j c c1 c2 e1 e2,
        s2,
        IsRearranged-trans keys scoring order c c1 c2 r1 r2,
        o2,
      )

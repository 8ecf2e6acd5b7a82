-- ===== src/GenericCache/Rise.antt =====
-- The first loop of `__balance`: an entry rises while it is below its parent.
use hypothesis.Common.{
  ℕ, zero, suc, ◌≤◌, ◌<◌, ◌≡◌, refl, ap, ◌∙◌, inl, inr, true, false, arith, ◌==◌, length, get_elem?,
  Bool-cases,
}
use hypothesis.Common.Keys.{KeyEquality}
use hypothesis.Common.Result.{ok}
use hypothesis.GenericCache.{Cache, Scoring, entry_less, out_of_order, swap, bubble_up, parent}
use hypothesis.GenericCache.Heap.{IsWeakOrder, swapped, rise}
use hypothesis.GenericCache.Index.{below, IsSynced, IsRearranged}
use hypothesis.GenericCache.Edges.{
  ordered, IsOrderedBut, IsBelowParent, IsRearranged-refl, IsRearranged-trans, IsHeapBut-ext,
  find-IsEdge, out_of_order_edge, below_edge, swap_edge,
}

module _ {ℓ} {K V S X : Type ℓ} (keys : KeyEquality K) (scoring : Scoring K V S X)
    (order : IsWeakOrder scoring.less) where
  up_root : (fuel : ℕ) (c : Cache K V S X) → bubble_up keys scoring fuel 0 c ≡ ok (0, c)
  unfolding bubble_up
  up_root zero c = refl
  up_root (suc fuel) c = refl

  up_stop :
      (fuel i : ℕ) (c : Cache K V S X)
      → (i == 0) ≡ false
      → out_of_order keys scoring (parent i) i c ≡ ok false
      → bubble_up keys scoring (suc fuel) i c ≡ ok (i, c)
  unfolding bubble_up
  up_stop fuel i c p e = rw (p, e, bubble_up) refl

  up_step :
      (fuel i : ℕ) (c c' : Cache K V S X) (r : ℕ × Cache K V S X)
      → (i == 0) ≡ false
      → out_of_order keys scoring (parent i) i c ≡ ok true
      → swap keys scoring (parent i) i c ≡ ok c'
      → bubble_up keys scoring fuel (parent i) c' ≡ ok r
      → bubble_up keys scoring (suc fuel) i c ≡ ok r
  unfolding bubble_up
  up_step fuel i c c' r p e s h = rw (p, e, s, bubble_up) h

  pub bubble_up_restores :
      (fuel i : ℕ) (c : Cache K V S X)
      → i ≤ fuel
      → i < length c.entries
      → IsSynced keys scoring c
      → IsOrderedBut keys scoring order c i
      → (i' : ℕ) × (c' : Cache K V S X) × (bubble_up keys scoring fuel i c ≡ ok (i', c'))
        × IsSynced keys scoring c'
        × IsRearranged keys scoring c c'
        × IsOrderedBut keys scoring order c' i'
        × IsBelowParent keys scoring order c' i'
        × (i' < length c'.entries)
  bubble_up_restores fuel zero c f h s o = (
    0,
    c,
    up_root fuel c,
    s,
    IsRearranged-refl keys scoring order c,
    o,
    λ p. absurd (omega arith),
    h,
  )
  bubble_up_restores zero (suc i) c f h s o = absurd (omega arith)
  bubble_up_restores (suc fuel) (suc i) c f h s o =
      let (x, y, edge) =
        find-IsEdge keys scoring order c (parent (suc i)) (suc i) (omega arith) refl h in
      let q = parent (suc i) in
      let o_edge = out_of_order_edge keys scoring order c q (suc i) x y edge in
      let b_edge = below_edge keys scoring order c q (suc i) x y edge in
      elim (Bool-cases (entry_less keys scoring y x)) [
        | inl b ↦
            let (c1, e1, s1, r1, at1) = swap_edge keys scoring order c q (suc i) x y edge s b in
            let o1 =
              IsHeapBut-ext keys scoring order (swapped (get_elem? c.entries) q (suc i))
                (get_elem? c1.entries) q at1
                (rise (below keys scoring) (ordered keys scoring order) (get_elem? c.entries)
                  (suc i) (omega arith) o (b_edge ∙ b)) in
            let same = r1.same_length in
            let (i2, c2, e2, s2, r2, o2, p2, h2) =
              bubble_up_restores fuel q c1 (omega arith) (omega arith) s1 o1 in
            (
              i2,
              c2,
              up_step fuel (suc i) c c1 (i2, c2) (ground arith) (o_edge ∙ ap ok b) e1 e2,
              s2,
              IsRearranged-trans keys scoring order c c1 c2 r1 r2,
              o2,
              p2,
              h2,
            )
        | inr b ↦ (
          suc i,
          c,
          up_stop fuel (suc i) c (ground arith) (o_edge ∙ ap ok b),
          s,
          IsRearranged-refl keys scoring order c,
          o,
          λ _. b_edge ∙ b,
          h,
        )
      ]

-- ===== src/Dominance/Laws.antt =====
-- What `dominance` answers, and that it is an order.
use hypothesis.Common.{◌≡◌, refl, sym, ◌∙◌, ◌⊎◌, inl, inr, true, false, arith}
use hypothesis.Common.Keys.{KeyEquality}
use hypothesis.Common.Result.{ok}
use hypothesis.Dominance.{
  DominanceRelation, Scores, ConjectureResult, tuple_equal, key_less, against_larger, mirrored,
  dominance_within, dominance,
}
use hypothesis.Dominance.Order.{tuple_equal_sym, key_cases}

-- The relation of the results the other way round.
unfoldable pub flip : DominanceRelation → DominanceRelation
flip DominanceRelation.left_dominates = DominanceRelation.right_dominates
flip DominanceRelation.right_dominates = DominanceRelation.left_dominates
flip DominanceRelation.equal = DominanceRelation.equal
flip DominanceRelation.no_dominance = DominanceRelation.no_dominance

module _ {ℓ} {T O K S : Type ℓ} (tag : KeyEquality T) (origin : KeyEquality O)
    (target : KeyEquality K) (scores : Scores S) where
  pub against_cases :
      (l r : ConjectureResult T O K S)
      → (against_larger tag origin target scores l r ≡ DominanceRelation.left_dominates)
        ⊎ (against_larger tag origin target scores l r ≡ DominanceRelation.no_dominance)
  unfolding against_larger
  against_cases l r = ground arith

  pub dominance_smaller :
      (l r : ConjectureResult T O K S)
      → key_less l.indices r.indices ≡ true
      → dominance tag origin target scores l r ≡ ok (against_larger tag origin target scores l r)
  unfolding dominance dominance_within
  dominance_smaller l r h =
      let c = key_cases l.indices r.indices in
      let e : tuple_equal l.indices r.indices ≡ false = ground arith in
      let g : key_less r.indices l.indices ≡ false = ground arith in rw (e, g, h) refl

  pub dominance_larger :
      (l r : ConjectureResult T O K S)
      → key_less r.indices l.indices ≡ true
      → dominance tag origin target scores l r
        ≡ ok (flip (against_larger tag origin target scores r l))
  unfolding dominance dominance_within mirrored flip
  dominance_larger l r h =
      let c = key_cases l.indices r.indices in
      let e : tuple_equal l.indices r.indices ≡ false = ground arith in
      let s = tuple_equal_sym l.indices r.indices in
      let e' : tuple_equal r.indices l.indices ≡ false = ground arith in
      let g : key_less l.indices r.indices ≡ false = ground arith in
      elim (against_cases r l) [
        | inl a ↦ rw (e, e', g, h, a) refl
        | inr a ↦ rw (e, e', g, h, a) refl
      ]

  pub dominance-equal :
      (l r : ConjectureResult T O K S)
      → tuple_equal l.indices r.indices ≡ true
      → dominance tag origin target scores l r ≡ ok DominanceRelation.equal
  unfolding dominance dominance_within
  dominance-equal l r h = rw h refl

  -- `dominance` returns for all results, and no assertion fails; for the results the other way round it
  -- returns the mirrored relation.
  pub dominance-flip :
      (l r : ConjectureResult T O K S)
      → (x : DominanceRelation) × (dominance tag origin target scores l r ≡ ok x)
        × (dominance tag origin target scores r l ≡ ok (flip x))
  unfolding flip
  dominance-flip l r = elim (key_cases l.indices r.indices) [
    | inl (e, _, _) ↦ (
      DominanceRelation.equal,
      dominance-equal l r e,
      dominance-equal r l (sym (tuple_equal_sym l.indices r.indices) ∙ e),
    )
    | inr (inl (_, e, _)) ↦ (
      against_larger tag origin target scores l r,
      dominance_smaller l r e,
      dominance_larger r l e,
    )
    | inr (inr (_, _, e)) ↦ (
      flip (against_larger tag origin target scores r l),
      dominance_larger l r e,
      dominance_smaller r l e
          ∙ (elim (against_cases r l) [ inl a ↦ rw a refl | inr a ↦ rw a refl ]),
    )
  ]

-- ===== src/GenericCache/Check.antt =====
-- `check_valid` passes on valid caches.
use hypothesis.Common.{
  ℕ, suc, ◌+◌, ◌*◌, ◌<◌, ◌≡◌, refl, sym, ap, ◌∙◌, inl, inr, true, false, some, List, [], ◌∷◌, arith,
  ltb, ◌==◌, length, get_elem?, Bool-cases,
}
use hypothesis.Common.Keys.{KeyEquality}
use hypothesis.Common.Result.{ok}
use hypothesis.GenericCache.{Entry, Cache, Scoring, entry_at, parent}
use hypothesis.GenericCache.Heap.{IsWeakOrder}
use hypothesis.GenericCache.Index.{below}
use hypothesis.GenericCache.Edges.{element}
use hypothesis.GenericCache.Operations.{index_of, check_child, check_entries, check_valid}
use hypothesis.GenericCache.Replace.{IsValid}

module _ {ℓ} {K V S X : Type ℓ} (keys : KeyEquality K) (scoring : Scoring K V S X)
    (order : IsWeakOrder scoring.less) (c : Cache K V S X) (v : IsValid keys scoring order c) where
  check_child_lem :
      (e : Entry K V S) (i j : ℕ)
      → get_elem? c.entries i ≡ some e
      → 0 < j
      → parent j ≡ i
      → check_child keys scoring e j c ≡ ok tt
  unfolding check_child entry_at below
  check_child_lem e i j at p q = elim (Bool-cases (ltb j (length c.entries))) [
    | inl a ↦
        let (y, at_j) = element c.entries j (ground arith) in
        let o : below keys scoring (some y) (some e) ≡ false =
          rw (at_j, q, at) at (v.in_order j p) in
        rw (a, at_j, o) refl
    | inr a ↦ rw a refl
  ]

  check_entries_lem :
      (es : List (Entry K V S)) (i : ℕ)
      → ((k : ℕ) → get_elem? es k ≡ get_elem? c.entries (i + k))
      → check_entries keys scoring es i c ≡ ok tt
  unfolding check_entries index_of
  check_entries_lem [] i h = refl
  check_entries_lem (e ∷ es) i h =
      let at_i : get_elem? c.entries i ≡ some e =
        ap (get_elem? c.entries) (let n : i ≡ i + 0 = omega arith in n) ∙ sym (h 0) in
      let g = v.synced.index i e at_i in
      let same : (i == i) ≡ true = ground arith in
      let left = check_child_lem e i (i * 2 + 1) at_i (omega arith) (omega arith) in
      let right = check_child_lem e i (i * 2 + 2) at_i (omega arith) (omega arith) in
      let rest = check_entries_lem es (i + 1) (λ k.
        h (suc k) ∙ (let n : i + suc k ≡ i + 1 + k = omega arith in ap (get_elem? c.entries) n)) in
      rw (g, same, left, right, rest) refl

  pub check_valid_lem : check_valid keys scoring c ≡ ok tt
  unfolding check_valid
  check_valid_lem =
      let s = v.synced.sized in
      let same : (length c.keys_to_indices == length c.entries) ≡ true = ground arith in
      rw
        (
          same,
          check_entries_lem c.entries 0
              (λ k. ap (get_elem? c.entries) (let n : k ≡ 0 + k = omega arith in n)),
        )
        refl

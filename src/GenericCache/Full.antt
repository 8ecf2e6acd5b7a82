-- ===== src/GenericCache/Full.antt =====
-- `__setitem__` of a new key in a full cache, where the first entry is not pinned.
use hypothesis.Common.{
  ◌≡◌, ◌||◌, not, refl, sym, ◌∙◌, inl, inr, true, false, none, some, arith, ltb, get_elem?,
  length-set, Bool-cases,
}
use hypothesis.Common.Keys.{KeyEquality}
use hypothesis.Common.Result.{ok}
use hypothesis.GenericCache.{Entry, Cache, Scoring, entry_at, entry_less, balance}
use hypothesis.GenericCache.Heap.{IsWeakOrder}
use hypothesis.GenericCache.Index.{contents}
use hypothesis.GenericCache.Balance.{balance_restores}
use hypothesis.GenericCache.Operations.{after_eviction, replace_first}
use hypothesis.GenericCache.Edges.{element}
use hypothesis.GenericCache.Replace.{IsValid}
use hypothesis.GenericCache.Access.{contents_there, extra-IsValid}
use hypothesis.GenericCache.Evict.{
  in_place, in_place-IsSynced, in_place-IsOrderedBut, in_place-contents, evicted_contents,
  first_least, not_empty,
}

module _ {ℓ} {K V S X : Type ℓ} (keys : KeyEquality K) (scoring : Scoring K V S X)
    (order : IsWeakOrder scoring.less) (e first : Entry K V S) (c : Cache K V S X)
    (v : IsValid keys scoring order c) (new : contents keys scoring c e.key ≡ none)
    (at_first : get_elem? c.entries 0 ≡ some first) where
  -- What is evicted is not above the entry that is first then, unless that is the new one.
  evicted_before :
      (top : Entry K V S)
      → evicted_contents keys scoring order e first c v new at_first top.key ≡ some top
      → (keys.eq top.key e.key || not (entry_less keys scoring top first)) ≡ true
  evicted_before top h = elim (Bool-cases (keys.eq top.key e.key)) [
    | inl a ↦ rw a refl
    | inr a ↦ elim (Bool-cases (keys.eq top.key first.key)) [
      | inl b ↦ absurd (let z = rw (a, b) at h in cc)
      | inr b ↦
          let l =
            first_least keys scoring order e first c v new at_first top.key top (rw (a, b) at h) in
          rw (a, l) refl
    ]
  ]

  replace_step :
      (c2 : Cache K V S X) (top : Entry K V S)
      → first.pins ≡ 0
      → balance keys scoring 0 (in_place keys scoring order e first c v new at_first) ≡ ok c2
      → get_elem? c2.entries 0 ≡ some top
      → (keys.eq top.key e.key || not (entry_less keys scoring top first)) ≡ true
      → replace_first keys scoring first e c
        ≡ ok (record c2 { extra = scoring.on_evict first.key first.value first.score c2.extra })
  unfolding replace_first after_eviction entry_at
  replace_step c2 top p b t h =
      let n : ltb 0 first.pins ≡ false = ground arith in rw (n, b, t, h) refl

  -- In a valid cache, the new entry is there instead of the first one, which was not pinned.
  pub replace_first_lem :
      first.pins ≡ 0
      → (c' : Cache K V S X) × (replace_first keys scoring first e c ≡ ok c')
        × IsValid keys scoring order c'
        × ((j : K)
            → contents keys scoring c' j
              ≡ evicted_contents keys scoring order e first c v new at_first j)
        × (c'.max_size ≡ c.max_size)
  unfolding contents
  replace_first_lem p =
      let c1 = in_place keys scoring order e first c v new at_first in
      let same = length-set c.entries 0 e in
      let some_there = not_empty keys scoring order e first c v new at_first in
      let (c2, b, s, r, o) =
        balance_restores keys scoring order 0 c1 (omega arith)
          (in_place-IsSynced keys scoring order e first c v new at_first)
          (in_place-IsOrderedBut keys scoring order e first c v new at_first) in
      let m = r.same_max_size in
      let l = r.same_length in
      let f = v.fits in
      let q = v.positive in
      let v2 : IsValid keys scoring order c2 = record {
        synced = s;
        in_order = o;
        fits = rw m (omega arith);
        positive = rw m q;
      } in
      let kept : (j : K)
          → contents keys scoring c2 j
            ≡ evicted_contents keys scoring order e first c v new at_first j =
        λ j. r.same_contents j ∙ in_place-contents keys scoring order e first c v new at_first j in
      let (top, t) = element c2.entries 0 (omega arith) in
      let h =
        evicted_before top (sym (kept top.key) ∙ contents_there keys scoring order 0 top c2 t v2) in
      let x = scoring.on_evict first.key first.value first.score c2.extra in
      (
        record c2 { extra = x },
        replace_step c2 top p b t h,
        extra-IsValid keys scoring order c2 x v2,
        kept,
        m,
      )

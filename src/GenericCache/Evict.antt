-- ===== src/GenericCache/Evict.antt =====
-- A new entry in a full cache, in place of the first one.
use hypothesis.Common.{
  ℕ, ◌<◌, ◌≡◌, ◌≢◌, refl, sym, ap, ◌∙◌, inl, inr, false, Option, none, some, arith, ◌==◌,
  if◌then◌else◌, length, get_elem?, set, length-set, Bool-cases, Option-cases,
}
use hypothesis.Common.Keys.{KeyEquality, eq_refl, eq_ne}
use hypothesis.Common.Dict.{
  get, put, del, get-put, get-del, put-IsUnique, del-IsUnique, length-put_new, length-del,
}
use hypothesis.GenericCache.{Entry, Cache, Scoring, entry_less, parent}
use hypothesis.GenericCache.Heap.{IsWeakOrder, root_least}
use hypothesis.GenericCache.Index.{
  get_elem?-set, below, contents, contents_at, contents_missing, IsSynced,
}
use hypothesis.GenericCache.Edges.{inside, ordered, IsOrderedBut}
use hypothesis.GenericCache.Replace.{some_eq, IsValid}
use hypothesis.GenericCache.Access.{locate}
use hypothesis.GenericCache.Methods.{index_missing}

module _ {ℓ} {K V S X : Type ℓ} (keys : KeyEquality K) (scoring : Scoring K V S X)
    (order : IsWeakOrder scoring.less) (e first : Entry K V S) (c : Cache K V S X)
    (v : IsValid keys scoring order c) (new : contents keys scoring c e.key ≡ none)
    (at_first : get_elem? c.entries 0 ≡ some first) where
  abbrev pub in_place : Cache K V S X
  in_place = record c {
    entries = set c.entries 0 e;
    keys_to_indices = put keys e.key 0 (del keys first.key c.keys_to_indices);
  }

  pub not_empty : 0 < length c.entries
  not_empty = inside c.entries 0 first at_first

  at_root : get_elem? in_place.entries 0 ≡ some e
  at_root = get_elem?-set c.entries 0 0 e not_empty

  at_other : (k : ℕ) → k ≢ 0 → get_elem? in_place.entries k ≡ get_elem? c.entries k
  at_other k n =
      get_elem?-set c.entries 0 k e not_empty
      ∙ (let s : (k == 0) ≡ false = ground arith in rw s refl)

  not_indexed : get keys e.key c.keys_to_indices ≡ none
  not_indexed = index_missing keys scoring order e.key c v.synced new

  first_index : get keys first.key c.keys_to_indices ≡ some 0
  first_index = v.synced.index 0 first at_first

  get_in_place :
      (k : K)
      → get keys k in_place.keys_to_indices ≡ (
          if keys.eq k e.key
          then some 0
          else if keys.eq k first.key
          then none
          else get keys k c.keys_to_indices)
  get_in_place k =
      get-put keys k e.key 0 (del keys first.key c.keys_to_indices)
      ∙ ap (λ r. if keys.eq k e.key then some 0 else r) (get-del keys k first.key c.keys_to_indices)

  other_key : (k : K) (i : ℕ) → get keys k c.keys_to_indices ≡ some i → keys.eq k e.key ≡ false
  other_key k i h = eq_ne keys k e.key (λ q.
      let g : get keys e.key c.keys_to_indices ≡ some i = rw (← q) h in let n = not_indexed in cc)

  not_first :
      (k : K) (i : ℕ) → get keys k c.keys_to_indices ≡ some i → i ≢ 0 → keys.eq k first.key ≡ false
  not_first k i h n = eq_ne keys k first.key (λ q.
      let g : get keys first.key c.keys_to_indices ≡ some i = rw (← q) h in
      let f = first_index in let z : i ≡ 0 = ground arith in n z)

  pub in_place-IsSynced : IsSynced keys scoring in_place
  in_place-IsSynced = record {
    index = λ k f h. elim (Bool-cases (k == 0)) [
      | inl a ↦
          let root : k ≡ 0 = ground arith in
          let f_e : e ≡ f =
            some_eq e f (sym at_root ∙ ap (get_elem? in_place.entries) (sym root) ∙ h) in
          get_in_place f.key ∙ rw (← f_e, eq_refl keys e.key) (ap some (sym root))
      | inr a ↦
          let there = v.synced.index k f (sym (at_other k (ground arith)) ∙ h) in
          get_in_place f.key
          ∙ rw (other_key f.key k there, not_first f.key k there (ground arith)) there
    ];
    entry = λ k m h.
        let h' = sym (get_in_place k) ∙ h in
        elim (Bool-cases (keys.eq k e.key)) [
          | inl a ↦
              let root : m ≡ 0 = ground arith in
              (e, ap (get_elem? in_place.entries) root ∙ at_root, sym ((keys.eq_iff k e.key).0 a))
          | inr a ↦ elim (Bool-cases (keys.eq k first.key)) [
            | inl b ↦ absurd (let z = rw (a, b) at h' in cc)
            | inr b ↦
                let (f, at_m, q) = v.synced.entry k m (rw (a, b) at h') in
                let other : m ≢ 0 = λ z.
                  let f_e : first ≡ f =
                    some_eq first f (sym at_first ∙ ap (get_elem? c.entries) (sym z) ∙ at_m) in
                  let w = (keys.eq_iff k first.key).1 (sym q ∙ ap (λ f. f.key) (sym f_e)) in cc in
                (f, at_other m other ∙ at_m, q)
          ]
        ];
    sized =
        let d = del keys first.key c.keys_to_indices in
        let absent : get keys e.key d ≡ none =
          get-del keys e.key first.key c.keys_to_indices ∙ (let n = not_indexed in ground arith) in
        let shorter = length-del keys first.key 0 c.keys_to_indices v.synced.unique first_index in
        let longer = length-put_new keys e.key 0 d absent in
        let same = length-set c.entries 0 e in let s = v.synced.sized in omega arith;
    unique =
        put-IsUnique keys e.key 0 (del keys first.key c.keys_to_indices)
          (del-IsUnique keys first.key c.keys_to_indices v.synced.unique);
  }

  pub in_place-IsOrderedBut : IsOrderedBut keys scoring order in_place 0
  in_place-IsOrderedBut = record {
    edge = λ k p n m. rw (at_other k n, at_other (parent k) m) (v.in_order k p);
    bridge = λ k p q r. absurd (omega arith);
  }

  -- The contents after an eviction.
  abbrev pub evicted_contents : K → Option (Entry K V S)
  evicted_contents j =
      if keys.eq j e.key
      then some e
      else if keys.eq j first.key
      then none
      else contents keys scoring c j

  pub in_place-contents : (j : K) → contents keys scoring in_place j ≡ evicted_contents j
  in_place-contents j = elim (Bool-cases (keys.eq j e.key)) [
    | inl a ↦
        contents_at keys scoring in_place j 0 (get_in_place j ∙ rw a refl) ∙ at_root ∙ rw a refl
    | inr a ↦ elim (Bool-cases (keys.eq j first.key)) [
      | inl b ↦
          contents_missing keys scoring in_place j (get_in_place j ∙ rw (a, b) refl)
          ∙ rw (a, b) refl
      | inr b ↦
          let same : get keys j in_place.keys_to_indices ≡ get keys j c.keys_to_indices =
            get_in_place j ∙ rw (a, b) refl in
          elim (Option-cases (get keys j c.keys_to_indices)) [
            | inl n ↦
                contents_missing keys scoring in_place j (same ∙ n)
                ∙ sym (contents_missing keys scoring c j n)
                ∙ rw (a, b) refl
            | inr (m, at) ↦
                let (f, at_m, q) = v.synced.entry j m at in
                let other : m ≢ 0 = λ z.
                  let f_e : first ≡ f =
                    some_eq first f (sym at_first ∙ ap (get_elem? c.entries) (sym z) ∙ at_m) in
                  let w = (keys.eq_iff j first.key).1 (sym q ∙ ap (λ f. f.key) (sym f_e)) in cc in
                contents_at keys scoring in_place j m (same ∙ at)
                ∙ at_other m other
                ∙ sym (contents_at keys scoring c j m at)
                ∙ rw (a, b) refl
          ]
    ]
  ]

  -- No entry of the cache is below the first one.
  pub first_least :
      (j : K) (f : Entry K V S)
      → contents keys scoring c j ≡ some f
      → entry_less keys scoring f first ≡ false
  unfolding below
  first_least j f h =
      let (i, g, at_i, q) = locate keys scoring order c j f v.synced h in
      let l =
        root_least (below keys scoring) (ordered keys scoring order) i (get_elem? c.entries) i
          v.in_order (omega arith) in
      rw (at_i, at_first) at l

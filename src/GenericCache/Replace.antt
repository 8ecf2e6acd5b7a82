-- ===== src/GenericCache/Replace.antt =====
-- Writing an entry with the same key over another one, as the methods do that change an entry.
use hypothesis.Common.{
  ℕ, ◌≤◌, ◌<◌, ◌≡◌, ◌≢◌, refl, sym, ap, ◌∙◌, inl, inr, true, false, Option, some, arith, ◌==◌,
  if◌then◌else◌, length, get_elem?, set, length-set, Bool-cases, Option-cases,
}
use hypothesis.Common.Keys.{KeyEquality}
use hypothesis.Common.Dict.{get}
use hypothesis.GenericCache.{Entry, Cache, Scoring, parent}
use hypothesis.GenericCache.Heap.{IsWeakOrder}
use hypothesis.GenericCache.Index.{
  get_elem?-set, below, contents, contents_at, contents_missing, IsSynced,
}
use hypothesis.GenericCache.Edges.{inside, ordered, IsOrdered, IsOrderedBut}

pub some_eq {ℓ} : {A : Type ℓ} (a b : A) → some a ≡ some b → a ≡ b
some_eq a b h = cc

-- The cache with another entry at `i`, and another state of the subclass.
abbrev pub replaced {ℓ} : {K V S X : Type ℓ} → ℕ → Entry K V S → Cache K V S X → X → Cache K V S X
replaced i e c x = record c { entries = set c.entries i e; extra = x }

module _ {ℓ} {K V S X : Type ℓ} (keys : KeyEquality K) (scoring : Scoring K V S X)
    (order : IsWeakOrder scoring.less) where
  -- The dictionary and the array are in step, the array is a heap, and it fits the size.
  pub record IsValid (c : Cache K V S X) : Type ℓ where
    pub synced : IsSynced keys scoring c
    pub in_order : IsOrdered keys scoring order c
    pub fits : length c.entries ≤ c.max_size
    pub positive : 0 < c.max_size

  -- The contents for one key are changed, and no other, and the size that the cache may have stays.
  pub record IsChanged (c c' : Cache K V S X) (k : K) (o : Option (Entry K V S)) : Type ℓ where
    pub changed :
        (j : K)
        → contents keys scoring c' j ≡ (if keys.eq j k then o else contents keys scoring c j)
    pub kept_max_size : c'.max_size ≡ c.max_size

  module _ (i : ℕ) (e e' : Entry K V S) (c : Cache K V S X) (x : X)
      (at_i : get_elem? c.entries i ≡ some e) (same_key : e'.key ≡ e.key) where
    in_i : i < length c.entries
    in_i = inside c.entries i e at_i

    replaced_at :
        (k : ℕ)
        → get_elem? (replaced i e' c x).entries k
          ≡ (if k == i then some e' else get_elem? c.entries k)
    replaced_at k = get_elem?-set c.entries i k e' in_i

    replaced_other :
        (k : ℕ) → k ≢ i → get_elem? (replaced i e' c x).entries k ≡ get_elem? c.entries k
    replaced_other k n = replaced_at k ∙ (let m : (k == i) ≡ false = ground arith in rw m refl)

    replaced_self : get_elem? (replaced i e' c x).entries i ≡ some e'
    replaced_self = replaced_at i ∙ (let m : (i == i) ≡ true = ground arith in rw m refl)

    pub replaced-IsSynced : IsSynced keys scoring c → IsSynced keys scoring (replaced i e' c x)
    replaced-IsSynced s = record {
      index = λ k f h. elim (Bool-cases (k == i)) [
        | inl a ↦
            let k_i : k ≡ i = ground arith in
            let f_e : e' ≡ f = some_eq e' f (sym (replaced_at k ∙ rw a refl) ∙ h) in
            ap (λ f. get keys f.key c.keys_to_indices) (sym f_e)
            ∙ ap (λ q. get keys q c.keys_to_indices) same_key
            ∙ s.index i e at_i
            ∙ ap some (sym k_i)
        | inr a ↦ s.index k f (sym (replaced_other k (ground arith)) ∙ h)
      ];
      entry = λ k m h.
          let (f, at, q) = s.entry k m h in
          elim (Bool-cases (m == i)) [
            | inl a ↦
                let m_i : m ≡ i = ground arith in
                let f_e : e ≡ f =
                  some_eq e f (sym at_i ∙ ap (get_elem? c.entries) (sym m_i) ∙ at) in
                (
                  e',
                  ap (get_elem? (replaced i e' c x).entries) m_i ∙ replaced_self,
                  same_key ∙ ap (λ f. f.key) f_e ∙ q,
                )
            | inr a ↦ (f, replaced_other m (ground arith) ∙ at, q)
          ];
      sized = s.sized ∙ sym (length-set c.entries i e');
      unique = s.unique;
    }

    pub replaced-IsChanged :
        IsSynced keys scoring c → IsChanged c (replaced i e' c x) e.key (some e')
    replaced-IsChanged s = record {
      changed = λ j. elim (Bool-cases (keys.eq j e.key)) [
        | inl a ↦
            let q = (keys.eq_iff j e.key).0 a in
            contents_at keys scoring (replaced i e' c x) j i (rw q (s.index i e at_i))
            ∙ replaced_self
            ∙ rw a refl
        | inr a ↦ elim (Option-cases (get keys j c.keys_to_indices)) [
          | inl n ↦
              contents_missing keys scoring (replaced i e' c x) j n
              ∙ sym (contents_missing keys scoring c j n)
              ∙ rw a refl
          | inr (m, at) ↦
              let (f, at_m, q) = s.entry j m at in
              let other : m ≢ i = λ m_i.
                let f_e : e ≡ f =
                  some_eq e f (sym at_i ∙ ap (get_elem? c.entries) (sym m_i) ∙ at_m) in
                let z = (keys.eq_iff j e.key).1 (sym q ∙ ap (λ f. f.key) (sym f_e)) in cc in
              contents_at keys scoring (replaced i e' c x) j m at
              ∙ replaced_other m other
              ∙ sym (contents_at keys scoring c j m at)
              ∙ rw a refl
        ]
      ];
      kept_max_size = refl;
    }

    pub replaced-IsOrderedBut :
        IsOrdered keys scoring order c → IsOrderedBut keys scoring order (replaced i e' c x) i
    replaced-IsOrderedBut h = record {
      edge = λ k p n m. rw (replaced_other k n, replaced_other (parent k) m) (h k p);
      bridge = λ k p q r.
          let up = h i r in
          let down : below keys scoring (get_elem? c.entries k) (get_elem? c.entries i) ≡ false =
            rw q at (h k p) in
          rw (replaced_other k (omega arith), replaced_other (parent i) (omega arith))
            ((ordered keys scoring order).negative (get_elem? c.entries k) (get_elem? c.entries i)
              (get_elem? c.entries (parent i)) down up);
    }

    -- Where the entries compare alike.
    pub replaced-IsOrdered :
        ((o : Option (Entry K V S))
          → below keys scoring (some e') o ≡ below keys scoring (some e) o)
        → ((o : Option (Entry K V S))
            → below keys scoring o (some e') ≡ below keys scoring o (some e))
        → IsOrdered keys scoring order c
        → IsOrdered keys scoring order (replaced i e' c x)
    replaced-IsOrdered l r h k p = elim (Bool-cases (k == i)) [
      | inl a ↦
          let k_i : k ≡ i = ground arith in
          let old = h i (ground arith) in
          rw (k_i, replaced_self, replaced_other (parent i) (ground arith), l) (rw at_i at old)
      | inr a ↦ elim (Bool-cases (parent k == i)) [
        | inl b ↦
            let p_i : parent k ≡ i = ground arith in
            let old = h k p in
            rw (p_i, replaced_self, replaced_other k (ground arith), r) (rw (p_i, at_i) at old)
        | inr b ↦
            rw (replaced_other k (ground arith), replaced_other (parent k) (ground arith)) (h k p)
      ]
    ]

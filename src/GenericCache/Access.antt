-- ===== src/GenericCache/Access.antt =====
-- Reading an entry, and what changes an entry in place.
use hypothesis.Common.{
  ℕ, ◌≡◌, refl, sym, ap, ◌∙◌, inl, inr, Option, some, arith, get_elem?, length-set, Bool-cases,
  Option-cases,
}
use hypothesis.Common.Keys.{KeyEquality}
use hypothesis.Common.Dict.{get}
use hypothesis.Common.Result.{ok}
use hypothesis.GenericCache.{Entry, Cache, Scoring, balance}
use hypothesis.GenericCache.Heap.{IsWeakOrder}
use hypothesis.GenericCache.Index.{below, contents, contents_at, contents_missing, IsSynced}
use hypothesis.GenericCache.Edges.{inside}
use hypothesis.GenericCache.Balance.{balance_restores}
use hypothesis.GenericCache.Replace.{
  some_eq, IsValid, IsChanged, replaced, replaced-IsSynced, replaced-IsChanged,
  replaced-IsOrderedBut, replaced-IsOrdered,
}

module _ {ℓ} {K V S X : Type ℓ} (keys : KeyEquality K) (scoring : Scoring K V S X)
    (order : IsWeakOrder scoring.less) where
  -- Where the contents of a key are.
  pub locate :
      (c : Cache K V S X) (k : K) (e : Entry K V S)
      → IsSynced keys scoring c
      → contents keys scoring c k ≡ some e
      → (i : ℕ) × (get keys k c.keys_to_indices ≡ some i)
        × (get_elem? c.entries i ≡ some e)
        × (e.key ≡ k)
  locate c k e s h = elim (Option-cases (get keys k c.keys_to_indices)) [
    | inl n ↦ let m = contents_missing keys scoring c k n in cc
    | inr (i, g) ↦
        let at = sym (contents_at keys scoring c k i g) ∙ h in
        let (f, at', q) = s.entry k i g in
        let f_e : f ≡ e = some_eq f e (sym at' ∙ at) in (i, g, at, ap (λ f. f.key) (sym f_e) ∙ q)
  ]

  pub IsChanged-trans :
      (a b c : Cache K V S X) (k : K) (o p : Option (Entry K V S))
      → IsChanged keys scoring order a b k o
      → IsChanged keys scoring order b c k p
      → IsChanged keys scoring order a c k p
  IsChanged-trans a b c k o p h g = record {
    changed = λ j. let x = h.changed j in let y = g.changed j in ground arith;
    kept_max_size = g.kept_max_size ∙ h.kept_max_size;
  }

  module _ (i : ℕ) (e : Entry K V S) (c : Cache K V S X) (at_i : get_elem? c.entries i ≡ some e)
      (v : IsValid keys scoring order c) where
    -- Another entry with the key, which compares like the one that was there, needs no balancing.
    pub replace_alike :
        (e' : Entry K V S) (x : X)
        → e'.key ≡ e.key
        → ((o : Option (Entry K V S))
            → below keys scoring (some e') o ≡ below keys scoring (some e) o)
        → ((o : Option (Entry K V S))
            → below keys scoring o (some e') ≡ below keys scoring o (some e))
        → IsValid keys scoring order (replaced i e' c x)
          × IsChanged keys scoring order c (replaced i e' c x) e.key (some e')
    replace_alike e' x q l r = (
      record {
        synced = replaced-IsSynced keys scoring order i e e' c x at_i q v.synced;
        in_order = replaced-IsOrdered keys scoring order i e e' c x at_i q l r v.in_order;
        fits = let f = v.fits in rw (length-set c.entries i e') f;
        positive = v.positive;
      },
      replaced-IsChanged keys scoring order i e e' c x at_i q v.synced,
    )

    -- Any other entry with the key is put in its place by `balance`.
    pub replace_balance :
        (e' : Entry K V S) (x : X)
        → e'.key ≡ e.key
        → (c' : Cache K V S X) × (balance keys scoring i (replaced i e' c x) ≡ ok c')
          × IsValid keys scoring order c'
          × IsChanged keys scoring order c c' e.key (some e')
    replace_balance e' x q =
        let same = length-set c.entries i e' in
        let in_i = inside c.entries i e at_i in
        let (c', b, s, r, o) =
          balance_restores keys scoring order i (replaced i e' c x) (omega arith)
            (replaced-IsSynced keys scoring order i e e' c x at_i q v.synced)
            (replaced-IsOrderedBut keys scoring order i e e' c x at_i q v.in_order) in
        let ch = replaced-IsChanged keys scoring order i e e' c x at_i q v.synced in
        let m = r.same_max_size in
        let l = r.same_length in
        let f = v.fits in
        let p = v.positive in
        (
          c',
          b,
          record { synced = s; in_order = o; fits = rw m (omega arith); positive = rw m p },
          record { changed = λ j. r.same_contents j ∙ ch.changed j; kept_max_size = m },
        )

    pub contents_there : contents keys scoring c e.key ≡ some e
    contents_there = contents_at keys scoring c e.key i (v.synced.index i e at_i) ∙ at_i

    -- The state of the subclass does not matter.
    pub extra-IsChanged :
        (x : X) → IsChanged keys scoring order c (record c { extra = x }) e.key (some e)
    unfolding contents
    extra-IsChanged x = record {
      changed = λ j. elim (Bool-cases (keys.eq j e.key)) [
        | inl a ↦ rw a (rw ((keys.eq_iff j e.key).0 a) contents_there)
        | inr a ↦ rw a refl
      ];
      kept_max_size = refl;
    }

  pub extra-IsValid :
      (c : Cache K V S X) (x : X)
      → IsValid keys scoring order c
      → IsValid keys scoring order (record c { extra = x })
  extra-IsValid c x v = record {
    synced = record {
      index = v.synced.index;
      entry = v.synced.entry;
      sized = v.synced.sized;
      unique = v.synced.unique;
    };
    in_order = v.in_order;
    fits = v.fits;
    positive = v.positive;
  }

-- ===== src/GenericCache/Append.antt =====
-- A new entry where there is room for it.
use hypothesis.Common.{
  ℕ, zero, suc, ◌+◌, ◌<◌, ◌≡◌, ◌≢◌, refl, sym, ap, ◌∙◌, inl, inr, true, false, none, some, List, [],
  ◌∷◌, ◌++◌, arith, ◌==◌, if◌then◌else◌, length, get_elem?, length-append, Bool-cases, Option-cases,
}
use hypothesis.Common.Keys.{KeyEquality, eq_refl, eq_ne}
use hypothesis.Common.Dict.{get, put, get-put, put-IsUnique, length-put_new}
use hypothesis.Common.Result.{ok}
use hypothesis.GenericCache.{Entry, Cache, Scoring, balance, parent}
use hypothesis.GenericCache.Heap.{IsWeakOrder}
use hypothesis.GenericCache.Index.{below, contents, contents_at, contents_missing, IsSynced}
use hypothesis.GenericCache.Edges.{inside, outside, IsOrderedBut}
use hypothesis.GenericCache.Balance.{balance_restores}
use hypothesis.GenericCache.Replace.{some_eq, IsValid, IsChanged}
use hypothesis.GenericCache.Methods.{index_missing}

get_elem?-append {ℓ} :
    {A : Type ℓ} (l : List A) (x : A) (k : ℕ)
    → get_elem? (l ++ x ∷ []) k ≡ (if k == length l then some x else get_elem? l k)
get_elem?-append [] x zero = refl
get_elem?-append [] x (suc k) = ground arith
get_elem?-append (y ∷ l) x zero = ground arith
get_elem?-append (y ∷ l) x (suc k) =
    get_elem?-append l x k
    ∙ (let s : (suc k == suc (length l)) ≡ (k == length l) = ground arith in rw s refl)

module _ {ℓ} {K V S X : Type ℓ} (keys : KeyEquality K) (scoring : Scoring K V S X)
    (order : IsWeakOrder scoring.less) (e : Entry K V S) (c : Cache K V S X)
    (v : IsValid keys scoring order c) (new : contents keys scoring c e.key ≡ none) where
  abbrev appended : Cache K V S X
  appended = record c {
    entries = c.entries ++ e ∷ [];
    keys_to_indices = put keys e.key (length c.entries) c.keys_to_indices;
  }

  at_last : get_elem? appended.entries (length c.entries) ≡ some e
  at_last =
      get_elem?-append c.entries e (length c.entries)
      ∙ (let s : (length c.entries == length c.entries) ≡ true = ground arith in rw s refl)

  at_other : (k : ℕ) → k ≢ length c.entries → get_elem? appended.entries k ≡ get_elem? c.entries k
  at_other k n =
      get_elem?-append c.entries e k
      ∙ (let s : (k == length c.entries) ≡ false = ground arith in rw s refl)

  not_indexed : get keys e.key c.keys_to_indices ≡ none
  not_indexed = index_missing keys scoring order e.key c v.synced new

  other_key : (k : K) (i : ℕ) → get keys k c.keys_to_indices ≡ some i → keys.eq k e.key ≡ false
  other_key k i h = eq_ne keys k e.key (λ q.
      let g : get keys e.key c.keys_to_indices ≡ some i = rw (← q) h in let n = not_indexed in cc)

  appended-IsSynced : IsSynced keys scoring appended
  appended-IsSynced = record {
    index = λ k f h. elim (Bool-cases (k == length c.entries)) [
      | inl a ↦
          let last : k ≡ length c.entries = ground arith in
          let f_e : e ≡ f =
            some_eq e f (sym at_last ∙ ap (get_elem? appended.entries) (sym last) ∙ h) in
          get-put keys f.key e.key (length c.entries) c.keys_to_indices
          ∙ rw (← f_e, eq_refl keys e.key) (ap some (sym last))
      | inr a ↦
          let at_k = sym (at_other k (ground arith)) ∙ h in
          let there = v.synced.index k f at_k in
          get-put keys f.key e.key (length c.entries) c.keys_to_indices
          ∙ rw (other_key f.key k there) there
    ];
    entry = λ k m h.
        let h' = sym (get-put keys k e.key (length c.entries) c.keys_to_indices) ∙ h in
        elim (Bool-cases (keys.eq k e.key)) [
          | inl a ↦
              let last : m ≡ length c.entries = ground arith in
              (e, ap (get_elem? appended.entries) last ∙ at_last, sym ((keys.eq_iff k e.key).0 a))
          | inr a ↦
              let (f, at_m, q) = v.synced.entry k m (rw a at h') in
              let in_m = inside c.entries m f at_m in (f, at_other m (omega arith) ∙ at_m, q)
        ];
    sized =
        length-put_new keys e.key (length c.entries) c.keys_to_indices not_indexed
        ∙ ap (λ n. n + 1) v.synced.sized
        ∙ sym (length-append c.entries (e ∷ []));
    unique = put-IsUnique keys e.key (length c.entries) c.keys_to_indices v.synced.unique;
  }

  appended-IsOrderedBut : IsOrderedBut keys scoring order appended (length c.entries)
  unfolding below
  appended-IsOrderedBut = record {
    edge = λ k p n m. rw (at_other k n, at_other (parent k) m) (v.in_order k p);
    bridge = λ k p q r. rw (at_other k (omega arith), outside c.entries k (omega arith)) refl;
  }

  appended-contents :
      (j : K)
      → contents keys scoring appended j
        ≡ (if keys.eq j e.key then some e else contents keys scoring c j)
  appended-contents j = elim (Bool-cases (keys.eq j e.key)) [
    | inl a ↦
        contents_at keys scoring appended j (length c.entries)
          (get-put keys j e.key (length c.entries) c.keys_to_indices ∙ rw a refl)
        ∙ at_last
        ∙ rw a refl
    | inr a ↦
        let same = get-put keys j e.key (length c.entries) c.keys_to_indices in
        elim (Option-cases (get keys j c.keys_to_indices)) [
          | inl n ↦
              contents_missing keys scoring appended j (same ∙ rw a n)
              ∙ sym (contents_missing keys scoring c j n)
              ∙ rw a refl
          | inr (m, at) ↦
              let (f, at_m, q) = v.synced.entry j m at in
              let in_m = inside c.entries m f at_m in
              contents_at keys scoring appended j m (same ∙ rw a at)
              ∙ at_other m (omega arith)
              ∙ sym (contents_at keys scoring c j m at)
              ∙ rw a refl
        ]
  ]

  pub append_balance :
      length c.entries < c.max_size
      → (c' : Cache K V S X) × (balance keys scoring (length c.entries) appended ≡ ok c')
        × IsValid keys scoring order c'
        × IsChanged keys scoring order c c' e.key (some e)
  append_balance room =
      let longer = length-append c.entries (e ∷ []) in
      let (c', b, s, r, o) =
        balance_restores keys scoring order (length c.entries) appended (omega arith)
          appended-IsSynced appended-IsOrderedBut in
      let m = r.same_max_size in
      let l = r.same_length in
      let p = v.positive in
      (
        c',
        b,
        record { synced = s; in_order = o; fits = rw m (omega arith); positive = rw m p },
        record { changed = λ j. r.same_contents j ∙ appended-contents j; kept_max_size = m },
      )

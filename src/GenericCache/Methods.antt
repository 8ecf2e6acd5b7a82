-- ===== src/GenericCache/Methods.antt =====
-- What the methods do with a key that is there.
use hypothesis.Common.{
  ℕ, ◌-◌, ◌<◌, ◌≡◌, ◌⊎◌, refl, ◌∙◌, inl, inr, true, false, Option, none, some, arith, ◌==◌,
  if◌then◌else◌, get_elem?, Bool-cases, Option-cases, subst, get_elem?-set_self,
}
use hypothesis.Common.Keys.{KeyEquality}
use hypothesis.Common.Dict.{get}
use hypothesis.Common.Result.{ok, raise, value_error, key_error}
use hypothesis.GenericCache.{Entry, Cache, Scoring, entry_at, entry_less, entry_was_accessed}
use hypothesis.GenericCache.Heap.{IsWeakOrder}
use hypothesis.GenericCache.Index.{below, contents, contents_at, IsSynced}
use hypothesis.GenericCache.Edges.{inside}
use hypothesis.GenericCache.Operations.{index_of, get_item, overwrite, set_item, set_pins, unpin}
use hypothesis.GenericCache.Replace.{IsValid, IsChanged, replaced}
use hypothesis.GenericCache.Access.{
  locate, IsChanged-trans, extra-IsValid, extra-IsChanged, replace_alike, replace_balance,
}

module _ {ℓ} {K V S X : Type ℓ} (keys : KeyEquality K) (scoring : Scoring K V S X)
    (order : IsWeakOrder scoring.less) where
  pinned_before :
      (e e' : Entry K V S)
      → (e.pins == 0) ≡ false
      → (e'.pins == 0) ≡ false
      → (o : Option (Entry K V S)) → below keys scoring (some e') o ≡ below keys scoring (some e) o
  unfolding below entry_less
  pinned_before e e' h g none = refl
  pinned_before e e' h g (some f) = rw (h, g) refl

  pinned_after :
      (e e' : Entry K V S)
      → (e.pins == 0) ≡ false
      → (e'.pins == 0) ≡ false
      → (o : Option (Entry K V S)) → below keys scoring o (some e') ≡ below keys scoring o (some e)
  unfolding below entry_less
  pinned_after e e' h g none = refl
  pinned_after e e' h g (some f) = rw (h, g) refl

  alike_before :
      (e e' : Entry K V S)
      → e'.pins ≡ e.pins
      → e'.score ≡ e.score
      → (o : Option (Entry K V S)) → below keys scoring (some e') o ≡ below keys scoring (some e) o
  unfolding below entry_less
  alike_before e e' h g none = refl
  alike_before e e' h g (some f) = rw (h, g) refl

  alike_after :
      (e e' : Entry K V S)
      → e'.pins ≡ e.pins
      → e'.score ≡ e.score
      → (o : Option (Entry K V S)) → below keys scoring o (some e') ≡ below keys scoring o (some e)
  unfolding below entry_less
  alike_after e e' h g none = refl
  alike_after e e' h g (some f) = rw (h, g) refl

  -- The entry with what `on_access` gives for a score, where it is another one.
  unfoldable pub accessed : Entry K V S → X → Entry K V S
  accessed e x =
      let (s, x') = scoring.on_access e.key e.value e.score x in
      if scoring.same s e.score then e else record e { score = s }

  module _ (i : ℕ) (e : Entry K V S) (c : Cache K V S X) (at_i : get_elem? c.entries i ≡ some e)
      (v : IsValid keys scoring order c) where
    pub entry_was_accessed_lem :
        (c' : Cache K V S X) × (entry_was_accessed keys scoring i c ≡ ok c')
        × IsValid keys scoring order c'
        × IsChanged keys scoring order c c' e.key (some (accessed e c.extra))
    unfolding entry_was_accessed entry_at accessed
    entry_was_accessed_lem =
        let s' = (scoring.on_access e.key e.value e.score c.extra).0 in
        let x' = (scoring.on_access e.key e.value e.score c.extra).1 in
        let e' = record e { score = s' } in
        elim (Bool-cases (scoring.same s' e.score)) [
          | inl a ↦ (
            record c { extra = x' },
            rw (at_i, a) refl,
            extra-IsValid keys scoring order c x' v,
            rw a (extra-IsChanged keys scoring order i e c at_i v x'),
          )
          | inr a ↦ elim (Bool-cases (e.pins == 0)) [
            | inl b ↦
                let (c', h, w, ch) = replace_balance keys scoring order i e c at_i v e' x' refl in
                (c', rw (at_i, a, b) h, w, rw a ch)
            | inr b ↦
                let (w, ch) =
                  replace_alike keys scoring order i e c at_i v e' x' refl (pinned_before e e' b b)
                    (pinned_after e e' b b) in
                (replaced i e' c x', rw (at_i, a, b) refl, w, rw a ch)
          ]
        ]

  pub overwrite_lem :
      (i : ℕ) (e : Entry K V S) (c : Cache K V S X) (k : K) (w : V)
      → get_elem? c.entries i ≡ some e
      → IsValid keys scoring order c
      → e.key ≡ k
      → (c' : Cache K V S X) × (overwrite keys scoring i k w c ≡ ok c')
        × IsValid keys scoring order c'
        × IsChanged keys scoring order c c' e.key (some (accessed (record e { value = w }) c.extra))
  unfolding overwrite entry_at
  overwrite_lem i e c k w at_i v q =
      let e1 = record e { value = w } in
      let c1 = replaced i e1 c c.extra in
      let (v1, ch1) =
        replace_alike keys scoring order i e c at_i v e1 c.extra refl (alike_before e e1 refl refl)
          (alike_after e e1 refl refl) in
      let at1 = get_elem?-set_self c.entries i e1 (inside c.entries i e at_i) in
      let (c2, h2, v2, ch2) = entry_was_accessed_lem i e1 c1 at1 v1 in
      let same : keys.eq e.key k ≡ true = (keys.eq_iff e.key k).1 q in
      (
        c2,
        rw (at_i, same) h2,
        v2,
        IsChanged-trans keys scoring order c c1 c2 e.key (some e1) (some (accessed e1 c.extra)) ch1
            ch2,
      )

  pub IsChanged-key :
      (c c' : Cache K V S X) (j k : K) (o : Option (Entry K V S))
      → j ≡ k
      → IsChanged keys scoring order c c' j o
      → IsChanged keys scoring order c c' k o
  IsChanged-key c c' j k o q h = subst (λ k. IsChanged keys scoring order c c' k o) q h

  -- `__getitem__` of a key that is there, in a valid cache: the value, in a valid cache in which the
  -- score of that key alone is changed.
  pub get_item_there :
      (k : K) (e : Entry K V S) (c : Cache K V S X)
      → IsValid keys scoring order c
      → contents keys scoring c k ≡ some e
      → (c' : Cache K V S X) × (get_item keys scoring k c ≡ ok (e.value, c'))
        × IsValid keys scoring order c'
        × IsChanged keys scoring order c c' k (some (accessed e c.extra))
  unfolding get_item index_of entry_at
  get_item_there k e c v h =
      let (i, g, at_i, q) = locate keys scoring order c k e v.synced h in
      let (c', a, w, ch) = entry_was_accessed_lem i e c at_i v in
      (c', rw (g, at_i, a) refl, w, IsChanged-key c c' e.key k _ q ch)

  pub set_item_there :
      (k : K) (w : V) (e : Entry K V S) (c : Cache K V S X)
      → IsValid keys scoring order c
      → contents keys scoring c k ≡ some e
      → (c' : Cache K V S X) × (set_item keys scoring k w c ≡ ok c')
        × IsValid keys scoring order c'
        × IsChanged keys scoring order c c' k (some (accessed (record e { value = w }) c.extra))
  unfolding set_item
  set_item_there k w e c v h =
      let (i, g, at_i, q) = locate keys scoring order c k e v.synced h in
      let (c', a, u, ch) = overwrite_lem i e c k w at_i v q in
      (c', rw (g, set_item) a, u, IsChanged-key c c' e.key k _ q ch)

  pub set_pins_lem :
      (i pins moves_at : ℕ) (e : Entry K V S) (c : Cache K V S X)
      → get_elem? c.entries i ≡ some e
      → IsValid keys scoring order c
      → ((pins == moves_at) ≡ true)
        ⊎ (((pins == moves_at) ≡ false) × ((e.pins == 0) ≡ false) × ((pins == 0) ≡ false))
      → (c' : Cache K V S X) × (set_pins keys scoring i e pins moves_at c ≡ ok c')
        × IsValid keys scoring order c'
        × IsChanged keys scoring order c c' e.key (some (record e { pins = pins }))
  unfolding set_pins
  set_pins_lem i pins moves_at e c at_i v (inl m) =
      let e' = record e { pins = pins } in
      let (c', h, w, ch) = replace_balance keys scoring order i e c at_i v e' c.extra refl in
      (c', rw m h, w, ch)
  set_pins_lem i pins moves_at e c at_i v (inr (m, p, p')) =
      let e' = record e { pins = pins } in
      let (w, ch) =
        replace_alike keys scoring order i e c at_i v e' c.extra refl (pinned_before e e' p p')
          (pinned_after e e' p p') in
      (replaced i e' c c.extra, rw m refl, w, ch)

  pub unpin_there :
      (k : K) (e : Entry K V S) (c : Cache K V S X)
      → IsValid keys scoring order c
      → contents keys scoring c k ≡ some e
      → ((e.pins ≡ 0) × (unpin keys scoring k c ≡ raise value_error))
        ⊎ ((0 < e.pins)
            × ((c' : Cache K V S X) × (unpin keys scoring k c ≡ ok c')
                × IsValid keys scoring order c'
                × IsChanged keys scoring order c c' k (some (record e { pins = e.pins - 1 }))))
  unfolding unpin index_of entry_at
  unpin_there k e c v h =
      let (i, g, at_i, q) = locate keys scoring order c k e v.synced h in
      elim (Bool-cases (e.pins == 0)) [
        | inl z ↦ inl (ground arith, rw (g, at_i, z) refl)
        | inr z ↦
            let (c', a, w, ch) =
              set_pins_lem i (e.pins - 1) 0 e c at_i v
                (elim (Bool-cases ((e.pins - 1) == 0)) [ inl m ↦ inl m | inr m ↦ inr (m, z, m) ]) in
            inr (ground arith, (c', rw (g, at_i, z) a, w, IsChanged-key c c' e.key k _ q ch))
      ]

  -- A key without contents has no index.
  pub index_missing :
      (k : K) (c : Cache K V S X)
      → IsSynced keys scoring c
      → contents keys scoring c k ≡ none
      → get keys k c.keys_to_indices ≡ none
  index_missing k c s h = elim (Option-cases (get keys k c.keys_to_indices)) [
    | inl n ↦ n
    | inr (i, g) ↦
        let (e, at, q) = s.entry k i g in let there = contents_at keys scoring c k i g ∙ at in cc
  ]

  pub get_item_missing :
      (k : K) (c : Cache K V S X)
      → IsSynced keys scoring c
      → contents keys scoring c k ≡ none
      → get_item keys scoring k c ≡ raise key_error
  unfolding get_item index_of
  get_item_missing k c s h = rw (index_missing k c s h) refl

  pub unpin_missing :
      (k : K) (c : Cache K V S X)
      → IsSynced keys scoring c
      → contents keys scoring c k ≡ none
      → unpin keys scoring k c ≡ raise key_error
  unfolding unpin index_of
  unpin_missing k c s h = rw (index_missing k c s h) refl

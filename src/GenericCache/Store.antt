-- ===== src/GenericCache/Store.antt =====
-- `__setitem__` and `pin` of any key.
use hypothesis.Common.{
  ◌+◌, ◌<◌, ◌≡◌, refl, ◌∙◌, inl, inr, none, some, arith, ◌==◌, length, Bool-cases, Option-cases,
}
use hypothesis.Common.Keys.{KeyEquality, eq_refl}
use hypothesis.Common.Result.{Error, Result, ok, raise, value_error}
use hypothesis.GenericCache.{Entry, Cache, Scoring, entry_at}
use hypothesis.GenericCache.Heap.{IsWeakOrder}
use hypothesis.GenericCache.Index.{contents}
use hypothesis.GenericCache.Operations.{insert, insert_new, set_item, pin, index_of}
use hypothesis.GenericCache.Replace.{IsValid, IsChanged}
use hypothesis.GenericCache.Access.{locate, extra-IsValid}
use hypothesis.GenericCache.Methods.{
  index_missing, accessed, set_item_there, set_pins_lem, IsChanged-key,
}
use hypothesis.GenericCache.Insert.{AllPinned, Outcome, stored, evicted, refused, insert_lem}

module _ {ℓ} {K V S X : Type ℓ} (keys : KeyEquality K) (scoring : Scoring K V S X)
    (order : IsWeakOrder scoring.less) where
  -- The entry for a new key.
  abbrev pub fresh : K → V → X → Entry K V S
  fresh k w x = record { key = k; value = w; score = (scoring.new_entry k w x).0; pins = 0 }

  -- The state of the subclass does not matter.
  outcome_of :
      (c : Cache K V S X) (x : X) (e : Entry K V S) (r : Result (Cache K V S X))
      → Outcome keys scoring order (record c { extra = x }) e r
      → Outcome keys scoring order c e r
  unfolding contents
  outcome_of c x e r (stored c' room v ch) =
      stored c' room v (record { changed = ch.changed; kept_max_size = ch.kept_max_size })
  outcome_of c x e r (evicted first c' full p l v ch) =
      evicted first c' full p (record { there = l.there; least = l.least }) v
        (record { exchanged = ch.exchanged; same_max_size = ch.same_max_size })
  outcome_of c x e r (refused full p) = refused full p

  -- Storing a key that is not there in a valid cache: the new entry is stored where there is room; where
  -- there is none it takes the place of one of the least entries, which is not pinned; and where all
  -- entries are pinned this is refused.
  pub set_item_new :
      (k : K) (w : V) (c : Cache K V S X)
      → IsValid keys scoring order c
      → contents keys scoring c k ≡ none
      → Outcome keys scoring order c (fresh k w c.extra) (set_item keys scoring k w c)
  unfolding set_item insert_new contents
  set_item_new k w c v new =
      let (s, x) = scoring.new_entry k w c.extra in
      let e = fresh k w c.extra in
      let h : set_item keys scoring k w c ≡ insert keys scoring e (record c { extra = x }) =
        rw (index_missing keys scoring order k c v.synced new, set_item) refl in
      rw h (
        outcome_of c x e (insert keys scoring e (record c { extra = x })) (
          insert_lem keys scoring order e (record c { extra = x })
            (extra-IsValid keys scoring order c x v) new))

  -- Where a store succeeds the cache is valid and has the value for the key.
  pub data IsStored (c : Cache K V S X) (k : K) (w : V) : Result (Cache K V S X) → Type ℓ where
    held :
        (e : Entry K V S) (c' : Cache K V S X)
        → IsValid keys scoring order c'
        → contents keys scoring c' k ≡ some e
        → e.value ≡ w
        → c'.max_size ≡ c.max_size
        → IsStored c k w (ok c')
    no_room :
        length c.entries ≡ c.max_size
        → contents keys scoring c k ≡ none
        → AllPinned keys scoring order c
        → IsStored c k w (raise value_error)

  IsStored-of :
      (c : Cache K V S X) (k : K) (w : V) (x : X) (r : Result (Cache K V S X))
      → contents keys scoring c k ≡ none
      → Outcome keys scoring order c (fresh k w x) r
      → IsStored c k w r
  IsStored-of c k w x r new (stored c' room v ch) =
      held (fresh k w x) c' v (ch.changed k ∙ rw (eq_refl keys k) refl) refl ch.kept_max_size
  IsStored-of c k w x r new (evicted first c' full p l v ch) =
      held (fresh k w x) c' v (ch.exchanged k ∙ rw (eq_refl keys k) refl) refl ch.same_max_size
  IsStored-of c k w x r new (refused f p) = no_room f new p

  accessed_value : (e : Entry K V S) (x : X) → (accessed keys scoring order e x).value ≡ e.value
  unfolding accessed
  accessed_value e x =
      elim (Bool-cases (scoring.same (scoring.on_access e.key e.value e.score x).0 e.score)) [
        | inl a ↦ rw a refl
        | inr a ↦ rw a refl
      ]

  pub set_item-IsStored :
      (k : K) (w : V) (c : Cache K V S X)
      → IsValid keys scoring order c
      → IsStored c k w (set_item keys scoring k w c)
  set_item-IsStored k w c v = elim (Option-cases (contents keys scoring c k)) [
    | inl new ↦
        IsStored-of c k w c.extra (set_item keys scoring k w c) new (set_item_new k w c v new)
    | inr (e, h) ↦
        let (c', a, u, ch) = set_item_there keys scoring order k w e c v h in
        let e' = record e { value = w } in
        rw a (
          held (accessed keys scoring order e' c.extra) c' u
            (ch.changed k ∙ rw (eq_refl keys k) refl) (accessed_value e' c.extra) ch.kept_max_size)
  ]

  -- `pin` stores the value, and counts a pin of the entry that is there then.
  pub data IsPinned (c : Cache K V S X) (k : K) (w : V) : Result (Cache K V S X) → Type ℓ where
    pinned :
        (e : Entry K V S) (c' : Cache K V S X)
        → IsValid keys scoring order c'
        → contents keys scoring c' k ≡ some e
        → e.value ≡ w
        → 0 < e.pins
        → c'.max_size ≡ c.max_size
        → IsPinned c k w (ok c')
    not_stored :
        length c.entries ≡ c.max_size
        → contents keys scoring c k ≡ none
        → AllPinned keys scoring order c
        → IsPinned c k w (raise value_error)

  -- `pin` after its store.
  pub pin_counts :
      (c c1 : Cache K V S X) (k : K) (w : V) (e : Entry K V S)
      → set_item keys scoring k w c ≡ ok c1
      → IsValid keys scoring order c1
      → contents keys scoring c1 k ≡ some e
      → (c' : Cache K V S X) × (pin keys scoring k w c ≡ ok c')
        × IsValid keys scoring order c'
        × IsChanged keys scoring order c1 c' k (some (record e { pins = e.pins + 1 }))
  unfolding pin index_of entry_at
  pin_counts c c1 k w e h v at =
      let (i, g, at_i, s) = locate keys scoring order c1 k e v.synced at in
      let (c', b, u, ch) =
        set_pins_lem keys scoring order i (e.pins + 1) 1 e c1 at_i v
          (elim (Bool-cases ((e.pins + 1) == 1)) [
            | inl a ↦ inl a
            | inr a ↦ inr (a, ground arith, ground arith)
          ]) in
      let e' = record e { pins = e.pins + 1 } in
      (
        c',
        rw (h, g, at_i, b) refl,
        u,
        IsChanged-key keys scoring order c1 c' e.key k (some e') s ch,
      )

  pub pin_raises :
      (c : Cache K V S X) (k : K) (w : V) (error : Error)
      → set_item keys scoring k w c ≡ raise error
      → pin keys scoring k w c ≡ raise error
  unfolding pin
  pin_raises c k w error h = rw h refl

  pin_rest :
      (c : Cache K V S X) (k : K) (w : V) (r : Result (Cache K V S X))
      → IsStored c k w r
      → set_item keys scoring k w c ≡ r
      → IsPinned c k w (pin keys scoring k w c)
  pin_rest c k w r (no_room f n p) h = rw (pin_raises c k w value_error h) (not_stored f n p)
  pin_rest c k w r (held e c1 v at q m) h =
      let (c', t, u, ch) = pin_counts c c1 k w e h v at in
      rw t (
        pinned (record e { pins = e.pins + 1 }) c' u (ch.changed k ∙ rw (eq_refl keys k) refl) q
          (omega arith) (ch.kept_max_size ∙ m))

  -- `pin` on a valid cache leaves a valid one with the value pinned there, or raises a ValueError, which
  -- it does for a new key of a full cache only, all of whose entries are pinned.
  pub pin-IsPinned :
      (k : K) (w : V) (c : Cache K V S X)
      → IsValid keys scoring order c
      → IsPinned c k w (pin keys scoring k w c)
  pin-IsPinned k w c v =
      pin_rest c k w (set_item keys scoring k w c) (set_item-IsStored k w c v) refl

-- ===== src/GenericCache/Pins.antt =====
-- What the methods do to the pins of an entry.
use hypothesis.Common.{
  ℕ, ◌+◌, ◌-◌, ◌<◌, ◌≡◌, ◌⊎◌, refl, sym, ap, ◌∙◌, inl, inr, false, none, some, arith, if◌then◌else◌,
  Bool-cases, Option-cases,
}
use hypothesis.Common.Keys.{KeyEquality, eq_ne}
use hypothesis.Common.Dict.{get}
use hypothesis.Common.Result.{Result, ok, value_error}
use hypothesis.GenericCache.{Entry, Cache, Scoring, clear}
use hypothesis.GenericCache.Heap.{IsWeakOrder}
use hypothesis.GenericCache.Index.{contents}
use hypothesis.GenericCache.Operations.{set_item, pin}
use hypothesis.GenericCache.Replace.{some_eq, IsValid, IsChanged}
use hypothesis.GenericCache.Methods.{
  accessed, get_item_there, get_item_missing, set_item_there, unpin_there, unpin_missing,
}
use hypothesis.GenericCache.Insert.{Outcome, stored, evicted, refused}
use hypothesis.GenericCache.Store.{
  fresh, set_item_new, set_item-IsStored, IsStored, held, no_room, pin_counts, pin_raises,
}
use hypothesis.GenericCache.Runs.{ok_eq, Call, store, pinning, read, unpinning, clearing, perform}

-- How many pins a key has after a call, where it had `n`.
abbrev pub pins_after {ℓ} : {K V : Type ℓ} → KeyEquality K → K → Call K V → ℕ → ℕ
pins_after keys j (store k w) n = n
pins_after keys j (pinning k w) n = if keys.eq j k then n + 1 else n
pins_after keys j (read k) n = n
pins_after keys j (unpinning k) n = if keys.eq j k then n - 1 else n
pins_after keys j clearing n = 0

module _ {ℓ} {K V S X : Type ℓ} (keys : KeyEquality K) (scoring : Scoring K V S X)
    (order : IsWeakOrder scoring.less) where
  -- An entry for the key with so many pins.
  abbrev pub HasPins : Cache K V S X → K → ℕ → Type ℓ
  HasPins c j n = (e : Entry K V S) × (contents keys scoring c j ≡ some e) × (e.pins ≡ n)

  -- Where the entry of a key is replaced, and `g` gives its new number of pins from the old one.
  changed_pins :
      (c c' : Cache K V S X) (j k : K) (e e' f : Entry K V S) (g : ℕ → ℕ)
      → IsChanged keys scoring order c c' k (some e')
      → contents keys scoring c k ≡ some e
      → contents keys scoring c j ≡ some f
      → e'.pins ≡ g e.pins
      → HasPins c' j (if keys.eq j k then g f.pins else f.pins)
  changed_pins c c' j k e e' f g ch at_k at_j p = elim (Bool-cases (keys.eq j k)) [
    | inl a ↦
        let q = (keys.eq_iff j k).0 a in
        let same : e ≡ f = some_eq e f (sym at_k ∙ ap (contents keys scoring c) (sym q) ∙ at_j) in
        rw a (e', ch.changed j ∙ rw a refl, p ∙ ap (λ e. g e.pins) same)
    | inr a ↦ rw a (f, ch.changed j ∙ rw a at_j, refl)
  ]

  same_pins :
      (c c' : Cache K V S X) (j k : K) (e e' f : Entry K V S)
      → IsChanged keys scoring order c c' k (some e')
      → contents keys scoring c k ≡ some e
      → contents keys scoring c j ≡ some f
      → e'.pins ≡ e.pins
      → HasPins c' j f.pins
  same_pins c c' j k e e' f ch at_k at_j p =
      let h = changed_pins c c' j k e e' f (λ n. n) ch at_k at_j p in
      elim (Bool-cases (keys.eq j k)) [ inl a ↦ rw a at h | inr a ↦ rw a at h ]

  accessed_pins : (e : Entry K V S) (x : X) → (accessed keys scoring order e x).pins ≡ e.pins
  unfolding accessed
  accessed_pins e x =
      elim (Bool-cases (scoring.same (scoring.on_access e.key e.value e.score x).0 e.score)) [
        | inl a ↦ rw a refl
        | inr a ↦ rw a refl
      ]

  outcome_pins :
      (c c' : Cache K V S X) (j : K) (e f : Entry K V S) (r : Result (Cache K V S X))
      → Outcome keys scoring order c e r
      → contents keys scoring c e.key ≡ none
      → contents keys scoring c j ≡ some f
      → 0 < f.pins
      → r ≡ ok c'
      → HasPins c' j f.pins
  outcome_pins c c' j e f r (stored d room v ch) new at p h =
      let other : keys.eq j e.key ≡ false =
        eq_ne keys j e.key (λ q. let z = ap (contents keys scoring c) q in cc) in
      rw (← ok_eq d c' h) (f, ch.changed j ∙ rw other at, refl)
  outcome_pins c c' j e f r (evicted first d full u l v ch) new at p h =
      let other : keys.eq j e.key ≡ false =
        eq_ne keys j e.key (λ q. let z = ap (contents keys scoring c) q in cc) in
      let kept : keys.eq j first.key ≡ false = eq_ne keys j first.key (λ q.
        let same : f ≡ first =
          some_eq f first (sym at ∙ ap (contents keys scoring c) q ∙ l.there) in
        let z = ap (λ f. f.pins) same in omega arith) in
      rw (← ok_eq d c' h) (f, ch.exchanged j ∙ rw (other, kept) at, refl)
  outcome_pins c c' j e f r (refused full q) new at p h = cc

  set_item_pins :
      (k : K) (w : V) (c c' : Cache K V S X) (j : K) (f : Entry K V S)
      → IsValid keys scoring order c
      → contents keys scoring c j ≡ some f
      → 0 < f.pins
      → set_item keys scoring k w c ≡ ok c'
      → HasPins c' j f.pins
  set_item_pins k w c c' j f v at p h = elim (Option-cases (contents keys scoring c k)) [
    | inl new ↦
        outcome_pins c c' j (fresh keys scoring order k w c.extra) f (set_item keys scoring k w c)
          (set_item_new keys scoring order k w c v new) new at p h
    | inr (e, there) ↦
        let (d, g, u, ch) = set_item_there keys scoring order k w e c v there in
        let e' = record e { value = w } in
        rw (← ok_eq d c' (sym g ∙ h)) (
          same_pins c d j k e (accessed keys scoring order e' c.extra) f ch there at
            (accessed_pins e' c.extra))
  ]

  pin_pins :
      (k : K) (w : V) (c c' : Cache K V S X) (j : K) (f : Entry K V S) (r : Result (Cache K V S X))
      → IsValid keys scoring order c
      → contents keys scoring c j ≡ some f
      → 0 < f.pins
      → IsStored keys scoring order c k w r
      → set_item keys scoring k w c ≡ r
      → pin keys scoring k w c ≡ ok c'
      → HasPins c' j (if keys.eq j k then f.pins + 1 else f.pins)
  pin_pins k w c c' j f r v at p (no_room full n q) s h =
      let g = pin_raises keys scoring order c k w value_error s in absurd cc
  pin_pins k w c c' j f r v at p (held e c1 u there q m) s h =
      let (d, g, u', ch) = pin_counts keys scoring order c c1 k w e s u there in
      let (f1, at1, p1) = set_item_pins k w c c1 j f v at p s in
      let e' = record e { pins = e.pins + 1 } in
      rw (← ok_eq d c' (sym g ∙ h), ← p1)
        (changed_pins c1 d j k e e' f1 (λ n. n + 1) ch there at1 refl)

  -- A pinned entry stays in the cache whatever is stored, read, pinned or unpinned, with as many pins as
  -- the calls of `pin` and `unpin` for its key say. Only `clear` removes it.
  pub perform_pins :
      (call : Call K V) (c c' : Cache K V S X) (j : K) (f : Entry K V S)
      → IsValid keys scoring order c
      → contents keys scoring c j ≡ some f
      → 0 < f.pins
      → perform keys scoring call c ≡ ok c'
      → HasPins c' j (pins_after keys j call f.pins)
        ⊎ ((call ≡ clearing) × (contents keys scoring c' j ≡ none))
  unfolding perform clear contents get
  perform_pins (store k w) c c' j f v at p h = inl (set_item_pins k w c c' j f v at p h)
  perform_pins (pinning k w) c c' j f v at p h = inl (
      pin_pins k w c c' j f (set_item keys scoring k w c) v at p
        (set_item-IsStored keys scoring order k w c v) refl h)
  perform_pins (read k) c c' j f v at p h = elim (Option-cases (contents keys scoring c k)) [
    | inl n ↦
        let g = get_item_missing keys scoring order k c v.synced n in
        absurd (let z = rw g at h in cc)
    | inr (e, there) ↦
        let (d, g, u, ch) = get_item_there keys scoring order k e c v there in
        rw (← ok_eq d c' (rw g at h)) (
          inl (
            same_pins c d j k e (accessed keys scoring order e c.extra) f ch there at
              (accessed_pins e c.extra)))
  ]
  perform_pins (unpinning k) c c' j f v at p h = elim (Option-cases (contents keys scoring c k)) [
    | inl n ↦ let g = unpin_missing keys scoring order k c v.synced n in absurd cc
    | inr (e, there) ↦ elim (unpin_there keys scoring order k e c v there) [
      | inl (z, g) ↦ absurd cc
      | inr (q, (d, g, u, ch)) ↦ rw (← ok_eq d c' (sym g ∙ h)) (
          inl (
            changed_pins c d j k e (record e { pins = e.pins - 1 }) f (λ n. n - 1) ch there at
              refl))
    ]
  ]
  perform_pins clearing c c' j f v at p h = rw (← ok_eq (clear c) c' h) (inr (refl, refl))

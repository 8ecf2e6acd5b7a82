-- ===== src/GenericCache/Policy.antt =====
-- Which entry goes where one is evicted, when a store succeeds, and how a key is unpinned.
use hypothesis.Common.{
  ℕ, zero, suc, ◌-◌, ◌≡◌, refl, sym, ap, ◌∙◌, inl, inr, none, some, arith, Bool-cases, Option-cases,
}
use hypothesis.Common.Keys.{KeyEquality, eq_refl}
use hypothesis.Common.Result.{Result, ok, raise, ◌>>=◌, value_error}
use hypothesis.GenericCache.{Entry, Cache, Scoring}
use hypothesis.GenericCache.Heap.{IsWeakOrder}
use hypothesis.GenericCache.Index.{contents}
use hypothesis.GenericCache.Operations.{set_item, unpin}
use hypothesis.GenericCache.Replace.{some_eq, IsValid}
use hypothesis.GenericCache.Methods.{set_item_there, unpin_there}
use hypothesis.GenericCache.Insert.{Outcome, stored, evicted, refused, IsLeast}
use hypothesis.GenericCache.Store.{fresh, set_item_new, set_item-IsStored, IsStored, held, no_room}
use hypothesis.GenericCache.Runs.{ok_eq}

module _ {ℓ} {K V S X : Type ℓ} (keys : KeyEquality K) (scoring : Scoring K V S X)
    (order : IsWeakOrder scoring.less) where
  vanished :
      (c c' : Cache K V S X) (j : K) (e f : Entry K V S) (r : Result (Cache K V S X))
      → Outcome keys scoring order c e r
      → contents keys scoring c j ≡ some f
      → contents keys scoring c' j ≡ none
      → r ≡ ok c'
      → (f.pins ≡ 0) × IsLeast keys scoring order c f
  vanished c c' j e f r (stored d room v ch) at gone h =
      let gone' : contents keys scoring d j ≡ none = rw (ok_eq d c' h) gone in
      let z = ch.changed j in
      absurd (elim (Bool-cases (keys.eq j e.key)) [
        | inl a ↦ let y = rw a at z in cc
        | inr a ↦ let y = rw a at z in cc
      ])
  vanished c c' j e f r (evicted first d full p l v ch) at gone h =
      let gone' : contents keys scoring d j ≡ none = rw (ok_eq d c' h) gone in
      let z = ch.exchanged j in
      elim (Bool-cases (keys.eq j e.key)) [
        | inl a ↦ absurd (let y = rw a at z in cc)
        | inr a ↦ elim (Bool-cases (keys.eq j first.key)) [
          | inl b ↦
              let q = (keys.eq_iff j first.key).0 b in
              let same : first ≡ f =
                some_eq first f (sym l.there ∙ ap (contents keys scoring c) (sym q) ∙ at) in
              rw (← same) (p, l)
          | inr b ↦ absurd (let y = rw (a, b) at z in cc)
        ]
      ]
  vanished c c' j e f r (refused full p) at gone h = cc

  -- Where a store in a valid cache removes an entry, this was not pinned, and no other entry of the cache
  -- sorts before it.
  pub evicts-IsLeast :
      (k : K) (w : V) (c c' : Cache K V S X) (j : K) (f : Entry K V S)
      → IsValid keys scoring order c
      → set_item keys scoring k w c ≡ ok c'
      → contents keys scoring c j ≡ some f
      → contents keys scoring c' j ≡ none
      → (f.pins ≡ 0) × IsLeast keys scoring order c f
  evicts-IsLeast k w c c' j f v h at gone = elim (Option-cases (contents keys scoring c k)) [
    | inl new ↦
        vanished c c' j (fresh keys scoring order k w c.extra) f (set_item keys scoring k w c)
          (set_item_new keys scoring order k w c v new) at gone h
    | inr (e, there) ↦
        let (d, g, u, ch) = set_item_there keys scoring order k w e c v there in
        let gone' : contents keys scoring d j ≡ none = rw (ok_eq d c' (sym g ∙ h)) gone in
        let z = ch.changed j in
        absurd (elim (Bool-cases (keys.eq j k)) [
          | inl a ↦ let y = rw a at z in cc
          | inr a ↦ let y = rw a at z in cc
        ])
  ]

  stored_returns :
      (k : K) (w : V) (c : Cache K V S X) (j : K) (f : Entry K V S) (r : Result (Cache K V S X))
      → IsStored keys scoring order c k w r
      → contents keys scoring c j ≡ some f
      → f.pins ≡ 0
      → (c' : Cache K V S X) × (r ≡ ok c')
        × ((e : Entry K V S) × (contents keys scoring c' k ≡ some e) × (e.value ≡ w))
  stored_returns k w c j f r (held e c' v at q m) there p = (c', refl, (e, at, q))
  stored_returns k w c j f r (no_room full n all) there p =
      let z = all j f there in absurd (omega arith)

  -- A store in a valid cache in which some entry is not pinned returns, and leaves the value there.
  pub set_item_returns :
      (k : K) (w : V) (c : Cache K V S X) (j : K) (f : Entry K V S)
      → IsValid keys scoring order c
      → contents keys scoring c j ≡ some f
      → f.pins ≡ 0
      → (c' : Cache K V S X) × (set_item keys scoring k w c ≡ ok c')
        × ((e : Entry K V S) × (contents keys scoring c' k ≡ some e) × (e.value ≡ w))
  set_item_returns k w c j f v at p =
      stored_returns k w c j f (set_item keys scoring k w c)
        (set_item-IsStored keys scoring order k w c v) at p

  -- `n` calls of `unpin` for a key
  pub unpin_times : ℕ → K → Cache K V S X → Result (Cache K V S X)
  unpin_times zero k c = ok c
  unpin_times (suc n) k c = unpin keys scoring k c >>= unpin_times n k

  unpin_step :
      (n : ℕ) (k : K) (c d : Cache K V S X)
      → unpin keys scoring k c ≡ ok d
      → unpin_times (suc n) k c ≡ unpin_times n k d
  unfolding unpin_times
  unpin_step n k c d h = rw h refl

  -- In a valid cache, exactly as many calls of `unpin` as the entry of a key has pins succeed for it:
  -- they leave the entry there with its value and its score and without pins, in a valid cache, in
  -- which `unpin` raises a ValueError.
  pub unpin_all :
      (n : ℕ) (k : K) (e : Entry K V S) (c : Cache K V S X)
      → IsValid keys scoring order c
      → contents keys scoring c k ≡ some e
      → e.pins ≡ n
      → (c' : Cache K V S X) × (unpin_times n k c ≡ ok c')
        × IsValid keys scoring order c'
        × (contents keys scoring c' k ≡ some (record e { pins = 0 }))
        × (unpin keys scoring k c' ≡ raise value_error)
  unfolding unpin_times
  unpin_all zero k e c v at p = elim (unpin_there keys scoring order k e c v at) [
    | inl (z, g) ↦ (c, refl, v, at ∙ ap (λ n. some (record e { pins = n })) p, g)
    | inr (q, d) ↦ absurd (omega arith)
  ]
  unpin_all (suc n) k e c v at p = elim (unpin_there keys scoring order k e c v at) [
    | inl (z, g) ↦ absurd (omega arith)
    | inr (q, (d, g, u, ch)) ↦
        let e' = record e { pins = e.pins - 1 } in
        let (c', h, w, there, last) =
          unpin_all n k e' d u (ch.changed k ∙ rw (eq_refl keys k) refl) (omega arith) in
        (c', unpin_step n k c d g ∙ h, w, there, last)
  ]

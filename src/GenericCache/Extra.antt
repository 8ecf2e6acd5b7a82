-- ===== src/GenericCache/Extra.antt =====
-- What the methods do to the state of the subclass, where they return.
use hypothesis.Common.{
  ℕ, zero, suc, ◌+◌, ◌-◌, ◌≡◌, refl, ◌∙◌, inl, inr, List, [], ◌∷◌, ◌==◌, Bool-cases, Option-cases,
  ltb, leb, length, ◌⊎◌, set, not, ◌||◌, ◌++◌,
}
use hypothesis.Common.Keys.{KeyEquality}
use hypothesis.Common.Dict.{get, put, del}
use hypothesis.Common.Result.{ok, check, result_parts}
use hypothesis.GenericCache.{
  Entry, Cache, Scoring, parent, entry_at, out_of_order, swap, entry_less, bubble_up, children,
  smallest, bubble_down, balance, entry_was_accessed,
}
use hypothesis.GenericCache.Operations.{
  index_of, get_item, after_eviction, replace_first, insert, insert_new, overwrite, set_item,
  set_pins, pin, unpin,
}

module _ {ℓ} {K V S X : Type ℓ} (keys : KeyEquality K) (scoring : Scoring K V S X) where
  swap-extra :
      (i j : ℕ) (c c' : Cache K V S X) → swap keys scoring i j c ≡ ok c' → c'.extra ≡ c.extra
  unfolding swap
  swap-extra i j c c' h =
      let (a, p, h1) = result_parts (check (ltb i j)) _ h in
      let (y, q, h2) = result_parts (entry_at j c) _ h1 in
      let (x, r, h3) = result_parts (entry_at i c) _ h2 in
      let (b, s, h4) = result_parts (check (entry_less keys scoring y x)) _ h3 in cc

  bubble_up-extra :
      (fuel i : ℕ) (c : Cache K V S X) (r : ℕ × Cache K V S X)
      → bubble_up keys scoring fuel i c ≡ ok r
      → r.1.extra ≡ c.extra
  unfolding bubble_up
  bubble_up-extra zero i c r h = cc
  bubble_up-extra (suc fuel) i c r h = elim (Bool-cases (i == 0)) [
    | inl z ↦ let k = rw z at h in cc
    | inr z ↦
        let (b, p, g) = result_parts (out_of_order keys scoring (parent i) i c) _ (rw z at h) in
        elim (Bool-cases b) [
          | inl t ↦
              let (d, q, k) = result_parts (swap keys scoring (parent i) i c) _ (rw t at g) in
              bubble_up-extra fuel (parent i) d r k ∙ swap-extra (parent i) i c d q
          | inr t ↦ let k = rw t at g in cc
        ]
  ]

  list_cases : (l : List ℕ) → (l ≡ []) ⊎ ((j : ℕ) × (js : List ℕ) × (l ≡ j ∷ js))
  list_cases [] = inl refl
  list_cases (j ∷ js) = inr (j, js, refl)

  bubble_down-extra :
      (fuel i : ℕ) (c c' : Cache K V S X)
      → bubble_down keys scoring fuel i c ≡ ok c'
      → c'.extra ≡ c.extra
  unfolding bubble_down
  bubble_down-extra zero i c c' h = cc
  bubble_down-extra (suc fuel) i c c' h =
      elim (list_cases (children keys scoring i (length c.entries))) [
        | inl e ↦ let k = rw (e, bubble_down) at h in cc
        | inr (j, js, e) ↦
            let (m, p, g) =
              result_parts (smallest keys scoring c j js) _ (rw (e, bubble_down) at h) in
            let (b, o, k) = result_parts (out_of_order keys scoring i m c) _ g in
            elim (Bool-cases b) [
              | inl t ↦
                  let (d, q, l) = result_parts (swap keys scoring i m c) _ (rw t at k) in
                  bubble_down-extra fuel m d c' l ∙ swap-extra i m c d q
              | inr t ↦ let l = rw t at k in cc
            ]
      ]

  balance-extra :
      (i : ℕ) (c c' : Cache K V S X) → balance keys scoring i c ≡ ok c' → c'.extra ≡ c.extra
  unfolding balance
  balance-extra i c c' h =
      let (r, p, g) = result_parts (bubble_up keys scoring i i c) _ h in
      bubble_down-extra (length c.entries) r.0 r.1 c' g ∙ bubble_up-extra i i c r p

  -- The state after `on_access`.
  abbrev pub access_extra : Entry K V S → X → X
  access_extra e x = (scoring.on_access e.key e.value e.score x).1

  entry_was_accessed-extra :
      (i : ℕ) (c c' : Cache K V S X)
      → entry_was_accessed keys scoring i c ≡ ok c'
      → (e : Entry K V S) × (c'.extra ≡ access_extra e c.extra)
  unfolding entry_was_accessed
  entry_was_accessed-extra i c c' h =
      let (e, p, g) = result_parts (entry_at i c) _ h in
      let s = (scoring.on_access e.key e.value e.score c.extra).0 in
      let x = (scoring.on_access e.key e.value e.score c.extra).1 in
      let d : Cache K V S X = record c {
        extra = x;
        entries = set c.entries i (record e { score = s });
      } in
      (
        e,
        elim (Bool-cases (scoring.same s e.score)) [
          | inl a ↦ let k = rw a at g in cc
          | inr a ↦ elim (Bool-cases (e.pins == 0)) [
            | inl b ↦ balance-extra i d c' (rw (a, b) at g)
            | inr b ↦ let k = rw (a, b) at g in cc
          ]
        ],
      )

  pub get_item-extra :
      (k : K) (c : Cache K V S X) (r : V × Cache K V S X)
      → get_item keys scoring k c ≡ ok r
      → (e : Entry K V S) × (r.1.extra ≡ access_extra e c.extra)
  unfolding get_item
  get_item-extra k c r h =
      let (i, p, g) = result_parts (index_of keys scoring k c) _ h in
      let (e, q, l) = result_parts (entry_at i c) _ g in
      let (d, o, m) = result_parts (entry_was_accessed keys scoring i c) _ l in
      let (f, a) = entry_was_accessed-extra i c d o in (f, cc)

  pub overwrite-extra :
      (i : ℕ) (k : K) (v : V) (c c' : Cache K V S X)
      → overwrite keys scoring i k v c ≡ ok c'
      → (e : Entry K V S) × (c'.extra ≡ access_extra e c.extra)
  unfolding overwrite
  overwrite-extra i k v c c' h =
      let (e, p, g) = result_parts (entry_at i c) _ h in
      let (b, q, l) = result_parts (check (keys.eq e.key k)) _ g in
      entry_was_accessed-extra i (record c { entries = set c.entries i (record e { value = v }) })
        c' l

  pub set_pins-extra :
      (i : ℕ) (e : Entry K V S) (pins moves_at : ℕ) (c c' : Cache K V S X)
      → set_pins keys scoring i e pins moves_at c ≡ ok c'
      → c'.extra ≡ c.extra
  unfolding set_pins
  set_pins-extra i e pins moves_at c c' h = elim (Bool-cases (pins == moves_at)) [
    | inl a ↦
        balance-extra i (record c { entries = set c.entries i (record e { pins = pins }) }) c'
          (rw a at h)
    | inr a ↦ let k = rw a at h in cc
  ]

  pub unpin-extra :
      (k : K) (c c' : Cache K V S X) → unpin keys scoring k c ≡ ok c' → c'.extra ≡ c.extra
  unfolding unpin
  unpin-extra k c c' h =
      let (i, p, g) = result_parts (index_of keys scoring k c) _ h in
      let (e, q, l) = result_parts (entry_at i c) _ g in
      elim (Bool-cases (e.pins == 0)) [
        | inl a ↦ let m = rw a at l in absurd cc
        | inr a ↦ set_pins-extra i e (e.pins - 1) 0 c c' (rw a at l)
      ]

  module _ (kept : (k : K) (v : V) (s : S) (x : X) → scoring.on_evict k v s x ≡ x) where
    after_eviction-extra :
        (k : K) (f : Entry K V S) (c c' : Cache K V S X)
        → after_eviction keys scoring k f c ≡ ok c'
        → c'.extra ≡ c.extra
    unfolding after_eviction
    after_eviction-extra k f c c' h =
        let (top, p, g) = result_parts (entry_at 0 c) _ h in
        let (b, q, l) =
          result_parts (check (keys.eq top.key k || not (entry_less keys scoring top f))) _ g in
        let e = kept f.key f.value f.score c.extra in cc

    replace_first-extra :
        (f entry : Entry K V S) (c c' : Cache K V S X)
        → replace_first keys scoring f entry c ≡ ok c'
        → c'.extra ≡ c.extra
    unfolding replace_first
    replace_first-extra f entry c c' h = elim (Bool-cases (ltb 0 f.pins)) [
      | inl a ↦ let m = rw a at h in absurd cc
      | inr a ↦
          let d : Cache K V S X = record c {
            entries = set c.entries 0 entry;
            keys_to_indices = put keys entry.key 0 (del keys f.key c.keys_to_indices);
          } in
          let (r, p, g) = result_parts (balance keys scoring 0 d) _ (rw a at h) in
          after_eviction-extra entry.key f r c' g ∙ balance-extra 0 d r p
    ]

    insert-extra :
        (entry : Entry K V S) (c c' : Cache K V S X)
        → insert keys scoring entry c ≡ ok c'
        → c'.extra ≡ c.extra
    unfolding insert
    insert-extra entry c c' h = elim (Bool-cases (leb c.max_size (length c.entries))) [
      | inl a ↦
          let (f, p, g) = result_parts (entry_at 0 c) _ (rw a at h) in
          replace_first-extra f entry c c' g
      | inr a ↦
          balance-extra (length c.entries)
            (record c {
              entries = c.entries ++ entry ∷ [];
              keys_to_indices = put keys entry.key (length c.entries) c.keys_to_indices;
            })
            c' (rw a at h)
    ]

    -- A store leaves what `new_entry` or `on_access` left.
    pub set_item-extra :
        (k : K) (v : V) (c c' : Cache K V S X)
        → set_item keys scoring k v c ≡ ok c'
        → (c'.extra ≡ (scoring.new_entry k v c.extra).1)
          ⊎ ((e : Entry K V S) × (c'.extra ≡ access_extra e c.extra))
    unfolding set_item insert_new
    set_item-extra k v c c' h = elim (Option-cases (get keys k c.keys_to_indices)) [
      | inl n ↦
          let (s, x) = scoring.new_entry k v c.extra in
          inl (
            insert-extra (record { key = k; value = v; score = s; pins = 0 })
              (record c { extra = x }) c' (rw (n, set_item) at h))
      | inr (i, g) ↦ inr (overwrite-extra i k v c c' (rw (g, set_item) at h))
    ]

    -- So does `pin`.
    pub pin-extra :
        (k : K) (v : V) (c c' : Cache K V S X)
        → pin keys scoring k v c ≡ ok c'
        → (d : Cache K V S X) × (set_item keys scoring k v c ≡ ok d) × (c'.extra ≡ d.extra)
    unfolding pin
    pin-extra k v c c' h =
        let (d, p, g) = result_parts (set_item keys scoring k v c) _ h in
        let (i, q, l) = result_parts (index_of keys scoring k d) _ g in
        let (e, r, m) = result_parts (entry_at i d) _ l in
        (d, p, set_pins-extra i e (e.pins + 1) 1 d c' m)

-- ===== src/LruCache/Recency.antt =====
-- What `LRUCache` keeps: the bound, one entry for each key, and the most recent entries.
use hypothesis.Common.{
  ◌≤◌, ◌<◌, ◌≡◌, ◌≢◌, ◌⊎◌, inl, inr, refl, ap, ◌∙◌, none, some, [], ◌∷◌, ◌++◌, arith, length,
  length-append, drop, dec_lt,
}
use hypothesis.Common.Keys.{KeyEquality}
use hypothesis.Common.Result.{ok}
use hypothesis.LruCache.{LruCache, trim, lookup, remove, set_item, get_item}
use hypothesis.LruCache.Entries.{
  Unique, trim_fits, trim_over, lookup-remove_self, lookup-remove_ne, length-remove, remove_full,
  Unique-remove, Unique-append, moved, set_item_entries, lookup_newest, lookup_other,
  remove_shorter, Unique-drop, absent_drop, drop-append, length-drop_one,
}

module _ {ℓ} {K V : Type ℓ} (keys : KeyEquality K) where
  pub record IsValid (c : LruCache K V) : Type ℓ where
    pub positive : 0 < c.max_size
    pub bounded : length c.cache ≤ c.max_size
    pub unique : Unique keys c.cache

  set_item_room :
      (k : K) (v : V) (c : LruCache K V)
      → IsValid c
      → length (remove keys k c.cache) < c.max_size
      → set_item keys k v c ≡ ok (record c { cache = remove keys k c.cache ++ (k, v) ∷ [] })
  set_item_room k v c h l =
      set_item_entries keys k v c
      ∙ ap (λ es. ok (record c { cache = es }))
          (trim_fits c.max_size (remove keys k c.cache ++ (k, v) ∷ [])
            (omega (arith, length-append (remove keys k c.cache) ((k, v) ∷ []))))

  set_item_evicts :
      (k : K) (v : V) (c : LruCache K V)
      → IsValid c
      → remove keys k c.cache ≡ c.cache
      → length c.cache ≡ c.max_size
      → set_item keys k v c ≡ ok (record c { cache = drop 1 c.cache ++ (k, v) ∷ [] })
  set_item_evicts k v c h r l =
      set_item_entries keys k v c
      ∙ ap (λ es. ok (record c { cache = trim c.max_size (es ++ (k, v) ∷ []) })) r
      ∙ ap (λ es. ok (record c { cache = es }))
          (trim_over c.max_size (c.cache ++ (k, v) ∷ [])
              (omega (arith, length-append c.cache ((k, v) ∷ [])))
            ∙ drop-append c.cache (k, v) (omega (arith, h.positive)))

  -- In a valid cache, `__setitem__` succeeds and leaves a valid cache that has the value for the key.
  -- The entry of the key is the newest one, after all others in the order that they had. Either no other
  -- key is touched, or the key is new, the cache was full, and the oldest entry alone is gone.
  pub set_item-lookup :
      (k : K) (v : V) (c : LruCache K V)
      → IsValid c
      → (c' : LruCache K V) × (set_item keys k v c ≡ ok c')
        × IsValid c'
        × (lookup keys k c'.cache ≡ some v)
        × (((c'.cache ≡ remove keys k c.cache ++ (k, v) ∷ [])
              × ((j : K) → j ≢ k → lookup keys j c'.cache ≡ lookup keys j c.cache))
            ⊎ ((lookup keys k c.cache ≡ none)
                × (length c.cache ≡ c.max_size)
                × (c'.cache ≡ drop 1 c.cache ++ (k, v) ∷ [])))
  set_item-lookup k v c h = elim (dec_lt (length (remove keys k c.cache)) c.max_size) [
    | yes l ↦
        let es = remove keys k c.cache in
        let gone = lookup-remove_self keys k c.cache in
        (
          record c { cache = es ++ (k, v) ∷ [] },
          set_item_room k v c h l,
          record {
            positive = h.positive;
            bounded = omega (arith, length-append es ((k, v) ∷ []));
            unique = Unique-append keys k v es (Unique-remove keys k c.cache h.unique) gone;
          },
          lookup_newest keys k v es gone,
          inl (refl, λ j n. lookup_other keys j k v es n ∙ lookup-remove_ne keys k j c.cache n),
        )
    | no l ↦
        let full : length c.cache ≡ c.max_size =
          omega (arith, h.bounded, length-remove keys k c.cache) in
        let (same, new) = remove_full keys k c.cache (omega (arith, full)) in
        let es = drop 1 c.cache in
        let gone = absent_drop keys k c.cache new in
        (
          record c { cache = es ++ (k, v) ∷ [] },
          set_item_evicts k v c h same full,
          record {
            positive = h.positive;
            bounded = omega (
              arith,
              length-append es ((k, v) ∷ []),
              length-drop_one c.cache (omega (arith, h.positive)),
            );
            unique = Unique-append keys k v es (Unique-drop keys c.cache h.unique) gone;
          },
          lookup_newest keys k v es gone,
          inr (new, full, refl),
        )
  ]

  -- In a valid cache, `__getitem__` returns the value of a key that is there, and makes its entry the
  -- newest one; the cache stays valid and has the same value for every key.
  pub get_item_lem :
      (k : K) (v : V) (c : LruCache K V)
      → IsValid c
      → lookup keys k c.cache ≡ some v
      → (c' : LruCache K V) × (get_item keys k c ≡ ok (v, c'))
        × IsValid c'
        × (c'.cache ≡ remove keys k c.cache ++ (k, v) ∷ [])
        × ((j : K) → j ≢ k → lookup keys j c'.cache ≡ lookup keys j c.cache)
  unfolding get_item
  get_item_lem k v c h e =
      let es = remove keys k c.cache in
      let gone = lookup-remove_self keys k c.cache in
      (
        record c { cache = es ++ (k, v) ∷ [] },
        rw (e, moved keys k v c.cache e, get_item),
        record {
          positive = h.positive;
          bounded =
              omega (
                arith,
                length-append es ((k, v) ∷ []),
                h.bounded,
                remove_shorter keys k v c.cache e,
              );
          unique = Unique-append keys k v es (Unique-remove keys k c.cache h.unique) gone;
        },
        refl,
        λ j n. lookup_other keys j k v es n ∙ lookup-remove_ne keys k j c.cache n,
      )

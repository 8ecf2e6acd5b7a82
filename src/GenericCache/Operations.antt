-- ===== src/GenericCache/Operations.antt =====
-- The methods of `GenericCache`. What a method raises is raised before it changes the entries; the state
-- of the subclass may have changed by then, which is not kept.
use hypothesis.Common.{
  ℕ, ◌+◌, ◌-◌, ◌*◌, Bool, true, false, not, ◌||◌, none, some, List, [], ◌∷◌, ◌++◌, ltb, leb, ◌==◌,
  if◌then◌else◌, length, set,
}
use hypothesis.Common.Keys.{KeyEquality}
use hypothesis.Common.Dict.{get, put, del}
use hypothesis.Common.Result.{
  Result, ok, raise, ◌>>=◌, ◌>>◌, check, of_option, key_error, value_error,
}
use hypothesis.GenericCache.{
  Entry, Cache, Scoring, entry_at, entry_less, balance, entry_was_accessed,
}

module _ {ℓ} {K V S X : Type ℓ} (keys : KeyEquality K) (scoring : Scoring K V S X) where
  -- `self.keys_to_indices[key]`
  unfoldable pub index_of : K → Cache K V S X → Result ℕ
  index_of k c = of_option key_error (get keys k c.keys_to_indices)

  -- `__contains__`
  unfoldable pub contains : K → Cache K V S X → Bool
  contains k c = elim (get keys k c.keys_to_indices) [ none ↦ false | some i ↦ true ]

  -- `__getitem__`: the value, and the cache that it leaves
  unfoldable pub get_item : K → Cache K V S X → Result (V × Cache K V S X)
  unfolding index_of entry_at
  get_item k c = do
    i ← index_of k c
    e ← entry_at i c
    c' ← entry_was_accessed keys scoring i c
    ok (e.value, c')

  -- The end of `__setitem__` where an entry was evicted. The new entry is the only one with its key.
  unfoldable pub after_eviction : K → Entry K V S → Cache K V S X → Result (Cache K V S X)
  unfolding entry_at
  after_eviction k evicted c = do
    top ← entry_at 0 c
    check (keys.eq top.key k || not (entry_less keys scoring top evicted))
    ok (record c { extra = scoring.on_evict evicted.key evicted.value evicted.score c.extra })

  -- `__setitem__` of a new key in a full cache, where the first entry goes
  unfoldable pub replace_first : Entry K V S → Entry K V S → Cache K V S X → Result (Cache K V S X)
  unfolding after_eviction
  replace_first evicted entry c = if ltb 0 evicted.pins then raise value_error else (do
    c' ← balance keys scoring 0 (record c {
      entries = set c.entries 0 entry;
      keys_to_indices = put keys entry.key 0 (del keys evicted.key c.keys_to_indices);
    })
    after_eviction entry.key evicted c')

  unfoldable pub insert : Entry K V S → Cache K V S X → Result (Cache K V S X)
  unfolding replace_first entry_at
  insert entry c =
      if leb c.max_size (length c.entries)
      then (do evicted ← entry_at 0 c; replace_first evicted entry c)
      else balance keys scoring (length c.entries) (record c {
        entries = c.entries ++ entry ∷ [];
        keys_to_indices = put keys entry.key (length c.entries) c.keys_to_indices;
      })

  unfoldable pub insert_new : K → V → Cache K V S X → Result (Cache K V S X)
  unfolding insert
  insert_new k v c =
      let (s, x) = scoring.new_entry k v c.extra in
      insert (record { key = k; value = v; score = s; pins = 0 }) (record c { extra = x })

  -- `__setitem__` of a key that is there
  unfoldable pub overwrite : ℕ → K → V → Cache K V S X → Result (Cache K V S X)
  unfolding entry_at
  overwrite i k v c = do
    e ← entry_at i c
    check (keys.eq e.key k)
    entry_was_accessed keys scoring i
        (record c { entries = set c.entries i (record e { value = v }) })

  -- `__setitem__`
  unfoldable pub set_item : K → V → Cache K V S X → Result (Cache K V S X)
  unfolding insert_new overwrite
  set_item k v c = elim (get keys k c.keys_to_indices) [
    | none ↦ insert_new k v c
    | some i ↦ overwrite i k v c
  ]

  -- `entry.pins` is changed, and the entry moves where it became pinned or unpinned.
  unfoldable pub set_pins : ℕ → Entry K V S → ℕ → ℕ → Cache K V S X → Result (Cache K V S X)
  set_pins i e pins moves_at c =
      let c' = record c { entries = set c.entries i (record e { pins = pins }) } in
      if pins == moves_at then balance keys scoring i c' else ok c'

  -- `pin`
  unfoldable pub pin : K → V → Cache K V S X → Result (Cache K V S X)
  unfolding set_item index_of entry_at set_pins
  pin k v c = do
    c' ← set_item k v c
    i ← index_of k c'
    e ← entry_at i c'
    set_pins i e (e.pins + 1) 1 c'

  -- `unpin`
  unfoldable pub unpin : K → Cache K V S X → Result (Cache K V S X)
  unfolding index_of entry_at set_pins
  unpin k c = do
    i ← index_of k c
    e ← entry_at i c
    if e.pins == 0 then raise value_error else set_pins i e (e.pins - 1) 0 c

  -- `is_pinned`
  unfoldable pub is_pinned : K → Cache K V S X → Result Bool
  unfolding index_of entry_at
  is_pinned k c = do i ← index_of k c; e ← entry_at i c; ok (ltb 0 e.pins)

  -- `if j < len(self.data): assert e.sort_key <= self.data[j].sort_key`
  unfoldable pub check_child : Entry K V S → ℕ → Cache K V S X → Result (Unit {0})
  unfolding entry_at
  check_child e j c =
      if ltb j (length c.entries)
      then (do child ← entry_at j c; check (not (entry_less keys scoring child e)))
      else ok tt

  -- The loop of `check_valid`, from the entry `i` on.
  unfoldable pub check_entries : List (Entry K V S) → ℕ → Cache K V S X → Result (Unit {0})
  unfolding index_of check_child
  check_entries [] i c = ok tt
  check_entries (e ∷ es) i c = do
    at ← index_of e.key c
    check (at == i)
    check_child e (i * 2 + 1) c
    check_child e (i * 2 + 2) c
    check_entries es (i + 1) c

  -- `check_valid`
  unfoldable pub check_valid : Cache K V S X → Result (Unit {0})
  unfolding check_entries
  check_valid c = do
    check (length c.keys_to_indices == length c.entries)
    check_entries c.entries 0 c

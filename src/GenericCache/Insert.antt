-- ===== src/GenericCache/Insert.antt =====
-- `__setitem__` of a new key.
use hypothesis.Common.{
  ◌<◌, ◌≡◌, refl, ◌∙◌, inl, inr, true, false, none, some, arith, ltb, leb, ◌==◌, if◌then◌else◌,
  length, Bool-cases,
}
use hypothesis.Common.Keys.{KeyEquality}
use hypothesis.Common.Result.{Result, ok, raise, value_error}
use hypothesis.GenericCache.{Entry, Cache, Scoring, entry_at, entry_less}
use hypothesis.GenericCache.Heap.{IsWeakOrder}
use hypothesis.GenericCache.Index.{contents}
use hypothesis.GenericCache.Operations.{replace_first, insert}
use hypothesis.GenericCache.Edges.{element}
use hypothesis.GenericCache.Replace.{IsValid, IsChanged}
use hypothesis.GenericCache.Access.{contents_there}
use hypothesis.GenericCache.Append.{append_balance}
use hypothesis.GenericCache.Evict.{first_least}
use hypothesis.GenericCache.Full.{replace_first_lem}

module _ {ℓ} {K V S X : Type ℓ} (keys : KeyEquality K) (scoring : Scoring K V S X)
    (order : IsWeakOrder scoring.less) where
  -- The contents with one entry in place of another one, of another key.
  pub record IsReplaced (c c' : Cache K V S X) (first e : Entry K V S) : Type ℓ where
    pub exchanged :
        (j : K)
        → contents keys scoring c' j ≡ (
            if keys.eq j e.key
            then some e
            else if keys.eq j first.key
            then none
            else contents keys scoring c j)
    pub same_max_size : c'.max_size ≡ c.max_size

  -- One of the least entries of the cache.
  pub record IsLeast (c : Cache K V S X) (first : Entry K V S) : Type ℓ where
    pub there : contents keys scoring c first.key ≡ some first
    pub least :
        (j : K) (f : Entry K V S)
        → contents keys scoring c j ≡ some f
        → entry_less keys scoring f first ≡ false

  -- All entries of the cache are pinned.
  abbrev pub AllPinned : Cache K V S X → Type ℓ
  AllPinned c = (j : K) (f : Entry K V S) → contents keys scoring c j ≡ some f → 0 < f.pins

  -- What storing a new entry does.
  pub data Outcome (c : Cache K V S X) (e : Entry K V S) : Result (Cache K V S X) → Type ℓ where
    stored :
        (c' : Cache K V S X)
        → length c.entries < c.max_size
        → IsValid keys scoring order c'
        → IsChanged keys scoring order c c' e.key (some e)
        → Outcome c e (ok c')
    evicted :
        (first : Entry K V S) (c' : Cache K V S X)
        → length c.entries ≡ c.max_size
        → first.pins ≡ 0
        → IsLeast c first
        → IsValid keys scoring order c'
        → IsReplaced c c' first e
        → Outcome c e (ok c')
    refused : length c.entries ≡ c.max_size → AllPinned c → Outcome c e (raise value_error)

  unpinned_before :
      (f first : Entry K V S)
      → (first.pins == 0) ≡ false
      → entry_less keys scoring f first ≡ false
      → 0 < f.pins
  unfolding entry_less
  unpinned_before f first p h = ground arith

  module _ (e : Entry K V S) (c : Cache K V S X) (v : IsValid keys scoring order c)
      (new : contents keys scoring c e.key ≡ none) where
    insert_room : length c.entries < c.max_size → Outcome c e (insert keys scoring e c)
    unfolding insert
    insert_room room =
        let (c', b, w, ch) = append_balance keys scoring order e c v new room in
        let r : leb c.max_size (length c.entries) ≡ false = ground arith in
        let h : insert keys scoring e c ≡ ok c' = rw r b in rw h (stored c' room w ch)

    insert_full : length c.entries ≡ c.max_size → Outcome c e (insert keys scoring e c)
    unfolding insert entry_at replace_first
    insert_full full =
        let r : leb c.max_size (length c.entries) ≡ true = ground arith in
        let p = v.positive in
        let (first, at) = element c.entries 0 (omega arith) in
        let h : insert keys scoring e c ≡ replace_first keys scoring first e c =
          rw (r, at, insert) refl in
        let least = first_least keys scoring order e first c v new at in
        elim (Bool-cases (first.pins == 0)) [
          | inl z ↦
              let (c', b, w, ch, m) =
                replace_first_lem keys scoring order e first c v new at (ground arith) in
              rw (h ∙ b) (
                evicted first c' full (ground arith)
                  (record {
                    there = contents_there keys scoring order 0 first c at v;
                    least = least;
                  })
                  w (record { exchanged = ch; same_max_size = m }))
          | inr z ↦
              let n : ltb 0 first.pins ≡ true = ground arith in
              let g : replace_first keys scoring first e c ≡ raise value_error = rw n refl in
              rw (h ∙ g) (refused full (λ j f i. unpinned_before f first z (least j f i)))
        ]

    pub insert_lem : Outcome c e (insert keys scoring e c)
    insert_lem =
        let f = v.fits in
        elim (Bool-cases (ltb (length c.entries) c.max_size)) [
          | inl a ↦ insert_room (ground arith)
          | inr a ↦ insert_full (ground arith)
        ]

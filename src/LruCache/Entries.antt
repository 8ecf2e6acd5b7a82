-- ===== src/LruCache/Entries.antt =====
-- The entries of an `LRUCache`: what is found after a write, a move to the end and a trim.
use hypothesis.Common.{
  ℕ, suc, ◌+◌, ◌≤◌, ◌<◌, ◌≡◌, ◌≢◌, inl, inr, refl, ap, sym, ◌∙◌, false, none, some, List, [], ◌∷◌,
  ◌++◌, arith, if◌then◌else◌, length, drop, Bool-cases, dec_lt,
}
use hypothesis.Common.Keys.{KeyEquality, eq_refl, eq_ne}
use hypothesis.Common.Result.{ok}
use hypothesis.LruCache.{LruCache, trim, lookup, write, remove, move_to_end, set_item}

module _ {ℓ} {K V : Type ℓ} where
  pub trim_fits : (n : ℕ) (es : List (K × V)) → length es ≤ n → trim n es ≡ es
  unfolding trim
  trim_fits n [] h = refl
  trim_fits n (e ∷ es) h = ground arith

  pub trim_over : (n : ℕ) (es : List (K × V)) → length es ≡ suc n → trim n es ≡ drop 1 es
  unfolding trim
  trim_over n [] h = refl
  trim_over n (e ∷ es) h = ground (arith, trim_fits n es)

  pub drop-append :
      (es : List (K × V)) (e : K × V) → 0 < length es → drop 1 (es ++ e ∷ []) ≡ drop 1 es ++ e ∷ []
  drop-append [] e h = absurd (omega arith)
  drop-append (d ∷ es) e h = refl

  pub length-drop_one : (es : List (K × V)) → 0 < length es → length (drop 1 es) + 1 ≡ length es
  length-drop_one [] h = absurd (omega arith)
  length-drop_one (d ∷ es) h = omega arith

module _ {ℓ} {K V : Type ℓ} (keys : KeyEquality K) where
  abbrev pub Unique : List (K × V) → Type ℓ
  Unique [] = Unit
  Unique ((k, v) ∷ es) = (lookup keys k es ≡ none) × Unique es

  lookup-write : (k : K) (v : V) (es : List (K × V)) → lookup keys k (write keys k v es) ≡ some v
  unfolding lookup write
  lookup-write k v [] = rw (eq_refl keys k)
  lookup-write k v ((j, w) ∷ es) = ground (arith, lookup-write k v es)

  remove-write :
      (k : K) (v : V) (es : List (K × V)) → remove keys k (write keys k v es) ≡ remove keys k es
  unfolding remove write
  remove-write k v [] = rw (eq_refl keys k)
  remove-write k v ((j, w) ∷ es) = ground (arith, remove-write k v es)

  pub lookup-remove_self : (k : K) (es : List (K × V)) → lookup keys k (remove keys k es) ≡ none
  unfolding lookup remove
  lookup-remove_self k [] = refl
  lookup-remove_self k ((j, w) ∷ es) = ground (arith, lookup-remove_self k es)

  lookup_cons :
      (j i : K) (w : V) (es fs : List (K × V))
      → lookup keys j es ≡ lookup keys j fs
      → lookup keys j ((i, w) ∷ es) ≡ lookup keys j ((i, w) ∷ fs)
  unfolding lookup
  lookup_cons j i w es fs h = rw h

  pub lookup-remove_ne :
      (k j : K) (es : List (K × V)) → j ≢ k → lookup keys j (remove keys k es) ≡ lookup keys j es
  unfolding lookup remove
  lookup-remove_ne k j [] n = refl
  lookup-remove_ne k j ((i, w) ∷ es) n = elim (Bool-cases (keys.eq k i)) [
    | inl e ↦
        let q : k ≡ i = (keys.eq_iff k i).0 e in
        let d : keys.eq j i ≡ false = ap (keys.eq j) (sym q) ∙ eq_ne keys j k n in
        rw (e, d) (lookup-remove_ne k j es n)
    | inr e ↦ rw e (lookup_cons j i w (remove keys k es) es (lookup-remove_ne k j es n))
  ]

  lookup-append :
      (j k : K) (v : V) (es : List (K × V))
      → lookup keys j (es ++ (k, v) ∷ []) ≡ elim (lookup keys j es) [
        | none ↦ (if keys.eq j k then some v else none)
        | some w ↦ some w
      ]
  unfolding lookup
  lookup-append j k v [] = refl
  lookup-append j k v ((i, w) ∷ es) = ground (arith, lookup-append j k v es)

  pub length-remove : (k : K) (es : List (K × V)) → length (remove keys k es) ≤ length es
  unfolding remove
  length-remove k [] = omega arith
  length-remove k ((j, w) ∷ es) = ground (arith, length-remove k es)

  -- Nothing is removed where nothing gets shorter.
  pub remove_full :
      (k : K) (es : List (K × V))
      → length es ≤ length (remove keys k es)
      → (remove keys k es ≡ es) × (lookup keys k es ≡ none)
  unfolding remove lookup
  remove_full k [] h = (refl, refl)
  remove_full k ((j, w) ∷ es) h = elim (Bool-cases (keys.eq k j)) [
    | inl e ↦ absurd (omega (arith, rw e at h, length-remove k es))
    | inr e ↦ let (r, l) = remove_full k es (omega (arith, rw e at h)) in (rw (e, r), rw (e, l))
  ]

  absent_remove :
      (k j : K) (es : List (K × V))
      → lookup keys j es ≡ none
      → lookup keys j (remove keys k es) ≡ none
  unfolding lookup remove
  absent_remove k j [] h = refl
  absent_remove k j ((i, w) ∷ es) h = ground (arith, absent_remove k j es)

  pub Unique-remove : (k : K) (es : List (K × V)) → Unique es → Unique (remove keys k es)
  unfolding remove
  Unique-remove k [] u = tt
  Unique-remove k ((j, w) ∷ es) u = elim (Bool-cases (keys.eq k j)) [
    | inl e ↦ rw e (Unique-remove k es u.1)
    | inr e ↦ rw e (absent_remove k j es u.0, Unique-remove k es u.1)
  ]

  pub Unique-append :
      (k : K) (v : V) (es : List (K × V))
      → Unique es
      → lookup keys k es ≡ none
      → Unique (es ++ (k, v) ∷ [])
  unfolding lookup
  Unique-append k v [] u n = (refl, tt)
  Unique-append k v ((j, w) ∷ es) u n = elim (Bool-cases (keys.eq k j)) [
    | inl e ↦ let some_there : some w ≡ none = rw e at n in cc
    | inr e ↦
        let d : keys.eq j k ≡ false =
          eq_ne keys j k (λ q. let same = (keys.eq_iff k j).1 (sym q) in cc) in
        (lookup-append j k v es ∙ rw (u.0, d), Unique-append k v es u.1 (rw e at n))
  ]

  pub moved :
      (k : K) (v : V) (es : List (K × V))
      → lookup keys k es ≡ some v
      → move_to_end keys k es ≡ ok (remove keys k es ++ (k, v) ∷ [])
  unfolding move_to_end
  moved k v es e = rw (e, move_to_end)

  pub set_item_entries :
      (k : K) (v : V) (c : LruCache K V)
      → set_item keys k v c
        ≡ ok (record c { cache = trim c.max_size (remove keys k c.cache ++ (k, v) ∷ []) })
  unfolding set_item
  set_item_entries k v c =
      rw (moved k v (write keys k v c.cache) (lookup-write k v c.cache), remove-write k v c.cache)

  pub Unique-drop : (es : List (K × V)) → Unique es → Unique (drop 1 es)
  Unique-drop [] u = tt
  Unique-drop (e ∷ es) u = u.1

  pub absent_drop :
      (k : K) (es : List (K × V)) → lookup keys k es ≡ none → lookup keys k (drop 1 es) ≡ none
  unfolding lookup
  absent_drop k [] h = refl
  absent_drop k ((j, w) ∷ es) h = ground arith

  pub lookup_newest :
      (k : K) (v : V) (es : List (K × V))
      → lookup keys k es ≡ none
      → lookup keys k (es ++ (k, v) ∷ []) ≡ some v
  lookup_newest k v es h = lookup-append k k v es ∙ rw (h, eq_refl keys k)

  pub lookup_other :
      (j k : K) (v : V) (es : List (K × V))
      → j ≢ k
      → lookup keys j (es ++ (k, v) ∷ []) ≡ lookup keys j es
  unfolding lookup
  lookup_other j k v [] n = rw (eq_ne keys j k n)
  lookup_other j k v ((i, w) ∷ es) n =
      lookup_cons j i w (es ++ (k, v) ∷ []) es (lookup_other j k v es n)

  pub remove_shorter :
      (k : K) (v : V) (es : List (K × V))
      → lookup keys k es ≡ some v
      → length (remove keys k es) < length es
  remove_shorter k v es h = elim (dec_lt (length (remove keys k es)) (length es)) [
    | yes l ↦ l
    | no l ↦ let absent = (remove_full k es (omega arith)).1 in cc
  ]

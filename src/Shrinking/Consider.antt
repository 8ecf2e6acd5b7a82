-- ===== src/Shrinking/Consider.antt =====
-- What `consider` does, on every branch, and what all shrinkers keep by it.
use hypothesis.Common.{
  ◌+◌, ◌≡◌, ◌⊎◌, inl, inr, Bool, true, false, List, [], ◌∷◌, arith, Bool-cases, ◌||◌, ◌&&◌,
}
use hypothesis.Shrinking.{start, Simplicity, Shrinker, has_seen, consider}

module _ {ℓ} {A : Type ℓ} (order : Simplicity A) (predicate : A → Bool) where
  -- What was seen and is better than the current value does not satisfy the predicate. A value that
  -- was refused as no better stays no better, since the current value only improves.
  abbrev pub NoneMissed : A → List A → Type ℓ
  NoneMissed c [] = Unit
  NoneMissed c (x ∷ l) = (order.better x c ≡ true → predicate x ≡ false) × NoneMissed c l

  pub record IsSound (s : Shrinker A) : Type ℓ where
    pub satisfied : predicate s.current ≡ true
    pub none_missed : NoneMissed s.current s.seen

module _ {ℓ} {A : Type ℓ} (order : Simplicity A) (predicate : A → Bool)
    (trans : (a b c : A)
      → order.better a b ≡ true
      → order.better b c ≡ true
      → order.better a c ≡ true)
    (irrefl : (a : A) → order.better a a ≡ false)
    (checked : (a b : A) → order.check_invariants a b ≡ true) where
  NoneMissed-better :
      (c c' : A) (l : List A)
      → order.better c' c ≡ true
      → NoneMissed order predicate c l
      → NoneMissed order predicate c' l
  NoneMissed-better c c' [] b h = tt
  NoneMissed-better c c' (x ∷ l) b h = (λ e. h.0 (trans x c' c e b), NoneMissed-better c c' l b h.1)

  NoneMissed-has_seen :
      (c v : A) (l : List A)
      → NoneMissed order predicate c l
      → has_seen order v l ≡ true
      → order.better v c ≡ true
      → predicate v ≡ false
  unfolding has_seen
  NoneMissed-has_seen c v [] h e b = cc
  NoneMissed-has_seen c v (x ∷ l) h e b = elim (Bool-cases (order.eq v x)) [
    | inl q ↦ let q' : v ≡ x = (order.eq_iff v x).0 q in rw q' (h.0 (rw q' at b))
    | inr q ↦ NoneMissed-has_seen c v l h.1 (ground arith) b
  ]

  improved :
      (v : A) (s : Shrinker A)
      → IsSound order predicate s
      → predicate v ≡ true
      → order.better v s.current ≡ true
      → IsSound order predicate
          (record s { current = v; changes = s.changes + 1; seen = v ∷ s.seen })
  improved v s h p b = record {
    satisfied = p;
    none_missed =
        (λ e. let i = irrefl v in cc, NoneMissed-better s.current v s.seen b h.none_missed);
  }

  noted :
      (v : A) (s : Shrinker A)
      → IsSound order predicate s
      → (order.better v s.current ≡ true → predicate v ≡ false)
      → IsSound order predicate (record s { seen = v ∷ s.seen })
  noted v s h n = record { satisfied = h.satisfied; none_missed = (n, h.none_missed) }

  -- Over an order that is transitive and irreflexive, without failed assertions, `consider` keeps a shrinker sound: its current
  -- value satisfies the predicate, and no value that was seen and is better than that one does.
  pub consider-IsSound :
      (v : A) (s : Shrinker A)
      → IsSound order predicate s
      → IsSound order predicate (consider order predicate v s).1
  unfolding consider
  consider-IsSound v s h = elim (Bool-cases (order.eq v s.current)) [
    | inl e ↦ rw e h
    | inr e ↦ elim (Bool-cases (has_seen order v s.seen)) [
      | inl seen ↦ rw (e, seen) h
      | inr new ↦ elim (Bool-cases (order.better v s.current)) [
        | inl b ↦ elim (Bool-cases (predicate v)) [
          | inl p ↦ rw (e, new, checked v s.current, b, p) (improved v s h p b)
          | inr p ↦ rw (e, new, checked v s.current, b, p) (noted v s h (λ _. p))
        ]
        | inr b ↦ rw (e, new, checked v s.current, b) (noted v s h (λ b'. cc))
      ]
    ]
  ]

  -- In a sound shrinker, over an order that is transitive and irreflexive, `consider` of a value
  -- answers yes exactly where it is the current value or an improvement that satisfies the predicate,
  -- however much was seen before.
  pub consider-answer :
      (v : A) (s : Shrinker A)
      → IsSound order predicate s
      → (consider order predicate v s).0
        ≡ (order.eq v s.current || (order.better v s.current && predicate v))
  unfolding consider
  consider-answer v s h = elim (Bool-cases (has_seen order v s.seen)) [
    | inl seen ↦ elim (Bool-cases (order.better v s.current)) [
      | inl b ↦
          rw (seen, b, NoneMissed-has_seen s.current v s.seen h.none_missed seen b) (ground arith)
      | inr b ↦ rw (seen, b) (ground arith)
    ]
    | inr new ↦ rw (new, checked v s.current) (ground arith)
  ]

  -- Whatever is considered, the current value never gets worse.
  pub consider-current :
      (v : A) (s : Shrinker A)
      → ((consider order predicate v s).1.current ≡ s.current)
        ⊎ (order.better (consider order predicate v s).1.current s.current ≡ true)
  unfolding consider
  consider-current v s = ground arith

  -- The shrinker that `__init__` makes of a value that satisfies the predicate is sound.
  pub start-IsSound :
      (v : A) (full : Bool) → predicate v ≡ true → IsSound order predicate (start order v full)
  unfolding start
  start-IsSound v full p = record { satisfied = p; none_missed = (λ e. let i = irrefl v in cc, tt) }

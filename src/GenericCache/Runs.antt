-- ===== src/GenericCache/Runs.antt =====
-- Sequences of calls of a cache, from `__init__` on.
use hypothesis.Common.{
  ℕ, ◌≤◌, ◌<◌, ◌≡◌, refl, sym, ◌∙◌, inl, inr, true, [], arith, ◌==◌, length, Bool-cases,
  Option-cases,
}
use hypothesis.Common.Keys.{KeyEquality}
use hypothesis.Common.Dict.{get}
use hypothesis.Common.Result.{Error, Result, ok, raise, ◌>>=◌}
use hypothesis.GenericCache.{Cache, Scoring, make, size, clear}
use hypothesis.GenericCache.Heap.{IsWeakOrder}
use hypothesis.GenericCache.Index.{below, contents}
use hypothesis.GenericCache.Operations.{get_item, set_item, pin, unpin, check_valid}
use hypothesis.GenericCache.Replace.{IsValid}
use hypothesis.GenericCache.Access.{extra-IsValid}
use hypothesis.GenericCache.Methods.{get_item_there, get_item_missing, unpin_there, unpin_missing}
use hypothesis.GenericCache.Store.{
  IsStored, held, no_room, IsPinned, pinned, not_stored, set_item-IsStored, pin-IsPinned,
}
use hypothesis.GenericCache.Check.{check_valid_lem}

pub ok_eq {ℓ} : {A : Type ℓ} (a b : A) → ok a ≡ ok b → a ≡ b
ok_eq a b h = cc

-- A call of a method that changes the cache.
pub data Call {ℓ} (K V : Type ℓ) : Type ℓ where
  store pinning : K → V → Call K V
  read unpinning : K → Call K V
  clearing : Call K V

module _ {ℓ} {K V S X : Type ℓ} (keys : KeyEquality K) (scoring : Scoring K V S X) where
  -- The cache that a call leaves.
  unfoldable pub perform : Call K V → Cache K V S X → Result (Cache K V S X)
  perform (store k w) c = set_item keys scoring k w c
  perform (pinning k w) c = pin keys scoring k w c
  perform (read k) c = do r ← get_item keys scoring k c; ok (r.1)
  perform (unpinning k) c = unpin keys scoring k c
  perform clearing c = ok (clear c)

  -- A new cache after some calls. Those that raise change the state of the subclass at most.
  pub data Run (max_size : ℕ) (x : X) : Cache K V S X → Type ℓ where
    start : (c : Cache K V S X) → make max_size x ≡ ok c → Run max_size x c
    next :
        (call : Call K V) (c c' : Cache K V S X)
        → Run max_size x c
        → perform call c ≡ ok c'
        → Run max_size x c'
    failed :
        (call : Call K V) (error : Error) (c : Cache K V S X) (y : X)
        → Run max_size x c
        → perform call c ≡ raise error
        → Run max_size x (record c { extra = y })

module _ {ℓ} {K V S X : Type ℓ} (keys : KeyEquality K) (scoring : Scoring K V S X)
    (order : IsWeakOrder scoring.less) where
  empty-IsValid :
      (n : ℕ) (x : X)
      → 0 < n
      → IsValid keys scoring order
          (record { max_size = n; entries = []; keys_to_indices = []; extra = x })
  unfolding below get
  empty-IsValid n x p = record {
    synced = record {
      index = λ i e h. absurd (cc);
      entry = λ k i h. absurd (cc);
      sized = refl;
      unique = tt;
    };
    in_order = λ k p. refl;
    fits = omega arith;
    positive = p;
  }

  -- The cache of a call that returns is valid, and may be as large as before.
  pub record IsKept (c c' : Cache K V S X) : Type ℓ where
    pub valid : IsValid keys scoring order c'
    pub max_size : c'.max_size ≡ c.max_size

  make-IsValid :
      (n : ℕ) (x : X) (c : Cache K V S X)
      → make n x ≡ ok c
      → IsValid keys scoring order c × (c.max_size ≡ n)
  unfolding make
  make-IsValid n x c h = elim (Bool-cases (n == 0)) [
    | inl a ↦ absurd (let z = rw a at h in cc)
    | inr a ↦
        let q = rw a at h in
        let same =
          ok_eq (record { max_size = n; entries = []; keys_to_indices = []; extra = x }) c q in
        rw (← same) (empty-IsValid n x (ground arith), refl)
  ]

  stored-IsKept :
      (k : K) (w : V) (c c' : Cache K V S X) (r : Result (Cache K V S X))
      → IsStored keys scoring order c k w r
      → r ≡ ok c'
      → IsKept c c'
  stored-IsKept k w c c' r (held e d v at q m) h =
      rw (← ok_eq d c' h) (record { valid = v; max_size = m })
  stored-IsKept k w c c' r (no_room f n p) h = cc

  pinned-IsKept :
      (k : K) (w : V) (c c' : Cache K V S X) (r : Result (Cache K V S X))
      → IsPinned keys scoring order c k w r
      → r ≡ ok c'
      → IsKept c c'
  pinned-IsKept k w c c' r (pinned e d v at q p m) h =
      rw (← ok_eq d c' h) (record { valid = v; max_size = m })
  pinned-IsKept k w c c' r (not_stored f n p) h = cc

  pub perform-IsKept :
      (call : Call K V) (c c' : Cache K V S X)
      → IsValid keys scoring order c
      → perform keys scoring call c ≡ ok c'
      → IsKept c c'
  unfolding perform clear
  perform-IsKept (store k w) c c' v h =
      stored-IsKept k w c c' (set_item keys scoring k w c)
        (set_item-IsStored keys scoring order k w c v) h
  perform-IsKept (pinning k w) c c' v h =
      pinned-IsKept k w c c' (pin keys scoring k w c) (pin-IsPinned keys scoring order k w c v) h
  perform-IsKept (read k) c c' v h = elim (Option-cases (contents keys scoring c k)) [
    | inl n ↦
        let g = get_item_missing keys scoring order k c v.synced n in
        absurd (let z = rw g at h in cc)
    | inr (e, at) ↦
        let (d, g, u, ch) = get_item_there keys scoring order k e c v at in
        let same : d ≡ c' = ok_eq d c' (rw g at h) in
        rw (← same) (record { valid = u; max_size = ch.kept_max_size })
  ]
  perform-IsKept (unpinning k) c c' v h = elim (Option-cases (contents keys scoring c k)) [
    | inl n ↦ let g = unpin_missing keys scoring order k c v.synced n in absurd cc
    | inr (e, at) ↦ elim (unpin_there keys scoring order k e c v at) [
      | inl (z, g) ↦ absurd cc
      | inr (p, (d, g, u, ch)) ↦
          let same : d ≡ c' = ok_eq d c' (sym g ∙ h) in
          rw (← same) (record { valid = u; max_size = ch.kept_max_size })
    ]
  ]
  perform-IsKept clearing c c' v h =
      rw (← ok_eq (clear c) c' h)
        (record { valid = empty-IsValid c.max_size c.extra v.positive; max_size = refl })

  -- Every cache that calls make is valid.
  pub Run-IsValid :
      (n : ℕ) (x : X) (c : Cache K V S X)
      → Run keys scoring n x c
      → IsValid keys scoring order c × (c.max_size ≡ n)
  Run-IsValid n x c (start d h) = make-IsValid n x c h
  Run-IsValid n x c (next call d e r h) =
      let (v, m) = Run-IsValid n x d r in
      let k = perform-IsKept call d c v h in (k.valid, k.max_size ∙ m)
  Run-IsValid n x c (failed call error d y r h) =
      let (v, m) = Run-IsValid n x d r in (extra-IsValid keys scoring order d y v, m)

  -- The checks of `check_valid` hold after any calls of a new cache, errors included, `__len__` returns
  -- the number of entries, and this is at most the size given to `__init__`.
  pub Run-check_valid :
      (n : ℕ) (x : X) (c : Cache K V S X)
      → Run keys scoring n x c
      → (check_valid keys scoring c ≡ ok tt)
        × (size c ≡ ok (length c.entries))
        × (length c.entries ≤ n)
  unfolding size
  Run-check_valid n x c r =
      let (v, m) = Run-IsValid n x c r in
      let f = v.fits in
      let s = v.synced.sized in
      let same : (length c.keys_to_indices == length c.entries) ≡ true = ground arith in
      (check_valid_lem keys scoring order c v, rw same refl, omega arith)

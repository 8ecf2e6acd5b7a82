-- ===== src/Many/Bounds.antt =====
-- The size of a collection that is drawn by `many`, and how long the drawing can take.
use hypothesis.Common.{
  ℕ, ◌+◌, ◌-◌, ◌*◌, ◌≤◌, ◌≡◌, refl, ap, sym, ◌∙◌, Bool, true, false, Option, none, some, arith, ltb,
  leb, max, ◌==◌, if◌then◌else◌, Bool-cases, inl, inr, Option-cases,
}
use hypothesis.Common.Result.{ok, result_parts}
use hypothesis.Many.{
  Many, within, reaches, is_exactly, forced_within, start, call_span, forced_at, assert_forced,
  forced_result, should_continue, conclude, more, prepare, reject,
}

-- The count does not exceed the forced size.
unfoldable pub within_forced : ℕ → Option ℕ → Bool
within_forced n none = true
within_forced n (some f) = leb n f

-- The count is the forced size.
unfoldable pub is_forced : ℕ → Option ℕ → Bool
is_forced n none = true
is_forced n (some f) = n == f

-- At most three rejections, or twice the maximal size
unfoldable pub few : ℕ → Option ℕ → Bool
few r none = true
few r (some n) = leb r (max 3 (2 * n))

-- A sequence of calls: before the first `more`, after one that answered yes, after a rejection of that
-- element, and after the last one.
pub data Phase : Type 0 where
  fresh element rejected finished : Phase

abbrev pub is_open : Phase → Bool
is_open element = true
is_open rejected = true
is_open _ = false

abbrev pub is_element : Phase → Bool
is_element element = true
is_element _ = false

abbrev pub is_finished : Phase → Bool
is_finished finished = true
is_finished _ = false

abbrev pub is_fresh : Phase → Bool
is_fresh fresh = true
is_fresh _ = false

module _ {ℓ} {S : Type ℓ} (draw : Option Bool → S → Bool × S) where
  pub data Run : Phase → ℕ → Many → S → Type ℓ where
    begun :
        {m : Many} (s : S) (lo : ℕ) (hi forced : Option ℕ) (observe : Bool)
        → start lo hi forced observe ≡ ok m
        → Run fresh 0 m s
    grew :
        {p : Phase} {t : ℕ} {m m' : Many} {s s' : S}
        → Run p t m s
        → is_finished p ≡ false
        → more draw m s ≡ ok (true, m', s')
        → Run element (t + 1) m' s'
    ended :
        {p : Phase} {t : ℕ} {m m' : Many} {s s' : S}
        → Run p t m s
        → is_finished p ≡ false
        → more draw m s ≡ ok (false, m', s')
        → Run finished t m' s'
    refused :
        {t : ℕ} {m m' : Many} {s : S} → Run element t m s → reject m ≡ ok m' → Run rejected t m' s

-- What holds of the sizes after `drawn` elements were drawn.
pub record IsBounded (p : Phase) (drawn : ℕ) (m : Many) : Type 0 where
  pub counted : m.count + m.rejections ≡ drawn
  pub in_range : within m.min_size m.max_size ≡ true
  pub forced_range : forced_within m.min_size m.max_size m.forced_size ≡ true
  pub below : within m.count m.max_size ≡ true
  pub below_forced : within_forced m.count m.forced_size ≡ true
  pub enough : m.force_stop ≡ true → leb m.min_size m.count ≡ true
  pub rejected_few : m.force_stop ≡ false → few m.rejections m.max_size ≡ true
  pub rejected_any : few (m.rejections - 1) m.max_size ≡ true
  pub stopped : m.force_stop ≡ true → is_element p ≡ false

-- What `more` leaves alone
pub record IsSame (m m' : Many) : Type 0 where
  pub min_same : m'.min_size ≡ m.min_size
  pub max_same : m'.max_size ≡ m.max_size
  pub forced_same : m'.forced_size ≡ m.forced_size
  pub rejections_same : m'.rejections ≡ m.rejections
  pub stop_same : m'.force_stop ≡ m.force_stop

module _ {ℓ} {S : Type ℓ} (draw : Option Bool → S → Bool × S) where
  should_continue-prepare :
      (m : Many) (s : S) → should_continue draw (prepare m) s ≡ should_continue draw m s
  unfolding should_continue prepare forced_result
  should_continue-prepare m s = elim (Bool-cases m.observe) [
    | inl e ↦ elim (Bool-cases m.drawn) [ inl d ↦ rw (e, d) | inr d ↦ rw (e, d) ]
    | inr e ↦ elim (Bool-cases m.drawn) [ inl d ↦ rw (e, d) | inr d ↦ rw (e, d) ]
  ]

  prepare_lem : (m : Many) → IsSame m (prepare m) × ((prepare m).count ≡ m.count)
  unfolding prepare
  prepare_lem m = ground arith

  conclude_lem :
      (m m' : Many) (b b' : Bool) (s s' : S)
      → conclude draw m (b, s) ≡ (b', m', s')
      → (b ≡ b') × IsSame m m' × (m'.count ≡ (if b then m.count + 1 else m.count))
  unfolding conclude call_span
  conclude_lem m m' true b' s s' h = ground arith
  conclude_lem m m' false b' s s' h = ground arith

  -- `more` is the decision of `should_continue`, and counts the element if that is to continue.
  more_lem :
      (m m' : Many) (b : Bool) (s s' : S)
      → more draw m s ≡ ok (b, m', s')
      → (t : S) × (should_continue draw m s ≡ ok (b, t))
        × IsSame m m'
        × (m'.count ≡ (if b then m.count + 1 else m.count))
  unfolding more
  more_lem m m' b s s' h =
      let ((c, t), e, f) =
        result_parts (should_continue draw (prepare m) s) (λ d. ok (conclude draw (prepare m) d))
          h in
      let (q, same, k) = conclude_lem (prepare m) m' c b t s' (cc) in
      let (same', k') = prepare_lem m in
      (
        t,
        sym (should_continue-prepare m s) ∙ e ∙ ap (λ (x : Bool). ok (x, t)) q,
        ground arith,
        ground arith,
      )

  module _ (obeys : (b : Bool) (s : S) → (draw (some b) s).0 ≡ b) where
    -- Continuing keeps below the sizes; stopping is not too early.
    decided :
        (p : Phase) (t : ℕ) (m : Many) (b : Bool) (s s' : S)
        → IsBounded p t m
        → should_continue draw m s ≡ ok (b, s')
        → (b ≡ true
            → (m.force_stop ≡ false)
              × (within (m.count + 1) m.max_size ≡ true)
              × (within_forced (m.count + 1) m.forced_size ≡ true))
          × (b ≡ false → (leb m.min_size m.count ≡ true) × (is_forced m.count m.forced_size ≡ true))
    unfolding should_continue forced_result is_exactly reaches forced_at assert_forced within
        within_forced is_forced forced_within
    decided p t m b s s' v h = elim (Option-cases m.forced_size) [
      | inl e ↦ ground (arith, obeys true s, obeys false s)
      | inr (f, e) ↦ ground (arith, obeys true s, obeys false s, obeys (ltb m.count f) s)
    ]

    grew-IsBounded :
        (p : Phase) (t : ℕ) (m m' : Many) (s s' : S)
        → IsBounded p t m
        → more draw m s ≡ ok (true, m', s')
        → IsBounded element (t + 1) m'
    grew-IsBounded p t m m' s s' v h =
        let (u, e, same, k) = more_lem m m' true s s' h in
        let (a, b, c) = (decided p t m true s u v e).0 refl in ground arith

    ended-IsBounded :
        (p : Phase) (t : ℕ) (m m' : Many) (s s' : S)
        → IsBounded p t m
        → more draw m s ≡ ok (false, m', s')
        → IsBounded finished t m'
          × (m'.min_size ≤ m'.count)
          × (is_forced m'.count m'.forced_size ≡ true)
    ended-IsBounded p t m m' s s' v h =
        let (u, e, same, k) = more_lem m m' false s s' h in
        let (a, b) = (decided p t m false s u v e).1 refl in ground arith

refused-IsBounded :
    (t : ℕ) (m m' : Many) → IsBounded element t m → reject m ≡ ok m' → IsBounded rejected t m'
unfolding reject within within_forced few
refused-IsBounded t m m' v h = ground arith

begun-IsBounded :
    (lo : ℕ) (hi forced : Option ℕ) (observe : Bool) (m : Many)
    → start lo hi forced observe ≡ ok m
    → IsBounded fresh 0 m
unfolding start within within_forced forced_within few
begun-IsBounded lo hi forced observe m h = ground arith

abbrev EndsWell : Phase → Many → Type 0
EndsWell finished m = (m.min_size ≤ m.count) × (is_forced m.count m.forced_size ≡ true)
EndsWell p m = Unit

module _ {ℓ} {S : Type ℓ} (draw : Option Bool → S → Bool × S)
    (obeys : (b : Bool) (s : S) → (draw (some b) s).0 ≡ b) where
  Run-IsBounded :
      {p : Phase} {t : ℕ} {m : Many} {s : S} → Run draw p t m s → IsBounded p t m × EndsWell p m
  Run-IsBounded (begun {m} s lo hi forced observe e) =
      (begun-IsBounded lo hi forced observe m e, tt)
  Run-IsBounded (grew {p} {t} {m} {m'} {s} {s'} r n e) =
      (grew-IsBounded draw obeys p t m m' s s' (Run-IsBounded r).0 e, tt)
  Run-IsBounded (ended {p} {t} {m} {m'} {s} {s'} r n e) =
      let (v, lo, f) = ended-IsBounded draw obeys p t m m' s s' (Run-IsBounded r).0 e in
      (v, (lo, f))
  Run-IsBounded (refused {t} {m} {m'} {s} r e) =
      (refused-IsBounded t m m' (Run-IsBounded r).0 e, tt)

  -- Where a forced draw gives what is forced: a collection that is finished has a size in the range that
  -- was asked for, and the forced size if there is one, however many elements were rejected.
  pub Run-size :
      {t : ℕ} {m : Many} {s : S}
      → Run draw finished t m s
      → (m.min_size ≤ m.count)
        × (within m.count m.max_size ≡ true)
        × (is_forced m.count m.forced_size ≡ true)
  Run-size r = let (v, e) = Run-IsBounded r in (e.0, v.below, e.1)

  -- Where a forced draw gives what is forced: if the largest size is finite, at most three times as many
  -- elements are drawn and one, or four more than it; so the drawing ends.
  pub Run-bounded :
      {p : Phase} {t n : ℕ} {m : Many} {s : S}
      → Run draw p t m s
      → m.max_size ≡ some n
      → t ≤ n + max 3 (2 * n) + 1
  unfolding within few
  Run-bounded r e = let (v, _) = Run-IsBounded r in ground arith

-- ===== src/Many/Nesting.antt =====
-- `many` closes every span that it opens, and has one open while an element is drawn.
use hypothesis.Common.{
  ℕ, ◌≡◌, Bool, true, false, ◌&&◌, not, Option, none, some, List, [], ◌∷◌, ◌++◌, arith,
  if◌then◌else◌, refl,
}
use hypothesis.Common.Result.{ok, result_parts}
use hypothesis.Many.{
  Span, start_span, stop_span, Many, start, call_span, prepare, should_continue, conclude, more,
  reject,
}
use hypothesis.Many.Bounds.{
  Phase, fresh, element, rejected, finished, is_open, is_fresh, is_finished, Run, begun, grew,
  ended, refused,
}

-- Whether a span is open in the end, where starts and stops alternate, or none if they do not. The first
-- argument says whether one is open before.
unfoldable pub nesting : Bool → List Span → Option Bool
nesting b [] = some b
nesting false (start_span ∷ cs) = nesting true cs
nesting true (stop_span ∷ cs) = nesting false cs
nesting true (start_span ∷ cs) = none
nesting false (stop_span ∷ cs) = none

nesting-append :
    (b d : Bool) (cs : List Span) (c : Span)
    → nesting b cs ≡ some d
    → nesting b (cs ++ c ∷ []) ≡ nesting d (c ∷ [])
unfolding nesting
nesting-append b d [] c h = let e : b ≡ d = cc in rw e refl
nesting-append false d (start_span ∷ cs) c h = nesting-append true d cs c h
nesting-append true d (stop_span ∷ cs) c h = nesting-append false d cs c h
nesting-append true d (start_span ∷ cs) c h = cc
nesting-append false d (stop_span ∷ cs) c h = cc

reopened :
    (cs : List Span)
    → nesting false cs ≡ some true
    → nesting false ((cs ++ stop_span ∷ []) ++ start_span ∷ []) ≡ some true
unfolding nesting
reopened cs h =
    nesting-append false false (cs ++ stop_span ∷ []) start_span
      (nesting-append false true cs stop_span h)

record IsNested (p : Phase) (m : Many) : Type 0 where
  started : m.drawn ≡ not (is_fresh p)
  nested : nesting false m.spans ≡ some (is_open p && m.observe)

begun-IsNested :
    (lo : ℕ) (hi forced : Option ℕ) (observe : Bool) (m : Many)
    → start lo hi forced observe ≡ ok m
    → IsNested fresh m
unfolding start nesting
begun-IsNested lo hi forced observe m h = ground arith

prepare-IsNested :
    (p : Phase) (m : Many) → is_finished p ≡ false → IsNested p m → IsNested element (prepare m)
unfolding prepare call_span nesting
prepare-IsNested fresh m n v = ground (arith, nesting-append false false m.spans start_span)
prepare-IsNested element m n v = ground (arith, reopened m.spans)
prepare-IsNested rejected m n v = ground (arith, reopened m.spans)
prepare-IsNested finished m n v = cc

module _ {ℓ} {S : Type ℓ} (draw : Option Bool → S → Bool × S) where
  conclude-IsNested :
      (m m' : Many) (b b' : Bool) (s s' : S)
      → IsNested element m
      → conclude draw m (b, s) ≡ (b', m', s')
      → IsNested (if b' then element else finished) m'
  unfolding conclude call_span nesting
  conclude-IsNested m m' true b' s s' v h = ground arith
  conclude-IsNested m m' false b' s s' v h = ground (
    arith,
    nesting-append false true m.spans stop_span,
    nesting-append false false m.spans stop_span,
  )

  more-IsNested :
      (p : Phase) (m m' : Many) (b : Bool) (s s' : S)
      → is_finished p ≡ false
      → IsNested p m
      → more draw m s ≡ ok (b, m', s')
      → IsNested (if b then element else finished) m'
  unfolding more
  more-IsNested p m m' b s s' n v h =
      let ((c, t), e, f) =
        result_parts (should_continue draw (prepare m) s) (λ d. ok (conclude draw (prepare m) d))
          h in
      conclude-IsNested (prepare m) m' c b t s' (prepare-IsNested p m n v) (cc)

  Run-IsNested : {p : Phase} {t : ℕ} {m : Many} {s : S} → Run draw p t m s → IsNested p m
  unfolding reject
  Run-IsNested (begun {m} s lo hi forced observe e) = begun-IsNested lo hi forced observe m e
  Run-IsNested (grew {p} {t} {m} {m'} {s} {s'} r n e) =
      more-IsNested p m m' true s s' n (Run-IsNested r) e
  Run-IsNested (ended {p} {t} {m} {m'} {s} {s'} r n e) =
      more-IsNested p m m' false s s' n (Run-IsNested r) e
  Run-IsNested (refused {t} {m} {m'} {s} r e) = let v = Run-IsNested r in ground arith

  -- In every sequence of calls, the spans are started and stopped in turn, a start first, so that there is
  -- never more than one open; one is open while an element is drawn, if the collection is observed, and none
  -- before the first and after the last `more`.
  pub Run-nesting :
      {p : Phase} {t : ℕ} {m : Many} {s : S}
      → Run draw p t m s
      → nesting false m.spans ≡ some (is_open p && m.observe)
  Run-nesting r = (Run-IsNested r).nested

-- ===== src/Limiter/Contexts.antt =====
-- Contexts that are entered and exited in any order.
use hypothesis.Common.{
  ℕ, ◌+◌, ◌-◌, ◌≤◌, ◌<◌, ◌≡◌, refl, inl, inr, Bool, true, false, Option, none, some, List, [], ◌∷◌,
  arith, ◌==◌, Bool-cases, le→leb, subst, sym, ap,
}
use hypothesis.Common.Keys.{number_keys, eq_refl, mem}
use hypothesis.Common.Result.{Error}
use hypothesis.Limiter.{
  Limiter, start, set_limit, activate, record_original, enter_context, forget, restore_original,
  limit_after, exit_context, after_enter, enter, exit,
}

-- What is documented: a limit above the depth of the stack can be set, here by some margin for the frames
-- of the limiter itself.
abbrev pub IsRoomy : (ℕ → ℕ → Option Error) → Type 0
IsRoomy setrecursionlimit = (depth : ℕ) → setrecursionlimit depth (depth + 2000) ≡ none

-- Operations at depths that are allowed, on a limiter that was made under `limit`, with the number of
-- contexts that are open. Which context is exited, and so its old limit, is left open, and that limit may
-- be refused; the last context is exited where the stack is not too deep for `limit`.
pub data Run (setrecursionlimit : ℕ → ℕ → Option Error) (as_error : Bool) (limit : ℕ)
    : ℕ → Limiter → Type 0 where
  begun : Run setrecursionlimit as_error limit 0 (start limit)
  entered :
      {n : ℕ} {s : Limiter} (depth : ℕ)
      → depth ≤ 1000
      → Run setrecursionlimit as_error limit n s
      → Run setrecursionlimit as_error limit (n + 1) (enter setrecursionlimit as_error depth s).1
  exited :
      {n : ℕ} {s : Limiter} (depth old_limit : ℕ)
      → (n ≡ 0 → setrecursionlimit depth limit ≡ none)
      → Run setrecursionlimit as_error limit (n + 1) s
      → Run setrecursionlimit as_error limit n (exit setrecursionlimit as_error depth old_limit s).1

pub record IsIdle (limit : ℕ) (s : Limiter) : Type 0 where
  pub restored : s.limit ≡ limit
  pub forgotten : s.original_limit ≡ none

pub record IsBusy (limit : ℕ) (s : Limiter) : Type 0 where
  pub remembered : s.original_limit ≡ some limit
  pub known : mem number_keys s.limit s.known_limits ≡ true

-- Idle without open contexts, and busy with some.
pub record IsValid (limit n : ℕ) (s : Limiter) : Type 0 where
  pub counted : s.active_contexts ≡ n
  pub silent : s.warned ≡ 0
  pub idle : n ≡ 0 → IsIdle limit s
  pub busy : 0 < n → IsBusy limit s

start-IsValid : (limit : ℕ) → IsValid limit 0 (start limit)
unfolding start
start-IsValid limit = record {
  counted = refl;
  silent = refl;
  idle = λ _. record { restored = refl; forgotten = refl };
  busy = λ p. absurd (omega arith);
}

-- Nothing was raised, and the state is valid.
abbrev pub IsFine : ℕ → ℕ → Option Error × Limiter → Type 0
IsFine limit n o = (o.0 ≡ none) × IsValid limit n o.1

known_head : (m : ℕ) (l : List ℕ) → mem number_keys m (m ∷ l) ≡ true
unfolding mem
known_head m l = rw (eq_refl number_keys m) refl

known_tail : (m n : ℕ) (l : List ℕ) → mem number_keys n l ≡ true → mem number_keys n (m ∷ l) ≡ true
unfolding mem
known_tail m n l h = ground arith

module _ (setrecursionlimit : ℕ → ℕ → Option Error) (roomy : IsRoomy setrecursionlimit) where
  enter_idle :
      (as_error : Bool) (depth : ℕ) (s : Limiter)
      → depth ≤ 1000
      → (s.active_contexts == 0) ≡ true
      → s.original_limit ≡ none
      → enter setrecursionlimit as_error depth s ≡ (
        none,
        record s {
          active_contexts = s.active_contexts + 1;
          known_limits = (depth + 2000) ∷ s.limit ∷ s.known_limits;
          original_limit = some s.limit;
          limit = depth + 2000;
        },
      )
  unfolding enter enter_context after_enter record_original activate set_limit limit_after mem
  enter_idle as_error depth s d a o =
      rw (le→leb depth 1000 d, a, o, eq_refl number_keys s.limit, roomy depth) refl

  enter_busy :
      (as_error : Bool) (depth : ℕ) (s : Limiter)
      → depth ≤ 1000
      → (s.active_contexts == 0) ≡ false
      → mem number_keys s.limit s.known_limits ≡ true
      → enter setrecursionlimit as_error depth s ≡ (
        none,
        record s {
          active_contexts = s.active_contexts + 1;
          known_limits = (depth + 2000) ∷ s.known_limits;
          limit = depth + 2000;
        },
      )
  unfolding enter enter_context after_enter activate set_limit limit_after
  enter_busy as_error depth s d a k = rw (le→leb depth 1000 d, a, k, roomy depth) refl

  restore_lem :
      (as_error : Bool) (depth old original : ℕ) (s : Limiter)
      → setrecursionlimit depth original ≡ none
      → s.active_contexts ≡ 1
      → s.original_limit ≡ some original
      → mem number_keys s.limit s.known_limits ≡ true
      → exit setrecursionlimit as_error depth old s ≡ (
        none,
        record s {
          active_contexts = 0;
          known_limits = original ∷ [];
          original_limit = none;
          limit = original;
        },
      )
  unfolding exit exit_context restore_original forget set_limit limit_after
  restore_lem as_error depth old original s r a o k = rw (a, o, k, r) refl

  exit_inner :
      (as_error : Bool) (depth old n : ℕ) (s : Limiter)
      → (s.active_contexts == 0) ≡ false
      → ((s.active_contexts - 1) == 0) ≡ false
      → mem number_keys s.limit s.known_limits ≡ true
      → exit setrecursionlimit as_error depth old s ≡ (
        setrecursionlimit depth old,
        record s {
          active_contexts = s.active_contexts - 1;
          known_limits = old ∷ s.known_limits;
          limit = limit_after (setrecursionlimit depth old) old s.limit;
        },
      )
  unfolding exit exit_context set_limit
  exit_inner as_error depth old n s a b k = rw (a, b, k) refl

  pub enter-IsFine :
      (as_error : Bool) (limit n depth : ℕ) (s : Limiter)
      → depth ≤ 1000
      → IsValid limit n s
      → IsFine limit (n + 1) (enter setrecursionlimit as_error depth s)
  enter-IsFine as_error limit n depth s d h =
      let c = h.counted in
      elim (Bool-cases (s.active_contexts == 0)) [
        | inl z ↦
            let i = h.idle (ground arith) in
            subst (IsFine limit (n + 1)) (sym (enter_idle as_error depth s d z i.forgotten)) (
              refl,
              record {
                counted = rw c refl;
                silent = h.silent;
                idle = λ e. absurd (omega arith);
                busy = λ _. record { remembered = ap some i.restored; known = known_head _ _ };
              },
            )
        | inr z ↦
            let b = h.busy (ground arith) in
            subst (IsFine limit (n + 1)) (sym (enter_busy as_error depth s d z b.known)) (
              refl,
              record {
                counted = rw c refl;
                silent = h.silent;
                idle = λ e. absurd (omega arith);
                busy = λ _. record { remembered = b.remembered; known = known_head _ _ };
              },
            )
      ]

  -- The limit is known whether it was set or not.
  known_after :
      (e : Option Error) (new limit : ℕ) (l : List ℕ)
      → mem number_keys limit l ≡ true
      → mem number_keys (limit_after e new limit) (new ∷ l) ≡ true
  unfolding limit_after
  known_after none new limit l h = known_head new l
  known_after (some e) new limit l h = known_tail new limit l h

  exit-IsValid :
      (as_error : Bool) (limit n depth old : ℕ) (s : Limiter)
      → (n ≡ 0 → setrecursionlimit depth limit ≡ none)
      → IsValid limit (n + 1) s
      → IsValid limit n (exit setrecursionlimit as_error depth old s).1
  exit-IsValid as_error limit n depth old s r h =
      let c = h.counted in
      let b = h.busy (omega arith) in
      elim (Bool-cases (n == 0)) [
        | inl z ↦
            let one : s.active_contexts ≡ 1 = ground arith in
            let w : setrecursionlimit depth limit ≡ none = r (ground arith) in
            subst (λ o. IsValid limit n o.1)
              (sym (restore_lem as_error depth old limit s w one b.remembered b.known))
              (record {
                counted = ground arith;
                silent = h.silent;
                idle = λ _. record { restored = refl; forgotten = refl };
                busy = λ p. absurd (ground arith);
              })
        | inr z ↦
            subst (λ o. IsValid limit n o.1)
              (sym (exit_inner as_error depth old n s (ground arith) (ground arith) b.known))
              (record {
                counted = omega arith;
                silent = h.silent;
                idle = λ e. absurd (ground arith);
                busy = λ _. record {
                  remembered = b.remembered;
                  known = known_after (setrecursionlimit depth old) old s.limit _ b.known;
                };
              })
      ]

  Run-IsValid :
      (as_error : Bool) (limit n : ℕ) (s : Limiter)
      → Run setrecursionlimit as_error limit n s
      → IsValid limit n s
  Run-IsValid as_error limit n s begun = start-IsValid limit
  Run-IsValid as_error limit n s (entered depth d r) =
      (enter-IsFine as_error limit _ depth _ d (Run-IsValid as_error limit _ _ r)).1
  Run-IsValid as_error limit n s (exited depth old h r) =
      exit-IsValid as_error limit _ depth old _ h (Run-IsValid as_error limit _ _ r)

  -- When all contexts that were entered, at most 1000 deep, are exited, in whatever order, and nothing else
  -- changed the limit: the limit is the one from before, no original limit is kept, and no warning was
  -- issued. The interpreter is assumed to set a limit of 2000 above the depth of the stack, and the original
  -- limit at the depth where the last context is exited; any other limit that a context restores it may
  -- refuse, with an exception.
  pub Run-restored :
      (as_error : Bool) (limit : ℕ) (s : Limiter)
      → Run setrecursionlimit as_error limit 0 s
      → (s.limit ≡ limit) × (s.original_limit ≡ none) × (s.warned ≡ 0)
  Run-restored as_error limit s r =
      let v = Run-IsValid as_error limit 0 s r in
      ((v.idle refl).restored, (v.idle refl).forgotten, v.silent)

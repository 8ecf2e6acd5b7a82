-- ===== src/Limiter.antt =====
-- `StackframeLimiter` and `ensure_free_stackframes` of internal/conjecture/junkdrawer.py: the recursion
-- limit of the interpreter while contexts are open, in any threads. A lock makes each operation one step.
-- The depth of the stack of the caller is an argument; `as_error` says whether warnings raise, as under
-- -Werror. What sys.setrecursionlimit raises, at a depth and for a limit, is that of the interpreter, a
-- parameter: a RecursionError or ValueError for limits that are too low, and none where it sets the limit.
pub mod Contexts
pub mod Examples
use hypothesis.Common.{
  ℕ, ◌+◌, ◌-◌, Bool, true, false, not, ◌&&◌, Option, none, some, List, [], ◌∷◌, ltb, leb, ◌==◌,
  if◌then◌else◌,
}
use hypothesis.Common.Keys.{number_keys, mem}
use hypothesis.Common.Result.{Error, assertion_error, hypothesis_warning}

-- The limiter, the limit of the interpreter, and how many warnings were issued.
pub record Limiter : Type 0 where
  pub active_contexts : ℕ
  pub known_limits : List ℕ
  pub original_limit : Option ℕ
  pub limit : ℕ
  pub warned : ℕ

-- What an operation raises, if anything, and what it leaves.
abbrev pub Outcome : Type 0
Outcome = Option Error × Limiter

-- `__init__`, in an interpreter with that limit
unfoldable pub start : ℕ → Limiter
start limit = record {
  active_contexts = 0;
  known_limits = [];
  original_limit = none;
  limit = limit;
  warned = 0;
}

-- The limit that is left by setting one, which may have raised.
unfoldable pub limit_after : Option Error → ℕ → ℕ → ℕ
limit_after none new_limit limit = new_limit
limit_after (some e) new_limit limit = limit

-- The `finally` of `exit_context`, whatever was raised.
unfoldable pub forget : ℕ → Outcome → Outcome
forget original (e, s) = (e, record s { original_limit = none; known_limits = original ∷ [] })

module _ (setrecursionlimit : ℕ → ℕ → Option Error) where
  -- `_setrecursionlimit`
  unfoldable pub set_limit : Bool → ℕ → ℕ → Bool → Limiter → Outcome
  unfolding limit_after
  set_limit as_error depth new_limit check s =
      if check && not (mem number_keys s.limit s.known_limits)
      then (if as_error then some hypothesis_warning else none, record s { warned = s.warned + 1 })
      else (
        setrecursionlimit depth new_limit,
        record s {
          known_limits = new_limit ∷ s.known_limits;
          limit = limit_after (setrecursionlimit depth new_limit) new_limit s.limit;
        },
      )

  -- The rest of `enter_context`.
  unfoldable pub activate : Bool → ℕ → ℕ → Limiter → Outcome
  unfolding set_limit
  activate as_error depth new_limit s =
      set_limit as_error depth new_limit true (record s { active_contexts = s.active_contexts + 1 })

  -- the assertion that there is no original limit, and its record
  unfoldable pub record_original : Bool → ℕ → ℕ → ℕ → Option ℕ → Limiter → Outcome
  unfolding activate
  record_original as_error depth new_limit current none s =
      activate as_error depth new_limit
        (record s { original_limit = some current; known_limits = current ∷ s.known_limits })
  record_original as_error depth new_limit current (some o) s = (some assertion_error, s)

  unfoldable pub enter_context : Bool → ℕ → ℕ → ℕ → Limiter → Outcome
  unfolding record_original
  enter_context as_error depth new_limit current s =
      if s.active_contexts == 0
      then record_original as_error depth new_limit current s.original_limit s
      else activate as_error depth new_limit s

  unfoldable pub restore_original : Bool → ℕ → Bool → Option ℕ → Limiter → Outcome
  unfolding forget set_limit
  restore_original as_error depth check none s = (some assertion_error, s)
  restore_original as_error depth check (some o) s = forget o (set_limit as_error depth o check s)

  unfoldable pub exit_context : Bool → ℕ → ℕ → Bool → Limiter → Outcome
  unfolding restore_original
  exit_context as_error depth new_limit check s =
      if s.active_contexts == 0
      then (some assertion_error, s)
      else (let s' = record s { active_contexts = s.active_contexts - 1 } in
          if s'.active_contexts == 0
          then restore_original as_error depth check s'.original_limit s'
          else set_limit as_error depth new_limit check s')

  -- `except Exception: exit_context(old_limit, check=False); raise`
  unfoldable pub after_enter : Bool → ℕ → ℕ → Outcome → Outcome
  unfolding exit_context
  after_enter as_error depth old_limit (none, s) = (none, s)
  after_enter as_error depth old_limit (some e, s) =
      let (e', s') = exit_context as_error depth old_limit false s in
      (elim e' [ none ↦ some e | some e'' ↦ some e'' ], s')

  -- `__enter__` at some depth; the old limit, which the context keeps, is the limit before it.
  unfoldable pub enter : Bool → ℕ → Limiter → Outcome
  unfolding enter_context after_enter
  enter as_error depth s =
      if leb depth 1000
      then after_enter as_error depth s.limit
          (enter_context as_error depth (depth + 2000) s.limit s)
      else (some assertion_error, s)

  -- `__exit__`
  unfoldable pub exit : Bool → ℕ → ℕ → Limiter → Outcome
  unfolding exit_context
  exit as_error depth old_limit s = exit_context as_error depth old_limit true s

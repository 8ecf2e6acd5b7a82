-- ===== src/Limiter/Examples.antt =====
-- An instance of the theorem on contexts: two that overlap, as in two threads.
use hypothesis.Common.{ℕ, ◌+◌, ◌≡◌, refl, true, leb, Option, none, some, arith, if◌then◌else◌}
use hypothesis.Common.Result.{Error, recursion_error}
use hypothesis.Limiter.{Limiter, start, enter, exit}
use hypothesis.Limiter.Contexts.{IsRoomy, Run, begun, entered, exited, Run-restored}

-- A limit must exceed the depth of the stack by 5.
abbrev refused : ℕ → ℕ → Option Error
refused depth limit = if leb (depth + 5) limit then none else some recursion_error

refused-IsRoomy : IsRoomy refused
refused-IsRoomy depth = ground arith

abbrev both : Limiter
both = (enter refused true 20 (enter refused true 10 (start 1000)).1).1

both_open : Run refused true 1000 2 both
both_open = entered 20 (omega arith) (entered 10 (omega arith) begun)

-- The first is exited first, deep in the stack, where its limit is refused.
abbrev finished : Limiter
finished = (exit refused true 15 2010 (exit refused true 1000 1000 both).1).1

all_closed : Run refused true 1000 0 finished
all_closed = exited 15 2010 (λ _. refl) (exited 1000 1000 (λ e. absurd (omega arith)) both_open)

Run-restored_example :
    (finished.limit ≡ 1000) × (finished.original_limit ≡ none) × (finished.warned ≡ 0)
Run-restored_example = Run-restored refused refused-IsRoomy true 1000 finished all_closed

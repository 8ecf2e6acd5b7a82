-- ===== src/Many/Examples.antt =====
-- Instances of the theorems on `many`: a collection of two elements at most, which are all drawn if the
-- answer is not forced.
use hypothesis.Common.{
  [], ◌∷◌, ℕ, ◌+◌, ◌*◌, ◌≤◌, ◌≡◌, refl, Bool, true, false, Option, none, some, max, ◌&&◌,
}
use hypothesis.Many.{
  start_span, stop_span, Many, within, start, more, should_continue, prepare, conclude, call_span,
  forced_result, assert_forced, forced_at, reaches, is_exactly, forced_within,
}
use hypothesis.Many.Bounds.{Run, begun, grew, ended, finished, is_forced, Run-size, Run-bounded}
use hypothesis.Many.Nesting.{nesting, Run-nesting}

-- The state counts the draws.
draw : Option Bool → ℕ → Bool × ℕ
draw none s = (true, s + 1)
draw (some b) s = (b, s + 1)

draw_forced : (b : Bool) (s : ℕ) → (draw (some b) s).0 ≡ b
unfolding draw
draw_forced b s = refl

abbrev first : Many
first = record {
  min_size = 0;
  max_size = some 1;
  forced_size = none;
  observe = true;
  count = 0;
  rejections = 0;
  drawn = false;
  force_stop = false;
  rejected = false;
  spans = [];
}

abbrev second : Many
second = record first { count = 1; drawn = true; spans = start_span ∷ [] }

abbrev last : Many
last = record second { spans = start_span ∷ stop_span ∷ start_span ∷ stop_span ∷ [] }

one_element : Run draw finished 1 last 2
unfolding start more should_continue prepare conclude call_span forced_result assert_forced
    forced_at reaches is_exactly within forced_within draw
one_element = ended (grew (begun 0 0 (some 1) none true refl) refl refl) refl refl

Run-size_example : (0 ≤ 1) × (within 1 (some 1) ≡ true) × (is_forced 1 none ≡ true)
Run-size_example = Run-size draw draw_forced one_element

Run-bounded_example : 1 ≤ 1 + max 3 (2 * 1) + 1
Run-bounded_example = Run-bounded draw draw_forced one_element refl

Run-nesting_example : nesting false last.spans ≡ some (false && true)
Run-nesting_example = Run-nesting draw one_element

-- ===== src/Many.antt =====
-- `many` of internal/conjecture/utils.py: whether to draw another element of a collection. The draws are
-- a parameter, `draw forced s`, which answers `forced` if that is given; `s` is the state of the data.
-- The probability that it is called with is floating-point arithmetic, and plays no part here.
pub mod Bounds
pub mod Nesting
pub mod Examples
use hypothesis.Common.{
  ℕ, ◌+◌, ◌-◌, ◌*◌, Bool, true, false, Option, none, some, List, [], ◌∷◌, ◌++◌, ltb, leb, max, ◌==◌,
  if◌then◌else◌,
}
use hypothesis.Common.Result.{Result, ok, raise, ◌>>=◌, ◌>>◌, check, stop_test}

pub data Span : Type 0 where
  start_span stop_span : Span

pub record Many : Type 0 where
  pub min_size : ℕ
  -- none is the infinite size
  pub max_size : Option ℕ
  pub forced_size : Option ℕ
  pub observe : Bool
  pub count : ℕ
  pub rejections : ℕ
  pub drawn : Bool
  pub force_stop : Bool
  pub rejected : Bool
  -- what was called on the data
  pub spans : List Span

-- `n <= max_size`, `n >= max_size` and `n == max_size`
unfoldable pub within : ℕ → Option ℕ → Bool
within n none = true
within n (some m) = leb n m

unfoldable pub reaches : ℕ → Option ℕ → Bool
reaches n none = false
reaches n (some m) = leb m n

unfoldable pub is_exactly : ℕ → Option ℕ → Bool
is_exactly n none = false
is_exactly n (some m) = n == m

unfoldable pub forced_within : ℕ → Option ℕ → Option ℕ → Bool
unfolding within
forced_within lo hi none = true
forced_within lo hi (some n) = if leb lo n then within n hi else false

-- `__init__`; that the average size lies between the others is what makes min_size <= max_size.
unfoldable pub start : ℕ → Option ℕ → Option ℕ → Bool → Result Many
unfolding within forced_within
start min_size max_size forced observe = do
  check (within min_size max_size)
  check (forced_within min_size max_size forced)
  ok (record {
    min_size = min_size;
    max_size = max_size;
    forced_size = forced;
    observe = observe;
    count = 0;
    rejections = 0;
    drawn = false;
    force_stop = false;
    rejected = false;
    spans = [];
  })

unfoldable pub call_span : Span → Many → Many
call_span c m = if m.observe then record m { spans = m.spans ++ c ∷ [] } else m

unfoldable pub forced_at : ℕ → Option ℕ → Option Bool
forced_at n none = none
forced_at n (some f) = some (ltb n f)

unfoldable pub assert_forced : ℕ → Option ℕ → Result (Unit {0})
assert_forced n none = ok tt
assert_forced n (some f) = check (n == f)

-- `forced_result`
unfoldable pub forced_result : Many → Result (Option Bool)
unfolding assert_forced reaches forced_at
forced_result m =
    if m.force_stop
    then (do assert_forced m.count m.forced_size; ok (some false))
    else if ltb m.count m.min_size
    then ok (some true)
    else if reaches m.count m.max_size
    then ok (some false)
    else ok (forced_at m.count m.forced_size)

-- The beginning of `more`: close the span of the last element, and open one.
unfoldable pub prepare : Many → Many
unfolding call_span
prepare m =
    let m' = if m.drawn then call_span stop_span m else m in
    call_span start_span (record m' { drawn = true; rejected = false })

module _ {ℓ} {S : Type ℓ} (draw : Option Bool → S → Bool × S) where
  -- `should_continue`
  unfoldable pub should_continue : Many → S → Result (Bool × S)
  unfolding is_exactly
  should_continue m s =
      if is_exactly m.min_size m.max_size
      then ok (ltb m.count m.min_size, s)
      else (do forced ← forced_result m; ok (draw forced s))

  -- The end of `more`: count the element, or close the span.
  unfoldable pub conclude : Many → Bool × S → Bool × Many × S
  unfolding call_span
  conclude m (true, s) = (true, record m { count = m.count + 1 }, s)
  conclude m (false, s) = (false, call_span stop_span m, s)

  -- `more`
  unfoldable pub more : Many → S → Result (Bool × Many × S)
  more m s = do c ← should_continue (prepare m) s; ok (conclude (prepare m) c)

-- `reject`, where `mark_invalid` raises
unfoldable pub reject : Many → Result Many
reject m = do
  check (ltb 0 m.count)
  let m' = record m { count = m.count - 1; rejections = m.rejections + 1; rejected = true }
  if ltb (max 3 (2 * m'.count)) m'.rejections
      then (if ltb m'.count m.min_size
          then raise stop_test
          else ok (record m' { force_stop = true }))
      else ok m'

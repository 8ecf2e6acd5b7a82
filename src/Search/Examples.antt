-- ===== src/Search/Examples.antt =====
-- Runs of the searches, and instances of the theorems about them.
use hypothesis.Common.{ℕ, ◌+◌, ◌≤◌, ◌<◌, ◌≡◌, refl, Bool, false, some, arith, leb}
use hypothesis.Search.{find_integer, linear_scan, exponential_probe, bisect}
use hypothesis.Search.Bracket.{IsProbing, find_integer_total}

-- The state counts the calls.
counting : ℕ → ℕ → Bool × ℕ
counting k s = (leb k 37, s + 1)

find_integer_runs : find_integer counting 50 0 ≡ (some 37, 12)
unfolding find_integer linear_scan exponential_probe bisect counting
find_integer_runs = refl

counting_probing : IsProbing counting (λ k _. k ≤ 37) (λ k _. 37 < k)
unfolding counting
counting_probing = record {
  hit = λ j k s h e. ground arith;
  miss = λ j k s h e. ground arith;
  keep_hit = λ j k s h e. h;
  keep_miss = λ j k s h. h;
}

counting_refuses : (k s : ℕ) → 38 ≤ k → (counting k s).0 ≡ false
unfolding counting
counting_refuses k s h = ground arith

find_integer_total_example :
    (n : ℕ) × (s : ℕ) × (find_integer counting 50 0 ≡ (some n, s)) × (n ≤ 37) × (37 < n + 1)
find_integer_total_example =
    find_integer_total counting (λ k _. k ≤ 37) (λ k _. 37 < k) counting_probing 38
      (λ _ k s _. counting_refuses k s) 50 0 (omega arith) (omega arith)

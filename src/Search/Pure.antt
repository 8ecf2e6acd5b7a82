-- ===== src/Search/Pure.antt =====
-- The searches with a predicate that has no state.
use hypothesis.Common.{
  ℕ, zero, suc, ◌+◌, ◌/◌, ◌≤◌, ◌<◌, ◌≡◌, refl, Bool, true, false, some, arith, not,
}
use hypothesis.Search.{find_integer, binary_search, binary_search_loop}
use hypothesis.Search.Bracket.{find_integer_total}

binary_search_loop_lem :
    (f : ℕ → Bool) (b : Bool) (fuel lo hi : ℕ)
    → lo < hi
    → hi ≤ lo + fuel
    → f lo ≡ b
    → f hi ≡ not b
    → (lo ≤ binary_search_loop f b fuel lo hi)
      × (binary_search_loop f b fuel lo hi < hi)
      × (f (binary_search_loop f b fuel lo hi) ≡ b)
      × (f (binary_search_loop f b fuel lo hi + 1) ≡ not b)
unfolding binary_search_loop
binary_search_loop_lem f b zero lo hi h e p q = absurd (omega arith)
binary_search_loop_lem f b (suc fuel) lo hi h e p q = ground (
  arith,
  binary_search_loop_lem f b fuel ((lo + hi) / 2) hi,
  binary_search_loop_lem f b fuel lo ((lo + hi) / 2),
)

-- In a range whose ends differ, `binary_search` finds a number of the range, below the upper end, at
-- which `f` is as at the lower end, and after which it is not. `f` need not be monotone.
pub binary_search_lem :
    (lo hi : ℕ) (f : ℕ → Bool)
    → lo < hi
    → f hi ≡ not (f lo)
    → (lo ≤ binary_search lo hi f)
      × (binary_search lo hi f < hi)
      × (f (binary_search lo hi f) ≡ f lo)
      × (f (binary_search lo hi f + 1) ≡ not (f lo))
unfolding binary_search
binary_search_lem lo hi f h e = binary_search_loop_lem f (f lo) hi lo hi h (omega arith) refl e

-- For a predicate with no state that holds of 0 and of no number from `bound` on, `find_integer`
-- returns a number of which it holds, and of whose successor it does not.
pub find_integer_pure :
    (f : ℕ → Bool) (bound fuel : ℕ)
    → f 0 ≡ true
    → ((k : ℕ) → bound ≤ k → f k ≡ false)
    → bound < fuel
    → (n : ℕ) × (s : Unit {0}) × (find_integer (λ k s. (f k, s)) fuel tt ≡ (some n, s))
      × (f n ≡ true)
      × (f (n + 1) ≡ false)
find_integer_pure f bound fuel z refuses h =
    find_integer_total (λ k s. (f k, s)) (λ k _. f k ≡ true) (λ k _. f k ≡ false)
      (record {
        hit = λ _ _ _ _ e. e;
        miss = λ _ _ _ _ e. e;
        keep_hit = λ _ _ _ e _. e;
        keep_miss = λ _ _ _ e. e;
      })
      bound (λ _ k _ _. refuses k) fuel tt z h

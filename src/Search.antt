-- ===== src/Search.antt =====
-- `find_integer` and `binary_search` of internal/conjecture/junkdrawer.py.
-- The predicate may change a state that it shares with its caller, as the shrinkers' does.
pub mod Bracket
pub mod Pure
pub mod Keeping
pub mod Examples
use hypothesis.Common.{
  ℕ, zero, suc, ◌+◌, ◌-◌, ◌*◌, ◌/◌, Bool, true, false, Option, none, some, ltb, bool_eq,
}

-- A predicate on numbers that is asked in a state, and leaves another one.
abbrev pub Probe {ℓ} : Type ℓ → Type ℓ
Probe S = ℕ → S → Bool × S

module _ {ℓ} {S : Type ℓ} (f : Probe S) where
  -- for i in range(i, i + rounds): if not f(i): return i - 1
  pub linear_scan : ℕ → ℕ → S → Option ℕ × S
  linear_scan zero i s = (none, s)
  linear_scan (suc rounds) i s =
      let (b, s') = f i s in
      elim b [ true ↦ linear_scan rounds (i + 1) s' | false ↦ (some (i - 1), s') ]

  -- while f(hi): lo = hi; hi *= 2
  pub exponential_probe : ℕ → ℕ → ℕ → S → Option (ℕ × ℕ) × S
  exponential_probe zero lo hi s = (none, s)
  exponential_probe (suc fuel) lo hi s =
      let (b, s') = f hi s in
      elim b [ true ↦ exponential_probe fuel hi (hi * 2) s' | false ↦ (some (lo, hi), s') ]

  -- while lo + 1 < hi: mid = (lo + hi) // 2; ...
  pub bisect : ℕ → ℕ → ℕ → S → ℕ × S
  bisect zero lo hi s = (lo, s)
  bisect (suc fuel) lo hi s = elim (ltb (lo + 1) hi) [
    | true ↦
        let (b, s') = f ((lo + hi) / 2) s in
        elim b [
          | true ↦ bisect fuel ((lo + hi) / 2) hi s'
          | false ↦ bisect fuel lo ((lo + hi) / 2) s'
        ]
    | false ↦ (lo, s)
  ]

  -- Now binary search until lo + 1 = hi, for which `hi` rounds are enough.
  pub after_probe : Option (ℕ × ℕ) × S → Option ℕ × S
  after_probe (none, s) = (none, s)
  after_probe (some (lo, hi), s) = let (n, s') = bisect hi lo hi s in (some n, s')

  pub after_scan : ℕ → Option ℕ × S → Option ℕ × S
  after_scan fuel (some n, s) = (some n, s)
  after_scan fuel (none, s) = after_probe (exponential_probe fuel 4 5 s)

  -- The fuel is for the upwards probe alone, which need not end; without fuel the result is `none`.
  unfoldable pub find_integer : ℕ → S → Option ℕ × S
  unfolding after_probe after_scan
  find_integer fuel s = after_scan fuel (linear_scan 4 1 s)

-- The loop of `binary_search`, which compares with the value at the first `lo`.
binary_search_loop : (ℕ → Bool) → Bool → ℕ → ℕ → ℕ → ℕ
binary_search_loop f reference zero lo hi = lo
binary_search_loop f reference (suc fuel) lo hi =
    let mid = (lo + hi) / 2 in
    elim (ltb (lo + 1) hi) [
      | true ↦ elim (bool_eq (f mid) reference) [
        | true ↦ binary_search_loop f reference fuel mid hi
        | false ↦ binary_search_loop f reference fuel lo mid
      ]
      | false ↦ lo
    ]

pub binary_search : ℕ → ℕ → (ℕ → Bool) → ℕ
unfolding binary_search_loop
binary_search lo hi f = binary_search_loop f (f lo) hi lo hi

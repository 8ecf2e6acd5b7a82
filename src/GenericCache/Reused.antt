-- ===== src/GenericCache/Reused.antt =====
-- `LRUReusedCache`: entries that were never read after they were stored go first, then those that were
-- used least recently.
use hypothesis.Common.{
  ℕ, ◌+◌, ◌≤◌, ◌<◌, ◌≡◌, ◌⊎◌, Bool, false, none, some, ◌&&◌, ◌||◌, arith, ltb, ◌==◌,
}
use hypothesis.Common.Keys.{KeyEquality}
use hypothesis.Common.Result.{ok}
use hypothesis.GenericCache.{Entry, Cache, Scoring, entry_less}
use hypothesis.GenericCache.Heap.{IsWeakOrder}
use hypothesis.GenericCache.Index.{contents}
use hypothesis.GenericCache.Operations.{set_item}
use hypothesis.GenericCache.Runs.{Run, Run-IsValid}
use hypothesis.GenericCache.Policy.{evicts-IsLeast}

-- The order of pairs
unfoldable pub pair_less : ℕ × ℕ → ℕ × ℕ → Bool
pair_less a b = ltb a.0 b.0 || (a.0 == b.0 && ltb a.1 b.1)

unfoldable pub pair_same : ℕ × ℕ → ℕ × ℕ → Bool
pair_same a b = a.0 == b.0 && a.1 == b.1

-- `tick`: what it returns, and what it leaves
abbrev tick : ℕ → ℕ × ℕ
tick t = (t + 1, t + 1)

-- The methods of the subclass: the state is the tick.
abbrev pub lru_reused : {K V : Type 0} → Scoring K V (ℕ × ℕ) ℕ
lru_reused = record {
  new_entry = λ k v t. let (now, t') = tick t in ((1, now), t');
  on_access = λ k v score t. let (now, t') = tick t in ((2, now), t');
  on_evict = λ k v score t. t;
  less = pair_less;
  same = pair_same;
}

pub pair_less-IsWeakOrder : IsWeakOrder pair_less
unfolding pair_less
pair_less-IsWeakOrder = record {
  asymmetric = λ a b h. ground arith;
  negative = λ a b c h g. ground arith;
}

module _ {K V : Type 0} (keys : KeyEquality K) where
  -- After any calls of a new cache, an entry that a store removes is not pinned, and of every entry of the
  -- cache, this one is pinned, or its score has a greater first component, or the same first component
  -- and a second one that is not smaller.
  pub evicts-least :
      (n : ℕ) (k : K) (w : V) (c c' : Cache K V (ℕ × ℕ) ℕ) (j i : K) (f g : Entry K V (ℕ × ℕ))
      → Run keys lru_reused n 0 c
      → set_item keys lru_reused k w c ≡ ok c'
      → contents keys lru_reused c j ≡ some f
      → contents keys lru_reused c' j ≡ none
      → contents keys lru_reused c i ≡ some g
      → (f.pins ≡ 0)
        × ((0 < g.pins)
            ⊎ (f.score.0 < g.score.0)
            ⊎ ((f.score.0 ≡ g.score.0) × (f.score.1 ≤ g.score.1)))
  unfolding entry_less pair_less
  evicts-least n k w c c' j i f g r h at gone there =
      let (v, m) = Run-IsValid keys lru_reused pair_less-IsWeakOrder n 0 c r in
      let (p, l) = evicts-IsLeast keys lru_reused pair_less-IsWeakOrder k w c c' j f v h at gone in
      let b : entry_less keys lru_reused g f ≡ false = l.least i g there in (p, ground arith)

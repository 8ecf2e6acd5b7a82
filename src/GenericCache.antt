-- ===== src/GenericCache.antt =====
-- `GenericCache` and `LRUReusedCache` of internal/cache.py: entries in a binary heap by score, with a
-- dictionary from keys to their indices in it, which are kept in step. The caches of the other threads
-- are other values. `X` is the state of the subclass.
pub mod Heap
pub mod Index
pub mod Exchange
pub mod Edges
pub mod Rise
pub mod Children
pub mod Balance
pub mod Operations
pub mod Replace
pub mod Access
pub mod Methods
pub mod Append
pub mod Evict
pub mod Full
pub mod Insert
pub mod Store
pub mod Check
pub mod Runs
pub mod Pins
pub mod Extra
pub mod Policy
pub mod Reused
pub mod Usage
pub mod Uses
pub mod Unused
pub mod Examples
use hypothesis.Common.{
  ℕ, zero, suc, ◌+◌, ◌-◌, ◌*◌, ◌/◌, Bool, true, false, not, ◌&&◌, ◌||◌, Option, none, some, List,
  [], ◌∷◌, ◌++◌, ltb, leb, ◌==◌, if◌then◌else◌, length, get_elem?, set,
}
use hypothesis.Common.Keys.{KeyEquality}
use hypothesis.Common.Dict.{get, put, del}
use hypothesis.Common.Result.{
  Result, ok, raise, ◌>>=◌, ◌>>◌, check, of_option, index_error, key_error, value_error,
  invalid_argument,
}

pub record Entry {ℓ} (K V S : Type ℓ) : Type ℓ where
  pub key : K
  pub value : V
  pub score : S
  pub pins : ℕ

pub record Cache {ℓ} (K V S X : Type ℓ) : Type ℓ where
  pub max_size : ℕ
  -- `data`
  pub entries : List (Entry K V S)
  pub keys_to_indices : List (K × ℕ)
  pub extra : X

-- What a subclass gives, with `<` and `==` of its scores.
pub record Scoring {ℓ} (K V S X : Type ℓ) : Type ℓ where
  pub new_entry : K → V → X → S × X
  pub on_access : K → V → S → X → S × X
  pub on_evict : K → V → S → X → X
  pub less : S → S → Bool
  pub same : S → S → Bool

-- The index of the parent, for an index above 0.
abbrev pub parent : ℕ → ℕ
parent i = (i - 1) / 2

module _ {ℓ} {K V S X : Type ℓ} where
  -- `__init__`
  unfoldable pub make : ℕ → X → Result (Cache K V S X)
  make max_size x =
      if max_size == 0
      then raise invalid_argument
      else ok (record { max_size = max_size; entries = []; keys_to_indices = []; extra = x })

  -- `__len__`
  unfoldable pub size : Cache K V S X → Result ℕ
  size c = do check (length c.keys_to_indices == length c.entries); ok (length c.entries)

  -- `clear`
  unfoldable pub clear : Cache K V S X → Cache K V S X
  clear c = record c { entries = []; keys_to_indices = [] }

  -- `self.data[i]`
  unfoldable pub entry_at : ℕ → Cache K V S X → Result (Entry K V S)
  entry_at i c = of_option index_error (get_elem? c.entries i)

module _ {ℓ} {K V S X : Type ℓ} (keys : KeyEquality K) (scoring : Scoring K V S X) where
  -- `a.sort_key < b.sort_key`: pinned entries sort after unpinned ones, and are equal.
  unfoldable pub entry_less : Entry K V S → Entry K V S → Bool
  entry_less a b =
      if a.pins == 0 then (if b.pins == 0 then scoring.less a.score b.score else true) else false

  -- `__out_of_order`
  unfoldable pub out_of_order : ℕ → ℕ → Cache K V S X → Result Bool
  unfolding entry_at entry_less
  out_of_order i j c = do
    check (ltb 0 j && (i == parent j))
    y ← entry_at j c
    x ← entry_at i c
    ok (entry_less y x)

  -- `__swap`
  unfoldable pub swap : ℕ → ℕ → Cache K V S X → Result (Cache K V S X)
  unfolding entry_at entry_less
  swap i j c = do
    check (ltb i j)
    y ← entry_at j c
    x ← entry_at i c
    check (entry_less y x)
    ok (record c {
      entries = set (set c.entries i y) j x;
      keys_to_indices = put keys x.key j (put keys y.key i c.keys_to_indices);
    })

  -- Bubble up: the index where this ends, and the cache. From `i`, `i` rounds are enough.
  pub bubble_up : ℕ → ℕ → Cache K V S X → Result (ℕ × Cache K V S X)
  bubble_up zero i c = ok (i, c)
  bubble_up (suc fuel) i c =
      if i == 0
      then ok (i, c)
      else (out_of_order (parent i) i c >>= (λ above. elim above [
        | true ↦ swap (parent i) i c >>= (λ c'. bubble_up fuel (parent i) c')
        | false ↦ ok (i, c)
      ]))

  -- [j for j in (2 * i + 1, 2 * i + 2) if j < n]
  unfoldable pub children : ℕ → ℕ → List ℕ
  children i n =
      if ltb (2 * i + 2) n
      then (2 * i + 1) ∷ (2 * i + 2) ∷ []
      else if ltb (2 * i + 1) n
      then (2 * i + 1) ∷ []
      else []

  -- `min` by the sort keys: the first of the smallest
  pub smallest : Cache K V S X → ℕ → List ℕ → Result ℕ
  smallest c j [] = ok j
  smallest c j (k ∷ ks) = do
    x ← entry_at j c
    y ← entry_at k c
    smallest c (if entry_less y x then k else j) ks

  -- Bubble down. From any index, as many rounds as there are entries are enough.
  pub bubble_down : ℕ → ℕ → Cache K V S X → Result (Cache K V S X)
  bubble_down zero i c = ok c
  bubble_down (suc fuel) i c = elim (children i (length c.entries)) [
    | [] ↦ ok c
    | (j ∷ js) ↦ smallest c j js >>= (λ child. out_of_order i child c >>= (λ below. elim below [
      | true ↦ swap i child c >>= (λ c'. bubble_down fuel child c')
      | false ↦ ok c
    ]))
  ]

  -- `__balance`
  unfoldable pub balance : ℕ → Cache K V S X → Result (Cache K V S X)
  unfolding bubble_up bubble_down
  balance i c = do r ← bubble_up i i c; bubble_down (length c.entries) r.0 r.1

  -- `__entry_was_accessed`: a new score of a pinned entry cannot unbalance the heap.
  unfoldable pub entry_was_accessed : ℕ → Cache K V S X → Result (Cache K V S X)
  unfolding balance entry_at
  entry_was_accessed i c = do
    e ← entry_at i c
    let (new_score, x) = scoring.on_access e.key e.value e.score c.extra
    let c' = record c { extra = x }
    let c'' = record c' { entries = set c.entries i (record e { score = new_score }) }
    if scoring.same new_score e.score then ok c' else if e.pins == 0 then balance i c'' else ok c''

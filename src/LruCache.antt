-- ===== src/LruCache.antt =====
-- `LRUCache` of internal/cache.py: an OrderedDict, here the list of its entries from the oldest on. The
-- caches of the other threads are other values. Equality of keys is a parameter.
pub mod Entries
pub mod Recency
pub mod Examples
use hypothesis.Common.{
  ℕ, ◌+◌, ◌≡◌, Bool, true, false, Option, none, some, List, [], ◌∷◌, ◌++◌, ltb, if◌then◌else◌,
  length,
}
use hypothesis.Common.Keys.{KeyEquality}
use hypothesis.Common.Result.{Result, ok, raise, ◌>>=◌, ◌>>◌, check, key_error}

pub record LruCache {ℓ} (K V : Type ℓ) : Type ℓ where
  pub max_size : ℕ
  pub cache : List (K × V)

module _ {ℓ} {K V : Type ℓ} where
  -- `__init__`
  unfoldable pub make : ℕ → Result (LruCache K V)
  make max_size = do check (ltb 0 max_size); ok (record { max_size = max_size; cache = [] })

  -- while len(self.cache) > self.max_size: self.cache.popitem(last=False)
  unfoldable pub trim : ℕ → List (K × V) → List (K × V)
  trim max_size [] = []
  trim max_size (e ∷ es) =
      let rest = trim max_size es in if ltb max_size (length (e ∷ es)) then rest else e ∷ es

module _ {ℓ} {K V : Type ℓ} (keys : KeyEquality K) where
  unfoldable pub lookup : K → List (K × V) → Option V
  lookup k [] = none
  lookup k ((j, w) ∷ es) = if keys.eq k j then some w else lookup k es

  -- self.cache[key] = value, which keeps the place of a key that is there
  unfoldable pub write : K → V → List (K × V) → List (K × V)
  write k v [] = (k, v) ∷ []
  write k v ((j, w) ∷ es) =
      let rest = write k v es in if keys.eq k j then (j, v) ∷ es else (j, w) ∷ rest

  unfoldable pub remove : K → List (K × V) → List (K × V)
  remove k [] = []
  remove k ((j, w) ∷ es) = let rest = remove k es in if keys.eq k j then rest else (j, w) ∷ rest

  -- self.cache.move_to_end(key)
  unfoldable pub move_to_end : K → List (K × V) → Result (List (K × V))
  move_to_end k es = elim (lookup k es) [
    | none ↦ raise key_error
    | some v ↦ ok (remove k es ++ (k, v) ∷ [])
  ]

  -- `__setitem__`
  unfoldable pub set_item : K → V → LruCache K V → Result (LruCache K V)
  set_item k v c = do
    es ← move_to_end k (write k v c.cache)
    ok (record c { cache = trim c.max_size es })

  -- `__getitem__`: the value, and the cache that it leaves
  unfoldable pub get_item : K → LruCache K V → Result (V × LruCache K V)
  get_item k c = elim (lookup k c.cache) [
    | none ↦ raise key_error
    | some v ↦ do es ← move_to_end k c.cache; ok (v, record c { cache = es })
  ]

  -- `__contains__`
  unfoldable pub contains : K → LruCache K V → Bool
  contains k c = elim (lookup k c.cache) [ none ↦ false | some v ↦ true ]

module _ {ℓ} {K V : Type ℓ} where
  -- `__len__`
  unfoldable pub size : LruCache K V → ℕ
  size c = length c.cache

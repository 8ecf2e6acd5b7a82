-- ===== src/LruCache/Examples.antt =====
-- Instances of the theorems on `LRUCache`, at a full cache of two entries.
use hypothesis.Common.{ℕ, ◌≡◌, ◌≢◌, ◌⊎◌, refl, none, some, [], ◌∷◌, ◌++◌, arith, ◌==◌, length, drop}
use hypothesis.Common.Keys.{KeyEquality}
use hypothesis.Common.Result.{ok}
use hypothesis.LruCache.{LruCache, lookup, remove, set_item}
use hypothesis.LruCache.Recency.{IsValid, set_item-lookup}

abbrev numbers : KeyEquality ℕ
numbers = record { eq = λ a b. a == b; eq_iff = λ a b. (λ e. ground arith, λ e. ground arith) }

abbrev full : LruCache ℕ ℕ
full = record { max_size = 2; cache = (1, 10) ∷ (2, 20) ∷ [] }

full-IsValid : IsValid numbers full
unfolding lookup
full-IsValid = record { positive = omega arith; bounded = omega arith; unique = (refl, (refl, tt)) }

set_item-lookup_example :
    (c' : LruCache ℕ ℕ) × (set_item numbers 3 30 full ≡ ok c')
    × IsValid numbers c'
    × (lookup numbers 3 c'.cache ≡ some 30)
    × (((c'.cache ≡ remove numbers 3 full.cache ++ (3, 30) ∷ [])
          × ((j : ℕ) → j ≢ 3 → lookup numbers j c'.cache ≡ lookup numbers j full.cache))
        ⊎ ((lookup numbers 3 full.cache ≡ none)
            × (length full.cache ≡ 2)
            × (c'.cache ≡ drop 1 full.cache ++ (3, 30) ∷ [])))
set_item-lookup_example = set_item-lookup numbers 3 30 full full-IsValid

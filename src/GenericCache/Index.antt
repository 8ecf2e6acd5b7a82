-- ===== src/GenericCache/Index.antt =====
-- The order of entries, and the dictionary of indices in step with the array.
use hypothesis.Common.{
  ℕ, ◌<◌, ◌≡◌, refl, inl, inr, Bool, true, false, Option, none, some, List, arith, ◌==◌,
  if◌then◌else◌, length, get_elem?, set, Bool-cases, get_elem?-set_self, get_elem?-set_ne,
}
use hypothesis.Common.Keys.{KeyEquality}
use hypothesis.Common.Dict.{get, IsUnique}
use hypothesis.GenericCache.{Entry, Cache, Scoring, entry_less}
use hypothesis.GenericCache.Heap.{IsWeakOrder}

pub get_elem?-set {ℓ} :
    {A : Type ℓ} (l : List A) (i k : ℕ) (v : A)
    → i < length l
    → get_elem? (set l i v) k ≡ (if k == i then some v else get_elem? l k)
get_elem?-set l i k v h = elim (Bool-cases (k == i)) [
  | inl e ↦ let q : k ≡ i = ground arith in rw (e, q) (get_elem?-set_self l i v h)
  | inr e ↦ rw e (get_elem?-set_ne l v (ground arith))
]

module _ {ℓ} {K V S X : Type ℓ} (keys : KeyEquality K) (scoring : Scoring K V S X) where
  -- What is not there counts as largest.
  unfoldable pub below : Option (Entry K V S) → Option (Entry K V S) → Bool
  below none b = false
  below (some a) none = true
  below (some a) (some b) = entry_less keys scoring a b

  below_asymmetric :
      IsWeakOrder scoring.less → (a b : Option (Entry K V S)) → below a b ≡ true → below b a ≡ false
  unfolding below entry_less
  below_asymmetric h none b e = cc
  below_asymmetric h (some a) none e = refl
  below_asymmetric h (some a) (some b) e = let i = h.asymmetric a.score b.score in ground arith

  below_negative :
      IsWeakOrder scoring.less
      → (a b c : Option (Entry K V S)) → below a b ≡ false
      → below b c ≡ false
      → below a c ≡ false
  unfolding below entry_less
  below_negative h none b c e g = refl
  below_negative h (some a) none c e g = cc
  below_negative h (some a) (some b) none e g = cc
  below_negative h (some a) (some b) (some c) e g =
      let i = h.negative a.score b.score c.score in ground arith

  pub below-IsWeakOrder : IsWeakOrder scoring.less → IsWeakOrder below
  below-IsWeakOrder h = record { asymmetric = below_asymmetric h; negative = below_negative h }

  -- What `self.data` has for a key.
  unfoldable pub contents : Cache K V S X → K → Option (Entry K V S)
  contents c k = elim (get keys k c.keys_to_indices) [
    | none ↦ none
    | some i ↦ get_elem? c.entries i
  ]

  pub contents_at :
      (c : Cache K V S X) (k : K) (i : ℕ)
      → get keys k c.keys_to_indices ≡ some i
      → contents c k ≡ get_elem? c.entries i
  unfolding contents
  contents_at c k i h = rw (h, contents) refl

  pub contents_missing :
      (c : Cache K V S X) (k : K) → get keys k c.keys_to_indices ≡ none → contents c k ≡ none
  unfolding contents
  contents_missing c k h = rw (h, contents) refl

  -- Every entry is at the index of its key, and every key has an entry.
  pub record IsSynced (c : Cache K V S X) : Type ℓ where
    pub index :
        (i : ℕ) (e : Entry K V S)
        → get_elem? c.entries i ≡ some e
        → get keys e.key c.keys_to_indices ≡ some i
    pub entry :
        (k : K) (i : ℕ)
        → get keys k c.keys_to_indices ≡ some i
        → (e : Entry K V S) × (get_elem? c.entries i ≡ some e) × (e.key ≡ k)
    pub sized : length c.keys_to_indices ≡ length c.entries
    pub unique : IsUnique keys c.keys_to_indices

  -- The same entries for all keys, and nothing else changed.
  pub record IsRearranged (c c' : Cache K V S X) : Type ℓ where
    pub same_contents : (k : K) → contents c' k ≡ contents c k
    pub same_max_size : c'.max_size ≡ c.max_size
    pub same_extra : c'.extra ≡ c.extra
    pub same_length : length c'.entries ≡ length c.entries

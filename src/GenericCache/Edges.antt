-- ===== src/GenericCache/Edges.antt =====
-- One edge of the heap: comparing its ends, and exchanging them.
use hypothesis.Common.{
  ℕ, zero, suc, ◌≤◌, ◌<◌, ◌≡◌, refl, ◌∙◌, true, false, Option, none, some, List, [], ◌∷◌, arith,
  ◌==◌, length, get_elem?, lt→ltb,
}
use hypothesis.Common.Keys.{KeyEquality}
use hypothesis.Common.Result.{ok}
use hypothesis.GenericCache.{
  Entry, Cache, Scoring, entry_at, entry_less, out_of_order, swap, parent,
}
use hypothesis.GenericCache.Heap.{IsWeakOrder, IsHeap, IsHeapBut, swapped}
use hypothesis.GenericCache.Index.{below, below-IsWeakOrder, IsSynced, IsRearranged}
use hypothesis.GenericCache.Exchange.{
  exchanged, swap_exchanges, exchanged_at, exchanged-IsSynced, exchanged-IsRearranged,
}

pub element {ℓ} :
    {A : Type ℓ} (l : List A) (i : ℕ) → i < length l → (x : A) × (get_elem? l i ≡ some x)
element [] i h = absurd (omega arith)
element (x ∷ l) zero h = (x, refl)
element (x ∷ l) (suc i) h = element l i (omega arith)

pub inside {ℓ} : {A : Type ℓ} (l : List A) (i : ℕ) (x : A) → get_elem? l i ≡ some x → i < length l
inside [] i x h = cc
inside (y ∷ l) zero x h = omega arith
inside (y ∷ l) (suc i) x h = let r = inside l i x h in omega arith

pub outside {ℓ} : {A : Type ℓ} (l : List A) (i : ℕ) → length l ≤ i → get_elem? l i ≡ none
outside [] i h = refl
outside (y ∷ l) zero h = absurd (omega arith)
outside (y ∷ l) (suc i) h = outside l i (omega arith)

module _ {ℓ} {K V S X : Type ℓ} (keys : KeyEquality K) (scoring : Scoring K V S X)
    (order : IsWeakOrder scoring.less) where
  abbrev pub ordered : IsWeakOrder (below keys scoring)
  ordered = below-IsWeakOrder keys scoring order

  abbrev pub IsOrdered : Cache K V S X → Type 0
  IsOrdered c = IsHeap (below keys scoring) ordered (get_elem? c.entries)

  abbrev pub IsOrderedBut : Cache K V S X → ℕ → Type 0
  IsOrderedBut c i = IsHeapBut (below keys scoring) ordered (get_elem? c.entries) i

  -- The entry at `i` is in order with its parent.
  abbrev pub IsBelowParent : Cache K V S X → ℕ → Type 0
  IsBelowParent c i =
      0 < i → below keys scoring (get_elem? c.entries i) (get_elem? c.entries (parent i)) ≡ false

  pub IsRearranged-refl : (c : Cache K V S X) → IsRearranged keys scoring c c
  IsRearranged-refl c = record {
    same_contents = λ _. refl;
    same_max_size = refl;
    same_extra = refl;
    same_length = refl;
  }

  pub IsRearranged-trans :
      (a b c : Cache K V S X)
      → IsRearranged keys scoring a b
      → IsRearranged keys scoring b c
      → IsRearranged keys scoring a c
  IsRearranged-trans a b c h k = record {
    same_contents = λ j. k.same_contents j ∙ h.same_contents j;
    same_max_size = k.same_max_size ∙ h.same_max_size;
    same_extra = k.same_extra ∙ h.same_extra;
    same_length = k.same_length ∙ h.same_length;
  }

  pub IsHeapBut-ext :
      (f g : ℕ → Option (Entry K V S)) (i : ℕ)
      → ((k : ℕ) → g k ≡ f k)
      → IsHeapBut (below keys scoring) ordered f i
      → IsHeapBut (below keys scoring) ordered g i
  IsHeapBut-ext f g i e h = record {
    edge = λ c p n m. rw (e c, e (parent c)) (h.edge c p n m);
    bridge = λ c p q r. rw (e c, e (parent i)) (h.bridge c p q r);
  }

  -- What is known of the entries `i` and `j`, of which `j` is a child of `i`.
  pub record IsEdge (c : Cache K V S X) (i j : ℕ) (x y : Entry K V S) : Type ℓ where
    pub positive : 0 < j
    pub child : parent j ≡ i
    pub at_i : get_elem? c.entries i ≡ some x
    pub at_j : get_elem? c.entries j ≡ some y

  pub find-IsEdge :
      (c : Cache K V S X) (i j : ℕ)
      → 0 < j
      → parent j ≡ i
      → j < length c.entries
      → (x : Entry K V S) × (y : Entry K V S) × IsEdge c i j x y
  find-IsEdge c i j p q h =
      let (x, at_i) = element c.entries i (omega arith) in
      let (y, at_j) = element c.entries j h in
      (x, y, record { positive = p; child = q; at_i = at_i; at_j = at_j })

  module _ (c : Cache K V S X) (i j : ℕ) (x y : Entry K V S) (h : IsEdge c i j x y) where
    pub out_of_order_edge : out_of_order keys scoring i j c ≡ ok (entry_less keys scoring y x)
    unfolding out_of_order entry_at
    out_of_order_edge =
        let same : (i == parent j) ≡ true = let q = h.child in ground arith in
        rw (lt→ltb 0 j h.positive, same, h.at_i, h.at_j) refl

    pub below_edge :
        below keys scoring (get_elem? c.entries j) (get_elem? c.entries i)
        ≡ entry_less keys scoring y x
    unfolding below
    below_edge = rw (h.at_i, h.at_j) refl

    pub swap_edge :
        IsSynced keys scoring c
        → entry_less keys scoring y x ≡ true
        → (c' : Cache K V S X) × (swap keys scoring i j c ≡ ok c')
          × IsSynced keys scoring c'
          × IsRearranged keys scoring c c'
          × ((k : ℕ) → get_elem? c'.entries k ≡ swapped (get_elem? c.entries) i j k)
    swap_edge s b =
        let lt : i < j = let q = h.child in let p = h.positive in omega arith in
        let in_i = inside c.entries i x h.at_i in
        let in_j = inside c.entries j y h.at_j in
        (
          exchanged keys scoring i j x y c,
          swap_exchanges keys scoring i j x y c lt h.at_i h.at_j in_i in_j b,
          exchanged-IsSynced keys scoring i j x y c lt h.at_i h.at_j in_i in_j s,
          exchanged-IsRearranged keys scoring i j x y c lt h.at_i h.at_j in_i in_j s,
          exchanged_at keys scoring i j x y c lt h.at_i h.at_j in_i in_j,
        )

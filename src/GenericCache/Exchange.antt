-- ===== src/GenericCache/Exchange.antt =====
-- Exchanging two entries, with their indices.
use hypothesis.Common.{
  ℕ, ◌<◌, ◌≡◌, ◌≢◌, refl, sym, ap, ◌∙◌, inl, inr, true, false, some, arith, ◌==◌, if◌then◌else◌,
  length, get_elem?, set, Bool-cases, Option-cases, length-set, lt→ltb,
}
use hypothesis.Common.Keys.{KeyEquality, eq_ne, eq_refl}
use hypothesis.Common.Dict.{get, put, get-put, put-IsUnique, length-put_old}
use hypothesis.Common.Result.{ok}
use hypothesis.GenericCache.{Entry, Cache, Scoring, entry_at, entry_less, swap}
use hypothesis.GenericCache.Heap.{swapped, swapped_left, swapped_right, swapped_other}
use hypothesis.GenericCache.Index.{
  get_elem?-set, contents, contents_at, contents_missing, IsSynced, IsRearranged,
}

module _ {ℓ} {K V S X : Type ℓ} (keys : KeyEquality K) (scoring : Scoring K V S X) where
  -- The cache after the entries `x` at `i` and `y` at `j` are exchanged.
  unfoldable pub exchanged : ℕ → ℕ → Entry K V S → Entry K V S → Cache K V S X → Cache K V S X
  exchanged i j x y c = record c {
    entries = set (set c.entries i y) j x;
    keys_to_indices = put keys x.key j (put keys y.key i c.keys_to_indices);
  }

  module _ (i j : ℕ) (x y : Entry K V S) (c : Cache K V S X) (lt : i < j)
      (at_i : get_elem? c.entries i ≡ some x) (at_j : get_elem? c.entries j ≡ some y)
      (in_i : i < length c.entries) (in_j : j < length c.entries) where
    pub swap_exchanges :
        entry_less keys scoring y x ≡ true → swap keys scoring i j c ≡ ok (exchanged i j x y c)
    unfolding swap entry_at exchanged
    swap_exchanges b = rw (at_i, at_j, b, lt→ltb i j lt) refl

    pub exchanged_at :
        (k : ℕ) → get_elem? (exchanged i j x y c).entries k ≡ swapped (get_elem? c.entries) i j k
    unfolding exchanged
    exchanged_at k =
        get_elem?-set (set c.entries i y) j k x (rw (length-set c.entries i y) in_j)
        ∙ ap (λ r. if k == j then some x else r) (get_elem?-set c.entries i k y in_i)
        ∙ rw (at_i, at_j) (ground arith)

    same_entry : (e : Entry K V S) (f : Entry K V S) → some e ≡ some f → e ≡ f
    same_entry e f h = cc

    exchanged_get :
        (k : K)
        → get keys k (exchanged i j x y c).keys_to_indices ≡ (
            if keys.eq k x.key
            then some j
            else if keys.eq k y.key
            then some i
            else get keys k c.keys_to_indices)
    unfolding exchanged
    exchanged_get k =
        get-put keys k x.key j (put keys y.key i c.keys_to_indices)
        ∙ ap (λ r. if keys.eq k x.key then some j else r) (get-put keys k y.key i c.keys_to_indices)

    module _ (s : IsSynced keys scoring c) where
      index_x : get keys x.key c.keys_to_indices ≡ some i
      index_x = s.index i x at_i

      index_y : get keys y.key c.keys_to_indices ≡ some j
      index_y = s.index j y at_j

      keys_differ : keys.eq y.key x.key ≡ false
      keys_differ = eq_ne keys y.key x.key (λ e.
          let a = index_x in
          let b : get keys x.key c.keys_to_indices ≡ some j = rw (← e) index_y in ground arith)

      exchanged_index :
          (k : ℕ) (e : Entry K V S)
          → swapped (get_elem? c.entries) i j k ≡ some e
          → get keys e.key (exchanged i j x y c).keys_to_indices ≡ some k
      exchanged_index k e h = elim (Bool-cases (k == i)) [
        | inl a ↦
            let k_i : k ≡ i = ground arith in
            let e_y : y ≡ e = same_entry y e (sym at_j ∙ (rw a at h)) in
            exchanged_get e.key ∙ rw (← e_y, keys_differ, eq_refl keys y.key) (ap some (sym k_i))
        | inr a ↦ elim (Bool-cases (k == j)) [
          | inl b ↦
              let k_j : k ≡ j = ground arith in
              let e_x : x ≡ e = same_entry x e (sym at_i ∙ (rw (a, b) at h)) in
              exchanged_get e.key ∙ rw (← e_x, eq_refl keys x.key) (ap some (sym k_j))
          | inr b ↦
              let there = s.index k e (rw (a, b) at h) in
              let not_x = eq_ne keys e.key x.key (λ q.
                let r : get keys e.key c.keys_to_indices ≡ some i = rw q index_x in ground arith) in
              let not_y = eq_ne keys e.key y.key (λ q.
                let r : get keys e.key c.keys_to_indices ≡ some j = rw q index_y in ground arith) in
              exchanged_get e.key ∙ rw (not_x, not_y) there
        ]
      ]

      exchanged_entry :
          (k : K) (m : ℕ)
          → get keys k (exchanged i j x y c).keys_to_indices ≡ some m
          → (e : Entry K V S) × (swapped (get_elem? c.entries) i j m ≡ some e) × (e.key ≡ k)
      exchanged_entry k m h =
          let h' = sym (exchanged_get k) ∙ h in
          elim (Bool-cases (keys.eq k x.key)) [
            | inl a ↦
                let m_j : m ≡ j = ground arith in
                (
                  x,
                  rw m_j (swapped_right (get_elem? c.entries) i j ∙ at_i),
                  sym ((keys.eq_iff k x.key).0 a),
                )
            | inr a ↦ elim (Bool-cases (keys.eq k y.key)) [
              | inl b ↦
                  let m_i : m ≡ i = ground arith in
                  (
                    y,
                    rw m_i (swapped_left (get_elem? c.entries) i j ∙ at_j),
                    sym ((keys.eq_iff k y.key).0 b),
                  )
              | inr b ↦
                  let (e, at_m, q) = s.entry k m (rw (a, b) at h') in
                  let not_i : m ≢ i = λ r.
                    let e_x : x ≡ e =
                      same_entry x e (sym at_i ∙ ap (get_elem? c.entries) (sym r) ∙ at_m) in
                    let z : keys.eq k x.key ≡ true =
                      (keys.eq_iff k x.key).1 (sym q ∙ ap (λ e. e.key) (sym e_x)) in
                    cc in
                  let not_j : m ≢ j = λ r.
                    let e_y : y ≡ e =
                      same_entry y e (sym at_j ∙ ap (get_elem? c.entries) (sym r) ∙ at_m) in
                    let z : keys.eq k y.key ≡ true =
                      (keys.eq_iff k y.key).1 (sym q ∙ ap (λ e. e.key) (sym e_y)) in
                    cc in
                  (e, swapped_other (get_elem? c.entries) i j m not_i not_j ∙ at_m, q)
            ]
          ]

      exchanged_sized :
          length (exchanged i j x y c).keys_to_indices ≡ length (exchanged i j x y c).entries
      unfolding exchanged
      exchanged_sized =
          let d = put keys y.key i c.keys_to_indices in
          let still =
            get-put keys x.key y.key i c.keys_to_indices
            ∙ rw
                (eq_ne keys x.key y.key
                  (λ e. let n = keys_differ in let r = (keys.eq_iff y.key x.key).1 (sym e) in cc))
                index_x in
          length-put_old keys x.key j i d still
          ∙ length-put_old keys y.key i j c.keys_to_indices index_y
          ∙ s.sized
          ∙ sym (length-set (set c.entries i y) j x ∙ length-set c.entries i y)

      exchanged_contents :
          (k : K) → contents keys scoring (exchanged i j x y c) k ≡ contents keys scoring c k
      exchanged_contents k = elim (Bool-cases (keys.eq k x.key)) [
        | inl a ↦
            let q = (keys.eq_iff k x.key).0 a in
            contents_at keys scoring (exchanged i j x y c) k j (exchanged_get k ∙ rw a refl)
            ∙ exchanged_at j
            ∙ swapped_right (get_elem? c.entries) i j
            ∙ sym (contents_at keys scoring c k i (rw q index_x))
        | inr a ↦ elim (Bool-cases (keys.eq k y.key)) [
          | inl b ↦
              let q = (keys.eq_iff k y.key).0 b in
              contents_at keys scoring (exchanged i j x y c) k i (exchanged_get k ∙ rw (a, b) refl)
              ∙ exchanged_at i
              ∙ swapped_left (get_elem? c.entries) i j
              ∙ sym (contents_at keys scoring c k j (rw q index_y))
          | inr b ↦
              let same : get keys k (exchanged i j x y c).keys_to_indices
                  ≡ get keys k c.keys_to_indices =
                exchanged_get k ∙ rw (a, b) refl in
              elim (Option-cases (get keys k c.keys_to_indices)) [
                | inl n ↦
                    contents_missing keys scoring (exchanged i j x y c) k (same ∙ n)
                    ∙ sym (contents_missing keys scoring c k n)
                | inr (m, at) ↦
                    let (e, at', _) = exchanged_entry k m (same ∙ at) in
                    let (e', at_m, q) = s.entry k m at in
                    contents_at keys scoring (exchanged i j x y c) k m (same ∙ at)
                    ∙ exchanged_at m
                    ∙ swapped_other (get_elem? c.entries) i j m
                        (λ r.
                          let e_x : x ≡ e' =
                            same_entry x e' (sym at_i ∙ ap (get_elem? c.entries) (sym r) ∙ at_m) in
                          let z = (keys.eq_iff k x.key).1 (sym q ∙ ap (λ e. e.key) (sym e_x)) in cc)
                        (λ r.
                          let e_y : y ≡ e' =
                            same_entry y e' (sym at_j ∙ ap (get_elem? c.entries) (sym r) ∙ at_m) in
                          let z = (keys.eq_iff k y.key).1 (sym q ∙ ap (λ e. e.key) (sym e_y)) in cc)
                    ∙ sym (contents_at keys scoring c k m at)
              ]
        ]
      ]

      pub exchanged-IsSynced : IsSynced keys scoring (exchanged i j x y c)
      unfolding exchanged
      exchanged-IsSynced = record {
        index = λ k e h. exchanged_index k e (sym (exchanged_at k) ∙ h);
        entry = λ k m h. let (e, at, q) = exchanged_entry k m h in (e, exchanged_at m ∙ at, q);
        sized = exchanged_sized;
        unique =
            put-IsUnique keys x.key j (put keys y.key i c.keys_to_indices)
              (put-IsUnique keys y.key i c.keys_to_indices s.unique);
      }

      pub exchanged-IsRearranged : IsRearranged keys scoring c (exchanged i j x y c)
      unfolding exchanged
      exchanged-IsRearranged = record {
        same_contents = exchanged_contents;
        same_max_size = refl;
        same_extra = refl;
        same_length = length-set (set c.entries i y) j x ∙ length-set c.entries i y;
      }

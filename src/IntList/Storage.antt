-- ===== src/IntList/Storage.antt =====
-- What `IntList` stores: every operation on non-negative integers succeeds, and does what it does to a
-- list, whatever array holds them.
use hypothesis.Common.{
  ℕ, zero, suc, ◌+◌, ◌<◌, ◌≡◌, ◌⊎◌, inl, inr, refl, ◌∙◌, sym, true, false, Option, some, List, [],
  ◌∷◌, ◌++◌, arith, if◌then◌else◌, length, set, Bool-cases, length-append, append-nil, append_assoc,
}
use hypothesis.Common.Int.{ℤ, pos}
use hypothesis.Common.Result.{Result, ok, raise, overflow_error, value_error}
use hypothesis.IntList.{
  Code, byte, short, int, long, quad, object, is_array, fits, all, IntList, array_or_list,
  first_storage, non_negative, make, position, assign, upgrade, set_item_loop, set_item, append,
  extend,
}
use hypothesis.IntList.Words.{
  all-append, all-set, set-length, rank, fits-natural, fits-next, is_array-full, all_mono,
  all_object, fits_zero, array-natural,
}

-- What is stored fits the word size and is not negative.
pub record IsValid (s : IntList) : Type 0 where
  pub fitting : all (fits s.code) s.items ≡ true
  pub natural : all non_negative s.items ≡ true

-- An upgrade of valid storage keeps what it holds, and leaves one upgrade fewer.
upgrade_lem :
    (s : IntList)
    → IsValid s
    → is_array s.code ≡ true
    → (c : Code) × (upgrade s ≡ ok (record { code = c; items = s.items }))
      × (rank c + 1 ≡ rank s.code)
      × IsValid (record { code = c; items = s.items })
unfolding upgrade array_or_list
upgrade_lem s v a =
    let (d, e, r, f) = fits-next s.code a in
    let g = all_mono (fits s.code) (fits d) s.items f v.fitting in
    (d, rw (a, e, g), r, record { fitting = g; natural = v.natural })

-- What a successful operation leaves: the given items, in valid storage.
abbrev Stores : Option (Result IntList) → List ℤ → Type 0
Stores r items = (s : IntList) × (r ≡ some (ok s)) × (s.items ≡ items) × IsValid s

assign_lem :
    (s : IntList) (i n : ℤ) (k : ℕ)
    → position (length s.items) i ≡ ok k
    → assign s i n
      ≡ (if fits s.code n then ok (record s { items = set s.items k n }) else raise overflow_error)
unfolding assign
assign_lem s i n k p = rw p

set_item_loop_lem :
    (fuel : ℕ) (s : IntList) (i n : ℤ) (k : ℕ)
    → rank s.code < fuel
    → IsValid s
    → position (length s.items) i ≡ ok k
    → non_negative n ≡ true
    → Stores (set_item_loop fuel s i n) (set s.items k n)
unfolding set_item_loop
set_item_loop_lem zero s i n k r v p h = absurd (omega arith)
set_item_loop_lem (suc fuel) s i n k r v p h = elim (Bool-cases (fits s.code n)) [
  | inl f ↦ (
    record s { items = set s.items k n },
    rw (assign_lem s i n k p, f, set_item_loop),
    refl,
    record {
      fitting = all-set (fits s.code) s.items k n v.fitting f;
      natural = all-set non_negative s.items k n v.natural h;
    },
  )
  | inr f ↦
      let (c, u, q, w) = upgrade_lem s v (is_array-full s.code n f) in
      rw (assign_lem s i n k p, f, fits-natural s.code n h f, u, set_item_loop)
        (set_item_loop_lem fuel (record { code = c; items = s.items }) i n k (omega arith) w p h)
]

rank_bound : (c : Code) → rank c < 6
rank_bound byte = omega arith
rank_bound short = omega arith
rank_bound int = omega arith
rank_bound long = omega arith
rank_bound quad = omega arith
rank_bound object = omega arith

-- In valid storage, `s[i] = n` for an index in range and a non-negative integer writes it, upgrades
-- the storage as far as needed, and keeps all else; the loop ends, and the storage is valid.
pub set_item_lem :
    (s : IntList) (i n : ℤ) (k : ℕ)
    → IsValid s
    → position (length s.items) i ≡ ok k
    → non_negative n ≡ true
    → (s' : IntList) × (set_item s i n ≡ some (ok s')) × (s'.items ≡ set s.items k n) × IsValid s'
unfolding set_item
set_item_lem s i n k v p h = set_item_loop_lem 6 s i n k (rank_bound s.code) v p h

last_position :
    (xs : List ℤ) (a : ℤ) → position (length (xs ++ a ∷ [])) (pos (length xs)) ≡ ok (length xs)
unfolding position
last_position xs a = ground (arith, length-append xs (a ∷ []))

appended :
    (s : IntList) (n : ℤ)
    → IsValid s
    → fits s.code n ≡ true
    → non_negative n ≡ true
    → IsValid (record s { items = s.items ++ n ∷ [] })
unfolding all
appended s n v f h = record {
  fitting = all-append (fits s.code) s.items (n ∷ []) ∙ rw (v.fitting, f);
  natural = all-append non_negative s.items (n ∷ []) ∙ rw (v.natural, h);
}

append_lem :
    (s : IntList) (n : ℤ)
    → IsValid s
    → non_negative n ≡ true
    → Stores (append s n) (s.items ++ n ∷ [])
unfolding append non_negative
append_lem s n v h = elim (Bool-cases (fits s.code n)) [
  | inl f ↦ (record s { items = s.items ++ n ∷ [] }, rw f, refl, appended s n v f h)
  | inr f ↦
      let z = appended s (pos 0) v (fits_zero s.code) refl in
      let (s', e, g, w) =
        set_item_lem (record s { items = s.items ++ pos 0 ∷ [] }) (pos (length s.items)) n
          (length s.items) z (last_position s.items (pos 0)) h in
      (s', rw (f, e), g ∙ set-length s.items (pos 0) n, w)
]

extend_step :
    (s s' : IntList) (n : ℤ) (ns : List ℤ)
    → append s n ≡ some (ok s')
    → extend s (n ∷ ns) ≡ extend s' ns
unfolding extend
extend_step s s' n ns e = rw (e, extend)

-- `extend` of valid storage by non-negative integers appends all of them in order, with upgrades as
-- needed, and leaves valid storage.
pub extend_lem :
    (s : IntList) (ns : List ℤ)
    → IsValid s
    → all non_negative ns ≡ true
    → (s' : IntList) × (extend s ns ≡ some (ok s')) × (s'.items ≡ s.items ++ ns) × IsValid s'
unfolding extend all
extend_lem s [] v h = (s, refl, sym (append-nil s.items), v)
extend_lem s (n ∷ ns) v h =
    let (s', e, g, w) = append_lem s n v (ground arith) in
    let (t, e', g', w') = extend_lem s' ns w (ground arith) in
    (t, extend_step s s' n ns e ∙ e', rw (g', g) (append_assoc s.items (n ∷ []) ns), w')

array_or_list_ok :
    (c : Code) (vs : List ℤ)
    → all (fits c) vs ≡ true
    → array_or_list c vs ≡ ok (record { code = c; items = vs })
unfolding array_or_list
array_or_list_ok c vs f = rw f

array_or_list_full :
    (c : Code) (vs : List ℤ) → all (fits c) vs ≡ false → array_or_list c vs ≡ raise overflow_error
unfolding array_or_list
array_or_list_full c vs f = rw f

first_storage_lem :
    (cs : List Code) (values : List ℤ)
    → (c : Code) × (first_storage (cs ++ object ∷ []) values
        ≡ ok (record { code = c; items = values }))
      × (all (fits c) values ≡ true)
unfolding first_storage array_or_list
first_storage_lem [] values = (
  object,
  rw (array_or_list_ok object values (all_object values), first_storage),
  all_object values,
)
first_storage_lem (c ∷ cs) values = elim (Bool-cases (all (fits c) values)) [
  | inl f ↦ (c, rw (array_or_list_ok c values f, first_storage), f)
  | inr f ↦ rw (array_or_list_full c values f, first_storage) (first_storage_lem cs values)
]

-- `IntList(values)` stores the values, in valid storage, if none is negative, and raises a ValueError
-- otherwise.
pub make_lem :
    (values : List ℤ)
    → ((s : IntList) × (make values ≡ ok s)
        × (s.items ≡ values)
        × IsValid s
        × (all non_negative values ≡ true))
      ⊎ ((make values ≡ raise value_error) × (all non_negative values ≡ false))
unfolding make
make_lem values =
    let (c, e, f) = first_storage_lem (byte ∷ short ∷ int ∷ long ∷ quad ∷ []) values in
    elim (Bool-cases (all non_negative values)) [
      | inl n ↦ inl (
        record { code = c; items = values },
        rw (e, n) (ground arith),
        refl,
        record { fitting = f; natural = n },
        n,
      )
      | inr n ↦ elim (Bool-cases (is_array c)) [
        | inl a ↦ let m = all_mono (fits c) non_negative values (λ v. array-natural c v a) f in cc
        | inr a ↦ inr (rw (e, a, n), n)
      ]
    ]

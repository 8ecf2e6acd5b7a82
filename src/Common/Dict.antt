-- ===== src/Common/Dict.antt =====
-- Dictionaries, as lists of their entries in the order of insertion.
use hypothesis.Common.Tests.{Bool-cases, if◌then◌else◌}
use hypothesis.Common.Lists.{length}
use hypothesis.Common.Keys.{KeyEquality}
use Prim.Native.Nat.{◌+◌}
use mathlib.Core.Path.{◌≡◌, refl, sym, ◌∙◌}
use mathlib.Core.Logic.{inl, inr}
use mathlib.Core.Bool.{false}
use mathlib.Core.Option.{Option, none, some}
use mathlib.Core.List.{List, [], ◌∷◌}
use native.Mathlib.Omega.{arith}

module _ {ℓ κ} {K : Type ℓ} {V : Type κ} (keys : KeyEquality K) where
  -- `d.get(k)`
  unfoldable pub get : K → List (K × V) → Option V
  get k [] = none
  get k ((j, w) ∷ d) = if keys.eq k j then some w else get k d

  -- `d[k] = v`
  unfoldable pub put : K → V → List (K × V) → List (K × V)
  put k v [] = (k, v) ∷ []
  put k v ((j, w) ∷ d) = let rest = put k v d in if keys.eq k j then (j, v) ∷ d else (j, w) ∷ rest

  -- `del d[k]`, where the key is there
  unfoldable pub del : K → List (K × V) → List (K × V)
  del k [] = []
  del k ((j, w) ∷ d) = let rest = del k d in if keys.eq k j then rest else (j, w) ∷ rest

  -- No key has two entries.
  abbrev pub IsUnique : List (K × V) → Type κ
  IsUnique [] = Unit
  IsUnique ((k, v) ∷ d) = (get k d ≡ none) × IsUnique d

  pub get-put :
      (j k : K) (v : V) (d : List (K × V))
      → get j (put k v d) ≡ (if keys.eq j k then some v else get j d)
  unfolding get put
  get-put j k v [] = refl
  get-put j k v ((i, w) ∷ d) =
      let h = get-put j k v d in
      let a = keys.eq_iff k i in
      elim (Bool-cases (keys.eq k i)) [
        | inl e ↦ let q = a.0 e in rw (e, q) (ground arith)
        | inr e ↦ elim (Bool-cases (keys.eq j i)) [
          | inl f ↦
              let q = (keys.eq_iff j i).0 f in
              let n : keys.eq j k ≡ false = elim (Bool-cases (keys.eq j k)) [
                | inl g ↦ let r = (keys.eq_iff j k).0 g in let s = a.1 (sym r ∙ q) in cc
                | inr g ↦ g
              ] in
              rw (e, f, n) refl
          | inr f ↦ rw (e, f) h
        ]
      ]

  pub get-del :
      (j k : K) (d : List (K × V)) → get j (del k d) ≡ (if keys.eq j k then none else get j d)
  unfolding get del
  get-del j k [] = ground arith
  get-del j k ((i, w) ∷ d) =
      let h = get-del j k d in
      let a = keys.eq_iff k i in
      let b = keys.eq_iff j i in
      let c = keys.eq_iff j k in
      elim (Bool-cases (keys.eq k i)) [
        | inl e ↦ let q = a.0 e in rw (e, h) (rw (← q) (ground arith))
        | inr e ↦ elim (Bool-cases (keys.eq j i)) [
          | inl f ↦
              let q = b.0 f in
              let n : keys.eq j k ≡ false = elim (Bool-cases (keys.eq j k)) [
                | inl g ↦ let r = c.0 g in let s = a.1 (sym r ∙ q) in cc
                | inr g ↦ g
              ] in
              rw (e, f, n) refl
          | inr f ↦ rw (e, f) h
        ]
      ]

  pub put-IsUnique : (k : K) (v : V) (d : List (K × V)) → IsUnique d → IsUnique (put k v d)
  unfolding get put
  put-IsUnique k v [] u = (refl, tt)
  put-IsUnique k v ((i, w) ∷ d) u = elim (Bool-cases (keys.eq k i)) [
    | inl e ↦ rw e u
    | inr e ↦
        let n : keys.eq i k ≡ false = elim (Bool-cases (keys.eq i k)) [
          | inl g ↦ let s = (keys.eq_iff k i).1 (sym ((keys.eq_iff i k).0 g)) in cc
          | inr g ↦ g
        ] in
        rw e (get-put i k v d ∙ rw n u.0, put-IsUnique k v d u.1)
  ]

  pub del-IsUnique : (k : K) (d : List (K × V)) → IsUnique d → IsUnique (del k d)
  unfolding get del
  del-IsUnique k [] u = tt
  del-IsUnique k ((i, w) ∷ d) u = elim (Bool-cases (keys.eq k i)) [
    | inl e ↦ rw e (del-IsUnique k d u.1)
    | inr e ↦ rw e (get-del i k d ∙ (let h = u.0 in ground arith), del-IsUnique k d u.1)
  ]

  pub length-put_new :
      (k : K) (v : V) (d : List (K × V)) → get k d ≡ none → length (put k v d) ≡ length d + 1
  unfolding get put
  length-put_new k v [] h = omega arith
  length-put_new k v ((i, w) ∷ d) h = elim (Bool-cases (keys.eq k i)) [
    | inl e ↦ cc
    | inr e ↦ let r = length-put_new k v d (ground arith) in rw e (omega arith)
  ]

  pub length-put_old :
      (k : K) (v w : V) (d : List (K × V)) → get k d ≡ some w → length (put k v d) ≡ length d
  unfolding get put
  length-put_old k v w [] h = cc
  length-put_old k v w ((i, x) ∷ d) h = elim (Bool-cases (keys.eq k i)) [
    | inl e ↦ rw e refl
    | inr e ↦ let r = length-put_old k v w d (ground arith) in rw e (omega arith)
  ]

  del_absent : (k : K) (d : List (K × V)) → get k d ≡ none → del k d ≡ d
  unfolding get del
  del_absent k [] h = refl
  del_absent k ((i, x) ∷ d) h = elim (Bool-cases (keys.eq k i)) [
    | inl e ↦ cc
    | inr e ↦ rw (e, del_absent k d (ground arith)) refl
  ]

  pub length-del :
      (k : K) (w : V) (d : List (K × V))
      → IsUnique d
      → get k d ≡ some w
      → length (del k d) + 1 ≡ length d
  unfolding get del
  length-del k w [] u h = cc
  length-del k w ((i, x) ∷ d) u h = elim (Bool-cases (keys.eq k i)) [
    | inl e ↦
        let q = (keys.eq_iff k i).0 e in
        let n : get k d ≡ none = rw q u.0 in rw (e, del_absent k d n) (omega arith)
    | inr e ↦ let r = length-del k w d u.1 (ground arith) in rw e (omega arith)
  ]

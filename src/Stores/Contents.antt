-- ===== src/Stores/Contents.antt =====
-- What the databases contain after a write.
use hypothesis.Common.{
  ◌≡◌, refl, ap, ◌∙◌, Bool, true, false, ◌&&◌, ◌||◌, not, List, [], ◌∷◌, arith, Bool-cases, inl,
  inr,
}
use hypothesis.Common.Keys.{KeyEquality, mem}
use hypothesis.Stores.{
  Write, save, delete, move, Store, get_values, add_value, discard, discard_value, save_in_memory,
  delete_in_memory, move_in_memory, write_in_memory,
}

module _ {ℓ} {B : Type ℓ} (bytes : KeyEquality B) where
  abbrev pub holds : Store B → B → B → Bool
  holds s k v = mem bytes v (get_values bytes k s)

  abbrev pub same : B → B → B → B → Bool
  same k v j w = bytes.eq j k && bytes.eq w v

  mem-discard :
      (v w : B) (vs : List B)
      → mem bytes w (discard bytes v vs) ≡ (mem bytes w vs && not (bytes.eq w v))
  unfolding mem discard
  mem-discard v w [] = refl
  mem-discard v w (x ∷ vs) =
      ground (arith, bytes.eq_iff w x, bytes.eq_iff v x, bytes.eq_iff w v, mem-discard v w vs)

  holds-add_value :
      (k v j w : B) (s : Store B)
      → holds (add_value bytes k v s) j w ≡ (holds s j w || same k v j w)
  unfolding get_values add_value mem
  holds-add_value k v j w [] = ground arith
  holds-add_value k v j w ((i, vs) ∷ s) = ground (
    arith,
    bytes.eq_iff k i,
    bytes.eq_iff j i,
    bytes.eq_iff j k,
    bytes.eq_iff k j,
    holds-add_value k v j w s,
  )

  holds-discard_value :
      (k v j w : B) (s : Store B)
      → holds (discard_value bytes k v s) j w ≡ (holds s j w && not (same k v j w))
  unfolding get_values discard_value mem
  holds-discard_value k v j w [] = refl
  holds-discard_value k v j w ((i, vs) ∷ s) = ground (
    arith,
    bytes.eq_iff k i,
    bytes.eq_iff j i,
    bytes.eq_iff j k,
    mem-discard v w vs,
    holds-discard_value k v j w s,
  )

  -- The value that a write puts under a key, and the one that it takes away
  abbrev pub adds : Write B → B → B → Bool
  adds (save k v) j w = same k v j w
  adds (delete k v) j w = false
  adds (move src dest v) j w = same dest v j w

  abbrev pub takes : Write B → B → B → Bool
  takes (save k v) j w = false
  takes (delete k v) j w = same k v j w
  takes (move src dest v) j w = same src v j w

  unchanged : (s : Store B) (k v j w : B) → same k v j w ≡ true → holds s j w ≡ holds s k v
  unchanged s k v j w q =
      let a : j ≡ k = (bytes.eq_iff j k).0 (ground arith) in
      let b : w ≡ v = (bytes.eq_iff w v).0 (ground arith) in rw (a, b)

  absorb :
      (s : Store B) (k v j w : B) → holds s k v ≡ true → holds s j w ≡ (holds s j w || same k v j w)
  absorb s k v j w e = elim (Bool-cases (same k v j w)) [
    | inl q ↦ let h = unchanged s k v j w q in ground arith
    | inr q ↦ ground arith
  ]

  absent :
      (s : Store B) (k v j w : B)
      → holds s k v ≡ false
      → holds s j w ≡ (holds s j w && not (same k v j w))
  absent s k v j w e = elim (Bool-cases (same k v j w)) [
    | inl q ↦ let h = unchanged s k v j w q in ground arith
    | inr q ↦ ground arith
  ]

  holds-save :
      (k v j w : B) (s : Store B)
      → holds (save_in_memory bytes k v s).0 j w ≡ (holds s j w || same k v j w)
  unfolding save_in_memory
  holds-save k v j w s = elim (Bool-cases (holds s k v)) [
    | inl e ↦ rw (e, save_in_memory) (absorb s k v j w e)
    | inr e ↦ rw (e, save_in_memory) (holds-add_value k v j w s)
  ]

  holds-delete :
      (k v j w : B) (s : Store B)
      → holds (delete_in_memory bytes k v s).0 j w ≡ (holds s j w && not (same k v j w))
  unfolding delete_in_memory
  holds-delete k v j w s = elim (Bool-cases (holds s k v)) [
    | inl e ↦ rw (e, delete_in_memory) (holds-discard_value k v j w s)
    | inr e ↦ rw (e, delete_in_memory) (absent s k v j w e)
  ]

  -- Afterwards a store in memory holds what it held, less what was taken, and what was added.
  pub holds-write :
      (c : Write B) (j w : B) (s : Store B)
      → holds (write_in_memory bytes c s).0 j w ≡ ((holds s j w && not (takes c j w)) || adds c j w)
  unfolding write_in_memory
  holds-write (save k v) j w s = holds-save k v j w s ∙ ground arith
  holds-write (delete k v) j w s = holds-delete k v j w s ∙ ground arith
  holds-write (move src dest v) j w s = elim (Bool-cases (bytes.eq src dest)) [
    | inl e ↦
        let q : src ≡ dest = (bytes.eq_iff src dest).0 e in
        rw (e, move_in_memory, q) (holds-save dest v j w s ∙ ground arith)
    | inr e ↦
        rw (e, move_in_memory)
          (holds-save dest v j w (delete_in_memory bytes src v s).0
            ∙ ap (λ b. b || same dest v j w) (holds-delete src v j w s))
  ]

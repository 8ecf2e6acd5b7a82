-- ===== src/Floats/Tables.antt =====
-- The tables of exponents: decoding an encoded exponent gives it back.
use hypothesis.Common.{
  ℕ, zero, suc, ◌+◌, ◌≤◌, ◌<◌, ◌≡◌, ◌⊎◌, refl, sym, ap, ◌∙◌, arith, Bool, true, false, leb, ◌==◌,
  inl, inr, Bool-cases, some, List, [], ◌∷◌, length, get_elem?, set, length-set, get_elem?-set_self,
  get_elem?-set_ne, ◌||◌,
}
use hypothesis.Common.Result.{ok}
use hypothesis.GenericCache.Edges.{inside}
use hypothesis.Floats.{
  max_exponent, key_leq, exponent_key, insert, sorted, range, encoding_table, fill, zeros,
  decoding_table, decode_exponent, encode_exponent,
}

is_in : ℕ → List ℕ → Bool
is_in d [] = false
is_in d (e ∷ l) = (d == e) || is_in d l

is_in-insert : (d e : ℕ) (l : List ℕ) → is_in d (insert e l) ≡ ((d == e) || is_in d l)
unfolding insert is_in
is_in-insert d e [] = refl
is_in-insert d e (f ∷ l) =
    let h = is_in-insert d e l in
    elim (Bool-cases (key_leq (exponent_key e) (exponent_key f))) [
      | inl a ↦ rw a refl
      | inr a ↦ rw (a, h) (ground arith)
    ]

is_in-sorted : (d : ℕ) (l : List ℕ) → is_in d (sorted l) ≡ is_in d l
unfolding sorted is_in
is_in-sorted d [] = refl
is_in-sorted d (e ∷ l) = is_in-insert d e (sorted l) ∙ ap (λ b. (d == e) || b) (is_in-sorted d l)

is_in-range : (d s n : ℕ) → s ≤ d → d < s + n → is_in d (range s n) ≡ true
unfolding range is_in
is_in-range d s zero h k = absurd (omega arith)
is_in-range d s (suc n) h k = elim (Bool-cases (d == s)) [
  | inl e ↦ rw e refl
  | inr e ↦ rw (e, is_in-range d (s + 1) n (ground arith) (omega arith)) refl
]

length-insert : (e : ℕ) (l : List ℕ) → length (insert e l) ≡ suc (length l)
unfolding insert
length-insert e [] = refl
length-insert e (f ∷ l) = elim (Bool-cases (key_leq (exponent_key e) (exponent_key f))) [
  | inl a ↦ rw a refl
  | inr a ↦ rw a (ap suc (length-insert e l))
]

length-sorted : (l : List ℕ) → length (sorted l) ≡ length l
unfolding sorted
length-sorted [] = refl
length-sorted (e ∷ l) = length-insert e (sorted l) ∙ ap suc (length-sorted l)

length-range : (s n : ℕ) → length (range s n) ≡ n
unfolding range
length-range s zero = refl
length-range s (suc n) = ap suc (length-range (s + 1) n)

length-zeros : (n : ℕ) → length (zeros n) ≡ n
unfolding zeros
length-zeros zero = refl
length-zeros (suc n) = ap suc (length-zeros n)

module _ (codes : List ℕ) where
  -- The table has an index of the exponent.
  abbrev IsFilled : ℕ → List ℕ → Type 0
  IsFilled e table = (j : ℕ) × (get_elem? table e ≡ some j) × (get_elem? codes j ≡ some e)

  fill_lem :
      (i : ℕ) (bs table : List ℕ) (e : ℕ)
      → ((k : ℕ) → get_elem? bs k ≡ get_elem? codes (k + i))
      → e < length table
      → (is_in e bs ≡ true) ⊎ IsFilled e table
      → IsFilled e (fill i bs table)
  unfolding fill is_in
  fill_lem i [] table e h l (inl m) = absurd cc
  fill_lem i [] table e h l (inr m) = m
  fill_lem i (b ∷ bs) table e h l m =
      let rest : (k : ℕ) → get_elem? bs k ≡ get_elem? codes (k + (i + 1)) = λ k.
        h (suc k) ∙ (let n : suc k + i ≡ k + (i + 1) = omega arith in ap (get_elem? codes) n) in
      let long = length-set table b i in
      fill_lem (i + 1) bs (set table b i) e rest (omega arith) (elim (Bool-cases (e == b)) [
        | inl a ↦
            let q : e ≡ b = ground arith in
            let first : some b ≡ get_elem? codes i =
              h 0 ∙ (let n : 0 + i ≡ i = omega arith in ap (get_elem? codes) n) in
            inr (i, rw q (get_elem?-set_self table b i (rw (← q) l)), sym first ∙ ap some (sym q))
        | inr a ↦ elim m [
          | inl n ↦ inl (rw a at n)
          | inr (j, f, g) ↦ inr (j, get_elem?-set_ne table i (ground arith) ∙ f, g)
        ]
      ])

pub encode_exponent_lem :
    (e : ℕ)
    → e ≤ max_exponent
    → (j : ℕ) × (encode_exponent e ≡ ok j) × (j ≤ max_exponent) × (decode_exponent j ≡ ok e)
unfolding encode_exponent decode_exponent decoding_table encoding_table
encode_exponent_lem e h =
    let codes = sorted (range 0 (max_exponent + 1)) in
    let long : length codes ≡ max_exponent + 1 =
      length-sorted (range 0 (max_exponent + 1)) ∙ length-range 0 (max_exponent + 1) in
    let long' = length-zeros (length codes) in
    let there : is_in e codes ≡ true =
      is_in-sorted e (range 0 (max_exponent + 1))
      ∙ is_in-range e 0 (max_exponent + 1) (omega arith) (omega arith) in
    let (j, f, g) =
      fill_lem codes 0 codes (zeros (length codes)) e
        (λ k. let n : k ≡ k + 0 = omega arith in ap (get_elem? codes) n) (omega arith)
        (inl there) in
    let below = inside codes j e g in
    let a : leb e max_exponent ≡ true = ground arith in
    let b : leb j max_exponent ≡ true = ground arith in
    (j, rw (a, f) refl, omega arith, rw (b, g) refl)

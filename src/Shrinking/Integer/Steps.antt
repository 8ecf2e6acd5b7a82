-- ===== src/Shrinking/Integer/Steps.antt =====
-- What every step of the shrinker of integers keeps, and that its searches return.
use hypothesis.Common.{
  ℕ, zero, suc, ◌+◌, ◌-◌, ◌/◌, ◌%◌, ◌^◌, ◌≤◌, ◌<◌, ◌≡◌, ◌⊎◌, inl, inr, refl, Bool, true, false,
  some, arith, ltb, leb, Bool-cases,
}
use hypothesis.Search.{Probe}
use hypothesis.Search.Bracket.{IsProbing, find_integer_total}
use hypothesis.Shrinking.{Shrinker, consider}
use hypothesis.Shrinking.Consider.{IsSound, consider-IsSound}
use hypothesis.Shrinking.Integer.{
  smaller, bits, bit_length, size, left_by, try_shift, try_mask, search, shift_right,
  mask_high_bits,
}

pub ltb_trans : (a b c : ℕ) → ltb a b ≡ true → ltb b c ≡ true → ltb a c ≡ true
ltb_trans a b c h k = ground arith

pub ltb_irrefl : (a : ℕ) → ltb a a ≡ false
ltb_irrefl a = ground arith

pub checked : (a b : ℕ) → smaller.check_invariants a b ≡ true
checked a b = ground arith

bits_le : (fuel n : ℕ) → bits fuel n ≤ n
unfolding bits
bits_le zero n = omega arith
bits_le (suc fuel) n = let h = bits_le fuel (n / 2) in ground arith

pub bit_length_le : (n : ℕ) → bit_length n ≤ n
unfolding bit_length
bit_length_le n = bits_le n n

module _ (predicate : ℕ → Bool) where
  -- `s` came from `s0`: it is sound, and its value is smaller exactly if changes were counted.
  pub record IsStep (s0 s : Shrinker ℕ) : Type 0 where
    pub sound : IsSound smaller predicate s
    pub no_larger : s.current ≤ s0.current
    pub changed :
        ((s.changes ≡ s0.changes) × (s.current ≡ s0.current))
        ⊎ ((s0.changes < s.changes) × (s.current < s0.current))
    pub same_full : s.full ≡ s0.full

  pub IsStep-refl : (s : Shrinker ℕ) → IsSound smaller predicate s → IsStep s s
  IsStep-refl s h = record {
    sound = h;
    no_larger = omega arith;
    changed = inl (refl, refl);
    same_full = refl;
  }

  pub IsStep-trans : (r s t : Shrinker ℕ) → IsStep r s → IsStep s t → IsStep r t
  IsStep-trans r s t h k = record {
    sound = k.sound;
    no_larger = let a = h.no_larger in let b = k.no_larger in omega arith;
    changed =
        let a = h.no_larger in
        let b = k.no_larger in let c = h.changed in let d = k.changed in ground arith;
    same_full = let a = h.same_full in let b = k.same_full in cc;
  }

  pub consider-IsStep :
      (v : ℕ) (r s : Shrinker ℕ) → IsStep r s → IsStep r (consider smaller predicate v s).1
  unfolding consider
  consider-IsStep v r s h = IsStep-trans r s (consider smaller predicate v s).1 h (record {
    sound = consider-IsSound smaller predicate ltb_trans ltb_irrefl checked v s h.sound;
    no_larger = ground arith;
    changed = ground arith;
    same_full = ground arith;
  })

  -- A search whose probe keeps these, and refuses all above the base, returns.
  module _ (f : ℕ → Probe (Shrinker ℕ))
      (keep : (base k : ℕ) (r s : Shrinker ℕ) → IsStep r s → IsStep r (f base k s).1)
      (refuse : (base k : ℕ) (s : Shrinker ℕ)
        → s.current ≤ base
        → base < k
        → (f base k s).0 ≡ false) where
    pub search-IsStep :
        (s : Shrinker ℕ)
        → IsSound smaller predicate s
        → (s' : Shrinker ℕ) × (search predicate f s ≡ some s') × IsStep s s'
    unfolding search left_by
    search-IsStep s h =
        let T : ℕ → Shrinker ℕ → Type 0 = λ _. IsStep s in
        let probing : IsProbing (f s.current) T T = record {
          hit = λ _ k t i _. keep s.current k s t i;
          miss = λ _ k t i _. keep s.current k s t i;
          keep_hit = λ _ k t i _. keep s.current k s t i;
          keep_miss = λ _ k t i. keep s.current k s t i;
        } in
        let (n, s', e, t, _) =
          find_integer_total (f s.current) T T probing (s.current + 1)
            (λ _ k t i b. refuse s.current k t i.no_larger (omega arith)) (s.current + 2) s
            (IsStep-refl s h) (omega arith) in
        (s', rw e, t)

  pub shift_right-IsStep :
      (s : Shrinker ℕ)
      → IsSound smaller predicate s
      → (s' : Shrinker ℕ) × (shift_right predicate s ≡ some s') × IsStep s s'
  unfolding shift_right try_shift size
  shift_right-IsStep =
      search-IsStep (try_shift predicate)
        (λ base k r s h. elim (Bool-cases (leb k (bit_length s.current))) [
          | inl e ↦ rw e (consider-IsStep (base / 2 ^ k) r s h)
          | inr e ↦ rw e h
        ])
        (λ base k s h b. let l = bit_length_le s.current in ground arith)

  pub mask_high_bits-IsStep :
      (s : Shrinker ℕ)
      → IsSound smaller predicate s
      → (s' : Shrinker ℕ) × (mask_high_bits predicate s ≡ some s') × IsStep s s'
  unfolding mask_high_bits try_mask
  mask_high_bits-IsStep =
      search-IsStep (try_mask predicate)
        (λ base k r s h. elim (Bool-cases (leb (bit_length base) k)) [
          | inl e ↦ rw e h
          | inr e ↦ rw e (consider-IsStep (base % 2 ^ (bit_length base - k)) r s h)
        ])
        (λ base k s h b. let l = bit_length_le base in ground arith)

-- ===== src/Shrinking/Ordering/Keeping.antt =====
-- What `consider` keeps of a sequence that is sorted.
use hypothesis.Common.{◌≡◌, ◌⊎◌, inl, inr, refl, ap, ◌∙◌, Bool, true, List, arith, length}
use hypothesis.Shrinking.{Simplicity, Shrinker, consider}
use hypothesis.Shrinking.Ordering.{sequences, attempt}
use hypothesis.Shrinking.Ordering.Permutes.{Permᴰ-length, Permᴰ_eq}
use mathlib.Core.List.{Permᴰ}
use mathlib.Core.List.Permᴰ

module _ {ℓ κ} {A : Type ℓ} {K : Type κ} (elements : Simplicity A) (keys : Simplicity K)
    (key : A → K) (predicate : List A → Bool) where
  pub consider_cases :
      (v : List A) (s : Shrinker (List A))
      → ((attempt elements keys key predicate v s).1.current ≡ s.current)
        ⊎ (((attempt elements keys key predicate v s).1.current ≡ v) × (predicate v ≡ true))
  unfolding consider
  consider_cases v s = ground arith

  pub consider_full :
      (v : List A) (s : Shrinker (List A))
      → (attempt elements keys key predicate v s).1.full ≡ s.full
  unfolding consider
  consider_full v s = ground arith

  -- The current value of `s` satisfies the predicate, and is a permutation of that of `s0`.
  pub record IsKept (s0 s : Shrinker (List A)) : Type ℓ where
    pub permuted : Permᴰ s.current s0.current
    pub satisfied : predicate s.current ≡ true

  pub attempt-IsKept :
      (v : List A) (s0 s : Shrinker (List A))
      → IsKept s0 s
      → Permᴰ v s.current
      → IsKept s0 (attempt elements keys key predicate v s).1
  attempt-IsKept v s0 s h p = elim (consider_cases v s) [
    | inl e ↦ record {
      permuted = Permᴰ.trans (Permᴰ_eq e) h.permuted;
      satisfied = ap predicate e ∙ h.satisfied;
    }
    | inr (e, q) ↦ record {
      permuted = Permᴰ.trans (Permᴰ_eq e) (Permᴰ.trans p h.permuted);
      satisfied = ap predicate e ∙ q;
    }
  ]

  pub IsKept-length :
      (s0 s : Shrinker (List A)) → IsKept s0 s → length s.current ≡ length s0.current
  IsKept-length s0 s h = Permᴰ-length h.permuted

  pub IsKept-refl : (s : Shrinker (List A)) → predicate s.current ≡ true → IsKept s s
  IsKept-refl s h = record { permuted = Permᴰ.refl s.current; satisfied = h }

  pub IsKept-trans : (r s t : Shrinker (List A)) → IsKept r s → IsKept s t → IsKept r t
  IsKept-trans r s t h k = record {
    permuted = Permᴰ.trans k.permuted h.permuted;
    satisfied = k.satisfied;
  }

  pub attempt_current :
      (v : List A) (s : Shrinker (List A))
      → v ≡ s.current
      → (attempt elements keys key predicate v s).0 ≡ true
  unfolding consider
  attempt_current v s e = rw (((sequences elements keys key).eq_iff v s.current).1 e) refl

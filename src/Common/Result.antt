-- ===== src/Common/Result.antt =====
-- The exceptions that the modelled code raises, and values that a raise may replace.
use hypothesis.Common.{◌≡◌, refl, Bool, true, false, Option, none, some}

pub data Error : Type 0 where
  assertion_error index_error key_error value_error invalid_argument choice_too_large : Error
  overflow_error unbound_local_error stop_iteration stop_test dead_branch hypothesis_warning
        not_implemented recursion_error :
      Error

pub data Result {ℓ} (A : Type ℓ) : Type ℓ where
  raise : Error → Result A
  ok : A → Result A

abbrev pub of_option {ℓ} : {A : Type ℓ} → Error → Option A → Result A
of_option error none = raise error
of_option error (some a) = ok a

-- A raise skips what follows.
infixl 5 ◌>>=◌ ◌>>◌
abbrev pub ◌>>=◌ {ℓ κ} : {A : Type ℓ} {B : Type κ} (r : Result A) (rest : A → Result B) → Result B
raise error >>= rest = raise error
ok a >>= rest = rest a

-- `assert b`
abbrev pub check : (b : Bool) → Result (Unit {0})
check false = raise assertion_error
check true = ok tt

abbrev pub ◌>>◌ {ℓ} : {A : Type ℓ} (first : Result (Unit {0})) (rest : Result A) → Result A
first >> rest = first >>= (λ _. rest)

-- Where two steps succeed, so does the first.
pub result_parts {ℓ κ} :
    {B : Type κ} {A : Type ℓ} {b : B} (r : Result A) (rest : A → Result B) (e : (r >>= rest) ≡ ok b)
    → (a : A) × (r ≡ ok a) × (rest a ≡ ok b)
result_parts (raise error) rest e = cc
result_parts (ok a) rest e = (a, refl, e)

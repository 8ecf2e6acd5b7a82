-- ===== src/Shrinking/Integer.antt =====
-- `Integer` of internal/conjecture/shrinking/integer.py, the shrinker of non-negative integers.
pub mod Steps
pub mod Minimal
pub mod Whole
use hypothesis.Common.{
  ℕ, zero, suc, ◌+◌, ◌-◌, ◌*◌, ◌/◌, ◌%◌, ◌^◌, ◌≡◌, Bool, true, false, Option, none, some, arith,
  ltb, leb, ◌==◌, ==_iff, if◌then◌else◌,
}
use hypothesis.Search.{Probe, find_integer}
use hypothesis.Shrinking.{Simplicity, Shrinker, start, consider, run}

-- `left_is_better`, where every value is its own canonical form; an invariant is that a value is a number
-- that is not negative
abbrev pub smaller : Simplicity ℕ
smaller = record {
  eq = λ a b. a == b;
  eq_iff = ==_iff;
  better = ltb;
  check_invariants = λ value current. leb 0 value;
}

-- `int.bit_length`, for which the number is enough fuel
unfoldable pub bits : ℕ → ℕ → ℕ
bits zero n = 0
bits (suc fuel) n = let rest = bits fuel (n / 2) in if n == 0 then 0 else rest + 1

unfoldable pub bit_length : ℕ → ℕ
bit_length n = bits n n

-- What a search leaves, where it had enough fuel.
unfoldable pub left_by {ℓ} : {S : Type ℓ} → Option ℕ × S → Option S
left_by (none, s) = none
left_by (some n, s) = some s

-- `size`
unfoldable pub size : Shrinker ℕ → ℕ
unfolding bit_length
size s = bit_length s.current

module _ (predicate : ℕ → Bool) where
  -- λ k. k <= self.size and self.consider(base >> k)
  unfoldable pub try_shift : ℕ → Probe (Shrinker ℕ)
  unfolding size
  try_shift base k s =
      if leb k (size s) then consider smaller predicate (base / 2 ^ k) s else (false, s)

  -- `try_mask`: the lower bits are what division by a power of 2 leaves
  unfoldable pub try_mask : ℕ → Probe (Shrinker ℕ)
  unfolding bit_length
  try_mask base k s =
      if leb (bit_length base) k
      then (false, s)
      else consider smaller predicate (base % 2 ^ (bit_length base - k)) s

  -- `shrunk`: a negative attempt is refused
  unfoldable pub shrunk : ℕ → ℕ → Probe (Shrinker ℕ)
  shrunk base k n s =
      if leb (n * k) base then consider smaller predicate (base - n * k) s else (false, s)

  -- The searches refuse all numbers above the current value.
  unfoldable pub search : (ℕ → Probe (Shrinker ℕ)) → Shrinker ℕ → Option (Shrinker ℕ)
  unfolding left_by
  search f s = left_by (find_integer (f s.current) (s.current + 2) s)

  unfoldable pub shift_right : Shrinker ℕ → Option (Shrinker ℕ)
  unfolding search
  shift_right s = search try_shift s

  unfoldable pub mask_high_bits : Shrinker ℕ → Option (Shrinker ℕ)
  unfolding search
  mask_high_bits s = search try_mask s

  -- the result of `shrink_by_multiples` is not used
  unfoldable pub shrink_by_multiples : ℕ → Shrinker ℕ → Option (Shrinker ℕ)
  unfolding search
  shrink_by_multiples k s = search (λ base. shrunk base k) s

  -- squeeze the integer into a single byte
  unfoldable pub squeeze : Shrinker ℕ → Shrinker ℕ
  unfolding size
  squeeze s =
      if ltb 8 (size s)
      then (let s' = (consider smaller predicate (s.current / 2 ^ (size s - 8)) s).1 in
          (consider smaller predicate (s'.current % 256) s').1)
      else s

  unfoldable pub after_mask : Option (Shrinker ℕ) → Option (Bool × Shrinker ℕ)
  unfolding squeeze
  after_mask none = none
  after_mask (some s) = let s' = squeeze s in some (s'.current == 2, s')

  unfoldable pub short_circuit : Shrinker ℕ → Option (Bool × Shrinker ℕ)
  unfolding mask_high_bits after_mask
  short_circuit s =
      let (zero_taken, s0) = consider smaller predicate 0 s in
      let (one_taken, s1) = consider smaller predicate 1 s0 in
      if zero_taken
      then some (true, s0)
      else if one_taken
      then some (true, s1)
      else after_mask (mask_high_bits s1)

  unfoldable pub then_step :
      (Shrinker ℕ → Option (Shrinker ℕ)) → Option (Shrinker ℕ) → Option (Shrinker ℕ)
  then_step f none = none
  then_step f (some s) = f s

  unfoldable pub run_step : Shrinker ℕ → Option (Shrinker ℕ)
  unfolding then_step shift_right shrink_by_multiples
  run_step s = then_step (shrink_by_multiples 1) (then_step (shrink_by_multiples 2) (shift_right s))

  -- `Integer.shrink`: the value that is left. Every round of steps but the last makes it smaller.
  unfoldable pub current_of : Option (Shrinker ℕ) → Option ℕ
  current_of none = none
  current_of (some s) = some s.current

  unfoldable pub shrink : ℕ → Bool → Option ℕ
  unfolding current_of
  shrink initial full =
      current_of (run short_circuit run_step (initial + 1) (start smaller initial full))

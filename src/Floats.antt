-- ===== src/Floats.antt =====
-- internal/conjecture/floats.py: the order of floats, on their bits. Shifts are products with and quotients
-- by powers of two, masks of low bits are remainders, and `|` is a sum where its operands have no bit in
-- common. `float_to_int` and `int_to_float` read the bits of a float, so a float is its bits here.
pub mod Bits
pub mod Mantissa
pub mod Tables
pub mod RoundTrip
pub mod Examples
use hypothesis.Common.{
  ℕ, zero, suc, ◌+◌, ◌-◌, ◌*◌, ◌/◌, ◌^◌, Bool, true, false, Option, none, some, List, [], ◌∷◌, ltb,
  leb, ◌==◌, if◌then◌else◌, get_elem?, set, length,
}
use Prim.Native.Nat.{◌%◌}
use hypothesis.Common.Int.{ℤ, pos, negsuc, ◌-ℤ◌}
use hypothesis.Common.Result.{Result, ok, ◌>>=◌, ◌>>◌, check, of_option, index_error}

abbrev pub max_exponent : ℕ
max_exponent = 0x7FF

abbrev pub bias : ℕ
bias = 1023

-- `exponent_key`; none is the infinity.
unfoldable pub exponent_key : ℕ → Option ℕ
exponent_key e =
    if e == max_exponent then none else some (if ltb e bias then 10000 + (bias - e) else e - bias)

-- `reverse_byte`, from the result and what is left of `b` on
unfoldable pub reverse_byte_loop : ℕ → ℕ → ℕ → ℕ
reverse_byte_loop zero result b = result
reverse_byte_loop (suc rounds) result b = reverse_byte_loop rounds (result * 2 + b % 2) (b / 2)

unfoldable pub reverse_byte : ℕ → ℕ
unfolding reverse_byte_loop
reverse_byte b = reverse_byte_loop 8 0 b

-- `reverse64`; an entry of the table is what `reverse_byte` gives.
unfoldable pub reverse64 : ℕ → Result ℕ
reverse64 v = do
  check (ltb v (2 ^ 64))
  ok (
      reverse_byte (v % 256) * 2 ^ 56
      + reverse_byte (v / 2 ^ 8 % 256) * 2 ^ 48
      + reverse_byte (v / 2 ^ 16 % 256) * 2 ^ 40
      + reverse_byte (v / 2 ^ 24 % 256) * 2 ^ 32
      + reverse_byte (v / 2 ^ 32 % 256) * 2 ^ 24
      + reverse_byte (v / 2 ^ 40 % 256) * 2 ^ 16
      + reverse_byte (v / 2 ^ 48 % 256) * 2 ^ 8
      + reverse_byte (v / 2 ^ 56 % 256))

-- `reverse_bits`; `x.bit_length() <= n` is `x < 2 ** n`.
unfoldable pub reverse_bits : ℕ → ℕ → Result ℕ
unfolding reverse64
reverse_bits x n = do
  check (ltb x (2 ^ n))
  check (leb n 64)
  y ← reverse64 x
  ok (y / 2 ^ (64 - n))

-- `update_mantissa`
unfoldable pub update_mantissa : ℤ → ℕ → Result ℕ
unfolding reverse_bits
update_mantissa (negsuc n) mantissa = reverse_bits mantissa 52
update_mantissa (pos zero) mantissa = reverse_bits mantissa 52
update_mantissa (pos (suc u)) mantissa =
    if leb (suc u) 51
    then (do
      let fractional_part = mantissa % 2 ^ (52 - suc u)
      reversed ← reverse_bits fractional_part (52 - suc u)
      ok (mantissa - fractional_part + reversed))
    else ok mantissa

-- `sorted` by the keys, where none is above all others; it keeps the order of what has the same key.
unfoldable pub key_leq : Option ℕ → Option ℕ → Bool
key_leq none none = true
key_leq none (some b) = false
key_leq (some a) none = true
key_leq (some a) (some b) = leb a b

pub insert : ℕ → List ℕ → List ℕ
insert e [] = e ∷ []
insert e (f ∷ fs) =
    let rest = insert e fs in
    if key_leq (exponent_key e) (exponent_key f) then e ∷ f ∷ fs else f ∷ rest

pub sorted : List ℕ → List ℕ
sorted [] = []
sorted (e ∷ es) = insert e (sorted es)

-- range(start, start + n)
pub range : ℕ → ℕ → List ℕ
range start zero = []
range start (suc n) = start ∷ range (start + 1) n

unfoldable pub encoding_table : List ℕ
encoding_table = sorted (range 0 (max_exponent + 1))

-- DECODING_TABLE[b] = i, for i, b in enumerate(bs, i)
pub fill : ℕ → List ℕ → List ℕ → List ℕ
fill i [] table = table
fill i (b ∷ bs) table = fill (i + 1) bs (set table b i)

pub zeros : ℕ → List ℕ
zeros zero = []
zeros (suc n) = 0 ∷ zeros n

unfoldable pub decoding_table : List ℕ
decoding_table = fill 0 encoding_table (zeros (length encoding_table))

unfoldable pub decode_exponent : ℕ → Result ℕ
decode_exponent e = do
  check (leb e max_exponent)
  of_option index_error (get_elem? encoding_table e)

unfoldable pub encode_exponent : ℕ → Result ℕ
encode_exponent e = do
  check (leb e max_exponent)
  of_option index_error (get_elem? decoding_table e)

-- `base_float_to_lex`, of the bits of the float
unfoldable pub base_float_to_lex : ℕ → Result ℕ
base_float_to_lex bits = do
  let i = bits % 2 ^ 63
  mantissa ← update_mantissa (pos (i / 2 ^ 52) -ℤ pos bias) (i % 2 ^ 52)
  exponent ← encode_exponent (i / 2 ^ 52)
  check (ltb mantissa (2 ^ 52))
  ok (2 ^ 63 + exponent * 2 ^ 52 + mantissa)

module _ (of_int : ℕ → ℕ) (whole : ℕ → Option ℕ) where
  -- `is_simple`; `whole` is `int(f)` of the float with these bits, where that is equal to the float.
  unfoldable pub is_simple : ℕ → Bool
  is_simple bits = elim (whole bits) [ none ↦ false | some i ↦ ltb i (2 ^ 56) ]

  -- `float_to_lex`, for floats that are not negative
  unfoldable pub float_to_lex : ℕ → Result ℕ
  unfolding base_float_to_lex
  float_to_lex bits = elim (whole bits) [
    | none ↦ base_float_to_lex bits
    | some i ↦ if ltb i (2 ^ 56) then ok i else base_float_to_lex bits
  ]

  -- `lex_to_float`; `of_int` gives the bits of `float` of an integer.
  unfoldable pub lex_to_float : ℕ → Result ℕ
  unfolding decode_exponent update_mantissa
  lex_to_float i = do
    check (ltb i (2 ^ 64))
    if i / 2 ^ 63 == 0 then ok (of_int (i % 2 ^ 56)) else do
      exponent ← decode_exponent (i / 2 ^ 52 % 2 ^ 11)
      mantissa ← update_mantissa (pos exponent -ℤ pos bias) (i % 2 ^ 52)
      check (ltb mantissa (2 ^ 52))
      ok (exponent * 2 ^ 52 + mantissa)

-- ===== src/Floats/Examples.antt =====
-- Runs of the reversal of bits, and an instance of the theorem on the order of floats, at 1.5.
use hypothesis.Common.{ℕ, ◌^◌, ◌<◌, ◌≡◌, refl, Option, none, some, arith, ltb, ◌==◌, if◌then◌else◌}
use hypothesis.Common.Int.{pos}
use hypothesis.Common.Result.{ok}
use hypothesis.Floats.{
  reverse_byte, reverse_bits, update_mantissa, float_to_lex, is_simple, lex_to_float,
}
use hypothesis.Floats.RoundTrip.{float_roundtrip}

reverse_byte_runs : reverse_byte 0x13 ≡ 0xC8
unfolding reverse_byte
reverse_byte_runs = refl

reverse_bits_runs : reverse_bits 0x13 52 ≡ ok 0xC800000000000
unfolding reverse_bits reverse_byte
reverse_bits_runs = refl

-- The fraction of 2.5, with an unbiased exponent of 1
update_mantissa_runs : update_mantissa (pos 1) (2 ^ 50) ≡ ok 1
unfolding update_mantissa reverse_byte
update_mantissa_runs = refl

-- The bits of 2.0 and of 1.5
abbrev two : ℕ
two = 0x4000000000000000

abbrev one_and_a_half : ℕ
one_and_a_half = 0x3FF8000000000000

-- `float` and `int`, as far as 0.0 and 2.0 go
abbrev of_int : ℕ → ℕ
of_int n = if n == 2 then two else 0

abbrev whole : ℕ → Option ℕ
whole bits = if bits == two then some 2 else if bits == 0 then some 0 else none

float_roundtrip_example :
    (i : ℕ) × (float_to_lex of_int whole one_and_a_half ≡ ok i)
    × (i < 2 ^ 64)
    × (ltb i (2 ^ 56) ≡ is_simple of_int whole one_and_a_half)
    × (lex_to_float of_int whole i ≡ ok one_and_a_half)
float_roundtrip_example =
    float_roundtrip of_int whole one_and_a_half (omega arith) (λ i h. absurd cc)

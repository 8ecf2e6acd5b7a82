-- ===== src/Database/Examples.antt =====
-- Runs of the serialisation, and instances of its theorems, for a codec of short values.
use hypothesis.Common.{
  ℕ, zero, suc, ◌≡◌, refl, ap, true, some, List, [], ◌∷◌, length, replicate, if◌then◌else◌,
}
use hypothesis.Common.Int.{ℤ, pos, negsuc}
use hypothesis.Common.Result.{ok, raise, overflow_error}
use hypothesis.Database.{
  Choice, boolean, float, integer, bytes, string, Codec, pack_uleb128, pack_loop, choices_to_bytes,
  choices_from_bytes,
}
use hypothesis.Database.Lengths.{fits}
use hypothesis.Database.RoundTrip.{IsCodec, choices_roundtrip}

zeros : ℕ → List ℕ
zeros n = replicate n 0

length-zeros : (n : ℕ) → length (zeros n) ≡ n
unfolding zeros
length-zeros zero = refl
length-zeros (suc n) = ap suc (length-zeros n)

to_bytes : ℤ → List ℕ
to_bytes (pos n) = 0 ∷ zeros n
to_bytes (negsuc n) = 1 ∷ zeros n

from_bytes : List ℕ → ℤ
from_bytes [] = pos 0
from_bytes (zero ∷ b) = pos (length b)
from_bytes (suc s ∷ b) = negsuc (length b)

-- Floats are one value of eight bytes, integers a sign and as many zeros, and texts their bytes.
abbrev simple : Codec (Unit {0}) (List ℕ)
simple = record {
  pack_float = λ _. zeros 8;
  unpack_float = λ _. ok tt;
  int_to_bytes = λ size n. if fits size n then ok (to_bytes n) else raise overflow_error;
  int_from_bytes = from_bytes;
  encode = λ s. s;
  decode = ok;
}

int_inverse : (n : ℤ) → from_bytes (to_bytes n) ≡ n
unfolding to_bytes from_bytes
int_inverse (pos n) = ap pos (length-zeros n)
int_inverse (negsuc n) = ap negsuc (length-zeros n)

simple-IsCodec : IsCodec simple
simple-IsCodec = record {
  float_size = λ _. length-zeros 8;
  float_inverse = λ _. refl;
  int_inverse = λ size n _ h. (to_bytes n, rw h refl, int_inverse n);
  int_overflow = λ size n h. rw h refl;
  string_inverse = λ _. refl;
}

abbrev some_choices : List (Choice (Unit {0}) (List ℕ))
some_choices =
    boolean true ∷ integer (negsuc 1) ∷ bytes (7 ∷ []) ∷ float tt ∷ string (65 ∷ 66 ∷ []) ∷ []

choices_roundtrip_example :
    (bs : List ℕ) × (choices_to_bytes simple some_choices ≡ ok bs)
    × (choices_from_bytes simple bs ≡ some some_choices)
choices_roundtrip_example = choices_roundtrip simple simple-IsCodec some_choices

pack_runs : pack_uleb128 300 ≡ 172 ∷ 2 ∷ []
unfolding pack_uleb128 pack_loop
pack_runs = refl

-- ===== src/Database.antt =====
-- The serialisation of choices of database.py: `_pack_uleb128`, `_unpack_uleb128`, `choices_to_bytes` and
-- `choices_from_bytes`. A byte is a number below 256; `x | y` of bits apart is x + y, and a shift by 7
-- bits multiplies or divides by 128. The encodings of floats, of integers in two's complement of a given
-- number of bytes and of text are those of Python's struct, int and str: they are parameters.
pub mod Leb
pub mod Lengths
pub mod RoundTrip
pub mod Examples
use hypothesis.Common.{
  ℕ, zero, suc, ◌+◌, ◌*◌, ◌/◌, ◌%◌, ◌^◌, ◌≡◌, Bool, true, false, not, Option, none, some, List, [],
  ◌∷◌, ◌++◌, ltb, ◌==◌, if◌then◌else◌, length, take, drop,
}
use hypothesis.Common.Int.{ℤ, abs}
use hypothesis.Shrinking.Integer.{bit_length}
use hypothesis.Common.Result.{
  Result, ok, raise, ◌>>=◌, ◌>>◌, check, unbound_local_error, assertion_error,
}

-- The loop of `_pack_uleb128`: each round divides by 128, so `value + 1` rounds are enough.
unfoldable pub pack_loop : ℕ → ℕ → List ℕ
pack_loop zero value = []
pack_loop (suc fuel) value =
    let rest = pack_loop fuel (value / 128) in
    if value / 128 == 0 then value % 128 ∷ [] else (value % 128 + 128) ∷ rest

unfoldable pub pack_uleb128 : ℕ → List ℕ
pack_uleb128 value = pack_loop (suc value) value

-- The loop of `_unpack_uleb128`, where `i` bytes were read
unfoldable pub unpack_loop : ℕ → ℕ → List ℕ → ℕ × ℕ
unpack_loop i value [] = (i, value)
unpack_loop i value (byte ∷ buffer) =
    let value' = value + byte % 128 * 128 ^ i in
    let rest = unpack_loop (i + 1) value' buffer in
    if byte / 128 == 0 then (i + 1, value') else rest

-- `_unpack_uleb128`; of no bytes at all it reads the variable of its loop before that is bound.
unfoldable pub unpack_uleb128 : List ℕ → Result (ℕ × ℕ)
unpack_uleb128 [] = raise unbound_local_error
unpack_uleb128 (byte ∷ buffer) = ok (unpack_loop 0 0 (byte ∷ buffer))

pub data Choice {ℓ} (Float String : Type ℓ) : Type ℓ where
  boolean : Bool → Choice Float String
  float : Float → Choice Float String
  integer : ℤ → Choice Float String
  bytes : List ℕ → Choice Float String
  string : String → Choice Float String

-- struct.pack and struct.unpack, int.to_bytes and int.from_bytes, str.encode and bytes.decode
pub record Codec {ℓ} (Float String : Type ℓ) : Type ℓ where
  pub pack_float : Float → List ℕ
  pub unpack_float : List ℕ → Result Float
  -- n.to_bytes(length, "big", signed=True), of the length and n
  pub int_to_bytes : ℕ → ℤ → Result (List ℕ)
  pub int_from_bytes : List ℕ → ℤ
  pub encode : String → List ℕ
  pub decode : List ℕ → Result String

-- The metadata byte and the size, after which the payload comes
unfoldable pub header : ℕ → ℕ → List ℕ
header tag size =
    if ltb size 31 then (tag * 32 + size) ∷ [] else (tag * 32 + 31) ∷ pack_uleb128 size

-- if size == 0b11111: offset, size = _unpack_uleb128(buffer[idx:]); idx += offset
unfoldable pub read_size : ℕ → List ℕ → Result (ℕ × List ℕ)
read_size size buffer =
    if size == 31
    then (do (offset, size') ← unpack_uleb128 buffer; ok (size', drop offset buffer))
    else ok (size, buffer)

module _ {ℓ} {Float String : Type ℓ} (codec : Codec Float String) where
  unfoldable pub framed : ℕ → List ℕ → List ℕ
  framed tag payload = header tag (length payload) ++ payload

  unfoldable pub choice_to_bytes : Choice Float String → Result (List ℕ)
  choice_to_bytes (boolean true) = ok (1 ∷ [])
  choice_to_bytes (boolean false) = ok (0 ∷ [])
  choice_to_bytes (float f) = ok (framed 1 (codec.pack_float f))
  choice_to_bytes (integer n) = do
    payload ← codec.int_to_bytes (1 + bit_length (abs n) / 8) n
    ok (framed 2 payload)
  choice_to_bytes (bytes b) = ok (framed 3 b)
  choice_to_bytes (string s) = ok (framed 4 (codec.encode s))

  unfoldable pub choices_to_bytes : List (Choice Float String) → Result (List ℕ)
  choices_to_bytes [] = ok []
  choices_to_bytes (c ∷ cs) = do
    part ← choice_to_bytes c
    parts ← choices_to_bytes cs
    ok (part ++ parts)

  unfoldable pub read_payload : ℕ → ℕ → List ℕ → Result (Choice Float String)
  read_payload tag size chunk =
      if tag == 1
      then (do check (size == 8); f ← codec.unpack_float chunk; ok (float f))
      else if tag == 2
      then ok (integer (codec.int_from_bytes chunk))
      else if tag == 3
      then ok (bytes chunk)
      else (do check (tag == 4); s ← codec.decode chunk; ok (string s))

  -- The loop of `_choices_from_bytes` over `buffer[idx:]`; each round reads a byte at least, so as many
  -- rounds as there are bytes are enough.
  unfoldable pub read_loop : ℕ → List ℕ → Result (List (Choice Float String))
  read_loop fuel [] = ok []
  read_loop zero (b ∷ buffer) = raise assertion_error
  read_loop (suc fuel) (b ∷ buffer) =
      if b / 32 == 0
      then (do rest ← read_loop fuel buffer; ok (boolean (not (b % 32 == 0)) ∷ rest))
      else (do
        (size, buffer') ← read_size (b % 32) buffer
        c ← read_payload (b / 32) size (take size buffer')
        rest ← read_loop fuel (drop size buffer')
        ok (c ∷ rest))

  -- `choices_from_bytes`, where any exception gives None
  unfoldable pub choices_from_bytes : List ℕ → Option (List (Choice Float String))
  choices_from_bytes buffer = elim (read_loop (length buffer) buffer) [
    | ok choices ↦ some choices
    | raise e ↦ none
  ]

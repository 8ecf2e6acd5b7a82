-- ===== src/Database/RoundTrip.antt =====
-- `choices_from_bytes` inverts `choices_to_bytes`.
use hypothesis.Common.{
  ℕ, zero, suc, ◌+◌, ◌*◌, ◌/◌, ◌%◌, ◌≤◌, ◌<◌, ◌≡◌, refl, ap, ◌∙◌, Bool, true, false, some, List, [],
  ◌∷◌, ◌++◌, append_assoc, arith, ltb, ◌==◌, length, length-append, take, drop, dec_lt,
}
use hypothesis.Common.Int.{ℤ, abs}
use hypothesis.Shrinking.Integer.{bit_length}
use hypothesis.Common.Result.{ok, raise, ◌>>=◌, overflow_error}
use hypothesis.Database.{
  Choice, boolean, float, integer, bytes, string, Codec, header, read_size, framed, choice_to_bytes,
  choices_to_bytes, read_payload, read_loop, choices_from_bytes, pack_uleb128,
}
use hypothesis.Database.Lengths.{fits, length-fits}
use hypothesis.Database.Leb.{unpack_uleb128-pack_uleb128}

-- Floats are packed into eight bytes, and each of the three encodings can be read again; an integer is
-- written exactly if it fits the number of bytes.
pub record IsCodec {ℓ} {Float String : Type ℓ} (codec : Codec Float String) : Type ℓ where
  pub float_size : (f : Float) → length (codec.pack_float f) ≡ 8
  pub float_inverse : (f : Float) → codec.unpack_float (codec.pack_float f) ≡ ok f
  pub int_inverse :
      (size : ℕ) (n : ℤ)
      → 0 < size
      → fits size n ≡ true
      → (b : List ℕ) × (codec.int_to_bytes size n ≡ ok b) × (codec.int_from_bytes b ≡ n)
  pub int_overflow :
      (size : ℕ) (n : ℤ) → fits size n ≡ false → codec.int_to_bytes size n ≡ raise overflow_error
  pub string_inverse : (s : String) → codec.decode (codec.encode s) ≡ ok s

take-length : (xs ys : List ℕ) → take (length xs) (xs ++ ys) ≡ xs
take-length [] ys = refl
take-length (x ∷ xs) ys = ap (◌∷◌ x) (take-length xs ys)

drop-length : (xs ys : List ℕ) → drop (length xs) (xs ++ ys) ≡ ys
drop-length [] ys = refl
drop-length (x ∷ xs) ys = drop-length xs ys

-- The header of a payload is one byte, and then the size if it does not fit in there.
header_lem :
    (tag n : ℕ) (buffer : List ℕ)
    → (s : ℕ) × (h : List ℕ) × (header tag n ≡ (tag * 32 + s) ∷ h)
      × (s < 32)
      × (read_size s (h ++ buffer) ≡ ok (n, buffer))
unfolding header read_size
header_lem tag n buffer = elim (dec_lt n 31) [
  | yes l ↦
      let small : ltb n 31 ≡ true = ground arith in
      let short : (n == 31) ≡ false = ground arith in (n, [], rw small, omega arith, rw short)
  | no l ↦
      let large : ltb n 31 ≡ false = ground arith in
      (
        31,
        pack_uleb128 n,
        rw large,
        omega arith,
        rw (unpack_uleb128-pack_uleb128 n buffer, drop-length (pack_uleb128 n) buffer),
      )
]

module _ {ℓ} {Float String : Type ℓ} (codec : Codec Float String) where
  read_loop_nil : (fuel : ℕ) → read_loop codec fuel [] ≡ ok []
  unfolding read_loop
  read_loop_nil zero = refl
  read_loop_nil (suc fuel) = refl

  framed_step :
      (tag : ℕ) (payload : List ℕ) (c : Choice Float String) (fuel : ℕ) (buffer : List ℕ)
      → 0 < tag
      → read_payload codec tag (length payload) payload ≡ ok c
      → read_loop codec (suc fuel) (framed codec tag payload ++ buffer)
        ≡ (read_loop codec fuel buffer >>= λ rest. ok (c ∷ rest))
  unfolding framed read_loop
  framed_step tag payload c fuel buffer t e =
      let (s, h, q, l, r) = header_lem tag (length payload) (payload ++ buffer) in
      let high : (tag * 32 + s) / 32 ≡ tag = omega arith in
      let low : (tag * 32 + s) % 32 ≡ s = omega arith in
      let tagged : (tag == 0) ≡ false = ground arith in
      rw (
        q,
        append_assoc h payload buffer,
        high,
        low,
        tagged,
        r,
        take-length payload buffer,
        e,
        drop-length payload buffer,
      )

  framed_some : (tag : ℕ) (payload : List ℕ) → 0 < length (framed codec tag payload)
  unfolding framed
  framed_some tag payload =
      let (s, h, q, l, r) = header_lem tag (length payload) [] in rw q (omega arith)

  -- Some bytes that the next round reads as `c`.
  IsRead : Choice Float String → List ℕ → Type ℓ
  IsRead c b =
      (0 < length b)
      × ((fuel : ℕ) (buffer : List ℕ)
          → read_loop codec (suc fuel) (b ++ buffer)
            ≡ (read_loop codec fuel buffer >>= λ rest. ok (c ∷ rest)))

  framed-IsRead :
      (tag : ℕ) (payload : List ℕ) (c : Choice Float String)
      → 0 < tag
      → read_payload codec tag (length payload) payload ≡ ok c
      → IsRead c (framed codec tag payload)
  unfolding IsRead
  framed-IsRead tag payload c t e =
      (framed_some tag payload, λ fuel buffer. framed_step tag payload c fuel buffer t e)

  boolean-IsRead :
      (b : Bool)
      → (part : List ℕ) × (choice_to_bytes codec (boolean b) ≡ ok part) × IsRead (boolean b) part
  unfolding IsRead read_loop choice_to_bytes
  boolean-IsRead true = (1 ∷ [], refl, (omega arith, λ fuel buffer. refl))
  boolean-IsRead false = (0 ∷ [], refl, (omega arith, λ fuel buffer. refl))

  read_cons :
      (c : Choice Float String) (part parts : List ℕ) (cs : List (Choice Float String))
      → IsRead c part
      → ((fuel : ℕ) → length parts ≤ fuel → read_loop codec fuel parts ≡ ok cs)
      → (fuel : ℕ) → length (part ++ parts) ≤ fuel
      → read_loop codec fuel (part ++ parts) ≡ ok (c ∷ cs)
  unfolding IsRead
  read_cons c part parts cs r rest zero h =
      let positive = r.0 in absurd (omega (arith, length-append part parts))
  read_cons c part parts cs r rest (suc fuel) h =
      let positive = r.0 in
      r.1 fuel parts ∙ rw (rest fuel (omega (arith, length-append part parts))) refl

  module _ (laws : IsCodec codec) where
    choice-IsRead :
        (c : Choice Float String)
        → (part : List ℕ) × (choice_to_bytes codec c ≡ ok part) × IsRead c part
    unfolding choice_to_bytes read_payload
    choice-IsRead (boolean b) = boolean-IsRead b
    choice-IsRead (float f) = (
      framed codec 1 (codec.pack_float f),
      refl,
      framed-IsRead 1 (codec.pack_float f) (float f) (omega arith)
          (rw (laws.float_size f, laws.float_inverse f)),
    )
    choice-IsRead (integer n) =
        let (b, w, r) =
          laws.int_inverse (1 + bit_length (abs n) / 8) n (omega arith) (length-fits n) in
        (framed codec 2 b, rw w refl, framed-IsRead 2 b (integer n) (omega arith) (rw r))
    choice-IsRead (bytes b) =
        (framed codec 3 b, refl, framed-IsRead 3 b (bytes b) (omega arith) refl)
    choice-IsRead (string s) = (
      framed codec 4 (codec.encode s),
      refl,
      framed-IsRead 4 (codec.encode s) (string s) (omega arith) (rw (laws.string_inverse s)),
    )

    choices_read :
        (choices : List (Choice Float String))
        → (bs : List ℕ) × (choices_to_bytes codec choices ≡ ok bs)
          × ((fuel : ℕ) → length bs ≤ fuel → read_loop codec fuel bs ≡ ok choices)
    unfolding choices_to_bytes
    choices_read [] = ([], refl, λ fuel _. read_loop_nil fuel)
    choices_read (c ∷ cs) =
        let (part, w, read) = choice-IsRead c in
        let (parts, ws, rest) = choices_read cs in
        (part ++ parts, rw (w, ws) refl, read_cons c part parts cs read rest)

    -- Writing any list of choices raises nothing, so the number of bytes computed for an integer is always
    -- enough, and reading the bytes gives the choices. The encodings are assumed to be as documented: what
    -- was written can be read again, and an integer that does not fit its bytes is an OverflowError.
    pub choices_roundtrip :
        (choices : List (Choice Float String))
        → (bs : List ℕ) × (choices_to_bytes codec choices ≡ ok bs)
          × (choices_from_bytes codec bs ≡ some choices)
    unfolding choices_from_bytes
    choices_roundtrip choices =
        let (bs, w, r) = choices_read choices in
        (bs, w, rw (r (length bs) (omega arith), choices_from_bytes) refl)

-- ===== src/Fingerprint/Wire.antt =====
-- The readers of golang.org/x/crypto/cryptobyte, which fingerprint/clienthello.go imports and the
-- repository does not hold: an interface that the parser takes, and what its documentation says.
-- A `cryptobyte.String` is a byte slice, a reader reports whether the read was successful, and
-- reads no further bytes of a string after a failure anywhere in the parser.
use tls_forge.Base.{
  ℕ, ◌+◌, ◌*◌, ◌/◌, ◌%◌, [], ◌∷◌, ◌++◌, Option, none, some, ◌≡◌, refl, arith, leb, if◌then◌else◌,
  Text, length, take, drop, take-append, drop-append, length-append,
}

pub record Cryptobyte : Type 0 where
  pub read_uint8 : Text → Option (ℕ × Text)
  pub read_uint16 : Text → Option (ℕ × Text)
  pub read_bytes : ℕ → Text → Option (Text × Text)
  pub read_uint8_length_prefixed : Text → Option (Text × Text)
  pub read_uint16_length_prefixed : Text → Option (Text × Text)

-- ReadUint8 decodes an 8-bit value and advances over it.
unfoldable pub first_byte : Text → Option (ℕ × Text)
first_byte [] = none
first_byte (b ∷ s) = some (b, s)

-- ReadUint16 decodes a big-endian, 16-bit value and advances over it.
unfoldable pub big_endian : Text → Option (ℕ × Text)
big_endian (a ∷ b ∷ s) = some (a * 256 + b, s)
big_endian _ = none

-- ReadBytes reads n bytes and advances over them.
unfoldable pub cut : ℕ → Text → Option (Text × Text)
cut n s = if leb n (length s) then some (take n s, drop n s) else none

abbrev pub cut_at : Option (ℕ × Text) → Option (Text × Text)
cut_at none = none
cut_at (some (n, s)) = cut n s

-- What the documentation of the package says of each reader.
pub record IsDocumented (cb : Cryptobyte) : Type 0 where
  pub uint8 : (s : Text) → cb.read_uint8 s ≡ first_byte s
  pub uint16 : (s : Text) → cb.read_uint16 s ≡ big_endian s
  pub bytes : (n : ℕ) (s : Text) → cb.read_bytes n s ≡ cut n s
  pub uint8_length_prefixed : (s : Text) → cb.read_uint8_length_prefixed s ≡ cut_at (first_byte s)
  pub uint16_length_prefixed : (s : Text) → cb.read_uint16_length_prefixed s ≡ cut_at (big_endian s)

-- Readers that meet it.
abbrev pub documented : Cryptobyte
documented = record {
  read_uint8 = first_byte;
  read_uint16 = big_endian;
  read_bytes = cut;
  read_uint8_length_prefixed = λ s. cut_at (first_byte s);
  read_uint16_length_prefixed = λ s. cut_at (big_endian s);
}

pub documented-IsDocumented : IsDocumented documented
documented-IsDocumented = record {
  uint8 = λ s. refl;
  uint16 = λ s. refl;
  bytes = λ n s. refl;
  uint8_length_prefixed = λ s. refl;
  uint16_length_prefixed = λ s. refl;
}

-- Two bytes, high one first, as a sender writes a 16-bit number.
abbrev pub encode16 : ℕ → Text
encode16 n = n / 256 ∷ n % 256 ∷ []

abbrev pub prefixed8 : Text → Text
prefixed8 t = length t ∷ t

abbrev pub prefixed16 : Text → Text
prefixed16 t = encode16 (length t) ++ t

pub cut-append : (t rest : Text) → cut (length t) (t ++ rest) ≡ some (t, rest)
unfolding cut
cut-append t rest = ground (arith, take-append t rest, drop-append t rest, length-append t rest)

module _ (cb : Cryptobyte) (doc : IsDocumented cb) where
  pub read_uint16-encode16 :
      (n : ℕ) (rest : Text) → cb.read_uint16 (encode16 n ++ rest) ≡ some (n, rest)
  unfolding big_endian
  read_uint16-encode16 n rest = rw doc.uint16 (ground arith)

  pub read_uint8_length_prefixed-prefixed8 :
      (t rest : Text) → cb.read_uint8_length_prefixed (prefixed8 t ++ rest) ≡ some (t, rest)
  unfolding first_byte
  read_uint8_length_prefixed-prefixed8 t rest = rw doc.uint8_length_prefixed (cut-append t rest)

  pub read_uint16_length_prefixed-prefixed16 :
      (t rest : Text) → cb.read_uint16_length_prefixed (prefixed16 t ++ rest) ≡ some (t, rest)
  unfolding big_endian
  read_uint16_length_prefixed-prefixed16 t rest = rw doc.uint16_length_prefixed (
      let e : length t / 256 * 256 + length t % 256 ≡ length t = omega arith in
      rw e (cut-append t rest))

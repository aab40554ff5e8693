-- ===== src/Fingerprint/Parse.antt =====
-- fingerprint/clienthello.go: `completeHandshake`, `handshakeBody` and `ParseClientHello`, over
-- any implementation of the readers. A loop runs on fuel: each round reads at least one byte, so
-- the length of the input, plus one, is enough. Bytes are below 256, so `a<<8 | b` is a sum.
pub mod Records
pub mod RoundTrip
pub mod Bounds
use tls_forge.Base.{
  ℕ, zero, suc, ◌+◌, ◌-◌, ◌*◌, ◌/◌, ◌%◌, Bool, true, false, not, ◌||◌, List, [], ◌∷◌, ◌++◌, Option,
  none, some, ltb, ◌==◌, if◌then◌else◌, Text, length, take, drop,
}
use tls_forge.Fingerprint.Wire.{Cryptobyte}
use tls_forge.Fingerprint.Hello.{
  Extension, ClientHello, Result, ok, err, ◌>>=◌, or_fail, record_type_handshake, type_client_hello,
  max_handshake_size, not_client_hello, truncated_record, handshake_too_large, no_records,
  incomplete, truncated_version, truncated_random, truncated_session_id, malformed_ciphers,
  truncated_compression, truncated_extensions, malformed_extension, out_of_fuel, Error,
}

unfoldable pub complete_handshake : Text → Option Text
complete_handshake (t ∷ a ∷ b ∷ c ∷ rest) =
    let n = a * 65536 + b * 256 + c in if ltb (length rest) n then none else some (take n rest)
complete_handshake _ = none

-- What one round of `handshakeBody` decides from the bytes gathered so far.
pub data Progress : Type 0 where
  refused : Error → Progress
  unfinished : Progress
  complete : Text → Progress

abbrev pub done_if : Option Text → Progress
done_if none = unfinished
done_if (some body) = complete body

unfoldable pub progress : Text → Progress
unfolding complete_handshake
progress [] = unfinished
progress (t ∷ rest) =
    if not (t == type_client_hello)
    then refused not_client_hello
    else if ltb max_handshake_size (length (t ∷ rest))
    then refused handshake_too_large
    else done_if (complete_handshake (t ∷ rest))

abbrev pub no_body : Text → Error
no_body [] = no_records
no_body (c ∷ handshake) = incomplete

abbrev pub vector : Option (ℕ × Text) → (ℕ → Text → List ℕ) → List ℕ
vector none k = []
vector (some (v, s)) k = k v s

-- What a read that may fail leaves of a variable that is 0 and of its input.
abbrev pub after_read : Text → Option (ℕ × Text) → ℕ × Text
after_read s none = (0, s)
after_read s (some (v, s')) = (v, s')

abbrev pub even_or_fail : Text → Result (Unit {0})
even_or_fail ciphers = if length ciphers % 2 == 0 then ok tt else err malformed_ciphers

module _ (cb : Cryptobyte) where
  -- The header and the payload of one record.
  unfoldable pub read_record : Text → Result (ℕ × Text × Text)
  read_record s = do
    (record_type, s1) ← or_fail truncated_record (cb.read_uint8 s)
    (version, s2) ← or_fail truncated_record (cb.read_uint16 s1)
    (payload, s3) ← or_fail truncated_record (cb.read_uint16_length_prefixed s2)
    ok (record_type, payload, s3)

  -- The loop of `handshakeBody`: the body, and what is left of the records.
  unfoldable pub body_loop : ℕ → Text → Text → Result (Text × Text)
  unfolding read_record progress
  body_loop zero s handshake = err out_of_fuel
  body_loop (suc fuel) [] handshake = err (no_body handshake)
  body_loop (suc fuel) (c ∷ s) handshake = do
    (record_type, payload, s') ← read_record (c ∷ s)
    let gathered = handshake ++ payload
    if not (record_type == record_type_handshake)
        then err not_client_hello
        else elim (progress gathered) [
          | refused e ↦ err e
          | unfinished ↦ body_loop fuel s' gathered
          | complete body ↦ ok (body, s')
        ]

  -- The body and the number of bytes consumed.
  unfoldable pub handshake_body : Text → Result (Text × ℕ)
  unfolding body_loop
  handshake_body records = do
    (body, s) ← body_loop (suc (length records)) records []
    ok (body, length records - length s)

  -- The loop of `uint16Vector`, whose input has an even length.
  unfoldable pub uint16_loop : ℕ → Text → List ℕ
  uint16_loop zero s = []
  uint16_loop (suc fuel) [] = []
  uint16_loop (suc fuel) (c ∷ s) = vector (cb.read_uint16 (c ∷ s)) (λ v s'. v ∷ uint16_loop fuel s')

  unfoldable pub uint16_all : Text → List ℕ
  unfolding uint16_loop
  uint16_all s = uint16_loop (length s) s

  -- The loop over the cipher suites, `for !ciphers.Empty() { ciphers.ReadUint16(&c); … }`: a read
  -- that fails leaves its input and the number 0, so the loop would not end.
  unfoldable pub cipher_loop : ℕ → Text → Result (List ℕ)
  cipher_loop zero s = err out_of_fuel
  cipher_loop (suc fuel) [] = ok []
  cipher_loop (suc fuel) (c ∷ s) =
      let (v, s') = after_read (c ∷ s) (cb.read_uint16 (c ∷ s)) in
      cipher_loop fuel s' >>= λ more. ok (v ∷ more)

  unfoldable pub extension_loop : ℕ → Text → Result (List Extension)
  extension_loop zero s = err out_of_fuel
  extension_loop (suc fuel) [] = ok []
  extension_loop (suc fuel) (c ∷ s) = do
    (typ, s1) ← or_fail malformed_extension (cb.read_uint16 (c ∷ s))
    (data_, s2) ← or_fail malformed_extension (cb.read_uint16_length_prefixed s1)
    more ← extension_loop fuel s2
    ok (record { type = typ; body = data_ } ∷ more)

  -- The extension block, which may be left out.
  unfoldable pub read_extensions : Text → Result (List Extension)
  unfolding extension_loop
  read_extensions [] = ok []
  read_extensions (c ∷ s) = do
    (extensions, s') ← or_fail truncated_extensions (cb.read_uint16_length_prefixed (c ∷ s))
    extension_loop (suc (length extensions)) extensions

  unfoldable pub parse_client_hello : Text → Result ClientHello
  unfolding handshake_body cipher_loop read_extensions
  parse_client_hello records = do
    (body, consumed) ← handshake_body records
    (legacy_version, s1) ← or_fail truncated_version (cb.read_uint16 body)
    (random, s2) ← or_fail truncated_random (cb.read_bytes 32 s1)
    (session_id, s3) ← or_fail truncated_session_id (cb.read_uint8_length_prefixed s2)
    (ciphers, s4) ← or_fail malformed_ciphers (cb.read_uint16_length_prefixed s3)
    even ← even_or_fail ciphers
    suites ← cipher_loop (suc (length ciphers)) ciphers
    (compression, s5) ← or_fail truncated_compression (cb.read_uint8_length_prefixed s4)
    extensions ← read_extensions s5
    ok (record {
      raw = take consumed records;
      legacy_version = legacy_version;
      random = random;
      session_id = session_id;
      cipher_suites = suites;
      compression_methods = compression;
      extensions = extensions;
    })

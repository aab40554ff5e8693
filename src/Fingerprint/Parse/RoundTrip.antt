-- ===== src/Fingerprint/Parse/RoundTrip.antt =====
-- `ParseClientHello` against an independent encoder of the message.
use tls_forge.Base.{
  ℕ, zero, suc, ◌+◌, ◌*◌, ◌≤◌, ◌<◌, List, [], ◌∷◌, ◌++◌, ◌≡◌, refl, ap, arith, Text, length,
  length-append, append-nil, take-append,
}
use tls_forge.Fingerprint.Wire.{
  Cryptobyte, IsDocumented, encode16, prefixed8, prefixed16, cut-append, read_uint16-encode16,
  read_uint8_length_prefixed-prefixed8, read_uint16_length_prefixed-prefixed16,
}
use tls_forge.Fingerprint.Hello.{Extension, ClientHello, ok, max_handshake_size}
use tls_forge.Fingerprint.Parse.{
  uint16_loop, uint16_all, cipher_loop, extension_loop, read_extensions, parse_client_hello,
  even_or_fail,
}
use tls_forge.Fingerprint.Parse.Records.{
  message, records_onto, Splits, handshake_body-records, records_onto-append,
}

abbrev pub encode16s : List ℕ → Text
encode16s [] = []
encode16s (v ∷ vs) = encode16 v ++ encode16s vs

abbrev pub encode_extensions : List Extension → Text
encode_extensions [] = []
encode_extensions (e ∷ es) = encode16 e.type ++ (prefixed16 e.body ++ encode_extensions es)

-- A block with no extension is left out, as TLS 1.2 allows.
abbrev pub encode_block : List Extension → Text
encode_block [] = []
encode_block (e ∷ es) = prefixed16 (encode_extensions (e ∷ es))

abbrev pub encode_hello : ClientHello → Text
encode_hello h =
    encode16 h.legacy_version
    ++ (h.random
        ++ (prefixed8 h.session_id
            ++ (prefixed16 (encode16s h.cipher_suites)
                ++ (prefixed8 h.compression_methods ++ encode_block h.extensions))))

pub length-encode16s : (vs : List ℕ) → length (encode16s vs) ≡ 2 * length vs
length-encode16s [] = refl
length-encode16s (v ∷ vs) = omega (arith, length-encode16s vs)

even-encode16s : (vs : List ℕ) → even_or_fail (encode16s vs) ≡ ok tt
even-encode16s vs = ground (arith, length-encode16s vs)

module _ (cb : Cryptobyte) (doc : IsDocumented cb) where
  uint16_loop-encode16s :
      (vs : List ℕ) (fuel : ℕ)
      → length (encode16s vs) ≤ fuel
      → uint16_loop cb fuel (encode16s vs) ≡ vs
  unfolding uint16_loop
  uint16_loop-encode16s [] zero h = refl
  uint16_loop-encode16s [] (suc fuel) h = refl
  uint16_loop-encode16s (v ∷ vs) zero h = elim h [ ]
  uint16_loop-encode16s (v ∷ vs) (suc fuel) h =
      rw (read_uint16-encode16 cb doc v (encode16s vs))
        (ap (◌∷◌ v) (uint16_loop-encode16s vs fuel (omega arith)))

  pub uint16_all-encode16s : (vs : List ℕ) → uint16_all cb (encode16s vs) ≡ vs
  unfolding uint16_all
  uint16_all-encode16s vs = uint16_loop-encode16s vs (length (encode16s vs)) (omega arith)

  cipher_loop-encode16s :
      (vs : List ℕ) (fuel : ℕ)
      → length (encode16s vs) < fuel
      → cipher_loop cb fuel (encode16s vs) ≡ ok vs
  unfolding cipher_loop
  cipher_loop-encode16s vs zero h = elim h [ ]
  cipher_loop-encode16s [] (suc fuel) h = refl
  cipher_loop-encode16s (v ∷ vs) (suc fuel) h =
      rw (read_uint16-encode16 cb doc v (encode16s vs), cipher_loop-encode16s vs fuel (omega arith))
        refl

  extension_loop-encode :
      (es : List Extension) (fuel : ℕ)
      → length (encode_extensions es) < fuel
      → extension_loop cb fuel (encode_extensions es) ≡ ok es
  unfolding extension_loop
  extension_loop-encode es zero h = elim h [ ]
  extension_loop-encode [] (suc fuel) h = refl
  extension_loop-encode (e ∷ es) (suc fuel) h = rw (
    read_uint16-encode16 cb doc e.type (prefixed16 e.body ++ encode_extensions es),
    read_uint16_length_prefixed-prefixed16 cb doc e.body (encode_extensions es),
    extension_loop-encode es fuel (omega (arith, length-append e.body (encode_extensions es))),
  )

  read_extensions-encode : (es : List Extension) → read_extensions cb (encode_block es) ≡ ok es
  unfolding read_extensions
  read_extensions-encode [] = refl
  read_extensions-encode (e ∷ es) =
      let block = encode_extensions (e ∷ es) in
      let read =
        rw (append-nil block) at (read_uint16_length_prefixed-prefixed16 cb doc block []) in
      rw read (extension_loop-encode (e ∷ es) (suc (length block)) (omega arith))

  -- Parsing reads back every hello that a client encodes: whatever the version on the records,
  -- however the message is split over them, and whatever follows, if its random has 32 bytes and
  -- it is within 131,072 bytes with its header of four. `raw` is exactly the records that it takes.
  pub parse_client_hello-encode :
      (h : ClientHello) (version : ℕ) (ps : List Text) (rest : Text)
      → length h.random ≡ 32
      → 4 + length (encode_hello h) ≤ max_handshake_size
      → Splits [] ps (message (encode_hello h))
      → parse_client_hello cb (records_onto version ps rest)
        ≡ ok (record h { raw = records_onto version ps [] })
  unfolding parse_client_hello
  parse_client_hello-encode h version ps rest r fits s =
      let compression = prefixed8 h.compression_methods ++ encode_block h.extensions in
      let ciphers = prefixed16 (encode16s h.cipher_suites) ++ compression in
      let session = prefixed8 h.session_id ++ ciphers in
      let read_random = rw r at (cut-append h.random session) in
      rw (
        handshake_body-records cb doc version (encode_hello h) fits ps rest s,
        read_uint16-encode16 cb doc h.legacy_version (h.random ++ session),
        doc.bytes 32 (h.random ++ session),
        read_random,
        read_uint8_length_prefixed-prefixed8 cb doc h.session_id ciphers,
        read_uint16_length_prefixed-prefixed16 cb doc (encode16s h.cipher_suites) compression,
        even-encode16s h.cipher_suites,
        cipher_loop-encode16s h.cipher_suites (suc (length (encode16s h.cipher_suites)))
            (omega arith),
        read_uint8_length_prefixed-prefixed8 cb doc h.compression_methods
            (encode_block h.extensions),
        read_extensions-encode h.extensions,
        records_onto-append version ps rest,
        take-append (records_onto version ps []) rest,
      )

-- ===== src/Fingerprint/Parse/Bounds.antt =====
-- fingerprint/clienthello.go: the parser on any bytes, the fuel of its loops and what they gather.
use tls_forge.Base.{
  ℕ, zero, suc, ◌+◌, ◌*◌, ◌%◌, ◌==◌, ==_iff, Bool-cases, ◌≤◌, ◌<◌, ◌⊎◌, inl, inr, [], ◌∷◌, ◌++◌,
  Option, none, some, ◌≡◌, ◌≢◌, refl, arith, Text, length, length-drop, length-take, Option-cases,
}
use tls_forge.Fingerprint.Wire.{Cryptobyte, IsDocumented, first_byte, big_endian, cut, cut_at}
use tls_forge.Fingerprint.Hello.{
  Result, ok, err, or_fail, max_handshake_size, out_of_fuel, Error, truncated_version,
  truncated_random, truncated_session_id, malformed_ciphers, truncated_compression,
  truncated_extensions, ◌>>=◌,
}
use tls_forge.Fingerprint.Parse.{
  Progress, refused, unfinished, complete, progress, read_record, body_loop, handshake_body,
  cipher_loop, extension_loop, read_extensions, parse_client_hello, even_or_fail,
}

abbrev Shorter : Text → Result (ℕ × Text × Text) → Type 0
Shorter s (ok (t, p, s')) = length s' < length s
Shorter s (err e) = e ≢ out_of_fuel

pub cut-length : (n : ℕ) (s p r : Text) → cut n s ≡ some (p, r) → length r ≤ length s
unfolding cut
cut-length n s p r h = ground (arith, length-drop n s)

-- A number that was read takes at least one byte.
pub big_endian-length :
    (s : Text) (v : ℕ) (r : Text) → big_endian s ≡ some (v, r) → length r < length s
unfolding big_endian
big_endian-length [] v r h = cc
big_endian-length (a ∷ []) v r h = cc
big_endian-length (a ∷ b ∷ s) v r h = ground arith

pub cut_at-length : (s p r : Text) → cut_at (big_endian s) ≡ some (p, r) → length r < length s
cut_at-length s p r h = elim (Option-cases (big_endian s)) [
  | inl e ↦ ground arith
  | inr ((n, t), e) ↦ ground (arith, big_endian-length s n t e, cut-length n t p r)
]

progress-bound :
    (hs body : Text) → progress hs ≡ complete body → 4 + length body ≤ max_handshake_size
unfolding progress
progress-bound [] body h = cc
progress-bound (t ∷ []) body h = ground arith
progress-bound (t ∷ a ∷ []) body h = ground arith
progress-bound (t ∷ a ∷ b ∷ []) body h = ground arith
progress-bound (t ∷ a ∷ b ∷ c ∷ rest) body h =
    ground (arith, length-take (a * 65536 + b * 256 + c) rest)

progress-refused : (hs : Text) (e : Error) → progress hs ≡ refused e → e ≢ out_of_fuel
unfolding progress
progress-refused [] e h = cc
progress-refused (t ∷ hs) e h = ground arith

Result-cases {ℓ} :
    {A : Type ℓ} (r : Result A) → ((a : A) × (r ≡ ok a)) ⊎ ((e : Error) × (r ≡ err e))
Result-cases (ok a) = inl (a, refl)
Result-cases (err e) = inr (e, refl)

Progress-cases :
    (p : Progress)
    → ((e : Error) × (p ≡ refused e)) ⊎ ((p ≡ unfinished) ⊎ ((body : Text) × (p ≡ complete body)))
Progress-cases (refused e) = inl (e, refl)
Progress-cases unfinished = inr (inl refl)
Progress-cases (complete body) = inr (inr (body, refl))

abbrev Ends {ℓ} : {A : Type ℓ} → Result A → Type ℓ
Ends r = r ≢ err out_of_fuel

bind-Ends {ℓ} :
    {A B : Type ℓ} (m : Result A) (f : A → Result B)
    → Ends m
    → ((a : A) → Ends (f a))
    → Ends (m >>= f)
bind-Ends (ok a) f h k = k a
bind-Ends (err e) f h k = λ g. h (cc)

or_fail-Ends {ℓ} : {A : Type ℓ} (e : Error) (o : Option A) → e ≢ out_of_fuel → Ends (or_fail e o)
or_fail-Ends e none h = λ g. h (cc)
or_fail-Ends e (some a) h = λ g. cc

-- Behind the test a length is even.
even_or_fail-Ends {ℓ} :
    {A : Type ℓ} (s : Text) (f : Unit {0} → Result A)
    → (length s % 2 ≡ 0 → (u : Unit) → Ends (f u))
    → Ends (even_or_fail s >>= f)
even_or_fail-Ends s f h = elim (Bool-cases (length s % 2 == 0)) [
  | inl even ↦ rw even (h ((==_iff (length s % 2) 0).0 even) tt)
  | inr odd ↦ rw odd (λ g. cc)
]

module _ (cb : Cryptobyte) (doc : IsDocumented cb) where
  read_record-Shorter : (s : Text) → Shorter s (read_record cb s)
  unfolding read_record first_byte
  read_record-Shorter [] = rw doc.uint8 (λ e. cc)
  read_record-Shorter (c ∷ s) = elim (Option-cases (big_endian s)) [
    | inl none_left ↦ rw (doc.uint8, doc.uint16, none_left) (λ e. cc)
    | inr ((v, t), e) ↦ elim (Option-cases (cut_at (big_endian t))) [
      | inl short ↦ rw (doc.uint8, doc.uint16, e, doc.uint16_length_prefixed, short) (λ e. cc)
      | inr ((p, r), f) ↦
          rw (doc.uint8, doc.uint16, e, doc.uint16_length_prefixed, f)
            (omega (arith, big_endian-length s v t e, cut_at-length t p r f))
    ]
  ]

  -- With as much fuel as bytes the reassembly ends by itself.
  body_loop-ends :
      (fuel : ℕ) (s hs : Text) → length s < fuel → body_loop cb fuel s hs ≢ err out_of_fuel
  unfolding body_loop
  body_loop-ends zero s hs h = elim h [ ]
  body_loop-ends (suc fuel) [] [] h = λ e. cc
  body_loop-ends (suc fuel) [] (b ∷ hs) h = λ e. cc
  body_loop-ends (suc fuel) (c ∷ s) hs h = elim (Result-cases (read_record cb (c ∷ s))) [
    | inl ((t, p, s'), e) ↦ elim (Progress-cases (progress (hs ++ p))) [
      | inl (x, f) ↦ ground (arith, progress-refused (hs ++ p) x f)
      | inr more ↦
          ground (arith, body_loop-ends fuel s' (hs ++ p), rw e at (read_record-Shorter (c ∷ s)))
    ]
    | inr (x, e) ↦ rw e (λ g. (rw e at (read_record-Shorter (c ∷ s))) (cc))
  ]

  body_loop-bound :
      (fuel : ℕ) (s hs body s' : Text)
      → body_loop cb fuel s hs ≡ ok (body, s')
      → (4 + length body ≤ max_handshake_size) × (length s' < length s)
  unfolding body_loop
  body_loop-bound zero s hs body s' h = cc
  body_loop-bound (suc fuel) [] hs body s' h = cc
  body_loop-bound (suc fuel) (c ∷ s) hs body s' h = elim (Result-cases (read_record cb (c ∷ s))) [
    | inl ((t, p, r), e) ↦ ground (
      arith,
      progress-bound (hs ++ p) body,
      body_loop-bound fuel r (hs ++ p) body s',
      rw e at (read_record-Shorter (c ∷ s)),
    )
    | inr (x, e) ↦ ground arith
  ]

  -- Of an even length no read fails.
  cipher_loop-Ends :
      (fuel : ℕ) (s : Text) → length s < fuel → length s % 2 ≡ 0 → Ends (cipher_loop cb fuel s)
  unfolding cipher_loop big_endian
  cipher_loop-Ends zero s h even = elim h [ ]
  cipher_loop-Ends (suc fuel) [] h even = λ e. cc
  cipher_loop-Ends (suc fuel) (c ∷ []) h even = absurd (omega (arith, even))
  cipher_loop-Ends (suc fuel) (c ∷ d ∷ s) h even = rw doc.uint16 (
      bind-Ends (cipher_loop cb fuel s) _
        (cipher_loop-Ends fuel s (omega arith) (omega (arith, even))) (λ more g. cc))

  extension_loop-Ends : (fuel : ℕ) (s : Text) → length s < fuel → Ends (extension_loop cb fuel s)
  unfolding extension_loop
  extension_loop-Ends zero s h = elim h [ ]
  extension_loop-Ends (suc fuel) [] h = λ e. cc
  extension_loop-Ends (suc fuel) (c ∷ s) h = elim (Option-cases (big_endian (c ∷ s))) [
    | inl short ↦ rw (doc.uint16, short) (λ e. cc)
    | inr ((v, t), e) ↦ elim (Option-cases (cut_at (big_endian t))) [
      | inl short ↦ rw (doc.uint16, e, doc.uint16_length_prefixed, short) (λ g. cc)
      | inr ((p, r), f) ↦
          rw (doc.uint16, e, doc.uint16_length_prefixed, f)
            (bind-Ends (extension_loop cb fuel r) _
              (extension_loop-Ends fuel r
                (omega (arith, big_endian-length (c ∷ s) v t e, cut_at-length t p r f)))
              (λ more g. cc))
    ]
  ]

  read_extensions-Ends : (s : Text) → Ends (read_extensions cb s)
  unfolding read_extensions
  read_extensions-Ends [] = λ e. cc
  read_extensions-Ends (c ∷ s) =
      bind-Ends (or_fail truncated_extensions (cb.read_uint16_length_prefixed (c ∷ s))) _
        (or_fail-Ends truncated_extensions _ (λ e. cc))
        (λ x. extension_loop-Ends (suc (length x.0)) x.0 (omega arith))

  -- What is reassembled is within the limit with its four bytes of header, and it takes no more
  -- bytes than the records hold.
  pub handshake_body_bound :
      (records body : Text) (n : ℕ)
      → handshake_body cb records ≡ ok (body, n)
      → (4 + length body ≤ max_handshake_size) × (n ≤ length records)
  unfolding handshake_body
  handshake_body_bound records body n h =
      elim (Result-cases (body_loop cb (suc (length records)) records [])) [
        | inl ((b, s), e) ↦ ground (arith, body_loop-bound (suc (length records)) records [] b s e)
        | inr (x, e) ↦ ground arith
      ]

  handshake_body-Ends : (records : Text) → Ends (handshake_body cb records)
  unfolding handshake_body
  handshake_body-Ends records =
      bind-Ends (body_loop cb (suc (length records)) records []) _
        (body_loop-ends (suc (length records)) records [] (omega arith)) (λ x g. cc)

  -- The parser ends by itself on any bytes: no loop of it, over records, cipher suites or extensions,
  -- uses up its fuel, if the byte reader behaves as documented.
  pub parse_client_hello-ends : (records : Text) → parse_client_hello cb records ≢ err out_of_fuel
  unfolding parse_client_hello
  parse_client_hello-ends records =
      bind-Ends (handshake_body cb records) _ (handshake_body-Ends records) λ x.
        bind-Ends (or_fail truncated_version (cb.read_uint16 x.0)) _
          (or_fail-Ends truncated_version _ (λ e. cc))
          λ v.
            bind-Ends (or_fail truncated_random (cb.read_bytes 32 v.1)) _
              (or_fail-Ends truncated_random _ (λ e. cc))
              λ r.
                bind-Ends (or_fail truncated_session_id (cb.read_uint8_length_prefixed r.1)) _
                  (or_fail-Ends truncated_session_id _ (λ e. cc))
                  λ i.
                    bind-Ends (or_fail malformed_ciphers (cb.read_uint16_length_prefixed i.1)) _
                      (or_fail-Ends malformed_ciphers _ (λ e. cc))
                      λ c. even_or_fail-Ends c.0 _ λ even u.
                        bind-Ends (cipher_loop cb (suc (length c.0)) c.0) _
                          (cipher_loop-Ends (suc (length c.0)) c.0 (omega arith) even)
                          λ suites.
                            bind-Ends
                              (or_fail truncated_compression (cb.read_uint8_length_prefixed c.1)) _
                              (or_fail-Ends truncated_compression _ (λ e. cc))
                              λ z.
                                bind-Ends (read_extensions cb z.1) _ (read_extensions-Ends z.1)
                                  λ es g. cc

-- ===== src/Fingerprint/Parse/Records.antt =====
-- fingerprint/clienthello.go: `handshakeBody` on a message that a sender splits over records.
use tls_forge.Base.{
  ℕ, zero, suc, ◌+◌, ◌*◌, ◌/◌, ◌%◌, ◌≤◌, ◌<◌, List, [], ◌∷◌, ◌++◌, ◌≡◌, ◌≢◌, refl, ap, sym, ◌∙◌,
  arith, Text, length, length-append, append_assoc, take,
}
use tls_forge.Fingerprint.Wire.{
  Cryptobyte, IsDocumented, encode16, prefixed16, first_byte, read_uint16-encode16,
  read_uint16_length_prefixed-prefixed16,
}
use tls_forge.Fingerprint.Hello.{ok, max_handshake_size}
use tls_forge.Fingerprint.Parse.{
  unfinished, complete, progress, read_record, body_loop, handshake_body,
}

-- The handshake message that carries a body.
abbrev pub message : Text → Text
message body = let n = length body in 1 ∷ (n / 65536) ∷ (n / 256 % 256) ∷ (n % 256) ∷ body

-- A handshake record of some version in front of what follows it.
abbrev pub record_onto : ℕ → Text → Text → Text
record_onto version payload rest = 0x16 ∷ (encode16 version ++ (prefixed16 payload ++ rest))

abbrev pub records_onto : ℕ → List Text → Text → Text
records_onto version [] rest = rest
records_onto version (p ∷ ps) rest = record_onto version p (records_onto version ps rest)

-- The pieces, after what is gathered already, make up the message, and the last is not empty.
abbrev pub Splits : Text → List Text → Text → Type 0
Splits gathered [] m = ⊥
Splits gathered (p ∷ []) m = (p ≢ []) × (gathered ++ p ≡ m)
Splits gathered (p ∷ q ∷ ps) m = Splits (gathered ++ p) (q ∷ ps) m

cons_of_append : (p : Text) (c : ℕ) (q : Text) → (d : ℕ) × (r : Text) × (p ++ c ∷ q ≡ d ∷ r)
cons_of_append [] c q = (c, q, refl)
cons_of_append (x ∷ p) c q = (x, p ++ c ∷ q, refl)

Splits-rest :
    (ps : List Text) (gathered m : Text)
    → Splits gathered ps m
    → (c : ℕ) × (q : Text) × (gathered ++ c ∷ q ≡ m)
Splits-rest [] gathered m s = absurd s
Splits-rest ([] ∷ []) gathered m s = absurd (s.0 refl)
Splits-rest ((c ∷ p) ∷ []) gathered m s = (c, p, s.1)
Splits-rest (p ∷ q ∷ ps) gathered m s =
    let (c, r, e) = Splits-rest (q ∷ ps) (gathered ++ p) m s in
    let (d, t, f) = cons_of_append p c r in
    (d, t, ap (λ u. gathered ++ u) (sym f) ∙ sym (append_assoc gathered p (c ∷ r)) ∙ e)

take-all : (t : Text) → take (length t) t ≡ t
take-all [] = refl
take-all (c ∷ t) = ap (◌∷◌ c) (take-all t)

module _ (body : Text) (fits : 4 + length body ≤ max_handshake_size) where
  progress-message : progress (message body) ≡ complete body
  unfolding progress
  progress-message =
      let n : ℕ = length body in
      let e : n / 65536 * 65536 + n / 256 % 256 * 256 + n % 256 ≡ n = omega arith in
      rw e (ground (arith, take-all body))

  progress-part :
      (part : Text) (c : ℕ) (q : Text) → part ++ c ∷ q ≡ message body → progress part ≡ unfinished
  unfolding progress
  progress-part [] c q e = refl
  progress-part (t ∷ []) c q e = ground arith
  progress-part (t ∷ a ∷ []) c q e = ground arith
  progress-part (t ∷ a ∷ b ∷ []) c q e = ground arith
  progress-part (t ∷ a ∷ b ∷ d ∷ part) c q e = ground (arith, length-append part (c ∷ q))

length-record_onto :
    (version : ℕ) (payload rest : Text)
    → length (record_onto version payload rest) ≡ 5 + length payload + length rest
length-record_onto version payload rest = omega (arith, length-append payload rest)

pub records_onto-append :
    (version : ℕ) (ps : List Text) (rest : Text)
    → records_onto version ps rest ≡ records_onto version ps [] ++ rest
records_onto-append version [] rest = refl
records_onto-append version (p ∷ ps) rest = simp (records_onto-append version ps rest, append_assoc)

module _ (cb : Cryptobyte) (doc : IsDocumented cb) where
  read_record-record_onto :
      (version : ℕ) (payload rest : Text)
      → read_record cb (record_onto version payload rest) ≡ ok (0x16, payload, rest)
  unfolding read_record first_byte
  read_record-record_onto version payload rest = rw (
    doc.uint8,
    read_uint16-encode16 cb doc version (prefixed16 payload ++ rest),
    read_uint16_length_prefixed-prefixed16 cb doc payload rest,
  )

  module _ (version : ℕ) (body : Text) (fits : 4 + length body ≤ max_handshake_size) where
    body_loop-records :
        (ps : List Text) (fuel : ℕ) (gathered rest : Text)
        → Splits gathered ps (message body)
        → length (records_onto version ps rest) < fuel
        → body_loop cb fuel (records_onto version ps rest) gathered ≡ ok (body, rest)
    unfolding body_loop
    body_loop-records [] fuel gathered rest s h = absurd s
    body_loop-records (p ∷ ps) zero gathered rest s h = elim h [ ]
    body_loop-records (p ∷ []) (suc fuel) gathered rest s h =
        rw (read_record-record_onto version p rest, s.1, progress-message body fits)
    body_loop-records (p ∷ q ∷ ps) (suc fuel) gathered rest s h =
        let (c, r, e) = Splits-rest (q ∷ ps) (gathered ++ p) (message body) s in
        rw
          (
            read_record-record_onto version p (records_onto version (q ∷ ps) rest),
            progress-part body fits (gathered ++ p) c r e,
          )
          (body_loop-records (q ∷ ps) fuel (gathered ++ p) rest s
            (omega (arith, length-record_onto version p (records_onto version (q ∷ ps) rest))))

    -- The body comes back however the message is split over records, with the number of bytes
    -- that the records take, and nothing behind them is touched.
    pub handshake_body-records :
        (ps : List Text) (rest : Text)
        → Splits [] ps (message body)
        → handshake_body cb (records_onto version ps rest)
          ≡ ok (body, length (records_onto version ps []))
    unfolding handshake_body
    handshake_body-records ps rest s =
        let loop =
          body_loop-records ps (suc (length (records_onto version ps rest))) [] rest s
            (omega arith) in
        ground (
          arith,
          loop,
          records_onto-append version ps rest,
          length-append (records_onto version ps []) rest,
        )

-- ===== src/Fingerprint/Ja4/Noise.antt =====
-- fingerprint/ja3.go and ja4.go: the fingerprints of a hello with GREASE in it.
use tls_forge.Base.{
  ℕ, true, false, List, [], ◌∷◌, ◌++◌, ◌≡◌, refl, ap, arith, ◌==◌, ==_iff, Text, inl, inr,
  Bool-cases,
}
use tls_forge.Fingerprint.Wire.{Cryptobyte}
use tls_forge.Fingerprint.Hello.{Extension, ClientHello, extension_in, extension_types, types_of}
use tls_forge.Fingerprint.Grease.{is_grease, without_grease}
use tls_forge.Fingerprint.Accessors.{server_name, alpn, uint16_vector, uint8_vector}
use tls_forge.Fingerprint.Ja3.{ja3}
use tls_forge.Fingerprint.Ja4.{
  negotiable_version, ja4_prefix, ja4_ciphers, ja4_extensions, ja4_signature_algorithms,
  ja4_extension_input, ja4_parts, ja4, ja4_raw,
}

types_of-append : (es fs : List Extension) → types_of (es ++ fs) ≡ types_of es ++ types_of fs
unfolding types_of
types_of-append [] fs = refl
types_of-append (e ∷ es) fs = ap (◌∷◌ e.type) (types_of-append es fs)

without_grease_insert :
    (xs : List ℕ) (v : ℕ) (ys : List ℕ)
    → is_grease v ≡ true
    → without_grease (xs ++ v ∷ ys) ≡ without_grease (xs ++ ys)
unfolding without_grease
without_grease_insert [] v ys g = rw g
without_grease_insert (x ∷ xs) v ys g = ground (arith, without_grease_insert xs v ys g)

extension_in_insert :
    (es : List Extension) (noise : Extension) (fs : List Extension) (typ : ℕ)
    → is_grease noise.type ≡ true
    → is_grease typ ≡ false
    → extension_in (es ++ noise ∷ fs) typ ≡ extension_in (es ++ fs) typ
unfolding extension_in
extension_in_insert [] noise fs typ g h = elim (Bool-cases (noise.type == typ)) [
  | inl same ↦ cc (g, h, ap is_grease ((==_iff noise.type typ).0 same))
  | inr other ↦ rw other
]
extension_in_insert (e ∷ es) noise fs typ g h =
    ground (arith, extension_in_insert es noise fs typ g h)

module _ (cb : Cryptobyte) (a : ClientHello) (cs ds : List ℕ) (v : ℕ) (es fs : List Extension)
    (noise : Extension) (gv : is_grease v ≡ true) (gn : is_grease noise.type ≡ true) where
  abbrev pub plain : ClientHello
  plain = record a { cipher_suites = cs ++ ds; extensions = es ++ fs }

  abbrev pub greased : ClientHello
  greased = record a { cipher_suites = cs ++ v ∷ ds; extensions = es ++ noise ∷ fs }

  lookup_greased :
      (typ : ℕ)
      → is_grease typ ≡ false
      → extension_in greased.extensions typ ≡ extension_in plain.extensions typ
  lookup_greased typ h = extension_in_insert es noise fs typ gn h

  ciphers_greased : without_grease greased.cipher_suites ≡ without_grease plain.cipher_suites
  ciphers_greased = without_grease_insert cs v ds gv

  types_greased : without_grease (extension_types greased) ≡ without_grease (extension_types plain)
  unfolding types_of
  types_greased =
      rw (types_of-append es (noise ∷ fs), types_of-append es fs)
        (without_grease_insert (types_of es) noise.type (types_of fs) gn)

  ja4_prefix-greased : ja4_prefix cb greased ≡ ja4_prefix cb plain
  unfolding ja4_prefix negotiable_version server_name alpn uint16_vector is_grease
  ja4_prefix-greased = rw (
    lookup_greased 43 refl,
    lookup_greased 0 refl,
    lookup_greased 16 refl,
    ciphers_greased,
    types_greased,
  )

  ja4_extension_input-greased : ja4_extension_input cb greased ≡ ja4_extension_input cb plain
  unfolding ja4_extension_input ja4_extensions ja4_signature_algorithms uint16_vector is_grease
  ja4_extension_input-greased = rw (lookup_greased 13 refl, types_greased)

  -- A GREASE cipher suite and a GREASE extension, put anywhere among the others and with any
  -- body, change neither the JA4 nor its raw form nor the JA3 string.
  pub fingerprints_greased :
      (sha256 : Text → Text)
      → (ja4 cb sha256 greased ≡ ja4 cb sha256 plain)
        × (ja4_raw cb greased ≡ ja4_raw cb plain)
        × (ja3 cb greased ≡ ja3 cb plain)
  unfolding ja4 ja4_parts ja4_raw ja4_ciphers ja3 uint16_vector uint8_vector is_grease
  fingerprints_greased sha256 = (
    rw (ja4_prefix-greased, ciphers_greased, ja4_extension_input-greased),
    rw (ja4_prefix-greased, ciphers_greased, ja4_extension_input-greased),
    rw (ciphers_greased, types_greased, lookup_greased 10 refl, lookup_greased 11 refl),
  )

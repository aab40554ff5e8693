-- ===== src/Fingerprint/Ja4/Order.antt =====
-- fingerprint/ja4.go: JA4 under another order of cipher suites and extensions.
use mathlib.Core.List.{Permᴰ}
use tls_forge.Base.{
  ℕ, ◌≤◌, not, ◌||◌, inl, inr, List, [], ◌∷◌, Option, none, some, ◌≡◌, refl, ap, arith, leb, ◌==◌,
  ==_iff, Text, length, keep_if, keep_if-perm, Bool-cases, leb-TotalOrder, sort-perm, length-perm,
  perm-short,
}
use tls_forge.Fingerprint.Wire.{Cryptobyte}
use tls_forge.Fingerprint.Hello.{
  Extension, ClientHello, extension_in, types_of, ext_server_name, ext_alpn,
}
use tls_forge.Fingerprint.Grease.{without_grease-perm}
use tls_forge.Fingerprint.Accessors.{server_name, alpn, uint16_vector}
use tls_forge.Fingerprint.Ja4.{
  hashed_types, join_hex, join_hex_sorted, negotiable_version, ja4_prefix, ja4_ciphers,
  ja4_extensions, ja4_signature_algorithms, ja4_extension_input, ja4_parts, ja4, ja4_raw,
}

-- No extension type is sent twice.
abbrev pub DistinctTypes : List Extension → Type 0
DistinctTypes [] = Unit
DistinctTypes (e ∷ es) = (extension_in es e.type ≡ none) × DistinctTypes es

abbrev of_type : ℕ → List Extension → List Extension
of_type typ es = keep_if (λ (e : Extension). e.type == typ) es

abbrev first_body : List Extension → Option Text
first_body [] = none
first_body (e ∷ es) = some e.body

extension_in-first_body :
    (typ : ℕ) (es : List Extension) → extension_in es typ ≡ first_body (of_type typ es)
unfolding extension_in
extension_in-first_body typ [] = refl
extension_in-first_body typ (e ∷ es) = ground (arith, extension_in-first_body typ es)

of_type-none : (typ : ℕ) (es : List Extension) → extension_in es typ ≡ none → of_type typ es ≡ []
unfolding extension_in
of_type-none typ [] h = refl
of_type-none typ (e ∷ es) h = ground (arith, of_type-none typ es)

length-of_type : (typ : ℕ) (es : List Extension) → DistinctTypes es → length (of_type typ es) ≤ 1
length-of_type typ [] d = omega arith
length-of_type typ (e ∷ es) d = elim (Bool-cases (e.type == typ)) [
  | inl same ↦
      rw same (rw (of_type-none typ es (rw ((==_iff e.type typ).0 same) at d.0)) (omega arith))
  | inr other ↦ rw other (length-of_type typ es d.1)
]

-- With distinct types the lookup of an extension does not see their order.
pub extension_in-perm :
    {es fs : List Extension} (typ : ℕ)
    → Permᴰ es fs
    → DistinctTypes es
    → extension_in fs typ ≡ extension_in es typ
extension_in-perm {es} {fs} typ p d =
    let same =
      perm-short (keep_if-perm (λ (e : Extension). e.type == typ) p) (length-of_type typ es d) in
    cc (extension_in-first_body typ es, extension_in-first_body typ fs, same)

pub types_of-perm : {es fs : List Extension} → Permᴰ es fs → Permᴰ (types_of es) (types_of fs)
unfolding types_of
types_of-perm Permᴰ.nil = Permᴰ.nil
types_of-perm (Permᴰ.cons e p) = Permᴰ.cons (ap (λ (x : Extension). x.type) e) (types_of-perm p)
types_of-perm (Permᴰ.swap e d) =
    Permᴰ.swap (ap (λ (x : Extension). x.type) e) (ap (λ (x : Extension). x.type) d)
types_of-perm (Permᴰ.trans p q) = Permᴰ.trans (types_of-perm p) (types_of-perm q)

hashed_types-keep_if :
    (types : List ℕ)
    → hashed_types types ≡ keep_if (λ t. not (t == ext_server_name || t == ext_alpn)) types
unfolding hashed_types
hashed_types-keep_if [] = refl
hashed_types-keep_if (t ∷ types) = ground (arith, hashed_types-keep_if types)

hashed_types-perm : {xs ys : List ℕ} → Permᴰ xs ys → Permᴰ (hashed_types xs) (hashed_types ys)
hashed_types-perm {xs} {ys} p =
    rw (hashed_types-keep_if xs, hashed_types-keep_if ys)
      (keep_if-perm (λ t. not (t == ext_server_name || t == ext_alpn)) p)

join_hex_sorted-perm : {xs ys : List ℕ} → Permᴰ xs ys → join_hex_sorted xs ≡ join_hex_sorted ys
unfolding join_hex_sorted
join_hex_sorted-perm p = ap join_hex (sort-perm leb leb-TotalOrder p)

abbrev pub shuffled : ClientHello → List ℕ → List Extension → ClientHello
shuffled a ciphers exts = record a { cipher_suites = ciphers; extensions = exts }

module _ (cb : Cryptobyte) (a : ClientHello) (ciphers : List ℕ) (exts : List Extension)
    (pc : Permᴰ a.cipher_suites ciphers) (pe : Permᴰ a.extensions exts)
    (d : DistinctTypes a.extensions) where
  ja4_prefix-shuffled : ja4_prefix cb (shuffled a ciphers exts) ≡ ja4_prefix cb a
  unfolding ja4_prefix negotiable_version server_name alpn uint16_vector
  ja4_prefix-shuffled = rw (
    extension_in-perm 43 pe d,
    extension_in-perm 0 pe d,
    extension_in-perm 16 pe d,
    length-perm (without_grease-perm pc),
    length-perm (without_grease-perm (types_of-perm pe)),
  )

  ja4_ciphers-shuffled : ja4_ciphers (shuffled a ciphers exts) ≡ ja4_ciphers a
  unfolding ja4_ciphers
  ja4_ciphers-shuffled = rw (join_hex_sorted-perm (without_grease-perm pc))

  ja4_extension_input-shuffled :
      ja4_extension_input cb (shuffled a ciphers exts) ≡ ja4_extension_input cb a
  unfolding ja4_extension_input ja4_extensions ja4_signature_algorithms uint16_vector
  ja4_extension_input-shuffled = rw (
    extension_in-perm 13 pe d,
    join_hex_sorted-perm (hashed_types-perm (without_grease-perm (types_of-perm pe))),
  )

  -- A client that shuffles its cipher suites and its extensions keeps its JA4 and its JA4 raw
  -- form, whatever the hash, as long as no extension type is sent twice.
  pub ja4-shuffled :
      (sha256 : Text → Text)
      → (ja4 cb sha256 (shuffled a ciphers exts) ≡ ja4 cb sha256 a)
        × (ja4_raw cb (shuffled a ciphers exts) ≡ ja4_raw cb a)
  unfolding ja4 ja4_parts ja4_raw
  ja4-shuffled sha256 = (
    rw (ja4_prefix-shuffled, ja4_ciphers-shuffled, ja4_extension_input-shuffled),
    rw (ja4_prefix-shuffled, ja4_ciphers-shuffled, ja4_extension_input-shuffled),
  )

-- ===== src/Fingerprint/Compare/Shuffle.antt =====
-- fingerprint/compare.go: a ClientHello against one with its extensions in another order.
use mathlib.Core.List.{Permᴰ}
use mathlib.Core.List.Permᴰ
use tls_forge.Base.{ℕ, true, List, [], ◌∷◌, some, ◌≡◌, refl, ap, sym, Text, arith}
use tls_forge.Fingerprint.Wire.{Cryptobyte}
use tls_forge.Fingerprint.Hello.{Extension, ClientHello}
use tls_forge.Fingerprint.Grease.{without_grease, without_grease-perm}
use tls_forge.Fingerprint.Names.{names_of, extension_name, version_name, group_name, signature_name}
use tls_forge.Fingerprint.Accessors.{
  alpn, uint16_vector, uint8_vector, key_share_groups, settings_loop, settings_at, Prefix,
  uint8_prefixed, uint16_prefixed,
}
use tls_forge.Fingerprint.Ja4.{ja4}
use tls_forge.Fingerprint.Ja4.Order.{
  DistinctTypes, extension_in-perm, types_of-perm, ja4-shuffled, shuffled,
}
use tls_forge.Fingerprint.Compare.{
  Report, report_ok, compare_tls, tls_fields, decimal_strings, matches, list_field, scalar_field,
}
use tls_forge.Fingerprint.Compare.Verdict.{
  AllMatch, compare_tls_verdict, matches-list_field, matches-scalar_field, matches-set_field,
}

names_of-perm :
    (name : ℕ → Text) {xs ys : List ℕ} → Permᴰ xs ys → Permᴰ (names_of xs name) (names_of ys name)
unfolding names_of
names_of-perm name Permᴰ.nil = Permᴰ.nil
names_of-perm name (Permᴰ.cons e p) = Permᴰ.cons (ap name e) (names_of-perm name p)
names_of-perm name (Permᴰ.swap e d) = Permᴰ.swap (ap name e) (ap name d)
names_of-perm name (Permᴰ.trans p q) = Permᴰ.trans (names_of-perm name p) (names_of-perm name q)

matches_list :
    (n : Text) {xs ys : List Text} → xs ≡ ys → matches (list_field n xs) (list_field n ys) ≡ true
matches_list n {xs} {ys} e = (matches-list_field n n xs ys).1 e

matches_scalar :
    (n : Text) {x y : Text} → x ≡ y → matches (scalar_field n x) (scalar_field n y) ≡ true
matches_scalar n {x} {y} e = (matches-scalar_field n n x y).1 e

module _ (cb : Cryptobyte) (sha256 : Text → Text) (a : ClientHello) (exts : List Extension)
    (pe : Permᴰ a.extensions exts) (d : DistinctTypes a.extensions) where
  uint16_vector_same :
      (typ : ℕ) (p : Prefix)
      → uint16_vector cb a typ p ≡ uint16_vector cb (shuffled a a.cipher_suites exts) typ p
  unfolding uint16_vector
  uint16_vector_same typ p = rw (extension_in-perm typ pe d)

  uint8_vector_same :
      (typ : ℕ) → uint8_vector cb a typ ≡ uint8_vector cb (shuffled a a.cipher_suites exts) typ
  unfolding uint8_vector
  uint8_vector_same typ = rw (extension_in-perm typ pe d)

  alpn_same : alpn cb a ≡ alpn cb (shuffled a a.cipher_suites exts)
  unfolding alpn
  alpn_same = rw (extension_in-perm 16 pe d)

  key_share_groups_same :
      key_share_groups cb a ≡ key_share_groups cb (shuffled a a.cipher_suites exts)
  unfolding key_share_groups
  key_share_groups_same = rw (extension_in-perm 51 pe d)

  settings_at_same :
      (typ : ℕ) → settings_at cb a typ ≡ settings_at cb (shuffled a a.cipher_suites exts) typ
  unfolding settings_at
  settings_at_same typ = rw (extension_in-perm typ pe d)

  settings_loop_same :
      (types : List ℕ)
      → settings_loop cb a types ≡ settings_loop cb (shuffled a a.cipher_suites exts) types
  unfolding settings_loop
  settings_loop_same [] = refl
  settings_loop_same (typ ∷ types) =
      unfold settings_loop in ground (arith, settings_at_same typ, settings_loop_same types)

  ja4_same : ja4 cb sha256 a ≡ ja4 cb sha256 (shuffled a a.cipher_suites exts)
  ja4_same =
      sym ((ja4-shuffled cb a a.cipher_suites exts (Permᴰ.refl a.cipher_suites) pe d sha256).0)

  named :
      (name : ℕ → Text) {xs ys : List ℕ}
      → xs ≡ ys
      → names_of (without_grease xs) name ≡ names_of (without_grease ys) name
  named name e = ap (λ xs. names_of (without_grease xs) name) e

  decimal_same : {xs ys : List ℕ} → xs ≡ ys → decimal_strings xs ≡ decimal_strings ys
  decimal_same e = ap decimal_strings e

  fields_match :
      AllMatch (tls_fields cb sha256 a) (tls_fields cb sha256 (shuffled a a.cipher_suites exts))
  unfolding tls_fields
  fields_match = (
    matches_scalar _ ja4_same,
    (
      matches_list _ refl,
      (
        matches-set_field _ _ _ _
            (names_of-perm extension_name (without_grease-perm (types_of-perm pe))),
        (
          matches_list _ (named version_name (uint16_vector_same 43 uint8_prefixed)),
          (
            matches_list _ (named group_name (uint16_vector_same 10 uint16_prefixed)),
            (
              matches_list _ (named signature_name (uint16_vector_same 13 uint16_prefixed)),
              (
                matches_list _ (named group_name key_share_groups_same),
                (
                  matches_list _ alpn_same,
                  (
                    matches_list _ (settings_loop_same (17513 ∷ 17613 ∷ [])),
                    (
                      matches_list _ (decimal_same (uint8_vector_same 11)),
                      (
                        matches_list _ (decimal_same (uint8_vector_same 45)),
                        (matches_list _ (decimal_same (uint16_vector_same 27 uint8_prefixed)), tt),
                      ),
                    ),
                  ),
                ),
              ),
            ),
          ),
        ),
      ),
    ),
  )

  -- Comparing a ClientHello with one that has the same extensions in another order, as a browser
  -- sends it on its next connection, ends in a clean report, as long as no extension type is sent
  -- twice.
  pub compare_tls-shuffled :
      (report : Report) × (compare_tls cb sha256 a (shuffled a a.cipher_suites exts) ≡ some report)
      × (report_ok report ≡ true)
  compare_tls-shuffled =
      let (report, e, verdict) =
        compare_tls_verdict cb sha256 a (shuffled a a.cipher_suites exts) in
      (report, e, verdict.1 fields_match)

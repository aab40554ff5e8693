-- ===== src/Fingerprint/Ja4/Width.antt =====
-- The widths that a JA4 fingerprint's fields have, and the version in its head.
use mathlib.Core.List.{Memᴰ}
use tls_forge.Base.{
  ℕ, ◌≤◌, ◌⊎◌, inl, inr, List, [], ◌∷◌, ◌≡◌, refl, arith, ltb, ◌==◌, if◌then◌else◌, Text, length,
  length-append, length-take, length-hex, hex, Bool-cases,
}
use tls_forge.Fingerprint.Wire.{Cryptobyte}
use tls_forge.Fingerprint.Hello.{ClientHello}
use tls_forge.Fingerprint.Grease.{without_grease}
use tls_forge.Fingerprint.Accessors.{supported_versions}
use tls_forge.Fingerprint.Ja4.{
  ja4_version, ja4_alpn, count_to_99, section_hash, truncated_sha256, negotiable_version, highest,
  ja4_prefix, ja4_parts, ja4,
}

length-ja4_version : (v : ℕ) → length (ja4_version v) ≡ 2
unfolding ja4_version
length-ja4_version v = ground arith

length-ja4_alpn : (protocols : List Text) → length (ja4_alpn protocols) ≡ 2
unfolding ja4_alpn
length-ja4_alpn [] = refl
length-ja4_alpn ([] ∷ protocols) = refl
length-ja4_alpn ((head ∷ s) ∷ protocols) = ground arith

length-count_to_99 : (n : ℕ) → length (count_to_99 n) ≡ 2
unfolding count_to_99
length-count_to_99 n = refl

module _ (cb : Cryptobyte) where
  length-ja4_prefix : (c : ClientHello) → length (ja4_prefix cb c) ≡ 10
  unfolding ja4_prefix
  length-ja4_prefix c =
      simp (length-append, length-ja4_version, length-count_to_99, length-ja4_alpn)

  module _ (sha256 : Text → Text) (digest : (s : Text) → length (sha256 s) ≡ 32) where
    length-section_hash : (s : Text) → length (section_hash (truncated_sha256 sha256) s) ≡ 12
    unfolding truncated_sha256
    length-section_hash [] = refl
    length-section_hash (c ∷ s) =
        length-take 12 (hex (sha256 (c ∷ s)))
          (omega (arith, length-hex (sha256 (c ∷ s)), digest (c ∷ s)))

    -- Every JA4 fingerprint is a token of 36 bytes: ten of head, and two hashes of twelve, with a
    -- separator in front of each. SHA-256 gives 32 bytes.
    pub length-ja4 : (c : ClientHello) → length (ja4 cb sha256 c) ≡ 36
    unfolding ja4 ja4_parts
    length-ja4 c = simp (length-append, length-ja4_prefix, length-section_hash)

highest-ge : (best : ℕ) (vs : List ℕ) → best ≤ highest best vs
unfolding highest
highest-ge best [] = omega arith
highest-ge best (v ∷ vs) = ground (arith, highest-ge (if ltb best v then v else best) vs)

highest-ge_mem : (v best : ℕ) {vs : List ℕ} → Memᴰ v vs → v ≤ highest best vs
unfolding highest
highest-ge_mem v best (Memᴰ.head {x} {xs} e) =
    ground (arith, highest-ge (if ltb best x then x else best) xs)
highest-ge_mem v best (Memᴰ.tail {x} {xs} m) = highest-ge_mem v (if ltb best x then x else best) m

highest-of : (best : ℕ) (vs : List ℕ) → (highest best vs ≡ best) ⊎ Memᴰ (highest best vs) vs
unfolding highest
highest-of best [] = inl refl
highest-of best (v ∷ vs) = elim (Bool-cases (ltb best v)) [
  | inl more ↦
      rw more (elim (highest-of v vs) [ inl e ↦ inr (Memᴰ.head e) | inr m ↦ inr (Memᴰ.tail m) ])
  | inr less ↦ rw less (elim (highest-of best vs) [ inl e ↦ inl e | inr m ↦ inr (Memᴰ.tail m) ])
]

module _ (cb : Cryptobyte) (c : ClientHello) where
  -- The version in a JA4 head is at least every version that the client offers, GREASE left out,
  -- and it is one of those or the one of the legacy field.
  pub negotiable_version_max :
      (v : ℕ)
      → Memᴰ v (without_grease (supported_versions cb c))
      → (v ≤ negotiable_version cb c)
        × ((negotiable_version cb c ≡ c.legacy_version)
            ⊎ Memᴰ (negotiable_version cb c) (without_grease (supported_versions cb c)))
  unfolding negotiable_version
  negotiable_version_max v m =
      let offered = without_grease (supported_versions cb c) in
      let below = highest-ge_mem v 0 m in
      elim (Bool-cases (highest 0 offered == 0)) [
        | inl none_offered ↦ rw none_offered (ground arith, inl refl)
        | inr some_offered ↦
            rw some_offered
              (below, elim (highest-of 0 offered) [ inl e ↦ absurd (ground arith) | inr n ↦ inr n ])
      ]

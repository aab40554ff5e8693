-- ===== src/Fingerprint/Ja4.antt =====
-- fingerprint/ja4.go: the JA4 fingerprint and its raw form. SHA-256 is a parameter.
pub mod Width
pub mod Order
pub mod Noise
use tls_forge.Base.{
  ℕ, ◌+◌, ◌/◌, ◌%◌, Bool, true, false, not, ◌&&◌, ◌||◌, List, [], ◌∷◌, ◌++◌, Option, none, some,
  ltb, leb, ◌==◌, if◌then◌else◌, Text, text_eq, codes, join, sort, hex, hex4, hex_digit, length,
  take,
}
use tls_forge.Fingerprint.Wire.{Cryptobyte}
use tls_forge.Fingerprint.Hello.{ClientHello, extension_types, ext_server_name, ext_alpn}
use tls_forge.Fingerprint.Grease.{without_grease}
use tls_forge.Fingerprint.Accessors.{server_name, alpn, supported_versions, signature_algorithms}

abbrev pub empty_section : Text
empty_section = codes "000000000000"

abbrev pub ja4_hash_len : ℕ
ja4_hash_len = 12

-- The loop of `negotiableVersion`, from `best` on.
unfoldable pub highest : ℕ → List ℕ → ℕ
highest best [] = best
highest best (v ∷ vs) = highest (if ltb best v then v else best) vs

unfoldable pub ja4_version : ℕ → Text
ja4_version v =
    if v == 0x0304
    then codes "13"
    else if v == 0x0303
    then codes "12"
    else if v == 0x0302
    then codes "11"
    else if v == 0x0301
    then codes "10"
    else if v == 0x0300
    then codes "s3"
    else if v == 0x0002
    then codes "s2"
    else codes "00"

unfoldable pub is_alphanumeric : ℕ → Bool
is_alphanumeric b = leb b'0' b && leb b b'9' || leb b'a' b && leb b b'z' || leb b'A' b && leb b b'Z'

-- `first[len(first)-1]` of the text `c ∷ s`.
unfoldable pub last_byte : ℕ → Text → ℕ
last_byte c [] = c
last_byte c (d ∷ s) = last_byte d s

-- Of the four digits of `hex.EncodeToString([]byte{head, tail})` the first and the last are kept.
unfoldable pub ja4_alpn : List Text → Text
unfolding is_alphanumeric last_byte hex_digit
ja4_alpn [] = codes "00"
ja4_alpn ([] ∷ protocols) = codes "00"
ja4_alpn ((head ∷ s) ∷ protocols) =
    let tail = last_byte head s in
    if not (is_alphanumeric head) || not (is_alphanumeric tail)
    then hex_digit (head / 16) ∷ hex_digit (tail % 16) ∷ []
    else head ∷ tail ∷ []

-- `%02d` of the count, which is at most 99 by then.
unfoldable pub count_to_99 : ℕ → Text
count_to_99 n = let m = if ltb 99 n then 99 else n in (b'0' + m / 10) ∷ (b'0' + m % 10) ∷ []

-- The loop of `joinHex`.
unfoldable pub hexes : List ℕ → List Text
unfolding hex4
hexes [] = []
hexes (v ∷ values) = hex4 v ∷ hexes values

unfoldable pub join_hex : List ℕ → Text
unfolding hexes join
join_hex values = join (codes ",") (hexes values)

unfoldable pub join_hex_sorted : List ℕ → Text
unfolding join_hex sort
join_hex_sorted values = join_hex (sort leb values)

-- The loop of `ja4Extensions`.
unfoldable pub hashed_types : List ℕ → List ℕ
hashed_types [] = []
hashed_types (typ ∷ types) =
    let kept = hashed_types types in
    if typ == ext_server_name || typ == ext_alpn then kept else typ ∷ kept

unfoldable pub ja4_ciphers : ClientHello → Text
ja4_ciphers c = join_hex_sorted (without_grease c.cipher_suites)

unfoldable pub ja4_extensions : ClientHello → Text
ja4_extensions c = join_hex_sorted (hashed_types (without_grease (extension_types c)))

abbrev pub sni_letter : Option Text → ℕ
sni_letter none = b'i'
sni_letter (some name) = b'd'

-- The hash of a section, `emptySection` where there is nothing to hash.
abbrev pub section_hash : (Text → Text) → Text → Text
section_hash hash [] = empty_section
section_hash hash (c ∷ s) = hash (c ∷ s)

unfoldable pub with_signatures : Text → Text → Text
with_signatures exts [] = exts
with_signatures exts (c ∷ sigs) = exts ++ (b'_' ∷ c ∷ sigs)

unfoldable pub truncated_sha256 : (Text → Text) → Text → Text
truncated_sha256 sha256 s = take ja4_hash_len (hex (sha256 s))

module _ (cb : Cryptobyte) where
  unfoldable pub negotiable_version : ClientHello → ℕ
  negotiable_version c =
      let best = highest 0 (without_grease (supported_versions cb c)) in
      if not (best == 0) then best else c.legacy_version

  unfoldable pub ja4_prefix : ClientHello → Text
  ja4_prefix c =
      b't'
      ∷ (ja4_version (negotiable_version c)
          ++ (sni_letter (server_name cb c)
              ∷ (count_to_99 (length (without_grease c.cipher_suites))
                  ++ (count_to_99 (length (without_grease (extension_types c)))
                      ++ ja4_alpn (alpn cb c)))))

  unfoldable pub ja4_signature_algorithms : ClientHello → Text
  ja4_signature_algorithms c = join_hex (without_grease (signature_algorithms cb c))

  unfoldable pub ja4_extension_input : ClientHello → Text
  ja4_extension_input c = with_signatures (ja4_extensions c) (ja4_signature_algorithms c)

  unfoldable pub ja4_raw : ClientHello → Text
  ja4_raw c = join (codes "_") (ja4_prefix c ∷ ja4_ciphers c ∷ ja4_extension_input c ∷ [])

  module _ (sha256 : Text → Text) where
    unfoldable pub ja4_parts : ClientHello → Text × Text × Text
    ja4_parts c = (
      ja4_prefix c,
      section_hash (truncated_sha256 sha256) (ja4_ciphers c),
      section_hash (truncated_sha256 sha256) (ja4_extension_input c),
    )

    unfoldable pub ja4 : ClientHello → Text
    ja4 c = let (a, b, d) = ja4_parts c in a ++ (b'_' ∷ (b ++ (b'_' ∷ d)))

-- ===== src/Fingerprint/Ja3.antt =====
-- fingerprint/ja3.go: the JA3 string and its hash. MD5 is a parameter.
pub mod Injective
use tls_forge.Base.{ℕ, List, [], ◌∷◌, Text, codes, decimal, join, hex}
use tls_forge.Fingerprint.Wire.{Cryptobyte}
use tls_forge.Fingerprint.Hello.{ClientHello, extension_types}
use tls_forge.Fingerprint.Grease.{without_grease}
use tls_forge.Fingerprint.Accessors.{supported_groups, ec_point_formats}

-- The loop of `joinDecimal` and of `joinDecimalBytes`.
unfoldable pub decimals : List ℕ → List Text
decimals [] = []
decimals (v ∷ values) = decimal v ∷ decimals values

unfoldable pub join_decimal : List ℕ → Text
unfolding decimals
join_decimal values = join (codes "-") (decimals values)

module _ (cb : Cryptobyte) where
  unfoldable pub ja3 : ClientHello → Text
  unfolding join_decimal
  ja3 c = join (codes ",") (
      decimal c.legacy_version
      ∷ join_decimal (without_grease c.cipher_suites)
      ∷ join_decimal (without_grease (extension_types c))
      ∷ join_decimal (without_grease (supported_groups cb c))
      ∷ join_decimal (ec_point_formats cb c)
      ∷ [])

  unfoldable pub ja3_hash : (Text → Text) → ClientHello → Text
  unfolding ja3
  ja3_hash md5 c = hex (md5 (ja3 c))

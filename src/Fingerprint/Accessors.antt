-- ===== src/Fingerprint/Accessors.antt =====
-- fingerprint/clienthello.go: what is read out of the bodies of a hello's extensions. A loop that
-- cannot read on returns what it has, as in the source; on fuel, the length of the list is enough.
pub mod Encoded
pub mod Fuel
use tls_forge.Base.{
  ℕ, zero, suc, ◌%◌, Bool, true, false, List, [], ◌∷◌, Option, none, some, ◌==◌, if◌then◌else◌,
  Text, length,
}
use tls_forge.Fingerprint.Wire.{Cryptobyte}
use tls_forge.Fingerprint.Hello.{
  ClientHello, extension, ext_server_name, ext_supported_groups, ext_ec_point_formats,
  ext_signature_algorithms, ext_alpn, ext_compress_certificate, ext_supported_versions,
  ext_psk_key_exchange_modes, ext_key_share, ext_application_settings, ext_application_settings_old,
}
use tls_forge.Fingerprint.Parse.{uint16_all}

-- Which length prefix a vector has.
pub data Prefix : Type 0 where
  uint8_prefixed uint16_prefixed : Prefix

infixl 5 ◌>>=◌
abbrev pub ◌>>=◌ {ℓ κ} : {A : Type ℓ} {B : Type κ} → Option A → (A → Option B) → Option B
none >>= f = none
some a >>= f = f a

-- `if !ok { return nil }` in front of a list.
abbrev pub listed {ℓ κ} : {A : Type ℓ} {B : Type κ} → Option A → (A → List B) → List B
listed none f = []
listed (some a) f = f a

-- The string that a successful read leaves in its variable.
abbrev pub content : Option (Text × Text) → Option Text
content none = none
content (some (t, rest)) = some t

module _ (cb : Cryptobyte) where
  unfoldable pub prefixed : Prefix → Text → Option Text
  prefixed uint8_prefixed s = content (cb.read_uint8_length_prefixed s)
  prefixed uint16_prefixed s = content (cb.read_uint16_length_prefixed s)

  unfoldable pub vector_body : ClientHello → ℕ → Prefix → Option Text
  unfolding prefixed
  vector_body c typ p = do data_ ← extension c typ; prefixed p data_

  abbrev pub uint16s_of : Text → List ℕ
  uint16s_of body = if length body % 2 == 0 then uint16_all cb body else []

  unfoldable pub uint16_vector : ClientHello → ℕ → Prefix → List ℕ
  unfolding vector_body
  uint16_vector c typ p = listed (vector_body c typ p) uint16s_of

  unfoldable pub uint8_vector : ClientHello → ℕ → Text
  unfolding vector_body
  uint8_vector c typ = listed (vector_body c typ uint8_prefixed) (λ body. body)

  unfoldable pub server_name_loop : ℕ → Text → Option Text
  server_name_loop zero list = none
  server_name_loop (suc fuel) [] = none
  server_name_loop (suc fuel) (c ∷ list) = do
    (name_type, s1) ← cb.read_uint8 (c ∷ list)
    (name, s2) ← cb.read_uint16_length_prefixed s1
    elim (name_type == 0) [ true ↦ some name | false ↦ server_name_loop fuel s2 ]

  unfoldable pub server_name : ClientHello → Option Text
  unfolding server_name_loop
  server_name c = do
    data_ ← extension c ext_server_name
    (list, s) ← cb.read_uint16_length_prefixed data_
    server_name_loop (suc (length list)) list

  -- The loops of `ALPN` and `ApplicationSettings`.
  unfoldable pub protocol_loop : ℕ → Text → List Text
  protocol_loop zero list = []
  protocol_loop (suc fuel) [] = []
  protocol_loop (suc fuel) (c ∷ list) =
      listed (cb.read_uint8_length_prefixed (c ∷ list)) (λ x. x.0 ∷ protocol_loop fuel x.1)

  abbrev pub protocols_of : Text → List Text
  protocols_of list = protocol_loop (suc (length list)) list

  unfoldable pub alpn : ClientHello → List Text
  unfolding protocol_loop
  alpn c =
      listed (extension c ext_alpn)
        (λ data_. listed (content (cb.read_uint16_length_prefixed data_)) protocols_of)

  abbrev pub supported_versions : ClientHello → List ℕ
  supported_versions c = uint16_vector c ext_supported_versions uint8_prefixed

  abbrev pub supported_groups : ClientHello → List ℕ
  supported_groups c = uint16_vector c ext_supported_groups uint16_prefixed

  abbrev pub signature_algorithms : ClientHello → List ℕ
  signature_algorithms c = uint16_vector c ext_signature_algorithms uint16_prefixed

  abbrev pub cert_compression_algorithms : ClientHello → List ℕ
  cert_compression_algorithms c = uint16_vector c ext_compress_certificate uint8_prefixed

  unfoldable pub key_share_loop : ℕ → Text → List ℕ
  key_share_loop zero list = []
  key_share_loop (suc fuel) [] = []
  key_share_loop (suc fuel) (c ∷ list) =
      listed (cb.read_uint16 (c ∷ list))
        (λ g. listed (cb.read_uint16_length_prefixed g.1) (λ k. g.0 ∷ key_share_loop fuel k.1))

  unfoldable pub key_share_groups : ClientHello → List ℕ
  unfolding key_share_loop
  key_share_groups c = listed (extension c ext_key_share) (λ data_.
      listed (content (cb.read_uint16_length_prefixed data_))
        (λ list. key_share_loop (suc (length list)) list))

  abbrev pub ec_point_formats : ClientHello → Text
  ec_point_formats c = uint8_vector c ext_ec_point_formats

  abbrev pub psk_key_exchange_modes : ClientHello → Text
  psk_key_exchange_modes c = uint8_vector c ext_psk_key_exchange_modes

  -- One round over the two extension numbers: `none` is `continue`.
  unfoldable pub settings_at : ClientHello → ℕ → Option (List Text)
  unfolding protocol_loop
  settings_at c typ = do
    data_ ← extension c typ
    list ← content (cb.read_uint16_length_prefixed data_)
    some (protocols_of list)

  unfoldable pub settings_loop : ClientHello → List ℕ → List Text
  unfolding settings_at
  settings_loop c [] = []
  settings_loop c (typ ∷ types) = elim (settings_at c typ) [
    | none ↦ settings_loop c types
    | some out ↦ out
  ]

  abbrev pub application_settings : ClientHello → List Text
  application_settings c =
      settings_loop c (ext_application_settings ∷ ext_application_settings_old ∷ [])

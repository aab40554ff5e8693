-- ===== src/Fingerprint/Hello.antt =====
-- fingerprint/clienthello.go: the message, the extension numbers and the errors.
use tls_forge.Base.{ℕ, List, [], ◌∷◌, Option, none, some, ◌==◌, if◌then◌else◌, Text}

abbrev pub ext_server_name : ℕ
ext_server_name = 0

abbrev pub ext_supported_groups : ℕ
ext_supported_groups = 10

abbrev pub ext_ec_point_formats : ℕ
ext_ec_point_formats = 11

abbrev pub ext_signature_algorithms : ℕ
ext_signature_algorithms = 13

abbrev pub ext_alpn : ℕ
ext_alpn = 16

abbrev pub ext_compress_certificate : ℕ
ext_compress_certificate = 27

abbrev pub ext_supported_versions : ℕ
ext_supported_versions = 43

abbrev pub ext_psk_key_exchange_modes : ℕ
ext_psk_key_exchange_modes = 45

abbrev pub ext_key_share : ℕ
ext_key_share = 51

abbrev pub ext_application_settings : ℕ
ext_application_settings = 17513

abbrev pub ext_application_settings_old : ℕ
ext_application_settings_old = 17613

abbrev pub record_type_handshake : ℕ
record_type_handshake = 0x16

abbrev pub type_client_hello : ℕ
type_client_hello = 0x01

abbrev pub max_handshake_size : ℕ
max_handshake_size = 131072

pub record Extension : Type 0 where
  pub type : ℕ
  pub body : Text

pub record ClientHello : Type 0 where
  pub raw : Text
  pub legacy_version : ℕ
  pub random : Text
  pub session_id : Text
  pub cipher_suites : List ℕ
  pub compression_methods : Text
  pub extensions : List Extension

-- The errors, one for each message. `out_of_fuel` is the model's own: no loop that the
-- documented readers drive ends that way.
pub data Error : Type 0 where
  not_client_hello truncated_record handshake_too_large no_records incomplete : Error
  truncated_version truncated_random truncated_session_id malformed_ciphers : Error
  truncated_compression truncated_extensions malformed_extension out_of_fuel : Error

pub data Result {ℓ} (A : Type ℓ) : Type ℓ where
  ok : A → Result A
  err : Error → Result A

infixl 5 ◌>>=◌
abbrev pub ◌>>=◌ {ℓ κ} : {A : Type ℓ} {B : Type κ} → Result A → (A → Result B) → Result B
ok a >>= f = f a
err e >>= f = err e

-- `if !read { return nil, err }`
abbrev pub or_fail {ℓ} : {A : Type ℓ} → Error → Option A → Result A
or_fail e none = err e
or_fail e (some a) = ok a

-- The loop of `Extension`: the body of the first of that type.
unfoldable pub extension_in : List Extension → ℕ → Option Text
extension_in [] typ = none
extension_in (ext ∷ exts) typ = if ext.type == typ then some ext.body else extension_in exts typ

abbrev pub extension : ClientHello → ℕ → Option Text
extension c typ = extension_in c.extensions typ

unfoldable pub types_of : List Extension → List ℕ
types_of [] = []
types_of (ext ∷ exts) = ext.type ∷ types_of exts

abbrev pub extension_types : ClientHello → List ℕ
extension_types c = types_of c.extensions

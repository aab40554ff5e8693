-- ===== src/Capture.antt =====
-- capture/capture.go: what one client sent, in the form that is exchanged, and back to the form
-- that is compared. Of what the browser says in JavaScript only the user agent is looked into;
-- the other fields are one value here. The readers of cryptobyte, MD5 and SHA-256 are parameters.
pub mod RoundTrip
mod Examples
use tls_forge.Base.{
  ℕ, Bool, true, false, List, [], ◌∷◌, ◌++◌, map, Option, none, some, ◌==◌, if◌then◌else◌, Text,
  text_eq, codes, hex4,
}
use tls_forge.Fingerprint.Wire.{Cryptobyte}
use tls_forge.Fingerprint.Hello.{ClientHello, Result, extension, extension_types}
use tls_forge.Fingerprint.Parse.{parse_client_hello}
use tls_forge.Fingerprint.Accessors.{
  server_name, supported_versions, supported_groups, signature_algorithms, key_share_groups,
  cert_compression_algorithms, ec_point_formats, psk_key_exchange_modes, alpn, application_settings,
}
use tls_forge.Fingerprint.Ja3.{ja3, ja3_hash}
use tls_forge.Fingerprint.Ja4.{ja4, ja4_raw}
use tls_forge.Fingerprint.Names.{
  version_name, cipher_name, extension_name, group_name, signature_name, setting_name,
}
use tls_forge.Fingerprint.Http as Seen

pub record Value : Type 0 where
  pub code : ℕ
  pub name : Text

pub record Tls : Type 0 where
  pub ja3 : Text
  pub ja3_hash : Text
  pub ja4 : Text
  pub ja4_raw : Text
  pub legacy_version : Value
  pub server_name : Text
  pub cipher_suites : List Value
  pub extensions : List Value
  pub supported_versions : List Value
  pub supported_groups : List Value
  pub signature_algorithms : List Value
  pub key_share_groups : List Value
  pub cert_compression : List Value
  pub ec_point_formats : Text
  pub psk_key_exchange_modes : Text
  pub alpn : List Text
  pub application_settings : List Text
  pub resumed : Bool

pub record Setting : Type 0 where
  pub id : ℕ
  pub name : Text
  pub value : ℕ

pub record Priority : Type 0 where
  pub stream_id : ℕ
  pub exclusive : Bool
  pub depends_on : ℕ
  pub weight : ℕ

pub record HeaderField : Type 0 where
  pub name : Text
  pub value : Text

pub record Http1 : Type 0 where
  pub method : Text
  pub path : Text
  pub proto : Text
  pub header_order : List Text
  pub header_names : List Text
  pub headers : List HeaderField

pub record Http2 : Type 0 where
  pub akamai : Text
  pub settings : List Setting
  pub window_update : ℕ
  pub priorities : List Priority
  pub header_priority : Option Priority
  pub pseudo_header_order : List Text
  pub header_order : List Text
  pub headers : List HeaderField

pub record Navigator : Type 0 where
  pub user_agent : Text
  pub hints : Text

-- `TLS` is empty for a client whose ClientHello was not read.
pub record Capture : Type 0 where
  pub negotiated : Text
  pub raw_client_hello : Text
  pub tls : Option Tls
  pub http2 : Option Http2
  pub http1 : Option Http1
  pub navigator : Option Navigator

abbrev pub value : ℕ → (ℕ → Text) → Value
value v name = record { code = v; name = name v }

abbrev pub values : List ℕ → (ℕ → Text) → List Value
values vs name = map (λ v. value v name) vs

unfoldable pub cert_compression_name : ℕ → Text
unfolding hex4
cert_compression_name v =
    if v == 1
    then codes "zlib"
    else if v == 2
    then codes "brotli"
    else if v == 3
    then codes "zstd"
    else codes "0x" ++ hex4 v

abbrev pub or_empty : Option Text → Text
or_empty none = []
or_empty (some t) = t

abbrev pub is_some {ℓ} : {A : Type ℓ} → Option A → Bool
is_some none = false
is_some (some a) = true

-- `fingerprint.ExtPreSharedKey`
abbrev pub ext_pre_shared_key : ℕ
ext_pre_shared_key = 41

module _ (cb : Cryptobyte) where
  unfoldable pub from_client_hello : (Text → Text) → (Text → Text) → ClientHello → Tls
  unfolding cert_compression_name
  from_client_hello md5 sha256 c = record {
    ja3 = ja3 cb c;
    ja3_hash = ja3_hash cb md5 c;
    ja4 = ja4 cb sha256 c;
    ja4_raw = ja4_raw cb c;
    legacy_version = value c.legacy_version version_name;
    server_name = or_empty (server_name cb c);
    cipher_suites = values c.cipher_suites cipher_name;
    extensions = values (extension_types c) extension_name;
    supported_versions = values (supported_versions cb c) version_name;
    supported_groups = values (supported_groups cb c) group_name;
    signature_algorithms = values (signature_algorithms cb c) signature_name;
    key_share_groups = values (key_share_groups cb c) group_name;
    cert_compression = values (cert_compression_algorithms cb c) cert_compression_name;
    ec_point_formats = ec_point_formats cb c;
    psk_key_exchange_modes = psk_key_exchange_modes cb c;
    alpn = alpn cb c;
    application_settings = application_settings cb c;
    resumed = is_some (extension c ext_pre_shared_key);
  }

  abbrev pub reparsed : Text → Option (Result ClientHello)
  unfolding parse_client_hello
  reparsed [] = none
  reparsed (x ∷ xs) = some (parse_client_hello cb (x ∷ xs))

  -- `none` is the error of a capture that recorded no ClientHello.
  unfoldable pub hello : Capture → Option (Result ClientHello)
  unfolding parse_client_hello
  hello c = reparsed c.raw_client_hello

abbrev pub priority_shown : Seen.Priority → Priority
priority_shown p = record {
  stream_id = p.stream_id;
  exclusive = p.exclusive;
  depends_on = p.depends_on;
  weight = p.weight;
}

abbrev pub option_map {ℓ κ} : {A : Type ℓ} {B : Type κ} → (A → B) → Option A → Option B
option_map f none = none
option_map f (some a) = some (f a)

abbrev pub setting_shown : Seen.Setting → Setting
setting_shown s = record { id = s.id; name = setting_name s.id; value = s.value }

abbrev pub field_shown : Seen.HeaderField → HeaderField
field_shown f = record { name = f.name; value = f.value }

abbrev pub http2_shown : Seen.Http2 → Http2
http2_shown h = record {
  akamai = Seen.akamai h;
  settings = map setting_shown h.settings;
  window_update = h.window_update;
  priorities = map priority_shown h.priorities;
  header_priority = option_map priority_shown h.header_priority;
  pseudo_header_order = Seen.pseudo_header_order h;
  header_order = Seen.header_order h;
  headers = map field_shown h.headers;
}

unfoldable pub from_http2 : Option Seen.Http2 → Option Http2
from_http2 h = option_map http2_shown h

abbrev pub setting_seen : Setting → Seen.Setting
setting_seen s = record { id = s.id; value = s.value }

abbrev pub priority_seen : Priority → Seen.Priority
priority_seen p = record {
  stream_id = p.stream_id;
  exclusive = p.exclusive;
  depends_on = p.depends_on;
  weight = p.weight;
}

abbrev pub field_seen : HeaderField → Seen.HeaderField
field_seen f = record { name = f.name; value = f.value }

-- `(*HTTP2).Fingerprint`
unfoldable pub fingerprint : Option Http2 → Option Seen.Http2
fingerprint h =
    option_map
      (λ (h : Http2). record {
        settings = map setting_seen h.settings;
        window_update = h.window_update;
        priorities = map priority_seen h.priorities;
        headers = map field_seen h.headers;
        header_priority = option_map priority_seen h.header_priority;
      })
      h

-- The wire spelling at a header's place, where there is one.
abbrev pub wire_name : Text → List Text → Text
wire_name name [] = name
wire_name name ([] ∷ names) = name
wire_name name ((c ∷ wire) ∷ names) = c ∷ wire

abbrev pub tail : List Text → List Text
tail [] = []
tail (t ∷ ts) = ts

unfoldable pub spelled : List HeaderField → List Text → List Seen.HeaderField
spelled [] names = []
spelled (f ∷ headers) names =
    record { name = wire_name f.name names; value = f.value } ∷ spelled headers (tail names)

-- `(*HTTP1).Fingerprint`
unfoldable pub fingerprint1 : Option Http1 → Option Seen.Http1
unfolding spelled
fingerprint1 h = option_map (λ (h : Http1). record { headers = spelled h.headers h.header_names }) h

unfoldable pub user_agent_in : List HeaderField → Option Text
unfolding text_eq
user_agent_in [] = none
user_agent_in (f ∷ headers) =
    let more = user_agent_in headers in
    if text_eq f.name (codes "user-agent") then some f.value else more

abbrev pub navigator_agent : Option Navigator → Text
navigator_agent none = []
navigator_agent (some n) = n.user_agent

abbrev pub headers_of : Option Http2 → List HeaderField
headers_of none = []
headers_of (some h) = h.headers

unfoldable pub user_agent : Capture → Text
unfolding user_agent_in
user_agent c = elim (user_agent_in (headers_of c.http2)) [
  | some agent ↦ agent
  | none ↦ navigator_agent c.navigator
]

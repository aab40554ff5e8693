-- ===== src/Profile/Examples.antt =====
-- A profile with a captured handshake, and one that is built of a capture.
use mathlib.Core.List.{Permᴰ}
use mathlib.Core.List.Permᴰ
use tls_forge.Base.{
  ℕ, true, List, [], ◌∷◌, Option, none, some, ◌≡◌, ◌≢◌, ◌↔◌, refl, Text, text_eq, codes, contains,
  to_lower, trim_space,
}
use tls_forge.Base.{◌++◌, replicate, has_prefix, trim_left, trim_right}
use tls_forge.Fingerprint.Wire.{documented, first_byte, big_endian, cut}
use tls_forge.Fingerprint.Parse.{
  parse_client_hello, handshake_body, body_loop, read_record, progress, complete_handshake,
  cipher_loop, read_extensions,
}
use tls_forge.Capture.{Capture, hello, user_agent, user_agent_in}
use tls_forge.Profile.FromCapture.{
  Built, built, from_capture, http2_of, pseudo_names, pseudo_name, kept_headers, per_request,
  http1_from_capture,
}
use tls_forge.Profile.FromCapture.Kept.{IsBuiltFrom, from_capture-IsBuiltFrom}
use tls_forge.Profile.{
  Profile, Http2, no_name, load, validate_pseudo_header_order, validate_http1, pseudo_headers,
  pseudo_loop, is_bare_base,
}
use tls_forge.Profile.Valid.{validate_pseudo_header_order_iff}
use tls_forge.Profile.Spec.{Extension, generic, other, client_profile, invalid, trust_anchors}
use tls_forge.Profile.Spec.Safe.{load-client_profile}

abbrev chrome_http2 : Http2
chrome_http2 = record {
  settings = record { id = 1; value = 65536 } ∷ [];
  connection_flow = 15663105;
  pseudo_header_order = codes ":method" ∷ codes ":authority" ∷ codes ":scheme" ∷ codes ":path" ∷ [];
  priorities = [];
  header_priority = none;
  stream_id = 0;
}

abbrev chrome : Profile
chrome = record {
  name = codes "chrome";
  user_agent = [];
  client_hello = 22 ∷ 3 ∷ 1 ∷ [];
  base = [];
  http1 = none;
  http2 = chrome_http2;
  headers = [];
  notes = [];
  source = [];
}

validate_pseudo_header_order_iff_example :
    (validate_pseudo_header_order chrome_http2 ≡ none)
    ↔ Permᴰ chrome_http2.pseudo_header_order pseudo_headers
validate_pseudo_header_order_iff_example = validate_pseudo_header_order_iff chrome_http2

-- A reader that finds the trust anchors and one extension of another kind.
abbrev raw : List (Extension ℕ)
raw = other 7 ∷ generic trust_anchors (0 ∷ 2 ∷ 1 ∷ 97 ∷ []) ∷ []

abbrev reader : Text → Option (List (Extension ℕ))
reader hello = some raw

abbrev catalogue : Text → Option (Option (List (Extension ℕ)))
catalogue base = none

abbrev unmarshal : Text → Option Profile
unmarshal text = some chrome

load-client_profile_example :
    (client_profile (λ n. true) reader catalogue (λ r. r) [] chrome).0 ≢ invalid no_name
unfolding load validate_pseudo_header_order validate_http1 is_bare_base pseudo_loop contains text_eq
load-client_profile_example =
    load-client_profile (λ n. true) unmarshal reader catalogue (λ r. r) [] (codes "{}") chrome
      no_name refl

-- A ClientHello of one cipher suite and no extension.
abbrev small_hello : Text
small_hello =
    22
    ∷ 3
    ∷ 1
    ∷ 0
    ∷ 45
    ∷ 1
    ∷ 0
    ∷ 0
    ∷ 41
    ∷ 3
    ∷ 3
    ∷ (replicate 32 0 ++ (0 ∷ 0 ∷ 2 ∷ 19 ∷ 1 ∷ 1 ∷ 0 ∷ []))

abbrev measured : Capture
measured = record {
  negotiated = codes "h2";
  raw_client_hello = small_hello;
  tls = none;
  http2 = some (record {
    akamai = [];
    settings = record { id = 1; name = []; value = 65536 } ∷ [];
    window_update = 15663105;
    priorities = [];
    header_priority = none;
    pseudo_header_order = codes "m" ∷ codes "a" ∷ [];
    header_order = [];
    headers =
        record { name = codes ":method"; value = codes "GET" }
        ∷ record { name = codes "Cookie"; value = codes "x=1" }
        ∷ record { name = codes "Accept"; value = codes "*/*" }
        ∷ [];
  });
  http1 = none;
  navigator = none;
}

abbrev built_of : Built → Profile
built_of (built p) = p
built_of _ = chrome

from_capture-IsBuiltFrom_example :
    IsBuiltFrom documented measured
      (built_of (from_capture documented (codes "me") (some measured)))
unfolding from_capture hello parse_client_hello handshake_body body_loop read_record progress
    complete_handshake cipher_loop read_extensions first_byte big_endian cut http2_of pseudo_names
    pseudo_name kept_headers per_request contains text_eq to_lower has_prefix trim_space trim_left
    trim_right http1_from_capture user_agent user_agent_in
from_capture-IsBuiltFrom_example =
    from_capture-IsBuiltFrom documented (codes "me") measured
      (built_of (from_capture documented (codes "me") (some measured))) refl

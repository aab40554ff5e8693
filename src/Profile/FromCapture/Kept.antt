-- ===== src/Profile/FromCapture/Kept.antt =====
-- profile/fromcapture.go: which headers of a measured request a profile has.
use tls_forge.Base.{
  if_both, Bool, true, false, ◌||◌, List, [], ◌∷◌, Option, none, some, ◌≡◌, inl, inr, refl, ap, sym,
  ◌∙◌, if◌then◌else◌, Bool-cases, Text, text_eq, text_eq_iff, codes, has_prefix, to_lower,
  to_lower_idem, trim_space,
}
use tls_forge.Fingerprint.Wire.{Cryptobyte}
use tls_forge.Fingerprint.Hello as Hello
use tls_forge.Capture.{Capture, hello, headers_of, user_agent}
use tls_forge.Capture as Capture_
use tls_forge.Profile.{Profile, Http1, is_empty}
use tls_forge.Profile.FromCapture.{
  per_request, kept_headers, field_values, http2_of, http1_from_capture, Built, built, refused,
  with_http1, with_http2, parsed_first, is_resumed, from_capture, resumed, agent_of,
}

-- The values that a request had for a name, in any case.
unfoldable pub measured_values : Text → List Capture_.HeaderField → List Text
unfolding text_eq to_lower
measured_values name [] = []
measured_values name (h ∷ headers) =
    let rest = measured_values name headers in
    if text_eq (to_lower h.name) name then h.value ∷ rest else rest

-- A header that describes one request and not a browser.
abbrev pub is_dropped : Text → Bool
is_dropped name = has_prefix name (codes ":") || per_request name

pub field_values-kept_headers :
    (name : Text) (headers : List Capture_.HeaderField)
    → field_values name (kept_headers headers)
      ≡ (if is_dropped name then [] else measured_values name headers)
unfolding field_values kept_headers measured_values
field_values-kept_headers name [] = if_both (is_dropped name) []
field_values-kept_headers name (h ∷ headers) =
    let ih = field_values-kept_headers name headers in
    let same : (text_eq (to_lower h.name) name ≡ true)
        → is_dropped (to_lower h.name) ≡ is_dropped name =
      λ e. ap is_dropped ((text_eq_iff (to_lower h.name) name).0 e) in
    elim (Bool-cases (is_dropped (to_lower h.name))) [
      | inl dropped ↦ elim (Bool-cases (text_eq (to_lower h.name) name)) [
        | inl here ↦
            rw (dropped, here, sym (same here) ∙ dropped) (ih ∙ rw (sym (same here) ∙ dropped) refl)
        | inr other ↦ rw (dropped, other) ih
      ]
      | inr kept ↦ elim (Bool-cases (text_eq (to_lower h.name) name)) [
        | inl here ↦ rw (kept, to_lower_idem h.name, here, ih, sym (same here) ∙ kept) refl
        | inr other ↦ rw (kept, to_lower_idem h.name, other) ih
      ]
    ]

-- What a profile has of the measurement that it was built from.
pub record IsBuiltFrom (cb : Cryptobyte) (c : Capture) (p : Profile) : Type 0 where
  pub handshake : p.client_hello ≡ c.raw_client_hello
  pub parses : (h : Hello.ClientHello) × (hello cb c ≡ some (Hello.ok h))
  pub cold : is_resumed c.tls ≡ false
  pub values :
      (name : Text)
      → field_values name p.headers
        ≡ (if is_dropped name then [] else measured_values name (headers_of c.http2))

with_http1-built :
    (name : Text) (c : Capture) (h : Capture_.Http2) (block : Option (Option Http1)) (p : Profile)
    → with_http1 name c (http2_of h) (kept_headers h.headers) block ≡ built p
    → (p.client_hello ≡ c.raw_client_hello) × (p.headers ≡ kept_headers h.headers)
unfolding user_agent
with_http1-built name c h none p e = cc
with_http1-built name c h (some b) p e =
    let q : Profile = record {
      name = name;
      user_agent = agent_of c;
      client_hello = c.raw_client_hello;
      base = [];
      http1 = b;
      http2 = http2_of h;
      headers = kept_headers h.headers;
      notes = [];
      source = [];
    } in
    let same : q ≡ p = cc in
    (sym (ap (λ (r : Profile). r.client_hello) same), sym (ap (λ (r : Profile). r.headers) same))

with_http2-built :
    (name : Text) (c : Capture) (h2 : Option Capture_.Http2) (p : Profile)
    → with_http2 name c h2 ≡ built p
    → (p.client_hello ≡ c.raw_client_hello) × (p.headers ≡ kept_headers (headers_of h2))
unfolding http2_of kept_headers http1_from_capture
with_http2-built name c none p e = cc
with_http2-built name c (some h) p e =
    with_http1-built name c h (http1_from_capture c.http1 (kept_headers h.headers)) p e

parsed_first-built :
    (r : Option (Hello.Result Hello.ClientHello)) (rest : Built) (p : Profile)
    → parsed_first r rest ≡ built p
    → ((h : Hello.ClientHello) × (r ≡ some (Hello.ok h))) × (rest ≡ built p)
parsed_first-built none rest p e = cc
parsed_first-built (some (Hello.ok h)) rest p e = ((h, refl), e)
parsed_first-built (some (Hello.err f)) rest p e = cc

-- A profile is built only of a capture whose ClientHello parses and which is not itself marked as
-- a resumed session; it has the captured bytes, and for every name exactly the values that the measured HTTP/2
-- request had for it, in order, but none at all for a pseudo-header or a name that describes one
-- request.
pub from_capture-IsBuiltFrom :
    (cb : Cryptobyte) (name : Text) (c : Capture) (p : Profile)
    → from_capture cb name (some c) ≡ built p
    → IsBuiltFrom cb c p
unfolding from_capture
from_capture-IsBuiltFrom cb name c p e = elim (Bool-cases (is_empty (trim_space name))) [
  | inl nameless ↦ cc (rw nameless at e)
  | inr named ↦
      let (parses, rest) =
        parsed_first-built (hello cb c)
          (if is_resumed c.tls then refused resumed else with_http2 name c c.http2) p
          (rw named at e) in
      elim (Bool-cases (is_resumed c.tls)) [
        | inl warm ↦ cc (rw warm at rest)
        | inr cold ↦
            let (handshake, headers) = with_http2-built name c c.http2 p (rw cold at rest) in
            record {
              handshake = handshake;
              parses = parses;
              cold = cold;
              values = λ k.
                  ap (field_values k) headers ∙ field_values-kept_headers k (headers_of c.http2);
            }
      ]
]

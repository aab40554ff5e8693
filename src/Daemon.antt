-- ===== src/Daemon.antt =====
-- daemon/daemon.go: requests as lines of JSON, and their answers. The decoder of a line gives the
-- request as far as it got and the error, if any; a client is a state that each request may change.
pub mod HeaderMap
pub mod Serve
pub mod Order
pub mod Headers
pub mod Answers
mod Examples
use tls_forge.Base.{
  ℕ, zero, suc, ◌<◌, Bool, true, false, not, ◌&&◌, ◌||◌, List, [], ◌∷◌, ◌++◌, Option, none, some,
  leb, ltb, ◌==◌, if◌then◌else◌, Text, codes, text_eq, to_lower, trim_space, cut_text, sort,
  text_leb, scan_lines,
}
use tls_forge.Header.{Header, set, names}

pub record Request : Type 0 where
  pub id : ℕ
  pub method : Text
  pub url : Text
  pub headers : List (Text × Text)
  pub order : List Text
  pub body : Text
  pub body_encoding : Text
  pub set_cookie : List Text

-- The messages, with what they name.
pub data Failure : Type 0 where
  no_url bad_base64 bad_header_name line_too_long : Failure
  malformed repeated_header bad_cookie unknown_encoding client_failed bad_header_value :
      Text → Failure

pub data Result {ℓ} (A : Type ℓ) : Type ℓ where
  ok : A → Result A
  err : Failure → Result A

infixl 5 ◌>>=◌
abbrev pub ◌>>=◌ {ℓ κ} : {A : Type ℓ} {B : Type κ} → Result A → (A → Result B) → Result B
ok a >>= f = f a
err e >>= f = err e

pub record Response : Type 0 where
  pub id : ℕ
  pub status : ℕ
  pub url : Text
  pub body : Text
  pub body_encoding : Text
  pub headers : List (Text × List Text)
  pub cookies : List Text
  pub error : Option Failure

-- `Response{ID: id, Error: …}`
abbrev pub failed : ℕ → Failure → Response
failed id e = record {
  id = id;
  status = 0;
  url = [];
  body = [];
  body_encoding = [];
  headers = [];
  cookies = [];
  error = some e;
}

abbrev pub is_blank : Text → Bool
is_blank [] = true
is_blank (c ∷ s) = false

-- encoding/base64's standard encoding.
pub record Base64 : Type 0 where
  pub decode : Text → Option Text
  pub encode : Text → Text

abbrev pub decoded : Option Text → Result Text
decoded none = err bad_base64
decoded (some raw) = ok raw

unfoldable pub decode_body : Base64 → Text → Text → Result Text
unfolding text_eq
decode_body base64 body encoding =
    if is_blank encoding || text_eq encoding (codes "utf8")
    then ok body
    else if text_eq encoding (codes "base64")
    then decoded (base64.decode body)
    else err (unknown_encoding encoding)

-- `utf8.Valid`: how many bytes of a character are to come, and the bounds of the next one.
abbrev pub after_lead : ℕ → Option (ℕ × ℕ × ℕ)
after_lead c =
    if ltb c 0x80
    then some (0, 0, 0)
    else if ltb c 0xc2
    then none
    else if ltb c 0xe0
    then some (1, 0x80, 0xbf)
    else if c == 0xe0
    then some (2, 0xa0, 0xbf)
    else if c == 0xed
    then some (2, 0x80, 0x9f)
    else if ltb c 0xf0
    then some (2, 0x80, 0xbf)
    else if c == 0xf0
    then some (3, 0x90, 0xbf)
    else if ltb c 0xf4
    then some (3, 0x80, 0xbf)
    else if c == 0xf4
    then some (3, 0x80, 0x8f)
    else none

abbrev pub after_byte : ℕ → ℕ → ℕ → ℕ → Option (ℕ × ℕ × ℕ)
after_byte zero low high c = after_lead c
after_byte (suc more) low high c = if leb low c && leb c high then some (more, 0x80, 0xbf) else none

unfoldable pub valid_from : Option (ℕ × ℕ × ℕ) → Text → Bool
valid_from none s = false
valid_from (some (more, low, high)) [] = more == 0
valid_from (some (more, low, high)) (c ∷ s) = valid_from (after_byte more low high c) s

unfoldable pub valid : Text → Bool
unfolding valid_from
valid s = valid_from (some (0, 0, 0)) s

unfoldable pub encode_body : Base64 → Text → Text × Text
unfolding valid
encode_body base64 body = if valid body then (body, []) else (base64.encode body, codes "base64")

-- The inner loop of `validateResponseHeaders`, and the outer one.
unfoldable pub validate_values : Text → List Text → Result (Unit {0})
unfolding valid
validate_values name [] = ok tt
validate_values name (value ∷ values) =
    let rest = validate_values name values in
    if not (valid value) then err (bad_header_value name) else rest

unfoldable pub validate_response_headers : List (Text × List Text) → Result (Unit {0})
unfolding validate_values
validate_response_headers [] = ok tt
validate_response_headers ((name, values) ∷ headers) =
    let rest = validate_values name values >>= λ _. validate_response_headers headers in
    if not (valid name) then err bad_header_name else rest

abbrev pub pair_of : Text → Option (Text × Text) → Result (Text × Text)
pair_of entry none = err (bad_cookie entry)
pair_of entry (some (name, value)) =
    if is_blank (trim_space name)
    then err (bad_cookie entry)
    else ok (trim_space name, trim_space value)

unfoldable pub parse_cookies : List Text → Result (List (Text × Text))
unfolding cut_text trim_space
parse_cookies [] = ok []
parse_cookies (entry ∷ raw) = do
  cookie ← pair_of entry (cut_text b'=' entry)
  cookies ← parse_cookies raw
  ok (cookie ∷ cookies)

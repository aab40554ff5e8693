-- ===== src/Profile.antt =====
-- profile/profile.go: a browser identity, the checks on it, and what the transport is given of
-- it. A profile is a value here, so `Clone` is the profile. JSON, the tls-client catalogue, utls
-- and `httpguts.ValidHeaderFieldName` are parameters.
pub mod TrustAnchors
pub mod Valid
pub mod Spec
pub mod FromCapture
pub mod Registry
mod Examples
use tls_forge.Base.{
  ℕ, Bool, true, false, not, ◌&&◌, ◌||◌, List, [], ◌∷◌, ◌++◌, map, Option, none, some, length, ◌==◌,
  if◌then◌else◌, Text, text_eq, codes, contains, equal_fold, has_prefix, to_lower, trim_space,
}
use tls_forge.Header.{Field}

pub record Http1 : Type 0 where
  pub header_order : List Text
  pub headers : List Field

pub record Setting : Type 0 where
  pub id : ℕ
  pub value : ℕ

pub record Priority : Type 0 where
  pub stream_id : ℕ
  pub exclusive : Bool
  pub depends_on : ℕ
  pub weight : ℕ

pub record Http2 : Type 0 where
  pub settings : List Setting
  pub connection_flow : ℕ
  pub pseudo_header_order : List Text
  pub priorities : List Priority
  pub header_priority : Option Priority
  pub stream_id : ℕ

pub record Profile : Type 0 where
  pub name : Text
  pub user_agent : Text
  pub client_hello : Text
  pub base : Text
  pub http1 : Option Http1
  pub http2 : Http2
  pub headers : List Field
  pub notes : Text
  pub source : Text

pub data Problem : Type 0 where
  not_json no_name pseudo_count pseudo_names empty_order bad_order no_host_first : Problem
  bad_header : Text → Problem

abbrev pub is_empty {ℓ} : {A : Type ℓ} → List A → Bool
is_empty [] = true
is_empty (x ∷ xs) = false

-- `strings.Contains`
unfoldable pub has_infix : Text → Text → Bool
unfolding has_prefix
has_infix [] needle = is_empty needle
has_infix (c ∷ s) needle = has_prefix (c ∷ s) needle || has_infix s needle

abbrev pub any_infix : Text → List Text → Bool
unfolding has_infix
any_infix s [] = false
any_infix s (marker ∷ markers) = has_infix s marker || any_infix s markers

unfoldable pub shuffles_extensions : Profile → Bool
unfolding to_lower has_infix
shuffles_extensions p =
    any_infix (to_lower (p.name ++ (codes " " ++ (p.base ++ (codes " " ++ p.user_agent)))))
      (codes "chrome" ∷ codes "chromium" ∷ codes "brave" ∷ codes "opera" ∷ codes " opr/" ∷ [])

abbrev pub pseudo_headers : List Text
pseudo_headers = codes ":method" ∷ codes ":authority" ∷ codes ":scheme" ∷ codes ":path" ∷ []

unfoldable pub pseudo_loop : List Text → List Text → Option Problem
unfolding contains
pseudo_loop seen [] = none
pseudo_loop seen (name ∷ order) =
    let more = pseudo_loop (name ∷ seen) order in
    if not (contains name pseudo_headers) || contains name seen then some pseudo_names else more

unfoldable pub validate_pseudo_header_order : Http2 → Option Problem
unfolding pseudo_loop
validate_pseudo_header_order h =
    if length h.pseudo_header_order == 4
    then pseudo_loop [] h.pseudo_header_order
    else some pseudo_count

module _ (valid_name : Text → Bool) where
  -- The loop over the header order; what it has seen is given on.
  unfoldable pub order_loop : List Text → List Text → Option (List Text)
  unfolding contains to_lower trim_space
  order_loop seen [] = some seen
  order_loop seen (wire_name ∷ order) =
      let name = to_lower (trim_space wire_name) in
      let more = order_loop (name ∷ seen) order in
      if not (valid_name wire_name) || contains name seen then none else more

  unfoldable pub headers_loop : List Text → List Field → Option Problem
  unfolding contains to_lower trim_space text_eq
  headers_loop seen [] = none
  headers_loop seen (field ∷ fields) =
      let name = to_lower (trim_space field.name) in
      let more = headers_loop seen fields in
      if not (valid_name field.name) || text_eq name (codes "host") || not (contains name seen)
      then some (bad_header field.name)
      else more

  abbrev pub host_first : Text → List Field → Option (List Text) → Option Problem
  unfolding equal_fold headers_loop
  host_first first fields none = some bad_order
  host_first first fields (some seen) =
      if equal_fold first (codes "host") then headers_loop seen fields else some no_host_first

  abbrev pub validate_block : List Text → List Field → Option Problem
  unfolding order_loop
  validate_block [] fields = some empty_order
  validate_block (first ∷ order) fields = host_first first fields (order_loop [] (first ∷ order))

  unfoldable pub validate_http1 : Option Http1 → Option Problem
  unfolding order_loop equal_fold headers_loop
  validate_http1 none = none
  validate_http1 (some h) = validate_block h.header_order h.headers

unfoldable pub is_bare_base : Profile → Bool
is_bare_base p = not (is_empty p.base) && is_empty p.client_hello && is_empty p.http2.settings

unfoldable pub header_order : Profile → List Text
header_order p = map (λ (f : Field). f.name) p.headers

unfoldable pub find_field : Text → List Field → Option Text
unfolding equal_fold
find_field name [] = none
find_field name (f ∷ fields) =
    let more = find_field name fields in if equal_fold f.name name then some f.value else more

unfoldable pub header : Profile → Text → Option Text
unfolding find_field
header p name = find_field name p.headers

pub data Loaded : Type 0 where
  profile : Profile → Loaded
  problem : Problem → Loaded

abbrev pub unless : Option Problem → Loaded → Loaded
unless none r = r
unless (some e) r = problem e

module _ (valid_name : Text → Bool) (unmarshal : Text → Option Profile) where
  abbrev pub checked : Option Profile → Loaded
  unfolding validate_pseudo_header_order validate_http1 is_bare_base
  checked none = problem not_json
  checked (some p) =
      if is_empty p.name
      then problem no_name
      else unless (if is_bare_base p then none else validate_pseudo_header_order p.http2)
          (unless (validate_http1 valid_name p.http1) (profile p))

  unfoldable pub load : Text → Loaded
  unfolding validate_pseudo_header_order validate_http1 is_bare_base
  load text = checked (unmarshal text)

-- ===== src/Fingerprint/Compare.antt =====
-- fingerprint/compare.go: the fields that two sides are compared on, and the report. A
-- `map[string]int` is a function; an index past the candidate's fields, which panics, is `none`.
pub mod Counts
pub mod Verdict
pub mod Shuffle
use tls_forge.Base.{
  ℕ, zero, suc, ◌+◌, ◌-◌, Bool, true, false, not, ◌&&◌, List, [], ◌∷◌, ◌++◌, Option, none, some,
  ltb, ◌==◌, if◌then◌else◌, Text, text_eq, text_leb, codes, decimal, join, sort, has_prefix,
}
use tls_forge.Fingerprint.Wire.{Cryptobyte}
use tls_forge.Fingerprint.Hello.{ClientHello, extension_types}
use tls_forge.Fingerprint.Grease.{without_grease}
use tls_forge.Fingerprint.Accessors.{
  alpn, application_settings, cert_compression_algorithms, ec_point_formats, key_share_groups,
  psk_key_exchange_modes, signature_algorithms, supported_groups, supported_versions,
}
use tls_forge.Fingerprint.Ja4.{ja4}
use tls_forge.Fingerprint.Names.{
  cipher_name, extension_name, group_name, names_of, setting_name, signature_name, version_name,
}
use tls_forge.Fingerprint.Http.{
  Http1, Http2, HeaderField, Setting, akamai, header_order, http1_header_order,
  http1_header_strings, name_and_value, pseudo_header_order,
}

pub record Difference : Type 0 where
  pub field : Text
  pub reference : Text
  pub candidate : Text
  pub missing : List Text
  pub extra : List Text

pub record Report : Type 0 where
  pub differences : List Difference

pub record Field : Type 0 where
  pub name : Text
  pub values : List Text
  pub set : Bool
  pub scalar : Bool

abbrev pub scalar_field : Text → Text → Field
scalar_field name value = record { name = name; values = value ∷ []; set = false; scalar = true }

abbrev pub list_field : Text → List Text → Field
list_field name values = record { name = name; values = values; set = false; scalar = false }

abbrev pub set_field : Text → List Text → Field
set_field name values = record { name = name; values = values; set = true; scalar = false }

unfoldable pub report_ok : Report → Bool
report_ok r = elim r.differences [ [] ↦ true | d ∷ ds ↦ false ]

-- `remaining[v]++` over all of the list.
unfoldable pub tally : (Text → ℕ) → List Text → Text → ℕ
unfolding text_eq
tally remaining [] = remaining
tally remaining (v ∷ b) = tally (λ k. if text_eq v k then remaining k + 1 else remaining k) b

unfoldable pub subtract_loop : (Text → ℕ) → List Text → List Text
unfolding text_eq
subtract_loop remaining [] = []
subtract_loop remaining (v ∷ a) =
    let fewer = subtract_loop (λ k. if text_eq v k then remaining k - 1 else remaining k) a in
    let out = v ∷ subtract_loop remaining a in if ltb 0 (remaining v) then fewer else out

unfoldable pub subtract : List Text → List Text → List Text
unfolding tally subtract_loop
subtract a b = subtract_loop (tally (λ k. 0) b) a

unfoldable pub equal_strings : List Text → List Text → Bool
unfolding text_eq
equal_strings [] [] = true
equal_strings (x ∷ a) (y ∷ b) = text_eq x y && equal_strings a b
equal_strings _ _ = false

abbrev pub sorted : List Text → List Text
sorted values = sort text_leb values

unfoldable pub render_values : List Text → Text
unfolding join
render_values [] = codes "(none)"
render_values (v ∷ values) = join (codes ", ") (v ∷ values)

unfoldable pub render : Field → Text
unfolding render_values sort text_leb
render f = if f.set then render_values (sorted f.values) else render_values f.values

abbrev pub is_empty : List Text → Bool
is_empty [] = true
is_empty (v ∷ vs) = false

unfoldable pub matches : Field → Field → Bool
unfolding render subtract equal_strings
matches f other =
    if f.scalar
    then text_eq (render f) (render other)
    else if f.set
    then is_empty (subtract f.values other.values) && is_empty (subtract other.values f.values)
    else equal_strings f.values other.values

unfoldable pub diff_value : Text → Text → Text → Option Difference
unfolding text_eq
diff_value field reference candidate =
    if text_eq reference candidate
    then none
    else some (record {
      field = field;
      reference = reference;
      candidate = candidate;
      missing = [];
      extra = [];
    })

unfoldable pub diff_ordered : Text → List Text → List Text → Option Difference
unfolding equal_strings render_values subtract
diff_ordered field reference candidate =
    if equal_strings reference candidate
    then none
    else some (record {
      field = field;
      reference = render_values reference;
      candidate = render_values candidate;
      missing = subtract reference candidate;
      extra = subtract candidate reference;
    })

unfoldable pub diff_set : Text → List Text → List Text → Option Difference
unfolding subtract render_values sort text_leb
diff_set field reference candidate =
    let missing = subtract reference candidate in
    let extra = subtract candidate reference in
    if is_empty missing && is_empty extra
    then none
    else some (record {
      field = field;
      reference = render_values (sorted reference);
      candidate = render_values (sorted candidate);
      missing = missing;
      extra = extra;
    })

-- The switch in the loop of `compareFields`.
unfoldable pub diff_field : Field → Field → Option Difference
unfolding diff_value diff_ordered diff_set render
diff_field want got =
    if want.scalar
    then diff_value want.name (render want) (render got)
    else if want.set
    then diff_set want.name want.values got.values
    else diff_ordered want.name want.values got.values

abbrev pub append_some : List Difference → Option Difference → List Difference
append_some diffs none = diffs
append_some diffs (some d) = diffs ++ d ∷ []

unfoldable pub compare_loop : List Difference → List Field → List Field → Option Report
unfolding diff_field
compare_loop diffs [] candidate = some (record { differences = diffs })
compare_loop diffs (want ∷ reference) [] = none
compare_loop diffs (want ∷ reference) (got ∷ candidate) =
    compare_loop (append_some diffs (diff_field want got)) reference candidate

unfoldable pub compare_fields : List Field → List Field → Option Report
unfolding compare_loop
compare_fields reference candidate = compare_loop [] reference candidate

-- `decimalStrings`, `decimalStrings16`
unfoldable pub decimal_strings : List ℕ → List Text
unfolding decimal
decimal_strings [] = []
decimal_strings (v ∷ values) = decimal v ∷ decimal_strings values

unfoldable pub setting_strings : List Setting → List Text
unfolding decimal
setting_strings [] = []
setting_strings (s ∷ settings) =
    (setting_name s.id ++ (codes "=" ++ decimal s.value)) ∷ setting_strings settings

unfoldable pub regular_header_strings : List HeaderField → List Text
unfolding has_prefix
regular_header_strings [] = []
regular_header_strings (f ∷ headers) =
    let out = regular_header_strings headers in
    if not (has_prefix f.name (codes ":")) then name_and_value f ∷ out else out

unfoldable pub tls_fields : Cryptobyte → (Text → Text) → ClientHello → List Field
tls_fields cb sha256 hello =
    scalar_field (codes "ja4") (ja4 cb sha256 hello)
    ∷ list_field (codes "cipher_suites") (names_of (without_grease hello.cipher_suites) cipher_name)
    ∷ set_field (codes "extensions")
        (names_of (without_grease (extension_types hello)) extension_name)
    ∷ list_field (codes "supported_versions")
        (names_of (without_grease (supported_versions cb hello)) version_name)
    ∷ list_field (codes "supported_groups")
        (names_of (without_grease (supported_groups cb hello)) group_name)
    ∷ list_field (codes "signature_algorithms")
        (names_of (without_grease (signature_algorithms cb hello)) signature_name)
    ∷ list_field (codes "key_share_groups")
        (names_of (without_grease (key_share_groups cb hello)) group_name)
    ∷ list_field (codes "alpn") (alpn cb hello)
    ∷ list_field (codes "application_settings") (application_settings cb hello)
    ∷ list_field (codes "ec_point_formats") (decimal_strings (ec_point_formats cb hello))
    ∷ list_field (codes "psk_key_exchange_modes")
        (decimal_strings (psk_key_exchange_modes cb hello))
    ∷ list_field (codes "compress_certificate")
        (decimal_strings (cert_compression_algorithms cb hello))
    ∷ []

unfoldable pub http2_fields : Http2 → List Field
http2_fields h =
    scalar_field (codes "http2_akamai") (akamai h)
    ∷ list_field (codes "http2_settings") (setting_strings h.settings)
    ∷ scalar_field (codes "http2_window_update") (decimal h.window_update)
    ∷ list_field (codes "pseudo_header_order") (pseudo_header_order h)
    ∷ list_field (codes "header_order") (header_order h)
    ∷ list_field (codes "header_values") (regular_header_strings h.headers)
    ∷ []

unfoldable pub http1_fields : Http1 → List Field
http1_fields h =
    list_field (codes "http1_header_order") (http1_header_order h.headers)
    ∷ list_field (codes "http1_header_values") (http1_header_strings h.headers)
    ∷ []

unfoldable pub compare_tls : Cryptobyte → (Text → Text) → ClientHello → ClientHello → Option Report
compare_tls cb sha256 reference candidate =
    compare_fields (tls_fields cb sha256 reference) (tls_fields cb sha256 candidate)

unfoldable pub compare_http2 : Http2 → Http2 → Option Report
compare_http2 reference candidate = compare_fields (http2_fields reference) (http2_fields candidate)

unfoldable pub compare_http1 : Http1 → Http1 → Option Report
compare_http1 reference candidate = compare_fields (http1_fields reference) (http1_fields candidate)

-- ===== src/Fingerprint/Http.antt =====
-- fingerprint/http1.go and fingerprint/http2.go: what a server sees of a request, and the Akamai
-- fingerprint of a connection.
use tls_forge.Base.{
  ℕ, Bool, not, List, [], ◌∷◌, ◌++◌, Option, none, some, ◌==◌, if◌then◌else◌, Text, codes, decimal,
  join, has_prefix, equal_fold,
}

pub record Setting : Type 0 where
  pub id : ℕ
  pub value : ℕ

pub record Priority : Type 0 where
  pub stream_id : ℕ
  pub exclusive : Bool
  pub depends_on : ℕ
  pub weight : ℕ

pub record HeaderField : Type 0 where
  pub name : Text
  pub value : Text

pub record Http2 : Type 0 where
  pub settings : List Setting
  pub window_update : ℕ
  pub priorities : List Priority
  pub headers : List HeaderField
  pub header_priority : Option Priority

pub record Http1 : Type 0 where
  pub headers : List HeaderField

unfoldable pub setting_parts : List Setting → List Text
unfolding decimal
setting_parts [] = []
setting_parts (s ∷ settings) = (decimal s.id ++ (b':' ∷ decimal s.value)) ∷ setting_parts settings

unfoldable pub priority_parts : List Priority → List Text
unfolding decimal
priority_parts [] = []
priority_parts (p ∷ priorities) =
    join (codes ":") (
      decimal p.stream_id
      ∷ decimal (if p.exclusive then 1 else 0)
      ∷ decimal p.depends_on
      ∷ decimal p.weight
      ∷ [])
    ∷ priority_parts priorities

abbrev pub priorities_text : List Priority → Text
priorities_text [] = codes "0"
priorities_text (p ∷ priorities) = join (codes ",") (priority_parts (p ∷ priorities))

-- `f.Name[1:2]` of a name that begins with a colon and has a second byte.
unfoldable pub pseudo_letter : Text → Option Text
pseudo_letter (c ∷ letter ∷ rest) = if c == b':' then some (letter ∷ []) else none
pseudo_letter _ = none

abbrev pub cons_some : Option Text → List Text → List Text
cons_some none out = out
cons_some (some t) out = t ∷ out

unfoldable pub pseudo_order : List HeaderField → List Text
unfolding pseudo_letter
pseudo_order [] = []
pseudo_order (f ∷ headers) = cons_some (pseudo_letter f.name) (pseudo_order headers)

abbrev pub pseudo_header_order : Http2 → List Text
pseudo_header_order h = pseudo_order h.headers

unfoldable pub regular_order : List HeaderField → List Text
unfolding has_prefix
regular_order [] = []
regular_order (f ∷ headers) =
    let out = regular_order headers in if has_prefix f.name (codes ":") then out else f.name ∷ out

abbrev pub header_order : Http2 → List Text
header_order h = regular_order h.headers

unfoldable pub find_header : List HeaderField → Text → Option Text
unfolding equal_fold
find_header [] name = none
find_header (f ∷ headers) name =
    if equal_fold f.name name then some f.value else find_header headers name

abbrev pub header : Http2 → Text → Option Text
header h name = find_header h.headers name

unfoldable pub akamai : Http2 → Text
unfolding setting_parts priority_parts pseudo_order join
akamai h = join (codes "|") (
    join (codes ";") (setting_parts h.settings)
    ∷ (if not (h.window_update == 0) then decimal h.window_update else codes "00")
    ∷ priorities_text h.priorities
    ∷ join (codes ",") (pseudo_header_order h)
    ∷ [])

unfoldable pub http1_header_order : List HeaderField → List Text
http1_header_order [] = []
http1_header_order (f ∷ headers) = f.name ∷ http1_header_order headers

abbrev pub name_and_value : HeaderField → Text
name_and_value f = f.name ++ (codes ": " ++ f.value)

unfoldable pub http1_header_strings : List HeaderField → List Text
unfolding equal_fold
http1_header_strings [] = []
http1_header_strings (f ∷ headers) =
    let out = http1_header_strings headers in
    if not (equal_fold f.name (codes "host")) then name_and_value f ∷ out else out

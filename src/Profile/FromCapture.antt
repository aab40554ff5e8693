-- ===== src/Profile/FromCapture.antt =====
-- profile/fromcapture.go: a measurement turned into a profile. The parser of the ClientHello is
-- the model's own, over the readers of cryptobyte. A lookup in `groups` that Go would make
-- through a nil pointer is a `panic` here.
pub mod Kept
pub mod Grouping
pub mod Block
use tls_forge.Base.{
  ℕ, Bool, true, false, not, ◌&&◌, ◌||◌, List, [], ◌∷◌, ◌++◌, map, Option, none, some, ◌==◌,
  if◌then◌else◌, Text, text_eq, codes, contains, has_prefix, to_lower, trim_space,
}
use tls_forge.Fingerprint.Wire.{Cryptobyte}
use tls_forge.Fingerprint.Hello as Hello
use tls_forge.Capture.{Capture, hello, user_agent, navigator_agent, wire_name, tail}
use tls_forge.Capture as Capture_
use tls_forge.Header.{Field}
use tls_forge.Profile.{Profile, Http1, Http2, Setting, Priority, is_empty}

-- `perRequest`
abbrev pub per_request_names : List Text
per_request_names =
    codes "cookie"
    ∷ codes "host"
    ∷ codes "content-length"
    ∷ codes "content-type"
    ∷ codes "referer"
    ∷ codes "origin"
    ∷ codes "cache-control"
    ∷ codes "pragma"
    ∷ []

unfoldable pub per_request : Text → Bool
unfolding contains
per_request name = contains name per_request_names

pub data Refusal : Type 0 where
  no_name no_capture no_client_hello resumed no_http2 : Refusal
  bad_client_hello : Hello.Error → Refusal

pub data Built : Type 0 where
  built : Profile → Built
  refused : Refusal → Built
  panic : Built

-- The names of the letters; a letter of no name is passed over.
unfoldable pub pseudo_name : Text → Option Text
unfolding text_eq
pseudo_name letter =
    if text_eq letter (codes "m")
    then some (codes ":method")
    else if text_eq letter (codes "a")
    then some (codes ":authority")
    else if text_eq letter (codes "s")
    then some (codes ":scheme")
    else if text_eq letter (codes "p")
    then some (codes ":path")
    else none

abbrev pub cons_some : Option Text → List Text → List Text
cons_some none out = out
cons_some (some t) out = t ∷ out

unfoldable pub pseudo_names : List Text → List Text
unfolding pseudo_name
pseudo_names [] = []
pseudo_names (letter ∷ letters) = cons_some (pseudo_name letter) (pseudo_names letters)

-- The loop over the headers of HTTP/2.
unfoldable pub kept_headers : List Capture_.HeaderField → List Field
unfolding to_lower has_prefix per_request
kept_headers [] = []
kept_headers (h ∷ headers) =
    let name = to_lower h.name in
    let rest = kept_headers headers in
    if has_prefix name (codes ":") || per_request name
    then rest
    else record { name = name; value = h.value } ∷ rest

abbrev pub setting_of : Capture_.Setting → Setting
setting_of s = record { id = s.id; value = s.value }

abbrev pub priority_of : Capture_.Priority → Priority
priority_of p = record {
  stream_id = p.stream_id;
  exclusive = p.exclusive;
  depends_on = p.depends_on;
  weight = p.weight;
}

unfoldable pub http2_of : Capture_.Http2 → Http2
unfolding pseudo_names
http2_of h = record {
  settings = map setting_of h.settings;
  connection_flow = h.window_update;
  pseudo_header_order = pseudo_names h.pseudo_header_order;
  priorities = map priority_of h.priorities;
  header_priority = Capture_.option_map priority_of h.header_priority;
  stream_id = 0;
}

-- `fieldValues(shared)[name]`
unfoldable pub field_values : Text → List Field → List Text
unfolding text_eq to_lower
field_values name [] = []
field_values name (f ∷ fields) =
    let rest = field_values name fields in
    if text_eq (to_lower f.name) name then f.value ∷ rest else rest

unfoldable pub same_field_values : List Field → List Text → Bool
unfolding text_eq
same_field_values [] [] = true
same_field_values (f ∷ fields) (v ∷ values) = text_eq f.value v && same_field_values fields values
same_field_values _ _ = false

-- `groups` and `order`: the fields of each lower-case name, and the spelling that each name was
-- first met in.
pub record Groups : Type 0 where
  pub fields : List (Text × List Field)
  pub order : List Text

unfoldable pub group_at : Text → List (Text × List Field) → Option (List Field)
unfolding text_eq
group_at name [] = none
group_at name ((k, fs) ∷ groups) =
    let rest = group_at name groups in if text_eq k name then some fs else rest

unfoldable pub put_group : Text → List Field → List (Text × List Field) → List (Text × List Field)
unfolding text_eq
put_group name fs [] = (name, fs) ∷ []
put_group name fs ((k, gs) ∷ groups) =
    let rest = put_group name fs groups in
    if text_eq k name then (k, fs) ∷ groups else (k, gs) ∷ rest

abbrev pub own_field : Text → Text → Text → List Field
unfolding text_eq
own_field name wire value =
    if text_eq name (codes "host") then [] else record { name = wire; value = value } ∷ []

-- One header of the loop, in a group that is there or in a new one.
abbrev pub grouped : Groups → Text → Text → Text → Option (List Field) → Groups
unfolding text_eq put_group
grouped g name wire value none = record {
  fields = put_group name (own_field name wire value) g.fields;
  order = g.order ++ wire ∷ [];
}
grouped g name wire value (some fs) = record g {
  fields = put_group name (fs ++ own_field name wire value) g.fields;
}

unfoldable pub group_loop : Groups → List Capture_.HeaderField → List Text → Groups
unfolding to_lower per_request text_eq group_at put_group
group_loop g [] names = g
group_loop g (h ∷ headers) names =
    let name = to_lower h.name in
    let wire = wire_name h.name names in
    group_loop
      (if per_request name && not (text_eq name (codes "host"))
        then g
        else grouped g name wire h.value (group_at name g.fields))
      headers (tail names)

-- One name of the order: what its group adds to the rest.
abbrev pub own_group : Option (List Field) → List Text → Option (List Field) → Option (List Field)
own_group none values rest = none
own_group (some fs) values rest =
    if same_field_values fs values
    then rest
    else Capture_.option_map (λ (own : List Field). fs ++ own) rest

-- The fields that the block needs of its own, for a list of names; `none` is the nil pointer.
unfoldable pub own_headers : Groups → List Field → List Text → Option (List Field)
unfolding to_lower group_at same_field_values field_values
own_headers g shared [] = some []
own_headers g shared (wire ∷ order) =
    let name = to_lower wire in
    let rest = own_headers g shared order in
    own_group (group_at name g.fields) (field_values name shared) rest

-- `none` is the nil pointer, `some none` no block.
abbrev pub block_with : List Text → Option (List Field) → Option (Option Http1)
block_with [] own = some none
block_with (wire ∷ order) own =
    Capture_.option_map
      (λ (fs : List Field). some (record { header_order = wire ∷ order; headers = fs })) own

abbrev pub block_of : Groups → List Field → Option (Option Http1)
block_of g shared = block_with g.order (own_headers g shared g.order)

-- A request of no header has no block.
abbrev pub unless_empty : List Capture_.HeaderField → Option (Option Http1) → Option (Option Http1)
unless_empty [] made = some none
unless_empty (h ∷ headers) made = made

unfoldable pub http1_from_capture : Option Capture_.Http1 → List Field → Option (Option Http1)
unfolding group_loop own_headers
http1_from_capture none shared = some none
http1_from_capture (some h) shared =
    unless_empty h.headers
      (block_of (group_loop (record { fields = []; order = [] }) h.headers h.header_names) shared)

abbrev pub agent_of : Capture → Text
unfolding user_agent
agent_of c = elim (navigator_agent c.navigator) [ [] ↦ user_agent c | x ∷ xs ↦ x ∷ xs ]

abbrev pub is_resumed : Option Capture_.Tls → Bool
is_resumed none = false
is_resumed (some t) = t.resumed

abbrev pub with_http1 : Text → Capture → Http2 → List Field → Option (Option Http1) → Built
with_http1 name c h2 headers none = panic
with_http1 name c h2 headers (some h1) = built (record {
  name = name;
  user_agent = agent_of c;
  client_hello = c.raw_client_hello;
  base = [];
  http1 = h1;
  http2 = h2;
  headers = headers;
  notes = [];
  source = [];
})

abbrev pub with_http2 : Text → Capture → Option Capture_.Http2 → Built
unfolding http2_of kept_headers http1_from_capture
with_http2 name c none = refused no_http2
with_http2 name c (some h) =
    with_http1 name c (http2_of h) (kept_headers h.headers)
      (http1_from_capture c.http1 (kept_headers h.headers))

abbrev pub parsed_first : Option (Hello.Result Hello.ClientHello) → Built → Built
parsed_first none rest = refused no_client_hello
parsed_first (some (Hello.ok c)) rest = rest
parsed_first (some (Hello.err e)) rest = refused (bad_client_hello e)

module _ (cb : Cryptobyte) where
  unfoldable pub from_capture : Text → Option Capture → Built
  unfolding hello http2_of kept_headers http1_from_capture trim_space
  from_capture name none =
      if is_empty (trim_space name) then refused no_name else refused no_capture
  from_capture name (some c) =
      if is_empty (trim_space name)
      then refused no_name
      else parsed_first (hello cb c)
          (if is_resumed c.tls then refused resumed else with_http2 name c c.http2)

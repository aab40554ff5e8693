-- ===== src/Profile/Spec.antt =====
-- profile/profile.go: `Spec` and `ClientProfile`, what the transport is given. utls, which reads
-- a captured ClientHello into extensions, and the tls-client catalogue are parameters: of the
-- extensions only the generic ones are looked into.
pub mod Safe
pub mod Settings
use tls_forge.Base.{
  ℕ, Bool, not, List, [], ◌∷◌, Option, none, some, map, ◌==◌, if◌then◌else◌, Text, text_eq,
}
use tls_forge.Profile.{
  Setting, Priority, Http2, Profile, Problem, is_empty, is_bare_base, validate_pseudo_header_order,
  validate_http1,
}
use tls_forge.Profile.TrustAnchors.{Error, Result, ok, err, Cache, payload}

pub data Extension (E : Type 0) : Type 0 where
  generic : (id : ℕ) (payload : Text) → Extension E
  other : E → Extension E

pub data SpecError : Type 0 where
  not_a_hello unknown_base bad_base no_handshake : SpecError
  malformed_trust_anchors : Error → SpecError
  unsupported : (id : ℕ) → SpecError

pub data SpecResult (E : Type 0) : Type 0 where
  spec_of : List (Extension E) → SpecResult E
  spec_error : SpecError → SpecResult E

-- `fingerprint.ExtTrustAnchors`
abbrev pub trust_anchors : ℕ
trust_anchors = 51764

module _ {E : Type 0} where
  abbrev pub onto : Extension E → SpecResult E × Cache → SpecResult E × Cache
  onto x (spec_of extensions, cache) = (spec_of (x ∷ extensions), cache)
  onto x (spec_error e, cache) = (spec_error e, cache)

  -- The extension with its payload replaced, and the rest as it is treated with the cache that
  -- the payload leaves.
  abbrev pub replaced :
      ℕ → Cache → (Cache → SpecResult E × Cache) → Result (Text × Cache) → SpecResult E × Cache
  replaced id cache rest (ok (given, after)) = onto (generic id given) (rest after)
  replaced id cache rest (err e) = (spec_error (malformed_trust_anchors e), cache)

  unfoldable pub refresh :
      (List Text → List Text) → List (Extension E) → Cache → SpecResult E × Cache
  unfolding payload
  refresh shuffle [] cache = (spec_of [], cache)
  refresh shuffle (other e ∷ extensions) cache = onto (other e) (refresh shuffle extensions cache)
  refresh shuffle (generic id captured ∷ extensions) cache =
      if id == trust_anchors
      then replaced id cache (refresh shuffle extensions) (payload shuffle cache captured)
      else (spec_error (unsupported id), cache)

  abbrev pub refreshed :
      (List Text → List Text) → Cache → Option (List (Extension E)) → SpecResult E × Cache
  unfolding refresh
  refreshed shuffle cache none = (spec_error not_a_hello, cache)
  refreshed shuffle cache (some extensions) = refresh shuffle extensions cache

  abbrev pub stock_spec : Option (Option (List (Extension E))) → SpecResult E
  stock_spec none = spec_error unknown_base
  stock_spec (some none) = spec_error bad_base
  stock_spec (some (some extensions)) = spec_of extensions

-- `RawClientHello` of the fingerprinter, and `ToSpec` of a catalogue's entry.
module _ {E : Type 0} (raw_client_hello : Text → Option (List (Extension E)))
    (catalogue : Text → Option (Option (List (Extension E)))) where
  unfoldable pub spec : (List Text → List Text) → Cache → Profile → SpecResult E × Cache
  unfolding refresh
  spec shuffle cache p =
      if not (is_empty p.client_hello)
      then refreshed shuffle cache (raw_client_hello p.client_hello)
      else if not (is_empty p.base)
      then (stock_spec (catalogue p.base), cache)
      else (spec_error no_handshake, cache)

-- What `NewClientProfile` is called with. The settings are a map and the order of its keys.
pub record Parts : Type 0 where
  pub settings : ℕ → Option ℕ
  pub settings_order : List ℕ
  pub pseudo_header_order : List Text
  pub connection_flow : ℕ
  pub priorities : List Priority
  pub header_priority : Option Priority
  pub stream_id : ℕ

pub data Client : Type 0 where
  stock : (base : Text) → Client
  built : Parts → Client
  invalid : Problem → Client
  failed : SpecError → Client

-- `settings[id]` after the loop: the last setting of an id stays.
unfoldable pub setting_value : List Setting → ℕ → Option ℕ
setting_value [] id = none
setting_value (s ∷ settings) id = elim (setting_value settings id) [
  | some v ↦ some v
  | none ↦ if s.id == id then some s.value else none
]

unfoldable pub parts_of : Http2 → Parts
unfolding setting_value
parts_of h = record {
  settings = setting_value h.settings;
  settings_order = map (λ (s : Setting). s.id) h.settings;
  pseudo_header_order = h.pseudo_header_order;
  connection_flow = h.connection_flow;
  priorities = h.priorities;
  header_priority = h.header_priority;
  stream_id = if h.stream_id == 0 then 1 else h.stream_id;
}

abbrev pub unless_invalid : Option Problem → Client → Client
unless_invalid none c = c
unless_invalid (some e) c = invalid e

abbrev pub checked_first : Option Problem → Cache → Client × Cache → Client × Cache
checked_first none cache r = r
checked_first (some e) cache r = (invalid e, cache)

abbrev pub unless_failed : {E : Type 0} → SpecResult E → Client → Client
unless_failed (spec_of extensions) c = c
unless_failed (spec_error e) c = failed e

abbrev pub stock_client : {E : Type 0} → Text → Option (Option (List (Extension E))) → Client
stock_client base none = failed unknown_base
stock_client base (some entry) = stock base

module _ {E : Type 0} (valid_name : Text → Bool)
    (raw_client_hello : Text → Option (List (Extension E)))
    (catalogue : Text → Option (Option (List (Extension E)))) where
  -- The client, and the cache that the handshake which is tried leaves.
  unfoldable pub client_profile : (List Text → List Text) → Cache → Profile → Client × Cache
  unfolding spec validate_http1 validate_pseudo_header_order is_bare_base parts_of
  client_profile shuffle cache p =
      let tried = spec raw_client_hello catalogue shuffle cache p in
      let rest = if is_bare_base p then (stock_client p.base (catalogue p.base), cache) else (
        unless_failed (tried.0)
            (unless_invalid (validate_pseudo_header_order p.http2) (built (parts_of p.http2))),
        tried.1,
      ) in
      checked_first (validate_http1 valid_name p.http1) cache rest

-- ===== src/Client/Redirect.antt =====
-- client.go: the header layout of a request that follows a redirect. A layout is an
-- `fhttp.Header`, an association list in any order, and the two keys under which fhttp keeps an
-- order are parameters.
pub mod Carried
pub mod Gathered
pub mod Dropped
use tls_forge.Base.{
  Bool, true, false, not, ◌&&◌, ◌||◌, List, [], ◌∷◌, ◌++◌, map, Option, none, some, keep_if, sort,
  if◌then◌else◌, Text, text_eq, text_leb, codes, to_lower, equal_fold,
}
use tls_forge.Proxy.{canonical_key}

abbrev pub Layout : Type 0
Layout = List (Text × List Text)

unfoldable pub values_under : Text → Layout → Option (List Text)
unfolding text_eq
values_under k [] = none
values_under k ((j, vs) ∷ header) = if text_eq j k then some vs else values_under k header

abbrev pub or_none : Option (List Text) → List Text
or_none none = []
or_none (some vs) = vs

-- `header[name] = values`
unfoldable pub put : Text → List Text → Layout → Layout
unfolding text_eq
put k vs [] = (k, vs) ∷ []
put k vs ((j, ws) ∷ header) =
    let rest = put k vs header in if text_eq j k then (k, vs) ∷ header else (j, ws) ∷ rest

-- `slices.Equal`
unfoldable pub texts_eq : List Text → List Text → Bool
unfolding text_eq
texts_eq [] [] = true
texts_eq (v ∷ vs) (w ∷ ws) = text_eq v w && texts_eq vs ws
texts_eq _ _ = false

unfoldable pub keys : Layout → List Text
keys [] = []
keys ((k, vs) ∷ header) = k ∷ keys header

-- The first loop of `deleteHeader`.
unfoldable pub without : Text → Layout → Layout
unfolding equal_fold
without lower [] = []
without lower ((name, vs) ∷ header) =
    let rest = without lower header in if equal_fold name lower then rest else (name, vs) ∷ rest

module _ (order_key pseudo_key : Text) where
  unfoldable pub header_layout_key : Text → Bool
  unfolding equal_fold
  header_layout_key name = equal_fold name order_key || equal_fold name pseudo_key

  -- The loop of `headerValues`.
  unfoldable pub gathered : Layout → Layout → Layout
  unfolding to_lower header_layout_key values_under put
  gathered out [] = out
  gathered out ((name, vs) ∷ header) =
      let lower = to_lower name in
      gathered
        (if header_layout_key lower
          then out
          else put lower (or_none (values_under lower out) ++ vs) out)
        header

  abbrev pub header_values : Layout → Layout
  header_values header = gathered [] header

  unfoldable pub delete_header : Layout → Text → Layout
  unfolding without put values_under equal_fold
  delete_header header lower =
      let left = without lower header in
      put order_key
        (keep_if (λ name. not (equal_fold name lower)) (or_none (values_under order_key left))) left

  -- The loop of `setHeader`, which stops at a key of the name.
  unfoldable pub wire_under : Text → Layout → Option Text
  unfolding equal_fold header_layout_key
  wire_under lower [] = none
  wire_under lower ((name, vs) ∷ header) =
      if equal_fold name lower && not (header_layout_key name)
      then some name
      else wire_under lower header

  abbrev pub set_under : Layout → Text → List Text → Option Text → Layout
  set_under header lower vs (some wire) = put wire vs header
  set_under header lower vs none =
      put (canonical_key lower) vs
        (put order_key (or_none (values_under order_key header) ++ lower ∷ []) header)

  unfoldable pub set_header : Layout → Text → List Text → Layout
  unfolding wire_under put canonical_key values_under
  set_header header lower vs = set_under header lower vs (wire_under lower header)

  -- One name of the first block, by what the redirected request has of it.
  abbrev pub followed : Layout → Text → List Text → Option (List Text) → Layout
  followed out name before none = delete_header out name
  followed out name before (some now) = if texts_eq now before then out else set_header out name now

  unfoldable pub follow : Layout → Layout → Layout → List Text → Layout
  unfolding text_eq texts_eq values_under delete_header set_header
  follow before now out [] = out
  follow before now out (name ∷ names) =
      follow before now
        (if text_eq name (codes "host")
          then out
          else followed out name (or_none (values_under name before)) (values_under name now))
        names

  -- One name of the redirected request, by what the first block had of it.
  abbrev pub newly : Layout → Text → List Text → Option (List Text) → Layout
  newly out name now (some before) = out
  newly out name now none = set_header out name now

  unfoldable pub add_new : Layout → Layout → Layout → List Text → Layout
  unfolding text_eq header_layout_key values_under set_header
  add_new before now out [] = out
  add_new before now out (name ∷ names) =
      add_new before now
        (if text_eq name (codes "host") || header_layout_key name
          then out
          else newly out name (or_none (values_under name now)) (values_under name before))
        names

  unfoldable pub redirect_http1_layout : Layout → Layout → Layout → Text → Layout
  unfolding gathered follow add_new set_header keys sort text_leb
  redirect_http1_layout http1 original current host =
      let before = header_values original in
      let now = header_values current in
      let out = follow before now http1 (sort text_leb (keys before)) in
      set_header (add_new before now out (sort text_leb (keys now))) (codes "host") (host ∷ [])

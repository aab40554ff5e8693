-- ===== src/Proxy/Merged.antt =====
-- proxy/proxy.go: the headers that `mergeHeaders` gives.
use tls_forge.Base.{
  AreLower-sort, List, [], ◌∷◌, ◌++◌, append_assoc, append-nil, ◌≡◌, refl, ap, sym, ◌∙◌,
  if◌then◌else◌, Text, to_lower, sort, text_leb, length, take, take-append,
}
use tls_forge.Header.{Header, field, values, add}
use tls_forge.Header.Lookup.{values-values_at}
use tls_forge.Proxy.{Incoming, incoming_values, extras_of, add_values, add_extras, merge_headers}
use tls_forge.Proxy.Given.{
  DistinctNames, goes_on, values_at-add_extras, given-sort, AreLower-extras_of, given-extras_of,
}

-- A request goes on with the profile's values under each name that the profile has, and with none
-- of the headers that are dropped. Any other name has the values that `incoming.Values` finds.
-- The incoming names differ by more than case.
pub values-merge_headers :
    (profile : Header) (incoming : Incoming) (n : Text)
    → DistinctNames incoming
    → values (merge_headers profile incoming) n
      ≡ values profile n
        ++ (if goes_on profile incoming (to_lower n)
            then incoming_values incoming (to_lower n)
            else [])
unfolding merge_headers
values-merge_headers profile incoming n distinct =
    let k = to_lower n in
    let extras = extras_of profile incoming in
    rw (
      values-values_at (add_extras incoming profile (sort text_leb extras)) n,
      values_at-add_extras k incoming profile (sort text_leb extras)
          (AreLower-sort extras (AreLower-extras_of profile incoming)),
      given-sort k (incoming_values incoming k) extras,
      given-extras_of k (incoming_values incoming k) profile incoming distinct,
      values-values_at profile n,
    )

add_values-after :
    (profile : Header) (tail : Header) (n : Text) (vs : List Text)
    → (more : Header) × (add_values (profile ++ tail) n vs ≡ profile ++ more)
unfolding add_values add
add_values-after profile tail n [] = (tail, refl)
add_values-after profile tail n (v ∷ vs) =
    rw (append_assoc profile tail (field (to_lower n) v ∷ []))
      (add_values-after profile (tail ++ field (to_lower n) v ∷ []) n vs)

add_extras-after :
    (incoming : Incoming) (profile : Header) (tail : Header) (names : List Text)
    → (more : Header) × (add_extras incoming (profile ++ tail) names ≡ profile ++ more)
unfolding add_extras
add_extras-after incoming profile tail [] = (tail, refl)
add_extras-after incoming profile tail (n ∷ names) =
    let (more, e) = add_values-after profile tail n (incoming_values incoming n) in
    rw e (add_extras-after incoming profile more names)

-- The headers of the profile go first, as they are and in their order.
pub take-merge_headers :
    (profile : Header) (incoming : Incoming)
    → take (length profile) (merge_headers profile incoming) ≡ profile
unfolding merge_headers
take-merge_headers profile incoming =
    let names = sort text_leb (extras_of profile incoming) in
    let (more, e) = add_extras-after incoming profile [] names in
    let same = ap (λ p. add_extras incoming p names) (append-nil profile) in
    ap (take (length profile)) (sym same ∙ e) ∙ take-append profile more

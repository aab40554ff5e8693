-- ===== src/Header/Merge.antt =====
-- `Merge` of header.go: the table of overrides, by name in lower case.
pub mod Values
pub mod Order
use tls_forge.Base.{
  Bool, true, false, ◌||◌, ◌&&◌, not, List, [], ◌∷◌, ◌++◌, Option, none, some, ◌≡◌, refl, ap, sym,
  ◌∙◌, arith, ◌⊎◌, inl, inr, append-nil, append_assoc, if◌then◌else◌, Bool-cases, Option-cases,
  Text, text_eq, text_eq_iff, text_eq_refl, to_lower, to_lower_idem, contains,
}
use tls_forge.Header.{
  Field, Header, field, values, has, Fields, lookup, append_to, collect, Merging, keep_base,
  keep_bases, append_new, append_news, or_empty, merge,
}
use tls_forge.Header.Lookup.{
  values_at, has_key, values-values_at, has-has_key, values_at-append, values-of_has_not,
}

-- The overrides under a key, with their names in lower case.
unfoldable pub entries : Text → Header → Header
unfolding to_lower
entries k [] = []
entries k (f ∷ o) =
    let rest = entries k o in
    if text_eq (to_lower f.name) k then field (to_lower f.name) f.value ∷ rest else rest

pub entries-of_has_not : (k : Text) (o : Header) → has_key k o ≡ false → entries k o ≡ []
unfolding entries has_key
entries-of_has_not k [] e = refl
entries-of_has_not k (f ∷ o) e = ground (arith, entries-of_has_not k o)

pub values_at-one :
    (k : Text) (f : Field)
    → values_at k (f ∷ []) ≡ (if text_eq (to_lower f.name) k then f.value ∷ [] else [])
unfolding values_at
values_at-one k f = refl

abbrev pub some_if : Bool → Header → Option Header
some_if true h = some h
some_if false h = none

lookup-append_to :
    (k j : Text) (f : Field) (m : Fields)
    → lookup k (append_to j f m)
      ≡ (if text_eq j k then some (or_empty (lookup k m) ++ f ∷ []) else lookup k m)
unfolding lookup append_to
lookup-append_to k j f [] = refl
lookup-append_to k j f ((i, fs) ∷ m) =
    ground (arith, lookup-append_to k j f m, text_eq_iff i j, text_eq_iff i k, text_eq_iff j k)

lookup-collect :
    (k : Text) (m : Fields) (o : Header)
    → lookup k (collect m o)
      ≡ (if has_key k o then some (or_empty (lookup k m) ++ entries k o) else lookup k m)
unfolding collect has_key entries
lookup-collect k m [] = refl
lookup-collect k m (f ∷ o) =
    let n = to_lower f.name in
    let g = field n f.value in
    ground (
      arith,
      lookup-collect k (append_to n g m) o,
      lookup-append_to k n g m,
      entries-of_has_not k o,
      append-nil (or_empty (lookup k m) ++ g ∷ []),
      append_assoc (or_empty (lookup k m)) (g ∷ []) (entries k o),
    )

pub lookup-overrides :
    (k : Text) (o : Header) → lookup k (collect [] o) ≡ some_if (has_key k o) (entries k o)
lookup-overrides k o = rw lookup-collect (unfold lookup in ground arith)

pub values_at-entries :
    (k j : Text) (o : Header)
    → values_at k (entries j o) ≡ (if text_eq j k then values_at k o else [])
unfolding values_at entries
values_at-entries k j [] = ground arith
values_at-entries k j (f ∷ o) = ground (
  arith,
  values_at-entries k j o,
  to_lower_idem f.name,
  text_eq_iff (to_lower f.name) j,
  text_eq_iff (to_lower f.name) k,
  text_eq_iff j k,
)

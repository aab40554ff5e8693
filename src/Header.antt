-- ===== src/Header.antt =====
-- header.go: the ordered header list that a request carries. A method with a pointer receiver
-- returns the new list. A `map[string][]profile.Field` is an association list whose entries are
-- appended to, and a `map[string]bool` that is only ever set to true is the list of its keys.
pub mod Lookup
pub mod Update
pub mod Merge
mod Examples
use tls_forge.Base.{
  ℕ, Bool, true, false, ◌||◌, List, [], ◌∷◌, ◌++◌, map, Option, none, some, if◌then◌else◌, Text,
  text_eq, to_lower, equal_fold, contains, length, codes,
}

-- profile.Field
pub record Field : Type 0 where
  pub name : Text
  pub value : Text

abbrev pub Header : Type 0
Header = List Field

abbrev pub field : Text → Text → Field
field n v = record { name = n; value = v }

-- The loop of `NewHeader` takes two arguments at a time and leaves an odd one.
unfoldable pub new_header : List Text → Header
new_header (n ∷ v ∷ pairs) = field (to_lower n) v ∷ new_header pairs
new_header _ = []

unfoldable pub get : Header → Text → Text
unfolding equal_fold
get [] name = codes ""
get (f ∷ h) name = if equal_fold f.name name then f.value else get h name

unfoldable pub values : Header → Text → List Text
unfolding equal_fold
values [] name = []
values (f ∷ h) name =
    let rest = values h name in if equal_fold f.name name then f.value ∷ rest else rest

unfoldable pub has : Header → Text → Bool
unfolding equal_fold
has [] name = false
has (f ∷ h) name = equal_fold f.name name || has h name

-- The loop of `Set`; `name` is in lower case already.
unfoldable pub set_lower : Header → Text → Text → Header
unfolding equal_fold
set_lower [] name value = field name value ∷ []
set_lower (f ∷ h) name value =
    if equal_fold f.name name then record f { value = value } ∷ h else f ∷ set_lower h name value

unfoldable pub set : Header → Text → Text → Header
unfolding set_lower
set h name value = set_lower h (to_lower name) value

unfoldable pub add : Header → Text → Text → Header
unfolding to_lower
add h name value = h ++ field (to_lower name) value ∷ []

unfoldable pub del : Header → Text → Header
unfolding equal_fold
del [] name = []
del (f ∷ h) name = if equal_fold f.name name then del h name else f ∷ del h name

unfoldable pub names : Header → List Text
names [] = []
names (f ∷ h) = f.name ∷ names h

abbrev pub clone : Header → Header
clone h = h

-- `map[string][]profile.Field`
abbrev pub Fields : Type 0
Fields = List (Text × Header)

unfoldable pub lookup : Text → Fields → Option Header
unfolding text_eq
lookup k [] = none
lookup k ((j, fs) ∷ m) = if text_eq j k then some fs else lookup k m

-- `values[name] = append(values[name], f)`
unfoldable pub append_to : Text → Field → Fields → Fields
unfolding text_eq
append_to k f [] = (k, f ∷ []) ∷ []
append_to k f ((j, fs) ∷ m) =
    if text_eq j k then (j, fs ++ f ∷ []) ∷ m else (j, fs) ∷ append_to k f m

-- The first loop of `Merge`.
unfoldable pub collect : Fields → Header → Fields
unfolding append_to to_lower
collect m [] = m
collect m (f ∷ o) = let name = to_lower f.name in collect (append_to name (field name f.value) m) o

-- `out` and `used`
pub record Merging : Type 0 where
  pub out : Header
  pub used : List Text

-- One round of the second loop, over the base.
unfoldable pub keep_base : Fields → Merging → Field → Merging
unfolding lookup contains to_lower
keep_base m s f =
    let name = to_lower f.name in
    elim (lookup name m) [
      | none ↦ record s { out = s.out ++ f ∷ [] }
      | some replacement ↦
          if contains name s.used
          then s
          else record { out = s.out ++ replacement; used = name ∷ s.used }
    ]

unfoldable pub keep_bases : Fields → Merging → Header → Merging
unfolding keep_base
keep_bases m s [] = s
keep_bases m s (f ∷ h) = keep_bases m (keep_base m s f) h

abbrev pub or_empty : Option Header → Header
or_empty none = []
or_empty (some fs) = fs

-- One round of the third loop, over the overrides.
unfoldable pub append_new : Header → Fields → Merging → Field → Merging
unfolding lookup contains to_lower has
append_new h m s f =
    let name = to_lower f.name in
    if contains name s.used || has h name
    then s
    else record { out = s.out ++ or_empty (lookup name m); used = name ∷ s.used }

unfoldable pub append_news : Header → Fields → Merging → Header → Merging
unfolding append_new
append_news h m s [] = s
append_news h m s (f ∷ o) = append_news h m (append_new h m s f) o

unfoldable pub merge : Header → Header → Header
unfolding collect keep_bases append_news
merge h [] = clone h
merge h (f ∷ o) =
    let m = collect [] (f ∷ o) in
    let s = keep_bases m (record { out = []; used = [] }) h in (append_news h m s (f ∷ o)).out

-- ===== src/Daemon/HeaderMap.antt =====
-- daemon/daemon.go: `orderedHeaders`, with its map of lower-case names.
use tls_forge.Base.{
  List, [], ◌∷◌, ◌++◌, Option, none, some, if◌then◌else◌, Text, text_eq, to_lower, sort, text_leb,
}
use tls_forge.Header.{Header, set, names}
use tls_forge.Daemon.{Request, repeated_header, Result, ok, err, ◌>>=◌}

-- A `map[string]string` by its entries.
abbrev pub Entries : Type 0
Entries = List (Text × Text)

unfoldable pub entry : Text → Entries → Option Text
unfolding text_eq
entry k [] = none
entry k ((j, v) ∷ m) = if text_eq j k then some v else entry k m

unfoldable pub delete : Text → Entries → Entries
unfolding text_eq
delete k [] = []
delete k ((j, v) ∷ m) = let rest = delete k m in if text_eq j k then rest else (j, v) ∷ rest

unfoldable pub keys_of : Entries → List Text
keys_of [] = []
keys_of ((k, v) ∷ m) = k ∷ keys_of m

-- `sortedKeys`
unfoldable pub sorted_keys : Entries → List Text
unfolding keys_of sort text_leb
sorted_keys m = sort text_leb (keys_of m)

-- `if _, exists := lower[name]; exists { error }; lower[name] = value`
abbrev pub put_new : Text → Text → Entries → Option Text → Result Entries
put_new name value lower none = ok (lower ++ (name, value) ∷ [])
put_new name value lower (some there) = err (repeated_header name)

unfoldable pub lower_entries : Entries → Entries → Result Entries
unfolding entry to_lower
lower_entries lower [] = ok lower
lower_entries lower ((name, value) ∷ headers) = do
  more ← put_new (to_lower name) value lower (entry (to_lower name) lower)
  lower_entries more headers

-- `out` and `lower`
pub record Taking : Type 0 where
  pub out : Header
  pub lower : Entries

abbrev pub taken : Taking → Text → Option Text → Taking
taken t name none = t
taken t name (some value) = record { out = set t.out name value; lower = delete name t.lower }

unfoldable pub take_name : Taking → Text → Taking
unfolding entry to_lower delete set
take_name t name = taken t (to_lower name) (entry (to_lower name) t.lower)

unfoldable pub take_names : Taking → List Text → Taking
unfolding take_name
take_names t [] = t
take_names t (name ∷ names) = take_names (take_name t name) names

abbrev pub or_blank : Option Text → Text
or_blank none = []
or_blank (some value) = value

-- The last loop, over the sorted keys.
unfoldable pub set_keys : Entries → Header → List Text → Header
unfolding entry set
set_keys lower out [] = out
set_keys lower out (name ∷ names) =
    set_keys lower (set out name (or_blank (entry name lower))) names

-- The profile's order stands in for an order that is not given.
abbrev pub order_of : List Text → Header → List Text
order_of [] profile = names profile
order_of (name ∷ order) profile = name ∷ order

abbrev pub finish : Taking → Header
finish t = set_keys t.lower t.out (sorted_keys t.lower)

abbrev pub arranged : List Text → Entries → Header
arranged order lower = finish (take_names (record { out = []; lower = lower }) order)

unfoldable pub ordered_headers : Request → Header → Result Header
unfolding lower_entries take_names set_keys sorted_keys names
ordered_headers req profile = elim req.headers [
  | [] ↦ ok []
  | e ∷ headers ↦
      (lower_entries [] req.headers >>= λ lower. ok (arranged (order_of req.order profile) lower))
]

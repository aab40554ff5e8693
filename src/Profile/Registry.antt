-- ===== src/Profile/Registry.antt =====
-- profile/registry.go: profiles in a tree of files. A tree is what `fs.FS` gives at its root: the
-- contents of a file and the entries of a directory, each at a path of names from the root.
pub mod Trees
pub mod Resolve
pub mod Newest
pub mod Fuel
pub mod Listed
mod Examples
use tls_forge.Base.{
  ℕ, ◌-◌, Bool, true, false, not, ◌&&◌, ◌||◌, List, [], ◌∷◌, ◌++◌, map, Option, none, some, length,
  take, drop, leb, ltb, if◌then◌else◌, Text, text_eq, text_leb, codes, sort, any, ◌==◌, to_lower,
}

pub record Entry : Type 0 where
  pub name : Text
  pub is_dir : Bool

pub record Tree : Type 0 where
  pub read_file : List Text → Option Text
  pub read_dir : List Text → Option (List Entry)

-- `strings.CutSuffix`
unfoldable pub cut_suffix : Text → Text → Option Text
unfolding text_eq
cut_suffix s suffix =
    let n = length s - length suffix in
    if leb (length suffix) (length s) && text_eq (drop n s) suffix then some (take n s) else none

abbrev pub dot_json : Text
dot_json = codes ".json"

-- The names of the files that end in `.json`, without it.
abbrev pub json_stem : Entry → Option Text
unfolding cut_suffix
json_stem e = if e.is_dir then none else cut_suffix e.name dot_json

abbrev pub cons_some : Option Text → List Text → List Text
cons_some none out = out
cons_some (some t) out = t ∷ out

unfoldable pub stems : List Entry → List Text
unfolding cut_suffix
stems [] = []
stems (e ∷ entries) = cons_some (json_stem e) (stems entries)

abbrev pub name_if : Text → Option Text → Option Text
name_if name none = none
name_if name (some stem) = some name

unfoldable pub json_files : List Entry → List Text
unfolding cut_suffix
json_files [] = []
json_files (e ∷ entries) = cons_some (name_if e.name (json_stem e)) (json_files entries)

-- `strings.LastIndex(name, "_")`: what is before the last underscore and behind it.
abbrev pub cut_here : ℕ → Text → Option (Text × Text) → Option (Text × Text)
cut_here c s (some (a, b)) = some (c ∷ a, b)
cut_here c s none = if c == b'_' then some ([], s) else none

unfoldable pub cut_last : Text → Option (Text × Text)
cut_last [] = none
cut_last (c ∷ s) = cut_here c s (cut_last s)

-- `platformName`
unfoldable pub platform_name : Text → Text
unfolding text_eq
platform_name goos =
    if text_eq goos (codes "darwin")
    then codes "macos"
    else if text_eq goos (codes "windows")
    then codes "windows"
    else goos

-- The contents, and the path where they stand.
abbrev pub Found : Type 0
Found = Option (Text × List Text)

abbrev pub found_at : Option Text → List Text → Found
found_at none path = none
found_at (some text) path = some (text, path)

abbrev pub or_else : Found → Found → Found
or_else (some f) rest = some f
or_else none rest = rest

module _ (tree : Tree) where
  abbrev pub at : List Text → Found
  at path = found_at (tree.read_file path) path

  -- The file of the host's platform, if it is among the sorted ones.
  unfoldable pub host_file : Text → Text → List Text → Found
  unfolding text_eq
  host_file host name [] = none
  host_file host name (file ∷ files) =
      let more = host_file host name files in
      if text_eq file (host ++ dot_json) then or_else (at (name ∷ file ∷ [])) more else more

  abbrev pub first_file : Text → List Text → Found
  first_file name [] = none
  first_file name (file ∷ files) = at (name ∷ file ∷ [])

  abbrev pub in_version : Text → Text → List Text → Found
  in_version host name files = or_else (host_file host name files) (first_file name files)

  -- A version and a platform; an underscore at the front does not count.
  abbrev pub by_platform : Option (Text × Text) → Found
  by_platform none = none
  by_platform (some ([], platform)) = none
  by_platform (some (c ∷ version, platform)) = at ((c ∷ version) ∷ (platform ++ dot_json) ∷ [])

  abbrev pub below_root : Text → Text → Option (List Entry) → Found
  unfolding cut_last sort text_leb json_files host_file
  below_root host name (some entries) = in_version host name (sort text_leb (json_files entries))
  below_root host name none = by_platform (cut_last name)

  unfoldable pub lookup : Text → Text → Found
  unfolding cut_last sort text_leb json_files host_file
  lookup host name =
      or_else (at ((name ++ dot_json) ∷ [])) (below_root host name (tree.read_dir (name ∷ [])))

  abbrev pub with_platforms : Text → List Text → List Text
  with_platforms version [] = []
  with_platforms version (p ∷ platforms) =
      version ∷ map (λ platform. version ++ (b'_' ∷ platform)) (p ∷ platforms)

  abbrev pub names_below : Text → Option (List Entry) → List Text
  unfolding stems
  names_below version none = []
  names_below version (some inner) = with_platforms version (stems inner)

  abbrev pub names_of_entry : Entry → List Text
  unfolding cut_suffix stems
  names_of_entry e =
      if e.is_dir
      then names_below e.name (tree.read_dir (e.name ∷ []))
      else cons_some (json_stem e) []

  unfoldable pub names_of_entries : List Entry → List Text
  unfolding cut_suffix stems
  names_of_entries [] = []
  names_of_entries (e ∷ entries) = names_of_entry e ++ names_of_entries entries

  abbrev pub listed : Option (List Entry) → List Text
  unfolding names_of_entries
  listed none = []
  listed (some entries) = names_of_entries entries

  unfoldable pub names_in : List Text
  unfolding names_of_entries
  names_in = listed (tree.read_dir [])

-- `looksLikePath`, where the separator of the platform is a slash.
unfoldable pub looks_like_path : Text → Bool
unfolding to_lower cut_suffix
looks_like_path name = elim (cut_suffix (to_lower name) dot_json) [
  | some stem ↦ true
  | none ↦ any (λ c. c == b'/') name
]

abbrev pub platforms_known : List Text
platforms_known = codes "macos" ∷ codes "linux" ∷ codes "windows" ∷ []

unfoldable pub split_loop : Text → List Text → Text × Text
unfolding cut_suffix
split_loop name [] = (name, [])
split_loop name (known ∷ rest) = elim (cut_suffix name (b'_' ∷ known)) [
  | some version ↦ (version, known)
  | none ↦ split_loop name rest
]

unfoldable pub split : Text → Text × Text
unfolding split_loop
split name = split_loop name platforms_known

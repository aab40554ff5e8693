-- ===== src/Profile/Registry/Resolve.antt =====
-- profile/registry.go: the registry. A name is resolved by the profiles that were registered,
-- then a path, this machine's directory, the embedded tree, the catalogue, and last by the newest
-- of a family, which resolves a longer name; the recursion is on fuel. `Profile.load` is given
-- with its parameters; the contents of a path and the keys of the catalogue are parameters.
use tls_forge.Base.{
  ℕ, zero, suc, ◌-◌, Bool, true, false, not, ◌&&◌, ◌||◌, List, [], ◌∷◌, ◌++◌, map, Option, none,
  some, length, drop, if◌then◌else◌, Text, text_eq, text_leb, codes, contains, has_prefix, sort,
  any, ◌==◌, ℤ, pos, negsuc, ltb_ℤ, parse_int,
}
use tls_forge.Profile.{Profile, Loaded, profile, problem, Problem, is_empty}
use tls_forge.Profile.Registry.{Tree, Found, lookup, names_in, looks_like_path}

pub record Registry : Type 0 where
  pub added : List (Text × Profile)
  pub dir : Text

-- What a name resolves to. `out_of_fuel` is the model's own.
pub data Resolved : Type 0 where
  found : Profile → Resolved
  no_name out_of_fuel : Resolved
  no_file : (path : Text) → Resolved
  broken : Problem → Resolved
  broken_file : (file : List Text) → Problem → Resolved
  unknown : Text → Resolved

unfoldable pub added_at : Text → List (Text × Profile) → Option Profile
unfolding text_eq
added_at name [] = none
added_at name ((k, p) ∷ added) =
    let rest = added_at name added in if text_eq k name then some p else rest

unfoldable pub put : Text → Profile → List (Text × Profile) → List (Text × Profile)
unfolding text_eq
put name p [] = (name, p) ∷ []
put name p ((k, q) ∷ added) =
    let rest = put name p added in if text_eq k name then (k, p) ∷ added else (k, q) ∷ rest

-- `none` is the error for a profile without a name.
unfoldable pub register : Registry → Profile → Option Registry
unfolding put
register r p = if is_empty p.name then none else some (record r { added = put p.name p r.added })

-- `seen[name]`, over the names that come behind.
unfoldable pub unseen : List Text → List Text → List Text
unfolding contains
unseen seen [] = []
unseen seen (name ∷ names) =
    let rest = unseen (name ∷ seen) names in if contains name seen then rest else name ∷ rest

abbrev pub joined : Text → List Text → Text
joined dir path = tls_forge.Base.join (codes "/") (dir ∷ path)

-- The machine: its platform, the trees, the files at a path, the keys of the catalogue, and
-- `Load`. `base_name` is `filepath.Base`.
pub record Machine : Type 0 where
  pub host : Text
  pub tree_at : Text → Tree
  pub embedded : Tree
  pub read_path : Text → Option Text
  pub base_name : Text → Text
  pub catalogue : List Text
  pub load : Text → Loaded

abbrev pub resolved_file : Text → Loaded → Resolved
resolved_file path (profile p) = found (record p { source = path })
resolved_file path (problem e) = broken e

abbrev pub resolved_data : Loaded → Resolved
resolved_data (profile p) = found p
resolved_data (problem e) = broken e

abbrev pub resolved_local : Text → List Text → Loaded → Resolved
resolved_local dir at (profile p) = found (record p { source = joined dir at })
resolved_local dir at (problem e) = broken_file at e

-- `best`, `bestMajor` and `bestMeasured`.
abbrev pub Best : Type 0
Best = Text × ℤ × Bool

abbrev pub is_measured : Resolved → Bool
is_measured (found p) = not (is_empty p.client_hello)
is_measured _ = false

abbrev pub candidate : Text → Text → Option ℤ
candidate prefix name =
    if has_prefix name prefix then parse_int (drop (length prefix) name) else none

-- One round of the loop, for a name with its major and whether it is measured.
abbrev pub better : Best → Text → Bool → Option ℤ → Best
better best name measured none = best
better (best, best_major, best_measured) name measured (some major) =
    if measured && not best_measured
    then (name, major, true)
    else if not measured && best_measured
    then (best, best_major, best_measured)
    else if ltb_ℤ best_major major
    then (name, major, best_measured)
    else (best, best_major, best_measured)

unfoldable pub newest_loop : (Text → Bool) → Text → Best → List Text → Best
unfolding has_prefix parse_int
newest_loop has prefix best [] = best
newest_loop has prefix best (name ∷ names) =
    newest_loop has prefix (better best name (has name) (candidate prefix name)) names

abbrev pub none_yet : Best
none_yet = ([], negsuc 0, false)

abbrev pub newest_in_family : (Text → Bool) → Text → List Text → Text
newest_in_family has family names = (newest_loop has (family ++ (b'_' ∷ [])) none_yet names).0

abbrev pub option_found : Option Profile → Option Resolved
option_found none = none
option_found (some p) = some (found p)

abbrev pub or_next : Option Resolved → Resolved → Resolved
or_next none rest = rest
or_next (some r) rest = r

-- A profile of the catalogue, by its name alone.
abbrev pub stock_profile : Text → Profile
stock_profile name = record {
  name = name;
  user_agent = [];
  client_hello = [];
  base = name;
  http1 = none;
  http2 = record {
    settings = [];
    connection_flow = 0;
    pseudo_header_order = [];
    priorities = [];
    header_priority = none;
    stream_id = 0;
  };
  headers = [];
  notes = [];
  source = [];
}

-- The family's newest, as `Get` goes on with it.
abbrev pub of_family : (Text → Resolved) → Text → Text → Resolved
of_family again name newest = if is_empty newest then unknown name else again newest

module _ (m : Machine) where
  abbrev pub local_found : Text → Found → Option Resolved
  local_found dir none = none
  local_found dir (some (text, at)) = some (resolved_local dir at (m.load text))

  -- `none` is a name that the directory does not have.
  unfoldable pub from_dir : Registry → Text → Option Resolved
  unfolding text_eq lookup
  from_dir r name =
      if is_empty r.dir
        || not (text_eq name (m.base_name name))
        || text_eq name (codes ".")
        || text_eq name (codes "..")
      then none
      else local_found r.dir (lookup (m.tree_at r.dir) m.host name)

  abbrev pub dir_names : Registry → List Text
  unfolding names_in
  dir_names r = if is_empty r.dir then [] else names_in (m.tree_at r.dir)

  abbrev pub measured_names : Registry → List Text
  unfolding names_in unseen
  measured_names r =
      unseen [] (map (λ (x : Text × Profile). x.0) r.added ++ (dir_names r ++ names_in m.embedded))

  unfoldable pub names : Registry → List Text
  unfolding names_in unseen sort text_leb
  names r =
      sort text_leb (measured_names r) ++ sort text_leb (unseen (measured_names r) m.catalogue)

  abbrev pub path_resolved : Text → Option Text → Resolved
  path_resolved path none = no_file path
  path_resolved path (some text) = resolved_file path (m.load text)

  abbrev pub embedded_found : Found → Option Resolved
  embedded_found none = none
  embedded_found (some (text, at)) = some (resolved_data (m.load text))

  -- `Get`, which calls itself by `again`.
  abbrev pub get_step : (Text → Resolved) → Registry → Text → Resolved
  get_step again r name =
      if is_empty name
      then no_name
      else or_next (option_found (added_at name r.added)) (
          if looks_like_path name
          then path_resolved name (m.read_path name)
          else or_next (from_dir r name) (
              or_next (embedded_found (lookup m.embedded m.host name)) (
                if contains name m.catalogue
                then found (stock_profile name)
                else of_family again name
                    (newest_in_family (λ n. is_measured (again n)) name (names r)))))

  unfoldable pub get : ℕ → Registry → Text → Resolved
  unfolding added_at looks_like_path from_dir lookup contains newest_loop names
  get zero r name = out_of_fuel
  get (suc fuel) r name = get_step (get fuel r) r name

  -- The fuel of `Get` is above the length of any name.
  unfoldable pub has_handshake : ℕ → Registry → Text → Bool
  unfolding get
  has_handshake fuel r name = is_measured (get fuel r name)

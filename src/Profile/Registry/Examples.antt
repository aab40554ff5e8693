-- ===== src/Profile/Registry/Examples.antt =====
-- A machine with two measured versions and a catalogue.
use tls_forge.Base.{
  ◌≤◌, true, false, ◌||◌, List, [], ◌∷◌, map, Option, none, some, ◌≡◌, ◌⊎◌, refl, arith, Text,
  text_eq, codes, contains, All, length, sort, text_leb, has_prefix, parse_int, if◌then◌else◌,
  digits_value, ℤ,
}
use tls_forge.Base.Int.{parse_digits}
use tls_forge.Base.Sort.{insert}
use tls_forge.Base.Distinct.{Distinct}
use tls_forge.Profile.{Profile, profile}
use tls_forge.Profile.Registry.{
  Tree, Entry, names_in, names_of_entries, stems, cut_suffix, lookup, json_files, cut_last,
  host_file, looks_like_path,
}
use tls_forge.Profile.Registry.Resolve.{
  Registry, Machine, found, names, dir_names, get, stock_profile, candidate, newest_in_family,
  newest_loop, unseen, added_at, from_dir,
}
use tls_forge.Profile.Registry.Newest.{newest_in_family_lem, IsPassed, CoversAll}
use tls_forge.Profile.Registry.Fuel.{get-IsAnswer, IsAnswer}
use tls_forge.Profile.Registry.Listed.{names_lem}

abbrev nowhere : Tree
nowhere = record { read_file = λ path. none; read_dir = λ path. none }

abbrev linux_only : List Entry
linux_only = record { name = codes "linux.json"; is_dir = false } ∷ []

abbrev file_at : List Text → Option Text
file_at (version ∷ file ∷ []) = if text_eq file (codes "linux.json") then some version else none
file_at _ = none

abbrev dir_at : List Text → Option (List Entry)
dir_at [] = some (
    record { name = codes "chrome_150"; is_dir = true }
    ∷ record { name = codes "chrome_151"; is_dir = true }
    ∷ [])
dir_at (version ∷ []) =
    if contains version (codes "chrome_150" ∷ codes "chrome_151" ∷ [])
    then some linux_only
    else none
dir_at _ = none

abbrev machine : Machine
machine = record {
  host = codes "linux";
  tree_at = λ dir. nowhere;
  embedded = record { read_file = file_at; read_dir = dir_at };
  read_path = λ path. none;
  base_name = λ name. name;
  catalogue = codes "chrome_152" ∷ [];
  load = λ text. profile (record (stock_profile text) { client_hello = text });
}

abbrev fresh : Registry
fresh = record { added = []; dir = [] }

get_runs :
    (names machine fresh
      ≡ codes "chrome_150"
        ∷ codes "chrome_150_linux"
        ∷ codes "chrome_151"
        ∷ codes "chrome_151_linux"
        ∷ codes "chrome_152"
        ∷ [])
    × (get machine 20 fresh (codes "chrome")
        ≡ found (record (stock_profile (codes "chrome_151")) { client_hello = codes "chrome_151" }))
unfolding names names_in names_of_entries stems cut_suffix unseen contains text_eq sort insert
    text_leb get added_at looks_like_path from_dir lookup json_files cut_last host_file newest_loop
    has_prefix parse_int parse_digits digits_value
get_runs = (refl, refl)

newest_in_family_lem_example :
    ((newest_in_family (λ n. true) (codes "chrome") (codes "chrome_9" ∷ codes "chrome_10" ∷ [])
        ≡ [])
      × All
          (λ name. IsPassed true (candidate (codes "chrome_") name))
          (codes "chrome_9" ∷ codes "chrome_10" ∷ []))
    ⊎ ((major : ℤ) × (contains
            (newest_in_family
              (λ n. true)
              (codes "chrome")
              (codes "chrome_9" ∷ codes "chrome_10" ∷ []))
            (codes "chrome_9" ∷ codes "chrome_10" ∷ [])
          ≡ true)
        × (candidate (codes "chrome_") (
              newest_in_family
                (λ n. true)
                (codes "chrome")
                (codes "chrome_9" ∷ codes "chrome_10" ∷ []))
            ≡ some major)
        × CoversAll
            (λ n. true)
            (codes "chrome_")
            (
              newest_in_family
                  (λ n. true)
                  (codes "chrome")
                  (codes "chrome_9" ∷ codes "chrome_10" ∷ []),
              major,
              true,
            )
            (codes "chrome_9" ∷ codes "chrome_10" ∷ []))
newest_in_family_lem_example =
    newest_in_family_lem (λ n. true) (codes "chrome") (codes "chrome_9" ∷ codes "chrome_10" ∷ [])

short_names : All (λ n. length n ≤ 16) (names machine fresh)
unfolding names names_in names_of_entries stems cut_suffix unseen contains text_eq sort insert
    text_leb
short_names = omega arith

get-IsAnswer_example :
    (get machine 12 fresh (codes "chrome") ≡ get machine 11 fresh (codes "chrome"))
    × IsAnswer (get machine 11 fresh (codes "chrome"))
get-IsAnswer_example =
    get-IsAnswer machine fresh 16 short_names 11 (codes "chrome") (omega arith) (omega arith)

names_lem_example :
    Distinct (names machine fresh)
    × ((k : Text)
        → contains k (names machine fresh) ≡ (
            contains k (map (λ (x : Text × Profile). x.0) fresh.added)
            || contains k (dir_names machine fresh)
            || contains k (names_in machine.embedded)
            || contains k machine.catalogue))
names_lem_example = names_lem machine fresh

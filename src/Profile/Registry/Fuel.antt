-- ===== src/Profile/Registry/Fuel.antt =====
-- profile/registry.go: `Get` calls itself for the newest of a family, and through `HasHandshake`
-- for each of its names. Every such name is longer than the family's.
use tls_forge.Base.{
  ℕ, zero, suc, ◌+◌, ◌≤◌, ◌<◌, Bool, true, false, List, [], ◌∷◌, ◌++◌, Option, none, some, ◌≡◌, ◌⊎◌,
  inl, inr, refl, ap, sym, ◌∙◌, arith, if◌then◌else◌, Bool-cases, Option-cases, Text, All, length,
  length-append, contains, has_prefix, ℤ,
}
use mathlib.Core.Path.{subst}
use tls_forge.Profile.{Profile, Loaded, profile, problem, is_empty}
use tls_forge.Base.Distinct.{contains-All}
use tls_forge.Profile.Registry.{Found, lookup, looks_like_path}
use tls_forge.Profile.Registry.Newest.{newest_in_family_lem}
use tls_forge.Profile.Registry.Resolve.{
  Registry, Machine, Resolved, found, no_name, out_of_fuel, no_file, broken, broken_file, unknown,
  added_at, names, candidate, Best, better, newest_loop, none_yet, newest_in_family, is_measured,
  option_found, or_next, resolved_file, resolved_data, resolved_local, from_dir, local_found,
  path_resolved, embedded_found, of_family, get_step, get, stock_profile,
}

-- An answer, and not the end of the fuel.
abbrev pub IsAnswer : Resolved → Type 0
IsAnswer (found p) = Unit
IsAnswer no_name = Unit
IsAnswer out_of_fuel = ⊥
IsAnswer (no_file path) = Unit
IsAnswer (broken e) = Unit
IsAnswer (broken_file file e) = Unit
IsAnswer (unknown name) = Unit

abbrev AreAnswers : Option Resolved → Type 0
AreAnswers none = Unit
AreAnswers (some r) = IsAnswer r

or_next-IsAnswer :
    (o : Option Resolved) (r : Resolved) → AreAnswers o → IsAnswer r → IsAnswer (or_next o r)
or_next-IsAnswer none r h k = k
or_next-IsAnswer (some s) r h k = h

option_found-AreAnswers : (o : Option Profile) → AreAnswers (option_found o)
option_found-AreAnswers none = tt
option_found-AreAnswers (some p) = tt

has_prefix-length : (s p : Text) → has_prefix s p ≡ true → length p ≤ length s
unfolding has_prefix
has_prefix-length s [] h = omega arith
has_prefix-length [] (c ∷ p) h = cc
has_prefix-length (c ∷ s) (d ∷ p) h = ground (arith, has_prefix-length s p)

-- A name of a family is longer than the family's.
candidate-length :
    (family name : Text) (major : ℤ)
    → candidate (family ++ b'_' ∷ []) name ≡ some major
    → length family < length name
candidate-length family name major e = elim (Bool-cases (has_prefix name (family ++ b'_' ∷ []))) [
  | inl there ↦
      let p = has_prefix-length name (family ++ b'_' ∷ []) there in
      omega (arith, p, length-append family (b'_' ∷ []))
  | inr other ↦ cc (rw other at e)
]

-- Only the names of the family are looked into.
newest_loop-agree :
    (has has' : Text → Bool) (prefix : Text) (names : List Text) (b : Best)
    → All (λ n. (candidate prefix n ≡ none) ⊎ (has n ≡ has' n)) names
    → newest_loop has prefix b names ≡ newest_loop has' prefix b names
unfolding newest_loop
newest_loop-agree has has' prefix [] b h = refl
newest_loop-agree has has' prefix (n ∷ names) b (inl none_, h) =
    rw none_ (newest_loop-agree has has' prefix names b h)
newest_loop-agree has has' prefix (n ∷ names) b (inr same, h) =
    rw same (newest_loop-agree has has' prefix names (better b n (has' n) (candidate prefix n)) h)

loaded-IsAnswer : (dir : Text) (at : List Text) (l : Loaded) → IsAnswer (resolved_local dir at l)
loaded-IsAnswer dir at (profile p) = tt
loaded-IsAnswer dir at (problem e) = tt

file-IsAnswer : (path : Text) (l : Loaded) → IsAnswer (resolved_file path l)
file-IsAnswer path (profile p) = tt
file-IsAnswer path (problem e) = tt

data-IsAnswer : (l : Loaded) → IsAnswer (resolved_data l)
data-IsAnswer (profile p) = tt
data-IsAnswer (problem e) = tt

if-IsAnswer : (b : Bool) (x y : Resolved) → IsAnswer x → IsAnswer y → IsAnswer (if b then x else y)
if-IsAnswer true x y h k = h
if-IsAnswer false x y h k = k

if-AreAnswers : (b : Bool) (o : Option Resolved) → AreAnswers o → AreAnswers (if b then none else o)
if-AreAnswers true o h = tt
if-AreAnswers false o h = h

of_family-agree :
    (again again' : Text → Resolved) (name newest : Text)
    → again newest ≡ again' newest
    → IsAnswer (again' newest)
    → (of_family again name newest ≡ of_family again' name newest)
      × IsAnswer (of_family again' name newest)
of_family-agree again again' name [] e h = (refl, tt)
of_family-agree again again' name (c ∷ newest) e h = (e, h)

module _ (m : Machine) (r : Registry) where
  local_found-AreAnswers : (dir : Text) (f : Found) → AreAnswers (local_found m dir f)
  local_found-AreAnswers dir none = tt
  local_found-AreAnswers dir (some (text, at)) = loaded-IsAnswer dir at (m.load text)

  from_dir-AreAnswers : (name : Text) → AreAnswers (from_dir m r name)
  unfolding from_dir
  from_dir-AreAnswers name =
      if-AreAnswers _ (local_found m r.dir (lookup (m.tree_at r.dir) m.host name))
        (local_found-AreAnswers r.dir (lookup (m.tree_at r.dir) m.host name))

  path_resolved-IsAnswer : (name : Text) (t : Option Text) → IsAnswer (path_resolved m name t)
  path_resolved-IsAnswer name none = tt
  path_resolved-IsAnswer name (some text) = file-IsAnswer name (m.load text)

  embedded_found-AreAnswers : (f : Found) → AreAnswers (embedded_found m f)
  embedded_found-AreAnswers none = tt
  embedded_found-AreAnswers (some (text, at)) = data-IsAnswer (m.load text)

  -- A step answers if its last resort does.
  get_step-IsAnswer :
      (again : Text → Resolved) (name : Text)
      → IsAnswer
          (of_family again name (newest_in_family (λ n. is_measured (again n)) name (names m r)))
      → IsAnswer (get_step m again r name)
  get_step-IsAnswer again name h = if-IsAnswer (is_empty name) no_name _ tt (
      or_next-IsAnswer (option_found (added_at name r.added)) _
        (option_found-AreAnswers (added_at name r.added))
        (if-IsAnswer (looks_like_path name) (path_resolved m name (m.read_path name)) _
          (path_resolved-IsAnswer name (m.read_path name))
          (or_next-IsAnswer (from_dir m r name) _ (from_dir-AreAnswers name) (
            or_next-IsAnswer (embedded_found m (lookup m.embedded m.host name)) _
              (embedded_found-AreAnswers (lookup m.embedded m.host name))
              (if-IsAnswer (contains name m.catalogue) (found (stock_profile name)) _ tt h)))))

  get_step-agree :
      (again again' : Text → Resolved) (name : Text)
      → of_family again name (newest_in_family (λ n. is_measured (again n)) name (names m r))
        ≡ of_family again' name (newest_in_family (λ n. is_measured (again' n)) name (names m r))
      → get_step m again r name ≡ get_step m again' r name
  get_step-agree again again' name e = rw e refl

  get-get_step :
      (fuel : ℕ) (name : Text) → get m (suc fuel) r name ≡ get_step m (get m fuel r) r name
  unfolding get
  get-get_step fuel name = refl

  module _ (bound : ℕ) (short : All (λ n. length n ≤ bound) (names m r)) where
    module _ (fuel : ℕ) (name : Text) (enough : bound < suc fuel + length name)
        (ih : (n : Text)
          → bound < fuel + length n
          → 0 < fuel
          → (get m (suc fuel) r n ≡ get m fuel r n) × IsAnswer (get m fuel r n)) where
      family-agree :
          (some_ : List Text)
          → All (λ n. length n ≤ bound) some_
          → All
              (λ n.
                (candidate (name ++ b'_' ∷ []) n ≡ none)
                ⊎ (is_measured (get m (suc fuel) r n) ≡ is_measured (get m fuel r n)))
              some_
      family-agree [] h = tt
      family-agree (n ∷ some_) (small, h) = (
        elim (Option-cases (candidate (name ++ b'_' ∷ []) n)) [
          | inl none_ ↦ inl none_
          | inr (major, e) ↦
              let longer = candidate-length name n major e in
              inr (ap is_measured ((ih n (omega arith) (omega arith)).0))
        ],
        family-agree some_ h,
      )

      -- What the last resort gives with the fuel, and with one more.
      family-IsAnswer :
          (of_family
              (get m (suc fuel) r)
              name
              (newest_in_family (λ n. is_measured (get m (suc fuel) r n)) name (names m r))
            ≡ of_family
                (get m fuel r)
                name
                (newest_in_family (λ n. is_measured (get m fuel r n)) name (names m r)))
          × IsAnswer (
              of_family
                (get m fuel r)
                name
                (newest_in_family (λ n. is_measured (get m fuel r n)) name (names m r)))
      family-IsAnswer =
          let has = λ (n : Text). is_measured (get m fuel r n) in
          let newest = newest_in_family has name (names m r) in
          let same : newest_in_family (λ n. is_measured (get m (suc fuel) r n)) name (names m r)
              ≡ newest =
            ap (λ (b : Best). b.0)
              (newest_loop-agree (λ n. is_measured (get m (suc fuel) r n)) has (name ++ b'_' ∷ [])
                (names m r) none_yet (family-agree (names m r) short)) in
          elim (newest_in_family_lem has name (names m r)) [
            | inl (nothing, passed) ↦ rw (same, nothing) (refl, tt)
            | inr (major, there, e, covers) ↦
                let longer = candidate-length name newest major e in
                let small = contains-All (λ n. length n ≤ bound) newest (names m r) there short in
                let (again, answer) = ih newest (omega arith) (omega arith) in
                rw same
                  (of_family-agree (get m (suc fuel) r) (get m fuel r) name newest again answer)
          ]

    -- `Get` ends: fuel above the length of every name that is listed is enough, whatever the
    -- name, and with more fuel the answer is the same.
    pub get-IsAnswer :
        (fuel : ℕ) (name : Text)
        → bound < fuel + length name
        → 0 < fuel
        → (get m (suc fuel) r name ≡ get m fuel r name) × IsAnswer (get m fuel r name)
    get-IsAnswer zero name h k = absurd (omega arith)
    get-IsAnswer (suc fuel) name h k =
        let (same, answer) = family-IsAnswer fuel name h (get-IsAnswer fuel) in
        (
          get-get_step (suc fuel) name
              ∙ get_step-agree (get m (suc fuel) r) (get m fuel r) name same
              ∙ sym (get-get_step fuel name),
          subst IsAnswer (sym (get-get_step fuel name))
              (get_step-IsAnswer (get m fuel r) name answer),
        )

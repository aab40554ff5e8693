-- ===== src/Base/Lower.antt =====
-- Lists of texts in lower case, and sorting them.
use tls_forge.Base.Strings.{Text, to_lower, contains, text_eq, text_leb}
use tls_forge.Base.Sort.{insert, sort}
use tls_forge.Base.Tests.{Bool-cases}
use mathlib.Core.Path.{◌≡◌, refl, ◌∙◌}
use mathlib.Core.Bool.{◌||◌}
use mathlib.Core.List.{List, [], ◌∷◌}
use mathlib.Core.Logic.{inl, inr}
use native.Mathlib.Omega.{arith}

-- Every text of a list is in lower case.
unfoldable pub AreLower : List Text → Type 0
AreLower [] = Unit
AreLower (n ∷ names) = (to_lower n ≡ n) × AreLower names

AreLower-insert :
    (n : Text) (names : List Text)
    → to_lower n ≡ n
    → AreLower names
    → AreLower (insert text_leb n names)
unfolding insert AreLower
AreLower-insert n [] low lower = (low, tt)
AreLower-insert n (m ∷ names) low (first, lower) = elim (Bool-cases (text_leb n m)) [
  | inl below ↦ rw below (low, (first, lower))
  | inr above ↦ rw above (first, AreLower-insert n names low lower)
]

pub AreLower-sort : (names : List Text) → AreLower names → AreLower (sort text_leb names)
unfolding sort AreLower
AreLower-sort [] lower = tt
AreLower-sort (n ∷ names) (low, lower) =
    AreLower-insert n (sort text_leb names) low (AreLower-sort names lower)

contains-insert :
    (k n : Text) (names : List Text)
    → contains k (insert text_leb n names) ≡ (text_eq n k || contains k names)
unfolding insert contains
contains-insert k n [] = refl
contains-insert k n (m ∷ names) = ground (arith, contains-insert k n names)

pub contains-sort :
    (k : Text) (names : List Text) → contains k (sort text_leb names) ≡ contains k names
unfolding sort contains
contains-sort k [] = refl
contains-sort k (n ∷ names) =
    contains-insert k n (sort text_leb names) ∙ ground (arith, contains-sort k names)

-- ===== src/Header/Examples.antt =====
-- Runs of the header operations on a small list, and the theorems at it.
use tls_forge.Base.{false, [], ◌∷◌, ◌≡◌, refl, codes, if◌then◌else◌}
use tls_forge.Header.{Header, field, new_header, get, values, has, set, add, del, names, merge}
use tls_forge.Header.Merge.Values.{values-merge}
use tls_forge.Header.Merge.Order.{Distinct, Within}

abbrev base : Header
base =
    field (codes "accept") (codes "*/*")
    ∷ field (codes "Referer") (codes "a")
    ∷ field (codes "cookie") (codes "x=1")
    ∷ []

abbrev over : Header
over = field (codes "REFERER") (codes "b") ∷ []

abbrev more : Header
more =
    field (codes "cookie") (codes "y=2")
    ∷ field (codes "te") (codes "t")
    ∷ field (codes "Cookie") (codes "z=3")
    ∷ []

merge_runs :
    merge base more
    ≡ field (codes "accept") (codes "*/*")
      ∷ field (codes "Referer") (codes "a")
      ∷ field (codes "cookie") (codes "y=2")
      ∷ field (codes "cookie") (codes "z=3")
      ∷ field (codes "te") (codes "t")
      ∷ []
unfolding merge
merge_runs = refl

set_runs :
    (names (set base (codes "REFERER") (codes "q")) ≡ names base)
    × (get (set base (codes "TE") (codes "t")) (codes "te") ≡ codes "t")
    × (values (add base (codes "Accept") (codes "q")) (codes "ACCEPT")
        ≡ codes "*/*" ∷ codes "q" ∷ [])
    × (has (del base (codes "Cookie")) (codes "cookie") ≡ false)
    × (new_header (codes "A" ∷ codes "b" ∷ codes "odd" ∷ []) ≡ field (codes "a") (codes "b") ∷ [])
unfolding names set get values add has del new_header
set_runs = (refl, refl, refl, refl, refl)

values-merge_example : values (merge base more) (codes "cookie") ≡ (
    if has more (codes "cookie")
    then values more (codes "cookie")
    else values base (codes "cookie"))
values-merge_example = values-merge base more (codes "cookie")

base-Distinct : Distinct base
unfolding has
base-Distinct = (refl, (refl, (refl, tt)))

over-Distinct : Distinct over
unfolding has
over-Distinct = (refl, tt)

over-Within : Within over base
unfolding has
over-Within = (refl, tt)

-- ===== src/Profile/Registry/Listed.antt =====
-- profile/registry.go: the names that are listed, and a profile that is registered.
use mathlib.Core.List.Permᴰ
use tls_forge.Base.{
  ℕ, suc, Bool, true, false, not, ◌&&◌, ◌||◌, List, [], ◌∷◌, ◌++◌, map, some, ◌≡◌, inl, inr, refl,
  ap, sym, ◌∙◌, arith, Bool-cases, Text, text_eq, text_eq_iff, text_eq_refl, contains, sort,
  sort-Permᴰ, text_leb, All, All-perm,
}
use tls_forge.Base.Lower.{contains-sort}
use tls_forge.Base.Distinct.{Distinct, Distinct-perm, Distinct-append, apart-cons, contains-append}
use tls_forge.Profile.{Profile, is_empty}
use tls_forge.Profile.Registry.{names_in}
use tls_forge.Profile.Registry.Resolve.{
  Registry, Machine, found, added_at, put, register, unseen, dir_names, measured_names, names, get,
}

false_right : (b : Bool) → false ≡ (not b && false)
false_right true = refl
false_right false = refl

contains-unseen :
    (k : Text) (seen names : List Text)
    → contains k (unseen seen names) ≡ (not (contains k seen) && contains k names)
unfolding unseen contains
contains-unseen k seen [] = false_right (contains k seen)
contains-unseen k seen (n ∷ names) =
    let ih = contains-unseen k (n ∷ seen) names in
    elim (Bool-cases (text_eq n k)) [
      | inl same ↦
          let name = (text_eq_iff n k).0 same in
          elim (Bool-cases (contains n seen)) [
            | inl old ↦ let old' : contains k seen ≡ true = rw (← name) old in ground (arith, ih)
            | inr new ↦ let new' : contains k seen ≡ false = rw (← name) new in ground (arith, ih)
          ]
      | inr other ↦ ground (arith, ih)
    ]

unseen-apart : (seen names : List Text) → All (λ n. contains n seen ≡ false) (unseen seen names)
unfolding unseen
unseen-apart seen [] = tt
unseen-apart seen (n ∷ names) =
    let (other, apart) =
      apart-cons n seen (unseen (n ∷ seen) names) (unseen-apart (n ∷ seen) names) in
    elim (Bool-cases (contains n seen)) [ inl old ↦ rw old apart | inr new ↦ rw new (new, apart) ]

unseen-Distinct : (seen names : List Text) → Distinct (unseen seen names)
unfolding unseen
unseen-Distinct seen [] = tt
unseen-Distinct seen (n ∷ names) =
    let (other, apart) =
      apart-cons n seen (unseen (n ∷ seen) names) (unseen-apart (n ∷ seen) names) in
    let rest = unseen-Distinct (n ∷ seen) names in
    elim (Bool-cases (contains n seen)) [ inl old ↦ rw old rest | inr new ↦ rw new (other, rest) ]

apart-sort :
    (seen names : List Text)
    → All (λ n. contains n seen ≡ false) names
    → All (λ n. contains n (sort text_leb seen) ≡ false) names
apart-sort seen [] h = tt
apart-sort seen (n ∷ names) (a, h) = (contains-sort n seen ∙ a, apart-sort seen names h)

added_at-put :
    (name : Text) (p : Profile) (added : List (Text × Profile))
    → added_at name (put name p added) ≡ some p
unfolding added_at put
added_at-put name p [] = rw (text_eq_refl name) refl
added_at-put name p ((k, q) ∷ added) = elim (Bool-cases (text_eq k name)) [
  | inl same ↦ rw (same, same) refl
  | inr other ↦ rw (other, other) (added_at-put name p added)
]

module _ (m : Machine) (r : Registry) where
  names-contains :
      (k : Text)
      → contains k (names m r) ≡ (
          contains k (map (λ (x : Text × Profile). x.0) r.added)
          || contains k (dir_names m r)
          || contains k (names_in m.embedded)
          || contains k m.catalogue)
  unfolding names contains
  names-contains k =
      let measured = measured_names m r in
      let added = map (λ (x : Text × Profile). x.0) r.added in
      ground (
        arith,
        contains-append k (sort text_leb measured) (sort text_leb (unseen measured m.catalogue)),
        contains-sort k measured,
        contains-sort k (unseen measured m.catalogue),
        contains-unseen k measured m.catalogue,
        contains-unseen k [] (added ++ (dir_names m r ++ names_in m.embedded)),
        contains-append k added (dir_names m r ++ names_in m.embedded),
        contains-append k (dir_names m r) (names_in m.embedded),
      )

  -- No name is listed twice, and a name is listed exactly if it was registered, or stands in this
  -- machine's directory, in the embedded tree or in the catalogue.
  pub names_lem :
      Distinct (names m r)
      × ((k : Text)
          → contains k (names m r) ≡ (
              contains k (map (λ (x : Text × Profile). x.0) r.added)
              || contains k (dir_names m r)
              || contains k (names_in m.embedded)
              || contains k m.catalogue))
  unfolding names
  names_lem =
      let measured = measured_names m r in
      let stock = unseen measured m.catalogue in
      let p = Permᴰ.symm (sort-Permᴰ text_leb measured) in
      let q = Permᴰ.symm (sort-Permᴰ text_leb stock) in
      (
        Distinct-append (sort text_leb measured) (sort text_leb stock)
            (Distinct-perm p (unseen-Distinct [] _)) (Distinct-perm q (unseen-Distinct measured _))
            (All-perm _ q (apart-sort measured stock (unseen-apart measured m.catalogue))),
        λ k. names-contains k,
      )

-- What is registered is what its name resolves to, before any file and any catalogue; an earlier
-- profile of the name is replaced.
pub get-register :
    (m : Machine) (r after : Registry) (p : Profile) (fuel : ℕ)
    → register r p ≡ some after
    → get m (suc fuel) after p.name ≡ found p
unfolding get register
get-register m r after p fuel e = elim (Bool-cases (is_empty p.name)) [
  | inl nameless ↦ cc (rw nameless at e)
  | inr named ↦
      let whole : some (record r { added = put p.name p r.added }) ≡ some after = rw named at e in
      let same : record r { added = put p.name p r.added } ≡ after = cc in
      let there : added_at p.name after.added ≡ some p =
        sym (ap (λ (x : Registry). added_at p.name x.added) same) ∙ added_at-put p.name p r.added in
      rw (named, there) refl
]

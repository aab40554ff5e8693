-- ===== src/Profile/Registry/Newest.antt =====
-- profile/registry.go: which of the names `newestInFamily` picks.
use tls_forge.Base.{
  Bool, true, false, List, [], ◌∷◌, ◌++◌, Option, none, some, ◌≡◌, ◌⊎◌, inl, inr, refl, ap, sym,
  arith, Bool-cases, Option-cases, Text, All, ℤ, negsuc, ltb_ℤ, contains,
}
use mathlib.Core.List.Permᴰ
use mathlib.Core.Path.{subst}
use tls_forge.Base.Distinct.{All-contains}
use tls_forge.Profile.Registry.Resolve.{
  Best, better, candidate, newest_loop, none_yet, newest_in_family,
}

ltb_ℤ_trans : (a b c : ℤ) → ltb_ℤ a b ≡ true → ltb_ℤ a c ≡ false → ltb_ℤ b c ≡ false
ltb_ℤ_trans a b c h k = ground arith

ltb_ℤ_irrefl : (a : ℤ) → ltb_ℤ a a ≡ false
ltb_ℤ_irrefl a = ground arith

-- What is found so far is no worse than a name of this major: measured if that is, and of no
-- lower a major unless it is measured and the name is not.
abbrev pub Covers : Best → Bool → ℤ → Type 0
Covers (best, best_major, best_measured) true major =
    (best_measured ≡ true) × (ltb_ℤ best_major major ≡ false)
Covers (best, best_major, best_measured) false major =
    (best_measured ≡ true) ⊎ (ltb_ℤ best_major major ≡ false)

-- A name that is not of the family asks for nothing.
abbrev pub CoversSome : Best → Bool → Option ℤ → Type 0
CoversSome b has none = Unit
CoversSome b has (some major) = Covers b has major

-- A name that may be passed over: not of the family, or not measured and of no number above -1.
abbrev pub IsPassed : Bool → Option ℤ → Type 0
IsPassed has none = Unit
IsPassed has (some major) = (has ≡ false) × (ltb_ℤ (negsuc 0) major ≡ false)

better-Covers :
    (b : Best) (name : Text) (measured : Bool) (major : ℤ)
    → Covers (better b name measured (some major)) measured major
better-Covers (best, m, true) name true major = elim (Bool-cases (ltb_ℤ m major)) [
  | inl above ↦ rw above (refl, ltb_ℤ_irrefl major)
  | inr below ↦ rw below (refl, below)
]
better-Covers (best, m, false) name true major = (refl, ltb_ℤ_irrefl major)
better-Covers (best, m, true) name false major = inl refl
better-Covers (best, m, false) name false major = elim (Bool-cases (ltb_ℤ m major)) [
  | inl above ↦ rw above (inr (ltb_ℤ_irrefl major))
  | inr below ↦ rw below (inr below)
]

better-CoversSome :
    (b : Best) (name : Text) (measured : Bool) (major : Option ℤ)
    → CoversSome (better b name measured major) measured major
better-CoversSome b name measured none = tt
better-CoversSome b name measured (some major) = better-Covers b name measured major

better-keeps :
    (b : Best) (name : Text) (measured : Bool) (found : Option ℤ) (has : Bool) (major : ℤ)
    → Covers b has major
    → Covers (better b name measured found) has major
better-keeps b name measured none has major h = h
better-keeps (best, m, true) name true (some n) true major (h, k) = elim (Bool-cases (ltb_ℤ m n)) [
  | inl above ↦ rw above (refl, ltb_ℤ_trans m n major above k)
  | inr below ↦ rw below (refl, k)
]
better-keeps (best, m, true) name true (some n) false major h = elim (Bool-cases (ltb_ℤ m n)) [
  | inl above ↦ rw above (inl refl)
  | inr below ↦ rw below (inl refl)
]
better-keeps (best, m, true) name false (some n) has major h = h
better-keeps (best, m, false) name measured (some n) true major (h, k) = cc
better-keeps (best, m, false) name true (some n) false major h = inl refl
better-keeps (best, m, false) name false (some n) false major (inl h) = cc
better-keeps (best, m, false) name false (some n) false major (inr k) =
    elim (Bool-cases (ltb_ℤ m n)) [
      | inl above ↦ rw above (inr (ltb_ℤ_trans m n major above k))
      | inr below ↦ rw below (inr k)
    ]

module _ (has : Text → Bool) (prefix : Text) where
  -- Every name of the family in the list is covered.
  abbrev pub CoversAll : Best → List Text → Type 0
  CoversAll b names = All (λ name. CoversSome b (has name) (candidate prefix name)) names

  newest_loop-keeps :
      (names : List Text) (b : Best) (h : Bool) (major : Option ℤ)
      → CoversSome b h major
      → CoversSome (newest_loop has prefix b names) h major
  unfolding newest_loop
  newest_loop-keeps names b h none c = tt
  newest_loop-keeps [] b h (some major) c = c
  newest_loop-keeps (n ∷ names) b h (some major) c =
      newest_loop-keeps names (better b n (has n) (candidate prefix n)) h (some major)
        (better-keeps b n (has n) (candidate prefix n) h major c)

  newest_loop-CoversAll :
      (names : List Text) (b : Best) → CoversAll (newest_loop has prefix b names) names
  unfolding newest_loop
  newest_loop-CoversAll [] b = tt
  newest_loop-CoversAll (n ∷ names) b =
      let b' = better b n (has n) (candidate prefix n) in
      (
        newest_loop-keeps names b' (has n) (candidate prefix n)
            (better-CoversSome b n (has n) (candidate prefix n)),
        newest_loop-CoversAll names b',
      )

  -- Nothing was found yet, or a name of the list that is of the family, with its major and
  -- whether it is measured.
  abbrev pub IsFrom : List Text → Best → Type 0
  IsFrom names b =
      (b ≡ none_yet)
      ⊎ ((contains b.0 names ≡ true) × (candidate prefix b.0 ≡ some (b.1)) × (has b.0 ≡ b.2))

  taken :
      (names : List Text) (b : Best) (n : Text) (major : ℤ)
      → IsFrom names b
      → contains n names ≡ true
      → candidate prefix n ≡ some major
      → IsFrom names (better b n (has n) (some major))
  taken names (best, m, measured) n major is there e = elim (Bool-cases (has n)) [
    | inl h ↦ elim (Bool-cases measured) [
      | inl x ↦ elim (Bool-cases (ltb_ℤ m major)) [
        | inl above ↦ rw (h, x, above) (inr (there, e, h))
        | inr below ↦ rw (h, x, below) (rw x at is)
      ]
      | inr x ↦ rw (h, x) (inr (there, e, h))
    ]
    | inr h ↦ elim (Bool-cases measured) [
      | inl x ↦ rw (h, x) (rw x at is)
      | inr x ↦ elim (Bool-cases (ltb_ℤ m major)) [
        | inl above ↦ rw (h, x, above) (inr (there, e, h))
        | inr below ↦ rw (h, x, below) (rw x at is)
      ]
    ]
  ]

  better-IsFrom :
      (names : List Text) (b : Best) (n : Text)
      → IsFrom names b
      → contains n names ≡ true
      → IsFrom names (better b n (has n) (candidate prefix n))
  better-IsFrom names b n is there = elim (Option-cases (candidate prefix n)) [
    | inl none_ ↦ rw none_ is
    | inr (major, some_) ↦ rw some_ (taken names b n major is there some_)
  ]

  newest_loop-IsFrom :
      (all_ names : List Text) (b : Best)
      → IsFrom all_ b
      → All (λ n. contains n all_ ≡ true) names
      → IsFrom all_ (newest_loop has prefix b names)
  unfolding newest_loop
  newest_loop-IsFrom all_ [] b is h = is
  newest_loop-IsFrom all_ (n ∷ names) b is (there, h) =
      newest_loop-IsFrom all_ names (better b n (has n) (candidate prefix n))
        (better-IsFrom all_ b n is there) h

none_yet-IsPassed :
    (has : Bool) (major : Option ℤ) → CoversSome none_yet has major → IsPassed has major
none_yet-IsPassed has none h = tt
none_yet-IsPassed true (some major) (h, k) = cc
none_yet-IsPassed false (some major) (inl h) = cc
none_yet-IsPassed false (some major) (inr k) = (refl, k)

All-IsPassed :
    (has : Text → Bool) (prefix : Text) (names : List Text)
    → CoversAll has prefix none_yet names
    → All (λ name. IsPassed (has name) (candidate prefix name)) names
All-IsPassed has prefix [] h = tt
All-IsPassed has prefix (n ∷ names) (c, h) =
    (none_yet-IsPassed (has n) (candidate prefix n) c, All-IsPassed has prefix names h)

-- `newestInFamily` gives a name of the list that is the family, an underscore and a number: a
-- measured one if the family has one, and of those that are measured as it is the highest
-- number. It gives no name only if no name of the family is measured and none has a number
-- above -1.
pub newest_in_family_lem :
    (has : Text → Bool) (family : Text) (names : List Text)
    → ((newest_in_family has family names ≡ [])
        × All (λ name. IsPassed (has name) (candidate (family ++ b'_' ∷ []) name)) names)
      ⊎ ((major : ℤ) × (contains (newest_in_family has family names) names ≡ true)
          × (candidate (family ++ b'_' ∷ []) (newest_in_family has family names) ≡ some major)
          × CoversAll has
              (family ++ b'_' ∷ [])
              (newest_in_family has family names, major, has (newest_in_family has family names))
              names)
newest_in_family_lem has family names =
    let prefix = family ++ b'_' ∷ [] in
    let b = newest_loop has prefix none_yet names in
    let covers = newest_loop-CoversAll has prefix names none_yet in
    elim (newest_loop-IsFrom has prefix names names none_yet (inl refl)
      (All-contains names names (Permᴰ.refl names))) [
        | inl nothing ↦ inl (
          ap (λ (x : Best). x.0) nothing,
          All-IsPassed has prefix names (subst (λ x. CoversAll has prefix x names) nothing covers),
        )
        | inr (there, is, m) ↦
            inr
              (b.1, there, is, subst (λ x. CoversAll has prefix (b.0, b.1, x) names) (sym m) covers)
      ]

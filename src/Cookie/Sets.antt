-- ===== src/Cookie/Sets.antt =====
-- What `validate` accepts, and what `Pick` and `Live` give.
use tls_forge.Base.{
  ℕ, zero, suc, ◌<◌, true, false, List, [], ◌∷◌, Option, some, ◌≡◌, ◌≢◌, ◌⊎◌, ◌↔◌, inl, inr, refl,
  arith, Text, contains, text_eq, text_eq_iff, length, get_elem?, ◌==◌, Bool-cases,
}
use tls_forge.Cookie.{
  Cookie, Set, File, Error, Result, ok, err, is_blank, validate, validate_sets, all_named, ids,
  ids_of, find_set, pick_any, pick_set,
}

-- Every cookie has a name.
abbrev pub AllNamed : List Cookie → Type 0
AllNamed [] = Unit
AllNamed (c ∷ cookies) = (is_blank c.name ≡ false) × AllNamed cookies

-- The ids are none of those given and distinct, and every cookie has a name.
abbrev pub AreValid : List Text → List Set → Type 0
AreValid seen [] = Unit
AreValid seen (s ∷ sets) =
    (contains s.id seen ≡ false) × (AllNamed s.cookies × AreValid (s.id ∷ seen) sets)

all_named_iff :
    (id : Text) (cookies : List Cookie) → (all_named id cookies ≡ ok tt) ↔ AllNamed cookies
unfolding all_named
all_named_iff id [] = (λ e. tt, λ n. refl)
all_named_iff id (c ∷ cookies) = elim (Bool-cases (is_blank c.name)) [
  | inl blank ↦ (λ e. cc (rw blank at e), λ n. cc)
  | inr named ↦ (
    λ e. (named, (all_named_iff id cookies).0 (rw named at e)),
    λ n. rw named ((all_named_iff id cookies).1 n.1),
  )
]

checked : (r : Result (Unit {0})) → (r ≡ ok tt) ⊎ ((e : Error) × (r ≡ err e))
checked (ok tt) = inl refl
checked (err e) = inr (e, refl)

validate_sets_iff :
    (seen : List Text) (sets : List Set) → (validate_sets seen sets ≡ ok tt) ↔ AreValid seen sets
unfolding validate_sets
validate_sets_iff seen [] = (λ e. tt, λ n. refl)
validate_sets_iff seen (s ∷ sets) =
    let named = all_named_iff s.id s.cookies in
    let more = validate_sets_iff (s.id ∷ seen) sets in
    elim (Bool-cases (contains s.id seen)) [
      | inl twice ↦ (λ e. cc (rw twice at e), λ n. cc)
      | inr once ↦ elim (checked (all_named s.id s.cookies)) [
        | inl good ↦ (
          λ e. (once, (named.0 good, more.0 (rw (once, good) at e))),
          λ n. rw (once, good) (more.1 (n.1.1)),
        )
        | inr (x, bad) ↦ (λ e. cc (rw (once, bad) at e), λ n. let good = named.1 (n.1.0) in cc)
      ]
    ]

-- `validate` accepts a file, and returns it as it is, exactly if the ids of its sets are distinct
-- and every cookie in them has a name.
pub validate_iff : (f : File) → (validate f ≡ ok f) ↔ AreValid [] f.sets
unfolding validate
validate_iff f =
    let sets = validate_sets_iff [] f.sets in
    elim (checked (validate_sets [] f.sets)) [
      | inl good ↦ (λ e. sets.0 good, λ n. rw good)
      | inr (x, bad) ↦ (λ e. cc (rw bad at e), λ n. let good = sets.1 n in cc)
    ]

-- The set at an index, and that it is the one asked for.
abbrev pub Found : File → Text → Option (ℕ → ℕ) → Type 0
Found f id pick =
    (s : Set) × (i : ℕ) × (pick_set f id pick ≡ ok s)
    × (get_elem? f.sets i ≡ some s)
    × ((is_blank id ≡ true) ⊎ (s.id ≡ id))

find_set_lem :
    (sets : List Set) (id : Text)
    → contains id (ids_of sets) ≡ true
    → (s : Set) × (i : ℕ) × (find_set sets id ≡ some s) × (get_elem? sets i ≡ some s) × (s.id ≡ id)
unfolding find_set ids_of contains
find_set_lem [] id h = cc
find_set_lem (s ∷ sets) id h =
    let same = text_eq_iff s.id id in
    elim (Bool-cases (text_eq s.id id)) [
      | inl here ↦ (s, 0, rw here, refl, same.0 here)
      | inr other ↦
          let (t, i, e, g, f) = find_set_lem sets id (rw other at h) in (t, suc i, rw other e, g, f)
    ]

get_elem?-some :
    (sets : List Set) (i : ℕ) → i < length sets → (s : Set) × (get_elem? sets i ≡ some s)
get_elem?-some [] i h = absurd (omega arith)
get_elem?-some (s ∷ sets) zero h = (s, refl)
get_elem?-some (s ∷ sets) (suc i) h = get_elem?-some sets i (omega arith)

asked_id :
    (id : Text) (known : List Text)
    → is_blank id ≡ false
    → (is_blank id ≡ true) ⊎ (contains id known ≡ true)
    → contains id known ≡ true
asked_id id known given (inl blank) = cc
asked_id id known given (inr there) = there

length-some : (sets : List Set) → sets ≢ [] → (length sets == 0) ≡ false
length-some [] some_ = absurd (some_ refl)
length-some (s ∷ sets) some_ = ground arith

module _ (intn : ℕ → ℕ) (draw : (n : ℕ) → 0 < n → intn n < n) where
  pick_any_lem :
      (sets : List Set)
      → sets ≢ []
      → (s : Set) × (i : ℕ) × (pick_any sets (some intn) ≡ ok s) × (get_elem? sets i ≡ some s)
  unfolding pick_any
  pick_any_lem [] some_ = absurd (some_ refl)
  pick_any_lem (s ∷ []) some_ = (s, 0, refl, refl)
  pick_any_lem (s ∷ t ∷ sets) some_ =
      let n = length (s ∷ t ∷ sets) in
      let (u, e) = get_elem?-some (s ∷ t ∷ sets) (intn n) (draw n (omega arith)) in
      (u, intn n, rw e refl, e)

  -- With a random source whose draws are below their bound, `Pick` on a file that has sets
  -- returns a set of the file: any if no id is given, and one with the id if a set has it.
  pub pick_set_lem :
      (f : File) (id : Text)
      → f.sets ≢ []
      → (is_blank id ≡ true) ⊎ (contains id (ids f) ≡ true)
      → Found f id (some intn)
  unfolding pick_set
  pick_set_lem f id some_ asked = elim (Bool-cases (is_blank id)) [
    | inl blank ↦
        let (s, i, e, g) = pick_any_lem f.sets some_ in
        (s, i, rw (length-some f.sets some_, blank) e, g, inl blank)
    | inr given ↦
        let (s, i, e, g, same) = find_set_lem f.sets id (asked_id id (ids f) given asked) in
        (s, i, rw (length-some f.sets some_, given, e) refl, g, inr same)
  ]

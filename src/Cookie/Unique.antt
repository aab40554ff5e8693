-- ===== src/Cookie/Unique.antt =====
-- cookie/cookie.go: the search of `Add` for an id.
use tls_forge.Base.{
  ℕ, zero, suc, ◌+◌, ◌<◌, ◌≤◌, true, false, not, List, [], ◌∷◌, ◌++◌, some, ◌≡◌, ◌≢◌, ◌⊎◌, inl, inr,
  refl, ap, sym, ◌∙◌, arith, Text, contains, text_eq, text_eq_iff, length, keep_if, decimal,
  decimal-injective, Bool-cases,
}
use tls_forge.Cookie.Sets.{AllNamed, AreValid, validate_iff}
use tls_forge.Cookie.{
  Set, File, ok, validate, ids, ids_of, numbered, unique_loop, id_or_one, added, add,
}

abbrev without : Text → List Text → List Text
without u ts = keep_if (λ t. not (text_eq t u)) ts

length-without_le : (u : Text) (ts : List Text) → length (without u ts) ≤ length ts
length-without_le u [] = omega arith
length-without_le u (t ∷ ts) = ground (arith, length-without_le u ts)

length-without :
    (u : Text) (ts : List Text) → contains u ts ≡ true → length (without u ts) < length ts
unfolding contains
length-without u [] h = cc
length-without u (t ∷ ts) h = ground (arith, length-without u ts, length-without_le u ts)

contains-skip :
    (t u k : Text) (ts : List Text)
    → k ≢ u
    → t ≡ u
    → contains k (t ∷ ts) ≡ true
    → contains k ts ≡ true
unfolding contains
contains-skip t u k ts differ e h = elim (Bool-cases (text_eq t k)) [
  | inl hit ↦ absurd (differ (sym ((text_eq_iff t k).0 hit) ∙ e))
  | inr miss ↦ rw miss at h
]

contains-without :
    (u k : Text) (ts : List Text) → k ≢ u → contains k ts ≡ true → contains k (without u ts) ≡ true
unfolding contains
contains-without u k [] differ h = h
contains-without u k (t ∷ ts) differ h = elim (Bool-cases (text_eq t u)) [
  | inl same ↦
      let e = (text_eq_iff t u).0 same in
      rw same (contains-without u k ts differ (contains-skip t u k ts differ e h))
  | inr other ↦ rw other (ground (arith, contains-without u k ts differ))
]

append-injective : (s t u : Text) → s ++ t ≡ s ++ u → t ≡ u
append-injective [] t u e = e
append-injective (c ∷ s) t u e = append-injective s t u (cc)

numbered-injective : (id : Text) (m n : ℕ) → numbered id m ≡ numbered id n → m ≡ n
numbered-injective id m n e =
    let tail = append-injective id (b'-' ∷ decimal m) (b'-' ∷ decimal n) e in
    decimal-injective m n (cc)

module _ (taken : List Text) (id : Text) where
  -- The candidates from the m-th on that are taken are in what is left.
  abbrev Covers : List Text → ℕ → Type 0
  Covers left m =
      (k : ℕ) → m ≤ k → contains (numbered id k) taken ≡ true → contains (numbered id k) left ≡ true

  step-taken :
      (fuel : ℕ) (u : Text) (n : ℕ)
      → contains u taken ≡ true
      → unique_loop (suc fuel) taken id u n ≡ unique_loop fuel taken id (numbered id n) (n + 1)
  unfolding unique_loop
  step-taken fuel u n hit = rw (unique_loop, hit) refl

  step-free :
      (fuel : ℕ) (u : Text) (n : ℕ)
      → contains u taken ≡ false
      → unique_loop (suc fuel) taken id u n ≡ some u
  unfolding unique_loop
  step-free fuel u n free = rw (unique_loop, free) refl

  loop_from :
      (fuel : ℕ) (left : List Text) (m : ℕ)
      → length left < fuel
      → Covers left m
      → (u : Text) × (unique_loop fuel taken id (numbered id m) (m + 1) ≡ some u)
        × (contains u taken ≡ false)
  loop_from zero left m h covers = absurd (omega arith)
  loop_from (suc fuel) left m h covers = elim (Bool-cases (contains (numbered id m) taken)) [
    | inl hit ↦
        let shorter = length-without (numbered id m) left (covers m (omega arith) hit) in
        let (u, e, f) =
          loop_from fuel (without (numbered id m) left) (m + 1) (omega arith) (λ k below there.
            contains-without (numbered id m) (numbered id k) left
              (λ same. let n = numbered-injective id k m same in omega arith)
              (covers k (omega arith) there)) in
        (u, step-taken fuel (numbered id m) (m + 1) hit ∙ e, f)
    | inr free ↦ (numbered id m, step-free fuel (numbered id m) (m + 1) free, free)
  ]

  loop_all :
      (u : Text) × (unique_loop (suc (suc (length taken))) taken id id 2 ≡ some u)
      × ((contains u taken ≡ false) × ((u ≡ id) ⊎ (contains id taken ≡ true)))
  loop_all = elim (Bool-cases (contains id taken)) [
    | inl hit ↦
        let (u, e, f) =
          loop_from (suc (length taken)) taken 2 (omega arith) (λ k below there. there) in
        (u, step-taken (suc (length taken)) id 2 hit ∙ e, (f, inr hit))
    | inr free ↦ (id, step-free (suc (length taken)) id 2 free, (free, inl refl))
  ]

-- `Add` always ends: it gives the file with the set appended to the others, under an id that none
-- of them has, and under its own (or "1" if it has none) unless that is taken.
pub add_lem :
    (f : File) (s : Set)
    → (u : Text) × (add f s ≡ some (record f { sets = f.sets ++ record s { id = u } ∷ [] }))
      × ((contains u (ids f) ≡ false)
          × ((u ≡ id_or_one s.id) ⊎ (contains (id_or_one s.id) (ids f) ≡ true)))
unfolding add
add_lem f s = let (u, e, found) = loop_all (ids f) (id_or_one s.id) in (u, ap (added f s) e, found)

AreValid-append :
    (seen : List Text) (sets : List Set) (s : Set) (u : Text)
    → AreValid seen sets
    → AllNamed s.cookies
    → contains u seen ≡ false
    → contains u (ids_of sets) ≡ false
    → AreValid seen (sets ++ record s { id = u } ∷ [])
unfolding contains ids_of
AreValid-append seen [] s u valid named new fresh = (new, (named, tt))
AreValid-append seen (t ∷ sets) s u (once, (names, valid)) named new fresh = (
  once,
  (names, AreValid-append (t.id ∷ seen) sets s u valid named (ground arith) (ground arith)),
)

-- `Add` of a set whose cookies have names to a file that `validate` accepts gives a file that
-- `validate` accepts.
pub validate-add :
    (f : File) (s : Set)
    → validate f ≡ ok f
    → AllNamed s.cookies
    → (g : File) × (add f s ≡ some g) × (validate g ≡ ok g)
unfolding contains
validate-add f s valid named =
    let (u, e, found) = add_lem f s in
    let g = record f { sets = f.sets ++ record s { id = u } ∷ [] } in
    (
      g,
      e,
      (validate_iff g).1
          (AreValid-append [] f.sets s u ((validate_iff f).0 valid) named refl (found.0)),
    )

-- ===== src/Echo/Http1/Framing.antt =====
-- echo/h1.go: what the headers of a request say of its body.
use tls_forge.Base.{
  ℕ, ◌≤◌, true, false, List, [], ◌∷◌, Option, none, some, ◌≡◌, inl, inr, refl, ap, sym, arith, ltb,
  if◌then◌else◌, Bool-cases, Option-cases, Text, text_eq, codes, to_lower, ℤ, pos, negsuc,
  parse_int, leb→le,
}
use mathlib.Core.Path.{subst}
use tls_forge.Echo.Http1.{Result, ok, Line, framed, length_loop, usable, max_body}

-- The values of the headers of a name.
abbrev pub values_of : Text → List Line → List Text
values_of name [] = []
values_of name ((wire, value) ∷ lines) =
    if text_eq (to_lower wire) name then value ∷ values_of name lines else values_of name lines

-- What the headers say of the body: nothing, or once a length that may be.
abbrev pub Framed : List Line → Option ℕ → Type 0
Framed lines none = values_of (codes "content-length") lines ≡ []
Framed lines (some n) =
    (value : Text) × (values_of (codes "content-length") lines ≡ value ∷ [])
    × (parse_int value ≡ some (pos n))
    × (n ≤ max_body)

-- What the loop says after a length that it found before.
abbrev pub FramedAfter : Option ℕ → List Line → Option ℕ → Type 0
FramedAfter none lines n = Framed lines n
FramedAfter (some m) lines n = (n ≡ some m) × (values_of (codes "content-length") lines ≡ [])

pub usable_sound : (z : Option ℤ) (n : ℕ) → usable z ≡ some n → (z ≡ some (pos n)) × (n ≤ max_body)
usable_sound none n e = cc
usable_sound (some (negsuc k)) n e = cc
usable_sound (some (pos k)) n e = elim (Bool-cases (ltb max_body k)) [
  | inl large ↦ cc (rw large at e)
  | inr fits ↦
      let whole : some k ≡ some n = rw fits at e in
      let same : k ≡ n = cc in
      (ap (λ x. some (pos x)) same, omega (arith, leb→le k max_body (ground arith)))
]

pub after_other :
    (found : Option ℕ) (wire value : Text) (lines : List Line) (n : Option ℕ)
    → text_eq (to_lower wire) (codes "content-length") ≡ false
    → FramedAfter found lines n
    → FramedAfter found ((wire, value) ∷ lines) n
after_other none wire value lines none other h = rw other h
after_other none wire value lines (some k) other (v, h, z, small) = (v, rw other h, z, small)
after_other (some m) wire value lines n other (e, h) = (e, rw other h)

-- A length where none was found.
pub length_framed :
    (found : Option ℕ) (wire value : Text) (lines : List Line) (n : Option ℕ)
    → text_eq (to_lower wire) (codes "content-length") ≡ true
    → framed found (usable (parse_int value)) (length_loop (usable (parse_int value)) lines) ≡ ok n
    → (length_loop (usable (parse_int value)) lines ≡ ok n
        → (values_of (codes "transfer-encoding") lines ≡ [])
          × FramedAfter (usable (parse_int value)) lines n)
    → (values_of (codes "transfer-encoding") lines ≡ [])
      × FramedAfter found ((wire, value) ∷ lines) n
length_framed (some m) wire value lines n here e ih = cc
length_framed none wire value lines n here e ih = elim (Option-cases (usable (parse_int value))) [
  | inl bad ↦ cc (rw bad at e)
  | inr (k, good) ↦
      let (none_, after) = rw good at (ih (rw good (rw good at e))) in
      let (z, small) = usable_sound (parse_int value) k good in
      (
        none_,
        subst (Framed ((wire, value) ∷ lines)) (sym (after.0))
            (value, rw here (ap (λ vs. value ∷ vs) (after.1)), z, small),
      )
]

pub length_loop_sound :
    (lines : List Line) (found n : Option ℕ)
    → length_loop found lines ≡ ok n
    → (values_of (codes "transfer-encoding") lines ≡ []) × FramedAfter found lines n
unfolding length_loop
length_loop_sound [] none n e =
    let whole : ◌≡◌ {A = Result (Option ℕ)} (ok none) (ok n) = e in
    let same : none ≡ n = cc in (refl, subst (Framed []) same refl)
length_loop_sound [] (some m) n e =
    let whole : ok (some m) ≡ ok n = e in let same : some m ≡ n = cc in (refl, (sym same, refl))
length_loop_sound ((wire, value) ∷ lines) found n e =
    elim (Bool-cases (text_eq (to_lower wire) (codes "transfer-encoding"))) [
      | inl chunked ↦ cc (rw chunked at e)
      | inr plain ↦ elim (Bool-cases (text_eq (to_lower wire) (codes "content-length"))) [
        | inr other ↦
            let (none_, framed_) = length_loop_sound lines found n (rw (plain, other) at e) in
            (rw plain none_, after_other found wire value lines n other framed_)
        | inl here ↦ rw plain (
            length_framed found wire value lines n here (rw (plain, here) at e)
              (length_loop_sound lines (usable (parse_int value)) n))
      ]
    ]

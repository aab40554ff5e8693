-- ===== src/Profile/Valid.antt =====
-- profile/profile.go: what the checks on a profile accept.
use mathlib.Core.List.{Permᴰ}
use mathlib.Core.List.Permᴰ
use tls_forge.Base.{
  Bool, true, false, not, ◌||◌, List, [], ◌∷◌, Option, none, some, ◌≡◌, ◌↔◌, inl, inr, refl, arith,
  ◌==◌, ==_iff, if◌then◌else◌, Bool-cases, Text, text_eq, contains, length, length-perm, All,
}
use tls_forge.Base.Distinct.{
  Distinct, apart-cons, cons-apart, within-perm, Distinct-perm, All-contains,
}
use tls_forge.Profile.{
  Http2, Profile, Problem, Loaded, profile, unless, checked, load, is_empty, is_bare_base,
  pseudo_headers, pseudo_loop, validate_pseudo_header_order, validate_http1,
}

unless-profile :
    (e : Option Problem) (r : Loaded) (p : Profile)
    → unless e r ≡ profile p
    → (e ≡ none) × (r ≡ profile p)
unless-profile none r p h = (refl, h)
unless-profile (some f) r p h = cc

checked-valid :
    (valid_name : Text → Bool) (unmarshal : Text → Option Profile) (q : Option Profile)
    (p : Profile)
    → checked valid_name unmarshal q ≡ profile p
    → (q ≡ some p)
      × (is_empty p.name ≡ false)
      × (validate_http1 valid_name p.http1 ≡ none)
      × (is_bare_base p ≡ false → validate_pseudo_header_order p.http2 ≡ none)
unfolding validate_http1 is_bare_base validate_pseudo_header_order
checked-valid valid_name unmarshal none p h = cc
checked-valid valid_name unmarshal (some q) p h = elim (Bool-cases (is_empty q.name)) [
  | inl nameless ↦ cc (rw nameless at h)
  | inr named ↦
      let (pseudo, rest) =
        unless-profile (if is_bare_base q then none else validate_pseudo_header_order q.http2)
          (unless (validate_http1 valid_name q.http1) (profile q)) p (rw named at h) in
      let (http1, last) = unless-profile (validate_http1 valid_name q.http1) (profile q) p rest in
      let same : q ≡ p = cc in rw (← same) (refl, named, http1, (λ own. rw own at pseudo))
]

pub load-valid :
    (valid_name : Text → Bool) (unmarshal : Text → Option Profile) (text : Text) (p : Profile)
    → load valid_name unmarshal text ≡ profile p
    → (validate_http1 valid_name p.http1 ≡ none)
      × (is_bare_base p ≡ false → validate_pseudo_header_order p.http2 ≡ none)
unfolding load
load-valid valid_name unmarshal text p h =
    let (read, named, http1, pseudo) = checked-valid valid_name unmarshal (unmarshal text) p h in
    (http1, pseudo)

four_Distinct : Distinct pseudo_headers
unfolding text_eq
four_Distinct = ((refl, (refl, (refl, tt))), ((refl, (refl, tt)), ((refl, tt), (tt, tt))))

All-nothing : (order : List Text) → All (λ x. contains x [] ≡ false) order
unfolding contains
All-nothing [] = tt
All-nothing (x ∷ order) = (refl, All-nothing order)

guard_false : (known seen : Bool) → (not known || seen) ≡ false → (known ≡ true) × (seen ≡ false)
guard_false true seen h = (refl, h)
guard_false false seen h = cc

false_guard : (known seen : Bool) → known ≡ true → seen ≡ false → (not known || seen) ≡ false
false_guard known seen h k = rw (h, k) refl

-- Where the loop finds nothing, the names are pseudo-headers, each once and none seen before.
pseudo_loop_iff :
    (seen order : List Text)
    → (pseudo_loop seen order ≡ none) ↔ (
        All (λ x. contains x pseudo_headers ≡ true) order
        × Distinct order
        × All (λ x. contains x seen ≡ false) order)
unfolding pseudo_loop
pseudo_loop_iff seen [] = ((λ h. (tt, tt, tt)), (λ h. refl))
pseudo_loop_iff seen (name ∷ order) =
    let (to, from) = pseudo_loop_iff (name ∷ seen) order in
    (
      (λ h. elim (Bool-cases (not (contains name pseudo_headers) || contains name seen)) [
        | inl bad ↦ cc (rw bad at h)
        | inr good ↦
            let (known, distinct, apart) = to (rw good at h) in
            let (other, unseen) = apart-cons name seen order apart in
            let (k, u) = guard_false (contains name pseudo_headers) (contains name seen) good in
            ((k, known), (other, distinct), (u, unseen))
      ]),
      (λ ((k, known), (other, distinct), (u, unseen)).
          let good = false_guard (contains name pseudo_headers) (contains name seen) k u in
          rw good (from (known, distinct, cons-apart name seen order other unseen))),
    )

-- The order of the pseudo-headers is accepted exactly if it is an order of the four.
pub validate_pseudo_header_order_iff :
    (h : Http2)
    → (validate_pseudo_header_order h ≡ none) ↔ Permᴰ h.pseudo_header_order pseudo_headers
unfolding validate_pseudo_header_order
validate_pseudo_header_order_iff h =
    let order = h.pseudo_header_order in
    let (to, from) = pseudo_loop_iff [] order in
    (
      (λ valid. elim (Bool-cases (length order == 4)) [
        | inr wrong ↦ cc (rw wrong at valid)
        | inl four ↦
            let (known, distinct, u) = to (rw four at valid) in
            within-perm order pseudo_headers ((==_iff (length order) 4).0 four) known distinct
      ]),
      (λ p.
          let four : (length order == 4) ≡ true = ground (arith, length-perm p) in
          rw four (
            from (
              All-contains order pseudo_headers p,
              Distinct-perm (Permᴰ.symm p) four_Distinct,
              All-nothing order,
            ))),
    )

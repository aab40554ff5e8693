-- ===== src/Proxy/Given.antt =====
-- proxy/proxy.go: what the loops of `mergeHeaders` put under a name.
use tls_forge.Base.{
  AreLower, Bool, false, not, ◌&&◌, ◌||◌, List, [], ◌∷◌, ◌++◌, append_assoc, append-nil, ◌≡◌, inl,
  inr, refl, sym, ◌∙◌, arith, if◌then◌else◌, Bool-cases, Text, text_eq, text_eq_iff, to_lower,
  to_lower_idem, contains, insert, sort, text_leb,
}
use tls_forge.Header.{Header, field, has, add}
use tls_forge.Header.Lookup.{values_at, has_key, has-has_key, values_at-append}
use tls_forge.Proxy.{Incoming, incoming_values, is_dropped, extras_of, add_values, add_extras}

unfoldable pub lower_names : Incoming → List Text
lower_names [] = []
lower_names ((name, vs) ∷ incoming) = to_lower name ∷ lower_names incoming

-- No two names are the same but for case.
abbrev pub DistinctNames : Incoming → Type 0
DistinctNames [] = Unit
DistinctNames ((name, vs) ∷ incoming) =
    (contains (to_lower name) (lower_names incoming) ≡ false) × DistinctNames incoming

-- The incoming names that go on: neither dropped nor in the profile.
abbrev pub goes_on : Header → Incoming → Text → Bool
goes_on profile incoming k =
    not (is_dropped k) && not (has_key k profile) && contains k (lower_names incoming)

-- The values once for every time that the name stands in a list.
pub given : Text → List Text → List Text → List Text
given k vs [] = []
given k vs (n ∷ names) = if text_eq n k then vs ++ given k vs names else given k vs names

values_at-add_values :
    (k : Text) (out : Header) (n : Text) (vs : List Text)
    → values_at k (add_values out n vs)
      ≡ values_at k out ++ (if text_eq (to_lower n) k then vs else [])
unfolding add_values add values_at
values_at-add_values k out n [] = elim (Bool-cases (text_eq (to_lower n) k)) [
  | inl same ↦ rw (same, append-nil (values_at k out)) refl
  | inr other ↦ rw (other, append-nil (values_at k out)) refl
]
values_at-add_values k out n (v ∷ vs) = elim (Bool-cases (text_eq (to_lower n) k)) [
  | inl same ↦
      rw
        (
          values_at-add_values k (add out n v) n vs,
          values_at-append k out (field (to_lower n) v ∷ []),
          to_lower_idem n,
          same,
        )
        (append_assoc (values_at k out) (v ∷ []) vs)
  | inr other ↦
      rw
        (
          values_at-add_values k (add out n v) n vs,
          values_at-append k out (field (to_lower n) v ∷ []),
          to_lower_idem n,
          other,
        )
        (append-nil (values_at k out ++ []))
]

pub values_at-add_extras :
    (k : Text) (incoming : Incoming) (out : Header) (names : List Text)
    → AreLower names
    → values_at k (add_extras incoming out names)
      ≡ values_at k out ++ given k (incoming_values incoming k) names
unfolding add_extras given AreLower
values_at-add_extras k incoming out [] lower = sym (append-nil (values_at k out))
values_at-add_extras k incoming out (n ∷ names) (low, lower) =
    let vs = incoming_values incoming n in
    let rest = values_at-add_extras k incoming (add_values out n vs) names lower in
    elim (Bool-cases (text_eq n k)) [
      | inl same ↦
          rw (rest, values_at-add_values k out n vs, low, same, (text_eq_iff n k).0 same)
            (append_assoc (values_at k out) (incoming_values incoming k)
              (given k (incoming_values incoming k) names))
      | inr other ↦
          rw (rest, values_at-add_values k out n vs, low, other, append-nil (values_at k out))
    ]

-- Sorting changes neither of the two.
given-insert :
    (k : Text) (vs : List Text) (n : Text) (names : List Text)
    → given k vs (insert text_leb n names) ≡ given k vs (n ∷ names)
unfolding insert given
given-insert k vs n [] = refl
given-insert k vs n (m ∷ names) = ground (arith, given-insert k vs n names)

pub given-sort :
    (k : Text) (vs : List Text) (names : List Text)
    → given k vs (sort text_leb names) ≡ given k vs names
unfolding sort given
given-sort k vs [] = refl
given-sort k vs (n ∷ names) =
    given-insert k vs n (sort text_leb names) ∙ ground (arith, given-sort k vs names)

pub AreLower-extras_of : (out : Header) (incoming : Incoming) → AreLower (extras_of out incoming)
unfolding extras_of AreLower
AreLower-extras_of out [] = tt
AreLower-extras_of out ((name, vs) ∷ incoming) = elim (Bool-cases (is_dropped (to_lower name))) [
  | inl dropped ↦ rw dropped (AreLower-extras_of out incoming)
  | inr kept ↦ elim (Bool-cases (has out (to_lower name))) [
    | inl there ↦ rw (kept, there) (AreLower-extras_of out incoming)
    | inr new ↦ rw (kept, new) (to_lower_idem name, AreLower-extras_of out incoming)
  ]
]

contains-nil : (k : Text) → contains k [] ≡ false
unfolding contains
contains-nil k = refl

contains-cons : (k n : Text) (ns : List Text) → contains k (n ∷ ns) ≡ (text_eq n k || contains k ns)
unfolding contains
contains-cons k n ns = refl

-- What one incoming header adds.
given-step :
    (k : Text) (vs ws : List Text) (out : Header) (name : Text) (incoming : Incoming)
    → given k vs (extras_of out ((name, ws) ∷ incoming)) ≡ (
        if not (is_dropped (to_lower name))
          && (not (has out (to_lower name)) && text_eq (to_lower name) k)
        then vs ++ given k vs (extras_of out incoming)
        else given k vs (extras_of out incoming))
unfolding extras_of given
given-step k vs ws out name incoming = elim (Bool-cases (is_dropped (to_lower name))) [
  | inl dropped ↦ rw dropped refl
  | inr kept ↦ elim (Bool-cases (has out (to_lower name))) [
    | inl there ↦ rw (kept, there) refl
    | inr new ↦ rw (kept, new) refl
  ]
]

given-nil : (k : Text) (vs : List Text) (out : Header) → given k vs (extras_of out []) ≡ []
unfolding given extras_of
given-nil k vs out = refl

given-absent :
    (k : Text) (vs : List Text) (out : Header) (incoming : Incoming)
    → contains k (lower_names incoming) ≡ false
    → given k vs (extras_of out incoming) ≡ []
unfolding lower_names
given-absent k vs out [] absent = given-nil k vs out
given-absent k vs out ((name, ws) ∷ incoming) absent = ground (
  arith,
  given-step k vs ws out name incoming,
  contains-cons k (to_lower name) (lower_names incoming),
  given-absent k vs out incoming,
)

pub given-extras_of :
    (k : Text) (vs : List Text) (out : Header) (incoming : Incoming)
    → DistinctNames incoming
    → given k vs (extras_of out incoming) ≡ (if goes_on out incoming k then vs else [])
unfolding lower_names
given-extras_of k vs out [] distinct = given-nil k vs out ∙ ground (arith, contains-nil k)
given-extras_of k vs out ((name, ws) ∷ incoming) (once, distinct) =
    elim (Bool-cases (text_eq (to_lower name) k)) [
      | inl same ↦
          let e = (text_eq_iff (to_lower name) k).0 same in
          rw
            (
              given-step k vs ws out name incoming,
              contains-cons k (to_lower name) (lower_names incoming),
              same,
              given-absent k vs out incoming (rw e at once),
              append-nil vs,
              has-has_key out (to_lower name),
              to_lower_idem name,
              e,
            )
            (ground arith)
      | inr other ↦
          rw
            (
              given-step k vs ws out name incoming,
              contains-cons k (to_lower name) (lower_names incoming),
              other,
              given-extras_of k vs out incoming distinct,
            )
            (ground arith)
    ]

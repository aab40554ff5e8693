-- ===== src/Daemon/Order.antt =====
-- `orderedHeaders`: taking headers from the map in an order, and the rest sorted.
use tls_forge.Base.{
  Bool, true, false, ◌||◌, List, [], ◌∷◌, ◌++◌, Option, none, some, ◌≡◌, inl, inr, refl, ap, sym,
  ◌∙◌, arith, if◌then◌else◌, Bool-cases, Option-cases, append-nil, Text, text_eq, text_eq_iff,
  to_lower, to_lower_idem, AreLower, AreLower-sort, contains-sort, contains, sort, text_leb,
}
use tls_forge.Header.{Header, set}
use tls_forge.Header.Lookup.{values_at}
use tls_forge.Header.Update.{rest_of, values_at-set}
use tls_forge.Daemon.HeaderMap.{
  Entries, entry, delete, keys_of, sorted_keys, Taking, take_name, take_names, or_blank, set_keys,
  finish, arranged,
}

abbrev pub listed : Option Text → List Text
listed none = []
listed (some v) = v ∷ []

entry-delete :
    (k n : Text) (m : Entries) → entry k (delete n m) ≡ (if text_eq n k then none else entry k m)
unfolding entry delete
entry-delete k n [] = elim (Bool-cases (text_eq n k)) [
  | inl same ↦ rw same refl
  | inr other ↦ rw other refl
]
entry-delete k n ((j, v) ∷ m) =
    ground (arith, entry-delete k n m, text_eq_iff j n, text_eq_iff j k, text_eq_iff n k)

AreLower-delete : (n : Text) (m : Entries) → AreLower (keys_of m) → AreLower (keys_of (delete n m))
unfolding delete keys_of AreLower
AreLower-delete n [] lower = tt
AreLower-delete n ((j, v) ∷ m) (low, lower) = elim (Bool-cases (text_eq j n)) [
  | inl same ↦ rw same (AreLower-delete n m lower)
  | inr other ↦ rw other (low, AreLower-delete n m lower)
]

-- A name with at most one value has one after it is set.
values_at-set_one :
    (k : Text) (out : Header) (n w : Text)
    → to_lower n ≡ n
    → rest_of (values_at k out) ≡ []
    → values_at k (set out n w) ≡ (if text_eq n k then w ∷ [] else values_at k out)
values_at-set_one k out n w low one = rw (values_at-set out n w k, low, one)

rest_of_if :
    (b : Bool) (w : Text) (vs : List Text)
    → rest_of vs ≡ []
    → rest_of (if b then w ∷ [] else vs) ≡ []
rest_of_if true w vs one = refl
rest_of_if false w vs one = one

if_chosen :
    (b c : Bool) (w x : Text) (vs : List Text)
    → (b ≡ true → w ≡ x)
    → (if c then x ∷ [] else (if b then w ∷ [] else vs)) ≡ (if b || c then x ∷ [] else vs)
if_chosen true true w x vs same = refl
if_chosen true false w x vs same = ap (λ y. y ∷ []) (same refl)
if_chosen false c w x vs same = refl

-- The last loop gives each of its names the value of the map.
values_at-set_keys :
    (k : Text) (lower : Entries) (out : Header) (names : List Text)
    → AreLower names
    → rest_of (values_at k out) ≡ []
    → values_at k (set_keys lower out names)
      ≡ (if contains k names then or_blank (entry k lower) ∷ [] else values_at k out)
unfolding set_keys contains AreLower
values_at-set_keys k lower out [] low one = refl
values_at-set_keys k lower out (n ∷ names) (l, low) one =
    let w = or_blank (entry n lower) in
    let x = or_blank (entry k lower) in
    let now = values_at-set_one k out n w l one in
    values_at-set_keys k lower (set out n w) names low
      (ap rest_of now ∙ rest_of_if (text_eq n k) w (values_at k out) one)
    ∙ ap (λ vs. if contains k names then x ∷ [] else vs) now
    ∙ if_chosen (text_eq n k) (contains k names) w x (values_at k out)
        (λ same. ap (λ m. or_blank (entry m lower)) ((text_eq_iff n k).0 same))

-- Under each key there is one value at most, and none as long as the map has the key.
abbrev IsTaking : Taking → Type 0
IsTaking t =
    AreLower (keys_of t.lower)
    × ((k : Text) → rest_of (values_at k t.out) ≡ [])
    × ((k v : Text) → entry k t.lower ≡ some v → values_at k t.out ≡ [])

-- The values under a key, taken already or not yet.
abbrev held : Text → Taking → List Text
held k t = listed (entry k t.lower) ++ values_at k t.out

module _ (t : Taking) (n v : Text) (low : to_lower n ≡ n) (is : IsTaking t)
    (found : entry n t.lower ≡ some v) where
  abbrev after : Taking
  after = record { out = set t.out n v; lower = delete n t.lower }

  values_after :
      (k : Text) → values_at k after.out ≡ (if text_eq n k then v ∷ [] else values_at k t.out)
  values_after k = values_at-set_one k t.out n v low (is.1 k)

  held-after : (k : Text) → held k after ≡ held k t
  held-after k = elim (Bool-cases (text_eq n k)) [
    | inl same ↦
        let e = (text_eq_iff n k).0 same in
        let at_k = ap (λ m. entry m t.lower) (sym e) ∙ found in
        rw (entry-delete k n t.lower, values_after k, same, at_k, is.2 k v at_k) refl
    | inr other ↦ rw (entry-delete k n t.lower, values_after k, other) refl
  ]

  IsTaking-after : IsTaking after
  IsTaking-after = (
    AreLower-delete n t.lower (is.0),
    (λ k. ap rest_of (values_after k) ∙ rest_of_if (text_eq n k) v (values_at k t.out) (is.1 k)),
    (λ k x e. elim (Bool-cases (text_eq n k)) [
      | inl same ↦ cc (rw (entry-delete k n t.lower, same) at e)
      | inr other ↦
          rw (values_after k, other) (is.2 k x (rw (entry-delete k n t.lower, other) at e))
    ]),
  )

take_name-keeps :
    (t : Taking) (name : Text)
    → IsTaking t
    → ((k : Text) → held k (take_name t name) ≡ held k t) × IsTaking (take_name t name)
unfolding take_name
take_name-keeps t name is = elim (Option-cases (entry (to_lower name) t.lower)) [
  | inl missing ↦ rw missing ((λ k. refl), is)
  | inr (v, found) ↦ rw found (
    held-after t (to_lower name) v (to_lower_idem name) is found,
    IsTaking-after t (to_lower name) v (to_lower_idem name) is found,
  )
]

take_names-keeps :
    (t : Taking) (names : List Text)
    → IsTaking t
    → ((k : Text) → held k (take_names t names) ≡ held k t) × IsTaking (take_names t names)
unfolding take_names
take_names-keeps t [] is = ((λ k. refl), is)
take_names-keeps t (name ∷ names) is =
    let (first, is_first) = take_name-keeps t name is in
    let (more, is_more) = take_names-keeps (take_name t name) names is_first in
    ((λ k. more k ∙ first k), is_more)

entry-keys_of :
    (k : Text) (m : Entries) → contains k (keys_of m) ≡ true → (v : Text) × (entry k m ≡ some v)
unfolding entry keys_of contains
entry-keys_of k [] h = cc
entry-keys_of k ((j, v) ∷ m) h = elim (Bool-cases (text_eq j k)) [
  | inl same ↦ (v, rw same refl)
  | inr other ↦ let (w, e) = entry-keys_of k m (rw other at h) in (w, rw other e)
]

entry-absent : (k : Text) (m : Entries) → contains k (keys_of m) ≡ false → entry k m ≡ none
unfolding entry keys_of contains
entry-absent k [] h = refl
entry-absent k ((j, v) ∷ m) h = ground (arith, entry-absent k m)

values_at-finish : (k : Text) (t : Taking) → IsTaking t → values_at k (finish t) ≡ held k t
unfolding sorted_keys
values_at-finish k t is =
    let set_all =
      values_at-set_keys k t.lower t.out (sort text_leb (keys_of t.lower))
        (AreLower-sort (keys_of t.lower) is.0) (is.1 k) in
    set_all
    ∙ rw (contains-sort k (keys_of t.lower)) (elim (Bool-cases (contains k (keys_of t.lower))) [
      | inl there ↦ let (v, e) = entry-keys_of k t.lower there in rw (there, e, is.2 k v e) refl
      | inr gone ↦ rw (gone, entry-absent k t.lower gone) refl
    ])

pub values_at-arranged :
    (k : Text) (order : List Text) (lower : Entries)
    → AreLower (keys_of lower)
    → values_at k (arranged order lower) ≡ listed (entry k lower)
values_at-arranged k order lower low =
    let t : Taking = record { out = []; lower = lower } in
    let (kept, is) =
      take_names-keeps t order
        (low, (λ j. unfold values_at in refl), (λ j v e. unfold values_at in refl)) in
    values_at-finish k (take_names t order) is
    ∙ kept k
    ∙ unfold values_at in append-nil (listed (entry k lower))

-- ===== src/Header/Merge/Order.antt =====
-- In which order a merged header carries its names.
use tls_forge.Base.{
  true, false, List, [], ◌∷◌, ◌++◌, ◌≡◌, refl, ap, sym, ◌∙◌, arith, ◌⊎◌, inl, inr, append-nil,
  append_assoc, Text, text_eq_iff, to_lower, to_lower_idem, contains,
}
use tls_forge.Header.{
  Field, Header, has, Fields, collect, Merging, keep_base, keep_bases, append_new, append_news,
  merge,
}
use tls_forge.Header.Lookup.{has_key, has-has_key}
use tls_forge.Header.Merge.{entries, entries-of_has_not, lookup-overrides}

unfoldable pub keys : Header → List Text
unfolding to_lower
keys [] = []
keys (f ∷ h) = to_lower f.name ∷ keys h

-- No two headers of the list have names that are equal but for their case.
abbrev pub Distinct : Header → Type 0
Distinct [] = Unit
Distinct (f ∷ h) = (has h f.name ≡ false) × Distinct h

-- Every name of the first list is in the second.
abbrev pub Within : Header → Header → Type 0
Within [] h = Unit
Within (f ∷ o) h = (has h f.name ≡ true) × Within o h

keys-append : (g h : Header) → keys (g ++ h) ≡ keys g ++ keys h
unfolding keys
keys-append [] h = refl
keys-append (f ∷ g) h = ap (◌∷◌ (to_lower f.name)) (keys-append g h)

keys-entries :
    (k : Text) (o : Header) → Distinct o → has_key k o ≡ true → keys (entries k o) ≡ k ∷ []
unfolding keys entries has_key
keys-entries k [] d e = cc
keys-entries k (f ∷ o) d e = ground (
  arith,
  keys-entries k o d.1,
  entries-of_has_not k o,
  has-has_key o f.name,
  to_lower_idem f.name,
  text_eq_iff (to_lower f.name) k,
)

-- None of the names is in the set.
abbrev Unused : Header → List Text → Type 0
Unused [] used = Unit
Unused (f ∷ h) used = (contains (to_lower f.name) used ≡ false) × Unused h used

Unused-cons :
    (h : Header) (k : Text) (used : List Text)
    → has_key k h ≡ false
    → Unused h used
    → Unused h (k ∷ used)
unfolding has_key contains
Unused-cons [] k used e u = tt
Unused-cons (f ∷ h) k used e u = (
  ground (arith, text_eq_iff k (to_lower f.name), text_eq_iff (to_lower f.name) k),
  Unused-cons h k used (ground arith) u.1,
)

module _ (o : Header) (d : Distinct o) where
  keys-keep_base :
      (s : Merging) (f : Field)
      → contains (to_lower f.name) s.used ≡ false
      → keys (keep_base (collect [] o) s f).out ≡ keys s.out ++ to_lower f.name ∷ []
  unfolding keep_base keys
  keys-keep_base s f u =
      let n = to_lower f.name in
      ground (
        arith,
        lookup-overrides n o,
        keys-append s.out (f ∷ []),
        keys-append s.out (entries n o),
        keys-entries n o d,
      )

  used-keep_base :
      (s : Merging) (f : Field)
      → ((keep_base (collect [] o) s f).used ≡ s.used)
        ⊎ ((keep_base (collect [] o) s f).used ≡ to_lower f.name ∷ s.used)
  unfolding keep_base
  used-keep_base s f = ground arith

  Unused-keep_base :
      (s : Merging) (f : Field) (h : Header)
      → has h f.name ≡ false
      → Unused h s.used
      → Unused h (keep_base (collect [] o) s f).used
  Unused-keep_base s f h e u = elim (used-keep_base s f) [
    | inl same ↦ rw same u
    | inr more ↦ rw more (Unused-cons h (to_lower f.name) s.used (rw has-has_key at e) u)
  ]

  keys-keep_bases :
      (s : Merging) (h : Header)
      → Distinct h
      → Unused h s.used
      → keys (keep_bases (collect [] o) s h).out ≡ keys s.out ++ keys h
  unfolding keep_bases keys
  keys-keep_bases s [] e u = sym (append-nil (keys s.out))
  keys-keep_bases s (f ∷ h) e u =
      let s' = keep_base (collect [] o) s f in
      ground (
        arith,
        keys-keep_bases s' h e.1 (Unused-keep_base s f h e.0 u.1),
        keys-keep_base s f u.0,
        append_assoc (keys s.out) (to_lower f.name ∷ []) (keys h),
      )

append_news-Within :
    (h : Header) (m : Fields) (s : Merging) (g : Header) → Within g h → append_news h m s g ≡ s
unfolding append_news append_new
append_news-Within h m s [] w = refl
append_news-Within h m s (f ∷ g) w = ground (
  arith,
  append_news-Within h m s g w.1,
  has-has_key h (to_lower f.name),
  has-has_key h f.name,
  to_lower_idem f.name,
)

Unused-none : (h : Header) → Unused h []
unfolding contains
Unused-none [] = tt
Unused-none (f ∷ h) = (refl, Unused-none h)

-- Overriding only names that the base already has leaves the base's order of names as it is: the
-- merged header has the same names, but for case, in the same places. The names of either list
-- are distinct.
pub keys-merge : (h o : Header) → Distinct h → Distinct o → Within o h → keys (merge h o) ≡ keys h
unfolding merge keys
keys-merge h [] dh do_ w = refl
keys-merge h (f ∷ o) dh do_ w =
    let s : Merging = record { out = []; used = [] } in
    ap (λ (t : Merging). keys t.out)
      (append_news-Within h (collect [] (f ∷ o)) (keep_bases (collect [] (f ∷ o)) s h) (f ∷ o) w)
    ∙ keys-keep_bases (f ∷ o) do_ s h dh (Unused-none h)

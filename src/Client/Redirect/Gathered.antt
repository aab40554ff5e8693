-- ===== src/Client/Redirect/Gathered.antt =====
-- client.go: the names that headerValues gathers.
use tls_forge.Base.{
  Bool, true, false, ◌||◌, [], ◌∷◌, ◌++◌, ◌≡◌, inl, inr, refl, ap, sym, ◌∙◌, Bool-cases, Text,
  text_eq, text_eq_iff, contains, to_lower, to_lower_idem,
}
use tls_forge.Base.Lower.{AreLower}
use tls_forge.Client.Redirect.{
  Layout, values_under, or_none, put, keys, header_layout_key, gathered,
}
use tls_forge.Client.Redirect.Carried.{carries, or_false, or_swap, contains-keys-put, AreLower-put}

module _ (order_key pseudo_key : Text) where
  pub AreLower-gathered :
      (out header : Layout)
      → AreLower (keys out)
      → AreLower (keys (gathered order_key pseudo_key out header))
  unfolding gathered
  AreLower-gathered out [] lower = lower
  AreLower-gathered out ((name, vs) ∷ header) lower =
      let l = to_lower name in
      let entry = or_none (values_under l out) ++ vs in
      elim (Bool-cases (header_layout_key order_key pseudo_key l)) [
        | inl layout ↦ rw layout (AreLower-gathered out header lower)
        | inr field ↦ rw field (
            AreLower-gathered (put l entry out) header
              (AreLower-put l entry out (to_lower_idem name) lower))
      ]

  module _ (k : Text) (free : header_layout_key order_key pseudo_key k ≡ false) where
    no_key : (l : Text) → header_layout_key order_key pseudo_key l ≡ true → text_eq l k ≡ false
    no_key l layout = elim (Bool-cases (text_eq l k)) [
      | inl same ↦ cc (ap (header_layout_key order_key pseudo_key) ((text_eq_iff l k).0 same))
      | inr other ↦ other
    ]

    pub contains-gathered :
        (out header : Layout)
        → contains k (keys (gathered order_key pseudo_key out header))
          ≡ (contains k (keys out) || carries k header)
    unfolding gathered carries
    contains-gathered out [] = sym (or_false (contains k (keys out)))
    contains-gathered out ((name, vs) ∷ header) =
        let l = to_lower name in
        let entry = or_none (values_under l out) ++ vs in
        elim (Bool-cases (header_layout_key order_key pseudo_key l)) [
          | inl layout ↦ rw layout (contains-gathered out header ∙ rw (no_key l layout) refl)
          | inr field ↦ rw field (
              contains-gathered (put l entry out) header
              ∙ ap (λ (b : Bool). b || carries k header) (contains-keys-put k l entry out)
              ∙ or_swap (text_eq l k) (contains k (keys out)) (carries k header))
        ]

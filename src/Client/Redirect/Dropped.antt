-- ===== src/Client/Redirect/Dropped.antt =====
-- client.go: a header that a redirect has dropped stays dropped.
use tls_forge.Base.{
  true, false, not, ◌&&◌, ◌||◌, List, [], ◌∷◌, Option, none, some, sort, ◌≡◌, inl, inr, refl, ap,
  sym, ◌∙◌, if◌then◌else◌, Bool-cases, Text, text_eq, text_eq_iff, text_eq_refl, text_leb, codes,
  contains, to_lower, to_lower_idem, equal_fold,
}
use tls_forge.Base.Lower.{AreLower, AreLower-sort, contains-sort}
use tls_forge.Client.Redirect.{
  Layout, values_under, or_none, keys, header_layout_key, header_values, delete_header, wire_under,
  set_under, set_header, texts_eq, followed, follow, newly, add_new, redirect_http1_layout,
}
use tls_forge.Client.Redirect.Gathered.{AreLower-gathered, contains-gathered}
use tls_forge.Client.Redirect.Carried.{
  carries, carries-put, canonical_key-lower, carries-without, equal_fold-found, none_left, both_off,
  values_under-absent,
}

module _ (order_key pseudo_key : Text) where
  wire_under-found :
      (l : Text) (header : Layout) (wire : Text)
      → wire_under order_key pseudo_key l header ≡ some wire
      → to_lower wire ≡ to_lower l
  unfolding wire_under
  wire_under-found l [] wire e = cc
  wire_under-found l ((name, vs) ∷ header) wire e =
      let test = equal_fold name l && not (header_layout_key order_key pseudo_key name) in
      elim (Bool-cases test) [
        | inl here ↦
            let same : name ≡ wire = cc (rw here at e) in
            rw (← same)
              (equal_fold-found name l (not (header_layout_key order_key pseudo_key name)) here)
        | inr other ↦ wire_under-found l header wire (rw other at e)
      ]

  module _ (k : Text) (low : to_lower k ≡ k)
      (free : header_layout_key order_key pseudo_key k ≡ false) where
    order_off : text_eq (to_lower order_key) k ≡ false
    unfolding header_layout_key equal_fold
    order_off = elim (Bool-cases (text_eq (to_lower order_key) k)) [
      | inl same ↦
          cc (rw (low, (text_eq_iff (to_lower order_key) k).0 same, text_eq_refl k) at free)
      | inr other ↦ other
    ]

    set_under-absent :
        (header : Layout) (l : Text) (vs : List Text) (wire : Option Text)
        → wire_under order_key pseudo_key l header ≡ wire
        → text_eq (to_lower l) k ≡ false
        → carries k header ≡ false
        → carries k (set_under order_key pseudo_key header l vs wire) ≡ false
    set_under-absent header l vs (some wire) e off absent =
        rw (carries-put, wire_under-found l header wire e, off) absent
    set_under-absent header l vs none e off absent =
        rw (carries-put, canonical_key-lower l, off, carries-put, order_off) absent

    set_header-absent :
        (header : Layout) (l : Text) (vs : List Text)
        → text_eq (to_lower l) k ≡ false
        → carries k header ≡ false
        → carries k (set_header order_key pseudo_key header l vs) ≡ false
    unfolding set_header
    set_header-absent header l vs off absent =
        set_under-absent header l vs (wire_under order_key pseudo_key l header) refl off absent

    carries-delete_header :
        (header : Layout) (l : Text)
        → carries k (delete_header order_key pseudo_key header l)
          ≡ (carries k header && not (text_eq (to_lower l) k))
    unfolding delete_header
    carries-delete_header header l = rw (carries-put, order_off) (carries-without k l header)

    followed-absent :
        (out : Layout) (name : Text) (before : List Text) (now : Option (List Text))
        → to_lower name ≡ name
        → (text_eq name k ≡ true → now ≡ none)
        → carries k out ≡ false
        → carries k (followed order_key pseudo_key out name before now) ≡ false
    followed-absent out name before none e gone absent =
        rw (carries-delete_header out name, absent) refl
    followed-absent out name before (some vs) e gone absent =
        elim (Bool-cases (texts_eq vs before)) [
          | inl unchanged ↦ rw unchanged absent
          | inr changed ↦ rw changed (elim (Bool-cases (text_eq name k)) [
            | inl here ↦ cc (gone here)
            | inr other ↦ set_header-absent out name vs (rw e other) absent
          ])
        ]

    newly-absent :
        (out : Layout) (name : Text) (now : List Text) (before : Option (List Text))
        → text_eq (to_lower name) k ≡ false
        → carries k out ≡ false
        → carries k (newly order_key pseudo_key out name now before) ≡ false
    newly-absent out name now (some vs) off absent = absent
    newly-absent out name now none off absent = set_header-absent out name now off absent

    module _ (before now : Layout) (gone : contains k (keys now) ≡ false) where
      gone_at : (name : Text) → text_eq name k ≡ true → values_under name now ≡ none
      gone_at name same = rw ((text_eq_iff name k).0 same) (values_under-absent k now gone)

      follow-absent :
          (out : Layout) (names : List Text)
          → AreLower names
          → carries k out ≡ false
          → carries k (follow order_key pseudo_key before now out names) ≡ false
      unfolding follow AreLower
      follow-absent out [] lower absent = absent
      follow-absent out (name ∷ names) (low_, lower) absent =
          elim (Bool-cases (text_eq name (codes "host"))) [
            | inl host ↦ rw host (follow-absent out names lower absent)
            | inr other ↦ rw other (
                follow-absent
                  (followed order_key pseudo_key out name (or_none (values_under name before))
                    (values_under name now))
                  names lower
                  (followed-absent out name (or_none (values_under name before))
                    (values_under name now) low_ (gone_at name) absent))
          ]

      follow-drops :
          (out : Layout) (names : List Text)
          → AreLower names
          → text_eq k (codes "host") ≡ false
          → contains k names ≡ true
          → carries k (follow order_key pseudo_key before now out names) ≡ false
      unfolding follow AreLower contains
      follow-drops out [] lower mine there = cc
      follow-drops out (name ∷ names) (low_, lower) mine there =
          elim (Bool-cases (text_eq name k)) [
            | inl here ↦
                let same = (text_eq_iff name k).0 here in
                rw (same, mine, values_under-absent k now gone)
                  (follow-absent (delete_header order_key pseudo_key out k) names lower (
                    carries-delete_header out k
                    ∙ rw (low, text_eq_refl k) (none_left (carries k out))))
            | inr other ↦
                follow-drops
                  (if text_eq name (codes "host")
                    then out
                    else followed order_key pseudo_key out name (or_none (values_under name before))
                        (values_under name now))
                  names lower mine (rw other at there)
          ]

      add_new-absent :
          (out : Layout) (names : List Text)
          → AreLower names
          → contains k names ≡ false
          → carries k out ≡ false
          → carries k (add_new order_key pseudo_key before now out names) ≡ false
      unfolding add_new AreLower contains
      add_new-absent out [] lower off absent = absent
      add_new-absent out (name ∷ names) (low_, lower) off absent =
          let test = text_eq name (codes "host") || header_layout_key order_key pseudo_key name in
          let (other, rest) = both_off (text_eq name k) (contains k names) off in
          elim (Bool-cases test) [
            | inl passed ↦ rw passed (add_new-absent out names lower rest absent)
            | inr taken ↦ rw taken (
                add_new-absent
                  (newly order_key pseudo_key out name (or_none (values_under name now))
                    (values_under name before))
                  names lower rest
                  (newly-absent out name (or_none (values_under name now))
                    (values_under name before) (rw low_ other) absent))
          ]

host_lower : to_lower (codes "host") ≡ codes "host"
unfolding to_lower
host_lower = refl

not_host :
    (k : Text) → text_eq k (codes "host") ≡ false → text_eq (to_lower (codes "host")) k ≡ false
not_host k e = rw host_lower (elim (Bool-cases (text_eq (codes "host") k)) [
  | inl same ↦ cc (
    ap (λ n. text_eq n (codes "host")) (sym ((text_eq_iff (codes "host") k).0 same)),
    text_eq_refl (codes "host"),
  )
  | inr other ↦ other
])

-- A header that the first request had and that the redirected request has no more, in any case,
-- is not in the HTTP/1.1 block of the redirected request, whatever block the first request had.
-- The host is not such a header, and neither are the two keys for an order.
pub redirect_http1_layout-drops :
    (order_key pseudo_key : Text) (http1 original current : Layout) (host name : Text)
    → header_layout_key order_key pseudo_key (to_lower name) ≡ false
    → text_eq (to_lower name) (codes "host") ≡ false
    → carries (to_lower name) original ≡ true
    → carries (to_lower name) current ≡ false
    → carries
        (to_lower name)
        (redirect_http1_layout order_key pseudo_key http1 original current host)
      ≡ false
unfolding redirect_http1_layout keys AreLower contains
redirect_http1_layout-drops order_key pseudo_key http1 original current host name free mine had
      gone =
    let k = to_lower name in
    let low = to_lower_idem name in
    let before = header_values order_key pseudo_key original in
    let now = header_values order_key pseudo_key current in
    let off : contains k (keys now) ≡ false =
      contains-gathered order_key pseudo_key k free [] current ∙ gone in
    let there : contains k (sort text_leb (keys before)) ≡ true =
      contains-sort k (keys before)
      ∙ contains-gathered order_key pseudo_key k free [] original
      ∙ had in
    let left =
      follow-drops order_key pseudo_key k low free before now off http1
        (sort text_leb (keys before))
        (AreLower-sort (keys before) (AreLower-gathered order_key pseudo_key [] original tt)) mine
        there in
    let out = follow order_key pseudo_key before now http1 (sort text_leb (keys before)) in
    set_header-absent order_key pseudo_key k low free
      (add_new order_key pseudo_key before now out (sort text_leb (keys now))) (codes "host")
      (host ∷ []) (not_host k mine)
      (add_new-absent order_key pseudo_key k low free before now off out (sort text_leb (keys now))
        (AreLower-sort (keys now) (AreLower-gathered order_key pseudo_key [] current tt))
        (contains-sort k (keys now) ∙ off) left)

-- ===== src/Profile/FromCapture/Grouping/Taken.antt =====
-- profile/fromcapture.go: the groups once one more header has been passed.
use tls_forge.Base.{
  true, false, not, ◌&&◌, List, [], ◌∷◌, ◌++◌, map, ◌≡◌, ◌⊎◌, inl, inr, refl, ap, sym, ◌∙◌, arith,
  if◌then◌else◌, Bool-cases, append-nil, Text, text_eq, text_eq_iff, text_eq_refl, codes, contains,
  to_lower,
}
use tls_forge.Base.Distinct.{Distinct}
use tls_forge.Capture.{HeaderField}
use tls_forge.Profile.FromCapture.{per_request, field_values, Groups, group_at, own_field, grouped}
use tls_forge.Profile.FromCapture.Kept.{measured_values}
use tls_forge.Base.Distinct.{contains-snoc, Distinct-snoc}
use tls_forge.Profile.FromCapture.Grouping.{
  value, lowers, is_met, or_nil, is_any, expected, Fits, grouped_at, grouped_order,
  measured_values-snoc, field_values-append, map-append_value, is_any-snoc, lowers-snoc,
}

-- A header that is passed over.
pub skipped :
    (g : Groups) (headers : List HeaderField) (h : HeaderField)
    → per_request (to_lower h.name) ≡ true
    → Fits g headers
    → Fits g (headers ++ h ∷ [])
skipped g headers h e fits =
    let same : (k : Text)
        → per_request k ≡ false
        → measured_values k (headers ++ h ∷ []) ≡ measured_values k headers =
      λ k own. elim (Bool-cases (text_eq (to_lower h.name) k)) [
        | inl here ↦ cc (ap per_request ((text_eq_iff (to_lower h.name) k).0 here))
        | inr other ↦
            measured_values-snoc k headers h ∙ rw other (append-nil (measured_values k headers))
      ] in
    record {
      held = λ k. elim (Bool-cases (per_request k)) [
        | inl dropped ↦ fits.held k ∙ rw dropped refl
        | inr own ↦ fits.held k ∙ rw (own, same k own) refl
      ];
      named = fits.named;
      met = fits.met;
      measured = λ k own. fits.measured k own ∙ ap is_any (sym (same k own));
      apart = fits.apart;
    }

own_values :
    (n wire v : Text)
    → map value (own_field n wire v) ≡ (if text_eq n (codes "host") then [] else v ∷ [])
unfolding own_field
own_values n wire v = ground arith

own_named :
    (k n wire v : Text)
    → to_lower wire ≡ n
    → field_values k (own_field n wire v)
      ≡ (if text_eq n k then map value (own_field n wire v) else [])
unfolding field_values own_field
own_named k n wire v e = ground arith

-- A name that is grouped is no name of a single request, or is that of the host.
abbrev pub Taken : Text → Type 0
Taken n =
    (text_eq n (codes "host") ≡ true) × (per_request n ≡ true)
    ⊎ (text_eq n (codes "host") ≡ false) × (per_request n ≡ false)

pub host_lem : per_request (codes "host") ≡ true
unfolding per_request contains text_eq
host_lem = refl

pub taken_lem : (n : Text) → per_request n && not (text_eq n (codes "host")) ≡ false → Taken n
taken_lem n e = elim (Bool-cases (text_eq n (codes "host"))) [
  | inl host ↦ inl (host, rw ((text_eq_iff n (codes "host")).0 host) host_lem)
  | inr other ↦ inr (other, ground arith)
]

held-Taken :
    (g : Groups) (headers : List HeaderField) (h : HeaderField) (wire k : Text)
    → Taken (to_lower h.name)
    → Fits g headers
    → map value (
        or_nil (
          group_at k
            (grouped g
              (to_lower h.name)
              wire
              h.value
              (group_at (to_lower h.name) g.fields)).fields))
      ≡ expected k (headers ++ h ∷ [])
held-Taken g headers h wire k taken fits =
    let n = to_lower h.name in
    elim (Bool-cases (text_eq n k)) [
      | inl here ↦
          let same = (text_eq_iff n k).0 here in
          elim taken [
            | inl (host, dropped) ↦
                rw
                  (
                    grouped_at,
                    here,
                    map-append_value,
                    own_values n wire h.value,
                    host,
                    fits.held n,
                    dropped,
                    ← same,
                    dropped,
                  )
                  refl
            | inr (other, own) ↦
                rw
                  (
                    grouped_at,
                    here,
                    map-append_value,
                    own_values n wire h.value,
                    other,
                    fits.held n,
                    own,
                    ← same,
                    own,
                    measured_values-snoc n headers h,
                    text_eq_refl n,
                  )
                  refl
          ]
      | inr other ↦
          rw
            (
              grouped_at,
              other,
              fits.held k,
              measured_values-snoc k headers h,
              other,
              append-nil (measured_values k headers),
            )
            refl
    ]

-- The groups once a header is put among them.
abbrev pub put_header : Groups → HeaderField → Text → Groups
put_header g h wire = grouped g (to_lower h.name) wire h.value (group_at (to_lower h.name) g.fields)

named-taken :
    (g : Groups) (headers : List HeaderField) (h : HeaderField) (wire k j : Text)
    → to_lower wire ≡ to_lower h.name
    → Fits g headers
    → field_values j (or_nil (group_at k (put_header g h wire).fields))
      ≡ (if text_eq k j then map value (or_nil (group_at k (put_header g h wire).fields)) else [])
named-taken g headers h wire k j e fits =
    let n = to_lower h.name in
    elim (Bool-cases (text_eq n k)) [
      | inl here ↦
          let same = (text_eq_iff n k).0 here in
          rw
            (
              grouped_at,
              here,
              field_values-append,
              map-append_value,
              fits.named n j,
              own_named j n wire h.value e,
              ← same,
            )
            (elim (Bool-cases (text_eq n j)) [ inl at ↦ rw at refl | inr off ↦ rw off refl ])
      | inr other ↦ rw (grouped_at, other) (fits.named k j)
    ]

met-taken :
    (g : Groups) (headers : List HeaderField) (h : HeaderField) (wire k : Text)
    → to_lower wire ≡ to_lower h.name
    → Fits g headers
    → is_met (group_at k (put_header g h wire).fields)
      ≡ contains k (lowers (put_header g h wire).order)
met-taken g headers h wire k e fits =
    let n = to_lower h.name in
    rw (grouped_at, grouped_order)
      (ground (
        arith,
        fits.met k,
        fits.met n,
        text_eq_iff n k,
        lowers-snoc g.order wire,
        contains-snoc k (lowers g.order) n,
      ))

measured-taken :
    (g : Groups) (headers : List HeaderField) (h : HeaderField) (wire k : Text)
    → per_request k ≡ false
    → Fits g headers
    → is_met (group_at k (put_header g h wire).fields)
      ≡ is_any (measured_values k (headers ++ h ∷ []))
measured-taken g headers h wire k own fits = elim (Bool-cases (text_eq (to_lower h.name) k)) [
  | inl here ↦
      rw (grouped_at, here, measured_values-snoc k headers h, here)
        (sym (is_any-snoc (measured_values k headers) h.value))
  | inr other ↦
      rw
        (
          grouped_at,
          other,
          measured_values-snoc k headers h,
          other,
          append-nil (measured_values k headers),
        )
        (fits.measured k own)
]

apart-taken :
    (g : Groups) (headers : List HeaderField) (h : HeaderField) (wire : Text)
    → to_lower wire ≡ to_lower h.name
    → Fits g headers
    → Distinct (lowers (put_header g h wire).order)
apart-taken g headers h wire e fits =
    elim (Bool-cases (is_met (group_at (to_lower h.name) g.fields))) [
      | inl old ↦ rw (grouped_order, old) fits.apart
      | inr new ↦
          rw (grouped_order, new, lowers-snoc g.order wire, e)
            (Distinct-snoc (lowers g.order) (to_lower h.name)
              (sym (fits.met (to_lower h.name)) ∙ new) fits.apart)
    ]

pub Taken-Fits :
    (g : Groups) (headers : List HeaderField) (h : HeaderField) (wire : Text)
    → to_lower wire ≡ to_lower h.name
    → Taken (to_lower h.name)
    → Fits g headers
    → Fits (put_header g h wire) (headers ++ h ∷ [])
Taken-Fits g headers h wire e taken fits = record {
  held = λ k. held-Taken g headers h wire k taken fits;
  named = λ k j. named-taken g headers h wire k j e fits;
  met = λ k. met-taken g headers h wire k e fits;
  measured = λ k own. measured-taken g headers h wire k own fits;
  apart = apart-taken g headers h wire e fits;
}

-- ===== src/Profile/FromCapture/Block.antt =====
-- profile/fromcapture.go: the values of a measured HTTP/1.1 request that a profile's block has.
use tls_forge.Base.{
  Bool, true, false, ◌||◌, List, [], ◌∷◌, ◌++◌, map, Option, none, some, ◌≡◌, ◌⊎◌, inl, inr, refl,
  ap, sym, ◌∙◌, arith, if◌then◌else◌, Bool-cases, Option-cases, Text, text_eq, text_eq_iff,
  text_eq_refl, append-nil, contains, to_lower, All,
}
use tls_forge.Base.Distinct.{off-contains, Distinct}
use tls_forge.Capture.{HeaderField}
use tls_forge.Capture as Capture_
use tls_forge.Header.{Field}
use tls_forge.Profile.{Http1}
use tls_forge.Profile.FromCapture.{
  per_request, field_values, same_field_values, Groups, group_at, group_loop, own_headers,
  block_with, block_of, unless_empty, http1_from_capture,
}
use tls_forge.Profile.FromCapture.Kept.{measured_values}
use tls_forge.Profile.FromCapture.Grouping.Request.{request-Fits}
use tls_forge.Profile.FromCapture.Grouping.{
  value, lowers, is_met, is_any, or_nil, expected, Spells, Fits, no_groups, field_values-append,
}

same_field_values-same :
    (fs : List Field) (vs : List Text) → same_field_values fs vs ≡ true → map value fs ≡ vs
unfolding same_field_values
same_field_values-same [] [] e = refl
same_field_values-same [] (v ∷ vs) e = cc
same_field_values-same (f ∷ fs) [] e = cc
same_field_values-same (f ∷ fs) (v ∷ vs) e = elim (Bool-cases (text_eq f.value v)) [
  | inl here ↦
      ap (λ (w : Text). w ∷ map value fs) ((text_eq_iff f.value v).0 here)
      ∙ ap (λ (ws : List Text). v ∷ ws) (same_field_values-same fs vs (rw here at e))
  | inr other ↦ cc (rw other at e)
]

-- What a block has of a name that is in its order.
abbrev own_of : Groups → List Field → Text → List Text
own_of g shared k =
    if same_field_values (or_nil (group_at k g.fields)) (field_values k shared)
    then []
    else map value (or_nil (group_at k g.fields))

no_more : (b : Bool) (vs : List Text) → vs ≡ (if b then [] else []) ++ vs
no_more true vs = refl
no_more false vs = refl

field_values-nil : (k : Text) → field_values k [] ≡ []
unfolding field_values
field_values-nil k = refl

-- The values of one name, in front of those of other names.
pub in_front :
    (n k : Text) (ns : List Text) (a : List Text) (values : Text → List Text)
    → values n ≡ a
    → contains n ns ≡ false
    → (if text_eq n k then a else []) ++ (if contains k ns then values k else [])
      ≡ (if text_eq n k || contains k ns then values k else [])
in_front n k ns a values e off = elim (Bool-cases (text_eq n k)) [
  | inl here ↦ let same = (text_eq_iff n k).0 here in rw (here, ← same, off, e) (append-nil a)
  | inr other ↦ rw other refl
]

own_headers-cons :
    (g : Groups) (shared fs : List Field) (wire : Text) (order : List Text)
    → group_at (to_lower wire) g.fields ≡ some fs
    → own_headers g shared (wire ∷ order) ≡ (
        if same_field_values fs (field_values (to_lower wire) shared)
        then own_headers g shared order
        else Capture_.option_map (λ (own : List Field). fs ++ own) (own_headers g shared order))
unfolding own_headers
own_headers-cons g shared fs wire order found = rw found refl

own_headers-nil : (g : Groups) (shared : List Field) → own_headers g shared [] ≡ some []
unfolding own_headers
own_headers-nil g shared = refl

own_headers-values :
    (g : Groups) (headers : List HeaderField) (shared : List Field) (order : List Text)
    → Fits g headers
    → Distinct (lowers order)
    → All (λ n. is_met (group_at n g.fields) ≡ true) (lowers order)
    → (own : List Field) × ((own_headers g shared order ≡ some own)
        × ((k : Text)
            → field_values k own ≡ (if contains k (lowers order) then own_of g shared k else [])))
unfolding contains
own_headers-values g headers shared [] fits apart met =
    ([], (own_headers-nil g shared, field_values-nil))
own_headers-values g headers shared (wire ∷ order) fits (off, apart) (here, met) =
    let (own, (e, values)) = own_headers-values g headers shared order fits apart met in
    let n = to_lower wire in
    elim (Option-cases (group_at n g.fields)) [
      | inl missing ↦ cc (rw missing at here)
      | inr (fs, found) ↦
          let named : (k : Text) → field_values k fs ≡ (if text_eq n k then map value fs else []) =
            λ k.
              sym (ap (λ (o : Option (List Field)). field_values k (or_nil o)) found)
              ∙ fits.named n k
              ∙ ap (λ (o : Option (List Field)). if text_eq n k then map value (or_nil o) else [])
                  found in
          let own_n : own_of g shared n
              ≡ (if same_field_values fs (field_values n shared) then [] else map value fs) =
            ap
              (λ (o : Option (List Field)).
                if same_field_values (or_nil o) (field_values n shared)
                then []
                else map value (or_nil o))
              found in
          elim (Bool-cases (same_field_values fs (field_values n shared))) [
            | inl same ↦ (
              own,
              (
                own_headers-cons g shared fs wire order found ∙ rw same e,
                λ k.
                    values k
                    ∙ no_more (text_eq n k)
                        (if contains k (lowers order) then own_of g shared k else [])
                    ∙ in_front n k (lowers order) [] (own_of g shared) (own_n ∙ rw same refl)
                        (off-contains n (lowers order) off),
              ),
            )
            | inr different ↦ (
              fs ++ own,
              (
                own_headers-cons g shared fs wire order found ∙ rw (different, e) refl,
                λ k.
                    rw (field_values-append, named k, values k)
                      (in_front n k (lowers order) (map value fs) (own_of g shared)
                        (own_n ∙ rw different refl) (off-contains n (lowers order) off)),
              ),
            )
          ]
    ]

met-All :
    (p : Text → Bool) (ns : List Text)
    → ((n : Text) → contains n ns ≡ true → p n ≡ true)
    → All (λ n. p n ≡ true) ns
unfolding contains
met-All p [] h = tt
met-All p (n ∷ ns) h =
    (h n (ground (arith, text_eq_refl n)), met-All p ns (λ k there. h k (ground arith)))

-- The block of a request, by what it has of each name.
pub record IsBlock (headers : List HeaderField) (shared : List Field) (b : Http1) : Type 0 where
  pub apart : Distinct (lowers b.header_order)
  pub listed :
      (k : Text)
      → per_request k ≡ false
      → contains k (lowers b.header_order) ≡ is_any (measured_values k headers)
  pub own :
      (k : Text)
      → (field_values k b.headers ≡ [])
          × (contains k (lowers b.header_order) ≡ true → field_values k shared ≡ expected k headers)
        ⊎ (field_values k b.headers ≡ expected k headers)

-- The values of a block of its own are the request's, and where it has none the shared ones are.
own_lem :
    (g : Groups) (headers : List HeaderField) (shared own : List Field) (k : Text)
    → Fits g headers
    → field_values k own ≡ (if contains k (lowers g.order) then own_of g shared k else [])
    → (field_values k own ≡ [])
        × (contains k (lowers g.order) ≡ true → field_values k shared ≡ expected k headers)
      ⊎ (field_values k own ≡ expected k headers)
own_lem g headers shared own k fits values = elim (Bool-cases (contains k (lowers g.order))) [
  | inl there ↦
      elim (Bool-cases (same_field_values (or_nil (group_at k g.fields)) (field_values k shared))) [
        | inl same ↦ inl (
          values ∙ rw (there, same) refl,
          λ _.
              sym
                (same_field_values-same (or_nil (group_at k g.fields)) (field_values k shared) same)
              ∙ fits.held k,
        )
        | inr different ↦ inr (values ∙ rw (there, different) (fits.held k))
      ]
  | inr absent ↦ inl (values ∙ rw absent refl, λ there. cc)
]

block_with-some :
    (order : List Text) (own : List Field)
    → (block_with order (some own) ≡ some none) × (order ≡ [])
      ⊎ (block_with order (some own) ≡ some (some (record { header_order = order; headers = own })))
block_with-some [] own = inl (refl, refl)
block_with-some (wire ∷ order) own = inr refl

-- What `http1FromCapture` makes of a measured request: no block, or one that has its values.
abbrev pub IsMade : List HeaderField → List Field → Option (Option Http1) → Type 0
IsMade headers shared made =
    (made ≡ some none) × ((k : Text) → expected k headers ≡ [])
    ⊎ ((b : Http1) × ((made ≡ some (some b)) × IsBlock headers shared b))

pub none_of : (vs : List Text) → is_any vs ≡ false → vs ≡ []
none_of [] e = refl
none_of (v ∷ vs) e = cc

nothing_kept :
    (g : Groups) (headers : List HeaderField)
    → g.order ≡ []
    → Fits g headers
    → (k : Text) → expected k headers ≡ []
unfolding contains
nothing_kept g headers empty fits k = elim (Bool-cases (per_request k)) [
  | inl dropped ↦ rw dropped refl
  | inr kept ↦ rw kept (
      none_of (measured_values k headers)
        (sym (fits.measured k kept) ∙ fits.met k ∙ ap (λ ns. contains k (lowers ns)) empty))
]

nothing_expected : (k : Text) → expected k [] ≡ []
unfolding measured_values
nothing_expected k = elim (Bool-cases (per_request k)) [ inl e ↦ rw e refl | inr e ↦ rw e refl ]

block_of-IsMade :
    (g : Groups) (headers : List HeaderField) (shared : List Field)
    → Fits g headers
    → IsMade headers shared (block_of g shared)
block_of-IsMade g headers shared fits =
    let (own, (e, values)) = own_headers-values g headers shared g.order fits fits.apart (
      met-All (λ n. is_met (group_at n g.fields)) (lowers g.order)
        (λ n there. fits.met n ∙ there)) in
    let made = ap (block_with g.order) e in
    elim (block_with-some g.order own) [
      | inl (nothing, empty) ↦ inl (made ∙ nothing, nothing_kept g headers empty fits)
      | inr some_block ↦ inr (
        record { header_order = g.order; headers = own },
        (
          made ∙ some_block,
          record {
            apart = fits.apart;
            listed = λ k kept. sym (fits.met k) ∙ fits.measured k kept;
            own = λ k. own_lem g headers shared own k fits (values k);
          },
        ),
      )
    ]

unless_empty-IsMade :
    (headers : List HeaderField) (shared : List Field) (made : Option (Option Http1))
    → IsMade headers shared made
    → IsMade headers shared (unless_empty headers made)
unless_empty-IsMade [] shared made h = inl (refl, nothing_expected)
unless_empty-IsMade (f ∷ headers) shared made h = h

pub http1_from_capture-IsMade :
    (h : Capture_.Http1) (shared : List Field)
    → Spells h.headers h.header_names
    → IsMade h.headers shared (http1_from_capture (some h) shared)
unfolding http1_from_capture
http1_from_capture-IsMade h shared spells =
    unless_empty-IsMade h.headers shared
      (block_of (group_loop no_groups h.headers h.header_names) shared)
      (block_of-IsMade (group_loop no_groups h.headers h.header_names) h.headers shared
        (request-Fits h.headers h.header_names spells))

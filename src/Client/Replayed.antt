-- ===== src/Client/Replayed.antt =====
-- client.go and profile/fromcapture.go: the values of a measured HTTP/1.1 request, on the way
-- through a profile to a client.
use tls_forge.Base.{
  if_both, Bool, true, false, ◌||◌, List, [], ◌∷◌, ◌++◌, map, Option, none, some, ◌≡◌, ◌⊎◌, inl,
  inr, refl, ap, sym, ◌∙◌, arith, if◌then◌else◌, Bool-cases, Text, text_eq, text_eq_iff, codes,
  contains, to_lower, to_lower_idem, equal_fold, has_prefix,
}
use tls_forge.Base.Distinct.{off-contains, Distinct}
use tls_forge.Capture as Capture_
use tls_forge.Header.{Header, field, merge, values, has}
use tls_forge.Header.Lookup.{values_at, has_key, values-values_at, has-has_key, values_at-append}
use tls_forge.Header.Merge.Values.{values-merge}
use tls_forge.Profile.{Http1}
use tls_forge.Profile.FromCapture.{per_request, field_values, kept_headers, http1_from_capture}
use tls_forge.Profile.FromCapture.Kept.{measured_values, field_values-kept_headers}
use tls_forge.Profile.FromCapture.Grouping.{lowers, is_any, expected, Spells}
use tls_forge.Profile.FromCapture.Grouping.Taken.{host_lem}
use tls_forge.Profile.FromCapture.Block.{IsBlock, http1_from_capture-IsMade, none_of, in_front}
use tls_forge.Client.{resolved_loop, profile_http1_headers}

field_values-values_at : (k : Text) (h : Header) → field_values k h ≡ values_at k h
unfolding field_values values_at
field_values-values_at k [] = refl
field_values-values_at k (f ∷ h) = ground (arith, field_values-values_at k h)

values_at-fields :
    (k n : Text) (vs : List Text)
    → to_lower n ≡ n
    → values_at k (map (field n) vs) ≡ (if text_eq n k then vs else [])
unfolding values_at
values_at-fields k n [] e = elim (Bool-cases (text_eq n k)) [
  | inl h ↦ rw h refl
  | inr h ↦ rw h refl
]
values_at-fields k n (v ∷ vs) e = ground (arith, e, values_at-fields k n vs e)

-- What the loop has of a name: the values, unless the name is the host's or not in the order.
abbrev sent : Header → Text → List Text
sent resolved k = if text_eq k (codes "host") then [] else values_at k resolved

fold_host : (wire : Text) → equal_fold wire (codes "host") ≡ text_eq (to_lower wire) (codes "host")
unfolding equal_fold to_lower
fold_host wire = refl

values_at-nil : (k : Text) → values_at k [] ≡ []
unfolding values_at
values_at-nil k = refl

kept_name :
    (resolved : Header) (k wire : Text)
    → values_at k (map (field (to_lower wire)) (values resolved wire))
      ≡ (if text_eq (to_lower wire) k then values_at (to_lower wire) resolved else [])
kept_name resolved k wire =
    values_at-fields k (to_lower wire) (values resolved wire) (to_lower_idem wire)
    ∙ rw (values-values_at resolved wire) refl

resolved_loop-sent :
    (resolved : Header) (order : List Text) (k : Text)
    → Distinct (lowers order)
    → values_at k (resolved_loop resolved order)
      ≡ (if contains k (lowers order) then sent resolved k else [])
unfolding resolved_loop contains
resolved_loop-sent resolved [] k apart = values_at-nil k
resolved_loop-sent resolved (wire ∷ order) k (off, apart) =
    let n = to_lower wire in
    let rest = resolved_loop-sent resolved order k apart in
    let front = λ (a : List Text) (e : sent resolved n ≡ a).
      in_front n k (lowers order) a (sent resolved) e (off-contains n (lowers order) off) in
    elim (Bool-cases (text_eq n (codes "host"))) [
      | inl host ↦ rw (fold_host wire ∙ host) (
          rest
          ∙ ap (λ vs. vs ++ (if contains k (lowers order) then sent resolved k else []))
              (if_both (text_eq n k) [])
          ∙ front [] (rw host refl))
      | inr other ↦
          rw (fold_host wire ∙ other, values_at-append, kept_name resolved k wire, rest)
            (front (values_at n resolved) (rw other refl))
    ]

merged_at :
    (shared own : Header) (k : Text)
    → to_lower k ≡ k
    → values_at k (merge shared own)
      ≡ (if has_key k own then values_at k own else values_at k shared)
merged_at shared own k e =
    let at : (h : Header) → values h k ≡ values_at k h =
      λ h. values-values_at h k ∙ ap (λ j. values_at j h) e in
    let has_at : has own k ≡ has_key k own = has-has_key own k ∙ ap (λ j. has_key j own) e in
    sym (at (merge shared own)) ∙ values-merge shared own k ∙ rw (has_at, at own, at shared) refl

is_any-values_at : (k : Text) (h : Header) → is_any (values_at k h) ≡ has_key k h
unfolding values_at has_key
is_any-values_at k [] = refl
is_any-values_at k (f ∷ h) = elim (Bool-cases (text_eq (to_lower f.name) k)) [
  | inl here ↦ rw here refl
  | inr other ↦ rw other (is_any-values_at k h)
]

-- Overrides that are empty or the values wanted, over a base that then has them.
either :
    (shared own : Header) (k : Text) (vs : List Text)
    → to_lower k ≡ k
    → (values_at k own ≡ []) × (values_at k shared ≡ vs)
      ⊎ (values_at k own ≡ vs) × (is_any vs ≡ true)
    → values_at k (merge shared own) ≡ vs
either shared own k vs low (inl (empty, same)) =
    merged_at shared own k low ∙ rw (sym (is_any-values_at k own) ∙ ap is_any empty) same
either shared own k vs low (inr (same, any)) =
    merged_at shared own k low ∙ rw (sym (is_any-values_at k own) ∙ ap is_any same ∙ any) same

-- What the shared headers are built of has no header of a single request.
Clean : Header → Type 0
Clean shared = (k : Text) → per_request k ≡ true → values_at k shared ≡ []

kept_headers-Clean : (headers : List Capture_.HeaderField) → Clean (kept_headers headers)
unfolding Clean
kept_headers-Clean headers k dropped =
    sym (field_values-values_at k (kept_headers headers))
    ∙ field_values-kept_headers k headers
    ∙ rw (either_true (has_prefix k (codes ":")) (per_request k) dropped) refl
  where
    either_true : (a b : Bool) → b ≡ true → a || b ≡ true
    either_true a b e = ground arith

host_sent :
    (resolved : Header) (k : Text) → per_request k ≡ false → sent resolved k ≡ values_at k resolved
host_sent resolved k kept = elim (Bool-cases (text_eq k (codes "host"))) [
  | inl host ↦ cc (ap per_request ((text_eq_iff k (codes "host")).0 host), host_lem)
  | inr other ↦ rw other refl
]

nothing_sent : (resolved : Header) (k : Text) → values_at k resolved ≡ [] → sent resolved k ≡ []
nothing_sent resolved k e = rw e (sym (if_both (text_eq k (codes "host")) []))

sent-IsBlock :
    (headers : List Capture_.HeaderField) (shared : Header) (b : Http1) (k : Text)
    → Clean shared
    → IsBlock headers shared b
    → to_lower k ≡ k
    → (if contains k (lowers b.header_order) then sent (merge shared b.headers) k else [])
      ≡ expected k headers
unfolding Clean
sent-IsBlock headers shared b k clean is_block low =
    let at : (h : Header) → field_values k h ≡ values_at k h = field_values-values_at k in
    elim (Bool-cases (per_request k)) [
      | inl dropped ↦
          let own : values_at k b.headers ≡ [] = elim (is_block.own k) [
            | inl (empty, _) ↦ sym (at b.headers) ∙ empty
            | inr same ↦ sym (at b.headers) ∙ same ∙ rw dropped refl
          ] in
          rw
            (
              nothing_sent (merge shared b.headers) k
                  (either shared b.headers k [] low (inl (own, clean k dropped))),
              dropped,
            )
            (sym (if_both (contains k (lowers b.header_order)) []))
      | inr kept ↦ elim (Bool-cases (contains k (lowers b.header_order))) [
        | inl there ↦
            let any : is_any (measured_values k headers) ≡ true =
              sym (is_block.listed k kept) ∙ there in
            rw (there, host_sent (merge shared b.headers) k kept)
              (either shared b.headers k (expected k headers) low (elim (is_block.own k) [
                | inl (empty, same) ↦ inl (sym (at b.headers) ∙ empty, sym (at shared) ∙ same there)
                | inr same ↦ inr (sym (at b.headers) ∙ same, rw kept any)
              ]))
        | inr absent ↦
            rw (absent, kept)
              (sym (none_of (measured_values k headers) (sym (is_block.listed k kept) ∙ absent)))
      ]
    ]

-- What a client sends over HTTP/1.1 for a name, with the shared headers of an HTTP/2 request.
pub Replays : Capture_.Http1 → List Capture_.HeaderField → Option (Option Http1) → Type 0
Replays h shared made =
    (made ≡ some none) × ((k : Text) → expected k h.headers ≡ [])
    ⊎ ((b : Http1) × ((made ≡ some (some b))
          × ((name : Text)
              → values (profile_http1_headers (kept_headers shared) (some b)) name
                ≡ expected (to_lower name) h.headers)))

-- A measured HTTP/1.1 request whose spellings are those of its headers is made into a block of
-- the profile, and a client of that profile then has for every name, in any case, exactly the
-- values that the request had for it, in order, but none for a name that describes one request.
-- There is no block only if the request has no other name.
pub http1_from_capture-Replays :
    (h : Capture_.Http1) (shared : List Capture_.HeaderField)
    → Spells h.headers h.header_names
    → Replays h shared (http1_from_capture (some h) (kept_headers shared))
unfolding Replays
http1_from_capture-Replays h shared spells =
    elim (http1_from_capture-IsMade h (kept_headers shared) spells) [
      | inl nothing_made ↦ inl nothing_made
      | inr (b, (made, is_block)) ↦ inr (
        b,
        (
          made,
          λ name.
              values-values_at (profile_http1_headers (kept_headers shared) (some b)) name
              ∙ resolved_loop-sent (merge (kept_headers shared) b.headers) b.header_order
                  (to_lower name) is_block.apart
              ∙ sent-IsBlock h.headers (kept_headers shared) b (to_lower name)
                  (kept_headers-Clean shared) is_block (to_lower_idem name),
        ),
      )
    ]

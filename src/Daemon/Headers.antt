-- ===== src/Daemon/Headers.antt =====
-- `orderedHeaders` from the request's map to the header list.
use tls_forge.Base.{
  [], ◌∷◌, ◌++◌, Option, none, some, ◌≡◌, ◌⊎◌, inl, inr, refl, ap, sym, ◌∙◌, if◌then◌else◌,
  Bool-cases, Option-cases, Text, text_eq, to_lower, to_lower_idem, AreLower,
}
use tls_forge.Header.{Header, values}
use tls_forge.Header.Lookup.{values-values_at}
use tls_forge.Daemon.{Request, Failure, Result, ok, err}
use tls_forge.Daemon.HeaderMap.{
  Entries, entry, keys_of, lower_entries, order_of, arranged, ordered_headers,
}
use tls_forge.Daemon.Order.{listed, values_at-arranged}

-- The value that the request has for a name in lower case.
pub named : Text → Entries → Option Text
named k [] = none
named k ((name, v) ∷ headers) = if text_eq (to_lower name) k then some v else named k headers

-- No two names are the same but for case.
abbrev pub DistinctNames : Entries → Type 0
DistinctNames [] = Unit
DistinctNames ((name, v) ∷ headers) = (named (to_lower name) headers ≡ none) × DistinctNames headers

abbrev or_else : Option Text → Option Text → Option Text
or_else none b = b
or_else (some v) b = some v

entry-append :
    (k n v : Text) (m : Entries)
    → entry k (m ++ (n, v) ∷ []) ≡ or_else (entry k m) (if text_eq n k then some v else none)
unfolding entry
entry-append k n v [] = elim (Bool-cases (text_eq n k)) [
  | inl same ↦ rw same refl
  | inr other ↦ rw other refl
]
entry-append k n v ((j, w) ∷ m) = elim (Bool-cases (text_eq j k)) [
  | inl same ↦ rw same refl
  | inr other ↦ rw other (entry-append k n v m)
]

AreLower-append :
    (n v : Text) (m : Entries)
    → to_lower n ≡ n
    → AreLower (keys_of m)
    → AreLower (keys_of (m ++ (n, v) ∷ []))
unfolding AreLower keys_of
AreLower-append n v [] low lower = (low, tt)
AreLower-append n v ((j, w) ∷ m) low (first, lower) = (first, AreLower-append n v m low lower)

or_else-none : (a : Option Text) → or_else a none ≡ a
or_else-none none = refl
or_else-none (some v) = refl

or_else-chosen :
    (k n v : Text) (a rest : Option Text)
    → or_else (or_else a (if text_eq n k then some v else none)) rest
      ≡ or_else a (if text_eq n k then some v else rest)
or_else-chosen k n v (some w) rest = refl
or_else-chosen k n v none rest = elim (Bool-cases (text_eq n k)) [
  | inl same ↦ rw same refl
  | inr other ↦ rw other refl
]

entry-lower_entries :
    (m headers lower : Entries)
    → AreLower (keys_of m)
    → lower_entries m headers ≡ ok lower
    → AreLower (keys_of lower)
      × ((k : Text) → entry k lower ≡ or_else (entry k m) (named k headers))
unfolding lower_entries named
entry-lower_entries m [] lower low e =
    let same : m ≡ lower = cc in
    (rw (← same) low, (λ k. rw (← same) (sym (or_else-none (entry k m)))))
entry-lower_entries m ((name, v) ∷ headers) lower low e =
    let n = to_lower name in
    elim (Option-cases (entry n m)) [
      | inl new ↦
          let more = m ++ (n, v) ∷ [] in
          let (low_rest, rest) =
            entry-lower_entries more headers lower (AreLower-append n v m (to_lower_idem name) low)
              (rw new at e) in
          (
            low_rest,
            (λ k.
                rest k
                ∙ ap (λ a. or_else a (named k headers)) (entry-append k n v m)
                ∙ or_else-chosen k n v (entry k m) (named k headers)),
          )
      | inr (w, there) ↦ cc (rw there at e)
    ]

checked : (r : Result Entries) → ((m : Entries) × (r ≡ ok m)) ⊎ ((f : Failure) × (r ≡ err f))
checked (ok m) = inl (m, refl)
checked (err f) = inr (f, refl)

any_entries : (m : Entries) → (m ≡ []) ⊎ ((e : Text × Text) × (more : Entries) × (m ≡ e ∷ more))
any_entries [] = inl refl
any_entries (e ∷ more) = inr (e, more, refl)

-- The list that the headers of a request are made into, if they are accepted, has for each name, in
-- any case, exactly the value that the request has for it, and no other name, whatever order is
-- asked for. The headers that the profile adds when the request is sent are not in this list.
pub values-ordered_headers :
    (req : Request) (profile h : Header) (n : Text)
    → ordered_headers req profile ≡ ok h
    → values h n ≡ listed (named (to_lower n) req.headers)
unfolding ordered_headers
values-ordered_headers req profile h n e = elim (any_entries req.headers) [
  | inl none_given ↦
      let same : [] ≡ h = cc (rw none_given at e) in
      rw (none_given, ← same) (unfold values named in refl)
  | inr (x, more, given) ↦ elim (checked (lower_entries [] req.headers)) [
    | inl (lower, good) ↦
        let same : arranged (order_of req.order profile) lower ≡ h =
          cc (rw (given, rw given at good) at e) in
        let (low, entries) =
          entry-lower_entries [] req.headers lower (unfold AreLower keys_of in tt) good in
        rw (← same, values-values_at (arranged (order_of req.order profile) lower) n)
          (values_at-arranged (to_lower n) (order_of req.order profile) lower low
            ∙ ap listed (entries (to_lower n)))
    | inr (f, bad) ↦ cc (rw (given, rw given at bad) at e)
  ]
]

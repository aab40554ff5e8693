-- ===== src/Proxy/Shuffled.antt =====
-- proxy/proxy.go: `mergeHeaders` under another order of its map.
use mathlib.Core.List.{Permᴰ}
use mathlib.Core.List.Permᴰ
use tls_forge.Base.{
  List, [], ◌∷◌, ◌++◌, ◌≡◌, inl, inr, refl, ap, sym, ◌∙◌, arith, if◌then◌else◌, Bool-cases, Text,
  text_eq, text_eq_iff, to_lower, sort, text_leb, text_leb-TotalOrder, sort-perm, length, keep_if,
  keep_if-perm, perm-short, ◌≤◌,
}
use tls_forge.Header.{Header, has}
use tls_forge.Proxy.{
  Incoming, at_key, canonical_key, incoming_values, is_dropped, extras_of, add_extras, add_values,
  merge_headers,
}

abbrev pub of_key : Text → Incoming → Incoming
of_key k incoming = keep_if (λ (e : Text × List Text). text_eq (e.0) k) incoming

-- No key stands in the list twice.
abbrev pub DistinctKeys : Incoming → Type 0
DistinctKeys [] = Unit
DistinctKeys ((name, vs) ∷ incoming) = (of_key name incoming ≡ []) × DistinctKeys incoming

abbrev first_values : Incoming → List Text
first_values [] = []
first_values ((name, vs) ∷ incoming) = vs

at_key-of_key :
    (k : Text) (incoming : Incoming) → at_key k incoming ≡ first_values (of_key k incoming)
unfolding at_key
at_key-of_key k [] = refl
at_key-of_key k ((name, vs) ∷ incoming) = elim (Bool-cases (text_eq name k)) [
  | inl same ↦ rw same refl
  | inr other ↦ rw other (at_key-of_key k incoming)
]

length-of_key :
    (k : Text) (incoming : Incoming) → DistinctKeys incoming → length (of_key k incoming) ≤ 1
length-of_key k [] d = omega arith
length-of_key k ((name, vs) ∷ incoming) (once, d) = elim (Bool-cases (text_eq name k)) [
  | inl same ↦ rw same (rw (rw ((text_eq_iff name k).0 same) at once) (omega arith))
  | inr other ↦ rw other (length-of_key k incoming d)
]

incoming_values-perm :
    {a b : Incoming} (name : Text)
    → Permᴰ a b
    → DistinctKeys a
    → incoming_values a name ≡ incoming_values b name
unfolding incoming_values
incoming_values-perm {a} {b} name p d =
    let k = canonical_key name in
    let same =
      perm-short (keep_if-perm (λ (e : Text × List Text). text_eq (e.0) k) p)
        (length-of_key k a d) in
    at_key-of_key k a ∙ ap first_values same ∙ sym (at_key-of_key k b)

extra_of : Header → Text × List Text → List Text
extra_of out (name, vs) =
    if is_dropped (to_lower name)
    then []
    else if has out (to_lower name)
    then []
    else to_lower name ∷ []

extras_of-cons :
    (out : Header) (e : Text × List Text) (incoming : Incoming)
    → extras_of out (e ∷ incoming) ≡ extra_of out e ++ extras_of out incoming
unfolding extras_of extra_of
extras_of-cons out (name, vs) incoming = elim (Bool-cases (is_dropped (to_lower name))) [
  | inl dropped ↦ rw dropped refl
  | inr kept ↦ elim (Bool-cases (has out (to_lower name))) [
    | inl there ↦ rw (kept, there) refl
    | inr new ↦ rw (kept, new) refl
  ]
]

exchange : (u v l : List Text) → Permᴰ (u ++ (v ++ l)) (v ++ (u ++ l))
exchange [] v l = Permᴰ.refl (v ++ l)
exchange (x ∷ u) v l =
    Permᴰ.trans (Permᴰ.cons refl (exchange u v l)) (Permᴰ.symm (Permᴰ.middle x v (u ++ l)))

extras_of-perm :
    (out : Header) {a b : Incoming} → Permᴰ a b → Permᴰ (extras_of out a) (extras_of out b)
extras_of-perm out Permᴰ.nil = Permᴰ.refl (extras_of out [])
extras_of-perm out (Permᴰ.cons {a} {b} {l₁} {l₂} same p) =
    rw (same, extras_of-cons out b l₁, extras_of-cons out b l₂)
      (Permᴰ.append_left (extra_of out b) (extras_of-perm out p))
extras_of-perm out (Permᴰ.swap {a} {b} {l} same_a same_b) =
    rw
      (
        ← same_a,
        ← same_b,
        extras_of-cons out a (b ∷ l),
        extras_of-cons out b l,
        extras_of-cons out b (a ∷ l),
        extras_of-cons out a l,
      )
      (exchange (extra_of out a) (extra_of out b) (extras_of out l))
extras_of-perm out (Permᴰ.trans p q) = Permᴰ.trans (extras_of-perm out p) (extras_of-perm out q)

add_extras-same :
    (a b : Incoming) (out : Header) (names : List Text)
    → ((n : Text) → incoming_values a n ≡ incoming_values b n)
    → add_extras a out names ≡ add_extras b out names
unfolding add_extras
add_extras-same a b out [] same = refl
add_extras-same a b out (n ∷ names) same =
    rw (same n) (add_extras-same a b (add_values out n (incoming_values b n)) names same)

-- However the map of the incoming headers is gone through, the request goes on with the same
-- headers in the same order. A map has no key twice.
pub merge_headers-perm :
    (profile : Header) {a b : Incoming}
    → Permᴰ a b
    → DistinctKeys a
    → merge_headers profile a ≡ merge_headers profile b
unfolding merge_headers
merge_headers-perm profile {a} {b} p d =
    add_extras-same a b profile (sort text_leb (extras_of profile a))
      (λ n. incoming_values-perm n p d)
    ∙ ap (add_extras b profile) (sort-perm text_leb text_leb-TotalOrder (extras_of-perm profile p))

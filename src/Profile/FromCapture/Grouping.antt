-- ===== src/Profile/FromCapture/Grouping.antt =====
-- profile/fromcapture.go: what the loop over a measured HTTP/1.1 request has grouped.
pub mod Taken
pub mod Request
use tls_forge.Base.{
  Bool, true, false, not, ◌||◌, ◌&&◌, List, [], ◌∷◌, ◌++◌, map, Option, none, some, ◌≡◌, ◌⊎◌, inl,
  inr, refl, ap, sym, ◌∙◌, arith, if◌then◌else◌, Bool-cases, Option-cases, append-nil, append_assoc,
  Text, text_eq, text_eq_iff, text_eq_refl, codes, contains, to_lower, All-append,
}
use tls_forge.Base.Distinct.{Distinct}
use tls_forge.Capture.{HeaderField, wire_name, tail}
use tls_forge.Header.{Field}
use tls_forge.Profile.FromCapture.{
  per_request, field_values, Groups, group_at, put_group, own_field, grouped, group_loop,
}
use tls_forge.Profile.FromCapture.Kept.{measured_values}

abbrev pub value : Field → Text
value f = f.value

abbrev pub lowers : List Text → List Text
lowers = map to_lower

abbrev pub is_met : Option (List Field) → Bool
is_met none = false
is_met (some fs) = true

abbrev pub or_nil : Option (List Field) → List Field
or_nil none = []
or_nil (some fs) = fs

abbrev pub is_any : List Text → Bool
is_any [] = false
is_any (v ∷ vs) = true

-- What the block is to have of a name.
abbrev pub expected : Text → List HeaderField → List Text
expected k headers = if per_request k then [] else measured_values k headers

-- The names that the wire spelled are the headers' names, up to their case.
abbrev pub Spells : List HeaderField → List Text → Type 0
Spells [] names = Unit
Spells (h ∷ headers) names =
    (to_lower (wire_name h.name names) ≡ to_lower h.name) × Spells headers (tail names)

-- What holds of the groups once `headers` have been passed.
pub record Fits (g : Groups) (headers : List HeaderField) : Type 0 where
  pub held : (k : Text) → map value (or_nil (group_at k g.fields)) ≡ expected k headers
  pub named :
      (k j : Text)
      → field_values j (or_nil (group_at k g.fields))
        ≡ (if text_eq k j then map value (or_nil (group_at k g.fields)) else [])
  pub met : (k : Text) → is_met (group_at k g.fields) ≡ contains k (lowers g.order)
  pub measured :
      (k : Text)
      → per_request k ≡ false
      → is_met (group_at k g.fields) ≡ is_any (measured_values k headers)
  pub apart : Distinct (lowers g.order)

group_at-put_group :
    (k n : Text) (fs : List Field) (m : List (Text × List Field))
    → group_at k (put_group n fs m) ≡ (if text_eq n k then some fs else group_at k m)
unfolding group_at put_group
group_at-put_group k n fs [] = refl
group_at-put_group k n fs ((i, gs) ∷ m) =
    ground (arith, group_at-put_group k n fs m, text_eq_iff i n, text_eq_iff i k, text_eq_iff n k)

grouped_at :
    (g : Groups) (k n wire v : Text)
    → group_at k (grouped g n wire v (group_at n g.fields)).fields ≡ (
        if text_eq n k
        then some (or_nil (group_at n g.fields) ++ own_field n wire v)
        else group_at k g.fields)
unfolding grouped put_group
grouped_at g k n wire v = elim (Option-cases (group_at n g.fields)) [
  | inl new ↦ rw new (group_at-put_group k n (own_field n wire v) g.fields)
  | inr (fs, old) ↦ rw old (group_at-put_group k n (fs ++ own_field n wire v) g.fields)
]

grouped_order :
    (g : Groups) (n wire v : Text)
    → (grouped g n wire v (group_at n g.fields)).order
      ≡ (if is_met (group_at n g.fields) then g.order else g.order ++ wire ∷ [])
unfolding grouped
grouped_order g n wire v = elim (Option-cases (group_at n g.fields)) [
  | inl new ↦ rw new refl
  | inr (fs, old) ↦ rw old refl
]

measured_values-snoc :
    (k : Text) (headers : List HeaderField) (h : HeaderField)
    → measured_values k (headers ++ h ∷ [])
      ≡ measured_values k headers ++ (if text_eq (to_lower h.name) k then h.value ∷ [] else [])
unfolding measured_values
measured_values-snoc k [] h = refl
measured_values-snoc k (f ∷ headers) h = ground (arith, measured_values-snoc k headers h)

pub field_values-append :
    (k : Text) (fs gs : List Field)
    → field_values k (fs ++ gs) ≡ field_values k fs ++ field_values k gs
unfolding field_values
field_values-append k [] gs = refl
field_values-append k (f ∷ fs) gs = ground (arith, field_values-append k fs gs)

map-append_value : (fs gs : List Field) → map value (fs ++ gs) ≡ map value fs ++ map value gs
map-append_value [] gs = refl
map-append_value (f ∷ fs) gs = ap (λ vs. f.value ∷ vs) (map-append_value fs gs)

is_any-snoc : (vs : List Text) (v : Text) → is_any (vs ++ v ∷ []) ≡ true
is_any-snoc [] v = refl
is_any-snoc (u ∷ vs) v = refl

lowers-snoc :
    (order : List Text) (w : Text) → lowers (order ++ w ∷ []) ≡ lowers order ++ to_lower w ∷ []
lowers-snoc [] w = refl
lowers-snoc (v ∷ order) w = ap (λ ns. to_lower v ∷ ns) (lowers-snoc order w)

abbrev pub no_groups : Groups
no_groups = record { fields = []; order = [] }

-- ===== src/Header/Lookup.antt =====
-- header.go: reading a header by name, in lower case.
use tls_forge.Base.{
  Bool, false, ◌||◌, List, [], ◌∷◌, ◌++◌, ◌≡◌, refl, arith, if◌then◌else◌, Text, text_eq, to_lower,
  codes,
}
use tls_forge.Header.{Header, get, values, has}

-- The values under a key that is in lower case already.
unfoldable pub values_at : Text → Header → List Text
unfolding to_lower
values_at k [] = []
values_at k (f ∷ h) = if text_eq (to_lower f.name) k then f.value ∷ values_at k h else values_at k h

unfoldable pub has_key : Text → Header → Bool
unfolding to_lower
has_key k [] = false
has_key k (f ∷ h) = text_eq (to_lower f.name) k || has_key k h

pub values-values_at : (h : Header) (n : Text) → values h n ≡ values_at (to_lower n) h
unfolding values values_at
values-values_at [] n = refl
values-values_at (f ∷ h) n = ground (arith, values-values_at h n)

pub has-has_key : (h : Header) (n : Text) → has h n ≡ has_key (to_lower n) h
unfolding has has_key
has-has_key [] n = refl
has-has_key (f ∷ h) n = ground (arith, has-has_key h n)

pub values_at-append :
    (k : Text) (g h : Header) → values_at k (g ++ h) ≡ values_at k g ++ values_at k h
unfolding values_at
values_at-append k [] h = refl
values_at-append k (f ∷ g) h = ground (arith, values_at-append k g h)

pub has_key-append : (k : Text) (g h : Header) → has_key k (g ++ h) ≡ (has_key k g || has_key k h)
unfolding has_key
has_key-append k [] h = refl
has_key-append k (f ∷ g) h = ground (arith, has_key-append k g h)

abbrev first : List Text → Text
first [] = codes ""
first (v ∷ vs) = v

-- `Get` returns the first of `Values`, or the empty text.
pub get-first : (h : Header) (n : Text) → get h n ≡ first (values h n)
unfolding get values
get-first [] n = refl
get-first (f ∷ h) n = ground (arith, get-first h n)

-- `Has` is false exactly where `Values` is empty.
pub values-of_has_not : (k : Text) (h : Header) → has_key k h ≡ false → values_at k h ≡ []
unfolding has_key values_at
values-of_has_not k [] e = refl
values-of_has_not k (f ∷ h) e = ground (arith, values-of_has_not k h)

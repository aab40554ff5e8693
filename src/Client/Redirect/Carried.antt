-- ===== src/Client/Redirect/Carried.antt =====
-- client.go: the names that a layout carries, and the operations on it.
use tls_forge.Base.{
  ℕ, Bool, true, false, not, ◌&&◌, ◌||◌, List, [], ◌∷◌, none, ◌≡◌, inl, inr, refl, ap₂, arith,
  if◌then◌else◌, Bool-cases, all, ◌==◌, Text, text_eq, text_eq_iff, contains, to_lower, lower_byte,
  equal_fold,
}
use tls_forge.Base.Lower.{AreLower}
use tls_forge.Proxy.{canonical_key, canonical_loop, upper_byte, is_token_byte}
use tls_forge.Client.Redirect.{Layout, values_under, put, keys, without}

-- A layout has a header of this name, which is in lower case.
unfoldable pub carries : Text → Layout → Bool
unfolding to_lower text_eq
carries k [] = false
carries k ((name, vs) ∷ header) = text_eq (to_lower name) k || carries k header

pub carries-put :
    (k j : Text) (vs : List Text) (header : Layout)
    → carries k (put j vs header) ≡ (text_eq (to_lower j) k || carries k header)
unfolding carries put
carries-put k j vs [] = refl
carries-put k j vs ((i, ws) ∷ header) = ground (arith, carries-put k j vs header, text_eq_iff i j)

pub carries-without :
    (k l : Text) (header : Layout)
    → carries k (without l header) ≡ (carries k header && not (text_eq (to_lower l) k))
unfolding carries without equal_fold
carries-without k l [] = refl
carries-without k l ((i, ws) ∷ header) = ground (
  arith,
  carries-without k l header,
  text_eq_iff (to_lower i) (to_lower l),
  text_eq_iff (to_lower i) k,
  text_eq_iff (to_lower l) k,
)

lower-upper :
    (upper : Bool) (c : ℕ)
    → lower_byte (if upper then upper_byte c else lower_byte c) ≡ lower_byte c
unfolding lower_byte
lower-upper true c = ground arith
lower-upper false c = ground arith

canonical_loop-lower : (upper : Bool) (s : Text) → to_lower (canonical_loop upper s) ≡ to_lower s
unfolding to_lower canonical_loop
canonical_loop-lower upper [] = refl
canonical_loop-lower upper (c ∷ s) =
    ap₂ (◌∷◌) (lower-upper upper c) (canonical_loop-lower (c == b'-') s)

pub canonical_key-lower : (s : Text) → to_lower (canonical_key s) ≡ to_lower s
unfolding canonical_key
canonical_key-lower s = elim (Bool-cases (all is_token_byte s)) [
  | inl token ↦ rw token (canonical_loop-lower true s)
  | inr other ↦ rw other refl
]

pub equal_fold-found :
    (name l : Text) (b : Bool) → equal_fold name l && b ≡ true → to_lower name ≡ to_lower l
unfolding equal_fold
equal_fold-found name l b e = (text_eq_iff (to_lower name) (to_lower l)).0 (ground arith)

pub none_left : (b : Bool) → b && false ≡ false
none_left true = refl
none_left false = refl

pub or_false : (b : Bool) → b || false ≡ b
or_false true = refl
or_false false = refl

pub or_swap : (a b c : Bool) → a || b || c ≡ b || (a || c)
or_swap a b c = ground arith

pub both_off : (a b : Bool) → a || b ≡ false → (a ≡ false) × (b ≡ false)
both_off true b e = cc
both_off false b e = (refl, e)

pub contains-keys-put :
    (k j : Text) (vs : List Text) (header : Layout)
    → contains k (keys (put j vs header)) ≡ (text_eq j k || contains k (keys header))
unfolding contains keys put
contains-keys-put k j vs [] = ground arith
contains-keys-put k j vs ((i, ws) ∷ header) =
    ground (arith, contains-keys-put k j vs header, text_eq_iff i j)

pub AreLower-put :
    (j : Text) (vs : List Text) (header : Layout)
    → to_lower j ≡ j
    → AreLower (keys header)
    → AreLower (keys (put j vs header))
unfolding AreLower keys put
AreLower-put j vs [] low lower = (low, tt)
AreLower-put j vs ((i, ws) ∷ header) low (first, lower) = elim (Bool-cases (text_eq i j)) [
  | inl here ↦ rw here (low, lower)
  | inr other ↦ rw other (first, AreLower-put j vs header low lower)
]

pub values_under-absent :
    (k : Text) (header : Layout) → contains k (keys header) ≡ false → values_under k header ≡ none
unfolding contains keys values_under
values_under-absent k [] e = refl
values_under-absent k ((j, vs) ∷ header) e = elim (Bool-cases (text_eq j k)) [
  | inl here ↦ cc (rw here at e)
  | inr other ↦ rw other (values_under-absent k header (rw other at e))
]

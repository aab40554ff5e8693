-- ===== src/Base/Strings.antt =====
-- Go strings as lists of bytes, with the parts of `strings` that the program uses. Letter case is
-- that of ASCII: header names, cookie columns and file names are ASCII tokens, and a byte outside
-- `A`-`Z` is its own lower case here.
use Prim.Native.Nat.{ℕ, ◌+◌}
use Prim.Native.Char.{code}
use Prim.Native.String.{String}
use mathlib.Core.Path.{◌≡◌, refl, ap, ap₂, ◌∙◌}
use mathlib.Core.Logic.{◌↔◌}
use mathlib.Core.Bool.{Bool, true, false, not, ◌&&◌, ◌||◌}
use mathlib.Core.List.{List, [], ◌∷◌, ◌++◌}
use native.Mathlib.Omega.{arith}
use tls_forge.Base.Tests.{leb, ◌==◌, if◌then◌else◌}
use tls_forge.Base.Sort.{TotalOrder}
use tls_forge.Base.Lists.{All}

abbrev pub Text : Type 0
Text = List ℕ

-- The bytes of an ASCII literal.
abbrev pub codes : String → Text
codes String.[] = []
codes (String.◌∷◌ c s) = code c ∷ codes s

-- `a == b` on strings.
unfoldable pub text_eq : Text → Text → Bool
text_eq [] [] = true
text_eq (x ∷ xs) (y ∷ ys) = x == y && text_eq xs ys
text_eq _ _ = false

pub text_eq_iff : (a b : Text) → (text_eq a b ≡ true) ↔ (a ≡ b)
unfolding text_eq
text_eq_iff (x ∷ a) (y ∷ b) = ground (arith, text_eq_iff a b)
text_eq_iff _ _ = ground arith

pub text_eq_refl : (a : Text) → text_eq a a ≡ true
text_eq_refl a = (text_eq_iff a a).1 refl

-- `strings.ToLower`
unfoldable pub lower_byte : ℕ → ℕ
lower_byte c = if leb b'A' c && leb c b'Z' then c + 32 else c

pub lower_byte_idem : (c : ℕ) → lower_byte (lower_byte c) ≡ lower_byte c
unfolding lower_byte
lower_byte_idem c = ground arith

unfoldable pub to_lower : Text → Text
unfolding lower_byte
to_lower [] = []
to_lower (c ∷ s) = lower_byte c ∷ to_lower s

pub to_lower_idem : (s : Text) → to_lower (to_lower s) ≡ to_lower s
unfolding to_lower
to_lower_idem [] = refl
to_lower_idem (c ∷ s) = ap₂ (◌∷◌) (lower_byte_idem c) (to_lower_idem s)

-- `strings.EqualFold`
unfoldable pub equal_fold : Text → Text → Bool
unfolding to_lower text_eq
equal_fold a b = text_eq (to_lower a) (to_lower b)

-- `strings.HasPrefix`
unfoldable pub has_prefix : Text → Text → Bool
has_prefix s [] = true
has_prefix [] (p ∷ ps) = false
has_prefix (c ∷ s) (p ∷ ps) = c == p && has_prefix s ps

-- Membership in a set of strings: `used[name]` of a `map[string]bool`.
unfoldable pub contains : Text → List Text → Bool
unfolding text_eq
contains k [] = false
contains k (x ∷ xs) = text_eq x k || contains k xs

-- `strings.Join`
unfoldable pub join : Text → List Text → Text
join sep [] = []
join sep (t ∷ []) = t
join sep (t ∷ u ∷ ts) = t ++ (sep ++ join sep (u ∷ ts))

-- A byte in front of the first piece.
abbrev pub onto_first : ℕ → List Text → List Text
onto_first c [] = (c ∷ []) ∷ []
onto_first c (t ∷ ts) = (c ∷ t) ∷ ts

-- `strings.Split` at a separator of one byte.
unfoldable pub split : ℕ → Text → List Text
split sep [] = [] ∷ []
split sep (c ∷ s) = let rest = split sep s in if c == sep then [] ∷ rest else onto_first c rest

unfoldable pub is_free_of : ℕ → Text → Bool
is_free_of sep [] = true
is_free_of sep (c ∷ s) = not (c == sep) && is_free_of sep s

pub is_free_of-append :
    (sep : ℕ) (s t : Text) → is_free_of sep (s ++ t) ≡ (is_free_of sep s && is_free_of sep t)
unfolding is_free_of
is_free_of-append sep [] t = refl
is_free_of-append sep (c ∷ s) t = ground (arith, is_free_of-append sep s t)

pub split-free : (sep : ℕ) (t : Text) → is_free_of sep t ≡ true → split sep t ≡ t ∷ []
unfolding split is_free_of
split-free sep [] h = refl
split-free sep (c ∷ t) h = ground (arith, split-free sep t)

pub split-append_sep :
    (sep : ℕ) (t rest : Text)
    → is_free_of sep t ≡ true
    → split sep (t ++ sep ∷ rest) ≡ t ∷ split sep rest
unfolding split is_free_of
split-append_sep sep [] rest h = ground arith
split-append_sep sep (c ∷ t) rest h = ground (arith, split-append_sep sep t rest)

-- Splitting undoes joining, where no piece holds the separator.
pub split-join :
    (sep : ℕ) (t : Text) (ts : List Text)
    → All (λ u. is_free_of sep u ≡ true) (t ∷ ts)
    → split sep (join (sep ∷ []) (t ∷ ts)) ≡ t ∷ ts
unfolding join
split-join sep t [] h = split-free sep t h.0
split-join sep t (u ∷ ts) h =
    split-append_sep sep t (join (sep ∷ []) (u ∷ ts)) h.0 ∙ ap (◌∷◌ t) (split-join sep u ts h.1)

-- `a <= b` on strings, byte by byte.
unfoldable pub text_leb : Text → Text → Bool
text_leb [] b = true
text_leb (x ∷ a) [] = false
text_leb (x ∷ a) (y ∷ b) = if x == y then text_leb a b else leb x y

text_leb_total : (a b : Text) → text_leb a b ≡ false → text_leb b a ≡ true
unfolding text_leb
text_leb_total [] b h = cc
text_leb_total (x ∷ a) [] h = refl
text_leb_total (x ∷ a) (y ∷ b) h = ground (arith, text_leb_total a b)

text_leb_trans : (a b c : Text) → text_leb a b ≡ true → text_leb b c ≡ true → text_leb a c ≡ true
unfolding text_leb
text_leb_trans [] b c h k = refl
text_leb_trans (x ∷ a) [] c h k = cc
text_leb_trans (x ∷ a) (y ∷ b) [] h k = cc
text_leb_trans (x ∷ a) (y ∷ b) (z ∷ c) h k = ground (arith, text_leb_trans a b c)

text_leb_antisymm : (a b : Text) → text_leb a b ≡ true → text_leb b a ≡ true → a ≡ b
unfolding text_leb
text_leb_antisymm [] [] h k = refl
text_leb_antisymm [] (y ∷ b) h k = cc
text_leb_antisymm (x ∷ a) [] h k = cc
text_leb_antisymm (x ∷ a) (y ∷ b) h k = ground (arith, text_leb_antisymm a b)

pub text_leb-TotalOrder : TotalOrder text_leb
text_leb-TotalOrder = record {
  total = text_leb_total;
  transitive = text_leb_trans;
  antisymmetric = text_leb_antisymm;
}

pub is_free_of-join :
    (sep : ℕ) (glue : Text) (ts : List Text)
    → is_free_of sep glue ≡ true
    → All (λ t. is_free_of sep t ≡ true) ts
    → is_free_of sep (join glue ts) ≡ true
unfolding join is_free_of
is_free_of-join sep glue [] g h = refl
is_free_of-join sep glue (t ∷ []) g h = h.0
is_free_of-join sep glue (t ∷ u ∷ ts) g h = ground (
  arith,
  is_free_of-append sep t (glue ++ join glue (u ∷ ts)),
  is_free_of-append sep glue (join glue (u ∷ ts)),
  is_free_of-join sep glue (u ∷ ts) g h.1,
)

pub has_prefix-append : (p s : Text) → has_prefix (p ++ s) p ≡ true
unfolding has_prefix
has_prefix-append [] [] = refl
has_prefix-append [] (c ∷ s) = refl
has_prefix-append (c ∷ p) s = ground (arith, has_prefix-append p s)

-- `bytes.Join(ts, nil)`
abbrev pub concat : List Text → Text
concat [] = []
concat (t ∷ ts) = t ++ concat ts

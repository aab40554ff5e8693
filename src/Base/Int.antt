-- ===== src/Base/Int.antt =====
-- Signed numbers over the native ones, as far as times and `strconv.ParseInt` need them.
use Prim.Native.Nat.{ℕ, suc, ◌+◌, ◌-◌, ◌<◌, ◌^◌}
use mathlib.Core.Path.{◌≡◌}
use mathlib.Core.Bool.{Bool}
use mathlib.Core.List.{[], ◌∷◌}
use mathlib.Core.Option.{Option, none, some}
use native.Mathlib.Omega.{arith}
use tls_forge.Base.Tests.{ltb, leb, ◌==◌, if◌then◌else◌}
use tls_forge.Base.Lists.{all}
use tls_forge.Base.Strings.{Text}
use tls_forge.Base.Numerals.{
  decimal, digits_value, digits_value-decimal, decimal-digits, decimal-ne-nil, is_digit,
}

-- `negsuc n` is -(n + 1).
pub data ℤ : Type 0 where
  pos : ℕ → ℤ
  negsuc : ℕ → ℤ

abbrev pub pos_part : ℤ → ℕ
pos_part (pos n) = n
pos_part (negsuc n) = 0

abbrev pub neg_part : ℤ → ℕ
neg_part (pos n) = 0
neg_part (negsuc n) = suc n

abbrev pub ltb_ℤ : ℤ → ℤ → Bool
ltb_ℤ a b = ltb (pos_part a + neg_part b) (pos_part b + neg_part a)

-- `%d`
unfoldable pub decimal_ℤ : ℤ → Text
unfolding decimal
decimal_ℤ (pos n) = decimal n
decimal_ℤ (negsuc n) = b'-' ∷ decimal (suc n)

-- The digits after the sign: at least one, and nothing else.
unfoldable pub parse_digits : Text → Option ℕ
unfolding digits_value
parse_digits [] = none
parse_digits (c ∷ s) = if all is_digit (c ∷ s) then some (digits_value 0 (c ∷ s)) else none

abbrev pub positive_64 : Option ℕ → Option ℤ
positive_64 none = none
positive_64 (some n) = if ltb n (2 ^ 63) then some (pos n) else none

abbrev pub negative_64 : Option ℕ → Option ℤ
negative_64 none = none
negative_64 (some n) =
    if n == 0 then some (pos 0) else if leb n (2 ^ 63) then some (negsuc (n - 1)) else none

-- `strconv.ParseInt(s, 10, 64)`: a sign, digits, and a value in range.
unfoldable pub parse_int : Text → Option ℤ
unfolding parse_digits
parse_int [] = none
parse_int (c ∷ s) =
    if c == b'+'
    then positive_64 (parse_digits s)
    else if c == b'-'
    then negative_64 (parse_digits s)
    else positive_64 (parse_digits (c ∷ s))

parse_digits-decimal : (n : ℕ) → parse_digits (decimal n) ≡ some n
unfolding parse_digits
parse_digits-decimal n =
    let (c, s, e) = decimal-ne-nil n in ground (arith, e, digits_value-decimal n, decimal-digits n)

-- A number that fits is read back from its decimal text.
pub parse_int-decimal : (n : ℕ) → n < 2 ^ 63 → parse_int (decimal n) ≡ some (pos n)
unfolding parse_int
parse_int-decimal n h =
    let (c, s, e) = decimal-ne-nil n in ground (arith, e, decimal-digits n, parse_digits-decimal n)

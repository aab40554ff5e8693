-- ===== src/Base/Numerals.antt =====
-- Numbers as text: `strconv.Itoa`, `%04x`, and reading a decimal back.
use Prim.Native.Nat.{ℕ, zero, suc, ◌+◌, ◌-◌, ◌*◌, ◌/◌, ◌%◌, ◌<◌, ◌≤◌}
use mathlib.Core.Path.{◌≡◌, refl, ap}
use mathlib.Core.Bool.{Bool, true, false, ◌&&◌}
use mathlib.Core.Logic.{inl, inr}
use mathlib.Core.List.{[], ◌∷◌, ◌++◌}
use native.Mathlib.Omega.{arith}
use tls_forge.Base.Tests.{ltb, leb, if◌then◌else◌, Bool-cases}
use tls_forge.Base.Lists.{all, length, length-append}
use tls_forge.Base.Strings.{Text, is_free_of}

-- The decimal digits of `n`, which has fewer than `fuel` of them.
unfoldable pub decimal_fuel : ℕ → ℕ → Text
decimal_fuel zero n = []
decimal_fuel (suc fuel) n =
    let more = decimal_fuel fuel (n / 10) ++ (b'0' + n % 10) ∷ [] in
    if ltb n 10 then (b'0' + n) ∷ [] else more

unfoldable pub decimal : ℕ → Text
unfolding decimal_fuel
decimal n = decimal_fuel (suc n) n

unfoldable pub digits_value : ℕ → Text → ℕ
digits_value acc [] = acc
digits_value acc (c ∷ s) = digits_value (acc * 10 + (c - b'0')) s

digits_value-append :
    (acc : ℕ) (s : Text) (c : ℕ)
    → digits_value acc (s ++ c ∷ []) ≡ digits_value acc s * 10 + (c - b'0')
unfolding digits_value
digits_value-append acc [] c = refl
digits_value-append acc (d ∷ s) c = digits_value-append (acc * 10 + (d - b'0')) s c

digits_value-decimal_fuel : (fuel n : ℕ) → n < fuel → digits_value 0 (decimal_fuel fuel n) ≡ n
unfolding decimal_fuel
digits_value-decimal_fuel zero n h = elim h [ ]
digits_value-decimal_fuel (suc fuel) n h = elim (Bool-cases (ltb n 10)) [
  | inl small ↦ rw small (unfold digits_value in omega arith)
  | inr large ↦
      rw (large, digits_value-append, digits_value-decimal_fuel fuel (n / 10) (ground arith))
        (omega arith)
]

-- Reading the digits back gives the number.
pub digits_value-decimal : (n : ℕ) → digits_value 0 (decimal n) ≡ n
unfolding decimal
digits_value-decimal n = digits_value-decimal_fuel (suc n) n (omega arith)

abbrev pub is_digit : ℕ → Bool
is_digit c = leb b'0' c && leb c b'9'

all-append : (s t : Text) → all is_digit (s ++ t) ≡ (all is_digit s && all is_digit t)
all-append [] t = refl
all-append (c ∷ s) t = ground (arith, all-append s t)

decimal_fuel-digits : (fuel n : ℕ) → all is_digit (decimal_fuel fuel n) ≡ true
unfolding decimal_fuel
decimal_fuel-digits zero n = refl
decimal_fuel-digits (suc fuel) n = ground (
  arith,
  decimal_fuel-digits fuel (n / 10),
  all-append (decimal_fuel fuel (n / 10)) ((b'0' + n % 10) ∷ []),
)

pub decimal-digits : (n : ℕ) → all is_digit (decimal n) ≡ true
unfolding decimal
decimal-digits n = decimal_fuel-digits (suc n) n

pub decimal-ne-nil : (n : ℕ) → (c : ℕ) × (s : Text) × (decimal n ≡ c ∷ s)
unfolding decimal
decimal-ne-nil n = elim (Bool-cases (ltb n 10)) [
  | inl small ↦ (b'0' + n, [], rw small)
  | inr large ↦ rw large (cons_of_append (decimal_fuel n (n / 10)) (b'0' + n % 10))
]
  where
    cons_of_append : (t : Text) (d : ℕ) → (c : ℕ) × (s : Text) × (t ++ d ∷ [] ≡ c ∷ s)
    cons_of_append [] d = (d, [], refl)
    cons_of_append (c ∷ t) d = (c, t ++ d ∷ [], refl)

pub decimal-injective : (m n : ℕ) → decimal m ≡ decimal n → m ≡ n
decimal-injective m n e = cc (digits_value-decimal m, digits_value-decimal n, ap (digits_value 0) e)

-- A hexadecimal digit, in lower case.
unfoldable pub hex_digit : ℕ → ℕ
hex_digit d = if ltb d 10 then b'0' + d else b'a' + d - 10

-- `%04x` of a 16-bit number.
unfoldable pub hex4 : ℕ → Text
unfolding hex_digit
hex4 v =
    hex_digit (v / 4096 % 16)
    ∷ hex_digit (v / 256 % 16)
    ∷ hex_digit (v / 16 % 16)
    ∷ hex_digit (v % 16)
    ∷ []

-- `hex.EncodeToString`
unfoldable pub hex : Text → Text
unfolding hex_digit
hex [] = []
hex (b ∷ s) = hex_digit (b / 16) ∷ hex_digit (b % 16) ∷ hex s

pub length-hex : (s : Text) → length (hex s) ≡ 2 * length s
unfolding hex
length-hex [] = refl
length-hex (b ∷ s) = omega (arith, length-hex s)

length-decimal_fuel : (fuel n : ℕ) → length (decimal_fuel fuel n) ≤ 1 + n / 10
unfolding decimal_fuel
length-decimal_fuel zero n = omega arith
length-decimal_fuel (suc fuel) n = ground (
  arith,
  length-append (decimal_fuel fuel (n / 10)) ((b'0' + n % 10) ∷ []),
  length-decimal_fuel fuel (n / 10),
)

-- A bound that is far from sharp.
pub length-decimal : (n : ℕ) → length (decimal n) ≤ 1 + n / 10
unfolding decimal
length-decimal n = length-decimal_fuel (suc n) n

digits-is_free_of :
    (sep : ℕ) (s : Text) → is_digit sep ≡ false → all is_digit s ≡ true → is_free_of sep s ≡ true
unfolding is_free_of
digits-is_free_of sep [] h k = refl
digits-is_free_of sep (c ∷ s) h k = ground (arith, digits-is_free_of sep s)

-- A decimal number has no byte that is not a digit.
pub decimal-is_free_of : (sep n : ℕ) → is_digit sep ≡ false → is_free_of sep (decimal n) ≡ true
decimal-is_free_of sep n h = digits-is_free_of sep (decimal n) h (decimal-digits n)

pub digits-all :
    (p : ℕ → Bool) (s : Text)
    → ((c : ℕ) → is_digit c ≡ true → p c ≡ true)
    → all is_digit s ≡ true
    → all p s ≡ true
digits-all p [] h k = refl
digits-all p (c ∷ s) h k = ground (arith, h c, digits-all p s h)

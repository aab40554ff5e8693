-- ===== src/Echo/Navigation/Tokens.antt =====
-- echo/server.go: the tokens of navigations, which are numbers to the base 36.
use tls_forge.Base.{
  ℕ, zero, suc, ◌+◌, ◌-◌, ◌*◌, ◌/◌, ◌%◌, ◌<◌, false, ◌≢◌, [], ◌∷◌, ◌++◌, ◌≡◌, inl, inr, refl, ap,
  sym, ◌∙◌, arith, ltb, if◌then◌else◌, Bool-cases, Text, text_eq, text_eq_iff,
}
use tls_forge.Echo.Navigation.{digit36, base36_fuel, base36}

-- The value of a digit.
abbrev value36 : ℕ → ℕ
value36 c = if ltb c b'a' then c - b'0' else c + 10 - b'a'

value_of : ℕ → Text → ℕ
value_of acc [] = acc
value_of acc (c ∷ s) = value_of (acc * 36 + value36 c) s

value36-digit36 : (d : ℕ) → d < 36 → value36 (digit36 d) ≡ d
value36-digit36 d h = ground arith

value_of-append :
    (s : Text) (acc c : ℕ) → value_of acc (s ++ c ∷ []) ≡ value_of acc s * 36 + value36 c
unfolding value_of
value_of-append [] acc c = refl
value_of-append (d ∷ s) acc c = value_of-append s (acc * 36 + value36 d) c

value_of-base36_fuel : (fuel n : ℕ) → n < fuel → value_of 0 (base36_fuel fuel n) ≡ n
unfolding base36_fuel
value_of-base36_fuel zero n h = elim h [ ]
value_of-base36_fuel (suc fuel) n h = elim (Bool-cases (ltb n 36)) [
  | inl small ↦ rw small (unfold value_of in omega (arith, value36-digit36 n (ground arith)))
  | inr large ↦
      rw
        (
          large,
          value_of-append (base36_fuel fuel (n / 36)) 0 (digit36 (n % 36)),
          value_of-base36_fuel fuel (n / 36) (ground arith),
          value36-digit36 (n % 36) (omega arith),
        )
        (omega arith)
]

-- Different numbers have different tokens.
pub base36-injective : (m n : ℕ) → base36 m ≡ base36 n → m ≡ n
unfolding base36
base36-injective m n e =
    sym (value_of-base36_fuel (suc m) m (omega arith))
    ∙ ap (value_of 0) e
    ∙ value_of-base36_fuel (suc n) n (omega arith)

pub base36_other : (m n : ℕ) → m ≢ n → text_eq (base36 m) (base36 n) ≡ false
base36_other m n ne = elim (Bool-cases (text_eq (base36 m) (base36 n))) [
  | inl same ↦ absurd (ne (base36-injective m n ((text_eq_iff (base36 m) (base36 n)).0 same)))
  | inr other ↦ other
]

append-ne-nil : (s : Text) (c : ℕ) → (d : ℕ) × (t : Text) × (s ++ c ∷ [] ≡ d ∷ t)
append-ne-nil [] c = (c, [], refl)
append-ne-nil (d ∷ s) c = (d, s ++ c ∷ [], refl)

-- No token is empty.
pub base36-ne-nil : (n : ℕ) → (d : ℕ) × (t : Text) × (base36 n ≡ d ∷ t)
unfolding base36 base36_fuel
base36-ne-nil n = elim (Bool-cases (ltb n 36)) [
  | inl small ↦ (digit36 n, [], rw small refl)
  | inr large ↦
      let (d, t, e) = append-ne-nil (base36_fuel n (n / 36)) (digit36 (n % 36)) in
      (d, t, rw large e)
]

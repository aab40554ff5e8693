-- ===== src/Fingerprint/Ja3/Injective.antt =====
-- fingerprint/ja3.go: what a JA3 string was made from.
use tls_forge.Base.{
  ℕ, true, false, List, [], ◌∷◌, ◌++◌, ◌≡◌, ◌≢◌, refl, ap, ap₂, sym, ◌∙◌, arith, Text, codes,
  decimal, join, split, is_free_of, is_free_of-append, split-join, All, all, is_digit,
  decimal-digits, decimal-ne-nil, decimal-injective,
}
use tls_forge.Fingerprint.Wire.{Cryptobyte}
use tls_forge.Fingerprint.Hello.{ClientHello, extension_types}
use tls_forge.Fingerprint.Grease.{without_grease}
use tls_forge.Fingerprint.Accessors.{supported_groups, ec_point_formats}
use tls_forge.Fingerprint.Ja3.{decimals, join_decimal, ja3}

-- Separators are not digits.
digits-free :
    (sep : ℕ) (t : Text) → is_digit sep ≡ false → all is_digit t ≡ true → is_free_of sep t ≡ true
unfolding is_free_of
digits-free sep [] d h = refl
digits-free sep (c ∷ t) d h = ground (arith, digits-free sep t)

decimal-free : (sep n : ℕ) → is_digit sep ≡ false → is_free_of sep (decimal n) ≡ true
decimal-free sep n d = digits-free sep (decimal n) d (decimal-digits n)

decimals-free : (vs : List ℕ) → All (λ t. is_free_of b'-' t ≡ true) (decimals vs)
unfolding decimals
decimals-free [] = tt
decimals-free (v ∷ vs) = (decimal-free b'-' v refl, decimals-free vs)

join_decimal-free : (vs : List ℕ) → is_free_of b',' (join_decimal vs) ≡ true
unfolding join_decimal join is_free_of
join_decimal-free [] = refl
join_decimal-free (v ∷ []) = decimal-free b',' v refl
join_decimal-free (v ∷ w ∷ vs) =
    rw is_free_of-append (rw (decimal-free b',' v refl) (join_decimal-free (w ∷ vs)))

decimals-injective : (vs ws : List ℕ) → decimals vs ≡ decimals ws → vs ≡ ws
unfolding decimals
decimals-injective [] [] e = refl
decimals-injective [] (w ∷ ws) e = cc
decimals-injective (v ∷ vs) [] e = cc
decimals-injective (v ∷ vs) (w ∷ ws) e =
    ap₂ (◌∷◌) (decimal-injective v w (ground arith)) (decimals-injective vs ws (ground arith))

split-join_decimal : (v : ℕ) (vs : List ℕ) → split b'-' (join_decimal (v ∷ vs)) ≡ decimals (v ∷ vs)
unfolding join_decimal
split-join_decimal v vs =
    split-join b'-' (decimal v) (decimals vs) (unfold decimals in decimals-free (v ∷ vs))

join_decimal-ne-nil : (v : ℕ) (vs : List ℕ) → (c : ℕ) × (s : Text) × (join_decimal (v ∷ vs) ≡ c ∷ s)
unfolding join_decimal join
join_decimal-ne-nil v [] = decimal-ne-nil v
join_decimal-ne-nil v (w ∷ vs) =
    let (c, s, e) = decimal-ne-nil v in
    (c, s ++ (codes "-" ++ join (codes "-") (decimals (w ∷ vs))), unfold decimals in rw e)

join_decimal_nil : join_decimal [] ≡ []
unfolding join_decimal join decimals
join_decimal_nil = refl

nil-ne-join_decimal : (v : ℕ) (vs : List ℕ) → join_decimal (v ∷ vs) ≢ join_decimal []
nil-ne-join_decimal v vs e = let (c, s, f) = join_decimal-ne-nil v vs in cc (f, e, join_decimal_nil)

pub join_decimal-injective : (vs ws : List ℕ) → join_decimal vs ≡ join_decimal ws → vs ≡ ws
join_decimal-injective [] [] e = refl
join_decimal-injective [] (w ∷ ws) e = absurd (nil-ne-join_decimal w ws (sym e))
join_decimal-injective (v ∷ vs) [] e = absurd (nil-ne-join_decimal v vs e)
join_decimal-injective (v ∷ vs) (w ∷ ws) e =
    decimals-injective (v ∷ vs) (w ∷ ws)
      (sym (split-join_decimal v vs) ∙ ap (split b'-') e ∙ split-join_decimal w ws)

module _ (cb : Cryptobyte) where
  fields_of : ClientHello → List Text
  fields_of c =
      decimal c.legacy_version
      ∷ join_decimal (without_grease c.cipher_suites)
      ∷ join_decimal (without_grease (extension_types c))
      ∷ join_decimal (without_grease (supported_groups cb c))
      ∷ join_decimal (ec_point_formats cb c)
      ∷ []

  split-ja3 : (c : ClientHello) → split b',' (ja3 cb c) ≡ fields_of c
  unfolding ja3 fields_of
  split-ja3 c = split-join b',' (decimal c.legacy_version) _ (
    decimal-free b',' c.legacy_version refl,
    (
      join_decimal-free (without_grease c.cipher_suites),
      (
        join_decimal-free (without_grease (extension_types c)),
        (
          join_decimal-free (without_grease (supported_groups cb c)),
          (join_decimal-free (ec_point_formats cb c), tt),
        ),
      ),
    ),
  )

  -- Two hellos with one JA3 string have the same version, and the same cipher suites, extension
  -- types, groups and point formats in the same order, GREASE left out of the first three lists.
  pub ja3_injective :
      (a b : ClientHello)
      → ja3 cb a ≡ ja3 cb b
      → (a.legacy_version ≡ b.legacy_version)
        × (without_grease a.cipher_suites ≡ without_grease b.cipher_suites)
        × (without_grease (extension_types a) ≡ without_grease (extension_types b))
        × (without_grease (supported_groups cb a) ≡ without_grease (supported_groups cb b))
        × (ec_point_formats cb a ≡ ec_point_formats cb b)
  unfolding fields_of
  ja3_injective a b e =
      let same = sym (split-ja3 a) ∙ ap (split b',') e ∙ split-ja3 b in
      (
        decimal-injective _ _ (ground arith),
        join_decimal-injective _ _ (ground arith),
        join_decimal-injective _ _ (ground arith),
        join_decimal-injective _ _ (ground arith),
        join_decimal-injective _ _ (ground arith),
      )

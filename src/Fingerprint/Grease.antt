-- ===== src/Fingerprint/Grease.antt =====
-- fingerprint/grease.go: the sixteen reserved values, and dropping them.
use Prim.Native.Nat.{bit_and}
use mathlib.Core.List.{Permᴰ}
use tls_forge.Base.{
  ℕ, zero, suc, ◌+◌, ◌*◌, ◌/◌, ◌%◌, ◌^◌, ◌<◌, Bool, true, false, not, ◌&&◌, List, [], ◌∷◌, ◌≡◌, ◌↔◌,
  refl, arith, ◌==◌, if◌then◌else◌, ◌++◌, all, keep_if, keep_if-perm,
}

unfoldable pub is_grease : ℕ → Bool
is_grease v = bit_and v 0x0f0f == 0x0a0a && v / 2 ^ 8 == bit_and v 0x00ff

unfoldable pub without_grease : List ℕ → List ℕ
unfolding is_grease
without_grease [] = []
without_grease (v ∷ values) =
    let out = without_grease values in if not (is_grease v) then v ∷ out else out

abbrev same : Bool → Bool → Bool
same true b = b
same false b = not b

-- A test that holds of every value from 0 up, `count` of them.
holds_up_to : (ℕ → Bool) → ℕ → Bool
holds_up_to test zero = true
holds_up_to test (suc count) = elim (test count) [ true ↦ holds_up_to test count | false ↦ false ]

holds_at :
    (test : ℕ → Bool) (v count : ℕ) → v < count → holds_up_to test count ≡ true → test v ≡ true
unfolding holds_up_to
holds_at test v zero below h = absurd (omega arith)
holds_at test v (suc count) below h = ground (arith, holds_at test v count)

-- Every 16-bit value, one after the other.
grease_table : holds_up_to (λ v. same (is_grease v) (v % 4112 == 2570)) 65536 ≡ true
unfolding holds_up_to is_grease
grease_table = refl

is_grease-mod : (v : ℕ) → v < 65536 → is_grease v ≡ (v % 4112 == 2570)
is_grease-mod v h =
    let checked = holds_at (λ w. same (is_grease w) (w % 4112 == 2570)) v 65536 h grease_table in
    ground arith

-- Of the 16-bit values exactly sixteen are GREASE: 0x0a0a, 0x1a1a, and so on up to 0xfafa.
pub is_grease_iff :
    (v : ℕ) → v < 65536 → (is_grease v ≡ true) ↔ ((k : ℕ) × (k < 16) × (v ≡ 0x0a0a + k * 0x1010))
is_grease_iff v h = (
  λ e. (v / 4112, ground (arith, is_grease-mod v h), ground (arith, is_grease-mod v h)),
  λ w. ground (arith, is_grease-mod v h),
)

-- Dropping GREASE leaves no GREASE value.
pub without_grease-free : (vs : List ℕ) → all (λ v. not (is_grease v)) (without_grease vs) ≡ true
unfolding without_grease
without_grease-free [] = refl
without_grease-free (v ∷ vs) = ground (arith, without_grease-free vs)

pub without_grease-append :
    (xs ys : List ℕ) → without_grease (xs ++ ys) ≡ without_grease xs ++ without_grease ys
unfolding without_grease
without_grease-append [] ys = refl
without_grease-append (v ∷ xs) ys = ground (arith, without_grease-append xs ys)

pub without_grease-keep_if : (vs : List ℕ) → without_grease vs ≡ keep_if (λ v. not (is_grease v)) vs
unfolding without_grease
without_grease-keep_if [] = refl
without_grease-keep_if (v ∷ vs) = ground (arith, without_grease-keep_if vs)

-- Dropping GREASE respects any reordering.
pub without_grease-perm :
    {xs ys : List ℕ} → Permᴰ xs ys → Permᴰ (without_grease xs) (without_grease ys)
without_grease-perm {xs} {ys} p =
    rw (without_grease-keep_if xs, without_grease-keep_if ys)
      (keep_if-perm (λ v. not (is_grease v)) p)

-- ===== src/Fingerprint/Compare/Counts.antt =====
-- fingerprint/compare.go: `subtract`, by how often an entry stands in a list.
use mathlib.Core.List.{Permᴰ}
use tls_forge.Base.{
  ℕ, ◌+◌, ◌-◌, true, List, [], ◌∷◌, ◌≡◌, ◌↔◌, refl, ap, ◌∙◌, arith, if◌then◌else◌, Text, text_eq,
  text_eq_iff, text_eq_refl,
}
use tls_forge.Fingerprint.Compare.{tally, subtract_loop, subtract, is_empty}

unfoldable pub count : Text → List Text → ℕ
unfolding text_eq
count k [] = 0
count k (v ∷ vs) = (if text_eq v k then 1 else 0) + count k vs

tally-count : (m : Text → ℕ) (b : List Text) (k : Text) → tally m b k ≡ m k + count k b
unfolding tally count
tally-count m [] k = omega arith
tally-count m (v ∷ b) k =
    ground (arith, tally-count (λ j. if text_eq v j then m j + 1 else m j) b k)

count-subtract_loop :
    (m : Text → ℕ) (a : List Text) (k : Text) → count k (subtract_loop m a) ≡ count k a - m k
unfolding subtract_loop count
count-subtract_loop m [] k = omega arith
count-subtract_loop m (v ∷ a) k = ground (
  arith,
  count-subtract_loop (λ j. if text_eq v j then m j - 1 else m j) a k,
  count-subtract_loop m a k,
  text_eq_iff v k,
  text_eq_refl v,
)

-- The entries of one list that the other does not have, with duplicates counted.
pub count-subtract : (k : Text) (a b : List Text) → count k (subtract a b) ≡ count k a - count k b
unfolding subtract
count-subtract k a b =
    omega (arith, count-subtract_loop (tally (λ j. 0) b) a k, tally-count (λ j. 0) b k)

pub count-perm : {a b : List Text} (k : Text) → Permᴰ a b → count k a ≡ count k b
unfolding count
count-perm k Permᴰ.nil = refl
count-perm k (Permᴰ.cons {a} {b} {l₁} {l₂} e p) = ground (arith, count-perm k p)
count-perm k (Permᴰ.swap {a} {b} {a'} {b'} {l} e d) = ground arith
count-perm k (Permᴰ.trans p q) = count-perm k p ∙ count-perm k q

nil_of_counts : (a : List Text) → ((k : Text) → count k a ≡ 0) → a ≡ []
unfolding count
nil_of_counts [] h = refl
nil_of_counts (v ∷ a) h = absurd (ground (arith, h v, text_eq_refl v))

is_empty_of_counts : (a : List Text) → ((k : Text) → count k a ≡ 0) → is_empty a ≡ true
is_empty_of_counts a h = ground (arith, nil_of_counts a h)

-- Two lists that differ only in order have nothing to subtract from one another.
pub subtract-perm : {a b : List Text} → Permᴰ a b → is_empty (subtract a b) ≡ true
subtract-perm {a} {b} p =
    is_empty_of_counts (subtract a b) (λ k. omega (arith, count-subtract k a b, count-perm k p))

-- Nothing is missing and nothing is extra exactly when the lists hold the same entries, as often.
pub subtract_iff :
    (a b : List Text)
    → ((subtract a b ≡ []) × (subtract b a ≡ [])) ↔ ((k : Text) → count k a ≡ count k b)
unfolding count
subtract_iff a b = (
  (λ e k.
      omega
        (arith, count-subtract k a b, count-subtract k b a, ap (count k) e.0, ap (count k) e.1)),
  (λ h. (
    nil_of_counts (subtract a b) (λ k. omega (arith, count-subtract k a b, h k)),
    nil_of_counts (subtract b a) (λ k. omega (arith, count-subtract k b a, h k)),
  )),
)

-- ===== src/Base/Sort.antt =====
-- Ascending sort, as `sort.Slice` and `sort.Strings` leave a list whose order is total: the
-- result depends on the elements alone, so one sort stands for any.
use Prim.Native.Nat.{suc, ◌≤◌}
use mathlib.Core.Path.{◌≡◌, refl, ap, ap₂, ◌∙◌, subst}
use mathlib.Core.Logic.{inl, inr}
use mathlib.Core.Bool.{Bool, true, false}
use mathlib.Core.List.{List, [], ◌∷◌, Permᴰ}
use mathlib.Core.List.Permᴰ
use native.Mathlib.Omega.{arith}
use tls_forge.Base.Tests.{leb, if◌then◌else◌, Bool-cases}
use tls_forge.Base.Lists.{keep_if, length, All}

-- What a total order by a Boolean test is.
pub record TotalOrder {ℓ} {A : Type ℓ} (below : A → A → Bool) : Type ℓ where
  pub total : (a b : A) → below a b ≡ false → below b a ≡ true
  pub transitive : (a b c : A) → below a b ≡ true → below b c ≡ true → below a c ≡ true
  pub antisymmetric : (a b : A) → below a b ≡ true → below b a ≡ true → a ≡ b

module _ {ℓ} {A : Type ℓ} (below : A → A → Bool) where
  unfoldable pub insert : A → List A → List A
  insert a [] = a ∷ []
  insert a (x ∷ xs) = if below a x then a ∷ x ∷ xs else x ∷ insert a xs

  unfoldable pub sort : List A → List A
  unfolding insert
  sort [] = []
  sort (x ∷ xs) = insert x (sort xs)

module _ {ℓ} {A : Type ℓ} (below : A → A → Bool) (o : TotalOrder below) where
  insert_comm :
      (a b : A) (xs : List A)
      → insert below a (insert below b xs) ≡ insert below b (insert below a xs)
  unfolding insert
  insert_comm a b [] = ground (arith, o.total a b, o.total b a, o.antisymmetric a b)
  insert_comm a b (x ∷ xs) = ground (
    arith,
    insert_comm a b xs,
    o.total a b,
    o.total b a,
    o.total a x,
    o.total b x,
    o.transitive a b x,
    o.transitive b a x,
    o.transitive a x b,
    o.transitive b x a,
    o.antisymmetric a b,
  )

  -- A sorted list forgets the order that it was given in.
  pub sort-perm : {xs ys : List A} → Permᴰ xs ys → sort below xs ≡ sort below ys
  unfolding sort
  sort-perm Permᴰ.nil = refl
  sort-perm (Permᴰ.cons e p) = ap₂ (insert below) e (sort-perm p)
  sort-perm (Permᴰ.swap {a} {b} {l} e d) =
      insert_comm a b (sort below l)
      ∙ ap₂ (λ x y. insert below x (insert below y (sort below l))) d e
  sort-perm (Permᴰ.trans p q) = sort-perm p ∙ sort-perm q

pub leb-TotalOrder : TotalOrder leb
leb-TotalOrder = record {
  total = λ a b h. ground arith;
  transitive = λ a b c h k. ground arith;
  antisymmetric = λ a b h k. ground arith;
}

module _ {ℓ} {A : Type ℓ} (p : A → Bool) where
  keep_if-cons :
      (a : A) (xs ys : List A)
      → Permᴰ (keep_if p xs) (keep_if p ys)
      → Permᴰ (keep_if p (a ∷ xs)) (keep_if p (a ∷ ys))
  keep_if-cons a xs ys h = elim (Bool-cases (p a)) [
    | inl keep ↦ rw keep (Permᴰ.cons refl h)
    | inr drop ↦ rw drop h
  ]

  keep_if_swap : (a b : A) (l : List A) → Permᴰ (keep_if p (a ∷ b ∷ l)) (keep_if p (b ∷ a ∷ l))
  keep_if_swap a b l = elim (Bool-cases (p a)) [
    | inl ka ↦ elim (Bool-cases (p b)) [
      | inl kb ↦ rw (ka, kb) (Permᴰ.swap refl refl)
      | inr db ↦ rw (ka, db) (Permᴰ.refl _)
    ]
    | inr da ↦ rw da (Permᴰ.refl _)
  ]

  -- Filtering respects any reordering.
  pub keep_if-perm : {xs ys : List A} → Permᴰ xs ys → Permᴰ (keep_if p xs) (keep_if p ys)
  keep_if-perm Permᴰ.nil = Permᴰ.nil
  keep_if-perm (Permᴰ.cons {a} {l₁} {l₂} e h) = rw (← e) (keep_if-cons a l₁ l₂ (keep_if-perm h))
  keep_if-perm (Permᴰ.swap {a} {b} {l} e d) = rw (← e, ← d) (keep_if_swap a b l)
  keep_if-perm (Permᴰ.trans h k) = Permᴰ.trans (keep_if-perm h) (keep_if-perm k)

module _ {ℓ} {A : Type ℓ} where
  pub length-perm : {xs ys : List A} → Permᴰ xs ys → length xs ≡ length ys
  length-perm Permᴰ.nil = refl
  length-perm (Permᴰ.cons e h) = ap suc (length-perm h)
  length-perm (Permᴰ.swap {l} e d) = refl
  length-perm (Permᴰ.trans h k) = length-perm h ∙ length-perm k

  -- A list with at most one element has no other order.
  pub perm-short : {xs ys : List A} → Permᴰ xs ys → length xs ≤ 1 → xs ≡ ys
  perm-short Permᴰ.nil h = refl
  perm-short (Permᴰ.cons e p) h = ap₂ (◌∷◌) e (perm-short p (omega arith))
  perm-short (Permᴰ.swap e d) h = absurd (omega arith)
  perm-short (Permᴰ.trans p q) h = perm-short p h ∙ perm-short q (omega (arith, length-perm p))

module _ {ℓ} {A : Type ℓ} (below : A → A → Bool) where
  insert-Permᴰ : (a : A) (xs : List A) → Permᴰ (insert below a xs) (a ∷ xs)
  unfolding insert
  insert-Permᴰ a [] = Permᴰ.refl (a ∷ [])
  insert-Permᴰ a (x ∷ xs) = elim (Bool-cases (below a x)) [
    | inl here ↦ rw here (Permᴰ.refl (a ∷ x ∷ xs))
    | inr behind ↦
        rw behind (Permᴰ.trans (Permᴰ.cons refl (insert-Permᴰ a xs)) (Permᴰ.swap refl refl))
  ]

  -- A sorted list has the elements of the list.
  pub sort-Permᴰ : (xs : List A) → Permᴰ (sort below xs) xs
  unfolding sort
  sort-Permᴰ [] = Permᴰ.nil
  sort-Permᴰ (x ∷ xs) =
      Permᴰ.trans (insert-Permᴰ x (sort below xs)) (Permᴰ.cons refl (sort-Permᴰ xs))

-- What holds of every element holds in any order.
pub All-perm {ℓ κ} :
    {A : Type ℓ} (P : A → Type κ) {xs ys : List A} → Permᴰ xs ys → All P xs → All P ys
All-perm P Permᴰ.nil h = tt
All-perm P (Permᴰ.cons e p) (h, hs) = (subst P e h, All-perm P p hs)
All-perm P (Permᴰ.swap e f) (h, (k, hs)) = (subst P f k, (subst P e h, hs))
All-perm P (Permᴰ.trans p q) h = All-perm P q (All-perm P p h)

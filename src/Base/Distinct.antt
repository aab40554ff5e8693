-- ===== src/Base/Distinct.antt =====
-- Lists of different texts, and one within another.
use mathlib.Core.List.{Permᴰ}
use mathlib.Core.List.Permᴰ
use mathlib.Core.Path.{subst, sym, ap}
use mathlib.Core.Path.{◌≡◌, refl, ◌∙◌}
use mathlib.Core.Logic.{inl, inr}
use mathlib.Core.Bool.{true, false, ◌||◌}
use mathlib.Core.List.{List, [], ◌∷◌, ◌++◌}
use native.Mathlib.Omega.{arith}
use tls_forge.Base.Tests.{Bool-cases}
use tls_forge.Base.Lists.{All-append, length, All}
use tls_forge.Base.Sort.{length-perm, All-perm}
use tls_forge.Base.Strings.{Text, text_eq, text_eq_iff, text_eq_refl, contains}

-- No text stands in the list twice.
abbrev pub Distinct : List Text → Type 0
Distinct [] = Unit
Distinct (x ∷ xs) = All (λ y. text_eq x y ≡ false) xs × Distinct xs

pub apart-cons :
    (name : Text) (seen order : List Text)
    → All (λ x. contains x (name ∷ seen) ≡ false) order
    → All (λ y. text_eq name y ≡ false) order × All (λ x. contains x seen ≡ false) order
unfolding contains
apart-cons name seen [] h = (tt, tt)
apart-cons name seen (x ∷ order) (a, h) =
    let (other, unseen) = apart-cons name seen order h in
    ((ground arith, other), (ground arith, unseen))

pub cons-apart :
    (name : Text) (seen order : List Text)
    → All (λ y. text_eq name y ≡ false) order
    → All (λ x. contains x seen ≡ false) order
    → All (λ x. contains x (name ∷ seen) ≡ false) order
unfolding contains
cons-apart name seen [] h k = tt
cons-apart name seen (x ∷ order) (a, h) (b, k) = (ground arith, cons-apart name seen order h k)

pub contains-perm : (k : Text) {xs ys : List Text} → Permᴰ xs ys → contains k xs ≡ contains k ys
unfolding contains
contains-perm k Permᴰ.nil = refl
contains-perm k (Permᴰ.cons {a} {b} e p) =
    ground (arith, contains-perm k p, ap (λ x. text_eq x k) e)
contains-perm k (Permᴰ.swap {l} e f) =
    ground (arith, ap (λ x. text_eq x k) e, ap (λ x. text_eq x k) f)
contains-perm k (Permᴰ.trans p q) = contains-perm k p ∙ contains-perm k q

-- The place of a text in a list that contains it.
pub pick :
    (x : Text) (ys : List Text) → contains x ys ≡ true → (rest : List Text) × Permᴰ ys (x ∷ rest)
unfolding contains
pick x [] h = cc
pick x (y ∷ ys) h = elim (Bool-cases (text_eq y x)) [
  | inl same ↦ (ys, Permᴰ.cons ((text_eq_iff y x).0 same) (Permᴰ.refl ys))
  | inr other ↦
      let (rest, p) = pick x ys (ground arith) in
      (y ∷ rest, Permᴰ.trans (Permᴰ.cons refl p) (Permᴰ.swap refl refl))
]

within-rest :
    (x : Text) (xs rest ys : List Text)
    → Permᴰ ys (x ∷ rest)
    → All (λ z. contains z ys ≡ true) xs
    → All (λ z. text_eq x z ≡ false) xs
    → All (λ z. contains z rest ≡ true) xs
unfolding contains
within-rest x [] rest ys p h k = tt
within-rest x (z ∷ xs) rest ys p (a, h) (b, k) =
    (ground (arith, contains-perm z p), within-rest x xs rest ys p h k)

-- Different texts within a list no longer than they are all of it.
pub within-perm :
    (xs ys : List Text)
    → length xs ≡ length ys
    → All (λ x. contains x ys ≡ true) xs
    → Distinct xs
    → Permᴰ xs ys
within-perm [] [] e h d = Permᴰ.nil
within-perm [] (y ∷ ys) e h d = absurd (omega arith)
within-perm (x ∷ xs) ys e (a, h) (other, d) =
    let (rest, p) = pick x ys a in
    let same = length-perm p in
    Permᴰ.trans
      (Permᴰ.cons refl (within-perm xs rest (omega arith) (within-rest x xs rest ys p h other) d))
      (Permᴰ.symm p)

text_eq_flip : (x y : Text) → text_eq x y ≡ false → text_eq y x ≡ false
text_eq_flip x y h = elim (Bool-cases (text_eq y x)) [
  | inl same ↦ cc ((text_eq_iff y x).0 same, text_eq_refl x)
  | inr other ↦ other
]

Distinct-swap :
    (a b c d : Text) (l : List Text) → a ≡ d → b ≡ c → Distinct (a ∷ b ∷ l) → Distinct (c ∷ d ∷ l)
Distinct-swap a b c d l e f ((ab, al), (bl, h)) =
    subst (λ x. Distinct (x ∷ d ∷ l)) f
      (subst (λ x. Distinct (b ∷ x ∷ l)) e ((text_eq_flip a b ab, bl), (al, h)))

pub Distinct-perm : {xs ys : List Text} → Permᴰ xs ys → Distinct xs → Distinct ys
Distinct-perm Permᴰ.nil h = tt
Distinct-perm (Permᴰ.cons {a} {b} {l₁} {l₂} e p) (other, h) = (
  subst (λ x. All (λ y. text_eq x y ≡ false) l₂) e (All-perm (λ y. text_eq a y ≡ false) p other),
  Distinct-perm p h,
)
Distinct-perm (Permᴰ.swap {a} {b} {a'} {b'} {l} e f) h = Distinct-swap a b a' b' l e f h
Distinct-perm (Permᴰ.trans p q) h = Distinct-perm q (Distinct-perm p h)

contained_self :
    (xs ys : List Text)
    → ((x : Text) → contains x xs ≡ true → contains x ys ≡ true)
    → All (λ x. contains x ys ≡ true) xs
unfolding contains
contained_self [] ys h = tt
contained_self (x ∷ xs) ys h =
    (h x (ground (arith, text_eq_refl x)), contained_self xs ys (λ z k. h z (ground arith)))

pub All-contains : (xs ys : List Text) → Permᴰ xs ys → All (λ x. contains x ys ≡ true) xs
All-contains xs ys p = contained_self xs ys (λ x h. sym (contains-perm x p) ∙ h)

pub contains-All :
    (P : Text → Type 0) (n : Text) (names : List Text) → contains n names ≡ true → All P names → P n
unfolding contains
contains-All P n [] h all_ = cc
contains-All P n (x ∷ names) h (p, all_) = elim (Bool-cases (text_eq x n)) [
  | inl same ↦ subst P ((text_eq_iff x n).0 same) p
  | inr other ↦ contains-All P n names (rw other at h) all_
]

pub contains-append :
    (k : Text) (xs ys : List Text) → contains k (xs ++ ys) ≡ (contains k xs || contains k ys)
unfolding contains
contains-append k [] ys = refl
contains-append k (x ∷ xs) ys = ground (arith, contains-append k xs ys)

other-append :
    (x : Text) (xs ys : List Text)
    → All (λ y. text_eq x y ≡ false) xs
    → All (λ y. text_eq x y ≡ false) ys
    → All (λ y. text_eq x y ≡ false) (xs ++ ys)
other-append x [] ys h k = k
other-append x (z ∷ xs) ys (a, h) k = (a, other-append x xs ys h k)

pub Distinct-append :
    (xs ys : List Text)
    → Distinct xs
    → Distinct ys
    → All (λ y. contains y xs ≡ false) ys
    → Distinct (xs ++ ys)
Distinct-append [] ys h k apart = k
Distinct-append (x ∷ xs) ys (other, h) k apart =
    let (away, rest) = apart-cons x xs ys apart in
    (other-append x xs ys other away, Distinct-append xs ys h k rest)

pub contains-snoc :
    (k : Text) (ns : List Text) (n : Text)
    → contains k (ns ++ n ∷ []) ≡ (contains k ns || text_eq n k)
unfolding contains
contains-snoc k [] n = ground arith
contains-snoc k (m ∷ ns) n = ground (arith, contains-snoc k ns n)

pub Distinct-snoc :
    (ns : List Text) (n : Text) → contains n ns ≡ false → Distinct ns → Distinct (ns ++ n ∷ [])
unfolding contains
Distinct-snoc [] n e d = (tt, tt)
Distinct-snoc (m ∷ ns) n e (other, d) = (
  All-append (λ y. text_eq m y ≡ false) ns (n ∷ []) other (ground arith, tt),
  Distinct-snoc ns n (ground arith) d,
)

pub off-contains :
    (n : Text) (ns : List Text) → All (λ y. text_eq n y ≡ false) ns → contains n ns ≡ false
unfolding contains
off-contains n [] off = refl
off-contains n (m ∷ ns) (e, off) = elim (Bool-cases (text_eq m n)) [
  | inl here ↦ cc (rw ((text_eq_iff m n).0 here) at e, text_eq_refl n)
  | inr other ↦ rw other (off-contains n ns off)
]

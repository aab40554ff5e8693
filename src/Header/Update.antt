-- ===== src/Header/Update.antt =====
-- `Set` and `Del`: what they change, and the order that they keep.
use tls_forge.Base.{
  inl, inr, Bool-cases, false, List, [], ◌∷◌, ◌++◌, ◌≡◌, refl, arith, if◌then◌else◌, Text, text_eq,
  text_eq_iff, text_eq_refl, to_lower, to_lower_idem, equal_fold,
}
use tls_forge.Header.{Header, values, has, set, set_lower, del, names}
use tls_forge.Header.Lookup.{values_at, has_key, values-values_at, has-has_key}

abbrev pub rest_of : List Text → List Text
rest_of [] = []
rest_of (v ∷ vs) = vs

-- `n` stands for a name in lower case.
values_at-set_lower_self :
    (h : Header) (n v : Text)
    → to_lower n ≡ n
    → values_at n (set_lower h n v) ≡ v ∷ rest_of (values_at n h)
unfolding values_at set_lower
values_at-set_lower_self [] n v e = rw e (rw text_eq_refl)
values_at-set_lower_self (f ∷ h) n v e = rw e (ground (arith, values_at-set_lower_self h n v e))

values_at-set_lower_ne :
    (h : Header) (n v k : Text)
    → to_lower n ≡ n
    → text_eq n k ≡ false
    → values_at k (set_lower h n v) ≡ values_at k h
unfolding values_at set_lower
values_at-set_lower_ne [] n v k e d = rw e (rw d)
values_at-set_lower_ne (f ∷ h) n v k e d = rw e (
    ground (
      arith,
      values_at-set_lower_ne h n v k e d,
      text_eq_iff (to_lower f.name) n,
      text_eq_iff (to_lower f.name) k,
      text_eq_iff n k,
    ))

names-set_lower :
    (h : Header) (n v : Text)
    → to_lower n ≡ n
    → names (set_lower h n v) ≡ (if has_key n h then names h else names h ++ n ∷ [])
unfolding names set_lower has_key
names-set_lower [] n v e = refl
names-set_lower (f ∷ h) n v e = rw e (ground (arith, names-set_lower h n v e))

-- `Set` writes the first value under the name, whatever its case, and every other name keeps all
-- of its values.
pub values-set :
    (h : Header) (n v m : Text)
    → values (set h n v) m ≡ (if equal_fold n m then v ∷ rest_of (values h m) else values h m)
unfolding set equal_fold
values-set h n v m = ground (
  arith,
  values-values_at (set_lower h (to_lower n) v) m,
  values-values_at h m,
  values_at-set_lower_self h (to_lower n) v (to_lower_idem n),
  values_at-set_lower_ne h (to_lower n) v (to_lower m) (to_lower_idem n),
  text_eq_iff (to_lower n) (to_lower m),
)

-- `Set` keeps every header in its place, and a name that is not there yet goes last, in lower case.
pub names-set :
    (h : Header) (n v : Text)
    → names (set h n v) ≡ (if has h n then names h else names h ++ to_lower n ∷ [])
unfolding set
names-set h n v = rw has-has_key (names-set_lower h (to_lower n) v (to_lower_idem n))

-- After `Del` the name has no value, and every other name keeps all of its values.
pub values-del :
    (h : Header) (n m : Text) → values (del h n) m ≡ (if equal_fold n m then [] else values h m)
unfolding values del
values-del [] n m = ground arith
values-del (f ∷ h) n m = ground (
  arith,
  values-del h n m,
  text_eq_iff (to_lower f.name) (to_lower n),
  text_eq_iff (to_lower f.name) (to_lower m),
  text_eq_iff (to_lower n) (to_lower m),
)

-- The same for every key, of a name in any case.
pub values_at-set :
    (h : Header) (n v k : Text)
    → values_at k (set h n v)
      ≡ (if text_eq (to_lower n) k then v ∷ rest_of (values_at k h) else values_at k h)
unfolding set
values_at-set h n v k = elim (Bool-cases (text_eq (to_lower n) k)) [
  | inl same ↦
      let e = (text_eq_iff (to_lower n) k).0 same in
      rw (same, ← e) (values_at-set_lower_self h (to_lower n) v (to_lower_idem n))
  | inr other ↦ rw other (values_at-set_lower_ne h (to_lower n) v k (to_lower_idem n) other)
]

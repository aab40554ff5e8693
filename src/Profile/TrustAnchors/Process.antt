-- ===== src/Profile/TrustAnchors/Process.antt =====
-- profile/trustanchors.go: the payloads that one process gives, over all of its calls.
use mathlib.Core.List.{Permᴰ}
use mathlib.Core.List.Permᴰ
use mathlib.Core.Path.{subst}
use tls_forge.Base.{
  ◌<◌, List, [], ◌∷◌, Option, none, some, ◌≡◌, inl, inr, refl, ap, sym, ◌∙◌, arith, Bool-cases,
  Option-cases, Text, text_eq, text_eq_iff, text_eq_refl, concat, length, All, sort, text_leb,
  text_leb-TotalOrder, sort-perm, sort-Permᴰ, All-perm,
}
use tls_forge.Profile.TrustAnchors.{
  Error, ok, err, split_trust_anchors, size_of, join_trust_anchors, Cache, cached, key_of,
  remembered, payload, Result-cases,
}
use tls_forge.Profile.TrustAnchors.Wire.{
  IsRecord, split-join_trust_anchors, join-split_trust_anchors, concat-injective, small-split,
}

size_of-perm : {xs ys : List Text} → Permᴰ xs ys → size_of xs ≡ size_of ys
unfolding size_of
size_of-perm Permᴰ.nil = refl
size_of-perm (Permᴰ.cons e p) = omega (arith, ap length e, size_of-perm p)
size_of-perm (Permᴰ.swap e f) = omega (arith, ap length e, ap length f)
size_of-perm (Permᴰ.trans p q) = size_of-perm p ∙ size_of-perm q

-- What is cached under a key is a list of the anchors that the key was made of.
abbrev pub IsEntry : Text → Text → Type 0
IsEntry key payload =
    (records : List Text) × (split_trust_anchors payload ≡ ok records)
    × All IsRecord records
    × (key ≡ key_of records)

abbrev pub IsCache : Cache → Type 0
IsCache [] = Unit
IsCache ((key, payload) ∷ cache) = IsEntry key payload × IsCache cache

cached-IsEntry :
    (key payload : Text) (cache : Cache)
    → IsCache cache
    → cached key cache ≡ some payload
    → IsEntry key payload
unfolding cached
cached-IsEntry key payload [] is e = cc
cached-IsEntry key payload ((k, p) ∷ cache) (entry, is) e = elim (Bool-cases (text_eq k key)) [
  | inl same ↦
      let there : some p ≡ some payload = rw same at e in
      let q : p ≡ payload = cc in
      subst (IsEntry key) q (subst (λ x. IsEntry x p) ((text_eq_iff k key).0 same) entry)
  | inr other ↦ cached-IsEntry key payload cache is (rw other at e)
]

-- What a shuffle is.
abbrev pub IsShuffle : (List Text → List Text) → Type 0
IsShuffle shuffle = (records : List Text) → Permᴰ (shuffle records) records

payload-Result :
    (shuffle : List Text → List Text) (cache : Cache) (captured : Text) (records : List Text)
    → split_trust_anchors captured ≡ ok records
    → payload shuffle cache captured
      ≡ ok (remembered shuffle cache records (cached (key_of records) cache))
unfolding payload
payload-Result shuffle cache captured records e = rw e refl

pub payload-err :
    (shuffle : List Text → List Text) (cache : Cache) (captured : Text) (e : Error)
    → split_trust_anchors captured ≡ err e
    → payload shuffle cache captured ≡ err e
unfolding payload
payload-err shuffle cache captured e bad = rw bad refl

key_of-Permᴰ :
    (xs ys : List Text) → All IsRecord xs → All IsRecord ys → key_of xs ≡ key_of ys → Permᴰ xs ys
key_of-Permᴰ xs ys are bre e =
    let px = sort-Permᴰ text_leb xs in
    let py = sort-Permᴰ text_leb ys in
    let same =
      concat-injective (sort text_leb xs) (sort text_leb ys) (All-perm IsRecord (Permᴰ.symm px) are)
        (All-perm IsRecord (Permᴰ.symm py) bre) e in
    Permᴰ.trans (Permᴰ.symm px) (subst (λ l. Permᴰ l ys) (sym same) py)

fresh-IsEntry :
    (shuffle : List Text → List Text) (records : List Text)
    → IsShuffle shuffle
    → All IsRecord records
    → size_of records < 65536
    → (split_trust_anchors (join_trust_anchors (shuffle (sort text_leb records)))
        ≡ ok (shuffle (sort text_leb records)))
      × Permᴰ (shuffle (sort text_leb records)) records
      × All IsRecord (shuffle (sort text_leb records))
fresh-IsEntry shuffle records shuffles are small =
    let order = shuffle (sort text_leb records) in
    let p : Permᴰ order records =
      Permᴰ.trans (shuffles (sort text_leb records)) (sort-Permᴰ text_leb records) in
    let bre = All-perm IsRecord (Permᴰ.symm p) are in
    (split-join_trust_anchors order bre (omega (arith, size_of-perm p)), p, bre)

remembered-IsCache :
    (shuffle : List Text → List Text) (cache : Cache) (records : List Text) (found : Option Text)
    → IsShuffle shuffle
    → IsCache cache
    → All IsRecord records
    → size_of records < 65536
    → cached (key_of records) cache ≡ found
    → ((order : List Text) × (split_trust_anchors ((remembered shuffle cache records found).0)
          ≡ ok order)
        × Permᴰ order records)
      × IsCache ((remembered shuffle cache records found).1)
remembered-IsCache shuffle cache records (some p) shuffles is are small e =
    let (order, splits, bre, same) = cached-IsEntry (key_of records) p cache is e in
    ((order, splits, key_of-Permᴰ order records bre are (sym same)), is)
remembered-IsCache shuffle cache records none shuffles is are small e =
    let (splits, p, bre) = fresh-IsEntry shuffle records shuffles are small in
    (
      (shuffle (sort text_leb records), splits, p),
      (
        (
          shuffle (sort text_leb records),
          splits,
          bre,
          ap concat (sort-perm text_leb text_leb-TotalOrder (Permᴰ.symm p)),
        ),
        is,
      ),
    )

-- A captured list of bytes that splits into anchors is given a payload that splits into the same
-- anchors in some order, whatever the calls before it left in the cache and whatever a shuffle
-- that permutes draws; and the cache keeps its invariant.
pub payload-IsCache :
    (shuffle : List Text → List Text) (cache : Cache) (captured : Text) (records : List Text)
    → IsShuffle shuffle
    → IsCache cache
    → All (λ c. c < 256) captured
    → split_trust_anchors captured ≡ ok records
    → (given : Text) × (after : Cache) × (payload shuffle cache captured ≡ ok (given, after))
      × ((order : List Text) × (split_trust_anchors given ≡ ok order) × Permᴰ order records)
      × IsCache after
payload-IsCache shuffle cache captured records shuffles is bytes e =
    let (joined, are) = join-split_trust_anchors captured records bytes e in
    let small = small-split captured records bytes e in
    let found = cached (key_of records) cache in
    let (order, is') = remembered-IsCache shuffle cache records found shuffles is are small refl in
    (
      (remembered shuffle cache records found).0,
      (remembered shuffle cache records found).1,
      payload-Result shuffle cache captured records e,
      order,
      is',
    )

-- The cache that a run of calls leaves, each call with a shuffle and a captured list of its own.
pub data Calls : Cache → Cache → Type 0 where
  done : {c : Cache} → Calls c c
  call :
      {c d e : Cache} (shuffle : List Text → List Text) (captured given : Text)
      → payload shuffle c captured ≡ ok (given, d)
      → Calls d e
      → Calls c e

remembered-cached :
    (shuffle : List Text → List Text) (cache : Cache) (records : List Text) (key p : Text)
    → cached key cache ≡ some p
    → cached key ((remembered shuffle cache records (cached (key_of records) cache)).1) ≡ some p
unfolding cached
remembered-cached shuffle cache records key p e =
    elim (Option-cases (cached (key_of records) cache)) [
      | inl none_ ↦ elim (Bool-cases (text_eq (key_of records) key)) [
        | inl same ↦
            let there : cached key cache ≡ none =
              rw (← ((text_eq_iff (key_of records) key).0 same)) none_ in
            cc
        | inr other ↦ rw (none_, other) e
      ]
      | inr (q, some_) ↦ rw some_ e
    ]

payload-cached :
    (shuffle : List Text → List Text) (cache after : Cache) (captured given key p : Text)
    → payload shuffle cache captured ≡ ok (given, after)
    → cached key cache ≡ some p
    → cached key after ≡ some p
unfolding payload
payload-cached shuffle cache after captured given key p e there =
    elim (Result-cases (split_trust_anchors captured)) [
      | inl (records, good) ↦
          let r = remembered shuffle cache records (cached (key_of records) cache) in
          let whole : ok r ≡ ok (given, after) = rw good at e in
          let pair : r ≡ (given, after) = cc in
          subst (λ c. cached key c ≡ some p) (ap (λ x. x.1) pair)
            (remembered-cached shuffle cache records key p there)
      | inr (f, bad) ↦ cc (rw bad at e)
    ]

Calls-cached :
    {c d : Cache} (key p : Text) → Calls c d → cached key c ≡ some p → cached key d ≡ some p
Calls-cached key p done there = there
Calls-cached {c} key p (call {d} shuffle captured given e calls) there =
    Calls-cached key p calls (payload-cached shuffle c d captured given key p e there)

remembered-key :
    (shuffle : List Text → List Text) (cache : Cache) (records : List Text) (found : Option Text)
    → cached (key_of records) cache ≡ found
    → cached (key_of records) ((remembered shuffle cache records found).1)
      ≡ some ((remembered shuffle cache records found).0)
unfolding cached
remembered-key shuffle cache records (some p) e = e
remembered-key shuffle cache records none e = rw (text_eq_refl (key_of records)) refl

-- Once a list of anchors was given a payload, every later call of the process on a list of the
-- same anchors, in whatever order they were captured, is given the same payload, whatever calls
-- lie between and whatever the shuffle of the later call draws.
pub payload-stable :
    (shuffle later : List Text → List Text) (c d e : Cache)
    → (first second given : Text) (xs ys : List Text) → split_trust_anchors first ≡ ok xs
    → split_trust_anchors second ≡ ok ys
    → Permᴰ xs ys
    → payload shuffle c first ≡ ok (given, d)
    → Calls d e
    → payload later e second ≡ ok (given, e)
payload-stable shuffle later c d e first second given xs ys fx fy p h calls =
    let key : key_of xs ≡ key_of ys = ap concat (sort-perm text_leb text_leb-TotalOrder p) in
    let r = remembered shuffle c xs (cached (key_of xs) c) in
    let whole : ok r ≡ ok (given, d) = sym (payload-Result shuffle c first xs fx) ∙ h in
    let pair : r ≡ (given, d) = cc in
    let there : cached (key_of xs) d ≡ some given =
      subst (λ (x : Text × Cache). cached (key_of xs) (x.1) ≡ some (x.0)) pair
        (remembered-key shuffle c xs (cached (key_of xs) c) refl) in
    let kept = Calls-cached (key_of xs) given calls there in
    let found : cached (key_of ys) e ≡ some given = rw key at kept in
    payload-Result later e second ys fy ∙ rw found refl

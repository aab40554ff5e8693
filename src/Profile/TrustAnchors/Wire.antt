-- ===== src/Profile/TrustAnchors/Wire.antt =====
-- profile/trustanchors.go: `splitTrustAnchors` and `joinTrustAnchors`, one against the other.
use tls_forge.Base.{
  ℕ, suc, zero, ◌+◌, ◌*◌, ◌%◌, ◌/◌, ◌<◌, true, false, List, [], ◌∷◌, ◌++◌, ◌≡◌, inl, inr, refl, ap,
  sym, ◌∙◌, arith, ltb, ◌==◌, Bool-cases, Text, concat, length, length-append, take, drop,
  take-append, drop-append, take-append-drop, length-take, All,
}
use tls_forge.Profile.TrustAnchors.{
  Result, ok, err, ◌>>=◌, records_loop, split_trust_anchors, size_of, join_trust_anchors,
}

-- An anchor behind its length, and not empty.
abbrev pub IsRecord : Text → Type 0
IsRecord r = (body : Text) × (r ≡ length body ∷ body) × (0 < length body)

length-concat : (records : List Text) → length (concat records) ≡ size_of records
unfolding size_of
length-concat [] = refl
length-concat (r ∷ records) = omega (arith, length-append r (concat records), length-concat records)

records_loop-append :
    (fuel offset : ℕ) (body list : Text)
    → 0 < length body
    → records_loop (suc fuel) offset (length body ∷ (body ++ list)) ≡ (
        records_loop fuel (offset + 1 + length body) list >>= λ records.
        ok ((length body ∷ body) ∷ records))
unfolding records_loop
records_loop-append fuel offset body list some_ =
    let fits : ltb (length (body ++ list)) (length body) ≡ false =
      ground (arith, length-append body list) in
    let more : (length body == 0) ≡ false = ground arith in
    rw (more, fits, take-append body list, drop-append body list) refl

records_loop-concat :
    (fuel offset : ℕ) (records : List Text)
    → All IsRecord records
    → length (concat records) < fuel
    → records_loop fuel offset (concat records) ≡ ok records
unfolding records_loop
records_loop-concat zero offset records are h = absurd (omega arith)
records_loop-concat (suc fuel) offset [] are h = refl
records_loop-concat (suc fuel) offset (r ∷ records) ((body, e, some_), are) h =
    let size = length-append body (concat records) in
    let h' = rw e at h in
    rw (e, records_loop-append fuel offset body (concat records) some_)
      (ap (λ x. x >>= λ rs. ok ((length body ∷ body) ∷ rs))
        (records_loop-concat fuel (offset + 1 + length body) records are (omega (arith, size, h'))))

-- A list of anchors that fits its length field is split again into the anchors it was joined from.
pub split-join_trust_anchors :
    (records : List Text)
    → All IsRecord records
    → size_of records < 65536
    → split_trust_anchors (join_trust_anchors records) ≡ ok records
unfolding split_trust_anchors join_trust_anchors
split-join_trust_anchors records are small =
    let size = length-concat records in
    let n = size_of records in
    let same : (n % 65536 / 256 * 256 + n % 65536 % 256 == length (concat records)) ≡ true =
      ground arith in
    rw same (records_loop-concat (suc (length (concat records))) 0 records are (omega arith))

cons-inverse :
    (x : Text) (r : Result (List Text)) (records : List Text)
    → (r >>= λ rs. ok (x ∷ rs)) ≡ ok records
    → (rs : List Text) × (r ≡ ok rs) × (x ∷ rs ≡ records)
cons-inverse x (ok rs) records e = (rs, refl, cc)
cons-inverse x (err f) records e = cc

-- What a loop that succeeds has read.
records_loop_sound :
    (fuel offset : ℕ) (list : Text) (records : List Text)
    → records_loop fuel offset list ≡ ok records
    → (concat records ≡ list) × All IsRecord records
unfolding records_loop
records_loop_sound zero offset list records e = cc
records_loop_sound (suc fuel) offset [] [] e = (refl, tt)
records_loop_sound (suc fuel) offset [] (r ∷ records) e = cc
records_loop_sound (suc fuel) offset (n ∷ list) records e = elim (Bool-cases (n == 0)) [
  | inl empty ↦ cc (rw empty at e)
  | inr some_ ↦ elim (Bool-cases (ltb (length list) n)) [
    | inl past ↦ cc (rw (some_, past) at e)
    | inr fits ↦
        let (rs, good, same) =
          cons-inverse (n ∷ take n list) (records_loop fuel (offset + 1 + n) (drop n list)) records
            (rw (some_, fits) at e) in
        let (joined, are) = records_loop_sound fuel (offset + 1 + n) (drop n list) rs good in
        let size = length-take n list (ground arith) in
        (
          rw (← same, joined, take-append-drop n list) refl,
          rw (← same) ((take n list, ap (λ m. m ∷ take n list) (sym size), ground arith), are),
        )
  ]
]

-- A payload of bytes that is split joins to the same payload.
pub join-split_trust_anchors :
    (payload : Text) (records : List Text)
    → All (λ c. c < 256) payload
    → split_trust_anchors payload ≡ ok records
    → (join_trust_anchors records ≡ payload) × All IsRecord records
unfolding split_trust_anchors join_trust_anchors
join-split_trust_anchors [] records bytes e = cc
join-split_trust_anchors (h ∷ []) records bytes e = cc
join-split_trust_anchors (high ∷ low ∷ list) records (bh, (bl, bytes)) e =
    elim (Bool-cases (high * 256 + low == length list)) [
      | inl same ↦
          let (joined, are) =
            records_loop_sound (suc (length list)) 0 list records (rw same at e) in
          let size : size_of records ≡ high * 256 + low =
            ground (arith, length-concat records, ap length joined) in
          let h : high * 256 + low < 65536 = omega arith in (rw (joined, size) (ground arith), are)
      | inr other ↦ cc (rw other at e)
    ]

-- The anchors of a list can be told from their concatenation.
pub concat-injective :
    (xs ys : List Text) → All IsRecord xs → All IsRecord ys → concat xs ≡ concat ys → xs ≡ ys
concat-injective xs ys are bre e =
    let fuel = suc (length (concat xs)) in
    let a = records_loop-concat fuel 0 xs are (omega arith) in
    let b = records_loop-concat fuel 0 ys bre (omega (arith, ap length e)) in
    let c : records_loop fuel 0 (concat xs) ≡ records_loop fuel 0 (concat ys) =
      ap (records_loop fuel 0) e in
    let same : ok xs ≡ ok ys = sym a ∙ c ∙ b in cc

-- The anchors of a payload of bytes fit a length field.
pub small-split :
    (payload : Text) (records : List Text)
    → All (λ c. c < 256) payload
    → split_trust_anchors payload ≡ ok records
    → size_of records < 65536
unfolding split_trust_anchors
small-split [] records bytes e = cc
small-split (h ∷ []) records bytes e = cc
small-split (high ∷ low ∷ list) records (bh, (bl, bytes)) e =
    elim (Bool-cases (high * 256 + low == length list)) [
      | inl same ↦
          let (joined, are) =
            records_loop_sound (suc (length list)) 0 list records (rw same at e) in
          ground (arith, length-concat records, ap length joined)
      | inr other ↦ cc (rw other at e)
    ]

-- ===== src/Profile/TrustAnchors.antt =====
-- profile/trustanchors.go: the list of trust anchors, and the order that one process gives it.
pub mod Wire
pub mod Process
mod Examples
use tls_forge.Base.{
  ℕ, suc, zero, ◌+◌, ◌*◌, ◌%◌, List, [], ◌∷◌, ◌++◌, Option, none, some, ltb, ◌==◌, if◌then◌else◌,
  Text, text_eq, concat, length, take, drop, sort, text_leb, ◌≡◌, ◌⊎◌, inl, inr, refl,
}
use tls_forge.Fingerprint.Wire.{encode16}

pub data Error : Type 0 where
  too_short wrong_length out_of_fuel : Error
  empty_anchor past_the_list : (offset : ℕ) → Error

pub data Result {ℓ} (A : Type ℓ) : Type ℓ where
  ok : A → Result A
  err : Error → Result A

infixl 5 ◌>>=◌
abbrev pub ◌>>=◌ {ℓ κ} : {A : Type ℓ} {B : Type κ} → Result A → (A → Result B) → Result B
ok a >>= f = f a
err e >>= f = err e

-- The loop of `splitTrustAnchors`: the offset, and the list from there on. Each round takes at
-- least two bytes.
unfoldable pub records_loop : ℕ → ℕ → Text → Result (List Text)
records_loop zero offset list = err out_of_fuel
records_loop (suc fuel) offset [] = ok []
records_loop (suc fuel) offset (n ∷ list) =
    let more = records_loop fuel (offset + 1 + n) (drop n list) >>= λ records.
    ok ((n ∷ take n list) ∷ records) in
    if n == 0
    then err (empty_anchor offset)
    else if ltb (length list) n
    then err (past_the_list offset)
    else more

unfoldable pub split_trust_anchors : Text → Result (List Text)
unfolding records_loop
split_trust_anchors (high ∷ low ∷ list) =
    if high * 256 + low == length list
    then records_loop (suc (length list)) 0 list
    else err wrong_length
split_trust_anchors _ = err too_short

unfoldable pub size_of : List Text → ℕ
size_of [] = 0
size_of (record_ ∷ records) = length record_ + size_of records

-- `uint16(size)`
unfoldable pub join_trust_anchors : List Text → Text
unfolding size_of
join_trust_anchors records = encode16 (size_of records % 65536) ++ concat records

-- `bySet`
abbrev pub Cache : Type 0
Cache = List (Text × Text)

unfoldable pub cached : Text → Cache → Option Text
unfolding text_eq
cached key [] = none
cached key ((k, payload) ∷ cache) = if text_eq k key then some payload else cached key cache

abbrev pub key_of : List Text → Text
key_of records = concat (sort text_leb records)

abbrev pub remembered : (List Text → List Text) → Cache → List Text → Option Text → Text × Cache
remembered shuffle cache records (some payload) = (payload, cache)
remembered shuffle cache records none =
    let payload = join_trust_anchors (shuffle (sort text_leb records)) in
    (payload, (key_of records, payload) ∷ cache)

-- The shuffle is the one that this call draws.
unfoldable pub payload : (List Text → List Text) → Cache → Text → Result (Text × Cache)
unfolding split_trust_anchors cached join_trust_anchors sort text_leb
payload shuffle cache captured = do
  records ← split_trust_anchors captured
  ok (remembered shuffle cache records (cached (key_of records) cache))

pub Result-cases {ℓ} :
    {A : Type ℓ} (r : Result A) → ((a : A) × (r ≡ ok a)) ⊎ ((e : Error) × (r ≡ err e))
Result-cases (ok a) = inl (a, refl)
Result-cases (err e) = inr (e, refl)

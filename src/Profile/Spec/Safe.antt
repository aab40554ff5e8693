-- ===== src/Profile/Spec/Safe.antt =====
-- profile/profile.go: what `Spec` lets through, and what `ClientProfile` can refuse.
use mathlib.Core.List.{Permᴰ}
use tls_forge.Base.{
  ℕ, ◌<◌, Bool, false, List, [], ◌∷◌, Option, none, some, ◌≡◌, ◌≢◌, inl, inr, refl, arith, ◌==◌,
  Bool-cases, ◌++◌, Text, All,
}
use tls_forge.Profile.{Profile, Problem, profile, load, is_empty, is_bare_base}
use tls_forge.Profile.Valid.{load-valid}
use tls_forge.Profile.TrustAnchors.{Result, ok, err, split_trust_anchors, Cache, payload}
use tls_forge.Profile.TrustAnchors.Process.{IsCache}
use tls_forge.Profile.Spec.{
  Extension, generic, other, SpecResult, spec_of, spec_error, SpecError, trust_anchors, onto,
  replaced, refresh, spec, invalid, client_profile, Parts, parts_of, built, stock_client,
  unless_failed,
}

module _ {E : Type 0} where
  -- How an extension that is sent comes from the one that was captured.
  pub data Sent : Extension E → Extension E → Type 0 where
    same : {e : E} → Sent (other e) (other e)
    reordered :
        {captured given : Text} (xs ys : List Text)
        → split_trust_anchors captured ≡ ok xs
        → split_trust_anchors given ≡ ok ys
        → Permᴰ ys xs
        → Sent (generic trust_anchors captured) (generic trust_anchors given)

  -- One extension for each, in order.
  pub data AllSent : List (Extension E) → List (Extension E) → Type 0 where
    nil : AllSent [] []
    cons :
        {x y : Extension E} {xs ys : List (Extension E)}
        → Sent x y
        → AllSent xs ys
        → AllSent (x ∷ xs) (y ∷ ys)

  abbrev pub HasBytes : Extension E → Type 0
  HasBytes (generic id captured) = All (λ c. c < 256) captured
  HasBytes (other e) = Unit

  -- What came out of an attempt: extensions that may be sent, or a refusal; and a cache.
  abbrev pub Outcome : List (Extension E) → SpecResult E × Cache → Type 0
  Outcome raw (spec_of sent, cache) = AllSent raw sent × IsCache cache
  Outcome raw (spec_error e, cache) = IsCache cache

onto_refuses :
    {E : Type 0} (x : Extension E) (r : SpecResult E × Cache)
    → ((e : SpecError) × (r.0 ≡ spec_error e))
    → (e : SpecError) × ((onto x r).0 ≡ spec_error e)
onto_refuses x (spec_of sent, cache) (e, h) = (e, cc)
onto_refuses x (spec_error f, cache) (e, h) = (e, h)

replaced_refuses :
    {E : Type 0} (id : ℕ) (cache : Cache) (rest : Cache → SpecResult E × Cache)
    (r : Result (Text × Cache))
    → ((after : Cache) → (e : SpecError) × ((rest after).0 ≡ spec_error e))
    → (e : SpecError) × ((replaced id cache rest r).0 ≡ spec_error e)
replaced_refuses id cache rest (ok (given, after)) h =
    onto_refuses (generic id given) (rest after) (h after)
replaced_refuses id cache rest (err f) h = (SpecError.malformed_trust_anchors f, refl)

refresh_refuses :
    {E : Type 0} (shuffle : List Text → List Text) (before behind : List (Extension E)) (id : ℕ)
    (frozen : Text) (cache : Cache)
    → id ≢ trust_anchors
    → (e : SpecError) × ((refresh shuffle (before ++ generic id frozen ∷ behind) cache).0
        ≡ spec_error e)
unfolding refresh
refresh_refuses shuffle [] behind id frozen cache unknown =
    let other_ : (id == trust_anchors) ≡ false = ground arith in
    (SpecError.unsupported id, rw other_ refl)
refresh_refuses shuffle (other e ∷ before) behind id frozen cache unknown =
    onto_refuses (other e) (refresh shuffle (before ++ generic id frozen ∷ behind) cache)
      (refresh_refuses shuffle before behind id frozen cache unknown)
refresh_refuses shuffle (generic k captured ∷ before) behind id frozen cache unknown =
    elim (Bool-cases (k == trust_anchors)) [
      | inr other_ ↦ (SpecError.unsupported k, rw other_ refl)
      | inl known ↦ rw known (
          replaced_refuses k cache (refresh shuffle (before ++ generic id frozen ∷ behind))
            (payload shuffle cache captured)
            (λ after. refresh_refuses shuffle before behind id frozen after unknown))
    ]

-- A captured ClientHello that holds a generic extension other than the trust anchors has no
-- spec, whatever else it holds.
pub spec_refuses :
    {E : Type 0} (raw_client_hello : Text → Option (List (Extension E)))
    (catalogue : Text → Option (Option (List (Extension E)))) (shuffle : List Text → List Text)
    (cache : Cache) (p : Profile) (before behind : List (Extension E)) (id : ℕ) (frozen : Text)
    → is_empty p.client_hello ≡ false
    → raw_client_hello p.client_hello ≡ some (before ++ generic id frozen ∷ behind)
    → id ≢ trust_anchors
    → (e : SpecError) × ((spec raw_client_hello catalogue shuffle cache p).0 ≡ spec_error e)
unfolding spec
spec_refuses raw_client_hello catalogue shuffle cache p before behind id frozen some_ reads
      unknown =
    rw (some_, reads) (refresh_refuses shuffle before behind id frozen cache unknown)

stock_client-valid :
    {E : Type 0} (base : Text) (entry : Option (Option (List (Extension E)))) (e : Problem)
    → stock_client base entry ≢ invalid e
stock_client-valid base none e h = cc
stock_client-valid base (some entry) e h = cc

built-valid :
    {E : Type 0} (r : SpecResult E) (parts : Parts) (e : Problem)
    → unless_failed r (built parts) ≢ invalid e
built-valid (spec_of extensions) parts e h = cc
built-valid (spec_error f) parts e h = cc

-- A profile that `Load` accepts is not refused later for its header order, its HTTP/1.1 headers
-- or its pseudo-headers.
pub load-client_profile :
    {E : Type 0} (valid_name : Text → Bool) (unmarshal : Text → Option Profile)
    (raw_client_hello : Text → Option (List (Extension E)))
    (catalogue : Text → Option (Option (List (Extension E)))) (shuffle : List Text → List Text)
    (cache : Cache) (text : Text) (p : Profile) (e : Problem)
    → load valid_name unmarshal text ≡ profile p
    → (client_profile valid_name raw_client_hello catalogue shuffle cache p).0 ≢ invalid e
unfolding client_profile
load-client_profile valid_name unmarshal raw_client_hello catalogue shuffle cache text p e loaded
      refused =
    let (good, pseudo) = load-valid valid_name unmarshal text p loaded in
    elim (Bool-cases (is_bare_base p)) [
      | inl bare ↦ stock_client-valid p.base (catalogue p.base) e (rw (good, bare) at refused)
      | inr own ↦
          built-valid ((spec raw_client_hello catalogue shuffle cache p).0) (parts_of p.http2) e
            (rw (good, own, pseudo own) at refused)
    ]

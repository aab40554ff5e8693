-- ===== src/Profile/TrustAnchors/Examples.antt =====
-- Two captures of the same two anchors, in either order.
use mathlib.Core.List.{Permᴰ}
use mathlib.Core.List.Permᴰ
use tls_forge.Base.{List, [], ◌∷◌, ◌≡◌, refl, arith, Text, text_eq, All, sort, text_leb}
use tls_forge.Base.Sort.{insert}
use tls_forge.Fingerprint.Wire.{encode16}
use tls_forge.Profile.TrustAnchors.{
  ok, split_trust_anchors, join_trust_anchors, size_of, records_loop, Cache, cached, payload,
}
use tls_forge.Profile.TrustAnchors.Wire.{
  IsRecord, split-join_trust_anchors, join-split_trust_anchors,
}
use tls_forge.Profile.TrustAnchors.Process.{
  IsShuffle, IsCache, payload-IsCache, Calls, payload-stable,
}

abbrev anchor_a : Text
anchor_a = 1 ∷ 97 ∷ []

abbrev anchor_b : Text
anchor_b = 2 ∷ 98 ∷ 99 ∷ []

abbrev first : Text
first = 0 ∷ 5 ∷ 2 ∷ 98 ∷ 99 ∷ 1 ∷ 97 ∷ []

abbrev second : Text
second = 0 ∷ 5 ∷ 1 ∷ 97 ∷ 2 ∷ 98 ∷ 99 ∷ []

abbrev swapped : List Text → List Text
swapped [] = []
swapped (x ∷ []) = x ∷ []
swapped (x ∷ y ∷ rest) = y ∷ x ∷ rest

swapped-IsShuffle : IsShuffle swapped
swapped-IsShuffle [] = Permᴰ.nil
swapped-IsShuffle (x ∷ []) = Permᴰ.refl (x ∷ [])
swapped-IsShuffle (x ∷ y ∷ rest) = Permᴰ.swap refl refl

anchors-IsRecord : All IsRecord (anchor_a ∷ anchor_b ∷ [])
anchors-IsRecord = ((97 ∷ [], refl, omega arith), ((98 ∷ 99 ∷ [], refl, omega arith), tt))

split-join_trust_anchors_example :
    split_trust_anchors (join_trust_anchors (anchor_a ∷ anchor_b ∷ []))
    ≡ ok (anchor_a ∷ anchor_b ∷ [])
unfolding size_of
split-join_trust_anchors_example =
    split-join_trust_anchors (anchor_a ∷ anchor_b ∷ []) anchors-IsRecord (omega arith)

join-split_trust_anchors_example :
    (join_trust_anchors (anchor_b ∷ anchor_a ∷ []) ≡ first)
    × All IsRecord (anchor_b ∷ anchor_a ∷ [])
unfolding split_trust_anchors records_loop
join-split_trust_anchors_example =
    join-split_trust_anchors first (anchor_b ∷ anchor_a ∷ []) (omega arith) refl

payload-IsCache_example :
    (given : Text) × (after : Cache) × (payload swapped [] first ≡ ok (given, after))
    × ((order : List Text) × (split_trust_anchors given ≡ ok order)
        × Permᴰ order (anchor_b ∷ anchor_a ∷ []))
    × IsCache after
unfolding split_trust_anchors records_loop
payload-IsCache_example =
    payload-IsCache swapped [] first (anchor_b ∷ anchor_a ∷ []) swapped-IsShuffle tt (omega arith)
      refl

abbrev kept : Cache
kept = (1 ∷ 97 ∷ 2 ∷ 98 ∷ 99 ∷ [], first) ∷ []

payload-stable_example : payload (λ r. r) kept second ≡ ok (first, kept)
unfolding split_trust_anchors records_loop payload cached join_trust_anchors size_of sort insert
    text_leb text_eq encode16
payload-stable_example =
    payload-stable swapped (λ r. r) [] kept kept first second first (anchor_b ∷ anchor_a ∷ [])
      (anchor_a ∷ anchor_b ∷ []) refl refl (Permᴰ.swap refl refl) refl Calls.done

-- ===== src/Profile/FromCapture/Grouping/Request.antt =====
-- profile/fromcapture.go: what the loop has grouped of a whole request.
use tls_forge.Base.{
  if_both, true, not, ◌&&◌, List, [], ◌∷◌, ◌++◌, ◌≡◌, inl, inr, refl, arith, Bool-cases, append-nil,
  append_assoc, Text, text_eq, codes, contains, to_lower,
}
use tls_forge.Capture.{HeaderField, wire_name, tail}
use tls_forge.Profile.FromCapture.{per_request, field_values, Groups, group_at, group_loop}
use tls_forge.Profile.FromCapture.Kept.{measured_values}
use tls_forge.Profile.FromCapture.Grouping.{Spells, Fits, no_groups}
use tls_forge.Profile.FromCapture.Grouping.Taken.{skipped, taken_lem, put_header, Taken-Fits}

dropped_lem :
    (n : Text) → per_request n && not (text_eq n (codes "host")) ≡ true → per_request n ≡ true
dropped_lem n e = ground arith

group_loop-Fits :
    (g : Groups) (before headers : List HeaderField) (names : List Text)
    → Spells headers names
    → Fits g before
    → Fits (group_loop g headers names) (before ++ headers)
unfolding group_loop
group_loop-Fits g before [] names spells fits = rw (append-nil before) fits
group_loop-Fits g before (h ∷ headers) names (e, spells) fits =
    rw (← append_assoc before (h ∷ []) headers)
      (elim (Bool-cases
        (per_request (to_lower h.name) && not (text_eq (to_lower h.name) (codes "host")))) [
          | inl drop ↦ rw drop (
              group_loop-Fits g (before ++ h ∷ []) headers (tail names) spells
                (skipped g before h (dropped_lem (to_lower h.name) drop) fits))
          | inr keep ↦ rw keep (
              group_loop-Fits (put_header g h (wire_name h.name names)) (before ++ h ∷ []) headers
                (tail names) spells
                (Taken-Fits g before h (wire_name h.name names) e (taken_lem (to_lower h.name) keep)
                  fits))
        ])

-- What is grouped of a whole request.
pub request-Fits :
    (headers : List HeaderField) (names : List Text)
    → Spells headers names
    → Fits (group_loop no_groups headers names) headers
unfolding group_at field_values contains measured_values
request-Fits headers names spells = group_loop-Fits no_groups [] headers names spells (record {
  held = λ k. if_both (per_request k) [];
  named = λ k j. if_both (text_eq k j) [];
  met = λ k. refl;
  measured = λ k own. refl;
  apart = tt;
})

-- ===== src/Capture/RoundTrip.antt =====
-- capture/capture.go: what is shown of HTTP/2 traffic, read back.
use tls_forge.Base.{List, [], ◌∷◌, map, Option, none, some, ◌≡◌, refl, ap₂}
use tls_forge.Fingerprint.Http as Seen
use tls_forge.Capture.{
  option_map, setting_shown, setting_seen, priority_shown, priority_seen, field_shown, field_seen,
  from_http2, fingerprint,
}

map-id {ℓ κ} :
    {A : Type ℓ} {B : Type κ} (f : A → B) (g : B → A)
    → ((a : A) → g (f a) ≡ a)
    → (xs : List A) → map g (map f xs) ≡ xs
map-id f g e [] = refl
map-id f g e (x ∷ xs) = ap₂ (◌∷◌) (e x) (map-id f g e xs)

priority_again :
    (p : Option Seen.Priority) → option_map priority_seen (option_map priority_shown p) ≡ p
priority_again none = refl
priority_again (some p) = refl

-- What a server saw of HTTP/2 traffic is unchanged by being shown and read back for comparison.
pub fingerprint-from_http2 : (h : Option Seen.Http2) → fingerprint (from_http2 h) ≡ h
unfolding fingerprint from_http2
fingerprint-from_http2 none = refl
fingerprint-from_http2 (some h) = λ i. some (record {
  settings = map-id setting_shown setting_seen (λ s. refl) h.settings i;
  window_update = h.window_update;
  priorities = map-id priority_shown priority_seen (λ p. refl) h.priorities i;
  headers = map-id field_shown field_seen (λ f. refl) h.headers i;
  header_priority = priority_again h.header_priority i;
})

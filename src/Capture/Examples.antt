-- ===== src/Capture/Examples.antt =====
-- HTTP/2 traffic that is shown and read back.
use tls_forge.Base.{[], ◌∷◌, true, Option, some, ◌≡◌, codes}
use tls_forge.Fingerprint.Http as Seen
use tls_forge.Capture.{from_http2, fingerprint}
use tls_forge.Capture.RoundTrip.{fingerprint-from_http2}

abbrev seen : Option Seen.Http2
seen = some (record {
  settings = record { id = 1; value = 65536 } ∷ [];
  window_update = 15663105;
  priorities = [];
  headers = record { name = codes ":method"; value = codes "GET" } ∷ [];
  header_priority = some (record { stream_id = 1; exclusive = true; depends_on = 0; weight = 255 });
})

fingerprint-from_http2_example : fingerprint (from_http2 seen) ≡ seen
fingerprint-from_http2_example = fingerprint-from_http2 seen

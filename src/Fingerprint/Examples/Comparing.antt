-- ===== src/Fingerprint/Examples/Comparing.antt =====
-- Runs of the comparison, and the theorems about it at a ClientHello and an HTTP request.
use tls_forge.Base.{true, [], ◌∷◌, none, some, ◌≡◌, ◌↔◌, refl, codes, decimal}
use tls_forge.Fingerprint.Wire.{documented}
use tls_forge.Fingerprint.Ja4.Order.{shuffled}
use tls_forge.Fingerprint.Http.{Http1, Http2, akamai}
use tls_forge.Fingerprint.Compare.{Report, report_ok, subtract, compare_tls, tls_fields}
use tls_forge.Fingerprint.Compare.Verdict.{AllMatch, compare_tls_verdict}
use tls_forge.Fingerprint.Compare.Shuffle.{compare_tls-shuffled}
use tls_forge.Fingerprint.Examples.{digest, distinct, exts-swapped, hello, swapped}

compare_tls-shuffled_example :
    (report : Report) × (compare_tls documented digest hello
        (shuffled hello hello.cipher_suites swapped)
      ≡ some report)
    × (report_ok report ≡ true)
compare_tls-shuffled_example =
    compare_tls-shuffled documented digest hello swapped exts-swapped distinct

compare_tls_verdict_example :
    (report : Report) × (compare_tls documented digest hello hello ≡ some report)
    × ((report_ok report ≡ true)
        ↔ AllMatch (tls_fields documented digest hello) (tls_fields documented digest hello))
compare_tls_verdict_example = compare_tls_verdict documented digest hello hello

abbrev get_request : Http1
get_request = record {
  headers =
      record { name = codes "Host"; value = codes "a" }
      ∷ record { name = codes "Accept"; value = codes "*" }
      ∷ [];
}

abbrev h2 : Http2
h2 = record {
  settings = record { id = 1; value = 65536 } ∷ record { id = 4; value = 6291456 } ∷ [];
  window_update = 15663105;
  priorities = [];
  headers =
      record { name = codes ":method"; value = codes "GET" }
      ∷ record { name = codes ":path"; value = codes "/" }
      ∷ record { name = codes "accept"; value = codes "*" }
      ∷ [];
  header_priority = none;
}

akamai_runs : akamai h2 ≡ codes "1:65536;4:6291456|15663105|0|m,p"
unfolding akamai decimal
akamai_runs = refl

subtract_runs :
    subtract (codes "a" ∷ codes "b" ∷ codes "a" ∷ []) (codes "a" ∷ []) ≡ codes "b" ∷ codes "a" ∷ []
unfolding subtract
subtract_runs = refl

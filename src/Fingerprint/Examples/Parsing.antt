-- ===== src/Fingerprint/Examples/Parsing.antt =====
-- Runs of the parser and the accessors, and the theorems about them at a ClientHello.
use tls_forge.Base.{[], ◌∷◌, ◌≡◌, ◌≢◌, refl, arith, Text, codes, length}
use tls_forge.Fingerprint.Wire.{documented, documented-IsDocumented}
use tls_forge.Fingerprint.Hello.{
  ok, err, out_of_fuel, not_client_hello, no_records, incomplete, truncated_record,
}
use tls_forge.Fingerprint.Parse.{parse_client_hello, handshake_body}
use tls_forge.Fingerprint.Parse.Records.{message, records_onto, Splits}
use tls_forge.Fingerprint.Parse.RoundTrip.{encode_hello, parse_client_hello-encode}
use tls_forge.Fingerprint.Parse.Bounds.{parse_client_hello-ends}
use tls_forge.Fingerprint.Examples.{fingerprinting, hello}

-- The message in two records, cut inside its header.
abbrev cut_1 : Text
cut_1 = 1 ∷ 0 ∷ []

abbrev cut_2 : Text
cut_2 = 0 ∷ length (encode_hello hello) ∷ encode_hello hello

abbrev wire : Text
wire = records_onto 0x0301 (cut_1 ∷ cut_2 ∷ []) (codes "more")

parse_runs :
    (parse_client_hello documented wire
      ≡ ok (record hello { raw = records_onto 0x0301 (cut_1 ∷ cut_2 ∷ []) [] }))
    × (parse_client_hello documented (codes "GET /") ≡ err truncated_record)
    × (parse_client_hello documented (0x16 ∷ 3 ∷ 1 ∷ 0 ∷ 1 ∷ 2 ∷ []) ≡ err not_client_hello)
    × (parse_client_hello documented (0x16 ∷ 3 ∷ 1 ∷ 0 ∷ 1 ∷ 1 ∷ []) ≡ err incomplete)
    × (parse_client_hello documented [] ≡ err no_records)
unfolding fingerprinting
parse_runs = (refl, refl, refl, refl, refl)

cuts : Splits [] (cut_1 ∷ cut_2 ∷ []) (message (encode_hello hello))
cuts = ((λ e. cc), refl)

parse_client_hello-encode_example :
    parse_client_hello documented wire
    ≡ ok (record hello { raw = records_onto 0x0301 (cut_1 ∷ cut_2 ∷ []) [] })
parse_client_hello-encode_example =
    parse_client_hello-encode documented documented-IsDocumented hello 0x0301 (cut_1 ∷ cut_2 ∷ [])
      (codes "more") refl (omega arith) cuts

parse_client_hello-ends_example : parse_client_hello documented wire ≢ err out_of_fuel
parse_client_hello-ends_example = parse_client_hello-ends documented documented-IsDocumented wire

reassembled :
    handshake_body documented wire
    ≡ ok (encode_hello hello, length (records_onto 0x0301 (cut_1 ∷ cut_2 ∷ []) []))
unfolding handshake_body fingerprinting
reassembled = refl

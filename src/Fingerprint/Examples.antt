-- ===== src/Fingerprint/Examples.antt =====
-- Test data of the package: a small ClientHello with GREASE in it.
mod Parsing
mod Prints
mod Comparing
use mathlib.Core.List.{Permᴰ, Memᴰ}
use mathlib.Core.List.Permᴰ
use tls_forge.Base.{
  ℕ, ◌+◌, ◌*◌, ◌≤◌, ◌<◌, Bool, true, false, not, List, [], ◌∷◌, ◌++◌, Option, none, some, ◌≡◌, ◌≢◌,
  ◌↔◌, ◌⊎◌, refl, arith, Text, codes, length, replicate, length-replicate, text_eq, join, split,
  decimal, hex, hex4, sort, text_leb,
}
use tls_forge.Fingerprint.Wire.{
  Cryptobyte, documented, documented-IsDocumented, first_byte, big_endian, cut, prefixed16,
  prefixed8, encode16,
}
use tls_forge.Fingerprint.Hello.{
  Extension, ClientHello, ok, err, out_of_fuel, max_handshake_size, extension_types, types_of,
  extension_in, extension, not_client_hello, no_records, incomplete, truncated_record, ext_alpn,
  ext_key_share, ext_server_name,
}
use tls_forge.Fingerprint.Grease.{is_grease, is_grease_iff, without_grease}
use tls_forge.Fingerprint.Parse.{uint16_all, parse_client_hello, handshake_body}
use tls_forge.Fingerprint.Parse.Records.{message, records_onto, Splits}
use tls_forge.Fingerprint.Parse.RoundTrip.{encode_hello, encode16s, parse_client_hello-encode}
use tls_forge.Fingerprint.Parse.Bounds.{handshake_body_bound, parse_client_hello-ends}
use tls_forge.Fingerprint.Accessors.{
  alpn, supported_versions, supported_groups, ec_point_formats, server_name, uint16_vector,
  uint8_vector, uint16_prefixed, uint8_prefixed, key_share_groups, protocol_loop, server_name_loop,
  key_share_loop,
}
use tls_forge.Fingerprint.Accessors.Encoded.{
  encode_protocols, encode_shares, uint16_vector-encode, alpn-encode, key_share_groups-encode,
  server_name-encode,
}
use tls_forge.Fingerprint.Accessors.Fuel.{accessor_loops-fuel}
use tls_forge.Fingerprint.Ja3.{ja3}
use tls_forge.Fingerprint.Ja3.Injective.{ja3_injective}
use tls_forge.Fingerprint.Ja4.{
  ja4, ja4_raw, ja4_parts, ja4_prefix, ja4_ciphers, ja4_extensions, ja4_signature_algorithms,
  ja4_extension_input, negotiable_version, ja4_version, highest, count_to_99, ja4_alpn,
  join_hex_sorted, truncated_sha256, with_signatures, hashed_types,
}
use tls_forge.Fingerprint.Ja4.Width.{length-ja4, negotiable_version_max}
use tls_forge.Fingerprint.Ja4.Order.{DistinctTypes, shuffled, ja4-shuffled}
use tls_forge.Fingerprint.Ja4.Noise.{plain, greased, fingerprints_greased}
use tls_forge.Fingerprint.Http.{Http1, Http2, HeaderField, akamai}
use tls_forge.Fingerprint.Compare.{
  Report, report_ok, subtract, compare_tls, compare_http1, compare_http2, tls_fields, http1_fields,
  http2_fields,
}
use tls_forge.Fingerprint.Compare.Counts.{count, subtract_iff}
use tls_forge.Fingerprint.Compare.Verdict.{AllMatch, compare_tls_verdict, compare_http_verdict}
use tls_forge.Fingerprint.Compare.Shuffle.{compare_tls-shuffled}

abbrev pub ext : ℕ → Text → Extension
ext t b = record { type = t; body = b }

abbrev pub sni : Extension
sni = ext 0 (prefixed16 (0 ∷ prefixed16 (codes "a.b")))

abbrev pub versions : Extension
versions = ext 43 (prefixed8 (encode16s (0x2a2a ∷ 0x0304 ∷ 0x0303 ∷ [])))

abbrev pub protocols : Extension
protocols = ext 16 (prefixed16 (encode_protocols (codes "h2" ∷ codes "http/1.1" ∷ [])))

abbrev pub groups : Extension
groups = ext 10 (prefixed16 (encode16s (29 ∷ [])))

abbrev pub schemes : Extension
schemes = ext 13 (prefixed16 (encode16s (0x0403 ∷ 0x0804 ∷ [])))

abbrev pub shares : Extension
shares = ext 51 (prefixed16 (encode_shares ((29, codes "key") ∷ [])))

abbrev pub noise : Extension
noise = ext 0x3a3a []

abbrev pub exts : List Extension
exts = sni ∷ versions ∷ protocols ∷ groups ∷ schemes ∷ shares ∷ []

abbrev pub hello : ClientHello
hello = record {
  raw = [];
  legacy_version = 0x0303;
  random = replicate 32 7;
  session_id = 5 ∷ [];
  cipher_suites = 0x1a1a ∷ 0x1301 ∷ 0xc02b ∷ [];
  compression_methods = 0 ∷ [];
  extensions = exts;
}

abbrev pub digest : Text → Text
digest s = replicate 32 0xab

unfoldable pub fingerprinting : Unit {0}
unfolding ja4 ja4_raw ja4_parts ja4_prefix ja4_ciphers ja4_extensions ja4_signature_algorithms
    ja4_extension_input negotiable_version ja3 uint16_vector uint8_vector alpn server_name
    extension_in types_of join parse_client_hello key_share_groups first_byte big_endian cut decimal
    without_grease ja4_version highest count_to_99 ja4_alpn join_hex_sorted truncated_sha256 hex
    with_signatures hashed_types subtract uint16_all
fingerprinting = tt

pub distinct : DistinctTypes exts
unfolding extension_in
distinct = (refl, (refl, (refl, (refl, (refl, (refl, tt))))))

abbrev pub swapped : List Extension
swapped = versions ∷ sni ∷ protocols ∷ groups ∷ schemes ∷ shares ∷ []

pub exts-swapped : Permᴰ exts swapped
exts-swapped = Permᴰ.swap refl refl

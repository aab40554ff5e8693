-- ===== src/Fingerprint/Accessors/Encoded.antt =====
-- fingerprint/clienthello.go: the accessors on extensions that a client encodes.
use tls_forge.Base.{
  ℕ, zero, suc, ◌<◌, List, [], ◌∷◌, ◌++◌, some, ◌≡◌, refl, ap, arith, Text, length, length-append,
  append-nil,
}
use tls_forge.Fingerprint.Wire.{
  Cryptobyte, IsDocumented, encode16, prefixed8, prefixed16, first_byte, read_uint16-encode16,
  read_uint8_length_prefixed-prefixed8, read_uint16_length_prefixed-prefixed16,
}
use tls_forge.Fingerprint.Hello.{ClientHello, extension, ext_server_name, ext_alpn, ext_key_share}
use tls_forge.Fingerprint.Parse.RoundTrip.{encode16s, uint16_all-encode16s, length-encode16s}
use tls_forge.Fingerprint.Accessors.{
  Prefix, uint8_prefixed, uint16_prefixed, uint16_vector, server_name, protocol_loop, alpn,
  key_share_loop, key_share_groups,
}

abbrev pub encode_protocols : List Text → Text
encode_protocols [] = []
encode_protocols (p ∷ ps) = prefixed8 p ++ encode_protocols ps

-- Groups with their key shares.
abbrev pub encode_shares : List (ℕ × Text) → Text
encode_shares [] = []
encode_shares ((g, k) ∷ shares) = encode16 g ++ (prefixed16 k ++ encode_shares shares)

abbrev pub groups_of : List (ℕ × Text) → List ℕ
groups_of [] = []
groups_of ((g, k) ∷ shares) = g ∷ groups_of shares

-- A vector with its prefix.
abbrev pub encode_vector : Prefix → List ℕ → Text
encode_vector uint8_prefixed vs = prefixed8 (encode16s vs)
encode_vector uint16_prefixed vs = prefixed16 (encode16s vs)

module _ (cb : Cryptobyte) (doc : IsDocumented cb) where
  read16_whole : (t : Text) → cb.read_uint16_length_prefixed (prefixed16 t) ≡ some (t, [])
  read16_whole t = rw (append-nil t) at (read_uint16_length_prefixed-prefixed16 cb doc t [])

  read8_whole : (t : Text) → cb.read_uint8_length_prefixed (prefixed8 t) ≡ some (t, [])
  read8_whole t = rw (append-nil t) at (read_uint8_length_prefixed-prefixed8 cb doc t [])

  -- A vector of 16-bit values comes back as it was sent, under either prefix.
  pub uint16_vector-encode :
      (c : ClientHello) (typ : ℕ) (p : Prefix) (vs : List ℕ)
      → extension c typ ≡ some (encode_vector p vs)
      → uint16_vector cb c typ p ≡ vs
  unfolding uint16_vector
  uint16_vector-encode c typ uint8_prefixed vs e =
      rw (e, read8_whole (encode16s vs))
        (ground (arith, length-encode16s vs, uint16_all-encode16s cb doc vs))
  uint16_vector-encode c typ uint16_prefixed vs e =
      rw (e, read16_whole (encode16s vs))
        (ground (arith, length-encode16s vs, uint16_all-encode16s cb doc vs))

  protocol_loop-encode :
      (ps : List Text) (fuel : ℕ)
      → length (encode_protocols ps) < fuel
      → protocol_loop cb fuel (encode_protocols ps) ≡ ps
  unfolding protocol_loop
  protocol_loop-encode ps zero h = elim h [ ]
  protocol_loop-encode [] (suc fuel) h = refl
  protocol_loop-encode (p ∷ ps) (suc fuel) h =
      rw (read_uint8_length_prefixed-prefixed8 cb doc p (encode_protocols ps)) (
        ap (◌∷◌ p)
          (protocol_loop-encode ps fuel (omega (arith, length-append p (encode_protocols ps)))))

  -- The protocols of the ALPN extension come back in their order.
  pub alpn-encode :
      (c : ClientHello) (ps : List Text)
      → extension c ext_alpn ≡ some (prefixed16 (encode_protocols ps))
      → alpn cb c ≡ ps
  unfolding alpn
  alpn-encode c ps e =
      rw (e, read16_whole (encode_protocols ps))
        (protocol_loop-encode ps (suc (length (encode_protocols ps))) (omega arith))

  key_share_loop-encode :
      (shares : List (ℕ × Text)) (fuel : ℕ)
      → length (encode_shares shares) < fuel
      → key_share_loop cb fuel (encode_shares shares) ≡ groups_of shares
  unfolding key_share_loop
  key_share_loop-encode shares zero h = elim h [ ]
  key_share_loop-encode [] (suc fuel) h = refl
  key_share_loop-encode ((g, k) ∷ shares) (suc fuel) h =
      rw
        (
          read_uint16-encode16 cb doc g (prefixed16 k ++ encode_shares shares),
          read_uint16_length_prefixed-prefixed16 cb doc k (encode_shares shares),
        )
        (ap (◌∷◌ g) (
          key_share_loop-encode shares fuel
            (omega (arith, length-append k (encode_shares shares)))))

  -- The groups that a key share was sent for come back in their order.
  pub key_share_groups-encode :
      (c : ClientHello) (shares : List (ℕ × Text))
      → extension c ext_key_share ≡ some (prefixed16 (encode_shares shares))
      → key_share_groups cb c ≡ groups_of shares
  unfolding key_share_groups
  key_share_groups-encode c shares e =
      rw (e, read16_whole (encode_shares shares))
        (key_share_loop-encode shares (suc (length (encode_shares shares))) (omega arith))

  -- A server name list with one host name gives that name.
  pub server_name-encode :
      (c : ClientHello) (host : Text)
      → extension c ext_server_name ≡ some (prefixed16 (0 ∷ prefixed16 host))
      → server_name cb c ≡ some host
  unfolding server_name first_byte
  server_name-encode c host e =
      rw (e, read16_whole (0 ∷ prefixed16 host), doc.uint8, read16_whole host)

-- ===== src/Fingerprint/Accessors/Fuel.antt =====
-- fingerprint/clienthello.go: the fuel of the accessors' loops.
use tls_forge.Base.{
  ℕ, zero, suc, ◌<◌, ◌≤◌, [], ◌∷◌, some, ◌≡◌, refl, ap, arith, Text, length, inl, inr, Option-cases,
}
use tls_forge.Fingerprint.Wire.{Cryptobyte, IsDocumented, first_byte, big_endian, cut_at}
use tls_forge.Fingerprint.Parse.Bounds.{big_endian-length, cut_at-length, cut-length}
use tls_forge.Fingerprint.Accessors.{server_name_loop, protocol_loop, key_share_loop}

module _ (cb : Cryptobyte) (doc : IsDocumented cb) where
  server_name_loop-fuel :
      (fuel more : ℕ) (s : Text)
      → length s < fuel
      → length s < more
      → server_name_loop cb fuel s ≡ server_name_loop cb more s
  unfolding server_name_loop first_byte
  server_name_loop-fuel zero more s h k = elim h [ ]
  server_name_loop-fuel (suc fuel) zero s h k = elim k [ ]
  server_name_loop-fuel (suc fuel) (suc more) [] h k = refl
  server_name_loop-fuel (suc fuel) (suc more) (c ∷ s) h k =
      elim (Option-cases (cut_at (big_endian s))) [
        | inl e ↦ rw (doc.uint8, doc.uint16_length_prefixed, e)
        | inr ((p, r), e) ↦
            rw (doc.uint8, doc.uint16_length_prefixed, e)
              (ground (arith, server_name_loop-fuel fuel more r, cut_at-length s p r e))
      ]

  first_byte-cut :
      (c : ℕ) (s p r : Text) → cut_at (first_byte (c ∷ s)) ≡ some (p, r) → length r ≤ length s
  unfolding first_byte
  first_byte-cut c s p r e = cut-length c s p r e

  protocol_loop-fuel :
      (fuel more : ℕ) (s : Text)
      → length s < fuel
      → length s < more
      → protocol_loop cb fuel s ≡ protocol_loop cb more s
  unfolding protocol_loop
  protocol_loop-fuel zero more s h k = elim h [ ]
  protocol_loop-fuel (suc fuel) zero s h k = elim k [ ]
  protocol_loop-fuel (suc fuel) (suc more) [] h k = refl
  protocol_loop-fuel (suc fuel) (suc more) (c ∷ s) h k =
      elim (Option-cases (cut_at (first_byte (c ∷ s)))) [
        | inl e ↦ rw (doc.uint8_length_prefixed, e)
        | inr ((p, r), e) ↦
            rw (doc.uint8_length_prefixed, e)
              (ap (◌∷◌ p) (
                protocol_loop-fuel fuel more r (omega (arith, first_byte-cut c s p r e))
                  (omega (arith, first_byte-cut c s p r e))))
      ]

  key_share_loop-fuel :
      (fuel more : ℕ) (s : Text)
      → length s < fuel
      → length s < more
      → key_share_loop cb fuel s ≡ key_share_loop cb more s
  unfolding key_share_loop
  key_share_loop-fuel zero more s h k = elim h [ ]
  key_share_loop-fuel (suc fuel) zero s h k = elim k [ ]
  key_share_loop-fuel (suc fuel) (suc more) [] h k = refl
  key_share_loop-fuel (suc fuel) (suc more) (c ∷ s) h k = elim (Option-cases (big_endian (c ∷ s))) [
    | inl e ↦ rw (doc.uint16, e)
    | inr ((g, t), e) ↦ elim (Option-cases (cut_at (big_endian t))) [
      | inl f ↦ rw (doc.uint16, e, doc.uint16_length_prefixed, f)
      | inr ((p, r), f) ↦
          let less : length r < length s =
            omega (arith, big_endian-length (c ∷ s) g t e, cut_at-length t p r f) in
          rw (doc.uint16, e, doc.uint16_length_prefixed, f)
            (ap (◌∷◌ g) (key_share_loop-fuel fuel more r (omega arith) (omega arith)))
    ]
  ]

  -- The loops over server names, protocols and key shares give the same on any fuel above the
  -- length of what they read, so the fuel that the accessors pass never cuts one short.
  pub accessor_loops-fuel :
      (fuel : ℕ) (s : Text)
      → length s < fuel
      → (server_name_loop cb fuel s ≡ server_name_loop cb (suc (length s)) s)
        × (protocol_loop cb fuel s ≡ protocol_loop cb (suc (length s)) s)
        × (key_share_loop cb fuel s ≡ key_share_loop cb (suc (length s)) s)
  accessor_loops-fuel fuel s h = (
    server_name_loop-fuel fuel (suc (length s)) s h (omega arith),
    protocol_loop-fuel fuel (suc (length s)) s h (omega arith),
    key_share_loop-fuel fuel (suc (length s)) s h (omega arith),
  )

-- ===== src/Fingerprint/Examples/Prints.antt =====
-- Runs of the fingerprints, and the theorems about them at a ClientHello.
use mathlib.Core.List.{Permᴰ, Memᴰ}
use tls_forge.Base.{ℕ, true, List, [], ◌∷◌, ◌≡◌, refl, Text, codes, length}
use tls_forge.Fingerprint.Wire.{documented}
use tls_forge.Fingerprint.Hello.{extension_types}
use tls_forge.Fingerprint.Grease.{is_grease, without_grease}
use tls_forge.Fingerprint.Accessors.{
  supported_versions, supported_groups, ec_point_formats, uint16_vector, uint8_vector,
  key_share_groups,
}
use tls_forge.Fingerprint.Ja3.{ja3}
use tls_forge.Fingerprint.Ja3.Injective.{ja3_injective}
use tls_forge.Fingerprint.Ja4.{ja4, ja4_raw}
use tls_forge.Fingerprint.Ja4.Order.{shuffled, ja4-shuffled}
use tls_forge.Fingerprint.Ja4.Noise.{fingerprints_greased}
use tls_forge.Fingerprint.Examples.{
  digest, distinct, exts-swapped, fingerprinting, hello, noise, sni, swapped, versions,
}

digest-length : (s : Text) → length (digest s) ≡ 32
digest-length s = refl

fingerprint_runs :
    (ja3 documented hello ≡ codes "771,4865-49195,0-43-16-10-13-51,29,")
    × (ja4 documented digest hello ≡ codes "t13d0206h2_abababababab_abababababab")
    × (ja4_raw documented hello ≡ codes "t13d0206h2_1301,c02b_000a,000d,002b,0033_0403,0804")
    × (key_share_groups documented hello ≡ 29 ∷ [])
unfolding fingerprinting
fingerprint_runs = (refl, refl, refl, refl)

ja3_injective_example :
    (hello.legacy_version ≡ hello.legacy_version)
    × (without_grease hello.cipher_suites ≡ without_grease (0x1301 ∷ 0xc02b ∷ []))
    × (without_grease (extension_types hello) ≡ without_grease (extension_types hello))
    × (without_grease (supported_groups documented hello)
        ≡ without_grease (supported_groups documented hello))
    × (ec_point_formats documented hello ≡ ec_point_formats documented hello)
unfolding uint16_vector uint8_vector
ja3_injective_example =
    ja3_injective documented hello (record hello { cipher_suites = 0x1301 ∷ 0xc02b ∷ [] })
      (unfold fingerprinting in refl)

offers : Memᴰ 0x0304 (without_grease (supported_versions documented hello))
unfolding fingerprinting
offers = Memᴰ.head refl

abbrev swapped_ciphers : List ℕ
swapped_ciphers = 0x1301 ∷ 0x1a1a ∷ 0xc02b ∷ []

ja4-shuffled_example :
    (ja4 documented digest (shuffled hello swapped_ciphers swapped) ≡ ja4 documented digest hello)
    × (ja4_raw documented (shuffled hello swapped_ciphers swapped) ≡ ja4_raw documented hello)
ja4-shuffled_example =
    ja4-shuffled documented hello swapped_ciphers swapped (Permᴰ.swap refl refl) exts-swapped
      distinct digest

noise_type : is_grease noise.type ≡ true
unfolding is_grease
noise_type = refl

noise_cipher : is_grease 0x1a1a ≡ true
unfolding is_grease
noise_cipher = refl

fingerprints_greased_example :
    (ja4 documented digest (record hello {
      cipher_suites = 0x1301 ∷ 0x1a1a ∷ [];
      extensions = sni ∷ noise ∷ versions ∷ [];
    })
      ≡ ja4 documented digest
          (record hello { cipher_suites = 0x1301 ∷ []; extensions = sni ∷ versions ∷ [] }))
    × (ja4_raw documented (record hello {
      cipher_suites = 0x1301 ∷ 0x1a1a ∷ [];
      extensions = sni ∷ noise ∷ versions ∷ [];
    })
        ≡ ja4_raw documented
            (record hello { cipher_suites = 0x1301 ∷ []; extensions = sni ∷ versions ∷ [] }))
    × (ja3 documented (record hello {
      cipher_suites = 0x1301 ∷ 0x1a1a ∷ [];
      extensions = sni ∷ noise ∷ versions ∷ [];
    })
        ≡ ja3 documented
            (record hello { cipher_suites = 0x1301 ∷ []; extensions = sni ∷ versions ∷ [] }))
fingerprints_greased_example =
    fingerprints_greased documented hello (0x1301 ∷ []) [] 0x1a1a (sni ∷ []) (versions ∷ []) noise
      noise_cipher noise_type digest

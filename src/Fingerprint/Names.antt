-- ===== src/Fingerprint/Names.antt =====
-- fingerprint/names.go: the names of the values in a fingerprint. A Go map that is only read is an
-- association list.
use tls_forge.Base.{
  ℕ, List, [], ◌∷◌, ◌++◌, Option, none, some, ◌==◌, if◌then◌else◌, Text, codes, hex4,
}
use tls_forge.Fingerprint.Grease.{is_grease}

unfoldable pub extension_names : List (ℕ × Text)
extension_names =
    (0, codes "server_name")
    ∷ (5, codes "status_request")
    ∷ (10, codes "supported_groups")
    ∷ (11, codes "ec_point_formats")
    ∷ (13, codes "signature_algorithms")
    ∷ (16, codes "alpn")
    ∷ (17, codes "status_request_v2")
    ∷ (18, codes "signed_certificate_timestamp")
    ∷ (21, codes "padding")
    ∷ (22, codes "encrypt_then_mac")
    ∷ (23, codes "extended_master_secret")
    ∷ (27, codes "compress_certificate")
    ∷ (28, codes "record_size_limit")
    ∷ (34, codes "delegated_credentials")
    ∷ (35, codes "session_ticket")
    ∷ (41, codes "pre_shared_key")
    ∷ (42, codes "early_data")
    ∷ (43, codes "supported_versions")
    ∷ (44, codes "cookie")
    ∷ (45, codes "psk_key_exchange_modes")
    ∷ (49, codes "post_handshake_auth")
    ∷ (50, codes "signature_algorithms_cert")
    ∷ (51, codes "key_share")
    ∷ (17513, codes "application_settings")
    ∷ (17613, codes "application_settings_old")
    ∷ (30031, codes "channel_id")
    ∷ (51764, codes "trust_anchors")
    ∷ (65037, codes "encrypted_client_hello")
    ∷ (65281, codes "renegotiation_info")
    ∷ []

unfoldable pub group_names : List (ℕ × Text)
group_names =
    (23, codes "P-256")
    ∷ (24, codes "P-384")
    ∷ (25, codes "P-521")
    ∷ (29, codes "X25519")
    ∷ (30, codes "X448")
    ∷ (256, codes "ffdhe2048")
    ∷ (257, codes "ffdhe3072")
    ∷ (4587, codes "SecP256r1MLKEM768")
    ∷ (4588, codes "X25519MLKEM768")
    ∷ (25497, codes "X25519Kyber768Draft00")
    ∷ []

unfoldable pub signature_names : List (ℕ × Text)
signature_names =
    (0x0201, codes "rsa_pkcs1_sha1")
    ∷ (0x0203, codes "ecdsa_sha1")
    ∷ (0x0401, codes "rsa_pkcs1_sha256")
    ∷ (0x0403, codes "ecdsa_secp256r1_sha256")
    ∷ (0x0501, codes "rsa_pkcs1_sha384")
    ∷ (0x0503, codes "ecdsa_secp384r1_sha384")
    ∷ (0x0601, codes "rsa_pkcs1_sha512")
    ∷ (0x0603, codes "ecdsa_secp521r1_sha512")
    ∷ (0x0804, codes "rsa_pss_rsae_sha256")
    ∷ (0x0805, codes "rsa_pss_rsae_sha384")
    ∷ (0x0806, codes "rsa_pss_rsae_sha512")
    ∷ (0x0807, codes "ed25519")
    ∷ (0x0808, codes "ed448")
    ∷ (0x0809, codes "rsa_pss_pss_sha256")
    ∷ (0x080a, codes "rsa_pss_pss_sha384")
    ∷ (0x080b, codes "rsa_pss_pss_sha512")
    ∷ (0x0904, codes "mldsa44")
    ∷ (0x0905, codes "mldsa65")
    ∷ (0x0906, codes "mldsa87")
    ∷ []

unfoldable pub cipher_names : List (ℕ × Text)
cipher_names =
    (0x002f, codes "TLS_RSA_WITH_AES_128_CBC_SHA")
    ∷ (0x0035, codes "TLS_RSA_WITH_AES_256_CBC_SHA")
    ∷ (0x003c, codes "TLS_RSA_WITH_AES_128_CBC_SHA256")
    ∷ (0x009c, codes "TLS_RSA_WITH_AES_128_GCM_SHA256")
    ∷ (0x009d, codes "TLS_RSA_WITH_AES_256_GCM_SHA384")
    ∷ (0x1301, codes "TLS_AES_128_GCM_SHA256")
    ∷ (0x1302, codes "TLS_AES_256_GCM_SHA384")
    ∷ (0x1303, codes "TLS_CHACHA20_POLY1305_SHA256")
    ∷ (0xc009, codes "TLS_ECDHE_ECDSA_WITH_AES_128_CBC_SHA")
    ∷ (0xc00a, codes "TLS_ECDHE_ECDSA_WITH_AES_256_CBC_SHA")
    ∷ (0xc013, codes "TLS_ECDHE_RSA_WITH_AES_128_CBC_SHA")
    ∷ (0xc014, codes "TLS_ECDHE_RSA_WITH_AES_256_CBC_SHA")
    ∷ (0xc023, codes "TLS_ECDHE_ECDSA_WITH_AES_128_CBC_SHA256")
    ∷ (0xc027, codes "TLS_ECDHE_RSA_WITH_AES_128_CBC_SHA256")
    ∷ (0xc02b, codes "TLS_ECDHE_ECDSA_WITH_AES_128_GCM_SHA256")
    ∷ (0xc02c, codes "TLS_ECDHE_ECDSA_WITH_AES_256_GCM_SHA384")
    ∷ (0xc02f, codes "TLS_ECDHE_RSA_WITH_AES_128_GCM_SHA256")
    ∷ (0xc030, codes "TLS_ECDHE_RSA_WITH_AES_256_GCM_SHA384")
    ∷ (0xcca8, codes "TLS_ECDHE_RSA_WITH_CHACHA20_POLY1305_SHA256")
    ∷ (0xcca9, codes "TLS_ECDHE_ECDSA_WITH_CHACHA20_POLY1305_SHA256")
    ∷ []

unfoldable pub version_names : List (ℕ × Text)
version_names =
    (0x0300, codes "SSL 3.0")
    ∷ (0x0301, codes "TLS 1.0")
    ∷ (0x0302, codes "TLS 1.1")
    ∷ (0x0303, codes "TLS 1.2")
    ∷ (0x0304, codes "TLS 1.3")
    ∷ []

unfoldable pub setting_names : List (ℕ × Text)
setting_names =
    (1, codes "HEADER_TABLE_SIZE")
    ∷ (2, codes "ENABLE_PUSH")
    ∷ (3, codes "MAX_CONCURRENT_STREAMS")
    ∷ (4, codes "INITIAL_WINDOW_SIZE")
    ∷ (5, codes "MAX_FRAME_SIZE")
    ∷ (6, codes "MAX_HEADER_LIST_SIZE")
    ∷ (8, codes "ENABLE_CONNECT_PROTOCOL")
    ∷ (9, codes "NO_RFC7540_PRIORITIES")
    ∷ []

unfoldable pub find : List (ℕ × Text) → ℕ → Option Text
find [] v = none
find ((k, name) ∷ table) v = if k == v then some name else find table v

abbrev pub or_hex : ℕ → Option Text → Text
or_hex v none = codes "0x" ++ hex4 v
or_hex v (some name) = name

unfoldable pub lookup : List (ℕ × Text) → ℕ → Text
unfolding is_grease find hex4
lookup table v =
    if is_grease v then codes "GREASE(0x" ++ (hex4 v ++ codes ")") else or_hex v (find table v)

abbrev pub extension_name : ℕ → Text
extension_name v = lookup extension_names v

abbrev pub group_name : ℕ → Text
group_name v = lookup group_names v

abbrev pub signature_name : ℕ → Text
signature_name v = lookup signature_names v

abbrev pub cipher_name : ℕ → Text
cipher_name v = lookup cipher_names v

abbrev pub version_name : ℕ → Text
version_name v = lookup version_names v

abbrev pub setting_name : ℕ → Text
setting_name v = lookup setting_names v

unfoldable pub names_of : List ℕ → (ℕ → Text) → List Text
names_of [] name = []
names_of (v ∷ values) name = name v ∷ names_of values name

-- ===== src/Fingerprint.antt =====
-- The package fingerprint: a ClientHello parsed from TLS records, and the hashes and field lists
-- that it is compared by.
pub mod Grease
pub mod Wire
pub mod Hello
pub mod Parse
pub mod Accessors
pub mod Ja3
pub mod Ja4
pub mod Names
pub mod Http
pub mod Compare
mod Examples

-- ===== src/Sha256.antt =====
-- SHA-256 and HMAC (src/crypto/sha256.rs), FIPS 180-4 and RFC 2104, and the key derivation on them
-- (src/crypto/hkdf.rs). A hasher takes its input in parts; words of 32 bits wrap.
mod Compress
pub mod Hasher
mod Blocks
pub mod Fips
mod Conform
mod Feed
mod Digest
pub mod Hkdf
mod Expand
pub mod Standard
mod Tests

-- ===== src/ChaCha20.antt =====
-- ChaCha20, Poly1305 and their composition (src/crypto/chacha20.rs), RFC 8439. Words of 32 and of
-- 64 bits wrap, and an array is a list of its length, whose entries past the end nothing reads.
mod Words
mod Cipher
mod Poly1305
pub mod Aead
mod Limbs
mod Canonical
pub mod Blocks
mod Key
mod Reference
pub mod Keystream
pub mod Sealed
mod Tests

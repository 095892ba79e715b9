-- ===== src/Rsa.antt =====
-- RSA signatures (src/rsa.rs): numbers in limbs of 32 bits, and the check of PKCS #1 v1.5 with
-- SHA-256 by a key in DER.
mod Big
mod Value
mod Order
mod Steps
mod Product
mod Remainder
pub mod Bytes
mod Octets
mod Verify
mod Power
mod Accept
mod Emsa
mod Der
mod Tests

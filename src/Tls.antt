-- ===== src/Tls.antt =====
-- The record layer of TLS 1.3 (src/tls.rs) on ChaCha20-Poly1305.
mod Record
mod Stream
mod Protect
mod Buffer
mod Delivery
mod Short
mod Tests

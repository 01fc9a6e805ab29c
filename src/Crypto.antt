-- ===== src/Crypto.antt =====
-- crypto/: SHA-256.
pub mod Sha256
pub mod Tests

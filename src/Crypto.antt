-- ===== src/Crypto.antt =====
-- src/crypto: the cryptographic layer. The primitives themselves are parameters (`Primitives`).
pub mod Primitives
pub mod Aead
pub mod Signatures
pub mod Kem
pub mod KeySchedule

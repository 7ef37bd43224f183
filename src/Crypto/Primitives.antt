-- ===== src/Crypto/Primitives.antt =====
-- The cryptographic libraries that the program calls, as parameters: `cryptography`'s
-- ChaCha20-Poly1305, SHA-256 and HMAC of `hashlib` and `hmac`, ML-KEM-768 and ML-DSA-65 of `oqs` or
-- `pqcrypto`. Their documented behaviour stands in records of laws, which the theorems that rest on
-- it take as hypotheses.
use kemtls.Common.{◌+◌, ◌≡◌, Bool, Option, some, Bytes, Str, length}

-- ChaCha20Poly1305(key).encrypt(nonce, data, aad) and .decrypt; `none` is `InvalidTag`.
pub record ChaCha : Type 0 where
  pub encrypt : Bytes → Bytes → Bytes → Bytes → Bytes
  pub decrypt : Bytes → Bytes → Bytes → Bytes → Option Bytes

-- Decryption inverts encryption, and the tag takes sixteen bytes.
pub record ChaChaLaws (c : ChaCha) : Type 0 where
  pub decrypt-encrypt :
      (key nonce plaintext aad : Bytes)
      → c.decrypt key nonce (c.encrypt key nonce plaintext aad) aad ≡ some plaintext
  pub length-encrypt :
      (key nonce plaintext aad : Bytes)
      → length (c.encrypt key nonce plaintext aad) ≡ length plaintext + 16

-- `hashlib.sha256(data).digest()` and `hmac.new(key, data, sha256).digest()`.
pub record Hash : Type 0 where
  pub sha256 : Bytes → Bytes
  pub hmac : Bytes → Bytes → Bytes
  -- `hashlib.sha256(text.encode("utf-8")).hexdigest()`
  pub sha256_hex : Str → Str

pub record HashLaws (h : Hash) : Type 0 where
  pub length-sha256 : (message : Bytes) → length (h.sha256 message) ≡ 32
  pub length-hmac : (key message : Bytes) → length (h.hmac key message) ≡ 32

-- ML-KEM-768. The coins are the randomness that the backend draws.
pub record Kem : Type 0 where
  pub generate : Bytes → Bytes × Bytes
  pub encap : Bytes → Bytes → Bytes × Bytes
  pub decap : Bytes → Bytes → Bytes

-- ML-DSA-65; `none` is an exception of the backend.
pub record Signature : Type 0 where
  pub sign : Bytes → Bytes → Bytes
  pub verify : Bytes → Bytes → Bytes → Option Bool

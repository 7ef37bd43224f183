-- ===== src/Crypto/Signatures/Verify.antt =====
-- A signature that `sign` returns, and its verification.
use kemtls.Common.{◌≡◌, arith, some, true, length, Bytes}
use kemtls.Common.Error.{ok}
use kemtls.Crypto.Primitives.{Signature}
use kemtls.Crypto.Signatures.{public_key_size, signature_size, sign, verify}

pub sign_inv :
    (d : Signature) (secret_key message signature : Bytes)
    → sign d secret_key message ≡ ok signature
    → (signature ≡ d.sign secret_key message) × (length signature ≡ signature_size)
unfolding sign
sign_inv d secret_key message signature h = ground arith

pub verify-eq :
    (d : Signature) (public_key message signature : Bytes)
    → length public_key ≡ public_key_size
    → length signature ≡ signature_size
    → d.verify public_key message signature ≡ some true
    → verify d public_key message signature ≡ ok true
unfolding verify
verify-eq d public_key message signature size size' valid = ground arith

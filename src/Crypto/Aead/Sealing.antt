-- ===== src/Crypto/Aead/Sealing.antt =====
-- Sealing and opening, over any cipher with the documented laws.
use kemtls.Common.{
  ◌+◌, ◌≡◌, Option, some, arith, ◌++◌, length, length-append, take-append_of_length,
  drop-append_of_length, Bytes,
}
use kemtls.Common.Error.{ok}
use kemtls.Crypto.Primitives.{ChaCha, ChaChaLaws}
use kemtls.Crypto.Aead.{seal, open_sealed, cipher_encrypt, cipher_decrypt}

module _ (c : ChaCha) (laws : ChaChaLaws c) where
  pub length-seal :
      (key nonce : Option Bytes) (plaintext aad : Bytes) {ciphertext : Bytes}
      → seal c key nonce plaintext aad ≡ ok ciphertext
      → length ciphertext ≡ length plaintext + 16
  unfolding seal
  length-seal (some k) (some n) plaintext aad h =
      ground (arith, laws.length-encrypt k n plaintext aad)
  length-seal _ _ plaintext aad h = ground arith

  -- What was sealed opens under the same key, nonce and associated data.
  pub open_sealed-seal :
      (key nonce : Option Bytes) (plaintext aad : Bytes) {ciphertext : Bytes}
      → seal c key nonce plaintext aad ≡ ok ciphertext
      → open_sealed c key nonce ciphertext aad ≡ ok plaintext
  unfolding seal open_sealed
  open_sealed-seal (some k) (some n) plaintext aad h =
      ground (arith, laws.length-encrypt k n plaintext aad, laws.decrypt-encrypt k n plaintext aad)
  open_sealed-seal _ _ plaintext aad h = ground arith

  cipher_encrypt_inv :
      (key nonce plaintext aad : Bytes) {message : Bytes}
      → cipher_encrypt c key nonce plaintext aad ≡ ok message
      → (length key ≡ 32)
        × (length nonce ≡ 12)
        × (message ≡ nonce ++ c.encrypt key nonce plaintext aad)
  unfolding cipher_encrypt
  cipher_encrypt_inv key nonce plaintext aad h = ground arith

  -- `AEADCipher.decrypt` gives back what `AEADCipher.encrypt` was given, whatever nonce was drawn.
  pub cipher_decrypt-cipher_encrypt :
      (key nonce plaintext aad : Bytes) {message : Bytes}
      → cipher_encrypt c key nonce plaintext aad ≡ ok message
      → cipher_decrypt c key message aad ≡ ok plaintext
  unfolding cipher_decrypt
  cipher_decrypt-cipher_encrypt key nonce plaintext aad h =
      let (key_fits, nonce_fits, is_message) = cipher_encrypt_inv key nonce plaintext aad h in
      let sealed = c.encrypt key nonce plaintext aad in
      rw (is_message) (
        ground (
          arith,
          length-append nonce sealed,
          take-append_of_length nonce sealed nonce_fits,
          drop-append_of_length nonce sealed nonce_fits,
          laws.length-encrypt key nonce plaintext aad,
          laws.decrypt-encrypt key nonce plaintext aad,
        ))

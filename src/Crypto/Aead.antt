-- ===== src/Crypto/Aead.antt =====
-- crypto/aead.py (src/crypto). An argument that may be `None` at run time is an `Option`: that is
-- the value that `_validate_bytes` refuses as not `bytes`.
pub mod Nonce
pub mod Sealing
use kemtls.Common.{
  ℕ, zero, suc, ◌+◌, ◌-◌, ◌^◌, String, Option, none, some, List, [], ◌∷◌, ◌++◌, bit_xor, leb, ltb,
  ◌==◌, if◌then◌else◌, length, take, drop, Bytes, to_bytes,
}
use kemtls.Common.Error.{
  value_error, type_error, Result, ok, raised, ◌>>=◌, ◌>>◌, raise_if, or_raise,
}
use kemtls.Crypto.Primitives.{ChaCha}

abbrev pub key_size : ℕ
key_size = 32

abbrev pub nonce_size : ℕ
nonce_size = 12

abbrev pub tag_size : ℕ
tag_size = 16

-- `_validate_bytes(name, value, expected_length)`; the checked value is returned.
unfoldable pub validate_bytes : Option Bytes → ℕ → Result Bytes
validate_bytes none expected_length = raised (type_error "must be bytes")
validate_bytes (some value) expected_length =
    if length value == expected_length then ok value else raised (value_error "Invalid size")

unfoldable pub zeros : ℕ → Bytes
zeros zero = []
zeros (suc n) = 0 ∷ zeros n

-- `bytes(left ^ right for left, right in zip(xs, ys))`
unfoldable pub xor_bytes : Bytes → Bytes → Bytes
xor_bytes [] ys = []
xor_bytes (x ∷ xs) [] = []
xor_bytes (x ∷ xs) (y ∷ ys) = bit_xor x y ∷ xor_bytes xs ys

-- `_xor_iv_with_seq_python`
unfoldable pub padded_seq : ℕ → Bytes
unfolding zeros
padded_seq seq = zeros (nonce_size - length (to_bytes 8 seq)) ++ to_bytes 8 seq

unfoldable pub xor_iv_with_seq : Option Bytes → ℕ → Result Bytes
unfolding validate_bytes xor_bytes padded_seq
xor_iv_with_seq iv seq = do
  checked ← validate_bytes iv nonce_size
  raise_if (leb (2 ^ 64) seq) (value_error "seq must be between 0 and 2^64 - 1")
  ok (xor_bytes checked (padded_seq seq))

module _ (c : ChaCha) where
  unfoldable pub seal : Option Bytes → Option Bytes → Bytes → Bytes → Result Bytes
  unfolding validate_bytes
  seal key nonce plaintext aad = do
    k ← validate_bytes key key_size
    n ← validate_bytes nonce nonce_size
    ok (c.encrypt k n plaintext aad)

  -- `_open_python` turns each failure of the library into one error.
  unfoldable pub open_sealed : Option Bytes → Option Bytes → Bytes → Bytes → Result Bytes
  unfolding validate_bytes
  open_sealed key nonce ciphertext aad = do
    k ← validate_bytes key key_size
    n ← validate_bytes nonce nonce_size
    raise_if (ltb (length ciphertext) tag_size)
        (value_error "ciphertext must be at least 16 bytes to include an authentication tag")
    or_raise (c.decrypt k n ciphertext aad) (value_error "authentication tag verification failed")

  -- `AEADCipher`: the object is its key, and `nonce` is what `os.urandom` returned.
  unfoldable pub cipher_init : Option Bytes → Result Bytes
  unfolding validate_bytes
  cipher_init key = validate_bytes key key_size

  unfoldable pub cipher_encrypt : Bytes → Bytes → Bytes → Bytes → Result Bytes
  unfolding seal
  cipher_encrypt key nonce plaintext aad = do
    ciphertext ← seal (some key) (some nonce) plaintext aad
    ok (nonce ++ ciphertext)

  unfoldable pub cipher_decrypt : Bytes → Bytes → Bytes → Result Bytes
  unfolding open_sealed
  cipher_decrypt key ciphertext aad = do
    raise_if (ltb (length ciphertext) (nonce_size + tag_size))
        (value_error "ciphertext is too short to contain a nonce and tag")
    open_sealed (some key) (some (take nonce_size ciphertext)) (drop nonce_size ciphertext) aad

-- ===== src/Crypto/Signatures.antt =====
-- crypto/ml_dsa.py (src/crypto): ML-DSA-65 and its JSON Web Keys.
pub mod Jwk
pub mod Verify
use kemtls.Common.{
  ℕ, String, Bool, true, false, ◌||◌, not, Option, none, some, ◌==◌, if◌then◌else◌, str_eq, length,
  codes, Bytes, Str,
}
use kemtls.Common.Error.{
  value_error, type_error, or_raise, Result, ok, raised, ◌>>=◌, ◌>>◌, raise_if,
}
use kemtls.Common.Json.{is_text, Json, text, Members, nothing, member, find, as_text}
use kemtls.Crypto.Primitives.{Signature}
use kemtls.Encoding.{base64url_encode, base64url_decode}

abbrev pub public_key_size : ℕ
public_key_size = 1952

abbrev pub secret_key_size : ℕ
secret_key_size = 4032

abbrev pub signature_size : ℕ
signature_size = 3309

abbrev pub algorithm : Str
algorithm = codes "ML-DSA-65"

-- `_validate_bytes`, for a value that is `bytes`.
abbrev pub check_size : ℕ → Bytes → Result (Unit {0})
check_size expected_length value =
    raise_if (not (length value == expected_length)) (value_error "Invalid size")

-- `bool(backend.verify(…))`, and False where the backend raises.
abbrev pub or_false : Option Bool → Bool
or_false none = false
or_false (some b) = b

module _ (d : Signature) where
  unfoldable pub sign : Bytes → Bytes → Result Bytes
  sign secret_key message = do
    check_size secret_key_size secret_key
    check_size signature_size (d.sign secret_key message)
    ok (d.sign secret_key message)

  unfoldable pub verify : Bytes → Bytes → Bytes → Result Bool
  verify public_key message signature = do
    check_size public_key_size public_key
    check_size signature_size signature
    ok (or_false (d.verify public_key message signature))

-- `public_key_to_jwk` without a `kid`.
unfoldable pub public_key_to_jwk : Bytes → Result Members
public_key_to_jwk public_key = do
  check_size public_key_size public_key
  ok (
      member (codes "kty") (text (codes "AKP")) (
        member (codes "alg") (text algorithm) (
          member (codes "use") (text (codes "sig"))
            (member (codes "x") (text (base64url_encode public_key)) nothing))))

-- `"use" in jwk and jwk["use"] != "sig"`
abbrev pub bad_use : Option Json → Bool
bad_use none = false
bad_use (some value) = not (is_text (some value) (codes "sig"))

unfoldable pub jwk_to_public_key : Members → Result Bytes
jwk_to_public_key jwk = do
  raise_if (not (is_text (find (codes "kty") jwk) (codes "AKP")))
      (value_error "Invalid JWK key type")
  raise_if (not (is_text (find (codes "alg") jwk) algorithm)) (value_error "Invalid JWK algorithm")
  x ← or_raise (find (codes "x") jwk) (value_error "JWK missing required 'x' public key field")
  raise_if (bad_use (find (codes "use") jwk)) (value_error "JWK 'use' must be 'sig'")
  encoded ← or_raise (as_text (some x)) (type_error "Data must be a string")
  public_key ← base64url_decode encoded
  check_size public_key_size public_key
  ok public_key

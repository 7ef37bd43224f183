-- ===== src/Crypto/Signatures/Jwk.antt =====
-- The JSON Web Key of a verification key.
use kemtls.Common.{ℕ, ◌≡◌, refl, ap, ◌∙◌, ==_iff, str_eq, length, codes, Bytes, IsBytes}
use kemtls.Common.Error.{Result, ok, ◌>>=◌, ◌>>◌}
use kemtls.Common.Json.{text, Members, nothing, member, find}
use kemtls.Crypto.Signatures.{
  public_key_size, check_size, public_key_to_jwk, jwk_to_public_key, algorithm,
}
use kemtls.Encoding.{base64url_encode, base64url_decode}
use kemtls.Encoding.RoundTrip.{base64url_decode-base64url_encode}

-- The check of a size that is right.
pub check_size-eq : (n : ℕ) (value : Bytes) → length value ≡ n → check_size n value ≡ ok tt
check_size-eq n value e = rw (e, (==_iff n n).1 refl) refl

abbrev pub jwk : Bytes → Members
jwk public_key = member (codes "kty") (text (codes "AKP")) (
    member (codes "alg") (text algorithm) (
      member (codes "use") (text (codes "sig"))
        (member (codes "x") (text (base64url_encode public_key)) nothing)))

pub public_key_to_jwk-eq :
    (public_key : Bytes)
    → length public_key ≡ public_key_size
    → public_key_to_jwk public_key ≡ ok (jwk public_key)
unfolding public_key_to_jwk
public_key_to_jwk-eq public_key e =
    ap (λ (m : Result (Unit {0})). m >> ok (jwk public_key))
      (check_size-eq public_key_size public_key e)

jwk_to_public_key-eq :
    (public_key : Bytes)
    → jwk_to_public_key (jwk public_key) ≡ (
        base64url_decode (base64url_encode public_key) >>= λ k.
        check_size public_key_size k >> ok k)
unfolding jwk_to_public_key find str_eq
jwk_to_public_key-eq public_key = refl

-- The JWK of a public key of 1952 bytes is built, and decodes to that key.
pub jwk_to_public_key-public_key_to_jwk :
    (public_key : Bytes)
    → IsBytes public_key
    → length public_key ≡ 1952
    → (public_key_to_jwk public_key >>= jwk_to_public_key) ≡ ok public_key
jwk_to_public_key-public_key_to_jwk public_key h e =
    ap (λ (r : Result Members). r >>= jwk_to_public_key) (public_key_to_jwk-eq public_key e)
    ∙ jwk_to_public_key-eq public_key
    ∙ ap (λ (r : Result Bytes). r >>= λ k. check_size public_key_size k >> ok k)
        (base64url_decode-base64url_encode public_key h)
    ∙ ap (λ (m : Result (Unit {0})). m >> ok public_key)
        (check_size-eq public_key_size public_key e)

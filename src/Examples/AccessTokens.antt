-- ===== src/Examples/AccessTokens.antt =====
-- An access token that is signed and validated.
use kemtls.Common.{refl, Option, none, some, [], ◌∷◌, if◌then◌else◌, str_eq, codes, Str}
use kemtls.Common.Error.{ok, raised}
use kemtls.Common.Int.{ℤ, pos}
use kemtls.Common.Json.{Json, number, text, object, Members, nothing, member, find, Python}
use kemtls.Crypto.Aead.{zeros}
use kemtls.Crypto.Signatures.{sign}
use kemtls.Oidc.Jwt.{
  access_token_type, jwt_header, create_access_token, sign_jwt, verify_jwt,
  validate_registered_claims, validate_access_token,
}
use kemtls.Oidc.Jwt.RoundTrip.{verify_jwt-sign_jwt}
use kemtls.Crypto.Aead.Nonce.{zeros-IsBytes}
use kemtls.Common.{◌≡◌, arith}
use kemtls.Oidc.Jwt.Validation.{Accepted, validate_access_token-Accepted}
use kemtls.Examples.Values.{toy_signature, toy_kid, first_key}

abbrev access_claims : Members
access_claims =
    member (codes "iss") (text (codes "issuer"))
      (member (codes "aud") (text (codes "app")) (member (codes "exp") (number 100) nothing))

abbrev read_number : Json → Option ℤ
read_number j = some (pos 100)

abbrev access_python : Python
access_python = record {
  dumps = first_key;
  loads = λ b.
      if str_eq b (codes "alg")
      then some (object (jwt_header toy_kid access_token_type))
      else some (object access_claims);
  utf8 = λ s. s;
  upper = λ s. s;
  strip = λ s. s;
  words = λ s. s ∷ [];
  int = read_number;
}

abbrev access_token : Str
access_token =
    elim (create_access_token access_python toy_signature access_claims (zeros 4032) toy_kid none) [
      | ok token ↦ token
      | raised e ↦ []
    ]

signed :
    create_access_token access_python toy_signature access_claims (zeros 4032) toy_kid none
    ≡ ok access_token
unfolding create_access_token sign_jwt sign zeros
signed = refl

verified :
    verify_jwt access_python toy_signature access_token (zeros 1952) (some access_token_type)
    ≡ ok (jwt_header toy_kid access_token_type, access_claims)
unfolding create_access_token zeros find str_eq
verified =
    verify_jwt-sign_jwt access_python toy_signature access_claims
      (jwt_header toy_kid access_token_type) access_claims (zeros 4032) (zeros 1952) toy_kid
      access_token_type access_token (ground arith) (ground arith) refl refl refl refl
      (λ message. zeros-IsBytes 3309) (λ message. refl) refl signed

validated :
    validate_access_token access_python toy_signature access_token
      (zeros 1952)
      (some (codes "issuer"))
      (some (codes "app"))
      50
    ≡ ok access_claims
unfolding validate_access_token validate_registered_claims find str_eq
validated = rw verified refl

validate_access_token-Accepted_example :
    Accepted access_python toy_signature access_token
      (zeros 1952)
      (some (codes "issuer"))
      (some (codes "app"))
      50
      access_claims
validate_access_token-Accepted_example =
    validate_access_token-Accepted access_python toy_signature access_token (zeros 1952)
      (some (codes "issuer")) (some (codes "app")) 50 access_claims validated

-- ===== src/Examples/Crypto.antt =====
-- Derived secrets, signed tokens.
use kemtls.Common.{◌≡◌, refl, arith, some, [], ◌∷◌, ◌++◌, length, codes, str_eq, Str}
use kemtls.Common.Error.{Result, ok, raised}
use kemtls.Common.Dict.{text_eq}
use kemtls.Common.Json.{find}
use kemtls.Crypto.Aead.{zeros}
use kemtls.Crypto.Aead.Nonce.{zeros-IsBytes}
use kemtls.Crypto.KeySchedule.{hkdf_expand}
use kemtls.Crypto.KeySchedule.Expand.{rfc_expand, hkdf_expand-eq-rfc_expand}
use kemtls.Crypto.Signatures.{sign}
use kemtls.Oidc.Jwt.{sign_jwt, verify_jwt}
use kemtls.Oidc.Jwt.RoundTrip.{Verified, verify_jwt-sign_jwt, verify_jwt-Verified}
use kemtls.Examples.Values.{
  toy_hash, toy_hash_laws, toy_signature, toy_python, toy_kid, toy_header, toy_claims,
}

hkdf_expand-eq-rfc_expand_example :
    (hkdf_expand toy_hash (zeros 32) (codes "info") 42
      ≡ ok (rfc_expand toy_hash (zeros 32) (codes "info") 42))
    × (length (rfc_expand toy_hash (zeros 32) (codes "info") 42) ≡ 42)
hkdf_expand-eq-rfc_expand_example =
    hkdf_expand-eq-rfc_expand toy_hash (zeros 32) (codes "info") toy_hash_laws 42 (omega arith)

abbrev or_blank : Result Str → Str
or_blank (ok s) = s
or_blank (raised e) = []

abbrev toy_token : Str
toy_token =
    or_blank (sign_jwt toy_python toy_signature toy_claims (zeros 4032) toy_kid (codes "JWT"))

verify_jwt-sign_jwt_example :
    verify_jwt toy_python toy_signature toy_token (zeros 1952) (some (codes "JWT"))
    ≡ ok (toy_header, toy_claims)
unfolding sign_jwt sign zeros find str_eq
verify_jwt-sign_jwt_example =
    verify_jwt-sign_jwt toy_python toy_signature toy_claims toy_header toy_claims (zeros 4032)
      (zeros 1952) toy_kid (codes "JWT") toy_token (ground arith) (ground arith) refl refl refl refl
      (λ message. zeros-IsBytes 3309) (λ message. refl) refl refl

verify_jwt-Verified_example :
    (h64 p64 s64 : Str) × (toy_token ≡ (h64 ++ b'.' ∷ p64) ++ b'.' ∷ s64)
    × Verified toy_python toy_signature
        (zeros 1952)
        (some (codes "JWT"))
        h64
        p64
        s64
        toy_header
        toy_claims
unfolding sign_jwt sign zeros find str_eq
verify_jwt-Verified_example =
    verify_jwt-Verified toy_python toy_signature toy_token (zeros 1952) (some (codes "JWT"))
      toy_header toy_claims
      (verify_jwt-sign_jwt toy_python toy_signature toy_claims toy_header toy_claims (zeros 4032)
        (zeros 1952) toy_kid (codes "JWT") toy_token (ground arith) (ground arith) refl refl refl
        refl (λ message. zeros-IsBytes 3309) (λ message. refl) refl refl)

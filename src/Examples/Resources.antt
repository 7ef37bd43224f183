-- ===== src/Examples/Resources.antt =====
-- Certificates, keys that are published and resources that are protected.
use kemtls.Common.{◌≡◌, refl, arith, Option, none, some, List, [], ◌∷◌, codes, str_eq, Bytes, Str}
use kemtls.Common.Error.{Result, ok, raised}
use kemtls.Common.Dict.{put, text_eq}
use kemtls.Common.Int.{ℤ, pos}
use kemtls.Common.Json.{
  text, object, number, Json, Members, nothing, member, find, set_member, get_item, Python,
}
use kemtls.Certs.{create_certificate, validate_certificate}
use kemtls.Certs.Validation.{
  Valid, validate_certificate-Valid, validate_certificate-create_certificate,
}
use kemtls.Crypto.Aead.{zeros}
use kemtls.Crypto.Aead.Nonce.{zeros-IsBytes}
use kemtls.Crypto.Signatures.{sign}
use kemtls.Examples.Values.{toy_signature, toy_python}
use kemtls.Oidc.Jwks.{add_key, add_keys, get_jwks}
use kemtls.Oidc.Jwks.Published.{Published, get_jwks-add_keys}
use kemtls.Common.{if◌then◌else◌, true, false, ◌∙◌}
use kemtls.Common.Dict.{contains, get}
use kemtls.Encoding.{digit, base64url_encode}
use kemtls.Examples.Values.{toy_hash, toy_kid, toy_session, first_key}
use kemtls.Oidc.Jwt.{
  is_blank, access_token_type, jwt_header, create_access_token, sign_jwt, verify_jwt,
  validate_registered_claims, validate_access_token,
}
use kemtls.Oidc.Jwt.RoundTrip.{verify_jwt-sign_jwt}
use kemtls.Oidc.Resource.{
  is_bound, with_binding, active_response, Resource, Presented, valid_claims, user_claims,
  handle_userinfo_request, introspect,
}
use kemtls.Oidc.Resource.Protected.{
  handle_userinfo_request-eq, introspect-eq, Granted, handle_userinfo_request-Granted,
  introspect-Granted,
}
use kemtls.Oidc.SessionBinding.{
  binding_method, get_session_bytes, verify_exporter_claim, verify_access_token_binding_claim,
}
use kemtls.Oidc.Token.{add_user_claims}

abbrev first_of : {A : Type 0} → Result A → A → A
first_of (ok a) b = a
first_of (raised e) b = b

abbrev certificate : Members
certificate =
    first_of
      (create_certificate toy_python toy_signature (codes "server") (zeros 1184) (zeros 4032)
        (codes "ca") 10 20)
      nothing

certified :
    create_certificate toy_python toy_signature
      (codes "server")
      (zeros 1184)
      (zeros 4032)
      (codes "ca")
      10
      20
    ≡ ok certificate
unfolding create_certificate set_member sign zeros str_eq
certified = refl

validate_certificate-create_certificate_example :
    validate_certificate toy_python toy_signature 15
      (object certificate)
      (zeros 1952)
      (codes "server")
    ≡ ok (zeros 1184)
unfolding zeros
validate_certificate-create_certificate_example =
    validate_certificate-create_certificate toy_python toy_signature (codes "server") (zeros 1184)
      (zeros 4032) (zeros 1952) (codes "ca") 10 20 15 certificate (zeros-IsBytes 1184)
      (λ message. zeros-IsBytes 3309) (λ message. refl) refl (omega arith) (omega arith) certified

validate_certificate-Valid_example :
    Valid toy_python toy_signature 15
      (object certificate)
      (zeros 1952)
      (codes "server")
      (zeros 1184)
unfolding zeros
validate_certificate-Valid_example =
    validate_certificate-Valid toy_python toy_signature 15 (object certificate) (zeros 1952)
      (codes "server") (zeros 1184)
      (validate_certificate-create_certificate toy_python toy_signature (codes "server")
        (zeros 1184) (zeros 4032) (zeros 1952) (codes "ca") 10 20 15 certificate
        (zeros-IsBytes 1184) (λ message. zeros-IsBytes 3309) (λ message. refl) refl (omega arith)
        (omega arith) certified)

abbrev two_keys : List (Str × Bytes)
two_keys = (codes "a", zeros 1952) ∷ (codes "b", zeros 1952) ∷ []

get_jwks-add_keys_example :
    (jwks : List Members) × (get_jwks two_keys ≡ ok jwks) × Published two_keys jwks
unfolding add_keys add_key put str_eq zeros
get_jwks-add_keys_example =
    get_jwks-add_keys two_keys two_keys (zeros-IsBytes 1952, (zeros-IsBytes 1952, tt)) refl

-- Claims that are bound to the session with the identifier `b`.
abbrev bound_claims : Members
bound_claims = member (codes "sub") (text (codes "alice")) (
    member (codes "exp") (number 100) (
      member (codes "cnf")
        (object (
          member (codes "kmt") (text binding_method)
            (member (codes "kbh") (text (base64url_encode (toy_hash.sha256 (codes "b")))) nothing)))
        nothing))

abbrev read_number : Json → Option ℤ
read_number j = some (pos 100)

abbrev bound_python : Python
bound_python = record {
  dumps = first_key;
  loads = λ b.
      if str_eq b (codes "alg")
      then some (object (jwt_header toy_kid access_token_type))
      else some (object bound_claims);
  utf8 = λ s. s;
  upper = λ s. s;
  strip = λ s. s;
  words = λ s. s ∷ [];
  int = read_number;
}

abbrev bound_token : Str
bound_token =
    first_of (create_access_token bound_python toy_signature bound_claims (zeros 4032) toy_kid none)
      []

bound_verified :
    verify_jwt bound_python toy_signature bound_token (zeros 1952) (some access_token_type)
    ≡ ok (jwt_header toy_kid access_token_type, bound_claims)
unfolding create_access_token sign_jwt sign zeros find str_eq
bound_verified =
    verify_jwt-sign_jwt bound_python toy_signature bound_claims
      (jwt_header toy_kid access_token_type) bound_claims (zeros 4032) (zeros 1952) toy_kid
      access_token_type bound_token (ground arith) (ground arith) refl refl refl refl
      (λ message. zeros-IsBytes 3309) (λ message. refl) refl refl

abbrev resource : Resource
resource = record { issuer_pk = zeros 1952; issuer = none; audience = none; users = [] }

abbrev shown : Presented
shown = record {
  session = some toy_session;
  binding_proof = none;
  method = codes "GET";
  path = codes "/userinfo";
}

abbrev text_of : Json → Str
text_of j = codes "alice"

bound_valid :
    valid_claims bound_python toy_hash toy_signature text_of resource bound_token 50
    ≡ some bound_claims
unfolding valid_claims validate_access_token validate_registered_claims find str_eq
bound_valid = rw bound_verified refl

-- The claims are bound to the session.
bound_checked :
    is_bound bound_python toy_hash toy_signature text_of resource bound_claims shown ≡ ok true
unfolding verify_access_token_binding_claim verify_exporter_claim get_session_bytes find str_eq
    base64url_encode zeros digit
bound_checked = refl

abbrev answered : Members
answered = member (codes "sub") (text (codes "alice")) nothing

bound_shown : is_blank bound_token ≡ false
unfolding create_access_token sign_jwt sign zeros base64url_encode
bound_shown = refl

answered_bound :
    user_claims bound_python toy_hash toy_signature text_of resource bound_claims
    ≡ ok (answered, 200)
unfolding user_claims add_user_claims get get_item find set_member str_eq contains
answered_bound = refl

granted_answer :
    handle_userinfo_request bound_python toy_hash toy_signature text_of resource bound_token shown
      50
    ≡ ok (answered, 200)
granted_answer =
    handle_userinfo_request-eq bound_python toy_hash toy_signature text_of resource bound_token
      shown 50 toy_session bound_claims bound_shown refl bound_valid bound_checked
    ∙ answered_bound

abbrev introspected : Members
introspected =
    with_binding bound_python toy_hash toy_signature text_of resource toy_session
      (active_response bound_python toy_hash toy_signature text_of resource bound_claims) true

introspection :
    introspect bound_python toy_hash toy_signature text_of resource bound_token shown 50
    ≡ ok introspected
introspection =
    introspect-eq bound_python toy_hash toy_signature text_of resource bound_token shown 50
      toy_session bound_claims bound_shown refl bound_valid bound_checked

handle_userinfo_request-Granted_example :
    (g : Granted bound_python toy_hash toy_signature text_of resource bound_token shown 50)
    × (user_claims bound_python toy_hash toy_signature text_of resource g.claims
        ≡ ok (answered, 200))
handle_userinfo_request-Granted_example =
    handle_userinfo_request-Granted bound_python toy_hash toy_signature text_of resource bound_token
      shown 50 answered granted_answer

introspect-Granted_example :
    Granted bound_python toy_hash toy_signature text_of resource bound_token shown 50
unfolding find set_member str_eq
introspect-Granted_example =
    introspect-Granted bound_python toy_hash toy_signature text_of resource bound_token shown 50
      toy_session introspected refl introspection refl

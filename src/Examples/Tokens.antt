-- ===== src/Examples/Tokens.antt =====
-- The token endpoint.
use kemtls.Common.{
  ◌≡◌, ◌≢◌, ◌↔◌, refl, true, false, Option, none, some, [], ◌∷◌, str_eq, ◌++◌, codes, Bytes,
  IsBytes, Str, All-append, All-take, IsByte,
}
use kemtls.Common.Error.{Result, ok, raised}
use kemtls.Common.Dict.{Dict, get, put, text_eq}
use kemtls.Common.Json.{text, object, Members, nothing, member, find}
use kemtls.Crypto.Aead.{zeros}
use kemtls.Crypto.Aead.Nonce.{zeros-IsBytes}
use kemtls.Crypto.Primitives.{Hash}
use kemtls.Crypto.Signatures.{sign, verify, public_key_to_jwk}
use kemtls.Crypto.Signatures.Jwk.{jwk_to_public_key-public_key_to_jwk}
use kemtls.Encoding.{digit, base64url_encode}
use kemtls.Oidc.AuthCode.{AuthorizationCodeRecord}
use kemtls.Oidc.RefreshStore.{
  RefreshTokenRecord, Store, lookup_token, rotate_token, issue_token, put_token, consume_token,
  consume_record,
}
use kemtls.Oidc.SessionBinding.{
  BindingProof, get_session_bytes, hash_of, binding_method, pop_binding_method,
  build_access_token_binding_claim, build_refresh_binding_metadata, verify_refresh_binding_metadata,
  build_binding_proof_message, verify_access_token_binding_claim, verify_pop_claim,
}
use kemtls.Oidc.SessionBinding.Laws.{
  verify_access_token_binding_claim-build, verify_pop_claim-eq-true,
}
use kemtls.Oidc.Jwt.{sign_jwt, create_id_token, create_access_token}
use kemtls.Oidc.Token.{
  Endpoint, Stores, Readings, TokenResponse, failure, tokens, verify_pkce, encode_ascii,
  consume_authorization_code, validate_authorization_code_record,
}
use kemtls.Oidc.Token.Issue.{access_cnf_claim, issue_authorization_code_tokens}
use kemtls.Oidc.Token.Grants.{
  TokenRequest, grant_code_data, grant_record, handle_authorization_code_grant, refresh_record,
  refresh_cnf_claim, handle_refresh_token_grant,
}
use kemtls.Oidc.Token.RefreshGrant.{Checked, handle_refresh_token_grant-Checked}
use kemtls.Oidc.Token.CodeUse.{
  Exchanged, handle_authorization_code_grant-Exchanged, handle_authorization_code_grant_replay,
}
use kemtls.Examples.Values.{toy_hash, toy_signature, toy_python, toy_kid, toy_session}

pad_32-IsBytes : (message : Bytes) → IsBytes message → IsBytes (toy_hash.sha256 message)
pad_32-IsBytes message h =
    All-take IsByte 32 (message ++ zeros 32)
      (All-append IsByte message (zeros 32) h (zeros-IsBytes 32))

-- A hash that keeps no byte of its message.
abbrev zero_hash : Hash
zero_hash = record {
  sha256 = λ message. zeros 32;
  hmac = λ key message. zeros 32;
  sha256_hex = λ token. token;
}

abbrev the_cnf : Members
the_cnf =
    member (codes "kmt") (text binding_method)
      (member (codes "kbh") (text (hash_of toy_python zero_hash (codes "b"))) nothing)

verify_access_token_binding_claim-build_example :
    (verify_access_token_binding_claim toy_python zero_hash toy_signature
        (member (codes "cnf") (object the_cnf) nothing)
        (some toy_session)
        none
        (codes "GET")
        (codes "/userinfo")
      ≡ ok true)
    ↔ (zero_hash.sha256 (codes "b") ≡ zero_hash.sha256 (codes "b"))
unfolding get_session_bytes build_access_token_binding_claim
verify_access_token_binding_claim-build_example =
    verify_access_token_binding_claim-build toy_python zero_hash toy_signature (some toy_session)
      (some toy_session) (codes "b") (codes "b") the_cnf none (codes "GET") (codes "/userinfo")
      (λ message. zeros-IsBytes 32) refl refl refl

abbrev the_jwk : Members
the_jwk = member (codes "kty") (text (codes "AKP")) (
    member (codes "alg") (text (codes "ML-DSA-65")) (
      member (codes "use") (text (codes "sig"))
        (member (codes "x") (text (base64url_encode (zeros 1952))) nothing)))

abbrev the_proof : BindingProof
the_proof = record { public_key = zeros 1952; signature = zeros 3309 }

abbrev pop_cnf : Members
pop_cnf =
    member (codes "kmt") (text pop_binding_method) (member (codes "jwk") (object the_jwk) nothing)

verify_pop_claim-eq-true_example :
    (verify_pop_claim toy_python toy_hash toy_signature pop_cnf
        (some toy_session)
        (some the_proof)
        (codes "GET")
        (codes "/userinfo")
      ≡ ok true)
    ↔ ((shown : BindingProof) × (message : Bytes) × ((some the_proof) ≡ some shown)
        × (shown.public_key ≡ zeros 1952)
        × (build_binding_proof_message toy_python toy_signature
              (some toy_session)
              (codes "GET")
              (codes "/userinfo")
            ≡ ok message)
        × (verify toy_signature (zeros 1952) message shown.signature ≡ ok true))
unfolding find str_eq public_key_to_jwk zeros
verify_pop_claim-eq-true_example =
    verify_pop_claim-eq-true toy_python toy_hash toy_signature pop_cnf the_jwk (some toy_session)
      (some the_proof) (codes "GET") (codes "/userinfo") (zeros 1952) refl
      (jwk_to_public_key-public_key_to_jwk (zeros 1952) (zeros-IsBytes 1952) refl)

abbrev endpoint : Endpoint
endpoint = record {
  issuer_url = codes "https://issuer";
  issuer_sk = zeros 4032;
  signing_kid = toy_kid;
  access_token_lifetime_seconds = 900;
  id_token_lifetime_seconds = 3600;
  refresh_token_lifetime_seconds = 604800;
  users = [];
}

abbrev readings : Readings
readings = record {
  code_checked = 20;
  id_issued = 20;
  access_issued = 20;
  refresh_checked = 20;
  refresh_from = 20;
  store_checked = 20;
  store_used = 20;
  stored_at = 20;
  jti = codes "j";
  family = codes "f2";
  refresh_token = codes "u";
}

abbrev bound_meta : Dict Str Str
bound_meta =
    (codes "binding_method", binding_method)
    ∷ (codes "binding_hash", hash_of toy_python toy_hash (codes "r"))
    ∷ []

abbrev stored_token : RefreshTokenRecord
stored_token = record {
  token_hash = codes "t";
  family_id = codes "f";
  subject = codes "alice";
  client_id = codes "app";
  binding_meta = bound_meta;
  issued_at = 1;
  expires_at = 100;
  used_at = none;
  revoked = false;
}

abbrev one_token : Store
one_token = (codes "t", stored_token) ∷ []

abbrev refresh_request : Option BindingProof → TokenRequest
refresh_request proof = record {
  grant_type = codes "refresh_token";
  client_id = some (codes "app");
  redirect_uri = none;
  code = none;
  code_verifier = none;
  refresh_token = some (codes "t");
  session = some toy_session;
  code_data = none;
  binding_proof = proof;
}

abbrev tokens_of : Result TokenResponse → Str × Option Str × Str × Str
tokens_of (raised e) = ([], none, [], [])
tokens_of (ok (failure error m)) = ([], none, [], [])
tokens_of (ok (tokens access id refresh scope)) = (access, id, refresh, scope)

abbrev refreshed : Result TokenResponse × Store
refreshed =
    handle_refresh_token_grant toy_python toy_hash toy_signature endpoint (refresh_request none)
      readings one_token

handle_refresh_token_grant-Checked_example :
    Checked toy_python toy_hash toy_signature endpoint
      (refresh_request none)
      readings
      one_token
      refreshed.1
      (tokens_of refreshed.0).2
unfolding lookup_token get str_eq handle_refresh_token_grant refresh_record
    verify_refresh_binding_metadata get_session_bytes base64url_encode zeros digit
    build_refresh_binding_metadata rotate_token consume_token consume_record refresh_cnf_claim
    build_access_token_binding_claim create_access_token sign_jwt sign put_token put
handle_refresh_token_grant-Checked_example =
    handle_refresh_token_grant-Checked toy_python toy_hash toy_signature endpoint
      (refresh_request none) readings one_token refreshed.1 {access = (tokens_of refreshed.0).0}
      {refresh = (tokens_of refreshed.0).2} {scope = (tokens_of refreshed.0).3}
      {id = (tokens_of refreshed.0).1} refl

-- A signature scheme that verifies nothing.
abbrev stored_code : AuthorizationCodeRecord
stored_code = record {
  code = codes "c";
  client_id = codes "app";
  redirect_uri = codes "https://app/cb";
  scope = codes "openid";
  user_id = codes "alice";
  nonce = none;
  code_challenge = base64url_encode (toy_hash.sha256 (codes "verifier"));
  code_challenge_method = codes "S256";
  issued_at = 10;
  expires_at = 610;
}

abbrev with_code : Stores
with_code = record { codes = (codes "c", stored_code) ∷ []; refresh = [] }

abbrev code_request : TokenRequest
code_request = record {
  grant_type = codes "authorization_code";
  client_id = some (codes "app");
  redirect_uri = some (codes "https://app/cb");
  code = some (codes "c");
  code_verifier = some (codes "verifier");
  refresh_token = none;
  session = some toy_session;
  code_data = none;
  binding_proof = none;
}

abbrev exchanged : Result TokenResponse × Stores
exchanged =
    handle_authorization_code_grant toy_python toy_hash toy_signature endpoint code_request readings
      with_code

handle_authorization_code_grant-Exchanged_example :
    Exchanged toy_python toy_hash toy_signature endpoint code_request readings with_code exchanged.1
unfolding handle_authorization_code_grant grant_record grant_code_data consume_authorization_code
    get str_eq validate_authorization_code_record verify_pkce encode_ascii base64url_encode digit
    zeros issue_authorization_code_tokens create_id_token create_access_token sign_jwt sign
    access_cnf_claim build_access_token_binding_claim build_refresh_binding_metadata
    get_session_bytes issue_token put_token put
handle_authorization_code_grant-Exchanged_example =
    handle_authorization_code_grant-Exchanged toy_python toy_hash toy_signature endpoint
      code_request readings with_code exchanged.1 {access = (tokens_of exchanged.0).0}
      {refresh = (tokens_of exchanged.0).2} {scope = (tokens_of exchanged.0).3}
      {id = (tokens_of exchanged.0).1} refl refl

handle_authorization_code_grant_replay_example :
    handle_authorization_code_grant toy_python toy_hash toy_signature endpoint code_request readings
      exchanged.1
    ≢ (ok (tokens [] none [] []), with_code)
handle_authorization_code_grant_replay_example =
    handle_authorization_code_grant_replay toy_python toy_hash toy_signature endpoint code_request
      code_request readings readings with_code with_code (codes "app") (codes "https://app/cb")
      (codes "verifier") b'c' [] {access = []} {refresh = []} {scope = []} {id = none}
      (record { with_session = refl; client = refl; redirect = refl; verifies = refl }) refl refl
      refl refl

-- ===== src/Examples/Stores.antt =====
-- Authorization codes and refresh tokens in their stores.
use kemtls.Common.{◌<◌, ◌≡◌, refl, false, none, some, [], ◌∷◌, str_eq, codes, Str}
use kemtls.Common.Dict.{Dict, get, put, contains, text_eq}
use kemtls.Oidc.AuthCode.{
  AuthorizationCodeRecord, CodeStore, Registry, issue, grant, AuthorizeRequest,
  is_valid_redirect_uri, handle_authorize_request,
}
use kemtls.Oidc.AuthCode.Granting.{Granted, handle_authorize_request-Granted}
use kemtls.Oidc.RefreshStore.{
  RefreshTokenRecord, Store, lookup_token, put_token, consume_record, consume_token, rotate_token,
}
use kemtls.Oidc.RefreshStore.Rotation.{
  FamilyRevoked, Rotated, consume_token_replay, rotate_token-Rotated,
}
use kemtls.Oidc.RefreshStore.Lifetime.{here, consume_token_once}
use kemtls.Examples.Values.{toy_hash}

abbrev meta : Dict Str Str
meta = (codes "m", codes "v") ∷ []

abbrev one_token : Store
one_token = put_token toy_hash (codes "alice") (codes "app") meta 100 (codes "f") (codes "t") 1 []

abbrev used_once : Store
used_once = (consume_token toy_hash (codes "t") 2 2 one_token).1

abbrev the_record : RefreshTokenRecord
the_record = record {
  token_hash = codes "t";
  family_id = codes "f";
  subject = codes "alice";
  client_id = codes "app";
  binding_meta = meta;
  issued_at = 1;
  expires_at = 100;
  used_at = some 2;
  revoked = false;
}

consume_token_replay_example :
    ((consume_token toy_hash (codes "t") 3 3 used_once).0 ≡ none)
    × (3 < the_record.expires_at
        → FamilyRevoked toy_hash the_record.family_id
            (consume_token toy_hash (codes "t") 3 3 used_once).1)
unfolding put_token put consume_token lookup_token get consume_record str_eq
consume_token_replay_example =
    consume_token_replay toy_hash (codes "t") 2 2 3 3 one_token {s' = used_once} {r = the_record}
      refl

consume_token_once_example : (consume_token toy_hash (codes "t") 50 50 used_once).0 ≡ none
unfolding put_token put consume_token lookup_token get consume_record str_eq
consume_token_once_example =
    consume_token_once toy_hash (codes "t") 2 2 50 50 one_token used_once {s' = used_once}
      {r = the_record} refl here

abbrev rotated_once : Store
rotated_once =
    put_token toy_hash (codes "alice") (codes "app") meta 200 (codes "f") (codes "u") 4 used_once

rotate_token-Rotated_example :
    (codes "u" ≡ codes "u")
    × Rotated toy_hash (codes "t") (codes "u") meta 200 2 4 one_token rotated_once
unfolding put_token put consume_token lookup_token get consume_record rotate_token str_eq
rotate_token-Rotated_example =
    rotate_token-Rotated toy_hash (codes "t") meta 200 (codes "u") 2 2 4 one_token
      {token = codes "u"} {s' = rotated_once} refl

abbrev one_client : Registry
one_client = (codes "app", codes "https://app/cb" ∷ []) ∷ []

abbrev a_request : AuthorizeRequest
a_request = record {
  client_id = codes "app";
  redirect_uri = codes "https://app/cb";
  scope = codes "openid";
  state = codes "xyz";
  nonce = none;
  user_id = some (codes "alice");
  response_type = codes "code";
  code_challenge = some (codes "challenge");
  code_challenge_method = codes "S256";
}

abbrev one_code : CodeStore
one_code = (handle_authorize_request one_client 600 (codes "c") 10 a_request []).1

handle_authorize_request-Granted_example :
    (codes "c" ≡ codes "c")
    × (codes "xyz" ≡ a_request.state)
    × Granted one_client 600 (codes "c") 10 a_request [] one_code
unfolding handle_authorize_request is_valid_redirect_uri get contains grant issue put str_eq
handle_authorize_request-Granted_example =
    handle_authorize_request-Granted one_client 600 (codes "c") 10 a_request [] {code = codes "c"}
      {state = codes "xyz"} {s' = one_code} refl

abbrev a_record : AuthorizationCodeRecord
a_record = record {
  code = codes "c";
  client_id = codes "app";
  redirect_uri = codes "https://app/cb";
  scope = codes "openid";
  user_id = codes "alice";
  nonce = none;
  code_challenge = codes "challenge";
  code_challenge_method = codes "S256";
  issued_at = 10;
  expires_at = 610;
}

-- ===== src/Oidc/Token.antt =====
-- oidc/token_endpoints.py and oidc/claims.py (src/oidc): the token endpoint. The metrics collector
-- is left out.
pub mod Issue
pub mod Grants
pub mod RefreshGrant
pub mod CodeGrant
pub mod CodeUse
use kemtls.Common.{
  ℕ, ◌+◌, String, Bool, true, false, ◌&&◌, ◌||◌, not, Option, none, some, List, [], ◌∷◌, ltb, leb,
  if◌then◌else◌, str_eq, codes, Bytes, Str,
}
use kemtls.Common.Error.{Error, value_error, Result, ok, raised, ◌>>=◌, ◌>>◌, or_raise}
use kemtls.Common.Dict.{Dict, get, put, remove, contains, text_eq}
use kemtls.Common.Json.{
  Json, number, text, object, Members, nothing, member, find, set_member, as_text, truthy, Python,
}
use kemtls.Crypto.Primitives.{Hash, Signature}
use kemtls.Encoding.{base64url_encode}
use kemtls.Session.{KemtlsSession}
use kemtls.Oidc.AuthCode.{AuthorizationCodeRecord, CodeStore, consume, is_missing}
use kemtls.Oidc.RefreshStore.{Store}

-- The attributes of `TokenEndpoint`, without the stores.
pub record Endpoint : Type 0 where
  pub issuer_url : Str
  pub issuer_sk : Bytes
  pub signing_kid : Str
  pub access_token_lifetime_seconds : ℕ
  pub id_token_lifetime_seconds : ℕ
  pub refresh_token_lifetime_seconds : ℕ
  -- `ClaimsProcessor.users`
  pub users : Dict Str Members

pub record Stores : Type 0 where
  pub codes : CodeStore
  pub refresh : Store

-- What the clock shows at each call of `get_timestamp`, and the values that are drawn.
pub record Readings : Type 0 where
  pub code_checked : ℕ
  pub id_issued : ℕ
  pub access_issued : ℕ
  pub refresh_checked : ℕ
  pub refresh_from : ℕ
  pub store_checked : ℕ
  pub store_used : ℕ
  pub stored_at : ℕ
  pub jti : Str
  pub family : Str
  pub refresh_token : Str

-- The dictionaries that the endpoint answers with.
pub data TokenResponse : Type 0 where
  failure : String → Option String → TokenResponse
  tokens : (access : Str) (id : Option Str) (refresh scope : Str) → TokenResponse

-- `str(exc)` of a `ValueError`; another exception passes through.
abbrev pub or_invalid_request : Result TokenResponse → Result TokenResponse
or_invalid_request (ok r) = ok r
or_invalid_request (raised (value_error m)) = ok (failure "invalid_request" (some m))
or_invalid_request (raised e) = raised e

-- The code data that a grant is made from; `nonce` may be any value.
pub record CodeData : Type 0 where
  pub client_id : Str
  pub redirect_uri : Str
  pub scope : Str
  pub user_id : Str
  pub nonce : Option Json
  pub code_challenge : Str
  pub code_challenge_method : Str

-- `s.encode("ascii")`: `UnicodeEncodeError` is a `ValueError`.
unfoldable pub encode_ascii : Str → Result Bytes
encode_ascii [] = ok []
encode_ascii (c ∷ s) =
    let rest = encode_ascii s in
    if ltb c 128
    then (rest >>= λ bytes. ok (c ∷ bytes))
    else raised (value_error "ordinal not in range(128)")

-- `_verify_pkce`, for a verifier that is a text.
unfoldable pub verify_pkce : Hash → Str → Str → Str → Result Bool
verify_pkce h expected_challenge method [] = ok false
verify_pkce h expected_challenge method (c ∷ code_verifier) =
    if not (str_eq method (codes "S256"))
    then ok false
    else encode_ascii (c ∷ code_verifier) >>= λ ascii.
        ok (str_eq (base64url_encode (h.sha256 ascii)) expected_challenge)

-- `_consume_authorization_code`
unfoldable pub consume_authorization_code :
    Option Str → ℕ → CodeStore → Option AuthorizationCodeRecord × CodeStore
unfolding consume
consume_authorization_code none now s = (none, s)
consume_authorization_code (some []) now s = (none, s)
consume_authorization_code (some (c ∷ code)) now s = elim (get (c ∷ code) s) [
  | none ↦ (none, (consume (c ∷ code) s).1)
  | some r ↦
      if ltb r.expires_at now
      then (none, (consume (c ∷ code) s).1)
      else (some r, (consume (c ∷ code) s).1)
]

abbrev pub code_data_of : AuthorizationCodeRecord → CodeData
code_data_of r = record {
  client_id = r.client_id;
  redirect_uri = r.redirect_uri;
  scope = r.scope;
  user_id = r.user_id;
  nonce = elim r.nonce [ none ↦ none | some nonce ↦ some (text nonce) ];
  code_challenge = r.code_challenge;
  code_challenge_method = r.code_challenge_method;
}

-- `_validate_authorization_code_record`, for arguments that are not `None`.
unfoldable pub validate_authorization_code_record :
    Hash → AuthorizationCodeRecord → Str → Str → Str → Result (Option CodeData)
validate_authorization_code_record h r client_id redirect_uri code_verifier =
    if not (str_eq r.client_id client_id) || not (str_eq r.redirect_uri redirect_uri)
    then ok none
    else verify_pkce h r.code_challenge r.code_challenge_method code_verifier >>= λ valid.
        ok (if valid then some (code_data_of r) else none)

-- A field of `code_data` that must be a text with a character.
abbrev pub required : Str → Members → Option Str
required key code_data = elim (as_text (find key code_data)) [
  | none ↦ none
  | some [] ↦ none
  | some (c ∷ s) ↦ some (c ∷ s)
]

infixl 5 ◌>>?◌
abbrev pub ◌>>?◌ {ℓ κ} : {A : Type ℓ} {B : Type κ} → Option A → (A → Option B) → Option B
none >>? f = none
some a >>? f = f a

-- `_normalize_code_data`, without the two times, which nothing reads.
unfoldable pub normalize_code_data : Members → Option CodeData
normalize_code_data code_data = required (codes "client_id") code_data >>? λ client_id.
    required (codes "redirect_uri") code_data >>? λ redirect_uri.
    required (codes "scope") code_data >>? λ scope.
    required (codes "user_id") code_data >>? λ user_id.
    required (codes "code_challenge") code_data >>? λ code_challenge.
    required (codes "code_challenge_method") code_data >>? λ code_challenge_method. some (record {
      client_id = client_id;
      redirect_uri = redirect_uri;
      scope = scope;
      user_id = user_id;
      nonce = find (codes "nonce") code_data;
      code_challenge = code_challenge;
      code_challenge_method = code_challenge_method;
    })

-- `if name in scopes and key in user: claims[key] = user[key]`
abbrev pub copy_claim : Bool → Str → Members → Members → Members
copy_claim false key user claims = claims
copy_claim true key user claims = elim (find key user) [
  | none ↦ claims
  | some value ↦ set_member key value claims
]

-- `self.users.get(user_id, {})`
abbrev pub user_of : Dict Str Members → Str → Members
user_of users user_id = elim (get user_id users) [ none ↦ nothing | some user ↦ user ]

-- `ClaimsProcessor.get_user_claims`, and the `update` of the claims by its result.
unfoldable pub add_user_claims : Dict Str Members → Str → List Str → Members → Members
add_user_claims users user_id scopes claims =
    let user = user_of users user_id in
    copy_claim (contains (codes "email") scopes) (codes "email") user (
      copy_claim (contains (codes "profile") scopes) (codes "name") user
        (set_member (codes "sub") (text user_id) claims))

-- `if code_data.get("nonce"): id_claims["nonce"] = …`
abbrev pub add_nonce : Option Json → Members → Members
add_nonce none claims = claims
add_nonce (some nonce) claims =
    if truthy (some nonce) then set_member (codes "nonce") nonce claims else claims

-- ===== src/Oidc/AuthCode.antt =====
-- oidc/auth_endpoints.py (src/oidc): authorization codes with PKCE.
pub mod Granting
use kemtls.Common.{
  ℕ, ◌+◌, String, Bool, true, false, ◌||◌, not, Option, none, some, List, [], ◌∷◌, ltb,
  if◌then◌else◌, str_eq, codes, Str,
}
use kemtls.Common.Dict.{Dict, get, put, remove, contains, text_eq}

pub record AuthorizationCodeRecord : Type 0 where
  pub code : Str
  pub client_id : Str
  pub redirect_uri : Str
  pub scope : Str
  pub user_id : Str
  pub nonce : Option Str
  pub code_challenge : Str
  pub code_challenge_method : Str
  pub issued_at : ℕ
  pub expires_at : ℕ

-- `InMemoryAuthorizationCodeStore`
abbrev pub CodeStore : Type 0
CodeStore = Dict Str AuthorizationCodeRecord

unfoldable pub issue : AuthorizationCodeRecord → CodeStore → CodeStore
issue r s = put r.code r s

-- `self._records.pop(code, None)`
unfoldable pub consume : Str → CodeStore → Option AuthorizationCodeRecord × CodeStore
consume code s = (get code s, remove code s)

-- `InMemoryClientRegistry`: the redirect URIs of each client; a client without the entry has [].
abbrev pub Registry : Type 0
Registry = Dict Str (List Str)

unfoldable pub is_valid_redirect_uri : Str → Str → Registry → Bool
is_valid_redirect_uri client_id redirect_uri clients = elim (get client_id clients) [
  | none ↦ false
  | some allowed_redirect_uris ↦ contains redirect_uri allowed_redirect_uris
]

-- The dictionaries that the endpoint answers with.
pub data AuthorizeResponse : Type 0 where
  failure : String → Option String → AuthorizeResponse
  auth_required : AuthorizeResponse
  granted : Str → Str → AuthorizeResponse

-- The arguments of `handle_authorize_request`; an argument that may be `None` is an `Option`.
pub record AuthorizeRequest : Type 0 where
  pub client_id : Str
  pub redirect_uri : Str
  pub scope : Str
  pub state : Str
  pub nonce : Option Str
  pub user_id : Option Str
  pub response_type : Str
  pub code_challenge : Option Str
  pub code_challenge_method : Str

-- `not x`, for a text, and for one that may be `None`.
abbrev pub is_blank : Str → Bool
is_blank [] = true
is_blank (c ∷ s) = false

abbrev pub is_missing : Option Str → Bool
is_missing none = true
is_missing (some s) = is_blank s

-- The issue of a code once every check has passed.
unfoldable pub grant :
    ℕ → Str → ℕ → AuthorizeRequest → Str → Str → CodeStore → AuthorizeResponse × CodeStore
unfolding issue
grant lifetime drawn now r challenge user_id s = (
  granted drawn r.state,
  issue
      (record {
        code = drawn;
        client_id = r.client_id;
        redirect_uri = r.redirect_uri;
        scope = r.scope;
        user_id = user_id;
        nonce = r.nonce;
        code_challenge = challenge;
        code_challenge_method = r.code_challenge_method;
        issued_at = now;
        expires_at = now + lifetime;
      })
      s,
)

-- `handle_authorize_request`. `drawn` is the new code, `now` the reading of the clock.
unfoldable pub handle_authorize_request :
    Registry → ℕ → Str → ℕ → AuthorizeRequest → CodeStore → AuthorizeResponse × CodeStore
unfolding is_valid_redirect_uri
handle_authorize_request clients lifetime drawn now r s =
    let refuse : String → Option String → AuthorizeResponse × CodeStore =
      λ error text. (failure error text, s) in
    if not (str_eq r.response_type (codes "code"))
    then refuse "unsupported_response_type" none
    else if is_blank r.client_id || is_blank r.redirect_uri || is_blank r.scope || is_blank r.state
    then refuse "invalid_request" none
    else elim r.code_challenge [
      | none ↦ refuse "invalid_request" (some "PKCE is required")
      | some challenge ↦
          if is_blank challenge
          then refuse "invalid_request" (some "PKCE is required")
          else if not (str_eq r.code_challenge_method (codes "S256"))
          then refuse "invalid_request" (some "PKCE S256 is required")
          else elim (get r.client_id clients) [
            | none ↦ refuse "unauthorized_client" (some "unknown client")
            | some _ ↦
                if not (is_valid_redirect_uri r.client_id r.redirect_uri clients)
                then refuse "invalid_request" (some "redirect URI not allowed")
                else elim r.user_id [
                  | none ↦ (auth_required, s)
                  | some user_id ↦ grant lifetime drawn now r challenge user_id s
                ]
          ]
    ]

-- `validate_code`; the dictionary that it returns holds the record's fields but the code.
unfoldable pub validate_code :
    Str → Str → Str → ℕ → CodeStore → Option AuthorizationCodeRecord × CodeStore
unfolding consume
validate_code code client_id redirect_uri now s = elim (get code s) [
  | none ↦ (none, (consume code s).1)
  | some r ↦
      if not (str_eq r.client_id client_id) || not (str_eq r.redirect_uri redirect_uri)
      then (none, (consume code s).1)
      else if ltb r.expires_at now
      then (none, (consume code s).1)
      else (some r, (consume code s).1)
]

-- ===== src/Oidc/Token/Grants.antt =====
-- The two grants of the token endpoint (oidc/token_endpoints.py under src).
use kemtls.Common.{
  ◌+◌, String, true, false, not, Option, none, some, [], ◌∷◌, leb, if◌then◌else◌, str_eq, codes,
  Bytes, Str,
}
use kemtls.Common.Error.{value_error, Result, ok, raised, ◌>>=◌}
use kemtls.Common.Dict.{Dict, put, text_eq}
use kemtls.Common.Json.{object, Members, Python}
use kemtls.Crypto.Primitives.{Hash, Signature}
use kemtls.Session.{KemtlsSession}
use kemtls.Oidc.RefreshStore.{
  RefreshTokenRecord, Store, is_some, revoke, lookup_token, revoke_family, rotate_token,
}
use kemtls.Oidc.AuthCode.{AuthorizationCodeRecord, CodeStore}
use kemtls.Oidc.Jwt.{create_access_token}
use kemtls.Oidc.SessionBinding.{
  BindingProof, build_access_token_binding_claim, build_refresh_binding_metadata,
  build_access_token_pop_claim, verify_binding_proof, verify_refresh_binding_metadata,
}
use kemtls.Oidc.Token.{
  Endpoint, Stores, Readings, TokenResponse, failure, tokens, or_invalid_request, CodeData,
  verify_pkce, consume_authorization_code, validate_authorization_code_record, normalize_code_data,
}
use kemtls.Oidc.Token.Issue.{build_access_token_claims, issue_authorization_code_tokens}

-- The arguments of `handle_token_request`.
pub record TokenRequest : Type 0 where
  pub grant_type : Str
  pub client_id : Option Str
  pub redirect_uri : Option Str
  pub code : Option Str
  pub code_verifier : Option Str
  pub refresh_token : Option Str
  pub session : Option KemtlsSession
  pub code_data : Option Members
  pub binding_proof : Option BindingProof

-- `value`, where it is a text with a character.
abbrev pub present : Option Str → Option Str
present none = none
present (some []) = none
present (some (c ∷ s)) = some (c ∷ s)

abbrev pub invalid_request : String → Result TokenResponse
invalid_request text = ok (failure "invalid_request" (some text))

abbrev pub invalid_grant : String → Result TokenResponse
invalid_grant text = ok (failure "invalid_grant" (some text))

abbrev pub with_refresh :
    CodeStore → Store → Result (TokenResponse × Store) → Result TokenResponse × Stores
with_refresh c s (ok (r, s')) = (ok r, record { codes = c; refresh = s' })
with_refresh c s (raised e) = (or_invalid_request (raised e), record { codes = c; refresh = s })

module _ (p : Python) (h : Hash) (d : Signature) (t : Endpoint) where
  -- The grant once the code data are known: the comparisons, PKCE, and the tokens.
  unfoldable pub grant_code_data :
      CodeData → Str → Str → Str → TokenRequest → Readings → Stores → Result TokenResponse × Stores
  grant_code_data found client_id redirect_uri code_verifier q now s =
      if not (str_eq found.client_id client_id)
      then (invalid_grant "client mismatch", s)
      else if not (str_eq found.redirect_uri redirect_uri)
      then (invalid_grant "redirect URI mismatch", s)
      else elim (verify_pkce h found.code_challenge found.code_challenge_method code_verifier) [
        | raised e ↦ (raised e, s)
        | ok false ↦ (invalid_grant "PKCE verification failed", s)
        | ok true ↦
            with_refresh s.codes s.refresh (
              issue_authorization_code_tokens p h d t found q.session q.binding_proof now s.refresh)
      ]

  -- The grant once a record has been consumed.
  unfoldable pub grant_record :
      AuthorizationCodeRecord
      → Str
      → Str
      → Str
      → TokenRequest
      → Readings
      → Stores
      → Result TokenResponse × Stores
  grant_record r client_id redirect_uri code_verifier q now s =
      elim (validate_authorization_code_record h r client_id redirect_uri code_verifier) [
        | raised e ↦ (raised e, s)
        | ok none ↦ (invalid_grant "authorization code validation failed", s)
        | ok (some found) ↦ grant_code_data found client_id redirect_uri code_verifier q now s
      ]

  abbrev pub grant_consumed :
      Str
      → Str
      → Str
      → TokenRequest
      → Readings
      → Store
      → Option AuthorizationCodeRecord × CodeStore
      → Result TokenResponse × Stores
  grant_consumed client_id redirect_uri code_verifier q now s (none, c) =
      (invalid_grant "authorization code invalid", record { codes = c; refresh = s })
  grant_consumed client_id redirect_uri code_verifier q now s (some r, c) =
      grant_record r client_id redirect_uri code_verifier q now (record { codes = c; refresh = s })

  abbrev pub grant_source :
      Option Members
      → Str
      → Str
      → Str
      → TokenRequest
      → Readings
      → Stores
      → Result TokenResponse × Stores
  grant_source (some code_data) client_id redirect_uri code_verifier q now s =
      elim (normalize_code_data code_data) [
        | none ↦ (invalid_request "code_data is malformed", s)
        | some found ↦ grant_code_data found client_id redirect_uri code_verifier q now s
      ]
  grant_source none client_id redirect_uri code_verifier q now s =
      grant_consumed client_id redirect_uri code_verifier q now s.refresh
        (consume_authorization_code q.code now.code_checked s.codes)

  -- `_handle_authorization_code_grant`
  unfoldable pub handle_authorization_code_grant :
      TokenRequest → Readings → Stores → Result TokenResponse × Stores
  handle_authorization_code_grant q now s =
      if not (is_some q.session)
      then (invalid_request "active KEMTLS session required", s)
      else elim (present q.client_id) [
        | none ↦ (invalid_request "client_id is required", s)
        | some client_id ↦ elim (present q.redirect_uri) [
          | none ↦ (invalid_request "redirect_uri is required", s)
          | some redirect_uri ↦ elim (present q.code_verifier) [
            | none ↦ (invalid_request "code_verifier is required", s)
            | some code_verifier ↦
                grant_source q.code_data client_id redirect_uri code_verifier q now s
          ]
        ]
      ]

  -- `access_cnf_claim` of `_handle_refresh_token_grant`: `none` is the answer to a bad proof.
  abbrev pub refresh_claim : Option Bytes → Result (Option Members)
  refresh_claim none = ok none
  refresh_claim (some public_key) = build_access_token_pop_claim public_key >>= λ cnf. ok (some cnf)

  unfoldable pub refresh_cnf_claim :
      Option KemtlsSession → Option BindingProof → Result (Option Members)
  refresh_cnf_claim session none =
      build_access_token_binding_claim p h session >>= λ cnf. ok (some cnf)
  refresh_cnf_claim session (some proof) =
      verify_binding_proof p d session (some proof) (codes "POST") (codes "/token")
      >>= refresh_claim

  -- What follows the rotation, with the new refresh token.
  abbrev pub refreshed :
      Readings → RefreshTokenRecord → Str → Result (Option Members) → Result TokenResponse
  refreshed now r new_refresh_token (raised (value_error m)) =
      invalid_request "session binding material is missing from the active KEMTLS session"
  refreshed now r new_refresh_token (raised e) = raised e
  refreshed now r new_refresh_token (ok none) = invalid_request "invalid binding proof signature"
  refreshed now r new_refresh_token (ok (some cnf)) =
      create_access_token p d
        (build_access_token_claims t now r.subject r.client_id (codes "openid")) t.issuer_sk
        t.signing_kid (some (object cnf))
      >>= λ access_token. ok (tokens access_token none new_refresh_token (codes "openid"))

  abbrev pub after_rotation :
      TokenRequest
      → Readings
      → RefreshTokenRecord
      → Store
      → Result (Option Str × Store)
      → Result TokenResponse × Store
  after_rotation q now r s (raised e) = (raised e, s)
  after_rotation q now r s (ok (none, s')) = (invalid_grant "refresh token rotation failed", s')
  after_rotation q now r s (ok (some new_refresh_token, s')) =
      (refreshed now r new_refresh_token (refresh_cnf_claim q.session q.binding_proof), s')

  -- The rotation, with the metadata of the session.
  abbrev pub rotate :
      TokenRequest
      → Readings
      → RefreshTokenRecord
      → Str
      → Store
      → Result (Dict Str Str)
      → Result TokenResponse × Store
  rotate q now r token s (raised e) = (raised e, s)
  rotate q now r token s (ok new_binding_meta) = after_rotation q now r s (
      rotate_token h token new_binding_meta (now.refresh_from + t.refresh_token_lifetime_seconds)
        now.refresh_token now.store_checked now.store_used now.stored_at s)

  -- The tests of `_handle_refresh_token_grant` on the record found.
  unfoldable pub refresh_record :
      TokenRequest
      → Readings
      → Str
      → Str
      → RefreshTokenRecord
      → Store
      → Result TokenResponse × Store
  refresh_record q now client_id token r s =
      if r.revoked
      then (invalid_grant "refresh token revoked", s)
      else if leb r.expires_at now.refresh_checked
      then (invalid_grant "refresh token expired", put (h.sha256_hex token) (revoke r) s)
      else if is_some r.used_at
      then (invalid_grant "refresh token reuse detected", (revoke_family h token s).1)
      else if not (str_eq r.client_id client_id)
      then (invalid_grant "client mismatch", s)
      else if not (verify_refresh_binding_metadata p h r.binding_meta q.session)
      then (invalid_grant "refresh token binding mismatch", s)
      else rotate q now r token s (build_refresh_binding_metadata p h q.session)

  -- `_lookup_token` of an argument that may be `None`.
  abbrev pub find_refresh_token : Option Str → Store → Option (Str × RefreshTokenRecord)
  find_refresh_token none s = none
  find_refresh_token (some token) s = elim (lookup_token h token s) [
    | none ↦ none
    | some r ↦ some (token, r)
  ]

  -- `_handle_refresh_token_grant`
  unfoldable pub handle_refresh_token_grant :
      TokenRequest → Readings → Store → Result TokenResponse × Store
  handle_refresh_token_grant q now s =
      if not (is_some q.session)
      then (invalid_request "active KEMTLS session required", s)
      else elim (present q.client_id) [
        | none ↦ (invalid_request "client_id is required", s)
        | some client_id ↦ elim (find_refresh_token q.refresh_token s) [
          | none ↦ (invalid_grant "unknown refresh token", s)
          | some (token, r) ↦ refresh_record q now client_id token r s
        ]
      ]

  abbrev pub with_codes : CodeStore → Result TokenResponse × Store → Result TokenResponse × Stores
  with_codes c (r, s) = (r, record { codes = c; refresh = s })

  unfoldable pub handle_token_request :
      TokenRequest → Readings → Stores → Result TokenResponse × Stores
  handle_token_request q now s =
      if str_eq q.grant_type (codes "authorization_code")
      then handle_authorization_code_grant q now s
      else if str_eq q.grant_type (codes "refresh_token")
      then with_codes s.codes (handle_refresh_token_grant q now s.refresh)
      else (ok (failure "unsupported_grant_type" none), s)

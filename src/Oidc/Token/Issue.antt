-- ===== src/Oidc/Token/Issue.antt =====
-- The token endpoint's grants (oidc/token_endpoints.py under src).
use kemtls.Common.{◌+◌, String, Option, none, some, codes, Bytes, Str}
use kemtls.Common.Error.{value_error, Result, ok, raised, ◌>>=◌}
use kemtls.Common.Dict.{text_eq}
use kemtls.Common.Json.{number, text, object, Members, nothing, member, Python}
use kemtls.Crypto.Primitives.{Hash, Signature}
use kemtls.Session.{KemtlsSession}
use kemtls.Oidc.RefreshStore.{Store, issue_token}
use kemtls.Oidc.Jwt.{create_id_token, create_access_token}
use kemtls.Oidc.SessionBinding.{
  BindingProof, build_access_token_binding_claim, build_refresh_binding_metadata,
  build_access_token_pop_claim, verify_binding_proof,
}
use kemtls.Oidc.Token.{
  Endpoint, Readings, TokenResponse, tokens, CodeData, add_user_claims, add_nonce,
}

-- `except ValueError as exc: raise ValueError(message) from exc`
abbrev pub rename {ℓ} : {A : Type ℓ} → Result A → String → Result A
rename (ok a) message = ok a
rename (raised (value_error m)) message = raised (value_error message)
rename (raised e) message = raised e

abbrev pub missing_binding : String
missing_binding = "session binding material is missing from the active KEMTLS session"

-- `_build_access_token_claims`
unfoldable pub build_access_token_claims : Endpoint → Readings → Str → Str → Str → Members
build_access_token_claims t now subject client_id scope = member (codes "iss") (text t.issuer_url) (
    member (codes "sub") (text subject) (
      member (codes "aud") (text client_id) (
        member (codes "client_id") (text client_id) (
          member (codes "scope") (text scope) (
            member (codes "iat") (number now.access_issued) (
              member (codes "exp") (number (now.access_issued + t.access_token_lifetime_seconds))
                (member (codes "jti") (text now.jti) nothing)))))))

-- `id_claims`
unfoldable pub build_id_claims : Python → Endpoint → Readings → CodeData → Members
build_id_claims p t now code_data =
    add_user_claims t.users code_data.user_id (p.words code_data.scope) (
      add_nonce code_data.nonce (
        member (codes "iss") (text t.issuer_url) (
          member (codes "sub") (text code_data.user_id) (
            member (codes "aud") (text code_data.client_id) (
              member (codes "iat") (number now.id_issued) (
                member (codes "exp") (number (now.id_issued + t.id_token_lifetime_seconds))
                  nothing))))))

module _ (p : Python) (h : Hash) (d : Signature) (t : Endpoint) where
  -- The claim of a proven key; `None` raises.
  abbrev pub proven_claim : Option Bytes → Result Members
  proven_claim none =
      raised (value_error "binding proof verification failed for the active KEMTLS session")
  proven_claim (some public_key) = build_access_token_pop_claim public_key

  -- The choice of `access_cnf_claim` of `_issue_authorization_code_tokens`.
  unfoldable pub access_cnf_claim : Option KemtlsSession → Option BindingProof → Result Members
  access_cnf_claim session none =
      rename (build_access_token_binding_claim p h session) missing_binding
  access_cnf_claim session (some proof) =
      verify_binding_proof p d session (some proof) (codes "POST") (codes "/token") >>= proven_claim

  -- `_issue_authorization_code_tokens`: the store changes only when nothing has raised.
  unfoldable pub issue_authorization_code_tokens :
      CodeData
      → Option KemtlsSession
      → Option BindingProof
      → Readings
      → Store
      → Result (TokenResponse × Store)
  issue_authorization_code_tokens code_data session proof now s = do
    id_token ← create_id_token p d (build_id_claims p t now code_data) t.issuer_sk t.signing_kid
    cnf ← access_cnf_claim session proof
    binding_meta ← rename (build_refresh_binding_metadata p h session) missing_binding
    access_token ←
        create_access_token p d
          (build_access_token_claims t now code_data.user_id code_data.client_id code_data.scope)
          t.issuer_sk t.signing_kid (some (object cnf))
    issued ←
        issue_token h code_data.user_id code_data.client_id binding_meta
          (now.refresh_from + t.refresh_token_lifetime_seconds) now.family now.refresh_token
          now.store_checked now.stored_at s
    ok (tokens access_token (some id_token) issued.0 code_data.scope, issued.1)

-- ===== src/Oidc/Resource.antt =====
-- oidc/userinfo_endpoints.py and oidc/introspection_endpoints.py (src/oidc): what a resource server
-- does with an access token. The routes of Flask and the metrics collector are left out; `str(value)`
-- of a claim is an argument.
pub mod Protected
use kemtls.Common.{
  ℕ, Bool, true, false, not, Option, none, some, List, [], ◌∷◌, if◌then◌else◌, codes, Bytes, Str,
}
use kemtls.Common.Error.{Error, Result, ok, raised, ◌>>=◌, ◌>>◌}
use kemtls.Common.Dict.{Dict}
use kemtls.Common.Json.{
  Json, null, boolean, text, Members, nothing, member, find, set_member, or_null, as_text, get_item,
  truthy, Python,
}
use kemtls.Crypto.Primitives.{Hash, Signature}
use kemtls.Oidc.Jwt.{is_blank, validate_access_token}
use kemtls.Oidc.SessionBinding.{BindingProof, or_none, verify_access_token_binding_claim}
use kemtls.Oidc.Token.{add_user_claims}
use kemtls.Session.{KemtlsSession}

-- `UserInfoEndpoint` and `IntrospectionEndpoint`, with the table of the claims processor.
pub record Resource : Type 0 where
  pub issuer_pk : Bytes
  pub issuer : Option Str
  pub audience : Option Str
  pub users : Dict Str Members

-- How a token comes: over a session or not, with a proof or not, for a method and a path.
pub record Presented : Type 0 where
  pub session : Option KemtlsSession
  pub binding_proof : Option BindingProof
  pub method : Str
  pub path : Str

-- `{"error": code}, 401`
abbrev pub refused : Str → Members × ℕ
refused code = (member (codes "error") (text code) nothing, 401)

abbrev pub inactive : Members
inactive = member (codes "active") (boolean false) nothing

module _ (p : Python) (h : Hash) (d : Signature) (str_of : Json → Str) (e : Resource) where
  abbrev pub is_bound : Members → Presented → Result Bool
  is_bound claims q =
      verify_access_token_binding_claim p h d claims q.session q.binding_proof q.method q.path

  -- The token's claims, if it is valid.
  unfoldable pub valid_claims : Str → ℕ → Option Members
  valid_claims token now =
      or_none (validate_access_token p d token e.issuer_pk e.issuer e.audience now)

  -- `if "email_verified" in claims: response["email_verified"] = claims["email_verified"]`
  abbrev pub add_email_verified : Option Json → Members → Members
  add_email_verified none response = response
  add_email_verified (some value) response = set_member (codes "email_verified") value response

  -- `str(claims.get("scope", ""))`
  abbrev pub scope_of : Option Json → Str
  scope_of none = []
  scope_of (some scope) = str_of scope

  -- The response for the claims of a token that is bound to the session.
  unfoldable pub user_claims : Members → Result (Members × ℕ)
  user_claims claims = do
    sub ← get_item (codes "sub") claims
    ok (
      add_email_verified (find (codes "email_verified") claims) (
          add_user_claims e.users (str_of sub) (p.words (scope_of (find (codes "scope") claims)))
            nothing),
      200,
    )

  unfoldable pub answer_bound : Members → Bool → Result (Members × ℕ)
  answer_bound claims binding_valid =
      if binding_valid then user_claims claims else ok (refused (codes "binding_mismatch"))

  -- An exception of the binding check passes on.
  unfoldable pub handle_userinfo_request : Str → Presented → ℕ → Result (Members × ℕ)
  handle_userinfo_request [] q now = ok (refused (codes "invalid_token"))
  handle_userinfo_request (c ∷ token) q now = elim q.session [
    | none ↦ ok (refused (codes "missing_session_context"))
    | some session ↦ elim (valid_claims (c ∷ token) now) [
      | none ↦ ok (refused (codes "invalid_token"))
      | some claims ↦ is_bound claims q >>= answer_bound claims
    ]
  ]

  -- `response["handshake_mode_seen"] = handshake_mode`, for a text that is not empty
  abbrev pub add_mode : Option Str → Members → Members
  add_mode none response = response
  add_mode (some []) response = response
  add_mode (some (c ∷ mode)) response =
      set_member (codes "handshake_mode_seen") (text (c ∷ mode)) response

  abbrev pub with_binding : KemtlsSession → Members → Bool → Members
  with_binding session response binding_ok = add_mode (as_text (some session.handshake_mode)) (
      set_member (codes "active") (boolean binding_ok)
        (set_member (codes "binding_status") (boolean binding_ok) response))

  abbrev pub active_response : Members → Members
  active_response claims = member (codes "active") (boolean true) (
      member (codes "sub") (or_null (find (codes "sub") claims)) (
        member (codes "client_id") (or_null (find (codes "client_id") claims))
          (member (codes "scope") (or_null (find (codes "scope") claims)) nothing)))

  unfoldable pub introspect : Str → Presented → ℕ → Result Members
  unfolding set_member
  introspect [] q now = ok inactive
  introspect (c ∷ token) q now = elim (valid_claims (c ∷ token) now) [
    | none ↦ ok inactive
    | some claims ↦ elim q.session [
      | none ↦ ok (active_response claims)
      | some session ↦ is_bound claims q >>= λ binding_ok.
          ok (with_binding session (active_response claims) binding_ok)
    ]
  ]

-- ===== src/Oidc/Token/CodeGrant.antt =====
-- The authorization code grant: what it checks, and that a code is spent.
use kemtls.Common.{
  ℕ, ◌≤◌, ◌≡◌, refl, inl, inr, arith, true, false, Option, none, some, [], ◌∷◌, Option-cases,
  str_eq_iff, codes, Bytes, Str,
}
use kemtls.Common.Error.{Result, ok, raised, Result-cases}
use kemtls.Common.Dict.{get, remove, text_eq, get-remove_self}
use kemtls.Common.Json.{Python}
use kemtls.Crypto.Primitives.{Hash, Signature}
use kemtls.Encoding.{base64url_encode}
use kemtls.Oidc.AuthCode.{AuthorizationCodeRecord, CodeStore, consume}
use kemtls.Oidc.RefreshStore.{Store, is_some}
use kemtls.Oidc.Token.{
  Endpoint, Stores, Readings, TokenResponse, tokens, CodeData, encode_ascii, verify_pkce,
  consume_authorization_code, validate_authorization_code_record,
}
use kemtls.Oidc.Token.Issue.{issue_authorization_code_tokens}
use kemtls.Oidc.Token.Grants.{
  TokenRequest, present, with_refresh, grant_code_data, grant_record, grant_consumed, grant_source,
  handle_authorization_code_grant,
}

-- A code, once consumed, is no longer stored, whether it was valid or not.
pub consume_authorization_code_spent :
    (c : ℕ) (code : Str) (now : ℕ) (s : CodeStore)
    → get (c ∷ code) (consume_authorization_code (some (c ∷ code)) now s).1 ≡ none
unfolding consume_authorization_code
consume_authorization_code_spent c code now s = elim (Option-cases (get (c ∷ code) s)) [
  | inl e ↦ ground (arith, get-remove_self (c ∷ code) s)
  | inr (r, e) ↦ ground (arith, get-remove_self (c ∷ code) s)
]

pub consume_authorization_code_inv :
    (code : Option Str) (now : ℕ) (s : CodeStore) {r : AuthorizationCodeRecord} {s' : CodeStore}
    → consume_authorization_code code now s ≡ (some r, s')
    → (c : Str) × (code ≡ some c) × (get c s ≡ some r) × (now ≤ r.expires_at) × (s' ≡ remove c s)
unfolding consume_authorization_code consume
consume_authorization_code_inv none now s e = absurd (ground arith)
consume_authorization_code_inv (some []) now s e = absurd (ground arith)
consume_authorization_code_inv (some (c ∷ code)) now s e = elim (Option-cases (get (c ∷ code) s)) [
  | inl x ↦ absurd (ground arith)
  | inr (r, x) ↦ (c ∷ code, refl, ground arith, ground arith, ground arith)
]

-- A verifier passes PKCE exactly when the method is S256 and the hash of its characters, in
-- base64url, is the challenge.
pub verify_pkce_inv :
    (h : Hash) (challenge method verifier : Str)
    → verify_pkce h challenge method verifier ≡ ok true
    → (ascii : Bytes) × (method ≡ codes "S256")
      × (encode_ascii verifier ≡ ok ascii)
      × (base64url_encode (h.sha256 ascii) ≡ challenge)
unfolding verify_pkce
verify_pkce_inv h challenge method [] e = absurd (ground arith)
verify_pkce_inv h challenge method (c ∷ verifier) e =
    elim (Result-cases (encode_ascii (c ∷ verifier))) [
      | inr (x, f) ↦ absurd (ground arith)
      | inl (ascii, f) ↦ (
        ascii,
        ground (arith, str_eq_iff method (codes "S256")),
        f,
        ground (arith, str_eq_iff (base64url_encode (h.sha256 ascii)) challenge),
      )
    ]

pub encode_ascii-eq : (s : Str) {bytes : Bytes} → encode_ascii s ≡ ok bytes → bytes ≡ s
unfolding encode_ascii
encode_ascii-eq [] e = ground arith
encode_ascii-eq (c ∷ s) e = elim (Result-cases (encode_ascii s)) [
  | inr (x, f) ↦ absurd (ground arith)
  | inl (bytes, f) ↦ ground (arith, encode_ascii-eq s f)
]

with_refresh-codes :
    (c : CodeStore) (s : Store) (m : Result (TokenResponse × Store))
    → (with_refresh c s m).1.codes ≡ c
with_refresh-codes c s (ok (r, s')) = refl
with_refresh-codes c s (raised e) = refl

module _ (p : Python) (h : Hash) (d : Signature) (t : Endpoint) where
  pub grant_code_data_inv :
      (found : CodeData) (client_id redirect_uri verifier : Str) (q : TokenRequest) (now : Readings)
      (s s' : Stores) {access refresh scope : Str} {id : Option Str}
      → grant_code_data p h d t found client_id redirect_uri verifier q now s
        ≡ (ok (tokens access id refresh scope), s')
      → (found.client_id ≡ client_id)
        × (found.redirect_uri ≡ redirect_uri)
        × (verify_pkce h found.code_challenge found.code_challenge_method verifier ≡ ok true)
  unfolding grant_code_data
  grant_code_data_inv found client_id redirect_uri verifier q now s s' e =
      elim (Result-cases
        (verify_pkce h found.code_challenge found.code_challenge_method verifier)) [
          | inr (x, f) ↦ absurd (ground arith)
          | inl (false, f) ↦ absurd (ground arith)
          | inl (true, f) ↦ (
            ground (arith, str_eq_iff found.client_id client_id),
            ground (arith, str_eq_iff found.redirect_uri redirect_uri),
            f,
          )
        ]

  -- Nothing but `consume` changes the codes.
  grant_code_data-codes :
      (found : CodeData) (client_id redirect_uri verifier : Str) (q : TokenRequest) (now : Readings)
      (s : Stores)
      → (grant_code_data p h d t found client_id redirect_uri verifier q now s).1.codes ≡ s.codes
  unfolding grant_code_data
  grant_code_data-codes found client_id redirect_uri verifier q now s =
      elim (Result-cases
        (verify_pkce h found.code_challenge found.code_challenge_method verifier)) [
          | inr (x, f) ↦ ground arith
          | inl (false, f) ↦ ground arith
          | inl (true, f) ↦ ground (
            arith,
            with_refresh-codes s.codes s.refresh (
                issue_authorization_code_tokens p h d t found q.session q.binding_proof now
                  s.refresh),
          )
        ]

  pub grant_record_inv :
      (r : AuthorizationCodeRecord) (client_id redirect_uri verifier : Str) (q : TokenRequest)
      (now : Readings) (s s' : Stores) {access refresh scope : Str} {id : Option Str}
      → grant_record p h d t r client_id redirect_uri verifier q now s
        ≡ (ok (tokens access id refresh scope), s')
      → (found : CodeData) × (validate_authorization_code_record h r client_id redirect_uri verifier
          ≡ ok (some found))
        × (grant_code_data p h d t found client_id redirect_uri verifier q now s
            ≡ (ok (tokens access id refresh scope), s'))
  unfolding grant_record
  grant_record_inv r client_id redirect_uri verifier q now s s' e =
      elim (Result-cases (validate_authorization_code_record h r client_id redirect_uri verifier)) [
        | inr (x, f) ↦ absurd (ground arith)
        | inl (none, f) ↦ absurd (ground arith)
        | inl (some found, f) ↦ (found, f, ground arith)
      ]

  grant_record-codes :
      (r : AuthorizationCodeRecord) (client_id redirect_uri verifier : Str) (q : TokenRequest)
      (now : Readings) (s : Stores)
      → (grant_record p h d t r client_id redirect_uri verifier q now s).1.codes ≡ s.codes
  unfolding grant_record
  grant_record-codes r client_id redirect_uri verifier q now s =
      elim (Result-cases (validate_authorization_code_record h r client_id redirect_uri verifier)) [
        | inr (x, f) ↦ ground arith
        | inl (none, f) ↦ ground arith
        | inl (some found, f) ↦
            ground (arith, grant_code_data-codes found client_id redirect_uri verifier q now s)
      ]

  pub grant_consumed-codes :
      (client_id redirect_uri verifier : Str) (q : TokenRequest) (now : Readings) (s : Store)
      (m : Option AuthorizationCodeRecord × CodeStore)
      → (grant_consumed p h d t client_id redirect_uri verifier q now s m).1.codes ≡ m.1
  grant_consumed-codes client_id redirect_uri verifier q now s (none, c) = refl
  grant_consumed-codes client_id redirect_uri verifier q now s (some r, c) =
      grant_record-codes r client_id redirect_uri verifier q now (record { codes = c; refresh = s })

  pub grant_consumed_inv :
      (client_id redirect_uri verifier : Str) (q : TokenRequest) (now : Readings) (s : Store)
      (s' : Stores) (m : Option AuthorizationCodeRecord × CodeStore) {access refresh scope : Str}
      {id : Option Str}
      → grant_consumed p h d t client_id redirect_uri verifier q now s m
        ≡ (ok (tokens access id refresh scope), s')
      → (r : AuthorizationCodeRecord) × (m ≡ (some r, m.1))
        × (grant_record p h d t r client_id redirect_uri verifier q now
              (record { codes = m.1; refresh = s })
            ≡ (ok (tokens access id refresh scope), s'))
  grant_consumed_inv client_id redirect_uri verifier q now s s' (none, c) e = absurd (ground arith)
  grant_consumed_inv client_id redirect_uri verifier q now s s' (some r, c) e = (r, refl, e)

  -- The arguments that a request must have to reach its code.
  pub record HasArguments (q : TokenRequest) (client_id redirect_uri verifier : Str) : Type 0 where
    pub with_session : is_some q.session ≡ true
    pub client : present q.client_id ≡ some client_id
    pub redirect : present q.redirect_uri ≡ some redirect_uri
    pub verifies : present q.code_verifier ≡ some verifier

  pub handle_inv :
      (q : TokenRequest) (now : Readings) (s s' : Stores) {access refresh scope : Str}
      {id : Option Str}
      → handle_authorization_code_grant p h d t q now s ≡ (ok (tokens access id refresh scope), s')
      → (client_id redirect_uri verifier : Str) × HasArguments q client_id redirect_uri verifier
  unfolding handle_authorization_code_grant
  handle_inv q now s s' e = elim (Option-cases (present q.client_id)) [
    | inl x ↦ absurd (ground arith)
    | inr (client_id, x) ↦ elim (Option-cases (present q.redirect_uri)) [
      | inl y ↦ absurd (ground arith)
      | inr (redirect_uri, y) ↦ elim (Option-cases (present q.code_verifier)) [
        | inl z ↦ absurd (ground arith)
        | inr (verifier, z) ↦ (
          client_id,
          redirect_uri,
          verifier,
          record { with_session = ground arith; client = x; redirect = y; verifies = z },
        )
      ]
    ]
  ]

  pub handle-eq :
      (q : TokenRequest) (now : Readings) (s : Stores) (client_id redirect_uri verifier : Str)
      → HasArguments q client_id redirect_uri verifier
      → handle_authorization_code_grant p h d t q now s
        ≡ grant_source p h d t q.code_data client_id redirect_uri verifier q now s
  unfolding handle_authorization_code_grant
  handle-eq q now s client_id redirect_uri verifier a =
      rw (a.with_session, a.client, a.redirect, a.verifies) refl

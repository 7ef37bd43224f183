-- ===== src/Oidc/AuthCode/Granting.antt =====
-- When a code is granted, and when it is accepted.
use kemtls.Common.{
  ℕ, ◌+◌, ◌≤◌, ◌≡◌, ◌≢◌, ◌↔◌, refl, ap, ◌∙◌, inl, inr, arith, true, none, some, [], Option-cases,
  str_eq_iff, codes, Str,
}
use kemtls.Common.Dict.{get, text_eq, get-put_self, get-put_ne}
use kemtls.Oidc.AuthCode.{
  AuthorizationCodeRecord, CodeStore, issue, Registry, is_valid_redirect_uri, AuthorizeResponse,
  granted, AuthorizeRequest, grant, handle_authorize_request, validate_code,
}

-- What a granted request has been checked for, and what is stored under the code.
pub record Granted (clients : Registry) (lifetime : ℕ) (drawn : Str) (now : ℕ)
    (r : AuthorizeRequest) (s s' : CodeStore) : Type 0 where
  pub stored : AuthorizationCodeRecord
  pub at_code : get drawn s' ≡ some stored
  pub others : (k : Str) → drawn ≢ k → get k s' ≡ get k s
  pub client_named : r.client_id ≢ []
  pub redirect_named : r.redirect_uri ≢ []
  pub scope_given : r.scope ≢ []
  pub state_given : r.state ≢ []
  pub response_type : r.response_type ≡ codes "code"
  pub known_client : get r.client_id clients ≢ none
  pub redirect_allowed : is_valid_redirect_uri r.client_id r.redirect_uri clients ≡ true
  pub logged_in : r.user_id ≡ some stored.user_id
  pub challenged : r.code_challenge ≡ some stored.code_challenge
  pub challenge_present : stored.code_challenge ≢ []
  pub s256 : stored.code_challenge_method ≡ codes "S256"
  pub same_client : stored.client_id ≡ r.client_id
  pub same_redirect : stored.redirect_uri ≡ r.redirect_uri
  pub same_scope : stored.scope ≡ r.scope
  pub same_nonce : stored.nonce ≡ r.nonce
  pub same_code : stored.code ≡ drawn
  pub issued : stored.issued_at ≡ now
  pub lives : stored.expires_at ≡ now + lifetime

module _ (clients : Registry) (lifetime : ℕ) (drawn : Str) (now : ℕ) (r : AuthorizeRequest)
    (s : CodeStore) where
  abbrev new_record : Str → Str → AuthorizationCodeRecord
  new_record challenge user_id = record {
    code = drawn;
    client_id = r.client_id;
    redirect_uri = r.redirect_uri;
    scope = r.scope;
    user_id = user_id;
    nonce = r.nonce;
    code_challenge = challenge;
    code_challenge_method = r.code_challenge_method;
    issued_at = now;
    expires_at = now + lifetime;
  }

  handle_inv :
      {code state : Str} {s' : CodeStore}
      → handle_authorize_request clients lifetime drawn now r s ≡ (granted code state, s')
      → (challenge user_id : Str) × (r.client_id ≢ [])
        × (r.redirect_uri ≢ [])
        × (r.scope ≢ [])
        × (r.state ≢ [])
        × (r.response_type ≡ codes "code")
        × (get r.client_id clients ≢ none)
        × (is_valid_redirect_uri r.client_id r.redirect_uri clients ≡ true)
        × (r.user_id ≡ some user_id)
        × (r.code_challenge ≡ some challenge)
        × (challenge ≢ [])
        × (r.code_challenge_method ≡ codes "S256")
        × ((granted code state, s') ≡ grant lifetime drawn now r challenge user_id s)
  unfolding handle_authorize_request
  handle_inv h = elim (Option-cases r.code_challenge) [
    | inl e ↦ absurd (ground arith)
    | inr (challenge, e) ↦ elim (Option-cases r.user_id) [
      | inl u ↦ absurd (ground arith)
      | inr (user_id, u) ↦ (
        challenge,
        user_id,
        ground arith,
        ground arith,
        ground arith,
        ground arith,
        ground (arith, str_eq_iff r.response_type (codes "code")),
        ground arith,
        ground arith,
        u,
        e,
        ground arith,
        ground (arith, str_eq_iff r.code_challenge_method (codes "S256")),
        ground arith,
      )
    ]
  ]

  -- If the authorization request is answered with a code, that code is the drawn one and the state
  -- is the client's; the request asked for `code`, had a scope and a state, named a known client,
  -- one of its redirect URIs, a logged-in user and a PKCE S256 challenge; and the record stored under
  -- the code holds exactly that client, redirect URI, scope, nonce, user and challenge, is issued now
  -- and expires `lifetime` seconds later, and every other code keeps its record.
  pub handle_authorize_request-Granted :
      {code state : Str} {s' : CodeStore}
      → handle_authorize_request clients lifetime drawn now r s ≡ (granted code state, s')
      → (code ≡ drawn) × (state ≡ r.state) × Granted clients lifetime drawn now r s s'
  unfolding grant issue
  handle_authorize_request-Granted h =
      let (
        challenge, user_id, client, uri, scope, state, type_ok, known, redirect, user, challenged,
        present, s256, eq,
      ) =
        handle_inv h in
      (
        ground arith,
        ground arith,
        record {
          stored = new_record challenge user_id;
          at_code =
              ap (get drawn) (ap (λ p. p.1) eq)
              ∙ get-put_self drawn (new_record challenge user_id) s;
          others = λ k ne.
              ap (get k) (ap (λ p. p.1) eq)
              ∙ get-put_ne drawn k (new_record challenge user_id) s ne;
          client_named = client;
          redirect_named = uri;
          scope_given = scope;
          state_given = state;
          response_type = type_ok;
          known_client = known;
          redirect_allowed = redirect;
          logged_in = user;
          challenged = challenged;
          challenge_present = present;
          s256 = s256;
          same_client = refl;
          same_redirect = refl;
          same_scope = refl;
          same_nonce = refl;
          same_code = refl;
          issued = refl;
          lives = refl;
        },
      )

  -- An authorization request that is not answered with a code leaves the store of codes as it was.
  pub handle_authorize_request_refused :
      {a : AuthorizeResponse} {s' : CodeStore}
      → handle_authorize_request clients lifetime drawn now r s ≡ (a, s')
      → ((code state : Str) → a ≢ granted code state)
      → s' ≡ s
  unfolding handle_authorize_request grant
  handle_authorize_request_refused h refusal = elim (Option-cases r.code_challenge) [
    | inl e ↦ ground arith
    | inr (challenge, e) ↦ elim (Option-cases r.user_id) [
      | inl u ↦ ground arith
      | inr (user_id, u) ↦ ground (arith, refusal drawn r.state)
    ]
  ]

-- A code is accepted exactly when it is stored with that client and redirect URI and has not
-- expired, and the answer is its record.
pub validate_code-eq-some :
    (c client_id redirect_uri : Str) (now : ℕ) (s : CodeStore) (r : AuthorizationCodeRecord)
    → ((validate_code c client_id redirect_uri now s).0 ≡ some r) ↔ (
        (get c s ≡ some r)
        × (r.client_id ≡ client_id)
        × (r.redirect_uri ≡ redirect_uri)
        × (now ≤ r.expires_at))
unfolding validate_code
validate_code-eq-some c client_id redirect_uri now s r = elim (Option-cases (get c s)) [
  | inl e ↦ ground arith
  | inr (found, e) ↦
      ground
        (arith, str_eq_iff found.client_id client_id, str_eq_iff found.redirect_uri redirect_uri)
]

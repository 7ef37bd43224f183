-- ===== src/Oidc/Token/CodeUse.antt =====
-- An authorization code is exchanged once, by the client that it was issued to.
use kemtls.Common.{
  ℕ, ◌≤◌, ◌≡◌, ◌≢◌, ap, ◌∙◌, sym, inl, inr, arith, true, false, Option, none, some, ◌∷◌, str_eq_iff,
  codes, Bytes, Str,
}
use kemtls.Common.Error.{Result, ok, Result-cases}
use kemtls.Common.Dict.{get, remove, text_eq}
use kemtls.Common.Json.{Members, Python}
use kemtls.Crypto.Primitives.{Hash, Signature}
use kemtls.Encoding.{base64url_encode}
use kemtls.Oidc.AuthCode.{AuthorizationCodeRecord}
use kemtls.Oidc.Token.{
  Endpoint, Stores, Readings, TokenResponse, tokens, CodeData, verify_pkce,
  consume_authorization_code, validate_authorization_code_record,
}
use kemtls.Oidc.Token.Grants.{TokenRequest, grant_source, handle_authorization_code_grant}
use kemtls.Oidc.Token.RefreshGrant.{present_inv}
use kemtls.Oidc.Token.CodeGrant.{
  consume_authorization_code_spent, consume_authorization_code_inv, verify_pkce_inv,
  encode_ascii-eq, grant_record_inv, grant_consumed-codes, grant_consumed_inv, HasArguments,
  handle_inv, handle-eq,
}

validate_inv :
    (h : Hash) (r : AuthorizationCodeRecord) (client_id redirect_uri verifier : Str)
    {found : CodeData}
    → validate_authorization_code_record h r client_id redirect_uri verifier ≡ ok (some found)
    → (r.client_id ≡ client_id)
      × (r.redirect_uri ≡ redirect_uri)
      × (verify_pkce h r.code_challenge r.code_challenge_method verifier ≡ ok true)
unfolding validate_authorization_code_record
validate_inv h r client_id redirect_uri verifier e =
    elim (Result-cases (verify_pkce h r.code_challenge r.code_challenge_method verifier)) [
      | inr (x, f) ↦ absurd (ground (arith, str_eq_iff r.client_id client_id))
      | inl (false, f) ↦ absurd (ground arith)
      | inl (true, f) ↦ (
        ground (arith, str_eq_iff r.client_id client_id),
        ground (arith, str_eq_iff r.redirect_uri redirect_uri),
        f,
      )
    ]

module _ (p : Python) (h : Hash) (d : Signature) (t : Endpoint) where
  -- What an exchange of a code for tokens has been checked for, and what it leaves.
  pub record Exchanged (q : TokenRequest) (now : Readings) (s s' : Stores) : Type 0 where
    pub code : Str
    pub stored : AuthorizationCodeRecord
    pub verifier : Str
    pub presented : q.code ≡ some code
    pub known : get code s.codes ≡ some stored
    pub unexpired : now.code_checked ≤ stored.expires_at
    pub same_client : q.client_id ≡ some stored.client_id
    pub same_redirect : q.redirect_uri ≡ some stored.redirect_uri
    pub verifier_given : q.code_verifier ≡ some verifier
    pub s256 : stored.code_challenge_method ≡ codes "S256"
    pub proves : base64url_encode (h.sha256 verifier) ≡ stored.code_challenge
    pub spent : s'.codes ≡ remove code s.codes

  -- A request without `code_data` that is answered with tokens names a stored, unexpired code that
  -- was issued to its client and redirect URI, and its verifier hashes to the code's challenge; the
  -- code, and no other, is gone from the store.
  pub handle_authorization_code_grant-Exchanged :
      (q : TokenRequest) (now : Readings) (s s' : Stores) {access refresh scope : Str}
      {id : Option Str}
      → q.code_data ≡ none
      → handle_authorization_code_grant p h d t q now s ≡ (ok (tokens access id refresh scope), s')
      → Exchanged q now s s'
  handle_authorization_code_grant-Exchanged q now s s' no_data e =
      let (client_id, redirect_uri, verifier, a) = handle_inv p h d t q now s s' e in
      let from_store =
        sym (
          ap
            (λ (o : Option Members). grant_source p h d t o client_id redirect_uri verifier q now s)
            no_data)
        ∙ sym (handle-eq p h d t q now s client_id redirect_uri verifier a)
        ∙ e in
      let (r, consumed, granted) =
        grant_consumed_inv p h d t client_id redirect_uri verifier q now s.refresh s'
          (consume_authorization_code q.code now.code_checked s.codes) from_store in
      let (found, valid, rest) =
        grant_record_inv p h d t r client_id redirect_uri verifier q now _ s' granted in
      let (same_client, same_redirect, pkce) =
        validate_inv h r client_id redirect_uri verifier valid in
      let (ascii, method, encoded, challenge) =
        verify_pkce_inv h r.code_challenge r.code_challenge_method verifier pkce in
      let (code, presented, known, unexpired, gone) =
        consume_authorization_code_inv q.code now.code_checked s.codes consumed in
      record {
        code = code;
        stored = r;
        verifier = verifier;
        presented = presented;
        known = known;
        unexpired = unexpired;
        same_client = present_inv q.client_id a.client ∙ ap some (sym same_client);
        same_redirect = present_inv q.redirect_uri a.redirect ∙ ap some (sym same_redirect);
        verifier_given = present_inv q.code_verifier a.verifies;
        s256 = method;
        proves =
            ap (λ (b : Bytes). base64url_encode (h.sha256 b))
              (sym (encode_ascii-eq verifier encoded))
            ∙ challenge;
        spent =
            ap (λ (x : Result TokenResponse × Stores). x.1.codes) (sym from_store)
            ∙ grant_consumed-codes p h d t client_id redirect_uri verifier q now s.refresh
                (consume_authorization_code q.code now.code_checked s.codes)
            ∙ gone;
      }

  -- A request that has its arguments spends the code it names, whatever the outcome: an exception,
  -- a refusal or tokens.
  handle_authorization_code_grant_spent :
      (q : TokenRequest) (now : Readings) (s : Stores) (client_id redirect_uri verifier : Str)
      (c : ℕ) (code : Str)
      → HasArguments p h d t q client_id redirect_uri verifier
      → q.code_data ≡ none
      → q.code ≡ some (c ∷ code)
      → get (c ∷ code) (handle_authorization_code_grant p h d t q now s).1.codes ≡ none
  handle_authorization_code_grant_spent q now s client_id redirect_uri verifier c code a no_data
        named =
      ap (λ (x : Result TokenResponse × Stores). get (c ∷ code) x.1.codes)
        (handle-eq p h d t q now s client_id redirect_uri verifier a
          ∙ ap
              (λ (o : Option Members).
                grant_source p h d t o client_id redirect_uri verifier q now s)
              no_data)
      ∙ ap (get (c ∷ code)) (
          grant_consumed-codes p h d t client_id redirect_uri verifier q now s.refresh
            (consume_authorization_code q.code now.code_checked s.codes))
      ∙ ap
          (λ (o : Option Str).
            get (c ∷ code) (consume_authorization_code o now.code_checked s.codes).1)
          named
      ∙ consume_authorization_code_spent c code now.code_checked s.codes

  -- Once a request with its arguments has named a code, no second request with that code is answered
  -- with tokens, even if the first one was refused or raised.
  pub handle_authorization_code_grant_replay :
      (q q' : TokenRequest) (now now' : Readings) (s s' : Stores)
      (client_id redirect_uri verifier : Str) (c : ℕ) (code : Str) {access refresh scope : Str}
      {id : Option Str}
      → HasArguments p h d t q client_id redirect_uri verifier
      → q.code_data ≡ none
      → q'.code_data ≡ none
      → q.code ≡ some (c ∷ code)
      → q'.code ≡ some (c ∷ code)
      → handle_authorization_code_grant p h d t q' now'
          (handle_authorization_code_grant p h d t q now s).1
        ≢ (ok (tokens access id refresh scope), s')
  handle_authorization_code_grant_replay q q' now now' s s' client_id redirect_uri verifier c code a
        no_data no_data' named named' e =
      let x = handle_authorization_code_grant-Exchanged q' now' _ s' no_data' e in
      let same : x.code ≡ c ∷ code = ground arith in
      ground (
        arith,
        x.known,
        ap (λ (k : Str). get k (handle_authorization_code_grant p h d t q now s).1.codes) same,
        handle_authorization_code_grant_spent q now s client_id redirect_uri verifier c code a
            no_data named,
      )

-- ===== src/Oidc/Token/RefreshGrant.antt =====
-- The refresh grant: what it checks, and what becomes of the tokens.
use kemtls.Common.{
  ◌+◌, ◌<◌, ◌≡◌, refl, ap, ◌∙◌, sym, inl, inr, arith, true, false, Option, none, some, [], ◌∷◌,
  Option-cases, str_eq_iff, Str,
}
use kemtls.Common.Error.{
  value_error, type_error, overflow_error, eof_error, key_error, runtime_error, struct_error,
  attribute_error, index_error, timeout_error, out_of_fuel, Result, ok, raised, >>=-eq-ok,
}
use kemtls.Common.Dict.{Dict, text_eq}
use kemtls.Common.Json.{Members, Python}
use kemtls.Crypto.Primitives.{Hash, Signature}
use kemtls.Oidc.RefreshStore.{RefreshTokenRecord, Store, is_some, lookup_token, rotate_token}
use kemtls.Oidc.RefreshStore.Rotation.{Rotated, rotate_token-Rotated}
use kemtls.Oidc.Jwt.{create_access_token}
use kemtls.Oidc.SessionBinding.{build_refresh_binding_metadata, verify_refresh_binding_metadata}
use kemtls.Oidc.Token.{Endpoint, Readings, TokenResponse, tokens}
use kemtls.Oidc.Token.Grants.{
  TokenRequest, present, refresh_cnf_claim, refreshed, after_rotation, rotate, refresh_record,
  find_refresh_token, handle_refresh_token_grant,
}

pub present_inv : (o : Option Str) {s : Str} → present o ≡ some s → o ≡ some s
present_inv none e = cc
present_inv (some []) e = cc
present_inv (some (c ∷ s)) e = e

module _ (p : Python) (h : Hash) (d : Signature) (t : Endpoint) where
  -- What a refresh request that passes every check has been checked for, and the rotation made.
  pub record Checked (q : TokenRequest) (now : Readings) (s s' : Store) (new : Str) : Type 0 where
    pub token : Str
    pub old : RefreshTokenRecord
    pub new_binding_meta : Dict Str Str
    pub presented : q.refresh_token ≡ some token
    pub known : lookup_token h token s ≡ some old
    pub with_session : is_some q.session ≡ true
    pub same_client : q.client_id ≡ some old.client_id
    pub live : old.revoked ≡ false
    pub unused : old.used_at ≡ none
    pub unexpired : now.refresh_checked < old.expires_at
    pub bound : verify_refresh_binding_metadata p h old.binding_meta q.session ≡ true
    pub rebound : build_refresh_binding_metadata p h q.session ≡ ok new_binding_meta
    pub rotated :
        rotate_token h token new_binding_meta
          (now.refresh_from + t.refresh_token_lifetime_seconds)
          now.refresh_token
          now.store_checked
          now.store_used
          now.stored_at
          s
        ≡ ok (some new, s')

  find_inv :
      (o : Option Str) (s : Store) {token : Str} {r : RefreshTokenRecord}
      → find_refresh_token p h d t o s ≡ some (token, r)
      → (o ≡ some token) × (lookup_token h token s ≡ some r)
  find_inv none s e = absurd (ground arith)
  find_inv (some token) s e = elim (Option-cases (lookup_token h token s)) [
    | inl x ↦ absurd (ground arith)
    | inr (r, x) ↦ ground arith
  ]

  -- What the request gets past before the rotation.
  refresh_record_inv :
      (q : TokenRequest) (now : Readings) (client_id token : Str) (r : RefreshTokenRecord)
      (s s' : Store) {access refresh scope : Str} {id : Option Str}
      → refresh_record p h d t q now client_id token r s ≡ (ok (tokens access id refresh scope), s')
      → (r.revoked ≡ false)
        × (now.refresh_checked < r.expires_at)
        × (r.used_at ≡ none)
        × (r.client_id ≡ client_id)
        × (verify_refresh_binding_metadata p h r.binding_meta q.session ≡ true)
        × (rotate p h d t q now r token s (build_refresh_binding_metadata p h q.session)
            ≡ (ok (tokens access id refresh scope), s'))
  unfolding refresh_record
  refresh_record_inv q now client_id token r s s' e =
      ground (arith, str_eq_iff r.client_id client_id)

  after_rotation_inv :
      (q : TokenRequest) (now : Readings) (r : RefreshTokenRecord) (s s' : Store)
      (m : Result (Option Str × Store)) {access refresh scope : Str} {id : Option Str}
      → after_rotation p h d t q now r s m ≡ (ok (tokens access id refresh scope), s')
      → (new : Str) × (m ≡ ok (some new, s'))
        × (refreshed p h d t now r new (refresh_cnf_claim p h d t q.session q.binding_proof)
            ≡ ok (tokens access id refresh scope))
  after_rotation_inv q now r s s' (raised x) e = absurd (ground arith)
  after_rotation_inv q now r s s' (ok (none, s1)) e = absurd (ground arith)
  after_rotation_inv q now r s s' (ok (some new, s1)) e =
      (new, ground arith, ap (λ (x : Result TokenResponse × Store). x.0) e)

  -- The answer holds the refresh token that the rotation drew.
  refreshed_inv :
      (now : Readings) (r : RefreshTokenRecord) (new : Str) (m : Result (Option Members))
      {access refresh scope : Str} {id : Option Str}
      → refreshed p h d t now r new m ≡ ok (tokens access id refresh scope)
      → refresh ≡ new
  refreshed_inv now r new (raised (value_error m)) e = absurd (ground arith)
  refreshed_inv now r new (raised (type_error m)) e = absurd (ground arith)
  refreshed_inv now r new (raised (overflow_error m)) e = absurd (ground arith)
  refreshed_inv now r new (raised (eof_error m)) e = absurd (ground arith)
  refreshed_inv now r new (raised (key_error m)) e = absurd (ground arith)
  refreshed_inv now r new (raised (runtime_error m)) e = absurd (ground arith)
  refreshed_inv now r new (raised (struct_error m)) e = absurd (ground arith)
  refreshed_inv now r new (raised (attribute_error m)) e = absurd (ground arith)
  refreshed_inv now r new (raised (index_error m)) e = absurd (ground arith)
  refreshed_inv now r new (raised (timeout_error m)) e = absurd (ground arith)
  refreshed_inv now r new (raised out_of_fuel) e = absurd (ground arith)
  refreshed_inv now r new (ok none) e = absurd (ground arith)
  refreshed_inv now r new (ok (some cnf)) e =
      let (access_token, created, answer) = >>=-eq-ok (create_access_token p d _ _ _ _) _ e in
      ground arith

  rotate_inv :
      (q : TokenRequest) (now : Readings) (r : RefreshTokenRecord) (token : Str) (s s' : Store)
      (m : Result (Dict Str Str)) {access refresh scope : Str} {id : Option Str}
      → rotate p h d t q now r token s m ≡ (ok (tokens access id refresh scope), s')
      → (meta : Dict Str Str) × (m ≡ ok meta)
        × (rotate_token h token meta
              (now.refresh_from + t.refresh_token_lifetime_seconds)
              now.refresh_token
              now.store_checked
              now.store_used
              now.stored_at
              s
            ≡ ok (some refresh, s'))
  rotate_inv q now r token s s' (raised x) e = absurd (ground arith)
  rotate_inv q now r token s s' (ok meta) e =
      let (new, same, answer) = after_rotation_inv q now r s s' _ e in
      (
        meta,
        refl,
        same ∙ ap (λ (x : Str). ok (some x, s')) (sym (refreshed_inv now r new _ answer)),
      )

  -- A refresh request that is answered with tokens has a session and names a stored token that is
  -- neither revoked, nor used, nor expired, belongs to the client, and is bound to the session; the
  -- refresh token of the answer is what the rotation of that token has drawn.
  pub handle_refresh_token_grant-Checked :
      (q : TokenRequest) (now : Readings) (s s' : Store) {access refresh scope : Str}
      {id : Option Str}
      → handle_refresh_token_grant p h d t q now s ≡ (ok (tokens access id refresh scope), s')
      → Checked q now s s' refresh
  unfolding handle_refresh_token_grant
  handle_refresh_token_grant-Checked q now s s' {access = access} {refresh = refresh}
        {scope = scope} {id = id} e =
      elim (Option-cases (present q.client_id)) [
        | inl x ↦ absurd (ground arith)
        | inr (client_id, x) ↦ elim (Option-cases (find_refresh_token p h d t q.refresh_token s)) [
          | inl y ↦ absurd (ground arith)
          | inr ((token, r), y) ↦
              let (presented, known) = find_inv q.refresh_token s y in
              let step : refresh_record p h d t q now client_id token r s
                  ≡ (ok (tokens access id refresh scope), s') =
                ground arith in
              let (live, unexpired, unused, same_client, bound, rotation) =
                refresh_record_inv q now client_id token r s s' step in
              let (meta, rebound, rotated) = rotate_inv q now r token s s' _ rotation in
              record {
                token = token;
                old = r;
                new_binding_meta = meta;
                presented = presented;
                known = known;
                with_session = ground arith;
                same_client = present_inv q.client_id x ∙ ap some (sym same_client);
                live = live;
                unused = unused;
                unexpired = unexpired;
                bound = bound;
                rebound = rebound;
                rotated = rotated;
              }
        ]
      ]

  -- After a refresh request that is answered with tokens, the token it named is used, and the
  -- answered one is stored, unused, with the same subject, client and family.
  pub handle_refresh_token_grant-Rotated :
      (q : TokenRequest) (now : Readings) (s s' : Store) {access refresh scope : Str}
      {id : Option Str}
      → handle_refresh_token_grant p h d t q now s ≡ (ok (tokens access id refresh scope), s')
      → (token : Str) × (meta : Dict Str Str) × (q.refresh_token ≡ some token)
        × (refresh ≡ now.refresh_token)
        × Rotated h token now.refresh_token meta
            (now.refresh_from + t.refresh_token_lifetime_seconds)
            now.store_used
            now.stored_at
            s
            s'
  handle_refresh_token_grant-Rotated q now s s' e =
      let c = handle_refresh_token_grant-Checked q now s s' e in
      let (same, rotated) =
        rotate_token-Rotated h c.token c.new_binding_meta _ now.refresh_token now.store_checked
          now.store_used now.stored_at s c.rotated in
      (c.token, c.new_binding_meta, c.presented, same, rotated)

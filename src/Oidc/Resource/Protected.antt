-- ===== src/Oidc/Resource/Protected.antt =====
-- Nothing about a user is told without a valid token that is bound to the session.
use kemtls.Common.{
  ℕ, ◌≡◌, refl, sym, ap, ◌∙◌, arith, inl, inr, Bool, true, false, some, [], ◌∷◌, codes, Str,
  Option-cases, str_eq,
}
use kemtls.Common.Error.{Result, ok, raised, ◌>>=◌, >>=-eq-ok, ok_injective}
use kemtls.Common.Json.{Json, boolean, Members, find, set_member, as_text, Python}
use kemtls.Crypto.Primitives.{Hash, Signature}
use kemtls.Oidc.Jwt.{is_blank}
use kemtls.Oidc.Jwt.Validation.{Accepted, validate_access_token-Accepted}
use kemtls.Oidc.Resource.{
  Resource, Presented, is_bound, valid_claims, user_claims, answer_bound, handle_userinfo_request,
  with_binding, active_response, introspect,
}
use kemtls.Oidc.SessionBinding.{or_none}
use kemtls.Session.{KemtlsSession}

or_none_inv : {A : Type 0} (r : Result A) {a : A} → or_none r ≡ some a → r ≡ ok a
or_none_inv (ok b) h = cc
or_none_inv (raised e) h = cc

module _ (p : Python) (h : Hash) (d : Signature) (str_of : Json → Str) (e : Resource) where
  valid_claims_inv :
      (token : Str) (now : ℕ) (claims : Members)
      → valid_claims p h d str_of e token now ≡ some claims
      → Accepted p d token e.issuer_pk e.issuer e.audience now claims
  unfolding valid_claims
  valid_claims_inv token now claims valid =
      validate_access_token-Accepted p d token e.issuer_pk e.issuer e.audience now claims
        (or_none_inv _ valid)

  -- What has been checked before claims about a user are returned.
  pub record Granted (token : Str) (q : Presented) (now : ℕ) : Type 0 where
    pub claims : Members
    pub accepted : Accepted p d token e.issuer_pk e.issuer e.audience now claims
    pub session : KemtlsSession
    pub has_session : q.session ≡ some session
    pub bound : is_bound p h d str_of e claims q ≡ ok true

  answer_bound_inv :
      (claims : Members) (binding_valid : Bool) {response : Members}
      → answer_bound p h d str_of e claims binding_valid ≡ ok (response, 200)
      → (binding_valid ≡ true) × (user_claims p h d str_of e claims ≡ ok (response, 200))
  unfolding answer_bound
  answer_bound_inv claims true x = (refl, x)
  answer_bound_inv claims false x = absurd (ground arith)

  -- The userinfo endpoint answers with status 200 only if the token is accepted under the issuer's
  -- key, a session is there, and the token's claims are bound to that session; the answer is what is
  -- known of the user that these claims name.
  pub handle_userinfo_request-Granted :
      (token : Str) (q : Presented) (now : ℕ) (response : Members)
      → handle_userinfo_request p h d str_of e token q now ≡ ok (response, 200)
      → (g : Granted token q now) × (user_claims p h d str_of e g.claims ≡ ok (response, 200))
  unfolding handle_userinfo_request
  handle_userinfo_request-Granted [] q now response x = absurd (ground arith)
  handle_userinfo_request-Granted (c ∷ token) q now response x = elim (Option-cases q.session) [
    | inl missing ↦ absurd (ground arith)
    | inr (session, there) ↦ elim (Option-cases (valid_claims p h d str_of e (c ∷ token) now)) [
      | inl missing ↦ absurd (ground arith)
      | inr (claims, valid) ↦
          let answered : (is_bound p h d str_of e claims q >>= answer_bound p h d str_of e claims)
              ≡ ok (response, 200) =
            rw (there, handle_userinfo_request, valid) at x in
          let (binding, checked, answer) =
            >>=-eq-ok (is_bound p h d str_of e claims q) (answer_bound p h d str_of e claims)
              answered in
          let (yes_bound, told) = answer_bound_inv claims binding answer in
          (
            record {
              claims = claims;
              accepted = valid_claims_inv (c ∷ token) now claims valid;
              session = session;
              has_session = there;
              bound = checked ∙ ap ok yes_bound;
            },
            told,
          )
    ]
  ]

  -- A token that is valid and bound to the session is answered with what is known of its user.
  pub handle_userinfo_request-eq :
      (token : Str) (q : Presented) (now : ℕ) (session : KemtlsSession) (claims : Members)
      → is_blank token ≡ false
      → q.session ≡ some session
      → valid_claims p h d str_of e token now ≡ some claims
      → is_bound p h d str_of e claims q ≡ ok true
      → handle_userinfo_request p h d str_of e token q now ≡ user_claims p h d str_of e claims
  unfolding handle_userinfo_request answer_bound
  handle_userinfo_request-eq [] q now session claims shown there valid bound = absurd (ground arith)
  handle_userinfo_request-eq (c ∷ token) q now session claims shown there valid bound =
      rw (there, handle_userinfo_request, valid, bound) refl

  pub introspect-eq :
      (token : Str) (q : Presented) (now : ℕ) (session : KemtlsSession) (claims : Members)
      → is_blank token ≡ false
      → q.session ≡ some session
      → valid_claims p h d str_of e token now ≡ some claims
      → is_bound p h d str_of e claims q ≡ ok true
      → introspect p h d str_of e token q now
        ≡ ok (with_binding p h d str_of e session (active_response p h d str_of e claims) true)
  unfolding introspect
  introspect-eq [] q now session claims shown there valid bound = absurd (ground arith)
  introspect-eq (c ∷ token) q now session claims shown there valid bound =
      rw (valid, introspect, there, bound) refl

  with_binding_active :
      (session : KemtlsSession) (claims : Members) (binding_ok : Bool)
      → find
          (codes "active")
          (with_binding p h d str_of e session (active_response p h d str_of e claims) binding_ok)
        ≡ some (boolean binding_ok)
  unfolding find set_member str_eq
  with_binding_active session claims binding_ok =
      elim (Option-cases (as_text (some session.handshake_mode))) [
        | inl none_eq ↦ rw none_eq refl
        | inr ([], text_eq) ↦ rw text_eq refl
        | inr (c ∷ mode, text_eq) ↦ rw text_eq refl
      ]

  -- Introspection over a session reports a token as active only if the token is accepted under the
  -- issuer's key and its claims are bound to that session.
  pub introspect-Granted :
      (token : Str) (q : Presented) (now : ℕ) (session : KemtlsSession) (response : Members)
      → q.session ≡ some session
      → introspect p h d str_of e token q now ≡ ok response
      → find (codes "active") response ≡ some (boolean true)
      → Granted token q now
  unfolding introspect find set_member str_eq
  introspect-Granted [] q now session response there x active = absurd (ground arith)
  introspect-Granted (c ∷ token) q now session response there x active =
      elim (Option-cases (valid_claims p h d str_of e (c ∷ token) now)) [
        | inl missing ↦ absurd (ground arith)
        | inr (claims, valid) ↦
            let answered : (is_bound p h d str_of e claims q >>= λ binding_ok. ok (
                  with_binding p h d str_of e session (active_response p h d str_of e claims)
                    binding_ok))
                ≡ ok response =
              rw (valid, introspect, there) at x in
            let (binding_ok, checked, made) =
              >>=-eq-ok (is_bound p h d str_of e claims q) _ answered in
            let reported : some (boolean binding_ok) ≡ some (boolean true) =
              sym (with_binding_active session claims binding_ok)
              ∙ ap (find (codes "active")) (ok_injective made)
              ∙ active in
            record {
              claims = claims;
              accepted = valid_claims_inv (c ∷ token) now claims valid;
              session = session;
              has_session = there;
              bound = checked ∙ ap ok cc;
            }
      ]

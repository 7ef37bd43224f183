-- ===== src/Oidc/SessionBinding/Laws.antt =====
-- Which sessions and which proofs a bound token is accepted with.
use kemtls.Common.{
  ◌≡◌, ◌↔◌, refl, ap, ◌∙◌, sym, inl, inr, arith, true, false, Option, none, some, str_eq,
  str_eq_iff, str_eq_refl, codes, Bytes, IsBytes, Str,
}
use kemtls.Common.Error.{ok, Result-cases, ok_injective}
use kemtls.Common.Dict.{Dict, get, text_eq}
use kemtls.Common.Json.{text, object, Members, nothing, member, find, Python}
use kemtls.Crypto.Primitives.{Hash, Signature}
use kemtls.Crypto.Signatures.{verify, jwk_to_public_key}
use kemtls.Encoding.{base64url_encode, base64url_decode}
use kemtls.Encoding.RoundTrip.{base64url_decode-base64url_encode}
use kemtls.Session.{KemtlsSession}
use kemtls.Oidc.SessionBinding.{
  binding_method, BindingProof, get_session_bytes, hash_of, has_hash_of,
  build_access_token_binding_claim, has, verify_refresh_binding_metadata,
  build_binding_proof_message, verify_binding_proof, verify_exporter_claim, verify_pop_claim,
  verify_access_token_binding_claim,
}

base64url_encode-injective :
    (a b : Bytes) → IsBytes a → IsBytes b → base64url_encode a ≡ base64url_encode b → a ≡ b
base64url_encode-injective a b ha hb e = ok_injective (
    sym (base64url_decode-base64url_encode a ha)
    ∙ ap base64url_decode e
    ∙ base64url_decode-base64url_encode b hb)

module _ (p : Python) (h : Hash) (d : Signature) where
  abbrev exporter_cnf : Bytes → Members
  exporter_cnf id =
      member (codes "kmt") (text binding_method)
        (member (codes "kbh") (text (hash_of p h id)) nothing)

  built-eq :
      (session : Option KemtlsSession) (id : Bytes) {cnf : Members}
      → get_session_bytes p (λ s. s.session_binding_id) session ≡ ok id
      → build_access_token_binding_claim p h session ≡ ok cnf
      → cnf ≡ exporter_cnf id
  unfolding build_access_token_binding_claim
  built-eq session id e built = ok_injective (sym built ∙ rw e refl)

  exporter_claim-eq :
      (session : Option KemtlsSession) (id id' : Bytes)
      → get_session_bytes p (λ s. s.session_binding_id) session ≡ ok id'
      → verify_exporter_claim p h d (exporter_cnf id) session
        ≡ str_eq (hash_of p h id) (hash_of p h id')
  unfolding verify_exporter_claim find str_eq
  exporter_claim-eq session id id' e = ap (has_hash_of p h (some (hash_of p h id))) e

  access_claim-eq :
      (session : Option KemtlsSession) (id : Bytes) (proof : Option BindingProof)
      (method path : Str)
      → verify_access_token_binding_claim p h d
          (member (codes "cnf") (object (exporter_cnf id)) nothing)
          session
          proof
          method
          path
        ≡ ok (verify_exporter_claim p h d (exporter_cnf id) session)
  unfolding verify_access_token_binding_claim find str_eq
  access_claim-eq session id proof method path = refl

  -- A claim built for a session is accepted with a session exactly when the two binding
  -- identifiers have the same SHA-256 hash, whatever proof, method and path come with it, if hashes
  -- are bytes and both sessions have an identifier.
  pub verify_access_token_binding_claim-build :
      (session session' : Option KemtlsSession) (id id' : Bytes) (cnf : Members)
      (proof : Option BindingProof) (method path : Str)
      → ((message : Bytes) → IsBytes (h.sha256 message))
      → get_session_bytes p (λ s. s.session_binding_id) session ≡ ok id
      → get_session_bytes p (λ s. s.session_binding_id) session' ≡ ok id'
      → build_access_token_binding_claim p h session ≡ ok cnf
      → (verify_access_token_binding_claim p h d
            (member (codes "cnf") (object cnf) nothing)
            session'
            proof
            method
            path
          ≡ ok true)
        ↔ (h.sha256 id ≡ h.sha256 id')
  verify_access_token_binding_claim-build session session' id id' cnf proof method path hb e e'
        built =
      let whole : verify_access_token_binding_claim p h d
            (member (codes "cnf") (object cnf) nothing) session' proof method path
          ≡ ok (str_eq (hash_of p h id) (hash_of p h id')) =
        ap
          (λ (m : Members).
            verify_access_token_binding_claim p h d (member (codes "cnf") (object m) nothing)
              session' proof method path)
          (built-eq session id e built)
        ∙ access_claim-eq session' id proof method path
        ∙ ap ok (exporter_claim-eq session' id id' e') in
      (
        λ accepted. base64url_encode-injective _ _ (hb id) (hb id') (
            (str_eq_iff (hash_of p h id) (hash_of p h id')).0
              (ok_injective (sym whole ∙ accepted))),
        λ same.
            whole
            ∙ ap ok ((str_eq_iff (hash_of p h id) (hash_of p h id')).1 (ap base64url_encode same)),
      )

  -- A claim that names a client key is accepted exactly when a proof is presented with that very
  -- key, the session has a binding message for the method and path, and the proof's signature
  -- verifies over it.
  pub verify_pop_claim-eq-true :
      (cnf jwk : Members) (session : Option KemtlsSession) (proof : Option BindingProof)
      (method path : Str) (key : Bytes)
      → find (codes "jwk") cnf ≡ some (object jwk)
      → jwk_to_public_key jwk ≡ ok key
      → (verify_pop_claim p h d cnf session proof method path ≡ ok true) ↔ (
          (shown : BindingProof) × (message : Bytes) × (proof ≡ some shown)
          × (shown.public_key ≡ key)
          × (build_binding_proof_message p d session method path ≡ ok message)
          × (verify d key message shown.signature ≡ ok true))
  unfolding verify_pop_claim verify_binding_proof
  verify_pop_claim-eq-true cnf jwk session none method path key has_jwk decoded =
      (λ x. absurd (ground arith), λ (shown, message, e, k, b, v). cc)
  verify_pop_claim-eq-true cnf jwk session (some shown) method path key has_jwk decoded =
      elim (Result-cases (build_binding_proof_message p d session method path)) [
        | inr (error, e) ↦
            (λ x. absurd (ground arith), λ (shown', message, e', k, b, v). absurd (ground arith))
        | inl (message, e) ↦
            elim (Result-cases (verify d shown.public_key message shown.signature)) [
              | inr (error, v) ↦ (
                λ x. absurd (ground arith),
                λ (shown', message', e', k, b, v'). absurd (ground arith),
              )
              | inl (true, v) ↦ (
                λ x. (
                  shown,
                  message,
                  refl,
                  ground (arith, str_eq_iff shown.public_key key),
                  e,
                  ground (arith, str_eq_iff shown.public_key key),
                ),
                λ (shown', message', e', k, b, v'). ground (arith, str_eq_iff shown.public_key key),
              )
              | inl (false, v) ↦ (
                λ x. absurd (ground arith),
                λ (shown', message', e', k, b, v'). absurd (ground arith),
              )
            ]
      ]

  has_inv :
      (value : Option Str) (expected : Str) → has p h value expected ≡ true → value ≡ some expected
  has_inv none expected x = cc
  has_inv (some value) expected x = ap some ((str_eq_iff value expected).0 x)

  -- Refresh metadata are accepted with a session exactly when they name the exporter method and
  -- hold the hash of the session's refresh identifier.
  pub verify_refresh_binding_metadata-eq-true :
      (meta : Dict Str Str) (session : Option KemtlsSession)
      → (verify_refresh_binding_metadata p h meta session ≡ true) ↔ (
          (id : Bytes) × (get_session_bytes p (λ s. s.refresh_binding_id) session ≡ ok id)
          × (get (codes "binding_method") meta ≡ some binding_method)
          × (get (codes "binding_hash") meta ≡ some (hash_of p h id)))
  unfolding verify_refresh_binding_metadata str_eq
  verify_refresh_binding_metadata-eq-true meta session =
      elim (Result-cases (get_session_bytes p (λ s. s.refresh_binding_id) session)) [
        | inr (error, e) ↦ (λ x. absurd (ground arith), λ (id, e', m, k). absurd (ground arith))
        | inl (id, e) ↦ (
          λ x. (id, e, has_inv _ _ (ground arith), has_inv _ _ (ground arith)),
          λ (id', e', m, k). rw m (
              ap (has_hash_of p h (get (codes "binding_hash") meta)) e'
              ∙ ap (λ (o : Option Str). has p h o (hash_of p h id')) k
              ∙ str_eq_refl (hash_of p h id')),
        )
      ]

-- ===== src/Handshake/Authentic.antt =====
-- A party finishes a handshake only on a MAC over its own transcript.
use kemtls.Common.{
  ◌≡◌, sym, ap, ◌∙◌, not, Option, some, [], ◌∷◌, ◌++◌, codes, take, Bytes, str_eq, str_eq_iff,
  not-false,
}
use kemtls.Common.Error.{
  Error, Result, ok, >>=-eq-ok, or_raise_inv, raise_if, raise_if_inv, ok_injective,
}
use kemtls.Common.Action.{lift_inv, outcome_eq}
use kemtls.Common.Json.{object, Members, as_dict, Python, deserialize_message}
use kemtls.Crypto.KeySchedule.{compute_transcript_hash, hkdf_expand_label}
use kemtls.Crypto.Primitives.{Hash}
use kemtls.Exporter.{derive_session_binding_id, derive_refresh_binding_id}
use kemtls.Handshake.{
  decode_bytes_field, bytes_of, message_at, hmac_sha256, application_secrets, finish_session,
}
use kemtls.Handshake.Client.{ClientHandshake, finalize_client, process_server_finished}
use kemtls.Handshake.Server.{ServerHandshake, finalize_server, verify_client_finished}
use kemtls.Handshake.ServerHello.{loaded_inv}
use kemtls.Session.{KemtlsSession}

-- The message holds the MAC, under a key that is there, of a hash.
pub record Authentic (p : Python) (h : Hash) (msg : Bytes) (key : Option Bytes) (hashed : Bytes)
    : Type 0 where
  pub message : Members
  pub loaded : p.loads msg ≡ some (object message)
  pub secret : Bytes
  pub key_known : key ≡ some secret
  pub mac_eq : decode_bytes_field (codes "mac") message ≡ ok (h.hmac secret hashed)

-- The session's keys are those of the handshake secret and of a hash of the transcript.
pub record KeyedBy (h : Hash) (known : Option Bytes) (hashed : Bytes) (session : KemtlsSession)
    : Type 0 where
  pub client : Bytes
  pub server : Bytes
  pub exporter : Bytes
  pub secrets : application_secrets h known hashed ≡ ok (client, server, exporter)
  pub client_key : session.client_write_key ≡ some client
  pub server_key : session.server_write_key ≡ some server
  pub exporter_known : session.exporter_secret ≡ some exporter

hmac_sha256_inv :
    (h : Hash) (key : Option Bytes) (message : Bytes) {mac : Bytes}
    → hmac_sha256 h key message ≡ ok mac
    → (secret : Bytes) × (key ≡ some secret) × (h.hmac secret message ≡ mac)
unfolding hmac_sha256
hmac_sha256_inv h key message e =
    let (secret, a, b) = >>=-eq-ok (bytes_of key) _ e in
    (secret, or_raise_inv key _ a, ok_injective b)

finish_session_inv :
    (h : Hash) (known : Option Bytes) (hashed client server exporter : Bytes)
    (made : Result KemtlsSession) {session : KemtlsSession}
    → application_secrets h known hashed ≡ ok (client, server, exporter)
    → finish_session h client server exporter made ≡ ok session
    → KeyedBy h known hashed session
unfolding finish_session
finish_session_inv h known hashed client server exporter made derived e =
    let (client_iv, a, h1) = >>=-eq-ok (hkdf_expand_label h client (codes "iv") [] 12) _ e in
    let (server_iv, b, h2) = >>=-eq-ok (hkdf_expand_label h server (codes "iv") [] 12) _ h1 in
    let (base, c, h3) = >>=-eq-ok made _ h2 in
    let (sb, f, h4) = >>=-eq-ok (derive_session_binding_id h exporter) _ h3 in
    let (rb, g, h5) = >>=-eq-ok (derive_refresh_binding_id h exporter) _ h4 in
    let same = ok_injective h5 in
    record {
      client = client;
      server = server;
      exporter = exporter;
      secrets = derived;
      client_key = ap (λ (s : KemtlsSession). s.client_write_key) (sym same);
      server_key = ap (λ (s : KemtlsSession). s.server_write_key) (sym same);
      exporter_known = ap (λ (s : KemtlsSession). s.exporter_secret) (sym same);
    }

same_text : (a b : Bytes) (e : Error) {u : Unit {0}} → raise_if (not (str_eq a b)) e ≡ ok u → a ≡ b
same_text a b e h =
    (str_eq_iff a b).0 (not-false (str_eq a b) (raise_if_inv (not (str_eq a b)) e h))

module _ (p : Python) (h : Hash) where
  -- The client finishes a handshake only on a message that holds the MAC of its hello and the
  -- ServerHello under the server's Finished key; the session's keys are those of its handshake secret
  -- and of its whole transcript with this message.
  pub process_server_finished-Authentic :
      (msg : Bytes) (session : Option KemtlsSession) (c : ClientHandshake)
      (session' : KemtlsSession) (c' : ClientHandshake)
      → process_server_finished p h msg session c ≡ (ok session', c')
      → Authentic p h msg c.server_fin_key (compute_transcript_hash h (take 2 c.transcript))
        × KeyedBy h c.handshake_secret
            (compute_transcript_hash h (c.transcript ++ msg ∷ []))
            session'
        × (c' ≡ record c { transcript = c.transcript ++ msg ∷ [] })
  unfolding process_server_finished finalize_client
  process_server_finished-Authentic msg session c session' c' e =
      let t1 = compute_transcript_hash h (take 2 c.transcript) in
      let (value, a, h1) = lift_inv (deserialize_message p msg) _ _ e in
      let (m, b, h2) = lift_inv (as_dict value) _ _ h1 in
      let (mac, f, h3) = lift_inv (decode_bytes_field (codes "mac") m) _ _ h2 in
      let (expected, g, h4) = lift_inv (hmac_sha256 h c.server_fin_key t1) _ _ h3 in
      let (u, i, h5) = lift_inv (raise_if (not (str_eq mac expected)) _) _ _ h4 in
      let (secrets, j, h6) = lift_inv (application_secrets h c.handshake_secret _) _ _ h5 in
      let (second, l, h7) = lift_inv (message_at 1 (c.transcript ++ msg ∷ [])) _ _ h6 in
      let (hello, n, h8) = lift_inv (deserialize_message p second) _ _ h7 in
      let (result_eq, object_eq) = outcome_eq h8 in
      let (secret, known, right) = hmac_sha256_inv h c.server_fin_key t1 g in
      (
        record {
          message = m;
          loaded = loaded_inv p msg a b;
          secret = secret;
          key_known = known;
          mac_eq = f ∙ ap ok (same_text mac expected _ i ∙ sym right);
        },
        finish_session_inv h c.handshake_secret _ secrets.0 secrets.1 secrets.2 _ j result_eq,
        sym object_eq,
      )

  -- The server finishes a handshake only on a message that holds the MAC of the first three messages
  -- of its transcript under the client's Finished key; the session's keys are those of its handshake
  -- secret and of the first four messages.
  pub verify_client_finished-Authentic :
      (msg : Bytes) (s : ServerHandshake) (session : KemtlsSession) (s' : ServerHandshake)
      → verify_client_finished p h msg s ≡ (ok session, s')
      → Authentic p h msg s.client_fin_key (compute_transcript_hash h (take 3 s.transcript))
        × KeyedBy h s.handshake_secret
            (compute_transcript_hash h (take 4 (s.transcript ++ msg ∷ [])))
            session
        × (s' ≡ record s { transcript = s.transcript ++ msg ∷ [] })
  unfolding verify_client_finished finalize_server
  verify_client_finished-Authentic msg s session s' e =
      let t2 = compute_transcript_hash h (take 3 s.transcript) in
      let (value, a, h1) = lift_inv (deserialize_message p msg) _ _ e in
      let (m, b, h2) = lift_inv (as_dict value) _ _ h1 in
      let (mac, f, h3) = lift_inv (decode_bytes_field (codes "mac") m) _ _ h2 in
      let (expected, g, h4) = lift_inv (hmac_sha256 h s.client_fin_key t2) _ _ h3 in
      let (u, i, h5) = lift_inv (raise_if (not (str_eq expected mac)) _) _ _ h4 in
      let (secrets, j, h6) = lift_inv (application_secrets h s.handshake_secret _) _ _ h5 in
      let (second, l, h7) = lift_inv (message_at 1 (s.transcript ++ msg ∷ [])) _ _ h6 in
      let (hello, n, h8) = lift_inv (deserialize_message p second) _ _ h7 in
      let (result_eq, object_eq) = outcome_eq h8 in
      let (secret, known, right) = hmac_sha256_inv h s.client_fin_key t2 g in
      (
        record {
          message = m;
          loaded = loaded_inv p msg a b;
          secret = secret;
          key_known = known;
          mac_eq = f ∙ ap ok (sym (same_text expected mac _ i) ∙ sym right);
        },
        finish_session_inv h s.handshake_secret _ secrets.0 secrets.1 secrets.2 _ j result_eq,
        sym object_eq,
      )

-- ===== src/Handshake/FinishedSteps.antt =====
-- The Finished messages of both parties, and the keys that follow them.
use kemtls.Common.{
  ◌≡◌, refl, sym, ap, ◌∙◌, Bool, not, Option, some, List, [], ◌∷◌, ◌++◌, codes, take, Bytes,
  IsBytes, str_eq, str_eq_refl,
}
use kemtls.Common.Error.{Error, Result, ok, raise_if}
use kemtls.Common.Action.{lift-eq}
use kemtls.Common.Json.{Json, find, Python, deserialize_message}
use kemtls.Crypto.KeySchedule.{compute_transcript_hash}
use kemtls.Crypto.Primitives.{Hash}
use kemtls.Handshake.{
  decode_bytes_field, finished_message, encode_finished_message, message_at, hmac_sha256,
  application_secrets,
}
use kemtls.Handshake.Client.{
  ClientHandshake, finalize_client, process_server_finished, client_finished,
}
use kemtls.Handshake.Finish.{keyed, Derived}
use kemtls.Handshake.Messages.{Reloads, deserialize-dumps, decode_bytes_field-reloaded}
use kemtls.Handshake.Server.{
  ServerHandshake, server_session, finalize_server, verify_client_finished,
}
use kemtls.Session.{KemtlsSession}

-- A MAC that is the expected one is no reason to fail.
mac_accepted : (mac : Bytes) (e : Error) → raise_if (not (str_eq mac mac)) e ≡ ok tt
mac_accepted mac e = ap (λ (b : Bool). raise_if (not b) e) (str_eq_refl mac)

hmac_sha256-some :
    (h : Hash) (key : Option Bytes) (value message mac : Bytes)
    → key ≡ some value
    → mac ≡ h.hmac value message
    → hmac_sha256 h key message ≡ ok mac
unfolding hmac_sha256
hmac_sha256-some h key value message mac same right =
    ap (λ (o : Option Bytes). hmac_sha256 h o message) same ∙ ap ok (sym right)

application_secrets-some :
    (h : Hash) (known : Option Bytes) (secret t3 : Bytes) (derived : Derived h secret t3)
    → known ≡ some secret
    → application_secrets h known t3
      ≡ ok (derived.keys.client, derived.keys.server, derived.keys.exporter)
application_secrets-some h known secret t3 derived same =
    ap (λ (o : Option Bytes). application_secrets h o t3) same ∙ derived.secrets

module _ (p : Python) (h : Hash) where
  finalize_client-eq :
      (secret : Bytes) (session : KemtlsSession) (c : ClientHandshake) (second : Bytes)
      (hello : Json)
      → c.handshake_secret ≡ some secret
      → (derived : Derived h secret (compute_transcript_hash h c.transcript))
      → message_at 1 c.transcript ≡ ok second
      → deserialize_message p second ≡ ok hello
      → finalize_client p h (some session) c ≡ (ok (keyed derived.keys session), c)
  unfolding finalize_client
  finalize_client-eq secret session c second hello known derived at loaded =
      let keys = derived.keys in
      lift-eq (application_secrets h c.handshake_secret (compute_transcript_hash h c.transcript)) _
        _ (application_secrets-some h c.handshake_secret secret _ derived known)
      ∙ lift-eq (message_at 1 c.transcript) _ _ at
      ∙ lift-eq (deserialize_message p second) _ _ loaded
      ∙ ap (λ (r : Result KemtlsSession). (r, c)) (derived.finished (ok session) session refl)

  finalize_server-eq :
      (secret t3 : Bytes) (session : KemtlsSession) (s : ServerHandshake) (second : Bytes)
      (hello : Json)
      → s.handshake_secret ≡ some secret
      → compute_transcript_hash h (take 4 s.transcript) ≡ t3
      → (derived : Derived h secret t3) → message_at 1 s.transcript ≡ ok second
      → deserialize_message p second ≡ ok hello
      → server_session p h s hello ≡ ok session
      → finalize_server p h s ≡ (ok (keyed derived.keys session), s)
  unfolding finalize_server
  finalize_server-eq secret t3 session s second hello known hashed derived at loaded made =
      lift-eq
        (application_secrets h s.handshake_secret (compute_transcript_hash h (take 4 s.transcript)))
        _ _
        (ap (application_secrets h s.handshake_secret) hashed
          ∙ application_secrets-some h s.handshake_secret secret t3 derived known)
      ∙ lift-eq (message_at 1 s.transcript) _ _ at
      ∙ lift-eq (deserialize_message p second) _ _ loaded
      ∙ ap (λ (r : Result KemtlsSession). (r, s))
          (derived.finished (server_session p h s hello) session made)

  -- The client accepts the server's Finished, if it has the MAC of the client's own hash.
  pub process_server_finished-eq :
      (mac secret server_fin : Bytes) (session : KemtlsSession) (c : ClientHandshake)
      (second : Bytes) (hello : Json)
      → Reloads p (finished_message (codes "ServerFinished") mac)
      → IsBytes mac
      → c.server_fin_key ≡ some server_fin
      → c.handshake_secret ≡ some secret
      → mac ≡ h.hmac server_fin (compute_transcript_hash h (take 2 c.transcript))
      → (transcript : List Bytes)
      → transcript ≡ c.transcript ++ p.dumps (finished_message (codes "ServerFinished") mac) ∷ []
      → (derived : Derived h secret (compute_transcript_hash h transcript))
      → message_at 1 transcript ≡ ok second
      → deserialize_message p second ≡ ok hello
      → process_server_finished p h
          (p.dumps (finished_message (codes "ServerFinished") mac))
          (some session)
          c
        ≡ (ok (keyed derived.keys session), record c { transcript = transcript })
  unfolding process_server_finished find str_eq
  process_server_finished-eq mac secret server_fin session c second hello r bytes fin known right
        transcript whole derived at loaded =
      let m = finished_message (codes "ServerFinished") mac in
      let t1 = compute_transcript_hash h (take 2 c.transcript) in
      lift-eq (deserialize_message p (p.dumps m)) _ _ (deserialize-dumps p m r)
      ∙ lift-eq (decode_bytes_field (codes "mac") r.reloaded) _ _
          (decode_bytes_field-reloaded p m r (codes "mac") mac refl bytes)
      ∙ lift-eq (hmac_sha256 h c.server_fin_key t1) _ _
          (hmac_sha256-some h c.server_fin_key server_fin t1 mac fin right)
      ∙ lift-eq (raise_if (not (str_eq mac mac)) _) _ _ (mac_accepted mac _)
      ∙ ap (λ (t : List Bytes). finalize_client p h (some session) (record c { transcript = t }))
          (sym whole)
      ∙ finalize_client-eq secret session (record c { transcript = transcript }) second hello known
          derived at loaded

  pub client_finished-eq :
      (client_fin mac : Bytes) (c : ClientHandshake)
      → c.client_fin_key ≡ some client_fin
      → mac ≡ h.hmac client_fin (compute_transcript_hash h (take 3 c.transcript))
      → client_finished p h c ≡ (
        ok (encode_finished_message p (codes "ClientFinished") mac),
        record c {
          transcript = c.transcript ++ encode_finished_message p (codes "ClientFinished") mac ∷ [];
        },
      )
  unfolding client_finished
  client_finished-eq client_fin mac c fin right =
      let t2 = compute_transcript_hash h (take 3 c.transcript) in
      lift-eq (hmac_sha256 h c.client_fin_key t2) _ _
        (hmac_sha256-some h c.client_fin_key client_fin t2 mac fin right)

  -- The server accepts the client's Finished, if it has the MAC of the server's own hash.
  pub verify_client_finished-eq :
      (mac secret client_fin t3 : Bytes) (session : KemtlsSession) (s : ServerHandshake)
      (second : Bytes) (hello : Json)
      → Reloads p (finished_message (codes "ClientFinished") mac)
      → IsBytes mac
      → s.client_fin_key ≡ some client_fin
      → s.handshake_secret ≡ some secret
      → mac ≡ h.hmac client_fin (compute_transcript_hash h (take 3 s.transcript))
      → (transcript : List Bytes)
      → transcript ≡ s.transcript ++ p.dumps (finished_message (codes "ClientFinished") mac) ∷ []
      → compute_transcript_hash h (take 4 transcript) ≡ t3
      → (derived : Derived h secret t3) → message_at 1 transcript ≡ ok second
      → deserialize_message p second ≡ ok hello
      → server_session p h s hello ≡ ok session
      → verify_client_finished p h (p.dumps (finished_message (codes "ClientFinished") mac)) s
        ≡ (ok (keyed derived.keys session), record s { transcript = transcript })
  unfolding verify_client_finished find str_eq
  verify_client_finished-eq mac secret client_fin t3 session s second hello r bytes fin known right
        transcript whole hashed derived at loaded made =
      let m = finished_message (codes "ClientFinished") mac in
      let t2 = compute_transcript_hash h (take 3 s.transcript) in
      lift-eq (deserialize_message p (p.dumps m)) _ _ (deserialize-dumps p m r)
      ∙ lift-eq (decode_bytes_field (codes "mac") r.reloaded) _ _
          (decode_bytes_field-reloaded p m r (codes "mac") mac refl bytes)
      ∙ lift-eq (hmac_sha256 h s.client_fin_key t2) _ _
          (hmac_sha256-some h s.client_fin_key client_fin t2 mac fin right)
      ∙ lift-eq (raise_if (not (str_eq mac mac)) _) _ _ (mac_accepted mac _)
      ∙ ap (λ (t : List Bytes). finalize_server p h (record s { transcript = t })) (sym whole)
      ∙ finalize_server-eq secret t3 session (record s { transcript = transcript }) second hello
          known hashed derived at loaded made

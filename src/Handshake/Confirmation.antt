-- ===== src/Handshake/Confirmation.antt =====
-- The exchange of the Finished messages between parties with the same transcript and keys.
use kemtls.Common.{
  ◌≡◌, refl, sym, ap, ◌∙◌, some, List, [], ◌∷◌, ◌++◌, codes, take, length, Bytes, IsBytes, Str,
  str_eq,
}
use kemtls.Common.Error.{ok, ok_injective}
use kemtls.Common.Action.{pure_inv}
use kemtls.Common.Json.{Json, text, object, Members, find, get_item, Python, deserialize_message}
use kemtls.Crypto.Aead.{zeros}
use kemtls.Crypto.KeySchedule.{concat, compute_transcript_hash, derive_handshake_secret}
use kemtls.Crypto.KeySchedule.Secrets.{derive_handshake_secret-eq-ok}
use kemtls.Crypto.Primitives.{Hash, HashLaws}
use kemtls.Encoding.{base64url_encode}
use kemtls.Handshake.{decode_bytes_field, finished_message, message_at}
use kemtls.Handshake.Client.{
  ClientHandshake, client_hello, process_server_finished, client_finished,
}
use kemtls.Handshake.Finish.{Keys, keyed, Derived, derive}
use kemtls.Handshake.FinishedSteps.{
  process_server_finished-eq, client_finished-eq, verify_client_finished-eq,
}
use kemtls.Handshake.Messages.{Reloads, decode_bytes_field-reloaded, loads_only}
use kemtls.Handshake.Server.{
  ServerHandshake, server_hello_message, server_session, verify_client_finished,
}
use kemtls.Session.{KemtlsSession}

-- Two sessions with the same keys, identifiers and mode.
pub record Agreed (at_client at_server : KemtlsSession) : Type 0 where
  pub keys : Keys
  pub client_session : KemtlsSession
  pub server_session : KemtlsSession
  pub at_client_eq : at_client ≡ keyed keys client_session
  pub at_server_eq : at_server ≡ keyed keys server_session
  pub same_session_id : client_session.session_id ≡ server_session.session_id
  pub same_mode : client_session.handshake_mode ≡ server_session.handshake_mode
  pub client_length : length keys.client ≡ 32
  pub server_length : length keys.server ≡ 32
  pub client_iv_length : length keys.client_iv ≡ 12
  pub server_iv_length : length keys.server_iv ≡ 12

pub find_eph_pk :
    (s : ServerHandshake) (mode : Str)
    → (find (codes "eph_pk") (server_hello_message s mode)
        ≡ some (text (base64url_encode s.eph_pk)))
      × (find (codes "session_id") (server_hello_message s mode) ≡ some (text s.session_id))
unfolding server_hello_message find str_eq
find_eph_pk s mode = (refl, refl)

-- What the client reads in the ServerHello of this server.
pub hello_read :
    (p : Python) (s : ServerHandshake) (mode : Str) (r : Reloads p (server_hello_message s mode))
    (sh : Members) (msg eph_pk : Bytes)
    → IsBytes s.eph_pk
    → msg ≡ p.dumps (server_hello_message s mode)
    → p.loads msg ≡ some (object sh)
    → decode_bytes_field (codes "eph_pk") sh ≡ ok eph_pk
    → (eph_pk ≡ s.eph_pk) × (get_item (codes "session_id") sh ≡ ok (text s.session_id))
unfolding get_item
hello_read p s mode r sh msg eph_pk bytes made loaded decoded =
    let m = server_hello_message s mode in
    let same : sh ≡ r.reloaded = loads_only p m sh r msg made loaded in
    (
      ok_injective (
          sym decoded
          ∙ ap (decode_bytes_field (codes "eph_pk")) same
          ∙ decode_bytes_field-reloaded p m r (codes "eph_pk") s.eph_pk (find_eph_pk s mode).0
              bytes),
      rw (same, r.find-text (codes "session_id") s.session_id (find_eph_pk s mode).1) refl,
    )

pub length-compute_transcript_hash :
    (h : Hash)
    → HashLaws h
    → (messages : List Bytes) → length (compute_transcript_hash h messages) ≡ 32
unfolding compute_transcript_hash
length-compute_transcript_hash h laws messages = laws.length-sha256 (concat messages)

pub length-derive_handshake_secret :
    (h : Hash)
    → HashLaws h
    → (shared_secrets : List Bytes) (secret : Bytes)
    → derive_handshake_secret h shared_secrets ≡ ok secret
    → length secret ≡ 32
length-derive_handshake_secret h laws shared_secrets secret e =
    let (ne, sizes, same) = (derive_handshake_secret-eq-ok h laws shared_secrets secret).0 e in
    ap length same ∙ laws.length-hmac (zeros 32) (concat shared_secrets)

pub client_hello_inv :
    (p : Python) (c : ClientHandshake) (ch : Bytes) (c' : ClientHandshake)
    → client_hello p c ≡ (ok ch, c')
    → c' ≡ record c { transcript = c.transcript ++ ch ∷ [] }
unfolding client_hello
client_hello_inv p c ch c' e =
    let (result_eq, object_eq) = pure_inv e in
    sym object_eq ∙ ap (λ (b : Bytes). record c { transcript = c.transcript ++ b ∷ [] }) result_eq

-- What both parties hold once the Finished keys are derived.
module _ (p : Python) (h : Hash) (laws : HashLaws h)
    (mac_bytes : (key message : Bytes) → IsBytes (h.hmac key message))
    (reloads : (message_type : Str) (mac : Bytes)
      → Reloads p (finished_message message_type mac)) where
  abbrev pub server_mac : (server_fin ch sh : Bytes) → Bytes
  server_mac server_fin ch sh = h.hmac server_fin (compute_transcript_hash h (ch ∷ sh ∷ []))

  -- The Finished messages are exchanged.
  pub record Confirmed (sfm : Bytes) (session base : KemtlsSession) (c : ClientHandshake)
      (s : ServerHandshake) : Type 0 where
    pub keys : Keys
    pub c3 : ClientHandshake
    pub c4 : ClientHandshake
    pub s3 : ServerHandshake
    pub cfm : Bytes
    pub accepted : process_server_finished p h sfm (some session) c ≡ (ok (keyed keys session), c3)
    pub confirmed : client_finished p h c3 ≡ (ok cfm, c4)
    pub verified : verify_client_finished p h cfm s ≡ (ok (keyed keys base), s3)
    pub client_length : length keys.client ≡ 32
    pub server_length : length keys.server ≡ 32
    pub client_iv_length : length keys.client_iv ≡ 12
    pub server_iv_length : length keys.server_iv ≡ 12

  pub confirm :
      (ch sh cke secret client_fin server_fin : Bytes) (session base : KemtlsSession) (hello : Json)
      (c : ClientHandshake) (s : ServerHandshake)
      → c.transcript ≡ ch ∷ sh ∷ cke ∷ []
      → c.client_fin_key ≡ some client_fin
      → c.server_fin_key ≡ some server_fin
      → c.handshake_secret ≡ some secret
      → (sfm : Bytes)
      → sfm ≡ p.dumps (finished_message (codes "ServerFinished") (server_mac server_fin ch sh))
      → s.transcript ≡ ch ∷ sh ∷ cke ∷ sfm ∷ []
      → s.client_fin_key ≡ some client_fin
      → s.handshake_secret ≡ some secret
      → deserialize_message p sh ≡ ok hello
      → server_session p h s hello ≡ ok base
      → length secret ≡ 32
      → Confirmed sfm session base c s
  unfolding message_at
  confirm ch sh cke secret client_fin server_fin session base hello c s ct cf sf cs sfm made st scf
        ss loaded base_eq size =
      let whole : List Bytes = ch ∷ sh ∷ cke ∷ sfm ∷ [] in
      let t3 = compute_transcript_hash h whole in
      let derived : Derived h secret t3 =
        derive h laws secret t3 size (length-compute_transcript_hash h laws whole) in
      let mac1 = server_mac server_fin ch sh in
      let mac2 = h.hmac client_fin (compute_transcript_hash h (ch ∷ sh ∷ cke ∷ [])) in
      let cfm = p.dumps (finished_message (codes "ClientFinished") mac2) in
      let c3 : ClientHandshake = record c { transcript = whole } in
      record {
        keys = derived.keys;
        c3 = c3;
        c4 = record c3 { transcript = whole ++ cfm ∷ [] };
        s3 = record s { transcript = whole ++ cfm ∷ [] };
        cfm = cfm;
        accepted =
            ap (λ (m : Bytes). process_server_finished p h m (some session) c) made
            ∙ process_server_finished-eq p h mac1 secret server_fin session c sh hello
                (reloads (codes "ServerFinished") mac1) (mac_bytes server_fin _) sf cs
                (ap (λ (t : List Bytes). h.hmac server_fin (compute_transcript_hash h (take 2 t)))
                  (sym ct))
                whole
                (ap (λ (m : Bytes). ch ∷ sh ∷ cke ∷ m ∷ []) made
                  ∙ ap
                      (λ (t : List Bytes).
                        t ++ p.dumps (finished_message (codes "ServerFinished") mac1) ∷ [])
                      (sym ct))
                derived refl loaded;
        confirmed = client_finished-eq p h client_fin mac2 c3 cf refl;
        verified =
            verify_client_finished-eq p h mac2 secret client_fin t3 base s sh hello
              (reloads (codes "ClientFinished") mac2) (mac_bytes client_fin _) scf ss
              (ap (λ (t : List Bytes). h.hmac client_fin (compute_transcript_hash h (take 3 t)))
                (sym st))
              (whole ++ cfm ∷ []) (ap (λ (t : List Bytes). t ++ cfm ∷ []) (sym st)) refl derived
              refl loaded base_eq;
        client_length = derived.client_length;
        server_length = derived.server_length;
        client_iv_length = derived.client_iv_length;
        server_iv_length = derived.server_iv_length;
      }

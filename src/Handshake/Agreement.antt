-- ===== src/Handshake/Agreement.antt =====
-- A handshake of a client and a server that holds the keys which the client expects.
use mathlib.Core.Path.{subst}
use kemtls.Common.{
  ℕ, ◌≡◌, refl, sym, ap, ◌∙◌, some, List, [], ◌∷◌, ◌++◌, codes, take, Bytes, IsBytes, Str,
  if◌then◌else◌,
}
use kemtls.Common.Error.{Result, ok, ok_injective, ◌>>=◌}
use kemtls.Common.Json.{
  Json, null, text, object, Members, is_text, get_item, Python, deserialize_message,
}
use kemtls.Crypto.Kem.{KeyPair, decapsulate, decapsulate-encapsulate, encapsulate-IsBytes}
use kemtls.Crypto.KeySchedule.{compute_transcript_hash, derive_handshake_secret}
use kemtls.Crypto.Primitives.{Hash, HashLaws, Kem, Signature}
use kemtls.Handshake.{client_key_exchange_message, finished_message, finished_keys}
use kemtls.Handshake.Client.{
  ClientHandshake, authenticate, client_hello, process_server_hello, process_server_finished,
  client_finished,
}
use kemtls.Handshake.Confirmation.{
  Agreed, hello_read, length-derive_handshake_secret, client_hello_inv, Confirmed, confirm,
}
use kemtls.Handshake.Finish.{keyed}
use kemtls.Handshake.Messages.{Reloads}
use kemtls.Handshake.Server.{
  ServerHandshake, server_hello_message, process_client_hello, process_client_key_exchange,
  server_session, key_id_value, verify_client_finished,
}
use kemtls.Handshake.ServerHello.{Accepted, process_server_hello-Accepted}
use kemtls.Handshake.Steps.{
  process_client_hello_inv, process_client_key_exchange-eq, with_server_keys, finished_of,
}
use kemtls.Session.{KemtlsSession, new_session}

abbrev served : ServerHandshake → Json → KemtlsSession
served s mode =
    new_session (text s.session_id) (codes "client") mode
      (if is_text (some mode) (codes "pdk") then key_id_value s.pdk_key_id else null)

server_session-eq :
    (p : Python) (h : Hash) (s : ServerHandshake) (sh : Members) (mode : Json)
    → get_item (codes "mode") sh ≡ ok mode
    → server_session p h s (object sh) ≡ ok (served s mode)
server_session-eq p h s sh mode e = ap (λ (r : Result Json). r >>= λ found. ok (served s found)) e

deserialize-eq :
    (p : Python) (msg : Bytes) (sh : Members)
    → p.loads msg ≡ some (object sh)
    → deserialize_message p msg ≡ ok (object sh)
unfolding deserialize_message
deserialize-eq p msg sh e = rw e refl

module _ (p : Python) (d : Signature) (h : Hash) (k : Kem) where
  -- The server answers, the client accepts its Finished, the server accepts the client's, and both
  -- sessions agree.
  pub record Completed (cke : Bytes) (session : KemtlsSession) (c : ClientHandshake)
      (s : ServerHandshake) : Type 0 where
    pub sfm : Bytes
    pub cfm : Bytes
    pub s2 : ServerHandshake
    pub s3 : ServerHandshake
    pub c3 : ClientHandshake
    pub c4 : ClientHandshake
    pub at_client : KemtlsSession
    pub at_server : KemtlsSession
    pub answered : process_client_key_exchange p h k cke s ≡ (ok sfm, s2)
    pub accepted : process_server_finished p h sfm (some session) c ≡ (ok at_client, c3)
    pub confirmed : client_finished p h c3 ≡ (ok cfm, c4)
    pub verified : verify_client_finished p h cfm s2 ≡ (ok at_server, s3)
    pub agreed : Agreed at_client at_server

  complete :
      (ch sh ct_eph ct_lt ss_eph ss_lt secret client_fin server_fin : Bytes) (hello : Members)
      (mode : Json) (session : KemtlsSession) (c : ClientHandshake) (s : ServerHandshake)
      → HashLaws h
      → ((key message : Bytes) → IsBytes (h.hmac key message))
      → Reloads p (client_key_exchange_message ct_eph ct_lt)
      → ((message_type : Str) (mac : Bytes) → Reloads p (finished_message message_type mac))
      → IsBytes ct_eph
      → IsBytes ct_lt
      → decapsulate k s.eph_sk ct_eph ≡ ok ss_eph
      → decapsulate k s.server_lt_sk ct_lt ≡ ok ss_lt
      → derive_handshake_secret h (ss_eph ∷ ss_lt ∷ []) ≡ ok secret
      → finished_keys h secret (compute_transcript_hash h (ch ∷ sh ∷ []))
        ≡ ok (client_fin, server_fin)
      → c.transcript ≡ ch ∷ sh ∷ p.dumps (client_key_exchange_message ct_eph ct_lt) ∷ []
      → c.client_fin_key ≡ some client_fin
      → c.server_fin_key ≡ some server_fin
      → c.handshake_secret ≡ some secret
      → s.transcript ≡ ch ∷ sh ∷ []
      → p.loads sh ≡ some (object hello)
      → get_item (codes "mode") hello ≡ ok mode
      → session.session_id ≡ text s.session_id
      → session.handshake_mode ≡ mode
      → Completed (p.dumps (client_key_exchange_message ct_eph ct_lt)) session c s
  complete ch sh ct_eph ct_lt ss_eph ss_lt secret client_fin server_fin hello mode session c s laws
        mac_bytes cke_r fin_r eb lb ed ld derived keys ct cf sf cs st loaded has_mode same_id
        same_mode =
      let cke = p.dumps (client_key_exchange_message ct_eph ct_lt) in
      let t2 : List Bytes = ch ∷ sh ∷ cke ∷ [] in
      let sfm = finished_of p h k server_fin t2 in
      let s2 : ServerHandshake =
        with_server_keys p h k secret client_fin server_fin sfm (record s { transcript = t2 }) in
      let f : Confirmed p h laws mac_bytes fin_r sfm session (served s mode) c s2 =
        confirm p h laws mac_bytes fin_r ch sh cke secret client_fin server_fin session
          (served s mode) (object hello) c s2 ct cf sf cs sfm refl refl refl refl
          (deserialize-eq p sh hello loaded) (server_session-eq p h s2 hello mode has_mode)
          (length-derive_handshake_secret h laws (ss_eph ∷ ss_lt ∷ []) secret derived) in
      record {
        sfm = sfm;
        cfm = f.cfm;
        s2 = s2;
        s3 = f.s3;
        c3 = f.c3;
        c4 = f.c4;
        at_client = keyed f.keys session;
        at_server = keyed f.keys (served s mode);
        answered =
            process_client_key_exchange-eq p h k ct_eph ct_lt ss_eph ss_lt secret client_fin
              server_fin s cke_r eb lb ed ld derived t2
              (ap (λ (t : List Bytes). t ++ cke ∷ []) (sym st)) keys;
        accepted = f.accepted;
        confirmed = f.confirmed;
        verified = f.verified;
        agreed = record {
          keys = f.keys;
          client_session = session;
          server_session = served s mode;
          at_client_eq = refl;
          at_server_eq = refl;
          same_session_id = same_id;
          same_mode = same_mode;
          client_length = f.client_length;
          server_length = f.server_length;
          client_iv_length = f.client_iv_length;
          server_iv_length = f.server_iv_length;
        };
      }

  -- The two parties run their hellos with no message before, the client accepts the ServerHello of
  -- this server, and the server holds the secret keys to its ephemeral key and to whatever long-term
  -- key the client authenticates. Then the rest of the handshake succeeds, and both parties end with
  -- sessions that have the same keys of 32 bytes and IVs of 12, the same exporter secret and binding
  -- identifiers, the same session id and mode; if the hash functions return 32 bytes and MACs are
  -- bytes, and JSON loads back the texts of the messages.
  pub handshake-Completed :
      (now : ℕ) (eph_coins lt_coins ch sh cke : Bytes) (session : KemtlsSession)
      (c0 c1 c2 : ClientHandshake) (s0 s1 : ServerHandshake)
      → HashLaws h
      → ((key message : Bytes) → IsBytes (h.hmac key message))
      → ((mode : Str) → Reloads p (server_hello_message s0 mode))
      → ((ct_eph ct_lt : Bytes) → Reloads p (client_key_exchange_message ct_eph ct_lt))
      → ((message_type : Str) (mac : Bytes) → Reloads p (finished_message message_type mac))
      → IsBytes s0.eph_pk
      → KeyPair k s0.eph_pk s0.eph_sk
      → ((hello : Members) (lt_pk : Bytes) (key_id : Json)
          → authenticate p d now c1 hello ≡ ok (lt_pk, key_id)
          → KeyPair k lt_pk s0.server_lt_sk)
      → c0.transcript ≡ []
      → s0.transcript ≡ []
      → client_hello p c0 ≡ (ok ch, c1)
      → process_client_hello p ch s0 ≡ (ok sh, s1)
      → process_server_hello p d h k now eph_coins lt_coins sh c1 ≡ (ok (cke, session), c2)
      → Completed cke session c2 s1
  handshake-Completed now eph_coins lt_coins ch sh cke session c0 c1 c2 s0 s1 laws mac_bytes hello_r
        cke_r fin_r eph_bytes eph_pair lt_pairs c0_new s0_new said greeted took =
      let a : Accepted p d h k now eph_coins lt_coins c1 sh cke session c2 =
        process_server_hello-Accepted p d h k now eph_coins lt_coins sh c1 cke session c2 took in
      let x = a.exchanged in
      let ck = x.client_keys in
      let (mode, sh_eq, s1_eq) = process_client_hello_inv p ch s0 sh s1 greeted in
      let (eph_same, id_same) =
        hello_read p s0 mode (hello_r mode) a.sh sh a.eph_pk eph_bytes sh_eq a.loaded
          a.has_eph_pk in
      let m = client_key_exchange_message x.ct_eph x.ct_lt in
      let cke0 = p.dumps m in
      let c1t : c1.transcript ≡ ch ∷ [] =
        ap (λ (c : ClientHandshake). c.transcript) (client_hello_inv p c0 ch c1 said)
        ∙ ap (λ (t : List Bytes). t ++ ch ∷ []) c0_new in
      let s1t : s1.transcript ≡ ch ∷ sh ∷ [] =
        ap (λ (s : ServerHandshake). s.transcript) s1_eq
        ∙ ap (λ (t : List Bytes). (t ++ ch ∷ []) ++ sh ∷ []) s0_new in
      let whole : c1.transcript ++ sh ∷ [] ≡ ch ∷ sh ∷ [] =
        ap (λ (t : List Bytes). t ++ sh ∷ []) c1t in
      let eph_key : KeyPair k a.eph_pk s1.eph_sk =
        subst (λ (s : ServerHandshake). KeyPair k a.eph_pk s.eph_sk) (sym s1_eq)
          (subst (λ (pk : Bytes). KeyPair k pk s0.eph_sk) (sym eph_same) eph_pair) in
      let lt_key : KeyPair k a.lt_pk s1.server_lt_sk =
        subst (λ (s : ServerHandshake). KeyPair k a.lt_pk s.server_lt_sk) (sym s1_eq)
          (lt_pairs a.sh a.lt_pk a.key_id a.authenticated) in
      subst (λ (b : Bytes). Completed b session c2 s1) (sym x.cke_eq)
        (complete ch sh x.ct_eph x.ct_lt x.ss_eph x.ss_lt ck.secret ck.client_fin ck.server_fin a.sh
          ck.mode session c2 s1 laws mac_bytes (cke_r x.ct_eph x.ct_lt) fin_r
          (encapsulate-IsBytes k a.eph_pk s1.eph_sk eph_coins x.ct_eph x.ss_eph eph_key x.eph_made)
          (encapsulate-IsBytes k a.lt_pk s1.server_lt_sk lt_coins x.ct_lt x.ss_lt lt_key x.lt_made)
          (decapsulate-encapsulate k a.eph_pk s1.eph_sk eph_coins x.ct_eph x.ss_eph eph_key
            x.eph_made)
          (decapsulate-encapsulate k a.lt_pk s1.server_lt_sk lt_coins x.ct_lt x.ss_lt lt_key
            x.lt_made)
          ck.derived
          (subst
            (λ (t : List Bytes).
              finished_keys h ck.secret (compute_transcript_hash h (take 2 (t ++ cke0 ∷ [])))
              ≡ ok (ck.client_fin, ck.server_fin))
            whole ck.keys)
          (ap (λ (c : ClientHandshake). c.transcript) ck.state_eq
            ∙ ap (λ (t : List Bytes). t ++ cke0 ∷ []) whole)
          (ap (λ (c : ClientHandshake). c.client_fin_key) ck.state_eq)
          (ap (λ (c : ClientHandshake). c.server_fin_key) ck.state_eq)
          (ap (λ (c : ClientHandshake). c.handshake_secret) ck.state_eq) s1t a.loaded ck.has_mode
          (ap (λ (s : KemtlsSession). s.session_id) ck.session_eq
            ∙ ok_injective (sym ck.has_session_id ∙ id_same)
            ∙ ap (λ (s : ServerHandshake). text s.session_id) (sym s1_eq))
          (ap (λ (s : KemtlsSession). s.handshake_mode) ck.session_eq))

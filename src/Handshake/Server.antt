-- ===== src/Handshake/Server.antt =====
-- `ServerHandshake` of kemtls/handshake.py (src/kemtls).
use kemtls.Common.{
  Bool, true, false, not, Option, none, some, List, [], ◌∷◌, ◌++◌, if◌then◌else◌, str_eq, codes,
  take, Bytes, Str,
}
use kemtls.Common.Error
use kemtls.Common.Error.{Error, value_error, type_error, Result, ok, raised, or_raise, raise_if}
use kemtls.Common.Action.{Action, lift, modify, ◌>>=◌, ◌>>◌, pure}
use kemtls.Common.Json.{
  Json, null, text, object, array, no_items, Members, nothing, member, find, set_member, as_dict,
  is_text, as_object, get_item, contained, Python, deserialize_message,
}
use kemtls.Crypto.Kem.{decapsulate, generate_keypair}
use kemtls.Crypto.KeySchedule.{compute_transcript_hash, derive_handshake_secret}
use kemtls.Crypto.Primitives.{Hash, Kem}
use kemtls.Handshake.{
  decode_bytes_field, bytes_value, encode_finished_message, message_at, hmac_sha256, finished_keys,
  application_secrets, finish_session,
}
use kemtls.Session.{KemtlsSession, new_session}

pub record ServerHandshake : Type 0 where
  pub server_identity : Str
  pub server_lt_sk : Bytes
  pub cert : Option Members
  pub pdk_key_id : Option Str
  pub transcript : List Bytes
  pub session_id : Str
  pub eph_pk : Bytes
  pub eph_sk : Bytes
  pub handshake_secret : Option Bytes
  pub client_fin_key : Option Bytes
  pub server_fin_key : Option Bytes

-- `ServerHandshake(…)`; the random session id and the coins of the key pair are arguments.
unfoldable pub new_server :
    Kem
    → Str
    → Bytes
    → Option Members
    → Option Str
    → (session_id coins : Bytes) → Result ServerHandshake
new_server k server_identity server_lt_sk cert pdk_key_id session_id coins =
    Error.◌>>=◌ (generate_keypair k coins) λ pair. ok (record {
      server_identity = server_identity;
      server_lt_sk = server_lt_sk;
      cert = cert;
      pdk_key_id = pdk_key_id;
      transcript = [];
      session_id = session_id;
      eph_pk = pair.0;
      eph_sk = pair.1;
      handshake_secret = none;
      client_fin_key = none;
      server_fin_key = none;
    })

-- `self.transcript.append(message)`
abbrev pub append : Bytes → Action ServerHandshake (Unit {0})
append message = modify (λ s. record s { transcript = s.transcript ++ message ∷ [] })

abbrev pub has_key_id : Option Str → Bool
has_key_id none = false
has_key_id (some []) = false
has_key_id (some (c ∷ key_id)) = true

abbrev pub has_cert : Option Members → Bool
has_cert none = false
has_cert (some nothing) = false
has_cert (some (member k v cert)) = true

-- `able and mode in modes`
abbrev pub offered : Bool → Str → Json → Result Bool
offered false mode modes = ok false
offered true mode modes = contained mode modes

-- `ch.get('modes', [])`
abbrev pub modes_of : Option Json → Json
modes_of none = array no_items
modes_of (some modes) = modes

-- `# Negotiation logic`
unfoldable pub negotiate : ServerHandshake → Json → Result Str
negotiate s modes = Error.◌>>=◌ (offered (has_key_id s.pdk_key_id) (codes "pdk") modes) λ pdk.
    if pdk
    then ok (codes "pdk")
    else (Error.◌>>=◌ (offered (has_cert s.cert) (codes "baseline") modes) λ baseline.
        if baseline
        then ok (codes "baseline")
        else raised (value_error "No mutually supported authentication modes"))

abbrev pub cert_value : Option Members → Json
cert_value none = null
cert_value (some cert) = object cert

abbrev pub key_id_value : Option Str → Json
key_id_value none = null
key_id_value (some key_id) = text key_id

-- The ServerHello of a mode.
unfoldable pub server_hello_message : ServerHandshake → Str → Members
unfolding set_member
server_hello_message s mode =
    let credential =
      if str_eq mode (codes "baseline")
      then member (codes "cert") (cert_value s.cert) nothing
      else member (codes "key_id") (key_id_value s.pdk_key_id) nothing in
    member (codes "type") (text (codes "ServerHello")) (
      member (codes "version") (text (codes "KEMTLS/1.0")) (
        member (codes "session_id") (text s.session_id) (
          member (codes "mode") (text mode)
            (member (codes "eph_pk") (bytes_value s.eph_pk) credential))))

unfoldable pub process_client_hello : Python → Bytes → Action ServerHandshake Bytes
process_client_hello p msg_bytes s =
    (do
      value ← lift (deserialize_message p msg_bytes)
      append msg_bytes
      ch ← lift (as_dict value)
      mode ← lift (negotiate s (modes_of (find (codes "modes") ch)))
      append (p.dumps (server_hello_message s mode))
      pure (p.dumps (server_hello_message s mode)))
      s

module _ (p : Python) (h : Hash) (k : Kem) where
  -- `# 2. Derive Handshake Secrets` and `# 3. Generate ServerFinished`
  unfoldable pub derive_server_keys : (eph_secret lt_secret : Bytes) → Action ServerHandshake Bytes
  derive_server_keys eph_secret lt_secret s =
      (do
        secret ← lift (derive_handshake_secret h (eph_secret ∷ lt_secret ∷ []))
        modify (λ s. record s { handshake_secret = some secret })
        fin_keys ← lift (finished_keys h secret (compute_transcript_hash h (take 2 s.transcript)))
        modify
            (λ s. record s { client_fin_key = some fin_keys.0; server_fin_key = some fin_keys.1 })
        mac ←
            lift (hmac_sha256 h (some fin_keys.1) (compute_transcript_hash h (take 2 s.transcript)))
        append (encode_finished_message p (codes "ServerFinished") mac)
        pure (encode_finished_message p (codes "ServerFinished") mac))
        s

  unfoldable pub process_client_key_exchange : Bytes → Action ServerHandshake Bytes
  process_client_key_exchange msg_bytes s =
      (do
        value ← lift (deserialize_message p msg_bytes)
        append msg_bytes
        cke ← lift (as_dict value)
        ct_eph ← lift (decode_bytes_field (codes "ct_ephemeral") cke)
        ct_lt ← lift (decode_bytes_field (codes "ct_longterm") cke)
        ss_eph ← lift (decapsulate k s.eph_sk ct_eph)
        ss_lt ← lift (decapsulate k s.server_lt_sk ct_lt)
        derive_server_keys ss_eph ss_lt)
        s

module _ (p : Python) (h : Hash) where
  -- The session of the server, whose peer is anonymous.
  abbrev pub server_session : ServerHandshake → Json → Result KemtlsSession
  server_session s value =
      Error.◌>>=◌ (or_raise (as_object (some value)) (type_error "indices must be integers")) λ sh.
        Error.◌>>=◌ (get_item (codes "mode") sh) λ mode. ok (
          new_session (text s.session_id) (codes "client") mode
            (if is_text (some mode) (codes "pdk") then key_id_value s.pdk_key_id else null))

  -- `# Finalize Application Keys`, over the transcript up to the ServerFinished.
  unfoldable pub finalize_server : Action ServerHandshake KemtlsSession
  finalize_server s =
      (do
        secrets ← lift (
            application_secrets h s.handshake_secret
              (compute_transcript_hash h (take 4 s.transcript)))
        second ← lift (message_at 1 s.transcript)
        hello ← lift (deserialize_message p second)
        lift (finish_session h secrets.0 secrets.1 secrets.2 (server_session s hello)))
        s

  unfoldable pub verify_client_finished : Bytes → Action ServerHandshake KemtlsSession
  verify_client_finished msg_bytes s =
      (do
        value ← lift (deserialize_message p msg_bytes)
        cf ← lift (as_dict value)
        client_mac ← lift (decode_bytes_field (codes "mac") cf)
        expected_mac ←
            lift (hmac_sha256 h s.client_fin_key (compute_transcript_hash h (take 3 s.transcript)))
        lift (
            raise_if (not (str_eq expected_mac client_mac))
              (value_error "ClientFinished MAC verification failed"))
        append msg_bytes
        finalize_server)
        s

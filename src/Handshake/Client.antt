-- ===== src/Handshake/Client.antt =====
-- `ClientHandshake` of kemtls/handshake.py (src/kemtls). What the key encapsulation draws at random
-- and the clock are arguments.
use kemtls.Common.{
  ℕ, not, Option, none, some, List, [], ◌∷◌, ◌++◌, if◌then◌else◌, str_eq, codes, take, Bytes, Str,
}
use kemtls.Common.Error
use kemtls.Common.Error.{
  Error, value_error, type_error, key_error, Result, ok, raised, or_raise, raise_if,
}
use kemtls.Common.Action.{Action, lift, gets, modify, ◌>>=◌, ◌>>◌, pure}
use kemtls.Common.Json.{
  Json, null, boolean, number, negative, text, object, array, Members, find, as_dict, or_null,
  is_text, as_object, get_item, truthy, Python, deserialize_message,
}
use kemtls.Certs.{validate_certificate}
use kemtls.Crypto.Kem.{encapsulate}
use kemtls.Crypto.KeySchedule.{compute_transcript_hash, derive_handshake_secret}
use kemtls.Crypto.Primitives.{Hash, Kem, Signature}
use kemtls.Handshake.{
  decode_bytes_field, encode_client_hello, encode_client_key_exchange, encode_finished_message,
  message_at, hmac_sha256, finished_keys, application_secrets, finish_session,
}
use kemtls.Pdk.{Entry, TrustStore, resolve_expected_identity}
use kemtls.Session.{KemtlsSession, new_session}

pub record ClientHandshake : Type 0 where
  pub expected_identity : Str
  pub ca_pk : Option Bytes
  pub pdk_store : Option TrustStore
  pub mode : Str
  pub transcript : List Bytes
  pub client_random : Str
  pub ss_eph : Option Bytes
  pub ss_lt : Option Bytes
  pub handshake_secret : Option Bytes
  pub client_fin_key : Option Bytes
  pub server_fin_key : Option Bytes

-- `ClientHandshake(…)`; the random text is an argument.
abbrev pub new_client :
    Str → Option Bytes → Option TrustStore → Str → (client_random : Str) → ClientHandshake
new_client expected_identity ca_pk pdk_store mode client_random = record {
  expected_identity = expected_identity;
  ca_pk = ca_pk;
  pdk_store = pdk_store;
  mode = mode;
  transcript = [];
  client_random = client_random;
  ss_eph = none;
  ss_lt = none;
  handshake_secret = none;
  client_fin_key = none;
  server_fin_key = none;
}

-- `self.transcript.append(message)`
abbrev pub append : Bytes → Action ClientHandshake (Unit {0})
append message = modify (λ c. record c { transcript = c.transcript ++ message ∷ [] })

abbrev pub supported_modes : Str → List Str
supported_modes mode =
    if str_eq mode (codes "auto") then codes "baseline" ∷ codes "pdk" ∷ [] else mode ∷ []

-- `resolve_expected_identity` with the key id of a message: a value that is true and no text is no
-- key of the store, and a list or a dictionary cannot be one.
abbrev pub resolve_key : Str → Json → TrustStore → Result Entry
resolve_key identity null s = resolve_expected_identity identity none s
resolve_key identity (text key_id) s = resolve_expected_identity identity (some key_id) s
resolve_key identity (boolean b) s =
    if truthy (some (boolean b))
    then raised (key_error "not found in PDK trust store")
    else resolve_expected_identity identity none s
resolve_key identity (number n) s =
    if truthy (some (number n))
    then raised (key_error "not found in PDK trust store")
    else resolve_expected_identity identity none s
resolve_key identity (negative n) s =
    if truthy (some (negative n))
    then raised (key_error "not found in PDK trust store")
    else resolve_expected_identity identity none s
resolve_key identity (object m) s =
    if truthy (some (object m))
    then raised (type_error "unhashable type")
    else resolve_expected_identity identity none s
resolve_key identity (array i) s =
    if truthy (some (array i))
    then raised (type_error "unhashable type")
    else resolve_expected_identity identity none s

-- `if not self.ca_pk: raise …`
abbrev pub require_ca : Option Bytes → Result Bytes
require_ca none = raised (value_error "Baseline mode requires CA public key")
require_ca (some []) = raised (value_error "Baseline mode requires CA public key")
require_ca (some (b ∷ ca_pk)) = ok (b ∷ ca_pk)

module _ (p : Python) (d : Signature) where
  -- `# 1. Identity Validation`: the server's long-term key, and the key id that the session records.
  unfoldable pub authenticate : ℕ → ClientHandshake → Members → Result (Bytes × Json)
  authenticate now c sh =
      if is_text (find (codes "mode") sh) (codes "baseline")
      then (Error.◌>>=◌ (require_ca c.ca_pk) λ ca_pk.
          Error.◌>>=◌
            (validate_certificate p d now (or_null (find (codes "cert") sh)) ca_pk
              c.expected_identity)
            λ server_lt_pk. ok (server_lt_pk, null))
      else if is_text (find (codes "mode") sh) (codes "pdk")
      then (Error.◌>>=◌ (or_raise c.pdk_store (value_error "PDK mode requires PDK trust store"))
          λ store.
            Error.◌>>=◌ (resolve_key c.expected_identity (or_null (find (codes "key_id") sh)) store)
              λ entry. ok (entry.ml_kem_public_key, or_null (find (codes "key_id") sh)))
      else raised (value_error "Server selected unsupported mode")

unfoldable pub client_hello : Python → Action ClientHandshake Bytes
client_hello p = do
  msg ←
      gets (λ c. encode_client_hello p c.client_random c.expected_identity (supported_modes c.mode))
  append msg
  pure msg

module _ (p : Python) (d : Signature) (h : Hash) (k : Kem) where
  -- `# 3. Derive Handshake Secrets`, and the session without keys.
  unfoldable pub derive_client_keys :
      (cke eph_secret lt_secret : Bytes)
      → Members
      → (trusted_key_id : Json) → Action ClientHandshake (Bytes × KemtlsSession)
  derive_client_keys cke eph_secret lt_secret sh trusted_key_id c =
      (do
        secret ← lift (derive_handshake_secret h (eph_secret ∷ lt_secret ∷ []))
        modify (λ c. record c { handshake_secret = some secret })
        fin_keys ← lift (finished_keys h secret (compute_transcript_hash h (take 2 c.transcript)))
        modify
            (λ c. record c { client_fin_key = some fin_keys.0; server_fin_key = some fin_keys.1 })
        session_id ← lift (get_item (codes "session_id") sh)
        mode ← lift (get_item (codes "mode") sh)
        pure (cke, new_session session_id c.expected_identity mode trusted_key_id))
        c

  -- `# 2. Key Exchange`
  unfoldable pub exchange_keys :
      (eph_coins lt_coins server_eph_pk : Bytes)
      → (trusted : Bytes × Json) → Members
      → Action ClientHandshake (Bytes × KemtlsSession)
  exchange_keys eph_coins lt_coins server_eph_pk trusted sh = do
    eph ← lift (encapsulate k server_eph_pk eph_coins)
    modify (λ c. record c { ss_eph = some eph.1 })
    lt ← lift (encapsulate k trusted.0 lt_coins)
    modify (λ c. record c { ss_lt = some lt.1 })
    append (encode_client_key_exchange p eph.0 lt.0)
    derive_client_keys (encode_client_key_exchange p eph.0 lt.0) eph.1 lt.1 sh trusted.1

  -- The ClientKeyExchange and the session without keys.
  unfoldable pub process_server_hello :
      (now : ℕ) (eph_coins lt_coins msg_bytes : Bytes)
      → Action ClientHandshake (Bytes × KemtlsSession)
  process_server_hello now eph_coins lt_coins msg_bytes c =
      (do
        value ← lift (deserialize_message p msg_bytes)
        append msg_bytes
        sh ← lift (as_dict value)
        lift (
            raise_if (not (is_text (find (codes "version") sh) (codes "KEMTLS/1.0")))
              (value_error "Incompatible KEMTLS version"))
        server_eph_pk ← lift (decode_bytes_field (codes "eph_pk") sh)
        trusted ← lift (authenticate p d now c sh)
        exchange_keys eph_coins lt_coins server_eph_pk trusted sh)
        c

module _ (p : Python) (h : Hash) where
  -- `if session is None: session = KEMTLSSession(…)`
  abbrev pub session_or_new : Option KemtlsSession → Str → Json → Result KemtlsSession
  session_or_new (some session) expected_identity value = ok session
  session_or_new none expected_identity value =
      Error.◌>>=◌ (or_raise (as_object (some value)) (type_error "indices must be integers")) λ sh.
        Error.◌>>=◌ (get_item (codes "session_id") sh) λ session_id.
          Error.◌>>=◌ (get_item (codes "mode") sh) λ mode.
            ok (new_session session_id expected_identity mode (or_null (find (codes "key_id") sh)))

  -- `# Finalize Application Keys`, over the whole transcript.
  unfoldable pub finalize_client : Option KemtlsSession → Action ClientHandshake KemtlsSession
  finalize_client session c =
      (do
        secrets ←
            lift (application_secrets h c.handshake_secret (compute_transcript_hash h c.transcript))
        second ← lift (message_at 1 c.transcript)
        hello ← lift (deserialize_message p second)
        lift (
            finish_session h secrets.0 secrets.1 secrets.2
              (session_or_new session c.expected_identity hello)))
        c

  -- A session that an exception leaves with a part of its keys is not seen by anyone.
  unfoldable pub process_server_finished :
      Bytes → Option KemtlsSession → Action ClientHandshake KemtlsSession
  process_server_finished msg_bytes session c =
      (do
        value ← lift (deserialize_message p msg_bytes)
        sf ← lift (as_dict value)
        server_mac ← lift (decode_bytes_field (codes "mac") sf)
        expected_mac ←
            lift (hmac_sha256 h c.server_fin_key (compute_transcript_hash h (take 2 c.transcript)))
        lift (
            raise_if (not (str_eq server_mac expected_mac))
              (value_error "ServerFinished MAC verification failed"))
        append msg_bytes
        finalize_client session)
        c

  unfoldable pub client_finished : Action ClientHandshake Bytes
  client_finished c =
      (do
        mac ←
            lift (hmac_sha256 h c.client_fin_key (compute_transcript_hash h (take 3 c.transcript)))
        append (encode_finished_message p (codes "ClientFinished") mac)
        pure (encode_finished_message p (codes "ClientFinished") mac))
        c

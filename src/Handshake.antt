-- ===== src/Handshake.antt =====
-- kemtls/handshake.py (src/kemtls): the handshake of client (`Client`) and server (`Server`). The
-- encoders and the HMAC are taken without the optional Rust core. The `collector` of the benchmarks
-- is None.
pub mod Client
pub mod Server
pub mod ServerHello
pub mod Trust
pub mod Messages
pub mod Finish
pub mod Steps
pub mod FinishedSteps
pub mod Confirmation
pub mod Agreement
pub mod Authentic
pub mod Facade
pub mod FacadeAgreement
use kemtls.Common.{ℕ, zero, suc, Option, none, some, List, [], ◌∷◌, ◌++◌, codes, take, Bytes, Str}
use kemtls.Common.Error.{type_error, index_error, Result, ok, raised, ◌>>=◌, ◌>>◌, or_raise}
use kemtls.Common.Json.{
  Json, text, array, Members, nothing, member, Items, no_items, item, find, as_text, Python,
}
use kemtls.Crypto.KeySchedule.{
  hkdf_expand_label, derive_handshake_traffic_secrets, derive_finished_keys,
  derive_application_traffic_secrets,
}
use kemtls.Crypto.Primitives.{Hash}
use kemtls.Encoding.{base64url_encode, base64url_decode}
use kemtls.Exporter.{derive_exporter_secret, derive_session_binding_id, derive_refresh_binding_id}
use kemtls.Session.{KemtlsSession}

-- `_decode_bytes_field`; a JSON value is no `bytes`.
unfoldable pub decode_bytes_field : Str → Members → Result Bytes
decode_bytes_field field_name message =
    or_raise (as_text (find field_name message)) (type_error "field must be bytes")
    >>= base64url_decode

-- A list of texts as a value.
abbrev pub items : List Str → Items
items [] = no_items
items (s ∷ rest) = item (text s) (items rest)

-- `bytes` in a message are dumped in base64url.
abbrev pub bytes_value : Bytes → Json
bytes_value value = text (base64url_encode value)

abbrev pub client_hello_message : Str → Str → List Str → Members
client_hello_message client_random expected_identity modes =
    member (codes "type") (text (codes "ClientHello")) (
      member (codes "version") (text (codes "KEMTLS/1.0")) (
        member (codes "random") (text client_random) (
          member (codes "modes") (array (items modes))
            (member (codes "expected_identity") (text expected_identity) nothing))))

abbrev pub client_key_exchange_message : Bytes → Bytes → Members
client_key_exchange_message ct_eph ct_lt =
    member (codes "type") (text (codes "ClientKeyExchange")) (
      member (codes "ct_ephemeral") (bytes_value ct_eph)
        (member (codes "ct_longterm") (bytes_value ct_lt) nothing))

abbrev pub finished_message : Str → Bytes → Members
finished_message message_type mac =
    member (codes "type") (text message_type) (member (codes "mac") (bytes_value mac) nothing)

module _ (p : Python) where
  abbrev pub encode_client_hello : Str → Str → List Str → Bytes
  encode_client_hello client_random expected_identity modes =
      p.dumps (client_hello_message client_random expected_identity modes)

  abbrev pub encode_client_key_exchange : Bytes → Bytes → Bytes
  encode_client_key_exchange ct_eph ct_lt = p.dumps (client_key_exchange_message ct_eph ct_lt)

  abbrev pub encode_finished_message : Str → Bytes → Bytes
  encode_finished_message message_type mac = p.dumps (finished_message message_type mac)

-- A key that is None is no `bytes`.
abbrev pub bytes_of : Option Bytes → Result Bytes
bytes_of value = or_raise value (type_error "must be bytes")

-- `transcript[n]`
unfoldable pub message_at : ℕ → List Bytes → Result Bytes
message_at n [] = raised (index_error "list index out of range")
message_at zero (message ∷ transcript) = ok message
message_at (suc n) (message ∷ transcript) = message_at n transcript

module _ (h : Hash) where
  -- `hmac_sha256` of `rust_handshake`, by `_hmac_sha256_python`
  unfoldable pub hmac_sha256 : Option Bytes → Bytes → Result Bytes
  hmac_sha256 key message = bytes_of key >>= λ k. ok (h.hmac k message)

  -- The Finished keys, from the handshake secret and the hash of the hellos: the client's and the
  -- server's.
  unfoldable pub finished_keys : Bytes → Bytes → Result (Bytes × Bytes)
  finished_keys handshake_secret t1 =
      derive_handshake_traffic_secrets h handshake_secret t1 >>= λ traffic.
      derive_finished_keys h traffic.0 traffic.1

  -- The application traffic secrets of client and server, and the exporter secret.
  unfoldable pub application_secrets : Option Bytes → Bytes → Result (Bytes × Bytes × Bytes)
  application_secrets handshake_secret t3 = do
    secret ← bytes_of handshake_secret
    traffic ← derive_application_traffic_secrets h secret t3
    exporter ← derive_exporter_secret h secret t3
    ok (traffic.0, traffic.1, exporter)

  -- The session with its keys: the IVs are derived, then the session is made, then the binding
  -- identifiers are derived.
  unfoldable pub finish_session :
      Bytes → Bytes → Bytes → Result KemtlsSession → Result KemtlsSession
  finish_session client server exporter made = do
    client_iv ← hkdf_expand_label h client (codes "iv") [] 12
    server_iv ← hkdf_expand_label h server (codes "iv") [] 12
    session ← made
    session_binding ← derive_session_binding_id h exporter
    refresh_binding ← derive_refresh_binding_id h exporter
    ok (record session {
      client_app_secret = some client;
      server_app_secret = some server;
      client_write_key = some client;
      client_write_iv = some client_iv;
      server_write_key = some server;
      server_write_iv = some server_iv;
      exporter_secret = some exporter;
      session_binding_id = some session_binding;
      refresh_binding_id = some refresh_binding;
    })

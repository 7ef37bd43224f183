-- ===== src/Session.antt =====
-- kemtls/session.py (src/kemtls): what a handshake leaves behind. `None` is `none`; the session id, the mode and
-- the key id are values of the peer's message, with `null` for `None`.
use kemtls.Common.{ℕ, Option, none, List, Bytes}
use kemtls.Common.Json.{Json}

pub record KemtlsSession : Type 0 where
  pub session_id : Json
  pub peer_identity : List ℕ
  pub handshake_mode : Json
  pub trusted_key_id : Json
  pub client_app_secret : Option Bytes
  pub server_app_secret : Option Bytes
  pub client_write_key : Option Bytes
  pub client_write_iv : Option Bytes
  pub server_write_key : Option Bytes
  pub server_write_iv : Option Bytes
  pub exporter_secret : Option Bytes
  pub session_binding_id : Option (List ℕ)
  pub refresh_binding_id : Option (List ℕ)
  pub transport : Option (List ℕ)
  pub alpn : Option (List ℕ)

-- `KEMTLSSession(session_id=…, peer_identity=…, handshake_mode=…, trusted_key_id=…)`
abbrev pub new_session : Json → List ℕ → Json → Json → KemtlsSession
new_session session_id peer_identity handshake_mode trusted_key_id = record {
  session_id = session_id;
  peer_identity = peer_identity;
  handshake_mode = handshake_mode;
  trusted_key_id = trusted_key_id;
  client_app_secret = none;
  server_app_secret = none;
  client_write_key = none;
  client_write_iv = none;
  server_write_key = none;
  server_write_iv = none;
  exporter_secret = none;
  session_binding_id = none;
  refresh_binding_id = none;
  transport = none;
  alpn = none;
}

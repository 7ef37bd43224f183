-- ===== src/Handshake/Finish.antt =====
-- The derivations of a handshake succeed on secrets and hashes of 32 bytes.
use kemtls.Common.{◌≡◌, refl, arith, some, [], codes, length, Bytes, Str}
use kemtls.Common.Error.{Result, ok}
use kemtls.Crypto.KeySchedule.Secrets.{
  hkdf_expand_label-length, derive_application_traffic_secrets-length,
}
use kemtls.Crypto.Primitives.{Hash, HashLaws}
use kemtls.Encoding.{base64url_encode}
use kemtls.Exporter.{derive_exporter_secret_total}
use kemtls.Handshake.{application_secrets, finish_session}
use kemtls.Session.{KemtlsSession}

-- The keys that a session is given.
pub record Keys : Type 0 where
  pub client : Bytes
  pub server : Bytes
  pub client_iv : Bytes
  pub server_iv : Bytes
  pub exporter : Bytes
  pub session_binding : Str
  pub refresh_binding : Str

abbrev pub keyed : Keys → KemtlsSession → KemtlsSession
keyed keys session = record session {
  client_app_secret = some keys.client;
  server_app_secret = some keys.server;
  client_write_key = some keys.client;
  client_write_iv = some keys.client_iv;
  server_write_key = some keys.server;
  server_write_iv = some keys.server_iv;
  exporter_secret = some keys.exporter;
  session_binding_id = some keys.session_binding;
  refresh_binding_id = some keys.refresh_binding;
}

module _ (h : Hash) where
  -- The keys that a handshake secret and a transcript hash give, whatever session they are for.
  pub record Derived (secret t3 : Bytes) : Type 0 where
    pub keys : Keys
    pub secrets :
        application_secrets h (some secret) t3 ≡ ok (keys.client, keys.server, keys.exporter)
    pub finished :
        (made : Result KemtlsSession) (session : KemtlsSession)
        → made ≡ ok session
        → finish_session h keys.client keys.server keys.exporter made ≡ ok (keyed keys session)
    pub client_length : length keys.client ≡ 32
    pub server_length : length keys.server ≡ 32
    pub client_iv_length : length keys.client_iv ≡ 12
    pub server_iv_length : length keys.server_iv ≡ 12

  pub derive :
      HashLaws h → (secret t3 : Bytes) → length secret ≡ 32 → length t3 ≡ 32 → Derived secret t3
  unfolding application_secrets finish_session
  derive laws secret t3 n m =
      let (client, server, e, cn, sn) =
        derive_application_traffic_secrets-length h laws secret t3 n m in
      let (exporter, sb, rb, e', f, g, xn, k, l) =
        derive_exporter_secret_total h laws secret t3 m in
      let (client_iv, i, ci) =
        hkdf_expand_label-length h laws client (codes "iv") [] 12 (omega arith) (omega arith)
          (omega arith, omega arith) in
      let (server_iv, j, si) =
        hkdf_expand_label-length h laws server (codes "iv") [] 12 (omega arith) (omega arith)
          (omega arith, omega arith) in
      record {
        keys = record {
          client = client;
          server = server;
          client_iv = client_iv;
          server_iv = server_iv;
          exporter = exporter;
          session_binding = base64url_encode sb;
          refresh_binding = base64url_encode rb;
        };
        secrets = rw (e, e') refl;
        finished = λ made session same. rw (i, j, same, f, g) refl;
        client_length = cn;
        server_length = sn;
        client_iv_length = ci;
        server_iv_length = si;
      }

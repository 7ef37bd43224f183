-- ===== src/Handshake/Facade.antt =====
-- `KEMTLSHandshake` of kemtls/handshake.py and `KeyDerivation` of crypto/key_schedule.py (under src),
-- the older interface. The client's key pair, the session id and the coins are arguments.
use kemtls.Common.{not, Option, none, some, List, [], ◌∷◌, ◌++◌, str_eq, codes, Bytes, Str}
use kemtls.Common.Error.{Error, value_error, Result, ok, raise_if}
use kemtls.Common.Error
use kemtls.Common.Action.{Action, lift, modify, ◌>>=◌, ◌>>◌, pure}
use kemtls.Common.Json.{Json, text, Members, nothing, member, get_item, Python}
use kemtls.Certs.{decode_text}
use kemtls.Crypto.Kem.{generate_keypair, encapsulate, decapsulate}
use kemtls.Crypto.KeySchedule.{
  hash_len, hkdf_expand_label, derive_handshake_secret, derive_handshake_traffic_secrets,
  derive_finished_keys, derive_application_traffic_secrets,
}
use kemtls.Crypto.Primitives.{Hash, Kem}
use kemtls.Handshake.{bytes_of, bytes_value}

-- The dictionary of `derive_session_keys`; each pair is the client's and the server's.
pub record SessionKeys : Type 0 where
  pub session_key : Bytes
  pub pop_key : Bytes
  pub handshake_traffic : Bytes × Bytes
  pub finished : Bytes × Bytes
  pub application_traffic : Bytes × Bytes

unfoldable pub derive_session_keys : Hash → List Bytes → Bytes → Result SessionKeys
derive_session_keys h shared_secrets transcript_hash =
    Error.◌>>=◌ (derive_handshake_secret h shared_secrets) λ secret.
      Error.◌>>=◌ (derive_handshake_traffic_secrets h secret transcript_hash) λ traffic.
        Error.◌>>=◌ (derive_finished_keys h traffic.0 traffic.1) λ finished.
          Error.◌>>=◌ (derive_application_traffic_secrets h secret transcript_hash) λ application.
            Error.◌>>=◌ (hkdf_expand_label h secret (codes "session") transcript_hash hash_len)
              λ session.
                Error.◌>>=◌ (hkdf_expand_label h secret (codes "pop") transcript_hash hash_len)
                  λ pop. ok (record {
                    session_key = session;
                    pop_key = pop;
                    handshake_traffic = traffic;
                    finished = finished;
                    application_traffic = application;
                  })

unfoldable pub derive_single_key : Hash → Bytes → Bytes → Result Bytes
derive_single_key h secret context = hkdf_expand_label h secret (codes "single") context hash_len

pub record KemtlsHandshake : Type 0 where
  pub transcript : Bytes
  pub session_keys : Option SessionKeys
  pub session_id : Option Json
  pub server_ephemeral_sk : Option Bytes
  pub server_longterm_sk : Option Bytes
  pub client_ephemeral_sk : Option Bytes
  pub client_ephemeral_pk : Option Bytes

abbrev pub new_handshake : KemtlsHandshake
new_handshake = record {
  transcript = [];
  session_keys = none;
  session_id = none;
  server_ephemeral_sk = none;
  server_longterm_sk = none;
  client_ephemeral_sk = none;
  client_ephemeral_pk = none;
}

abbrev pub old_server_hello : (eph_pk lt_pk : Bytes) (session_id : Str) → Members
old_server_hello eph_pk lt_pk session_id = member (codes "type") (text (codes "ServerHello")) (
    member (codes "server_ephemeral_pk") (bytes_value eph_pk) (
      member (codes "server_longterm_pk") (bytes_value lt_pk)
        (member (codes "session_id") (text session_id) nothing)))

abbrev pub old_key_exchange : (ct_eph ct_lt client_pk : Bytes) (session_id : Json) → Members
old_key_exchange ct_eph ct_lt client_pk session_id =
    member (codes "type") (text (codes "ClientKeyExchange")) (
      member (codes "ciphertext_ephemeral") (bytes_value ct_eph) (
        member (codes "ciphertext_longterm") (bytes_value ct_lt) (
          member (codes "client_ephemeral_pk") (bytes_value client_pk)
            (member (codes "session_id") session_id nothing))))

-- `base64url_decode(message[key])`
unfoldable pub decode_item : Str → Members → Result Bytes
decode_item key message = Error.◌>>=◌ (get_item key message) decode_text

-- `self.transcript += …`
abbrev pub extend : Bytes → Action KemtlsHandshake (Unit {0})
extend bytes = modify (λ s. record s { transcript = s.transcript ++ bytes })

module _ (p : Python) (h : Hash) (k : Kem) where
  unfoldable pub server_init_handshake :
      (coins lt_sk lt_pk : Bytes) (session_id : Str) → Action KemtlsHandshake Members
  server_init_handshake coins lt_sk lt_pk session_id = do
    pair ← lift (generate_keypair k coins)
    modify (λ s. record s {
      server_ephemeral_sk = some pair.1;
      server_longterm_sk = some lt_sk;
      session_id = some (text session_id);
    })
    extend (p.dumps (old_server_hello pair.0 lt_pk session_id))
    pure (old_server_hello pair.0 lt_pk session_id)

  unfoldable pub server_process_client_key_exchange : Members → Action KemtlsHandshake SessionKeys
  server_process_client_key_exchange message s =
      (do
        extend (p.dumps message)
        ct_eph ← lift (decode_item (codes "ciphertext_ephemeral") message)
        ct_lt ← lift (decode_item (codes "ciphertext_longterm") message)
        eph_sk ← lift (bytes_of s.server_ephemeral_sk)
        ss_eph ← lift (decapsulate k eph_sk ct_eph)
        lt_sk ← lift (bytes_of s.server_longterm_sk)
        ss_lt ← lift (decapsulate k lt_sk ct_lt)
        client_pk ← lift (decode_item (codes "client_ephemeral_pk") message)
        modify (λ s. record s { client_ephemeral_pk = some client_pk })
        keys ← lift (
            derive_session_keys h (ss_eph ∷ ss_lt ∷ [])
              (h.sha256 (s.transcript ++ p.dumps message)))
        modify (λ s. record s { session_keys = some keys })
        pure keys)
        s

  unfoldable pub client_process_server_hello :
      (eph_coins lt_coins : Bytes)
      → (client_pair : Bytes × Bytes) → Members
      → (trusted_longterm_pk : Bytes) → Action KemtlsHandshake (Members × Bytes)
  client_process_server_hello eph_coins lt_coins client_pair hello trusted_longterm_pk s =
      (do
        extend (p.dumps hello)
        eph_pk ← lift (decode_item (codes "server_ephemeral_pk") hello)
        lt_pk ← lift (decode_item (codes "server_longterm_pk") hello)
        lift (
            raise_if (not (str_eq lt_pk trusted_longterm_pk))
              (value_error "Server authentication failed: untrusted long-term key"))
        session_id ← lift (get_item (codes "session_id") hello)
        modify (λ s. record s { session_id = some session_id })
        eph ← lift (encapsulate k eph_pk eph_coins)
        lt ← lift (encapsulate k lt_pk lt_coins)
        modify (λ s. record s {
          client_ephemeral_pk = some client_pair.0;
          client_ephemeral_sk = some client_pair.1;
        })
        extend (p.dumps (old_key_exchange eph.0 lt.0 client_pair.0 session_id))
        keys ← lift (
            derive_session_keys h (eph.1 ∷ lt.1 ∷ []) (
              h.sha256 (
                (s.transcript ++ p.dumps hello)
                ++ p.dumps (old_key_exchange eph.0 lt.0 client_pair.0 session_id))))
        modify (λ s. record s { session_keys = some keys })
        pure (old_key_exchange eph.0 lt.0 client_pair.0 session_id, client_pair.0))
        s

-- ===== src/Handshake/ServerHello.antt =====
-- What the client has checked and derived when it accepts a ServerHello.
use kemtls.Common.{
  ℕ, ◌≡◌, sym, ap, ◌∙◌, true, not, some, [], ◌∷◌, ◌++◌, codes, take, Bytes, not-false,
}
use kemtls.Common.Error.{ok, or_raise_inv, raise_if, raise_if_inv}
use kemtls.Common.Action.{lift_inv, pure_inv}
use kemtls.Common.Json.{
  Json, object, Members, find, as_dict, is_text, as_object, as_object_inv, get_item, Python,
  deserialize_message,
}
use kemtls.Crypto.Kem.{encapsulate}
use kemtls.Crypto.KeySchedule.{compute_transcript_hash, derive_handshake_secret}
use kemtls.Crypto.Primitives.{Hash, Kem, Signature}
use kemtls.Handshake.{decode_bytes_field, encode_client_key_exchange, finished_keys}
use kemtls.Handshake.Trust.{Trusted, authenticate_inv}
use kemtls.Handshake.Client.{
  ClientHandshake, authenticate, exchange_keys, derive_client_keys, process_server_hello,
}
use kemtls.Session.{KemtlsSession, new_session}

pub loaded_inv :
    (p : Python) (msg : Bytes) {value : Json} {m : Members}
    → deserialize_message p msg ≡ ok value
    → as_dict value ≡ ok m
    → p.loads msg ≡ some (object m)
unfolding deserialize_message
loaded_inv p msg {value = value} h g =
    or_raise_inv (p.loads msg) _ h
    ∙ ap some (as_object_inv value (or_raise_inv (as_object (some value)) _ g))

module _ (p : Python) (d : Signature) (h : Hash) (k : Kem) where
  -- The Finished keys of the client and what they come from.
  pub record ClientKeys (eph_secret lt_secret : Bytes) (sh : Members) (key_id : Json)
      (c : ClientHandshake) (session : KemtlsSession) (c' : ClientHandshake) : Type 0 where
    pub secret : Bytes
    pub derived : derive_handshake_secret h (eph_secret ∷ lt_secret ∷ []) ≡ ok secret
    pub client_fin : Bytes
    pub server_fin : Bytes
    pub keys :
        finished_keys h secret (compute_transcript_hash h (take 2 c.transcript))
        ≡ ok (client_fin, server_fin)
    pub session_id : Json
    pub has_session_id : get_item (codes "session_id") sh ≡ ok session_id
    pub mode : Json
    pub has_mode : get_item (codes "mode") sh ≡ ok mode
    pub session_eq : session ≡ new_session session_id c.expected_identity mode key_id
    pub state_eq : c' ≡ record c {
      handshake_secret = some secret;
      client_fin_key = some client_fin;
      server_fin_key = some server_fin;
    }

  derive_client_keys_inv :
      (cke0 eph_secret lt_secret : Bytes) (sh : Members) (key_id : Json) (c : ClientHandshake)
      {cke : Bytes} {session : KemtlsSession} {c' : ClientHandshake}
      → derive_client_keys p d h k cke0 eph_secret lt_secret sh key_id c ≡ (ok (cke, session), c')
      → (cke ≡ cke0) × ClientKeys eph_secret lt_secret sh key_id c session c'
  unfolding derive_client_keys
  derive_client_keys_inv cke0 eph_secret lt_secret sh key_id c e =
      let (secret, derived, h1) =
        lift_inv (derive_handshake_secret h (eph_secret ∷ lt_secret ∷ [])) _ _ e in
      let t1 = compute_transcript_hash h (take 2 c.transcript) in
      let (fin_keys, keys, h2) = lift_inv (finished_keys h secret t1) _ _ h1 in
      let (session_id, f, h3) = lift_inv (get_item (codes "session_id") sh) _ _ h2 in
      let (mode, g, h4) = lift_inv (get_item (codes "mode") sh) _ _ h3 in
      let (result_eq, object_eq) = pure_inv h4 in
      (
        ap (λ (x : Bytes × KemtlsSession). x.0) (sym result_eq),
        record {
          secret = secret;
          derived = derived;
          client_fin = fin_keys.0;
          server_fin = fin_keys.1;
          keys = keys;
          session_id = session_id;
          has_session_id = f;
          mode = mode;
          has_mode = g;
          session_eq = ap (λ (x : Bytes × KemtlsSession). x.1) (sym result_eq);
          state_eq = sym object_eq;
        },
      )

  -- The two ciphertexts of the client and its keys.
  pub record Exchanged (eph_coins lt_coins eph_pk lt_pk : Bytes) (key_id : Json) (sh : Members)
      (c : ClientHandshake) (cke : Bytes) (session : KemtlsSession) (c' : ClientHandshake)
      : Type 0 where
    pub ct_eph : Bytes
    pub ss_eph : Bytes
    pub eph_made : encapsulate k eph_pk eph_coins ≡ ok (ct_eph, ss_eph)
    pub ct_lt : Bytes
    pub ss_lt : Bytes
    pub lt_made : encapsulate k lt_pk lt_coins ≡ ok (ct_lt, ss_lt)
    pub cke_eq : cke ≡ encode_client_key_exchange p ct_eph ct_lt
    pub client_keys :
        ClientKeys ss_eph ss_lt sh key_id
          (record c {
            ss_eph = some ss_eph;
            ss_lt = some ss_lt;
            transcript = c.transcript ++ encode_client_key_exchange p ct_eph ct_lt ∷ [];
          })
          session
          c'

  exchange_keys_inv :
      (eph_coins lt_coins eph_pk : Bytes) (trusted : Bytes × Json) (sh : Members)
      (c : ClientHandshake) {cke : Bytes} {session : KemtlsSession} {c' : ClientHandshake}
      → exchange_keys p d h k eph_coins lt_coins eph_pk trusted sh c ≡ (ok (cke, session), c')
      → Exchanged eph_coins lt_coins eph_pk trusted.0 trusted.1 sh c cke session c'
  unfolding exchange_keys
  exchange_keys_inv eph_coins lt_coins eph_pk trusted sh c e =
      let (eph, a, h1) = lift_inv (encapsulate k eph_pk eph_coins) _ _ e in
      let (lt, b, h2) = lift_inv (encapsulate k trusted.0 lt_coins) _ _ h1 in
      let (same, client_keys) = derive_client_keys_inv _ eph.1 lt.1 sh trusted.1 _ h2 in
      record {
        ct_eph = eph.0;
        ss_eph = eph.1;
        eph_made = a;
        ct_lt = lt.0;
        ss_lt = lt.1;
        lt_made = b;
        cke_eq = same;
        client_keys = client_keys;
      }

  pub record Accepted (now : ℕ) (eph_coins lt_coins : Bytes) (c : ClientHandshake) (msg cke : Bytes)
      (session : KemtlsSession) (c' : ClientHandshake) : Type 0 where
    pub sh : Members
    pub loaded : p.loads msg ≡ some (object sh)
    pub version : is_text (find (codes "version") sh) (codes "KEMTLS/1.0") ≡ true
    pub eph_pk : Bytes
    pub has_eph_pk : decode_bytes_field (codes "eph_pk") sh ≡ ok eph_pk
    pub lt_pk : Bytes
    pub key_id : Json
    pub authenticated : authenticate p d now c sh ≡ ok (lt_pk, key_id)
    pub trusted : Trusted p d now c sh lt_pk key_id
    pub exchanged :
        Exchanged eph_coins lt_coins eph_pk lt_pk key_id sh
          (record c { transcript = c.transcript ++ msg ∷ [] })
          cke
          session
          c'

  -- A ServerHello that the client accepts is an object with the protocol's version. Its long-term key
  -- is that of a certificate that is valid now for the expected identity under the client's CA key,
  -- in baseline mode, or that of an entry of the client's store for the expected identity, in
  -- pre-distributed mode. The handshake secret comes from secrets that were encapsulated to the
  -- ephemeral key of the message and to this long-term key, in this order.
  pub process_server_hello-Accepted :
      (now : ℕ) (eph_coins lt_coins msg : Bytes) (c : ClientHandshake) (cke : Bytes)
      (session : KemtlsSession) (c' : ClientHandshake)
      → process_server_hello p d h k now eph_coins lt_coins msg c ≡ (ok (cke, session), c')
      → Accepted now eph_coins lt_coins c msg cke session c'
  unfolding process_server_hello
  process_server_hello-Accepted now eph_coins lt_coins msg c cke session c' e =
      let (value, a, h1) = lift_inv (deserialize_message p msg) _ c e in
      let (sh, b, h2) = lift_inv (as_dict value) _ _ h1 in
      let right = is_text (find (codes "version") sh) (codes "KEMTLS/1.0") in
      let (u, v, h3) = lift_inv (raise_if (not right) _) _ _ h2 in
      let (eph_pk, f, h4) = lift_inv (decode_bytes_field (codes "eph_pk") sh) _ _ h3 in
      let (trusted, g, h5) = lift_inv (authenticate p d now c sh) _ _ h4 in
      record {
        sh = sh;
        loaded = loaded_inv p msg a b;
        version = not-false right (raise_if_inv (not right) _ v);
        eph_pk = eph_pk;
        has_eph_pk = f;
        lt_pk = trusted.0;
        key_id = trusted.1;
        authenticated = g;
        trusted = authenticate_inv p d now c sh g;
        exchanged = exchange_keys_inv eph_coins lt_coins eph_pk trusted sh _ h5;
      }

-- ===== src/Handshake/FacadeAgreement.antt =====
-- Client and server of the older interface derive the same keys.
use kemtls.Common.{
  ◌≡◌, refl, sym, ap, ◌∙◌, not, some, [], ◌∷◌, ◌++◌, codes, str_eq, str_eq_iff, not-false, Bytes,
  IsBytes,
}
use kemtls.Common.Error.{ok, raise_if, raise_if_inv, ok_injective}
use kemtls.Common.Action.{lift_inv, lift-eq, pure_inv}
use kemtls.Common.Json.{Json, Members, find, get_item, Python}
use kemtls.Crypto.Kem.{
  KeyPair, encapsulate, decapsulate, decapsulate-encapsulate, encapsulate-IsBytes,
}
use kemtls.Crypto.Primitives.{Hash, Kem}
use kemtls.Encoding.RoundTrip.{base64url_decode-base64url_encode}
use kemtls.Handshake.{bytes_of}
use kemtls.Handshake.Facade.{
  SessionKeys, KemtlsHandshake, derive_session_keys, old_key_exchange, decode_item,
  server_process_client_key_exchange, client_process_server_hello,
}

module _ (p : Python) (h : Hash) (k : Kem) where
  -- What the client has derived.
  record Answered (eph_coins lt_coins : Bytes) (client_pk : Bytes) (hello : Members)
      (trusted : Bytes) (c : KemtlsHandshake) (message : Members) (c' : KemtlsHandshake)
      : Type 0 where
    pub eph_pk : Bytes
    pub has_eph_pk : decode_item (codes "server_ephemeral_pk") hello ≡ ok eph_pk
    pub session_id : Json
    pub ct_eph : Bytes
    pub ss_eph : Bytes
    pub eph_made : encapsulate k eph_pk eph_coins ≡ ok (ct_eph, ss_eph)
    pub ct_lt : Bytes
    pub ss_lt : Bytes
    pub lt_made : encapsulate k trusted lt_coins ≡ ok (ct_lt, ss_lt)
    pub message_eq : message ≡ old_key_exchange ct_eph ct_lt client_pk session_id
    pub keys : SessionKeys
    pub derived :
        derive_session_keys h (ss_eph ∷ ss_lt ∷ []) (
          h.sha256 (
            (c.transcript ++ p.dumps hello)
            ++ p.dumps (old_key_exchange ct_eph ct_lt client_pk session_id)))
        ≡ ok keys
    pub keys_eq : c'.session_keys ≡ some keys

  client_process_server_hello-Answered :
      (eph_coins lt_coins : Bytes) (pair : Bytes × Bytes) (hello : Members) (trusted : Bytes)
      (c : KemtlsHandshake) (message : Members) (pk : Bytes) (c' : KemtlsHandshake)
      → client_process_server_hello p h k eph_coins lt_coins pair hello trusted c
        ≡ (ok (message, pk), c')
      → Answered eph_coins lt_coins pair.0 hello trusted c message c'
  unfolding client_process_server_hello
  client_process_server_hello-Answered eph_coins lt_coins pair hello trusted c message pk c' e =
      let (eph_pk, a, h1) = lift_inv (decode_item (codes "server_ephemeral_pk") hello) _ _ e in
      let (lt_pk, b, h2) = lift_inv (decode_item (codes "server_longterm_pk") hello) _ _ h1 in
      let (u, f, h3) = lift_inv (raise_if (not (str_eq lt_pk trusted)) _) _ _ h2 in
      let (session_id, g, h4) = lift_inv (get_item (codes "session_id") hello) _ _ h3 in
      let (eph, i, h5) = lift_inv (encapsulate k eph_pk eph_coins) _ _ h4 in
      let (lt, j, h6) = lift_inv (encapsulate k lt_pk lt_coins) _ _ h5 in
      let (keys, l, h7) = lift_inv (derive_session_keys h (eph.1 ∷ lt.1 ∷ []) _) _ _ h6 in
      let (result_eq, object_eq) = pure_inv h7 in
      let same : lt_pk ≡ trusted =
        (str_eq_iff lt_pk trusted).0
          (not-false (str_eq lt_pk trusted) (raise_if_inv (not (str_eq lt_pk trusted)) _ f)) in
      record {
        eph_pk = eph_pk;
        has_eph_pk = a;
        session_id = session_id;
        ct_eph = eph.0;
        ss_eph = eph.1;
        eph_made = i;
        ct_lt = lt.0;
        ss_lt = lt.1;
        lt_made = ap (λ (pk : Bytes). encapsulate k pk lt_coins) (sym same) ∙ j;
        message_eq = ap (λ (x : Members × Bytes). x.0) (sym result_eq);
        keys = keys;
        derived = l;
        keys_eq = ap (λ (s : KemtlsHandshake). s.session_keys) (sym object_eq);
      }

  decoded :
      (ct_eph ct_lt client_pk : Bytes) (session_id : Json)
      → IsBytes ct_eph
      → IsBytes ct_lt
      → IsBytes client_pk
      → (decode_item
            (codes "ciphertext_ephemeral")
            (old_key_exchange ct_eph ct_lt client_pk session_id)
          ≡ ok ct_eph)
        × (decode_item
              (codes "ciphertext_longterm")
              (old_key_exchange ct_eph ct_lt client_pk session_id)
            ≡ ok ct_lt)
        × (decode_item
              (codes "client_ephemeral_pk")
              (old_key_exchange ct_eph ct_lt client_pk session_id)
            ≡ ok client_pk)
  unfolding decode_item get_item find str_eq
  decoded ct_eph ct_lt client_pk session_id a b c = (
    base64url_decode-base64url_encode ct_eph a,
    base64url_decode-base64url_encode ct_lt b,
    base64url_decode-base64url_encode client_pk c,
  )

  -- A client that accepts the hello of a server, whose keys belong to the ephemeral key in the hello
  -- and to the trusted long-term key, answers with a message from which the server derives, without
  -- an error, the very session keys that the client has derived; if the client's public key is bytes
  -- and the server's transcript ends with the hello.
  pub server_process_client_key_exchange-client_process_server_hello :
      (eph_coins lt_coins : Bytes) (pair : Bytes × Bytes) (hello : Members)
      (trusted eph_pk eph_sk lt_sk : Bytes) (c : KemtlsHandshake) (message : Members) (pk : Bytes)
      (c' s : KemtlsHandshake)
      → client_process_server_hello p h k eph_coins lt_coins pair hello trusted c
        ≡ (ok (message, pk), c')
      → IsBytes pair.0
      → decode_item (codes "server_ephemeral_pk") hello ≡ ok eph_pk
      → KeyPair k eph_pk eph_sk
      → KeyPair k trusted lt_sk
      → s.server_ephemeral_sk ≡ some eph_sk
      → s.server_longterm_sk ≡ some lt_sk
      → s.transcript ≡ c.transcript ++ p.dumps hello
      → (keys : SessionKeys) × (s' : KemtlsHandshake) × (server_process_client_key_exchange p h k
            message s
          ≡ (ok keys, s'))
        × (c'.session_keys ≡ some keys)
        × (s'.session_keys ≡ some keys)
  unfolding server_process_client_key_exchange
  server_process_client_key_exchange-client_process_server_hello eph_coins lt_coins pair hello
        trusted eph_pk eph_sk lt_sk c message pk c' s e bytes has_eph eph_pair lt_pair se sl st =
      let w =
        client_process_server_hello-Answered eph_coins lt_coins pair hello trusted c message pk c'
          e in
      let m = old_key_exchange w.ct_eph w.ct_lt pair.0 w.session_id in
      let eph_same : w.eph_pk ≡ eph_pk = ok_injective (sym w.has_eph_pk ∙ has_eph) in
      let eph_made : encapsulate k eph_pk eph_coins ≡ ok (w.ct_eph, w.ss_eph) =
        ap (λ (b : Bytes). encapsulate k b eph_coins) (sym eph_same) ∙ w.eph_made in
      let (de, dl, dc) =
        decoded w.ct_eph w.ct_lt pair.0 w.session_id
          (encapsulate-IsBytes k eph_pk eph_sk eph_coins w.ct_eph w.ss_eph eph_pair eph_made)
          (encapsulate-IsBytes k trusted lt_sk lt_coins w.ct_lt w.ss_lt lt_pair w.lt_made) bytes in
      let t = s.transcript ++ p.dumps m in
      (
        w.keys,
        record s { transcript = t; client_ephemeral_pk = some pair.0; session_keys = some w.keys },
        ap (λ (n : Members). server_process_client_key_exchange p h k n s) w.message_eq
            ∙ lift-eq (decode_item (codes "ciphertext_ephemeral") m) _ _ de
            ∙ lift-eq (decode_item (codes "ciphertext_longterm") m) _ _ dl
            ∙ lift-eq (bytes_of s.server_ephemeral_sk) _ _ (ap bytes_of se)
            ∙ lift-eq (decapsulate k eph_sk w.ct_eph) _ _ (
                decapsulate-encapsulate k eph_pk eph_sk eph_coins w.ct_eph w.ss_eph eph_pair
                  eph_made)
            ∙ lift-eq (bytes_of s.server_longterm_sk) _ _ (ap bytes_of sl)
            ∙ lift-eq (decapsulate k lt_sk w.ct_lt) _ _
                (decapsulate-encapsulate k trusted lt_sk lt_coins w.ct_lt w.ss_lt lt_pair w.lt_made)
            ∙ lift-eq (decode_item (codes "client_ephemeral_pk") m) _ _ dc
            ∙ lift-eq (derive_session_keys h (w.ss_eph ∷ w.ss_lt ∷ []) (h.sha256 t)) _ _ (
                ap
                  (λ (b : Bytes).
                    derive_session_keys h (w.ss_eph ∷ w.ss_lt ∷ []) (h.sha256 (b ++ p.dumps m)))
                  st
                ∙ w.derived),
        w.keys_eq,
        refl,
      )

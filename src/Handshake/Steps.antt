-- ===== src/Handshake/Steps.antt =====
-- The steps of a handshake on messages that its other party made.
use kemtls.Common.{
  ◌≡◌, refl, sym, ap, ◌∙◌, some, List, [], ◌∷◌, ◌++◌, codes, take, Bytes, IsBytes, Str, str_eq,
}
use kemtls.Common.Error.{ok}
use kemtls.Common.Action.{lift_inv, pure_inv, lift-eq}
use kemtls.Common.Json.{find, as_dict, Python, deserialize_message}
use kemtls.Crypto.Kem.{decapsulate}
use kemtls.Crypto.KeySchedule.{compute_transcript_hash, derive_handshake_secret}
use kemtls.Crypto.Primitives.{Hash, Kem}
use kemtls.Handshake.{
  decode_bytes_field, client_key_exchange_message, encode_finished_message, hmac_sha256,
  finished_keys,
}
use kemtls.Handshake.Messages.{Reloads, deserialize-dumps, decode_bytes_field-reloaded}
use kemtls.Handshake.Server.{
  ServerHandshake, server_hello_message, negotiate, modes_of, process_client_hello,
  derive_server_keys, process_client_key_exchange,
}

-- The ServerHello that the server sends, and its transcript after it.
pub process_client_hello_inv :
    (p : Python) (ch : Bytes) (s : ServerHandshake) (sh : Bytes) (s' : ServerHandshake)
    → process_client_hello p ch s ≡ (ok sh, s')
    → (mode : Str) × (sh ≡ p.dumps (server_hello_message s mode))
      × (s' ≡ record s { transcript = (s.transcript ++ ch ∷ []) ++ sh ∷ [] })
unfolding process_client_hello
process_client_hello_inv p ch s sh s' e =
    let (value, a, h1) = lift_inv (deserialize_message p ch) _ _ e in
    let (m, b, h2) = lift_inv (as_dict value) _ _ h1 in
    let (mode, c, h3) = lift_inv (negotiate s (modes_of (find (codes "modes") m))) _ _ h2 in
    let (result_eq, object_eq) = pure_inv h3 in
    (
      mode,
      sym result_eq,
      sym object_eq
          ∙ ap (λ (b : Bytes). record s { transcript = (s.transcript ++ ch ∷ []) ++ b ∷ [] })
              result_eq,
    )

module _ (p : Python) (h : Hash) (k : Kem) where
  -- The server once its keys are derived and its Finished is sent.
  abbrev pub with_server_keys :
      (secret client_fin server_fin sf : Bytes) → ServerHandshake → ServerHandshake
  with_server_keys secret client_fin server_fin sf s = record s {
    handshake_secret = some secret;
    client_fin_key = some client_fin;
    server_fin_key = some server_fin;
    transcript = s.transcript ++ sf ∷ [];
  }

  abbrev pub finished_of : (server_fin : Bytes) → List Bytes → Bytes
  finished_of server_fin transcript =
      encode_finished_message p (codes "ServerFinished")
        (h.hmac server_fin (compute_transcript_hash h (take 2 transcript)))

  derive_server_keys-eq :
      (eph_secret lt_secret secret client_fin server_fin : Bytes) (s : ServerHandshake)
      → derive_handshake_secret h (eph_secret ∷ lt_secret ∷ []) ≡ ok secret
      → finished_keys h secret (compute_transcript_hash h (take 2 s.transcript))
        ≡ ok (client_fin, server_fin)
      → derive_server_keys p h k eph_secret lt_secret s ≡ (
        ok (finished_of server_fin s.transcript),
        with_server_keys secret client_fin server_fin (finished_of server_fin s.transcript) s,
      )
  unfolding derive_server_keys hmac_sha256
  derive_server_keys-eq eph_secret lt_secret secret client_fin server_fin s a b =
      lift-eq (derive_handshake_secret h (eph_secret ∷ lt_secret ∷ [])) _ _ a
      ∙ lift-eq (finished_keys h secret (compute_transcript_hash h (take 2 s.transcript))) _ _ b

  -- The server answers a ClientKeyExchange whose ciphertexts it decapsulates.
  pub process_client_key_exchange-eq :
      (ct_eph ct_lt ss_eph ss_lt secret client_fin server_fin : Bytes) (s : ServerHandshake)
      → Reloads p (client_key_exchange_message ct_eph ct_lt)
      → IsBytes ct_eph
      → IsBytes ct_lt
      → decapsulate k s.eph_sk ct_eph ≡ ok ss_eph
      → decapsulate k s.server_lt_sk ct_lt ≡ ok ss_lt
      → derive_handshake_secret h (ss_eph ∷ ss_lt ∷ []) ≡ ok secret
      → (transcript : List Bytes)
      → transcript ≡ s.transcript ++ p.dumps (client_key_exchange_message ct_eph ct_lt) ∷ []
      → finished_keys h secret (compute_transcript_hash h (take 2 transcript))
        ≡ ok (client_fin, server_fin)
      → process_client_key_exchange p h k (p.dumps (client_key_exchange_message ct_eph ct_lt)) s ≡ (
        ok (finished_of server_fin transcript),
        with_server_keys secret client_fin server_fin
            (finished_of server_fin transcript)
            (record s { transcript = transcript }),
      )
  unfolding process_client_key_exchange find str_eq
  process_client_key_exchange-eq ct_eph ct_lt ss_eph ss_lt secret client_fin server_fin s r eb lb ed
        ld derived transcript whole keys =
      let m = client_key_exchange_message ct_eph ct_lt in
      lift-eq (deserialize_message p (p.dumps m)) _ _ (deserialize-dumps p m r)
      ∙ lift-eq (decode_bytes_field (codes "ct_ephemeral") r.reloaded) _ _
          (decode_bytes_field-reloaded p m r (codes "ct_ephemeral") ct_eph refl eb)
      ∙ lift-eq (decode_bytes_field (codes "ct_longterm") r.reloaded) _ _
          (decode_bytes_field-reloaded p m r (codes "ct_longterm") ct_lt refl lb)
      ∙ lift-eq (decapsulate k s.eph_sk ct_eph) _ _ ed
      ∙ lift-eq (decapsulate k s.server_lt_sk ct_lt) _ _ ld
      ∙ ap (λ (t : List Bytes). derive_server_keys p h k ss_eph ss_lt (record s { transcript = t }))
          (sym whole)
      ∙ derive_server_keys-eq ss_eph ss_lt secret client_fin server_fin
          (record s { transcript = transcript }) derived keys

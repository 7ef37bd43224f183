-- ===== src/Examples/Older.antt =====
-- The channel, and a handshake of the older interface.
use kemtls.Common.{◌≡◌, ◌==◌, refl, arith, some, [], if◌then◌else◌, codes, str_eq, Bytes, to_bytes}
use kemtls.Common.Error.{value_error, Result, ok, raised}
use kemtls.Common.Json.{text, Members, nothing, find, get_item}
use kemtls.Channel.{Channel, send, receive}
use kemtls.Channel.Delivery.{receive-send}
use kemtls.Crypto.Aead.{zeros, seal, cipher_encrypt}
use kemtls.Crypto.Aead.Nonce.{zeros-IsBytes}
use kemtls.Crypto.Kem.{encapsulate}
use kemtls.Crypto.KeySchedule.{
  concat, concat_checked, derive_handshake_secret, derive_handshake_traffic_secrets,
  derive_finished_keys, derive_pair, derive_application_traffic_secrets, hkdf_expand_label,
  hkdf_label, hkdf_expand, hkdf_loop,
}
use kemtls.Encoding.{
  base64url_encode, base64url_decode, digit, is_base64url_char, matches_pattern, digit_value,
  next_digit, padding, finish, b64_loop,
}
use kemtls.Encoding.RoundTrip.{base64url_decode-base64url_encode}
use kemtls.Examples.Values.{toy_cipher, toy_cipher_laws}
use kemtls.Examples.Wire.{wire_python, wire_hash, wire_kem, wire_pair}
use kemtls.Handshake.Facade.{
  SessionKeys, KemtlsHandshake, new_handshake, derive_session_keys, old_server_hello, decode_item,
  server_process_client_key_exchange, client_process_server_hello,
}
use kemtls.Handshake.FacadeAgreement.{
  server_process_client_key_exchange-client_process_server_hello,
}

abbrev end_of_channel : Channel
end_of_channel = record {
  write_cipher = zeros 32;
  read_cipher = zeros 32;
  write_seq = 3;
  read_seq = 3;
}

abbrev first_of : {A : Type 0} → Result A → A → A
first_of (ok a) b = a
first_of (raised e) b = b

abbrev sent_message : Bytes
sent_message = first_of (send toy_cipher (zeros 12) (codes "GET") end_of_channel).0 []

receive-send_example : receive toy_cipher sent_message end_of_channel ≡ (
    if end_of_channel.write_seq == end_of_channel.read_seq
    then (ok (codes "GET"), record end_of_channel { read_seq = 4 })
    else (raised (value_error "Sequence mismatch"), end_of_channel))
unfolding send cipher_encrypt seal zeros to_bytes
receive-send_example =
    receive-send toy_cipher toy_cipher_laws (zeros 12) (codes "GET") end_of_channel sent_message
      (record end_of_channel { write_seq = 4 }) end_of_channel refl refl

abbrev old_hello : Members
old_hello = old_server_hello (zeros 1184) (zeros 1184) (codes "session")

abbrev old_server : KemtlsHandshake
old_server = record new_handshake {
  server_ephemeral_sk = some (zeros 2400);
  server_longterm_sk = some (zeros 2400);
  session_id = some (text (codes "session"));
  transcript = wire_python.dumps old_hello;
}

abbrev old_answer : Result (Members × Bytes) × KemtlsHandshake
old_answer =
    client_process_server_hello wire_python wire_hash wire_kem [] [] (codes "pk", codes "sk")
      old_hello (zeros 1184) new_handshake

abbrev old_exchange : Members × Bytes
old_exchange = first_of old_answer.0 (nothing, [])

old_answered : old_answer ≡ (ok old_exchange, old_answer.1)
unfolding client_process_server_hello decode_item get_item find str_eq base64url_encode
    base64url_decode digit is_base64url_char matches_pattern digit_value next_digit padding finish
    b64_loop encapsulate zeros derive_session_keys derive_handshake_secret concat_checked concat
    derive_handshake_traffic_secrets derive_finished_keys derive_pair
    derive_application_traffic_secrets hkdf_expand_label hkdf_label hkdf_expand hkdf_loop to_bytes
old_answered = refl

server_process_client_key_exchange-client_process_server_hello_example :
    (keys : SessionKeys) × (s' : KemtlsHandshake) × (server_process_client_key_exchange wire_python
        wire_hash wire_kem old_exchange.0 old_server
      ≡ (ok keys, s'))
    × (old_answer.1.session_keys ≡ some keys)
    × (s'.session_keys ≡ some keys)
unfolding decode_item get_item find str_eq
server_process_client_key_exchange-client_process_server_hello_example =
    server_process_client_key_exchange-client_process_server_hello wire_python wire_hash wire_kem []
      [] (codes "pk", codes "sk") old_hello (zeros 1184) (zeros 1184) (zeros 2400) (zeros 2400)
      new_handshake old_exchange.0 old_exchange.1 old_answer.1 old_server old_answered (omega arith)
      (base64url_decode-base64url_encode (zeros 1184) (zeros-IsBytes 1184)) (wire_pair (zeros 1184))
      (wire_pair (zeros 1184)) refl refl refl

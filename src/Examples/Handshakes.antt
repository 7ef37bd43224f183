-- ===== src/Examples/Handshakes.antt =====
-- A handshake with a pre-distributed key, and certificates.
use kemtls.Common.{◌≡◌, refl, none, some, [], ◌∷◌, ◌++◌, codes, take, str_eq, Bytes}
use kemtls.Common.Error.{Result, ok, raised}
use kemtls.Common.Json.{text, find, deserialize_message}
use kemtls.Crypto.Aead.{zeros}
use kemtls.Crypto.Aead.Nonce.{zeros-IsBytes}
use kemtls.Crypto.KeySchedule.{compute_transcript_hash}
use kemtls.Examples.Values.{toy_signature}
use kemtls.Examples.Wire.{
  wire_python, wire-Reloads, wire_hash, wire_hash_laws, wire_mac_bytes, wire_kem, wire_pair,
}
use kemtls.Handshake.{client_key_exchange_message, finished_message}
use kemtls.Handshake.Agreement.{Completed, handshake-Completed}
use kemtls.Handshake.Client.{ClientHandshake, new_client, client_hello, process_server_hello}
use kemtls.Handshake.Server.{ServerHandshake, process_client_hello}
use kemtls.Handshake.ServerHello.{Accepted, process_server_hello-Accepted}
use kemtls.Pdk.{TrustStore, add_entry}
use kemtls.Common.{to_bytes}
use kemtls.Common.Dict.{get, put, text_eq}
use kemtls.Common.Json.{contained, get_item}
use kemtls.Crypto.Kem.{encapsulate}
use kemtls.Crypto.KeySchedule.{
  concat, concat_checked, derive_handshake_secret, derive_handshake_traffic_secrets,
  derive_finished_keys, derive_pair, hkdf_expand_label, hkdf_label, hkdf_expand, hkdf_loop,
}
use kemtls.Encoding.{
  base64url_encode, base64url_decode, digit, is_base64url_char, matches_pattern, digit_value,
  next_digit, padding, finish, b64_loop,
}
use kemtls.Handshake.{decode_bytes_field, finished_keys}
use kemtls.Handshake.Client.{exchange_keys, derive_client_keys, authenticate}
use kemtls.Crypto.Kem.{decapsulate}
use kemtls.Crypto.KeySchedule.{derive_application_traffic_secrets}
use kemtls.Exporter.{derive_exporter_secret, derive_session_binding_id, derive_refresh_binding_id}
use kemtls.Handshake.{hmac_sha256, application_secrets, finish_session, message_at}
use kemtls.Handshake.Authentic.{
  Authentic, KeyedBy, process_server_finished-Authentic, verify_client_finished-Authentic,
}
use kemtls.Handshake.Client.{finalize_client, process_server_finished, client_finished}
use kemtls.Handshake.Server.{
  process_client_key_exchange, derive_server_keys, finalize_server, verify_client_finished,
}
use kemtls.Handshake.Server.{negotiate, server_hello_message}
use kemtls.Pdk.{resolve_expected_identity, get_entry_by_id}
use kemtls.Common.{◌<◌, ◌^◌, List, leb, length, false, arith}
use kemtls.Socket.Reading.{stream}
use kemtls.Transport.{handshake_frame, over_tcp, client_dialog, server_dialog}
use kemtls.Transport.Framing.{at_chunks}
use kemtls.Transport.Dialogs.{client_dialog-server_dialog}
use kemtls.Session.{KemtlsSession, new_session}

abbrev store : TrustStore
store = add_entry (codes "k1") (codes "server") (zeros 1184) none []

abbrev c0 : ClientHandshake
c0 = new_client (codes "server") none (some store) (codes "pdk") (codes "random")

abbrev s0 : ServerHandshake
s0 = record {
  server_identity = codes "server";
  server_lt_sk = zeros 2400;
  cert = none;
  pdk_key_id = some (codes "k1");
  transcript = [];
  session_id = codes "session";
  eph_pk = zeros 1184;
  eph_sk = zeros 2400;
  handshake_secret = none;
  client_fin_key = none;
  server_fin_key = none;
}

abbrev first_of : {A : Type 0} → Result A → A → A
first_of (ok a) b = a
first_of (raised e) b = b

abbrev pub ch : Bytes
ch = first_of (client_hello wire_python c0).0 []

abbrev c1 : ClientHandshake
c1 = (client_hello wire_python c0).1

abbrev sh : Bytes
sh = first_of (process_client_hello wire_python ch s0).0 []

abbrev s1 : ServerHandshake
s1 = (process_client_hello wire_python ch s0).1

abbrev answer : Result (Bytes × KemtlsSession) × ClientHandshake
answer = process_server_hello wire_python toy_signature wire_hash wire_kem 0 [] [] sh c1

abbrev pub exchange : Bytes × KemtlsSession
exchange = first_of answer.0 ([], new_session (text []) [] (text []) (text []))

said : client_hello wire_python c0 ≡ (ok ch, c1)
unfolding client_hello
said = refl

greeted : process_client_hello wire_python ch s0 ≡ (ok sh, s1)
unfolding client_hello process_client_hello negotiate contained deserialize_message find str_eq
greeted = refl

pub took : answer ≡ (ok exchange, answer.1)
unfolding client_hello process_client_hello negotiate contained deserialize_message find str_eq
    process_server_hello exchange_keys derive_client_keys authenticate resolve_expected_identity
    get_entry_by_id add_entry get put decode_bytes_field encapsulate zeros derive_handshake_secret
    concat_checked concat compute_transcript_hash finished_keys derive_handshake_traffic_secrets
    derive_finished_keys derive_pair hkdf_expand_label hkdf_label hkdf_expand hkdf_loop to_bytes
    server_hello_message get_item base64url_encode base64url_decode digit is_base64url_char
    matches_pattern digit_value next_digit padding finish b64_loop
took = refl

abbrev server_answer : Result Bytes × ServerHandshake
server_answer = process_client_key_exchange wire_python wire_hash wire_kem exchange.0 s1

abbrev sf : Bytes
sf = first_of server_answer.0 []

abbrev client_end : Result KemtlsSession × ClientHandshake
client_end = process_server_finished wire_python wire_hash sf (some exchange.1) answer.1

abbrev confirmation : Result Bytes × ClientHandshake
confirmation = client_finished wire_python wire_hash client_end.1

abbrev pub cf : Bytes
cf = first_of confirmation.0 []

abbrev server_end : Result KemtlsSession × ServerHandshake
server_end = verify_client_finished wire_python wire_hash cf server_answer.1

abbrev at_client : KemtlsSession
at_client = first_of client_end.0 exchange.1

abbrev at_server : KemtlsSession
at_server = first_of server_end.0 exchange.1

client_ended : client_end ≡ (ok at_client, client_end.1)
unfolding client_hello process_client_hello negotiate contained deserialize_message find str_eq
    process_server_hello exchange_keys derive_client_keys authenticate resolve_expected_identity
    get_entry_by_id add_entry get put decode_bytes_field encapsulate zeros derive_handshake_secret
    concat_checked concat compute_transcript_hash finished_keys derive_handshake_traffic_secrets
    derive_finished_keys derive_pair hkdf_expand_label hkdf_label hkdf_expand hkdf_loop to_bytes
    server_hello_message get_item base64url_encode base64url_decode digit is_base64url_char
    matches_pattern digit_value next_digit padding finish b64_loop process_client_key_exchange
    decapsulate derive_server_keys hmac_sha256 process_server_finished finalize_client
    application_secrets derive_application_traffic_secrets derive_exporter_secret message_at
    finish_session derive_session_binding_id derive_refresh_binding_id client_finished
    verify_client_finished finalize_server
client_ended = refl

server_ended : server_end ≡ (ok at_server, server_end.1)
unfolding client_hello process_client_hello negotiate contained deserialize_message find str_eq
    process_server_hello exchange_keys derive_client_keys authenticate resolve_expected_identity
    get_entry_by_id add_entry get put decode_bytes_field encapsulate zeros derive_handshake_secret
    concat_checked concat compute_transcript_hash finished_keys derive_handshake_traffic_secrets
    derive_finished_keys derive_pair hkdf_expand_label hkdf_label hkdf_expand hkdf_loop to_bytes
    server_hello_message get_item base64url_encode base64url_decode digit is_base64url_char
    matches_pattern digit_value next_digit padding finish b64_loop process_client_key_exchange
    decapsulate derive_server_keys hmac_sha256 process_server_finished finalize_client
    application_secrets derive_application_traffic_secrets derive_exporter_secret message_at
    finish_session derive_session_binding_id derive_refresh_binding_id client_finished
    verify_client_finished finalize_server
server_ended = refl

server_answered : server_answer ≡ (ok sf, server_answer.1)
unfolding client_hello process_client_hello negotiate contained deserialize_message find str_eq
    process_server_hello exchange_keys derive_client_keys authenticate resolve_expected_identity
    get_entry_by_id add_entry get put decode_bytes_field encapsulate zeros derive_handshake_secret
    concat_checked concat compute_transcript_hash finished_keys derive_handshake_traffic_secrets
    derive_finished_keys derive_pair hkdf_expand_label hkdf_label hkdf_expand hkdf_loop to_bytes
    server_hello_message get_item base64url_encode base64url_decode digit is_base64url_char
    matches_pattern digit_value next_digit padding finish b64_loop process_client_key_exchange
    decapsulate derive_server_keys hmac_sha256 process_server_finished finalize_client
    application_secrets derive_application_traffic_secrets derive_exporter_secret message_at
    finish_session derive_session_binding_id derive_refresh_binding_id client_finished
    verify_client_finished finalize_server
server_answered = refl

client_confirmed : confirmation ≡ (ok cf, confirmation.1)
unfolding client_hello process_client_hello negotiate contained deserialize_message find str_eq
    process_server_hello exchange_keys derive_client_keys authenticate resolve_expected_identity
    get_entry_by_id add_entry get put decode_bytes_field encapsulate zeros derive_handshake_secret
    concat_checked concat compute_transcript_hash finished_keys derive_handshake_traffic_secrets
    derive_finished_keys derive_pair hkdf_expand_label hkdf_label hkdf_expand hkdf_loop to_bytes
    server_hello_message get_item base64url_encode base64url_decode digit is_base64url_char
    matches_pattern digit_value next_digit padding finish b64_loop process_client_key_exchange
    decapsulate derive_server_keys hmac_sha256 process_server_finished finalize_client
    application_secrets derive_application_traffic_secrets derive_exporter_secret message_at
    finish_session derive_session_binding_id derive_refresh_binding_id client_finished
    verify_client_finished finalize_server
client_confirmed = refl

handshake-Completed_example :
    Completed wire_python toy_signature wire_hash wire_kem exchange.0 exchange.1 answer.1 s1
handshake-Completed_example =
    handshake-Completed wire_python toy_signature wire_hash wire_kem 0 [] [] ch sh exchange.0
      exchange.1 c0 c1 answer.1 s0 s1 wire_hash_laws wire_mac_bytes
      (λ mode. wire-Reloads (server_hello_message s0 mode))
      (λ ct_eph ct_lt. wire-Reloads (client_key_exchange_message ct_eph ct_lt))
      (λ message_type mac. wire-Reloads (finished_message message_type mac)) (zeros-IsBytes 1184)
      (wire_pair (zeros 1184)) (λ hello lt_pk key_id trusted. wire_pair lt_pk) refl refl said
      greeted took

process_server_hello-Accepted_example :
    Accepted wire_python toy_signature wire_hash wire_kem 0 [] [] c1 sh exchange.0 exchange.1
      answer.1
process_server_hello-Accepted_example =
    process_server_hello-Accepted wire_python toy_signature wire_hash wire_kem 0 [] [] sh c1
      exchange.0 exchange.1 answer.1 took

process_server_finished-Authentic_example :
    Authentic wire_python wire_hash sf answer.1.server_fin_key
      (compute_transcript_hash wire_hash (take 2 answer.1.transcript))
    × KeyedBy wire_hash answer.1.handshake_secret
        (compute_transcript_hash wire_hash (answer.1.transcript ++ sf ∷ []))
        at_client
    × (client_end.1 ≡ record answer.1 { transcript = answer.1.transcript ++ sf ∷ [] })
process_server_finished-Authentic_example =
    process_server_finished-Authentic wire_python wire_hash sf (some exchange.1) answer.1 at_client
      client_end.1 client_ended

verify_client_finished-Authentic_example :
    Authentic wire_python wire_hash cf server_answer.1.client_fin_key
      (compute_transcript_hash wire_hash (take 3 server_answer.1.transcript))
    × KeyedBy wire_hash server_answer.1.handshake_secret
        (compute_transcript_hash wire_hash (take 4 (server_answer.1.transcript ++ cf ∷ [])))
        at_server
    × (server_end.1 ≡ record server_answer.1 { transcript = server_answer.1.transcript ++ cf ∷ [] })
verify_client_finished-Authentic_example =
    verify_client_finished-Authentic wire_python wire_hash cf server_answer.1 at_server server_end.1
      server_ended

-- A message in its frame.
abbrev framed : Bytes → Bytes
framed message = first_of (handshake_frame message) []

handshake_frame-framed :
    (message : Bytes) → length message < 65536 → handshake_frame message ≡ ok (framed message)
unfolding handshake_frame
handshake_frame-framed message small =
    let fits : leb (2 ^ 32) (length message) ≡ false = ground arith in rw fits refl

fits :
    (length ch < 65536)
    × (length sh < 65536)
    × (length exchange.0 < 65536)
    × (length sf < 65536)
    × (length cf < 65536)
unfolding client_hello process_client_hello negotiate contained deserialize_message find str_eq
    process_server_hello exchange_keys derive_client_keys authenticate resolve_expected_identity
    get_entry_by_id add_entry get put decode_bytes_field encapsulate zeros derive_handshake_secret
    concat_checked concat compute_transcript_hash finished_keys derive_handshake_traffic_secrets
    derive_finished_keys derive_pair hkdf_expand_label hkdf_label hkdf_expand hkdf_loop to_bytes
    server_hello_message get_item base64url_encode base64url_decode digit is_base64url_char
    matches_pattern digit_value next_digit padding finish b64_loop process_client_key_exchange
    decapsulate derive_server_keys hmac_sha256 process_server_finished finalize_client
    application_secrets derive_application_traffic_secrets derive_exporter_secret message_at
    finish_session derive_session_binding_id derive_refresh_binding_id client_finished
    verify_client_finished finalize_server
fits = (omega arith, omega arith, omega arith, omega arith, omega arith)

abbrev to_client : List Bytes
to_client = framed sh ∷ framed sf ∷ []

abbrev to_server : List Bytes
to_server = framed ch ∷ framed exchange.0 ∷ framed cf ∷ []

client_dialog-server_dialog_example :
    (client_rest server_rest : List Bytes) × (client_dialog wire_python toy_signature wire_hash
        wire_kem 0 [] []
        (at_chunks c0 to_client [])
      ≡ (
        ok (over_tcp at_client),
        at_chunks confirmation.1 client_rest (framed ch ∷ framed exchange.0 ∷ framed cf ∷ []),
      ))
    × (server_dialog wire_python toy_signature wire_hash wire_kem (at_chunks s0 to_server []) ≡ (
      ok (over_tcp at_server),
      at_chunks server_end.1 server_rest (framed sh ∷ framed sf ∷ []),
    ))
    × (stream client_rest ≡ [])
    × (stream server_rest ≡ [])
unfolding client_hello process_client_hello negotiate contained deserialize_message find str_eq
    process_server_hello exchange_keys derive_client_keys authenticate resolve_expected_identity
    get_entry_by_id add_entry get put decode_bytes_field encapsulate zeros derive_handshake_secret
    concat_checked concat compute_transcript_hash finished_keys derive_handshake_traffic_secrets
    derive_finished_keys derive_pair hkdf_expand_label hkdf_label hkdf_expand hkdf_loop to_bytes
    server_hello_message get_item base64url_encode base64url_decode digit is_base64url_char
    matches_pattern digit_value next_digit padding finish b64_loop process_client_key_exchange
    decapsulate derive_server_keys hmac_sha256 process_server_finished finalize_client
    application_secrets derive_application_traffic_secrets derive_exporter_secret message_at
    finish_session derive_session_binding_id derive_refresh_binding_id client_finished
    verify_client_finished finalize_server handshake_frame
client_dialog-server_dialog_example =
    client_dialog-server_dialog wire_python toy_signature wire_hash wire_kem 0 [] [] ch sh
      exchange.0 sf cf (framed ch) (framed sh) (framed exchange.0) (framed sf) (framed cf)
      exchange.1 at_client at_server c0 c1 answer.1 client_end.1 confirmation.1 s0 s1
      server_answer.1 server_end.1 to_client to_server said greeted took server_answered
      client_ended client_confirmed server_ended (handshake_frame-framed ch fits.0)
      (handshake_frame-framed sh fits.1) (handshake_frame-framed exchange.0 fits.2)
      (handshake_frame-framed sf fits.3) (handshake_frame-framed cf fits.4)
      (omega arith, (omega arith, tt)) (omega arith, (omega arith, (omega arith, tt))) refl refl

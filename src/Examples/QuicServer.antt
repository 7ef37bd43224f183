-- ===== src/Examples/QuicServer.antt =====
-- A handshake over the QUIC server.
use kemtls.Common.{ℕ, ◌≡◌, refl, arith, Option, none, some, [], ◌∷◌, leb, codes, Bytes, str_eq}
use kemtls.Common.Dict.{nat_eq, text_eq, contains}
use kemtls.Common.Error.{value_error, Result, ok, raised}
use kemtls.Common.Dict.{get, put}
use kemtls.Common.Json.{find, get_item, contained, deserialize_message}
use kemtls.Common.{str_eq, to_bytes, from_bytes}
use kemtls.Crypto.Aead.{zeros}
use kemtls.Crypto.Kem.{generate_keypair, encapsulate, decapsulate}
use kemtls.Crypto.KeySchedule.{
  hkdf_label, concat, concat_checked, hkdf_loop, hkdf_expand, hkdf_expand_label,
  compute_transcript_hash, derive_handshake_secret, derive_pair, derive_handshake_traffic_secrets,
  derive_finished_keys, derive_application_traffic_secrets,
}
use kemtls.Encoding.{
  digit, digit_value, base64url_encode, is_base64url_char, matches_pattern, next_digit, finish,
  b64_loop, padding, base64url_decode,
}
use kemtls.Handshake.{
  decode_bytes_field, message_at, hmac_sha256, finished_keys, application_secrets, finish_session,
}
use kemtls.Handshake.Client.{
  authenticate, client_hello, derive_client_keys, exchange_keys, process_server_hello,
  finalize_client, process_server_finished, client_finished,
}
use kemtls.Handshake.Server.{
  new_server, negotiate, server_hello_message, process_client_hello, derive_server_keys,
  process_client_key_exchange, finalize_server, verify_client_finished,
}
use kemtls.Exporter.{derive_exporter_secret, derive_session_binding_id, derive_refresh_binding_id}
use kemtls.Pdk.{add_entry, get_entry_by_id, resolve_expected_identity}
use kemtls.Quic.Packets.{
  validate_packet_type, validate_connection_id, validate_packet_number, validate_epoch,
  validate_payload_length, validate_version, validations, pack_fields, encode_header, encode_packet,
  unpack_fields, decode_packet,
}
use kemtls.Quic.State.{
  new_connection, next_packet_number, note_received_packet, schedule_retransmission,
  expired_retransmissions,
}
use kemtls.Quic.Server.{send_ack, packet_payload, send_packet}
use kemtls.Quic.Server.Handling.{
  answer_hello, answer_key_exchange, finish_handshake, answer_finished, in_phase, handle_packet,
  retransmit_entries, retransmit_expired,
}
use kemtls.Quic.Server.Table.{
  retransmit_connections, retransmit_expired_packets, handle_known,
  new_connection as new_server_connection, serve_packet, serve_datagram,
}
use kemtls.Crypto.Aead.{zeros}
use kemtls.Examples.Handshakes.{ch, exchange, cf}
use kemtls.Examples.Values.{toy_cipher}
use kemtls.Examples.Wire.{wire_python, wire_hash, wire_kem}
use kemtls.Http.Flask.{Environ, Reply}
use kemtls.Quic.Packets.{QuicPacket, encode_packet}
use kemtls.Common.{Bool, true, false}
use kemtls.Quic.Server.{
  Phase, await_initial, await_cke, await_cf, new_packet, initial, handshake_type, app_data,
  established, Connection, Live,
}
use kemtls.Quic.Server.Handling.{accept_connection, handle_packet}
use kemtls.Quic.Server.Replay.{SameButNumbers, AckedAtMost, handle_packet_replayed}
use kemtls.Quic.Server.Run.{here}
use kemtls.Common.{List}
use kemtls.Quic.Server.Rounds.{Rounds, Came, start, datagram}
use kemtls.Quic.Server.Sound.{IsSound, Rounds-IsSound}
use kemtls.Quic.Server.Confirmed.{Confirmed, Rounds-Confirmed}
use kemtls.Quic.Server.Table.{Address, Server, serve_datagram}

abbrev app : Environ → Result Reply
app environ = ok (record { status = codes "200 OK"; headers = []; parts = [] })

abbrev peer : Address
peer = (codes "10.0.0.1", 4000)

abbrev idle : Server ℕ
idle = record {
  server_identity = codes "server";
  server_lt_sk = zeros 2400;
  cert = none;
  pdk_key_id = some (codes "k1");
  connections = [];
  sent = [];
}

abbrev or_empty : Result Bytes → Bytes
or_empty (ok b) = b
or_empty (raised e) = []

abbrev datagram_of : ℕ → ℕ → Bytes → Bytes
datagram_of packet_type n payload =
    or_empty (encode_packet (new_packet packet_type (codes "id") n payload 0))

abbrev serve : Bytes → Server ℕ → Server ℕ
serve raw s =
    serve_datagram wire_python toy_cipher wire_hash wire_kem app leb 0 1 1 (codes "session") [] raw
      peer s

abbrev greeted_server : Server ℕ
greeted_server = serve (datagram_of initial 0 ch) idle

abbrev or_else : Option (Connection ℕ) → Connection ℕ → Connection ℕ
or_else none s = s
or_else (some s) t = s

abbrev nobody : Connection ℕ
nobody = accept_connection [] peer (record {
  server_identity = [];
  server_lt_sk = [];
  cert = none;
  pdk_key_id = none;
  transcript = [];
  session_id = [];
  eph_pk = [];
  eph_sk = [];
  handshake_secret = none;
  client_fin_key = none;
  server_fin_key = none;
})

abbrev served : Server ℕ
served =
    serve (datagram_of handshake_type 2 cf)
      (serve (datagram_of handshake_type 1 exchange.0) greeted_server)

abbrev confirmed : Connection ℕ
confirmed = or_else (get (codes "id") served.connections) nobody

abbrev is_established : Phase → Bool
is_established await_initial = false
is_established await_cke = false
is_established await_cf = false
is_established established = true

abbrev is_served : Option (Connection ℕ) → Bool
is_served none = false
is_served (some s) = is_established s.phase

is_established_inv : (phase : Phase) → is_established phase ≡ true → phase ≡ established
is_established_inv await_initial h = absurd (ground arith)
is_established_inv await_cke h = absurd (ground arith)
is_established_inv await_cf h = absurd (ground arith)
is_established_inv established h = refl

is_served_inv :
    (o : Option (Connection ℕ)) (t : Connection ℕ)
    → is_served o ≡ true
    → (o ≡ some (or_else o t)) × ((or_else o t).phase ≡ established)
is_served_inv none t h = absurd (ground arith)
is_served_inv (some s) t h = (refl, is_established_inv s.phase h)

is_served-served : is_served (get (codes "id") served.connections) ≡ true
unfolding get put find get_item contained deserialize_message str_eq to_bytes from_bytes zeros
    encapsulate decapsulate hkdf_label concat concat_checked hkdf_loop hkdf_expand hkdf_expand_label
    compute_transcript_hash derive_handshake_secret derive_pair derive_handshake_traffic_secrets
    derive_finished_keys derive_application_traffic_secrets digit digit_value base64url_encode
    is_base64url_char matches_pattern next_digit finish b64_loop padding base64url_decode
    decode_bytes_field message_at hmac_sha256 finished_keys application_secrets finish_session
    authenticate client_hello derive_client_keys exchange_keys process_server_hello finalize_client
    process_server_finished client_finished new_server negotiate server_hello_message
    process_client_hello derive_server_keys process_client_key_exchange finalize_server
    verify_client_finished derive_exporter_secret derive_session_binding_id
    derive_refresh_binding_id add_entry get_entry_by_id resolve_expected_identity
    validate_packet_type validate_connection_id validate_packet_number validate_epoch
    validate_payload_length validate_version validations pack_fields encode_header encode_packet
    unpack_fields decode_packet new_connection next_packet_number note_received_packet
    schedule_retransmission expired_retransmissions send_ack packet_payload send_packet answer_hello
    answer_key_exchange finish_handshake answer_finished in_phase handle_packet retransmit_entries
    retransmit_expired retransmit_connections retransmit_expired_packets handle_known
    new_server_connection serve_packet serve_datagram generate_keypair
is_served-served = refl

confirmed_found :
    (get (codes "id") served.connections ≡ some confirmed) × (confirmed.phase ≡ established)
confirmed_found = is_served_inv (get (codes "id") served.connections) nobody is_served-served

served_rounds : Rounds wire_python toy_cipher wire_hash wire_kem app idle served
served_rounds = datagram leb 0 1 1 (codes "session") [] (datagram_of handshake_type 2 cf) peer (
    datagram leb 0 1 1 (codes "session") [] (datagram_of handshake_type 1 exchange.0) peer
      (datagram leb 0 1 1 (codes "session") [] (datagram_of initial 0 ch) peer start))

Rounds-IsSound_example : IsSound confirmed
Rounds-IsSound_example =
    Rounds-IsSound wire_python toy_cipher wire_hash wire_kem app {s = idle} {t = served}
      (codes "id") refl served_rounds confirmed_found.0

Rounds-Confirmed_example :
    Confirmed wire_python wire_hash
      (Came wire_python toy_cipher wire_hash wire_kem app served_rounds)
      confirmed.handshake
      confirmed.session
Rounds-Confirmed_example =
    Rounds-Confirmed wire_python wire_hash toy_cipher wire_kem app {s = idle} {t = served}
      (codes "id") refl served_rounds confirmed_found.0 confirmed_found.1

abbrev repeated : Live ℕ
repeated = record {
  connection = record nobody {
    phase = established;
    processed_app_packets = 5 ∷ [];
    receiver = some (record { key = some (zeros 32); iv = some (zeros 12) });
  };
  datagrams = [];
}

abbrev broken_app : Environ → Result Reply
broken_app environ = raised (value_error "no application")

abbrev again : QuicPacket
again = new_packet app_data (codes "id") 5 (codes "GET") 1

handle_packet_replayed_example :
    SameButNumbers repeated.connection
      (handle_packet wire_python toy_cipher wire_hash wire_kem app 1 again repeated).1.connection
    × AckedAtMost again repeated.datagrams
        (handle_packet wire_python toy_cipher wire_hash wire_kem app 1 again repeated).1.datagrams
    × (handle_packet wire_python toy_cipher wire_hash wire_kem broken_app 1 again repeated
        ≡ handle_packet wire_python toy_cipher wire_hash wire_kem app 1 again repeated)
unfolding contains
handle_packet_replayed_example =
    handle_packet_replayed wire_python toy_cipher wire_hash wire_kem app broken_app 1 again
      {x = repeated} {y = repeated} refl here refl

-- A packet that has been sent again twice.
abbrev unanswered : Live ℕ
unanswered = record {
  connection = record nobody {
    state = schedule_retransmission 3 1 nobody.state;
    sent_packets = (3, record { bytes = codes "hello"; deadline = 1; attempts = 2 }) ∷ [];
  };
  datagrams = [];
}

abbrev turns : List (ℕ × ℕ)
turns = (2, 4) ∷ (5, 7) ∷ (8, 10) ∷ []

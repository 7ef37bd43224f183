-- ===== src/Quic/Server/Handling.antt =====
-- `_handle_packet` of kemtls/quic_server.py (src/kemtls) for a connection that the server knows, and
-- `_retransmit_expired_packets` for one connection.
use kemtls.Common.{
  ℕ, ◌+◌, Bool, Option, none, some, List, [], ◌∷◌, ◌++◌, leb, ◌==◌, if◌then◌else◌, codes, Bytes,
}
use kemtls.Common.Action.{Action, lift, gets, ◌>>=◌, ◌>>◌, pure}
use kemtls.Common.Dict.{get, put, contains, add, nat_eq}
use kemtls.Common.Error.{attribute_error, Result, ok, raised}
use kemtls.Common.Json.{Json, object, find, is_text, Python, deserialize_message}
use kemtls.Crypto.Primitives.{ChaCha, Hash, Kem}
use kemtls.Handshake.Server.{
  ServerHandshake, process_client_hello, process_client_key_exchange, verify_client_finished,
}
use kemtls.Http.{parse_http_request}
use kemtls.Http.Flask.{Environ, Reply, call_flask_app}
use kemtls.Quic.Packets.{QuicPacket, build_packet_aad}
use kemtls.Quic.Protection.{Protector, unprotect_packet}
use kemtls.Quic.Server.{
  initial, handshake_type, app_data, ack, max_retries, Phase, await_initial, await_cke, await_cf,
  established, SentPacket, Connection, Live, on_connection, with_handshake, send_ack, process_ack,
  send_packet,
}
use kemtls.Common.{Str}
use kemtls.Quic.State.{
  new_connection, RetransmissionEntry, note_received_packet, schedule_retransmission,
  expired_retransmissions,
}
use kemtls.Session.{KemtlsSession}

-- `session.transport = "quic"`
abbrev pub over_quic : KemtlsSession → KemtlsSession
over_quic session = record session { transport = some (codes "quic") }

-- `message.get("type")` of a payload that loads as an object, or None.
abbrev pub type_of : Result Json → Option Json
type_of (ok (object message)) = find (codes "type") message
type_of _ = none

module _ {Deadline : Type 0} where
  abbrev pub establish : KemtlsSession → Connection Deadline → Connection Deadline
  establish session s = record s {
    session = some (over_quic session);
    sender = some (record { key = session.server_write_key; iv = session.server_write_iv });
    receiver = some (record { key = session.client_write_key; iv = session.client_write_iv });
    phase = established;
  }

  module _ (p : Python) (c : ChaCha) (h : Hash) (k : Kem) (app : Environ → Result Reply)
      (deadline : Deadline) where
    -- The ACK and the message that was sent before.
    unfoldable pub resend : Option Bytes → QuicPacket → Action (Live Deadline) (Unit {0})
    resend none q = pure tt
    resend (some message) q = do
      send_ack q.packet_number q.epoch
      number ← send_packet c deadline handshake_type message 0
      pure tt

    unfoldable pub answer_hello : QuicPacket → Action (Live Deadline) (Unit {0})
    answer_hello q = do
      send_ack q.packet_number q.epoch
      server_hello ← with_handshake (process_client_hello p q.payload)
      on_connection (λ s. record s { cached_server_hello = some server_hello })
      number ← send_packet c deadline handshake_type server_hello 0
      on_connection (λ s. record s { phase = await_cke })

    unfoldable pub answer_key_exchange : QuicPacket → Action (Live Deadline) (Unit {0})
    answer_key_exchange q = do
      send_ack q.packet_number q.epoch
      server_finished ← with_handshake (process_client_key_exchange p h k q.payload)
      on_connection (λ s. record s { cached_server_finished = some server_finished })
      number ← send_packet c deadline handshake_type server_finished 0
      on_connection (λ s. record s { phase = await_cf })

    unfoldable pub finish_handshake : QuicPacket → Action (Live Deadline) (Unit {0})
    finish_handshake q = do
      send_ack q.packet_number q.epoch
      session ← with_handshake (verify_client_finished p h q.payload)
      on_connection (establish session)

    -- A HANDSHAKE packet in the phase `await_cf`.
    unfoldable pub answer_finished : Option Bytes → QuicPacket → Action (Live Deadline) (Unit {0})
    answer_finished none q = finish_handshake q
    answer_finished (some server_finished) q =
        if is_text (type_of (deserialize_message p q.payload)) (codes "ClientKeyExchange")
        then resend (some server_finished) q
        else finish_handshake q

    -- A packet that belongs to the handshake, or a repeated ClientHello.
    abbrev pub in_handshake :
        (answer : Action (Live Deadline) (Unit {0}))
        → QuicPacket
        → Action (Live Deadline) (Unit {0})
    in_handshake answer q x =
        if q.packet_type == handshake_type
        then answer x
        else if q.packet_type == initial
        then resend x.connection.cached_server_hello q x
        else pure tt x

    abbrev pub respond : Option KemtlsSession → Bytes → Result Bytes
    respond none request = raised (attribute_error "'NoneType' object has no attribute")
    respond (some session) request = call_flask_app app session request

    unfoldable pub process_application :
        Protector → (aad : Bytes) → QuicPacket → Action (Live Deadline) (Unit {0})
    process_application receiver aad q = do
      plaintext ← lift (unprotect_packet c receiver q.packet_number q.payload aad)
      on_connection
          (λ s. record s { processed_app_packets = add q.packet_number s.processed_app_packets })
      request ← lift (parse_http_request plaintext)
      session ← gets (λ x. x.connection.session)
      response ← lift (respond session plaintext)
      number ← send_packet c deadline app_data response 1
      pure tt

    unfoldable pub handle_application :
        Option Protector → QuicPacket → Action (Live Deadline) (Unit {0})
    handle_application none q = pure tt
    handle_application (some receiver) q = do
      send_ack q.packet_number q.epoch
      s ← gets (λ x. x.connection)
      aad ← lift (build_packet_aad app_data s.state.connection_id q.packet_number q.epoch 0)
      if contains q.packet_number s.processed_app_packets
          then pure tt
          else process_application receiver aad q

    unfoldable pub in_phase : Phase → QuicPacket → Action (Live Deadline) (Unit {0})
    in_phase await_initial q x = if q.packet_type == initial then answer_hello q x else pure tt x
    in_phase await_cke q x = in_handshake (answer_key_exchange q) q x
    in_phase await_cf q x =
        in_handshake (λ y. answer_finished y.connection.cached_server_finished q y) q x
    in_phase established q x =
        if q.packet_type == app_data
        then handle_application x.connection.receiver q x
        else pure tt x

    -- A packet that is no CONNECTION_CLOSE.
    unfoldable pub handle_packet : QuicPacket → Action (Live Deadline) (Unit {0})
    handle_packet q = if q.packet_type == ack then process_ack q.payload else (do
      on_connection (λ s. record s { state = note_received_packet q.packet_number s.state })
      phase ← gets (λ x. x.connection.phase)
      in_phase phase q)

  -- `_new_connection`; the handshake object is an argument.
  abbrev pub accept_connection :
      (connection_id : Bytes) (peer_address : Str × ℕ) → ServerHandshake → Connection Deadline
  accept_connection connection_id peer_address handshake = record {
    state = new_connection connection_id;
    peer_address = peer_address;
    handshake = handshake;
    phase = await_initial;
    session = none;
    sender = none;
    receiver = none;
    sent_packets = [];
    processed_app_packets = [];
    cached_server_hello = none;
    cached_server_finished = none;
  }

  -- One entry of `expired_retransmissions(now)`.
  abbrev pub retransmit_packet :
      (deadline : Deadline) → ℕ → Option (SentPacket Deadline) → Live Deadline → Live Deadline
  retransmit_packet deadline n none x = x
  retransmit_packet deadline n (some sent) x = if leb max_retries sent.attempts then x else record {
    connection = record x.connection {
      state = schedule_retransmission n deadline x.connection.state;
      sent_packets =
          put n (record { bytes = sent.bytes; deadline = deadline; attempts = sent.attempts + 1 })
            x.connection.sent_packets;
    };
    datagrams = x.datagrams ++ sent.bytes ∷ [];
  }

  unfoldable pub retransmit_entries :
      (deadline : Deadline) → List (RetransmissionEntry Deadline) → Live Deadline → Live Deadline
  retransmit_entries deadline [] x = x
  retransmit_entries deadline (entry ∷ entries) x = retransmit_entries deadline entries (
      retransmit_packet deadline entry.packet_number
        (get entry.packet_number x.connection.sent_packets) x)

  -- The entries of one connection, at `now`; `deadline` is `now + _RETRY_TIMEOUT_S`.
  unfoldable pub retransmit_expired :
      (le : Deadline → Deadline → Bool) (now deadline : Deadline) → Live Deadline → Live Deadline
  retransmit_expired le now deadline x =
      retransmit_entries deadline (expired_retransmissions le now x.connection.state) x

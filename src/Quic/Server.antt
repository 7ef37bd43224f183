-- ===== src/Quic/Server.antt =====
-- kemtls/quic_server.py (src/kemtls): one connection of the UDP server, with the datagrams that have
-- been sent to its peer. A reading of the clock is an argument: `deadline` is
-- `time.monotonic() + _RETRY_TIMEOUT_S`. Each packet that is not an ACK is sent as `reliable`. A
-- `sendto` does not fail; the collector and the printing are left out.
pub mod Handling
pub mod Stable
pub mod Sound
pub mod Invariant
pub mod Run
pub mod Confirmed
pub mod Replay
pub mod Budget
pub mod Table
pub mod Rounds
use kemtls.Common.{
  ℕ, ◌+◌, ◌^◌, Bool, true, false, not, ◌&&◌, Option, none, some, List, [], ◌∷◌, ◌++◌, leb, ◌==◌,
  if◌then◌else◌, codes, length, Bytes, Str, to_bytes, from_bytes,
}
use kemtls.Common.Action.{Action, lift, gets, modify, ◌>>=◌, ◌>>◌, pure, raise}
use kemtls.Common.Dict.{Dict, get, put, remove, contains, add, nat_eq}
use kemtls.Common.Error
use kemtls.Common.Error.{
  Error, overflow_error, attribute_error, runtime_error, Result, ok, raised, raise_if,
}
use kemtls.Common.Json.{Json, object, find, is_text, Python, deserialize_message}
use kemtls.Crypto.Primitives.{ChaCha, Hash, Kem}
use kemtls.Handshake.Server.{
  ServerHandshake, process_client_hello, process_client_key_exchange, verify_client_finished,
}
use kemtls.Http.{parse_http_request}
use kemtls.Http.Flask.{Environ, Reply, call_flask_app}
use kemtls.Quic.Packets.{QuicPacket, packet_version, encode_packet, build_packet_aad}
use kemtls.Quic.Protection.{Protector, protect_packet, unprotect_packet}
use kemtls.Quic.State.{
  RetransmissionEntry, ConnectionState, next_packet_number, note_received_packet,
  acknowledge_packet, schedule_retransmission, expired_retransmissions,
}
use kemtls.Session.{KemtlsSession}

abbrev pub initial : ℕ
initial = 0

abbrev pub handshake_type : ℕ
handshake_type = 1

abbrev pub app_data : ℕ
app_data = 2

abbrev pub ack : ℕ
ack = 3

abbrev pub connection_close : ℕ
connection_close = 4

-- `_MAX_RETRIES`
abbrev pub max_retries : ℕ
max_retries = 4

pub data Phase : Type 0 where
  await_initial await_cke await_cf established : Phase

-- A value of `sent_packets`.
pub record SentPacket (Deadline : Type 0) : Type 0 where
  pub bytes : Bytes
  pub deadline : Deadline
  pub attempts : ℕ

-- `_ServerConnection`
pub record Connection (Deadline : Type 0) : Type 0 where
  pub state : ConnectionState Deadline
  pub peer_address : Str × ℕ
  pub handshake : ServerHandshake
  pub phase : Phase
  pub session : Option KemtlsSession
  pub sender : Option Protector
  pub receiver : Option Protector
  pub sent_packets : Dict ℕ (SentPacket Deadline)
  pub processed_app_packets : List ℕ
  pub cached_server_hello : Option Bytes
  pub cached_server_finished : Option Bytes

-- A connection and the datagrams that were sent to its peer, the latest last.
pub record Live (Deadline : Type 0) : Type 0 where
  pub connection : Connection Deadline
  pub datagrams : List Bytes

abbrev pub new_packet : ℕ → Bytes → ℕ → Bytes → ℕ → QuicPacket
new_packet packet_type connection_id packet_number payload epoch = record {
  packet_type = packet_type;
  connection_id = connection_id;
  packet_number = packet_number;
  payload = payload;
  epoch = epoch;
  version = packet_version;
}

module _ {Deadline : Type 0} where
  abbrev pub on_connection :
      (Connection Deadline → Connection Deadline) → Action (Live Deadline) (Unit {0})
  on_connection f = modify (λ x. record x { connection = f x.connection })

  -- A method of the handshake object.
  abbrev pub with_handshake : {A : Type 0} → Action ServerHandshake A → Action (Live Deadline) A
  with_handshake method x =
      let (result, after) = method x.connection.handshake in
      (result, record x { connection = record x.connection { handshake = after } })

  -- `self.sock.sendto(datagram, connection.peer_address)`
  abbrev pub sendto : Bytes → Action (Live Deadline) (Unit {0})
  sendto datagram = modify (λ x. record x { datagrams = x.datagrams ++ datagram ∷ [] })

  -- `connection.state.next_packet_number()`
  abbrev pub take_number : Action (Live Deadline) ℕ
  take_number x =
      let (number, after) = next_packet_number x.connection.state in
      (ok number, record x { connection = record x.connection { state = after } })

  -- `_send_ack`
  unfoldable pub send_ack : (packet_number epoch : ℕ) → Action (Live Deadline) (Unit {0})
  send_ack packet_number epoch = do
    lift (raise_if (leb (2 ^ 64) packet_number) (overflow_error "int too big to convert"))
    id ← gets (λ x. x.connection.state.connection_id)
    number ← take_number
    datagram ← lift (encode_packet (new_packet ack id number (to_bytes 8 packet_number) epoch))
    sendto datagram

  -- `_process_ack`
  unfoldable pub process_ack : Bytes → Action (Live Deadline) (Unit {0})
  process_ack payload =
      if length payload == 8
      then on_connection (λ s. record s {
        state = (acknowledge_packet (from_bytes payload) s.state).1;
        sent_packets = remove (from_bytes payload) s.sent_packets;
      })
      else pure tt

  -- What `_send_packet` keeps of a reliable packet.
  abbrev pub keep_packet :
      (packet_number : ℕ) → Bytes → Deadline → Connection Deadline → Connection Deadline
  keep_packet packet_number datagram deadline s = record s {
    state = schedule_retransmission packet_number deadline s.state;
    sent_packets =
        put packet_number (record { bytes = datagram; deadline = deadline; attempts = 0 })
          s.sent_packets;
  }

  module _ (c : ChaCha) (deadline : Deadline) where
    -- The payload of the packet: protected, if it is application data.
    unfoldable pub packet_payload :
        Option Protector → Bytes → (packet_type packet_number : ℕ) → Bytes → ℕ → Result Bytes
    packet_payload sender id packet_type packet_number payload epoch =
        if packet_type == app_data
        then elim sender [
          | none ↦ raised (runtime_error "QUIC sender context not established")
          | some protector ↦
              Error.◌>>=◌ (build_packet_aad app_data id packet_number epoch 0)
                (protect_packet c protector packet_number payload)
        ]
        else ok payload

    -- `_send_packet`, with `reliable=True`
    unfoldable pub send_packet :
        (packet_type : ℕ) (payload : Bytes) (epoch : ℕ) → Action (Live Deadline) ℕ
    send_packet packet_type payload epoch = do
      number ← take_number
      s ← gets (λ x. x.connection)
      body ← lift (packet_payload s.sender s.state.connection_id packet_type number payload epoch)
      datagram ←
          lift (encode_packet (new_packet packet_type s.state.connection_id number body epoch))
      sendto datagram
      on_connection (keep_packet number datagram deadline)
      pure number

-- ===== src/Transport.antt =====
-- kemtls/tcp_transport.py (src/kemtls): the handshake over a TCP socket, in frames of a four-byte
-- length and a message, and the record layer that follows it.
pub mod Framing
pub mod Dialogs
pub mod Serving
use kemtls.Common.{
  ℕ, ◌^◌, Bool, true, false, ◌&&◌, Option, none, some, List, [], ◌∷◌, ◌++◌, leb, ◌==◌, str_eq,
  if◌then◌else◌, codes, length, Bytes, Str, to_bytes, from_bytes,
}
use kemtls.Common.Error.{Error, overflow_error, eof_error, runtime_error, Result, ok, raised}
use kemtls.Common.Action.{Action, lift, modify, ◌>>=◌, ◌>>◌, pure, raise}
use kemtls.Common.Json.{Members, Python}
use kemtls.Crypto.Primitives.{ChaCha, Hash, Kem, Signature}
use kemtls.Handshake.Client.{
  ClientHandshake, new_client, client_hello, process_server_hello, process_server_finished,
  client_finished,
}
use kemtls.Handshake.Server.{
  ServerHandshake, new_server, process_client_hello, process_client_key_exchange,
  verify_client_finished,
}
use kemtls.Pdk.{TrustStore}
use kemtls.RecordLayer.{RecordLayer, for_client, for_server, send_record, recv_record}
use kemtls.Session.{KemtlsSession}
use kemtls.Socket.{Socket, sendall, read_n_bytes}

-- A handshake object and the socket that its messages cross.
pub record Dialog (H : Type 0) : Type 0 where
  pub handshake : H
  pub sock : Socket

-- A method of the handshake object.
abbrev pub on_handshake : {H A : Type 0} → Action H A → Action (Dialog H) A
on_handshake method x =
    let (result, after) = method x.handshake in
    (result, record { handshake = after; sock = x.sock })

-- `len(payload).to_bytes(4, "big") + payload`
unfoldable pub handshake_frame : Bytes → Result Bytes
handshake_frame payload =
    if leb (2 ^ 32) (length payload)
    then raised (overflow_error "int too big to convert")
    else ok (to_bytes 4 (length payload) ++ payload)

abbrev pub no_header : Error
no_header = eof_error "Socket closed during handshake"

abbrev pub no_payload : Error
no_payload = eof_error "Socket closed during handshake data read"

module _ {H : Type 0} where
  -- `send_handshake` on a socket
  unfoldable pub send_handshake : Bytes → Action (Dialog H) (Unit {0})
  send_handshake payload = do
    frame ← lift (handshake_frame payload)
    modify (λ x. record { handshake = x.handshake; sock = sendall frame x.sock })

  -- `_read_n_bytes(target, n, eof_message=…)`
  unfoldable pub read_exactly : Error → ℕ → Action (Dialog H) Bytes
  read_exactly eof n x =
      let (result, chunks) = read_n_bytes eof n x.sock.incoming in
      (
        result,
        record { handshake = x.handshake; sock = record { incoming = chunks; sent = x.sock.sent } },
      )

  -- `recv_handshake` on a socket
  unfoldable pub recv_handshake : Action (Dialog H) Bytes
  recv_handshake = do header ← read_exactly no_header 4; read_exactly no_payload (from_bytes header)

-- `session.transport = "tcp"`
abbrev pub over_tcp : KemtlsSession → KemtlsSession
over_tcp session = record session { transport = some (codes "tcp") }

pub record ClientTransport : Type 0 where
  pub expected_identity : Str
  pub ca_pk : Option Bytes
  pub pdk_store : Option TrustStore
  pub mode : Str
  pub session : Option KemtlsSession
  pub connected : Bool
  pub record_layer : Option RecordLayer
  pub connected_host : Option Str
  pub connected_port : Option ℕ

pub record ServerConnection : Type 0 where
  pub sock : Socket
  pub session : Option KemtlsSession
  pub record_layer : Option RecordLayer

-- The record layer after a method of it. The socket is the record layer's.
abbrev pub with_layer : {A : Type 0} → Action RecordLayer A → Action ClientTransport A
with_layer method t = elim t.record_layer [
  | none ↦ (raised (runtime_error "No active record layer"), t)
  | some layer ↦
      let (result, after) = method layer in (result, record t { record_layer = some after })
]

abbrev pub with_server_layer : {A : Type 0} → Action RecordLayer A → Action ServerConnection A
with_server_layer method t = elim t.record_layer [
  | none ↦ (raised (runtime_error "No active record layer"), t)
  | some layer ↦
      let (result, after) = method layer in
      (result, record t { record_layer = some after; sock = after.sock })
]

module _ (c : ChaCha) where
  unfoldable pub send_application : Bytes → Action ClientTransport (Unit {0})
  send_application payload = with_layer (send_record c payload)

  unfoldable pub recv_application : Action ClientTransport Bytes
  recv_application = with_layer (recv_record c)

  unfoldable pub server_send_application : Bytes → Action ServerConnection (Unit {0})
  server_send_application payload = with_server_layer (send_record c payload)

  unfoldable pub server_recv_application : Action ServerConnection Bytes
  server_recv_application = with_server_layer (recv_record c)

-- `close` of the client; an `OSError` of the socket is passed over.
unfoldable pub close : Action ClientTransport (Unit {0})
close = modify (λ t. record t {
  connected = false;
  record_layer = none;
  connected_host = none;
  connected_port = none;
})

unfoldable pub server_close : Action ServerConnection (Unit {0})
server_close = modify (λ t. record t { record_layer = none; session = none })

abbrev pub is_some : {A : Type 0} → Option A → Bool
is_some none = false
is_some (some a) = true

abbrev pub is_host : Option Str → Str → Bool
is_host none host = false
is_host (some connected) host = str_eq connected host

abbrev pub is_port : Option ℕ → ℕ → Bool
is_port none port = false
is_port (some connected) port = connected == port

unfoldable pub matches_endpoint : Str → ℕ → ClientTransport → Bool
matches_endpoint host port t =
    t.connected
    && (is_some t.record_layer && (is_host t.connected_host host && is_port t.connected_port port))

module _ (p : Python) (d : Signature) (h : Hash) (k : Kem) where
  -- The messages of `connect`, from ClientHello to ClientFinished.
  unfoldable pub client_dialog :
      (now : ℕ) (eph_coins lt_coins : Bytes) → Action (Dialog ClientHandshake) KemtlsSession
  client_dialog now eph_coins lt_coins = do
    hello ← on_handshake (client_hello p)
    send_handshake hello
    server_hello ← recv_handshake
    exchange ← on_handshake (process_server_hello p d h k now eph_coins lt_coins server_hello)
    send_handshake exchange.0
    server_finished ← recv_handshake
    session ← on_handshake (process_server_finished p h server_finished (some exchange.1))
    finished ← on_handshake (client_finished p h)
    send_handshake finished
    pure (over_tcp session)

  -- `connect`, on the socket that it opens; a transport is written once the handshake is complete.
  unfoldable pub connect :
      (client_random : Str) (now : ℕ) (eph_coins lt_coins : Bytes) (host : Str) (port : ℕ)
      → Socket
      → Action ClientTransport (Unit {0})
  connect client_random now eph_coins lt_coins host port sock t =
      let (result, after) = client_dialog now eph_coins lt_coins (record {
        handshake = new_client t.expected_identity t.ca_pk t.pdk_store t.mode client_random;
        sock = sock;
      }) in
      elim result [
        | raised e ↦ (raised e, t)
        | ok session ↦ (
          ok tt,
          record t {
            session = some session;
            connected = true;
            record_layer = some (for_client session after.sock);
            connected_host = some host;
            connected_port = some port;
          },
        )
      ]

  -- The messages of `complete_handshake`.
  unfoldable pub server_dialog : Action (Dialog ServerHandshake) KemtlsSession
  server_dialog = do
    hello ← recv_handshake
    answer ← on_handshake (process_client_hello p hello)
    send_handshake answer
    exchange ← recv_handshake
    server_finished ← on_handshake (process_client_key_exchange p h k exchange)
    send_handshake server_finished
    finished ← recv_handshake
    session ← on_handshake (verify_client_finished p h finished)
    pure (over_tcp session)

  abbrev finish_server :
      Result KemtlsSession × Dialog ServerHandshake → Action ServerConnection KemtlsSession
  finish_server (raised e, after) t = (raised e, record t { sock = after.sock })
  finish_server (ok session, after) t = (
    ok session,
    record t {
      sock = after.sock;
      session = some session;
      record_layer = some (for_server session after.sock);
    },
  )

  unfoldable pub complete_handshake :
      (server_identity : Str) (server_lt_sk : Bytes) (cert : Option Members)
      (pdk_key_id : Option Str) (session_id : Str) (coins : Bytes)
      → Action ServerConnection KemtlsSession
  complete_handshake server_identity server_lt_sk cert pdk_key_id session_id coins t =
      elim (new_server k server_identity server_lt_sk cert pdk_key_id session_id coins) [
        | raised e ↦ (raised e, t)
        | ok handshake ↦
            finish_server (server_dialog (record { handshake = handshake; sock = t.sock })) t
      ]

-- ===== src/Transport/Serving.antt =====
-- `handle_application_session` and `request_over_transport` of kemtls/tcp_transport.py and
-- `_handle_client` of kemtls/tcp_server.py (src/kemtls). `header_mutator` is an argument; the
-- collector and the printing are left out.
pub mod Fuel
use kemtls.Common.{
  ℕ, zero, suc, Bool, true, false, not, ◌&&◌, Option, none, some, [], if◌then◌else◌, str_eq, codes,
  Bytes, Str,
}
use kemtls.Common.Action.{Action, lift, gets, ◌>>=◌, ◌>>◌, pure}
use kemtls.Common.Dict.{Dict, get, text_eq}
use kemtls.Common.Error.{Error, eof_error, runtime_error, Result, ok, raised}
use kemtls.Common.Json.{Members, Python}
use kemtls.Crypto.Primitives.{ChaCha, Hash, Kem, Signature}
use kemtls.Http.{Request, lower, parse_http_request, build_http_request}
use kemtls.Http.Flask.{Environ, Reply, or_empty, call_flask_app}
use kemtls.Session.{KemtlsSession}
use kemtls.Socket.{Socket}
use kemtls.Transport.{
  ClientTransport, ServerConnection, send_application, recv_application, server_send_application,
  server_recv_application, close, server_close, matches_endpoint, connect, complete_handshake,
}

-- `str(request_map["headers"].get("connection", "")).lower() == "close"`
abbrev pub asks_to_close : Request → Bool
asks_to_close request =
    str_eq (lower (or_empty (get (codes "connection") request.headers))) (codes "close")

module _ (c : ChaCha) (app : Environ → Result Reply) where
  -- One request: what is answered, and whether the peer asks to close.
  unfoldable pub answer_request : KemtlsSession → Bytes → Action ServerConnection Bool
  answer_request session raw_request = do
    request ← lift (parse_http_request raw_request)
    response ← lift (call_flask_app app session raw_request)
    server_send_application c response
    pure (asks_to_close request)

  -- What ends the loop without a request: `except EOFError: break`.
  abbrev pub end_of_requests : Error → Action ServerConnection (Unit {0})
  end_of_requests (eof_error message) t = (ok tt, t)
  end_of_requests e t = (raised e, t)

  -- What the loop ends with; `none` if the fuel was not enough.
  abbrev pub Served : Type 0
  Served = Option (Result (Unit {0}) × ServerConnection)

  -- After a request was received, and after it was answered; `again` is the rest of the loop.
  abbrev pub after_answer :
      (again : ServerConnection → Served) → Result Bool × ServerConnection → Served
  after_answer again (raised e, t) = some (raised e, t)
  after_answer again (ok true, t) = some (ok tt, t)
  after_answer again (ok false, t) = again t

  abbrev pub after_request :
      (again : ServerConnection → Served) → KemtlsSession → Result Bytes × ServerConnection → Served
  after_request again session (raised e, t) = some (end_of_requests e t)
  after_request again session (ok raw_request, t) =
      after_answer again (answer_request session raw_request t)

  -- `while True`: a round reads a record or is the last one.
  unfoldable pub serve_loop : ℕ → KemtlsSession → ServerConnection → Served
  serve_loop zero session t = none
  serve_loop (suc fuel) session t =
      after_request (λ u. serve_loop fuel session u) session (server_recv_application c t)

  abbrev pub serve_session : ℕ → Option KemtlsSession → ServerConnection → Served
  serve_session fuel none t =
      some (raised (runtime_error "transport session has not been established"), t)
  serve_session fuel (some session) t = serve_loop fuel session t

  unfoldable pub handle_application_session : ℕ → ServerConnection → Served
  handle_application_session fuel t = serve_session fuel t.session t

  -- `_handle_client`: the connection is closed however its handshake and its requests end.
  abbrev pub close_served : Served → Option ServerConnection
  close_served none = none
  close_served (some (result, t)) = some (server_close t).1

  abbrev pub after_handshake : ℕ → Result KemtlsSession × ServerConnection → Option ServerConnection
  after_handshake fuel (raised e, t) = some (server_close t).1
  after_handshake fuel (ok session, t) = close_served (handle_application_session fuel t)

  unfoldable pub handle_client :
      Python
      → Signature
      → Hash
      → Kem
      → (fuel : ℕ) (server_identity : Str) (server_lt_sk : Bytes) (cert : Option Members)
        (pdk_key_id : Option Str) (session_id coins : Bytes)
      → ServerConnection
      → Option ServerConnection
  handle_client p d h k fuel server_identity server_lt_sk cert pdk_key_id session_id coins t =
      after_handshake fuel
        (complete_handshake p d h k server_identity server_lt_sk cert pdk_key_id session_id coins t)

module _ (p : Python) (d : Signature) (h : Hash) (k : Kem) (c : ChaCha) where
  -- `if not reuse: transport.close(); transport.connect(host, port)`
  unfoldable pub reconnect :
      (client_random : Str) (now : ℕ) (eph_coins lt_coins : Bytes) (sock : Socket) (host : Str)
      (port : ℕ) (keep_alive : Bool)
      → Action ClientTransport (Unit {0})
  reconnect client_random now eph_coins lt_coins sock host port keep_alive t =
      if keep_alive && matches_endpoint host port t
      then (ok tt, t)
      else (do close; connect p d h k client_random now eph_coins lt_coins host port sock) t

  unfoldable pub request_over_transport :
      (client_random : Str) (now : ℕ) (eph_coins lt_coins : Bytes) (sock : Socket) (host : Str)
      (port : ℕ) (method path : Str) (headers : Dict Str Str) (body : Bytes) (keep_alive : Bool)
      (header_mutator : Dict Str Str → Option KemtlsSession → Result (Dict Str Str))
      → Action ClientTransport (Bytes × Option KemtlsSession)
  request_over_transport client_random now eph_coins lt_coins sock host port method path headers
        body keep_alive header_mutator =
      do
        reconnect client_random now eph_coins lt_coins sock host port keep_alive
        session ← gets (λ t. t.session)
        effective_headers ← lift (header_mutator headers session)
        request ← lift (build_http_request host method path effective_headers body keep_alive)
        send_application c request
        response ← recv_application c
        pure (response, session)

-- ===== src/Lib.antt =====
-- KEMTLS: a post-quantum TLS-like handshake with KEM authentication, and OpenID Connect on top of it
-- (Python, under src/). This library models the parts of the program that decide what is sent, what
-- is accepted and what is stored, and proves what makes them correct.
--
-- The parts and the files that model them:
--   * Common: shared types. Python's exceptions are the values of `Error`, a function that may raise
--     returns a `Result`, a method of an object that changes is an `Action` on its state. `bytes` and
--     `str` are lists of numbers, `dict` is `Dict`, a JSON value is `Json`, whose numbers are integers; an argument that may be
--     `None` is an `Option`. Checks by isinstance of typed arguments do not arise.
--   * Encoding: src/utils/encoding.py. base64url, with the decoding loop of binascii that it reaches.
--   * Crypto.Primitives: the libraries that the program calls, as parameters: ChaCha20-Poly1305,
--     SHA-256 and HMAC, ML-KEM-768, ML-DSA-65. Their documented behaviour stands in records of laws.
--   * Crypto.Aead: src/crypto/aead.py. Crypto.KeySchedule: src/crypto/key_schedule.py.
--     Crypto.Signatures: src/crypto/ml_dsa.py. Crypto.Kem: src/crypto/ml_kem.py.
--   * Exporter: src/kemtls/exporter.py. Session: src/kemtls/session.py. Pdk: src/kemtls/pdk.py.
--     Certs: src/kemtls/certs.py.
--   * Handshake: src/kemtls/handshake.py. Handshake.Client and Handshake.Server are the two state
--     machines. Handshake.Trust and Handshake.ServerHello say what the client has checked, Handshake.Steps and
--     Handshake.FinishedSteps what each step answers to an honest message, Handshake.Confirmation and
--     Handshake.Agreement put the steps together, Handshake.Authentic says what a Finished proves.
--     Handshake.Facade is the older interface of the same file, with KeyDerivation of
--     src/crypto/key_schedule.py.
--   * Channel: src/kemtls/channel.py.
--   * Transport: src/kemtls/tcp_transport.py. Its frames are in Transport.Framing, the messages
--     of both sides in Transport.Dialogs, the loop over requests and `_handle_client` of
--     src/kemtls/tcp_server.py in Transport.Serving.
--   * Socket and RecordLayer: src/kemtls/record_layer.py. A socket is the list of chunks that the
--     network will deliver and the list of byte strings sent. RecordLayer.Delivery relates one record
--     sent to one received, RecordLayer.Transfer whole exchanges.
--   * Quic.Packets: src/kemtls/quic_packets.py and the associated data of src/kemtls/quic_crypto.py,
--     whose protection of packets is Quic.Protection.
--     Quic.State: src/kemtls/quic_state.py.
--   * Quic.Server: src/kemtls/quic_server.py. One connection and what it sends are in Quic.Server, the
--     phases of `_handle_packet` in Quic.Server.Handling, the table of connections and the rounds of
--     the loop in Quic.Server.Table. Quic.Server.Stable, Invariant and Run carry a property through
--     every handler, Quic.Server.Rounds through the table; Quic.Server.Budget counts retransmissions.
--   * Http: src/kemtls/_http_bridge.py and `build_http_request` of src/kemtls/tcp_transport.py.
--     Http.Flask is the call of the application.
--   * Oidc.AuthCode: src/oidc/auth_endpoints.py. Oidc.RefreshStore: src/oidc/refresh_store.py.
--     Oidc.SessionBinding: src/oidc/session_binding.py. Oidc.Jwt: src/oidc/jwt_handler.py.
--     Oidc.Token, with Issue and Grants: src/oidc/token_endpoints.py and src/oidc/claims.py.
--     Oidc.Resource: src/oidc/userinfo_endpoints.py and src/oidc/introspection_endpoints.py.
--     Oidc.Jwks: src/oidc/jwks.py.
--   * Helpers: src/utils/helpers.py.
--   * Examples: the properties at concrete inputs.
--
-- How the parts interact: the token endpoint uses the code store, the refresh store, the session
-- binding and the tokens; the userinfo endpoint uses the tokens and the session binding; the
-- transport runs a handshake, whose messages are JSON in frames, over a socket, and then a record layer,
-- which takes its keys from the session of the handshake and its nonces from the AEAD part. The QUIC
-- server runs the server's handshake by the payloads of packets, and calls the application with the
-- requests that it unprotects. A reading of the clock and a random draw are arguments, one for each call.
--
-- Bounds and fuel: `read_loop` has n rounds for n bytes, since each round reads a byte or ends;
-- `hkdf_loop` has 256 turns, since 255 blocks is the limit of HKDF. Sequence numbers are below 2 ^ 64,
-- and the length field of a record is below 2 ^ 32.
--
-- `digits` has n + 1 rounds for the number n, more than its digits; `serve_loop` is `none` without
-- rounds left, and needs as many as bytes are to come and one, since each reads the header of a record.
--
-- The dispatch to the Rust core (src/rust_ext) is taken on its Python path. Not modelled: the QUIC
-- client, listening sockets and threads, the HTTP servers and clients, and telemetry.
pub mod Common
pub mod Encoding
pub mod Crypto
pub mod Session
pub mod Socket
pub mod RecordLayer
pub mod Quic
pub mod Oidc
pub mod Pdk
pub mod Exporter
pub mod Certs
pub mod Handshake
pub mod Transport
pub mod Helpers
pub mod Channel
pub mod Http
pub mod Examples

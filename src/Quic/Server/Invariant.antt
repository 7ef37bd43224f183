-- ===== src/Quic/Server/Invariant.antt =====
-- A connection of the server stays sound, whatever packets come and whether they are handled or
-- refused.
use kemtls.Common.{
  ℕ, ◌≡◌, ◌≢◌, ◌∙◌, refl, inl, inr, none, some, Option, Bytes, codes, Bool-cases, if◌then◌else◌,
  ◌==◌,
}
use kemtls.Handshake.Server.{ServerHandshake}
use kemtls.Common.Error.{ok, raised}
use kemtls.Session.{KemtlsSession}
use kemtls.Common.Action.{
  Outcome, Ensures-step, Action, Ensures, Ensures->>=, Ensures-lift, Ensures-gets, Ensures-modify,
  Ensures-pure, Ensures-weaken, Ensures-if, Ensures-if_at, lift, gets, pure,
}
use kemtls.Common.Dict.{contains, add, nat_eq}
use kemtls.Common.Error.{Result}
use kemtls.Common.Json.{Python, deserialize_message, is_text}
use kemtls.Crypto.Primitives.{ChaCha, Hash, Kem}
use kemtls.Handshake.Server.{
  process_client_hello, process_client_key_exchange, verify_client_finished,
}
use kemtls.Http.{parse_http_request}
use kemtls.Http.Flask.{Environ, Reply}
use kemtls.Quic.Packets.{QuicPacket, build_packet_aad}
use kemtls.Quic.Protection.{Protector, unprotect_packet}
use kemtls.Quic.Server.{
  initial, handshake_type, app_data, Phase, await_initial, await_cke, await_cf, established,
  Connection, Live, on_connection, with_handshake, send_ack, send_packet,
}
use kemtls.Quic.Server.Handling.{
  type_of, establish, resend, answer_hello, answer_key_exchange, finish_handshake, answer_finished,
  respond, process_application, handle_application, in_handshake, in_phase,
}
use kemtls.Quic.Server.Stable.{IsStable, IsClosed, send_ack-Holds, send_packet-Holds, resend-Holds}

module _ {Deadline : Type 0} (p : Python) (c : ChaCha) (h : Hash) (k : Kem)
    (app : Environ → Result Reply) (deadline : Deadline) (q : QuicPacket)
    (I : Connection Deadline → Type 0) (closed : IsClosed p h q I) where
  abbrev pub Kept : Live Deadline → Type 0
  Kept x = I x.connection

  abbrev pub Keeps : Action (Live Deadline) (Unit {0}) → Type 0
  Keeps m = Ensures Kept m (λ u. Kept) Kept

  acked : Keeps (send_ack q.packet_number q.epoch)
  acked = send_ack-Holds I closed.stable.numbered q.packet_number q.epoch

  sent :
      (packet_type : ℕ) (payload : Bytes) (epoch : ℕ)
      → Ensures Kept (send_packet c deadline packet_type payload epoch) (λ n. Kept) Kept
  sent = send_packet-Holds I closed.stable c deadline

  updated :
      (f : Connection Deadline → Connection Deadline)
      → ((s : Connection Deadline) → I s → I (f s))
      → Keeps (on_connection f)
  updated f h = Ensures-modify _ λ x. h x.connection

  -- A connection that is not established; its handshake may go on.
  abbrev Early : Connection Deadline → Type 0
  Early s = I s × (s.phase ≢ established)

  abbrev EarlyLive : Live Deadline → Type 0
  EarlyLive x = Early x.connection

  abbrev KeepsEarly : Action (Live Deadline) (Unit {0}) → Type 0
  KeepsEarly m = Ensures EarlyLive m (λ u. EarlyLive) EarlyLive

  abbrev Ends : Action (Live Deadline) (Unit {0}) → Type 0
  Ends m = Ensures EarlyLive m (λ u. Kept) Kept

  abbrev pub At : Phase → Live Deadline → Type 0
  At phase x = I x.connection × (phase ≡ x.connection.phase)

  early-Ends : (m : Action (Live Deadline) (Unit {0})) → KeepsEarly m → Ends m
  early-Ends m keeps = Ensures-weaken m keeps (λ u x e. e.0) (λ x e. e.0)

  At-early :
      (phase : Phase)
      → phase ≢ established
      → (m : Action (Live Deadline) (Unit {0})) → Ends m
      → Ensures (At phase) m (λ u. Kept) Kept
  At-early phase early m ends = record {
    holds = λ x at. ends.holds x (at.0, λ same. early (at.1 ∙ same));
  }

  Early-IsStable : IsStable Early
  Early-IsStable = record {
    numbered = λ s (i, e). (closed.stable.numbered s i, e);
    sent =
        λ s n datagram deadline (i, e) given. (closed.stable.sent s n datagram deadline i given, e);
  }

  acked_early : KeepsEarly (send_ack q.packet_number q.epoch)
  acked_early = send_ack-Holds Early Early-IsStable.numbered q.packet_number q.epoch

  sent_early :
      (packet_type : ℕ) (payload : Bytes) (epoch : ℕ)
      → Ensures EarlyLive
          (send_packet c deadline packet_type payload epoch)
          (λ n. EarlyLive)
          EarlyLive
  sent_early = send_packet-Holds Early Early-IsStable c deadline

  resent_early : (message : Option Bytes) → KeepsEarly (resend p c h k app deadline message q)
  resent_early message = resend-Holds Early Early-IsStable p c h k app deadline message q

  handshake_early :
      {A : Type 0} (method : Action ServerHandshake A)
      → Ensures EarlyLive (with_handshake method) (λ a. EarlyLive) EarlyLive
  handshake_early method =
      Ensures-step _
        λ x (i, e). (closed.handshake x.connection (method x.connection.handshake).1 e i, e)

  updated-Early :
      (f : Connection Deadline → Connection Deadline)
      → ((s : Connection Deadline) → Early s → Early (f s))
      → KeepsEarly (on_connection f)
  updated-Early f h = Ensures-modify _ λ x. h x.connection

  answer_hello-Keeps : KeepsEarly (answer_hello p c h k app deadline q)
  unfolding answer_hello
  answer_hello-Keeps = Ensures->>= (send_ack q.packet_number q.epoch) acked_early λ u.
      Ensures->>= (with_handshake (process_client_hello p q.payload))
        (handshake_early (process_client_hello p q.payload))
        λ hello.
          Ensures->>= (on_connection (λ s. record s { cached_server_hello = some hello }))
            (updated-Early (λ s. record s { cached_server_hello = some hello })
              λ s (i, e). (closed.cached s (some hello) s.cached_server_finished i, e))
            λ u.
              Ensures->>= (send_packet c deadline handshake_type hello 0)
                (sent_early handshake_type hello 0)
                λ n.
                  updated-Early (λ s. record s { phase = await_cke })
                    λ s (i, e). (closed.waiting s await_cke (λ same. cc) i, λ same. cc)

  answer_key_exchange-Keeps : KeepsEarly (answer_key_exchange p c h k app deadline q)
  unfolding answer_key_exchange
  answer_key_exchange-Keeps = Ensures->>= (send_ack q.packet_number q.epoch) acked_early λ u.
      Ensures->>= (with_handshake (process_client_key_exchange p h k q.payload))
        (handshake_early (process_client_key_exchange p h k q.payload))
        λ finished.
          Ensures->>= (on_connection (λ s. record s { cached_server_finished = some finished }))
            (updated-Early (λ s. record s { cached_server_finished = some finished })
              λ s (i, e). (closed.cached s s.cached_server_hello (some finished) i, e))
            λ u.
              Ensures->>= (send_packet c deadline handshake_type finished 0)
                (sent_early handshake_type finished 0)
                λ n.
                  updated-Early (λ s. record s { phase = await_cf })
                    λ s (i, e). (closed.waiting s await_cf (λ same. cc) i, λ same. cc)

  -- The outcome of the check of ClientFinished.
  verified-Outcome :
      (x : Live Deadline) (o : Result KemtlsSession × ServerHandshake)
      → verify_client_finished p h q.payload x.connection.handshake ≡ o
      → EarlyLive x
      → Outcome
          (λ session y. I (establish session y.connection))
          Kept
          (o.0, record x { connection = record x.connection { handshake = o.1 } })
  verified-Outcome x (ok session, after) e kept =
      closed.establishes x.connection after session e kept.0
  verified-Outcome x (raised error, after) e kept =
      closed.handshake x.connection after kept.1 kept.0

  finish_handshake-Keeps : Ends (finish_handshake p c h k app deadline q)
  unfolding finish_handshake
  finish_handshake-Keeps =
      Ensures->>= (send_ack q.packet_number q.epoch)
        (Ensures-weaken (send_ack q.packet_number q.epoch) acked_early (λ u x e. e) (λ x e. e.0))
        λ u.
          Ensures->>= {Q = λ session y. I (establish session y.connection)}
            (with_handshake (verify_client_finished p h q.payload))
            (record {
              holds = λ x.
                  verified-Outcome x (verify_client_finished p h q.payload x.connection.handshake)
                    refl;
            })
            λ session.
              Ensures-modify {P = λ y. I (establish session y.connection)}
                (λ x. record x { connection = establish session x.connection }) λ x kept. kept

  answer_finished-Keeps :
      (cached : Option Bytes) → Ends (answer_finished p c h k app deadline cached q)
  unfolding answer_finished
  answer_finished-Keeps none = finish_handshake-Keeps
  answer_finished-Keeps (some finished) =
      elim (Bool-cases
        (is_text (type_of (deserialize_message p q.payload)) (codes "ClientKeyExchange"))) [
          | inl again ↦ rw again (
              early-Ends (resend p c h k app deadline (some finished) q)
                (resent_early (some finished)))
          | inr new ↦ rw new finish_handshake-Keeps
        ]

  process_application-Keeps :
      (receiver : Protector) (aad : Bytes)
      → Keeps (process_application p c h k app deadline receiver aad q)
  unfolding process_application
  process_application-Keeps receiver aad =
      Ensures->>= (lift (unprotect_packet c receiver q.packet_number q.payload aad))
        (Ensures-lift _ λ x r. r)
        λ plaintext.
          Ensures->>=
            (on_connection (λ s. record s {
              processed_app_packets = add q.packet_number s.processed_app_packets;
            }))
            (updated
              (λ s. record s {
                processed_app_packets = add q.packet_number s.processed_app_packets;
              })
              λ s. closed.processed s)
            λ u.
              Ensures->>= (lift (parse_http_request plaintext)) (Ensures-lift _ λ x r. r) λ request.
                Ensures->>= (gets (λ x. x.connection.session)) (Ensures-gets _) λ session.
                  Ensures->>= (lift (respond p c h k app deadline session plaintext))
                    (Ensures-lift _ λ x r. r)
                    λ response.
                      Ensures->>= (send_packet c deadline app_data response 1)
                        (sent app_data response 1) λ n. Ensures-pure tt λ x r. r

  handle_application-Keeps :
      (receiver : Option Protector) → Keeps (handle_application p c h k app deadline receiver q)
  unfolding handle_application
  handle_application-Keeps none = Ensures-pure tt λ x r. r
  handle_application-Keeps (some receiver) =
      Ensures->>= (send_ack q.packet_number q.epoch) acked λ u.
        Ensures->>= (gets (λ x. x.connection)) (Ensures-gets _) λ s.
          Ensures->>=
            (lift (build_packet_aad app_data s.state.connection_id q.packet_number q.epoch 0))
            (Ensures-lift _ λ x r. r)
            λ aad.
              Ensures-if (contains q.packet_number s.processed_app_packets) (pure tt)
                (process_application p c h k app deadline receiver aad q) (Ensures-pure tt λ x r. r)
                (process_application-Keeps receiver aad)

  -- A repeated ClientHello.
  abbrev resend_hello : Action (Live Deadline) (Unit {0})
  resend_hello x = resend p c h k app deadline x.connection.cached_server_hello q x

  in_handshake-Keeps :
      (answer : Action (Live Deadline) (Unit {0}))
      → Ends answer
      → Ends (in_handshake p c h k app deadline answer q)
  in_handshake-Keeps answer keeps =
      Ensures-if_at (q.packet_type == handshake_type) answer
        (λ x. if q.packet_type == initial then resend_hello x else pure tt x) keeps
        (Ensures-if_at (q.packet_type == initial) resend_hello (pure tt)
          (record {
            holds = λ x.
                (early-Ends (resend p c h k app deadline x.connection.cached_server_hello q)
                    (resent_early x.connection.cached_server_hello)).holds
                  x;
          })
          (Ensures-pure tt λ x e. e.0))

  pub in_phase-Keeps :
      (phase : Phase) → Ensures (At phase) (in_phase p c h k app deadline phase q) (λ u. Kept) Kept
  unfolding in_phase
  in_phase-Keeps await_initial =
      At-early await_initial (λ same. cc) _
        (Ensures-if_at (q.packet_type == initial) (answer_hello p c h k app deadline q) (pure tt)
          (early-Ends (answer_hello p c h k app deadline q) answer_hello-Keeps)
          (Ensures-pure tt λ x e. e.0))
  in_phase-Keeps await_cke =
      At-early await_cke (λ same. cc) _
        (in_handshake-Keeps (answer_key_exchange p c h k app deadline q)
          (early-Ends (answer_key_exchange p c h k app deadline q) answer_key_exchange-Keeps))
  in_phase-Keeps await_cf =
      At-early await_cf (λ same. cc) _
        (in_handshake-Keeps
          (λ x. answer_finished p c h k app deadline x.connection.cached_server_finished q x)
          (record {
            holds = λ x. (answer_finished-Keeps x.connection.cached_server_finished).holds x;
          }))
  in_phase-Keeps established =
      Ensures-if_at (q.packet_type == app_data)
        (λ x. handle_application p c h k app deadline x.connection.receiver q x) (pure tt)
        (record { holds = λ x at. (handle_application-Keeps x.connection.receiver).holds x at.0 })
        (Ensures-pure tt λ x at. at.0)

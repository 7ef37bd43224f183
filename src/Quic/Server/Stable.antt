-- ===== src/Quic/Server/Stable.antt =====
-- What sending leaves alone: a property of a connection that new packet numbers and kept packets
-- preserve holds after each ACK and each packet, whether the call returns or raises.
use kemtls.Common.{ℕ, ◌<◌, ◌≡◌, arith, ◌^◌, leb, Option, none, some, Bytes, to_bytes}
use kemtls.Common.Action.{
  Ensures, Ensures->>=, Ensures-lift, Ensures-gets, Ensures-modify, Ensures-pure, lift, gets,
}
use kemtls.Common.Error.{raise_if}
use kemtls.Crypto.Primitives.{ChaCha}
use kemtls.Quic.Packets.{encode_packet}
use kemtls.Quic.Server.{
  ack, Connection, Live, on_connection, sendto, take_number, new_packet, send_ack, keep_packet,
  packet_payload, send_packet,
}
use kemtls.Quic.Server.Handling.{resend}
use kemtls.Common.Json.{Python}
use kemtls.Crypto.Primitives.{Hash, Kem}
use kemtls.Http.Flask.{Environ, Reply}
use kemtls.Common.{◌≢◌, ◌≡◌}
use kemtls.Common.Dict.{add, nat_eq}
use kemtls.Handshake.Server.{ServerHandshake, verify_client_finished}
use kemtls.Quic.Server.{Phase, established}
use kemtls.Quic.Server.Handling.{establish}
use kemtls.Session.{KemtlsSession}
use kemtls.Common.Error.{ok, Result}
use kemtls.Quic.Packets.{QuicPacket}
use kemtls.Quic.Server.{handshake_type}
use kemtls.Quic.State.{next_packet_number}

-- `I` is kept when a number is taken, and when a packet is kept under a number that was taken.
pub record IsStable {Deadline : Type 0} (I : Connection Deadline → Type 0) : Type 0 where
  pub numbered :
      (s : Connection Deadline) → I s → I (record s { state = (next_packet_number s.state).1 })
  pub sent :
      (s : Connection Deadline) (n : ℕ) (datagram : Bytes) (deadline : Deadline)
      → I s
      → n < s.state.send_packet_number
      → I (keep_packet n datagram deadline s)

module _ {Deadline : Type 0} (I : Connection Deadline → Type 0)
    (numbered : (s : Connection Deadline)
      → I s
      → I (record s { state = (next_packet_number s.state).1 })) where
  abbrev pub Holds : Live Deadline → Type 0
  Holds x = I x.connection

  abbrev pub Taken : ℕ → Live Deadline → Type 0
  Taken n x = I x.connection × (n < x.connection.state.send_packet_number)

  take_number-Taken : Ensures Holds take_number Taken Holds
  unfolding next_packet_number
  take_number-Taken = record { holds = λ x h. (numbered x.connection h, omega arith) }

  sendto-Holds : (n : ℕ) (datagram : Bytes) → Ensures (Taken n) (sendto datagram) (λ u. Holds) Holds
  sendto-Holds n datagram = Ensures-modify _ λ x h. h.0

  pub send_ack-Holds : (n epoch : ℕ) → Ensures Holds (send_ack n epoch) (λ u. Holds) Holds
  unfolding send_ack
  send_ack-Holds n epoch =
      Ensures->>= (lift (raise_if (leb (2 ^ 64) n) _)) (Ensures-lift _ λ x h. h) λ u.
        Ensures->>= (gets (λ x. x.connection.state.connection_id)) (Ensures-gets _) λ id.
          Ensures->>= take_number take_number-Taken λ number.
            Ensures->>= (lift (encode_packet (new_packet ack id number (to_bytes 8 n) epoch)))
              (Ensures-lift _ λ x h. h.0) λ datagram. sendto-Holds number datagram

module _ {Deadline : Type 0} (I : Connection Deadline → Type 0) (stable : IsStable I) where
  abbrev SentHolds : Live Deadline → Type 0
  SentHolds x = I x.connection

  abbrev Numbered : ℕ → Live Deadline → Type 0
  Numbered n x = I x.connection × (n < x.connection.state.send_packet_number)

  pub send_packet-Holds :
      (c : ChaCha) (deadline : Deadline) (packet_type : ℕ) (payload : Bytes) (epoch : ℕ)
      → Ensures SentHolds
          (send_packet c deadline packet_type payload epoch)
          (λ n. SentHolds)
          SentHolds
  unfolding send_packet
  send_packet-Holds c deadline packet_type payload epoch =
      Ensures->>= take_number (take_number-Taken I stable.numbered) λ number.
        Ensures->>= (gets (λ x. x.connection)) (Ensures-gets _) λ s.
          Ensures->>=
            (lift (
              packet_payload c deadline s.sender s.state.connection_id packet_type number payload
                epoch))
            (Ensures-lift _ λ x h. h.0)
            λ body.
              Ensures->>=
                (lift
                  (encode_packet (new_packet packet_type s.state.connection_id number body epoch)))
                (Ensures-lift _ λ x h. h.0)
                λ datagram.
                  Ensures->>= (sendto datagram) (Ensures-modify {Q = Numbered number} _ λ x h. h)
                    λ u.
                      Ensures->>= (on_connection (keep_packet number datagram deadline))
                        (Ensures-modify {Q = SentHolds} _
                          λ x h. stable.sent x.connection number datagram deadline h.0 h.1)
                        λ u. Ensures-pure number λ x h. h

  pub resend-Holds :
      (p : Python) (c : ChaCha) (h : Hash) (k : Kem) (app : Environ → Result Reply)
      (deadline : Deadline) (message : Option Bytes) (q : QuicPacket)
      → Ensures SentHolds (resend p c h k app deadline message q) (λ u. SentHolds) SentHolds
  unfolding resend
  resend-Holds p c h k app deadline none q = Ensures-pure tt λ x holds. holds
  resend-Holds p c h k app deadline (some message) q =
      Ensures->>= (send_ack q.packet_number q.epoch)
        (send_ack-Holds I stable.numbered q.packet_number q.epoch)
        λ u.
          Ensures->>= (send_packet c deadline handshake_type message 0)
            (send_packet-Holds c deadline handshake_type message 0)
            λ number. Ensures-pure tt λ x holds. holds

-- `I` is kept by each write of the handlers of the packet `q`; the session is established only with
-- what `verify_client_finished` returned for the packet, and the handshake object goes on only before.
pub record IsClosed {Deadline : Type 0} (p : Python) (h : Hash) (q : QuicPacket)
    (I : Connection Deadline → Type 0) : Type 0 where
  pub stable : IsStable I
  pub handshake :
      (s : Connection Deadline) (after : ServerHandshake)
      → s.phase ≢ established
      → I s
      → I (record s { handshake = after })
  pub cached :
      (s : Connection Deadline) (hello finished : Option Bytes)
      → I s
      → I (record s { cached_server_hello = hello; cached_server_finished = finished })
  pub waiting :
      (s : Connection Deadline) (phase : Phase)
      → phase ≢ established
      → I s
      → I (record s { phase = phase })
  pub processed :
      (s : Connection Deadline)
      → I s
      → I (record s { processed_app_packets = add q.packet_number s.processed_app_packets })
  pub establishes :
      (s : Connection Deadline) (after : ServerHandshake) (session : KemtlsSession)
      → verify_client_finished p h q.payload s.handshake ≡ (ok session, after)
      → I s
      → I (establish session (record s { handshake = after }))

-- ===== src/Quic/Server/Replay.antt =====
-- Application packets that come again.
use kemtls.Common.{
  ◌⊎◌, inl, inr, List, [], ◌∷◌, ◌++◌, Bytes, to_bytes, leb, ◌^◌, ℕ, ◌≡◌, refl, ap, ◌∙◌, arith, true,
  Option, none, some, ◌==◌,
}
use kemtls.Common.Action.{
  Action, Ensures, Ensures->>=, Ensures-lift, Ensures-lift_value, Ensures-same, Ensures-gets,
  Ensures-gets_value, Ensures-modify, Ensures-pure, Ensures-if_true, Ensures-if_false,
  Ensures-if_at_true, Ensures-if_at_false, outcome_after, lift, gets, pure,
}
use kemtls.Common.Dict.{contains, nat_eq, contains-add}
use kemtls.Common.Error.{Result, ok, raise_if}
use kemtls.Common.Json.{Python}
use kemtls.Crypto.Primitives.{ChaCha, Hash, Kem}
use kemtls.Http.Flask.{Environ, Reply}
use kemtls.Quic.Packets.{QuicPacket, encode_packet, build_packet_aad}
use kemtls.Quic.Protection.{Protector}
use kemtls.Quic.Server.{
  initial, handshake_type, app_data, ack, Phase, await_initial, await_cke, await_cf, established,
  Connection, Live, on_connection, take_number, new_packet, send_ack, process_ack,
}
use kemtls.Common.{if◌then◌else◌, false}
use kemtls.Common.Action.{◌>>=◌}
use kemtls.Quic.Server.Handling.{
  answer_hello, answer_key_exchange, answer_finished, process_application, handle_application,
  in_handshake, in_phase, handle_packet,
}
use kemtls.Quic.Server.Run.{IsInvariant, Run, Run-Kept}
use kemtls.Quic.State.{next_packet_number, note_received_packet}

-- An ACK of the packet, under some number, and no other datagram.
pub record Acked (q : QuicPacket) (before after : List Bytes) : Type 0 where
  pub connection_id : Bytes
  pub packet_number : ℕ
  pub datagram : Bytes
  pub encoded :
      encode_packet
        (new_packet ack connection_id packet_number (to_bytes 8 q.packet_number) q.epoch)
      ≡ ok datagram
  pub sent : after ≡ before ++ datagram ∷ []

abbrev pub AckedAtMost : QuicPacket → (before after : List Bytes) → Type 0
AckedAtMost q before after = (after ≡ before) ⊎ Acked q before after

module _ {Deadline : Type 0} where
  -- The two connections differ at most in the numbers of packets sent and received and in the
  -- ACKs pending.
  abbrev pub SameButNumbers : Connection Deadline → Connection Deadline → Type 0
  SameButNumbers s t =
      record t {
        state = record t.state {
          send_packet_number = s.state.send_packet_number;
          recv_packet_number = s.state.recv_packet_number;
          received_packets = s.state.received_packets;
          pending_acks = s.state.pending_acks;
        };
      }
      ≡ s

  Processed-IsInvariant :
      (p : Python) (h : Hash) (n : ℕ)
      → IsInvariant {Deadline = Deadline} p h
          (λ q. Unit {0})
          (λ s. contains n s.processed_app_packets ≡ true)
  Processed-IsInvariant p h n = record {
    during = λ q s. contains n s.processed_app_packets ≡ true;
    closed = λ q seen. record {
      stable = record { numbered = λ s i. i; sent = λ s n datagram deadline i given. i };
      handshake = λ s after early i. i;
      cached = λ s hello finished i. i;
      waiting = λ s phase early i. i;
      processed = λ s i. ground (arith, contains-add q.packet_number n s.processed_app_packets, i);
      establishes = λ s after session e i. i;
    };
    noted = λ q s i. i;
    settled = λ q s i. i;
    acknowledged = λ n s i. i;
    again = λ n deadline sent s there more i. i;
  }

  module _ (p : Python) (c : ChaCha) (h : Hash) (k : Kem) (app : Environ → Result Reply)
      (deadline : Deadline) (q : QuicPacket) (before : Live Deadline)
      (known : contains q.packet_number before.connection.processed_app_packets ≡ true)
      (is_app : q.packet_type ≡ app_data) where
    -- Before the ACK, and after it.
    abbrev Quiet : Live Deadline → Type 0
    Quiet x = SameButNumbers before.connection x.connection × (x.datagrams ≡ before.datagrams)

    abbrev Same : Live Deadline → Type 0
    Same x =
        SameButNumbers before.connection x.connection × AckedAtMost q before.datagrams x.datagrams

    abbrev KeepsSame : Action (Live Deadline) (Unit {0}) → Type 0
    KeepsSame m = Ensures Quiet m (λ u. Same) Same

    Quiet-Same : (x : Live Deadline) → Quiet x → Same x
    Quiet-Same x (same, none_sent) = (same, inl none_sent)

    still_known :
        (s : Connection Deadline)
        → SameButNumbers before.connection s
        → contains q.packet_number s.processed_app_packets ≡ true
    still_known s same =
        ap (λ (t : Connection Deadline). contains q.packet_number t.processed_app_packets) same
        ∙ known

    send_ack-Same : KeepsSame (send_ack q.packet_number q.epoch)
    unfolding send_ack next_packet_number
    send_ack-Same =
        Ensures->>= (lift (raise_if (leb (2 ^ 64) q.packet_number) _)) (Ensures-lift _ Quiet-Same)
          λ u. Ensures->>= (gets (λ x. x.connection.state.connection_id)) (Ensures-gets _) λ id.
            Ensures->>= {Q = λ n. Quiet} take_number (record { holds = λ x quiet. quiet })
              λ number.
                Ensures->>=
                  (lift
                    (encode_packet (new_packet ack id number (to_bytes 8 q.packet_number) q.epoch)))
                  (Ensures-lift_value _ Quiet-Same)
                  λ datagram.
                    Ensures-modify {Q = Same}
                      (λ x. record x { datagrams = x.datagrams ++ datagram ∷ [] })
                      λ x ((same, none_sent), encoded). (
                        same,
                        inr (record {
                          connection_id = id;
                          packet_number = number;
                          datagram = datagram;
                          encoded = encoded;
                          sent = ap (λ (ds : List Bytes). ds ++ datagram ∷ []) none_sent;
                        }),
                      )

    handle_application-Same :
        (receiver : Option Protector)
        → KeepsSame (handle_application p c h k app deadline receiver q)
    unfolding handle_application
    handle_application-Same none = Ensures-pure tt Quiet-Same
    handle_application-Same (some receiver) =
        Ensures->>= (send_ack q.packet_number q.epoch) send_ack-Same λ u.
          Ensures->>= {Q = λ s x. Same x × (s ≡ x.connection)} (gets (λ x. x.connection))
            (Ensures-gets_value _)
            λ s.
              Ensures->>=
                (lift (build_packet_aad app_data s.state.connection_id q.packet_number q.epoch 0))
                (Ensures-lift _ λ x i. i.0)
                λ aad.
                  Ensures-if_true (contains q.packet_number s.processed_app_packets) (pure tt)
                    (process_application p c h k app deadline receiver aad q)
                    (λ x i.
                      ap
                        (λ (t : Connection Deadline).
                          contains q.packet_number t.processed_app_packets)
                        i.1
                      ∙ still_known x.connection i.0.0)
                    (Ensures-pure tt λ x i. i.0)

    in_handshake-Same :
        (answer : Action (Live Deadline) (Unit {0}))
        → KeepsSame (in_handshake p c h k app deadline answer q)
    in_handshake-Same answer =
        Ensures-if_at_false (q.packet_type == handshake_type) answer _
          (λ x i. ground (arith, is_app))
          (Ensures-if_at_false (q.packet_type == initial) _ (pure tt)
            (λ x i. ground (arith, is_app)) (Ensures-pure tt Quiet-Same))

    in_phase-Same : (phase : Phase) → KeepsSame (in_phase p c h k app deadline phase q)
    unfolding in_phase
    in_phase-Same await_initial =
        Ensures-if_at_false (q.packet_type == initial) (answer_hello p c h k app deadline q)
          (pure tt) (λ x i. ground (arith, is_app)) (Ensures-pure tt Quiet-Same)
    in_phase-Same await_cke = in_handshake-Same (answer_key_exchange p c h k app deadline q)
    in_phase-Same await_cf =
        in_handshake-Same
          (λ x. answer_finished p c h k app deadline x.connection.cached_server_finished q x)
    in_phase-Same established =
        Ensures-if_at_true (q.packet_type == app_data)
          (λ x. handle_application p c h k app deadline x.connection.receiver q x) (pure tt)
          (λ x i. ground (arith, is_app))
          (record { holds = λ x. (handle_application-Same x.connection.receiver).holds x })

    handle_packet-Same : KeepsSame (handle_packet p c h k app deadline q)
    unfolding handle_packet note_received_packet
    handle_packet-Same =
        Ensures-if_false (q.packet_type == ack) (process_ack q.payload) _
          (λ x i. ground (arith, is_app))
          (Ensures->>= {Q = λ u. Quiet}
            (on_connection (λ s. record s { state = note_received_packet q.packet_number s.state }))
            (Ensures-modify _ λ x i. i)
            λ u.
              Ensures->>= (gets (λ x. x.connection.phase)) (Ensures-gets _)
                λ phase. in_phase-Same phase)

    -- Whatever the application is, it makes no difference.
    module _ (other : Environ → Result Reply) where
      abbrev after_ack :
          Protector → (Environ → Result Reply) → Unit {0} → Action (Live Deadline) (Unit {0})
      after_ack receiver application u = do
        s ← gets (λ x. x.connection)
        aad ← lift (build_packet_aad app_data s.state.connection_id q.packet_number q.epoch 0)
        if contains q.packet_number s.processed_app_packets
            then pure tt
            else process_application p c h k application deadline receiver aad q

      handle_application_other :
          (receiver : Option Protector) (x : Live Deadline)
          → Quiet x
          → handle_application p c h k other deadline receiver q x
            ≡ handle_application p c h k app deadline receiver q x
      unfolding handle_application
      handle_application_other none x quiet = refl
      handle_application_other (some receiver) x quiet =
          Ensures-same (send_ack q.packet_number q.epoch) (after_ack receiver other)
            (after_ack receiver app) x send_ack-Same quiet
            λ u y same.
              let known_at : contains q.packet_number y.connection.processed_app_packets ≡ true =
                still_known y.connection same.0 in
              rw known_at refl

      in_phase_other :
          (phase : Phase) (x : Live Deadline)
          → Quiet x
          → in_phase p c h k other deadline phase q x ≡ in_phase p c h k app deadline phase q x
      unfolding in_phase
      in_phase_other await_initial x quiet = rw is_app refl
      in_phase_other await_cke x quiet = rw is_app refl
      in_phase_other await_cf x quiet = rw is_app refl
      in_phase_other established x quiet =
          let e : (q.packet_type == app_data) ≡ true = ground (arith, is_app) in
          rw e (handle_application_other x.connection.receiver x quiet)

      handle_packet_other :
          handle_packet p c h k other deadline q before
          ≡ handle_packet p c h k app deadline q before
      unfolding handle_packet note_received_packet
      handle_packet_other =
          let e : (q.packet_type == ack) ≡ false = ground (arith, is_app) in
          rw e (
            in_phase_other before.connection.phase
              (record before {
                connection = record before.connection {
                  state = note_received_packet q.packet_number before.connection.state;
                };
              })
              (refl, refl))

  -- Once the server has processed the application packet `n`, a packet of that number changes
  -- nothing of the connection but the numbers of packets sent and received and the ACKs pending,
  -- after any further packets and retransmissions: nothing is sent but an ACK at most, no response
  -- is kept, and what happens does not depend on the application.
  pub handle_packet_replayed :
      (p : Python) (c : ChaCha) (h : Hash) (k : Kem) (app other : Environ → Result Reply)
      (deadline : Deadline) (q : QuicPacket) {x y : Live Deadline}
      → contains q.packet_number x.connection.processed_app_packets ≡ true
      → Run p c h k app x y
      → q.packet_type ≡ app_data
      → SameButNumbers y.connection (handle_packet p c h k app deadline q y).1.connection
        × AckedAtMost q y.datagrams (handle_packet p c h k app deadline q y).1.datagrams
        × (handle_packet p c h k other deadline q y ≡ handle_packet p c h k app deadline q y)
  handle_packet_replayed p c h k app other deadline q {x} {y} known run is_app =
      let still : contains q.packet_number y.connection.processed_app_packets ≡ true =
        Run-Kept p c h k app (λ q. Unit {0})
          (λ s. contains q.packet_number s.processed_app_packets ≡ true)
          (Processed-IsInvariant p h q.packet_number) (λ q. tt) run known in
      let (same, acked) =
        outcome_after (Same p c h k app deadline q y still is_app)
          (handle_packet p c h k app deadline q y)
          ((handle_packet-Same p c h k app deadline q y still is_app).holds y (refl, refl)) in
      (same, acked, handle_packet_other p c h k app deadline q y still is_app other)

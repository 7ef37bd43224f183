-- ===== src/Quic/Server/Run.antt =====
-- Runs of a connection of the server, and the properties that every run keeps.
use kemtls.Common.{
  ℕ, ◌+◌, ◌<◌, ◌≡◌, refl, arith, inl, inr, none, some, Option, Bytes, Bool-cases, leb, ◌==◌, length,
  from_bytes,
}
use kemtls.Common.Action.{
  Ensures, Ensures->>=, Ensures-gets_value, Ensures-modify, Ensures-pure, Ensures-if, gets, pure,
}
use kemtls.Common.Dict.{nat_eq}
use kemtls.Common.Error.{Result}
use kemtls.Common.Json.{Python}
use kemtls.Crypto.Primitives.{ChaCha, Hash, Kem}
use kemtls.Http.Flask.{Environ, Reply}
use kemtls.Quic.Packets.{QuicPacket}
use kemtls.Quic.Server.{ack, Connection, Live, on_connection, process_ack}
use kemtls.Quic.Server.Handling.{in_phase, handle_packet}
use kemtls.Quic.State.{note_received_packet}
use kemtls.Quic.Server.Invariant.{in_phase-Keeps}
use kemtls.Common.Action.{Ensures-weaken, outcome_after}
use kemtls.Common.Dict.{get}
use kemtls.Common.{List, [], ◌∷◌}
use kemtls.Quic.Server.{max_retries, SentPacket}
use kemtls.Quic.Server.Handling.{retransmit_packet, retransmit_entries, retransmit_expired}
use kemtls.Quic.State.{RetransmissionEntry, schedule_retransmission, expired_retransmissions}
use kemtls.Common.{Bool}
use kemtls.Common.Dict.{put, remove}
use kemtls.Quic.State.{acknowledge_packet}
use kemtls.Quic.Server.Stable.{IsClosed}

-- A property that holds between the packets, which are among those of `S`; while the packet `q` is
-- handled, `during q` holds.
pub record IsInvariant {Deadline : Type 0} (p : Python) (h : Hash) (S : QuicPacket → Type 0)
    (I : Connection Deadline → Type 0) : Type 1 where
  pub during : QuicPacket → Connection Deadline → Type 0
  pub closed : (q : QuicPacket) → S q → IsClosed p h q (during q)
  pub noted :
      (q : QuicPacket) (s : Connection Deadline)
      → I s
      → during q (record s { state = note_received_packet q.packet_number s.state })
  pub settled : (q : QuicPacket) (s : Connection Deadline) → during q s → I s
  pub acknowledged :
      (n : ℕ) (s : Connection Deadline)
      → I s
      → I (record s {
        state = (acknowledge_packet n s.state).1;
        sent_packets = remove n s.sent_packets;
      })
  pub again :
      (n : ℕ) (deadline : Deadline) (sent : SentPacket Deadline) (s : Connection Deadline)
      → get n s.sent_packets ≡ some sent
      → sent.attempts < max_retries
      → I s
      → I (record s {
        state = schedule_retransmission n deadline s.state;
        sent_packets =
            put n
              (record { bytes = sent.bytes; deadline = deadline; attempts = sent.attempts + 1 })
              s.sent_packets;
      })

module _ {Deadline : Type 0} (p : Python) (c : ChaCha) (h : Hash) (k : Kem)
    (app : Environ → Result Reply) where
  -- A packet is handled, or expired packets are sent again.
  pub data Step (x : Live Deadline) : Live Deadline → Type 0 where
    packet :
        (deadline : Deadline) (q : QuicPacket) → Step x (handle_packet p c h k app deadline q x).1
    retransmit :
        (le : Deadline → Deadline → Bool) (now deadline : Deadline)
        → Step x (retransmit_expired le now deadline x)

  pub data Run (x : Live Deadline) : Live Deadline → Type 0 where
    here : Run x x
    next : {y z : Live Deadline} → Run x y → Step y z → Run x z

module _ {Deadline : Type 0} (p : Python) (c : ChaCha) (h : Hash) (k : Kem)
    (app : Environ → Result Reply) (S : QuicPacket → Type 0) (I : Connection Deadline → Type 0)
    (kept : IsInvariant p h S I) where
  abbrev LiveKept : Live Deadline → Type 0
  LiveKept x = I x.connection

  process_ack-Kept :
      (payload : Bytes) → Ensures LiveKept (process_ack payload) (λ u. LiveKept) LiveKept
  unfolding process_ack
  process_ack-Kept payload =
      Ensures-if (length payload == 8) _ (pure tt)
        (Ensures-modify _ λ x. kept.acknowledged (from_bytes payload) x.connection)
        (Ensures-pure tt λ x holds. holds)

  pub handle_packet-Kept :
      (deadline : Deadline) (q : QuicPacket)
      → S q
      → Ensures LiveKept (handle_packet p c h k app deadline q) (λ u. LiveKept) LiveKept
  unfolding handle_packet
  handle_packet-Kept deadline q seen =
      Ensures-if (q.packet_type == ack) (process_ack q.payload) _ (process_ack-Kept q.payload) (
        Ensures->>= {Q = λ u x. kept.during q x.connection}
          (on_connection (λ s. record s { state = note_received_packet q.packet_number s.state }))
          (Ensures-modify _ λ x. kept.noted q x.connection)
          λ u.
            Ensures->>= {Q = λ phase x. kept.during q x.connection × (phase ≡ x.connection.phase)}
              (gets (λ x. x.connection.phase)) (Ensures-gets_value _)
              λ phase.
                Ensures-weaken (in_phase p c h k app deadline phase q)
                  (in_phase-Keeps p c h k app deadline q (kept.during q) (kept.closed q seen) phase)
                  (λ u x. kept.settled q x.connection) (λ x. kept.settled q x.connection))

  retransmit_packet-Kept :
      (deadline : Deadline) (n : ℕ) (found : Option (SentPacket Deadline)) (x : Live Deadline)
      → get n x.connection.sent_packets ≡ found
      → LiveKept x
      → LiveKept (retransmit_packet deadline n found x)
  retransmit_packet-Kept deadline n none x there holds = holds
  retransmit_packet-Kept deadline n (some sent) x there holds =
      elim (Bool-cases (leb max_retries sent.attempts)) [
        | inl last ↦ rw last holds
        | inr more ↦ rw more (kept.again n deadline sent x.connection there (ground arith) holds)
      ]

  retransmit_entries-Kept :
      (deadline : Deadline) (entries : List (RetransmissionEntry Deadline)) (x : Live Deadline)
      → LiveKept x
      → LiveKept (retransmit_entries deadline entries x)
  unfolding retransmit_entries
  retransmit_entries-Kept deadline [] x holds = holds
  retransmit_entries-Kept deadline (entry ∷ entries) x holds =
      retransmit_entries-Kept deadline entries
        (retransmit_packet deadline entry.packet_number
          (get entry.packet_number x.connection.sent_packets) x)
        (retransmit_packet-Kept deadline entry.packet_number
          (get entry.packet_number x.connection.sent_packets) x refl holds)

  pub retransmit_expired-Kept :
      (le : Deadline → Deadline → Bool) (now deadline : Deadline) (x : Live Deadline)
      → LiveKept x
      → LiveKept (retransmit_expired le now deadline x)
  unfolding retransmit_expired
  retransmit_expired-Kept le now deadline x =
      retransmit_entries-Kept deadline (expired_retransmissions le now x.connection.state) x

  Step-Kept :
      ((q : QuicPacket) → S q)
      → {x y : Live Deadline} → Step p c h k app x y
      → LiveKept x
      → LiveKept y
  Step-Kept all {x} (packet deadline q) holds =
      outcome_after LiveKept (handle_packet p c h k app deadline q x)
        ((handle_packet-Kept deadline q (all q)).holds x holds)
  Step-Kept all {x} (retransmit le now deadline) holds =
      retransmit_expired-Kept le now deadline x holds

  -- What is kept holds after any run.
  pub Run-Kept :
      ((q : QuicPacket) → S q)
      → {x y : Live Deadline} → Run p c h k app x y
      → LiveKept x
      → LiveKept y
  Run-Kept all here holds = holds
  Run-Kept all (next run step) holds = Step-Kept all step (Run-Kept all run holds)

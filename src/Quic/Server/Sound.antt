-- ===== src/Quic/Server/Sound.antt =====
-- What holds of a connection of the server after any packets and retransmissions.
use mathlib.Core.Path.{subst}
use kemtls.Common.{
  ℕ, ◌+◌, ◌<◌, ◌≤◌, ◌≡◌, refl, arith, inl, inr, true, some, Option, Bytes, Bool-cases, ◌==◌,
}
use kemtls.Common.Dict.{get, put, contains, add, nat_eq, get-put, get-remove, contains-add}
use kemtls.Common.Error.{Result}
use kemtls.Common.Json.{Python}
use kemtls.Crypto.Primitives.{ChaCha, Hash, Kem}
use kemtls.Http.Flask.{Environ, Reply}
use kemtls.Quic.Protection.{Protector}
use kemtls.Common.Dict.{Dict}
use kemtls.Quic.Server.{max_retries, Phase, established, SentPacket, Connection}
use kemtls.Quic.Server.Handling.{establish, over_quic, accept_connection}
use kemtls.Common.{◌≢◌}
use kemtls.Common.Dict.{remove}
use kemtls.Handshake.Server.{ServerHandshake}
use kemtls.Quic.Server.Run.{IsInvariant}
use kemtls.Quic.Server.Table.{Server}
use kemtls.Quic.Server.Rounds.{Rounds, Rounds-invariant}
use kemtls.Common.Dict.{text_eq}
use kemtls.Quic.State.{new_connection}
use kemtls.Common.{Str, []}
use kemtls.Quic.State.Invariant.{new_connection-IsConsistent}
use kemtls.Quic.Server.Stable.{IsStable}
use kemtls.Quic.State.{
  next_packet_number, note_received_packet, acknowledge_packet, schedule_retransmission,
}
use kemtls.Quic.State.Invariant.{
  IsConsistent, number-IsConsistent, schedule-IsConsistent, receive-IsConsistent,
  acknowledge-IsConsistent,
}
use kemtls.Session.{KemtlsSession}

-- A session and the packet protection with its keys.
pub record Keyed (has : Option KemtlsSession) (sender receiver : Option Protector) : Type 0 where
  pub session : KemtlsSession
  pub has_session : has ≡ some session
  pub sends :
      sender ≡ some (record { key = session.server_write_key; iv = session.server_write_iv })
  pub receives :
      receiver ≡ some (record { key = session.client_write_key; iv = session.client_write_iv })

module _ {Deadline : Type 0} where
  -- A packet that is kept, under a number that was given out and with four attempts at most.
  abbrev Kept : (next : ℕ) → Dict ℕ (SentPacket Deadline) → Type 0
  Kept next packets =
      (n : ℕ) (e : SentPacket Deadline)
      → get n packets ≡ some e
      → (n < next) × (e.attempts ≤ max_retries)

  pub record IsSound (s : Connection Deadline) : Type 0 where
    pub consistent : IsConsistent s.state
    pub kept : Kept s.state.send_packet_number s.sent_packets
    pub noted :
        (n : ℕ)
        → contains n s.processed_app_packets ≡ true
        → contains n s.state.received_packets ≡ true
    pub keyed : s.phase ≡ established → Keyed s.session s.sender s.receiver

  -- A sound connection that has received the packet `n`.
  abbrev Received : ℕ → Connection Deadline → Type 0
  Received n s = IsSound s × (contains n s.state.received_packets ≡ true)

  Kept-put :
      (next m : ℕ) (sent : SentPacket Deadline) (packets : Dict ℕ (SentPacket Deadline))
      → Kept next packets
      → m < next
      → sent.attempts ≤ max_retries
      → Kept next (put m sent packets)
  Kept-put next m sent packets h given bounded j e there = elim (Bool-cases (m == j)) [
    | inl same ↦
        let found : sent ≡ e = ground (arith, get-put m j sent packets) in
        (ground arith, subst (λ (e : SentPacket Deadline). e.attempts ≤ max_retries) found bounded)
    | inr other ↦ h j e (ground (arith, get-put m j sent packets))
  ]

  Received-IsStable : (n : ℕ) → IsStable (Received n)
  unfolding next_packet_number schedule_retransmission
  Received-IsStable n = record {
    numbered = λ s (h, received). (
      record {
        consistent = number-IsConsistent s.state h.consistent;
        kept = λ m e there. let (given, bounded) = h.kept m e there in (omega arith, bounded);
        noted = h.noted;
        keyed = h.keyed;
      },
      received,
    );
    sent = λ s m datagram deadline (h, received) given. (
      record {
        consistent = schedule-IsConsistent s.state h.consistent m deadline given;
        kept = Kept-put s.state.send_packet_number m _ s.sent_packets h.kept given (omega arith);
        noted = h.noted;
        keyed = h.keyed;
      },
      received,
    );
  }

  Kept-remove :
      (next m : ℕ) (packets : Dict ℕ (SentPacket Deadline))
      → Kept next packets
      → Kept next (remove m packets)
  Kept-remove next m packets h j e there = h j e (ground (arith, get-remove m j packets))

  -- Another handshake object, and the messages that are cached, make no difference.
  handshake-Received :
      (n : ℕ) (s : Connection Deadline) (handshake : ServerHandshake)
      → Received n s
      → Received n (record s { handshake = handshake })
  handshake-Received n s handshake (h, received) = (
    record { consistent = h.consistent; kept = h.kept; noted = h.noted; keyed = h.keyed },
    received,
  )

  note-Received :
      (n : ℕ) (s : Connection Deadline)
      → IsSound s
      → Received n (record s { state = note_received_packet n s.state })
  unfolding note_received_packet
  note-Received n s h = (
    record {
      consistent = receive-IsConsistent s.state h.consistent n;
      kept = h.kept;
      noted = λ j e. ground (arith, contains-add n j s.state.received_packets, h.noted j e);
      keyed = h.keyed;
    },
    ground (arith, contains-add n n s.state.received_packets),
  )

  acknowledge-Sound :
      (n : ℕ) (s : Connection Deadline)
      → IsSound s
      → IsSound (record s {
        state = (acknowledge_packet n s.state).1;
        sent_packets = remove n s.sent_packets;
      })
  unfolding acknowledge_packet
  acknowledge-Sound n s h = record {
    consistent = acknowledge-IsConsistent s.state h.consistent n;
    kept = Kept-remove s.state.send_packet_number n s.sent_packets h.kept;
    noted = h.noted;
    keyed = h.keyed;
  }

  -- The packet is marked as processed.
  processed-Received :
      (n : ℕ) (s : Connection Deadline)
      → Received n s
      → Received n (record s { processed_app_packets = add n s.processed_app_packets })
  processed-Received n s (h, received) = (
    record {
      consistent = h.consistent;
      kept = h.kept;
      noted = λ j e. ground (arith, contains-add n j s.processed_app_packets, h.noted j, received);
      keyed = h.keyed;
    },
    received,
  )

  -- A phase before the last.
  waiting-Received :
      (n : ℕ) (s : Connection Deadline) (phase : Phase)
      → phase ≢ established
      → Received n s
      → Received n (record s { phase = phase })
  waiting-Received n s phase early (h, received) = (
    record {
      consistent = h.consistent;
      kept = h.kept;
      noted = h.noted;
      keyed = λ same. absurd (early same);
    },
    received,
  )

  cached-Received :
      (n : ℕ) (s : Connection Deadline) (hello finished : Option Bytes)
      → Received n s
      → Received n (record s { cached_server_hello = hello; cached_server_finished = finished })
  cached-Received n s hello finished (h, received) = (
    record { consistent = h.consistent; kept = h.kept; noted = h.noted; keyed = h.keyed },
    received,
  )

  establish-Received :
      (n : ℕ) (s : Connection Deadline) (session : KemtlsSession)
      → Received n s
      → Received n (establish session s)
  establish-Received n s session (h, received) = (
    record {
      consistent = h.consistent;
      kept = h.kept;
      noted = h.noted;
      keyed = λ same. record {
        session = over_quic session;
        has_session = refl;
        sends = refl;
        receives = refl;
      };
    },
    received,
  )

  again-Sound :
      (n : ℕ) (deadline : Deadline) (sent : SentPacket Deadline) (s : Connection Deadline)
      → get n s.sent_packets ≡ some sent
      → sent.attempts < max_retries
      → IsSound s
      → IsSound (record s {
        state = schedule_retransmission n deadline s.state;
        sent_packets =
            put n
              (record { bytes = sent.bytes; deadline = deadline; attempts = sent.attempts + 1 })
              s.sent_packets;
      })
  unfolding schedule_retransmission
  again-Sound n deadline sent s there more h =
      let (given, bounded) = h.kept n sent there in
      record {
        consistent = schedule-IsConsistent s.state h.consistent n deadline given;
        kept = Kept-put s.state.send_packet_number n _ s.sent_packets h.kept given (omega arith);
        noted = h.noted;
        keyed = h.keyed;
      }

  accept_connection-Sound :
      (id : Bytes) (peer_address : Str × ℕ) (handshake : ServerHandshake)
      → IsSound (accept_connection {Deadline = Deadline} id peer_address handshake)
  unfolding new_connection contains get
  accept_connection-Sound id peer_address handshake = record {
    consistent = new_connection-IsConsistent id;
    kept = λ n e there. absurd (ground arith);
    noted = λ n e. absurd (ground arith);
    keyed = λ same. absurd cc;
  }

  IsSound-IsInvariant :
      (p : Python) (h : Hash) → IsInvariant {Deadline = Deadline} p h (λ q. Unit {0}) IsSound
  IsSound-IsInvariant p h = record {
    during = λ q. Received q.packet_number;
    closed = λ q seen. record {
      stable = Received-IsStable q.packet_number;
      handshake = λ s after early. handshake-Received q.packet_number s after;
      cached = cached-Received q.packet_number;
      waiting = waiting-Received q.packet_number;
      processed = processed-Received q.packet_number;
      establishes = λ s after session e r.
          establish-Received q.packet_number (record s { handshake = after }) session
            (handshake-Received q.packet_number s after r);
    };
    noted = λ q. note-Received q.packet_number;
    settled = λ q s r. r.0;
    acknowledged = acknowledge-Sound;
    again = again-Sound;
  }

  -- In any rounds of the server's loop, from an empty table, for each connection of the table: its
  -- numbers are consistent, each packet it keeps has a number that was given out and a count of
  -- attempts of four at most, each processed packet was received, and a connection that is
  -- established has a session and protects packets with that session's keys.
  pub Rounds-IsSound :
      (p : Python) (c : ChaCha) (h : Hash) (k : Kem) (app : Environ → Result Reply)
      {s t : Server Deadline} (id : Bytes) {connection : Connection Deadline}
      → s.connections ≡ []
      → Rounds p c h k app s t
      → get id t.connections ≡ some connection
      → IsSound connection
  Rounds-IsSound p c h k app id empty rounds found =
      Rounds-invariant p c h k app (λ q. Unit {0}) IsSound (IsSound-IsInvariant p h)
        accept_connection-Sound id empty rounds (λ q came. tt) found

-- ===== src/Quic/State.antt =====
-- kemtls/quic_state.py (src/kemtls): the state of one connection. A deadline is a float, which the
-- code only compares: its type and its `<=` are parameters.
pub mod Invariant
use kemtls.Common.{
  ℕ, suc, ◌+◌, Bool, true, false, not, Option, none, some, List, [], ◌∷◌, ltb, if◌then◌else◌, Bytes,
  map,
}
use kemtls.Common.Dict.{Dict, get, put, remove, contains, add, nat_eq}
use mathlib.Core.Bool.{cond}

pub record RetransmissionEntry (Deadline : Type 0) : Type 0 where
  pub packet_number : ℕ
  pub deadline : Deadline
  pub attempts : ℕ

-- The initial `recv_packet_number`, -1, is `none`. `close_state` is "closed" or "open".
pub record ConnectionState (Deadline : Type 0) : Type 0 where
  pub connection_id : Bytes
  pub send_packet_number : ℕ
  pub recv_packet_number : Option ℕ
  pub acked_packets : List ℕ
  pub received_packets : List ℕ
  pub pending_acks : List ℕ
  pub retransmissions : Dict ℕ (RetransmissionEntry Deadline)
  pub handshake_epoch : ℕ
  pub closed : Bool

-- `max(packet_number, recv_packet_number)`
abbrev pub later : ℕ → Option ℕ → Option ℕ
later n none = some n
later n (some m) = if ltb m n then some n else some m

module _ {Deadline : Type 0} where
  unfoldable pub new_connection : Bytes → ConnectionState Deadline
  new_connection id = record {
    connection_id = id;
    send_packet_number = 0;
    recv_packet_number = none;
    acked_packets = [];
    received_packets = [];
    pending_acks = [];
    retransmissions = [];
    handshake_epoch = 0;
    closed = false;
  }

  unfoldable pub next_packet_number : ConnectionState Deadline → ℕ × ConnectionState Deadline
  next_packet_number s =
      (s.send_packet_number, record s { send_packet_number = s.send_packet_number + 1 })

  unfoldable pub note_received_packet : ℕ → ConnectionState Deadline → ConnectionState Deadline
  note_received_packet n s = record s {
    received_packets = add n s.received_packets;
    pending_acks = add n s.pending_acks;
    recv_packet_number = later n s.recv_packet_number;
  }

  unfoldable pub acknowledge_packet : ℕ → ConnectionState Deadline → Bool × ConnectionState Deadline
  acknowledge_packet n s = (
    not (contains n s.acked_packets),
    record s {
      retransmissions = remove n s.retransmissions;
      acked_packets = add n s.acked_packets;
    },
  )

  abbrev pub next_attempt : Option (RetransmissionEntry Deadline) → ℕ
  next_attempt none = 0
  next_attempt (some previous) = previous.attempts + 1

  abbrev pub new_entry :
      ℕ → Deadline → Option (RetransmissionEntry Deadline) → RetransmissionEntry Deadline
  new_entry n deadline previous = record {
    packet_number = n;
    deadline = deadline;
    attempts = next_attempt previous;
  }

  unfoldable pub schedule_retransmission :
      ℕ → Deadline → ConnectionState Deadline → ConnectionState Deadline
  schedule_retransmission n deadline s = record s {
    retransmissions = put n (new_entry n deadline (get n s.retransmissions)) s.retransmissions;
  }

  -- The entries of `retransmissions.values()` with `entry.deadline <= now`.
  unfoldable pub expired_entries :
      (Deadline → Deadline → Bool)
      → Deadline
      → Dict ℕ (RetransmissionEntry Deadline)
      → List (RetransmissionEntry Deadline)
  expired_entries le now [] = []
  expired_entries le now ((n, entry) ∷ d) =
      let rest = expired_entries le now d in if le entry.deadline now then entry ∷ rest else rest

  unfoldable pub expired_retransmissions :
      (Deadline → Deadline → Bool)
      → Deadline
      → ConnectionState Deadline
      → List (RetransmissionEntry Deadline)
  unfolding expired_entries
  expired_retransmissions le now s = expired_entries le now s.retransmissions

  unfoldable pub advance_handshake_epoch : ConnectionState Deadline → ℕ × ConnectionState Deadline
  advance_handshake_epoch s =
      (s.handshake_epoch + 1, record s { handshake_epoch = s.handshake_epoch + 1 })

  unfoldable pub mark_closed : ConnectionState Deadline → ConnectionState Deadline
  mark_closed s = record s { closed = true }

-- ===== src/Quic/State/Invariant.antt =====
-- What holds of a connection after each call.
use kemtls.Common.{
  ℕ, ◌≤◌, ◌<◌, ◌≡◌, ◌⊎◌, inl, inr, arith, true, false, Option, none, some, Bytes, Bool-cases,
}
use kemtls.Common.Dict.{get, contains, nat_eq, get-put, get-remove, get-remove_self, contains-add}
use kemtls.Quic.State.{
  RetransmissionEntry, ConnectionState, later, new_entry, new_connection, next_packet_number,
  note_received_packet, acknowledge_packet, schedule_retransmission, advance_handshake_epoch,
  mark_closed,
}

-- `n` is at most the highest number received.
abbrev pub AtMost : ℕ → Option ℕ → Type 0
AtMost n none = ⊥
AtMost n (some m) = n ≤ m

module _ {Deadline : Type 0} where
  pub record IsConsistent (s : ConnectionState Deadline) : Type 0 where
    pub bounded : (n : ℕ) → contains n s.received_packets ≡ true → AtMost n s.recv_packet_number
    pub reached : (m : ℕ) → s.recv_packet_number ≡ some m → contains m s.received_packets ≡ true
    pub owed : (n : ℕ) → contains n s.pending_acks ≡ true → contains n s.received_packets ≡ true
    pub labelled :
        (n : ℕ) (e : RetransmissionEntry Deadline)
        → get n s.retransmissions ≡ some e
        → (e.packet_number ≡ n) × (n < s.send_packet_number)

AtMost-later : (n k : ℕ) (o : Option ℕ) → AtMost k o → AtMost k (later n o)
AtMost-later n k none h = absurd h
AtMost-later n k (some m) h = ground arith

AtMost-self : (n : ℕ) (o : Option ℕ) → AtMost n (later n o)
AtMost-self n none = omega arith
AtMost-self n (some m) = ground arith

later_cases : (n m : ℕ) (o : Option ℕ) → later n o ≡ some m → (n ≡ m) ⊎ (o ≡ some m)
later_cases n m none h = inl (ground arith)
later_cases n m (some k) h = ground arith

module _ {Deadline : Type 0} (s : ConnectionState Deadline) (h : IsConsistent s) where
  pub receive-IsConsistent : (n : ℕ) → IsConsistent (note_received_packet n s)
  unfolding note_received_packet
  receive-IsConsistent n = record {
    bounded = λ k e. elim (Bool-cases (contains k s.received_packets)) [
      | inl old ↦ AtMost-later n k s.recv_packet_number (h.bounded k old)
      | inr new ↦
          let same : n ≡ k = ground (arith, contains-add n k s.received_packets) in
          rw (← same) (AtMost-self n s.recv_packet_number)
    ];
    reached = λ m e. elim (later_cases n m s.recv_packet_number e) [
      | inl same ↦ ground (arith, contains-add n m s.received_packets)
      | inr old ↦ ground (arith, contains-add n m s.received_packets, h.reached m old)
    ];
    owed = λ k e.
        ground
          (arith, contains-add n k s.received_packets, contains-add n k s.pending_acks, h.owed k);
    labelled = h.labelled;
  }

  pub acknowledge-IsConsistent : (n : ℕ) → IsConsistent (acknowledge_packet n s).1
  unfolding acknowledge_packet
  acknowledge-IsConsistent n = record {
    bounded = h.bounded;
    reached = h.reached;
    owed = h.owed;
    labelled = λ k e p. ground (arith, get-remove n k s.retransmissions, h.labelled k e);
  }

  pub schedule-IsConsistent :
      (n : ℕ) (deadline : Deadline)
      → n < s.send_packet_number
      → IsConsistent (schedule_retransmission n deadline s)
  unfolding schedule_retransmission
  schedule-IsConsistent n deadline given = record {
    bounded = h.bounded;
    reached = h.reached;
    owed = h.owed;
    labelled = λ k e p. ground (
      arith,
      get-put n k (new_entry n deadline (get n s.retransmissions)) s.retransmissions,
      h.labelled k e,
    );
  }

  pub number-IsConsistent : IsConsistent (next_packet_number s).1
  unfolding next_packet_number
  number-IsConsistent = record {
    bounded = h.bounded;
    reached = h.reached;
    owed = h.owed;
    labelled = λ k e p. let (l, b) = h.labelled k e p in (l, omega arith);
  }

  advance-IsConsistent : IsConsistent (advance_handshake_epoch s).1
  unfolding advance_handshake_epoch
  advance-IsConsistent = record {
    bounded = h.bounded;
    reached = h.reached;
    owed = h.owed;
    labelled = h.labelled;
  }

  close-IsConsistent : IsConsistent (mark_closed s)
  unfolding mark_closed
  close-IsConsistent = record {
    bounded = h.bounded;
    reached = h.reached;
    owed = h.owed;
    labelled = h.labelled;
  }

module _ {Deadline : Type 0} where
  pub new_connection-IsConsistent :
      (id : Bytes) → IsConsistent (new_connection {Deadline = Deadline} id)
  unfolding new_connection contains get
  new_connection-IsConsistent id = record {
    bounded = λ n e. absurd (ground arith);
    reached = λ m e. absurd (ground arith);
    owed = λ n e. absurd (ground arith);
    labelled = λ n e p. absurd (ground arith);
  }

  -- Once acknowledged, a packet is not retransmitted any more, and a second acknowledgement of it
  -- is reported as a duplicate.
  pub acknowledge_packet_twice :
      (n : ℕ) (s : ConnectionState Deadline)
      → (get n (acknowledge_packet n s).1.retransmissions ≡ none)
        × ((acknowledge_packet n (acknowledge_packet n s).1).0 ≡ false)
  unfolding acknowledge_packet
  acknowledge_packet_twice n s =
      (get-remove_self n s.retransmissions, ground (arith, contains-add n n s.acked_packets))

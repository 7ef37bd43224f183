-- ===== src/Quic/Server/Budget.antt =====
-- How often the packets of a connection are sent again.
use kemtls.Common.{ℕ, ◌+◌, ◌-◌, Bool, List, [], ◌∷◌, length}
use kemtls.Common.Dict.{Dict, nat_eq}
use kemtls.Quic.Server.{max_retries, SentPacket, Live}
use kemtls.Quic.Server.Handling.{retransmit_expired}

module _ {Deadline : Type 0} where
  -- The attempts that are left for the packets that are kept.
  abbrev pub attempts_left : Dict ℕ (SentPacket Deadline) → ℕ
  attempts_left [] = 0
  attempts_left ((n, sent) ∷ packets) = (max_retries - sent.attempts) + attempts_left packets

  -- The datagrams that were sent, and the attempts that are left.
  abbrev pub spent_and_left : Live Deadline → ℕ
  spent_and_left x = length x.datagrams + attempts_left x.connection.sent_packets

  -- Retransmissions at these times, with the deadlines that follow them.
  unfoldable pub retransmit_all :
      (le : Deadline → Deadline → Bool) → List (Deadline × Deadline) → Live Deadline → Live Deadline
  retransmit_all le [] x = x
  retransmit_all le ((now, deadline) ∷ times) x =
      retransmit_all le times (retransmit_expired le now deadline x)

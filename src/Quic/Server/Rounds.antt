-- ===== src/Quic/Server/Rounds.antt =====
-- The table of connections after any rounds of the server's loop.
use mathlib.Core.Path.{subst}
use kemtls.Common.{
  refl, sym, if-both, ◌≡◌, ◌⊎◌, inl, inr, Bool, Bool-cases, Option, none, some, [], ◌∷◌, ◌==◌,
  Bytes,
}
use kemtls.Common.Action.{outcome_after}
use kemtls.Common.Dict.{
  Dict, get, text_eq, EachValue, EachValue-put, EachValue-remove, EachValue-get,
}
use kemtls.Common.Error.{Result, ok, raised}
use kemtls.Common.Json.{Python}
use kemtls.Crypto.Primitives.{ChaCha, Hash, Kem}
use kemtls.Handshake.Server.{ServerHandshake, new_server}
use kemtls.Http.Flask.{Environ, Reply}
use kemtls.Quic.Packets.{QuicPacket, decode_packet}
use kemtls.Quic.Server.{initial, connection_close, Connection}
use kemtls.Quic.Server.Handling.{accept_connection, handle_packet, retransmit_expired}
use kemtls.Quic.Server.Run.{IsInvariant, handle_packet-Kept, retransmit_expired-Kept}
use kemtls.Quic.Server.Table.{
  Address, Server, live, retransmit_connection, retransmit_connections, retransmit_expired_packets,
  handle_known, accepted, new_connection, handle_new, handle_found, serve_packet, serve_decoded,
  serve_datagram, skips_round,
}

module _ {Deadline : Type 0} (p : Python) (c : ChaCha) (h : Hash) (k : Kem)
    (app : Environ → Result Reply) where
  -- A datagram came, or the wait for one ended.
  pub data Rounds (s : Server Deadline) : Server Deadline → Type 0 where
    start : Rounds s s
    datagram :
        {t : Server Deadline} (le : Deadline → Deadline → Bool) (now later deadline : Deadline)
        (session_id coins : Bytes) (raw : Bytes) (addr : Address)
        → Rounds s t
        → Rounds s (serve_datagram p c h k app le now later deadline session_id coins raw addr t)
    timeout :
        {t : Server Deadline} (le : Deadline → Deadline → Bool) (now later : Deadline)
        → Rounds s t
        → Rounds s (retransmit_expired_packets le now later t)

  -- The packet came in one of the datagrams of these rounds.
  abbrev pub Came : {s t : Server Deadline} → Rounds s t → QuicPacket → Type 0
  Came start q = ⊥
  Came (datagram le now later deadline session_id coins raw addr rounds) q =
      (decode_packet raw ≡ ok q) ⊎ Came rounds q
  Came (timeout le now later rounds) q = Came rounds q

module _ {Deadline : Type 0} (p : Python) (c : ChaCha) (h : Hash) (k : Kem)
    (app : Environ → Result Reply) (S : QuicPacket → Type 0) (I : Connection Deadline → Type 0)
    (kept : IsInvariant p h S I)
    (fresh : (id : Bytes) (addr : Address) (handshake : ServerHandshake)
      → I (accept_connection id addr handshake)) where
  abbrev TableKept : Server Deadline → Type 0
  TableKept s = EachValue I s.connections

  retransmit_connections-Kept :
      (le : Deadline → Deadline → Bool) (now later : Deadline)
      (entries : Dict Bytes (Connection Deadline)) (s : Server Deadline)
      → EachValue I entries
      → TableKept s
      → TableKept (retransmit_connections le now later entries s)
  unfolding retransmit_connections
  retransmit_connections-Kept le now later [] s he hs = hs
  retransmit_connections-Kept le now later ((id, connection) ∷ entries) s (hc, he) hs =
      retransmit_connections-Kept le now later entries
        (retransmit_connection le now later id connection s) he
        (if-both TableKept connection.state.closed (EachValue-remove I id s.connections hs) (
          EachValue-put I id (retransmit_expired le now later (live connection)).connection
            s.connections
            (retransmit_expired-Kept p c h k app S I kept le now later (live connection) hc) hs))

  handle_known-Kept :
      (deadline : Deadline) (q : QuicPacket) (connection : Connection Deadline)
      (s : Server Deadline)
      → S q
      → I connection
      → TableKept s
      → TableKept (handle_known p c h k app deadline q connection s).1
  unfolding handle_known
  handle_known-Kept deadline q connection s seen hc hs =
      elim (Bool-cases (q.packet_type == connection_close)) [
        | inl e ↦ rw e (EachValue-remove I q.connection_id s.connections hs)
        | inr e ↦ rw e (
            EachValue-put I q.connection_id
              (handle_packet p c h k app deadline q (live connection)).1.connection s.connections
              (outcome_after (λ x. I x.connection)
                (handle_packet p c h k app deadline q (live connection))
                ((handle_packet-Kept p c h k app S I kept deadline q seen).holds (live connection)
                  hc))
              hs)
      ]

  handle_new-Kept :
      (deadline : Deadline) (q : QuicPacket) (addr : Address) (made : Result ServerHandshake)
      (s : Server Deadline)
      → S q
      → TableKept s
      → TableKept
          (handle_new p c h k app deadline q (accepted p c h k app q.connection_id addr made) s).1
  handle_new-Kept deadline q addr (raised e) s seen hs = hs
  handle_new-Kept deadline q addr (ok handshake) s seen hs =
      handle_known-Kept deadline q (accept_connection q.connection_id addr handshake) _ seen
        (fresh q.connection_id addr handshake)
        (EachValue-put I q.connection_id (accept_connection q.connection_id addr handshake)
          s.connections (fresh q.connection_id addr handshake) hs)

  handle_found-Kept :
      (deadline : Deadline) (session_id coins : Bytes) (q : QuicPacket) (addr : Address)
      (found : Option (Connection Deadline)) (s : Server Deadline)
      → get q.connection_id s.connections ≡ found
      → S q
      → TableKept s
      → TableKept (handle_found p c h k app deadline session_id coins q addr found s).1
  unfolding new_connection
  handle_found-Kept deadline session_id coins q addr (some connection) s e seen hs =
      handle_known-Kept deadline q connection s seen
        (EachValue-get I q.connection_id s.connections hs e) hs
  handle_found-Kept deadline session_id coins q addr none s e seen hs =
      if-both (λ (o : Result (Unit {0}) × Server Deadline). TableKept o.1)
        (q.packet_type == initial)
        (handle_new-Kept deadline q addr
          (new_server k s.server_identity s.server_lt_sk s.cert s.pdk_key_id session_id coins) s
          seen hs)
        hs

  datagram-Kept :
      (le : Deadline → Deadline → Bool) (now later deadline : Deadline) (session_id coins : Bytes)
      (addr : Address) (decoded : Result QuicPacket) (s : Server Deadline)
      → ((q : QuicPacket) → decoded ≡ ok q → S q)
      → TableKept s
      → TableKept (serve_decoded p c h k app le now later deadline session_id coins addr decoded s)
  unfolding serve_packet retransmit_expired_packets
  datagram-Kept le now later deadline session_id coins addr (raised e) s seen hs = hs
  datagram-Kept le now later deadline session_id coins addr (ok q) s seen hs =
      let after : TableKept (serve_packet p c h k app deadline session_id coins q addr s).1 =
        handle_found-Kept deadline session_id coins q addr (get q.connection_id s.connections) s
          refl (seen q refl) hs in
      if-both TableKept
        (skips_round (serve_packet p c h k app deadline session_id coins q addr s).0) after
        (retransmit_connections-Kept le now later
          (serve_packet p c h k app deadline session_id coins q addr s).1.connections _ after after)

  Rounds-Kept :
      {s t : Server Deadline} (rounds : Rounds p c h k app s t)
      → ((q : QuicPacket) → Came p c h k app rounds q → S q)
      → TableKept s
      → TableKept t
  unfolding retransmit_expired_packets serve_datagram
  Rounds-Kept start seen hs = hs
  Rounds-Kept (datagram {t} le now later deadline session_id coins raw addr rounds) seen hs =
      datagram-Kept le now later deadline session_id coins addr (decode_packet raw) t
        (λ q came. seen q (inl came)) (Rounds-Kept rounds (λ q came. seen q (inr came)) hs)
  Rounds-Kept (timeout {t} le now later rounds) seen hs =
      let before : TableKept t = Rounds-Kept rounds seen hs in
      retransmit_connections-Kept le now later t.connections t before before

  -- A property that each packet and each retransmission keeps, and that a new connection has, holds
  -- of each connection of the table after any rounds.
  pub Rounds-invariant :
      {s t : Server Deadline} (id : Bytes) {connection : Connection Deadline}
      → s.connections ≡ []
      → (rounds : Rounds p c h k app s t) → ((q : QuicPacket) → Came p c h k app rounds q → S q)
      → get id t.connections ≡ some connection
      → I connection
  Rounds-invariant {t} id empty rounds seen found =
      EachValue-get I id t.connections
        (Rounds-Kept rounds seen (subst (EachValue I) (sym empty) tt)) found

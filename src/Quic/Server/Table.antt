-- ===== src/Quic/Server/Table.antt =====
-- `KEMTLSQUICServer` of kemtls/quic_server.py (src/kemtls): the table of its connections, and one
-- round of its loop. What has been sent is kept with its address. The random session id, the coins
-- of a key pair and the readings of the clock are arguments.
use kemtls.Common.{
  ℕ, ◌≡◌, ◌≢◌, refl, ◌∙◌, inl, inr, Bool-cases, Bool, true, false, Option, none, some, List, [],
  ◌∷◌, ◌++◌, ◌==◌, if◌then◌else◌, map, Bytes, Str,
}
use kemtls.Common.Action.{Action}
use kemtls.Common.Dict.{Dict, get, put, remove, text_eq, get-put_ne, get-remove_ne}
use kemtls.Common.Error.{eof_error, Result, ok, raised}
use kemtls.Common.Json.{Members, Python}
use kemtls.Crypto.Primitives.{ChaCha, Hash, Kem}
use kemtls.Handshake.Server.{ServerHandshake, new_server}
use kemtls.Http.Flask.{Environ, Reply}
use kemtls.Quic.Packets.{QuicPacket, decode_packet}
use kemtls.Quic.Server.{initial, connection_close, Connection, Live}
use kemtls.Quic.Server.Handling.{accept_connection, handle_packet, retransmit_expired}

abbrev pub Address : Type 0
Address = Str × ℕ

pub record Server (Deadline : Type 0) : Type 0 where
  pub server_identity : Str
  pub server_lt_sk : Bytes
  pub cert : Option Members
  pub pdk_key_id : Option Str
  pub connections : Dict Bytes (Connection Deadline)
  pub sent : List (Bytes × Address)

-- `except EOFError: continue`, which passes over the retransmissions of this round.
abbrev pub skips_round : Result (Unit {0}) → Bool
skips_round (raised (eof_error message)) = true
skips_round o = false

module _ {Deadline : Type 0} where
  -- A connection is written back, and what it has sent goes to its peer.
  abbrev pub write_back : Bytes → Live Deadline → Server Deadline → Server Deadline
  write_back id x s = record s {
    connections = put id x.connection s.connections;
    sent = s.sent ++ map (λ datagram. (datagram, x.connection.peer_address)) x.datagrams;
  }

  abbrev pub live : Connection Deadline → Live Deadline
  live connection = record { connection = connection; datagrams = [] }

  -- The part of `_retransmit_expired_packets` for one connection.
  abbrev pub retransmit_connection :
      (le : Deadline → Deadline → Bool) (now deadline : Deadline)
      → Bytes
      → Connection Deadline
      → Server Deadline
      → Server Deadline
  retransmit_connection le now deadline id connection s =
      if connection.state.closed
      then record s { connections = remove id s.connections }
      else write_back id (retransmit_expired le now deadline (live connection)) s

  unfoldable pub retransmit_connections :
      (le : Deadline → Deadline → Bool) (now deadline : Deadline)
      → Dict Bytes (Connection Deadline)
      → Server Deadline
      → Server Deadline
  retransmit_connections le now deadline [] s = s
  retransmit_connections le now deadline ((id, connection) ∷ rest) s =
      retransmit_connections le now deadline rest
        (retransmit_connection le now deadline id connection s)

  -- `_retransmit_expired_packets`
  unfoldable pub retransmit_expired_packets :
      (le : Deadline → Deadline → Bool) (now deadline : Deadline)
      → Server Deadline
      → Server Deadline
  retransmit_expired_packets le now deadline s =
      retransmit_connections le now deadline s.connections s

  module _ (p : Python) (c : ChaCha) (h : Hash) (k : Kem) (app : Environ → Result Reply) where
    -- A packet for a connection of the table.
    unfoldable pub handle_known :
        (deadline : Deadline)
        → QuicPacket
        → Connection Deadline
        → Action (Server Deadline) (Unit {0})
    handle_known deadline q connection s =
        if q.packet_type == connection_close
        then (ok tt, record s { connections = remove q.connection_id s.connections })
        else (let (result, x) = handle_packet p c h k app deadline q (live connection) in
            (result, write_back q.connection_id x s))

    -- `_new_connection`, for what `ServerHandshake(…)` made.
    abbrev pub accepted : Bytes → Address → Result ServerHandshake → Result (Connection Deadline)
    accepted id addr (raised e) = raised e
    accepted id addr (ok handshake) = ok (accept_connection id addr handshake)

    unfoldable pub new_connection :
        (session_id coins : Bytes)
        → Bytes
        → Address
        → Server Deadline
        → Result (Connection Deadline)
    new_connection session_id coins id addr s =
        accepted id addr
          (new_server k s.server_identity s.server_lt_sk s.cert s.pdk_key_id session_id coins)

    abbrev pub handle_new :
        (deadline : Deadline)
        → QuicPacket
        → Result (Connection Deadline)
        → Action (Server Deadline) (Unit {0})
    handle_new deadline q (raised e) s = (raised e, s)
    handle_new deadline q (ok connection) s =
        handle_known deadline q connection
          (record s { connections = put q.connection_id connection s.connections })

    -- `_handle_packet`, by what `self._connections.get(packet.connection_id)` is.
    abbrev pub handle_found :
        (deadline : Deadline) (session_id coins : Bytes)
        → QuicPacket
        → Address
        → Option (Connection Deadline)
        → Action (Server Deadline) (Unit {0})
    handle_found deadline session_id coins q addr (some connection) s =
        handle_known deadline q connection s
    handle_found deadline session_id coins q addr none s =
        if q.packet_type == initial
        then handle_new deadline q (new_connection session_id coins q.connection_id addr s) s
        else (ok tt, s)

    unfoldable pub serve_packet :
        (deadline : Deadline) (session_id coins : Bytes)
        → QuicPacket
        → Address
        → Action (Server Deadline) (Unit {0})
    serve_packet deadline session_id coins q addr s =
        handle_found deadline session_id coins q addr (get q.connection_id s.connections) s

    abbrev pub end_round :
        (le : Deadline → Deadline → Bool) (now later : Deadline)
        → Result (Unit {0}) × Server Deadline
        → Server Deadline
    end_round le now later o =
        if skips_round o.0 then o.1 else retransmit_expired_packets le now later o.1

    -- One round of the loop of `start`, for a datagram that came; any other exception of a packet is
    -- printed and passed over.
    abbrev pub serve_decoded :
        (le : Deadline → Deadline → Bool) (now later deadline : Deadline) (session_id coins : Bytes)
        → Address
        → Result QuicPacket
        → Server Deadline
        → Server Deadline
    serve_decoded le now later deadline session_id coins addr (raised e) s = s
    serve_decoded le now later deadline session_id coins addr (ok q) s =
        end_round le now later (serve_packet deadline session_id coins q addr s)

    unfoldable pub serve_datagram :
        (le : Deadline → Deadline → Bool) (now later deadline : Deadline) (session_id coins : Bytes)
        → Bytes
        → Address
        → Server Deadline
        → Server Deadline
    serve_datagram le now later deadline session_id coins raw addr s =
        serve_decoded le now later deadline session_id coins addr (decode_packet raw) s

    handle_known_other :
        (deadline : Deadline) (q : QuicPacket) (connection : Connection Deadline) (id : Bytes)
        (s : Server Deadline)
        → q.connection_id ≢ id
        → get id (handle_known deadline q connection s).1.connections ≡ get id s.connections
    unfolding handle_known
    handle_known_other deadline q connection id s other =
        elim (Bool-cases (q.packet_type == connection_close)) [
          | inl e ↦ rw e (get-remove_ne q.connection_id id s.connections other)
          | inr e ↦ rw e (
              get-put_ne q.connection_id id
                (handle_packet p c h k app deadline q (live connection)).1.connection s.connections
                other)
        ]

    handle_new_other :
        (deadline : Deadline) (q : QuicPacket) (made : Result (Connection Deadline)) (id : Bytes)
        (s : Server Deadline)
        → q.connection_id ≢ id
        → get id (handle_new deadline q made s).1.connections ≡ get id s.connections
    handle_new_other deadline q (raised e) id s other = refl
    handle_new_other deadline q (ok connection) id s other =
        handle_known_other deadline q connection id
          (record s { connections = put q.connection_id connection s.connections }) other
        ∙ get-put_ne q.connection_id id connection s.connections other

    handle_found_other :
        (deadline : Deadline) (session_id coins : Bytes) (q : QuicPacket) (addr : Address)
        (found : Option (Connection Deadline)) (id : Bytes) (s : Server Deadline)
        → q.connection_id ≢ id
        → get id (handle_found deadline session_id coins q addr found s).1.connections
          ≡ get id s.connections
    handle_found_other deadline session_id coins q addr (some connection) id s other =
        handle_known_other deadline q connection id s other
    handle_found_other deadline session_id coins q addr none id s other =
        elim (Bool-cases (q.packet_type == initial)) [
          | inl e ↦ rw e (
              handle_new_other deadline q (new_connection session_id coins q.connection_id addr s)
                id s other)
          | inr e ↦ rw e refl
        ]

    -- A packet leaves the connections of other connection ids as they are, whether it is handled or
    -- refused.
    pub serve_packet_other :
        (deadline : Deadline) (session_id coins : Bytes) (q : QuicPacket) (addr : Address)
        (id : Bytes) (s : Server Deadline)
        → q.connection_id ≢ id
        → get id (serve_packet deadline session_id coins q addr s).1.connections
          ≡ get id s.connections
    unfolding serve_packet
    serve_packet_other deadline session_id coins q addr id s other =
        handle_found_other deadline session_id coins q addr (get q.connection_id s.connections) id s
          other

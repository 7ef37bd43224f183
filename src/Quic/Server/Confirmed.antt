-- ===== src/Quic/Server/Confirmed.antt =====
-- How a connection of the server comes to be established.
use mathlib.Core.Path.{subst}
use kemtls.Common.{◌≡◌, refl, sym, List, ◌++◌, take, some, Option, [], ◌∷◌, Bytes}
use kemtls.Common.Error.{Result, ok}
use kemtls.Common.Json.{Python}
use kemtls.Crypto.KeySchedule.{compute_transcript_hash}
use kemtls.Crypto.Primitives.{ChaCha, Hash, Kem}
use kemtls.Handshake.Authentic.{Authentic, KeyedBy, verify_client_finished-Authentic}
use kemtls.Handshake.Server.{ServerHandshake, verify_client_finished}
use kemtls.Http.Flask.{Environ, Reply}
use kemtls.Quic.Packets.{QuicPacket}
use kemtls.Quic.Server.{established, Connection}
use kemtls.Quic.Server.Handling.{over_quic}
use kemtls.Quic.Server.Run.{IsInvariant}
use kemtls.Quic.Server.Table.{Server}
use kemtls.Quic.Server.Rounds.{Rounds, Came, Rounds-invariant}
use kemtls.Common.Dict.{get, text_eq}
use kemtls.Session.{KemtlsSession}

-- A handshake that a packet among those of `S` has finished: the packet carried the MAC of the first
-- three messages of its transcript, and became the last message.
pub record Confirmed (p : Python) (h : Hash) (S : QuicPacket → Type 0) (handshake : ServerHandshake)
    (has : Option KemtlsSession) : Type 0 where
  pub finished : QuicPacket
  pub came : S finished
  pub earlier : List Bytes
  pub transcript : handshake.transcript ≡ earlier ++ finished.payload ∷ []
  pub session : KemtlsSession
  pub has_session : has ≡ some (over_quic session)
  pub authentic :
      Authentic p h finished.payload handshake.client_fin_key
        (compute_transcript_hash h (take 3 earlier))
  pub keyed :
      KeyedBy h handshake.handshake_secret
        (compute_transcript_hash h (take 4 handshake.transcript))
        session

module _ (p : Python) (h : Hash) (S : QuicPacket → Type 0) where
  confirmed :
      (q : QuicPacket) (s after : ServerHandshake) (session : KemtlsSession)
      → S q
      → verify_client_finished p h q.payload s ≡ (ok session, after)
      → Confirmed p h S after (some (over_quic session))
  confirmed q s after session came e =
      let (authentic, keyed, after_eq) =
        verify_client_finished-Authentic p h q.payload s session after e in
      subst (λ (t : ServerHandshake). Confirmed p h S t (some (over_quic session))) (sym after_eq)
        (record {
          finished = q;
          came = came;
          earlier = s.transcript;
          transcript = refl;
          session = session;
          has_session = refl;
          authentic = authentic;
          keyed = keyed;
        })

module _ {Deadline : Type 0} (p : Python) (h : Hash) (S : QuicPacket → Type 0) where
  abbrev ConfirmedIn : Connection Deadline → Type 0
  ConfirmedIn s = s.phase ≡ established → Confirmed p h S s.handshake s.session

  ConfirmedIn-IsInvariant : IsInvariant p h S ConfirmedIn
  ConfirmedIn-IsInvariant = record {
    during = λ q. ConfirmedIn;
    closed = λ q came. record {
      stable = record { numbered = λ s i. i; sent = λ s n datagram deadline i given. i };
      handshake = λ s after early i same. absurd (early same);
      cached = λ s hello finished i. i;
      waiting = λ s phase early i same. absurd (early same);
      processed = λ s i. i;
      establishes = λ s after session e i same. confirmed p h S q s.handshake after session came e;
    };
    noted = λ q s i. i;
    settled = λ q s i. i;
    acknowledged = λ n s i. i;
    again = λ n deadline sent s there more i. i;
  }

module _ {Deadline : Type 0} (p : Python) (h : Hash) where
  -- In any rounds of the server's loop, from an empty table: an established connection of the table
  -- has the session that one packet of these rounds has finished. That packet is the last message of
  -- the transcript of the connection's handshake, it carries the MAC of the first three messages
  -- under this handshake's Finished key of the client, and the session's keys are those of the
  -- handshake's secret and of the first four messages.
  pub Rounds-Confirmed :
      (c : ChaCha) (k : Kem) (app : Environ → Result Reply) {s t : Server Deadline} (id : Bytes)
      {connection : Connection Deadline}
      → s.connections ≡ []
      → (rounds : Rounds p c h k app s t) → get id t.connections ≡ some connection
      → connection.phase ≡ established
      → Confirmed p h (Came p c h k app rounds) connection.handshake connection.session
  Rounds-Confirmed c k app id empty rounds found =
      Rounds-invariant p c h k app (Came p c h k app rounds)
        (ConfirmedIn p h (Came p c h k app rounds))
        (ConfirmedIn-IsInvariant p h (Came p c h k app rounds))
        (λ id addr handshake same. absurd cc) id empty rounds (λ q came. came) found

-- ===== src/Transport/Dialogs.antt =====
-- A whole handshake over the sockets of both parties.
use kemtls.Common.{ℕ, ◌≡◌, refl, ap, ◌∙◌, some, List, [], ◌∷◌, ◌++◌, Bytes}
use kemtls.Common.Error.{Result, ok}
use kemtls.Common.Action.{Action, ◌>>=◌, ◌>>◌, pure, >>=-eq}
use kemtls.Common.Json.{Python}
use kemtls.Crypto.Primitives.{Hash, Kem, Signature}
use kemtls.Handshake.Client.{
  ClientHandshake, client_hello, process_server_hello, process_server_finished, client_finished,
}
use kemtls.Handshake.Server.{
  ServerHandshake, process_client_hello, process_client_key_exchange, verify_client_finished,
}
use kemtls.Session.{KemtlsSession}
use kemtls.Socket.Reading.{stream, IsOpen}
use kemtls.Transport.{
  Dialog, on_handshake, handshake_frame, send_handshake, recv_handshake, over_tcp, client_dialog,
  server_dialog,
}
use kemtls.Transport.Framing.{at_chunks, recv_handshake-send_handshake}

module _ {H : Type 0} where
  -- A method of the handshake object, before what follows.
  on_handshake-eq :
      {A B : Type 0} (method : Action H A) (follows : A → Action (Dialog H) B) (hs hs' : H)
      (chunks sent : List Bytes) {a : A}
      → method hs ≡ (ok a, hs')
      → (on_handshake method >>= follows) (at_chunks hs chunks sent)
        ≡ follows a (at_chunks hs' chunks sent)
  on_handshake-eq {A} method follows hs hs' chunks sent e =
      >>=-eq (on_handshake method) follows (at_chunks hs chunks sent)
        (ap (λ (o : Result A × H). (o.0, at_chunks o.1 chunks sent)) e)

  -- A message is sent.
  send-eq :
      {B : Type 0} (payload frame : Bytes) (follows : Action (Dialog H) B) (hs : H)
      (chunks sent : List Bytes)
      → handshake_frame payload ≡ ok frame
      → (send_handshake payload >> follows) (at_chunks hs chunks sent)
        ≡ follows (at_chunks hs chunks (sent ++ frame ∷ []))
  unfolding send_handshake
  send-eq payload frame follows hs chunks sent e =
      >>=-eq (send_handshake payload) (λ _. follows) (at_chunks hs chunks sent) (rw e refl)

  -- A message is received, and what follows it is left.
  record Arrived (payload later : Bytes) (hs : H) (chunks sent : List Bytes) : Type 0 where
    pub rest : List Bytes
    pub received : recv_handshake (at_chunks hs chunks sent) ≡ (ok payload, at_chunks hs rest sent)
    pub left : stream rest ≡ later
    pub still_open : IsOpen rest

  arrive :
      (payload frame later : Bytes) (hs : H) (chunks sent : List Bytes)
      → handshake_frame payload ≡ ok frame
      → IsOpen chunks
      → stream chunks ≡ frame ++ later
      → Arrived payload later hs chunks sent
  arrive payload frame later hs chunks sent made open_chunks comes =
      let (rest, _, received, left, open_rest) =
        recv_handshake-send_handshake payload frame later (at_chunks hs [] []) hs chunks sent made
          open_chunks comes in
      record { rest = rest; received = received; left = left; still_open = open_rest }

module _ (p : Python) (d : Signature) (h : Hash) (k : Kem) (now : ℕ)
    (eph_coins lt_coins : Bytes) where
  abbrev confirm_client : KemtlsSession → Action (Dialog ClientHandshake) KemtlsSession
  confirm_client session = do
    finished ← on_handshake (client_finished p h)
    send_handshake finished
    pure (over_tcp session)

  abbrev finish_client : KemtlsSession → Action (Dialog ClientHandshake) KemtlsSession
  finish_client session = do
    server_finished ← recv_handshake
    ended ← on_handshake (process_server_finished p h server_finished (some session))
    confirm_client ended

  abbrev reply_client : Bytes → Action (Dialog ClientHandshake) KemtlsSession
  reply_client server_hello = do
    exchange ← on_handshake (process_server_hello p d h k now eph_coins lt_coins server_hello)
    send_handshake exchange.0
    finish_client exchange.1

  -- The client's side of a handshake whose steps succeed: it sends its three messages in frames and
  -- reads the two of the server.
  client_dialog-eq :
      (ch sh cke sfm cfm fch fsh fcke fsfm fcfm later : Bytes) (session at_client : KemtlsSession)
      (c0 c1 c2 c3 c4 : ClientHandshake) (chunks sent : List Bytes)
      → client_hello p c0 ≡ (ok ch, c1)
      → process_server_hello p d h k now eph_coins lt_coins sh c1 ≡ (ok (cke, session), c2)
      → process_server_finished p h sfm (some session) c2 ≡ (ok at_client, c3)
      → client_finished p h c3 ≡ (ok cfm, c4)
      → handshake_frame ch ≡ ok fch
      → handshake_frame sh ≡ ok fsh
      → handshake_frame cke ≡ ok fcke
      → handshake_frame sfm ≡ ok fsfm
      → handshake_frame cfm ≡ ok fcfm
      → IsOpen chunks
      → stream chunks ≡ fsh ++ (fsfm ++ later)
      → (rest : List Bytes) × (client_dialog p d h k now eph_coins lt_coins
            (at_chunks c0 chunks sent)
          ≡ (
            ok (over_tcp at_client),
            at_chunks c4 rest (((sent ++ fch ∷ []) ++ fcke ∷ []) ++ fcfm ∷ []),
          ))
        × (stream rest ≡ later)
        × IsOpen rest
  unfolding client_dialog
  client_dialog-eq ch sh cke sfm cfm fch fsh fcke fsfm fcfm later session at_client c0 c1 c2 c3 c4
        chunks sent said took ended confirmed made_ch made_sh made_cke made_sfm made_cfm open_chunks
        comes =
      let sent1 = sent ++ fch ∷ [] in
      let sent2 = sent1 ++ fcke ∷ [] in
      let a1 = arrive sh fsh (fsfm ++ later) c1 chunks sent1 made_sh open_chunks comes in
      let a2 = arrive sfm fsfm later c2 a1.rest sent2 made_sfm a1.still_open a1.left in
      (
        a2.rest,
        on_handshake-eq (client_hello p)
              (λ hello. send_handshake hello >> (recv_handshake >>= reply_client)) c0 c1 chunks sent
              said
            ∙ send-eq ch fch (recv_handshake >>= reply_client) c1 chunks sent made_ch
            ∙ >>=-eq recv_handshake reply_client (at_chunks c1 chunks sent1) a1.received
            ∙ on_handshake-eq (process_server_hello p d h k now eph_coins lt_coins sh)
                (λ exchange. send_handshake exchange.0 >> finish_client exchange.1) c1 c2 a1.rest
                sent1 took
            ∙ send-eq cke fcke (finish_client session) c2 a1.rest sent1 made_cke
            ∙ >>=-eq recv_handshake
                (λ server_finished.
                  on_handshake (process_server_finished p h server_finished (some session))
                  >>= confirm_client)
                (at_chunks c2 a1.rest sent2) a2.received
            ∙ on_handshake-eq (process_server_finished p h sfm (some session)) confirm_client c2 c3
                a2.rest sent2 ended
            ∙ on_handshake-eq (client_finished p h)
                (λ finished. send_handshake finished >> pure (over_tcp at_client)) c3 c4 a2.rest
                sent2 confirmed
            ∙ send-eq cfm fcfm (pure (over_tcp at_client)) c4 a2.rest sent2 made_cfm,
        a2.left,
        a2.still_open,
      )

module _ (p : Python) (d : Signature) (h : Hash) (k : Kem) where
  abbrev finish_server_dialog : Action (Dialog ServerHandshake) KemtlsSession
  finish_server_dialog = do
    finished ← recv_handshake
    session ← on_handshake (verify_client_finished p h finished)
    pure (over_tcp session)

  abbrev answer_exchange : Bytes → Action (Dialog ServerHandshake) KemtlsSession
  answer_exchange exchange = do
    server_finished ← on_handshake (process_client_key_exchange p h k exchange)
    send_handshake server_finished
    finish_server_dialog

  abbrev answer_hello : Bytes → Action (Dialog ServerHandshake) KemtlsSession
  answer_hello hello = do
    answer ← on_handshake (process_client_hello p hello)
    send_handshake answer
    exchange ← recv_handshake
    answer_exchange exchange

  -- The server's side: it reads the three messages of the client and sends its two.
  server_dialog-eq :
      (ch sh cke sfm cfm fch fsh fcke fsfm fcfm later : Bytes) (at_server : KemtlsSession)
      (s0 s1 s2 s3 : ServerHandshake) (chunks sent : List Bytes)
      → process_client_hello p ch s0 ≡ (ok sh, s1)
      → process_client_key_exchange p h k cke s1 ≡ (ok sfm, s2)
      → verify_client_finished p h cfm s2 ≡ (ok at_server, s3)
      → handshake_frame ch ≡ ok fch
      → handshake_frame sh ≡ ok fsh
      → handshake_frame cke ≡ ok fcke
      → handshake_frame sfm ≡ ok fsfm
      → handshake_frame cfm ≡ ok fcfm
      → IsOpen chunks
      → stream chunks ≡ fch ++ (fcke ++ (fcfm ++ later))
      → (rest : List Bytes) × (server_dialog p d h k (at_chunks s0 chunks sent)
          ≡ (ok (over_tcp at_server), at_chunks s3 rest ((sent ++ fsh ∷ []) ++ fsfm ∷ [])))
        × (stream rest ≡ later)
        × IsOpen rest
  unfolding server_dialog
  server_dialog-eq ch sh cke sfm cfm fch fsh fcke fsfm fcfm later at_server s0 s1 s2 s3 chunks sent
        greeted answered verified made_ch made_sh made_cke made_sfm made_cfm open_chunks comes =
      let sent1 = sent ++ fsh ∷ [] in
      let sent2 = sent1 ++ fsfm ∷ [] in
      let a1 = arrive ch fch (fcke ++ (fcfm ++ later)) s0 chunks sent made_ch open_chunks comes in
      let a2 = arrive cke fcke (fcfm ++ later) s1 a1.rest sent1 made_cke a1.still_open a1.left in
      let a3 = arrive cfm fcfm later s2 a2.rest sent2 made_cfm a2.still_open a2.left in
      (
        a3.rest,
        >>=-eq recv_handshake answer_hello (at_chunks s0 chunks sent) a1.received
            ∙ on_handshake-eq (process_client_hello p ch)
                (λ answer. send_handshake answer >> (recv_handshake >>= answer_exchange)) s0 s1
                a1.rest sent greeted
            ∙ send-eq sh fsh (recv_handshake >>= answer_exchange) s1 a1.rest sent made_sh
            ∙ >>=-eq recv_handshake answer_exchange (at_chunks s1 a1.rest sent1) a2.received
            ∙ on_handshake-eq (process_client_key_exchange p h k cke)
                (λ server_finished. send_handshake server_finished >> finish_server_dialog) s1 s2
                a2.rest sent1 answered
            ∙ send-eq sfm fsfm finish_server_dialog s2 a2.rest sent1 made_sfm
            ∙ >>=-eq recv_handshake
                (λ finished. on_handshake (verify_client_finished p h finished) >>= λ session.
                  pure (over_tcp session))
                (at_chunks s2 a2.rest sent2) a3.received
            ∙ on_handshake-eq (verify_client_finished p h cfm) (λ session. pure (over_tcp session))
                s2 s3 a3.rest sent2 verified,
        a3.left,
        a3.still_open,
      )

  -- The steps of a handshake succeed, each on the message that the other party's step returned. Then
  -- the two dialogs over sockets end with the sessions of these steps: the client has sent exactly
  -- its three messages and the server its two, each in a frame, and each has read just the frames of
  -- the other, whatever chunks the network cuts them into, if every message fits a frame.
  pub client_dialog-server_dialog :
      (now : ℕ) (eph_coins lt_coins ch sh cke sfm cfm fch fsh fcke fsfm fcfm : Bytes)
      (session at_client at_server : KemtlsSession) (c0 c1 c2 c3 c4 : ClientHandshake)
      (s0 s1 s2 s3 : ServerHandshake) (to_client to_server : List Bytes)
      → client_hello p c0 ≡ (ok ch, c1)
      → process_client_hello p ch s0 ≡ (ok sh, s1)
      → process_server_hello p d h k now eph_coins lt_coins sh c1 ≡ (ok (cke, session), c2)
      → process_client_key_exchange p h k cke s1 ≡ (ok sfm, s2)
      → process_server_finished p h sfm (some session) c2 ≡ (ok at_client, c3)
      → client_finished p h c3 ≡ (ok cfm, c4)
      → verify_client_finished p h cfm s2 ≡ (ok at_server, s3)
      → handshake_frame ch ≡ ok fch
      → handshake_frame sh ≡ ok fsh
      → handshake_frame cke ≡ ok fcke
      → handshake_frame sfm ≡ ok fsfm
      → handshake_frame cfm ≡ ok fcfm
      → IsOpen to_client
      → IsOpen to_server
      → stream to_client ≡ fsh ++ (fsfm ++ [])
      → stream to_server ≡ fch ++ (fcke ++ (fcfm ++ []))
      → (client_rest server_rest : List Bytes) × (client_dialog p d h k now eph_coins lt_coins
            (at_chunks c0 to_client [])
          ≡ (ok (over_tcp at_client), at_chunks c4 client_rest (fch ∷ fcke ∷ fcfm ∷ [])))
        × (server_dialog p d h k (at_chunks s0 to_server [])
            ≡ (ok (over_tcp at_server), at_chunks s3 server_rest (fsh ∷ fsfm ∷ [])))
        × (stream client_rest ≡ [])
        × (stream server_rest ≡ [])
  client_dialog-server_dialog now eph_coins lt_coins ch sh cke sfm cfm fch fsh fcke fsfm fcfm
        session at_client at_server c0 c1 c2 c3 c4 s0 s1 s2 s3 to_client to_server said greeted took
        answered ended confirmed verified made_ch made_sh made_cke made_sfm made_cfm open_client
        open_server for_client for_server =
      let (client_rest, client, client_left, _) =
        client_dialog-eq p d h k now eph_coins lt_coins ch sh cke sfm cfm fch fsh fcke fsfm fcfm []
          session at_client c0 c1 c2 c3 c4 to_client [] said took ended confirmed made_ch made_sh
          made_cke made_sfm made_cfm open_client for_client in
      let (server_rest, server, server_left, _) =
        server_dialog-eq ch sh cke sfm cfm fch fsh fcke fsfm fcfm [] at_server s0 s1 s2 s3 to_server
          [] greeted answered verified made_ch made_sh made_cke made_sfm made_cfm open_server
          for_server in
      (client_rest, server_rest, client, server, client_left, server_left)

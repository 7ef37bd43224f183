-- ===== src/Examples/Transport.antt =====
-- Records over a socket.
use kemtls.Handshake.Confirmation.{Agreed}
use kemtls.Handshake.Finish.{Keys, keyed}
use kemtls.Session.{KemtlsSession}
use kemtls.Transport.{over_tcp, ServerConnection}
use kemtls.Transport.Serving.{serve_loop}
use kemtls.Transport.Serving.Fuel.{serve_loop_enough, Left}
use mathlib.Core.Path.{subst}
use kemtls.Http.Flask.{Environ, Reply}
use kemtls.Common.{some}
use kemtls.Common.Error.{Result}
use kemtls.Common.{
  ℕ, ◌+◌, ◌≡◌, refl, arith, List, [], ◌∷◌, ◌++◌, length, take, drop, codes, Bytes, to_bytes,
}
use kemtls.Common.Error.{eof_error, value_error, ok, raised}
use kemtls.Crypto.Aead.{seal, zeros, xor_iv_with_seq}
use kemtls.Crypto.Aead.Nonce.{xor_iv_with_seq-injective, zeros-IsBytes}
use kemtls.RecordLayer.{
  RecordLayer, protect, for_client, for_server, send_record, recv_record, frame_tcp_record,
}
use kemtls.RecordLayer.Framing.{header_of}
use kemtls.RecordLayer.Delivery.{Connected}
use kemtls.RecordLayer.Transfer.{
  send_all, recv_all, recv_all-send_all, recv_record_out_of_order, send_record_total,
}
use kemtls.Socket.Reading.{stream, ReadsExactly, read_n_bytes-ReadsExactly}
use kemtls.Examples.Values.{toy_cipher, toy_cipher_laws, toy_session}

abbrev two_messages : List Bytes
two_messages = codes "GET" ∷ codes "PUT" ∷ []

abbrev fresh_client : RecordLayer
fresh_client = for_client toy_session (record { incoming = []; sent = [] })

abbrev after_two : RecordLayer
after_two = (send_all toy_cipher two_messages fresh_client).1

abbrev two_chunks : List Bytes
two_chunks = take 5 (stream after_two.sock.sent) ∷ drop 5 (stream after_two.sock.sent) ∷ []

recv_all-send_all_example :
    (r' : RecordLayer) × (recv_all toy_cipher
        (length two_messages)
        (for_server toy_session (record { incoming = two_chunks; sent = [] }))
      ≡ (ok two_messages, r'))
    × Connected after_two r'
unfolding for_client send_all send_record zeros protect xor_iv_with_seq seal to_bytes
    frame_tcp_record
recv_all-send_all_example =
    recv_all-send_all toy_cipher toy_cipher_laws toy_session two_messages [] two_chunks refl
      (omega arith, (omega arith, tt)) refl

read_n_bytes-ReadsExactly_example :
    ReadsExactly (eof_error "closed") 3 ((1 ∷ 2 ∷ []) ∷ (3 ∷ 4 ∷ []) ∷ [])
read_n_bytes-ReadsExactly_example =
    read_n_bytes-ReadsExactly (eof_error "closed") 3 ((1 ∷ 2 ∷ []) ∷ (3 ∷ 4 ∷ []) ∷ [])
      (omega arith, (omega arith, tt))

abbrev late_server : RecordLayer
late_server = for_server toy_session (record { incoming = header_of 7 20 ∷ []; sent = [] })

recv_record_out_of_order_example :
    ((recv_record toy_cipher late_server).0 ≡ raised (value_error "Sequence mismatch"))
    × ((recv_record toy_cipher late_server).1.recv_seq ≡ late_server.recv_seq)
unfolding for_server to_bytes
recv_record_out_of_order_example =
    recv_record_out_of_order toy_cipher late_server 7 20 [] (omega arith, tt) refl (omega arith)
      (λ e. omega arith)

send_record_total_example :
    (nonce : Bytes) × (s' : RecordLayer) × (xor_iv_with_seq (some (zeros 12)) 0 ≡ ok nonce)
    × (send_record toy_cipher (codes "GET") fresh_client ≡ (ok tt, s'))
    × (s'.send_seq ≡ fresh_client.send_seq + 1)
    × (s'.sock.sent
        ≡ fresh_client.sock.sent
          ++ (header_of 0 (length (codes "GET") + 16)
              ++ toy_cipher.encrypt
                  (zeros 32)
                  nonce
                  (codes "GET")
                  (header_of 0 (length (codes "GET") + 16)))
            ∷ [])
unfolding for_client zeros
send_record_total_example =
    send_record_total toy_cipher toy_cipher_laws (zeros 32) (zeros 12) (codes "GET") fresh_client
      refl refl refl refl (omega arith) (omega arith)

abbrev frame_of_get : Bytes
frame_of_get = header_of 5 3 ++ codes "GET"

abbrev three : ℕ
three = 3

xor_iv_with_seq-injective_example : three ≡ three
unfolding xor_iv_with_seq zeros to_bytes
xor_iv_with_seq-injective_example =
    xor_iv_with_seq-injective (zeros 12) 3 3 (zeros-IsBytes 12) refl refl

abbrev agreed_keys : Keys
agreed_keys = record {
  client = zeros 32;
  server = zeros 32;
  client_iv = zeros 12;
  server_iv = zeros 12;
  exporter = zeros 32;
  session_binding = codes "b";
  refresh_binding = codes "r";
}

abbrev agreed_session : KemtlsSession
agreed_session = keyed agreed_keys toy_session

agreed : Agreed agreed_session agreed_session
unfolding zeros
agreed = record {
  keys = agreed_keys;
  client_session = toy_session;
  server_session = toy_session;
  at_client_eq = refl;
  at_server_eq = refl;
  same_session_id = refl;
  same_mode = refl;
  client_length = refl;
  server_length = refl;
  client_iv_length = refl;
  server_iv_length = refl;
}

abbrev agreed_client : RecordLayer
agreed_client = for_client (over_tcp agreed_session) (record { incoming = []; sent = [] })

abbrev agreed_sent : RecordLayer
agreed_sent = (send_all toy_cipher two_messages agreed_client).1

-- A peer that sends three bytes and closes.
abbrev cut_short : ServerConnection
cut_short = record {
  sock = record { incoming = (1 ∷ 2 ∷ 3 ∷ []) ∷ []; sent = [] };
  session = some agreed_session;
  record_layer =
      some (for_server agreed_session (record { incoming = (1 ∷ 2 ∷ 3 ∷ []) ∷ []; sent = [] }));
}

abbrev no_app : Environ → Result Reply
no_app environ = raised (value_error "no application")

serve_loop_enough_example :
    (o : Result (Unit {0}) × ServerConnection) × (serve_loop toy_cipher no_app 4 agreed_session
        cut_short
      ≡ some o)
    × (serve_loop toy_cipher no_app 10 agreed_session cut_short ≡ some o)
unfolding for_server
serve_loop_enough_example =
    serve_loop_enough toy_cipher no_app 4 10 agreed_session cut_short
      (
        omega arith,
        λ layer same.
            let equal : for_server agreed_session
                  (record { incoming = (1 ∷ 2 ∷ 3 ∷ []) ∷ []; sent = [] })
                ≡ layer =
              ground arith in
            subst (Left 4) equal ((omega arith, tt), omega arith),
      )
      (omega arith)

-- ===== src/RecordLayer/Transfer.antt =====
-- Whole conversations: a list of messages sent, then received.
use kemtls.Common.{
  ℕ, zero, suc, ◌+◌, ◌^◌, ◌<◌, ◌≡◌, ◌≢◌, refl, sym, ap, ◌∙◌, arith, some, List, [], ◌∷◌, ◌++◌,
  append-nil, append_assoc, length, length-append, take, take-append_of_length, Bytes,
}
use kemtls.Common.Error.{ok, raised, value_error}
use kemtls.Common.Action.{Action, pure, ◌>>=◌, ◌>>◌, >>=-eq-ok}
use kemtls.Crypto.Primitives.{ChaCha, ChaChaLaws}
use kemtls.Crypto.Aead.{seal}
use kemtls.Crypto.Aead.Nonce.{xor_iv_with_seq_total}
use kemtls.Session.{KemtlsSession}
use kemtls.Socket.{Socket}
use kemtls.Socket.Reading.{stream, IsOpen}
use kemtls.Crypto.Aead.{xor_iv_with_seq}
use kemtls.RecordLayer.{
  RecordLayer, protect, sent, for_client, for_server, send_record, recv_record,
}
use kemtls.RecordLayer.Framing.{header_of, length-header_of, header_seq, frame_of_fits}
use kemtls.RecordLayer.Delivery.{
  Sends, send_record-Sends, with_incoming, Connected, recv_record-Sends, recv_record_refuses,
  read_bytes_lem,
}

module _ (c : ChaCha) where
  unfoldable pub send_all : List Bytes → Action RecordLayer (Unit {0})
  send_all [] r = (ok tt, r)
  send_all (m ∷ ms) r = (do send_record c m; send_all ms) r

  unfoldable pub recv_all : ℕ → Action RecordLayer (List Bytes)
  recv_all zero r = (ok [], r)
  recv_all (suc n) r = (do m ← recv_record c; ms ← recv_all n; pure (m ∷ ms)) r

  -- A run of sends splits at its first.
  send_all_inv :
      (m : Bytes) (ms : List Bytes) (s : RecordLayer) {s' : RecordLayer}
      → send_all (m ∷ ms) s ≡ (ok tt, s')
      → (s1 : RecordLayer) × (send_record c m s ≡ (ok tt, s1)) × (send_all ms s1 ≡ (ok tt, s'))
  unfolding send_all
  send_all_inv m ms s h =
      let (_, s1, first, later) = >>=-eq-ok (send_record c m) (λ _. send_all ms) s h in
      (s1, first, later)

  recv_all_step :
      (n : ℕ) (m : Bytes) (ms : List Bytes) (r r1 : RecordLayer) {r' : RecordLayer}
      → recv_record c r ≡ (ok m, r1)
      → recv_all n r1 ≡ (ok ms, r')
      → recv_all (suc n) r ≡ (ok (m ∷ ms), r')
  unfolding recv_all
  recv_all_step n m ms r r1 first later = ground arith

-- What the sender has put on the wire, the receiver turns into the messages.
abbrev Carries : ChaCha → List Bytes → RecordLayer → RecordLayer → List Bytes → Type 0
Carries c ms s s' frames =
    (r : RecordLayer) (rest : Bytes)
    → Connected s r
    → IsOpen r.sock.incoming
    → stream r.sock.incoming ≡ stream frames ++ rest
    → (r' : RecordLayer) × (recv_all c (length ms) r ≡ (ok ms, r')) × Connected s' r'

module _ (c : ChaCha) (laws : ChaChaLaws c) where
  send_all-Carries :
      (ms : List Bytes) (s : RecordLayer) {s' : RecordLayer}
      → send_all c ms s ≡ (ok tt, s')
      → (frames : List Bytes) × (s'.sock.sent ≡ s.sock.sent ++ frames) × Carries c ms s s' frames
  unfolding send_all recv_all
  send_all-Carries [] s {s'} h =
      let same : s ≡ s' = cc in
      ([], rw (← same) (sym (append-nil _)), λ r rest joined _ _. (r, refl, rw (← same) joined))
  send_all-Carries (m ∷ ms) s {s'} h =
      let (s1, first, later) = send_all_inv c m ms s h in
      let w : Sends c s s1 m = send_record-Sends c laws m s first in
      let wire = header_of s.send_seq (length w.ciphertext) ++ w.ciphertext in
      let (frames, grown, carries) = send_all-Carries ms s1 later in
      (
        wire ∷ frames,
        grown
            ∙ ap (λ l. l.sock.sent ++ frames) w.after
            ∙ append_assoc s.sock.sent (wire ∷ []) frames,
        λ r rest joined open_chunks arrives.
            let (r1, got, joined1, left, open1) =
              recv_record-Sends c laws s s1 r m (stream frames ++ rest) w joined open_chunks (
                arrives
                ∙ append_assoc wire (stream frames) rest
                ∙ append_assoc (header_of s.send_seq (length w.ciphertext)) w.ciphertext _) in
            let (r', rest_got, joined') = carries r1 rest joined1 open1 left in
            (r', recv_all_step c (length ms) m ms r r1 got rest_got, joined'),
      )

-- The keys of a session are shared: the client's layer sends under what the server's receives.
session-Connected :
    (session : KemtlsSession) (sock sock' : Socket)
    → Connected (for_client session sock) (for_server session sock')
unfolding for_client for_server
session-Connected session sock sock' = record { key = refl; iv = refl; seq = refl }

-- Whatever a client sends over a session, the server receives: the same messages in the same order,
-- however the network cuts the stream into chunks.
pub recv_all-send_all :
    (c : ChaCha) (laws : ChaChaLaws c) (session : KemtlsSession) (ms : List Bytes)
    (incoming chunks : List Bytes) {s' : RecordLayer}
    → send_all c ms (for_client session (record { incoming = incoming; sent = [] })) ≡ (ok tt, s')
    → IsOpen chunks
    → stream chunks ≡ stream s'.sock.sent
    → (r' : RecordLayer) × (recv_all c
          (length ms)
          (for_server session (record { incoming = chunks; sent = [] }))
        ≡ (ok ms, r'))
      × Connected s' r'
unfolding for_client for_server
recv_all-send_all c laws session ms incoming chunks h open_chunks arrives =
    let (frames, grown, carries) = send_all-Carries c laws ms _ h in
    carries (for_server session (record { incoming = chunks; sent = [] })) []
      (session-Connected session _ _) open_chunks
      (arrives ∙ ap stream grown ∙ sym (append-nil (stream frames)))

-- A record that carries another number than the expected one is refused: a replayed, a dropped or a
-- reordered one. Nothing is decrypted, and the counter stays.
pub recv_record_out_of_order :
    (c : ChaCha) (r : RecordLayer) (seq size : ℕ) (body : Bytes)
    → IsOpen r.sock.incoming
    → stream r.sock.incoming ≡ header_of seq size ++ body
    → seq < 2 ^ 64
    → seq ≢ r.recv_seq
    → ((recv_record c r).0 ≡ raised (value_error "Sequence mismatch"))
      × ((recv_record c r).1.recv_seq ≡ r.recv_seq)
recv_record_out_of_order c r seq size body open_chunks arrives small other =
    let head = header_of seq size in
    let twelve : length head ≡ 12 = length-header_of seq size in
    let (chunks, first, _, _) =
      read_bytes_lem 12 r open_chunks (omega (arith, ap length arrives, length-append head body)) in
    let is_head : take 12 (stream r.sock.incoming) ≡ head =
      ap (take 12) arrives ∙ take-append_of_length head body twelve in
    let refused =
      recv_record_refuses c head r _ (first ∙ ap (λ b. (ok b, with_incoming r chunks)) is_head)
        (λ e. other (sym (header_seq seq size small) ∙ e)) in
    (ap (λ o. o.0) refused, ap (λ o. o.1.recv_seq) refused)

-- With keys and IVs of the right sizes, a message that fits a record is sent as long as sequence
-- numbers last: 2 ^ 64 records, of at most 2 ^ 32 - 17 bytes each. What goes to the socket is one
-- byte string: the number and the length as header, and the message encrypted under the nonce of
-- this number with the header as associated data; the next record has the next number.
pub send_record_total :
    (c : ChaCha) (laws : ChaChaLaws c) (key iv plaintext : Bytes) (s : RecordLayer)
    → s.send_key ≡ some key
    → s.send_iv ≡ some iv
    → length key ≡ 32
    → length iv ≡ 12
    → s.send_seq < 2 ^ 64
    → length plaintext + 16 < 2 ^ 32
    → (nonce : Bytes) × (s' : RecordLayer) × (xor_iv_with_seq (some iv) s.send_seq ≡ ok nonce)
      × (send_record c plaintext s ≡ (ok tt, s'))
      × (s'.send_seq ≡ s.send_seq + 1)
      × (s'.sock.sent
          ≡ s.sock.sent
            ++ (header_of s.send_seq (length plaintext + 16)
                ++ c.encrypt key nonce plaintext (header_of s.send_seq (length plaintext + 16)))
              ∷ [])
unfolding send_record seal
send_record_total c laws key iv plaintext s is_key is_iv hk hi small fits =
    let (nonce, drawn, long) = xor_iv_with_seq_total iv s.send_seq hi small in
    let head = header_of s.send_seq (length plaintext + 16) in
    let ciphertext = c.encrypt key nonce plaintext head in
    let expands : length ciphertext ≡ length plaintext + 16 =
      laws.length-encrypt key nonce plaintext head in
    let sealed : protect c (some key) (some iv) s.send_seq plaintext head ≡ ok ciphertext =
      unfold protect in rw drawn (ground arith) in
    let framed = frame_of_fits s.send_seq ciphertext small (omega arith) in
    (
      nonce,
      sent (header_of s.send_seq (length ciphertext) ++ ciphertext) s,
      drawn,
      ground (arith, sealed, framed),
      refl,
      ap (λ (n : ℕ). s.sock.sent ++ (header_of s.send_seq n ++ ciphertext) ∷ []) expands,
    )

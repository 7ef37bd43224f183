-- ===== src/RecordLayer/Delivery.antt =====
-- What one record layer sends, the other receives, whatever the network does to the chunks.
use kemtls.Common.{
  ℕ, ◌+◌, ◌^◌, ◌≤◌, ◌<◌, ◌≡◌, sym, ap, ◌∙◌, ◌≢◌, arith, inl, inr, Option, some, List, ◌++◌, length,
  length-append, take, drop, take-append, drop-append, take-append_of_length, drop-append_of_length,
  Bytes, from_bytes,
}
use kemtls.Common.Error.{value_error, Result, ok, raised, >>=-eq-ok, Result-cases}
use kemtls.Crypto.Primitives.{ChaCha, ChaChaLaws}
use kemtls.Crypto.Aead.{xor_iv_with_seq}
use kemtls.Crypto.Aead.Sealing.{length-seal, open_sealed-seal}
use kemtls.Socket.Reading.{stream, IsOpen, read_n_bytes-ReadsExactly}
use kemtls.RecordLayer.{
  RecordLayer, frame_tcp_record, parse_tcp_record, protect, unprotect, sent, closed, read_bytes,
  send_record, accept_record, recv_record,
}
use kemtls.RecordLayer.Framing.{
  header_of, length-header_of, header_seq, header_length, frame_inv, parse_of_header,
}

module _ (c : ChaCha) where
  -- What a successful `send_record` has put on the wire.
  pub record Sends (s s' : RecordLayer) (plaintext : Bytes) : Type 0 where
    pub ciphertext : Bytes
    pub small_seq : s.send_seq < 2 ^ 64
    pub small_size : length ciphertext < 2 ^ 32
    pub expands : length ciphertext ≡ length plaintext + 16
    pub protected :
        protect c s.send_key s.send_iv s.send_seq plaintext
          (header_of s.send_seq (length ciphertext))
        ≡ ok ciphertext
    pub after : s' ≡ sent (header_of s.send_seq (length ciphertext) ++ ciphertext) s

module _ (c : ChaCha) (laws : ChaChaLaws c) where
  length-protect :
      (key iv : Option Bytes) (seq : ℕ) (plaintext aad : Bytes) {ciphertext : Bytes}
      → protect c key iv seq plaintext aad ≡ ok ciphertext
      → length ciphertext ≡ length plaintext + 16
  unfolding protect
  length-protect key iv seq plaintext aad h =
      let (nonce, _, sealed) = >>=-eq-ok (xor_iv_with_seq iv seq) _ h in
      length-seal c laws key (some nonce) plaintext aad sealed

  pub unprotect-protect :
      (key iv : Option Bytes) (seq : ℕ) (plaintext aad : Bytes) {ciphertext : Bytes}
      → protect c key iv seq plaintext aad ≡ ok ciphertext
      → unprotect c key iv seq ciphertext aad ≡ ok plaintext
  unfolding protect unprotect
  unprotect-protect key iv seq plaintext aad h =
      let (nonce, drawn, sealed) = >>=-eq-ok (xor_iv_with_seq iv seq) _ h in
      rw drawn (open_sealed-seal c laws key (some nonce) plaintext aad sealed)

  -- The parts of a successful send.
  send_parts :
      (plaintext : Bytes) (s : RecordLayer) {s' : RecordLayer}
      → send_record c plaintext s ≡ (ok tt, s')
      → (ciphertext framed : Bytes) × (s.send_seq < 2 ^ 64)
        × (protect c s.send_key s.send_iv s.send_seq plaintext
              (header_of s.send_seq (length plaintext + 16))
            ≡ ok ciphertext)
        × (frame_tcp_record s.send_seq ciphertext ≡ ok framed)
        × (s' ≡ sent framed s)
  unfolding send_record
  send_parts plaintext s h =
      let sealed =
        protect c s.send_key s.send_iv s.send_seq plaintext
          (header_of s.send_seq (length plaintext + 16)) in
      elim (Result-cases sealed) [
        | inl (ciphertext, done) ↦ elim (Result-cases (frame_tcp_record s.send_seq ciphertext)) [
          | inl (framed, is_framed) ↦
              (ciphertext, framed, ground arith, done, is_framed, ground arith)
          | inr (e, failed) ↦ absurd (ground arith)
        ]
        | inr (e, failed) ↦ absurd (ground arith)
      ]

  pub send_record-Sends :
      (plaintext : Bytes) (s : RecordLayer) {s' : RecordLayer}
      → send_record c plaintext s ≡ (ok tt, s')
      → Sends c s s' plaintext
  send_record-Sends plaintext s {s'} h =
      let (ciphertext, framed, small, sealed, is_framed, after) = send_parts plaintext s h in
      let long : length ciphertext ≡ length plaintext + 16 =
        length-protect s.send_key s.send_iv s.send_seq plaintext _ sealed in
      let (_, fits, is_wire) = frame_inv s.send_seq ciphertext is_framed in
      record {
        ciphertext = ciphertext;
        small_seq = small;
        small_size = fits;
        expands = long;
        protected = rw long sealed;
        after = after ∙ ap (λ l. sent l s) is_wire;
      }

-- A layer whose socket has other chunks to come.
abbrev pub with_incoming : RecordLayer → List Bytes → RecordLayer
with_incoming r chunks = record r { sock = record { incoming = chunks; sent = r.sock.sent } }

pub read_bytes_lem :
    (n : ℕ) (r : RecordLayer)
    → IsOpen r.sock.incoming
    → n ≤ length (stream r.sock.incoming)
    → (chunks : List Bytes) × (read_bytes n r
        ≡ (ok (take n (stream r.sock.incoming)), with_incoming r chunks))
      × (stream chunks ≡ drop n (stream r.sock.incoming))
      × IsOpen chunks
unfolding read_bytes
read_bytes_lem n r open_chunks there =
    let (rest, result, left, open_rest) =
      (read_n_bytes-ReadsExactly closed n r.sock.incoming open_chunks).enough there in
    (rest, ground (arith, result), left, open_rest)

module _ (c : ChaCha) where
  accept_record_lem :
      (header ciphertext payload plaintext : Bytes) (seq : ℕ) (r : RecordLayer)
      → parse_tcp_record (header ++ ciphertext) ≡ ok (seq, payload)
      → seq ≡ from_bytes (take 8 header)
      → unprotect c r.recv_key r.recv_iv r.recv_seq payload header ≡ ok plaintext
      → accept_record c header ciphertext r ≡ (ok plaintext, record r { recv_seq = r.recv_seq + 1 })
  unfolding accept_record
  accept_record_lem header ciphertext payload plaintext seq r parsed same opened = ground arith

  recv_record_lem :
      (header ciphertext : Bytes) (r r' r'' : RecordLayer)
      → read_bytes 12 r ≡ (ok header, r')
      → from_bytes (take 8 header) ≡ r'.recv_seq
      → read_bytes (from_bytes (take 4 (drop 8 header))) r' ≡ (ok ciphertext, r'')
      → recv_record c r ≡ accept_record c header ciphertext r''
  unfolding recv_record
  recv_record_lem header ciphertext r r' r'' first same second = ground arith

  -- A record with another sequence number than the expected one is refused, and the counter stays.
  pub recv_record_refuses :
      (header : Bytes) (r r' : RecordLayer)
      → read_bytes 12 r ≡ (ok header, r')
      → from_bytes (take 8 header) ≢ r'.recv_seq
      → recv_record c r ≡ (raised (value_error "Sequence mismatch"), r')
  unfolding recv_record
  recv_record_refuses header r r' first other = ground arith

-- The receiver holds the sender's keys and expects its next sequence number.
pub record Connected (s r : RecordLayer) : Type 0 where
  pub key : s.send_key ≡ r.recv_key
  pub iv : s.send_iv ≡ r.recv_iv
  pub seq : s.send_seq ≡ r.recv_seq

-- The receiver has returned `plaintext`, and is ready for what follows.
abbrev pub Receives : RecordLayer → Bytes → Bytes → Result Bytes × RecordLayer → Type 0
Receives s' plaintext rest outcome =
    (r' : RecordLayer) × (outcome ≡ (ok plaintext, r'))
    × Connected s' r'
    × (stream r'.sock.incoming ≡ rest)
    × IsOpen r'.sock.incoming

module _ (c : ChaCha) (laws : ChaChaLaws c) where
  pub recv_record-Sends :
      (s s' r : RecordLayer) (plaintext rest : Bytes) (w : Sends c s s' plaintext)
      → Connected s r
      → IsOpen r.sock.incoming
      → stream r.sock.incoming
        ≡ header_of s.send_seq (length w.ciphertext) ++ (w.ciphertext ++ rest)
      → Receives s' plaintext rest (recv_record c r)
  recv_record-Sends s s' r plaintext rest w joined open_chunks arrives =
      let size = length w.ciphertext in
      let head = header_of s.send_seq size in
      let body = w.ciphertext ++ rest in
      let twelve : length head ≡ 12 = length-header_of s.send_seq size in
      let total : length (stream r.sock.incoming) ≡ 12 + (size + length rest) =
        ap length arrives
        ∙ length-append head body
        ∙ omega (arith, length-append w.ciphertext rest) in
      let (chunks, first, left, open_first) = read_bytes_lem 12 r open_chunks (omega arith) in
      let is_head : take 12 (stream r.sock.incoming) ≡ head =
        ap (take 12) arrives ∙ take-append_of_length head body twelve in
      let is_body : stream chunks ≡ body =
        left ∙ ap (drop 12) arrives ∙ drop-append_of_length head body twelve in
      let r1 = with_incoming r chunks in
      let (chunks', second, left', open_second) =
        read_bytes_lem size r1 open_first
          (omega (arith, ap length is_body, length-append w.ciphertext rest)) in
      let is_ciphertext : take size (stream chunks) ≡ w.ciphertext =
        ap (take size) is_body ∙ take-append w.ciphertext rest in
      let is_rest : stream chunks' ≡ rest =
        left' ∙ ap (drop size) is_body ∙ drop-append w.ciphertext rest in
      let r2 = with_incoming r chunks' in
      let announced : from_bytes (take 4 (drop 8 head)) ≡ size =
        header_length s.send_seq size w.small_size in
      let numbered : from_bytes (take 8 head) ≡ s.send_seq =
        header_seq s.send_seq size w.small_seq in
      let opened : unprotect c r.recv_key r.recv_iv r.recv_seq w.ciphertext head ≡ ok plaintext =
        rw (← joined.key, ← joined.iv, ← joined.seq)
          (unprotect-protect c laws s.send_key s.send_iv s.send_seq plaintext head w.protected) in
      (
        record r2 { recv_seq = r.recv_seq + 1 },
        recv_record_lem c head w.ciphertext r r1 r2 (first ∙ ap (λ b. (ok b, r1)) is_head)
              (numbered ∙ joined.seq)
              (ap (λ n. read_bytes n r1) announced ∙ second ∙ ap (λ b. (ok b, r2)) is_ciphertext)
            ∙ accept_record_lem c head w.ciphertext w.ciphertext plaintext s.send_seq r2
                (parse_of_header s.send_seq w.ciphertext w.small_seq w.small_size) (sym numbered)
                opened,
        rw w.after (record { key = joined.key; iv = joined.iv; seq = ap (λ n. n + 1) joined.seq }),
        is_rest,
        open_second,
      )

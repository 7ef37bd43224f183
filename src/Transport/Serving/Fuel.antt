-- ===== src/Transport/Serving/Fuel.antt =====
-- The fuel of the loop over requests: a round reads the header of a record, so that more fuel than
-- bytes to come is enough.
use kemtls.Common.{
  ℕ, zero, suc, ◌+◌, ◌≤◌, ◌<◌, ◌≡◌, refl, arith, inl, inr, Bool, true, false, none, some, Bytes,
  length, length-drop, drop, take, leb, Bool-cases, from_bytes, ◌==◌, ◌^◌, not, ◌++◌,
}
use kemtls.Common.Action.{
  Action, Ensures, Ensures->>=, Ensures-lift, Ensures-gets, Ensures-modify, Ensures-pure, Outcome,
  lift, gets, fail_if, modify,
}
use kemtls.Common.Error.{Error, value_error, overflow_error, Result, ok, raised}
use kemtls.Crypto.Primitives.{ChaCha}
use kemtls.RecordLayer.{
  RecordLayer, closed, read_bytes, pack_header, protect, frame_tcp_record, sent, send_record,
  recv_record, accept_record, parse_tcp_record, unprotect,
}
use kemtls.Crypto.Aead.{tag_size}
use kemtls.Transport.{
  ServerConnection, with_server_layer, server_send_application, server_recv_application,
}
use kemtls.Transport.Serving.{
  Served, end_of_requests, asks_to_close, answer_request, after_answer, after_request, serve_loop,
}
use kemtls.Session.{KemtlsSession}
use kemtls.Http.{parse_http_request}
use kemtls.Http.Flask.{Environ, Reply, call_flask_app}
use mathlib.Core.Path.{subst}
use kemtls.Common.{Option}
use kemtls.Socket.Reading.{stream, IsOpen, read_n_bytes-ReadsExactly}

-- Fewer than `n` bytes are to come.
abbrev pub Left : ℕ → RecordLayer → Type 0
Left n r = IsOpen r.sock.incoming × (length (stream r.sock.incoming) < n)

abbrev Anything : RecordLayer → Type 0
Anything r = Unit {0}

read_bytes-Left : (a k e : ℕ) → a ≤ k + e → Ensures (Left a) (read_bytes k) (λ b. Left e) Anything
unfolding read_bytes
read_bytes-Left a k e enough = record {
  holds = λ r (is_open, small).
      let reads = read_n_bytes-ReadsExactly closed k r.sock.incoming is_open in
      elim (Bool-cases (leb k (length (stream r.sock.incoming)))) [
        | inl all ↦
            let (rest, result, split, still_open) = reads.enough (ground arith) in
            rw result (
              still_open,
              rw split (ground (arith, length-drop k (stream r.sock.incoming), all, enough, small)),
            )
        | inr few ↦ let (rest, result) = reads.starved (ground arith) in rw result tt
      ];
}

fail_if-Left :
    (n : ℕ) (bad : Bool) (e : Error) → Ensures (Left n) (fail_if bad e) (λ u. Left n) Anything
fail_if-Left n true e = record { holds = λ r h. tt }
fail_if-Left n false e = record { holds = λ r h. h }

module _ (c : ChaCha) where
  accept_record-Left :
      (n : ℕ) (header ciphertext : Bytes)
      → Ensures (Left n) (accept_record c header ciphertext) (λ b. Left n) Anything
  unfolding accept_record
  accept_record-Left n header ciphertext = record {
    holds = λ r.
        (Ensures->>= {P = Left n} {Q = λ p. Left n} (lift (parse_tcp_record (header ++ ciphertext)))
            (Ensures-lift _ λ s h. tt)
            λ parsed.
              Ensures->>=
                (fail_if (not (parsed.0 == from_bytes (take 8 header)))
                  (value_error "record framing parse mismatch"))
                (fail_if-Left n _ _)
                λ u.
                  Ensures->>= (lift (unprotect c r.recv_key r.recv_iv r.recv_seq parsed.1 header))
                    (Ensures-lift _ λ s h. tt)
                    λ plaintext.
                      Ensures->>= (modify (λ s. record s { recv_seq = s.recv_seq + 1 }))
                        (Ensures-modify {Q = Left n} _ λ s h. h)
                        λ u. Ensures-pure plaintext λ s h. h).holds
          r;
  }

  recv_record-Left : (n : ℕ) → Ensures (Left (suc n)) (recv_record c) (λ b. Left n) Anything
  unfolding recv_record
  recv_record-Left n =
      Ensures->>= (read_bytes 12) (read_bytes-Left (suc n) 12 n (omega arith)) λ header.
        Ensures->>= (gets (λ s. s.recv_seq)) (Ensures-gets _) λ expected.
          Ensures->>=
            (fail_if (not (from_bytes (take 8 header) == expected))
              (value_error "Sequence mismatch"))
            (fail_if-Left n _ _)
            λ u.
              Ensures->>= (read_bytes (from_bytes (take 4 (drop 8 header))))
                (read_bytes-Left n (from_bytes (take 4 (drop 8 header))) n (omega arith))
                λ ciphertext. accept_record-Left n header ciphertext

  sent-Left :
      (n : ℕ) (framed : Bytes) → Ensures (Left n) (modify (sent framed)) (λ u. Left n) Anything
  sent-Left n framed = Ensures-modify _ λ s h. h

  send_record-Left :
      (n : ℕ) (plaintext : Bytes)
      → Ensures (Left n) (send_record c plaintext) (λ u. Left n) Anything
  unfolding send_record
  send_record-Left n plaintext = record {
    holds = λ r.
        (Ensures->>= {P = Left n}
            (fail_if (leb (2 ^ 64) r.send_seq) (overflow_error "Sequence number overflow"))
            (fail_if-Left n _ _)
            λ u.
              Ensures->>= (lift (pack_header r.send_seq (length plaintext + tag_size)))
                (Ensures-lift _ λ s h. tt)
                λ header.
                  Ensures->>= (lift (protect c r.send_key r.send_iv r.send_seq plaintext header))
                    (Ensures-lift _ λ s h. tt)
                    λ ciphertext.
                      Ensures->>= (lift (frame_tcp_record r.send_seq ciphertext))
                        (Ensures-lift _ λ s h. tt) λ framed. sent-Left n framed).holds
          r;
  }

-- The same of the record layer of a connection.
abbrev pub LeftAt : ℕ → ServerConnection → Type 0
LeftAt n t = (0 < n) × ((layer : RecordLayer) → t.record_layer ≡ some layer → Left n layer)

layer-Outcome :
    {A : Type 0} (e : ℕ) (t : ServerConnection) (o : Result A × RecordLayer)
    → Outcome (λ a. Left e) Anything o
    → Outcome
        (λ a. LeftAt e)
        (λ t. Unit {0})
        (o.0, record t { record_layer = some o.1; sock = o.1.sock })
layer-Outcome e t (ok a, after) h = (
  omega (arith, h.1),
  λ layer same. let equal : after ≡ layer = ground arith in subst (Left e) equal h,
)
layer-Outcome e t (raised x, after) h = tt

with_layer-LeftAt :
    {A : Type 0} (a e : ℕ) (method : Action RecordLayer A)
    → Ensures (Left a) method (λ b. Left e) Anything
    → (t : ServerConnection) (found : Option RecordLayer) → t.record_layer ≡ found
    → LeftAt a t
    → Outcome (λ b. LeftAt e) (λ t. Unit {0}) (with_server_layer method t)
with_layer-LeftAt a e method h t none missing left = rw missing tt
with_layer-LeftAt a e method h t (some layer) there left =
    rw there (layer-Outcome e t (method layer) (h.holds layer (left.1 layer there)))

module _ (c : ChaCha) (app : Environ → Result Reply) where
  answer_request-LeftAt :
      (n : ℕ) (session : KemtlsSession) (raw_request : Bytes)
      → Ensures
          (LeftAt n)
          (answer_request c app session raw_request)
          (λ b. LeftAt n)
          (λ t. Unit {0})
  unfolding answer_request server_send_application
  answer_request-LeftAt n session raw_request =
      Ensures->>= (lift (parse_http_request raw_request)) (Ensures-lift _ λ t h. tt) λ request.
        Ensures->>= (lift (call_flask_app app session raw_request)) (Ensures-lift _ λ t h. tt)
          λ response.
            Ensures->>= {Q = λ u. LeftAt n} (server_send_application c response)
              (record {
                holds = λ t.
                    with_layer-LeftAt n n (send_record c response) (send_record-Left c n response) t
                      t.record_layer refl;
              })
              λ u. Ensures-pure (asks_to_close request) λ t h. h

  -- The loop ends with `o`, whatever fuel it has from `n` on.
  abbrev pub EndsWith :
      (n : ℕ) → (ℕ → Served c app) → (o : Result (Unit {0}) × ServerConnection) → Type 0
  EndsWith n loop o = (more : ℕ) → n ≤ more → loop more ≡ some o

  abbrev pub Ends : (n : ℕ) → (ℕ → Served c app) → Type 0
  Ends n loop = (o : Result (Unit {0}) × ServerConnection) × EndsWith n loop o

  after_answer-Ends :
      (n : ℕ) (session : KemtlsSession) (o : Result Bool × ServerConnection)
      → ((t : ServerConnection) → LeftAt n t → Ends n (λ m. serve_loop c app m session t))
      → Outcome (λ b. LeftAt n) (λ t. Unit {0}) o
      → Ends n (λ m. after_answer c app (λ u. serve_loop c app m session u) o)
  after_answer-Ends n session (raised e, t) again h = ((raised e, t), λ m enough. refl)
  after_answer-Ends n session (ok true, t) again h = ((ok tt, t), λ m enough. refl)
  after_answer-Ends n session (ok false, t) again h = again t h

  after_request-Ends :
      (n : ℕ) (session : KemtlsSession) (o : Result Bytes × ServerConnection)
      → ((t : ServerConnection) → LeftAt n t → Ends n (λ m. serve_loop c app m session t))
      → Outcome (λ b. LeftAt n) (λ t. Unit {0}) o
      → Ends n (λ m. after_request c app (λ u. serve_loop c app m session u) session o)
  after_request-Ends n session (raised e, t) again h = (end_of_requests c app e t, λ m enough. refl)
  after_request-Ends n session (ok raw_request, t) again h =
      after_answer-Ends n session (answer_request c app session raw_request t) again
        ((answer_request-LeftAt n session raw_request).holds t h)

  one_more :
      (n : ℕ) (session : KemtlsSession) (t : ServerConnection)
      (o : Result (Unit {0}) × ServerConnection)
      → EndsWith n
          (λ m.
            after_request c app
              (λ u. serve_loop c app m session u)
              session
              (server_recv_application c t))
          o
      → EndsWith (suc n) (λ m. serve_loop c app m session t) o
  unfolding serve_loop
  one_more n session t o ends zero enough = absurd (omega arith)
  one_more n session t o ends (suc m) enough = ends m (omega arith)

  serve_loop-Ends :
      (fuel : ℕ) (session : KemtlsSession) (t : ServerConnection)
      → LeftAt fuel t
      → Ends fuel (λ m. serve_loop c app m session t)
  unfolding server_recv_application
  serve_loop-Ends zero session t left = absurd (ground arith)
  serve_loop-Ends (suc fuel) session t left =
      let (o, ends) =
        after_request-Ends fuel session (server_recv_application c t)
          (λ u left. serve_loop-Ends fuel session u left)
          (with_layer-LeftAt (suc fuel) fuel (recv_record c) (recv_record-Left c fuel) t
            t.record_layer refl left) in
      (o, one_more fuel session t o ends)

  -- Fuel for more rounds than bytes are to come is enough for the loop over requests: it ends, and
  -- with more fuel it ends with the same.
  pub serve_loop_enough :
      (fuel more : ℕ) (session : KemtlsSession) (t : ServerConnection)
      → LeftAt fuel t
      → fuel ≤ more
      → (o : Result (Unit {0}) × ServerConnection) × (serve_loop c app fuel session t ≡ some o)
        × (serve_loop c app more session t ≡ some o)
  serve_loop_enough fuel more session t left enough =
      let (o, ends) = serve_loop-Ends fuel session t left in
      (o, ends fuel (omega arith), ends more enough)

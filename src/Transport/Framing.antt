-- ===== src/Transport/Framing.antt =====
-- The frames of handshake messages, over chunks of any size.
use kemtls.Common.{
  ℕ, ◌^◌, ◌<◌, ◌≡◌, ap, ◌∙◌, arith, List, ◌++◌, append_assoc, length, take, drop, length-append,
  take-append_of_length, drop-append_of_length, take-append, drop-append, Bytes, to_bytes,
  from_bytes, length-to_bytes, from_bytes-to_bytes,
}
use kemtls.Common.Error.{Error, Result, ok}
use kemtls.Common.Action.{lift-eq, >>=-eq}
use kemtls.Socket.{read_n_bytes, sendall}
use kemtls.Socket.Reading.{stream, IsOpen, read_enough}
use kemtls.Transport.{
  Dialog, handshake_frame, no_header, no_payload, send_handshake, read_exactly, recv_handshake,
}

handshake_frame_inv :
    (payload : Bytes) {frame : Bytes}
    → handshake_frame payload ≡ ok frame
    → (length payload < 2 ^ 32) × (frame ≡ to_bytes 4 (length payload) ++ payload)
unfolding handshake_frame
handshake_frame_inv payload h = ground arith

module _ {G : Type 0} where
  abbrev pub at_chunks : G → List Bytes → List Bytes → Dialog G
  at_chunks handshake chunks sent = record {
    handshake = handshake;
    sock = record { incoming = chunks; sent = sent };
  }

  read_exactly_lem :
      (eof : Error) (n : ℕ) (handshake : G) (chunks rest sent : List Bytes) {bytes : Bytes}
      → read_n_bytes eof n chunks ≡ (ok bytes, rest)
      → read_exactly eof n (at_chunks handshake chunks sent)
        ≡ (ok bytes, at_chunks handshake rest sent)
  unfolding read_exactly
  read_exactly_lem eof n handshake chunks rest sent h =
      ap (λ (o : Result Bytes × List Bytes). (o.0, at_chunks handshake o.1 sent)) h

  -- A frame that arrives, followed by more.
  receives :
      (payload later : Bytes) (handshake : G) (chunks sent : List Bytes)
      → length payload < 2 ^ 32
      → IsOpen chunks
      → stream chunks ≡ to_bytes 4 (length payload) ++ (payload ++ later)
      → (rest : List Bytes) × (recv_handshake (at_chunks handshake chunks sent)
          ≡ (ok payload, at_chunks handshake rest sent))
        × (stream rest ≡ later)
        × IsOpen rest
  unfolding recv_handshake
  receives payload later handshake chunks sent small open_chunks arrives =
      let head = to_bytes 4 (length payload) in
      let four : length head ≡ 4 = length-to_bytes 4 (length payload) in
      let (after, first, left, open_after) =
        read_enough no_header 4 chunks open_chunks
          (omega (arith, ap length arrives, length-append head (payload ++ later))) in
      let is_head : take 4 (stream chunks) ≡ head =
        ap (take 4) arrives ∙ take-append_of_length head (payload ++ later) four in
      let is_rest : stream after ≡ payload ++ later =
        left ∙ ap (drop 4) arrives ∙ drop-append_of_length head (payload ++ later) four in
      let value : from_bytes head ≡ length payload = from_bytes-to_bytes 4 (length payload) small in
      let (rest, second, left', open_rest) =
        read_enough no_payload (length payload) after open_after
          (omega (arith, ap length is_rest, length-append payload later)) in
      let is_payload : take (length payload) (stream after) ≡ payload =
        ap (take (length payload)) is_rest ∙ take-append payload later in
      (
        rest,
        >>=-eq (read_exactly no_header 4) (λ header. read_exactly no_payload (from_bytes header)) _
              (read_exactly_lem no_header 4 handshake chunks after sent
                (first ∙ ap (λ (b : Bytes). (ok b, after)) is_head))
            ∙ ap (λ (n : ℕ). read_exactly no_payload n (at_chunks handshake after sent)) value
            ∙ read_exactly_lem no_payload (length payload) handshake after rest sent
                (second ∙ ap (λ (b : Bytes). (ok b, rest)) is_payload),
        left' ∙ ap (drop (length payload)) is_rest ∙ drop-append payload later,
        open_rest,
      )

  -- A message that fits a frame is sent as that frame, and where the frame arrives, in chunks of any
  -- sizes, `recv_handshake` returns exactly the message and leaves what follows it.
  pub recv_handshake-send_handshake :
      {H : Type 0} (payload frame later : Bytes) (x : Dialog H) (handshake : G)
      (chunks sent : List Bytes)
      → handshake_frame payload ≡ ok frame
      → IsOpen chunks
      → stream chunks ≡ frame ++ later
      → (rest : List Bytes) × (send_handshake payload x
          ≡ (ok tt, record { handshake = x.handshake; sock = sendall frame x.sock }))
        × (recv_handshake (at_chunks handshake chunks sent)
            ≡ (ok payload, at_chunks handshake rest sent))
        × (stream rest ≡ later)
        × IsOpen rest
  unfolding send_handshake
  recv_handshake-send_handshake payload frame later x handshake chunks sent made open_chunks
        arrives =
      let (small, frame_eq) = handshake_frame_inv payload made in
      let (rest, received, left, open_rest) =
        receives payload later handshake chunks sent small open_chunks (
          arrives
          ∙ ap (λ (b : Bytes). b ++ later) frame_eq
          ∙ append_assoc (to_bytes 4 (length payload)) payload later) in
      (
        rest,
        lift-eq (handshake_frame payload)
            (λ framed. (ok tt, record { handshake = x.handshake; sock = sendall framed x.sock })) x
            made,
        received,
        left,
        open_rest,
      )

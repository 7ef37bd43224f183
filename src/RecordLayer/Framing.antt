-- ===== src/RecordLayer/Framing.antt =====
-- Framing and parsing of TCP records.
use kemtls.Common.{
  ℕ, ◌+◌, ◌^◌, ◌≤◌, ◌<◌, ◌≡◌, sym, ap, ◌∙◌, arith, [], ◌++◌, append-nil, append_assoc, length,
  length-append, take, drop, length-take, length-drop, take-take, take-append-drop,
  take-append_of_length, drop-append_of_length, All-take, All-drop, Bytes, IsByte, IsBytes,
  to_bytes, from_bytes, length-to_bytes, from_bytes-to_bytes, to_bytes-from_bytes,
}
use kemtls.Common.Error.{ok}
use kemtls.RecordLayer.{frame_tcp_record, parse_tcp_record}

abbrev pub header_of : ℕ → ℕ → Bytes
header_of seq size = to_bytes 8 seq ++ to_bytes 4 size

pub length-header_of : (seq size : ℕ) → length (header_of seq size) ≡ 12
length-header_of seq size = omega (
  arith,
  length-append (to_bytes 8 seq) (to_bytes 4 size),
  length-to_bytes 8 seq,
  length-to_bytes 4 size,
)

-- The two fields, read back from a header.
pub header_seq : (seq size : ℕ) → seq < 2 ^ 64 → from_bytes (take 8 (header_of seq size)) ≡ seq
header_seq seq size h =
    ap from_bytes (take-append_of_length (to_bytes 8 seq) (to_bytes 4 size) (length-to_bytes 8 seq))
    ∙ from_bytes-to_bytes 8 seq h

pub header_size : (seq size : ℕ) → size < 2 ^ 32 → from_bytes (drop 8 (header_of seq size)) ≡ size
header_size seq size h =
    ap from_bytes (drop-append_of_length (to_bytes 8 seq) (to_bytes 4 size) (length-to_bytes 8 seq))
    ∙ from_bytes-to_bytes 4 size h

-- `int.from_bytes(header[8:12], "big")`
pub header_length :
    (seq size : ℕ) → size < 2 ^ 32 → from_bytes (take 4 (drop 8 (header_of seq size))) ≡ size
header_length seq size h =
    let back : drop 8 (header_of seq size) ≡ to_bytes 4 size =
      drop-append_of_length (to_bytes 8 seq) (to_bytes 4 size) (length-to_bytes 8 seq) in
    let whole : take 4 (to_bytes 4 size ++ []) ≡ to_bytes 4 size =
      take-append_of_length (to_bytes 4 size) [] (length-to_bytes 4 size) in
    ap (λ l. from_bytes (take 4 l)) (back ∙ sym (append-nil (to_bytes 4 size)))
    ∙ ap from_bytes whole
    ∙ from_bytes-to_bytes 4 size h

-- What framing does: it succeeds exactly for fields that fit.
pub frame_inv :
    (seq : ℕ) (payload : Bytes) {message : Bytes}
    → frame_tcp_record seq payload ≡ ok message
    → (seq < 2 ^ 64)
      × (length payload < 2 ^ 32)
      × (message ≡ header_of seq (length payload) ++ payload)
unfolding frame_tcp_record
frame_inv seq payload h = ground arith

pub frame_of_fits :
    (seq : ℕ) (payload : Bytes)
    → seq < 2 ^ 64
    → length payload < 2 ^ 32
    → frame_tcp_record seq payload ≡ ok (header_of seq (length payload) ++ payload)
unfolding frame_tcp_record
frame_of_fits seq payload hs hp = ground arith

pub parse_of_header :
    (seq : ℕ) (payload : Bytes)
    → seq < 2 ^ 64
    → length payload < 2 ^ 32
    → parse_tcp_record (header_of seq (length payload) ++ payload) ≡ ok (seq, payload)
unfolding parse_tcp_record
parse_of_header seq payload hs hp =
    let head = header_of seq (length payload) in
    let long : length head ≡ 12 = length-header_of seq (length payload) in
    let front : take 12 (head ++ payload) ≡ head = take-append_of_length head payload long in
    let back : drop 12 (head ++ payload) ≡ payload = drop-append_of_length head payload long in
    let first : take 8 (head ++ payload) ≡ to_bytes 8 seq =
      ap (take 8) (append_assoc (to_bytes 8 seq) (to_bytes 4 (length payload)) payload)
      ∙ take-append_of_length (to_bytes 8 seq) _ (length-to_bytes 8 seq) in
    ground (
      arith,
      front,
      back,
      first,
      length-append head payload,
      header_size seq (length payload) hp,
      from_bytes-to_bytes 8 seq hs,
    )

-- A framed record parses to its sequence number and payload.
pub parse_tcp_record-frame_tcp_record :
    (seq : ℕ) (payload : Bytes) {message : Bytes}
    → frame_tcp_record seq payload ≡ ok message
    → parse_tcp_record message ≡ ok (seq, payload)
parse_tcp_record-frame_tcp_record seq payload h =
    let (hs, hp, is_message) = frame_inv seq payload h in
    rw is_message (parse_of_header seq payload hs hp)

parse_inv :
    (message : Bytes) {seq : ℕ} {payload : Bytes}
    → parse_tcp_record message ≡ ok (seq, payload)
    → (12 ≤ length message)
      × (length message ≡ 12 + from_bytes (drop 8 (take 12 message)))
      × (seq ≡ from_bytes (take 8 message))
      × (payload ≡ drop 12 message)
unfolding parse_tcp_record
parse_inv message h = ground arith

-- A byte string that parses is the frame of what it parses to: no other string is accepted.
pub frame_tcp_record-parse_tcp_record :
    (message : Bytes) {seq : ℕ} {payload : Bytes}
    → IsBytes message
    → parse_tcp_record message ≡ ok (seq, payload)
    → frame_tcp_record seq payload ≡ ok message
frame_tcp_record-parse_tcp_record message hb h =
    let (long, whole, is_seq, is_payload) = parse_inv message h in
    let head = take 12 message in
    let head_bytes : IsBytes head = All-take IsByte 12 message hb in
    let (same_seq, small_seq) =
      to_bytes-from_bytes 8 (take 8 head) (All-take IsByte 8 head head_bytes)
        (omega (arith, length-take 8 head, length-take 12 message)) in
    let (same_size, small_size) =
      to_bytes-from_bytes 4 (drop 8 head) (All-drop IsByte 8 head head_bytes)
        (omega (arith, length-drop 8 head, length-take 12 message)) in
    let eight : take 8 head ≡ take 8 message = take-take 8 12 message (omega arith) in
    let size : length (drop 12 message) ≡ from_bytes (drop 8 head) =
      omega (arith, length-drop 12 message) in
    let bounded : from_bytes (take 8 message) < 2 ^ 64 = rw (← eight) small_seq in
    rw (is_seq, is_payload)
      (frame_of_fits (from_bytes (take 8 message)) (drop 12 message) bounded (omega arith)
        ∙ ap ok (
            ap (λ n. header_of (from_bytes (take 8 message)) n ++ drop 12 message) size
            ∙ ap
                (λ l.
                  (to_bytes 8 (from_bytes l) ++ to_bytes 4 (from_bytes (drop 8 head)))
                  ++ drop 12 message)
                (sym eight)
            ∙ ap (λ l. (l ++ to_bytes 4 (from_bytes (drop 8 head))) ++ drop 12 message) same_seq
            ∙ ap (λ l. (take 8 head ++ l) ++ drop 12 message) same_size
            ∙ ap (λ l. l ++ drop 12 message) (take-append-drop 8 head)
            ∙ take-append-drop 12 message))

-- ===== src/Quic/Packets/Canonical.antt =====
-- The decoder accepts nothing but what the encoder writes.
use kemtls.Common.{
  ℕ, ◌+◌, ◌^◌, ◌≤◌, ◌<◌, ◌≡◌, sym, ap, ◌∙◌, arith, inl, inr, [], ◌∷◌, ◌++◌, append_assoc, length,
  take, drop, length-take, length-drop, take-append-drop, take_all, drop-drop, All-take, All-drop,
  Bytes, IsByte, IsBytes, to_bytes, from_bytes, to_bytes-from_bytes,
}
use kemtls.Common.Error.{ok, Result-cases}
use kemtls.Quic.Packets.{QuicPacket, Fields, unpack_fields, encode_packet, decode_packet}
use kemtls.Quic.Packets.RoundTrip.{IsEncodable, wire_form, encode_of_IsEncodable}

-- What the decoder has checked of the fields, and the packet that it builds.
record Decodes (message : Bytes) (f : Fields) (p : QuicPacket) : Type 0 where
  unpacked : unpack_fields message ≡ ok f
  current : f.version ≡ 1
  known_type : f.packet_type < 5
  epoch_fits : f.epoch < 256
  id_short : f.id_length < 256
  total : length message ≡ 16 + f.id_length + f.payload_length
  id_present : 0 < length (take f.id_length (drop 16 message))
  built : p ≡ record {
    packet_type = f.packet_type;
    connection_id = take f.id_length (drop 16 message);
    packet_number = f.packet_number;
    payload = take f.payload_length (drop (16 + f.id_length) message);
    epoch = f.epoch;
    version = f.version;
  }

decode_inv :
    (message : Bytes) {p : QuicPacket}
    → decode_packet message ≡ ok p
    → (f : Fields) × Decodes message f p
unfolding decode_packet
decode_inv message h = elim (Result-cases (unpack_fields message)) [
  | inl (f, e) ↦ (
    f,
    record {
      unpacked = e;
      current = ground arith;
      known_type = ground arith;
      epoch_fits = ground arith;
      id_short = ground arith;
      total = ground arith;
      id_present = ground arith;
      built = ground arith;
    },
  )
  | inr (e, failed) ↦ absurd (ground arith)
]

-- The six fields and what follows them are the message.
unpack_inv :
    (message : Bytes) {f : Fields}
    → IsBytes message
    → unpack_fields message ≡ ok f
    → (message
        ≡ (f.version
            ∷ f.packet_type
            ∷ f.epoch
            ∷ f.id_length
            ∷ (to_bytes 8 f.packet_number ++ to_bytes 4 f.payload_length))
          ++ drop 16 message)
      × (f.packet_number < 2 ^ 64)
      × (f.payload_length < 2 ^ 32)
unfolding unpack_fields
unpack_inv [] hb h = absurd (ground arith)
unpack_inv (v ∷ []) hb h = absurd (ground arith)
unpack_inv (v ∷ t ∷ []) hb h = absurd (ground arith)
unpack_inv (v ∷ t ∷ e ∷ []) hb h = absurd (ground arith)
unpack_inv (v ∷ t ∷ e ∷ l ∷ numbers) {f} (_, (_, (_, (_, hb)))) h =
    let long : 12 ≤ length numbers = ground arith in
    let (number, small_number) =
      to_bytes-from_bytes 8 (take 8 numbers) (All-take IsByte 8 numbers hb)
        (omega (arith, length-take 8 numbers)) in
    let (size, small_size) =
      to_bytes-from_bytes 4 (take 4 (drop 8 numbers))
        (All-take IsByte 4 (drop 8 numbers) (All-drop IsByte 8 numbers hb))
        (omega (arith, length-take 4 (drop 8 numbers), length-drop 8 numbers)) in
    let is_f : f ≡ record {
      version = v;
      packet_type = t;
      epoch = e;
      id_length = l;
      packet_number = from_bytes (take 8 numbers);
      payload_length = from_bytes (take 4 (drop 8 numbers));
    } =
      ground arith in
    let whole : numbers ≡ (take 8 numbers ++ take 4 (drop 8 numbers)) ++ drop 12 numbers = sym (
      append_assoc (take 8 numbers) (take 4 (drop 8 numbers)) (drop 12 numbers)
      ∙ ap (λ l. take 8 numbers ++ (take 4 (drop 8 numbers) ++ l)) (sym (drop-drop 4 8 numbers))
      ∙ ap (λ l. take 8 numbers ++ l) (take-append-drop 4 (drop 8 numbers))
      ∙ take-append-drop 8 numbers) in
    rw is_f (rw (number, size) (ap (λ n. v ∷ t ∷ e ∷ l ∷ n) whole), small_number, small_size)

module _ (message : Bytes) (f : Fields) (q : QuicPacket) (d : Decodes message f q) where
  id : Bytes
  id = take f.id_length (drop 16 message)

  payload : Bytes
  payload = take f.payload_length (drop (16 + f.id_length) message)

  length-id : length id ≡ f.id_length
  unfolding id
  length-id =
      omega (arith, length-take f.id_length (drop 16 message), length-drop 16 message, d.total)

  length-payload : length payload ≡ f.payload_length
  unfolding payload
  length-payload = omega (
    arith,
    length-take f.payload_length (drop (16 + f.id_length) message),
    length-drop (16 + f.id_length) message,
    d.total,
  )

  id-append-payload : id ++ payload ≡ drop 16 message
  unfolding id payload
  id-append-payload =
      let left = drop (16 + f.id_length) message in
      let fits : f.payload_length ≡ length left =
        omega (arith, length-drop (16 + f.id_length) message, d.total) in
      ap (λ l. take f.id_length (drop 16 message) ++ l)
        (ap (λ (n : ℕ). take n left) fits ∙ take_all left ∙ sym (drop-drop f.id_length 16 message))
      ∙ take-append-drop f.id_length (drop 16 message)

  wire_form-eq-message : IsBytes message → wire_form q ≡ message
  unfolding id payload
  wire_form-eq-message hb =
      let (whole, _, _) = unpack_inv message hb d.unpacked in
      let front = λ (n m : ℕ).
        f.version ∷ f.packet_type ∷ f.epoch ∷ n ∷ (to_bytes 8 f.packet_number ++ to_bytes 4 m) in
      ap wire_form d.built
      ∙ ap (λ n. front n (length payload) ++ id ++ payload) length-id
      ∙ ap (λ n. front f.id_length n ++ id ++ payload) length-payload
      ∙ append_assoc (front f.id_length f.payload_length) id payload
      ∙ ap (λ l. front f.id_length f.payload_length ++ l) id-append-payload
      ∙ sym whole

  decoded-IsEncodable : IsBytes message → IsEncodable q
  unfolding id payload
  decoded-IsEncodable hb =
      let (_, small_number, small_size) = unpack_inv message hb d.unpacked in
      rw d.built (record {
        known_type = d.known_type;
        id_present = d.id_present;
        id_short = omega (arith, length-id, d.id_short);
        number_fits = small_number;
        epoch_fits = d.epoch_fits;
        payload_fits = omega (arith, length-payload);
        current = d.current;
      })

-- A message of bytes that decodes is the encoding of what it decodes to.
pub encode_packet-decode_packet :
    (message : Bytes) {p : QuicPacket}
    → IsBytes message
    → decode_packet message ≡ ok p
    → encode_packet p ≡ ok message
encode_packet-decode_packet message {p} hb h =
    let (f, d) = decode_inv message h in
    encode_of_IsEncodable p (decoded-IsEncodable message f p d hb)
    ∙ ap ok (wire_form-eq-message message f p d hb)

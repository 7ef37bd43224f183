-- ===== src/Quic/Packets/RoundTrip.antt =====
-- Encoding and decoding packets.
use kemtls.Common.{
  ◌+◌, ◌^◌, ◌<◌, ◌≡◌, ap, ◌∙◌, arith, ◌∷◌, ◌++◌, append_assoc, length, length-append, take, drop,
  take_all, take-append, take-append_of_length, drop-append_of_length, Bytes, to_bytes,
  length-to_bytes, from_bytes-to_bytes,
}
use kemtls.Common.Error.{ok}
use kemtls.Quic.Packets.{QuicPacket, Fields, unpack_fields, encode_packet, decode_packet}

-- What the validations demand of a packet.
pub record IsEncodable (p : QuicPacket) : Type 0 where
  pub known_type : p.packet_type < 5
  pub id_present : 0 < length p.connection_id
  pub id_short : length p.connection_id < 256
  pub number_fits : p.packet_number < 2 ^ 64
  pub epoch_fits : p.epoch < 256
  pub payload_fits : length p.payload < 2 ^ 32
  pub current : p.version ≡ 1

-- The bytes of a packet.
abbrev pub wire_form : QuicPacket → Bytes
wire_form p =
    (p.version
      ∷ p.packet_type
      ∷ p.epoch
      ∷ length p.connection_id
      ∷ (to_bytes 8 p.packet_number ++ to_bytes 4 (length p.payload)))
    ++ p.connection_id
    ++ p.payload

encode_inv :
    (p : QuicPacket) {message : Bytes}
    → encode_packet p ≡ ok message
    → IsEncodable p × (message ≡ wire_form p)
unfolding encode_packet
encode_inv p h = (
  record {
    known_type = ground arith;
    id_present = ground arith;
    id_short = ground arith;
    number_fits = ground arith;
    epoch_fits = ground arith;
    payload_fits = ground arith;
    current = ground arith;
  },
  ground arith,
)

pub encode_of_IsEncodable : (p : QuicPacket) → IsEncodable p → encode_packet p ≡ ok (wire_form p)
unfolding encode_packet
encode_of_IsEncodable p h = ground arith

-- The front of an encoded packet, and what stands behind the sixteen bytes.
abbrev numbers_of : QuicPacket → Bytes
numbers_of p = to_bytes 8 p.packet_number ++ to_bytes 4 (length p.payload)

length-numbers_of : (p : QuicPacket) → length (numbers_of p) ≡ 12
length-numbers_of p = omega (
  arith,
  length-append (to_bytes 8 p.packet_number) (to_bytes 4 (length p.payload)),
  length-to_bytes 8 p.packet_number,
  length-to_bytes 4 (length p.payload),
)

module _ (p : QuicPacket) where
  behind : Bytes
  behind = p.connection_id ++ p.payload

  body_split : (numbers_of p ++ p.connection_id) ++ p.payload ≡ numbers_of p ++ behind
  unfolding behind
  body_split = append_assoc (numbers_of p) p.connection_id p.payload

  first_number :
      take 8 ((numbers_of p ++ p.connection_id) ++ p.payload) ≡ to_bytes 8 p.packet_number
  first_number =
      ap (take 8) (
        body_split
        ∙ append_assoc (to_bytes 8 p.packet_number) (to_bytes 4 (length p.payload)) behind)
      ∙ take-append_of_length (to_bytes 8 p.packet_number) _ (length-to_bytes 8 p.packet_number)

  second_number :
      take 4 (drop 8 ((numbers_of p ++ p.connection_id) ++ p.payload))
      ≡ to_bytes 4 (length p.payload)
  second_number =
      ap (λ l. take 4 (drop 8 l))
        (body_split
          ∙ append_assoc (to_bytes 8 p.packet_number) (to_bytes 4 (length p.payload)) behind)
      ∙ ap (take 4)
          (drop-append_of_length (to_bytes 8 p.packet_number) _ (length-to_bytes 8 p.packet_number))
      ∙ take-append_of_length (to_bytes 4 (length p.payload)) behind
          (length-to_bytes 4 (length p.payload))

  behind_header : drop 16 (wire_form p) ≡ behind
  behind_header =
      ap (drop 12) body_split ∙ drop-append_of_length (numbers_of p) behind (length-numbers_of p)

  last_part : drop (16 + length p.connection_id) (wire_form p) ≡ p.payload
  last_part =
      drop-append_of_length
        ((p.version ∷ p.packet_type ∷ p.epoch ∷ length p.connection_id ∷ numbers_of p)
          ++ p.connection_id)
        p.payload (omega (arith, length-append (numbers_of p) p.connection_id, length-numbers_of p))

  length-wire_form : length (wire_form p) ≡ 16 + length p.connection_id + length p.payload
  length-wire_form = omega (
    arith,
    length-append (numbers_of p ++ p.connection_id) p.payload,
    length-append (numbers_of p) p.connection_id,
    length-numbers_of p,
  )

  abbrev fields_of : Fields
  fields_of = record {
    version = p.version;
    packet_type = p.packet_type;
    epoch = p.epoch;
    id_length = length p.connection_id;
    packet_number = p.packet_number;
    payload_length = length p.payload;
  }

  unpack_wire_form : IsEncodable p → unpack_fields (wire_form p) ≡ ok fields_of
  unfolding unpack_fields
  unpack_wire_form h =
      rw (first_number, second_number)
        (ground (
          arith,
          length-wire_form,
          from_bytes-to_bytes 8 p.packet_number h.number_fits,
          from_bytes-to_bytes 4 (length p.payload) h.payload_fits,
        ))

-- Decoding by its parts.
decode_lem :
    (message : Bytes) (f : Fields) (id payload : Bytes)
    → unpack_fields message ≡ ok f
    → f.version ≡ 1
    → f.packet_type < 5
    → f.epoch < 256
    → f.id_length < 256
    → length message ≡ 16 + f.id_length + f.payload_length
    → take f.id_length (drop 16 message) ≡ id
    → take f.payload_length (drop (16 + f.id_length) message) ≡ payload
    → 0 < length id
    → length id < 256
    → decode_packet message
      ≡ ok (record {
        packet_type = f.packet_type;
        connection_id = id;
        packet_number = f.packet_number;
        payload = payload;
        epoch = f.epoch;
        version = f.version;
      })
unfolding decode_packet
decode_lem message f id payload unpacked v t e l total is_id is_payload present short = ground arith

-- A packet that can be encoded is decoded to itself.
pub decode_packet-encode_packet :
    (p : QuicPacket) {message : Bytes} → encode_packet p ≡ ok message → decode_packet message ≡ ok p
decode_packet-encode_packet p h =
    let (valid, is_message) = encode_inv p h in
    rw is_message (
      decode_lem (wire_form p) (fields_of p) p.connection_id p.payload (unpack_wire_form p valid)
        valid.current valid.known_type valid.epoch_fits valid.id_short (length-wire_form p)
        (ap (take (length p.connection_id)) (behind_header p)
          ∙ (unfold behind in take-append p.connection_id p.payload))
        (ap (take (length p.payload)) (last_part p) ∙ take_all p.payload) valid.id_present
        valid.id_short)

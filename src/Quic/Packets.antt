-- ===== src/Quic/Packets.antt =====
-- kemtls/quic_packets.py (src/kemtls) and `build_packet_aad` of kemtls/quic_crypto.py: the header is
-- version, type, epoch and the length of the connection id, a byte each, then eight bytes of packet
-- number, four of payload length, and the connection id.
pub mod RoundTrip
pub mod Canonical
use kemtls.Common.{
  ℕ, ◌+◌, ◌^◌, Bool, true, false, ◌||◌, not, List, [], ◌∷◌, ◌++◌, ltb, leb, ◌==◌, if◌then◌else◌,
  length, take, drop, Bytes, to_bytes, from_bytes,
}
use kemtls.Common.Error.{Error, value_error, Result, ok, raised, ◌>>=◌, ◌>>◌, raise_if}

abbrev pub packet_version : ℕ
packet_version = 1

-- INITIAL, HANDSHAKE, APP_DATA, ACK and CONNECTION_CLOSE are 0 to 4: `packet_type in PACKET_TYPES`.
abbrev pub in_packet_types : ℕ → Bool
in_packet_types t = t == 0 || t == 1 || t == 2 || t == 3 || t == 4

pub record QuicPacket : Type 0 where
  pub packet_type : ℕ
  pub connection_id : Bytes
  pub packet_number : ℕ
  pub payload : Bytes
  pub epoch : ℕ
  pub version : ℕ

unfoldable pub validate_packet_type : ℕ → Result (Unit {0})
validate_packet_type t = raise_if (not (in_packet_types t)) (value_error "unsupported packet_type")

unfoldable pub validate_connection_id : Bytes → Result (Unit {0})
validate_connection_id id = do
  raise_if (length id == 0) (value_error "connection_id must not be empty")
  raise_if (ltb 255 (length id)) (value_error "connection_id is too long")

unfoldable pub validate_packet_number : ℕ → Result (Unit {0})
validate_packet_number n =
    raise_if (leb (2 ^ 64) n) (value_error "packet_number must be between 0 and 2^64 - 1")

unfoldable pub validate_epoch : ℕ → Result (Unit {0})
validate_epoch epoch = raise_if (ltb 255 epoch) (value_error "epoch must be between 0 and 255")

unfoldable pub validate_payload_length : ℕ → Result (Unit {0})
validate_payload_length n =
    raise_if (leb (2 ^ 32) n) (value_error "payload_length must be between 0 and 2^32 - 1")

unfoldable pub validate_version : ℕ → Result (Unit {0})
validate_version version =
    raise_if (not (version == packet_version)) (value_error "unsupported packet version")

unfoldable pub validations : Unit {0}
unfolding validate_packet_type validate_connection_id validate_packet_number validate_epoch
    validate_payload_length validate_version
validations = tt

-- `_HEADER_STRUCT.pack(…)`, of fields that the validations have bounded.
unfoldable pub pack_fields : ℕ → ℕ → ℕ → ℕ → ℕ → ℕ → Bytes
pack_fields version packet_type epoch id_length packet_number payload_length =
    version
    ∷ packet_type
    ∷ epoch
    ∷ id_length
    ∷ (to_bytes 8 packet_number ++ to_bytes 4 payload_length)

unfoldable pub encode_header : ℕ → Bytes → ℕ → ℕ → ℕ → ℕ → Result Bytes
unfolding validations pack_fields
encode_header packet_type connection_id packet_number epoch payload_length version = do
  validate_packet_type packet_type
  validate_connection_id connection_id
  validate_packet_number packet_number
  validate_epoch epoch
  validate_payload_length payload_length
  validate_version version
  ok (
      pack_fields version packet_type epoch (length connection_id) packet_number payload_length
      ++ connection_id)

-- `encode_packet`, its keyword arguments as the fields of a packet.
unfoldable pub encode_packet : QuicPacket → Result Bytes
unfolding encode_header
encode_packet p = do
  header ←
      encode_header p.packet_type p.connection_id p.packet_number p.epoch (length p.payload)
        p.version
  ok (header ++ p.payload)

-- `_HEADER_STRUCT.unpack(…)` reads four bytes and two numbers off the front of the packet.
pub record Fields : Type 0 where
  pub version : ℕ
  pub packet_type : ℕ
  pub epoch : ℕ
  pub id_length : ℕ
  pub packet_number : ℕ
  pub payload_length : ℕ

-- At least sixteen bytes are there; a shorter input is no header.
unfoldable pub unpack_fields : Bytes → Result Fields
unpack_fields (version ∷ packet_type ∷ epoch ∷ id_length ∷ numbers) =
    if ltb (length numbers) 12
    then raised (value_error "packet too short")
    else ok (record {
      version = version;
      packet_type = packet_type;
      epoch = epoch;
      id_length = id_length;
      packet_number = from_bytes (take 8 numbers);
      payload_length = from_bytes (take 4 (drop 8 numbers));
    })
unpack_fields _ = raised (value_error "packet too short")

unfoldable pub decode_packet : Bytes → Result QuicPacket
unfolding validations
decode_packet message = do
  f ← unpack_fields message
  validate_version f.version
  validate_packet_type f.packet_type
  validate_epoch f.epoch
  raise_if (ltb 255 f.id_length) (value_error "connection_id is too long")
  let header_len = 16 + f.id_length
  let expected_len = header_len + f.payload_length
  raise_if (not (length message == expected_len)) (value_error "packet length mismatch")
  let connection_id = take f.id_length (drop 16 message)
  let payload = take f.payload_length (drop header_len message)
  validate_connection_id connection_id
  ok (record {
    packet_type = f.packet_type;
    connection_id = connection_id;
    packet_number = f.packet_number;
    payload = payload;
    epoch = f.epoch;
    version = f.version;
  })

-- `build_packet_aad` of kemtls/quic_crypto.py
unfoldable pub build_packet_aad : ℕ → Bytes → ℕ → ℕ → ℕ → Result Bytes
unfolding encode_header
build_packet_aad packet_type connection_id packet_number epoch payload_length =
    encode_header packet_type connection_id packet_number epoch payload_length packet_version

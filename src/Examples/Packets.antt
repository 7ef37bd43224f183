-- ===== src/Examples/Packets.antt =====
-- QUIC packets and connections, and texts in base64url.
use kemtls.Common.{◌≡◌, refl, arith, [], ◌∷◌, codes, Bytes, IsBytes, to_bytes, from_bytes}
use kemtls.Common.Error.{ok}
use kemtls.Common.Dict.{nat_eq}
use kemtls.Encoding.{base64url_encode, base64url_decode}
use kemtls.Encoding.RoundTrip.{base64url_decode-base64url_encode}
use kemtls.Quic.Packets.{QuicPacket, unpack_fields, encode_packet, decode_packet}
use kemtls.Quic.Packets.RoundTrip.{decode_packet-encode_packet}
use kemtls.Quic.Packets.Canonical.{encode_packet-decode_packet}

abbrev a_packet : QuicPacket
a_packet = record {
  packet_type = 2;
  connection_id = 7 ∷ 8 ∷ [];
  packet_number = 5;
  payload = codes "hi";
  epoch = 1;
  version = 1;
}

abbrev its_bytes : Bytes
its_bytes = 1 ∷ 2 ∷ 1 ∷ 2 ∷ 0 ∷ 0 ∷ 0 ∷ 0 ∷ 0 ∷ 0 ∷ 0 ∷ 5 ∷ 0 ∷ 0 ∷ 0 ∷ 2 ∷ 7 ∷ 8 ∷ codes "hi"

decode_packet-encode_packet_example : decode_packet its_bytes ≡ ok a_packet
unfolding encode_packet to_bytes
decode_packet-encode_packet_example = decode_packet-encode_packet a_packet refl

its_bytes-IsBytes : IsBytes its_bytes
its_bytes-IsBytes = ground arith

encode_packet-decode_packet_example : encode_packet a_packet ≡ ok its_bytes
unfolding decode_packet from_bytes unpack_fields
encode_packet-decode_packet_example = encode_packet-decode_packet its_bytes its_bytes-IsBytes refl

base64url_decode-base64url_encode_example :
    base64url_decode (base64url_encode (codes "Hello")) ≡ ok (codes "Hello")
base64url_decode-base64url_encode_example =
    base64url_decode-base64url_encode (codes "Hello") (ground arith)

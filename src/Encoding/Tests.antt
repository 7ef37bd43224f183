-- ===== src/Encoding/Tests.antt =====
use kemtls.Common.{◌≡◌, refl, codes}
use kemtls.Common.Error.{ok}
use kemtls.Encoding.{digit, base64url_encode, base64url_decode}

encode_hello : base64url_encode (codes "Hello") ≡ codes "SGVsbG8"
unfolding base64url_encode digit
encode_hello = refl

decode_hello : base64url_decode (codes "SGVsbG8") ≡ ok (codes "Hello")
unfolding base64url_decode
decode_hello = refl

-- A newline at the end passes the pattern and is skipped.
decode_newline : base64url_decode (codes "QUJD\n") ≡ ok (codes "ABC")
unfolding base64url_decode
decode_newline = refl

-- ===== src/Examples/Values.antt =====
-- Concrete parameters: a cipher that appends a tag of zeros, hashes that cut or pad to 32 bytes, a
-- signature of zeros, and a JSON that knows two objects.
use kemtls.Common.{
  ◌-◌, ◌≡◌, refl, ap, arith, true, none, some, [], ◌∷◌, ◌++◌, if◌then◌else◌, length, length-append,
  length-take, take, take-append_of_length, str_eq, codes, Bytes, Str,
}
use kemtls.Common.Json.{null, text, object, Members, nothing, member, Python}
use kemtls.Crypto.Aead.{zeros}
use kemtls.Crypto.Primitives.{ChaCha, ChaChaLaws, Hash, HashLaws, Signature}
use kemtls.Oidc.Jwt.{jwt_header}
use kemtls.Session.{KemtlsSession}

abbrev pub toy_cipher : ChaCha
toy_cipher = record {
  encrypt = λ key nonce plaintext aad. plaintext ++ zeros 16;
  decrypt = λ key nonce message aad. some (take (length message - 16) message);
}

sixteen : length (zeros 16) ≡ 16
unfolding zeros
sixteen = refl

pub toy_cipher_laws : ChaChaLaws toy_cipher
toy_cipher_laws = record {
  decrypt-encrypt = λ key nonce plaintext aad. ap some (
      take-append_of_length plaintext (zeros 16)
        (omega (arith, length-append plaintext (zeros 16), sixteen)));
  length-encrypt =
      λ key nonce plaintext aad. omega (arith, length-append plaintext (zeros 16), sixteen);
}

abbrev pub pad_32 : Bytes → Bytes
pad_32 message = take 32 (message ++ zeros 32)

abbrev pub toy_hash : Hash
toy_hash = record {
  sha256 = pad_32;
  hmac = λ key message. pad_32 message;
  sha256_hex = λ token. token;
}

thirty_two : length (zeros 32) ≡ 32
unfolding zeros
thirty_two = refl

length-pad_32 : (message : Bytes) → length (pad_32 message) ≡ 32
length-pad_32 message =
    omega
      (arith, length-take 32 (message ++ zeros 32), length-append message (zeros 32), thirty_two)

pub toy_hash_laws : HashLaws toy_hash
toy_hash_laws = record {
  length-sha256 = length-pad_32;
  length-hmac = λ key message. length-pad_32 message;
}

abbrev pub toy_signature : Signature
toy_signature = record {
  sign = λ secret_key message. zeros 3309;
  verify = λ public_key message signature. some true;
}

abbrev pub toy_kid : Str
toy_kid = codes "k"

abbrev pub toy_header : Members
toy_header = jwt_header toy_kid (codes "JWT")

abbrev pub toy_claims : Members
toy_claims = member (codes "sub") (text (codes "alice")) nothing

-- An object is dumped as its first key.
abbrev pub first_key : Members → Bytes
first_key nothing = []
first_key (member k v m) = k

abbrev pub toy_python : Python
toy_python = record {
  dumps = first_key;
  loads =
      λ b. if str_eq b (codes "alg") then some (object toy_header) else some (object toy_claims);
  utf8 = λ s. s;
  upper = λ s. s;
  strip = λ s. s;
  words = λ s. s ∷ [];
  int = λ j. none;
}

-- A session with every key and identifier.
abbrev pub toy_session : KemtlsSession
toy_session = record {
  session_id = text (codes "s1");
  peer_identity = codes "server";
  handshake_mode = text (codes "baseline");
  trusted_key_id = null;
  client_app_secret = none;
  server_app_secret = none;
  client_write_key = some (zeros 32);
  client_write_iv = some (zeros 12);
  server_write_key = some (zeros 32);
  server_write_iv = some (zeros 12);
  exporter_secret = none;
  session_binding_id = some (codes "b");
  refresh_binding_id = some (codes "r");
  transport = none;
  alpn = none;
}

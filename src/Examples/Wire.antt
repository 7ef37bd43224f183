-- ===== src/Examples/Wire.antt =====
-- A JSON that keeps the texts of an object, and always finds a list of modes at its end; a hash of
-- bytes; a key encapsulation of zeros.
use kemtls.Common.{
  ℕ, zero, suc, ◌%◌, ◌≡◌, refl, ap, arith, inl, inr, Bool-cases, none, some, Option, [], ◌∷◌, ◌++◌,
  length, length-append, length-take, take, drop, take-append, drop-append, str_eq, codes,
  All-append, All-take, Bytes, IsByte, IsBytes, Str,
}
use kemtls.Common.Json.{
  Json, null, boolean, number, negative, text, object, array, Members, nothing, member, item,
  no_items, find, Python,
}
use kemtls.Crypto.Aead.{zeros}
use kemtls.Crypto.Aead.Nonce.{zeros-IsBytes}
use kemtls.Crypto.Kem.{KeyPair}
use kemtls.Crypto.Primitives.{Hash, HashLaws, Kem}
use kemtls.Handshake.Messages.{Reloads}

-- The text members, and the list of modes.
abbrev pub texts : Members → Members
texts nothing = member (codes "modes") (array (item (text (codes "pdk")) no_items)) nothing
texts (member k null m) = texts m
texts (member k (boolean b) m) = texts m
texts (member k (number n) m) = texts m
texts (member k (negative n) m) = texts m
texts (member k (text v) m) = member k (text v) (texts m)
texts (member k (object o) m) = texts m
texts (member k (array a) m) = texts m

abbrev pub text_count : Members → ℕ
text_count nothing = 0
text_count (member k null m) = text_count m
text_count (member k (boolean b) m) = text_count m
text_count (member k (number n) m) = text_count m
text_count (member k (negative n) m) = text_count m
text_count (member k (text v) m) = suc (text_count m)
text_count (member k (object o) m) = text_count m
text_count (member k (array a) m) = text_count m

abbrev pub encode_texts : Members → Bytes
encode_texts nothing = []
encode_texts (member k null m) = encode_texts m
encode_texts (member k (boolean b) m) = encode_texts m
encode_texts (member k (number n) m) = encode_texts m
encode_texts (member k (negative n) m) = encode_texts m
encode_texts (member k (text v) m) = length k ∷ (k ++ length v ∷ (v ++ encode_texts m))
encode_texts (member k (object o) m) = encode_texts m
encode_texts (member k (array a) m) = encode_texts m

-- A length, and as many characters.
abbrev pub chunk : Bytes → Bytes
chunk [] = []
chunk (n ∷ s) = take n s

abbrev pub after_chunk : Bytes → Bytes
after_chunk [] = []
after_chunk (n ∷ s) = drop n s

abbrev pub decode_texts : ℕ → Bytes → Members
decode_texts zero s = texts nothing
decode_texts (suc n) s =
    member (chunk s) (text (chunk (after_chunk s))) (decode_texts n (after_chunk (after_chunk s)))

abbrev pub load_texts : Bytes → Option Json
load_texts [] = none
load_texts (n ∷ s) = some (object (decode_texts n s))

abbrev pub wire_python : Python
wire_python = record {
  dumps = λ m. text_count m ∷ encode_texts m;
  loads = load_texts;
  utf8 = λ s. s;
  upper = λ s. s;
  strip = λ s. s;
  words = λ s. s ∷ [];
  int = λ j. none;
}

decode_texts-encode_texts : (m : Members) → decode_texts (text_count m) (encode_texts m) ≡ texts m
decode_texts-encode_texts nothing = refl
decode_texts-encode_texts (member k null m) = decode_texts-encode_texts m
decode_texts-encode_texts (member k (boolean b) m) = decode_texts-encode_texts m
decode_texts-encode_texts (member k (number n) m) = decode_texts-encode_texts m
decode_texts-encode_texts (member k (negative n) m) = decode_texts-encode_texts m
decode_texts-encode_texts (member k (text v) m) =
    rw
      (
        take-append k (length v ∷ (v ++ encode_texts m)),
        drop-append k (length v ∷ (v ++ encode_texts m)),
        take-append v (encode_texts m),
        drop-append v (encode_texts m),
        decode_texts-encode_texts m,
      )
      refl
decode_texts-encode_texts (member k (object o) m) = decode_texts-encode_texts m
decode_texts-encode_texts (member k (array a) m) = decode_texts-encode_texts m

find-texts :
    (m : Members) (key t : Str) → find key m ≡ some (text t) → find key (texts m) ≡ some (text t)
unfolding find
find-texts nothing key t h = absurd (ground arith)
find-texts (member k null m) key t h = elim (Bool-cases (str_eq k key)) [
  | inl same ↦ absurd (ground arith)
  | inr other ↦ find-texts m key t (ground arith)
]
find-texts (member k (boolean b) m) key t h = elim (Bool-cases (str_eq k key)) [
  | inl same ↦ absurd (ground arith)
  | inr other ↦ find-texts m key t (ground arith)
]
find-texts (member k (number n) m) key t h = elim (Bool-cases (str_eq k key)) [
  | inl same ↦ absurd (ground arith)
  | inr other ↦ find-texts m key t (ground arith)
]
find-texts (member k (negative n) m) key t h = elim (Bool-cases (str_eq k key)) [
  | inl same ↦ absurd (ground arith)
  | inr other ↦ find-texts m key t (ground arith)
]
find-texts (member k (text v) m) key t h = elim (Bool-cases (str_eq k key)) [
  | inl same ↦ ground arith
  | inr other ↦ rw other (find-texts m key t (ground arith))
]
find-texts (member k (object o) m) key t h = elim (Bool-cases (str_eq k key)) [
  | inl same ↦ absurd (ground arith)
  | inr other ↦ find-texts m key t (ground arith)
]
find-texts (member k (array a) m) key t h = elim (Bool-cases (str_eq k key)) [
  | inl same ↦ absurd (ground arith)
  | inr other ↦ find-texts m key t (ground arith)
]

pub wire-Reloads : (m : Members) → Reloads wire_python m
wire-Reloads m = record {
  reloaded = texts m;
  loads-dumps = ap (λ (n : Members). some (object n)) (decode_texts-encode_texts m);
  find-text = find-texts m;
}

abbrev pub low : Bytes → Bytes
low [] = []
low (c ∷ s) = c % 256 ∷ low s

low-IsBytes : (s : Bytes) → IsBytes (low s)
low-IsBytes [] = tt
low-IsBytes (c ∷ s) = (omega arith, low-IsBytes s)

abbrev pub digest : Bytes → Bytes
digest message = take 32 (low message ++ zeros 32)

abbrev pub wire_hash : Hash
wire_hash = record {
  sha256 = digest;
  hmac = λ key message. digest message;
  sha256_hex = λ token. token;
}

thirty_two : length (zeros 32) ≡ 32
unfolding zeros
thirty_two = refl

length-digest : (message : Bytes) → length (digest message) ≡ 32
length-digest message = omega (
  arith,
  length-take 32 (low message ++ zeros 32),
  length-append (low message) (zeros 32),
  thirty_two,
)

pub wire_hash_laws : HashLaws wire_hash
wire_hash_laws = record {
  length-sha256 = length-digest;
  length-hmac = λ key message. length-digest message;
}

pub wire_mac_bytes : (key message : Bytes) → IsBytes (wire_hash.hmac key message)
wire_mac_bytes key message =
    All-take IsByte 32 (low message ++ zeros 32)
      (All-append IsByte (low message) (zeros 32) (low-IsBytes message) (zeros-IsBytes 32))

abbrev pub wire_kem : Kem
wire_kem = record {
  generate = λ coins. (zeros 1184, zeros 2400);
  encap = λ public_key coins. (zeros 1088, zeros 32);
  decap = λ secret_key ciphertext. zeros 32;
}

pub wire_pair : (public_key : Bytes) → KeyPair wire_kem public_key (zeros 2400)
unfolding zeros
wire_pair public_key = record {
  secret_key_length = refl;
  ciphertext_length = λ coins. refl;
  ciphertext-IsBytes = λ coins. zeros-IsBytes 1088;
  shared_secret_length = λ coins. refl;
  decap-encap = λ coins. refl;
}

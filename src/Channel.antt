-- ===== src/Channel.antt =====
-- kemtls/channel.py (src/kemtls): messages under the keys of a session, each with its number. The
-- nonce that `os.urandom` draws is an argument.
pub mod Delivery
use kemtls.Common.{
  ℕ, suc, ◌+◌, ◌^◌, Bool, true, false, not, Option, none, some, List, [], ◌∷◌, ◌++◌, ltb, leb, ◌==◌,
  if◌then◌else◌, length, take, drop, codes, Bytes, Str, to_bytes, from_bytes,
}
use kemtls.Common.Error.{
  Error, value_error, key_error, struct_error, Result, ok, raised, raise_if, or_raise,
}
use kemtls.Common.Error
use kemtls.Common.Action.{Action, lift, modify, ◌>>=◌, ◌>>◌, pure}
use kemtls.Common.Dict.{Dict, get, text_eq}
use kemtls.Crypto.Aead.{cipher_init, cipher_encrypt, cipher_decrypt}
use kemtls.Crypto.Primitives.{ChaCha}

-- `KEMTLSChannel`; an `AEADCipher` is its key.
pub record Channel : Type 0 where
  pub write_cipher : Bytes
  pub read_cipher : Bytes
  pub write_seq : ℕ
  pub read_seq : ℕ

abbrev pub key_of : Str → Dict Str Bytes → Result Bytes
key_of name session_keys = or_raise (get name session_keys) (key_error "missing key")

abbrev pub write_name : Bool → Str
write_name true = codes "server_write_key"
write_name false = codes "client_write_key"

module _ (c : ChaCha) where
  unfoldable pub new_channel : Dict Str Bytes → Bool → Result Channel
  new_channel session_keys is_server =
      Error.◌>>=◌ (key_of (write_name is_server) session_keys) λ write_key.
        Error.◌>>=◌ (key_of (write_name (not is_server)) session_keys) λ read_key.
          Error.◌>>=◌ (cipher_init c (some write_key)) λ write_cipher.
            Error.◌>>=◌ (cipher_init c (some read_key)) λ read_cipher. ok (record {
              write_cipher = write_cipher;
              read_cipher = read_cipher;
              write_seq = 0;
              read_seq = 0;
            })

  -- `struct.pack('>Q', seq)`
  abbrev pub pack_seq : ℕ → Result Bytes
  pack_seq seq =
      if leb (2 ^ 64) seq
      then raised (struct_error "argument out of range")
      else ok (to_bytes 8 seq)

  unfoldable pub send : (nonce plaintext : Bytes) → Action Channel Bytes
  send nonce plaintext s =
      (do
        aad ← lift (pack_seq s.write_seq)
        ciphertext ← lift (cipher_encrypt c s.write_cipher nonce plaintext aad)
        modify (λ s. record s { write_seq = s.write_seq + 1 })
        pure (aad ++ ciphertext))
        s

  -- `struct.unpack('>Q', encrypted[:8])` wants eight bytes.
  abbrev pub unpack_seq : Bytes → Result ℕ
  unpack_seq seq_bytes =
      if length seq_bytes == 8
      then ok (from_bytes seq_bytes)
      else raised (struct_error "unpack requires a buffer of 8 bytes")

  unfoldable pub receive : Bytes → Action Channel Bytes
  receive encrypted s =
      (do
        received_seq ← lift (unpack_seq (take 8 encrypted))
        lift (raise_if (not (received_seq == s.read_seq)) (value_error "Sequence mismatch"))
        plaintext ← lift (cipher_decrypt c s.read_cipher (drop 8 encrypted) (take 8 encrypted))
        modify (λ s. record s { read_seq = s.read_seq + 1 })
        pure plaintext)
        s

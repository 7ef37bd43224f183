-- ===== src/RecordLayer.antt =====
-- kemtls/record_layer.py (src/kemtls): framing and protection of TCP records. The functions of
-- `rust_ext` are taken without the optional Rust core, so each call is one of its Python fallback.
pub mod Framing
pub mod Delivery
pub mod Transfer
use kemtls.Common.{
  ℕ, suc, ◌+◌, ◌^◌, Bool, true, false, ◌&&◌, not, Option, none, some, List, [], ◌∷◌, ◌++◌, ltb, leb,
  ◌==◌, if◌then◌else◌, length, take, drop, Bytes, to_bytes, from_bytes,
}
use kemtls.Common.Error.{
  Error, value_error, overflow_error, eof_error, struct_error, Result, ok, raised,
}
use kemtls.Common.Error
use kemtls.Common.Action.{Action, lift, gets, modify, fail_if, ◌>>=◌, ◌>>◌, pure}
use kemtls.Crypto.Primitives.{ChaCha}
use kemtls.Crypto.Aead.{tag_size, seal, open_sealed, xor_iv_with_seq}
use kemtls.Session.{KemtlsSession}
use kemtls.Socket.{Socket, sendall, read_n_bytes}

-- `struct.pack(">QI", seq, length)`
unfoldable pub pack_header : ℕ → ℕ → Result Bytes
pack_header seq size =
    if ltb seq (2 ^ 64) && ltb size (2 ^ 32)
    then ok (to_bytes 8 seq ++ to_bytes 4 size)
    else raised (struct_error "argument out of range")

-- `_frame_record_python`
unfoldable pub frame_tcp_record : ℕ → Bytes → Result Bytes
unfolding pack_header
frame_tcp_record seq payload =
    Error.◌>>=◌ (pack_header seq (length payload)) λ header. ok (header ++ payload)

-- `_parse_record_python`, with `struct.unpack(">QI", data[:12])` as two fields.
unfoldable pub parse_tcp_record : Bytes → Result (ℕ × Bytes)
parse_tcp_record message =
    if ltb (length message) 12
    then raised (value_error "record too short")
    else if length message == 12 + from_bytes (drop 8 (take 12 message))
    then ok (from_bytes (take 8 message), drop 12 message)
    else raised (value_error "invalid record length")

module _ (c : ChaCha) where
  unfoldable pub protect : Option Bytes → Option Bytes → ℕ → Bytes → Bytes → Result Bytes
  protect key iv seq plaintext aad =
      Error.◌>>=◌ (xor_iv_with_seq iv seq) λ nonce. seal c key (some nonce) plaintext aad

  unfoldable pub unprotect : Option Bytes → Option Bytes → ℕ → Bytes → Bytes → Result Bytes
  unprotect key iv seq ciphertext aad =
      Error.◌>>=◌ (xor_iv_with_seq iv seq) λ nonce. open_sealed c key (some nonce) ciphertext aad

-- `KEMTLSRecordLayer`: the keys of its two directions, its counters and its socket.
pub record RecordLayer : Type 0 where
  pub send_seq : ℕ
  pub recv_seq : ℕ
  pub send_key : Option Bytes
  pub send_iv : Option Bytes
  pub recv_key : Option Bytes
  pub recv_iv : Option Bytes
  pub sock : Socket

unfoldable pub for_client : KemtlsSession → Socket → RecordLayer
for_client session sock = record {
  send_seq = 0;
  recv_seq = 0;
  send_key = session.client_write_key;
  send_iv = session.client_write_iv;
  recv_key = session.server_write_key;
  recv_iv = session.server_write_iv;
  sock = sock;
}

unfoldable pub for_server : KemtlsSession → Socket → RecordLayer
for_server session sock = record {
  send_seq = 0;
  recv_seq = 0;
  send_key = session.server_write_key;
  send_iv = session.server_write_iv;
  recv_key = session.client_write_key;
  recv_iv = session.client_write_iv;
  sock = sock;
}

-- `self.sock.sendall(framed); self.send_seq += 1`
abbrev pub sent : Bytes → RecordLayer → RecordLayer
sent framed r = record r { sock = sendall framed r.sock; send_seq = r.send_seq + 1 }

abbrev pub closed : Error
closed = eof_error "Connection closed by peer"

-- `self._read_n_bytes(n)`
unfoldable pub read_bytes : ℕ → Action RecordLayer Bytes
read_bytes n r =
    let (result, chunks) = read_n_bytes closed n r.sock.incoming in
    (result, record r { sock = record { incoming = chunks; sent = r.sock.sent } })

module _ (c : ChaCha) where
  unfoldable pub send_record : Bytes → Action RecordLayer (Unit {0})
  unfolding pack_header
  send_record plaintext r =
      (do
        fail_if (leb (2 ^ 64) r.send_seq) (overflow_error "Sequence number overflow")
        header ← lift (pack_header r.send_seq (length plaintext + tag_size))
        ciphertext ← lift (protect c r.send_key r.send_iv r.send_seq plaintext header)
        framed ← lift (frame_tcp_record r.send_seq ciphertext)
        modify (sent framed))
        r

  -- The checks and the decryption of `recv_record`, once header and ciphertext are read.
  unfoldable pub accept_record : Bytes → Bytes → Action RecordLayer Bytes
  accept_record header ciphertext r =
      (do
        (parsed_seq, payload) ← lift (parse_tcp_record (header ++ ciphertext))
        fail_if (not (parsed_seq == from_bytes (take 8 header)))
            (value_error "record framing parse mismatch")
        plaintext ← lift (unprotect c r.recv_key r.recv_iv r.recv_seq payload header)
        modify (λ s. record s { recv_seq = s.recv_seq + 1 })
        pure plaintext)
        r

  unfoldable pub recv_record : Action RecordLayer Bytes
  recv_record = do
    header ← read_bytes 12
    expected ← gets (λ s. s.recv_seq)
    fail_if (not (from_bytes (take 8 header) == expected)) (value_error "Sequence mismatch")
    ciphertext ← read_bytes (from_bytes (take 4 (drop 8 header)))
    accept_record header ciphertext

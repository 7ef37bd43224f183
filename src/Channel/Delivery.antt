-- ===== src/Channel/Delivery.antt =====
-- What one end of a channel sends, the other receives once.
use kemtls.Common.{
  ℕ, ◌+◌, ◌^◌, ◌<◌, ◌≡◌, sym, ap, ◌∙◌, arith, inl, inr, Bool-cases, Bool, not, ◌==◌, ==_iff,
  if◌then◌else◌, ◌++◌, length, take, drop, take-append_of_length, drop-append_of_length, Bytes,
  to_bytes, length-to_bytes, from_bytes-to_bytes,
}
use kemtls.Common.Error.{value_error, ok, raised, raise_if}
use kemtls.Common.Action.{lift_inv, lift-eq, lift-eq-raised, pure_inv}
use kemtls.Crypto.Aead.{cipher_encrypt, cipher_decrypt}
use kemtls.Crypto.Aead.Sealing.{cipher_decrypt-cipher_encrypt}
use kemtls.Crypto.Primitives.{ChaCha, ChaChaLaws}
use kemtls.Channel.{Channel, pack_seq, unpack_seq, send, receive}

pack_seq_inv :
    (c : ChaCha) (seq : ℕ) {aad : Bytes}
    → pack_seq c seq ≡ ok aad
    → (seq < 2 ^ 64) × (to_bytes 8 seq ≡ aad)
pack_seq_inv c seq h = ground arith

module _ (c : ChaCha) where
  -- What a send has put into its message.
  record Sent (nonce plaintext : Bytes) (s : Channel) (message : Bytes) (s' : Channel)
      : Type 0 where
    pub ciphertext : Bytes
    pub small : s.write_seq < 2 ^ 64
    pub encrypted :
        cipher_encrypt c s.write_cipher nonce plaintext (to_bytes 8 s.write_seq) ≡ ok ciphertext
    pub message_eq : message ≡ to_bytes 8 s.write_seq ++ ciphertext
    pub state_eq : s' ≡ record s { write_seq = s.write_seq + 1 }

  send-Sent :
      (nonce plaintext : Bytes) (s : Channel) (message : Bytes) (s' : Channel)
      → send c nonce plaintext s ≡ (ok message, s')
      → Sent nonce plaintext s message s'
  unfolding send
  send-Sent nonce plaintext s message s' e =
      let (aad, a, h1) = lift_inv (pack_seq c s.write_seq) _ _ e in
      let (ciphertext, b, h2) =
        lift_inv (cipher_encrypt c s.write_cipher nonce plaintext aad) _ _ h1 in
      let (result_eq, object_eq) = pure_inv h2 in
      let (small, same) = pack_seq_inv c s.write_seq a in
      record {
        ciphertext = ciphertext;
        small = small;
        encrypted = ap (λ (d : Bytes). cipher_encrypt c s.write_cipher nonce plaintext d) same ∙ b;
        message_eq = sym result_eq ∙ ap (λ (d : Bytes). d ++ ciphertext) (sym same);
        state_eq = sym object_eq;
      }

  unpack_seq-eq : (seq : ℕ) → seq < 2 ^ 64 → unpack_seq c (to_bytes 8 seq) ≡ ok seq
  unpack_seq-eq seq small =
      rw ((==_iff (length (to_bytes 8 seq)) 8).1 (length-to_bytes 8 seq))
        (ap ok (from_bytes-to_bytes 8 seq small))

  -- The parts of a message that a receiver reads.
  slices :
      (seq : ℕ) (ciphertext : Bytes)
      → (take 8 (to_bytes 8 seq ++ ciphertext) ≡ to_bytes 8 seq)
        × (drop 8 (to_bytes 8 seq ++ ciphertext) ≡ ciphertext)
  slices seq ciphertext = (
    take-append_of_length (to_bytes 8 seq) ciphertext (length-to_bytes 8 seq),
    drop-append_of_length (to_bytes 8 seq) ciphertext (length-to_bytes 8 seq),
  )

  unpacked :
      (seq : ℕ) (ciphertext : Bytes)
      → seq < 2 ^ 64
      → unpack_seq c (take 8 (to_bytes 8 seq ++ ciphertext)) ≡ ok seq
  unpacked seq ciphertext small =
      ap (unpack_seq c) (slices seq ciphertext).0 ∙ unpack_seq-eq seq small

module _ (c : ChaCha) (laws : ChaChaLaws c) where
  -- A message is received exactly where its number is the next one: there it gives back what was
  -- sent and the number moves on; with any other number expected it is refused and the channel stays
  -- as it is. So no message is received twice, nor out of order.
  pub receive-send :
      (nonce plaintext : Bytes) (s : Channel) (message : Bytes) (s' r : Channel)
      → send c nonce plaintext s ≡ (ok message, s')
      → r.read_cipher ≡ s.write_cipher
      → receive c message r ≡ (
          if s.write_seq == r.read_seq
          then (ok plaintext, record r { read_seq = r.read_seq + 1 })
          else (raised (value_error "Sequence mismatch"), r))
  unfolding receive
  receive-send nonce plaintext s message s' r e cipher =
      let w = send-Sent c nonce plaintext s message s' e in
      let head = to_bytes 8 s.write_seq in
      let whole = head ++ w.ciphertext in
      let (is_head, is_rest) = slices c s.write_seq w.ciphertext in
      let decrypted : cipher_decrypt c r.read_cipher (drop 8 whole) (take 8 whole) ≡ ok plaintext =
        ap (λ (k : Bytes). cipher_decrypt c k (drop 8 whole) (take 8 whole)) cipher
        ∙ ap (λ (b : Bytes). cipher_decrypt c s.write_cipher b (take 8 whole)) is_rest
        ∙ ap (cipher_decrypt c s.write_cipher w.ciphertext) is_head
        ∙ cipher_decrypt-cipher_encrypt c laws s.write_cipher nonce plaintext head w.encrypted in
      let read = unpacked c s.write_seq w.ciphertext w.small in
      let opened =
        ap (λ (m : Bytes). receive c m r) w.message_eq
        ∙ lift-eq (unpack_seq c (take 8 whole)) _ _ read in
      let same = s.write_seq == r.read_seq in
      elim (Bool-cases same) [
        | inl next ↦ rw next (
            opened
            ∙ lift-eq (raise_if (not same) _) _ _
                (ap (λ (b : Bool). raise_if (not b) (value_error "Sequence mismatch")) next)
            ∙ lift-eq (cipher_decrypt c r.read_cipher (drop 8 whole) (take 8 whole)) _ _ decrypted)
        | inr other ↦ rw other (
            opened
            ∙ lift-eq-raised (raise_if (not same) _) _ _
                (ap (λ (b : Bool). raise_if (not b) (value_error "Sequence mismatch")) other))
      ]

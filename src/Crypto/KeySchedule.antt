-- ===== src/Crypto/KeySchedule.antt =====
-- crypto/key_schedule.py (src/crypto), on its Python paths: HKDF with SHA-256 and the secrets of a
-- handshake.
pub mod Expand
pub mod Secrets
use kemtls.Common.{
  ℕ, zero, suc, ◌+◌, ◌*◌, String, Bool, true, false, not, List, [], ◌∷◌, ◌++◌, leb, ltb, ◌==◌,
  if◌then◌else◌, length, take, codes, Bytes, to_bytes,
}
use kemtls.Common.Error.{
  value_error, overflow_error, out_of_fuel, Result, ok, raised, ◌>>=◌, ◌>>◌, raise_if,
}
use kemtls.Crypto.Aead.{zeros}
use kemtls.Crypto.Primitives.{Hash}

abbrev pub hash_len : ℕ
hash_len = 32

abbrev pub label_prefix : Bytes
label_prefix = codes "kemtls13 "

-- `_validate_bytes(name, value, HASH_LEN)`, for a value that is `bytes`.
abbrev pub check_hash_len : Bytes → Result (Unit {0})
check_hash_len value = raise_if (not (length value == hash_len)) (value_error "Invalid size")

-- `hkdf_label`: the length, the prefixed label and the context, each of the two with its length.
unfoldable pub hkdf_label : ℕ → Bytes → Bytes → Result Bytes
hkdf_label len label context = do
  raise_if (leb 65536 len) (overflow_error "int too big to convert")
  raise_if (leb 256 (length (label_prefix ++ label))) (value_error "bytes must be in range(0, 256)")
  raise_if (leb 256 (length context)) (value_error "bytes must be in range(0, 256)")
  ok (
      to_bytes 2 len
      ++ length (label_prefix ++ label) ∷ (label_prefix ++ label)
      ++ length context ∷ context)

-- `b"".join(chunks)`
unfoldable pub concat : List Bytes → Bytes
concat [] = []
concat (chunk ∷ chunks) = chunk ++ concat chunks

-- The loop over `enumerate(shared_secrets)`.
unfoldable pub concat_checked : List Bytes → Result Bytes
concat_checked [] = ok []
concat_checked (shared_secret ∷ shared_secrets) =
    check_hash_len shared_secret
    >> (concat_checked shared_secrets >>= λ rest. ok (shared_secret ++ rest))

module _ (h : Hash) where
  -- `hkdf_extract`
  abbrev pub hkdf_extract : Bytes → Bytes → Bytes
  hkdf_extract salt ikm = h.hmac salt ikm

  -- The `while` of `_hkdf_expand_python`; the first argument is fuel.
  unfoldable pub hkdf_loop : ℕ → Bytes → Bytes → ℕ → Bytes → ℕ → Bytes → Result Bytes
  hkdf_loop zero prk info len previous counter output = raised out_of_fuel
  hkdf_loop (suc n) prk info len previous counter output =
      let block = h.hmac prk (previous ++ info ++ counter ∷ []) in
      let rest = hkdf_loop n prk info len block (counter + 1) (output ++ block) in
      if ltb (length output) len
      then raise_if (leb 256 counter) (value_error "bytes must be in range(0, 256)") >> rest
      else ok (take len output)

  -- `_hkdf_expand`, whose bound is checked once more by `_hkdf_expand_python`; 256 turns reach the
  -- bound of 255 blocks.
  unfoldable pub hkdf_expand : Bytes → Bytes → ℕ → Result Bytes
  hkdf_expand prk info len = do
    raise_if (ltb (255 * hash_len) len) (value_error "length exceeds HKDF expand limit")
    hkdf_loop 256 prk info len [] 1 []

  unfoldable pub hkdf_expand_label : Bytes → Bytes → Bytes → ℕ → Result Bytes
  hkdf_expand_label secret label context len = do
    raise_if (leb len 0) (value_error "length must be positive")
    info ← hkdf_label len label context
    hkdf_expand secret info len

  -- `compute_transcript_hash`: updates in turn hash the joined messages.
  unfoldable pub compute_transcript_hash : List Bytes → Bytes
  compute_transcript_hash messages = h.sha256 (concat messages)

  unfoldable pub derive_handshake_secret : List Bytes → Result Bytes
  derive_handshake_secret [] = raised (value_error "shared_secrets must not be empty")
  derive_handshake_secret (shared_secret ∷ shared_secrets) =
      concat_checked (shared_secret ∷ shared_secrets) >>= λ ikm.
      ok (hkdf_extract (zeros hash_len) ikm)

  -- A secret of the client and one of the server.
  unfoldable pub derive_pair : Bytes → Bytes → Bytes → Bytes → Bytes → Result (Bytes × Bytes)
  derive_pair client_secret server_secret client_label server_label context = do
    client ← hkdf_expand_label client_secret client_label context hash_len
    server ← hkdf_expand_label server_secret server_label context hash_len
    ok (client, server)

  unfoldable pub derive_handshake_traffic_secrets : Bytes → Bytes → Result (Bytes × Bytes)
  derive_handshake_traffic_secrets handshake_secret transcript_hash_1 = do
    check_hash_len handshake_secret
    check_hash_len transcript_hash_1
    derive_pair handshake_secret handshake_secret (codes "c hs traffic") (codes "s hs traffic")
        transcript_hash_1

  unfoldable pub derive_finished_keys : Bytes → Bytes → Result (Bytes × Bytes)
  derive_finished_keys client_hs_secret server_hs_secret = do
    check_hash_len client_hs_secret
    check_hash_len server_hs_secret
    derive_pair client_hs_secret server_hs_secret (codes "finished") (codes "finished") []

  unfoldable pub derive_application_traffic_secrets : Bytes → Bytes → Result (Bytes × Bytes)
  derive_application_traffic_secrets handshake_secret transcript_hash_3 = do
    check_hash_len handshake_secret
    check_hash_len transcript_hash_3
    derived_secret ← hkdf_expand_label handshake_secret (codes "derived") [] hash_len
    derive_pair (hkdf_extract (zeros hash_len) derived_secret)
        (hkdf_extract (zeros hash_len) derived_secret) (codes "c ap traffic") (codes "s ap traffic")
        transcript_hash_3

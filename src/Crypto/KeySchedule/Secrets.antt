-- ===== src/Crypto/KeySchedule/Secrets.antt =====
-- The secrets that the key schedule derives.
use kemtls.Common.{
  ℕ, ◌≤◌, ◌<◌, ◌≡◌, ◌≢◌, ◌↔◌, refl, ap, ◌∙◌, sym, arith, false, List, [], ◌∷◌, ◌++◌, leb, length,
  codes, All, Bytes, to_bytes,
}
use kemtls.Common.Error.{Result, ok, ◌>>=◌, >>=-eq-ok, ok_injective}
use kemtls.Crypto.Aead.{zeros}
use kemtls.Crypto.Primitives.{Hash, HashLaws}
use kemtls.Crypto.KeySchedule.{
  hash_len, label_prefix, check_hash_len, hkdf_label, concat, concat_checked, hkdf_extract,
  hkdf_expand_label, derive_handshake_secret, derive_pair, derive_application_traffic_secrets,
}
use kemtls.Crypto.KeySchedule.Expand.{rfc_expand, hkdf_expand-eq-rfc_expand}

-- A label and a context that fit their length bytes.
abbrev pub Fits : Bytes → Bytes → Type 0
Fits label context = (length (label_prefix ++ label) < 256) × (length context < 256)

abbrev label_info : ℕ → Bytes → Bytes → Bytes
label_info len label context =
    to_bytes 2 len
    ++ length (label_prefix ++ label) ∷ (label_prefix ++ label)
    ++ length context ∷ context

hkdf_label-eq :
    (len : ℕ) (label context : Bytes)
    → len < 65536
    → Fits label context
    → (info : Bytes) × (hkdf_label len label context ≡ ok info)
unfolding hkdf_label
hkdf_label-eq len label context small (f, g) =
    let a : leb 65536 len ≡ false = ground arith in
    let b : leb 256 (length (label_prefix ++ label)) ≡ false = ground arith in
    let c : leb 256 (length context) ≡ false = ground arith in
    (label_info len label context, rw (a, b, c) refl)

-- `hkdf_expand_label` derives exactly the length asked for, from 1 to 255 blocks, for a label and a
-- context that fit, if HMAC returns 32 bytes.
pub hkdf_expand_label-length :
    (h : Hash)
    → HashLaws h
    → (secret label context : Bytes) (len : ℕ) → 0 < len
    → len ≤ 8160
    → Fits label context
    → (out : Bytes) × (hkdf_expand_label h secret label context len ≡ ok out) × (length out ≡ len)
unfolding hkdf_expand_label
hkdf_expand_label-length h laws secret label context len positive bound fits =
    let (info, e) = hkdf_label-eq len label context (omega arith) fits in
    let (expanded, size) = hkdf_expand-eq-rfc_expand h secret info laws len bound in
    let nonzero : leb len 0 ≡ false = ground arith in
    (rfc_expand h secret info len, rw (nonzero, e) expanded, size)

check_hash_len-eq : (value : Bytes) → length value ≡ 32 → check_hash_len value ≡ ok tt
check_hash_len-eq value e = rw e refl

check_hash_len_inv :
    (value : Bytes) {u : Unit {0}} → check_hash_len value ≡ ok u → length value ≡ 32
check_hash_len_inv value e = ground arith

concat_checked-eq :
    (xs : List Bytes) → All (λ s. length s ≡ 32) xs → concat_checked xs ≡ ok (concat xs)
unfolding concat_checked concat
concat_checked-eq [] sizes = refl
concat_checked-eq (x ∷ xs) (n, sizes) = rw (check_hash_len-eq x n, concat_checked-eq xs sizes) refl

concat_checked_inv :
    (xs : List Bytes) {joined : Bytes}
    → concat_checked xs ≡ ok joined
    → All (λ s. length s ≡ 32) xs × (joined ≡ concat xs)
unfolding concat_checked concat
concat_checked_inv [] e = (tt, sym (ok_injective e))
concat_checked_inv (x ∷ xs) e =
    let (u, checked, rest) = >>=-eq-ok (check_hash_len x) _ e in
    let (tail, e', same) = >>=-eq-ok (concat_checked xs) _ rest in
    let (sizes, joined) = concat_checked_inv xs e' in
    (
      (check_hash_len_inv x checked, sizes),
      ok_injective (sym same) ∙ ap (λ (t : Bytes). x ++ t) joined,
    )

module _ (h : Hash) (laws : HashLaws h) where
  -- A pair of secrets is derived, each of 32 bytes.
  derive_pair-length :
      (client_secret server_secret client_label server_label context : Bytes)
      → Fits client_label context
      → Fits server_label context
      → (client server : Bytes) × (derive_pair h client_secret server_secret client_label
            server_label context
          ≡ ok (client, server))
        × (length client ≡ 32)
        × (length server ≡ 32)
  unfolding derive_pair
  derive_pair-length client_secret server_secret client_label server_label context f g =
      let (client, e, n) =
        hkdf_expand_label-length h laws client_secret client_label context 32 (omega arith)
          (omega arith) f in
      let (server, e', n') =
        hkdf_expand_label-length h laws server_secret server_label context 32 (omega arith)
          (omega arith) g in
      (client, server, rw (e, e') refl, n, n')

  -- From a handshake secret and a transcript hash of 32 bytes each, the application traffic secrets
  -- of client and server are derived without an error, each of 32 bytes, if HMAC returns 32 bytes.
  pub derive_application_traffic_secrets-length :
      (handshake_secret transcript_hash_3 : Bytes)
      → length handshake_secret ≡ 32
      → length transcript_hash_3 ≡ 32
      → (client server : Bytes) × (derive_application_traffic_secrets h handshake_secret
            transcript_hash_3
          ≡ ok (client, server))
        × (length client ≡ 32)
        × (length server ≡ 32)
  unfolding derive_application_traffic_secrets
  derive_application_traffic_secrets-length handshake_secret transcript_hash_3 n m =
      let (derived, e, size) =
        hkdf_expand_label-length h laws handshake_secret (codes "derived") [] 32 (omega arith)
          (omega arith) (omega arith, omega arith) in
      let (client, server, e', k, k') =
        derive_pair-length (hkdf_extract h (zeros hash_len) derived)
          (hkdf_extract h (zeros hash_len) derived) (codes "c ap traffic") (codes "s ap traffic")
          transcript_hash_3 (omega arith, omega arith) (omega arith, omega arith) in
      (
        client,
        server,
        rw (check_hash_len-eq handshake_secret n, check_hash_len-eq transcript_hash_3 m, e) e',
        k,
        k',
      )

  -- The shared secrets of the key encapsulations give a handshake secret exactly when there is one
  -- and each has 32 bytes; it is the HMAC, under 32 zeros, of the shared secrets in order.
  pub derive_handshake_secret-eq-ok :
      (shared_secrets : List Bytes) (secret : Bytes)
      → (derive_handshake_secret h shared_secrets ≡ ok secret) ↔ (
          (shared_secrets ≢ [])
          × All (λ s. length s ≡ 32) shared_secrets
          × (secret ≡ h.hmac (zeros 32) (concat shared_secrets)))
  unfolding derive_handshake_secret
  derive_handshake_secret-eq-ok [] secret =
      (λ e. absurd (ground arith), λ (ne, sizes, same). absurd (ne refl))
  derive_handshake_secret-eq-ok (s ∷ rest) secret = (
    λ e.
        let (ikm, checked, same) = >>=-eq-ok (concat_checked (s ∷ rest)) _ e in
        let (sizes, joined) = concat_checked_inv (s ∷ rest) checked in
        (λ nil. cc, sizes, ok_injective (sym same) ∙ ap (h.hmac (zeros 32)) joined),
    λ (ne, sizes, same).
        ap (λ (r : Result Bytes). r >>= λ ikm. ok (hkdf_extract h (zeros hash_len) ikm))
          (concat_checked-eq (s ∷ rest) sizes)
        ∙ ap ok (sym same),
  )

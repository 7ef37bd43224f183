-- ===== src/Exporter.antt =====
-- kemtls/exporter.py (src/kemtls): the exporter secret and the binding identifiers, with the default
-- arguments that the handshake uses.
use kemtls.Common.{◌≡◌, refl, arith, [], length, codes, Bytes, Str}
use kemtls.Common.Error.{Result, ok, ◌>>=◌}
use kemtls.Crypto.KeySchedule.{hash_len, hkdf_expand_label}
use kemtls.Crypto.KeySchedule.Secrets.{hkdf_expand_label-length}
use kemtls.Crypto.Primitives.{Hash, HashLaws}
use kemtls.Encoding.{base64url_encode}

module _ (h : Hash) where
  unfoldable pub derive_exporter_secret : Bytes → Bytes → Result Bytes
  derive_exporter_secret app_secret transcript_hash_3 =
      hkdf_expand_label h app_secret (codes "exporter") transcript_hash_3 hash_len

  unfoldable pub derive_session_binding_id : Bytes → Result Str
  derive_session_binding_id exporter_secret =
      hkdf_expand_label h exporter_secret (codes "oidc-access-token") [] 32 >>= λ binding_bytes.
      ok (base64url_encode binding_bytes)

  unfoldable pub derive_refresh_binding_id : Bytes → Result Str
  derive_refresh_binding_id exporter_secret =
      hkdf_expand_label h exporter_secret (codes "oidc-refresh-token") [] 32 >>= λ binding_bytes.
      ok (base64url_encode binding_bytes)

  -- From an application secret and a transcript hash of 32 bytes, the exporter secret and both
  -- binding identifiers are derived without an error: the secret has 32 bytes, and each identifier
  -- is the base64url of 32 bytes, if HMAC returns 32 bytes.
  pub derive_exporter_secret_total :
      HashLaws h
      → (app_secret transcript_hash_3 : Bytes) → length transcript_hash_3 ≡ 32
      → (exporter session_bytes refresh_bytes : Bytes) × (derive_exporter_secret app_secret
            transcript_hash_3
          ≡ ok exporter)
        × (derive_session_binding_id exporter ≡ ok (base64url_encode session_bytes))
        × (derive_refresh_binding_id exporter ≡ ok (base64url_encode refresh_bytes))
        × (length exporter ≡ 32)
        × (length session_bytes ≡ 32)
        × (length refresh_bytes ≡ 32)
  unfolding derive_exporter_secret derive_session_binding_id derive_refresh_binding_id
  derive_exporter_secret_total laws app_secret transcript_hash_3 size =
      let (exporter, e, n) =
        hkdf_expand_label-length h laws app_secret (codes "exporter") transcript_hash_3 32
          (omega arith) (omega arith) (omega arith, omega arith) in
      let (session_bytes, e', n') =
        hkdf_expand_label-length h laws exporter (codes "oidc-access-token") [] 32 (omega arith)
          (omega arith) (omega arith, omega arith) in
      let (refresh_bytes, e'', n'') =
        hkdf_expand_label-length h laws exporter (codes "oidc-refresh-token") [] 32 (omega arith)
          (omega arith) (omega arith, omega arith) in
      (exporter, session_bytes, refresh_bytes, e, rw e' refl, rw e'' refl, n, n', n'')

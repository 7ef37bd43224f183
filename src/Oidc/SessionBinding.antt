-- ===== src/Oidc/SessionBinding.antt =====
-- oidc/session_binding.py (src/oidc): tokens that are bound to a KEMTLS session.
pub mod Laws
use kemtls.Common.{
  String, Bool, true, false, ◌||◌, not, Option, none, some, List, [], ◌∷◌, if◌then◌else◌, str_eq,
  codes, Bytes, Str,
}
use kemtls.Common.Error.{Error, value_error, Result, ok, raised, ◌>>=◌, ◌>>◌}
use kemtls.Common.Dict.{Dict, get, text_eq}
use kemtls.Common.Json.{
  Json, text, object, Members, nothing, member, find, as_text, as_object, Python,
}
use kemtls.Crypto.Primitives.{Hash, Signature}
use kemtls.Crypto.Signatures.{sign, verify, public_key_to_jwk, jwk_to_public_key}
use kemtls.Common.Json.{is_text}
use kemtls.Encoding.{base64url_encode, base64url_decode}
use kemtls.Session.{KemtlsSession}

abbrev pub binding_method : Str
binding_method = codes "kemtls-exporter-v1"

abbrev pub pop_binding_method : Str
pop_binding_method = codes "kemtls-pop-v1"

abbrev pub header_public_key : Str
header_public_key = codes "X-KEMTLS-Binding-Public-Key"

abbrev pub header_signature : Str
header_signature = codes "X-KEMTLS-Binding-Signature"

-- The dictionary `{"public_key": …, "signature": …}` of two byte strings.
pub record BindingProof : Type 0 where
  pub public_key : Bytes
  pub signature : Bytes

-- `text or default`
abbrev pub or_default : Str → Str → Str
or_default [] default = default
or_default (c ∷ s) default = c ∷ s

-- `_get_session_bytes`, for the two attributes, which are texts in the session of kemtls/session.py.
abbrev pub populated : Python → Option Str → Result Bytes
populated p none = raised (value_error "session attribute must be populated bytes or str")
populated p (some []) = raised (value_error "session attribute must be populated bytes or str")
populated p (some (c ∷ s)) = ok (p.utf8 (c ∷ s))

unfoldable pub get_session_bytes :
    Python → (KemtlsSession → Option Str) → Option KemtlsSession → Result Bytes
get_session_bytes p attribute none = raised (value_error "session is required for KEMTLS binding")
get_session_bytes p attribute (some session) = populated p (attribute session)

-- A result that a `try` with `except Exception` turns into `None`, and one whose `ValueError` is.
abbrev pub or_none {ℓ} : {A : Type ℓ} → Result A → Option A
or_none (ok a) = some a
or_none (raised e) = none

module _ (p : Python) (h : Hash) where
  -- `base64url_encode(sha256_digest(binding_id))`
  abbrev pub hash_of : Bytes → Str
  hash_of binding_id = base64url_encode (h.sha256 binding_id)

  -- The value of `cnf` in the claim.
  unfoldable pub build_access_token_binding_claim : Option KemtlsSession → Result Members
  build_access_token_binding_claim session = do
    binding_id ← get_session_bytes p (λ s. s.session_binding_id) session
    ok (
        member (codes "kmt") (text binding_method)
          (member (codes "kbh") (text (hash_of binding_id)) nothing))

  unfoldable pub build_refresh_binding_metadata : Option KemtlsSession → Result (Dict Str Str)
  build_refresh_binding_metadata session = do
    binding_id ← get_session_bytes p (λ s. s.refresh_binding_id) session
    ok ((codes "binding_method", binding_method) ∷ (codes "binding_hash", hash_of binding_id) ∷ [])

  -- `d.get(key) == expected`
  abbrev pub has : Option Str → Str → Bool
  has none expected = false
  has (some value) expected = str_eq value expected

  -- The comparison that is False where no hash can be built.
  abbrev pub has_hash_of : Option Str → Result Bytes → Bool
  has_hash_of value (raised _) = false
  has_hash_of value (ok binding_id) = has value (hash_of binding_id)

  unfoldable pub verify_refresh_binding_metadata : Dict Str Str → Option KemtlsSession → Bool
  verify_refresh_binding_metadata stored_meta session =
      if not (has (get (codes "binding_method") stored_meta) binding_method)
      then false
      else has_hash_of (get (codes "binding_hash") stored_meta)
          (get_session_bytes p (λ s. s.refresh_binding_id) session)

unfoldable pub build_access_token_pop_claim : Bytes → Result Members
build_access_token_pop_claim public_key = do
  jwk ← public_key_to_jwk public_key
  ok (member (codes "kmt") (text pop_binding_method) (member (codes "jwk") (object jwk) nothing))

module _ (p : Python) (d : Signature) where
  unfoldable pub build_binding_proof_message : Option KemtlsSession → Str → Str → Result Bytes
  build_binding_proof_message session method path = do
    binding_id ← get_session_bytes p (λ s. s.session_binding_id) session
    ok (
        p.dumps (
          member (codes "context") (text pop_binding_method) (
            member (codes "method") (text (or_default (p.upper method) (codes "GET"))) (
              member (codes "path") (text (or_default (p.strip path) (codes "/"))) (
                member (codes "session_binding_id") (text (base64url_encode binding_id))
                  nothing)))))

  unfoldable pub build_binding_proof_headers :
      Option KemtlsSession → Bytes → Bytes → Str → Str → Result (Dict Str Str)
  build_binding_proof_headers session public_key secret_key method path = do
    message ← build_binding_proof_message session method path
    signature ← sign d secret_key message
    ok (
        (header_public_key, base64url_encode public_key)
        ∷ (header_signature, base64url_encode signature)
        ∷ [])

  -- `MLDSA65.verify` raises `ValueError` on a key or a signature of another size, which
  -- `verify_binding_proof` does not catch.
  unfoldable pub verify_binding_proof :
      Option KemtlsSession → Option BindingProof → Str → Str → Result (Option Bytes)
  verify_binding_proof session none method path = ok none
  verify_binding_proof session (some proof) method path =
      elim (build_binding_proof_message session method path) [
        | raised _ ↦ ok none
        | ok message ↦ verify d proof.public_key message proof.signature >>= λ valid.
            ok (if valid then some proof.public_key else none)
      ]

-- `extract_binding_proof_from_headers`, for headers that are a dictionary of texts.
abbrev pub decode_proof : Str → Str → Result BindingProof
decode_proof public_key_encoded signature_encoded = do
  public_key ← base64url_decode public_key_encoded
  signature ← base64url_decode signature_encoded
  ok (record { public_key = public_key; signature = signature })

unfoldable pub extract_binding_proof_from_headers : Dict Str Str → Option BindingProof
extract_binding_proof_from_headers headers = elim (get header_public_key headers) [
  | none ↦ none
  | some public_key_encoded ↦ elim (get header_signature headers) [
    | none ↦ none
    | some signature_encoded ↦ or_none (decode_proof public_key_encoded signature_encoded)
  ]
]

module _ (p : Python) (h : Hash) (d : Signature) where
  -- `presented_public_key == expected_public_key`
  abbrev pub is_key : Option Bytes → Bytes → Bool
  is_key none expected = false
  is_key (some presented) expected = str_eq presented expected

  -- The branch of a claim that names a key of the client.
  unfoldable pub verify_pop_claim :
      Members → Option KemtlsSession → Option BindingProof → Str → Str → Result Bool
  verify_pop_claim cnf session proof method path = elim (as_object (find (codes "jwk") cnf)) [
    | none ↦ ok false
    | some jwk ↦ elim (jwk_to_public_key jwk) [
      | raised _ ↦ ok false
      | ok expected ↦ verify_binding_proof p d session proof method path >>= λ presented.
          ok (is_key presented expected)
    ]
  ]

  -- The branch of a claim that names the exporter.
  unfoldable pub verify_exporter_claim : Members → Option KemtlsSession → Bool
  verify_exporter_claim cnf session =
      has_hash_of p h (as_text (find (codes "kbh") cnf))
        (get_session_bytes p (λ s. s.session_binding_id) session)

  unfoldable pub verify_access_token_binding_claim :
      Members → Option KemtlsSession → Option BindingProof → Str → Str → Result Bool
  verify_access_token_binding_claim claim session proof method path =
      elim (as_object (find (codes "cnf") claim)) [
        | none ↦ ok false
        | some cnf ↦
            if is_text (find (codes "kmt") cnf) pop_binding_method
            then verify_pop_claim cnf session proof method path
            else if not (is_text (find (codes "kmt") cnf) binding_method)
            then ok false
            else ok (verify_exporter_claim cnf session)
      ]

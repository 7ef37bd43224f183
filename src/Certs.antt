-- ===== src/Certs.antt =====
-- kemtls/certs.py (src/kemtls): certificates signed with ML-DSA-65. The clock is an argument.
pub mod Validation
use kemtls.Common.{
  ℕ, Bool, true, false, not, Option, none, some, ltb, if◌then◌else◌, str_eq, codes, Bytes, Str,
}
use kemtls.Common.Error.{
  value_error, type_error, Result, ok, raised, ◌>>=◌, ◌>>◌, raise_if, or_raise,
}
use kemtls.Common.Int.{ℤ, pos, negsuc, is_after, is_before}
use kemtls.Common.Json.{
  Json, null, boolean, number, negative, text, object, array, Members, nothing, member, find,
  set_member, as_text, as_object, is_text, get_item, contained, Python,
}
use kemtls.Crypto.Primitives.{Signature}
use kemtls.Crypto.Signatures.{sign, verify}
use kemtls.Encoding.{base64url_encode, base64url_decode}

-- `{k: v for k, v in cert.items() if k != key}`
unfoldable pub without_key : Str → Members → Members
without_key key nothing = nothing
without_key key (member k v rest) =
    let others = without_key key rest in if str_eq k key then others else member k v others

-- The body that is signed: its six fields.
abbrev pub certificate_body : Str → Bytes → Str → ℕ → ℕ → Members
certificate_body subject kem_pk issuer valid_from valid_to =
    member (codes "subject") (text subject) (
      member (codes "kem_public_key") (text (base64url_encode kem_pk)) (
        member (codes "issuer") (text issuer) (
          member (codes "valid_from") (number valid_from) (
            member (codes "valid_to") (number valid_to)
              (member (codes "key_usage") (text (codes "kemtls")) nothing)))))

-- `base64url_decode(value)` of a value that may be no text.
abbrev pub decode_text : Json → Result Bytes
decode_text value =
    or_raise (as_text (some value)) (type_error "Data must be a string") >>= base64url_decode

-- A number for `<` and `>` with the time; a Boolean counts as 0 or 1.
abbrev pub as_number : Json → Result ℤ
as_number null = raised (type_error "'<' not supported")
as_number (boolean true) = ok (pos 1)
as_number (boolean false) = ok (pos 0)
as_number (number n) = ok (pos n)
as_number (negative n) = ok (negsuc n)
as_number (text s) = raised (type_error "'<' not supported")
as_number (object m) = raised (type_error "'<' not supported")
as_number (array i) = raised (type_error "'<' not supported")

-- `if cert.get('subject') != expected_identity`, whose message reads `cert['subject']`.
unfoldable pub check_subject : Members → Str → Result (Unit {0})
check_subject cert expected_identity =
    if is_text (find (codes "subject") cert) expected_identity
    then ok tt
    else (get_item (codes "subject") cert >>= λ subject. raised (value_error "Identity mismatch"))

module _ (p : Python) (d : Signature) where
  unfoldable pub create_certificate : Str → Bytes → Bytes → Str → ℕ → ℕ → Result Members
  unfolding set_member
  create_certificate subject kem_pk ca_sk issuer valid_from valid_to =
      let body = certificate_body subject kem_pk issuer valid_from valid_to in
      sign d ca_sk (p.dumps body) >>= λ signature.
      ok (set_member (codes "signature") (text (base64url_encode signature)) body)

  -- The checks on the fields, once the signature is verified.
  unfoldable pub check_fields : ℕ → Members → Str → Result Bytes
  check_fields now cert expected_identity = do
    valid_from ← get_item (codes "valid_from") cert
    start ← as_number valid_from
    raise_if (is_after start now) (value_error "Certificate is not yet valid")
    valid_to ← get_item (codes "valid_to") cert
    end ← as_number valid_to
    raise_if (is_before end now) (value_error "Certificate has expired")
    raise_if (not (is_text (find (codes "key_usage") cert) (codes "kemtls")))
        (value_error "Invalid key usage")
    check_subject cert expected_identity
    kem_public_key ← get_item (codes "kem_public_key") cert
    decode_text kem_public_key

  unfoldable pub validate_certificate : ℕ → Json → Bytes → Str → Result Bytes
  validate_certificate now value ca_pk expected_identity = do
    signed ← contained (codes "signature") value
    raise_if (not signed) (value_error "Certificate is missing signature field")
    cert ← or_raise (as_object (some value)) (type_error "indices must be integers")
    signature_b64 ← get_item (codes "signature") cert
    signature ← decode_text signature_b64
    verified ← verify d ca_pk (p.dumps (without_key (codes "signature") cert)) signature
    raise_if (not verified) (value_error "Certificate signature verification failed")
    check_fields now cert expected_identity

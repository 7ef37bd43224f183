-- ===== src/Oidc/Jwt.antt =====
-- oidc/jwt_handler.py (src/oidc): JSON Web Tokens signed with ML-DSA-65. The metrics collector is
-- left out.
pub mod Split
pub mod RoundTrip
pub mod Validation
use kemtls.Common.{
  ℕ, String, Bool, true, false, ◌||◌, not, ◌&&◌, Option, none, some, List, [], ◌∷◌, ◌++◌, ltb, leb,
  ◌==◌, if◌then◌else◌, codes, Bytes, Str,
}
use kemtls.Common.Error.{
  Error, value_error, type_error, Result, ok, raised, ◌>>=◌, ◌>>◌, raise_if, or_raise,
}
use kemtls.Common.Int.{ℤ, is_after}
use kemtls.Common.Json.{
  Json, number, text, object, Members, nothing, member, find, as_object, as_dict, set_member,
  Python, deserialize_message,
}
use kemtls.Crypto.Primitives.{Signature}
use kemtls.Crypto.Signatures.{algorithm, sign, verify}
use kemtls.Common.Json.{is_text}
use kemtls.Encoding.{base64url_encode, base64url_decode}

abbrev pub id_token_type : Str
id_token_type = codes "JWT"

abbrev pub access_token_type : Str
access_token_type = codes "at+jwt"

-- `"."`
abbrev pub dot : ℕ
dot = 46

-- `token.split(".")`
abbrev pub cut : ℕ → List Str → List Str
cut c [] = (c ∷ []) ∷ []
cut c (part ∷ parts) = (c ∷ part) ∷ parts

unfoldable pub split : Str → List Str
split [] = [] ∷ []
split (c ∷ s) = let parts = split s in if c == dot then [] ∷ parts else cut c parts

-- `_split_jwt_python`
abbrev pub three_parts : List Str → Result (Str × Str × Str)
three_parts [] = raised (value_error "invalid JWT format")
three_parts (a ∷ []) = raised (value_error "invalid JWT format")
three_parts (a ∷ b ∷ []) = raised (value_error "invalid JWT format")
three_parts (a ∷ b ∷ c ∷ []) = ok (a, b, c)
three_parts (a ∷ b ∷ c ∷ d ∷ rest) = raised (value_error "invalid JWT format")

unfoldable pub split_jwt : Str → Result (Str × Str × Str)
split_jwt token = three_parts (split token)

-- `_jwt_signing_input_python`: the parts are ASCII, whose encoding keeps the code points.
abbrev pub jwt_signing_input : Str → Str → Bytes
jwt_signing_input header_b64 payload_b64 = header_b64 ++ dot ∷ payload_b64

-- `not s`, for a text.
abbrev pub is_blank : Str → Bool
is_blank [] = true
is_blank (c ∷ s) = false

abbrev pub jwt_header : Str → Str → Members
jwt_header kid token_type =
    member (codes "alg") (text algorithm)
      (member (codes "typ") (text token_type) (member (codes "kid") (text kid) nothing))

-- `expected is not None and value != expected`
abbrev pub differs : Option Str → Option Json → Bool
differs none value = false
differs (some expected) value = not (is_text value expected)

module _ (p : Python) (d : Signature) where
  abbrev pub encode_part : Members → Str
  encode_part m = base64url_encode (p.dumps m)

  -- `sign_jwt`, without extra headers, as its callers call it.
  unfoldable pub sign_jwt : Members → Bytes → Str → Str → Result Str
  sign_jwt claims issuer_sk kid token_type = do
    raise_if (is_blank kid) (value_error "kid must be a non-empty string")
    raise_if (is_blank token_type) (value_error "token_type must be a non-empty string")
    let input = jwt_signing_input (encode_part (jwt_header kid token_type)) (encode_part claims)
    signature ← sign d issuer_sk input
    ok (input ++ dot ∷ base64url_encode signature)

  -- `expected_type and header.get("typ") != expected_type`
  abbrev pub wrong_type : Option Str → Members → Bool
  wrong_type none header = false
  wrong_type (some expected) header =
      not (is_blank expected) && not (is_text (find (codes "typ") header) expected)

  -- What `verify_jwt` does once the token is split.
  unfoldable pub verify_parts : Str → Str → Str → Bytes → Option Str → Result (Members × Members)
  verify_parts header_b64 payload_b64 signature_b64 issuer_pk expected_type = do
    header_bytes ← base64url_decode header_b64
    header_value ← deserialize_message p header_bytes
    payload_bytes ← base64url_decode payload_b64
    payload_value ← deserialize_message p payload_bytes
    header ←
        or_raise (as_object (some header_value)) (value_error "JWT header must decode to an object")
    payload ←
        or_raise (as_object (some payload_value))
          (value_error "JWT payload must decode to an object")
    raise_if (not (is_text (find (codes "alg") header) algorithm))
        (value_error "unsupported JWT algorithm")
    raise_if (wrong_type expected_type header) (value_error "unexpected JWT type")
    signature ← base64url_decode signature_b64
    valid ← verify d issuer_pk (jwt_signing_input header_b64 payload_b64) signature
    raise_if (not valid) (value_error "invalid JWT signature")
    ok (header, payload)

  unfoldable pub verify_jwt : Str → Bytes → Option Str → Result (Members × Members)
  verify_jwt token issuer_pk expected_type = do
    parts ← split_jwt token
    verify_parts parts.0 parts.1 parts.2 issuer_pk expected_type

  unfoldable pub create_id_token : Members → Bytes → Str → Result Str
  create_id_token claims issuer_sk kid = sign_jwt claims issuer_sk kid id_token_type

  -- `create_access_token`; `cnf` is the one member of `cnf_claim`, `update` puts it in.
  unfoldable pub create_access_token : Members → Bytes → Str → Option Json → Result Str
  create_access_token claims issuer_sk kid none = sign_jwt claims issuer_sk kid access_token_type
  create_access_token claims issuer_sk kid (some cnf) =
      sign_jwt (set_member (codes "cnf") cnf claims) issuer_sk kid access_token_type

  -- `name in claims and bad(int(claims[name]))`
  abbrev pub check_time : (ℤ → Bool) → Error → Option Json → Result (Unit {0})
  check_time bad e none = ok tt
  check_time bad e (some value) =
      or_raise (p.int value) (value_error "invalid literal for int()") >>= λ n. raise_if (bad n) e

  -- `_validate_registered_claims`
  unfoldable pub validate_registered_claims :
      Members → Option Str → Option Str → ℕ → Result (Unit {0})
  validate_registered_claims claims issuer audience now = do
    check_time (λ exp. not (is_after exp now)) (value_error "token expired")
        (find (codes "exp") claims)
    check_time (λ nbf. is_after nbf now) (value_error "token not yet valid")
        (find (codes "nbf") claims)
    raise_if (differs issuer (find (codes "iss") claims)) (value_error "issuer mismatch")
    raise_if (differs audience (find (codes "aud") claims)) (value_error "audience mismatch")

  unfoldable pub validate_access_token : Str → Bytes → Option Str → Option Str → ℕ → Result Members
  validate_access_token token issuer_pk issuer audience now = do
    verified ← verify_jwt token issuer_pk (some access_token_type)
    validate_registered_claims verified.1 issuer audience now
    ok verified.1

  unfoldable pub validate_id_token :
      Str → Bytes → Option Str → Option Str → Option Str → ℕ → Result Members
  validate_id_token token issuer_pk issuer audience nonce now = do
    verified ← verify_jwt token issuer_pk (some id_token_type)
    validate_registered_claims verified.1 issuer audience now
    raise_if (differs nonce (find (codes "nonce") verified.1)) (value_error "nonce mismatch")
    ok verified.1

-- `extract_confirmation_claim`: any exception is None.
unfoldable pub confirmation : Python → Str → Result (Option Members)
confirmation p token = do
  parts ← split_jwt token
  payload_bytes ← base64url_decode parts.1
  value ← deserialize_message p payload_bytes
  payload ← as_dict value
  ok (as_object (find (codes "cnf") payload))

unfoldable pub extract_confirmation_claim : Python → Str → Option Members
extract_confirmation_claim p token = elim (confirmation p token) [ ok cnf ↦ cnf | raised e ↦ none ]

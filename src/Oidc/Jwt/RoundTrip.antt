-- ===== src/Oidc/Jwt/RoundTrip.antt =====
-- Verifying a signed token.
use mathlib.Core.Path.{subst}
use kemtls.Common.{
  ◌≡◌, refl, ap, ◌∙◌, sym, inl, inr, arith, Bool, true, false, not, Option, some, [], ◌∷◌, ◌++◌,
  Bool-cases, not-false, str_eq_refl, length, codes, All, Bytes, IsBytes, Str,
}
use kemtls.Common.Error.{
  Error, Result, ok, ◌>>=◌, ◌>>◌, raise_if, or_raise, >>=-eq-ok, Result-cases, or_raise_inv,
  raise_if_inv,
}
use kemtls.Common.Json.{
  Json, text, object, Members, find, as_object, Python, as_object_inv, deserialize_message,
}
use kemtls.Crypto.Primitives.{Signature}
use kemtls.Crypto.Signatures.Verify.{sign_inv, verify-eq}
use kemtls.Crypto.Signatures.{algorithm, public_key_size, sign, verify}
use kemtls.Common.Json.{is_text}
use kemtls.Encoding.{base64url_encode, base64url_decode, is_base64url_char}
use kemtls.Encoding.Alphabet.{IsDigit}
use kemtls.Encoding.RoundTrip.{base64url_decode-base64url_encode, base64url_encode-IsDigit}
use kemtls.Oidc.Jwt.{
  dot, split_jwt, jwt_signing_input, jwt_header, is_blank, encode_part, sign_jwt, wrong_type,
  verify_parts, verify_jwt,
}
use kemtls.Oidc.Jwt.Split.{IsPart, split_jwt-eq, split_jwt_inv}

IsDigit-IsPart : (s : Str) → All IsDigit s → IsPart s
unfolding is_base64url_char
IsDigit-IsPart [] h = tt
IsDigit-IsPart (c ∷ s) (e, h) = (λ same. ground arith, IsDigit-IsPart s h)

encode-IsPart : (d : Bytes) → IsBytes d → IsPart (base64url_encode d)
encode-IsPart d h = IsDigit-IsPart (base64url_encode d) (base64url_encode-IsDigit d h)

end_inv :
    (valid : Bool) (e : Error) (r' : Members × Members) {r : Members × Members}
    → (raise_if (not valid) e >> ok r') ≡ ok r
    → (valid ≡ true) × (r' ≡ r)
end_inv true e r' h = (refl, cc)
end_inv false e r' h = cc

module _ (p : Python) (d : Signature) where
  -- What `sign_jwt` has done when it returns a token.
  sign_jwt_inv :
      (claims : Members) (issuer_sk : Bytes) (kid token_type token : Str)
      → sign_jwt p d claims issuer_sk kid token_type ≡ ok token
      → (signature : Bytes) × (sign d issuer_sk (
            jwt_signing_input
              (encode_part p d (jwt_header kid token_type))
              (encode_part p d claims))
          ≡ ok signature)
        × (token
            ≡ jwt_signing_input
                (encode_part p d (jwt_header kid token_type))
                (encode_part p d claims)
              ++ dot ∷ base64url_encode signature)
  unfolding sign_jwt
  sign_jwt_inv claims issuer_sk kid token_type token h = elim (Bool-cases (is_blank kid)) [
    | inl b ↦ absurd (ground arith)
    | inr b ↦ elim (Bool-cases (is_blank token_type)) [
      | inl b' ↦ absurd (ground arith)
      | inr b' ↦
          elim (Result-cases (
            sign d issuer_sk (
              jwt_signing_input (encode_part p d (jwt_header kid token_type))
                (encode_part p d claims)))) [
                  | inl (signature, e) ↦ (signature, e, ground arith)
                  | inr (error, e) ↦ absurd (ground arith)
                ]
    ]
  ]

  -- The checks that `verify_parts` makes.
  pub record Verified (issuer_pk : Bytes) (expected_type : Option Str) (h64 p64 s64 : Str)
      (header payload : Members) : Type 0 where
    pub header_bytes : Bytes
    pub payload_bytes : Bytes
    pub signature : Bytes
    pub header_decoded : base64url_decode h64 ≡ ok header_bytes
    pub header_loaded : p.loads header_bytes ≡ some (object header)
    pub payload_decoded : base64url_decode p64 ≡ ok payload_bytes
    pub payload_loaded : p.loads payload_bytes ≡ some (object payload)
    pub right_algorithm : is_text (find (codes "alg") header) algorithm ≡ true
    pub right_type : wrong_type p d expected_type header ≡ false
    pub signature_decoded : base64url_decode s64 ≡ ok signature
    pub signature_valid : verify d issuer_pk (jwt_signing_input h64 p64) signature ≡ ok true

  verify_parts-eq :
      (issuer_pk : Bytes) (expected_type : Option Str) (h64 p64 s64 : Str)
      (header payload : Members)
      → Verified issuer_pk expected_type h64 p64 s64 header payload
      → verify_parts p d h64 p64 s64 issuer_pk expected_type ≡ ok (header, payload)
  unfolding verify_parts deserialize_message
  verify_parts-eq issuer_pk expected_type h64 p64 s64 header payload v =
      rw
        (
          v.header_decoded, v.header_loaded, v.payload_decoded, v.payload_loaded, v.right_algorithm,
          v.right_type, v.signature_decoded, v.signature_valid,
        )
        refl

  verify_parts_inv :
      (issuer_pk : Bytes) (expected_type : Option Str) (h64 p64 s64 : Str)
      (header payload : Members)
      → verify_parts p d h64 p64 s64 issuer_pk expected_type ≡ ok (header, payload)
      → Verified issuer_pk expected_type h64 p64 s64 header payload
  unfolding verify_parts deserialize_message
  verify_parts_inv issuer_pk expected_type h64 p64 s64 header payload h =
      let (header_bytes, hb, h1) = >>=-eq-ok (base64url_decode h64) _ h in
      let (header_value, hv, h2) = >>=-eq-ok (or_raise (p.loads header_bytes) _) _ h1 in
      let (payload_bytes, pb, h3) = >>=-eq-ok (base64url_decode p64) _ h2 in
      let (payload_value, pv, h4) = >>=-eq-ok (or_raise (p.loads payload_bytes) _) _ h3 in
      let (header', ho, h5) = >>=-eq-ok (or_raise (as_object (some header_value)) _) _ h4 in
      let (payload', po, h6) = >>=-eq-ok (or_raise (as_object (some payload_value)) _) _ h5 in
      let (u, ra, h7) =
        >>=-eq-ok (raise_if (not (is_text (find (codes "alg") header') algorithm)) _) _ h6 in
      let (u', rt, h8) = >>=-eq-ok (raise_if (wrong_type p d expected_type header') _) _ h7 in
      let (signature, sd, h9) = >>=-eq-ok (base64url_decode s64) _ h8 in
      let (valid, sv, h10) =
        >>=-eq-ok (verify d issuer_pk (jwt_signing_input h64 p64) signature) _ h9 in
      let (is_valid, same) = end_inv valid _ (header', payload') h10 in
      let header_eq : header' ≡ header = ap (λ (r : Members × Members). r.0) same in
      let payload_eq : payload' ≡ payload = ap (λ (r : Members × Members). r.1) same in
      record {
        header_bytes = header_bytes;
        payload_bytes = payload_bytes;
        signature = signature;
        header_decoded = hb;
        header_loaded =
            or_raise_inv (p.loads header_bytes) _ hv
            ∙ ap some (
                as_object_inv header_value (or_raise_inv (as_object (some header_value)) _ ho)
                ∙ ap object header_eq);
        payload_decoded = pb;
        payload_loaded =
            or_raise_inv (p.loads payload_bytes) _ pv
            ∙ ap some (
                as_object_inv payload_value (or_raise_inv (as_object (some payload_value)) _ po)
                ∙ ap object payload_eq);
        right_algorithm =
            ap (λ (m : Members). is_text (find (codes "alg") m) algorithm) (sym header_eq)
            ∙ not-false _ (raise_if_inv _ _ ra);
        right_type =
            ap (λ (m : Members). wrong_type p d expected_type m) (sym header_eq)
            ∙ raise_if_inv _ _ rt;
        signature_decoded = sd;
        signature_valid = sv ∙ ap ok is_valid;
      }

  -- A token that is accepted is three parts with a dot between them; the first two decode to the
  -- JSON objects returned, the header names ML-DSA-65 and the expected type, and the third decodes
  -- to a signature that the issuer's key verifies over the first two parts.
  pub verify_jwt-Verified :
      (token : Str) (issuer_pk : Bytes) (expected_type : Option Str) (header payload : Members)
      → verify_jwt p d token issuer_pk expected_type ≡ ok (header, payload)
      → (h64 p64 s64 : Str) × (token ≡ (h64 ++ dot ∷ p64) ++ dot ∷ s64)
        × Verified issuer_pk expected_type h64 p64 s64 header payload
  unfolding verify_jwt
  verify_jwt-Verified token issuer_pk expected_type header payload h =
      let (parts, e, h1) = >>=-eq-ok (split_jwt token) _ h in
      (
        parts.0,
        parts.1,
        parts.2,
        split_jwt_inv token e,
        verify_parts_inv issuer_pk expected_type parts.0 parts.1 parts.2 header payload h1,
      )

  -- A token that `sign_jwt` returns is accepted by `verify_jwt` for its type, with the header and the
  -- claims that JSON loads back, if the dumped texts and the signatures are bytes, the loaded header
  -- has the algorithm and the type that were dumped, and the issuer's public key has the right size
  -- and verifies whatever the secret key signs.
  pub verify_jwt-sign_jwt :
      (claims header payload : Members) (issuer_sk issuer_pk : Bytes) (kid token_type token : Str)
      → IsBytes (p.dumps (jwt_header kid token_type))
      → IsBytes (p.dumps claims)
      → p.loads (p.dumps (jwt_header kid token_type)) ≡ some (object header)
      → p.loads (p.dumps claims) ≡ some (object payload)
      → find (codes "alg") header ≡ some (text algorithm)
      → find (codes "typ") header ≡ some (text token_type)
      → ((message : Bytes) → IsBytes (d.sign issuer_sk message))
      → ((message : Bytes) → d.verify issuer_pk message (d.sign issuer_sk message) ≡ some true)
      → length issuer_pk ≡ public_key_size
      → sign_jwt p d claims issuer_sk kid token_type ≡ ok token
      → verify_jwt p d token issuer_pk (some token_type) ≡ ok (header, payload)
  unfolding verify_jwt
  verify_jwt-sign_jwt claims header payload issuer_sk issuer_pk kid token_type token hb pb hl pl ha
        ht sb valid size h =
      let (signature, signed, token_eq) = sign_jwt_inv claims issuer_sk kid token_type token h in
      let h64 : Str = encode_part p d (jwt_header kid token_type) in
      let p64 : Str = encode_part p d claims in
      let input : Bytes = jwt_signing_input h64 p64 in
      let (sig_eq, sig_size) = sign_inv d issuer_sk input signature signed in
      let sig_bytes : IsBytes signature = subst IsBytes (sym sig_eq) (sb input) in
      let typed : is_text (find (codes "typ") header) token_type ≡ true =
        ap (λ (o : Option Json). is_text o token_type) ht ∙ str_eq_refl token_type in
      let verified : Verified issuer_pk (some token_type) h64 p64 (base64url_encode signature)
          header payload =
        record {
          header_bytes = p.dumps (jwt_header kid token_type);
          payload_bytes = p.dumps claims;
          signature = signature;
          header_decoded = base64url_decode-base64url_encode _ hb;
          header_loaded = hl;
          payload_decoded = base64url_decode-base64url_encode _ pb;
          payload_loaded = pl;
          right_algorithm =
              ap (λ (o : Option Json). is_text o algorithm) ha ∙ str_eq_refl algorithm;
          right_type = ground (arith, typed);
          signature_decoded = base64url_decode-base64url_encode signature sig_bytes;
          signature_valid =
              verify-eq d issuer_pk input signature size sig_size
                (ap (d.verify issuer_pk input) sig_eq ∙ valid input);
        } in
      ap (λ (t : Str). verify_jwt p d t issuer_pk (some token_type)) token_eq
      ∙ ap
          (λ (r : Result (Str × Str × Str)).
            r >>= λ parts. verify_parts p d parts.0 parts.1 parts.2 issuer_pk (some token_type))
          (split_jwt-eq h64 p64 (base64url_encode signature) (encode-IsPart _ hb)
            (encode-IsPart _ pb) (encode-IsPart signature sig_bytes))
      ∙ verify_parts-eq issuer_pk (some token_type) h64 p64 (base64url_encode signature) header
          payload verified

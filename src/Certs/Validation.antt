-- ===== src/Certs/Validation.antt =====
-- What a certificate that is accepted has been checked for, and that a certificate the CA makes is
-- accepted.
use kemtls.Common.{
  ℕ, ◌≤◌, ◌≡◌, refl, arith, ap, ◌∙◌, sym, inl, inr, Bool-cases, true, false, not, ltb, Option, none,
  some, Option-cases, str_eq, str_eq_iff, codes, Bytes, IsBytes, Str, length,
}
use kemtls.Common.Error.{
  ok, >>=-eq-ok, or_raise_inv, raise_if_inv, raise_if, or_raise, ok_injective,
}
use kemtls.Common.Int.{
  ℤ, is_after, is_before, NotAfter, NotBefore, is_after-NotAfter, is_before-NotBefore,
}
use kemtls.Common.Json.{
  Json, null, boolean, text, object, array, number, negative, Members, find, set_member, as_text,
  as_object, is_text, get_item, contained, as_object_inv, Python,
}
use kemtls.Crypto.Primitives.{Signature}
use kemtls.Crypto.Signatures.{verify, sign}
use kemtls.Encoding.{base64url_encode, base64url_decode}
use kemtls.Encoding.RoundTrip.{base64url_decode-base64url_encode}
use mathlib.Core.Path.{subst}
use kemtls.Crypto.Signatures.{public_key_size}
use kemtls.Crypto.Signatures.Verify.{sign_inv, verify-eq}
use kemtls.Certs.{
  without_key, certificate_body, decode_text, as_number, check_subject, create_certificate,
  check_fields, validate_certificate,
}

as_text_inv : (v : Json) {s : Str} → as_text (some v) ≡ some s → v ≡ text s
as_text_inv null h = cc
as_text_inv (boolean b) h = cc
as_text_inv (number n) h = cc
as_text_inv (negative n) h = cc
as_text_inv (text s) h = cc
as_text_inv (object m) h = cc
as_text_inv (array i) h = cc

as_text-some : (v : Option Json) {s : Str} → as_text v ≡ some s → v ≡ some (text s)
as_text-some none h = cc
as_text-some (some v) h = ap some (as_text_inv v h)

pub is_text_inv : (v : Option Json) (s : Str) → is_text v s ≡ true → v ≡ some (text s)
is_text_inv v s h = elim (Option-cases (as_text v)) [
  | inl e ↦ absurd (ground arith)
  | inr (t, e) ↦
      let same : str_eq t s ≡ true = ground arith in
      rw (as_text-some v e, (str_eq_iff t s).0 same) refl
]

get_item_inv : (key : Str) (m : Members) {v : Json} → get_item key m ≡ ok v → find key m ≡ some v
unfolding get_item
get_item_inv key m h = or_raise_inv (find key m) _ h

decode_text_inv :
    (v : Json) {b : Bytes}
    → decode_text v ≡ ok b
    → (s : Str) × (v ≡ text s) × (base64url_decode s ≡ ok b)
decode_text_inv v h =
    let (s, a, b) = >>=-eq-ok (or_raise (as_text (some v)) _) base64url_decode h in
    (s, as_text_inv v (or_raise_inv (as_text (some v)) _ a), b)

check_subject_inv :
    (m : Members) (s : Str) → check_subject m s ≡ ok tt → find (codes "subject") m ≡ some (text s)
unfolding check_subject get_item
check_subject_inv m s h = elim (Bool-cases (is_text (find (codes "subject") m) s)) [
  | inl e ↦ is_text_inv (find (codes "subject") m) s e
  | inr e ↦ elim (Option-cases (find (codes "subject") m)) [
    | inl f ↦ absurd (ground arith)
    | inr (v, f) ↦ absurd (ground arith)
  ]
]

-- What the fields of a certificate say when they are accepted.
pub record CheckedFields (now : ℕ) (cert : Members) (identity : Str) (key : Bytes) : Type 0 where
  pub valid_from : Json
  pub valid_to : Json
  pub start : ℤ
  pub end : ℤ
  pub has_start : find (codes "valid_from") cert ≡ some valid_from
  pub has_end : find (codes "valid_to") cert ≡ some valid_to
  pub start_number : as_number valid_from ≡ ok start
  pub end_number : as_number valid_to ≡ ok end
  pub started : NotAfter start now
  pub not_expired : NotBefore end now
  pub usage : find (codes "key_usage") cert ≡ some (text (codes "kemtls"))
  pub subject : find (codes "subject") cert ≡ some (text identity)
  pub key64 : Str
  pub has_key : find (codes "kem_public_key") cert ≡ some (text key64)
  pub decoded_key : base64url_decode key64 ≡ ok key

module _ (p : Python) (d : Signature) where
  -- What `validate_certificate` has checked when it returns a key.
  pub record Valid (now : ℕ) (value : Json) (ca_pk : Bytes) (identity : Str) (key : Bytes)
      : Type 0 where
    pub cert : Members
    pub is_object : value ≡ object cert
    pub signature64 : Str
    pub signature : Bytes
    pub has_signature : find (codes "signature") cert ≡ some (text signature64)
    pub decoded_signature : base64url_decode signature64 ≡ ok signature
    pub verified :
        verify d ca_pk (p.dumps (without_key (codes "signature") cert)) signature ≡ ok true
    pub fields : CheckedFields now cert identity key

  check_fields_inv :
      (now : ℕ) (cert : Members) (identity : Str) {key : Bytes}
      → check_fields p d now cert identity ≡ ok key
      → CheckedFields now cert identity key
  unfolding check_fields
  check_fields_inv now cert identity h =
      let (valid_from, a, h1) = >>=-eq-ok (get_item (codes "valid_from") cert) _ h in
      let (start, b, h2) = >>=-eq-ok (as_number valid_from) _ h1 in
      let (u1, c, h3) = >>=-eq-ok (raise_if (is_after start now) _) _ h2 in
      let (valid_to, e, h4) = >>=-eq-ok (get_item (codes "valid_to") cert) _ h3 in
      let (end, f, h5) = >>=-eq-ok (as_number valid_to) _ h4 in
      let (u2, g, h6) = >>=-eq-ok (raise_if (is_before end now) _) _ h5 in
      let usage = is_text (find (codes "key_usage") cert) (codes "kemtls") in
      let (u3, i, h7) = >>=-eq-ok (raise_if (not usage) _) _ h6 in
      let (u4, j, h8) = >>=-eq-ok (check_subject cert identity) _ h7 in
      let (public_key, k, h9) = >>=-eq-ok (get_item (codes "kem_public_key") cert) _ h8 in
      let (key64, l, m) = decode_text_inv public_key h9 in
      let late : is_after start now ≡ false = raise_if_inv (is_after start now) _ c in
      let early : is_before end now ≡ false = raise_if_inv (is_before end now) _ g in
      let used : usage ≡ true = ground (arith, raise_if_inv (not usage) _ i) in
      record {
        valid_from = valid_from;
        valid_to = valid_to;
        start = start;
        end = end;
        has_start = get_item_inv (codes "valid_from") cert a;
        has_end = get_item_inv (codes "valid_to") cert e;
        start_number = b;
        end_number = f;
        started = is_after-NotAfter start now late;
        not_expired = is_before-NotBefore end now early;
        usage = is_text_inv (find (codes "key_usage") cert) (codes "kemtls") used;
        subject = check_subject_inv cert identity j;
        key64 = key64;
        has_key = get_item_inv (codes "kem_public_key") cert k ∙ ap some l;
        decoded_key = m;
      }

  -- A certificate is accepted only if it is an object whose signature verifies, under the key of the
  -- CA, over its other members, the present time is within its window, its use is `kemtls` and its
  -- subject is the expected identity; the key that is returned is the one it holds.
  pub validate_certificate-Valid :
      (now : ℕ) (value : Json) (ca_pk : Bytes) (identity : Str) (key : Bytes)
      → validate_certificate p d now value ca_pk identity ≡ ok key
      → Valid now value ca_pk identity key
  unfolding validate_certificate
  validate_certificate-Valid now value ca_pk identity key h =
      let (signed, a, h1) = >>=-eq-ok (contained (codes "signature") value) _ h in
      let (u1, b, h2) = >>=-eq-ok (raise_if (not signed) _) _ h1 in
      let (cert, c, h3) = >>=-eq-ok (or_raise (as_object (some value)) _) _ h2 in
      let (signature_b64, e, h4) = >>=-eq-ok (get_item (codes "signature") cert) _ h3 in
      let (signature, f, h5) = >>=-eq-ok (decode_text signature_b64) _ h4 in
      let body = p.dumps (without_key (codes "signature") cert) in
      let (verified, g, h6) = >>=-eq-ok (verify d ca_pk body signature) _ h5 in
      let (u2, i, h7) = >>=-eq-ok (raise_if (not verified) _) _ h6 in
      let (signature64, j, k) = decode_text_inv signature_b64 f in
      let accepted : verified ≡ true = ground (arith, raise_if_inv (not verified) _ i) in
      record {
        cert = cert;
        is_object = as_object_inv value (or_raise_inv (as_object (some value)) _ c);
        signature64 = signature64;
        signature = signature;
        has_signature = get_item_inv (codes "signature") cert e ∙ ap some j;
        decoded_signature = k;
        verified = g ∙ ap ok accepted;
        fields = check_fields_inv now cert identity h7;
      }

  create_certificate_inv :
      (subject : Str) (kem_pk ca_sk : Bytes) (issuer : Str) (valid_from valid_to : ℕ)
      {cert : Members}
      → create_certificate p d subject kem_pk ca_sk issuer valid_from valid_to ≡ ok cert
      → (signature : Bytes) × (sign d ca_sk
            (p.dumps (certificate_body subject kem_pk issuer valid_from valid_to))
          ≡ ok signature)
        × (set_member
              (codes "signature")
              (text (base64url_encode signature))
              (certificate_body subject kem_pk issuer valid_from valid_to)
            ≡ cert)
  unfolding create_certificate
  create_certificate_inv subject kem_pk ca_sk issuer valid_from valid_to h =
      let (signature, a, b) =
        >>=-eq-ok
          (sign d ca_sk (p.dumps (certificate_body subject kem_pk issuer valid_from valid_to))) _
          h in
      (signature, a, ok_injective b)

  check_fields-eq :
      (now : ℕ) (subject : Str) (kem_pk : Bytes) (issuer : Str) (valid_from valid_to : ℕ)
      (signature : Bytes)
      → IsBytes kem_pk
      → valid_from ≤ now
      → now ≤ valid_to
      → check_fields p d now
          (set_member
            (codes "signature")
            (text (base64url_encode signature))
            (certificate_body subject kem_pk issuer valid_from valid_to))
          subject
        ≡ ok kem_pk
  unfolding check_fields set_member check_subject get_item find str_eq
  check_fields-eq now subject kem_pk issuer valid_from valid_to signature bytes started running =
      let a : ltb now valid_from ≡ false = ground arith in
      let b : ltb valid_to now ≡ false = ground arith in
      rw (a, b, (str_eq_iff subject subject).1 refl)
        (base64url_decode-base64url_encode kem_pk bytes)

  -- A certificate that the CA makes with its secret key is accepted, for its subject and at a time
  -- within its window, under the public key that verifies what this secret key signs, and gives the
  -- subject's key back, if the key and the signatures are bytes.
  pub validate_certificate-create_certificate :
      (subject : Str) (kem_pk ca_sk ca_pk : Bytes) (issuer : Str) (valid_from valid_to now : ℕ)
      (cert : Members)
      → IsBytes kem_pk
      → ((message : Bytes) → IsBytes (d.sign ca_sk message))
      → ((message : Bytes) → d.verify ca_pk message (d.sign ca_sk message) ≡ some true)
      → length ca_pk ≡ public_key_size
      → valid_from ≤ now
      → now ≤ valid_to
      → create_certificate p d subject kem_pk ca_sk issuer valid_from valid_to ≡ ok cert
      → validate_certificate p d now (object cert) ca_pk subject ≡ ok kem_pk
  unfolding validate_certificate get_item contained find set_member str_eq without_key
  validate_certificate-create_certificate subject kem_pk ca_sk ca_pk issuer valid_from valid_to now
        cert bytes sb valid size started running h =
      let (signature, signed, same) =
        create_certificate_inv subject kem_pk ca_sk issuer valid_from valid_to h in
      let body : Members = certificate_body subject kem_pk issuer valid_from valid_to in
      let (sig_eq, sig_size) = sign_inv d ca_sk (p.dumps body) signature signed in
      let sig_bytes : IsBytes signature = subst IsBytes (sym sig_eq) (sb (p.dumps body)) in
      let fields =
        check_fields-eq now subject kem_pk issuer valid_from valid_to signature bytes started
          running in
      let verified : verify d ca_pk (p.dumps body) signature ≡ ok true =
        verify-eq d ca_pk (p.dumps body) signature size sig_size
          (ap (d.verify ca_pk (p.dumps body)) sig_eq ∙ valid (p.dumps body)) in
      rw (← same, base64url_decode-base64url_encode signature sig_bytes, verified) fields

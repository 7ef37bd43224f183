-- ===== src/Oidc/Jwt/Validation.antt =====
-- What the claims of an accepted token say.
use mathlib.Core.Path.{subst}
use kemtls.Common.{
  not, not-false, ℕ, ◌≡◌, ap, ◌∙◌, sym, arith, Bool, true, false, Option, none, some, str_eq_iff,
  codes, Bytes, Str,
}
use kemtls.Common.Error.{
  Error, ok, >>=-eq-ok, or_raise, or_raise_inv, raise_if, raise_if_inv, ok_injective,
}
use kemtls.Common.Int.{ℤ, is_after, After, NotAfter, is_after-After, is_after-NotAfter}
use kemtls.Common.Json.{
  Json, null, boolean, number, negative, text, object, array, Members, find, Python,
}
use kemtls.Crypto.Primitives.{Signature}
use kemtls.Common.Json.{is_text}
use kemtls.Oidc.Jwt.{
  access_token_type, differs, check_time, verify_jwt, validate_registered_claims,
  validate_access_token,
}

is_text_inv : (o : Option Json) (s : Str) → is_text o s ≡ true → o ≡ some (text s)
is_text_inv none s e = cc
is_text_inv (some null) s e = cc
is_text_inv (some (boolean b)) s e = cc
is_text_inv (some (number n)) s e = cc
is_text_inv (some (negative n)) s e = cc
is_text_inv (some (text t)) s e = ap (λ (x : Str). some (text x)) ((str_eq_iff t s).0 e)
is_text_inv (some (object m)) s e = cc
is_text_inv (some (array i)) s e = cc

differs_inv :
    (expected : Option Str) (value : Option Json) (s : Str)
    → differs expected value ≡ false
    → expected ≡ some s
    → value ≡ some (text s)
differs_inv none value s e same = cc
differs_inv (some t) value s e same =
    is_text_inv value t (ground arith) ∙ ap (λ (x : Str). some (text x)) (ground arith)

module _ (p : Python) (d : Signature) where
  check_time_inv :
      (bad : ℤ → Bool) (e : Error) (o : Option Json) {value : Json} {u : Unit {0}}
      → check_time p d bad e o ≡ ok u
      → o ≡ some value
      → (n : ℤ) × (p.int value ≡ some n) × (bad n ≡ false)
  check_time_inv bad e none h is_value = absurd cc
  check_time_inv bad e (some v) {value} h is_value =
      let (n, read, fine) = >>=-eq-ok (or_raise (p.int v) _) _ h in
      let same : v ≡ value = ground arith in
      (n, ap p.int (sym same) ∙ or_raise_inv (p.int v) _ read, raise_if_inv (bad n) _ fine)

  -- What has been checked of an accepted access token.
  pub record Accepted (token : Str) (issuer_pk : Bytes) (issuer audience : Option Str) (now : ℕ)
      (claims : Members) : Type 0 where
    pub header : Members
    pub signed : verify_jwt p d token issuer_pk (some access_token_type) ≡ ok (header, claims)
    pub unexpired :
        (value : Json)
        → find (codes "exp") claims ≡ some value
        → (exp : ℤ) × (p.int value ≡ some exp) × After exp now
    pub begun :
        (value : Json)
        → find (codes "nbf") claims ≡ some value
        → (nbf : ℤ) × (p.int value ≡ some nbf) × NotAfter nbf now
    pub right_issuer : (s : Str) → issuer ≡ some s → find (codes "iss") claims ≡ some (text s)
    pub right_audience : (s : Str) → audience ≡ some s → find (codes "aud") claims ≡ some (text s)

  -- An access token that is accepted verifies as one of type at+jwt; its claims are those returned.
  -- Its `exp`, if there, reads as an integer after now, and its `nbf`, if there, as one that is not;
  -- and it names the issuer and the audience that were asked for.
  pub validate_access_token-Accepted :
      (token : Str) (issuer_pk : Bytes) (issuer audience : Option Str) (now : ℕ) (claims : Members)
      → validate_access_token p d token issuer_pk issuer audience now ≡ ok claims
      → Accepted token issuer_pk issuer audience now claims
  unfolding validate_access_token validate_registered_claims
  validate_access_token-Accepted token issuer_pk issuer audience now claims h =
      let (verified, signed, h1) =
        >>=-eq-ok (verify_jwt p d token issuer_pk (some access_token_type)) _ h in
      let (u, registered, same) =
        >>=-eq-ok (validate_registered_claims p d verified.1 issuer audience now) _ h1 in
      let (u1, exp, r1) =
        >>=-eq-ok (check_time p d (λ exp. not (is_after exp now)) _ (find (codes "exp") verified.1))
          _ registered in
      let (u2, nbf, r2) =
        >>=-eq-ok (check_time p d (λ nbf. is_after nbf now) _ (find (codes "nbf") verified.1)) _
          r1 in
      let (u3, iss, aud) =
        >>=-eq-ok (raise_if (differs issuer (find (codes "iss") verified.1)) _) _ r2 in
      let equal : verified.1 ≡ claims = ok_injective same in
      subst (Accepted token issuer_pk issuer audience now) equal (record {
        header = verified.0;
        signed = signed;
        unexpired = λ value is_value.
            let (n, read, fine) = check_time_inv (λ exp. not (is_after exp now)) _ _ exp is_value in
            (n, read, is_after-After n now (not-false (is_after n now) fine));
        begun = λ value is_value.
            let (n, read, fine) = check_time_inv (λ nbf. is_after nbf now) _ _ nbf is_value in
            (n, read, is_after-NotAfter n now fine);
        right_issuer = λ s. differs_inv issuer _ s (raise_if_inv _ _ iss);
        right_audience = λ s. differs_inv audience _ s (raise_if_inv _ _ aud);
      })

-- ===== src/Oidc/Jwks/Published.antt =====
-- Every key that is added is published, as a JSON Web Key that names it and decodes to it.
use mathlib.Core.Path.{subst}
use kemtls.Common.{
  ℕ, ◌≤◌, ◌≡◌, refl, ap, ◌∙◌, arith, inl, inr, Bool-cases, some, List, [], ◌∷◌, codes, str_eq,
  length, All, Bytes, IsBytes, Str,
}
use kemtls.Common.Error.{Result, ok, ◌>>=◌, ◌>>◌, >>=-eq-ok, ok_injective}
use kemtls.Common.Dict.{put, text_eq}
use kemtls.Common.Json.{text, Members, find, set_member}
use kemtls.Crypto.Signatures.{public_key_size, check_size, jwk_to_public_key}
use kemtls.Crypto.Signatures.Jwk.{jwk, public_key_to_jwk-eq, check_size-eq}
use kemtls.Encoding.RoundTrip.{base64url_decode-base64url_encode}
use kemtls.Oidc.Jwks.{KeySet, add_key, add_keys, jwk_with_kid, get_jwks}

-- Every key is bytes and has the size of ML-DSA-65 and an id.
abbrev pub IsValid : KeySet → Type 0
IsValid = All (λ entry. (length entry.1 ≡ public_key_size) × (1 ≤ length entry.0) × IsBytes entry.1)

put-IsValid :
    (kid : Str) (public_key : Bytes) (keys : KeySet)
    → length public_key ≡ public_key_size
    → 1 ≤ length kid
    → IsBytes public_key
    → IsValid keys
    → IsValid (put kid public_key keys)
unfolding put
put-IsValid kid public_key [] size named bytes valid = ((size, named, bytes), tt)
put-IsValid kid public_key ((j, k) ∷ keys) size named bytes ((n, m, b), valid) =
    elim (Bool-cases (str_eq j kid)) [
      | inl same ↦ rw same ((size, m, bytes), valid)
      | inr other ↦ rw other ((n, m, b), put-IsValid kid public_key keys size named bytes valid)
    ]

check_size_inv :
    (n : ℕ) (value : Bytes) {u : Unit {0}} → check_size n value ≡ ok u → length value ≡ n
check_size_inv n value e = ground arith

add_key-IsValid :
    (kid : Str) (public_key : Bytes) (keys : KeySet) {keys' : KeySet}
    → IsBytes public_key
    → IsValid keys
    → add_key kid public_key keys ≡ ok keys'
    → IsValid keys'
unfolding add_key
add_key-IsValid [] public_key keys bytes valid e = absurd (ground arith)
add_key-IsValid (c ∷ kid) public_key keys bytes valid e =
    let (u, checked, made) = >>=-eq-ok (check_size public_key_size public_key) _ e in
    subst IsValid (ok_injective made) (
      put-IsValid (c ∷ kid) public_key keys (check_size_inv public_key_size public_key checked)
        (omega arith) bytes valid)

add_keys-IsValid :
    (more : List (Str × Bytes)) (keys keys' : KeySet)
    → All (λ entry. IsBytes entry.1) more
    → IsValid keys
    → add_keys more keys ≡ ok keys'
    → IsValid keys'
unfolding add_keys
add_keys-IsValid [] keys keys' all valid e = subst IsValid (ok_injective e) valid
add_keys-IsValid ((kid, public_key) ∷ more) keys keys' (bytes, all) valid e =
    let (keys1, added, rest) = >>=-eq-ok (add_key kid public_key keys) (add_keys more) e in
    add_keys-IsValid more keys1 keys' all (add_key-IsValid kid public_key keys bytes valid added)
      rest

-- The list of JSON Web Keys belongs to the keys, one by one.
abbrev pub Published : KeySet → List Members → Type 0
Published [] [] = Unit
Published [] (jwk ∷ jwks) = ⊥
Published (entry ∷ keys) [] = ⊥
Published ((kid, public_key) ∷ keys) (jwk ∷ jwks) =
    (find (codes "kid") jwk ≡ some (text kid))
    × (jwk_to_public_key jwk ≡ ok public_key)
    × Published keys jwks

jwk_with_kid-eq :
    (c : ℕ) (kid : Str) (public_key : Bytes)
    → length public_key ≡ public_key_size
    → IsBytes public_key
    → (found : Members) × (jwk_with_kid public_key (c ∷ kid) ≡ ok found)
      × (find (codes "kid") found ≡ some (text (c ∷ kid)))
      × (jwk_to_public_key found ≡ ok public_key)
unfolding jwk_with_kid jwk_to_public_key set_member find str_eq
jwk_with_kid-eq c kid public_key size bytes = (
  set_member (codes "kid") (text (c ∷ kid)) (jwk public_key),
  ap (λ (r : Result Members). r >>= λ m. ok (set_member (codes "kid") (text (c ∷ kid)) m))
      (public_key_to_jwk-eq public_key size),
  refl,
  ap (λ (r : Result Bytes). r >>= λ k. check_size public_key_size k >> ok k)
        (base64url_decode-base64url_encode public_key bytes)
      ∙ ap (λ (m : Result (Unit {0})). m >> ok public_key)
          (check_size-eq public_key_size public_key size),
)

get_jwks-Published :
    (keys : KeySet)
    → IsValid keys
    → (jwks : List Members) × (get_jwks keys ≡ ok jwks) × Published keys jwks
unfolding get_jwks
get_jwks-Published [] valid = ([], refl, tt)
get_jwks-Published (([], public_key) ∷ keys) ((size, named, bytes), valid) = absurd (omega arith)
get_jwks-Published ((c ∷ kid, public_key) ∷ keys) ((size, named, bytes), valid) =
    let (found, made, has_kid, decoded) = jwk_with_kid-eq c kid public_key size bytes in
    let (jwks, rest, published) = get_jwks-Published keys valid in
    (found ∷ jwks, rw (made, rest) refl, (has_kid, decoded, published))

-- Whatever keys are added to an empty set, once all are accepted the document is built without an
-- error: it has one JSON Web Key for each key that is kept, in order, which has the key's id as its
-- `kid` and decodes to the key, if the keys are bytes.
pub get_jwks-add_keys :
    (more : List (Str × Bytes)) (keys : KeySet)
    → All (λ entry. IsBytes entry.1) more
    → add_keys more [] ≡ ok keys
    → (jwks : List Members) × (get_jwks keys ≡ ok jwks) × Published keys jwks
get_jwks-add_keys more keys all added =
    get_jwks-Published keys (add_keys-IsValid more [] keys all tt added)

-- ===== src/Oidc/Jwks.antt =====
-- oidc/jwks.py (src/oidc): the published verification keys, without the route of Flask.
pub mod Published
use kemtls.Common.{Option, none, some, List, [], ◌∷◌, codes, Bytes, Str}
use kemtls.Common.Error.{Error, value_error, Result, ok, raised, ◌>>=◌, ◌>>◌, raise_if}
use kemtls.Common.Dict.{Dict, get, put, text_eq}
use kemtls.Common.Json.{text, Members, set_member}
use kemtls.Crypto.Signatures.{public_key_size, check_size, public_key_to_jwk}
use kemtls.Oidc.Jwt.{is_blank}

-- `JWKSEndpoint._keys`
abbrev pub KeySet : Type 0
KeySet = Dict Str Bytes

unfoldable pub add_key : Str → Bytes → KeySet → Result KeySet
add_key [] public_key keys = raised (value_error "kid must be a non-empty string")
add_key (c ∷ kid) public_key keys = do
  check_size public_key_size public_key
  ok (put (c ∷ kid) public_key keys)

-- `for kid, public_key in keys.items(): self.add_key(kid, public_key)`
unfoldable pub add_keys : List (Str × Bytes) → KeySet → Result KeySet
add_keys [] keys = ok keys
add_keys ((kid, public_key) ∷ more) keys = add_key kid public_key keys >>= add_keys more

unfoldable pub get_key : Str → KeySet → Option Bytes
get_key [] keys = none
get_key (c ∷ kid) keys = get (c ∷ kid) keys

-- `if kid: jwk["kid"] = kid`
abbrev pub add_kid : Str → Members → Members
add_kid [] jwk = jwk
add_kid (c ∷ kid) jwk = set_member (codes "kid") (text (c ∷ kid)) jwk

-- `public_key_to_jwk(public_key, kid=kid)`
unfoldable pub jwk_with_kid : Bytes → Str → Result Members
jwk_with_kid public_key kid = public_key_to_jwk public_key >>= λ jwk. ok (add_kid kid jwk)

-- The list under `keys`.
unfoldable pub get_jwks : KeySet → Result (List Members)
get_jwks [] = ok []
get_jwks ((kid, public_key) ∷ keys) =
    jwk_with_kid public_key kid >>= λ jwk. get_jwks keys >>= λ jwks. ok (jwk ∷ jwks)

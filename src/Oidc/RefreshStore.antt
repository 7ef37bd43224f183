-- ===== src/Oidc/RefreshStore.antt =====
-- oidc/refresh_store.py (src/oidc): refresh tokens, kept by their hashes. A record that Python
-- mutates in place is put back under its key.
pub mod Rotation
pub mod Lifetime
use kemtls.Common.{
  ℕ, String, Bool, true, false, ◌&&◌, ◌||◌, Option, none, some, List, [], ◌∷◌, leb, ◌==◌,
  if◌then◌else◌, str_eq, length, Str,
}
use kemtls.Common.Error.{value_error, type_error, Result, ok, raised, ◌>>=◌, ◌>>◌, raise_if}
use kemtls.Common.Dict.{Dict, get, put, map_values, text_eq}
use kemtls.Crypto.Primitives.{Hash}

pub record RefreshTokenRecord : Type 0 where
  pub token_hash : Str
  pub family_id : Str
  pub subject : Str
  pub client_id : Str
  pub binding_meta : Dict Str Str
  pub issued_at : ℕ
  pub expires_at : ℕ
  pub used_at : Option ℕ
  pub revoked : Bool

abbrev pub Store : Type 0
Store = Dict Str RefreshTokenRecord

abbrev pub is_some {ℓ} : {A : Type ℓ} → Option A → Bool
is_some none = false
is_some (some a) = true

-- `not x`, for a text or a dictionary.
abbrev pub is_empty {ℓ} : {A : Type ℓ} → List A → Bool
is_empty [] = true
is_empty (x ∷ xs) = false

abbrev pub revoke : RefreshTokenRecord → RefreshTokenRecord
revoke r = record r { revoked = true }

abbrev pub mark_used : ℕ → RefreshTokenRecord → RefreshTokenRecord
mark_used now r = record r { used_at = some now }

-- The body of the loop of `revoke_family`.
abbrev pub revoke_if_in : Str → RefreshTokenRecord → RefreshTokenRecord
revoke_if_in family r = if str_eq r.family_id family then revoke r else r

module _ (h : Hash) where
  unfoldable pub lookup_token : Str → Store → Option RefreshTokenRecord
  lookup_token token s = if is_empty token then none else get (h.sha256_hex token) s

  unfoldable pub revoke_family : Str → Store → Bool × Store
  revoke_family token s = elim (lookup_token token s) [
    | none ↦ (false, s)
    | some r ↦ (true, map_values (revoke_if_in r.family_id) s)
  ]

  -- `_issue_token`: `token` is the value drawn, and the result.
  unfoldable pub put_token : Str → Str → Dict Str Str → ℕ → Str → Str → ℕ → Store → Store
  put_token subject client_id binding_meta expiry family_id token now s =
      put (h.sha256_hex token)
        (record {
          token_hash = h.sha256_hex token;
          family_id = family_id;
          subject = subject;
          client_id = client_id;
          binding_meta = binding_meta;
          issued_at = now;
          expires_at = expiry;
          used_at = none;
          revoked = false;
        })
        s

  -- `issue_token`: the family and the token are drawn, the clock is read for the check and for
  -- `issued_at`.
  unfoldable pub issue_token :
      Str → Str → Dict Str Str → ℕ → Str → Str → ℕ → ℕ → Store → Result (Str × Store)
  issue_token subject client_id binding_meta expiry family token checked now s = do
    raise_if (is_empty subject) (value_error "subject must be a non-empty string")
    raise_if (is_empty client_id) (value_error "client_id must be a non-empty string")
    raise_if (is_empty binding_meta) (value_error "binding_meta must be a non-empty dictionary")
    raise_if (leb expiry checked) (value_error "expiry must be in the future")
    ok (token, put_token subject client_id binding_meta expiry family token now s)

  -- The tests of `consume_token` on the record found.
  unfoldable pub consume_record :
      Str → ℕ → ℕ → RefreshTokenRecord → Store → Option RefreshTokenRecord × Store
  consume_record token checked now r s =
      if r.revoked
      then (none, s)
      else if leb r.expires_at checked
      then (none, put (h.sha256_hex token) (revoke r) s)
      else if is_some r.used_at
      then (none, (revoke_family token s).1)
      else (some (mark_used now r), put (h.sha256_hex token) (mark_used now r) s)

  unfoldable pub consume_token : Str → ℕ → ℕ → Store → Option RefreshTokenRecord × Store
  consume_token token checked now s = elim (lookup_token token s) [
    | none ↦ (none, s)
    | some r ↦ consume_record token checked now r s
  ]

  -- The end of `rotate_token`: a new token of the old one's family.
  abbrev pub reissue :
      Dict Str Str → ℕ → Str → ℕ → Option RefreshTokenRecord × Store → Option Str × Store
  reissue new_binding_meta expiry token now (none, s) = (none, s)
  reissue new_binding_meta expiry token now (some old, s) = (
    some token,
    put_token old.subject old.client_id new_binding_meta expiry old.family_id token now s,
  )

  -- `rotate_token`: the clock is read twice by `consume_token` and once for the new record.
  unfoldable pub rotate_token :
      Str → Dict Str Str → ℕ → Str → ℕ → ℕ → ℕ → Store → Result (Option Str × Store)
  rotate_token old new_binding_meta expiry token checked used now s = do
    raise_if (is_empty new_binding_meta)
        (value_error "new_binding_meta must be a non-empty dictionary")
    ok (reissue new_binding_meta expiry token now (consume_token old checked used s))

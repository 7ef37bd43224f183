-- ===== src/Oidc/RefreshStore/Rotation.antt =====
-- Single use: what a successful consumption and a rotation do, and what a replay does.
use kemtls.Common.{
  ℕ, ◌<◌, ◌≡◌, ◌≢◌, refl, ap, ◌∙◌, inl, inr, arith, true, false, Option, none, some, Option-cases,
  str_eq_iff, Str,
}
use kemtls.Common.Error.{ok}
use kemtls.Common.Dict.{
  Dict, get, put, map_values, text_eq, get-put_self, get-put_ne, get-map_values,
}
use kemtls.Crypto.Primitives.{Hash}
use kemtls.Oidc.RefreshStore.{
  RefreshTokenRecord, Store, is_some, mark_used, revoke_if_in, lookup_token, revoke_family,
  put_token, consume_record, consume_token, reissue, rotate_token,
}

module _ (h : Hash) where
  -- When a token is accepted, and what is stored then.
  pub record Consumed (token : Str) (checked now : ℕ) (s s' : Store) (r : RefreshTokenRecord)
      : Type 0 where
    pub old : RefreshTokenRecord
    pub found : lookup_token h token s ≡ some old
    pub live : old.revoked ≡ false
    pub unused : old.used_at ≡ none
    pub valid : checked < old.expires_at
    pub marked : r ≡ mark_used now old
    pub stored : s' ≡ put (h.sha256_hex token) r s

  consume_record_inv :
      (token : Str) (checked now : ℕ) (old : RefreshTokenRecord) (s : Store) {s' : Store}
      {r : RefreshTokenRecord}
      → consume_record h token checked now old s ≡ (some r, s')
      → (old.revoked ≡ false)
        × (old.used_at ≡ none)
        × (checked < old.expires_at)
        × (r ≡ mark_used now old)
        × (s' ≡ put (h.sha256_hex token) r s)
  unfolding consume_record
  consume_record_inv token checked now old s e = ground arith

  pub consume_token_inv :
      (token : Str) (checked now : ℕ) (s : Store) {s' : Store} {r : RefreshTokenRecord}
      → consume_token h token checked now s ≡ (some r, s')
      → Consumed token checked now s s' r
  unfolding consume_token
  consume_token_inv token checked now s e = elim (Option-cases (lookup_token h token s)) [
    | inl unknown ↦ absurd (ground arith)
    | inr (old, found) ↦
        let (live, unused, valid, marked, stored) =
          consume_record_inv token checked now old s (ground arith) in
        record {
          old = old;
          found = found;
          live = live;
          unused = unused;
          valid = valid;
          marked = marked;
          stored = stored;
        }
  ]

  lookup_token-put :
      (token : Str) (r old : RefreshTokenRecord) (s : Store)
      → lookup_token h token s ≡ some old
      → lookup_token h token (put (h.sha256_hex token) r s) ≡ some r
  unfolding lookup_token
  lookup_token-put token r old s e = ground (arith, get-put_self (h.sha256_hex token) r s)

  -- Every token of a family is revoked.
  abbrev pub FamilyRevoked : Str → Store → Type 0
  FamilyRevoked family s =
      (k : Str) (r : RefreshTokenRecord)
      → get k s ≡ some r
      → r.family_id ≡ family
      → r.revoked ≡ true

  revoke_all-FamilyRevoked :
      (family : Str) (s : Store) → FamilyRevoked family (map_values (revoke_if_in family) s)
  revoke_all-FamilyRevoked family s k r e same = elim (Option-cases (get k s)) [
    | inl missing ↦ absurd (ground (arith, get-map_values (revoke_if_in family) k s))
    | inr (old, found) ↦
        ground (arith, get-map_values (revoke_if_in family) k s, str_eq_iff old.family_id family)
  ]

  revoke_family_found :
      (token : Str) (r : RefreshTokenRecord) (s : Store)
      → lookup_token h token s ≡ some r
      → (revoke_family h token s).1 ≡ map_values (revoke_if_in r.family_id) s
  unfolding revoke_family
  revoke_family_found token r s found = ground arith

  -- `revoke_family` revokes the whole family of a stored token.
  pub revoke_family-FamilyRevoked :
      (token : Str) (r : RefreshTokenRecord) (s : Store)
      → lookup_token h token s ≡ some r
      → FamilyRevoked r.family_id (revoke_family h token s).1
  revoke_family-FamilyRevoked token r s found =
      rw (revoke_family_found token r s found) (revoke_all-FamilyRevoked r.family_id s)

  -- A token that was used is refused, and its use before its expiry revokes the family.
  consume_record_used :
      (token : Str) (checked now : ℕ) (r : RefreshTokenRecord) (s : Store)
      → r.revoked ≡ false
      → is_some r.used_at ≡ true
      → checked < r.expires_at
      → lookup_token h token s ≡ some r
      → consume_record h token checked now r s ≡ (none, map_values (revoke_if_in r.family_id) s)
  unfolding consume_record revoke_family
  consume_record_used token checked now r s live used valid found = ground arith

  consume_record_never :
      (token : Str) (checked now : ℕ) (r : RefreshTokenRecord) (s : Store)
      → is_some r.used_at ≡ true
      → (consume_record h token checked now r s).0 ≡ none
  unfolding consume_record
  consume_record_never token checked now r s used = ground arith

  consume_token_of_found :
      (token : Str) (checked now : ℕ) (r : RefreshTokenRecord) (s : Store)
      → lookup_token h token s ≡ some r
      → consume_token h token checked now s ≡ consume_record h token checked now r s
  unfolding consume_token
  consume_token_of_found token checked now r s found = ground arith

  -- A refresh token is consumed at most once: whatever the clock shows, a second use is refused.
  -- A second use before the token expires revokes every token of its family.
  pub consume_token_replay :
      (token : Str) (checked now again later : ℕ) (s : Store) {s' : Store} {r : RefreshTokenRecord}
      → consume_token h token checked now s ≡ (some r, s')
      → ((consume_token h token again later s').0 ≡ none)
        × (again < r.expires_at
            → FamilyRevoked r.family_id (consume_token h token again later s').1)
  consume_token_replay token checked now again later s {s'} {r} e =
      let c = consume_token_inv token checked now s e in
      let found : lookup_token h token s' ≡ some r =
        ap (lookup_token h token) c.stored ∙ lookup_token-put token r c.old s c.found in
      let step = consume_token_of_found token again later r s' found in
      let used : is_some r.used_at ≡ true =
        ap (λ (q : RefreshTokenRecord). is_some q.used_at) c.marked in
      let live : r.revoked ≡ false = ap (λ (q : RefreshTokenRecord). q.revoked) c.marked ∙ c.live in
      (
        rw step (consume_record_never token again later r s' used),
        λ valid.
            rw (step, consume_record_used token again later r s' live used valid found)
              (revoke_all-FamilyRevoked r.family_id s'),
      )

  -- What a successful rotation leaves: a fresh token for the same subject, client and family, and
  -- the old one used.
  pub record Rotated (old new : Str) (binding_meta : Dict Str Str) (expiry used now : ℕ)
      (s s' : Store) : Type 0 where
    pub before : RefreshTokenRecord
    pub after : RefreshTokenRecord
    pub known : lookup_token h old s ≡ some before
    pub unused : before.used_at ≡ none
    pub live : before.revoked ≡ false
    pub issued : get (h.sha256_hex new) s' ≡ some after
    pub same_subject : after.subject ≡ before.subject
    pub same_client : after.client_id ≡ before.client_id
    pub same_family : after.family_id ≡ before.family_id
    pub bound : after.binding_meta ≡ binding_meta
    pub expires : after.expires_at ≡ expiry
    pub fresh : (after.used_at ≡ none) × (after.revoked ≡ false)
    pub spent :
        h.sha256_hex new ≢ h.sha256_hex old
        → get (h.sha256_hex old) s' ≡ some (mark_used used before)

  reissue_inv :
      (meta : Dict Str Str) (expiry : ℕ) (new : Str) (now : ℕ)
      (o : Option RefreshTokenRecord × Store) {token : Str} {s' : Store}
      → reissue h meta expiry new now o ≡ (some token, s')
      → (r : RefreshTokenRecord) × (s1 : Store) × (o ≡ (some r, s1))
        × (token ≡ new)
        × (s' ≡ put_token h r.subject r.client_id meta expiry r.family_id new now s1)
  reissue_inv meta expiry new now (none, s1) e = absurd (ground arith)
  reissue_inv meta expiry new now (some r, s1) e = (r, s1, refl, ground arith, ground arith)

  rotate_token-reissue :
      (old : Str) (meta : Dict Str Str) (expiry : ℕ) (new : Str) (checked used now : ℕ) (s : Store)
      {token : Str} {s' : Store}
      → rotate_token h old meta expiry new checked used now s ≡ ok (some token, s')
      → reissue h meta expiry new now (consume_token h old checked used s) ≡ (some token, s')
  unfolding rotate_token
  rotate_token-reissue old meta expiry new checked used now s e = ground arith

  -- A successful rotation returns the token drawn. It leaves the old token used, and stores the new
  -- one, unused and not revoked, with the old one's subject, client and family and the new binding
  -- and expiry.
  pub rotate_token-Rotated :
      (old : Str) (meta : Dict Str Str) (expiry : ℕ) (new : Str) (checked used now : ℕ) (s : Store)
      {token : Str} {s' : Store}
      → rotate_token h old meta expiry new checked used now s ≡ ok (some token, s')
      → (token ≡ new) × Rotated old new meta expiry used now s s'
  unfolding put_token
  rotate_token-Rotated old meta expiry new checked used now s e =
      let (r, s1, consumed, same, stored) =
        reissue_inv meta expiry new now (consume_token h old checked used s)
          (rotate_token-reissue old meta expiry new checked used now s e) in
      let c = consume_token_inv old checked used s consumed in
      (
        same,
        record {
          before = c.old;
          after = record {
            token_hash = h.sha256_hex new;
            family_id = r.family_id;
            subject = r.subject;
            client_id = r.client_id;
            binding_meta = meta;
            issued_at = now;
            expires_at = expiry;
            used_at = none;
            revoked = false;
          };
          known = c.found;
          unused = c.unused;
          live = c.live;
          issued = ap (get (h.sha256_hex new)) stored ∙ get-put_self (h.sha256_hex new) _ s1;
          same_subject = ap (λ (q : RefreshTokenRecord). q.subject) c.marked;
          same_client = ap (λ (q : RefreshTokenRecord). q.client_id) c.marked;
          same_family = ap (λ (q : RefreshTokenRecord). q.family_id) c.marked;
          bound = refl;
          expires = refl;
          fresh = (refl, refl);
          spent = λ other.
              ap (get (h.sha256_hex old)) stored
              ∙ get-put_ne (h.sha256_hex new) (h.sha256_hex old) _ s1 other
              ∙ ap (get (h.sha256_hex old)) c.stored
              ∙ get-put_self (h.sha256_hex old) r s
              ∙ ap some c.marked;
        },
      )

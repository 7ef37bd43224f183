-- ===== src/Oidc/RefreshStore/Lifetime.antt =====
-- Tokens over a whole run of the store: a token that is spent stays spent.
use kemtls.Common.{
  ℕ, ◌≡◌, ◌≢◌, ◌⊎◌, refl, ap, ◌∙◌, inl, inr, arith, true, ◌||◌, Option, none, some, Bool-cases,
  Option-cases, str_eq, str_eq_iff, Str,
}
use kemtls.Common.Dict.{
  Dict, get, put, map_values, text_eq, get-put, get-put_self, get-put_ne, get-map_values,
}
use kemtls.Crypto.Primitives.{Hash}
use kemtls.Oidc.RefreshStore.{
  RefreshTokenRecord, Store, is_some, revoke, mark_used, revoke_if_in, lookup_token, revoke_family,
  put_token, consume_record, consume_token, reissue,
}
use kemtls.Oidc.RefreshStore.Rotation.{consume_token_inv}

-- A record that no test of `consume_token` lets through any more.
abbrev pub IsSpent : RefreshTokenRecord → Type 0
IsSpent r = (r.revoked || is_some r.used_at) ≡ true

-- The token of hash `k` is spent, and every record stands under its own hash.
abbrev pub SpentAt : Str → Store → Type 0
SpentAt k s = (r : RefreshTokenRecord) × (get k s ≡ some r) × IsSpent r

module _ (h : Hash) where
  -- The calls of the store that change it, with any readings of the clock. Tokens that are drawn
  -- have another hash than `k`: they are 64 random characters.
  pub data Step (k : Str) : Store → Store → Type 0 where
    issue :
        (s : Store) (subject client_id family token : Str) (meta : Dict Str Str) (expiry now : ℕ)
        → h.sha256_hex token ≢ k
        → Step k s (put_token h subject client_id meta expiry family token now s)
    consume :
        (s : Store) (token : Str) (checked now : ℕ)
        → Step k s (consume_token h token checked now s).1
    revoke_all : (s : Store) (token : Str) → Step k s (revoke_family h token s).1
    rotate :
        (s : Store) (old new : Str) (meta : Dict Str Str) (expiry checked used now : ℕ)
        → h.sha256_hex new ≢ k
        → Step k s (reissue h meta expiry new now (consume_token h old checked used s)).1
    -- `record.revoked = True` on the record of a token
    revoke_one :
        (s : Store) (token : Str) (r : RefreshTokenRecord)
        → get (h.sha256_hex token) s ≡ some r
        → Step k s (put (h.sha256_hex token) (revoke r) s)

  pub data Run (k : Str) (s : Store) : Store → Type 0 where
    here : Run k s s
    next : {t u : Store} → Run k s t → Step k t u → Run k s u

  put_token-SpentAt :
      (k subject client_id family token : Str) (meta : Dict Str Str) (expiry now : ℕ) (s : Store)
      → h.sha256_hex token ≢ k
      → SpentAt k s
      → SpentAt k (put_token h subject client_id meta expiry family token now s)
  unfolding put_token
  put_token-SpentAt k subject client_id family token meta expiry now s other (r, found, spent) =
      (r, get-put_ne (h.sha256_hex token) k _ s other ∙ found, spent)

  -- A change that spends no record anew keeps them spent.
  put-SpentAt :
      (k j : Str) (old new : RefreshTokenRecord) (s : Store)
      → get j s ≡ some old
      → (IsSpent old → IsSpent new)
      → SpentAt k s
      → SpentAt k (put j new s)
  put-SpentAt k j old new s at_j keeps (r, found, spent) = elim (Bool-cases (str_eq j k)) [
    | inl same ↦
        let is_k : j ≡ k = (str_eq_iff j k).0 same in
        let is_old : IsSpent old = ground (arith, ap (λ i. get i s) is_k) in
        (new, ground (arith, get-put j k new s), keeps is_old)
    | inr other ↦ (r, ground (arith, get-put j k new s), spent)
  ]

  revoke_all-SpentAt :
      (k family : Str) (s : Store) → SpentAt k s → SpentAt k (map_values (revoke_if_in family) s)
  revoke_all-SpentAt k family s (r, found, spent) = (
    revoke_if_in family r,
    ground (arith, get-map_values (revoke_if_in family) k s),
    ground arith,
  )

  revoke_family-SpentAt :
      (k token : Str) (s : Store) → SpentAt k s → SpentAt k (revoke_family h token s).1
  unfolding revoke_family
  revoke_family-SpentAt k token s h' = elim (Option-cases (lookup_token h token s)) [
    | inl unknown ↦ rw (unknown, revoke_family) h'
    | inr (r, found) ↦ rw (found, revoke_family) (revoke_all-SpentAt k r.family_id s h')
  ]

  -- The four outcomes of `consume_token` on a known token.
  consume_record_cases :
      (token : Str) (checked now : ℕ) (r : RefreshTokenRecord) (s : Store)
      → let s' = (consume_record h token checked now r s).1 in
        (s' ≡ s)
        ⊎ (s' ≡ put (h.sha256_hex token) (revoke r) s)
        ⊎ (s' ≡ (revoke_family h token s).1)
        ⊎ (s' ≡ put (h.sha256_hex token) (mark_used now r) s)
  unfolding consume_record
  consume_record_cases token checked now r s = ground arith

  consume_record-SpentAt :
      (k token : Str) (checked now : ℕ) (r : RefreshTokenRecord) (s : Store)
      → lookup_token h token s ≡ some r
      → SpentAt k s
      → SpentAt k (consume_record h token checked now r s).1
  unfolding lookup_token
  consume_record-SpentAt k token checked now r s found h' =
      let at_token : get (h.sha256_hex token) s ≡ some r = ground arith in
      let after_revoke =
        put-SpentAt k (h.sha256_hex token) r (revoke r) s at_token (λ _. refl) h' in
      let after_use =
        put-SpentAt k (h.sha256_hex token) r (mark_used now r) s at_token (λ _. ground arith) h' in
      elim (consume_record_cases token checked now r s) [
        | inl same ↦ rw same h'
        | inr (inl expired) ↦ rw expired after_revoke
        | inr (inr (inl replayed)) ↦ rw replayed (revoke_family-SpentAt k token s h')
        | inr (inr (inr used)) ↦ rw used after_use
      ]

  consume_token-SpentAt :
      (k token : Str) (checked now : ℕ) (s : Store)
      → SpentAt k s
      → SpentAt k (consume_token h token checked now s).1
  unfolding consume_token
  consume_token-SpentAt k token checked now s h' = elim (Option-cases (lookup_token h token s)) [
    | inl unknown ↦ rw (unknown, consume_token) h'
    | inr (r, found) ↦
        rw (found, consume_token) (consume_record-SpentAt k token checked now r s found h')
  ]

  reissue-SpentAt :
      (k new : Str) (meta : Dict Str Str) (expiry now : ℕ) (o : Option RefreshTokenRecord × Store)
      → h.sha256_hex new ≢ k
      → SpentAt k o.1
      → SpentAt k (reissue h meta expiry new now o).1
  reissue-SpentAt k new meta expiry now (none, s) other h' = h'
  reissue-SpentAt k new meta expiry now (some r, s) other h' =
      put_token-SpentAt k r.subject r.client_id r.family_id new meta expiry now s other h'

  Step-SpentAt : {k : Str} {s t : Store} → Step k s t → SpentAt k s → SpentAt k t
  Step-SpentAt {k} (issue s subject client_id family token meta expiry now other) h' =
      put_token-SpentAt k subject client_id family token meta expiry now s other h'
  Step-SpentAt {k} (consume s token checked now) h' = consume_token-SpentAt k token checked now s h'
  Step-SpentAt {k} (revoke_all s token) h' = revoke_family-SpentAt k token s h'
  Step-SpentAt {k} (rotate s old new meta expiry checked used now other) h' =
      reissue-SpentAt k new meta expiry now (consume_token h old checked used s) other
        (consume_token-SpentAt k old checked used s h')
  Step-SpentAt {k} (revoke_one s token r found) h' =
      put-SpentAt k (h.sha256_hex token) r (revoke r) s found (λ _. refl) h'

  Run-SpentAt : {k : Str} {s t : Store} → SpentAt k s → Run k s t → SpentAt k t
  Run-SpentAt h' here = h'
  Run-SpentAt h' (next run step) = Step-SpentAt step (Run-SpentAt h' run)

  consume_record_of_IsSpent :
      (token : Str) (checked now : ℕ) (r : RefreshTokenRecord) (s : Store)
      → IsSpent r
      → (consume_record h token checked now r s).0 ≡ none
  unfolding consume_record
  consume_record_of_IsSpent token checked now r s spent = ground arith

  consume_token_of_SpentAt :
      (token : Str) (checked now : ℕ) (s : Store)
      → SpentAt (h.sha256_hex token) s
      → (consume_token h token checked now s).0 ≡ none
  unfolding consume_token lookup_token
  consume_token_of_SpentAt token checked now s (r, found, spent) =
      ground (arith, found, consume_record_of_IsSpent token checked now r s spent)

  -- A refresh token that was accepted once is never accepted again, whatever calls come between and
  -- whatever the clock shows, as long as no token drawn later has its hash.
  pub consume_token_once :
      (token : Str) (checked now again later : ℕ) (s t : Store) {s' : Store}
      {r : RefreshTokenRecord}
      → consume_token h token checked now s ≡ (some r, s')
      → Run (h.sha256_hex token) s' t
      → (consume_token h token again later t).0 ≡ none
  consume_token_once token checked now again later s t {r} e run =
      let c = consume_token_inv h token checked now s e in
      let spent : IsSpent r = rw c.marked (ground arith) in
      consume_token_of_SpentAt token again later t
        (Run-SpentAt (r, rw c.stored (get-put_self (h.sha256_hex token) r s), spent) run)

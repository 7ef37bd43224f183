-- ===== src/Handshake/Trust.antt =====
-- Which long-term keys the client trusts: `# 1. Identity Validation` of kemtls/handshake.py, and the
-- lookups of kemtls/pdk.py (src/kemtls).
use kemtls.Common.{
  ℕ, ◌≡◌, ◌⊎◌, sym, ap, ◌∙◌, arith, inl, inr, Bool-cases, true, false, not, Option, none, some,
  List, [], ◌∷◌, codes, str_eq, str_eq_iff, Bytes, Str,
}
use kemtls.Common.Error
use kemtls.Common.Error.{
  Result, ok, raised, value_error, >>=-eq-ok, or_raise, or_raise_inv, raise_if, raise_if_inv,
  ok_injective,
}
use kemtls.Common.Dict.{get, text_eq}
use kemtls.Common.Json.{
  Json, null, boolean, number, negative, text, object, array, Members, find, is_text, or_null,
  truthy, Python,
}
use kemtls.Crypto.Primitives.{Signature}
use kemtls.Certs.{validate_certificate}
use kemtls.Certs.Validation.{Valid, validate_certificate-Valid, is_text_inv}
use kemtls.Handshake.Client.{ClientHandshake, require_ca, resolve_key, authenticate}
use kemtls.Pdk.{
  Entry, TrustStore, get_entry_by_id, matches, the_only, get_entry_by_identity,
  resolve_expected_identity,
}

-- The entry is one of the store.
abbrev pub Stored : Entry → TrustStore → Type 0
Stored entry [] = ⊥
Stored entry ((k, e) ∷ s) = (e ≡ entry) ⊎ Stored entry s

-- An entry of the store for this identity.
abbrev pub Known : Str → TrustStore → Entry → Type 0
Known identity s entry = Stored entry s × (entry.identity ≡ identity)

get-Stored : (k : Str) (s : TrustStore) {entry : Entry} → get k s ≡ some entry → Stored entry s
unfolding get
get-Stored k [] h = absurd (ground arith)
get-Stored k ((j, e) ∷ s) h = elim (Bool-cases (str_eq j k)) [
  | inl same ↦ inl (ground arith)
  | inr other ↦ inr (get-Stored k s (ground arith))
]

matches-Known :
    (identity : Str) (s : TrustStore) {entry : Entry} {rest : List Entry}
    → matches identity s ≡ entry ∷ rest
    → Known identity s entry
unfolding matches
matches-Known identity [] h = absurd (ground arith)
matches-Known identity ((k, e) ∷ s) {entry} {rest} h =
    elim (Bool-cases (str_eq e.identity identity)) [
      | inl same ↦
          let first : e ≡ entry = ground arith in
          (
            inl first,
            ap (λ (x : Entry). x.identity) (sym first) ∙ (str_eq_iff e.identity identity).0 same,
          )
      | inr other ↦
          let (stored, named) =
            matches-Known identity s {entry = entry} {rest = rest} (ground arith) in
          (inr stored, named)
    ]

the_only_inv : (found : List Entry) {entry : Entry} → the_only found ≡ ok entry → found ≡ entry ∷ []
the_only_inv [] h = absurd (ground arith)
the_only_inv (e ∷ []) h = ap (λ (x : Entry). x ∷ []) (ok_injective h)
the_only_inv (e ∷ other ∷ rest) h = absurd (ground arith)

by_identity_inv :
    (identity : Str) (s : TrustStore) {entry : Entry}
    → get_entry_by_identity identity s ≡ ok entry
    → Known identity s entry
unfolding get_entry_by_identity
by_identity_inv identity s h = matches-Known identity s (the_only_inv (matches identity s) h)

resolve-Known :
    (identity : Str) (key_id : Option Str) (s : TrustStore) {entry : Entry}
    → resolve_expected_identity identity key_id s ≡ ok entry
    → Known identity s entry
unfolding resolve_expected_identity get_entry_by_id
resolve-Known identity none s h = by_identity_inv identity s h
resolve-Known identity (some []) s h = by_identity_inv identity s h
resolve-Known identity (some (c ∷ key_id)) s {entry} h =
    let (e, found, h1) = >>=-eq-ok (get_entry_by_id (c ∷ key_id) s) _ h in
    let (u, right, same) = >>=-eq-ok (raise_if (not (str_eq e.identity identity)) _) _ h1 in
    let equal : e ≡ entry = ok_injective same in
    (
      get-Stored (c ∷ key_id) s (or_raise_inv (get (c ∷ key_id) s) _ found ∙ ap some equal),
      ap (λ (x : Entry). x.identity) (sym equal)
          ∙ (str_eq_iff e.identity identity).0
              (ground (arith, raise_if_inv (not (str_eq e.identity identity)) _ right)),
    )

resolve_key-Known :
    (identity : Str) (key_id : Json) (s : TrustStore) {entry : Entry}
    → resolve_key identity key_id s ≡ ok entry
    → Known identity s entry
resolve_key-Known identity null s h = resolve-Known identity none s h
resolve_key-Known identity (text t) s h = resolve-Known identity (some t) s h
resolve_key-Known identity (boolean b) s h = elim (Bool-cases (truthy (some (boolean b)))) [
  | inl e ↦ absurd (ground arith)
  | inr e ↦ resolve-Known identity none s (ground arith)
]
resolve_key-Known identity (number n) s h = elim (Bool-cases (truthy (some (number n)))) [
  | inl e ↦ absurd (ground arith)
  | inr e ↦ resolve-Known identity none s (ground arith)
]
resolve_key-Known identity (negative n) s h = elim (Bool-cases (truthy (some (negative n)))) [
  | inl e ↦ absurd (ground arith)
  | inr e ↦ resolve-Known identity none s (ground arith)
]
resolve_key-Known identity (object m) s h = elim (Bool-cases (truthy (some (object m)))) [
  | inl e ↦ absurd (ground arith)
  | inr e ↦ resolve-Known identity none s (ground arith)
]
resolve_key-Known identity (array i) s h = elim (Bool-cases (truthy (some (array i)))) [
  | inl e ↦ absurd (ground arith)
  | inr e ↦ resolve-Known identity none s (ground arith)
]

module _ (p : Python) (d : Signature) where
  -- A valid certificate of the client's CA for the expected identity, in baseline mode.
  pub record Certified (now : ℕ) (c : ClientHandshake) (sh : Members) (lt_pk : Bytes)
      (key_id : Json) : Type 0 where
    pub ca_pk : Bytes
    pub has_ca : c.ca_pk ≡ some ca_pk
    pub mode : find (codes "mode") sh ≡ some (text (codes "baseline"))
    pub valid : Valid p d now (or_null (find (codes "cert") sh)) ca_pk c.expected_identity lt_pk
    pub no_key_id : key_id ≡ null

  -- An entry of the client's store for the expected identity, in pre-distributed mode.
  pub record Predistributed (c : ClientHandshake) (sh : Members) (lt_pk : Bytes) (key_id : Json)
      : Type 0 where
    pub store : TrustStore
    pub has_store : c.pdk_store ≡ some store
    pub mode : find (codes "mode") sh ≡ some (text (codes "pdk"))
    pub entry : Entry
    pub known : Known c.expected_identity store entry
    pub its_key : lt_pk ≡ entry.ml_kem_public_key
    pub same_key_id : key_id ≡ or_null (find (codes "key_id") sh)

  abbrev pub Trusted : ℕ → ClientHandshake → Members → Bytes → Json → Type 0
  Trusted now c sh lt_pk key_id = Certified now c sh lt_pk key_id ⊎ Predistributed c sh lt_pk key_id

  require_ca_inv : (o : Option Bytes) {ca_pk : Bytes} → require_ca o ≡ ok ca_pk → o ≡ some ca_pk
  require_ca_inv none h = absurd (ground arith)
  require_ca_inv (some []) h = absurd (ground arith)
  require_ca_inv (some (b ∷ ca_pk)) h = ap some (ok_injective h)

  by_certificate :
      (now : ℕ) (c : ClientHandshake) (sh : Members) {trusted : Bytes × Json}
      → is_text (find (codes "mode") sh) (codes "baseline") ≡ true
      → authenticate p d now c sh ≡ ok trusted
      → Certified now c sh trusted.0 trusted.1
  unfolding authenticate
  by_certificate now c sh {trusted} baseline h =
      let cert = or_null (find (codes "cert") sh) in
      let h0 : (Error.◌>>=◌ (require_ca c.ca_pk) λ ca_pk.
        Error.◌>>=◌ (validate_certificate p d now cert ca_pk c.expected_identity)
          λ server_lt_pk. ok (server_lt_pk, null))
          ≡ ok trusted =
        ground arith in
      let (ca_pk, a, h1) = >>=-eq-ok (require_ca c.ca_pk) _ h0 in
      let (lt_pk, b, same) =
        >>=-eq-ok (validate_certificate p d now cert ca_pk c.expected_identity) _ h1 in
      let equal : (lt_pk, null) ≡ trusted = ok_injective same in
      record {
        ca_pk = ca_pk;
        has_ca = require_ca_inv c.ca_pk a;
        mode = is_text_inv (find (codes "mode") sh) (codes "baseline") baseline;
        valid =
            validate_certificate-Valid p d now cert ca_pk c.expected_identity trusted.0
              (b ∙ ap (λ (x : Bytes × Json). ok x.0) equal);
        no_key_id = sym (ap (λ (x : Bytes × Json). x.1) equal);
      }

  by_store :
      (now : ℕ) (c : ClientHandshake) (sh : Members) {trusted : Bytes × Json}
      → is_text (find (codes "mode") sh) (codes "baseline") ≡ false
      → is_text (find (codes "mode") sh) (codes "pdk") ≡ true
      → authenticate p d now c sh ≡ ok trusted
      → Predistributed c sh trusted.0 trusted.1
  unfolding authenticate
  by_store now c sh {trusted} other pdk h =
      let key_id = or_null (find (codes "key_id") sh) in
      let h0 : (Error.◌>>=◌ (or_raise c.pdk_store (value_error "PDK mode requires PDK trust store"))
            λ store.
              Error.◌>>=◌ (resolve_key c.expected_identity key_id store)
                λ entry. ok (entry.ml_kem_public_key, key_id))
          ≡ ok trusted =
        ground arith in
      let (store, a, h1) = >>=-eq-ok (or_raise c.pdk_store _) _ h0 in
      let (entry, b, same) = >>=-eq-ok (resolve_key c.expected_identity key_id store) _ h1 in
      let equal : (entry.ml_kem_public_key, key_id) ≡ trusted = ok_injective same in
      record {
        store = store;
        has_store = or_raise_inv c.pdk_store _ a;
        mode = is_text_inv (find (codes "mode") sh) (codes "pdk") pdk;
        entry = entry;
        known = resolve_key-Known c.expected_identity key_id store b;
        its_key = sym (ap (λ (x : Bytes × Json). x.0) equal);
        same_key_id = sym (ap (λ (x : Bytes × Json). x.1) equal);
      }

  pub authenticate_inv :
      (now : ℕ) (c : ClientHandshake) (sh : Members) {trusted : Bytes × Json}
      → authenticate p d now c sh ≡ ok trusted
      → Trusted now c sh trusted.0 trusted.1
  unfolding authenticate
  authenticate_inv now c sh {trusted} h =
      elim (Bool-cases (is_text (find (codes "mode") sh) (codes "baseline"))) [
        | inl baseline ↦ inl (by_certificate now c sh baseline h)
        | inr other ↦ elim (Bool-cases (is_text (find (codes "mode") sh) (codes "pdk"))) [
          | inl pdk ↦ inr (by_store now c sh other pdk h)
          | inr neither ↦ absurd (ground arith)
        ]
      ]

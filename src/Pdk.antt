-- ===== src/Pdk.antt =====
-- kemtls/pdk.py (src/kemtls): the store of pre-distributed keys.
use kemtls.Common.{not, Option, none, some, List, [], ◌∷◌, if◌then◌else◌, str_eq, Bytes, Str}
use kemtls.Common.Error.{
  value_error, key_error, Result, ok, raised, ◌>>=◌, ◌>>◌, raise_if, or_raise,
}
use kemtls.Common.Dict.{Dict, get, put, text_eq}
use kemtls.Common.Json.{Members, nothing}

-- The dictionary that is stored for a key.
pub record Entry : Type 0 where
  pub key_id : Str
  pub identity : Str
  pub ml_kem_public_key : Bytes
  pub metadata : Members

abbrev pub TrustStore : Type 0
TrustStore = Dict Str Entry

-- `metadata or {}`
abbrev pub or_empty : Option Members → Members
or_empty none = nothing
or_empty (some metadata) = metadata

unfoldable pub add_entry : Str → Str → Bytes → Option Members → TrustStore → TrustStore
add_entry key_id identity ml_kem_public_key metadata s =
    put key_id
      (record {
        key_id = key_id;
        identity = identity;
        ml_kem_public_key = ml_kem_public_key;
        metadata = or_empty metadata;
      })
      s

unfoldable pub get_entry_by_id : Str → TrustStore → Result Entry
get_entry_by_id key_id s = or_raise (get key_id s) (key_error "not found in PDK trust store")

-- `[entry for entry in self._store.values() if entry['identity'] == identity]`
unfoldable pub matches : Str → TrustStore → List Entry
matches identity [] = []
matches identity ((k, entry) ∷ s) =
    let rest = matches identity s in if str_eq entry.identity identity then entry ∷ rest else rest

abbrev pub the_only : List Entry → Result Entry
the_only [] = raised (value_error "No trusted keys found for identity")
the_only (entry ∷ []) = ok entry
the_only (entry ∷ other ∷ rest) =
    raised (value_error "Ambiguous identity: multiple keys found for identity")

unfoldable pub get_entry_by_identity : Str → TrustStore → Result Entry
get_entry_by_identity identity s = the_only (matches identity s)

-- `resolve_expected_identity`; a key id that is `None` or empty is not one.
unfoldable pub resolve_expected_identity : Str → Option Str → TrustStore → Result Entry
resolve_expected_identity identity none s = get_entry_by_identity identity s
resolve_expected_identity identity (some []) s = get_entry_by_identity identity s
resolve_expected_identity identity (some (c ∷ key_id)) s = do
  entry ← get_entry_by_id (c ∷ key_id) s
  raise_if (not (str_eq entry.identity identity)) (value_error "Identity mismatch")
  ok entry

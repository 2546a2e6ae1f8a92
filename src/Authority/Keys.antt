-- ===== src/Authority/Keys.antt =====
-- The keys that sign edges: `_authority_key_records`, `_authority_public_key`, and what the record of a
-- key says of the time of a signature.
pub mod Laws
use text.Mathlib.Text.{starts_with}
use keel_verifier.Base.{
  ℕ, String, Bool, true, false, ◌&&◌, not, Option, none, some, List, [], ◌∷◌, ltb, leb, str_eq,
  if◌then◌else◌,
}
use keel_verifier.Json.{
  Json, null, bool, int, str, arr, obj, Items, nil, cons, Fields, get, lookup, has_key, or_else, eq,
}
use keel_verifier.Trust.Window.{Stamp, parse_iso_or_none, reached}

-- `[entry for entry in xs if isinstance(entry, dict)]`
abbrev pub dicts : Items → List Fields
dicts nil = []
dicts (cons (obj d) xs) = d ∷ dicts xs
dicts (cons _ xs) = dicts xs

abbrev manifest_entries : (String → Option (List Fields)) → Option String → List Fields
manifest_entries load none = []
manifest_entries load (some source) = elim (load source) [ none ↦ [] | some entries ↦ entries ]

abbrev root_entries : Json → List Fields → List Fields
root_entries (arr xs) others = dicts xs
root_entries _ others = others

abbrev carries_id : String → Json → Bool
carries_id key_id (str s) = str_eq s key_id && not (str_eq s "")
carries_id key_id _ = false

abbrev or_entry : Option Fields → Bool → Fields → Option Fields
or_entry (some later) here entry = some later
or_entry none true entry = some entry
or_entry none false entry = none

-- `records[key_id]`: of several entries with one id, the last.
unfoldable pub record_of : List Fields → String → Option Fields
record_of [] key_id = none
record_of (entry ∷ entries) key_id =
    or_entry (record_of entries key_id) (carries_id key_id (get entry "key_id")) entry

-- `load` is `_load_key_manifest`, which gives `none` for an exception.
module _ (load : String → Option (List Fields)) where
  unfoldable pub authority_key_records : Option Fields → Option String → List Fields
  authority_key_records none source = manifest_entries load source
  authority_key_records (some root) source =
      root_entries (get root "keys") (manifest_entries load source)

abbrev pub ed25519_text : Json → Option String
ed25519_text (str s) = if starts_with s "ed25519:" then some s else none
ed25519_text _ = none

abbrev first_some : Option String → Option String → Option String
first_some none other = other
first_some (some s) other = some s

unfoldable pub authority_public_key : Fields → Option String
authority_public_key entry =
    first_some (ed25519_text (get entry "public_key_bytes")) (ed25519_text (get entry "public_key"))

abbrev dict_get : Json → String → Json
dict_get (obj d) k = get d k
dict_get _ k = null

abbrev pub valid_until : Fields → Json
valid_until entry =
    if has_key entry "valid_until" then get entry "valid_until" else get entry "valid_to"

abbrev pub same_custody : Fields → Fields → Bool
same_custody payload entry =
    eq (dict_get (get payload "signing_key") "custody_tier") (get entry "custody_tier")

-- A signature at `signed` under a key that is valid from `from`.
abbrev pub signed_within : Option ℕ → Option ℕ → Option ℕ → Bool
signed_within (some signed) (some from) until = leb from signed && not (reached until signed)
signed_within _ _ until = false

-- The two codes of `_authority_revocation_temporal_code`.
pub data TemporalCode : Type 0 where
  signed_after_revocation compromised_key_taint : TemporalCode

abbrev pub temporal_code_at : Option ℕ → Option ℕ → ℕ → Option TemporalCode
temporal_code_at revoked compromised signed =
    if reached revoked signed
    then some signed_after_revocation
    else if reached compromised signed
    then some compromised_key_taint
    else none

abbrev pub signed_code : Option ℕ → Option ℕ → Option ℕ → Option TemporalCode
signed_code none revoked compromised = none
signed_code (some signed) revoked compromised = temporal_code_at revoked compromised signed

module _ (fromisoformat : String → Option Stamp) where
  -- `_authority_signing_key_validity_code` is `None`: it has one code.
  unfoldable pub signing_key_valid : Fields → Fields → Bool
  unfolding parse_iso_or_none
  signing_key_valid payload entry =
      signed_within (parse_iso_or_none fromisoformat (get payload "signed_at"))
        (parse_iso_or_none fromisoformat
          (or_else (get entry "valid_from") (get entry "active_from")))
        (parse_iso_or_none fromisoformat (valid_until entry))
      && same_custody payload entry

  unfoldable pub revocation_temporal_code : Fields → Fields → Option TemporalCode
  unfolding parse_iso_or_none
  revocation_temporal_code payload entry =
      signed_code (parse_iso_or_none fromisoformat (get payload "signed_at"))
        (parse_iso_or_none fromisoformat (get entry "revoked_at"))
        (parse_iso_or_none fromisoformat (get entry "compromised_at"))

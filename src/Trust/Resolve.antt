-- ===== src/Trust/Resolve.antt =====
-- `_resolve_from_manifest` and `_resolve_trust_key`: which public key a signature is checked with.
-- A message of the program is a constructor with what it names.
pub mod Laws
use text.Mathlib.Text.{starts_with}
use keel_verifier.Base.{
  ℕ, String, Bool, true, false, ◌&&◌, not, Option, none, some, List, [], ◌∷◌, filter, length,
  if◌then◌else◌,
}
use keel_verifier.Json.{Json, null, bool, int, str, arr, obj, Fields, get, eq_str}
use keel_verifier.Trust.Window.{Stamp, filter_by_active_window, entry_not_terminal_at}

pub data ManifestError : Type 0 where
  no_entry_for_purpose key_id_not_found entry_has_no_key no_single_fallback fallback_has_no_key
        matching_has_no_key :
      ManifestError
  none_active several_active : ℕ → ManifestError

pub data Resolved : Type 0 where
  found : String → Fields → Resolved
  error : ManifestError → Resolved

abbrev key_of : ManifestError → Fields → Json → Resolved
key_of e entry (str k) = found k entry
key_of e entry _ = error e

-- `entry["public_key"]` if it is a text.
abbrev pub entry_key : ManifestError → Fields → Resolved
entry_key e entry = key_of e entry (get entry "public_key")

abbrev pub has_purpose : String → Fields → Bool
has_purpose purpose entry = eq_str (get entry "purpose") purpose

abbrev pub has_key_id : String → Fields → Bool
has_key_id key_id entry = eq_str (get entry "key_id") key_id

abbrev pub first_match : List Fields → Resolved
first_match [] = error key_id_not_found
first_match (entry ∷ more) = entry_key entry_has_no_key entry

abbrev pub single_fallback : List Fields → Resolved
single_fallback (entry ∷ []) = entry_key fallback_has_no_key entry
single_fallback _ = error no_single_fallback

abbrev pub single_active : ℕ → List Fields → Resolved
single_active candidates [] = error (none_active candidates)
single_active candidates (entry ∷ []) = entry_key matching_has_no_key entry
single_active candidates (e ∷ f ∷ es) = error (several_active (length (e ∷ f ∷ es)))

-- Where a trusted key comes from.
pub data Source : Type 0 where
  user_supplied self_attested : Source
  fetched : String → Source
  -- whether the source is the bundled production root, its name, and the entry's id and status
  manifest : Bool → String → Json → Json → Source

pub data TrustError : Type 0 where
  unexpected_response could_not_fetch could_not_load no_trust_key : TrustError
  in_manifest : ManifestError → TrustError
  terminal_key : Json → Json → TrustError

pub data Trust : Type 0 where
  trusted : String → Source → Trust
  untrusted : TrustError → Trust
  -- the TypeError of an unhashable status
  type_error : Trust

abbrev pub response_key : String → Json → Trust
response_key url (str k) =
    if starts_with k "ed25519:" then trusted k (fetched url) else untrusted unexpected_response
response_key url _ = untrusted unexpected_response

abbrev pub fetched_key : String → Option Json → Trust
fetched_key url none = untrusted could_not_fetch
fetched_key url (some (obj body)) = response_key url (get body "public_key")
fetched_key url (some _) = untrusted could_not_fetch

abbrev pub attested_key : Option String → Trust
attested_key none = untrusted no_trust_key
attested_key (some k) = trusted k self_attested

module _ (fromisoformat : String → Option Stamp) where
  abbrev pub by_time : List Fields → Option ℕ → Resolved
  by_time entries none = single_fallback entries
  by_time entries (some time) =
      single_active (length entries) (filter_by_active_window fromisoformat entries time)

  abbrev pub among_purpose : List Fields → Option String → Option ℕ → Resolved
  among_purpose [] key_id time = error no_entry_for_purpose
  among_purpose (e ∷ es) (some key_id) time = first_match (filter (has_key_id key_id) (e ∷ es))
  among_purpose (e ∷ es) none time = by_time (e ∷ es) time

  unfoldable pub resolve_from_manifest : List Fields → Option String → String → Option ℕ → Resolved
  resolve_from_manifest entries key_id purpose signing_time =
      among_purpose (filter (has_purpose purpose) entries) key_id signing_time

  -- The terminal check on the entry that was found, and the label of its source.
  abbrev pub admit : Bool → Bool → String → Option ℕ → Resolved → Trust
  admit reject bundled source time (error e) = untrusted (in_manifest e)
  admit false bundled source time (found k entry) =
      trusted k (manifest bundled source (get entry "key_id") (get entry "status"))
  admit true bundled source time (found k entry) =
      elim (entry_not_terminal_at fromisoformat entry time) [
        | none ↦ type_error
        | some true ↦ trusted k (manifest bundled source (get entry "key_id") (get entry "status"))
        | some false ↦ untrusted (terminal_key (get entry "key_id") (get entry "status"))
      ]

  -- The network, the manifest files and the test for the bundled root are parameters.
  module _ (fetch_json : String → Option Json) (load_key_manifest : String → Option (List Fields))
      (is_bundled_root : String → Bool) where
    abbrev pub from_manifest :
        String → Option (List Fields) → Option String → String → Option ℕ → Bool → Trust
    from_manifest source none key_id purpose time reject = untrusted could_not_load
    from_manifest source (some entries) key_id purpose time reject =
        admit reject (is_bundled_root source) source time
          (resolve_from_manifest entries key_id purpose time)

    unfoldable pub resolve_trust_key :
        (artifact_pub artifact_key_id : Option String) (purpose : String)
        (expected_public_key public_key_url key_manifest_source : Option String)
        (signing_time : Option ℕ) (reject_terminal_keys : Bool)
        → Trust
    resolve_trust_key pub_key key_id purpose (some expected) url source time reject =
        trusted expected user_supplied
    resolve_trust_key pub_key key_id purpose none (some url) source time reject =
        fetched_key url (fetch_json url)
    resolve_trust_key pub_key key_id purpose none none (some source) time reject =
        from_manifest source (load_key_manifest source) key_id purpose time reject
    resolve_trust_key pub_key key_id purpose none none none time reject = attested_key pub_key

-- ===== src/Authority/Revocation/Events.antt =====
-- Signed `key.status.v1` events: where a document carries them, what a well-formed one has, and the hash
-- that is signed.
use keel_verifier.Base.{
  String, Bool, true, false, ◌&&◌, not, Option, none, some, List, [], ◌∷◌, ◌++◌, length, ◌==◌,
  str_eq, if◌then◌else◌,
}
use text.Mathlib.Text.{starts_with}
use keel_verifier.Json.{
  Json, str, arr, obj, Fields, end, field, get, lookup, has_key, is_some, eq_str,
}
use keel_verifier.Hex.{Bytes}
use keel_verifier.Trust.Window.{parse_iso_or_none}
use keel_verifier.CoSignature.Base64Url.{is_sha256_hex}
use keel_verifier.CoSignature.Protocol.{has_exactly}
use keel_verifier.Authority.Values.{has_hash}
use keel_verifier.Authority.Keys.{dicts}
use keel_verifier.Authority.Library.{Library}

abbrev first_dict : Json → Json → Fields
first_dict (obj d) other = d
first_dict _ (obj d) = d
first_dict _ _ = end

-- `_entry_payload_any`
abbrev pub entry_payload_any : Fields → Fields
entry_payload_any entry = first_dict (get entry "payload_json") (get entry "payload")

abbrev record_entries : Fields → Json → List Fields
record_entries record_fields (arr xs) = dicts xs
record_entries record_fields _ = record_fields ∷ []

abbrev each_record : List Fields → List Fields
each_record [] = []
each_record (r ∷ rs) = record_entries r (get r "chain_entries") ++ each_record rs

abbrev list_dicts : Json → List Fields
list_dicts (arr xs) = dicts xs
list_dicts _ = []

unfoldable pub iter_export_entries : Fields → List Fields
iter_export_entries document =
    list_dicts (get document "chain_entries") ++ each_record (list_dicts (get document "records"))

abbrev is_bare_event : Fields → Bool
is_bare_event payload =
    eq_str (get payload "event_type") "key.status.v1"
    && has_key payload "signature"
    && has_key payload "status"

abbrev candidate : Json → Fields → Option Fields
candidate (obj nested) payload = some nested
candidate _ payload = if is_bare_event payload then some payload else none

abbrev of_edge : Option Fields → List Fields
of_edge none = []
of_edge (some event) = if eq_str (get event "key_scope") "authority_edge" then event ∷ [] else []

-- `_edge_status_event_from_payload`: the event, if there is one, as a list.
unfoldable pub event_from_payload : Fields → List Fields
event_from_payload payload = of_edge (candidate (get payload "key_status_event") payload)

abbrev events_of : List Fields → List Fields
events_of [] = []
events_of (d ∷ ds) = event_from_payload d ++ events_of ds

abbrev top_level : Json → List Fields
top_level (arr xs) = events_of (dicts xs)
top_level (obj d) = event_from_payload d
top_level _ = []

abbrev single : Json → List Fields
single (obj d) = event_from_payload d
single _ = []

abbrev entry_events : List Fields → List Fields
entry_events [] = []
entry_events (entry ∷ entries) =
    event_from_payload (entry_payload_any entry) ++ event_from_payload entry ++ entry_events entries

-- `_iter_edge_status_events`
unfoldable pub edge_status_events : Fields → List Fields
unfolding event_from_payload iter_export_entries
edge_status_events document =
    top_level (get document "edge_status_events")
    ++ single (get document "edge_status_event")
    ++ entry_events (iter_export_entries document)

abbrev signed_fields : List String
signed_fields =
    "event_type" ∷ "account_id" ∷ "key_scope" ∷ "key_id" ∷ "status" ∷ "revoked_at" ∷ "signer" ∷ []

abbrev pub required_fields : List String
required_fields = signed_fields ++ ("event_hash" ∷ "signature" ∷ [])

abbrev pub filled : Json → Bool
filled (str s) = not (str_eq s "")
filled _ = false

abbrev hex_digest : Json → Bool
hex_digest (str s) = is_sha256_hex s
hex_digest _ = false

-- The signer is a dict of these three keys, an Ed25519 key for permit bindings.
abbrev signer_valid : Json → Bool
signer_valid (obj signer) =
    has_exactly ("purpose" ∷ "key_id" ∷ "algorithm" ∷ []) signer
    && eq_str (get signer "purpose") "permit_binding_signing"
    && eq_str (get signer "algorithm") "ed25519"
    && filled (get signer "key_id")
signer_valid _ = false

abbrev of_64 : Option Bytes → Bool
of_64 none = false
of_64 (some bytes) = length bytes == 64

abbrev pub picked : Fields → List String → Fields
picked event [] = end
picked event (k ∷ ks) = elim (lookup k event) [
  | none ↦ picked event ks
  | some v ↦ field k v (picked event ks)
]

module _ (library : Library) where
  -- `_raw_ed25519_signature_b64`
  abbrev pub raw_signature : Json → Bool
  raw_signature (str s) = not (starts_with s "ed25519:") && of_64 (library.b64decode_strict s)
  raw_signature _ = false

  -- The checks behind the one of the status.
  abbrev pub rest_valid : Fields → Bool
  rest_valid event =
      filled (get event "account_id")
      && filled (get event "key_id")
      && hex_digest (get event "key_id")
      && is_some (parse_iso_or_none library.fromisoformat (get event "revoked_at"))
      && signer_valid (get event "signer")
      && hex_digest (get event "event_hash")
      && raw_signature (get event "signature")

  abbrev pub status_valid : Fields → Option Bool
  status_valid event =
      if has_hash (get event "status")
      then some (eq_str (get event "status") "revoked" && rest_valid event)
      else none

  abbrev opposite : Option Bool → Option Bool
  opposite none = none
  opposite (some b) = some (not b)

  abbrev pub shape_valid : Fields → Bool
  shape_valid event =
      has_exactly required_fields event
      && eq_str (get event "event_type") "key.status.v1"
      && eq_str (get event "key_scope") "authority_edge"

  -- `_edge_status_schema_error` gives a reason: it has one code. `none` is the TypeError of a status
  -- with no hash.
  unfoldable pub status_error : Fields → Option Bool
  unfolding parse_iso_or_none
  status_error event = if shape_valid event then opposite (status_valid event) else some true

  unfoldable pub canonical_hash : Fields → String
  canonical_hash event =
      library.sha256_hex (library.canonical_json (obj (picked event signed_fields)))

-- ===== src/Authority/Root/Events.antt =====
-- Signed `root.status` events of both versions: where a document carries them, and what a well-formed
-- one has.
use keel_verifier.Base.{
  ℕ, String, Bool, true, false, ◌&&◌, ◌||◌, not, Option, none, some, List, [], ◌∷◌, ◌++◌, any, all,
  ◌==◌, if◌then◌else◌,
}
use keel_verifier.Json.{Json, arr, obj, Fields, get, has_key, is_null, is_some, eq_str}
use keel_verifier.Trust.Window.{parse_iso_or_none}
use keel_verifier.CoSignature.Protocol.{has_exactly}
use keel_verifier.Authority.Values.{has_hash}
use keel_verifier.Authority.Keys.{dicts}
use keel_verifier.Authority.Library.{Library}
use keel_verifier.Authority.Revocation.Events.{
  entry_payload_any, iter_export_entries, filled, raw_signature, picked,
}

-- `v in names` for a set of texts: a value with no hash raises.
abbrev pub one_of : List String → Json → Option Bool
one_of names v = if has_hash v then some (any (eq_str v) names) else none

-- `a and b` for tests that may raise.
abbrev pub both : Option Bool → Option Bool → Option Bool
both none next = none
both (some true) next = next
both (some false) next = some false

abbrev pub root_status_values : List String
root_status_values = "active" ∷ "needs_reattestation" ∷ "suspended" ∷ []

-- The dicts of a document in which an event is looked for, in order.
abbrev listed : Json → List Fields
listed (arr xs) = dicts xs
listed (obj d) = d ∷ []
listed _ = []

abbrev alone : Json → List Fields
alone (obj d) = d ∷ []
alone _ = []

abbrev from_entries : List Fields → List Fields
from_entries [] = []
from_entries (entry ∷ entries) = entry_payload_any entry ∷ entry ∷ from_entries entries

unfoldable pub event_sources : String → String → Fields → List Fields
unfolding iter_export_entries
event_sources several one document =
    listed (get document several)
    ++ alone (get document one)
    ++ from_entries (iter_export_entries document)

abbrev if_event : Option Bool → Fields → Option (List Fields)
if_event none payload = none
if_event (some true) payload = some (payload ∷ [])
if_event (some false) payload = some []

abbrev wrapped_event : Fields → Json → List Fields
wrapped_event wrapped (obj event) = event ∷ []
wrapped_event wrapped _ = wrapped ∷ []

-- `nested`, else the event of `wrapped`, else the payload if it is an event itself.
abbrev event_in : Json → Json → Option Bool → Fields → Option (List Fields)
event_in (obj nested) wrapped test payload = some (nested ∷ [])
event_in _ (obj wrapped) test payload = some (wrapped_event wrapped (get wrapped "event"))
event_in _ _ test payload = if_event test payload

-- `_root_status_event_from_payload` and its second version: the event, if there is one, as a list.
unfoldable pub root_event_from_payload : Fields → Option (List Fields)
root_event_from_payload payload =
    event_in (get payload "root_status_event") (get payload "root_status")
      (both (one_of root_status_values (get payload "status")) (some (has_key payload "signature")))
      payload

unfoldable pub root_v2_event_from_payload : Fields → Option (List Fields)
root_v2_event_from_payload payload =
    event_in (get payload "root_status_v2_event") (get payload "root_status_v2")
      (some (
        eq_str (get payload "status") "disabled"
        && not (is_null (get payload "disabled_at"))
        && has_key payload "signature"))
      payload

abbrev append_found : Option (List Fields) → Option (List Fields) → Option (List Fields)
append_found none rest = none
append_found (some found) none = none
append_found (some found) (some rest) = some (found ++ rest)

abbrev collect : (Fields → Option (List Fields)) → List Fields → Option (List Fields)
collect extract [] = some []
collect extract (d ∷ ds) = append_found (extract d) (collect extract ds)

-- `_iter_root_status_events` and its second version; `none` is a TypeError.
unfoldable pub root_status_events : Fields → Option (List Fields)
unfolding event_sources root_event_from_payload
root_status_events document =
    collect root_event_from_payload
      (event_sources "root_status_events" "root_status_event" document)

unfoldable pub root_status_v2_events : Fields → Option (List Fields)
unfolding event_sources root_v2_event_from_payload
root_status_v2_events document =
    collect root_v2_event_from_payload
      (event_sources "root_status_v2_events" "root_status_v2_event" document)

-- The signed fields of a first version, without and with the times that are optional.
abbrev shared_fields : List String
shared_fields =
    "project_id" ∷ "root_principal_type" ∷ "root_principal_id" ∷ "actor_id" ∷ "actor_kind"
    ∷ "previous_status" ∷ "status" ∷ "status_changed_at" ∷ "effective_at" ∷ []

abbrev optional_times : List String
optional_times =
    "last_attested_at" ∷ "attestation_valid_until" ∷ "suspension_due_at" ∷ "needs_reattestation_at"
    ∷ "suspended_at" ∷ []

abbrev pub signed_fields : List String
signed_fields = shared_fields ++ optional_times

abbrev pub signed_v2_fields : List String
signed_v2_fields =
    signed_fields
    ++ ("disabled_at" ∷ "terminal_disable_reason_code" ∷ "terminal_disable_source_event_id" ∷ [])

abbrev same_times : Option ℕ → Option ℕ → Bool
same_times (some t) (some u) = t == u
same_times _ u = false

abbrev null_or : List String → Json → Option Bool
null_or names v = if is_null v then some true else one_of names v

module _ (library : Library) where
  abbrev time_of : Fields → String → Option ℕ
  time_of event name = parse_iso_or_none library.fromisoformat (get event name)

  abbrev readable : Fields → String → Bool
  readable event name = is_null (get event name) || is_some (time_of event name)

  -- The checks in front of those of the status, the same in both versions.
  abbrev pub identity_valid : List String → Fields → Option Bool
  identity_valid names event =
      both
        (some (
          has_exactly (names ++ ("signature" ∷ [])) event
          && filled (get event "project_id")
          && filled (get event "root_principal_id")
          && filled (get event "actor_id")))
        (both (one_of ("user" ∷ "service_principal" ∷ []) (get event "root_principal_type")) (
          one_of ("user" ∷ "service_account" ∷ "system" ∷ "api_key" ∷ []) (get event "actor_kind")))

  abbrev times_valid : Fields → Bool
  times_valid event =
      all (readable event) optional_times && raw_signature library (get event "signature")

  -- `_root_status_schema_error` gives no reason.
  unfoldable pub root_event_valid : Fields → Option Bool
  unfolding parse_iso_or_none
  root_event_valid event = both (identity_valid signed_fields event) (
      both (one_of root_status_values (get event "status")) (
        both (null_or root_status_values (get event "previous_status")) (
          some (
            same_times (time_of event "status_changed_at") (time_of event "effective_at")
            && times_valid event))))

  -- `_root_status_v2_schema_error` gives no reason.
  unfoldable pub root_v2_event_valid : Fields → Option Bool
  unfolding parse_iso_or_none
  root_v2_event_valid event = both (identity_valid signed_v2_fields event) (
      both (some (eq_str (get event "status") "disabled")) (
        both (null_or (root_status_values ++ ("disabled" ∷ [])) (get event "previous_status")) (
          some (
            same_times (time_of event "status_changed_at") (time_of event "effective_at")
            && same_times (time_of event "disabled_at") (time_of event "effective_at")
            && filled (get event "terminal_disable_reason_code")
            && filled (get event "terminal_disable_source_event_id")
            && times_valid event))))

  -- `_root_status_canonical_hash` and its second version, by the fields that are signed.
  unfoldable pub root_hash : List String → Fields → String
  root_hash names event = library.sha256_hex (library.canonical_json (obj (picked event names)))

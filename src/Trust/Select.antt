-- ===== src/Trust/Select.antt =====
-- `_select_pinned_trust_key`: the one entry for a key id and a purpose that is active and not
-- terminal at the signing time.
pub mod Laws
use text.Mathlib.Text.{starts_with}
use keel_verifier.Base.{
  ℕ, String, Bool, true, false, ◌&&◌, Option, none, some, List, [], ◌∷◌, filter, if◌then◌else◌,
}
use keel_verifier.Json.{Json, null, bool, int, str, arr, obj, Fields, get, eq_str}
use keel_verifier.Trust.Window.{Stamp, filter_by_active_window, entry_not_terminal_at}

-- The two messages of the function, and the TypeError of an unhashable status.
pub data Selected : Type 0 where
  key : String → Selected
  no_unique_key not_ed25519 type_error : Selected

abbrev pub keep_if : Option Bool → Fields → Option (List Fields) → Option (List Fields)
keep_if none entry rest = none
keep_if (some true) entry none = none
keep_if (some true) entry (some es) = some (entry ∷ es)
keep_if (some false) entry rest = rest

abbrev pub matches : String → String → Fields → Bool
matches key_id purpose entry =
    eq_str (get entry "key_id") key_id && eq_str (get entry "purpose") purpose

abbrev ed25519_key : Json → Selected
ed25519_key (str s) = if starts_with s "ed25519:" then key s else not_ed25519
ed25519_key _ = not_ed25519

abbrev pub only_key : Option (List Fields) → Selected
only_key none = type_error
only_key (some (entry ∷ [])) = ed25519_key (get entry "public_key")
only_key (some _) = no_unique_key

module _ (fromisoformat : String → Option Stamp) where
  unfoldable pub not_terminal_entries : Option ℕ → List Fields → Option (List Fields)
  not_terminal_entries time [] = some []
  not_terminal_entries time (entry ∷ entries) =
      keep_if (entry_not_terminal_at fromisoformat entry time) entry
        (not_terminal_entries time entries)

  abbrev pub active : List Fields → Option ℕ → List Fields
  active entries none = entries
  active entries (some time) = filter_by_active_window fromisoformat entries time

  unfoldable pub select_pinned_trust_key : List Fields → String → String → Option ℕ → Selected
  unfolding not_terminal_entries
  select_pinned_trust_key entries key_id purpose signing_time = only_key (
      not_terminal_entries signing_time
        (active (filter (matches key_id purpose) entries) signing_time))

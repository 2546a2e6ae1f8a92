-- ===== src/Authority/Signer.antt =====
-- Who may sign a status event: `_permit_binding_key_candidates`, and the test of a signature with each
-- of the keys, which the claims on edges and on roots share.
pub mod Laws
use keel_verifier.Base.{
  ℕ, String, Bool, true, false, ◌&&◌, Option, none, some, List, [], ◌∷◌, any, filter, str_eq,
  if◌then◌else◌,
}
use keel_verifier.Json.{Json, null, bool, int, str, arr, obj, Fields, get, is_str, eq_str}
use keel_verifier.Trust.Window.{filter_by_active_window}
use keel_verifier.Authority.Library.{Library, verify_ed25519}

-- What one event says: its evidence is missing or invalid, it is about something else, it took effect
-- at a time, or it raises.
pub data Judged : Type 0 where
  missing unrelated raises : Judged
  effective : ℕ → Judged

abbrev or_source : Option String → Option String → Option String
or_source none other = other
or_source (some source) other = if str_eq source "" then other else some source

abbrev pub binds_permits : Fields → Bool
binds_permits entry =
    eq_str (get entry "purpose") "permit_binding_signing" && is_str (get entry "public_key")

abbrev unless_none : List Fields → Option (List Fields)
unless_none [] = none
unless_none (e ∷ es) = some (e ∷ es)

abbrev pub public_key_of : Fields → String
public_key_of entry = elim (get entry "public_key") [ str s ↦ s | _ ↦ "" ]

-- `load` is `_load_key_manifest`, and `trusted` the cached or the bundled manifest, if there is one.
module _ (library : Library) (load : String → Option (List Fields)) (trusted : Option String) where
  abbrev pub active_candidates : Option (List Fields) → ℕ → Option (List Fields)
  active_candidates none time = none
  active_candidates (some entries) time =
      unless_none
        (filter_by_active_window library.fromisoformat (filter binds_permits entries) time)

  -- `_permit_binding_key_candidates` at a time; `none` is an error message.
  unfoldable pub permit_binding_key_candidates : Option String → ℕ → Option (List Fields)
  permit_binding_key_candidates source time = elim (or_source source trusted) [
    | none ↦ none
    | some found ↦ active_candidates (load found) time
  ]

module _ (library : Library) where
  abbrev pub signs : String → Fields → Fields → Bool
  signs hash event candidate =
      verify_ed25519 library (public_key_of candidate) (library.encode_utf8 hash)
        (library.text_of (get event "signature"))

  -- The event is effective at its time when a candidate has signed its hash.
  abbrev pub check_signer : String → Fields → ℕ → Option (List Fields) → Judged
  check_signer hash event time none = missing
  check_signer hash event time (some candidates) =
      if any (signs hash event) candidates then effective time else missing

-- ===== src/Examples/Keys.antt =====
-- A manifest of one key, valid for a year and revoked at its end.
use text.Mathlib.Text.{starts_with}
use keel_verifier.Base.{
  ◌≡◌, String, refl, true, false, Bool, Option, none, some, List, [], ◌∷◌, str_eq, strip, lstrip,
  rstrip, is_space, ends_with, drop_last, if◌then◌else◌,
}
use keel_verifier.Json.{Json, str, Fields, end, field, get}
use keel_verifier.Trust.Window.{
  Stamp, aware, covers, entry_not_terminal_at, parse_iso_or_none, parse_text, within, status_allows,
  filter_by_active_window,
}
use keel_verifier.Trust.Window.Laws.{IsAlive}
use keel_verifier.Trust.Select.{key, select_pinned_trust_key, not_terminal_entries}
use keel_verifier.Trust.Select.Laws.{Among, IsEligible, select-IsEligible}
use keel_verifier.Trust.Resolve.{
  found, resolve_from_manifest, resolve_trust_key, trusted, manifest, self_attested,
}
use keel_verifier.Trust.Resolve.Laws.{
  Answers, resolve_from_manifest-Answers, resolve_trust_key-IsAlive, self_attested_only,
}

abbrev clock : String → Option Stamp
clock s =
    if str_eq s "2026-01-01"
    then some (aware 10)
    else if str_eq s "2027-01-01"
    then some (aware 20)
    else none

abbrev entry : Fields
entry = field "key_id" (str "k1") (
    field "purpose" (str "export") (
      field "public_key" (str "ed25519:AA") (
        field "valid_from" (str "2026-01-01") (
          field "valid_to" (str "2027-01-01")
            (field "revoked_at" (str "2027-01-01") (field "status" (str "active") end))))))

selected : select_pinned_trust_key clock (entry ∷ []) "k1" "export" (some 15) ≡ key "ed25519:AA"
unfolding select_pinned_trust_key filter_by_active_window not_terminal_entries covers
    entry_not_terminal_at parse_iso_or_none parse_text strip lstrip rstrip is_space ends_with
    drop_last within status_allows
selected = refl

select-IsEligible_example :
    (e : Fields) × Among e (entry ∷ [])
    × IsEligible clock "k1" "export" 15 e
    × (get e "public_key" ≡ str "ed25519:AA")
    × (starts_with "ed25519:AA" "ed25519:" ≡ true)
select-IsEligible_example =
    select-IsEligible clock (entry ∷ []) "k1" "export" 15 "ed25519:AA" selected

resolved :
    resolve_from_manifest clock (entry ∷ []) none "export" (some 15) ≡ found "ed25519:AA" entry
unfolding resolve_from_manifest filter_by_active_window covers parse_iso_or_none parse_text strip
    lstrip rstrip is_space ends_with drop_last within
resolved = refl

resolve_from_manifest-Answers_example :
    Among entry (entry ∷ [])
    × (get entry "public_key" ≡ str "ed25519:AA")
    × (get entry "purpose" ≡ str "export")
    × Answers clock none (some 15) entry
resolve_from_manifest-Answers_example =
    resolve_from_manifest-Answers clock (entry ∷ []) none "export" (some 15) "ed25519:AA" entry
      resolved

abbrev no_fetch : String → Option Json
no_fetch url = none

abbrev manifests : String → Option (List Fields)
manifests source = if str_eq source "keys.json" then some (entry ∷ []) else none

abbrev no_root : String → Bool
no_root source = false

resolved_alive :
    resolve_trust_key clock no_fetch manifests no_root none
      (some "k1")
      "export"
      none
      none
      (some "keys.json")
      (some 15)
      true
    ≡ trusted "ed25519:AA" (manifest false "keys.json" (str "k1") (str "active"))
unfolding resolve_trust_key resolve_from_manifest covers entry_not_terminal_at parse_iso_or_none
    parse_text strip lstrip rstrip is_space ends_with drop_last within status_allows
resolved_alive = refl

resolve_trust_key-IsAlive_example :
    (e : Fields) × Among e (entry ∷ [])
    × (get e "public_key" ≡ str "ed25519:AA")
    × (get e "purpose" ≡ str "export")
    × IsAlive clock 15 e
resolve_trust_key-IsAlive_example =
    resolve_trust_key-IsAlive clock no_fetch manifests no_root none (some "k1") "export" "keys.json"
      15 "ed25519:AA" (manifest false "keys.json" (str "k1") (str "active")) (entry ∷ []) refl
      resolved_alive

attested :
    resolve_trust_key clock no_fetch manifests no_root
      (some "ed25519:BB")
      none
      "export"
      none
      none
      none
      none
      true
    ≡ trusted "ed25519:BB" self_attested
unfolding resolve_trust_key
attested = refl

self_attested_only_example :
    (◌≡◌ {A = Option String} (some "ed25519:BB") (some "ed25519:BB"))
    × (◌≡◌ {A = Option String} none none)
    × (◌≡◌ {A = Option String} none none)
    × (◌≡◌ {A = Option String} none none)
self_attested_only_example =
    self_attested_only clock no_fetch manifests no_root (some "ed25519:BB") none "export" none none
      none none true "ed25519:BB" attested

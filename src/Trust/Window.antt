-- ===== src/Trust/Window.antt =====
-- The time window and the terminal states of a manifest entry.
pub mod Laws
use Prim.Native.String.{◌++◌ as ◌<>◌}
use keel_verifier.Base.{
  ℕ, String, Bool, true, false, ◌&&◌, ◌||◌, not, Option, none, some, List, [], ◌∷◌, leb, ltb,
  str_eq, strip, ends_with, drop_last, filter, if◌then◌else◌,
}
use keel_verifier.Json.{Json, null, bool, int, str, arr, obj, Fields, get, lookup, eq_str}

-- What `datetime.fromisoformat` reads: an instant, or a wall time with no zone.
pub data Stamp : Type 0 where
  aware : ℕ → Stamp
  naive : ℕ → Stamp

abbrev pub instant : Option Stamp → Option ℕ
instant none = none
instant (some (aware t)) = some t
instant (some (naive t)) = some t

-- A bound of an entry's window: absent or null, an instant, or unreadable.
pub data Bound : Type 0 where
  unbounded : Bound
  at : ℕ → Bound
  malformed : Bound

abbrev pub read_bound : Option ℕ → Bound
read_bound none = malformed
read_bound (some t) = at t

-- Whether a signing time lies on the right side of the two bounds.
unfoldable pub within : Bound → Bound → ℕ → Bool
within malformed upper t = false
within unbounded malformed t = false
within unbounded unbounded t = true
within unbounded (at hi) t = not (ltb hi t)
within (at lo) malformed t = false
within (at lo) unbounded t = not (ltb t lo)
within (at lo) (at hi) t = if ltb t lo then false else not (ltb hi t)

-- `status not in {"revoked", "compromised"}`: a list or a dict has no hash, and raises a TypeError.
unfoldable pub status_allows : Json → Option Bool
status_allows (str s) = some (not (str_eq s "revoked" || str_eq s "compromised"))
status_allows (arr xs) = none
status_allows (obj d) = none
status_allows null = some true
status_allows (bool b) = some true
status_allows (int n) = some true

-- `at is not None and at <= time`
abbrev pub reached : Option ℕ → ℕ → Bool
reached none time = false
reached (some t) time = leb t time

module _ (fromisoformat : String → Option Stamp) where
  unfoldable pub parse_text : String → Option ℕ
  unfolding strip ends_with drop_last
  parse_text s =
      let text = strip s in
      if str_eq text ""
      then none
      else instant (fromisoformat (if ends_with text "Z" then drop_last text <> "+00:00" else text))

  unfoldable pub parse_iso_or_none : Json → Option ℕ
  unfolding parse_text
  parse_iso_or_none (str s) = parse_text s
  parse_iso_or_none _ = none

  abbrev pub bound : Option Json → Bound
  bound none = unbounded
  bound (some null) = unbounded
  bound (some v) = read_bound (parse_iso_or_none v)

  unfoldable pub covers : ℕ → Fields → Bool
  unfolding within
  covers signing_time entry =
      within (bound (lookup "valid_from" entry)) (bound (lookup "valid_to" entry)) signing_time

  unfoldable pub filter_by_active_window : List Fields → ℕ → List Fields
  filter_by_active_window entries signing_time = filter (covers signing_time) entries

  -- `none` is the TypeError of an unhashable status.
  unfoldable pub entry_not_terminal_at : Fields → Option ℕ → Option Bool
  unfolding status_allows
  entry_not_terminal_at entry none = status_allows (get entry "status")
  entry_not_terminal_at entry (some time) =
      if reached (parse_iso_or_none (get entry "revoked_at")) time
      then some false
      else if reached (parse_iso_or_none (get entry "compromised_at")) time
      then some false
      else status_allows (get entry "status")

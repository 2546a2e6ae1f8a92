-- ===== src/Trust/Window/Laws.antt =====
-- What the window and the terminal test let through.
use keel_verifier.Base.{ℕ, String, ◌≡◌, ◌≢◌, ◌≤◌, ◌<◌, refl, ◌↔◌, true, Option, some, arith}
use keel_verifier.Json.{Json, str, Fields, get, lookup}
use keel_verifier.Trust.Window.{
  Stamp, Bound, unbounded, at, malformed, within, status_allows, parse_iso_or_none, bound, covers,
  entry_not_terminal_at,
}

-- A lower and an upper bound, as orders.
abbrev pub Starts : Bound → ℕ → Type 0
Starts unbounded t = Unit
Starts (at lo) t = lo ≤ t
Starts malformed t = ⊥

abbrev pub Ends : Bound → ℕ → Type 0
Ends unbounded t = Unit
Ends (at hi) t = t ≤ hi
Ends malformed t = ⊥

within_iff : (a b : Bound) (t : ℕ) → (within a b t ≡ true) ↔ (Starts a t × Ends b t)
unfolding within
within_iff unbounded unbounded t = (λ h. (tt, tt), λ h. refl)
within_iff unbounded (at hi) t = (λ h. (tt, ground arith), λ (_, h). ground arith)
within_iff (at lo) unbounded t = (λ h. (ground arith, tt), λ (h, _). ground arith)
within_iff (at lo) (at hi) t = (λ h. (ground arith, ground arith), λ (h, k). ground arith)
within_iff unbounded malformed t = (λ h. cc, λ (_, h). absurd h)
within_iff (at lo) malformed t = (λ h. cc, λ (_, h). absurd h)
within_iff malformed b t = (λ h. cc, λ (h, _). absurd h)

-- The status is neither of the two terminal ones.
pub record IsStatusAlive (status : Json) : Type 0 where
  pub not_named_revoked : status ≢ str "revoked"
  pub not_named_compromised : status ≢ str "compromised"

status_allows-IsStatusAlive :
    (status : Json) → status_allows status ≡ some true → IsStatusAlive status
unfolding status_allows
status_allows-IsStatusAlive status h = record {
  not_named_revoked = λ e. cc (rw e at h);
  not_named_compromised = λ e. cc (rw e at h);
}

-- What a key that is alive at a time has: no readable date of revocation or compromise by then, and a
-- status that is neither.
pub record IsAlive (fromisoformat : String → Option Stamp) (time : ℕ) (entry : Fields)
    : Type 0 where
  pub not_revoked :
      (r : ℕ) → parse_iso_or_none fromisoformat (get entry "revoked_at") ≡ some r → time < r
  pub not_compromised :
      (r : ℕ) → parse_iso_or_none fromisoformat (get entry "compromised_at") ≡ some r → time < r
  pub status_alive : IsStatusAlive (get entry "status")

module _ (fromisoformat : String → Option Stamp) where
  -- The window covers a time exactly when the time is neither before its start nor after its end,
  -- where a bound that is absent or null is open and one that cannot be read covers nothing.
  pub covers_iff :
      (t : ℕ) (entry : Fields)
      → (covers fromisoformat t entry ≡ true) ↔ (
          Starts (bound fromisoformat (lookup "valid_from" entry)) t
          × Ends (bound fromisoformat (lookup "valid_to" entry)) t)
  unfolding covers
  covers_iff t entry = within_iff _ _ t

  -- An entry that passes the terminal test at a time was neither revoked nor compromised by then,
  -- and its status says neither.
  pub entry_not_terminal_at-true :
      (entry : Fields) (time : ℕ)
      → entry_not_terminal_at fromisoformat entry (some time) ≡ some true
      → ((r : ℕ) → parse_iso_or_none fromisoformat (get entry "revoked_at") ≡ some r → time < r)
        × ((r : ℕ)
            → parse_iso_or_none fromisoformat (get entry "compromised_at") ≡ some r
            → time < r)
        × (status_allows (get entry "status") ≡ some true)
  unfolding entry_not_terminal_at
  entry_not_terminal_at-true entry time h = (λ r e. ground arith, λ r e. ground arith, ground arith)

  pub not_terminal-IsAlive :
      (entry : Fields) (time : ℕ)
      → entry_not_terminal_at fromisoformat entry (some time) ≡ some true
      → IsAlive fromisoformat time entry
  not_terminal-IsAlive entry time h =
      let n = entry_not_terminal_at-true entry time h in
      record {
        not_revoked = n.0;
        not_compromised = n.1;
        status_alive = status_allows-IsStatusAlive _ n.2;
      }

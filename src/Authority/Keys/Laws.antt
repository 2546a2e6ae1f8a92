-- ===== src/Authority/Keys/Laws.antt =====
-- When a key was good for a signature.
use keel_verifier.Base.{ℕ, String, ◌≡◌, ◌≤◌, ◌<◌, refl, true, Option, none, some, arith, &&-eq-true}
use keel_verifier.Json.{Fields, get, or_else}
use keel_verifier.Trust.Window.{Stamp, parse_iso_or_none}
use keel_verifier.Authority.Keys.{valid_until, same_custody, signed_within, signing_key_valid}

-- The signature lies in the window of the key, whose custody tier is the signed one.
pub record WasValid (fromisoformat : String → Option Stamp) (payload entry : Fields) : Type 0 where
  pub signed : ℕ
  pub from : ℕ
  pub signed_at : parse_iso_or_none fromisoformat (get payload "signed_at") ≡ some signed
  pub valid_from :
      parse_iso_or_none fromisoformat (or_else (get entry "valid_from") (get entry "active_from"))
      ≡ some from
  pub after_start : from ≤ signed
  pub before_end :
      (u : ℕ) → parse_iso_or_none fromisoformat (valid_until entry) ≡ some u → signed < u
  pub custody : same_custody payload entry ≡ true

signed_within-true :
    (s f u : Option ℕ)
    → signed_within s f u ≡ true
    → (signed : ℕ) × (from : ℕ) × (s ≡ some signed)
      × (f ≡ some from)
      × (from ≤ signed)
      × ((t : ℕ) → u ≡ some t → signed < t)
signed_within-true none f u h = cc
signed_within-true (some s) none u h = cc
signed_within-true (some s) (some f) none h = (s, f, refl, refl, ground arith, λ t e. cc)
signed_within-true (some s) (some f) (some u) h =
    let less : s < u = ground arith in (s, f, refl, refl, ground arith, λ t e. ground arith)

pub signing_key_valid-WasValid :
    (fromisoformat : String → Option Stamp) (payload entry : Fields)
    → signing_key_valid fromisoformat payload entry ≡ true
    → WasValid fromisoformat payload entry
unfolding signing_key_valid
signing_key_valid-WasValid fromisoformat payload entry h =
    let both = &&-eq-true _ _ h in
    let (signed, from, s, f, a, b) = signed_within-true _ _ _ both.0 in
    record {
      signed = signed;
      from = from;
      signed_at = s;
      valid_from = f;
      after_start = a;
      before_end = b;
      custody = both.1;
    }

-- ===== src/Trust/Select/Laws.antt =====
-- The pinned key that is selected comes from an entry of the list that was entitled to sign then.
use mathlib.Core.Path.{subst}
use text.Mathlib.Text.{starts_with}
use keel_verifier.Base.{
  ℕ, String, ◌≡◌, refl, ◌⊎◌, inl, inr, Bool, true, false, Option, none, some, List, [], ◌∷◌, filter,
  Bool-cases, &&-eq-true,
}
use keel_verifier.Json.{Json, null, str, Fields, get, eq_str-eq}
use keel_verifier.Trust.Window.{Stamp, covers, filter_by_active_window, entry_not_terminal_at}
use keel_verifier.Trust.Window.Laws.{IsAlive, not_terminal-IsAlive}
use keel_verifier.Trust.Select.{
  key, keep_if, matches, only_key, ed25519_key, not_terminal_entries, select_pinned_trust_key,
}

-- `entry` stands in the list.
abbrev pub Among : {A : Type 0} → A → List A → Type 0
Among a [] = ⊥
Among a (x ∷ xs) = (a ≡ x) ⊎ Among a xs

Among-cons :
    {A : Type 0} (Q : A → Type 0) (a x : A) (xs r : List A)
    → Q x
    → (Among a r → Among a xs × Q a)
    → Among a (x ∷ r)
    → Among a (x ∷ xs) × Q a
Among-cons Q a x xs r q rest (inl h) = (inl h, rw h q)
Among-cons Q a x xs r q rest (inr h) = (inr (rest h).0, (rest h).1)

-- What a filter keeps stood in the list and passes the test.
pub Among-filter :
    {A : Type 0} (p : A → Bool) (a : A) (xs : List A)
    → Among a (filter p xs)
    → Among a xs × (p a ≡ true)
Among-filter p a [] h = absurd h
Among-filter p a (x ∷ xs) h = elim (Bool-cases (p x)) [
  | inl e ↦ Among-cons (λ b. p b ≡ true) a x xs _ e (Among-filter p a xs) (rw e at h)
  | inr e ↦ let rest = Among-filter p a xs (rw e at h) in (inr rest.0, rest.1)
]

-- A test that every item fails keeps nothing.
pub filter-nil :
    {A : Type 0} (p : A → Bool) (xs : List A)
    → ((a : A) → Among a xs → p a ≡ false)
    → filter p xs ≡ []
filter-nil p [] h = refl
filter-nil p (x ∷ xs) h = rw (h x (inl refl)) (filter-nil p xs (λ a m. h a (inr m)))

keep_if-cases :
    (o : Option Bool) (e : Fields) (rest : Option (List Fields)) (es : List Fields)
    → keep_if o e rest ≡ some es
    → ((o ≡ some true) × (r : List Fields) × (rest ≡ some r) × (es ≡ e ∷ r))
      ⊎ ((o ≡ some false) × (rest ≡ some es))
keep_if-cases none e rest es h = cc
keep_if-cases (some true) e none es h = cc
keep_if-cases (some true) e (some r) es h = inl (refl, r, refl, cc)
keep_if-cases (some false) e rest es h = inr (refl, h)

module _ (fromisoformat : String → Option Stamp) (time : Option ℕ) where
  Among-not_terminal_entries :
      (a : Fields) (xs es : List Fields)
      → not_terminal_entries fromisoformat time xs ≡ some es
      → Among a es
      → Among a xs × (entry_not_terminal_at fromisoformat a time ≡ some true)
  unfolding not_terminal_entries
  Among-not_terminal_entries a [] [] h m = absurd m
  Among-not_terminal_entries a [] (x ∷ es) h m = cc
  Among-not_terminal_entries a (x ∷ xs) es h m =
      split (keep_if-cases _ x (not_terminal_entries fromisoformat time xs) es h)
        (Among-not_terminal_entries a xs)
    where
      split :
          ((entry_not_terminal_at fromisoformat x time ≡ some true)
              × (r : List Fields) × (not_terminal_entries fromisoformat time xs ≡ some r)
              × (es ≡ x ∷ r))
            ⊎ ((entry_not_terminal_at fromisoformat x time ≡ some false)
                × (not_terminal_entries fromisoformat time xs ≡ some es))
          → ((r : List Fields)
              → not_terminal_entries fromisoformat time xs ≡ some r
              → Among a r
              → Among a xs × (entry_not_terminal_at fromisoformat a time ≡ some true))
          → Among a (x ∷ xs) × (entry_not_terminal_at fromisoformat a time ≡ some true)
      split (inr (t, e)) ih = let q = ih es e m in (inr q.0, q.1)
      split (inl (t, r, e, f)) ih =
          Among-cons (λ b. entry_not_terminal_at fromisoformat b time ≡ some true) a x xs r t
            (ih r e) (subst (Among a) f m)

-- What makes an entry eligible at a signing time.
pub record IsEligible (fromisoformat : String → Option Stamp) (key_id purpose : String) (time : ℕ)
    (entry : Fields) : Type 0 where
  pub has_key_id : get entry "key_id" ≡ str key_id
  pub has_purpose : get entry "purpose" ≡ str purpose
  pub covered : covers fromisoformat time entry ≡ true
  pub alive : IsAlive fromisoformat time entry

ed25519_key-eq-key :
    (v : Json) (k : String)
    → ed25519_key v ≡ key k
    → (v ≡ str k) × (starts_with k "ed25519:" ≡ true)
ed25519_key-eq-key (str s) k h = elim (Bool-cases (starts_with s "ed25519:")) [
  | inl w ↦ let e : s ≡ k = cc (rw w at h) in (cc e, rw (← e) w)
  | inr w ↦ cc (rw w at h)
]
ed25519_key-eq-key null k h = cc
ed25519_key-eq-key _ k h = cc

only_key-eq-key :
    (o : Option (List Fields)) (k : String)
    → only_key o ≡ key k
    → (e : Fields) × (o ≡ some (e ∷ []))
      × (get e "public_key" ≡ str k)
      × (starts_with k "ed25519:" ≡ true)
only_key-eq-key none k h = cc
only_key-eq-key (some []) k h = cc
only_key-eq-key (some (e ∷ [])) k h = let r = ed25519_key-eq-key _ k h in (e, refl, r.0, r.1)
only_key-eq-key (some (e ∷ f ∷ es)) k h = cc

module _ (fromisoformat : String → Option Stamp) (entries : List Fields) (key_id purpose : String)
    (time : ℕ) where
  IsEligible-filter :
      (e : Fields) (es : List Fields)
      → not_terminal_entries fromisoformat
          (some time)
          (filter_by_active_window fromisoformat (filter (matches key_id purpose) entries) time)
        ≡ some es
      → Among e es
      → Among e entries × IsEligible fromisoformat key_id purpose time e
  unfolding filter_by_active_window
  IsEligible-filter e es h m =
      let alive = Among-not_terminal_entries fromisoformat (some time) e _ es h m in
      let timely = Among-filter (covers fromisoformat time) e _ alive.0 in
      let named = Among-filter (matches key_id purpose) e entries timely.0 in
      let ids = &&-eq-true _ _ named.1 in
      (
        named.0,
        record {
          has_key_id = eq_str-eq _ _ ids.0;
          has_purpose = eq_str-eq _ _ ids.1;
          covered = timely.1;
          alive = not_terminal-IsAlive fromisoformat e time alive.1;
        },
      )

  -- A selected key is the Ed25519 public key of an entry of the list with that id and that purpose,
  -- active at the signing time, with no readable date of revocation or compromise by then and a status
  -- that is neither.
  pub select-IsEligible :
      (k : String)
      → select_pinned_trust_key fromisoformat entries key_id purpose (some time) ≡ key k
      → (e : Fields) × Among e entries
        × IsEligible fromisoformat key_id purpose time e
        × (get e "public_key" ≡ str k)
        × (starts_with k "ed25519:" ≡ true)
  unfolding select_pinned_trust_key
  select-IsEligible k h =
      let (e, s, p, w) = only_key-eq-key _ k h in
      let q = IsEligible-filter e (e ∷ []) s (inl refl) in (e, q.0, q.1, p, w)

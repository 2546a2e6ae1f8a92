-- ===== src/Trust/Resolve/Laws.antt =====
-- Which entry of a manifest a key comes from, and when a key comes from elsewhere.
use text.Mathlib.Text.{starts_with}
use keel_verifier.Base.{
  ℕ, String, ◌≡◌, ◌≢◌, refl, sym, inl, inr, Bool, true, false, Option, none, some, List, [], ◌∷◌,
  arith, filter, Bool-cases,
}
use keel_verifier.Json.{Json, null, str, obj, Fields, get, eq_str-eq}
use keel_verifier.Trust.Window.{Stamp, covers, filter_by_active_window, entry_not_terminal_at}
use keel_verifier.Trust.Window.Laws.{IsAlive, not_terminal-IsAlive}
use keel_verifier.Trust.Select.Laws.{Among, Among-filter}
use keel_verifier.Trust.Resolve.{
  ManifestError, Resolved, found, error, key_of, entry_key, has_purpose, has_key_id, first_match,
  single_fallback, single_active, among_purpose, resolve_from_manifest, Source, self_attested,
  fetched, response_key, fetched_key, trusted, admit, from_manifest, resolve_trust_key,
}

response_key-source :
    (url : String) (v : Json) (k : String) (s : Source)
    → response_key url v ≡ trusted k s
    → s ≡ fetched url
response_key-source url (str x) k s h = elim (Bool-cases (starts_with x "ed25519:")) [
  | inl w ↦ cc (rw w at h)
  | inr w ↦ cc (rw w at h)
]
response_key-source url null k s h = cc
response_key-source url _ k s h = cc

fetched_key-source :
    (url : String) (o : Option Json) (k : String) (s : Source)
    → fetched_key url o ≡ trusted k s
    → s ≡ fetched url
fetched_key-source url none k s h = cc
fetched_key-source url (some (obj body)) k s h =
    response_key-source url (get body "public_key") k s h
fetched_key-source url (some _) k s h = cc

key_of-eq-found :
    (e : ManifestError) (entry entry' : Fields) (v : Json) (k : String)
    → key_of e entry v ≡ found k entry'
    → (v ≡ str k) × (entry ≡ entry')
key_of-eq-found e entry entry' (str s) k h = (cc, cc)
key_of-eq-found e entry entry' null k h = cc
key_of-eq-found e entry entry' _ k h = cc

-- What a resolution rests on: the entry stands among the candidates and carries the key.
abbrev Carries : List Fields → String → Fields → Type 0
Carries entries k entry = Among entry entries × (get entry "public_key" ≡ str k)

Carries-head :
    (err : ManifestError) (e entry : Fields) (es : List Fields) (k : String)
    → entry_key err e ≡ found k entry
    → Carries (e ∷ es) k entry
Carries-head err e entry es k h =
    let r = key_of-eq-found err e entry (get e "public_key") k h in (inl (sym r.1), rw (← r.1) r.0)

Carries-cons :
    (entry : Fields) (e : Fields) (es : List Fields) (k : String)
    → Carries es k entry
    → Carries (e ∷ es) k entry
Carries-cons entry e es k (m, p) = (inr m, p)

first_match-Carries :
    (es : List Fields) (k : String) (entry : Fields)
    → first_match es ≡ found k entry
    → Carries es k entry
first_match-Carries [] k entry h = cc
first_match-Carries (e ∷ es) k entry h = Carries-head _ e entry es k h

single_fallback-Carries :
    (es : List Fields) (k : String) (entry : Fields)
    → single_fallback es ≡ found k entry
    → Carries es k entry
single_fallback-Carries [] k entry h = cc
single_fallback-Carries (e ∷ []) k entry h = Carries-head _ e entry [] k h
single_fallback-Carries (e ∷ f ∷ es) k entry h = cc

single_active-Carries :
    (n : ℕ) (es : List Fields) (k : String) (entry : Fields)
    → single_active n es ≡ found k entry
    → Carries es k entry
single_active-Carries n [] k entry h = cc
single_active-Carries n (e ∷ []) k entry h = Carries-head _ e entry [] k h
single_active-Carries n (e ∷ f ∷ es) k entry h = cc

module _ (fromisoformat : String → Option Stamp) where
  -- What the lookup by key id, and the lookup by time, ask of the entry.
  abbrev pub Answers : Option String → Option ℕ → Fields → Type 0
  Answers (some key_id) time entry = get entry "key_id" ≡ str key_id
  Answers none (some time) entry = covers fromisoformat time entry ≡ true
  Answers none none entry = Unit

  among_purpose-Answers :
      (es : List Fields) (key_id : Option String) (time : Option ℕ) (k : String) (entry : Fields)
      → among_purpose fromisoformat es key_id time ≡ found k entry
      → Carries es k entry × Answers key_id time entry
  among_purpose-Answers [] key_id time k entry h = cc
  among_purpose-Answers (e ∷ es) (some key_id) time k entry h =
      let c = first_match-Carries _ k entry h in
      let f = Among-filter (has_key_id key_id) entry (e ∷ es) c.0 in ((f.0, c.1), eq_str-eq _ _ f.1)
  among_purpose-Answers (e ∷ es) none none k entry h =
      (single_fallback-Carries (e ∷ es) k entry h, tt)
  among_purpose-Answers (e ∷ es) none (some time) k entry h =
      let c =
        single_active-Carries _ (filter_by_active_window fromisoformat (e ∷ es) time) k entry h in
      let f =
        Among-filter (covers fromisoformat time) entry (e ∷ es)
          (unfold filter_by_active_window in c.0) in
      ((f.0, c.1), f.1)

  -- A key that the manifest gives is the public key of one of its entries, for the purpose asked
  -- for, with the key id asked for; without a key id and with a signing time the entry's window
  -- covers that time.
  pub resolve_from_manifest-Answers :
      (entries : List Fields) (key_id : Option String) (purpose : String) (time : Option ℕ)
      (k : String) (entry : Fields)
      → resolve_from_manifest fromisoformat entries key_id purpose time ≡ found k entry
      → Among entry entries
        × (get entry "public_key" ≡ str k)
        × (get entry "purpose" ≡ str purpose)
        × Answers key_id time entry
  unfolding resolve_from_manifest
  resolve_from_manifest-Answers entries key_id purpose time k entry h =
      let a = among_purpose-Answers (filter (has_purpose purpose) entries) key_id time k entry h in
      let f = Among-filter (has_purpose purpose) entry entries a.0.0 in
      (f.0, a.0.1, eq_str-eq _ _ f.1, a.1)

  among_purpose_any_time :
      (es : List Fields) (key_id : String) (s t : Option ℕ)
      → among_purpose fromisoformat es (some key_id) s
        ≡ among_purpose fromisoformat es (some key_id) t
  among_purpose_any_time [] key_id s t = refl
  among_purpose_any_time (e ∷ es) key_id s t = refl

  admit-true :
      (bundled : Bool) (source : String) (time : Option ℕ) (r : Resolved) (k : String) (s : Source)
      → admit fromisoformat true bundled source time r ≡ trusted k s
      → (entry : Fields) × (r ≡ found k entry)
        × (entry_not_terminal_at fromisoformat entry time ≡ some true)
  admit-true bundled source time (error e) k s h = cc
  admit-true bundled source time (found k' entry) k s h =
      by_test (entry_not_terminal_at fromisoformat entry time) refl
    where
      by_test :
          (o : Option Bool)
          → entry_not_terminal_at fromisoformat entry time ≡ o
          → (entry' : Fields) × (found k' entry ≡ found k entry')
            × (entry_not_terminal_at fromisoformat entry' time ≡ some true)
      by_test none e = cc (rw (e, admit) at h)
      by_test (some false) e = cc (rw (e, admit) at h)
      by_test (some true) e = (entry, cc (rw (e, admit) at h), e)

  admit-source :
      (reject bundled : Bool) (source : String) (time : Option ℕ) (r : Resolved) (k : String)
      → admit fromisoformat reject bundled source time r ≢ trusted k self_attested
  admit-source reject bundled source time (error e) k h = cc
  admit-source false bundled source time (found k' entry) k h = cc
  admit-source true bundled source time (found k' entry) k h = ground arith

  module _ (fetch_json : String → Option Json) (load_key_manifest : String → Option (List Fields))
      (is_bundled_root : String → Bool) where
    -- With terminal keys refused, a key that a manifest gives for a signing time belongs to an entry of
    -- that manifest for the purpose, with no readable date of revocation or compromise by that time and
    -- a status that is neither.
    pub resolve_trust_key-IsAlive :
        (artifact_pub key_id : Option String) (purpose source : String) (time : ℕ) (k : String)
        (s : Source) (entries : List Fields)
        → load_key_manifest source ≡ some entries
        → resolve_trust_key fromisoformat fetch_json load_key_manifest is_bundled_root artifact_pub
            key_id purpose none none
            (some source)
            (some time)
            true
          ≡ trusted k s
        → (entry : Fields) × Among entry entries
          × (get entry "public_key" ≡ str k)
          × (get entry "purpose" ≡ str purpose)
          × IsAlive fromisoformat time entry
    unfolding resolve_trust_key
    resolve_trust_key-IsAlive artifact_pub key_id purpose source time k s entries l h =
        let (entry, r, alive) =
          admit-true (is_bundled_root source) source (some time) _ k s
            (rw (l, from_manifest) at h) in
        let a = resolve_from_manifest-Answers entries key_id purpose (some time) k entry r in
        (entry, a.0, a.1, a.2, not_terminal-IsAlive fromisoformat entry time alive)

    from_manifest-source :
        (source : String) (entries : Option (List Fields)) (key_id : Option String)
        (purpose : String) (time : Option ℕ) (reject : Bool) (k : String)
        → from_manifest fromisoformat fetch_json load_key_manifest is_bundled_root source entries
            key_id purpose time reject
          ≢ trusted k self_attested
    from_manifest-source source none key_id purpose time reject k h = cc
    from_manifest-source source (some entries) key_id purpose time reject k h =
        admit-source reject (is_bundled_root source) source time
          (resolve_from_manifest fromisoformat entries key_id purpose time) k h

    -- A self-attested key is the one in the artifact, and is used only when no expected key, no URL
    -- and no manifest was given.
    pub self_attested_only :
        (artifact_pub key_id : Option String) (purpose : String)
        (expected url source : Option String) (time : Option ℕ) (reject : Bool) (k : String)
        → resolve_trust_key fromisoformat fetch_json load_key_manifest is_bundled_root artifact_pub
            key_id purpose expected url source time reject
          ≡ trusted k self_attested
        → (artifact_pub ≡ some k) × (expected ≡ none) × (url ≡ none) × (source ≡ none)
    unfolding resolve_trust_key
    self_attested_only a i p (some x) u s t r k h = cc
    self_attested_only a i p none (some u) s t r k h =
        cc (fetched_key-source u (fetch_json u) k self_attested h)
    self_attested_only a i p none none (some s) t r k h =
        absurd (from_manifest-source s (load_key_manifest s) i p t r k h)
    self_attested_only none i p none none none t r k h = cc
    self_attested_only (some a) i p none none none t r k h = (cc, refl, refl, refl)

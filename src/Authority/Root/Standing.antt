-- ===== src/Authority/Root/Standing.antt =====
-- What the two claims on the status of a root show of the document.
use keel_verifier.Base.{
  ℕ, String, ◌≡◌, ◌≢◌, ◌⊎◌, inl, inr, refl, Bool, true, false, Option, none, some, List, [], ◌∷◌,
  ◌∙◌, Bool-cases,
}
use keel_verifier.Json.{Fields, get, eq_str}
use keel_verifier.Trust.Window.{parse_iso_or_none}
use keel_verifier.Trust.Select.Laws.{Among}
use keel_verifier.Authority.Outcome.{Outcome, supported}
use keel_verifier.Authority.Library.{Library}
use keel_verifier.Authority.Keys.{authority_key_records}
use keel_verifier.Authority.Edges.{Edge, chain_edges_in_order}
use keel_verifier.Authority.Root.{
  RootCode, Root, root_of, by_status, conclude_v1, conclude_v2, judge_v1, judge_second, judge_v2,
  with_chain, with_root, adjudicate_authority_root_status_temporal_v1,
  adjudicate_authority_root_status_temporal_v2,
}
use keel_verifier.Authority.Root.Events.{root_status_events, root_status_v2_events}
use keel_verifier.Authority.Root.Laws.{IsHarmless, judge_disables-IsHarmless}
use keel_verifier.Authority.Root.Verdict.{IsWithin, IsFrom, judge_statuses-Scans}

abbrev pub IsNotSuspended : Option (ℕ × Fields) → Type 0
IsNotSuspended latest =
    (time : ℕ) (event : Fields)
    → latest ≡ some (time, event)
    → eq_str (get event "status") "suspended" ≡ false

by_status-supported :
    (event : Fields) → by_status event ≡ supported → eq_str (get event "status") "suspended" ≡ false
by_status-supported event h = elim (Bool-cases (eq_str (get event "status") "suspended")) [
  | inl e ↦ cc (rw e at h)
  | inr e ↦ e
]

conclude_v1-IsNotSuspended :
    (latest : Option (ℕ × Fields))
    → conclude_v1 latest ≡ supported
    → IsNotSuspended latest × (latest ≢ none)
conclude_v1-IsNotSuspended none h = cc
conclude_v1-IsNotSuspended (some (t, event)) h =
    let live = by_status-supported event h in
    (λ time e s. let same : event ≡ e = cc s in rw (← same) live, λ e. cc)

conclude_v2-IsNotSuspended :
    (latest : Option (ℕ × Fields)) (b f : Bool)
    → conclude_v2 latest b f ≡ supported
    → (b ≡ false) × IsNotSuspended latest
conclude_v2-IsNotSuspended latest true f h = cc
conclude_v2-IsNotSuspended none false f h = (refl, λ time e s. cc)
conclude_v2-IsNotSuspended (some (t, event)) false f h =
    let live = by_status-supported event h in
    (refl, λ time e s. let same : event ≡ e = cc s in rw (← same) live)

module _ (library : Library) (load : String → Option (List Fields)) (trusted source : Option String)
    (trust_root : Option Fields) (input_doc : Fields) where
  -- The root of the document's chain, and its time of resolution.
  pub record HasRoot : Type 0 where
    pub edge : Edge
    pub edges : List Edge
    pub in_order :
        chain_edges_in_order (authority_key_records load trust_root source) input_doc
        ≡ some (edge ∷ edges)
    pub root : Root
    pub is_root : root_of edge.payload (get edge.payload "delegator") ≡ some root
    pub resolution : ℕ
    pub resolves :
        parse_iso_or_none library.fromisoformat (get input_doc "resolution_time") ≡ some resolution

  -- The latest event on the root that is effective by the resolution, which does not suspend it.
  pub record IsActive (r : HasRoot) : Type 0 where
    pub events : List Fields
    pub has_events : root_status_events input_doc ≡ some events
    pub latest : Option (ℕ × Fields)
    pub within :
        (event : Fields)
        → Among event events
        → IsWithin library load trusted source r.root r.resolution latest event
    pub origin :
        (latest ≡ none) ⊎ IsFrom library load trusted source r.root r.resolution events latest
    pub not_suspended : IsNotSuspended latest

  abbrev pub IsStanding : Type 0
  IsStanding = (r : HasRoot) × (a : IsActive r) × (a.latest ≢ none)

  abbrev pub IsEnabled : Type 0
  IsEnabled =
      (r : HasRoot) × IsActive r
      × (disables : List Fields) × (root_status_v2_events input_doc ≡ some disables)
      × ((event : Fields)
          → Among event disables
          → IsHarmless library load trusted source r.root r.resolution event)

  judge_v1-IsActive :
      (r : HasRoot) (o : Option (List Fields))
      → root_status_events input_doc ≡ o
      → judge_v1 library load trusted source r.root r.resolution o ≡ supported
      → (a : IsActive r) × (a.latest ≢ none)
  judge_v1-IsActive r none e h = cc
  judge_v1-IsActive r (some events) e h =
      let s =
        judge_statuses-Scans library load trusted source r.root r.resolution events none conclude_v1
          h in
      let (live, there) = conclude_v1-IsNotSuspended s.final s.passes in
      (
        record {
          events = events;
          has_events = e;
          latest = s.final;
          within = s.within;
          origin = s.origin;
          not_suspended = live;
        },
        there,
      )

  judge_second-IsHarmless :
      (r : HasRoot) (o : Option (List Fields)) (latest : Option (ℕ × Fields))
      → judge_second library load trusted source r.root r.resolution o latest ≡ supported
      → IsNotSuspended latest
        × (disables : List Fields) × (o ≡ some disables)
        × ((event : Fields)
            → Among event disables
            → IsHarmless library load trusted source r.root r.resolution event)
  judge_second-IsHarmless r none latest h = cc
  judge_second-IsHarmless r (some disables) latest h =
      let (off, harmless, g, last) =
        judge_disables-IsHarmless library load trusted source r.root r.resolution disables false
          false (conclude_v2 latest) (λ b f e. (conclude_v2-IsNotSuspended latest b f e).0) h in
      ((conclude_v2-IsNotSuspended latest false g last).1, disables, refl, harmless)

  judge_v2-IsEnabled :
      (r : HasRoot) (o d : Option (List Fields))
      → root_status_events input_doc ≡ o
      → root_status_v2_events input_doc ≡ d
      → judge_v2 library load trusted source r.root r.resolution o d ≡ supported
      → IsEnabled
  judge_v2-IsEnabled r none d e f h = cc
  judge_v2-IsEnabled r (some events) d e f h =
      let s =
        judge_statuses-Scans library load trusted source r.root r.resolution events none
          (judge_second library load trusted source r.root r.resolution d) h in
      let (live, disables, found, harmless) = judge_second-IsHarmless r d s.final s.passes in
      (
        r,
        record {
          events = events;
          has_events = e;
          latest = s.final;
          within = s.within;
          origin = s.origin;
          not_suspended = live;
        },
        disables,
        f ∙ found,
        harmless,
      )

  with_chain-HasRoot :
      (judge : Root → ℕ → Outcome RootCode) (o : Option (List Edge)) (t : Option ℕ)
      → chain_edges_in_order (authority_key_records load trust_root source) input_doc ≡ o
      → parse_iso_or_none library.fromisoformat (get input_doc "resolution_time") ≡ t
      → with_chain library load trusted source judge o t ≡ supported
      → (r : HasRoot) × (judge r.root r.resolution ≡ supported)
  with_chain-HasRoot judge none t e f h = cc
  with_chain-HasRoot judge (some []) t e f h = cc
  with_chain-HasRoot judge (some (edge ∷ edges)) none e f h = cc
  with_chain-HasRoot judge (some (edge ∷ edges)) (some resolution) e f h =
      by_root (root_of edge.payload (get edge.payload "delegator")) refl h
    where
      by_root :
          (o : Option Root)
          → root_of edge.payload (get edge.payload "delegator") ≡ o
          → with_root library load trusted source judge o resolution ≡ supported
          → (r : HasRoot) × (judge r.root r.resolution ≡ supported)
      by_root none i k = cc
      by_root (some root) i k = (
        record {
          edge = edge;
          edges = edges;
          in_order = e;
          root = root;
          is_root = i;
          resolution = resolution;
          resolves = f;
        },
        k,
      )

  -- The first claim on a root is supported only when there is a latest event on it: valid, signed and
  -- effective by the resolution, not before any other such event, and without the status suspended.
  pub root_status_v1-IsStanding :
      adjudicate_authority_root_status_temporal_v1 library load trusted source trust_root input_doc
        ≡ supported
      → IsStanding
  unfolding adjudicate_authority_root_status_temporal_v1
  root_status_v1-IsStanding h =
      let (r, k) = with_chain-HasRoot _ _ _ refl refl h in
      let (a, there) = judge_v1-IsActive r (root_status_events input_doc) refl k in (r, a, there)

  -- The second claim on a root is supported only when no event of the document disables it by the
  -- resolution: each is about another root, or valid, signed and later; and the latest event of the first
  -- version, if there is one, does not suspend the root.
  pub root_status_v2-IsEnabled :
      adjudicate_authority_root_status_temporal_v2 library load trusted source trust_root input_doc
        ≡ supported
      → IsEnabled
  unfolding adjudicate_authority_root_status_temporal_v2
  root_status_v2-IsEnabled h =
      let (r, k) = with_chain-HasRoot _ _ _ refl refl h in
      judge_v2-IsEnabled r (root_status_events input_doc) (root_status_v2_events input_doc) refl
        refl k

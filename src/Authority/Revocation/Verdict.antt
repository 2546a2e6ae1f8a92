-- ===== src/Authority/Revocation/Verdict.antt =====
-- A revocation of an edge is disproved by a signed event that took effect in time, and supported only
-- when each event on the chain is valid and took effect later.
use keel_verifier.Base.{
  ℕ, String, ◌≡◌, ◌≤◌, ◌<◌, ◌⊎◌, inl, inr, refl, Bool, true, false, ◌||◌, Option, none, some, List,
  [], ◌∷◌, leb, arith,
}
use keel_verifier.Json.{Json, Fields, get}
use keel_verifier.Trust.Window.{parse_iso_or_none}
use keel_verifier.Trust.Select.Laws.{Among}
use keel_verifier.Authority.Outcome.{Outcome, supported, refused}
use keel_verifier.Authority.Library.{Library}
use keel_verifier.Authority.Keys.{authority_key_records}
use keel_verifier.Authority.Edges.{Edge, chain_edges_in_order}
use keel_verifier.Authority.Signer.{Judged, missing, unrelated, raises, effective}
use keel_verifier.Authority.Revocation.{
  RevocationCode, edge_revoked_at_or_before_resolution, judge_event, conclude, after_event,
  judge_events, with_edges, adjudicate_authority_edge_revocation_v1,
}
use keel_verifier.Authority.Revocation.Events.{edge_status_events}
use keel_verifier.Authority.Revocation.Laws.{
  IsRevocation, IsUnrelated, judge_event-IsRevocation, judge_event-IsUnrelated,
}

module _ (library : Library) (load : String → Option (List Fields)) (trusted : Option String) where
  module _ (edges : List Edge) (project_id : Json) (source : Option String) (resolution : ℕ) where
    -- The event is not about the chain, or a signed revocation that took effect after the resolution.
    abbrev pub IsHarmless : Fields → Type 0
    IsHarmless event =
        IsUnrelated library load trusted edges project_id source event
        ⊎ ((time : ℕ) × IsRevocation library load trusted edges project_id source event time
            × (resolution < time))

    -- The event is a signed revocation that took effect by the resolution.
    abbrev pub Revokes : Fields → Type 0
    Revokes event =
        (time : ℕ) × IsRevocation library load trusted edges project_id source event time
        × (time ≤ resolution)

    after_event-supported :
        (event : Fields) (j : Judged) (matching : Bool) (next : Bool → Outcome RevocationCode)
        → judge_event library load trusted edges project_id source event ≡ j
        → ((m : Bool) → next m ≡ supported → m ≡ false)
        → after_event library load trusted resolution j matching next ≡ supported
        → (matching ≡ false) × IsHarmless event × (next false ≡ supported)
    after_event-supported event missing m next e only h = cc
    after_event-supported event raises m next e only h = cc
    after_event-supported event unrelated m next e only h =
        let off = only m h in (off, inl (judge_event-IsUnrelated _ _ _ _ _ _ event e), rw off at h)
    after_event-supported event (effective time) m next e only h =
        let off = only (m || leb time resolution) h in
        let early : m ≡ false = ground arith in
        let late : leb time resolution ≡ false = ground arith in
        let less : resolution < time = ground arith in
        (
          early,
          inr (time, judge_event-IsRevocation _ _ _ _ _ _ event time e, less),
          rw (early, late) at h,
        )

    conclude-supported : (m : Bool) → conclude library load trusted m ≡ supported → m ≡ false
    conclude-supported true h = cc
    conclude-supported false h = refl

    judge_events-IsHarmless :
        (events : List Fields) (matching : Bool)
        → judge_events library load trusted edges project_id source resolution events matching
          ≡ supported
        → (matching ≡ false) × ((event : Fields) → Among event events → IsHarmless event)
    unfolding judge_events
    judge_events-IsHarmless [] m h = (conclude-supported m h, λ event a. absurd a)
    judge_events-IsHarmless (event ∷ events) m h =
        let (off, here, rest) =
          after_event-supported event _ m _ refl (λ b e. (judge_events-IsHarmless events b e).0)
            h in
        let others = (judge_events-IsHarmless events false rest).1 in
        (off, λ e a. elim a [ inl s ↦ rw s here | inr s ↦ others e s ])

    after_event-Revokes :
        (event : Fields) (j : Judged) (matching : Bool) (next : Bool → Outcome RevocationCode)
        → judge_event library load trusted edges project_id source event ≡ j
        → after_event library load trusted resolution j matching next
          ≡ refused edge_revoked_at_or_before_resolution
        → Revokes event ⊎ (next matching ≡ refused edge_revoked_at_or_before_resolution)
    after_event-Revokes event missing m next e h = cc
    after_event-Revokes event raises m next e h = cc
    after_event-Revokes event unrelated m next e h = inr h
    after_event-Revokes event (effective time) m next e h = by_time (leb time resolution) refl h
      where
        by_time :
            (b : Bool)
            → leb time resolution ≡ b
            → next (m || b) ≡ refused edge_revoked_at_or_before_resolution
            → Revokes event ⊎ (next m ≡ refused edge_revoked_at_or_before_resolution)
        by_time true t k =
            inl (time, judge_event-IsRevocation _ _ _ _ _ _ event time e, ground arith)
        by_time false t k = let same : (m || false) ≡ m = ground arith in inr (rw same at k)

    judge_events-Revokes :
        (events : List Fields) (matching : Bool)
        → judge_events library load trusted edges project_id source resolution events matching
          ≡ refused edge_revoked_at_or_before_resolution
        → (matching ≡ true) ⊎ ((event : Fields) × Among event events × Revokes event)
    unfolding judge_events
    judge_events-Revokes [] true h = inl refl
    judge_events-Revokes [] false h = cc
    judge_events-Revokes (event ∷ events) m h = elim (after_event-Revokes event _ m _ refl h) [
      | inl r ↦ inr (event, inl refl, r)
      | inr k ↦ elim (judge_events-Revokes events m k) [
        | inl e ↦ inl e
        | inr (e, a, r) ↦ inr (e, inr a, r)
      ]
    ]

  -- The edges of the document's chain, and its time of resolution.
  pub record IsResolved (input_doc : Fields) (source : Option String) (trust_root : Option Fields)
      : Type 0 where
    pub edge : Edge
    pub edges : List Edge
    pub resolution : ℕ
    pub in_order :
        chain_edges_in_order (authority_key_records load trust_root source) input_doc
        ≡ some (edge ∷ edges)
    pub resolves :
        parse_iso_or_none library.fromisoformat (get input_doc "resolution_time") ≡ some resolution

  module _ (input_doc : Fields) (source : Option String) (trust_root : Option Fields) where
    abbrev pub EachHarmless : Type 0
    EachHarmless =
        (r : IsResolved input_doc source trust_root) × ((event : Fields)
          → Among event (edge_status_events input_doc)
          → IsHarmless (r.edge ∷ r.edges) (get r.edge.payload "project_id") source r.resolution
              event)

    abbrev pub SomeRevokes : Type 0
    SomeRevokes =
        (r : IsResolved input_doc source trust_root) × (event : Fields) × Among event
          (edge_status_events input_doc)
        × Revokes (r.edge ∷ r.edges) (get r.edge.payload "project_id") source r.resolution event

    with_edges-EachHarmless :
        (o : Option (List Edge)) (t : Option ℕ)
        → chain_edges_in_order (authority_key_records load trust_root source) input_doc ≡ o
        → parse_iso_or_none library.fromisoformat (get input_doc "resolution_time") ≡ t
        → with_edges library load trusted input_doc source o t ≡ supported
        → EachHarmless
    with_edges-EachHarmless (some (edge ∷ edges)) (some resolution) e r h = (
      record { edge = edge; edges = edges; resolution = resolution; in_order = e; resolves = r },
      (judge_events-IsHarmless (edge ∷ edges) (get edge.payload "project_id") source resolution
          (edge_status_events input_doc) false h).1,
    )
    with_edges-EachHarmless (some (edge ∷ edges)) none e r h = cc
    with_edges-EachHarmless (some []) t e r h = cc
    with_edges-EachHarmless none t e r h = cc

    with_edges-SomeRevokes :
        (o : Option (List Edge)) (t : Option ℕ)
        → chain_edges_in_order (authority_key_records load trust_root source) input_doc ≡ o
        → parse_iso_or_none library.fromisoformat (get input_doc "resolution_time") ≡ t
        → with_edges library load trusted input_doc source o t
          ≡ refused edge_revoked_at_or_before_resolution
        → SomeRevokes
    with_edges-SomeRevokes (some (edge ∷ edges)) (some resolution) e r h =
        elim (judge_events-Revokes (edge ∷ edges) (get edge.payload "project_id") source resolution
          (edge_status_events input_doc) false h) [
            | inl absent ↦ cc
            | inr (event, a, v) ↦ (
              record {
                edge = edge;
                edges = edges;
                resolution = resolution;
                in_order = e;
                resolves = r;
              },
              event,
              a,
              v,
            )
          ]
    with_edges-SomeRevokes (some (edge ∷ edges)) none e r h = cc
    with_edges-SomeRevokes (some []) t e r h = cc
    with_edges-SomeRevokes none t e r h = cc

-- A supported claim has a chain with an edge and a time of resolution, and each edge status event that
-- the document carries is not about the chain, or is a valid signed revocation after that time.
pub edge_revocation-EachHarmless :
    (library : Library) (load : String → Option (List Fields)) (trusted : Option String)
    (input_doc : Fields) (source : Option String) (trust_root : Option Fields)
    → adjudicate_authority_edge_revocation_v1 library load trusted input_doc source trust_root
      ≡ supported
    → EachHarmless library load trusted input_doc source trust_root
unfolding adjudicate_authority_edge_revocation_v1
edge_revocation-EachHarmless library load trusted input_doc source root =
    with_edges-EachHarmless library load trusted input_doc source root _ _ refl refl

-- A claim that is disproved has an event in the document that revokes an edge of the chain: well formed,
-- signed by an active key for permit bindings, and effective by the time of resolution.
pub edge_revocation-SomeRevokes :
    (library : Library) (load : String → Option (List Fields)) (trusted : Option String)
    (input_doc : Fields) (source : Option String) (trust_root : Option Fields)
    → adjudicate_authority_edge_revocation_v1 library load trusted input_doc source trust_root
      ≡ refused edge_revoked_at_or_before_resolution
    → SomeRevokes library load trusted input_doc source trust_root
unfolding adjudicate_authority_edge_revocation_v1
edge_revocation-SomeRevokes library load trusted input_doc source root =
    with_edges-SomeRevokes library load trusted input_doc source root _ _ refl refl

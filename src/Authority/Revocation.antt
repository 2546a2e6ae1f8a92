-- ===== src/Authority/Revocation.antt =====
-- `_adjudicate_authority_edge_revocation_v1`: whether a signed revocation of an edge of the chain took
-- effect by the resolution. Messages and evidence paths are left out.
pub mod Events
pub mod Laws
pub mod Verdict
use text.Mathlib.TextEquality.{eq_iff}
use keel_verifier.Base.{
  ℕ, String, Bool, true, false, ◌&&◌, ◌||◌, not, Option, none, some, List, [], ◌∷◌, any, filter,
  leb, str_eq, if◌then◌else◌,
}
use keel_verifier.Json.{
  Json, null, bool, int, str, arr, obj, Fields, end, field, get, lookup, is_null, is_str, eq,
  eq_str,
}
use keel_verifier.Trust.Window.{Stamp, parse_iso_or_none, filter_by_active_window}
use keel_verifier.Authority.Outcome.{Outcome, supported, raised, refused}
use keel_verifier.Authority.Library.{Library, verify_ed25519}
use keel_verifier.Authority.Keys.{authority_key_records}
use keel_verifier.Authority.Edges.{Edge, chain_edges_in_order}
use keel_verifier.Authority.Signer.{
  Judged, missing, unrelated, raises, effective, permit_binding_key_candidates, check_signer,
}
use keel_verifier.Authority.Revocation.Events.{edge_status_events, status_error, canonical_hash}

-- AUTHORITY_EDGE_REVOCATION_CODE_VERDICTS: the first is disproved, the second insufficient evidence.
pub data RevocationCode : Type 0 where
  edge_revoked_at_or_before_resolution status_evidence_missing : RevocationCode

abbrev pub names_edge : List Edge → Fields → Bool
names_edge edges event =
    any
      (λ e.
        is_str (get e.fields "edge_digest") && eq (get e.fields "edge_digest") (get event "key_id"))
      edges

-- `project_id is None or event.get("account_id") == project_id`
abbrev pub same_account : Json → Fields → Bool
same_account project_id event = is_null project_id || eq (get event "account_id") project_id

-- `load` is `_load_key_manifest`, and `trusted` the cached or the bundled manifest, if there is one.
module _ (library : Library) (load : String → Option (List Fields)) (trusted : Option String) where
  abbrev pub check_hash : Option String → Fields → Option ℕ → Judged
  check_hash source event none = raises
  check_hash source event (some revoked_at) =
      if not (eq_str (get event "event_hash") (canonical_hash library event))
      then missing
      else check_signer library (canonical_hash library event) event revoked_at
          (permit_binding_key_candidates library load trusted source revoked_at)

  abbrev pub check_related : List Edge → Json → Option String → Fields → Judged
  check_related edges project_id source event =
      if not (names_edge edges event)
      then unrelated
      else if not (same_account project_id event)
      then unrelated
      else check_hash source event
          (parse_iso_or_none library.fromisoformat (get event "revoked_at"))

  unfoldable pub judge_event : List Edge → Json → Option String → Fields → Judged
  unfolding permit_binding_key_candidates
  judge_event edges project_id source event = elim (status_error library event) [
    | none ↦ raises
    | some true ↦ missing
    | some false ↦ check_related edges project_id source event
  ]

  abbrev pub conclude : Bool → Outcome RevocationCode
  conclude true = refused edge_revoked_at_or_before_resolution
  conclude false = supported

  -- The loop; `matching` is whether an event has taken effect by the resolution so far.
  abbrev pub after_event :
      ℕ → Judged → Bool → (Bool → Outcome RevocationCode) → Outcome RevocationCode
  after_event resolution missing matching next = refused status_evidence_missing
  after_event resolution raises matching next = raised
  after_event resolution unrelated matching next = next matching
  after_event resolution (effective at) matching next = next (matching || leb at resolution)

  unfoldable pub judge_events :
      List Edge → Json → Option String → ℕ → List Fields → Bool → Outcome RevocationCode
  unfolding judge_event
  judge_events edges project_id source resolution [] matching = conclude matching
  judge_events edges project_id source resolution (event ∷ events) matching =
      after_event resolution (judge_event edges project_id source event) matching
        (judge_events edges project_id source resolution events)

  abbrev pub with_edges :
      Fields → Option String → Option (List Edge) → Option ℕ → Outcome RevocationCode
  with_edges input_doc source (some (edge ∷ edges)) (some resolution) =
      judge_events (edge ∷ edges) (get edge.payload "project_id") source resolution
        (edge_status_events input_doc) false
  with_edges input_doc source _ resolution = refused status_evidence_missing

  unfoldable pub adjudicate_authority_edge_revocation_v1 :
      (input_doc : Fields) (key_manifest_source : Option String) (trust_root : Option Fields)
      → Outcome RevocationCode
  unfolding judge_events
  adjudicate_authority_edge_revocation_v1 input_doc key_manifest_source trust_root =
      with_edges input_doc key_manifest_source
        (chain_edges_in_order (authority_key_records load trust_root key_manifest_source) input_doc)
        (parse_iso_or_none library.fromisoformat (get input_doc "resolution_time"))

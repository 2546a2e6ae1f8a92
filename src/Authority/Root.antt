-- ===== src/Authority/Root.antt =====
-- `_adjudicate_authority_root_status_temporal_v1` and `_v2`: the status of the root of a chain at the
-- resolution. Messages and evidence paths are left out.
pub mod Events
pub mod Laws
pub mod Verdict
pub mod Standing
use keel_verifier.Base.{
  ℕ, String, Bool, true, false, ◌&&◌, ◌||◌, not, Option, none, some, List, [], ◌∷◌, any, leb, ltb,
  if◌then◌else◌,
}
use keel_verifier.Json.{Json, obj, Fields, get, is_null, eq, eq_str}
use keel_verifier.Trust.Window.{parse_iso_or_none}
use keel_verifier.Authority.Outcome.{Outcome, supported, raised, refused}
use keel_verifier.Authority.Library.{Library, verify_ed25519}
use keel_verifier.Authority.Keys.{authority_key_records}
use keel_verifier.Authority.Edges.{Edge, chain_edges_in_order}
use keel_verifier.Authority.Signer.{
  Judged, missing, unrelated, raises, effective, permit_binding_key_candidates, check_signer,
}
use keel_verifier.Authority.Root.Events.{
  root_status_events, root_status_v2_events, signed_fields, signed_v2_fields, root_event_valid,
  root_v2_event_valid, root_hash,
}

-- AUTHORITY_ROOT_STATUS_TEMPORAL_CODE_VERDICTS: the last is insufficient evidence, the others disproved.
pub data RootCode : Type 0 where
  root_disabled_at_resolution root_suspended_at_resolution status_evidence_missing : RootCode

-- The root of a chain: the type and the id of its delegator, and its project.
pub record Root : Type 0 where
  pub principal_type : Json
  pub principal_id : Json
  pub project_id : Json

abbrev pub root_of : Fields → Json → Option Root
root_of payload (obj delegator) = some (record {
  principal_type = get delegator "principal_type";
  principal_id = get delegator "principal_id";
  project_id = get payload "project_id";
})
root_of payload _ = none

abbrev pub about_root : Root → Fields → Bool
about_root root event =
    eq (get event "root_principal_type") root.principal_type
    && eq (get event "root_principal_id") root.principal_id
    && (is_null root.project_id || eq (get event "project_id") root.project_id)

-- What the two versions of an event differ in: the schema, the signed fields, and the field of the time.
pub record Version : Type 0 where
  pub valid : Library → Fields → Option Bool
  pub names : List String
  pub time_field : String

unfoldable pub first_version : Version
first_version = record {
  valid = root_event_valid;
  names = signed_fields;
  time_field = "effective_at";
}

unfoldable pub second_version : Version
second_version = record {
  valid = root_v2_event_valid;
  names = signed_v2_fields;
  time_field = "disabled_at";
}

-- The latest event so far, with its time: of several at one time, the first.
abbrev pub later : Option (ℕ × Fields) → ℕ → Fields → Option (ℕ × Fields)
later none time event = some (time, event)
later (some (t, e)) time event = if ltb t time then some (time, event) else some (t, e)

abbrev pub latest_at : Option (ℕ × Fields) → ℕ → ℕ → Fields → Option (ℕ × Fields)
latest_at latest resolution time event =
    if leb time resolution then later latest time event else latest

abbrev pub by_status : Fields → Outcome RootCode
by_status latest =
    if eq_str (get latest "status") "suspended"
    then refused root_suspended_at_resolution
    else supported

-- What the second version's events show: one is effective, or one will be.
abbrev pub conclude_v2 : Option (ℕ × Fields) → Bool → Bool → Outcome RootCode
conclude_v2 latest true future = refused root_disabled_at_resolution
conclude_v2 (some (t, event)) false future = by_status event
conclude_v2 none false true = supported
conclude_v2 none false false = refused status_evidence_missing

abbrev pub conclude_v1 : Option (ℕ × Fields) → Outcome RootCode
conclude_v1 none = refused status_evidence_missing
conclude_v1 (some (t, event)) = by_status event

module _ (library : Library) (load : String → Option (List Fields)) (trusted : Option String)
    (source : Option String) where
  abbrev pub check_time : Version → Fields → Option ℕ → Judged
  check_time version event none = raises
  check_time version event (some time) =
      check_signer library (root_hash library version.names event) event time
        (permit_binding_key_candidates library load trusted source time)

  abbrev pub check_root : Version → Root → Fields → Judged
  check_root version root event =
      if about_root root event
      then check_time version event
          (parse_iso_or_none library.fromisoformat (get event version.time_field))
      else unrelated

  -- One event: its schema, its root and its signature.
  unfoldable pub judge_status : Version → Root → Fields → Judged
  unfolding root_hash
  judge_status version root event = elim (version.valid library event) [
    | none ↦ raises
    | some false ↦ missing
    | some true ↦ check_root version root event
  ]

  module _ (root : Root) (resolution : ℕ) where
    -- The loop over the events of the first version; `next` is what comes behind it.
    abbrev pub after_status :
        Fields
        → Judged
        → Option (ℕ × Fields)
        → (Option (ℕ × Fields) → Outcome RootCode)
        → Outcome RootCode
    after_status event missing latest next = refused status_evidence_missing
    after_status event raises latest next = raised
    after_status event unrelated latest next = next latest
    after_status event (effective time) latest next = next (latest_at latest resolution time event)

    unfoldable pub judge_statuses :
        List Fields
        → Option (ℕ × Fields)
        → (Option (ℕ × Fields) → Outcome RootCode)
        → Outcome RootCode
    unfolding judge_status first_version
    judge_statuses [] latest next = next latest
    judge_statuses (event ∷ events) latest next =
        after_status event (judge_status first_version root event) latest
          (λ l. judge_statuses events l next)

    -- The loop over the events of the second version.
    abbrev pub after_disable :
        Judged → Bool → Bool → (Bool → Bool → Outcome RootCode) → Outcome RootCode
    after_disable missing terminal future next = refused status_evidence_missing
    after_disable raises terminal future next = raised
    after_disable unrelated terminal future next = next terminal future
    after_disable (effective time) terminal future next =
        next (terminal || leb time resolution) (future || not (leb time resolution))

    unfoldable pub judge_disables :
        List Fields → Bool → Bool → (Bool → Bool → Outcome RootCode) → Outcome RootCode
    unfolding judge_status second_version
    judge_disables [] terminal future next = next terminal future
    judge_disables (event ∷ events) terminal future next =
        after_disable (judge_status second_version root event) terminal future
          (λ t f. judge_disables events t f next)

    abbrev pub judge_v1 : Option (List Fields) → Outcome RootCode
    judge_v1 none = raised
    judge_v1 (some events) = judge_statuses events none conclude_v1

    -- The events of the second version are read once those of the first have passed.
    abbrev pub judge_second : Option (List Fields) → Option (ℕ × Fields) → Outcome RootCode
    judge_second none latest = raised
    judge_second (some events) latest = judge_disables events false false (conclude_v2 latest)

    abbrev pub judge_v2 : Option (List Fields) → Option (List Fields) → Outcome RootCode
    judge_v2 none disables = raised
    judge_v2 (some events) disables = judge_statuses events none (judge_second disables)

  abbrev pub with_root : (Root → ℕ → Outcome RootCode) → Option Root → ℕ → Outcome RootCode
  with_root judge none resolution = refused status_evidence_missing
  with_root judge (some root) resolution = judge root resolution

  abbrev pub with_chain :
      (Root → ℕ → Outcome RootCode) → Option (List Edge) → Option ℕ → Outcome RootCode
  with_chain judge (some (edge ∷ edges)) (some resolution) =
      with_root judge (root_of edge.payload (get edge.payload "delegator")) resolution
  with_chain judge _ resolution = refused status_evidence_missing

  module _ (trust_root : Option Fields) (input_doc : Fields) where
    abbrev pub on_document : (Root → ℕ → Outcome RootCode) → Outcome RootCode
    on_document judge =
        with_chain judge
          (chain_edges_in_order (authority_key_records load trust_root source) input_doc)
          (parse_iso_or_none library.fromisoformat (get input_doc "resolution_time"))

    unfoldable pub adjudicate_authority_root_status_temporal_v1 : Outcome RootCode
    unfolding judge_statuses
    adjudicate_authority_root_status_temporal_v1 =
        on_document (λ root resolution. judge_v1 root resolution (root_status_events input_doc))

    unfoldable pub adjudicate_authority_root_status_temporal_v2 : Outcome RootCode
    unfolding judge_statuses judge_disables
    adjudicate_authority_root_status_temporal_v2 = on_document (λ root resolution.
        judge_v2 root resolution (root_status_events input_doc) (root_status_v2_events input_doc))

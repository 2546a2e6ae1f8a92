-- ===== src/Examples/Roots.antt =====
-- The root of the delegations of Delegations: active at the resolution, and disabled later.
use keel_verifier.Base.{String, ◌≡◌, refl, none, some}
use keel_verifier.Json.{Json, null, str, arr, obj, nil, cons, Fields, end, field, eq}
use keel_verifier.Trust.Window.{parse_iso_or_none, filter_by_active_window, covers}
use keel_verifier.Authority.Outcome.{supported}
use keel_verifier.Authority.Library.{verify_ed25519}
use keel_verifier.Authority.Keys.{authority_key_records}
use keel_verifier.Authority.Edges.{chain_edges_in_order}
use keel_verifier.Authority.Signer.{permit_binding_key_candidates}
use keel_verifier.Authority.Root.{
  adjudicate_authority_root_status_temporal_v1, adjudicate_authority_root_status_temporal_v2,
}
use keel_verifier.Authority.Root.Events.{
  root_status_events, root_status_v2_events, root_event_valid, root_v2_event_valid,
}
use keel_verifier.Authority.Root.Standing.{
  IsStanding, IsEnabled, root_status_v1-IsStanding, root_status_v2-IsEnabled,
}
use keel_verifier.Examples.Delegations.{library, trust_root, document}
use keel_verifier.Examples.Revocations.{manifest}

abbrev common : String → String → Fields → Fields
common status time more = field "project_id" (str "project") (
    field "root_principal_type" (str "user") (
      field "root_principal_id" (str "alice") (
        field "actor_id" (str "admin") (
          field "actor_kind" (str "user") (
            field "previous_status" null (
              field "status" (str status) (
                field "status_changed_at" (str time) (
                  field "effective_at" (str time) (
                    field "last_attested_at" null (
                      field "attestation_valid_until" null (
                        field "suspension_due_at" null (
                          field "needs_reattestation_at" null (
                            field "suspended_at" null
                              (field "signature" (str "DD") more))))))))))))))

abbrev pub active_event : Json
active_event = obj (common "active" "t1" end)

abbrev pub disabled_at : String → Json
disabled_at time = obj (
    common "disabled" time (
      field "disabled_at" (str time) (
        field "terminal_disable_reason_code" (str "closed")
          (field "terminal_disable_source_event_id" (str "e1") end))))

abbrev with_status : Fields
with_status =
    field "root_status_events" (arr (cons active_event nil))
      (field "root_status_v2_events" (arr (cons (disabled_at "t9") nil)) document)

stands :
    adjudicate_authority_root_status_temporal_v1 library manifest none
      (some "m")
      (some trust_root)
      with_status
    ≡ supported
unfolding adjudicate_authority_root_status_temporal_v1 chain_edges_in_order authority_key_records
    parse_iso_or_none root_status_events root_event_valid eq permit_binding_key_candidates
    filter_by_active_window covers verify_ed25519
stands = refl

root_status_v1-IsStanding_example :
    IsStanding library manifest none (some "m") (some trust_root) with_status
root_status_v1-IsStanding_example =
    root_status_v1-IsStanding library manifest none (some "m") (some trust_root) with_status stands

enabled :
    adjudicate_authority_root_status_temporal_v2 library manifest none
      (some "m")
      (some trust_root)
      with_status
    ≡ supported
unfolding adjudicate_authority_root_status_temporal_v2 chain_edges_in_order authority_key_records
    parse_iso_or_none root_status_events root_event_valid eq permit_binding_key_candidates
    filter_by_active_window covers verify_ed25519 root_status_v2_events root_v2_event_valid
enabled = refl

root_status_v2-IsEnabled_example :
    IsEnabled library manifest none (some "m") (some trust_root) with_status
root_status_v2-IsEnabled_example =
    root_status_v2-IsEnabled library manifest none (some "m") (some trust_root) with_status enabled

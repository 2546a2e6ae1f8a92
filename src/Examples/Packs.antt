-- ===== src/Examples/Packs.antt =====
-- A pack of an allowed permit on the delegations of Delegations, with an event that disables the root
-- before the resolution.
use keel_verifier.Base.{◌≡◌, refl, none, some}
use keel_verifier.Json.{Json, str, arr, obj, nil, cons, Fields, end, field, eq}
use keel_verifier.Authority.Outcome.{supported, refused}
use keel_verifier.Authority.Chain.{
  envelope_version, authority_digest, adjudicate_permit_authority_chain_v1,
}
use keel_verifier.Authority.Edges.{chain_edges_in_order}
use keel_verifier.Authority.Chain.Signed.{check_edge}
use keel_verifier.Authority.Keys.{
  authority_public_key, authority_key_records, revocation_temporal_code,
}
use keel_verifier.Authority.Library.{verify_ed25519}
use keel_verifier.Authority.Chain.Payload.{expected_payload}
use keel_verifier.Authority.Chain.Narrowing.{walk_edges}
use keel_verifier.Authority.Values.{member, subset}
use keel_verifier.Authority.Verbs.{
  authority_action_verb_subset, text_subset, canonical_action_verb, authority_set_subset,
}
use keel_verifier.Authority.Resources.{authority_resource_subset}
use keel_verifier.Authority.Constraints.{authority_constraints_subset}
use keel_verifier.Authority.Temporal.{adjudicate_authority_revocation_temporal_v1}
use keel_verifier.Trust.Window.{parse_iso_or_none, filter_by_active_window, covers}
use keel_verifier.Authority.Revocation.Events.{edge_status_events}
use keel_verifier.Authority.Signer.{permit_binding_key_candidates}
use keel_verifier.Authority.Revocation.{adjudicate_authority_edge_revocation_v1}
use keel_verifier.Authority.Root.{
  root_disabled_at_resolution, adjudicate_authority_root_status_temporal_v1,
  adjudicate_authority_root_status_temporal_v2,
}
use keel_verifier.Authority.Root.Events.{
  root_status_events, root_event_valid, root_status_v2_events, root_v2_event_valid,
}
use keel_verifier.Proofs.{iterate, pack_claim, signed_edge_status_events}
use keel_verifier.Proofs.Allow.{AllowClaims, pack_document, allow_pack_claims}
use keel_verifier.Proofs.Sound.{IsSound, allow_pack-IsSound}
use keel_verifier.Proofs.Dropped.{disables_dropped}
use keel_verifier.Examples.Delegations.{
  library, trust_root, permit, chain_payload, root_edge, leaf_edge,
}
use keel_verifier.Examples.Revocations.{manifest}
use keel_verifier.Examples.Roots.{active_event, disabled_at}

abbrev inputs : Json
inputs = obj (
    field "permit" (obj permit) (
      field "resolution_time" (str "t5")
        (field "requested_action" (obj (field "kind" (str "pay") end)) end)))

abbrev chain_claim : Json
chain_claim = obj (
    field "claim" (str "permit.authority_chain.v1") (
      field "required_pack_inputs" inputs (
        field "authority_chain" (obj (field "payload" chain_payload end))
          (field "authority_edges" (arr (cons root_edge (cons leaf_edge nil))) end))))

abbrev in_payload : Json → Json
in_payload event = obj (field "payload" event end)

abbrev root_claim : Json
root_claim = obj (
    field "claim" (str "authority.root_status_temporal.v2") (
      field "root_status_events" (arr (cons (in_payload active_event) nil))
        (field "root_status_v2_events" (arr (cons (in_payload (disabled_at "t5")) nil)) end)))

abbrev pack : Fields
pack = field "authority_chain_proofs" (arr (cons chain_claim (cons root_claim nil))) end

abbrev action_class_map : Fields
action_class_map = field "pay" (arr (cons (str "money") nil)) end

abbrev claims : AllowClaims
claims = record {
  chain = supported;
  revocation_temporal = supported;
  root_v1 = supported;
  root_v2 = supported;
  edge_revocation = supported;
}

allows :
    allow_pack_claims library manifest none
      (some "m")
      (some trust_root)
      pack
      (some action_class_map)
    ≡ some claims
unfolding allow_pack_claims eq envelope_version authority_digest
    adjudicate_permit_authority_chain_v1 chain_edges_in_order check_edge authority_public_key
    authority_key_records revocation_temporal_code verify_ed25519 expected_payload walk_edges member
    subset authority_action_verb_subset text_subset canonical_action_verb authority_set_subset
    authority_resource_subset authority_constraints_subset
    adjudicate_authority_revocation_temporal_v1 parse_iso_or_none filter_by_active_window covers
    edge_status_events permit_binding_key_candidates adjudicate_authority_edge_revocation_v1
    adjudicate_authority_root_status_temporal_v1 adjudicate_authority_root_status_temporal_v2
    root_status_events root_event_valid root_status_v2_events root_v2_event_valid iterate pack_claim
    signed_edge_status_events
allows = refl

allow_pack-IsSound_example :
    (d : Fields) × (pack_document pack (some action_class_map) ≡ some d)
    × IsSound library manifest none (some "m") (some trust_root) d
allow_pack-IsSound_example =
    allow_pack-IsSound library manifest none (some "m") (some trust_root) pack
      (some action_class_map) claims allows
      (record {
        chain = refl;
        revocation_temporal = refl;
        root_v1 = refl;
        root_v2 = refl;
        edge_revocation = refl;
      })

disables_dropped_example : ¬ (claims.root_v2 ≡ refused root_disabled_at_resolution)
disables_dropped_example =
    disables_dropped library manifest none (some "m") (some trust_root) pack (some action_class_map)
      claims allows

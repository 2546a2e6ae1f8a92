-- ===== src/Examples/Revocations.antt =====
-- The two delegations of Delegations, the second of them revoked, and the pack of a refusal.
use keel_verifier.Base.{◌≡◌, String, refl, Option, none, some, List, [], ◌∷◌, ◌++◌}
use keel_verifier.Json.{Json, str, arr, obj, nil, cons, Fields, end, field, get, eq}
use keel_verifier.Authority.Outcome.{supported, refused, raised}
use keel_verifier.Authority.Library.{verify_ed25519}
use keel_verifier.Authority.Keys.{
  authority_key_records, revocation_temporal_code, record_of, authority_public_key,
  signing_key_valid,
}
use keel_verifier.Authority.Edges.{chain_edges_in_order}
use keel_verifier.Authority.Temporal.{
  adjudicate_authority_revocation_temporal_v1, IsUntaintedChain, temporal_iff,
}
use keel_verifier.Authority.Chain.{
  envelope_version, authority_digest, adjudicate_permit_authority_chain_v1,
}
use keel_verifier.Authority.Chain.Empty.{empty_chain_raises}
use keel_verifier.Authority.Revocation.{
  edge_revoked_at_or_before_resolution, adjudicate_authority_edge_revocation_v1,
}
use keel_verifier.Trust.Window.{parse_iso_or_none, filter_by_active_window, covers}
use keel_verifier.CoSignature.Base64Url.{is_sha256_hex}
use keel_verifier.Authority.Revocation.Events.{edge_status_events, status_error, canonical_hash}
use keel_verifier.Authority.Revocation.Verdict.{
  EachHarmless, SomeRevokes, edge_revocation-EachHarmless, edge_revocation-SomeRevokes,
}
use keel_verifier.Proofs.{iterate, signed_edge_status_events}
use keel_verifier.Proofs.Recorded.{not_anchored, contiguity_failure}
use keel_verifier.Proofs.Denial.{
  edge_with, overall_of, judged, all_explained, disproved, insufficient, explained, edges_missing,
  failed, denial_pack_claims,
}
use keel_verifier.Proofs.Overall.{last_chain_decides}
use keel_verifier.Proofs.Laws.{IsRefusal, denial-IsRefusal}
use keel_verifier.Examples.Delegations.{
  library, trust_root, document, no_manifest, root_digest, leaf_digest, chain_digest, root_edge,
  leaf_edge, permit,
}

untainted :
    adjudicate_authority_revocation_temporal_v1 library no_manifest document none (some trust_root)
    ≡ supported
unfolding adjudicate_authority_revocation_temporal_v1 authority_key_records revocation_temporal_code
untainted = refl

temporal_iff_example :
    IsUntaintedChain library.fromisoformat
      (chain_edges_in_order (authority_key_records no_manifest (some trust_root) none) document)
temporal_iff_example =
    (temporal_iff library no_manifest document none (some trust_root)).0 untainted

abbrev empty_payload : Fields
empty_payload = field "edge_digests" (arr nil) end

abbrev empty_document : Fields
empty_document = field "permit" (obj permit) (
    field "authority_chain" (obj (field "payload" (obj empty_payload) end))
      (field "authority_edges" (arr nil) end))

empty_chain_raises_example :
    adjudicate_permit_authority_chain_v1 library no_manifest empty_document none none ≡ raised
unfolding envelope_version authority_digest
empty_chain_raises_example =
    empty_chain_raises library no_manifest empty_document none none permit
      (field "payload" (obj empty_payload) end) empty_payload nil (3 ∷ []) refl refl refl refl refl
      refl refl refl

abbrev pub binding_key : Fields
binding_key =
    field "purpose" (str "permit_binding_signing") (field "public_key" (str "ed25519:CC") end)

abbrev pub manifest : String → Option (List Fields)
manifest source = some (binding_key ∷ [])

-- A revocation of the second edge at a time.
abbrev event : String → Json
event time = obj (
    field "event_type" (str "key.status.v1") (
      field "account_id" (str "project") (
        field "key_scope" (str "authority_edge") (
          field "key_id" (str leaf_digest) (
            field "status" (str "revoked") (
              field "revoked_at" (str time) (
                field "signer"
                  (obj (
                    field "purpose" (str "permit_binding_signing")
                      (field "key_id" (str "p1") (field "algorithm" (str "ed25519") end))))
                  (field "event_hash" (str chain_digest) (field "signature" (str "DD") end)))))))))

abbrev with_event : String → Fields
with_event time = field "edge_status_events" (arr (cons (event time) nil)) document

later :
    adjudicate_authority_edge_revocation_v1 library manifest none
      (with_event "t9")
      (some "m")
      (some trust_root)
    ≡ supported
unfolding adjudicate_authority_edge_revocation_v1 chain_edges_in_order authority_key_records
    parse_iso_or_none edge_status_events status_error is_sha256_hex eq canonical_hash
    filter_by_active_window covers verify_ed25519
later = refl

edge_revocation-EachHarmless_example :
    EachHarmless library manifest none (with_event "t9") (some "m") (some trust_root)
edge_revocation-EachHarmless_example =
    edge_revocation-EachHarmless library manifest none (with_event "t9") (some "m")
      (some trust_root) later

revoked :
    adjudicate_authority_edge_revocation_v1 library manifest none
      (with_event "t1")
      (some "m")
      (some trust_root)
    ≡ refused edge_revoked_at_or_before_resolution
unfolding adjudicate_authority_edge_revocation_v1 chain_edges_in_order authority_key_records
    parse_iso_or_none edge_status_events status_error is_sha256_hex eq canonical_hash
    filter_by_active_window covers verify_ed25519
revoked = refl

edge_revocation-SomeRevokes_example :
    SomeRevokes library manifest none (with_event "t1") (some "m") (some trust_root)
edge_revocation-SomeRevokes_example =
    edge_revocation-SomeRevokes library manifest none (with_event "t1") (some "m") (some trust_root)
      revoked

abbrev refusal : Json
refusal = obj (
    field "decision" (str "deny") (
      field "reason" (str "agent.authority_chain_unresolvable") (
        field "subject_type" (str "agent")
          (field "subject_id" (str "worker") (field "issued_at" (str "t5") end)))))

abbrev revocation_claim : Json
revocation_claim = obj (
    field "claim" (str "authority.edge_revocation.v1") (
      field "edge_revoke_events" (arr (cons (obj (field "signed_event" (event "t1") end)) nil))
        end))

abbrev recorded_chain : Json
recorded_chain =
    obj (field "chain_edge_digests" (arr (cons (str root_digest) (cons (str leaf_digest) nil))) end)

abbrev pack : Fields
pack = field "permit_decision" (obj (field "canonical_payload" refusal end)) (
    field "authority_edges" (arr (cons root_edge (cons leaf_edge nil))) (
      field "authority_chain_proofs" (arr (cons revocation_claim nil))
        (field "recorded_chains" (arr (cons recorded_chain nil)) end)))

abbrev decided : Json → Option String → Option String
decided decision source = some "supported"

refuses :
    denial_pack_claims library manifest none (some "m") (some trust_root) decided pack
    ≡ judged all_explained (explained ∷ [])
unfolding denial_pack_claims iterate signed_edge_status_events edge_with record_of
    authority_public_key signing_key_valid contiguity_failure overall_of
    adjudicate_authority_edge_revocation_v1 chain_edges_in_order authority_key_records
    parse_iso_or_none edge_status_events status_error is_sha256_hex eq canonical_hash
    filter_by_active_window covers verify_ed25519
refuses = refl

denial-IsRefusal_example :
    (decided (get pack "permit_decision") (some "m") ≡ some "supported")
    × IsRefusal library manifest none (some "m") (some trust_root) pack
denial-IsRefusal_example =
    denial-IsRefusal library manifest none (some "m") (some trust_root) decided pack
      (explained ∷ []) refuses

last_chain_decides_example :
    (overall_of all_explained ((failed not_anchored ∷ []) ++ (edges_missing ∷ [])) ≡ insufficient)
    × (overall_of all_explained ((failed not_anchored ∷ []) ++ (failed not_anchored ∷ []))
        ≡ disproved)
last_chain_decides_example =
    last_chain_decides all_explained (failed not_anchored ∷ []) not_anchored

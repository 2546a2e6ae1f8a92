-- ===== src/Authority/Chain/Codes.antt =====
-- AUTHORITY_CHAIN_CODE_VERDICTS: the reason codes of a chain that is not supported, and the verdict of
-- each.
use keel_verifier.Base.{String, Option, none, some}
use keel_verifier.Authority.Outcome.{Outcome, supported, raised, refused}

pub data Code : Type 0 where
  typed_absence evidence_incomplete edge_digest_mismatch edge_signature_invalid : Code
  signing_key_not_valid_at_signed_at unknown_constraint_key chain_digest_mismatch : Code
  leaf_subject_mismatch root_anchor_invalid parent_edge_digest_broken cycle_detected : Code
  broadened_verbs broadened_classes broadened_resources broadened_data_classes : Code
  constraint_not_stricter budget_parent_envelope_mismatch budget_exceeds_parent : Code
  remaining_depth_not_strict max_children_exceeds_parent validity_not_subset : Code
  expired_at_resolution unmapped_action_kind action_outside_chain_scope agent_without_chain : Code

abbrev pub code_verdict : Code → String
code_verdict typed_absence = "unverifiable_scope"
code_verdict unmapped_action_kind = "unverifiable_scope"
code_verdict evidence_incomplete = "insufficient_evidence"
code_verdict agent_without_chain = "insufficient_evidence"
code_verdict _ = "disproved"

-- The verdict of the claim; `none` is an exception.
abbrev pub chain_verdict : Outcome Code → Option String
chain_verdict supported = some "supported"
chain_verdict raised = none
chain_verdict (refused code) = some (code_verdict code)

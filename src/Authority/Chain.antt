-- ===== src/Authority/Chain.antt =====
-- `_adjudicate_permit_authority_chain_v1`: whether a permit's action is within the authority that a
-- chain of signed delegations gives its subject. The messages and evidence paths of the claims are left
-- out.
pub mod Codes
pub mod Signed
pub mod Payload
pub mod Narrowing
pub mod Action
pub mod Spec
pub mod Authorised
pub mod Links
pub mod Laws
pub mod Complete
pub mod Scope
pub mod Depth
pub mod Empty
use keel_verifier.Base.{
  String, Bool, true, false, ◌&&◌, ◌||◌, not, Option, none, some, List, [], ◌∷◌, str_eq, strip,
  if◌then◌else◌,
}
use keel_verifier.Json.{
  Json, null, bool, int, str, arr, obj, Fields, get, lookup, is_null, eq, eq_str,
}
use keel_verifier.CoSignature.Base64Url.{is_sha256_hex}
use keel_verifier.Authority.Values.{has_hash}
use keel_verifier.Authority.Outcome.{Outcome, refused, require, require_some, need}
use keel_verifier.Authority.Library.{Library}
use keel_verifier.Authority.Keys.{authority_key_records}
use keel_verifier.Authority.Edges.{Edge, chain_edges_in_order}
use keel_verifier.Authority.Chain.Codes.{
  Code, typed_absence, agent_without_chain, evidence_incomplete, chain_digest_mismatch,
  leaf_subject_mismatch, root_anchor_invalid,
}
use keel_verifier.Authority.Chain.Signed.{dict_or_empty, check_edges}
use keel_verifier.Authority.Chain.Payload.{expected_payload, matches_edges, index2}
use keel_verifier.Authority.Chain.Narrowing.{walk_edges}
use keel_verifier.Authority.Chain.Action.{check_time, check_action}

-- A text that is not blank, stripped.
abbrev stripped : Json → Option String
stripped (str s) = let text = strip s in if str_eq text "" then none else some text
stripped _ = none

unfoldable pub envelope_version : Fields → Option String
unfolding strip
envelope_version permit = stripped (get permit "binding_version")

abbrev lowered : (String → String) → Option String → Option String
lowered lower none = none
lowered lower (some s) = some (lower s)

unfoldable pub authority_subject_type : (String → String) → Fields → Option String
unfolding strip
authority_subject_type lower permit = lowered lower (stripped (get permit "subject_type"))

abbrev digest_text : Json → Option String
digest_text (str s) = if is_sha256_hex s then some s else none
digest_text _ = none

unfoldable pub authority_digest : Fields → Option String
unfolding is_sha256_hex
authority_digest permit = digest_text (get permit "authority_chain_digest")

abbrev pub is_text : Option String → String → Bool
is_text none s = false
is_text (some t) s = str_eq t s

-- `v in {"user", "service_principal"}`: a value with no hash raises.
abbrev anchors : Json → Option Bool
anchors v = if has_hash v then some (eq_str v "user" || eq_str v "service_principal") else none

-- The root edge has no parent, and a delegator of the right type.
abbrev pub root_anchored : Fields → Option Fields → Option Bool
root_anchored root none = if is_null (get root "parent_edge_digest") then none else some false
root_anchored root (some delegator) =
    if is_null (get root "parent_edge_digest")
    then anchors (get delegator "principal_type")
    else some false

-- `{root_payload["delegator"]["principal_id"]}`
abbrev pub first_seen : Option Json → Option (List Json)
first_seen none = none
first_seen (some v) = if has_hash v then some (v ∷ []) else none

module _ (library : Library) where
  -- What comes behind the checks of the chain's payload.
  abbrev pub check_root : Fields → Fields → Edge → List Edge → Outcome Code
  check_root input_doc payload root edges =
      require_some (root_anchored root.payload (dict_or_empty (lookup "delegator" root.payload)))
        root_anchor_invalid
        (need (first_seen (index2 root.payload "delegator" "principal_id")) (λ seen.
          walk_edges library seen none (root ∷ edges) (
            check_time library input_doc payload
              (check_action library.lower input_doc root edges))))

  abbrev pub check_matching : Fields → Fields → Fields → Edge → List Edge → Fields → Outcome Code
  check_matching input_doc permit payload root edges expected =
      require (matches_edges permit payload expected) chain_digest_mismatch (
        require (eq (get payload "leaf_principal_id") (get permit "subject_id"))
          leaf_subject_mismatch (check_root input_doc payload root edges))

  -- Without an edge, `payloads[0]` raises.
  abbrev pub check_expected : Fields → Fields → Fields → List Edge → Outcome Code
  check_expected input_doc permit payload edges =
      need (expected_payload edges (get payload "policy_version")) (λ expected. elim edges [
        | [] ↦ Outcome.raised
        | root ∷ more ↦ check_matching input_doc permit payload root more expected
      ])

  abbrev pub check_payload : Fields → Fields → String → List Edge → Json → Outcome Code
  check_payload input_doc permit digest edges (obj payload) =
      need (library.rfc8785_dumps (obj payload)) (λ bytes.
        require (str_eq (library.sha256_hex bytes) digest) chain_digest_mismatch
          (check_expected input_doc permit payload edges))
  check_payload input_doc permit digest edges _ = refused evidence_incomplete

  abbrev pub check_chain : Fields → Fields → String → Json → Option (List Edge) → Outcome Code
  check_chain input_doc permit digest (obj chain) (some edges) =
      check_edges library edges (check_payload input_doc permit digest edges (get chain "payload"))
  check_chain input_doc permit digest _ edges = refused evidence_incomplete

  abbrev pub without_digest : Fields → Outcome Code
  without_digest permit =
      if is_text (authority_subject_type library.lower permit) "agent"
      then refused agent_without_chain
      else refused typed_absence

  abbrev pub by_digest : List Fields → Fields → Fields → Option String → Outcome Code
  by_digest entries input_doc permit none = without_digest permit
  by_digest entries input_doc permit (some digest) =
      check_chain input_doc permit digest (get input_doc "authority_chain")
        (chain_edges_in_order entries input_doc)

  abbrev pub by_permit : List Fields → Fields → Json → Outcome Code
  by_permit entries input_doc (obj permit) =
      require (is_text (envelope_version permit) "v7") typed_absence
        (by_digest entries input_doc permit (authority_digest permit))
  by_permit entries input_doc _ = refused evidence_incomplete

  -- `load` is `_load_key_manifest`, with `none` for an exception.
  unfoldable pub adjudicate_permit_authority_chain_v1 :
      (load : String → Option (List Fields)) (input_doc : Fields)
      (key_manifest_source : Option String) (trust_root : Option Fields)
      → Outcome Code
  unfolding authority_key_records
  adjudicate_permit_authority_chain_v1 load input_doc key_manifest_source trust_root =
      by_permit (authority_key_records load trust_root key_manifest_source) input_doc
        (get input_doc "permit")

-- ===== src/Proofs/Allow.antt =====
-- `_allow_pack_claims` and `adjudicate_authority_chain_proof_document`: the five claims on a pack whose
-- permit was allowed, and the loop over the packs.
use keel_verifier.Base.{
  String, Bool, true, Option, none, some, List, [], ◌∷◌, ◌++◌, map, filter, if◌then◌else◌,
}
use keel_verifier.Json.{Json, str, arr, obj, nil, Fields, end, field, get, to_list, or_else, eq_str}
use keel_verifier.Authority.Values.{characters}
use keel_verifier.Authority.Outcome.{Outcome}
use keel_verifier.Authority.Library.{Library}
use keel_verifier.Authority.Keys.{TemporalCode}
use keel_verifier.Authority.Chain.{adjudicate_permit_authority_chain_v1}
use keel_verifier.Authority.Chain.Codes.{Code}
use keel_verifier.Authority.Temporal.{adjudicate_authority_revocation_temporal_v1}
use keel_verifier.Authority.Revocation.{RevocationCode, adjudicate_authority_edge_revocation_v1}
use keel_verifier.Authority.Root.{
  RootCode, adjudicate_authority_root_status_temporal_v1,
  adjudicate_authority_root_status_temporal_v2,
}
use keel_verifier.Proofs.{iterate, dicts_of, dict_or_falsy, pack_claim, signed_edge_status_events}
use keel_verifier.Proofs.Denial.{Composite, denial_pack_claims, objects}

-- The claims of a pack, in the order of the adjudicators.
pub record AllowClaims : Type 0 where
  pub chain : Outcome Code
  pub revocation_temporal : Outcome (Option TemporalCode)
  pub root_v1 : Outcome RootCode
  pub root_v2 : Outcome RootCode
  pub edge_revocation : Outcome RevocationCode

-- `_pack_claim(pack, name) or {}`; `none` is an exception.
abbrev pub claim_or_empty : Option (Option Fields) → Option Fields
claim_or_empty none = none
claim_or_empty (some none) = some end
claim_or_empty (some (some claim)) = some claim

-- `(v or []) + (w or [])`
abbrev joined : Json → Json → Option (List Json)
joined (arr xs) (arr ys) = some (to_list xs ++ to_list ys)
joined (str s) (str t) = some (characters s ++ characters t)
joined _ w = none

abbrev or_empty_list : Json → Json
or_empty_list v = or_else v (arr nil)

abbrev payloads : List Fields → List Fields
payloads [] = []
payloads (event ∷ events) = elim (get event "payload") [
  | obj payload ↦ payload ∷ payloads events
  | _ ↦ payloads events
]

abbrev payloads_in : Option (List Json) → Option (List Fields)
payloads_in none = none
payloads_in (some vs) = some (payloads (dicts_of vs))

abbrev pub root_events : Option Fields → Option (List Fields)
root_events none = none
root_events (some claim) = payloads_in (
    joined (or_empty_list (get claim "root_status_events"))
      (or_empty_list (get claim "root_status_v2_events")))

abbrev pub with_map : Option Fields → Fields
with_map none = end
with_map (some action_class_map) = field "action_class_map" (obj action_class_map) end

abbrev pub allow_document :
    Fields → Option Fields → Fields → Fields → List Fields → List Fields → Fields
allow_document pack action_class_map claim inputs edge_events root_status_events =
    field "permit" (get inputs "permit") (
      field "authority_chain" (get claim "authority_chain") (
        field "authority_edges" (get claim "authority_edges") (
          field "resolution_time"
            (or_else (get inputs "resolution_time") (get pack "resolution_time"))
            (field "requested_action" (get inputs "requested_action") (
              field "edge_status_events" (arr (objects edge_events)) (
                field "root_status_events" (arr (objects root_status_events))
                  (with_map action_class_map)))))))

abbrev pub from_inputs :
    Fields
    → Option Fields
    → Fields
    → Option Fields
    → Option (List Fields)
    → Option (List Fields)
    → Option Fields
from_inputs pack action_class_map claim (some inputs) (some edge_events) (some events) =
    some (allow_document pack action_class_map claim inputs edge_events events)
from_inputs pack action_class_map claim inputs edge_events events = none

abbrev pub from_claim : Fields → Option Fields → Option Fields → Option Fields
from_claim pack action_class_map none = none
from_claim pack action_class_map (some claim) =
    from_inputs pack action_class_map claim (dict_or_falsy (get claim "required_pack_inputs"))
      (signed_edge_status_events pack)
      (root_events (claim_or_empty (pack_claim pack "authority.root_status_temporal.v2")))

-- The document that the five adjudicators are given.
unfoldable pub pack_document : Fields → Option Fields → Option Fields
unfolding pack_claim
pack_document pack action_class_map =
    from_claim pack action_class_map (claim_or_empty (pack_claim pack "permit.authority_chain.v1"))

-- What a pack gives: the claims of an allowed permit, those of a refusal, or none.
pub data PackResult : Type 0 where
  allowed : AllowClaims → PackResult
  denied : Composite → PackResult
  no_claims pack_fails : PackResult

abbrev published_map : Option Fields → Option Fields
published_map none = none
published_map (some root) = elim (get root "action_class_map") [
  | obj published ↦ some published
  | _ ↦ none
]

abbrev class_map : Option Fields → Option Fields → Option Fields
class_map (some given) root = some given
class_map none root = published_map root

abbrev selects : Option String → Fields → Bool
selects none pack = true
selects (some permit_id) pack = eq_str (get pack "permit_id") permit_id

module _ (library : Library) (load : String → Option (List Fields)) (trusted source : Option String)
    (trust_root : Option Fields) where
  abbrev pub claims_on : Fields → AllowClaims
  claims_on document = record {
    chain = adjudicate_permit_authority_chain_v1 library load document source trust_root;
    revocation_temporal =
        adjudicate_authority_revocation_temporal_v1 library load document source trust_root;
    root_v1 =
        adjudicate_authority_root_status_temporal_v1 library load trusted source trust_root
          document;
    root_v2 =
        adjudicate_authority_root_status_temporal_v2 library load trusted source trust_root
          document;
    edge_revocation =
        adjudicate_authority_edge_revocation_v1 library load trusted document source trust_root;
  }

  abbrev pub claims_if : Option Fields → Option AllowClaims
  claims_if none = none
  claims_if (some document) = some (claims_on document)

  -- A claim that raises is `raised` among the claims, and stops the code.
  unfoldable pub allow_pack_claims : Fields → Option Fields → Option AllowClaims
  unfolding pack_document
  allow_pack_claims pack action_class_map = claims_if (pack_document pack action_class_map)

  abbrev allowed_if : Option AllowClaims → PackResult
  allowed_if none = pack_fails
  allowed_if (some claims) = allowed claims

  -- `decide` is the verdict of `_adjudicate_permit_decision_v1`.
  module _ (decide : Json → Option String → Option String) where
    abbrev pub pack_result : Option Fields → Fields → PackResult
    pack_result action_class_map pack =
        if eq_str (get pack "chain_proof_status") "assembled"
        then allowed_if (allow_pack_claims pack action_class_map)
        else if eq_str (get pack "chain_proof_status") "assembled_denial"
        then denied (denial_pack_claims library load trusted source trust_root decide pack)
        else no_claims

    abbrev results_if :
        Option Fields → Option String → Option (List Json) → Option (List (Fields × PackResult))
    results_if action_class_map permit_id none = none
    results_if action_class_map permit_id (some vs) = some (
        map (λ pack. (pack, pack_result action_class_map pack))
          (filter (selects permit_id) (dicts_of vs)))

    -- Each selected pack with its result; `none` is an exception of the loop.
    unfoldable pub adjudicate_authority_chain_proof_document :
        (document : Fields) (action_class_map : Option Fields) (permit_id : Option String)
        → Option (List (Fields × PackResult))
    unfolding allow_pack_claims iterate
    adjudicate_authority_chain_proof_document document action_class_map permit_id =
        results_if (class_map action_class_map trust_root) permit_id
          (iterate (get document "authority_chain_proofs"))

-- ===== src/Proofs/Denial.antt =====
-- `_denial_pack_claims`: the composite claim on a refusal.
use keel_verifier.Base.{
  String, Bool, true, false, ◌&&◌, ◌||◌, Option, none, some, List, [], ◌∷◌, all, map, str_eq,
  if◌then◌else◌,
}
use keel_verifier.Json.{
  Json, arr, obj, Items, nil, cons, Fields, end, field, get, is_null, eq, eq_str, of_list,
}
use keel_verifier.Authority.Values.{has_hash}
use keel_verifier.Authority.Outcome.{Outcome, supported, raised, refused}
use keel_verifier.Authority.Library.{Library}
use keel_verifier.Authority.Keys.{authority_key_records}
use keel_verifier.Authority.Chain.Narrowing.{dict_at}
use keel_verifier.Authority.Revocation.{
  RevocationCode, edge_revoked_at_or_before_resolution, status_evidence_missing,
  adjudicate_authority_edge_revocation_v1,
}
use keel_verifier.Proofs.{iterate, dicts_of, signed_edge_status_events}
use keel_verifier.Proofs.Recorded.{Failure, edge_failure, contiguity_failure}

-- What the loop says of one recorded chain.
pub data ChainResult : Type 0 where
  explained edges_missing unexplained chain_raises : ChainResult
  failed : Failure → ChainResult

pub data Overall : Type 0 where
  all_explained disproved insufficient : Overall

-- What the pack's composite claim is. `judged` carries the results of the chains.
pub data Composite : Type 0 where
  permit_unverified not_a_refusal no_chain pack_raises : Composite
  judged : Overall → List ChainResult → Composite

-- How `overall` changes with a chain.
unfoldable pub next_overall : Overall → ChainResult → Overall
next_overall overall explained = overall
next_overall overall edges_missing = insufficient
next_overall overall (failed f) = disproved
next_overall overall unexplained = elim overall [ all_explained ↦ insufficient | o ↦ o ]
next_overall overall chain_raises = overall

unfoldable pub overall_of : Overall → List ChainResult → Overall
unfolding next_overall
overall_of overall [] = overall
overall_of overall (r ∷ rs) = overall_of (next_overall overall r) rs

-- The values under which a dict of edges is built have a hash.
abbrev pub hashable_digests : List Fields → Bool
hashable_digests edges = all (λ e. has_hash (get e "edge_digest")) edges

abbrev later_or : Option Fields → Bool → Fields → Option Fields
later_or (some later) here edge = some later
later_or none true edge = some edge
later_or none false edge = none

-- `edges_by_digest.get(digest)`: of several edges with one digest, the last.
unfoldable pub edge_with : List Fields → Json → Option Fields
edge_with [] digest = none
edge_with (edge ∷ edges) digest =
    later_or (edge_with edges digest) (eq (get edge "edge_digest") digest) edge

abbrev cons_found : Option Fields → Option (List Fields) → Option (List Fields)
cons_found none rest = none
cons_found (some e) none = none
cons_found (some e) (some es) = some (e ∷ es)

-- The edges of the digests, all of which must be there.
abbrev pub edges_with : List Fields → List Json → Option (List Fields)
edges_with supplied [] = some []
edges_with supplied (d ∷ ds) = cons_found (edge_with supplied d) (edges_with supplied ds)

abbrev pub objects : List Fields → Items
objects [] = nil
objects (d ∷ ds) = cons (obj d) (objects ds)

-- The document on which the revocation of a chain is adjudicated.
abbrev pub chain_document : List Json → List Fields → Json → List Fields → Fields
chain_document digests edges resolution_time events =
    field "authority_chain"
      (obj (field "payload" (obj (field "edge_digests" (arr (of_list digests)) end)) end))
      (field "authority_edges" (arr (objects edges)) (
        field "resolution_time" resolution_time
          (field "edge_status_events" (arr (objects events)) end)))

abbrev pub is_refusal : Fields → Bool
is_refusal signed =
    eq_str (get signed "decision") "deny"
    && eq_str (get signed "reason") "agent.authority_chain_unresolvable"
    && eq_str (get signed "subject_type") "agent"
    && is_null (get signed "authority_chain_digest")

abbrev pub has_raised : ChainResult → Bool
has_raised chain_raises = true
has_raised _ = false

abbrev pub any_raised : List ChainResult → Bool
any_raised [] = false
any_raised (r ∷ rs) = has_raised r || any_raised rs

abbrev pub conclude : List ChainResult → Composite
conclude rs = if any_raised rs then pack_raises else judged (overall_of all_explained rs) rs

abbrev pub explain : Outcome RevocationCode → ChainResult
explain (refused edge_revoked_at_or_before_resolution) = explained
explain (refused status_evidence_missing) = unexplained
explain supported = unexplained
explain raised = chain_raises

-- `_edge_failure(...) or _contiguity_failure(...)`, and then the revocation.
abbrev pub after_checks : Outcome Failure → ChainResult → ChainResult
after_checks supported next = next
after_checks raised next = chain_raises
after_checks (refused f) next = failed f

module _ (library : Library) (load : String → Option (List Fields)) (trusted : Option String)
    (source : Option String) (trust_root : Option Fields) where
  abbrev pub judge_edges : Fields → List Fields → List Json → Option (List Fields) → ChainResult
  judge_edges signed events digests none = edges_missing
  judge_edges signed events digests (some []) = edges_missing
  judge_edges signed events digests (some (edge ∷ edges)) =
      after_checks
        (edge_failure library (authority_key_records load trust_root source) (edge ∷ edges)
          (contiguity_failure (get signed "subject_id") edge edges))
        (explain (
          adjudicate_authority_edge_revocation_v1 library load trusted
            (chain_document digests (edge ∷ edges) (get signed "issued_at") events) source
            trust_root))

  abbrev pub judge_digests : Fields → List Fields → List Fields → Option (List Json) → ChainResult
  judge_digests signed events supplied none = chain_raises
  judge_digests signed events supplied (some digests) =
      if all has_hash digests
      then judge_edges signed events digests (edges_with supplied digests)
      else chain_raises

  unfoldable pub judge_chain : Fields → List Fields → List Fields → Fields → ChainResult
  unfolding edge_failure
  judge_chain signed events supplied chain =
      judge_digests signed events supplied (iterate (get chain "chain_edge_digests"))

  abbrev pub judge_chains : Fields → List Fields → List Fields → List Fields → Composite
  judge_chains signed events supplied [] = no_chain
  judge_chains signed events supplied (chain ∷ chains) =
      conclude (map (judge_chain signed events supplied) (chain ∷ chains))

  abbrev pub judge_pack :
      Fields → Option (List Json) → Option (List Fields) → Option (List Json) → Composite
  judge_pack signed (some supplied) (some events) (some chains) =
      if hashable_digests (dicts_of supplied)
      then judge_chains signed events (dicts_of supplied) (dicts_of chains)
      else pack_raises
  judge_pack signed supplied events chains = pack_raises

  abbrev pub judge_refusal : Fields → Fields → Composite
  judge_refusal pack signed =
      if is_refusal signed
      then judge_pack signed (iterate (get pack "authority_edges")) (signed_edge_status_events pack)
          (iterate (get pack "recorded_chains"))
      else not_a_refusal

  abbrev pub judge_signed : Fields → Option Fields → Composite
  judge_signed pack none = pack_raises
  judge_signed pack (some signed) = judge_refusal pack signed

  -- `pack["permit_decision"]["canonical_payload"]`
  abbrev pub canonical_payload : Fields → Option Fields
  canonical_payload pack = elim (dict_at pack "permit_decision") [
    | none ↦ none
    | some decision ↦ dict_at decision "canonical_payload"
  ]

  abbrev pub by_verdict : Fields → Option String → Composite
  by_verdict pack none = pack_raises
  by_verdict pack (some verdict) =
      if str_eq verdict "supported"
      then judge_signed pack (canonical_payload pack)
      else permit_unverified

  -- `decide` is the verdict of `_adjudicate_permit_decision_v1` on the permit decision under a manifest,
  -- with `none` for an exception.
  unfoldable pub denial_pack_claims :
      (decide : Json → Option String → Option String) → Fields → Composite
  unfolding judge_chain
  denial_pack_claims decide pack = by_verdict pack (decide (get pack "permit_decision") source)

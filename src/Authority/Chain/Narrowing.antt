-- ===== src/Authority/Chain/Narrowing.antt =====
-- The second loop of `_adjudicate_permit_authority_chain_v1`: each edge continues the edge before it,
-- reaches a new principal, and narrows what that edge grants.
use keel_verifier.Base.{
  ℕ, String, Bool, false, not, Option, none, some, List, [], ◌∷◌, ltb, if◌then◌else◌,
}
use keel_verifier.Json.{Json, null, obj, Fields, get, lookup, as_dict, is_null, eq}
use keel_verifier.Trust.Window.{parse_iso_or_none}
use keel_verifier.Authority.Values.{gt, member, has_hash}
use keel_verifier.Authority.Verbs.{authority_set_subset, authority_action_verb_subset}
use keel_verifier.Authority.Resources.{authority_resource_subset}
use keel_verifier.Authority.Constraints.{authority_constraints_subset, either}
use keel_verifier.Authority.Outcome.{Outcome, require, require_some, refuse_if, need}
use keel_verifier.Authority.Library.{Library}
use keel_verifier.Authority.Edges.{Edge}
use keel_verifier.Authority.Chain.Codes.{
  Code, parent_edge_digest_broken, cycle_detected, broadened_verbs, broadened_classes,
  broadened_resources, broadened_data_classes, constraint_not_stricter,
  budget_parent_envelope_mismatch, budget_exceeds_parent, remaining_depth_not_strict,
  max_children_exceeds_parent, validity_not_subset,
}
use keel_verifier.Authority.Chain.Signed.{dict_or_empty}
use keel_verifier.Authority.Chain.Payload.{index2}

-- `d[k]`, of which a key is read next.
abbrev pub dict_at : Fields → String → Option Fields
dict_at d k = elim (lookup k d) [ none ↦ none | some v ↦ as_dict v ]

-- `v in seen` for a set: a value with no hash raises.
abbrev pub in_set : List Json → Json → Option Bool
in_set seen v = if has_hash v then some (member seen v) else none

abbrev pub envelope_mismatch : Json → Json → Bool
envelope_mismatch (obj parent) (obj child) =
    not (eq (get child "parent_budget_envelope_id") (get parent "budget_envelope_id"))
envelope_mismatch null child = not (is_null child)
envelope_mismatch _ child = false

abbrev pub exceeds_budget : Json → Json → Option Bool
exceeds_budget (obj parent) (obj child) =
    gt (get child "allocated_usd_micros") (get parent "allocated_usd_micros")
exceeds_budget _ child = some false

-- `parent_max is not None and child_max is not None and child_max > parent_max`
abbrev pub exceeds_max : Json → Json → Option Bool
exceeds_max child parent =
    if is_null parent then some false else if is_null child then some false else gt child parent

-- `t < u` of two times, either of which may be `None`.
abbrev pub earlier : Option ℕ → Option ℕ → Option Bool
earlier none u = none
earlier (some t) none = none
earlier (some t) (some u) = some (ltb t u)

-- The delegator of an edge is the delegate of the edge before it, whose digest it carries.
abbrev pub check_link : Option Edge → Edge → Outcome Code → Outcome Code
check_link none edge next = next
check_link (some previous) edge next =
    require (eq (get edge.payload "delegator") (get previous.payload "delegate"))
      parent_edge_digest_broken
      (require (eq (get edge.payload "parent_edge_digest") (get previous.fields "edge_digest"))
        parent_edge_digest_broken next)

module _ (library : Library) where
  abbrev pub time_at : Fields → String → (Option ℕ → Outcome Code) → Outcome Code
  time_at payload bound next =
      need (index2 payload "validity" bound) (λ v. next (parse_iso_or_none library.fromisoformat v))

  abbrev pub outside_window : Option ℕ → Option ℕ → Option ℕ → Option ℕ → Option Bool
  outside_window start parent_start stop parent_stop =
      either (earlier start parent_start) (earlier parent_stop stop)

  abbrev pub check_window : Fields → Fields → Outcome Code → Outcome Code
  check_window child parent next = time_at child "not_before" (λ start.
      time_at parent "not_before" (λ parent_start. time_at child "not_after" (λ stop.
        time_at parent "not_after" (λ parent_stop.
          refuse_if (outside_window start parent_start stop parent_stop) validity_not_subset
            next))))

  abbrev pub check_policy : Fields → Fields → Outcome Code → Outcome Code
  check_policy child parent next = need (index2 child "creation_policy" "remaining_depth") (λ depth.
      need (index2 parent "creation_policy" "remaining_depth") (λ parent_depth.
        require_some (gt parent_depth depth) remaining_depth_not_strict (
          need (index2 parent "creation_policy" "max_children") (λ parent_max.
            need (index2 child "creation_policy" "max_children") (λ child_max.
              refuse_if (exceeds_max child_max parent_max) max_children_exceeds_parent next)))))

  abbrev pub check_budget : Json → Json → Outcome Code → Outcome Code
  check_budget parent child next =
      require (not (envelope_mismatch parent child)) budget_parent_envelope_mismatch
        (refuse_if (exceeds_budget parent child) budget_exceeds_parent next)

  abbrev pub check_scope : Fields → Fields → Outcome Code → Outcome Code
  check_scope child parent next =
      require
        (authority_action_verb_subset library.lower (get child "action_verbs")
          (get parent "action_verbs"))
        broadened_verbs
        (require_some
          (authority_set_subset (get child "action_classes") (get parent "action_classes"))
          broadened_classes
          (require (authority_resource_subset (get child "resources") (get parent "resources"))
            broadened_resources
            (require_some
              (authority_set_subset (get child "data_classes") (get parent "data_classes"))
              broadened_data_classes
              (require_some
                (authority_constraints_subset (get child "constraints") (get parent "constraints"))
                constraint_not_stricter next))))

  abbrev pub check_payloads : Fields → Fields → Outcome Code → Outcome Code
  check_payloads child parent next = need (dict_at parent "scope") (λ parent_scope.
      need (dict_at child "scope") (λ child_scope. check_scope child_scope parent_scope (
        check_budget (get parent "budget_partition") (get child "budget_partition")
          (check_policy child parent (check_window child parent next)))))

  abbrev pub check_narrower : Option Edge → Edge → Outcome Code → Outcome Code
  check_narrower none edge next = next
  check_narrower (some previous) edge next = check_payloads edge.payload previous.payload next

  -- The loop over the edges behind `previous`; `seen` holds the principals so far.
  unfoldable pub walk_edges : List Json → Option Edge → List Edge → Outcome Code → Outcome Code
  walk_edges seen previous [] next = next
  walk_edges seen previous (edge ∷ edges) next = check_link previous edge (
      need (dict_or_empty (lookup "delegate" edge.payload)) (λ delegate.
        let delegate_id = get delegate "principal_id" in
        refuse_if (in_set seen delegate_id) cycle_detected
          (check_narrower previous edge (walk_edges (delegate_id ∷ seen) (some edge) edges next))))

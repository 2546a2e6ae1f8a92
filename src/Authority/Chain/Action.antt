-- ===== src/Authority/Chain/Action.antt =====
-- The last checks of `_adjudicate_permit_authority_chain_v1`: the time of the resolution, and the
-- requested action.
use keel_verifier.Base.{ℕ, String, Bool, false, ◌&&◌, Option, none, some, List, leb, if◌then◌else◌}
use keel_verifier.Json.{Json, str, arr, obj, nil, cons, Fields, get, lookup, has_key}
use keel_verifier.Trust.Window.{parse_iso_or_none}
use keel_verifier.Authority.Verbs.{
  authority_set_subset, canonical_action_verb, authority_action_verb_subset,
}
use keel_verifier.Authority.Outcome.{Outcome, supported, refused, require, require_some, need}
use keel_verifier.Authority.Library.{Library}
use keel_verifier.Authority.Edges.{Edge}
use keel_verifier.Authority.Chain.Codes.{
  Code, expired_at_resolution, unmapped_action_kind, action_outside_chain_scope,
}
use keel_verifier.Authority.Chain.Payload.{last_edge}
use keel_verifier.Authority.Chain.Narrowing.{dict_at}

abbrev pub in_window : Option ℕ → Option ℕ → Option ℕ → Bool
in_window (some time) (some start) (some stop) = leb start time && leb time stop
in_window _ start stop = false

abbrev pub check_time : Library → Fields → Fields → Outcome Code → Outcome Code
check_time library input_doc payload next =
    require
      (in_window (parse_iso_or_none library.fromisoformat (get input_doc "resolution_time"))
        (parse_iso_or_none library.fromisoformat (get payload "effective_not_before"))
        (parse_iso_or_none library.fromisoformat (get payload "effective_not_after")))
      expired_at_resolution next

abbrev pub requested_kind : Json → Option String
requested_kind (obj action) = elim (get action "kind") [ str s ↦ some s | _ ↦ none ]
requested_kind _ = none

-- What the map holds for the canonical kind, or else for the kind as it was written.
abbrev pub classes_of : Fields → String → String → Option Json
classes_of action_class_map kind raw =
    if has_key action_class_map kind
    then lookup kind action_class_map
    else lookup raw action_class_map

abbrev pub within_scope : (String → String) → Json → String → Fields → Outcome Code
within_scope lower classes kind scope =
    require_some (authority_set_subset classes (get scope "action_classes"))
      action_outside_chain_scope
      (require
        (authority_action_verb_subset lower (arr (cons (str kind) nil)) (get scope "action_verbs"))
        action_outside_chain_scope supported)

abbrev pub check_classes : (String → String) → Edge → String → Option Json → Outcome Code
check_classes lower leaf kind none = refused unmapped_action_kind
check_classes lower leaf kind (some classes) =
    need (dict_at leaf.payload "scope") (within_scope lower classes kind)

abbrev pub check_kind : (String → String) → Json → Edge → Option String → Outcome Code
check_kind lower (obj action_class_map) leaf (some raw) =
    let kind = canonical_action_verb lower raw in
    check_classes lower leaf kind (classes_of action_class_map kind raw)
check_kind lower _ leaf raw = refused unmapped_action_kind

abbrev pub check_action : (String → String) → Fields → Edge → List Edge → Outcome Code
check_action lower input_doc root edges =
    check_kind lower (get input_doc "action_class_map") (last_edge root edges)
      (requested_kind (get input_doc "requested_action"))

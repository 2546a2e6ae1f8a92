-- ===== src/Authority/Chain/Authorised.antt =====
-- An authorised document, without the order in which the code looks.
use keel_verifier.Base.{ℕ, String, ◌≡◌, ◌≤◌, true, none, some, List, ◌∷◌, Each}
use keel_verifier.Json.{Json, str, arr, obj, nil, cons, Fields, get, lookup, eq}
use keel_verifier.Hex.{Bytes}
use keel_verifier.Trust.Window.{parse_iso_or_none}
use keel_verifier.Authority.Verbs.{
  authority_set_subset, canonical_action_verb, authority_action_verb_subset,
}
use keel_verifier.Authority.Library.{Library}
use keel_verifier.Authority.Edges.{Edge, chain_edges_in_order}
use keel_verifier.Authority.Chain.{envelope_version, authority_digest, root_anchored, first_seen}
use keel_verifier.Authority.Chain.Signed.{dict_or_empty}
use keel_verifier.Authority.Chain.Payload.{expected_payload, matches_edges, index2, last_edge}
use keel_verifier.Authority.Chain.Narrowing.{dict_at}
use keel_verifier.Authority.Chain.Action.{requested_kind, classes_of}
use keel_verifier.Authority.Chain.Spec.{IsSigned, Links}

-- The requested action, in the classes that the document maps it to, lies in the scope of the leaf.
pub record IsRequested (lower : String → String) (input_doc : Fields) (leaf : Edge) : Type 0 where
  pub raw : String
  pub kind : requested_kind (get input_doc "requested_action") ≡ some raw
  pub action_class_map : Fields
  pub has_map : get input_doc "action_class_map" ≡ obj action_class_map
  pub classes : Json
  pub mapped : classes_of action_class_map (canonical_action_verb lower raw) raw ≡ some classes
  pub scope : Fields
  pub has_scope : dict_at leaf.payload "scope" ≡ some scope
  pub in_classes : authority_set_subset classes (get scope "action_classes") ≡ some true
  pub in_verbs :
      authority_action_verb_subset lower
        (arr (cons (str (canonical_action_verb lower raw)) nil))
        (get scope "action_verbs")
      ≡ true

-- The times between which the document resolves the permit.
pub record IsTimely (library : Library) (input_doc payload : Fields) : Type 0 where
  pub time : ℕ
  pub start : ℕ
  pub stop : ℕ
  pub resolves :
      parse_iso_or_none library.fromisoformat (get input_doc "resolution_time") ≡ some time
  pub starts :
      parse_iso_or_none library.fromisoformat (get payload "effective_not_before") ≡ some start
  pub stops :
      parse_iso_or_none library.fromisoformat (get payload "effective_not_after") ≡ some stop
  pub after_start : start ≤ time
  pub before_stop : time ≤ stop

-- A permit whose digest is that of the payload of a chain, which lists the edges from a root to the
-- permit's subject: signed, linked and ever narrower.
pub record IsAuthorised (library : Library) (entries : List Fields) (input_doc : Fields)
    : Type 0 where
  pub permit : Fields
  pub has_permit : get input_doc "permit" ≡ obj permit
  pub version : envelope_version permit ≡ some "v7"
  pub chain : Fields
  pub has_chain : get input_doc "authority_chain" ≡ obj chain
  pub payload : Fields
  pub has_payload : get chain "payload" ≡ obj payload
  pub bytes : Bytes
  pub encoded : library.rfc8785_dumps (obj payload) ≡ some bytes
  pub digest : authority_digest permit ≡ some (library.sha256_hex bytes)
  pub root : Edge
  pub edges : List Edge
  pub in_order : chain_edges_in_order entries input_doc ≡ some (root ∷ edges)
  pub signed : Each (IsSigned library) (root ∷ edges)
  pub expected : Fields
  pub recomputed : expected_payload (root ∷ edges) (get payload "policy_version") ≡ some expected
  pub matching : matches_edges permit payload expected ≡ true
  pub subject : eq (get payload "leaf_principal_id") (get permit "subject_id") ≡ true
  pub anchored :
      root_anchored root.payload (dict_or_empty (lookup "delegator" root.payload)) ≡ some true
  pub seen : List Json
  pub first : first_seen (index2 root.payload "delegator" "principal_id") ≡ some seen
  pub links : Links library seen none (root ∷ edges)
  pub timely : IsTimely library input_doc payload
  pub requested : IsRequested library.lower input_doc (last_edge root edges)

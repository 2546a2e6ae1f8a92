-- ===== src/Authority/Chain/Spec.antt =====
-- What a supported chain of delegations is, without the order in which the code looks.
use keel_verifier.Base.{String, ◌≡◌, true, false, Option, none, some, List, [], ◌∷◌}
use keel_verifier.Json.{Json, obj, Fields, get, lookup, eq, eq_str}
use keel_verifier.Hex.{Bytes}
use keel_verifier.Trust.Window.{parse_iso_or_none}
use keel_verifier.Authority.Values.{gt}
use keel_verifier.Authority.Verbs.{authority_set_subset, authority_action_verb_subset}
use keel_verifier.Authority.Resources.{authority_resource_subset}
use keel_verifier.Authority.Constraints.{authority_constraints_subset}
use keel_verifier.Authority.Library.{Library, verify_ed25519}
use keel_verifier.Authority.Keys.{authority_public_key, signing_key_valid}
use keel_verifier.Authority.Edges.{Edge}
use keel_verifier.Authority.Chain.Signed.{dict_or_empty, known_constraints, bound_to}
use keel_verifier.Authority.Chain.Payload.{index2}
use keel_verifier.Authority.Chain.Narrowing.{
  dict_at, in_set, envelope_mismatch, exceeds_budget, exceeds_max, outside_window,
}

-- An edge carries the digest of its payload, a signature of it under the key of its delegator, which
-- was valid when it signed, and constraints that are all known.
pub record IsSigned (library : Library) (edge : Edge) : Type 0 where
  pub bytes : Bytes
  pub encoded : library.rfc8785_dumps (obj edge.payload) ≡ some bytes
  pub digest : eq_str (get edge.fields "edge_digest") (library.sha256_hex bytes) ≡ true
  pub delegator : Fields
  pub has_delegator : dict_or_empty (lookup "delegator" edge.payload) ≡ some delegator
  pub bound : bound_to edge.key_record delegator ≡ true
  pub key : String
  pub has_key : authority_public_key edge.key_record ≡ some key
  pub verified :
      verify_ed25519 library key bytes (library.text_of (get edge.fields "signature")) ≡ true
  pub valid : signing_key_valid library.fromisoformat edge.payload edge.key_record ≡ true
  pub scope : Fields
  pub has_scope : dict_or_empty (lookup "scope" edge.payload) ≡ some scope
  pub known : known_constraints (get scope "constraints") ≡ true

-- The delegator of an edge is the delegate of the edge before it, whose digest it carries.
pub record IsLinked (previous edge : Edge) : Type 0 where
  pub delegator : eq (get edge.payload "delegator") (get previous.payload "delegate") ≡ true
  pub parent : eq (get edge.payload "parent_edge_digest") (get previous.fields "edge_digest") ≡ true

-- What an edge grants lies within what the edge before it grants.
pub record IsWithin (lower : String → String) (child parent : Fields) : Type 0 where
  pub verbs :
      authority_action_verb_subset lower (get child "action_verbs") (get parent "action_verbs")
      ≡ true
  pub classes :
      authority_set_subset (get child "action_classes") (get parent "action_classes") ≡ some true
  pub resources : authority_resource_subset (get child "resources") (get parent "resources") ≡ true
  pub data_classes :
      authority_set_subset (get child "data_classes") (get parent "data_classes") ≡ some true
  pub constraints :
      authority_constraints_subset (get child "constraints") (get parent "constraints") ≡ some true

-- The money that an edge may spend, and how deep and how wide it may delegate.
pub record IsLess (child parent : Fields) : Type 0 where
  pub envelope :
      envelope_mismatch (get parent "budget_partition") (get child "budget_partition") ≡ false
  pub budget :
      exceeds_budget (get parent "budget_partition") (get child "budget_partition") ≡ some false
  pub depth : Json
  pub has_depth : index2 child "creation_policy" "remaining_depth" ≡ some depth
  pub parent_depth : Json
  pub has_parent_depth : index2 parent "creation_policy" "remaining_depth" ≡ some parent_depth
  pub deeper : gt parent_depth depth ≡ some true
  pub parent_max : Json
  pub has_parent_max : index2 parent "creation_policy" "max_children" ≡ some parent_max
  pub max : Json
  pub has_max : index2 child "creation_policy" "max_children" ≡ some max
  pub narrower : exceeds_max max parent_max ≡ some false

-- The window of an edge lies within that of the edge before it.
pub record IsDuring (library : Library) (child parent : Fields) : Type 0 where
  pub start : Json
  pub has_start : index2 child "validity" "not_before" ≡ some start
  pub parent_start : Json
  pub has_parent_start : index2 parent "validity" "not_before" ≡ some parent_start
  pub stop : Json
  pub has_stop : index2 child "validity" "not_after" ≡ some stop
  pub parent_stop : Json
  pub has_parent_stop : index2 parent "validity" "not_after" ≡ some parent_stop
  pub inside :
      outside_window library
        (parse_iso_or_none library.fromisoformat start)
        (parse_iso_or_none library.fromisoformat parent_start)
        (parse_iso_or_none library.fromisoformat stop)
        (parse_iso_or_none library.fromisoformat parent_stop)
      ≡ some false

pub record IsNarrower (library : Library) (previous edge : Edge) : Type 0 where
  pub linked : IsLinked previous edge
  pub scope : Fields
  pub has_scope : dict_at edge.payload "scope" ≡ some scope
  pub parent_scope : Fields
  pub has_parent_scope : dict_at previous.payload "scope" ≡ some parent_scope
  pub within : IsWithin library.lower scope parent_scope
  pub less : IsLess edge.payload previous.payload
  pub during : IsDuring library edge.payload previous.payload

abbrev pub Follows : Library → Option Edge → Edge → Type 0
Follows library none edge = Unit
Follows library (some previous) edge = IsNarrower library previous edge

-- The principal that an edge delegates to is none of those seen so far.
pub record IsNew (seen : List Json) (edge : Edge) : Type 0 where
  pub delegate : Fields
  pub has_delegate : dict_or_empty (lookup "delegate" edge.payload) ≡ some delegate
  pub unseen : in_set seen (get delegate "principal_id") ≡ some false

-- Each edge narrows the edge before it and reaches a new principal.
pub data Links (library : Library) : List Json → Option Edge → List Edge → Type 0 where
  no_edge : {seen : List Json} {previous : Option Edge} → Links library seen previous []
  link :
      {seen : List Json} {previous : Option Edge} {edge : Edge} {edges : List Edge}
      → Follows library previous edge
      → (new : IsNew seen edge)
      → Links library (get new.delegate "principal_id" ∷ seen) (some edge) edges
      → Links library seen previous (edge ∷ edges)

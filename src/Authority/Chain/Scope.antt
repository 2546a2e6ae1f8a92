-- ===== src/Authority/Chain/Scope.antt =====
-- No edge of a supported chain is passed over: the requested action is within what each of them grants.
use keel_verifier.Base.{String, ◌≡◌, true, Option, none, some, List, [], ◌∷◌, Each}
use keel_verifier.Json.{Json, arr, str, obj, nil, cons, Fields, get}
use keel_verifier.Authority.Verbs.{
  authority_set_subset, canonical_action_verb, authority_action_verb_subset,
}
use keel_verifier.Authority.Verbs.Laws.{verb_subset_trans}
use keel_verifier.Authority.Values.Laws.{set_subset_trans}
use keel_verifier.Authority.Outcome.{supported}
use keel_verifier.Authority.Library.{Library}
use keel_verifier.Authority.Keys.{authority_key_records}
use keel_verifier.Authority.Edges.{Edge, chain_edges_in_order}
use keel_verifier.Authority.Chain.{adjudicate_permit_authority_chain_v1}
use keel_verifier.Authority.Chain.Payload.{last_edge}
use keel_verifier.Authority.Chain.Narrowing.{dict_at}
use keel_verifier.Authority.Chain.Action.{requested_kind, classes_of}
use keel_verifier.Authority.Chain.Spec.{IsNarrower, Links, link}
use keel_verifier.Authority.Chain.Laws.{adjudicate-IsAuthorised}

-- The scope of the edge has these verbs and these classes.
pub record Grants (lower : String → String) (verbs classes : Json) (edge : Edge) : Type 0 where
  pub scope : Fields
  pub has_scope : dict_at edge.payload "scope" ≡ some scope
  pub in_classes : authority_set_subset classes (get scope "action_classes") ≡ some true
  pub in_verbs : authority_action_verb_subset lower verbs (get scope "action_verbs") ≡ true

module _ (library : Library) (verbs classes : Json) where
  -- What an edge grants, the edge before it grants.
  Grants-previous :
      (previous edge : Edge)
      → IsNarrower library previous edge
      → Grants library.lower verbs classes edge
      → Grants library.lower verbs classes previous
  Grants-previous previous edge n g =
      let both : some g.scope ≡ some n.scope = cc (g.has_scope, n.has_scope) in
      let same : g.scope ≡ n.scope = cc both in
      let c = rw same at g.in_classes in
      let v = rw same at g.in_verbs in
      record {
        scope = n.parent_scope;
        has_scope = n.has_parent_scope;
        in_classes = set_subset_trans _ _ _ c n.within.classes;
        in_verbs = verb_subset_trans library.lower _ _ _ v n.within.verbs;
      }

  -- What the last edge grants, each edge grants.
  Grants-each :
      (seen : List Json) (previous : Option Edge) (edge : Edge) (edges : List Edge)
      → Links library seen previous (edge ∷ edges)
      → Grants library.lower verbs classes (last_edge edge edges)
      → Each (Grants library.lower verbs classes) (edge ∷ edges)
  Grants-each seen previous edge [] links g = (g, tt)
  Grants-each seen previous edge (next ∷ edges) (link f new (link n m rest)) g =
      let others =
        Grants-each (get new.delegate "principal_id" ∷ seen) (some edge) next edges (link n m rest)
          g in
      (Grants-previous edge next n others.0, others)

-- What the document asks for: the kind of the action, and the classes that its map has for the kind.
pub record Asks (lower : String → String) (input_doc : Fields) (raw : String) (classes : Json)
    : Type 0 where
  pub kind : requested_kind (get input_doc "requested_action") ≡ some raw
  pub action_class_map : Fields
  pub has_map : get input_doc "action_class_map" ≡ obj action_class_map
  pub mapped : classes_of action_class_map (canonical_action_verb lower raw) raw ≡ some classes

-- A supported claim is for a requested action whose canonical verb, and the classes that the document
-- maps it to, are in the scope of every edge of the chain.
pub requested_of_every_edge :
    (library : Library) (load : String → Option (List Fields)) (input_doc : Fields)
    (key_manifest_source : Option String) (trust_root : Option Fields)
    → adjudicate_permit_authority_chain_v1 library load input_doc key_manifest_source trust_root
      ≡ supported
    → (raw : String) × (classes : Json) × (edges : List Edge) × Asks library.lower input_doc raw
        classes
      × (chain_edges_in_order (authority_key_records load trust_root key_manifest_source) input_doc
          ≡ some edges)
      × Each
          (Grants library.lower
            (arr (cons (str (canonical_action_verb library.lower raw)) nil))
            classes)
          edges
requested_of_every_edge library load input_doc source root h =
    let a = adjudicate-IsAuthorised library load input_doc source root h in
    let r = a.requested in
    let verbs = arr (cons (str (canonical_action_verb library.lower r.raw)) nil) in
    let leaf : Grants library.lower verbs r.classes (last_edge a.root a.edges) = record {
      scope = r.scope;
      has_scope = r.has_scope;
      in_classes = r.in_classes;
      in_verbs = r.in_verbs;
    } in
    (
      r.raw,
      r.classes,
      a.root ∷ a.edges,
      record {
        kind = r.kind;
        action_class_map = r.action_class_map;
        has_map = r.has_map;
        mapped = r.mapped;
      },
      a.in_order,
      Grants-each library verbs r.classes a.seen none a.root a.edges a.links leaf,
    )

-- ===== src/Authority/Chain/Payload.antt =====
-- `_authority_chain_payload_for_edges`, and the comparison of the chain's payload with it.
use keel_verifier.Base.{
  String, Bool, true, false, ◌&&◌, ◌||◌, not, Option, none, some, List, [], ◌∷◌, map,
}
use keel_verifier.Json.{
  Json, str, arr, obj, Items, Fields, end, field, get, lookup, has_key, is_null, is_str, eq,
  of_list,
}
use keel_verifier.Authority.Values.{gt}
use keel_verifier.Authority.Edges.{Edge}

-- `d[k][j]`
abbrev pub index_in : Option Json → String → Option Json
index_in none j = none
index_in (some v) j = elim v [ obj d ↦ lookup j d | _ ↦ none ]

abbrev pub index2 : Fields → String → String → Option Json
index2 d k j = index_in (lookup k d) j

abbrev all_some : Option Json → Option (List Json) → Option (List Json)
all_some none rest = none
all_some (some v) none = none
all_some (some v) (some vs) = some (v ∷ vs)

abbrev pub each_payload : (Fields → Option Json) → List Edge → Option (List Json)
each_payload read [] = some []
each_payload read (e ∷ es) = all_some (read e.payload) (each_payload read es)

abbrev pick : Option Bool → Json → Json → Option Json
pick none v best = none
pick (some true) v best = some v
pick (some false) v best = some best

-- `max` and `min` of the values behind the best so far; the first of equal values stays.
abbrev pub best_of : (Json → Json → Option Bool) → Option Json → List Json → Option Json
best_of better none vs = none
best_of better (some best) [] = some best
best_of better (some best) (v ∷ vs) = best_of better (pick (better v best) v best) vs

abbrev pub best : (Json → Json → Option Bool) → Option (List Json) → Option Json
best better none = none
best better (some []) = none
best better (some (v ∷ vs)) = best_of better (some v) vs

abbrev pub less : Json → Json → Option Bool
less v w = gt w v

abbrev pub last_edge : Edge → List Edge → Edge
last_edge e [] = e
last_edge e (f ∷ es) = last_edge f es

-- The `edge_digest` of an edge is a text, under which the edge was found.
abbrev pub digests : List Edge → Items
digests es = of_list (map (λ e. get e.fields "edge_digest") es)

abbrev pub payload_fields :
    List Edge
    → Option Json
    → Option Json
    → Option Json
    → Option Json
    → Option Json
    → Json
    → Option Fields
payload_fields edges (some org) (some project) (some leaf) (some start) (some stop) policy = some (
    field "chain_version" (str "authority_chain.v1") (
      field "org_id" org (
        field "project_id" project (
          field "edge_digests" (arr (digests edges)) (
            field "leaf_principal_id" leaf (
              field "effective_not_before" start
                (field "effective_not_after" stop (field "policy_version" policy end))))))))
payload_fields edges _ _ _ _ _ policy = none

-- The key must be there: its value is replaced by `policy`.
abbrev pub if_there : Option Json → Option Fields → Option Fields
if_there none fields = none
if_there (some v) fields = fields

-- What `expected_chain_payload` holds once its `policy_version` is set.
unfoldable pub expected_payload : List Edge → Json → Option Fields
unfolding gt
expected_payload [] policy = none
expected_payload (e ∷ es) policy =
    let leaf = last_edge e es in
    if_there (lookup "policy_version" leaf.payload) (
      payload_fields (e ∷ es) (lookup "org_id" e.payload) (lookup "project_id" e.payload)
        (index2 leaf.payload "delegate" "principal_id")
        (best gt (each_payload (λ p. index2 p "validity" "not_before") (e ∷ es)))
        (best less (each_payload (λ p. index2 p "validity" "not_after") (e ∷ es))) policy)

abbrev pub policy_agrees : Fields → Json → Bool
policy_agrees permit policy =
    (is_null policy || is_str policy)
    && (not (has_key permit "policy_version") || eq (get permit "policy_version") policy)

abbrev pub matches_edges : Fields → Fields → Fields → Bool
matches_edges permit payload expected =
    policy_agrees permit (get payload "policy_version") && eq (obj payload) (obj expected)

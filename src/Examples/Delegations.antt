-- ===== src/Examples/Delegations.antt =====
-- A chain of two delegations, from a user to a planner and from the planner to a worker.
use keel_verifier.Base.{
  ℕ, zero, suc, ◌≡◌, ◌≤◌, ◌==◌, String, refl, true, Option, none, some, List, [], ◌∷◌, str_eq, pos,
  if◌then◌else◌, Each, length,
}
use keel_verifier.Json.{
  Json, null, int, str, arr, obj, nil, cons, Fields, end, field, get, eq, eq_str,
}
use keel_verifier.Hex.{Bytes}
use keel_verifier.Trust.Window.{Stamp, aware}
use keel_verifier.Authority.Outcome.{supported}
use keel_verifier.Authority.Library.{Library, verify_ed25519}
use keel_verifier.Authority.Edges.{Edge, chain_edges_in_order}
use keel_verifier.Authority.Keys.{authority_key_records, authority_public_key}
use keel_verifier.Authority.Values.{member, subset}
use keel_verifier.Authority.Verbs.{
  authority_action_verb_subset, text_subset, canonical_action_verb, authority_set_subset,
}
use keel_verifier.Authority.Resources.{authority_resource_subset}
use keel_verifier.Authority.Constraints.{authority_constraints_subset}
use keel_verifier.Authority.Chain.{
  envelope_version, authority_digest, adjudicate_permit_authority_chain_v1,
}
use keel_verifier.Authority.Chain.Signed.{check_edge}
use keel_verifier.Authority.Chain.Payload.{expected_payload}
use keel_verifier.Authority.Chain.Narrowing.{walk_edges}
use keel_verifier.Authority.Chain.Authorised.{IsAuthorised}
use keel_verifier.Authority.Chain.Complete.{adjudicate_iff}
use keel_verifier.Authority.Chain.Scope.{Asks, Grants, requested_of_every_edge}
use keel_verifier.Authority.Chain.Depth.{chain_length_bound}

-- Stand-ins: a dict is one byte that stands for its name, and a digest repeats a character.
abbrev named : Json → Bytes
named (obj d) =
    if eq_str (get d "name") "root"
    then 1 ∷ []
    else if eq_str (get d "name") "leaf"
    then 2 ∷ []
    else 3 ∷ []
named _ = 3 ∷ []

abbrev hex_of : Bytes → String
hex_of [] = ""
hex_of (b ∷ bs) =
    if b == 1
    then "aaaaaaaaaaaaaaaaaaaaaaaaaaaaaaaaaaaaaaaaaaaaaaaaaaaaaaaaaaaaaaaa"
    else if b == 2
    then "bbbbbbbbbbbbbbbbbbbbbbbbbbbbbbbbbbbbbbbbbbbbbbbbbbbbbbbbbbbbbbbb"
    else "cccccccccccccccccccccccccccccccccccccccccccccccccccccccccccccccc"

abbrev clock : String → Option Stamp
clock s =
    if str_eq s "t1"
    then some (aware 1)
    else if str_eq s "t5"
    then some (aware 5)
    else if str_eq s "t9"
    then some (aware 9)
    else none

abbrev as_text : Json → String
as_text (str s) = s
as_text _ = "None"

abbrev zeros : ℕ → Bytes
zeros zero = []
zeros (suc n) = 0 ∷ zeros n

abbrev pub library : Library
library = record {
  rfc8785_dumps = λ v. some (named v);
  sha256_hex = hex_of;
  b64decode = λ s. some [];
  b64decode_strict = λ s. some (zeros 64);
  canonical_json = named;
  encode_utf8 = λ s. [];
  ed25519_verify = λ key message signature. true;
  text_of = as_text;
  lower = λ s. s;
  fromisoformat = clock;
}

abbrev pub root_digest : String
root_digest = "aaaaaaaaaaaaaaaaaaaaaaaaaaaaaaaaaaaaaaaaaaaaaaaaaaaaaaaaaaaaaaaa"

abbrev pub leaf_digest : String
leaf_digest = "bbbbbbbbbbbbbbbbbbbbbbbbbbbbbbbbbbbbbbbbbbbbbbbbbbbbbbbbbbbbbbbb"

abbrev pub chain_digest : String
chain_digest = "cccccccccccccccccccccccccccccccccccccccccccccccccccccccccccccccc"

abbrev principal : String → String → Json
principal type id = obj (field "principal_id" (str id) (field "principal_type" (str type) end))

abbrev key_entry : String → String → Json
key_entry id signer = obj (
    field "key_id" (str id) (
      field "signer_id" (str signer)
        (field "public_key" (str "ed25519:AA") (field "valid_from" (str "t1") end))))

abbrev pub trust_root : Fields
trust_root =
    field "keys" (arr (cons (key_entry "k1" "alice") (cons (key_entry "k2" "planner") nil))) end

abbrev scope : Json
scope = obj (
    field "action_verbs" (arr (cons (str "pay") nil)) (
      field "action_classes" (arr (cons (str "money") nil)) (
        field "resources" (obj end)
          (field "data_classes" (arr nil) (field "constraints" (obj end) end)))))

abbrev payload_of : String → Json → Json → Json → String → ℕ → Fields
payload_of name parent delegator delegate key depth = field "name" (str name) (
    field "org_id" (str "org") (
      field "project_id" (str "project") (
        field "parent_edge_digest" parent (
          field "delegator" delegator (
            field "delegate" delegate (
              field "signed_at" (str "t1") (
                field "signing_key" (obj (field "key_id" (str key) end)) (
                  field "scope" scope (
                    field "creation_policy"
                      (obj
                        (field "remaining_depth" (int (pos depth)) (field "max_children" null end)))
                      (field "validity"
                        (obj (field "not_before" (str "t1") (field "not_after" (str "t9") end)))
                        (field "policy_version" null end)))))))))))

abbrev edge_of : String → Fields → Json
edge_of digest payload = obj (
    field "edge_digest" (str digest)
      (field "payload" (obj payload) (field "signature" (str "ed25519:BB") end)))

abbrev root_payload : Fields
root_payload =
    payload_of "root" null (principal "user" "alice") (principal "agent" "planner") "k1" 2

abbrev pub root_edge : Json
root_edge = edge_of root_digest root_payload

abbrev leaf_payload : Fields
leaf_payload =
    payload_of "leaf" (str root_digest) (principal "agent" "planner") (principal "agent" "worker")
      "k2" 1

abbrev pub leaf_edge : Json
leaf_edge = edge_of leaf_digest leaf_payload

abbrev pub chain_payload : Json
chain_payload = obj (
    field "chain_version" (str "authority_chain.v1") (
      field "org_id" (str "org") (
        field "project_id" (str "project") (
          field "edge_digests" (arr (cons (str root_digest) (cons (str leaf_digest) nil))) (
            field "leaf_principal_id" (str "worker") (
              field "effective_not_before" (str "t1")
                (field "effective_not_after" (str "t9") (field "policy_version" null end))))))))

abbrev pub permit : Fields
permit = field "binding_version" (str "v7") (
    field "subject_type" (str "agent")
      (field "subject_id" (str "worker") (field "authority_chain_digest" (str chain_digest) end)))

abbrev pub document : Fields
document = field "permit" (obj permit) (
    field "authority_chain" (obj (field "payload" chain_payload end)) (
      field "authority_edges" (arr (cons root_edge (cons leaf_edge nil))) (
        field "resolution_time" (str "t5") (
          field "requested_action" (obj (field "kind" (str "pay") end)) (
            field "action_class_map" (obj (field "pay" (arr (cons (str "money") nil)) end)) end)))))

abbrev pub no_manifest : String → Option (List Fields)
no_manifest source = none

holds :
    adjudicate_permit_authority_chain_v1 library no_manifest document none (some trust_root)
    ≡ supported
unfolding adjudicate_permit_authority_chain_v1 envelope_version authority_digest
    chain_edges_in_order check_edge eq authority_public_key verify_ed25519 expected_payload
    walk_edges member authority_action_verb_subset text_subset canonical_action_verb
    authority_set_subset subset authority_resource_subset authority_constraints_subset
holds = refl

adjudicate_iff_example :
    IsAuthorised library (authority_key_records no_manifest (some trust_root) none) document
adjudicate_iff_example =
    (adjudicate_iff library no_manifest document none (some trust_root)).0 holds

abbrev AtEveryEdge : Type 0
AtEveryEdge =
    (raw : String) × (classes : Json) × (edges : List Edge) × Asks library.lower document raw
      classes
    × (chain_edges_in_order (authority_key_records no_manifest (some trust_root) none) document
        ≡ some edges)
    × Each
        (Grants library.lower (arr (cons (str (canonical_action_verb library.lower raw)) nil))
          classes)
        edges

requested_of_every_edge_example : AtEveryEdge
requested_of_every_edge_example =
    requested_of_every_edge library no_manifest document none (some trust_root) holds

abbrev as_edge : String → Fields → Json → Edge
as_edge digest payload (obj entry) = record {
  fields =
      field "edge_digest" (str digest)
        (field "payload" (obj payload) (field "signature" (str "ed25519:BB") end));
  payload = payload;
  key_record = entry;
}
as_edge digest payload _ = record { fields = end; payload = end; key_record = end }

abbrev first_edge : Edge
first_edge = as_edge root_digest root_payload (key_entry "k1" "alice")

abbrev second_edge : Edge
second_edge = as_edge leaf_digest leaf_payload (key_entry "k2" "planner")

in_order :
    chain_edges_in_order (authority_key_records no_manifest (some trust_root) none) document
    ≡ some (first_edge ∷ second_edge ∷ [])
unfolding chain_edges_in_order authority_key_records
in_order = refl

chain_length_bound_example : length (first_edge ∷ second_edge ∷ []) ≤ suc 2
chain_length_bound_example =
    chain_length_bound library no_manifest document none (some trust_root) first_edge
      (second_edge ∷ []) 2 holds in_order refl ((1, refl), tt)

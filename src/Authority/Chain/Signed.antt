-- ===== src/Authority/Chain/Signed.antt =====
-- The first loop of `_adjudicate_permit_authority_chain_v1`: digest, signature, key and constraints
-- of each edge.
use keel_verifier.Base.{String, Bool, false, Option, none, some, List, [], ◌∷◌}
use keel_verifier.Json.{Json, obj, Fields, end, get, lookup, as_dict, eq, eq_str}
use keel_verifier.Hex.{Bytes}
use keel_verifier.Authority.Constraints.{known_keys}
use keel_verifier.Authority.Outcome.{Outcome, require, need}
use keel_verifier.Authority.Library.{Library, verify_ed25519}
use keel_verifier.Authority.Keys.{authority_public_key, signing_key_valid}
use keel_verifier.Authority.Edges.{Edge}
use keel_verifier.Authority.Chain.Codes.{
  Code, edge_digest_mismatch, edge_signature_invalid, signing_key_not_valid_at_signed_at,
  unknown_constraint_key,
}

-- `d.get(k, {})`, of which a key is read next: another value than a dict raises.
abbrev pub dict_or_empty : Option Json → Option Fields
dict_or_empty none = some end
dict_or_empty (some v) = as_dict v

abbrev pub known_constraints : Json → Bool
known_constraints (obj d) = known_keys d
known_constraints _ = false

-- `record.get("signer_id") == delegator.get("principal_id")`
abbrev pub bound_to : Fields → Fields → Bool
bound_to key_record delegator = eq (get key_record "signer_id") (get delegator "principal_id")

module _ (library : Library) where
  abbrev pub verifies_under : Option String → Edge → Bytes → Bool
  verifies_under none edge bytes = false
  verifies_under (some key) edge bytes =
      verify_ed25519 library key bytes (library.text_of (get edge.fields "signature"))

  abbrev pub check_key : Edge → Bytes → Outcome Code → Outcome Code
  check_key edge bytes next =
      require (verifies_under (authority_public_key edge.key_record) edge bytes)
        edge_signature_invalid
        (require (signing_key_valid library.fromisoformat edge.payload edge.key_record)
          signing_key_not_valid_at_signed_at
          (need (dict_or_empty (lookup "scope" edge.payload)) (λ scope.
            require (known_constraints (get scope "constraints")) unknown_constraint_key next)))

  abbrev pub check_bytes : Edge → Bytes → Outcome Code → Outcome Code
  check_bytes edge bytes next =
      require (eq_str (get edge.fields "edge_digest") (library.sha256_hex bytes))
        edge_digest_mismatch
        (need (dict_or_empty (lookup "delegator" edge.payload)) (λ delegator.
          require (bound_to edge.key_record delegator) edge_signature_invalid
            (check_key edge bytes next)))

  unfoldable pub check_edge : Edge → Outcome Code → Outcome Code
  unfolding signing_key_valid
  check_edge edge next =
      need (library.rfc8785_dumps (obj edge.payload)) (λ bytes. check_bytes edge bytes next)

  -- `next` is what the code behind the loop gives.
  abbrev pub check_edges : List Edge → Outcome Code → Outcome Code
  check_edges [] next = next
  check_edges (edge ∷ edges) next = check_edge edge (check_edges edges next)

-- ===== src/Proofs/Recorded.antt =====
-- `_edge_failure` and `_contiguity_failure`: whether the recorded edges are signed, and make a chain
-- from a root to the refused subject.
use keel_verifier.Base.{String, Bool, false, ◌||◌, Option, none, some, List, [], ◌∷◌, if◌then◌else◌}
use keel_verifier.Json.{Json, obj, Fields, get, is_null, eq, eq_str}
use keel_verifier.Hex.{Bytes}
use keel_verifier.Authority.Values.{has_hash}
use keel_verifier.Authority.Outcome.{Outcome, supported, refused, require, require_some, need}
use keel_verifier.Authority.Library.{Library, verify_ed25519}
use keel_verifier.Authority.Keys.{record_of, authority_public_key, signing_key_valid}
use keel_verifier.Authority.Edges.{key_id_of}
use keel_verifier.Authority.Chain.Signed.{bound_to}
use keel_verifier.Authority.Chain.Narrowing.{dict_at}
use keel_verifier.Proofs.{dict_or_falsy}

-- The messages of the two functions.
pub data Failure : Type 0 where
  payload_missing digest_mismatch key_not_in_trust_root key_not_bound signature_invalid : Failure
  key_not_valid not_anchored not_contiguous delegator_not_delegate leaf_not_subject : Failure

abbrev pub entry_for : List Fields → Option String → Option Fields
entry_for entries none = none
entry_for entries (some key_id) = record_of entries key_id

-- `(payload.get(field) or {}).get("principal_id")`
abbrev pub principal_of : Fields → String → (Json → Outcome Failure) → Outcome Failure
principal_of payload name next =
    need (dict_or_falsy (get payload name)) (λ d. next (get d "principal_id"))

module _ (library : Library) (entries : List Fields) where
  abbrev pub signed_by : Option String → Fields → Bytes → Bool
  signed_by none edge bytes = false
  signed_by (some key) edge bytes =
      verify_ed25519 library key bytes (library.text_of (get edge "signature"))

  abbrev pub check_entry :
      Fields → Fields → Bytes → Option Fields → Outcome Failure → Outcome Failure
  check_entry edge payload bytes none next = refused key_not_in_trust_root
  check_entry edge payload bytes (some entry) next =
      need (dict_or_falsy (get payload "delegator")) (λ delegator.
        require (bound_to entry delegator) key_not_bound (
          require (signed_by (authority_public_key entry) edge bytes) signature_invalid
            (require (signing_key_valid library.fromisoformat payload entry) key_not_valid next)))

  abbrev pub check_recorded : Fields → Json → Outcome Failure → Outcome Failure
  check_recorded edge (obj payload) next = need (library.rfc8785_dumps (obj payload)) (λ bytes.
      require (eq_str (get edge "edge_digest") (library.sha256_hex bytes)) digest_mismatch (
        check_entry edge payload bytes (entry_for entries (key_id_of (get payload "signing_key")))
          next))
  check_recorded edge _ next = refused payload_missing

  -- `next` is what comes behind `_edge_failure`, when it gives `None`.
  unfoldable pub edge_failure : List Fields → Outcome Failure → Outcome Failure
  edge_failure [] next = next
  edge_failure (edge ∷ edges) next =
      check_recorded edge (get edge "payload") (edge_failure edges next)

abbrev pub anchor_type : Json → Option Bool
anchor_type v = if has_hash v then some (eq_str v "user" || eq_str v "service_principal") else none

abbrev pub check_anchor : Fields → Outcome Failure → Outcome Failure
check_anchor root next = require (is_null (get root "parent_edge_digest")) not_anchored (
    need (dict_or_falsy (get root "delegator"))
      (λ delegator. require_some (anchor_type (get delegator "principal_type")) not_anchored next))

-- The pairs of an edge and the edge behind it, and then the leaf.
unfoldable pub check_pairs : Json → Fields → List Fields → Outcome Failure
check_pairs subject parent [] = need (dict_at parent "payload") (λ payload.
    principal_of payload "delegate" (λ leaf. require (eq leaf subject) leaf_not_subject supported))
check_pairs subject parent (child ∷ edges) = need (dict_at child "payload") (λ payload.
    require (eq (get payload "parent_edge_digest") (get parent "edge_digest")) not_contiguous (
      principal_of payload "delegator" (λ delegator. need (dict_at parent "payload") (λ above.
        principal_of above "delegate" (λ delegate.
          require (eq delegator delegate) delegator_not_delegate
            (check_pairs subject child edges))))))

-- `_contiguity_failure` of the edges, of which there is one.
unfoldable pub contiguity_failure : Json → Fields → List Fields → Outcome Failure
unfolding check_pairs
contiguity_failure subject edge edges =
    need (dict_at edge "payload") (λ root. check_anchor root (check_pairs subject edge edges))

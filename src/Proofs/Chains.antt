-- ===== src/Proofs/Chains.antt =====
-- What a recorded chain is that passes the checks.
use keel_verifier.Base.{String, ◌≡◌, refl, true, Option, none, some, List, [], ◌∷◌, Each}
use keel_verifier.Json.{Json, null, bool, int, str, arr, obj, Fields, get, is_null, eq, eq_str}
use keel_verifier.Hex.{Bytes}
use keel_verifier.Authority.Outcome.{
  Outcome, supported, require-supported, require_some-supported, need-supported,
}
use keel_verifier.Authority.Library.{Library, verify_ed25519}
use keel_verifier.Authority.Keys.{record_of, authority_public_key, signing_key_valid}
use keel_verifier.Authority.Edges.{key_id_of}
use keel_verifier.Authority.Chain.Signed.{bound_to}
use keel_verifier.Authority.Chain.Narrowing.{dict_at}
use keel_verifier.Proofs.{dict_or_falsy}
use keel_verifier.Proofs.Recorded.{
  Failure, signed_by, entry_for, check_entry, check_recorded, edge_failure, anchor_type,
  check_pairs, contiguity_failure,
}

-- An edge carries the digest of its payload and a signature of it, under a key that is bound to its
-- delegator and was valid when it signed.
pub record IsRecorded (library : Library) (entries : List Fields) (edge : Fields) : Type 0 where
  pub payload : Fields
  pub has_payload : get edge "payload" ≡ obj payload
  pub bytes : Bytes
  pub encoded : library.rfc8785_dumps (obj payload) ≡ some bytes
  pub digest : eq_str (get edge "edge_digest") (library.sha256_hex bytes) ≡ true
  pub key_id : String
  pub names_key : key_id_of (get payload "signing_key") ≡ some key_id
  pub entry : Fields
  pub in_root : record_of entries key_id ≡ some entry
  pub delegator : Fields
  pub has_delegator : dict_or_falsy (get payload "delegator") ≡ some delegator
  pub bound : bound_to entry delegator ≡ true
  pub key : String
  pub has_key : authority_public_key entry ≡ some key
  pub verified : verify_ed25519 library key bytes (library.text_of (get edge "signature")) ≡ true
  pub valid : signing_key_valid library.fromisoformat payload entry ≡ true

-- The principal under a name of the edge's payload.
pub record HasPrincipal (edge : Fields) (name : String) (id : Json) : Type 0 where
  pub payload : Fields
  pub has_payload : dict_at edge "payload" ≡ some payload
  pub holder : Fields
  pub has_holder : dict_or_falsy (get payload name) ≡ some holder
  pub is_id : get holder "principal_id" ≡ id

-- A recorded edge continues another: it carries its digest, and its delegator is the other's delegate.
pub record Continues (parent child : Fields) : Type 0 where
  pub payload : Fields
  pub has_payload : dict_at child "payload" ≡ some payload
  pub digest : eq (get payload "parent_edge_digest") (get parent "edge_digest") ≡ true
  pub delegator : Json
  pub has_delegator : HasPrincipal child "delegator" delegator
  pub delegate : Json
  pub has_delegate : HasPrincipal parent "delegate" delegate
  pub same : eq delegator delegate ≡ true

-- A chain of edges from `parent` to a delegate that is the subject.
pub data Reaches (subject : Json) : Fields → List Fields → Type 0 where
  leaf :
      {edge : Fields} {id : Json}
      → HasPrincipal edge "delegate" id
      → eq id subject ≡ true
      → Reaches subject edge []
  next :
      {parent child : Fields} {edges : List Fields}
      → Continues parent child
      → Reaches subject child edges
      → Reaches subject parent (child ∷ edges)

-- The first edge has no parent, and a user or a service principal as its delegator.
pub record IsAnchored (edge : Fields) : Type 0 where
  pub payload : Fields
  pub has_payload : dict_at edge "payload" ≡ some payload
  pub no_parent : is_null (get payload "parent_edge_digest") ≡ true
  pub delegator : Fields
  pub has_delegator : dict_or_falsy (get payload "delegator") ≡ some delegator
  pub anchor : anchor_type (get delegator "principal_type") ≡ some true

check_pairs-Reaches :
    (subject : Json) (parent : Fields) (edges : List Fields)
    → check_pairs subject parent edges ≡ supported
    → Reaches subject parent edges
unfolding check_pairs
check_pairs-Reaches subject parent [] h =
    let (payload, has_payload, a) = need-supported _ _ h in
    let (holder, has_holder, b) = need-supported _ _ a in
    let (same, rest) = require-supported _ _ _ b in
    leaf
      (record {
        payload = payload;
        has_payload = has_payload;
        holder = holder;
        has_holder = has_holder;
        is_id = refl;
      })
      same
check_pairs-Reaches subject parent (child ∷ edges) h =
    let (payload, has_payload, a) = need-supported _ _ h in
    let (digest, b) = require-supported _ _ _ a in
    let (mine, has_mine, c) = need-supported _ _ b in
    let (above, has_above, d) = need-supported _ _ c in
    let (theirs, has_theirs, e) = need-supported _ _ d in
    let (same, rest) = require-supported _ _ _ e in
    next
      (record {
        payload = payload;
        has_payload = has_payload;
        digest = digest;
        delegator = get mine "principal_id";
        has_delegator = record {
          payload = payload;
          has_payload = has_payload;
          holder = mine;
          has_holder = has_mine;
          is_id = refl;
        };
        delegate = get theirs "principal_id";
        has_delegate = record {
          payload = above;
          has_payload = has_above;
          holder = theirs;
          has_holder = has_theirs;
          is_id = refl;
        };
        same = same;
      })
      (check_pairs-Reaches subject child edges rest)

pub contiguity_failure-Reaches :
    (subject : Json) (edge : Fields) (edges : List Fields)
    → contiguity_failure subject edge edges ≡ supported
    → IsAnchored edge × Reaches subject edge edges
unfolding contiguity_failure
contiguity_failure-Reaches subject edge edges h =
    let (payload, has_payload, a) = need-supported _ _ h in
    let (no_parent, b) = require-supported _ _ _ a in
    let (delegator, has_delegator, c) = need-supported _ _ b in
    let (anchor, d) = require_some-supported _ _ _ c in
    (
      record {
        payload = payload;
        has_payload = has_payload;
        no_parent = no_parent;
        delegator = delegator;
        has_delegator = has_delegator;
        anchor = anchor;
      },
      check_pairs-Reaches subject edge edges d,
    )

module _ (library : Library) (entries : List Fields) where
  signed_by-true :
      (k : Option String) (edge : Fields) (bytes : Bytes)
      → signed_by library entries k edge bytes ≡ true
      → (key : String) × (k ≡ some key)
        × (verify_ed25519 library key bytes (library.text_of (get edge "signature")) ≡ true)
  signed_by-true none edge bytes h = cc
  signed_by-true (some key) edge bytes h = (key, refl, h)

  -- The entry of the key that the payload names.
  check_entry-some :
      (edge payload : Fields) (bytes : Bytes) (k : Option String) (rest : Outcome Failure)
      → check_entry library entries edge payload bytes (entry_for entries k) rest ≡ supported
      → (key_id : String) × (k ≡ some key_id)
        × (entry : Fields) × (record_of entries key_id ≡ some entry)
        × (check_entry library entries edge payload bytes (some entry) rest ≡ supported)
  check_entry-some edge payload bytes none rest h = cc
  check_entry-some edge payload bytes (some key_id) rest h =
      by_entry (record_of entries key_id) refl h
    where
      by_entry :
          (o : Option Fields)
          → record_of entries key_id ≡ o
          → check_entry library entries edge payload bytes o rest ≡ supported
          → (j : String) × (some key_id ≡ some j)
            × (entry : Fields) × (record_of entries j ≡ some entry)
            × (check_entry library entries edge payload bytes (some entry) rest ≡ supported)
      by_entry none e p = cc
      by_entry (some entry) e p = (key_id, refl, entry, e, p)

  check_recorded-IsRecorded :
      (edge : Fields) (v : Json) (rest : Outcome Failure)
      → get edge "payload" ≡ v
      → check_recorded library entries edge v rest ≡ supported
      → IsRecorded library entries edge × (rest ≡ supported)
  check_recorded-IsRecorded edge (obj payload) rest e h =
      let (bytes, encoded, a) = need-supported _ _ h in
      let (digest, b) = require-supported _ _ _ a in
      let (key_id, names_key, entry, in_root, c) = check_entry-some edge payload bytes _ rest b in
      let (delegator, has_delegator, d) = need-supported _ _ c in
      let (bound, f) = require-supported _ _ _ d in
      let (s, g) = require-supported _ _ _ f in
      let (valid, end) = require-supported _ _ _ g in
      let (key, has_key, verified) = signed_by-true _ edge bytes s in
      (
        record {
          payload = payload;
          has_payload = e;
          bytes = bytes;
          encoded = encoded;
          digest = digest;
          key_id = key_id;
          names_key = names_key;
          entry = entry;
          in_root = in_root;
          delegator = delegator;
          has_delegator = has_delegator;
          bound = bound;
          key = key;
          has_key = has_key;
          verified = verified;
          valid = valid;
        },
        end,
      )
  check_recorded-IsRecorded edge null rest e h = cc
  check_recorded-IsRecorded edge (bool b) rest e h = cc
  check_recorded-IsRecorded edge (int n) rest e h = cc
  check_recorded-IsRecorded edge (str s) rest e h = cc
  check_recorded-IsRecorded edge (arr xs) rest e h = cc

  pub edge_failure-IsRecorded :
      (edges : List Fields) (rest : Outcome Failure)
      → edge_failure library entries edges rest ≡ supported
      → Each (IsRecorded library entries) edges × (rest ≡ supported)
  unfolding edge_failure
  edge_failure-IsRecorded [] rest h = (tt, h)
  edge_failure-IsRecorded (edge ∷ edges) rest h =
      let (here, more) = check_recorded-IsRecorded edge _ _ refl h in
      let (others, end) = edge_failure-IsRecorded edges rest more in ((here, others), end)

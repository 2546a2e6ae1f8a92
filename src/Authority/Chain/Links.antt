-- ===== src/Authority/Chain/Links.antt =====
-- The two loops over the edges let through what the specification says, and nothing else.
use keel_verifier.Base.{
  String, ◌≡◌, refl, Bool, true, false, not, Option, none, some, List, [], ◌∷◌, Each,
}
use keel_verifier.Json.{Json, Fields, get, lookup}
use keel_verifier.Hex.{Bytes}
use keel_verifier.Authority.Outcome.{
  Outcome, supported, refuse_if, need, require-supported, require_some-supported,
  refuse_if-supported, need-supported,
}
use keel_verifier.Authority.Library.{Library, verify_ed25519}
use keel_verifier.Authority.Edges.{Edge}
use keel_verifier.Authority.Chain.Codes.{Code, cycle_detected}
use keel_verifier.Authority.Chain.Signed.{dict_or_empty, verifies_under, check_edge, check_edges}
use keel_verifier.Authority.Chain.Narrowing.{
  in_set, check_link, check_scope, check_budget, check_policy, check_window, check_narrower,
  walk_edges,
}
use keel_verifier.Authority.Chain.Spec.{
  IsSigned, IsLinked, IsWithin, IsLess, IsDuring, IsNarrower, Follows, IsNew, Links, no_edge, link,
}

module _ (library : Library) where
  verifies_under-true :
      (k : Option String) (edge : Edge) (bytes : Bytes)
      → verifies_under library k edge bytes ≡ true
      → (key : String) × (k ≡ some key)
        × (verify_ed25519 library key bytes (library.text_of (get edge.fields "signature")) ≡ true)
  verifies_under-true none edge bytes h = cc
  verifies_under-true (some key) edge bytes h = (key, refl, h)

  check_edge-IsSigned :
      (edge : Edge) (next : Outcome Code)
      → check_edge library edge next ≡ supported
      → IsSigned library edge × (next ≡ supported)
  unfolding check_edge
  check_edge-IsSigned edge next h =
      let (bytes, encoded, a) = need-supported _ _ h in
      let (digest, b) = require-supported _ _ _ a in
      let (delegator, has_delegator, c) = need-supported _ _ b in
      let (bound, d) = require-supported _ _ _ c in
      let (v, e) = require-supported _ _ _ d in
      let (valid, f) = require-supported _ _ _ e in
      let (scope, has_scope, g) = need-supported _ _ f in
      let (known, rest) = require-supported _ _ _ g in
      let (key, has_key, verified) = verifies_under-true _ edge bytes v in
      (
        record {
          bytes = bytes;
          encoded = encoded;
          digest = digest;
          delegator = delegator;
          has_delegator = has_delegator;
          bound = bound;
          key = key;
          has_key = has_key;
          verified = verified;
          valid = valid;
          scope = scope;
          has_scope = has_scope;
          known = known;
        },
        rest,
      )

  pub check_edges-IsSigned :
      (edges : List Edge) (next : Outcome Code)
      → check_edges library edges next ≡ supported
      → Each (IsSigned library) edges × (next ≡ supported)
  check_edges-IsSigned [] next h = (tt, h)
  check_edges-IsSigned (edge ∷ edges) next h =
      let (signed, rest) = check_edge-IsSigned edge _ h in
      let (others, end) = check_edges-IsSigned edges next rest in ((signed, others), end)

  check_link-IsLinked :
      (previous edge : Edge) (next : Outcome Code)
      → check_link (some previous) edge next ≡ supported
      → IsLinked previous edge × (next ≡ supported)
  check_link-IsLinked previous edge next h =
      let (delegator, a) = require-supported _ _ _ h in
      let (parent, rest) = require-supported _ _ _ a in
      (record { delegator = delegator; parent = parent }, rest)

  check_scope-IsWithin :
      (child parent : Fields) (next : Outcome Code)
      → check_scope library child parent next ≡ supported
      → IsWithin library.lower child parent × (next ≡ supported)
  check_scope-IsWithin child parent next h =
      let (verbs, a) = require-supported _ _ _ h in
      let (classes, b) = require_some-supported _ _ _ a in
      let (resources, c) = require-supported _ _ _ b in
      let (data_classes, d) = require_some-supported _ _ _ c in
      let (constraints, rest) = require_some-supported _ _ _ d in
      (
        record {
          verbs = verbs;
          classes = classes;
          resources = resources;
          data_classes = data_classes;
          constraints = constraints;
        },
        rest,
      )

  not-true : (b : Bool) → not b ≡ true → b ≡ false
  not-true true h = cc
  not-true false h = refl

  check_policy-IsLess :
      (child parent : Fields) (next : Outcome Code)
      → check_budget library
          (get parent "budget_partition")
          (get child "budget_partition")
          (check_policy library child parent next)
        ≡ supported
      → IsLess child parent × (next ≡ supported)
  check_policy-IsLess child parent next h =
      let (envelope, a) = require-supported _ _ _ h in
      let (budget, b) = refuse_if-supported _ _ _ a in
      let (depth, has_depth, c) = need-supported _ _ b in
      let (parent_depth, has_parent_depth, d) = need-supported _ _ c in
      let (deeper, e) = require_some-supported _ _ _ d in
      let (parent_max, has_parent_max, f) = need-supported _ _ e in
      let (max, has_max, g) = need-supported _ _ f in
      let (narrower, rest) = refuse_if-supported _ _ _ g in
      (
        record {
          envelope = not-true _ envelope;
          budget = budget;
          depth = depth;
          has_depth = has_depth;
          parent_depth = parent_depth;
          has_parent_depth = has_parent_depth;
          deeper = deeper;
          parent_max = parent_max;
          has_parent_max = has_parent_max;
          max = max;
          has_max = has_max;
          narrower = narrower;
        },
        rest,
      )

  check_window-IsDuring :
      (child parent : Fields) (next : Outcome Code)
      → check_window library child parent next ≡ supported
      → IsDuring library child parent × (next ≡ supported)
  check_window-IsDuring child parent next h =
      let (start, has_start, a) = need-supported _ _ h in
      let (parent_start, has_parent_start, b) = need-supported _ _ a in
      let (stop, has_stop, c) = need-supported _ _ b in
      let (parent_stop, has_parent_stop, d) = need-supported _ _ c in
      let (inside, rest) = refuse_if-supported _ _ _ d in
      (
        record {
          start = start;
          has_start = has_start;
          parent_start = parent_start;
          has_parent_start = has_parent_start;
          stop = stop;
          has_stop = has_stop;
          parent_stop = parent_stop;
          has_parent_stop = has_parent_stop;
          inside = inside;
        },
        rest,
      )

  check_narrower-IsNarrower :
      (previous edge : Edge) (next : Outcome Code)
      → IsLinked previous edge
      → check_narrower library (some previous) edge next ≡ supported
      → IsNarrower library previous edge × (next ≡ supported)
  check_narrower-IsNarrower previous edge next linked h =
      let (parent_scope, has_parent_scope, a) = need-supported _ _ h in
      let (scope, has_scope, b) = need-supported _ _ a in
      let (within, c) = check_scope-IsWithin scope parent_scope _ b in
      let (less, d) = check_policy-IsLess edge.payload previous.payload _ c in
      let (during, rest) = check_window-IsDuring edge.payload previous.payload next d in
      (
        record {
          linked = linked;
          scope = scope;
          has_scope = has_scope;
          parent_scope = parent_scope;
          has_parent_scope = has_parent_scope;
          within = within;
          less = less;
          during = during;
        },
        rest,
      )

  -- The checks of one edge, and those of the edges behind it under the principals seen by then.
  step-Links :
      (seen : List Json) (previous : Option Edge) (edge : Edge) (inner : Fields → Outcome Code)
      → check_link previous edge (
          need (dict_or_empty (lookup "delegate" edge.payload)) (λ delegate.
            refuse_if
              (in_set seen (get delegate "principal_id"))
              cycle_detected
              (check_narrower library previous edge (inner delegate))))
        ≡ supported
      → Follows library previous edge × (new : IsNew seen edge) × (inner new.delegate ≡ supported)
  step-Links seen none edge inner h =
      let (delegate, has_delegate, a) = need-supported _ _ h in
      let (unseen, rest) = refuse_if-supported _ _ _ a in
      (tt, record { delegate = delegate; has_delegate = has_delegate; unseen = unseen }, rest)
  step-Links seen (some previous) edge inner h =
      let (linked, a) = check_link-IsLinked previous edge _ h in
      let (delegate, has_delegate, b) = need-supported _ _ a in
      let (unseen, c) = refuse_if-supported _ _ _ b in
      let (narrower, rest) = check_narrower-IsNarrower previous edge _ linked c in
      (narrower, record { delegate = delegate; has_delegate = has_delegate; unseen = unseen }, rest)

  pub walk_edges-Links :
      (seen : List Json) (previous : Option Edge) (edges : List Edge) (next : Outcome Code)
      → walk_edges library seen previous edges next ≡ supported
      → Links library seen previous edges × (next ≡ supported)
  unfolding walk_edges
  walk_edges-Links seen previous [] next h = (no_edge, h)
  walk_edges-Links seen previous (edge ∷ edges) next h =
      let (follows, new, rest) = step-Links seen previous edge _ h in
      let (links, end) =
        walk_edges-Links (get new.delegate "principal_id" ∷ seen) (some edge) edges next rest in
      (link follows new links, end)

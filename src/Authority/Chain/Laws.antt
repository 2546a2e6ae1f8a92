-- ===== src/Authority/Chain/Laws.antt =====
-- What a supported chain shows of the permit's document.
use keel_verifier.Base.{
  ℕ, String, ◌≡◌, ◌≤◌, refl, Bool, true, false, Option, none, some, List, [], ◌∷◌, Each,
  if◌then◌else◌, arith,
}
use text.Mathlib.TextEquality.{eq_iff}
use keel_verifier.Json.{Json, null, bool, int, str, arr, obj, Fields, get}
use keel_verifier.Hex.{Bytes}
use keel_verifier.Authority.Verbs.{canonical_action_verb}
use keel_verifier.Authority.Outcome.{
  Outcome, supported, refused, require-supported, require_some-supported, need-supported,
}
use keel_verifier.Authority.Library.{Library}
use keel_verifier.Authority.Keys.{authority_key_records}
use keel_verifier.Authority.Edges.{Edge, chain_edges_in_order}
use keel_verifier.Authority.Chain.{
  envelope_version, authority_digest, is_text, check_matching, check_expected, check_payload,
  check_chain, by_digest, by_permit, adjudicate_permit_authority_chain_v1,
}
use keel_verifier.Authority.Chain.Codes.{Code, agent_without_chain, typed_absence}
use keel_verifier.Authority.Chain.Payload.{expected_payload, last_edge}
use keel_verifier.Authority.Chain.Action.{
  in_window, check_time, requested_kind, classes_of, check_classes, check_kind,
}
use keel_verifier.Authority.Chain.Authorised.{IsRequested, IsTimely, IsAuthorised}
use keel_verifier.Authority.Chain.Spec.{IsSigned}
use keel_verifier.Authority.Chain.Links.{check_edges-IsSigned, walk_edges-Links}

in_window-true :
    (t s u : Option ℕ)
    → in_window t s u ≡ true
    → (time : ℕ) × (start : ℕ) × (stop : ℕ) × (t ≡ some time)
      × (s ≡ some start)
      × (u ≡ some stop)
      × (start ≤ time)
      × (time ≤ stop)
in_window-true (some t) (some s) (some u) h =
    (t, s, u, refl, refl, refl, ground arith, ground arith)
in_window-true (some t) (some s) none h = cc
in_window-true (some t) none u h = cc
in_window-true none s u h = cc

is_text-true : (o : Option String) (s : String) → is_text o s ≡ true → o ≡ some s
is_text-true none s h = cc
is_text-true (some t) s h = cc ((eq_iff t s).0 h)

without_digest_refused :
    (b : Bool)
    → (if b then refused agent_without_chain else refused typed_absence) ≡ Outcome.supported
    → ⊥
without_digest_refused true h = cc
without_digest_refused false h = cc

module _ (library : Library) where
  check_time-IsTimely :
      (input_doc payload : Fields) (next : Outcome Code)
      → check_time library input_doc payload next ≡ supported
      → IsTimely library input_doc payload × (next ≡ supported)
  check_time-IsTimely input_doc payload next h =
      let (w, rest) = require-supported _ _ _ h in
      let (time, start, stop, resolves, starts, stops, after_start, before_stop) =
        in_window-true _ _ _ w in
      (
        record {
          time = time;
          start = start;
          stop = stop;
          resolves = resolves;
          starts = starts;
          stops = stops;
          after_start = after_start;
          before_stop = before_stop;
        },
        rest,
      )

module _ (lower : String → String) (input_doc : Fields) (leaf : Edge) where
  check_classes-IsRequested :
      (raw : String) (map : Fields) (classes : Option Json)
      → requested_kind (get input_doc "requested_action") ≡ some raw
      → get input_doc "action_class_map" ≡ obj map
      → classes_of map (canonical_action_verb lower raw) raw ≡ classes
      → check_classes lower leaf (canonical_action_verb lower raw) classes ≡ supported
      → IsRequested lower input_doc leaf
  check_classes-IsRequested raw map none k m c h = cc
  check_classes-IsRequested raw map (some classes) k m c h =
      let (scope, has_scope, a) = need-supported _ _ h in
      let (in_classes, b) = require_some-supported _ _ _ a in
      let (in_verbs, rest) = require-supported _ _ _ b in
      record {
        raw = raw;
        kind = k;
        action_class_map = map;
        has_map = m;
        classes = classes;
        mapped = c;
        scope = scope;
        has_scope = has_scope;
        in_classes = in_classes;
        in_verbs = in_verbs;
      }

  check_kind-IsRequested :
      (map : Json) (raw : Option String)
      → get input_doc "action_class_map" ≡ map
      → requested_kind (get input_doc "requested_action") ≡ raw
      → check_kind lower map leaf raw ≡ supported
      → IsRequested lower input_doc leaf
  check_kind-IsRequested (obj map) (some raw) m k h = check_classes-IsRequested raw map _ k m refl h
  check_kind-IsRequested (obj map) none m k h = cc
  check_kind-IsRequested null raw m k h = cc
  check_kind-IsRequested (bool b) raw m k h = cc
  check_kind-IsRequested (int n) raw m k h = cc
  check_kind-IsRequested (str s) raw m k h = cc
  check_kind-IsRequested (arr xs) raw m k h = cc

module _ (library : Library) (entries : List Fields) (input_doc : Fields) where
  module _ (permit chain payload : Fields) (bytes : Bytes) (root : Edge) (edges : List Edge)
      (has_permit : get input_doc "permit" ≡ obj permit)
      (version : envelope_version permit ≡ some "v7")
      (has_chain : get input_doc "authority_chain" ≡ obj chain)
      (has_payload : get chain "payload" ≡ obj payload)
      (encoded : library.rfc8785_dumps (obj payload) ≡ some bytes)
      (digest : authority_digest permit ≡ some (library.sha256_hex bytes))
      (in_order : chain_edges_in_order entries input_doc ≡ some (root ∷ edges))
      (signed : Each (IsSigned library) (root ∷ edges)) where
    matching-IsAuthorised :
        (expected : Fields)
        → expected_payload (root ∷ edges) (get payload "policy_version") ≡ some expected
        → check_matching library input_doc permit payload root edges expected ≡ supported
        → IsAuthorised library entries input_doc
    matching-IsAuthorised expected recomputed h =
        let (matching, a) = require-supported _ _ _ h in
        let (subject, b) = require-supported _ _ _ a in
        let (anchored, c) = require_some-supported _ _ _ b in
        let (seen, first, d) = need-supported _ _ c in
        let (links, e) = walk_edges-Links library seen none (root ∷ edges) _ d in
        let (timely, f) = check_time-IsTimely library input_doc payload _ e in
        record {
          permit = permit;
          has_permit = has_permit;
          version = version;
          chain = chain;
          has_chain = has_chain;
          payload = payload;
          has_payload = has_payload;
          bytes = bytes;
          encoded = encoded;
          digest = digest;
          root = root;
          edges = edges;
          in_order = in_order;
          signed = signed;
          expected = expected;
          recomputed = recomputed;
          matching = matching;
          subject = subject;
          anchored = anchored;
          seen = seen;
          first = first;
          links = links;
          timely = timely;
          requested =
              check_kind-IsRequested library.lower input_doc (last_edge root edges) _ _ refl refl f;
        }

  module _ (permit chain : Fields) (digest : String)
      (has_permit : get input_doc "permit" ≡ obj permit)
      (version : envelope_version permit ≡ some "v7")
      (has_digest : authority_digest permit ≡ some digest)
      (has_chain : get input_doc "authority_chain" ≡ obj chain) where
    expected-IsAuthorised :
        (payload : Fields) (bytes : Bytes) (edges : List Edge)
        → get chain "payload" ≡ obj payload
        → library.rfc8785_dumps (obj payload) ≡ some bytes
        → library.sha256_hex bytes ≡ digest
        → chain_edges_in_order entries input_doc ≡ some edges
        → Each (IsSigned library) edges
        → check_expected library input_doc permit payload edges ≡ supported
        → IsAuthorised library entries input_doc
    unfolding expected_payload
    expected-IsAuthorised payload bytes [] p b d o s h = cc
    expected-IsAuthorised payload bytes (root ∷ edges) p b d o s h =
        let (expected, e, a) = need-supported _ _ h in
        matching-IsAuthorised permit chain payload bytes root edges has_permit version has_chain p b
          (cc (d, has_digest)) o s expected e a

    payload-IsAuthorised :
        (v : Json) (edges : List Edge)
        → get chain "payload" ≡ v
        → chain_edges_in_order entries input_doc ≡ some edges
        → Each (IsSigned library) edges
        → check_payload library input_doc permit digest edges v ≡ supported
        → IsAuthorised library entries input_doc
    payload-IsAuthorised (obj payload) edges p o s h =
        let (bytes, b, a) = need-supported _ _ h in
        let (d, c) = require-supported _ _ _ a in
        expected-IsAuthorised payload bytes edges p b ((eq_iff _ _).0 d) o s c
    payload-IsAuthorised null edges p o s h = cc
    payload-IsAuthorised (bool b) edges p o s h = cc
    payload-IsAuthorised (int n) edges p o s h = cc
    payload-IsAuthorised (str t) edges p o s h = cc
    payload-IsAuthorised (arr xs) edges p o s h = cc

  chain-IsAuthorised :
      (permit : Fields) (digest : String) (v : Json) (o : Option (List Edge))
      → get input_doc "permit" ≡ obj permit
      → envelope_version permit ≡ some "v7"
      → authority_digest permit ≡ some digest
      → get input_doc "authority_chain" ≡ v
      → chain_edges_in_order entries input_doc ≡ o
      → check_chain library input_doc permit digest v o ≡ supported
      → IsAuthorised library entries input_doc
  chain-IsAuthorised permit digest (obj chain) (some edges) p v d c o h =
      let (signed, rest) = check_edges-IsSigned library edges _ h in
      payload-IsAuthorised permit chain digest p v d c _ edges refl o signed rest
  chain-IsAuthorised permit digest (obj chain) none p v d c o h = cc
  chain-IsAuthorised permit digest null es p v d c o h = cc
  chain-IsAuthorised permit digest (bool b) es p v d c o h = cc
  chain-IsAuthorised permit digest (int n) es p v d c o h = cc
  chain-IsAuthorised permit digest (str s) es p v d c o h = cc
  chain-IsAuthorised permit digest (arr xs) es p v d c o h = cc

  digest-IsAuthorised :
      (permit : Fields) (digest : Option String)
      → get input_doc "permit" ≡ obj permit
      → envelope_version permit ≡ some "v7"
      → authority_digest permit ≡ digest
      → by_digest library entries input_doc permit digest ≡ supported
      → IsAuthorised library entries input_doc
  digest-IsAuthorised permit none p v d h = absurd (without_digest_refused _ h)
  digest-IsAuthorised permit (some digest) p v d h =
      chain-IsAuthorised permit digest _ _ p v d refl refl h

  permit-IsAuthorised :
      (v : Json)
      → get input_doc "permit" ≡ v
      → by_permit library entries input_doc v ≡ supported
      → IsAuthorised library entries input_doc
  permit-IsAuthorised (obj permit) p h =
      let (v7, rest) = require-supported _ _ _ h in
      digest-IsAuthorised permit _ p (is_text-true _ _ v7) refl rest
  permit-IsAuthorised null p h = cc
  permit-IsAuthorised (bool b) p h = cc
  permit-IsAuthorised (int n) p h = cc
  permit-IsAuthorised (str s) p h = cc
  permit-IsAuthorised (arr xs) p h = cc

-- A supported claim means that the document is authorised, under the keys that the trust root or the
-- manifest gives.
pub adjudicate-IsAuthorised :
    (library : Library) (load : String → Option (List Fields)) (input_doc : Fields)
    (key_manifest_source : Option String) (trust_root : Option Fields)
    → adjudicate_permit_authority_chain_v1 library load input_doc key_manifest_source trust_root
      ≡ supported
    → IsAuthorised library (authority_key_records load trust_root key_manifest_source) input_doc
unfolding adjudicate_permit_authority_chain_v1
adjudicate-IsAuthorised library load input_doc source root =
    permit-IsAuthorised library _ input_doc _ refl

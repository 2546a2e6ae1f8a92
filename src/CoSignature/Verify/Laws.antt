-- ===== src/CoSignature/Verify/Laws.antt =====
-- What a co-signature that is supported has shown.
use keel_verifier.Base.{
  all, String, ◌≡◌, ◌⊎◌, inl, inr, refl, &&-eq-true, Bool, true, false, ◌&&◌, ◌||◌, not, Option,
  none, some, List, [], ℤ, if◌then◌else◌,
}
use keel_verifier.Json.{Json, null, bool, int, str, arr, obj, Fields, get, eq, eq_str, eq_str-eq}
use keel_verifier.Hex.{Bytes, from_hex}
use keel_verifier.CoSignature.Base64Url.{is_sha256_hex}
use keel_verifier.CoSignature.Protocol.{
  same_field, Crypto, claim_v1_fields, claim_v2_fields, v1_binding_fields, has_exactly,
  assertion_fields, credential_mismatch, insufficient_evidence, target_decision_unsupported,
  version_unsupported, disproved, unverifiable_scope, algorithm_mismatch, algorithm_unsupported,
  permit_binding_mismatch, same_signer, same_challenge, origin_allowed, client_fields, decode,
}
use keel_verifier.CoSignature.Verify.{
  supported_algorithm, check_authenticator, check_texts, check_client, check_algorithm,
  check_bindings, check_shape, check_v1, check_v2, decision_supported, decision_bound,
  verify_protocol,
}
use keel_verifier.CoSignature.Verify.Tests.{
  Passes, Passes-if, Passes-not, second-true, third-true, IsSigned, IsPresent,
  check_flags-IsPresent, by_key,
}

module _ {P256 Ed25519 : Type 0} (crypto : Crypto P256 Ed25519) where
  -- The assertion is the answer of a registered authenticator to the challenge of this permit.
  pub record IsAssertion (registered assertion : Fields) (origins : Option (List String))
      (uv : Bool) (permit_hash : String) : Type 0 where
    pub algorithm : ℤ
    pub known : supported_algorithm algorithm ≡ true
    pub claimed : get assertion "cose_alg" ≡ int algorithm
    pub client : Bytes
    pub has_client : decode crypto (get assertion "client_data_json") ≡ some client
    pub challenge : String
    pub origin : String
    pub parsed : client_fields (crypto.json_loads client) ≡ some ("webauthn.get", challenge, origin)
    pub answers : same_challenge (decode crypto (str challenge)) (from_hex permit_hash) ≡ true
    pub allowed : origin_allowed origins origin ≡ true
    pub auth : Bytes
    pub has_auth : decode crypto (get assertion "authenticator_data") ≡ some auth
    pub present : IsPresent crypto registered uv auth
    pub signed : IsSigned crypto registered assertion algorithm auth client

  module _ (registered assertion : Fields) (origins : Option (List String)) (uv : Bool)
      (permit_hash : String) where
    module _ (algorithm : ℤ) (client : Bytes) where
      -- The authenticator's data, and what it carries.
      by_auth :
          (a : Option Bytes)
          → decode crypto (get assertion "authenticator_data") ≡ a
          → Passes (check_authenticator crypto registered assertion algorithm uv client a)
          → (auth : Bytes) × (decode crypto (get assertion "authenticator_data") ≡ some auth)
            × IsPresent crypto registered uv auth
            × IsSigned crypto registered assertion algorithm auth client
      by_auth none e p = absurd p
      by_auth (some auth) e p =
          let q = check_flags-IsPresent crypto registered uv auth _ p in
          (auth, e, q.0, by_key crypto registered assertion algorithm auth client _ refl q.1)

      by_texts :
          (t : Option (String × String × String))
          → client_fields (crypto.json_loads client) ≡ t
          → supported_algorithm algorithm ≡ true
          → get assertion "cose_alg" ≡ int algorithm
          → decode crypto (get assertion "client_data_json") ≡ some client
          → Passes
              (check_texts crypto registered assertion algorithm uv origins permit_hash client t)
          → IsAssertion registered assertion origins uv permit_hash
      by_texts none e k c h p = absurd p
      by_texts (some (type, challenge, origin)) e k c h p =
          let t = Passes-not _ _ _ (λ x. x) p in
          let a = Passes-not _ _ _ (λ x. x) t.1 in
          let o = Passes-not _ _ _ (λ x. x) a.1 in
          let (auth, has_auth, present, signed) = by_auth _ refl o.1 in
          let webauthn = eq_str-eq (str type) "webauthn.get" t.0 in
          record {
            algorithm = algorithm;
            known = k;
            claimed = c;
            client = client;
            has_client = h;
            challenge = challenge;
            origin = origin;
            parsed = cc (e, webauthn);
            answers = a.0;
            allowed = o.0;
            auth = auth;
            has_auth = has_auth;
            present = present;
            signed = signed;
          }

    by_client :
        (algorithm : ℤ) (c : Option Bytes)
        → decode crypto (get assertion "client_data_json") ≡ c
        → supported_algorithm algorithm ≡ true
        → get assertion "cose_alg" ≡ int algorithm
        → Passes (check_client crypto registered assertion algorithm uv origins permit_hash c)
        → IsAssertion registered assertion origins uv permit_hash
    by_client algorithm none e k a p = absurd p
    by_client algorithm (some client) e k a p = by_texts algorithm client _ refl k a e p

    by_algorithm :
        (v : Json)
        → get assertion "cose_alg" ≡ v
        → Passes (check_algorithm crypto registered assertion uv origins permit_hash v)
        → IsAssertion registered assertion origins uv permit_hash
    by_algorithm (int algorithm) e p =
        let a =
          Passes-not (eq (int algorithm) (get registered "cose_alg")) (disproved algorithm_mismatch)
            _ (λ x. x) p in
        let b =
          Passes-not (supported_algorithm algorithm) (unverifiable_scope algorithm_unsupported) _
            (λ x. x) a.1 in
        by_client algorithm _ refl b.0 e b.1
    by_algorithm null e p = absurd p
    by_algorithm (bool b) e p = absurd p
    by_algorithm (str s) e p = absurd p
    by_algorithm (arr xs) e p = absurd p
    by_algorithm (obj d) e p = absurd p

  -- What a claim that is supported shows: its signer is the registered one, and its assertion
  -- answers to the hash that the claim carries.
  pub record IsCoSigned (claim registered : Fields) (origins : Option (List String)) (uv : Bool)
      : Type 0 where
    pub same : same_signer claim registered ≡ true
    pub assertion : Fields
    pub has_assertion : get claim "assertion" ≡ obj assertion
    pub same_credential : same_field assertion registered "credential_id" ≡ true
    pub permit_hash : String
    pub is_assertion : IsAssertion registered assertion origins uv permit_hash

  module _ (claim target registered : Fields) (origins : Option (List String)) (uv : Bool) where
    by_shape :
        (claim_fields binding_fields : List String) (a h : Json)
        → get claim "assertion" ≡ a
        → Passes
            (check_shape crypto claim target registered origins uv claim_fields binding_fields a h)
        → (c : IsCoSigned claim registered origins uv) × (h ≡ str c.permit_hash)
          × (all (same_field claim target) binding_fields ≡ true)
    by_shape claim_fields binding_fields (obj assertion) (str permit_hash) e p =
        let next =
          check_bindings crypto claim target registered origins uv binding_fields assertion
            permit_hash in
        let s =
          Passes-not (has_exactly claim_fields claim && has_exactly assertion_fields assertion)
            (disproved permit_binding_mismatch) next (λ x. x) p in
        let b =
          Passes-if
            (not (is_sha256_hex permit_hash)
              || not (all (same_field claim target) binding_fields)
              || not (same_signer claim registered))
            (disproved permit_binding_mismatch)
            (if not (same_field assertion registered "credential_id")
              then disproved credential_mismatch
              else check_algorithm crypto registered assertion uv origins permit_hash
                  (get assertion "cose_alg"))
            (λ x. x) s.1 in
        let c =
          Passes-not (same_field assertion registered "credential_id")
            (disproved credential_mismatch) _ (λ x. x) b.1 in
        (
          record {
            same = third-true (is_sha256_hex permit_hash) _ _ b.0;
            assertion = assertion;
            has_assertion = e;
            same_credential = c.0;
            permit_hash = permit_hash;
            is_assertion = by_algorithm registered assertion origins uv permit_hash _ refl c.1;
          },
          refl,
          second-true (is_sha256_hex permit_hash) _ (same_signer claim registered) b.0,
        )
    by_shape claim_fields binding_fields (obj assertion) null e p = absurd p
    by_shape claim_fields binding_fields (obj assertion) (bool b) e p = absurd p
    by_shape claim_fields binding_fields (obj assertion) (int n) e p = absurd p
    by_shape claim_fields binding_fields (obj assertion) (arr xs) e p = absurd p
    by_shape claim_fields binding_fields (obj assertion) (obj d) e p = absurd p
    by_shape claim_fields binding_fields null h e p = absurd p
    by_shape claim_fields binding_fields (bool b) h e p = absurd p
    by_shape claim_fields binding_fields (int n) h e p = absurd p
    by_shape claim_fields binding_fields (str s) h e p = absurd p
    by_shape claim_fields binding_fields (arr xs) h e p = absurd p

    -- The hash that the challenge answers to: in version 1 that of the permit, on whose fields the
    -- claim agrees with the target, and in version 2 that of the decision, which the target names.
    abbrev pub BoundHash : String → Type 0
    BoundHash h =
        ((get claim "payload_type" ≡ str "permit.co_signature.v1")
          × (get claim "permit_canonical_hash" ≡ str h)
          × (all (same_field claim target) v1_binding_fields ≡ true))
        ⊎ ((get claim "payload_type" ≡ str "permit.co_signature.v2")
            × (get claim "permit_decision_canonical_hash" ≡ str h)
            × (get target "verdict" ≡ str "supported")
            × (eq (str h) (get target "binding_canonical_hash") ≡ true))

    -- The claim and the hash that it carries, bound to the target.
    abbrev pub Shown : Type 0
    Shown = (c : IsCoSigned claim registered origins uv) × BoundHash c.permit_hash

    by_version :
        (one two : Bool)
        → eq_str (get claim "payload_type") "permit.co_signature.v1" ≡ one
        → eq_str (get claim "payload_type") "permit.co_signature.v2" ≡ two
        → Passes (
            if one
            then check_v1 crypto claim target registered origins uv
            else if two
            then check_v2 crypto claim target registered origins uv
            else unverifiable_scope version_unsupported)
        → Shown
    by_version true two e f p =
        let (c, h, same) =
          by_shape claim_v1_fields v1_binding_fields (get claim "assertion")
            (get claim "permit_canonical_hash") refl p in
        (c, inl (eq_str-eq _ _ e, h, same))
    by_version false false e f p = absurd p
    by_version false true e f p =
        let d =
          Passes-not (decision_supported crypto claim target registered origins uv)
            (insufficient_evidence target_decision_unsupported) _ (λ x. x) p in
        let b =
          Passes-not (decision_bound crypto claim target registered origins uv)
            (disproved permit_binding_mismatch) _ (λ x. x) d.1 in
        let (c, h, same) =
          by_shape claim_v2_fields [] (get claim "assertion")
            (get claim "permit_decision_canonical_hash") refl b.1 in
        let verdict =
          (&&-eq-true (eq_str (get target "claim_name") "permit.decision.v1") _ d.0).1 in
        let bound =
          (&&-eq-true (same_field claim target "permit_id")
            (eq (get claim "permit_decision_canonical_hash") (get target "binding_canonical_hash"))
            b.0).1 in
        (c, inr (eq_str-eq _ _ f, h, eq_str-eq _ _ verdict, rw h at bound))

  -- A supported co-signature is by the signer and the credential of the registered key, answers to
  -- the hash of the permit or of its decision that the claim carries and shares with the target, comes
  -- from an allowed origin and the registered party, has the user present (and verified when that is
  -- required), and its signature verifies under the registered key.
  pub verify_protocol-IsCoSigned :
      (claim target registered : Fields) (origins : Option (List String)) (uv : Bool)
      → Passes (verify_protocol crypto (some claim) (some target) (some registered) origins uv)
      → (c : IsCoSigned claim registered origins uv) × BoundHash claim target registered origins uv
          c.permit_hash
  unfolding verify_protocol
  verify_protocol-IsCoSigned claim target registered origins uv p =
      by_version claim target registered origins uv _ _ refl refl p

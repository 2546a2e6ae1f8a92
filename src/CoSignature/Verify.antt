-- ===== src/CoSignature/Verify.antt =====
-- keel_verifier/permit_co_signature.py: `verify_protocol`, one function per stretch of its checks,
-- in the order of the code.
pub mod Tests
pub mod Laws
use keel_verifier.Base.{
  ℕ, String, Bool, true, false, ◌&&◌, ◌||◌, not, Option, none, some, List, [], ◌∷◌, ◌++◌, ℤ, negsuc,
  eqz, length, take, all, ltb, ◌==◌, if◌then◌else◌,
}
use keel_verifier.Json.{Json, null, bool, int, str, arr, obj, Fields, get, eq, eq_str}
use keel_verifier.Hex.{Bytes, from_hex}
use keel_verifier.CoSignature.Reader.{byte_at, slice, from_big}
use keel_verifier.CoSignature.Der.{valid_es256_der}
use keel_verifier.CoSignature.Cbor.{eq_bytes}
use keel_verifier.CoSignature.Base64Url.{is_sha256_hex}
use keel_verifier.CoSignature.Protocol.{
  Crypto, Reason, evidence_missing, version_unsupported, algorithm_unsupported,
  target_decision_unsupported, permit_binding_mismatch, credential_mismatch, algorithm_mismatch,
  client_data_invalid, type_invalid, challenge_mismatch, origin_not_allowed,
  authenticator_data_invalid, rp_id_hash_mismatch, user_presence_required,
  user_verification_required, signature_malformed, invalid_signature, CoSignatureResult,
  insufficient_evidence, disproved, unverifiable_scope, supported, PublicKey, es256, eddsa,
  claim_v1_fields, claim_v2_fields, assertion_fields, v1_binding_fields, has_exactly, same_field,
  has_flag, same_signer, client_fields, same_challenge, origin_allowed, decode,
  decode_cose_public_key,
}

abbrev pub well_formed_signature : ℤ → Bytes → Bool
well_formed_signature algorithm signature =
    (not (eqz algorithm (negsuc 6)) || valid_es256_der signature)
    && (not (eqz algorithm (negsuc 7)) || length signature == 64)

abbrev pub supported_algorithm : ℤ → Bool
supported_algorithm algorithm = eqz algorithm (negsuc 6) || eqz algorithm (negsuc 7)

module _ {P256 Ed25519 : Type 0} (crypto : Crypto P256 Ed25519) where
  abbrev pub verifies : PublicKey P256 Ed25519 → Bytes → Bytes → Bool
  verifies (es256 key) signature signed = crypto.verify_es256 key signature signed
  verifies (eddsa key) signature signed = crypto.verify_eddsa key signature signed

  abbrev pub signed_data : Bytes → Bytes → Bytes
  signed_data auth client = auth ++ crypto.sha256 client

  abbrev pub rp_matches : Json → Bytes → Bool
  rp_matches (str rp_id) auth = eq_bytes (take 32 auth) (crypto.sha256 (crypto.encode_utf8 rp_id))
  rp_matches _ auth = false

  abbrev pub check_signature :
      ℤ → Bytes → Bytes → PublicKey P256 Ed25519 → Option Bytes → CoSignatureResult
  check_signature algorithm auth client key none = disproved signature_malformed
  check_signature algorithm auth client key (some signature) =
      if not (well_formed_signature algorithm signature)
      then disproved signature_malformed
      else if not (verifies key signature (signed_data auth client))
      then disproved invalid_signature
      else let flags = byte_at auth 32 in
        supported flags (has_flag 8 flags) (has_flag 16 flags) (from_big (slice auth 33 4))

  abbrev pub check_key :
      ℤ → Bytes → Bytes → Option (PublicKey P256 Ed25519) → Option Bytes → CoSignatureResult
  check_key algorithm auth client none signature = disproved algorithm_mismatch
  check_key algorithm auth client (some key) signature =
      check_signature algorithm auth client key signature

  -- `next` is what the checks behind these give.
  abbrev pub check_flags : Bool → Json → Bytes → CoSignatureResult → CoSignatureResult
  check_flags user_verification rp_id auth next =
      let flags = byte_at auth 32 in
      if ltb (length auth) 37 || (has_flag 16 flags && not (has_flag 8 flags))
      then disproved authenticator_data_invalid
      else if not (rp_matches rp_id auth)
      then disproved rp_id_hash_mismatch
      else if not (has_flag 1 flags)
      then disproved user_presence_required
      else if user_verification && not (has_flag 4 flags)
      then disproved user_verification_required
      else next

  module _ (registered assertion : Fields) (algorithm : ℤ) (user_verification : Bool) where
    abbrev pub check_authenticator : Bytes → Option Bytes → CoSignatureResult
    check_authenticator client none = disproved authenticator_data_invalid
    check_authenticator client (some auth) =
        check_flags user_verification (get registered "rp_id") auth (
          check_key algorithm auth client
            (decode_cose_public_key crypto (get registered "public_key_cose") algorithm)
            (decode crypto (get assertion "signature")))

    abbrev pub check_texts :
        Option (List String)
        → String
        → Bytes
        → Option (String × String × String)
        → CoSignatureResult
    check_texts origins permit_hash client none = disproved client_data_invalid
    check_texts origins permit_hash client (some (type, challenge, origin)) =
        if not (eq_str (str type) "webauthn.get")
        then disproved type_invalid
        else if not (same_challenge (decode crypto (str challenge)) (from_hex permit_hash))
        then disproved challenge_mismatch
        else if not (origin_allowed origins origin)
        then disproved origin_not_allowed
        else check_authenticator client (decode crypto (get assertion "authenticator_data"))

    abbrev pub check_client : Option (List String) → String → Option Bytes → CoSignatureResult
    check_client origins permit_hash none = disproved client_data_invalid
    check_client origins permit_hash (some client) =
        check_texts origins permit_hash client (client_fields (crypto.json_loads client))

  abbrev pub check_algorithm :
      Fields → Fields → Bool → Option (List String) → String → Json → CoSignatureResult
  check_algorithm registered assertion uv origins permit_hash (int algorithm) =
      if not (eq (int algorithm) (get registered "cose_alg"))
      then disproved algorithm_mismatch
      else if not (supported_algorithm algorithm)
      then unverifiable_scope algorithm_unsupported
      else check_client registered assertion algorithm uv origins permit_hash
          (decode crypto (get assertion "client_data_json"))
  check_algorithm registered assertion uv origins permit_hash _ = disproved algorithm_mismatch

  module _ (claim target registered : Fields) (origins : Option (List String)) (uv : Bool) where
    abbrev pub check_bindings : List String → Fields → String → CoSignatureResult
    check_bindings binding_fields assertion permit_hash =
        if not (is_sha256_hex permit_hash)
          || not (all (same_field claim target) binding_fields)
          || not (same_signer claim registered)
        then disproved permit_binding_mismatch
        else if not (same_field assertion registered "credential_id")
        then disproved credential_mismatch
        else check_algorithm registered assertion uv origins permit_hash (get assertion "cose_alg")

    -- The fields of the claim and of the assertion, and the hash of the permit.
    abbrev pub check_shape : List String → List String → Json → Json → CoSignatureResult
    check_shape claim_fields binding_fields (obj assertion) (str permit_hash) =
        if not (has_exactly claim_fields claim && has_exactly assertion_fields assertion)
        then disproved permit_binding_mismatch
        else check_bindings binding_fields assertion permit_hash
    check_shape claim_fields binding_fields _ _ = disproved permit_binding_mismatch

    abbrev pub check_v1 : CoSignatureResult
    check_v1 =
        check_shape claim_v1_fields v1_binding_fields (get claim "assertion")
          (get claim "permit_canonical_hash")

    abbrev pub decision_supported : Bool
    decision_supported =
        eq_str (get target "claim_name") "permit.decision.v1"
        && eq_str (get target "verdict") "supported"

    abbrev pub decision_bound : Bool
    decision_bound =
        same_field claim target "permit_id"
        && eq (get claim "permit_decision_canonical_hash") (get target "binding_canonical_hash")

    abbrev pub check_v2 : CoSignatureResult
    check_v2 =
        if not decision_supported
        then insufficient_evidence target_decision_unsupported
        else if not decision_bound
        then disproved permit_binding_mismatch
        else check_shape claim_v2_fields [] (get claim "assertion")
            (get claim "permit_decision_canonical_hash")

    abbrev pub check_version : CoSignatureResult
    check_version =
        if eq_str (get claim "payload_type") "permit.co_signature.v1"
        then check_v1
        else if eq_str (get claim "payload_type") "permit.co_signature.v2"
        then check_v2
        else unverifiable_scope version_unsupported

  -- An argument that is `None` is `none`.
  unfoldable pub verify_protocol :
      Option Fields
      → Option Fields
      → Option Fields
      → Option (List String)
      → Bool
      → CoSignatureResult
  unfolding decode_cose_public_key
  verify_protocol (some claim) (some target) (some registered) origins uv =
      check_version claim target registered origins uv
  verify_protocol _ _ _ origins uv = insufficient_evidence evidence_missing

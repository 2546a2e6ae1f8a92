-- ===== src/CoSignature/Protocol.antt =====
-- keel_verifier/permit_co_signature.py: the public key of a credential and `verify_protocol`. The
-- claim, the permit, the key record and the assertion are JSON objects. Each reason code is a
-- constructor.
use keel_verifier.Base.{
  ℕ, ◌/◌, ◌%◌, String, Bool, false, ◌&&◌, not, Option, none, some, List, [], ◌∷◌, ℤ, pos, negsuc,
  eqz, str_eq, length, any, all, ◌==◌, if◌then◌else◌,
}
use keel_verifier.Json.{Json, str, obj, Fields, end, field, get, has_key, eq, eq_str}
use keel_verifier.Hex.{Bytes}
use keel_verifier.CoSignature.Reader.{from_big}
use keel_verifier.CoSignature.Cbor.{
  Cbor, int as number, end as no_pairs, bytes, dict, Pairs, pair, CborRead, ok, eq_bytes, read_cbor,
}
use keel_verifier.CoSignature.Base64Url.{decode_base64url}

-- What the verifier takes from Python's library and from the cryptography package. A test that
-- raises InvalidSignature or ValueError is false.
pub record Crypto (P256 Ed25519 : Type 0) : Type 0 where
  pub sha256 : Bytes → Bytes
  pub urlsafe_b64encode : Bytes → String
  pub b64decode : String → Option Bytes
  pub json_loads : Bytes → Option Json
  pub encode_utf8 : String → Bytes
  pub p256_key : ℕ → ℕ → Option P256
  pub ed25519_key : Bytes → Option Ed25519
  pub verify_es256 : P256 → Bytes → Bytes → Bool
  pub verify_eddsa : Ed25519 → Bytes → Bytes → Bool

pub data Reason : Type 0 where
  evidence_missing version_unsupported algorithm_unsupported target_decision_unsupported : Reason
  permit_binding_mismatch credential_mismatch algorithm_mismatch client_data_invalid : Reason
  type_invalid challenge_mismatch origin_not_allowed authenticator_data_invalid : Reason
  rp_id_hash_mismatch user_presence_required user_verification_required : Reason
  signature_malformed invalid_signature : Reason

pub data CoSignatureResult : Type 0 where
  insufficient_evidence disproved unverifiable_scope : Reason → CoSignatureResult
  -- flags, backup_eligible, backup_state, sign_count
  supported : ℕ → Bool → Bool → ℕ → CoSignatureResult

pub data PublicKey (P256 Ed25519 : Type 0) : Type 0 where
  es256 : P256 → PublicKey P256 Ed25519
  eddsa : Ed25519 → PublicKey P256 Ed25519

-- `cose.get(k)` for an integer k.
abbrev cose_get : ℤ → Pairs → Option Cbor
cose_get k no_pairs = none
cose_get k (pair (number j) v d) = if eqz j k then some v else cose_get k d
cose_get k (pair _ v d) = cose_get k d

abbrev is_number : Option Cbor → ℤ → Bool
is_number (some (number n)) m = eqz n m
is_number _ m = false

abbrev bytes_of_32 : Option Cbor → Option Bytes
bytes_of_32 (some (bytes b)) = if length b == 32 then some b else none
bytes_of_32 _ = none

abbrev field_names : Fields → List String
field_names end = []
field_names (field k v d) = k ∷ field_names d

-- `set(d) == names`
abbrev pub has_exactly : List String → Fields → Bool
has_exactly names d =
    all (λ name. has_key d name) names && all (λ k. any (str_eq k) names) (field_names d)

abbrev pub claim_v1_fields : List String
claim_v1_fields =
    "payload_type" ∷ "permit_id" ∷ "permit_canonical_hash" ∷ "action" ∷ "resource" ∷ "modality"
    ∷ "co_signer_id" ∷ "role" ∷ "key_id" ∷ "custody_tier" ∷ "signed_at" ∷ "assertion" ∷ []

abbrev pub claim_v2_fields : List String
claim_v2_fields =
    "payload_type" ∷ "permit_id" ∷ "permit_decision_canonical_hash" ∷ "co_signer_id" ∷ "role"
    ∷ "key_id" ∷ "custody_tier" ∷ "signed_at" ∷ "assertion" ∷ []

abbrev pub assertion_fields : List String
assertion_fields =
    "credential_id" ∷ "authenticator_data" ∷ "client_data_json" ∷ "signature" ∷ "cose_alg" ∷ []

abbrev pub v1_binding_fields : List String
v1_binding_fields = "permit_id" ∷ "permit_canonical_hash" ∷ "action" ∷ "resource" ∷ "modality" ∷ []

abbrev pub same_field : Fields → Fields → String → Bool
same_field d e name = eq (get d name) (get e name)

-- `flags & mask` for a mask with one bit.
abbrev pub has_flag : ℕ → ℕ → Bool
has_flag mask flags = flags / mask % 2 == 1

-- `principal.get("id") if isinstance(principal, Mapping) else registered_key.get("co_signer_id")`
abbrev co_signer_of : Fields → Json → Json
co_signer_of registered_key (obj principal) = get principal "id"
co_signer_of registered_key _ = get registered_key "co_signer_id"

-- The signer's fields of the claim agree with the registered key.
abbrev pub same_signer : Fields → Fields → Bool
same_signer claim registered_key =
    same_field claim registered_key "key_id"
    && (eq (get claim "co_signer_id") (co_signer_of registered_key (get registered_key "principal"))
        && eq_str (get claim "custody_tier") "human_passkey")

-- The parsed client data, when its three fields are texts: type, challenge and origin.
abbrev client_texts : Json → Json → Json → Option (String × String × String)
client_texts (str t) (str c) (str o) = some (t, c, o)
client_texts _ _ _ = none

abbrev pub client_fields : Option Json → Option (String × String × String)
client_fields (some (obj d)) = client_texts (get d "type") (get d "challenge") (get d "origin")
client_fields _ = none

-- `challenge == expected` for 32 bytes, where `none` is the ValueError of a decoder.
abbrev pub same_challenge : Option Bytes → Option Bytes → Bool
same_challenge (some challenge) (some expected) =
    length expected == 32 && eq_bytes challenge expected
same_challenge _ _ = false

abbrev pub origin_allowed : Option (List String) → String → Bool
origin_allowed none origin = false
origin_allowed (some origins) origin = any (str_eq origin) origins

module _ {P256 Ed25519 : Type 0} (crypto : Crypto P256 Ed25519) where
  abbrev pub decode : Json → Option Bytes
  decode = decode_base64url crypto.urlsafe_b64encode crypto.b64decode

  abbrev as_es256 : Option P256 → Option (PublicKey P256 Ed25519)
  as_es256 none = none
  as_es256 (some key) = some (es256 key)

  abbrev as_eddsa : Option Ed25519 → Option (PublicKey P256 Ed25519)
  as_eddsa none = none
  as_eddsa (some key) = some (eddsa key)

  abbrev p256_of : Option Bytes → Option Bytes → Option (PublicKey P256 Ed25519)
  p256_of (some x) (some y) = as_es256 (crypto.p256_key (from_big x) (from_big y))
  p256_of _ _ = none

  abbrev ed25519_of : Option Bytes → Option (PublicKey P256 Ed25519)
  ed25519_of none = none
  ed25519_of (some x) = as_eddsa (crypto.ed25519_key x)

  abbrev key_of_map : Pairs → ℤ → Option (PublicKey P256 Ed25519)
  key_of_map cose algorithm =
      if not (is_number (cose_get (pos 3) cose) algorithm)
      then none
      else if eqz algorithm (negsuc 6)
      then if is_number (cose_get (pos 1) cose) (pos 2)
          && is_number (cose_get (negsuc 0) cose) (pos 1)
        then p256_of (bytes_of_32 (cose_get (negsuc 1) cose))
            (bytes_of_32 (cose_get (negsuc 2) cose))
        else none
      else if eqz algorithm (negsuc 7)
      then if is_number (cose_get (pos 1) cose) (pos 1)
          && is_number (cose_get (negsuc 0) cose) (pos 6)
        then ed25519_of (bytes_of_32 (cose_get (negsuc 1) cose))
        else none
      else none

  abbrev key_of_read : Bytes → CborRead Cbor → ℤ → Option (PublicKey P256 Ed25519)
  key_of_read raw (ok (dict cose) cursor) algorithm =
      if cursor == length raw then key_of_map cose algorithm else none
  key_of_read raw _ algorithm = none

  abbrev key_of_bytes : Option Bytes → ℤ → Option (PublicKey P256 Ed25519)
  key_of_bytes none algorithm = none
  key_of_bytes (some raw) algorithm = key_of_read raw (read_cbor raw 0) algorithm

  -- `none` is any exception.
  unfoldable pub decode_cose_public_key : Json → ℤ → Option (PublicKey P256 Ed25519)
  unfolding decode_base64url read_cbor
  decode_cose_public_key encoded algorithm = key_of_bytes (decode encoded) algorithm

-- ===== src/Examples/Signatures.antt =====
-- A signature of two small integers, and a co-signature with a toy cryptography.
use keel_verifier.Base.{
  ℕ, zero, suc, ◌≡◌, ◌↔◌, String, refl, true, false, Option, none, some, List, [], ◌∷◌, ◌++◌,
  negsuc, arith, str_eq, ◌==◌, length, if◌then◌else◌,
}
use keel_verifier.Json.{Json, int, str, obj, Fields, end, field, eq}
use keel_verifier.Hex.{Bytes, from_hex}
use keel_verifier.Hex.RoundTrip.{AreBytes}
use keel_verifier.CoSignature.Reader.{ok}
use keel_verifier.CoSignature.Der.{read_der_length, valid_es256_der}
use keel_verifier.CoSignature.Der.Lengths.{der_length}
use keel_verifier.CoSignature.Der.ReadBack.{read_der_length-der_length}
use keel_verifier.CoSignature.Der.Signature.{IsSignature, valid_es256_der_iff}
use keel_verifier.CoSignature.Cbor.{
  read_cbor, read_cbor_fuel, read_item, read_cbor_unsigned, read_pairs,
}
use keel_verifier.CoSignature.Base64Url.{is_sha256_hex}
use keel_verifier.CoSignature.Cbor.Fuel.{Lands, read_cbor-Lands}
use keel_verifier.CoSignature.Protocol.{Crypto}
use keel_verifier.CoSignature.Verify.{verify_protocol}
use keel_verifier.CoSignature.Verify.Tests.{Passes}
use keel_verifier.CoSignature.Verify.Laws.{IsCoSigned, BoundHash, verify_protocol-IsCoSigned}

-- The sequence of the integers 1 and 128.
abbrev signature : Bytes
signature = 48 ∷ 7 ∷ 2 ∷ 1 ∷ 1 ∷ 2 ∷ 2 ∷ 0 ∷ 128 ∷ []

signature_bytes : AreBytes signature
signature_bytes = (
  omega arith,
  (
    omega arith,
    (
      omega arith,
      (omega arith, (omega arith, (omega arith, (omega arith, (omega arith, (omega arith, tt)))))),
    ),
  ),
)

valid_es256_der_iff_example :
    (valid_es256_der signature ≡ true) ↔ ((r : Bytes) × (t : Bytes) × IsSignature signature r t)
valid_es256_der_iff_example = valid_es256_der_iff signature signature_bytes

abbrev length_bytes : Bytes
length_bytes = 130 ∷ 1 ∷ 44 ∷ []

read_der_length-der_length_example : read_der_length length_bytes 0 ≡ ok (300, 3)
unfolding der_length
read_der_length-der_length_example =
    read_der_length-der_length length_bytes 0 300 [] (omega arith) refl

-- A map from 1 to 2.
abbrev map_bytes : Bytes
map_bytes = 161 ∷ 1 ∷ 2 ∷ []

read_cbor-Lands_example : Lands map_bytes 1 (read_cbor map_bytes 0)
read_cbor-Lands_example = read_cbor-Lands map_bytes 0 (omega arith)

abbrev zeros : ℕ → Bytes
zeros zero = []
zeros (suc n) = 0 ∷ zeros n

-- The map of an Ed25519 key.
abbrev cose_key : Bytes
cose_key = 164 ∷ 1 ∷ 1 ∷ 3 ∷ 39 ∷ 32 ∷ 6 ∷ 33 ∷ 88 ∷ 32 ∷ zeros 32

-- The hash of the party, the flags "present" and "verified", and a counter.
abbrev auth_data : Bytes
auth_data = 9 ∷ (zeros 31 ++ (5 ∷ 0 ∷ 0 ∷ 0 ∷ 7 ∷ []))

abbrev client_data : Json
client_data = obj (
    field "type" (str "webauthn.get")
      (field "challenge" (str "chal") (field "origin" (str "https://keel.dev") end)))

abbrev encode : Bytes → String
encode [] = ""
encode (b ∷ bs) =
    if b == 1
    then "clnt"
    else if b == 0
    then "chal"
    else if b == 9
    then "auth"
    else if b == 164
    then "pkey"
    else "sign"

abbrev decode_standard : String → Option Bytes
decode_standard s =
    if str_eq s "clnt"
    then some (1 ∷ [])
    else if str_eq s "chal"
    then some (zeros 32)
    else if str_eq s "auth"
    then some auth_data
    else if str_eq s "pkey"
    then some cose_key
    else if str_eq s "sign"
    then some (8 ∷ zeros 63)
    else none

abbrev crypto : Crypto Unit Unit
crypto = record {
  sha256 = λ b. 9 ∷ zeros 31;
  urlsafe_b64encode = encode;
  b64decode = decode_standard;
  json_loads = λ b. some client_data;
  encode_utf8 = λ s. [];
  p256_key = λ x y. none;
  ed25519_key = λ x. some tt;
  verify_es256 = λ key s d. false;
  verify_eddsa = λ key s d. length s == 64;
}

abbrev permit_hash : String
permit_hash = "0000000000000000000000000000000000000000000000000000000000000000"

abbrev assertion : Fields
assertion = field "credential_id" (str "cred") (
    field "authenticator_data" (str "auth") (
      field "client_data_json" (str "clnt")
        (field "signature" (str "sign") (field "cose_alg" (int (negsuc 7)) end))))

abbrev claim : Fields
claim = field "payload_type" (str "permit.co_signature.v1") (
    field "permit_id" (str "p1") (
      field "permit_canonical_hash" (str permit_hash) (
        field "action" (str "pay") (
          field "resource" (str "r") (
            field "modality" (str "m") (
              field "co_signer_id" (str "u1") (
                field "role" (str "approver") (
                  field "key_id" (str "k1") (
                    field "custody_tier" (str "human_passkey")
                      (field "signed_at" (str "t") (field "assertion" (obj assertion) end)))))))))))

abbrev registered : Fields
registered = field "key_id" (str "k1") (
    field "co_signer_id" (str "u1") (
      field "credential_id" (str "cred") (
        field "cose_alg" (int (negsuc 7))
          (field "rp_id" (str "keel.dev") (field "public_key_cose" (str "pkey") end)))))

abbrev origins : Option (List String)
origins = some ("https://keel.dev" ∷ [])

passes : Passes (verify_protocol crypto (some claim) (some claim) (some registered) origins true)
unfolding verify_protocol is_sha256_hex eq from_hex read_cbor_fuel read_item read_cbor_unsigned
    read_pairs
passes = tt

verify_protocol-IsCoSigned_example :
    (c : IsCoSigned crypto claim registered origins true) × BoundHash crypto claim claim registered
      origins true c.permit_hash
verify_protocol-IsCoSigned_example =
    verify_protocol-IsCoSigned crypto claim claim registered origins true passes

-- ===== src/Examples/Registries.antt =====
-- A registry of no claims that extends another.
use keel_verifier.Base.{
  ◌≡◌, String, refl, ◌≢◌, arith, Option, none, some, ◌∷◌, [], str_eq, if◌then◌else◌,
}
use keel_verifier.Json.{Json, str, arr, obj, nil, Fields, end, field}
use keel_verifier.Hex.{Bytes, to_hex, hex_char}
use keel_verifier.Monitor.{skip}
use keel_verifier.Claims.Registry.{composed, out_of_fuel, compose_registry_payload}
use keel_verifier.Claims.Registry.Pinned.{load_base-IsBase}
use keel_verifier.Claims.Registry.Composed.{
  Composes, compose_iff, HasBases, no_extension, next_base, compose_settles,
}

abbrev short_hash : Bytes → Bytes
short_hash b = 7 ∷ []

abbrev base_fields : Fields
base_fields = field "version" (str "v7") (field "claims" (arr nil) end)

abbrev parse_base : Bytes → Option Json
parse_base b = some (obj base_fields)

abbrev files : String → Option Bytes
files suffix = if str_eq suffix "7" then some (1 ∷ []) else none

abbrev pinned_extension : Fields
pinned_extension =
    field "artifact_id" (str "keel.verifier_claim_registry.v7")
      (field "version" (str "v7") (field "sha256" (str "07") end))

abbrev extending : Fields
extending = field "extends" (obj pinned_extension) (field "claims" (arr nil) end)

composed_extension :
    compose_registry_payload short_hash parse_base files 2 extending ≡ composed extending
unfolding compose_registry_payload to_hex hex_char skip
composed_extension = refl

compose_iff_example : Composes short_hash parse_base files extending extending
compose_iff_example =
    (compose_iff short_hash parse_base files extending extending).0 (2, composed_extension)

bases : HasBases short_hash parse_base files extending 1
unfolding to_hex hex_char skip
bases =
    next_base pinned_extension base_fields refl
      (load_base-IsBase short_hash parse_base files pinned_extension base_fields refl)
      (no_extension refl)

compose_settles_example :
    (compose_registry_payload short_hash parse_base files 5 extending ≢ out_of_fuel)
    × (compose_registry_payload short_hash parse_base files 5 extending
        ≡ compose_registry_payload short_hash parse_base files 2 extending)
compose_settles_example =
    compose_settles short_hash parse_base files extending 1 5 bases (omega arith)

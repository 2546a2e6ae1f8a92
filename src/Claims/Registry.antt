-- ===== src/Claims/Registry.antt =====
-- keel_verifier/verdicts.py: `_compose_registry_payload` and `load_claim_registry`. The bundled
-- registry files are an argument, by their number; the JSON parser and SHA-256 are parameters.
pub mod Pinned
pub mod Composed
use Prim.Native.Char.{code}
use Prim.Native.String.{◌++◌ as ◌<>◌}
use text.Mathlib.Text.{starts_with}
use keel_verifier.Base.{
  ℕ, zero, suc, ◌/◌, ◌%◌, ◌==◌, pos, negsuc, String, Bool, true, ◌&&◌, not, Option, none, some,
  List, [], ◌∷◌, ◌++◌, str_eq, leb, any, if◌then◌else◌,
}
use keel_verifier.Json.{
  Json, null, bool, int, str, arr, obj, nil, is_nil, Fields, end, field, to_list, of_list, get,
  lookup, as_str, as_list, as_dict, eq_str, or_null,
}
use keel_verifier.Hex.{Bytes, to_hex, hex_char}
use keel_verifier.Monitor.{skip}
use keel_verifier.Authority.Values.{characters, keys}
use keel_verifier.Claims.{ClaimDefinition, ClaimRegistry, text_in}

-- `s.isdigit()` for ASCII digits.
abbrev all_digits : String → Bool
all_digits String.[] = true
all_digits (String.◌∷◌ c s) = leb 48 (code c) && leb (code c) 57 && all_digits s

abbrev is_digits : String → Bool
is_digits s = not (str_eq s "") && all_digits s

abbrev artifact_prefix : String
artifact_prefix = "keel.verifier_claim_registry.v"

-- The number in the id of a registry.
abbrev suffix_of : String → Option String
suffix_of id =
    let suffix = skip 30 id in
    if starts_with id artifact_prefix && is_digits suffix then some suffix else none

-- The names of the items that are objects with a name.
abbrev name_of : Json → Option String
name_of (obj d) = as_str (get d "name")
name_of _ = none

abbrev cons_name : Option String → List String → List String
cons_name none names = names
cons_name (some n) names = n ∷ names

abbrev pub names_of : List Json → List String
names_of [] = []
names_of (v ∷ vs) = cons_name (name_of v) (names_of vs)

abbrev pub shares : List String → List String → Bool
shares names others = any (text_in names) others

-- `{**d, k: v}`
abbrev pub set_field : String → Json → Fields → Fields
set_field k v end = field k v end
set_field k v (field j w d) = if str_eq j k then field j v d else field j w (set_field k v d)

abbrev pub joined_claims : Option (List Json) → Option (List Json) → Option (List Json)
joined_claims (some base) (some more) =
    if shares (names_of base) (names_of more) then none else some (base ++ more)
joined_claims _ _ = none

abbrev pub with_claims : Fields → Option (List Json) → Option Fields
with_claims payload none = none
with_claims payload (some claims) = some (set_field "claims" (arr (of_list claims)) payload)

-- The payload with the claims of its base in front.
abbrev pub extension_of : Fields → Fields → Option Fields
extension_of payload base =
    with_claims payload
      (joined_claims (as_list (get base "claims")) (as_list (get payload "claims")))

-- `refused` is an exception of the code; `out_of_fuel` is a chain of bases that is not followed to its
-- end, and no result of the code.
pub data Composition : Type 0 where
  composed : Fields → Composition
  refused out_of_fuel : Composition

abbrev pub composed_or : Option Fields → Composition
composed_or none = refused
composed_or (some payload) = composed payload

abbrev pub extended : Fields → Composition → Composition
extended payload (composed base) = composed_or (extension_of payload base)
extended payload refused = refused
extended payload out_of_fuel = out_of_fuel

-- What an extension says of its base: its number and its version.
abbrev pub base_of : Option String → Option String → Option (String × String)
base_of (some id) (some version) = elim (suffix_of id) [
  | none ↦ none
  | some suffix ↦ some (suffix, version)
]
base_of _ _ = none

-- The decimal digits of a number in front of a text, as many as the fuel; none of zero.
unfoldable pub decimal : ℕ → ℕ → String → String
unfolding hex_char
decimal zero n text = text
decimal (suc fuel) n text =
    let more = decimal fuel (n / 10) (String.◌∷◌ (hex_char (n % 10)) text) in
    if n == 0 then text else more

-- `str(v or "")`, to be compared with a digest of 64 characters. Of a number that is longer the last
-- digits serve, and of a list or a dict the bracket that it begins with: no digest either way.
abbrev pub digest_text : Json → String
digest_text (str s) = s
digest_text null = ""
digest_text (bool b) = if b then "True" else ""
digest_text (int (pos n)) = decimal 65 n ""
digest_text (int (negsuc n)) = "-" <> decimal 65 (suc n) ""
digest_text (arr xs) = if is_nil xs then "" else "["
digest_text (obj end) = ""
digest_text (obj (field k v d)) = "{"

module _ (sha256 : Bytes → Bytes) (json_loads : Bytes → Option Json)
    (bundled : String → Option Bytes) where
  -- The base of an extension, when its digest and its version are those pinned.
  abbrev pub checked_base : Fields → String → Json → Option Fields
  checked_base extension version (obj base) =
      if eq_str (get base "version") version then some base else none
  checked_base extension version _ = none

  abbrev pub pinned_base : Fields → String → Option Bytes → Option Fields
  pinned_base extension version none = none
  pinned_base extension version (some raw) =
      if str_eq (digest_text (get extension "sha256")) (to_hex (sha256 raw))
      then checked_base extension version (or_null (json_loads raw))
      else none

  abbrev pub load_base : Fields → Option Fields
  load_base extension =
      elim (base_of (as_str (get extension "artifact_id")) (as_str (get extension "version"))) [
        | none ↦ none
        | some (suffix, version) ↦ pinned_base extension version (bundled suffix)
      ]

  -- The code has no bound on the bases of bases; the fuel is one.
  unfoldable pub compose_registry_payload : ℕ → Fields → Composition
  compose_registry_payload zero payload = out_of_fuel
  compose_registry_payload (suc fuel) payload = elim (as_dict (get payload "extends")) [
    | none ↦ composed payload
    | some extension ↦ elim (load_base extension) [
      | none ↦ refused
      | some base ↦ extended payload (compose_registry_payload fuel base)
    ]
  ]

-- The texts of a list of texts.
abbrev cons_text : Option String → Option (List String) → Option (List String)
cons_text none rest = none
cons_text (some s) none = none
cons_text (some s) (some ts) = some (s ∷ ts)

abbrev texts : List Json → Option (List String)
texts [] = some []
texts (v ∷ vs) = cons_text (as_str v) (texts vs)

abbrev text_list : Json → Option (List String)
text_list (arr xs) = texts (to_list xs)
text_list _ = none

-- `item.get(k, default)`
abbrev get_or : Json → String → Fields → Json
get_or d k item = elim (lookup k item) [ none ↦ d | some v ↦ v ]

-- The texts that are not empty, among the items.
abbrev given_texts : List Json → List String
given_texts [] = []
given_texts (str s ∷ vs) = if str_eq s "" then given_texts vs else s ∷ given_texts vs
given_texts (_ ∷ vs) = given_texts vs

-- `does_not_establish`: `none` is the TypeError of a value that is not iterable.
abbrev given : Json → Option (List String)
given (arr xs) = some (given_texts (to_list xs))
given (str s) = some (given_texts (characters s))
given (obj d) = some (given_texts (keys d))
given _ = none

abbrev definition : String → Option (List String) → Option (List String) → Option ClaimDefinition
definition name (some enum) (some limits) =
    some (record { name = name; verdict_enum = enum; does_not_establish = limits })
definition name _ _ = none

abbrev load_claim : Json → String → Fields → Option ClaimDefinition
load_claim enum_raw name item =
    definition name (text_list (get_or enum_raw "verdict_enum" item))
      (given (get_or (arr nil) "does_not_establish" item))

abbrev add_claim : Option ClaimDefinition → List ClaimDefinition → Option (List ClaimDefinition)
add_claim none claims = none
add_claim (some d) claims = some (d ∷ claims)

-- The loop over the claims; items without a name are passed over.
unfoldable pub load_claims : Json → List Json → List ClaimDefinition → Option (List ClaimDefinition)
load_claims enum_raw [] claims = some claims
load_claims enum_raw (obj item ∷ rest) claims =
    let skipped = load_claims enum_raw rest claims in
    elim (as_str (get item "name")) [
      | none ↦ skipped
      | some name ↦ elim (add_claim (load_claim enum_raw name item) claims) [
        | none ↦ none
        | some more ↦ load_claims enum_raw rest more
      ]
    ]
load_claims enum_raw (_ ∷ rest) claims = load_claims enum_raw rest claims

abbrev registry_of :
    Json → Option (List String) → Option (List ClaimDefinition) → Option ClaimRegistry
registry_of version (some enum) (some claims) =
    some (record { version = version; verdict_enum = enum; claims = claims })
registry_of version _ _ = none

abbrev read_claims : Json → Option (List Json) → Option (List ClaimDefinition)
read_claims enum_raw none = none
read_claims enum_raw (some items) = load_claims enum_raw items []

-- `load_claim_registry`, on the composed payload.
unfoldable pub load_claim_registry : Fields → Option ClaimRegistry
unfolding load_claims
load_claim_registry payload =
    if eq_str (get payload "version") "verifier-claims.v8"
    then registry_of (get payload "version") (text_list (get payload "verdict_enum"))
        (read_claims (get payload "verdict_enum") (as_list (get payload "claims")))
    else none

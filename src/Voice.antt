-- ===== src/Voice.antt =====
-- keel_verifier/verifier.py: the hash chain of a voice-session attestation. SHA-256 and the
-- canonical JSON encoder (`json.dumps` with sorted keys) are parameters.
pub mod Links
pub mod Binding
use Prim.Native.Char.{code}
use Prim.Native.String.{◌++◌ as ◌<>◌}
use text.Mathlib.Text.{starts_with}
use keel_verifier.Base.{
  ℕ, zero, suc, ◌+◌, ◌-◌, ◌*◌, String, Bool, true, false, ◌&&◌, ◌||◌, not, Option, none, some, List,
  [], ◌∷◌, ℤ, pos, negsuc, eqz, lez, str_eq, strip, length, leb, ◌==◌, if◌then◌else◌,
}
use keel_verifier.Json.{
  Json, null, bool, int, str, arr, obj, Fields, get, has_key, without, as_str, as_int, as_list,
  as_dict, eq_str, eq, or_else, bool_int, is_some,
}
use keel_verifier.Hex.{Bytes, to_hex, ascii}

-- `int(s)` for ASCII digits: white space around, a sign, and single underscores between digits.
abbrev digit : ℕ → Option ℕ
digit c = if leb 48 c && leb c 57 then some (c - 48) else none

-- `after_digit` says whether a digit stands before.
unfoldable pub int_digits : Bool → ℕ → String → Option ℕ
int_digits true n String.[] = some n
int_digits false n String.[] = none
int_digits after_digit n (String.◌∷◌ c s) =
    let separator = int_digits false n s in
    let next : Option ℕ = elim (digit (code c)) [
      | none ↦ none
      | some d ↦ int_digits true (n * 10 + d) s
    ] in
    if code c == 95 && after_digit then separator else next

abbrev positive : Option ℕ → Option ℤ
positive none = none
positive (some n) = some (pos n)

abbrev negative : Option ℕ → Option ℤ
negative none = none
negative (some zero) = some (pos 0)
negative (some (suc n)) = some (negsuc n)

abbrev signed : String → Option ℤ
signed String.[] = none
signed (String.◌∷◌ c s) =
    if code c == 45
    then negative (int_digits false 0 s)
    else if code c == 43
    then positive (int_digits false 0 s)
    else positive (int_digits false 0 (String.◌∷◌ c s))

-- `int(v)`, where `none` is a ValueError or a TypeError.
unfoldable pub to_int : Json → Option ℤ
unfolding int_digits strip
to_int (int n) = some n
to_int (bool b) = some (bool_int b)
to_int (str s) = signed (strip s)
to_int _ = none

pub data ChainError : Type 0 where
  not_an_array unsupported_version head_missing head_hash_mismatch event_count_mismatch : ChainError
  invalid_entry payload_embedded not_hash_only payload_hash_invalid previous_mismatch not_increasing
        hash_mismatch :
      ℕ → ChainError

-- The outcome of a chain check; `raised` is the exception of `int`.
pub data Check : Type 0 where
  pass : ℕ → Check
  fail : ChainError → Check
  raised : Check

-- What the loop over the entries ends with: the last hash, or a failure.
pub data Walk : Type 0 where
  end_at : String → Walk
  broken : ChainError → Walk

-- `isinstance(v, int) and v > last`, with the number.
abbrev pub beyond : ℤ → Option ℤ → Option ℤ
beyond last none = none
beyond last (some n) = if lez n last then none else some n

abbrev pub payload_hash_error : ℕ → Json → Option ChainError
payload_hash_error index (str s) =
    if starts_with s "sha256:" then none else some (payload_hash_invalid index)
payload_hash_error index _ = some (payload_hash_invalid index)

-- The checks of schema version 3 that version 1 lacks.
unfoldable pub hash_only : ℕ → Fields → Option ChainError
hash_only index item =
    if has_key item "canonicalized_payload"
    then some (payload_embedded index)
    else if not (eq_str (get item "payload_materialization") "hash_only")
    then some (not_hash_only index)
    else payload_hash_error index (get item "canonicalized_payload_hash")

abbrev pub no_extra : ℕ → Fields → Option ChainError
no_extra index item = none

abbrev pub event_count_check : Option ℤ → ℕ → Check
event_count_check none count = raised
event_count_check (some n) count =
    if eqz n (pos count) then pass count else fail event_count_mismatch

abbrev pub head_check : Option Fields → String → ℕ → Check
head_check none last count = fail head_missing
head_check (some head) last count =
    if not (eq_str (get head "content_hash") last)
    then fail head_hash_mismatch
    else event_count_check (to_int (or_else (get head "event_count") (int (pos 0)))) count

-- `_voice_attestation_signature_payload`: what the signature covers.
pub signature_payload : Fields → Fields
signature_payload artifact = without "signatures" artifact

pub is_voice_attestation_artifact : Json → Bool
is_voice_attestation_artifact (obj d) = is_some (as_dict (get d "verifier_compatibility"))
is_voice_attestation_artifact _ = false

-- The artifact version that goes with a schema version. A list or a dict has no hash: `none`.
abbrev expected_version : Json → Option (Option String)
expected_version (arr xs) = none
expected_version (obj d) = none
expected_version v =
    some (
      if eq v (int (pos 1))
      then some "1.0.0"
      else if eq v (int (pos 3))
      then some "1.2.0"
      else none)

abbrev schema_matches : Fields → Option String → Bool
schema_matches artifact none = false
schema_matches artifact (some version) =
    eq_str (get artifact "artifact_version") version
    && (eq_str (get artifact "schema") "keel.voice.attestation.phase_a"
        && eq_str (get artifact "canonicalization_profile")
            "keel.canonical_json.attestation_artifact.v1")

-- The check of the schema; `none` is the TypeError of a schema version with no hash.
pub verify_voice_attestation_schema : Fields → Option Bool
verify_voice_attestation_schema artifact = elim (expected_version (get artifact "schema_version")) [
  | none ↦ none
  | some version ↦ some (schema_matches artifact version)
]

module _ (sha256 : Bytes → Bytes) (canonical_json : Fields → Bytes) where
  unfoldable pub chain_entry_hash : Fields → String
  unfolding to_hex without
  chain_entry_hash entry =
      "sha256:" <> to_hex (sha256 (canonical_json (without "content_hash" entry)))

  -- The hash that the first entry of every chain points back to.
  unfoldable pub genesis_hash : String
  unfolding to_hex
  genesis_hash = "sha256:" <> to_hex (sha256 (ascii "keel-voice-session-artifact-chain-genesis-v1"))

  -- The checks of one entry that both versions make: the new last sequence number, or a failure.
  abbrev pub link : ℕ → String → Option ℤ → Fields → Option ChainError
  link index previous sequence item =
      if not (eq_str (get item "previous_content_hash") previous)
      then some (previous_mismatch index)
      else if not (is_some sequence)
      then some (not_increasing index)
      else if not (eq_str (get item "content_hash") (chain_entry_hash item))
      then some (hash_mismatch index)
      else none

  abbrev pub or_last : ℤ → Option ℤ → ℤ
  or_last last none = last
  or_last last (some n) = n

  -- `extra` holds the checks of the version that come first.
  module _ (extra : ℕ → Fields → Option ChainError) where
    abbrev pub entry_error : ℕ → String → ℤ → Fields → Option ChainError
    entry_error index previous last item = elim (extra index item) [
      | some e ↦ some e
      | none ↦ link index previous (beyond last (as_int (get item "artifact_sequence"))) item
    ]

    -- `index` counts from 1.
    unfoldable pub walk_chain : ℕ → String → ℤ → List Json → Walk
    walk_chain index previous last [] = end_at previous
    walk_chain index previous last (obj item ∷ rest) = elim (entry_error index previous last item) [
      | some e ↦ broken e
      | none ↦
          walk_chain (index + 1) (chain_entry_hash item)
            (or_last last (as_int (get item "artifact_sequence"))) rest
    ]
    walk_chain index previous last (_ ∷ rest) = broken (invalid_entry index)

    abbrev pub finish : Fields → ℕ → Walk → Check
    finish artifact count (broken e) = fail e
    finish artifact count (end_at last) =
        head_check (as_dict (get artifact "chain_head")) last count

    abbrev pub check_list : Fields → Option (List Json) → Check
    check_list artifact none = fail not_an_array
    check_list artifact (some chain) =
        finish artifact (length chain) (walk_chain 1 genesis_hash (pos 0) chain)

    abbrev pub check_chain : Fields → Check
    check_chain artifact = check_list artifact (as_list (get artifact "chain"))

  unfoldable pub verify_chain_v1 : Fields → Check
  verify_chain_v1 artifact = check_chain no_extra artifact

  unfoldable pub verify_chain_v3 : Fields → Check
  verify_chain_v3 artifact = check_chain hash_only artifact

  unfoldable pub verify_voice_attestation_chain : Fields → Check
  unfolding verify_chain_v1 verify_chain_v3
  verify_voice_attestation_chain artifact =
      if eq (get artifact "schema_version") (int (pos 1))
      then verify_chain_v1 artifact
      else if eq (get artifact "schema_version") (int (pos 3))
      then verify_chain_v3 artifact
      else fail unsupported_version

-- ===== src/Examples/Chains.antt =====
-- A voice chain of one entry, a delegation edge and a set of claims.
use text.Mathlib.TextEquality.{Char-path}
use keel_verifier.Merkle.Binding.{Collision}
use keel_verifier.Base.{
  ◌⊎◌, sym, ap, ◌∙◌, arith, inl, ◌≡◌, ◌↔◌, String, refl, true, none, some, List, [], ◌∷◌, pos,
  ends_with, drop_last,
}
use keel_verifier.Json.{Json, int, str, obj, Fields, end, field, get, without}
use keel_verifier.Hex.{Bytes, ascii, to_hex, hex_char}
use keel_verifier.Voice.{chain_entry_hash, end_at, walk_chain, no_extra}
use keel_verifier.Voice.Binding.{SameTexts, walk_chain-binds}
use keel_verifier.Voice.Links.{Linked, walk_chain_iff}
use keel_verifier.Authority.Values.{gt}
use keel_verifier.Authority.Resources.{authority_resource_subset, keeps_keys, narrower}
use keel_verifier.Authority.Resources.Laws.{Covers, resource_subset-Covers}
use keel_verifier.Authority.Constraints.{authority_constraints_subset}
use keel_verifier.Authority.Constraints.Laws.{KeepsLimit, constraints_subset-KeepsLimit}
use keel_verifier.Claims.{
  ClaimRegistry, VerdictSubject, ClaimVerdict, verdict_value, aggregate_subject_verdicts,
  aggregate_verdict, merge_claims, merge_claim,
}
use keel_verifier.Claims.Required.{
  ResolvedSemantics, Subject, minimum_grade_failure_claims, apply_semantics_to_claims, required_for,
}
use keel_verifier.Claims.Enforce.{Enforced, enforce_required_claims, unsupported_names}
use keel_verifier.Claims.{text_in}
use keel_verifier.Claims.Enforce.{claim_names}
use keel_verifier.Claims.Enforce.Presence.{enforce_required_claims-present}
use keel_verifier.Claims.Enforce.Laws.{enforce_required_claims-AllSupported}

abbrev one_byte : Bytes → Bytes
one_byte b = 7 ∷ []

abbrev no_text : Fields → Bytes
no_text d = []

abbrev walked : List Json
walked =
    obj (
      field "previous_content_hash" (str "sha256:00")
        (field "artifact_sequence" (int (pos 1)) (field "content_hash" (str "sha256:07") end)))
    ∷ []

walk_chain_iff_example :
    (walk_chain one_byte no_text no_extra 1 "sha256:00" (pos 0) walked ≡ end_at "sha256:07")
    ↔ Linked one_byte no_text no_extra 1 "sha256:00" (pos 0) walked "sha256:07"
walk_chain_iff_example =
    walk_chain_iff one_byte no_text no_extra 1 "sha256:00" "sha256:07" (pos 0) walked

abbrev text_bytes : Json → Bytes
text_bytes (str s) = ascii s
text_bytes _ = []

-- An encoding that shows the previous hash and nothing else.
abbrev previous_text : Fields → Bytes
previous_text d = text_bytes (get d "previous_content_hash")

ascii_inj : (s t : String) → ascii s ≡ ascii t → s ≡ t
ascii_inj String.[] String.[] e = refl
ascii_inj String.[] (String.◌∷◌ d t) e = cc
ascii_inj (String.◌∷◌ c s) String.[] e = cc
ascii_inj (String.◌∷◌ c s) (String.◌∷◌ d t) e = cc (Char-path c d (cc e), ascii_inj s t (cc e))

walked_end :
    walk_chain one_byte previous_text no_extra 1 "sha256:00" (pos 0) walked ≡ end_at "sha256:07"
unfolding walk_chain chain_entry_hash to_hex hex_char without
walked_end = refl

walk_chain-binds_example :
    SameTexts one_byte previous_text no_extra
      (λ b. (omega arith, tt))
      (λ m n s t e p q. ascii_inj s t (sym (ap text_bytes p) ∙ e ∙ ap text_bytes q))
      walked
      walked
    ⊎ Collision one_byte
walk_chain-binds_example =
    walk_chain-binds one_byte previous_text no_extra (λ b. (omega arith, tt))
      (λ m n s t e p q. ascii_inj s t (sym (ap text_bytes p) ∙ e ∙ ap text_bytes q)) 1 "sha256:00"
      "sha256:07" (pos 0) walked walked refl walked_end walked_end

abbrev as_is : String → String
as_is s = s

abbrev child_resource : Fields
child_resource = field "repo" (str "keel/api") end

abbrev parent_resource : Fields
parent_resource = field "repo" (str "keel/*") end

narrowed : authority_resource_subset (obj child_resource) (obj parent_resource) ≡ true
unfolding authority_resource_subset keeps_keys narrower ends_with drop_last
narrowed = refl

resource_subset-Covers_example : Covers child_resource "repo" (str "keel/*")
resource_subset-Covers_example =
    resource_subset-Covers child_resource parent_resource "repo" (str "keel/*") narrowed refl

abbrev child_limit : Fields
child_limit = field "max_recipients" (int (pos 3)) end

abbrev parent_limit : Fields
parent_limit = field "max_recipients" (int (pos 5)) end

within_limit : authority_constraints_subset (obj child_limit) (obj parent_limit) ≡ some true
unfolding authority_constraints_subset gt
within_limit = refl

constraints_subset-KeepsLimit_example :
    KeepsLimit child_limit parent_limit "max_recipients"
    × KeepsLimit child_limit parent_limit "max_item_amount_usd_micros"
constraints_subset-KeepsLimit_example =
    constraints_subset-KeepsLimit child_limit parent_limit within_limit

abbrev registry : ClaimRegistry
registry = record {
  version = str "verifier-claims.v8";
  verdict_enum = "supported" ∷ "disproved" ∷ "insufficient_evidence" ∷ "unverifiable_scope" ∷ [];
  claims = record { name = "export.integrity.v1"; verdict_enum = []; does_not_establish = [] } ∷ [];
}

abbrev good_subject : VerdictSubject
good_subject = record {
  subject_type = "export";
  id = none;
  verdict = "supported";
  reason_code = none;
  message = none;
  evidence = [];
  required = true;
}

abbrev good_claim : ClaimVerdict
good_claim = record {
  name = "export.integrity.v1";
  subjects = good_subject ∷ [];
  required = true;
  verdict = none;
  semantics = none;
  evidence = [];
  does_not_establish = none;
  epistemic_state = none;
  reason_code = none;
  message = none;
  diagnostics = [];
}

abbrev pinned : ResolvedSemantics
pinned = record {
  mode = "pinned";
  requested_claims =
      record { name = "export.integrity.v1"; required = true; minimum_trust_grade = none } ∷ [];
  semantics_for_claim = λ name. [];
}

abbrev subject : Subject
subject = record { subject_type = "export"; id = none; evidence = [] }

abbrev outcome_claim : ClaimVerdict
outcome_claim = record {
  name = "export.integrity.v1";
  subjects = good_subject ∷ [];
  required = true;
  verdict = none;
  semantics = some [];
  evidence = [];
  does_not_establish = none;
  epistemic_state = none;
  reason_code = none;
  message = none;
  diagnostics = [];
}

abbrev outcome : Enforced
outcome = record { claims = outcome_claim ∷ []; ok = true; exit_code = none; error = none }

enforced :
    enforce_required_claims registry
      ("export.integrity.v1" ∷ [])
      (good_claim ∷ [])
      (some pinned)
      true
      none
      none
      subject
    ≡ some outcome
unfolding enforce_required_claims unsupported_names minimum_grade_failure_claims
    apply_semantics_to_claims required_for merge_claims merge_claim aggregate_verdict
    aggregate_subject_verdicts verdict_value
enforced = refl

enforce_required_claims-AllSupported_example :
    aggregate_verdict registry outcome_claim ≡ some "supported"
enforce_required_claims-AllSupported_example =
    enforce_required_claims-AllSupported registry ("export.integrity.v1" ∷ []) (good_claim ∷ [])
      pinned true none none subject outcome refl enforced refl outcome_claim (inl refl) refl

enforce_required_claims-present_example :
    text_in (claim_names outcome.claims) "export.integrity.v1" ≡ true
enforce_required_claims-present_example =
    enforce_required_claims-present registry ("export.integrity.v1" ∷ []) (good_claim ∷ []) pinned
      true none none subject outcome "export.integrity.v1" refl enforced refl

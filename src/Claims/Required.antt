-- ===== src/Claims/Required.antt =====
-- keel_verifier/verifier.py: `_apply_semantics_to_claims`, `_missing_required_claim` and
-- `_minimum_grade_failure_claims`, with the requests of `ResolvedSemantics`. The names of the claims
-- that the program adjudicates, and the semantics of a claim, are arguments.
use Prim.Native.String.{◌++◌ as ◌<>◌}
use keel_verifier.Base.{
  ℕ, String, Bool, true, false, ◌&&◌, Option, none, some, List, [], ◌∷◌, map, str_eq, leb,
  if◌then◌else◌,
}
use keel_verifier.Json.{Json, is_some}
use keel_verifier.Claims.{
  ClaimRegistry, ClaimVerdict, find_claim, text_in, or_empty, verdict_value, aggregate_verdict,
}

pub record ClaimRequest : Type 0 where
  pub name : String
  pub required : Bool
  pub minimum_trust_grade : Option String

pub record ResolvedSemantics : Type 0 where
  pub mode : String
  pub requested_claims : List ClaimRequest
  pub semantics_for_claim : String → List Json

abbrev pub required_in : List ClaimRequest → String → Bool
required_in [] name = true
required_in (r ∷ rs) name = if str_eq r.name name then r.required else required_in rs name

-- `semantics.required_for(name)`
unfoldable pub required_for : ResolvedSemantics → String → Bool
required_for semantics name = required_in semantics.requested_claims name

abbrev pub requested_names : ResolvedSemantics → List String
requested_names semantics = map (λ r. r.name) semantics.requested_claims

abbrev pub is_pinned : ResolvedSemantics → Bool
is_pinned semantics = str_eq semantics.mode "pinned"

abbrev pub apply_semantics : ResolvedSemantics → ClaimVerdict → ClaimVerdict
apply_semantics semantics claim = record {
  name = claim.name;
  subjects = claim.subjects;
  required =
      if is_pinned semantics && text_in (requested_names semantics) claim.name
      then required_for semantics claim.name
      else claim.required;
  verdict = claim.verdict;
  semantics = some (semantics.semantics_for_claim claim.name);
  evidence = claim.evidence;
  does_not_establish = claim.does_not_establish;
  epistemic_state = claim.epistemic_state;
  reason_code = claim.reason_code;
  message = claim.message;
  diagnostics = claim.diagnostics;
}

unfoldable pub apply_semantics_to_claims : List ClaimVerdict → ResolvedSemantics → List ClaimVerdict
unfolding required_for
apply_semantics_to_claims claims semantics = map (apply_semantics semantics) claims

-- `RESERVATION_LINKAGE_TRUST_ORDER.get(grade)`
abbrev trust_rank : String → Option ℕ
trust_rank grade =
    if str_eq grade "keel_self_signed_unanchored"
    then some 10
    else if str_eq grade "keel_attested_unsigned"
    then some 20
    else if str_eq grade "signed_identity"
    then some 30
    else none

abbrev or_blank : Option String → String
or_blank none = ""
or_blank (some s) = s

abbrev ranks_at_least : Option ℕ → Option ℕ → Bool
ranks_at_least (some actual) (some minimum) = leb minimum actual
ranks_at_least _ _ = false

unfoldable pub reservation_linkage_grade_satisfies : Option String → Option String → Bool
reservation_linkage_grade_satisfies actual none = true
reservation_linkage_grade_satisfies actual (some minimum) =
    ranks_at_least (trust_rank (or_blank actual)) (trust_rank minimum)

-- `epistemic.get(k)`, where the empty text counts as missing.
abbrev state_text : String → List (String × String) → Option String
state_text k [] = none
state_text k ((j, v) ∷ d) =
    if str_eq j k then (if str_eq v "" then none else some v) else state_text k d

abbrev actual_grade : List (String × String) → Option String
actual_grade d = elim (state_text "trust_grade" d) [
  | some grade ↦ some grade
  | none ↦ state_text "attestation_grade" d
]

abbrev linkage_claim : String
linkage_claim = "quota.reservation_linkage.v1"

-- The last claim with a name, as the dict by name keeps it.
abbrev last_named : String → List ClaimVerdict → Option ClaimVerdict → Option ClaimVerdict
last_named name [] found = found
last_named name (c ∷ cs) found = last_named name cs (if str_eq c.name name then some c else found)

abbrev grade_message : Option String → String → String
grade_message actual minimum =
    "quota reservation linkage support grade "
    <> ((elim actual [ none ↦ "unknown" | some s ↦ s ])
        <> (" is below required minimum " <> minimum))

-- What the claims of one enforcement have in common.
pub record Subject : Type 0 where
  pub subject_type : String
  pub id : Option String
  pub evidence : List String

-- `ClaimVerdict(...)` with one subject and an explicit verdict.
abbrev pub failed_claim :
    String
    → Bool
    → String
    → List Json
    → Subject
    → String
    → String
    → Option (List (String × String))
    → ClaimVerdict
failed_claim name required verdict semantics subject reason message epistemic = record {
  name = name;
  subjects =
      record {
        subject_type = subject.subject_type;
        id = subject.id;
        verdict = verdict;
        reason_code = some reason;
        message = some message;
        evidence = subject.evidence;
        required = true;
      }
      ∷ [];
  required = required;
  verdict = some verdict;
  semantics = some semantics;
  evidence = subject.evidence;
  does_not_establish = none;
  epistemic_state = epistemic;
  reason_code = some reason;
  message = some message;
  diagnostics = [];
}

abbrev pub cons_claim {ℓ} : {A : Type ℓ} → Option A → Option (List A) → Option (List A)
cons_claim none rest = none
cons_claim (some c) none = none
cons_claim (some c) (some cs) = some (c ∷ cs)

module _ (registry : ClaimRegistry) (claim_semantics : List String) where
  -- The construction of a claim checks its name and its verdicts.
  abbrev pub checked : ClaimVerdict → String → Option ClaimVerdict
  checked claim verdict =
      if is_some (find_claim claim.name registry.claims) && is_some (verdict_value registry verdict)
      then some claim
      else none

  unfoldable pub missing_required_claim : ResolvedSemantics → Subject → String → Option ClaimVerdict
  unfolding verdict_value
  missing_required_claim semantics subject name =
      if text_in claim_semantics name
      then checked
          (failed_claim name true "insufficient_evidence" (semantics.semantics_for_claim name)
            subject "REQUIRED_CLAIM_NOT_ADJUDICATED"
            "claim_set declared this claim required, but no evidence or verifier path produced an adjudication"
            none)
          "insufficient_evidence"
      else checked
          (failed_claim name true "unverifiable_scope" (semantics.semantics_for_claim name) subject
            "REQUIRED_CLAIM_UNVERIFIABLE_SCOPE"
            "claim_set declared this claim required, but this verifier cannot resolve an adjudication path for the claim"
            none)
          "unverifiable_scope"

  abbrev pub grade_failure :
      ResolvedSemantics → Subject → ClaimRequest → Option String → String → ClaimVerdict
  grade_failure semantics subject request actual minimum =
      failed_claim request.name request.required "insufficient_evidence"
        (semantics.semantics_for_claim request.name) subject
        "RESERVATION_LINKAGE_TRUST_GRADE_BELOW_MINIMUM" (grade_message actual minimum)
        (some (("trust_grade", or_blank actual) ∷ ("minimum_trust_grade", minimum) ∷ []))

  abbrev grade_test :
      ResolvedSemantics
      → Subject
      → ClaimRequest
      → String
      → List (String × String)
      → Option (List ClaimVerdict)
      → Option (List ClaimVerdict)
  grade_test semantics subject request minimum state rest =
      if reservation_linkage_grade_satisfies (actual_grade state) (some minimum)
      then rest
      else cons_claim
          (checked (grade_failure semantics subject request (actual_grade state) minimum)
            "insufficient_evidence")
          rest

  -- `supported` is the value of `verdict_value("supported")`.
  abbrev if_supported :
      Option String
      → Option String
      → Option (List ClaimVerdict)
      → Option (List ClaimVerdict)
      → Option (List ClaimVerdict)
  if_supported none supported then_ else_ = none
  if_supported (some v) none then_ else_ = none
  if_supported (some v) (some w) then_ else_ = if str_eq v w then then_ else else_

  abbrev for_request :
      ResolvedSemantics
      → Subject
      → ClaimRequest
      → Option ClaimVerdict
      → Option String
      → Option (List ClaimVerdict)
      → Option (List ClaimVerdict)
  for_request semantics subject request none minimum rest = rest
  for_request semantics subject request (some claim) none rest = rest
  for_request semantics subject request (some claim) (some minimum) rest =
      if_supported (aggregate_verdict registry claim) (verdict_value registry "supported")
        (grade_test semantics subject request minimum (or_empty claim.epistemic_state) rest) rest

  unfoldable pub minimum_grade_failure_claims :
      List ClaimVerdict
      → ResolvedSemantics
      → Subject
      → List ClaimRequest
      → Option (List ClaimVerdict)
  unfolding reservation_linkage_grade_satisfies aggregate_verdict verdict_value
  minimum_grade_failure_claims claims semantics subject [] = some []
  minimum_grade_failure_claims claims semantics subject (r ∷ rs) =
      let rest = minimum_grade_failure_claims claims semantics subject rs in
      if str_eq r.name linkage_claim
      then for_request semantics subject r (last_named r.name claims none) r.minimum_trust_grade
          rest
      else rest

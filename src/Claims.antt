-- ===== src/Claims.antt =====
-- keel_verifier/verdicts.py and the claims of keel_verifier/verifier.py: subjects, claims and their
-- aggregate verdict, and how claims of one name are merged. The claim registry is an argument.
-- `none` is a ValueError.
pub mod Registry
pub mod Aggregate
pub mod Required
pub mod Enforce
use keel_verifier.Base.{
  ℕ, String, Bool, true, false, ◌&&◌, ◌||◌, not, Option, none, some, List, [], ◌∷◌, ◌++◌, str_eq,
  any, filter, if◌then◌else◌,
}
use keel_verifier.Json.{Json}

pub record ClaimDefinition : Type 0 where
  pub name : String
  pub verdict_enum : List String
  pub does_not_establish : List String

-- The definitions by name, the last one first.
pub record ClaimRegistry : Type 0 where
  pub version : Json
  pub verdict_enum : List String
  pub claims : List ClaimDefinition

pub record VerdictSubject : Type 0 where
  pub subject_type : String
  pub id : Option String
  pub verdict : String
  pub reason_code : Option String
  pub message : Option String
  pub evidence : List String
  pub required : Bool

pub record ClaimVerdict : Type 0 where
  pub name : String
  pub subjects : List VerdictSubject
  pub required : Bool
  pub verdict : Option String
  pub semantics : Option (List Json)
  pub evidence : List String
  pub does_not_establish : Option (List String)
  pub epistemic_state : Option (List (String × String))
  pub reason_code : Option String
  pub message : Option String
  pub diagnostics : List String

-- A definition by its name.
abbrev pub find_claim : String → List ClaimDefinition → Option ClaimDefinition
find_claim name [] = none
find_claim name (d ∷ ds) = if str_eq d.name name then some d else find_claim name ds

abbrev pub text_in : List String → String → Bool
text_in xs s = any (str_eq s) xs

-- `a or b`, where the empty text does not count.
abbrev pub text_or : Option String → Option String → Option String
text_or none b = b
text_or (some s) b = if str_eq s "" then b else some s

abbrev pub first_given {ℓ} : {A : Type ℓ} → Option A → Option A → Option A
first_given none b = b
first_given (some a) b = some a

-- `{**d, k: v}`
abbrev set_key : List (String × String) → String × String → List (String × String)
set_key [] (k, v) = (k, v) ∷ []
set_key ((j, w) ∷ d) (k, v) = if str_eq j k then (j, v) ∷ d else (j, w) ∷ set_key d (k, v)

abbrev update : List (String × String) → List (String × String) → List (String × String)
update d [] = d
update d (e ∷ es) = update (set_key d e) es

abbrev pub or_empty : Option (List (String × String)) → List (String × String)
or_empty none = []
or_empty (some d) = d

abbrev unless_empty : List (String × String) → Option (List (String × String))
unless_empty [] = none
unless_empty (e ∷ d) = some (e ∷ d)

-- The claim for two of one name: the explicit verdicts are dropped.
abbrev pub join_claims : ClaimVerdict → ClaimVerdict → ClaimVerdict
join_claims existing claim = record {
  name = claim.name;
  subjects = existing.subjects ++ claim.subjects;
  required = existing.required || claim.required;
  verdict = none;
  semantics = first_given existing.semantics claim.semantics;
  evidence = existing.evidence ++ claim.evidence;
  does_not_establish = first_given existing.does_not_establish claim.does_not_establish;
  epistemic_state =
      unless_empty (update (or_empty existing.epistemic_state) (or_empty claim.epistemic_state));
  reason_code = text_or existing.reason_code claim.reason_code;
  message = text_or existing.message claim.message;
  diagnostics = existing.diagnostics ++ claim.diagnostics;
}

-- One round of the loop: the dict of the merged claims in the order of their first one.
unfoldable pub merge_claim : List ClaimVerdict → ClaimVerdict → List ClaimVerdict
merge_claim [] claim = claim ∷ []
merge_claim (c ∷ cs) claim =
    if str_eq c.name claim.name then join_claims c claim ∷ cs else c ∷ merge_claim cs claim

abbrev pub merge_onto : List ClaimVerdict → List ClaimVerdict → List ClaimVerdict
merge_onto merged [] = merged
merge_onto merged (c ∷ cs) = merge_onto (merge_claim merged c) cs

unfoldable pub merge_claims : List ClaimVerdict → List ClaimVerdict
unfolding merge_claim
merge_claims claims = merge_onto [] claims

module _ (registry : ClaimRegistry) where
  -- `verdict_value`
  unfoldable pub verdict_value : String → Option String
  verdict_value value = if text_in registry.verdict_enum value then some value else none

  -- `if any(subject.verdict == verdict_value(v) ...): return verdict_value(v)`, with what follows.
  abbrev pub choose : String → List VerdictSubject → Option String → Option String
  choose v subjects next = elim (verdict_value v) [
    | none ↦ none
    | some w ↦ if any (λ s. str_eq s.verdict w) subjects then some w else next
  ]

  abbrev pub aggregate_evaluable : List VerdictSubject → Option String
  aggregate_evaluable [] = verdict_value "insufficient_evidence"
  aggregate_evaluable (s ∷ ss) = choose "disproved" (s ∷ ss) (
      choose "unverifiable_scope" (s ∷ ss)
        (choose "insufficient_evidence" (s ∷ ss) (verdict_value "supported")))

  unfoldable pub aggregate_subject_verdicts : List VerdictSubject → Option String
  unfolding verdict_value
  aggregate_subject_verdicts subjects = aggregate_evaluable (filter (λ s. s.required) subjects)

  abbrev aggregate_or : Option String → List VerdictSubject → Option String
  aggregate_or (some v) subjects = some v
  aggregate_or none subjects = aggregate_subject_verdicts subjects

  unfoldable pub aggregate_verdict : ClaimVerdict → Option String
  unfolding aggregate_subject_verdicts
  aggregate_verdict claim = aggregate_or claim.verdict claim.subjects

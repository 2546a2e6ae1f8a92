-- ===== src/Claims/Enforce.antt =====
-- keel_verifier/verifier.py: `_enforce_required_claims`: what a verification ends with when a pack
-- requires claims.
pub mod Laws
pub mod Names
pub mod Presence
use Prim.Native.Nat.{Ordering}
use Prim.Native.String
use Prim.Native.String.{compare, ◌++◌ as ◌<>◌}
use keel_verifier.Base.{
  ℕ, String, Bool, true, false, ◌&&◌, ◌||◌, not, Option, none, some, List, [], ◌∷◌, ◌++◌, ℤ, pos,
  eqz, map, str_eq, leb, filter, if◌then◌else◌,
}
use keel_verifier.Json.{Json, is_some}
use keel_verifier.Claims.{
  ClaimRegistry, VerdictSubject, ClaimVerdict, find_claim, text_in, or_empty, merge_claims,
  verdict_value, aggregate_verdict,
}
use keel_verifier.Claims.Required.{
  ClaimRequest, ResolvedSemantics, Subject, is_pinned, apply_semantics_to_claims, cons_claim,
  missing_required_claim, minimum_grade_failure_claims,
}

abbrev insert_text : String → List String → List String
insert_text s [] = s ∷ []
insert_text s (t ∷ ts) = elim (compare s t) [ Ordering.gt ↦ t ∷ insert_text s ts | _ ↦ s ∷ t ∷ ts ]

abbrev sorted : List String → List String
sorted [] = []
sorted (s ∷ ss) = insert_text s (sorted ss)

abbrev joined : List String → String
joined [] = ""
joined (s ∷ []) = s
joined (s ∷ t ∷ ss) = s <> (", " <> joined (t ∷ ss))

pub record Enforced : Type 0 where
  pub claims : List ClaimVerdict
  pub ok : Bool
  pub exit_code : Option ℤ
  pub error : Option String

abbrev fail_code : Option ℤ → Option ℤ
fail_code none = some (pos 1)
fail_code (some code) = if eqz code (pos 0) then some (pos 1) else some code

abbrev fail_error : Option String → List String → Option String
fail_error (some e) names = some e
fail_error none names = some ("required claims not supported: " <> joined (sorted names))

-- The names that are requested as required.
abbrev pub required_names : ResolvedSemantics → List String
required_names semantics = map (λ r. r.name) (filter (λ r. r.required) semantics.requested_claims)

abbrev pub claim_names : List ClaimVerdict → List String
claim_names claims = map (λ c. c.name) claims

-- The required claims that are not supported.
abbrev pub is_required : List String → ClaimVerdict → Bool
is_required names claim = text_in names claim.name && claim.required

abbrev pub not_supported :
    Option String → Option String → ClaimVerdict → Option (List String) → Option (List String)
not_supported (some v) (some w) claim (some names) =
    some (if str_eq v w then names else claim.name ∷ names)
not_supported _ _ claim _ = none

abbrev pub conclude :
    List ClaimVerdict → Bool → Option ℤ → Option String → Option (List String) → Option Enforced
conclude claims ok code error none = none
conclude claims ok code error (some []) =
    some (record { claims = claims; ok = ok; exit_code = code; error = error })
conclude claims ok code error (some (n ∷ ns)) = some (record {
  claims = claims;
  ok = false;
  exit_code = fail_code code;
  error = fail_error error (n ∷ ns);
})

-- `_merge_claims([*merged, *more])` when there is more.
abbrev pub merge_more : List ClaimVerdict → List ClaimVerdict → List ClaimVerdict
merge_more merged [] = merged
merge_more merged (c ∷ cs) = merge_claims (merged ++ (c ∷ cs))

module _ (registry : ClaimRegistry) (claim_semantics : List String) where
  -- The claim for one requested name, if it is not there.
  abbrev pub missing_claims :
      ResolvedSemantics → Subject → List String → List String → Option (List ClaimVerdict)
  missing_claims semantics subject emitted [] = some []
  missing_claims semantics subject emitted (name ∷ names) =
      let rest = missing_claims semantics subject emitted names in
      if text_in emitted name
      then rest
      else cons_claim (missing_required_claim registry claim_semantics semantics subject name) rest

  unfoldable pub unsupported_names : List String → List ClaimVerdict → Option (List String)
  unsupported_names names [] = some []
  unsupported_names names (c ∷ cs) =
      let rest = unsupported_names names cs in
      if is_required names c
      then not_supported (aggregate_verdict registry c) (verdict_value registry "supported") c rest
      else rest

  module _ (semantics : ResolvedSemantics) (subject : Subject) (ok : Bool) (code : Option ℤ)
      (error : Option String) where
    abbrev pub after_grades : List ClaimVerdict → Option (List ClaimVerdict) → Option Enforced
    after_grades merged none = none
    after_grades merged (some failures) =
        let claims = merge_more merged failures in
        conclude claims ok code error (unsupported_names (required_names semantics) claims)

    abbrev pub with_grades : List ClaimVerdict → Option Enforced
    with_grades merged = after_grades merged (
        minimum_grade_failure_claims registry claim_semantics merged semantics subject
          semantics.requested_claims)

    abbrev pub after_missing : List ClaimVerdict → Option (List ClaimVerdict) → Option Enforced
    after_missing merged none = none
    after_missing merged (some missing) = with_grades (merge_more merged missing)

    abbrev pub enforce_names : List ClaimVerdict → List String → Option Enforced
    enforce_names merged [] =
        some (record { claims = merged; ok = ok; exit_code = code; error = error })
    enforce_names merged (n ∷ ns) =
        after_missing merged (missing_claims semantics subject (claim_names merged) (n ∷ ns))

  abbrev pub enforce_semantics :
      Option ResolvedSemantics
      → List ClaimVerdict
      → Bool
      → Option ℤ
      → Option String
      → Subject
      → Option Enforced
  enforce_semantics none claims ok code error subject =
      some (record { claims = merge_claims claims; ok = ok; exit_code = code; error = error })
  enforce_semantics (some semantics) claims ok code error subject =
      let merged = merge_claims (apply_semantics_to_claims claims semantics) in
      if is_pinned semantics
      then enforce_names semantics subject ok code error merged (required_names semantics)
      else some (record { claims = merged; ok = ok; exit_code = code; error = error })

  unfoldable pub enforce_required_claims :
      List ClaimVerdict
      → Option ResolvedSemantics
      → Bool
      → Option ℤ
      → Option String
      → Subject
      → Option Enforced
  unfolding merge_claims apply_semantics_to_claims missing_required_claim
      minimum_grade_failure_claims unsupported_names
  enforce_required_claims claims semantics ok code error subject =
      enforce_semantics semantics claims ok code error subject

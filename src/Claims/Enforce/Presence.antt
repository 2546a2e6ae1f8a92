-- ===== src/Claims/Enforce/Presence.antt =====
-- Every required claim is among the claims of an enforcement.
use text.Mathlib.TextEquality.{eq_iff}
use keel_verifier.Base.{
  String, ◌≡◌, refl, ap, ◌⊎◌, inl, inr, Bool, true, false, ◌&&◌, Option, none, some, List, [], ◌∷◌,
  ℤ, str_eq, Bool-cases, if◌then◌else◌,
}
use keel_verifier.Json.{is_some}
use keel_verifier.Claims.{
  find_claim, verdict_value, ClaimRegistry, ClaimVerdict, text_in, merge_claims,
}
use keel_verifier.Claims.Required.{
  ResolvedSemantics, Subject, is_pinned, checked, cons_claim, missing_required_claim,
  minimum_grade_failure_claims, apply_semantics_to_claims,
}
use keel_verifier.Claims.Enforce.{
  Enforced, claim_names, merge_more, required_names, missing_claims, conclude, after_grades,
  after_missing, enforce_names, enforce_required_claims, unsupported_names,
}
use keel_verifier.Claims.Enforce.Names.{or_split, or_left, or_right, Names, merge_more_named}

abbrev name_or : Option ClaimVerdict → String
name_or none = ""
name_or (some c) = c.name

module _ (registry : ClaimRegistry) (claim_semantics : List String) where
  checked-eq-some :
      (claim c : ClaimVerdict) (verdict : String)
      → checked registry claim_semantics claim verdict ≡ some c
      → claim.name ≡ c.name
  checked-eq-some claim c verdict h =
      by_test
        (is_some (find_claim claim.name registry.claims)
          && is_some (verdict_value registry verdict))
        h
    where
      by_test : (b : Bool) → (if b then some claim else none) ≡ some c → claim.name ≡ c.name
      by_test true k = ap (λ (o : Option ClaimVerdict). name_or o) k
      by_test false k = cc

  missing_required_claim-named :
      (semantics : ResolvedSemantics) (subject : Subject) (name : String) (c : ClaimVerdict)
      → missing_required_claim registry claim_semantics semantics subject name ≡ some c
      → name ≡ c.name
  unfolding missing_required_claim
  missing_required_claim-named semantics subject name c h =
      elim (Bool-cases (text_in claim_semantics name)) [
        | inl e ↦ checked-eq-some _ c "insufficient_evidence" (rw e at h)
        | inr e ↦ checked-eq-some _ c "unverifiable_scope" (rw e at h)
      ]

  cons_claim-cases :
      (o : Option ClaimVerdict) (rest : Option (List ClaimVerdict)) (cs : List ClaimVerdict)
      → cons_claim o rest ≡ some cs
      → (c : ClaimVerdict) × (ms : List ClaimVerdict) × (o ≡ some c)
        × (rest ≡ some ms)
        × (cs ≡ c ∷ ms)
  cons_claim-cases none rest cs h = cc
  cons_claim-cases (some c) none cs h = cc
  cons_claim-cases (some c) (some ms) cs h = (c, ms, refl, refl, cc)

  -- A required name was emitted or stands among the missing claims.
  missing_claims-named :
      (semantics : ResolvedSemantics) (subject : Subject) (emitted : List String) (name : String)
      (names : List String) (cs : List ClaimVerdict)
      → missing_claims registry claim_semantics semantics subject emitted names ≡ some cs
      → text_in names name ≡ true
      → (text_in emitted name ≡ true) ⊎ Names name cs
  missing_claims-named semantics subject emitted name [] cs h t = cc
  missing_claims-named semantics subject emitted name (n ∷ ns) cs h t =
      by_emitted (Bool-cases (text_in emitted n)) (or_split _ _ t)
        (missing_claims-named semantics subject emitted name ns)
    where
      by_emitted :
          (text_in emitted n ≡ true) ⊎ (text_in emitted n ≡ false)
          → (str_eq name n ≡ true) ⊎ (text_in ns name ≡ true)
          → ((ms : List ClaimVerdict)
              → missing_claims registry claim_semantics semantics subject emitted ns ≡ some ms
              → text_in ns name ≡ true
              → (text_in emitted name ≡ true) ⊎ Names name ms)
          → (text_in emitted name ≡ true) ⊎ Names name cs
      by_emitted (inl e) (inl q) ih = inl (rw ((eq_iff name n).0 q) e)
      by_emitted (inl e) (inr q) ih = ih cs (rw e at h) q
      by_emitted (inr e) q ih =
          let (c, ms, found, rest, shape) = cons_claim-cases _ _ cs (rw e at h) in
          rw shape
            (by_head ms c (missing_required_claim-named semantics subject n c found) q (ih ms rest))
        where
          by_head :
              (ms : List ClaimVerdict) (c : ClaimVerdict)
              → n ≡ c.name
              → (str_eq name n ≡ true) ⊎ (text_in ns name ≡ true)
              → (text_in ns name ≡ true → (text_in emitted name ≡ true) ⊎ Names name ms)
              → (text_in emitted name ≡ true) ⊎ Names name (c ∷ ms)
          by_head ms c same (inl q) ih = inr (or_left (str_eq name c.name) _ (cc (q, same)))
          by_head ms c same (inr q) ih = elim (ih q) [
            | inl a ↦ inl a
            | inr b ↦ inr (or_right (str_eq name c.name) _ b)
          ]

  conclude-claims :
      (claims : List ClaimVerdict) (ok : Bool) (code : Option ℤ) (error : Option String)
      (o : Option (List String)) (r : Enforced)
      → conclude claims ok code error o ≡ some r
      → claims ≡ r.claims
  conclude-claims claims ok code error none r h = cc
  conclude-claims claims ok code error (some []) r h = cc h
  conclude-claims claims ok code error (some (n ∷ ns)) r h = cc h

  module _ (semantics : ResolvedSemantics) (subject : Subject) (ok : Bool) (code : Option ℤ)
      (error : Option String) (r : Enforced) (name : String) where
    after_grades-named :
        (merged : List ClaimVerdict) (failures : Option (List ClaimVerdict))
        → after_grades registry claim_semantics semantics subject ok code error merged failures
          ≡ some r
        → Names name merged
        → Names name r.claims
    after_grades-named merged none h t = cc
    after_grades-named merged (some failures) h t =
        rw
          (← (
            conclude-claims (merge_more merged failures) ok code error
              (unsupported_names registry claim_semantics (required_names semantics)
                (merge_more merged failures))
              r h))
          (merge_more_named name merged failures (inl t))

    after_missing-named :
        (merged : List ClaimVerdict) (missing : Option (List ClaimVerdict))
        → after_missing registry claim_semantics semantics subject ok code error merged missing
          ≡ some r
        → ((cs : List ClaimVerdict) → missing ≡ some cs → Names name merged ⊎ Names name cs)
        → Names name r.claims
    after_missing-named merged none h f = cc
    after_missing-named merged (some missing) h f =
        after_grades-named (merge_more merged missing)
          (minimum_grade_failure_claims registry claim_semantics (merge_more merged missing)
            semantics subject semantics.requested_claims)
          h (merge_more_named name merged missing (f missing refl))

    enforce_names-named :
        (merged : List ClaimVerdict) (names : List String)
        → enforce_names registry claim_semantics semantics subject ok code error merged names
          ≡ some r
        → text_in names name ≡ true
        → Names name r.claims
    enforce_names-named merged [] h t = cc
    enforce_names-named merged (n ∷ ns) h t =
        after_missing-named merged _ h
          (λ cs e. missing_claims-named semantics subject (claim_names merged) name (n ∷ ns) cs e t)

  -- When pinned semantics require a claim by name, a claim of that name is among the claims of the
  -- outcome, whether or not the verification stays ok.
  pub enforce_required_claims-present :
      (claims : List ClaimVerdict) (semantics : ResolvedSemantics) (ok : Bool) (code : Option ℤ)
      (error : Option String) (subject : Subject) (r : Enforced) (name : String)
      → is_pinned semantics ≡ true
      → enforce_required_claims registry claim_semantics claims
          (some semantics)
          ok
          code
          error
          subject
        ≡ some r
      → text_in (required_names semantics) name ≡ true
      → text_in (claim_names r.claims) name ≡ true
  unfolding enforce_required_claims
  enforce_required_claims-present claims semantics ok code error subject r name pinned h t =
      enforce_names-named semantics subject ok code error r name
        (merge_claims (apply_semantics_to_claims claims semantics)) (required_names semantics)
        (rw pinned at h) t

-- ===== src/Claims/Enforce/Laws.antt =====
-- What an enforcement that stays ok says of the required claims.
use text.Mathlib.TextEquality.{eq_iff}
use keel_verifier.Base.{
  String, ◌≡◌, refl, inl, inr, Bool, true, Option, none, some, List, [], ◌∷◌, ℤ, str_eq, Bool-cases,
}
use keel_verifier.Trust.Select.Laws.{Among}
use keel_verifier.Claims.{ClaimRegistry, ClaimVerdict, aggregate_verdict}
use keel_verifier.Claims.Aggregate.{verdict_value-some}
use keel_verifier.Claims.Required.{ResolvedSemantics, Subject, is_pinned}
use keel_verifier.Claims.Enforce.{
  Enforced, is_required, not_supported, unsupported_names, conclude, merge_more, after_grades,
  after_missing, enforce_names, enforce_required_claims, required_names,
}

module _ (registry : ClaimRegistry) (claim_semantics : List String) where
  not_supported-nil :
      (a w : Option String) (c : ClaimVerdict) (rest : Option (List String))
      → not_supported a w c rest ≡ some []
      → (v : String) × (a ≡ some v) × (w ≡ some v) × (rest ≡ some [])
  not_supported-nil none w c rest h = cc
  not_supported-nil (some v) none c rest h = cc
  not_supported-nil (some v) (some w) c none h = cc
  not_supported-nil (some v) (some w) c (some names) h = elim (Bool-cases (str_eq v w)) [
    | inl e ↦ (v, refl, cc ((eq_iff v w).0 e), cc (rw e at h))
    | inr e ↦ cc (rw e at h)
  ]

  unsupported_names-cons :
      (names : List String) (c : ClaimVerdict) (cs : List ClaimVerdict)
      → unsupported_names registry claim_semantics names (c ∷ cs) ≡ some []
      → (unsupported_names registry claim_semantics names cs ≡ some [])
        × (is_required names c ≡ true → aggregate_verdict registry c ≡ some "supported")
  unfolding unsupported_names
  unsupported_names-cons names c cs h = elim (Bool-cases (is_required names c)) [
    | inr e ↦ (rw e at h, λ r. cc (e, r))
    | inl e ↦
        let (v, a, w, rest) = not_supported-nil _ _ c _ (rw e at h) in
        (rest, λ r. cc (a, verdict_value-some registry "supported" v w))
  ]

  unsupported_names-nil :
      (names : List String) (cs : List ClaimVerdict) (c : ClaimVerdict)
      → unsupported_names registry claim_semantics names cs ≡ some []
      → Among c cs
      → is_required names c ≡ true
      → aggregate_verdict registry c ≡ some "supported"
  unsupported_names-nil names [] c h m r = absurd m
  unsupported_names-nil names (x ∷ cs) c h (inl e) r =
      rw e ((unsupported_names-cons names x cs h).1 (rw e at r))
  unsupported_names-nil names (x ∷ cs) c h (inr m) r =
      unsupported_names-nil names cs c (unsupported_names-cons names x cs h).0 m r

  -- Every required claim among the claims of the outcome is supported.
  abbrev pub AllSupported : List String → Enforced → Type 0
  AllSupported names r =
      (c : ClaimVerdict)
      → Among c r.claims
      → is_required names c ≡ true
      → aggregate_verdict registry c ≡ some "supported"

  module _ (names : List String) (ok : Bool) (code : Option ℤ) (error : Option String)
      (r : Enforced) (good : r.ok ≡ true) where
    conclude-AllSupported :
        (claims : List ClaimVerdict) (o : Option (List String))
        → unsupported_names registry claim_semantics names claims ≡ o
        → conclude claims ok code error o ≡ some r
        → AllSupported names r
    conclude-AllSupported claims none u h = cc
    conclude-AllSupported claims (some (n ∷ ns)) u h = cc (good, h)
    conclude-AllSupported claims (some []) u h =
        λ c m q. unsupported_names-nil names claims c u (rw (same claims h) m) q
      where
        same :
            (claims : List ClaimVerdict)
            → conclude claims ok code error (some []) ≡ some r
            → claims ≡ r.claims
        same claims k = cc k

  module _ (semantics : ResolvedSemantics) (subject : Subject) (ok : Bool) (code : Option ℤ)
      (error : Option String) (r : Enforced) (good : r.ok ≡ true) where
    abbrev Sound : Type 0
    Sound = AllSupported (required_names semantics) r

    after_grades-Sound :
        (merged : List ClaimVerdict) (failures : Option (List ClaimVerdict))
        → after_grades registry claim_semantics semantics subject ok code error merged failures
          ≡ some r
        → Sound
    after_grades-Sound merged none h = cc
    after_grades-Sound merged (some failures) h =
        conclude-AllSupported (required_names semantics) ok code error r good _ _ refl h

    after_missing-Sound :
        (merged : List ClaimVerdict) (missing : Option (List ClaimVerdict))
        → after_missing registry claim_semantics semantics subject ok code error merged missing
          ≡ some r
        → Sound
    after_missing-Sound merged none h = cc
    after_missing-Sound merged (some missing) h = after_grades-Sound (merge_more merged missing) _ h

    enforce_names-Sound :
        (merged : List ClaimVerdict) (names : List String)
        → required_names semantics ≡ names
        → enforce_names registry claim_semantics semantics subject ok code error merged names
          ≡ some r
        → Sound
    enforce_names-Sound merged [] e h = λ c m q. cc (rw e at q)
    enforce_names-Sound merged (n ∷ ns) e h = after_missing-Sound merged _ h

  -- When pinned semantics leave a verification ok, every claim of the outcome that they require by
  -- name and that counts as required has the aggregate verdict supported.
  pub enforce_required_claims-AllSupported :
      (claims : List ClaimVerdict) (semantics : ResolvedSemantics) (ok : Bool) (code : Option ℤ)
      (error : Option String) (subject : Subject) (r : Enforced)
      → is_pinned semantics ≡ true
      → enforce_required_claims registry claim_semantics claims
          (some semantics)
          ok
          code
          error
          subject
        ≡ some r
      → r.ok ≡ true
      → AllSupported (required_names semantics) r
  unfolding enforce_required_claims
  enforce_required_claims-AllSupported claims semantics ok code error subject r pinned h good =
      enforce_names-Sound semantics subject ok code error r good _ _ refl (rw pinned at h)

-- ===== src/Authority/Signer/Laws.antt =====
-- A status event that is effective was signed by an active key for permit bindings.
use keel_verifier.Base.{
  ℕ, String, ◌≡◌, inl, inr, refl, Bool, true, Option, none, some, List, [], ◌∷◌, any, Bool-cases,
}
use keel_verifier.Json.{Fields}
use keel_verifier.Trust.Select.Laws.{Among}
use keel_verifier.Authority.Library.{Library}
use keel_verifier.Authority.Signer.{
  unrelated, effective, permit_binding_key_candidates, signs, check_signer,
}

any-Among :
    {A : Type 0} (p : A → Bool) (xs : List A)
    → any p xs ≡ true
    → (a : A) × Among a xs × (p a ≡ true)
any-Among p [] h = cc
any-Among p (x ∷ xs) h = elim (Bool-cases (p x)) [
  | inl e ↦ (x, inl refl, e)
  | inr e ↦ let (a, m, q) = any-Among p xs (rw e at h) in (a, inr m, q)
]

module _ (library : Library) where
  -- A key that the manifest holds for permit bindings at the time has signed the hash of the event.
  pub record IsSigned (load : String → Option (List Fields)) (trusted source : Option String)
      (hash : String) (event : Fields) (time : ℕ) : Type 0 where
    pub candidates : List Fields
    pub active : permit_binding_key_candidates library load trusted source time ≡ some candidates
    pub key : Fields
    pub is_active : Among key candidates
    pub signed : signs library hash event key ≡ true

  check_signer-some :
      (hash : String) (event : Fields) (t time : ℕ) (o : Option (List Fields))
      → check_signer library hash event t o ≡ effective time
      → (t ≡ time)
        × (candidates : List Fields) × (o ≡ some candidates)
        × (key : Fields) × Among key candidates
        × (signs library hash event key ≡ true)
  check_signer-some hash event t time none h = cc
  check_signer-some hash event t time (some cs) h =
      elim (Bool-cases (any (signs library hash event) cs)) [
        | inl e ↦
            let (key, m, s) = any-Among (signs library hash event) cs e in
            let same : effective t ≡ effective time = rw e at h in (cc same, cs, refl, key, m, s)
        | inr e ↦ cc (rw e at h)
      ]

  pub check_signer-effective :
      (load : String → Option (List Fields)) (trusted source : Option String) (hash : String)
      (event : Fields) (t time : ℕ)
      → check_signer library hash event t
          (permit_binding_key_candidates library load trusted source t)
        ≡ effective time
      → (t ≡ time) × IsSigned load trusted source hash event time
  check_signer-effective load trusted source hash event t time h =
      let (same, candidates, active, key, m, s) = check_signer-some hash event t time _ h in
      let mine : permit_binding_key_candidates library load trusted source time ≡ some candidates =
        rw (← same) active in
      (
        same,
        record { candidates = candidates; active = mine; key = key; is_active = m; signed = s },
      )

  pub check_signer-unrelated :
      (hash : String) (event : Fields) (t : ℕ) (o : Option (List Fields))
      → check_signer library hash event t o ≡ unrelated
      → ⊥
  check_signer-unrelated hash event t none h = cc
  check_signer-unrelated hash event t (some cs) h =
      elim (Bool-cases (any (signs library hash event) cs)) [
        | inl e ↦ cc (rw e at h)
        | inr e ↦ cc (rw e at h)
      ]

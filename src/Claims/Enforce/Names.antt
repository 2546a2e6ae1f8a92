-- ===== src/Claims/Enforce/Names.antt =====
-- Merging keeps the names of claims.
use text.Mathlib.TextEquality.{eq_iff}
use keel_verifier.Base.{
  String, ◌≡◌, refl, ◌⊎◌, inl, inr, Bool, true, false, ◌||◌, List, [], ◌∷◌, ◌++◌, str_eq,
  Bool-cases, if◌then◌else◌,
}
use keel_verifier.Claims.{ClaimVerdict, text_in, join_claims, merge_claim, merge_onto, merge_claims}
use keel_verifier.Claims.Enforce.{claim_names, merge_more}

pub or_split : (a b : Bool) → (a || b) ≡ true → (a ≡ true) ⊎ (b ≡ true)
or_split true b h = inl refl
or_split false b h = inr h

pub or_left : (a b : Bool) → a ≡ true → (a || b) ≡ true
or_left a b h = rw h refl

pub or_right : (a b : Bool) → b ≡ true → (a || b) ≡ true
or_right true b h = refl
or_right false b h = h

module _ (name : String) where
  abbrev pub Names : List ClaimVerdict → Type 0
  Names claims = text_in (claim_names claims) name ≡ true

  named_claim :
      (merged : List ClaimVerdict) (c : ClaimVerdict)
      → str_eq name c.name ≡ true
      → Names (merge_claim merged c)
  unfolding merge_claim
  named_claim [] c h = or_left _ _ h
  named_claim (m ∷ ms) c h = elim (Bool-cases (str_eq m.name c.name)) [
    | inl e ↦ rw e (or_left _ _ h)
    | inr e ↦ rw e (or_right _ _ (named_claim ms c h))
  ]

  still_named :
      (merged : List ClaimVerdict) (c : ClaimVerdict) → Names merged → Names (merge_claim merged c)
  unfolding merge_claim
  still_named [] c h = cc
  still_named (m ∷ ms) c h =
      by_tests (Bool-cases (str_eq m.name c.name)) (or_split _ _ h) (still_named ms c)
    where
      by_tests :
          (str_eq m.name c.name ≡ true) ⊎ (str_eq m.name c.name ≡ false)
          → (str_eq name m.name ≡ true) ⊎ Names ms
          → (Names ms → Names (merge_claim ms c))
          → Names (if str_eq m.name c.name then join_claims m c ∷ ms else m ∷ merge_claim ms c)
      by_tests (inl e) (inl q) ih =
          rw e (or_left (str_eq name c.name) _ (cc (q, (eq_iff m.name c.name).0 e)))
      by_tests (inl e) (inr q) ih = rw e (or_right _ _ q)
      by_tests (inr e) (inl q) ih = rw e (or_left _ _ q)
      by_tests (inr e) (inr q) ih = rw e (or_right _ _ (ih q))

  merge_onto_named :
      (merged claims : List ClaimVerdict)
      → Names merged ⊎ Names claims
      → Names (merge_onto merged claims)
  merge_onto_named merged [] (inl h) = h
  merge_onto_named merged [] (inr h) = cc
  merge_onto_named merged (c ∷ cs) (inl h) =
      merge_onto_named (merge_claim merged c) cs (inl (still_named merged c h))
  merge_onto_named merged (c ∷ cs) (inr h) =
      merge_onto_named (merge_claim merged c) cs (by_head (or_split _ _ h))
    where
      by_head : (str_eq name c.name ≡ true) ⊎ Names cs → Names (merge_claim merged c) ⊎ Names cs
      by_head (inl e) = inl (named_claim merged c e)
      by_head (inr e) = inr e

  named_append : (xs ys : List ClaimVerdict) → Names xs ⊎ Names ys → Names (xs ++ ys)
  named_append [] ys (inl h) = cc
  named_append [] ys (inr h) = h
  named_append (x ∷ xs) ys (inr h) = or_right _ _ (named_append xs ys (inr h))
  named_append (x ∷ xs) ys (inl h) = by_head (or_split _ _ h) (named_append xs ys)
    where
      by_head :
          (str_eq name x.name ≡ true) ⊎ Names xs
          → (Names xs ⊎ Names ys → Names (xs ++ ys))
          → Names (x ∷ (xs ++ ys))
      by_head (inl e) ih = or_left _ _ e
      by_head (inr e) ih = or_right _ _ (ih (inl e))

  -- Merging more claims keeps the names of both.
  pub merge_more_named :
      (merged more : List ClaimVerdict) → Names merged ⊎ Names more → Names (merge_more merged more)
  unfolding merge_claims
  merge_more_named merged [] (inl h) = h
  merge_more_named merged [] (inr h) = cc
  merge_more_named merged (c ∷ cs) h =
      merge_onto_named [] (merged ++ (c ∷ cs)) (inr (named_append merged (c ∷ cs) h))

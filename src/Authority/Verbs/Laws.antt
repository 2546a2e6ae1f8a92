-- ===== src/Authority/Verbs/Laws.antt =====
-- Narrowing of verbs is reflexive and transitive, so the last edge of a chain has no verb that the
-- first lacks.
use text.Mathlib.TextEquality.{eq_iff}
use keel_verifier.Base.{String, ◌≡◌, refl, true, Option, none, some, List, [], ◌∷◌, map, arith}
use keel_verifier.Json.{Json}
use keel_verifier.Authority.Verbs.{
  text_member, text_subset, canonical_action_verb, verbs_within, authority_action_verb_subset,
}

member-subset :
    (xs ys : List String) (s : String)
    → text_subset xs ys ≡ true
    → text_member xs s ≡ true
    → text_member ys s ≡ true
unfolding text_subset
member-subset [] ys s h m = cc
member-subset (x ∷ xs) ys s h m = ground (arith, member-subset xs ys s, eq_iff s x)

text_subset_trans :
    (xs ys zs : List String)
    → text_subset xs ys ≡ true
    → text_subset ys zs ≡ true
    → text_subset xs zs ≡ true
unfolding text_subset
text_subset_trans [] ys zs h k = refl
text_subset_trans (x ∷ xs) ys zs h k =
    ground (arith, member-subset ys zs x k, text_subset_trans xs ys zs)

module _ (lower : String → String) where
  verbs_within_trans :
      (a b c : Option (List String))
      → verbs_within lower a b ≡ true
      → verbs_within lower b c ≡ true
      → verbs_within lower a c ≡ true
  verbs_within_trans (some a) (some b) (some c) h k =
      text_subset_trans _ (map (canonical_action_verb lower) b) _ h k
  verbs_within_trans (some a) (some b) none h k = cc
  verbs_within_trans (some a) none c h k = cc
  verbs_within_trans none b c h k = cc

  -- Narrowing composes along a chain of edges.
  pub verb_subset_trans :
      (a b c : Json)
      → authority_action_verb_subset lower a b ≡ true
      → authority_action_verb_subset lower b c ≡ true
      → authority_action_verb_subset lower a c ≡ true
  unfolding authority_action_verb_subset
  verb_subset_trans a b c = verbs_within_trans _ _ _

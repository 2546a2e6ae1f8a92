-- ===== src/Authority/Resources/Laws.antt =====
-- What a narrower set of resources keeps of its parent.
use text.Mathlib.TextEquality.{eq_iff}
use text.Mathlib.Text.{starts_with}
use keel_verifier.Base.{
  String, ◌≡◌, refl, ◌⊎◌, inl, inr, true, false, Option, none, some, Bool-cases, ends_with,
  drop_last, str_eq, &&-eq-true,
}
use keel_verifier.Json.{Json, null, bool, int, str, arr, obj, Fields, end, field, lookup}
use keel_verifier.Authority.Resources.{narrower, narrows, keeps_keys, authority_resource_subset}

-- What a value must satisfy under a parent's value for its key.
pub record Covers (child : Fields) (key : String) (parent : Json) : Type 0 where
  pub pattern : String
  pub value : String
  pub is_pattern : parent ≡ str pattern
  pub has_value : lookup key child ≡ some (str value)
  pub covered :
      ((ends_with pattern "*" ≡ true) × (starts_with value (drop_last pattern) ≡ true))
      ⊎ ((ends_with pattern "*" ≡ false) × (value ≡ pattern))

narrower-cases :
    (c p : String)
    → narrower c p ≡ true
    → ((ends_with p "*" ≡ true) × (starts_with c (drop_last p) ≡ true))
      ⊎ ((ends_with p "*" ≡ false) × (c ≡ p))
unfolding narrower
narrower-cases c p h = elim (Bool-cases (ends_with p "*")) [
  | inl e ↦ inl (e, rw e at h)
  | inr e ↦ let same : str_eq c p ≡ true = rw e at h in inr (e, (eq_iff c p).0 same)
]

narrows-Covers :
    (child : Fields) (k : String) (o : Option Json) (v : Json)
    → lookup k child ≡ o
    → narrows o v ≡ true
    → Covers child k v
narrows-Covers child k (some (str c)) (str p) e h = record {
  pattern = p;
  value = c;
  is_pattern = refl;
  has_value = e;
  covered = narrower-cases c p h;
}
narrows-Covers child k none v e h = cc
narrows-Covers child k (some null) v e h = cc
narrows-Covers child k (some (bool b)) v e h = cc
narrows-Covers child k (some (int n)) v e h = cc
narrows-Covers child k (some (arr xs)) v e h = cc
narrows-Covers child k (some (obj d)) v e h = cc
narrows-Covers child k (some (str c)) null e h = cc
narrows-Covers child k (some (str c)) (bool b) e h = cc
narrows-Covers child k (some (str c)) (int n) e h = cc
narrows-Covers child k (some (str c)) (arr xs) e h = cc
narrows-Covers child k (some (str c)) (obj d) e h = cc

keeps_keys-Covers :
    (child parent : Fields) (k : String) (v : Json)
    → keeps_keys child parent ≡ true
    → lookup k parent ≡ some v
    → Covers child k v
unfolding keeps_keys
keeps_keys-Covers child end k v h e = cc
keeps_keys-Covers child (field j w parent) k v h e = elim (Bool-cases (str_eq j k)) [
  | inl same ↦
      let found : w ≡ v = cc (rw same at e) in
      let key : j ≡ k = (eq_iff j k).0 same in
      rw (← found, ← key) (narrows-Covers child j _ w refl (&&-eq-true _ _ h).0)
  | inr other ↦ keeps_keys-Covers child parent k v (&&-eq-true _ _ h).1 (rw other at e)
]

-- A child that is within its parent carries every key that the parent restricts, with the same text
-- or, under a pattern that ends in `*`, one that starts with the rest of the pattern.
pub resource_subset-Covers :
    (child parent : Fields) (k : String) (v : Json)
    → authority_resource_subset (obj child) (obj parent) ≡ true
    → lookup k parent ≡ some v
    → Covers child k v
unfolding authority_resource_subset
resource_subset-Covers child parent k v h e =
    keeps_keys-Covers child parent k v (&&-eq-true _ _ h).1 e

-- ===== src/Authority/Verbs.antt =====
-- Action verbs: `_authority_set_subset`, `_authority_canonical_action_verb` and
-- `_authority_action_verb_subset`. `str.lower` is a parameter.
pub mod Laws
use keel_verifier.Base.{
  String, Bool, true, false, ◌&&◌, ◌||◌, Option, none, some, List, [], ◌∷◌, all, any, map, str_eq,
  strip, if◌then◌else◌,
}
use keel_verifier.Json.{Json, str, arr, to_list, as_list, as_str}
use keel_verifier.Authority.Values.{set_subset}

-- Both values must be lists; `none` is the TypeError of an item with no hash.
unfoldable pub authority_set_subset : Json → Json → Option Bool
authority_set_subset (arr xs) (arr ys) = set_subset (arr xs) (arr ys)
authority_set_subset (arr xs) _ = some false
authority_set_subset _ parent = some false

-- The texts of a list that holds nothing but texts.
abbrev pub cons_text : Option String → Option (List String) → Option (List String)
cons_text none rest = none
cons_text (some s) none = none
cons_text (some s) (some ts) = some (s ∷ ts)

abbrev pub texts_of : List Json → Option (List String)
texts_of [] = some []
texts_of (v ∷ vs) = cons_text (as_str v) (texts_of vs)

abbrev pub texts_in : Option (List Json) → Option (List String)
texts_in none = none
texts_in (some vs) = texts_of vs

abbrev pub text_member : List String → String → Bool
text_member xs s = any (str_eq s) xs

unfoldable pub text_subset : List String → List String → Bool
text_subset xs ys = all (text_member ys) xs

module _ (lower : String → String) where
  unfoldable pub canonical_action_verb : String → String
  unfolding strip
  canonical_action_verb value =
      let normalized = lower (strip value) in
      if str_eq normalized "payment.execute" || str_eq normalized "mpp_payment"
      then "payment_execute"
      else normalized

  abbrev pub verbs_within : Option (List String) → Option (List String) → Bool
  verbs_within (some child) (some parent) =
      text_subset (map canonical_action_verb child) (map canonical_action_verb parent)
  verbs_within _ _ = false

  unfoldable pub authority_action_verb_subset : Json → Json → Bool
  authority_action_verb_subset child parent =
      verbs_within (texts_in (as_list child)) (texts_in (as_list parent))

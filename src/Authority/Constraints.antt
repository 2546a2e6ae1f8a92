-- ===== src/Authority/Constraints.antt =====
-- Constraints: `_authority_constraints_subset`. `none` is a TypeError, of a comparison or of a set.
pub mod Laws
use keel_verifier.Base.{
  String, ◌≡◌, Bool, true, false, ◌&&◌, ◌||◌, not, Option, none, some, List, [], ◌∷◌, any, all,
  str_eq, if◌then◌else◌,
}
use keel_verifier.Json.{
  Json, null, bool, int, str, arr, obj, Items, nil, Fields, end, field, get, has_key, is_true,
  is_null, eq,
}
use keel_verifier.Authority.Values.{gt, gt_items, to_set, subset, both_sets, set_subset}

abbrev constraint_keys : List String
constraint_keys =
    "requires_human_approval" ∷ "max_recipients" ∷ "max_item_amount_usd_micros" ∷ "allow_domains"
    ∷ "deny_external_domains" ∷ "allowed_hours" ∷ "purpose" ∷ []

abbrev pub known_keys : Fields → Bool
known_keys end = true
known_keys (field k v d) = any (str_eq k) constraint_keys && known_keys d

-- `v not in (None, [], {})`
abbrev pub sets_bound : Json → Bool
sets_bound null = false
sets_bound (arr nil) = false
sets_bound (obj end) = false
sets_bound _ = true

abbrev pub bound_keys : List String
bound_keys =
    "max_recipients" ∷ "max_item_amount_usd_micros" ∷ "allow_domains" ∷ "deny_external_domains"
    ∷ "allowed_hours" ∷ []

abbrev pub carries_bound : Fields → Fields → String → Bool
carries_bound child parent key = not (sets_bound (get parent key)) || has_key child key

-- A test that may raise, and what comes behind it: `if test: return False`.
abbrev pub unless : Option Bool → Option Bool → Option Bool
unless none next = none
unless (some true) next = some false
unless (some false) next = next

-- `key in child and key in parent and test(child[key], parent[key])`
abbrev pub when_both : (Json → Json → Option Bool) → Fields → Fields → String → Option Bool
when_both test child parent key =
    if has_key child key && has_key parent key
    then test (get child key) (get parent key)
    else some false

abbrev pub negated : Option Bool → Option Bool
negated none = none
negated (some b) = some (not b)

abbrev outside : Json → Json → Option Bool
outside child parent = negated (set_subset child parent)

-- The parent's set is not within the child's; the child's is built first.
abbrev lacks : Json → Json → Option Bool
lacks child parent =
    negated (both_sets (λ mine theirs. subset theirs mine) (to_set child) (to_set parent))

-- `a or b` for tests that may raise.
abbrev pub either : Option Bool → Option Bool → Option Bool
either none next = none
either (some true) next = some true
either (some false) next = next

-- The child's hours lie outside the parent's.
abbrev hours_outside : Json → Json → Option Bool
hours_outside (obj child) (obj parent) =
    either (some (not (eq (get child "tz") (get parent "tz")))) (
      either (gt (get parent "start") (get child "start"))
        (gt (get child "end") (get parent "end")))
hours_outside _ _ = some true

abbrev pub approval_dropped : Fields → Fields → Bool
approval_dropped child parent =
    is_true (get parent "requires_human_approval")
    && not (is_true (get child "requires_human_approval"))

abbrev purpose_kept : Fields → Fields → Bool
purpose_kept child parent =
    is_null (get parent "purpose") || eq (get child "purpose") (get parent "purpose")

abbrev pub bounds_subset : Fields → Fields → Option Bool
bounds_subset child parent = unless (when_both gt child parent "max_recipients") (
    unless (when_both gt child parent "max_item_amount_usd_micros") (
      unless (when_both outside child parent "allow_domains") (
        unless (when_both lacks child parent "deny_external_domains") (
          unless (when_both hours_outside child parent "allowed_hours")
            (some (purpose_kept child parent))))))

abbrev pub constraint_fields : Fields → Fields → Option Bool
constraint_fields child parent =
    if not (known_keys child)
      || not (known_keys parent)
      || approval_dropped child parent
      || not (all (carries_bound child parent) bound_keys)
    then some false
    else bounds_subset child parent

unfoldable pub authority_constraints_subset : Json → Json → Option Bool
unfolding gt gt_items subset eq
authority_constraints_subset (obj child) (obj parent) = constraint_fields child parent
authority_constraints_subset _ _ = some false

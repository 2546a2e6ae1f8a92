-- ===== src/Authority/Resources.antt =====
-- Resources: `_authority_resource_subset`. A pattern that ends in `*` covers what starts with the
-- rest of it.
pub mod Laws
use text.Mathlib.Text.{starts_with}
use keel_verifier.Base.{
  String, Bool, true, false, ◌&&◌, Option, none, some, str_eq, ends_with, drop_last, if◌then◌else◌,
}
use keel_verifier.Json.{Json, null, bool, int, str, arr, obj, Fields, end, field, lookup, is_str}

abbrev pub all_texts : Fields → Bool
all_texts end = true
all_texts (field k v d) = is_str v && all_texts d

-- The test of one key that the parent restricts.
unfoldable pub narrower : String → String → Bool
unfolding ends_with drop_last
narrower child parent =
    if ends_with parent "*" then starts_with child (drop_last parent) else str_eq child parent

abbrev pub narrows : Option Json → Json → Bool
narrows (some (str child)) (str parent) = narrower child parent
narrows _ _ = false

-- The loop over the items of the parent.
unfoldable pub keeps_keys : Fields → Fields → Bool
unfolding narrower
keeps_keys child end = true
keeps_keys child (field k v parent) = narrows (lookup k child) v && keeps_keys child parent

unfoldable pub authority_resource_subset : Json → Json → Bool
unfolding keeps_keys
authority_resource_subset (obj child) (obj parent) = all_texts child && keeps_keys child parent
authority_resource_subset _ _ = false

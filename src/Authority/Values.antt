-- ===== src/Authority/Values.antt =====
-- How Python orders and collects JSON values: `>`, `<`, `set(...)` and `issubset`. `none` is the
-- TypeError of values that have no order or no hash.
pub mod Laws
use Prim.Native.Nat.{Ordering}
use Prim.Native.String.{compare}
use keel_verifier.Base.{
  String, Bool, true, false, Option, none, some, List, [], ◌∷◌, ltz, all, any, if◌then◌else◌,
}
use keel_verifier.Json.{
  Json, null, bool, int, str, arr, obj, Items, nil, cons, Fields, end, field, bool_int, to_list, eq,
}

abbrev pub is_greater : Ordering → Bool
is_greater Ordering.gt = true
is_greater _ = false

unfoldable mutual
  -- `v > w`
  pub gt : Json → Json → Option Bool
  gt null w = none
  gt (bool a) w = elim w [
    | int m ↦ some (ltz m (bool_int a))
    | bool b ↦ some (ltz (bool_int b) (bool_int a))
    | _ ↦ none
  ]
  gt (int n) w = elim w [ int m ↦ some (ltz m n) | bool b ↦ some (ltz (bool_int b) n) | _ ↦ none ]
  gt (str s) w = elim w [ str t ↦ some (is_greater (compare s t)) | _ ↦ none ]
  gt (arr xs) w = elim w [ arr ys ↦ gt_items xs ys | _ ↦ none ]
  gt (obj d) w = none

  pub gt_items : Items → Items → Option Bool
  gt_items nil ys = some false
  gt_items (cons x xs) nil = some true
  gt_items (cons x xs) (cons y ys) =
      let rest = gt_items xs ys in let here = gt x y in if eq x y then rest else here

-- `hash(v)` exists.
abbrev pub has_hash : Json → Bool
has_hash (arr xs) = false
has_hash (obj d) = false
has_hash _ = true

abbrev pub hashable : List Json → Option (List Json)
hashable xs = if all has_hash xs then some xs else none

abbrev pub characters : String → List Json
characters String.[] = []
characters (String.◌∷◌ c s) = str (String.◌∷◌ c String.[]) ∷ characters s

abbrev pub keys : Fields → List Json
keys end = []
keys (field k v d) = str k ∷ keys d

-- `set(v)`
abbrev pub to_set : Json → Option (List Json)
to_set (arr xs) = hashable (to_list xs)
to_set (str s) = some (characters s)
to_set (obj d) = some (keys d)
to_set _ = none

-- `v in xs`, and `xs <= ys`.
unfoldable pub member : List Json → Json → Bool
member xs v = any (eq v) xs

unfoldable pub subset : List Json → List Json → Bool
unfolding member
subset xs ys = all (member ys) xs

abbrev pub both_sets :
    (List Json → List Json → Bool) → Option (List Json) → Option (List Json) → Option Bool
both_sets test none ys = none
both_sets test (some xs) none = none
both_sets test (some xs) (some ys) = some (test xs ys)

-- `set(v).issubset(set(w))`
abbrev pub set_subset : Json → Json → Option Bool
set_subset v w = both_sets subset (to_set v) (to_set w)

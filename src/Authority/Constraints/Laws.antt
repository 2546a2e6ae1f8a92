-- ===== src/Authority/Constraints/Laws.antt =====
-- What narrower constraints keep of their parent, and where narrowing does not compose.
use keel_verifier.Base.{
  String, ◌≡◌, refl, Bool, true, false, ◌||◌, not, Option, none, some, ℤ, &&-eq-true, all,
  if◌then◌else◌,
}
use keel_verifier.Json.{Json, int, obj, Fields, get, lookup, has_key, or_null, is_some}
use keel_verifier.Authority.Values.{gt}
use keel_verifier.Authority.Constraints.{
  known_keys, approval_dropped, carries_bound, bound_keys, bounds_subset, unless, when_both,
  constraint_fields, authority_constraints_subset, sets_bound,
}

unless-true :
    (t next : Option Bool) → unless t next ≡ some true → (t ≡ some false) × (next ≡ some true)
unless-true none next h = cc
unless-true (some true) next h = cc
unless-true (some false) next h = (refl, h)

constraint_fields-true :
    (child parent : Fields)
    → constraint_fields child parent ≡ some true
    → (all (carries_bound child parent) bound_keys ≡ true)
      × (bounds_subset child parent ≡ some true)
constraint_fields-true child parent h =
    by_tests (known_keys child) (known_keys parent) (approval_dropped child parent) _ _ h
  where
    by_tests :
        (a b c d : Bool) (next : Option Bool)
        → (if not a || not b || c || not d then some false else next) ≡ some true
        → (d ≡ true) × (next ≡ some true)
    by_tests true true false true next k = (refl, k)
    by_tests true true false false next k = cc
    by_tests true true true d next k = cc
    by_tests true false c d next k = cc
    by_tests false b c d next k = cc

-- A number that a parent sets is carried by the child, which does not exceed it.
abbrev pub KeepsLimit : Fields → Fields → String → Type 0
KeepsLimit child parent key =
    (n : ℤ)
    → get parent key ≡ int n
    → (has_key child key ≡ true) × (gt (get child key) (int n) ≡ some false)

int_key : (o : Option Json) (n : ℤ) → or_null o ≡ int n → is_some o ≡ true
int_key none n e = cc
int_key (some v) n e = refl

limit_kept :
    (child parent : Fields) (key : String)
    → carries_bound child parent key ≡ true
    → when_both gt child parent key ≡ some false
    → KeepsLimit child parent key
limit_kept child parent key carried within n e =
    let there = int_key (lookup key parent) n e in
    let set : sets_bound (get parent key) ≡ true = rw e refl in
    let has : has_key child key ≡ true = rw set at carried in (has, rw (has, there, e) at within)

-- A child whose constraints are within its parent's carries the parent's numbers of recipients and of
-- amounts, and exceeds neither.
pub constraints_subset-KeepsLimit :
    (child parent : Fields)
    → authority_constraints_subset (obj child) (obj parent) ≡ some true
    → KeepsLimit child parent "max_recipients"
      × KeepsLimit child parent "max_item_amount_usd_micros"
unfolding authority_constraints_subset
constraints_subset-KeepsLimit child parent h =
    let (all_carried, bounds) = constraint_fields-true child parent h in
    let first = unless-true _ _ bounds in
    let second = unless-true _ _ first.1 in
    let one = &&-eq-true _ _ all_carried in
    let two = &&-eq-true _ _ one.1 in
    (
      limit_kept child parent "max_recipients" one.0 first.0,
      limit_kept child parent "max_item_amount_usd_micros" two.0 second.0,
    )

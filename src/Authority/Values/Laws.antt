-- ===== src/Authority/Values/Laws.antt =====
-- Python's sets of scalars: equality of hashable values composes, and so does `issubset`.
use text.Mathlib.TextEquality.{eq_iff}
use keel_verifier.Base.{
  ◌≡◌, refl, true, Option, none, some, List, [], ◌∷◌, ℤ, eqz, eqz_iff, arith, all, any, Bool-cases,
  inl, inr,
}
use keel_verifier.Json.{
  Json, null, bool, int, str, arr, obj, Items, to_list, eq_scalar, eq, bool_int,
}
use keel_verifier.Authority.Values.{has_hash, hashable, member, subset, both_sets}
use keel_verifier.Authority.Verbs.{authority_set_subset}

eqz_trans : (a b c : ℤ) → eqz a b ≡ true → eqz b c ≡ true → eqz a c ≡ true
eqz_trans a b c h k = let e = (eqz_iff a b).0 h in rw e k

eq_scalar_trans :
    (a b c : Json) → eq_scalar a b ≡ true → eq_scalar b c ≡ true → eq_scalar a c ≡ true
eq_scalar_trans null null c h k = k
eq_scalar_trans (bool a) (bool b) (bool c) h k = eqz_trans _ (bool_int b) _ h k
eq_scalar_trans (bool a) (bool b) (int c) h k = eqz_trans _ (bool_int b) _ h k
eq_scalar_trans (bool a) (int b) (bool c) h k = eqz_trans _ b _ h k
eq_scalar_trans (bool a) (int b) (int c) h k = eqz_trans _ b _ h k
eq_scalar_trans (int a) (bool b) (bool c) h k = eqz_trans _ (bool_int b) _ h k
eq_scalar_trans (int a) (bool b) (int c) h k = eqz_trans _ (bool_int b) _ h k
eq_scalar_trans (int a) (int b) (bool c) h k = eqz_trans _ b _ h k
eq_scalar_trans (int a) (int b) (int c) h k = eqz_trans _ b _ h k
eq_scalar_trans (str a) (str b) (str c) h k = let e = (eq_iff a b).0 h in rw e k
eq_scalar_trans _ _ _ h k = cc

eq-hashable : (a b : Json) → has_hash a ≡ true → eq a b ≡ eq_scalar a b
unfolding eq
eq-hashable null b h = refl
eq-hashable (bool a) b h = refl
eq-hashable (int a) b h = refl
eq-hashable (str a) b h = refl
eq-hashable (arr xs) b h = cc
eq-hashable (obj d) b h = cc

scalar_equal : (a b : Json) → eq_scalar a b ≡ true → has_hash b ≡ true
scalar_equal a null h = refl
scalar_equal a (bool b) h = refl
scalar_equal a (int n) h = refl
scalar_equal a (str s) h = refl
scalar_equal null (arr xs) h = cc
scalar_equal _ (arr xs) h = cc
scalar_equal null (obj d) h = cc
scalar_equal _ (obj d) h = cc

eq_hashable_trans :
    (a b c : Json) → has_hash a ≡ true → eq a b ≡ true → eq b c ≡ true → eq a c ≡ true
eq_hashable_trans a b c ha h k =
    let first : eq_scalar a b ≡ true = rw (eq-hashable a b ha) at h in
    let second : eq_scalar b c ≡ true = rw (eq-hashable b c (scalar_equal a b first)) at k in
    rw (eq-hashable a c ha) (eq_scalar_trans a b c first second)

any-through :
    (a b : Json) (zs : List Json)
    → has_hash a ≡ true
    → eq a b ≡ true
    → any (eq b) zs ≡ true
    → any (eq a) zs ≡ true
any-through a b [] ha h k = cc
any-through a b (z ∷ zs) ha h k =
    ground (arith, eq_hashable_trans a b z ha h, any-through a b zs ha h)

member-subset :
    (a : Json) (ys zs : List Json)
    → has_hash a ≡ true
    → member ys a ≡ true
    → subset ys zs ≡ true
    → member zs a ≡ true
unfolding member subset
member-subset a [] zs ha m h = cc
member-subset a (y ∷ ys) zs ha m h = ground (arith, any-through a y zs ha, member-subset a ys zs ha)

subset_trans :
    (xs ys zs : List Json)
    → all has_hash xs ≡ true
    → subset xs ys ≡ true
    → subset ys zs ≡ true
    → subset xs zs ≡ true
unfolding subset
subset_trans [] ys zs hx h k = refl
subset_trans (x ∷ xs) ys zs hx h k = ground (arith, member-subset x ys zs, subset_trans xs ys zs)

-- Of two sets that are within each other both were built, and the first has hashable items.
both_sets-some :
    (a b : Option (List Json))
    → both_sets subset a b ≡ some true
    → (xs : List Json) × (ys : List Json) × (a ≡ some xs) × (b ≡ some ys) × (subset xs ys ≡ true)
both_sets-some none b h = cc
both_sets-some (some xs) none h = cc
both_sets-some (some xs) (some ys) h = (xs, ys, refl, refl, cc)

hashable-some : (xs ys : List Json) → hashable xs ≡ some ys → (all has_hash xs ≡ true) × (xs ≡ ys)
hashable-some xs ys h = elim (Bool-cases (all has_hash xs)) [
  | inl e ↦ let same : xs ≡ ys = cc (rw e at h) in (e, same)
  | inr e ↦ cc (rw e at h)
]

-- Two values that pass `_authority_set_subset` are lists of hashable items, each of which the second
-- has.
pub record IsSubset (v w : Json) : Type 0 where
  pub xs : Items
  pub ys : Items
  pub is_list : v ≡ arr xs
  pub in_list : w ≡ arr ys
  pub hashes : all has_hash (to_list xs) ≡ true
  pub others : all has_hash (to_list ys) ≡ true
  pub items : subset (to_list xs) (to_list ys) ≡ true

pub set_subset-IsSubset : (v w : Json) → authority_set_subset v w ≡ some true → IsSubset v w
unfolding authority_set_subset
set_subset-IsSubset (arr xs) (arr ys) h =
    let (mine, theirs, a, b, s) = both_sets-some _ _ h in
    let (hashes, same) = hashable-some (to_list xs) mine a in
    let (others, too) = hashable-some (to_list ys) theirs b in
    let items : subset (to_list xs) (to_list ys) ≡ true = rw (same, too) s in
    record {
      xs = xs;
      ys = ys;
      is_list = refl;
      in_list = refl;
      hashes = hashes;
      others = others;
      items = items;
    }
set_subset-IsSubset (arr xs) null h = cc
set_subset-IsSubset (arr xs) (bool b) h = cc
set_subset-IsSubset (arr xs) (int n) h = cc
set_subset-IsSubset (arr xs) (str s) h = cc
set_subset-IsSubset (arr xs) (obj d) h = cc
set_subset-IsSubset null w h = cc
set_subset-IsSubset (bool b) w h = cc
set_subset-IsSubset (int n) w h = cc
set_subset-IsSubset (str s) w h = cc
set_subset-IsSubset (obj d) w h = cc

IsSubset-set_subset : (v w : Json) → IsSubset v w → authority_set_subset v w ≡ some true
unfolding authority_set_subset
IsSubset-set_subset v w s = rw (s.is_list, s.in_list, s.hashes, s.others, s.items) refl

-- `_authority_set_subset` composes.
pub set_subset_trans :
    (a b c : Json)
    → authority_set_subset a b ≡ some true
    → authority_set_subset b c ≡ some true
    → authority_set_subset a c ≡ some true
set_subset_trans a b c h k =
    let s = set_subset-IsSubset a b h in
    let t = set_subset-IsSubset b c k in
    let lists : arr s.ys ≡ arr t.xs = cc (s.in_list, t.is_list) in
    let same : s.ys ≡ t.xs = cc lists in
    let first : subset (to_list s.xs) (to_list t.xs) ≡ true = rw (← same) s.items in
    IsSubset-set_subset a c (record {
      xs = s.xs;
      ys = t.ys;
      is_list = s.is_list;
      in_list = t.in_list;
      hashes = s.hashes;
      others = t.others;
      items = subset_trans _ _ _ s.hashes first t.items;
    })

-- ===== src/Json.antt =====
-- The values that `json.loads` gives, as the verifier reads them: `dict`, `list`, `str`, `int`,
-- `bool` and `None`. A dict keeps its insertion order, and its keys are looked up from the front.
use keel_verifier.Base.{
  ℕ, suc, String, ◌≡◌, refl, Bool, true, false, ◌&&◌, not, Option, none, some, List, [], ◌∷◌, arith,
  ℤ, pos, eqz, str_eq, eq_iff, arith, ◌==◌, if◌then◌else◌,
}

mutual
  pub data Json : Type 0 where
    null : Json
    bool : Bool → Json
    int : ℤ → Json
    str : String → Json
    arr : Items → Json
    obj : Fields → Json

  pub data Items : Type 0 where
    nil : Items
    cons : Json → Items → Items

  pub data Fields : Type 0 where
    end : Fields
    field : String → Json → Fields → Fields

abbrev pub to_list : Items → List Json
to_list nil = []
to_list (cons x xs) = x ∷ to_list xs

abbrev pub of_list : List Json → Items
of_list [] = nil
of_list (x ∷ xs) = cons x (of_list xs)

abbrev pub entries : Fields → List (String × Json)
entries end = []
entries (field k v d) = (k, v) ∷ entries d

-- `d[k]`, where a missing key is `none`.
abbrev pub lookup : String → Fields → Option Json
lookup k end = none
lookup k (field j v d) = if str_eq j k then some v else lookup k d

abbrev pub or_null : Option Json → Json
or_null none = null
or_null (some v) = v

-- `d.get(k)`
abbrev pub get : Fields → String → Json
get d k = or_null (lookup k d)

abbrev pub is_some {ℓ} : {A : Type ℓ} → Option A → Bool
is_some none = false
is_some (some v) = true

-- `k in d`
abbrev pub has_key : Fields → String → Bool
has_key d k = is_some (lookup k d)

-- `d.pop(k, None)`
unfoldable pub without : String → Fields → Fields
without k end = end
without k (field j v d) = let rest = without k d in if str_eq j k then rest else field j v rest

abbrev pub is_null : Json → Bool
is_null null = true
is_null _ = false

-- `bool(v)`
abbrev pub truthy : Json → Bool
truthy null = false
truthy (bool b) = b
truthy (int n) = not (eqz n (pos 0))
truthy (str s) = not (str_eq s "")
truthy (arr nil) = false
truthy (arr (cons x xs)) = true
truthy (obj end) = false
truthy (obj (field k v d)) = true

-- `a or b`
abbrev pub or_else : Json → Json → Json
or_else a b = if truthy a then a else b

-- `v if isinstance(v, str) else None`, and the same for the other types. A bool is an int.
abbrev pub as_str : Json → Option String
as_str (str s) = some s
as_str _ = none

abbrev pub as_list : Json → Option (List Json)
as_list (arr xs) = some (to_list xs)
as_list _ = none

abbrev pub as_dict : Json → Option Fields
as_dict (obj d) = some d
as_dict _ = none

abbrev pub bool_int : Bool → ℤ
bool_int true = pos 1
bool_int false = pos 0

abbrev pub as_int : Json → Option ℤ
as_int (int n) = some n
as_int (bool b) = some (bool_int b)
as_int _ = none

abbrev pub is_str : Json → Bool
is_str v = is_some (as_str v)

abbrev pub is_bool : Json → Bool
is_bool (bool b) = true
is_bool _ = false

-- `v == s` for a text s.
abbrev pub eq_str : Json → String → Bool
eq_str (str t) s = str_eq t s
eq_str _ s = false

-- `v is True`
abbrev pub is_true : Json → Bool
is_true (bool b) = b
is_true _ = false

-- `v == w`: numbers and bools compare as numbers, lists by position, and two dicts are equal when
-- they have as many keys and each key of the one has an equal value in the other.
abbrev pub eq_scalar : Json → Json → Bool
eq_scalar null null = true
eq_scalar (bool a) (bool b) = eqz (bool_int a) (bool_int b)
eq_scalar (bool a) (int m) = eqz (bool_int a) m
eq_scalar (int n) (bool b) = eqz n (bool_int b)
eq_scalar (int n) (int m) = eqz n m
eq_scalar (str s) (str t) = str_eq s t
eq_scalar _ _ = false

abbrev pub size : Fields → ℕ
size end = 0
size (field k v d) = suc (size d)

abbrev pub when_some {ℓ} : {A : Type ℓ} → (A → Bool) → Option A → Bool
when_some p none = false
when_some p (some a) = p a

abbrev pub first_item : Items → Option Json
first_item nil = none
first_item (cons x xs) = some x

abbrev pub rest_items : Items → Items
rest_items nil = nil
rest_items (cons x xs) = xs

abbrev pub is_nil : Items → Bool
is_nil nil = true
is_nil (cons x xs) = false

unfoldable mutual
  pub eq : Json → Json → Bool
  eq null w = eq_scalar null w
  eq (bool a) w = eq_scalar (bool a) w
  eq (int n) w = eq_scalar (int n) w
  eq (str s) w = eq_scalar (str s) w
  eq (arr xs) w = elim w [ arr ys ↦ eq_items xs ys | _ ↦ false ]
  eq (obj d) w = elim w [ obj e ↦ (size d == size e) && eq_fields d e | _ ↦ false ]

  pub eq_items : Items → Items → Bool
  eq_items nil ys = is_nil ys
  eq_items (cons x xs) ys = when_some (eq x) (first_item ys) && eq_items xs (rest_items ys)

  pub eq_fields : Fields → Fields → Bool
  eq_fields end e = true
  eq_fields (field k v d) e = when_some (eq v) (lookup k e) && eq_fields d e

pub eq_str-eq : (v : Json) (s : String) → eq_str v s ≡ true → v ≡ str s
eq_str-eq (str t) s h = cc ((eq_iff t s).0 h)
eq_str-eq null s h = cc
eq_str-eq _ s h = cc

pub eq_str_refl : (s : String) → eq_str (str s) s ≡ true
eq_str_refl s = (eq_iff s s).1 refl

-- Popping one key leaves the value under another.
pub lookup-without :
    (k j : String) (d : Fields) → str_eq k j ≡ false → lookup j (without k d) ≡ lookup j d
unfolding without
lookup-without k j end h = refl
lookup-without k j (field i v d) h =
    ground (arith, lookup-without k j d h, eq_iff i k, eq_iff i j, eq_iff k j)

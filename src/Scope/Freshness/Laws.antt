-- ===== src/Scope/Freshness/Laws.antt =====
-- What evidence shows the declared end of a segment to be the latest checkpoint.
use text.Mathlib.TextEquality.{eq_iff}
use keel_verifier.Base.{
  ℕ, ℤ, String, ◌≡◌, ◌↔◌, ◌⊎◌, ◌≤◌, inl, inr, refl, Bool, true, false, ◌&&◌, ◌||◌, Option, none,
  some, List, [], ◌∷◌, Each, Bool-cases, Option-cases, ltb, pos, negsuc, arith, str_eq,
}
use keel_verifier.Json.{
  Json, null, bool, int, str, arr, obj, Fields, get, as_dict, as_list, has_key,
}
use keel_verifier.Scope.Freshness.{
  DeclaredEnd, Freshness, fresh, in_scope, above, names_other, is_nonbool_int, is_later, check_item,
  check_items, check_evidence, latest_freshness_evidence, later_items,
  check_latest_checkpoint_policy,
}

-- A scope that is given is a scalar and another one.
abbrev pub IsElsewhere : Json → String → Type 0
IsElsewhere null scope = ⊥
IsElsewhere (str s) scope = ¬ (s ≡ scope)
IsElsewhere (bool b) scope = Unit
IsElsewhere (int n) scope = Unit
IsElsewhere (arr xs) scope = ⊥
IsElsewhere (obj d) scope = ⊥

abbrev pub IsHere : Json → String → Type 0
IsHere v scope = (v ≡ null) ⊎ (v ≡ str scope)

-- A numbered item has at most the number of the end, and names no checkpoint but that of the end.
pub record IsNotLater (end : DeclaredEnd) (number name : Json) : Type 0 where
  pub number_least : (m : ℕ) → number ≡ int (pos m) → m ≤ end.sequence_number
  pub same_name :
      (n : ℤ) (t : String) → number ≡ int n → name ≡ str t → (t ≡ "") ⊎ (t ≡ end.checkpoint_id)

-- An item of the evidence is of another scope or not later.
abbrev pub IsCurrent : DeclaredEnd → Option Fields → Type 0
IsCurrent end none = Unit
IsCurrent end (some item) =
    IsElsewhere (get item "chain_scope") end.chain_scope
    ⊎ (IsHere (get item "chain_scope") end.chain_scope
        × IsNotLater end (get item "sequence_number") (get item "checkpoint_id"))

above-false : (v : Json) (n : ℕ) → above v n ≡ false → (m : ℕ) → v ≡ int (pos m) → m ≤ n
above-false v n h m e = let less : ltb n m ≡ false = rw e at h in ground arith

above_none : (v : Json) (n : ℕ) → ((m : ℕ) → v ≡ int (pos m) → m ≤ n) → above v n ≡ false
above_none (int (pos m)) n h = let less = h m refl in ground arith
above_none (int (negsuc m)) n h = refl
above_none null n h = refl
above_none (bool b) n h = refl
above_none (str s) n h = refl
above_none (arr xs) n h = refl
above_none (obj d) n h = refl

names_other-false :
    (t checkpoint_id : String)
    → names_other (str t) checkpoint_id ≡ false
    → (t ≡ "") ⊎ (t ≡ checkpoint_id)
names_other-false t c h = elim (Bool-cases (str_eq t "")) [
  | inl e ↦ inl ((eq_iff _ _).0 e)
  | inr e ↦ elim (Bool-cases (str_eq t c)) [
    | inl f ↦ inr ((eq_iff _ _).0 f)
    | inr f ↦ cc (rw (e, f) at h)
  ]
]

same_names_other :
    (v : Json) (checkpoint_id : String)
    → ((t : String) → v ≡ str t → (t ≡ "") ⊎ (t ≡ checkpoint_id))
    → names_other v checkpoint_id ≡ false
same_names_other (str t) c h = elim (h t refl) [
  | inl e ↦ rw ((eq_iff t "").1 e) refl
  | inr e ↦ rw ((eq_iff t c).1 e) (ground arith)
]
same_names_other (int n) c h = refl
same_names_other null c h = refl
same_names_other (bool b) c h = refl
same_names_other (arr xs) c h = refl
same_names_other (obj d) c h = refl

named_number :
    (number name : Json) (checkpoint_id : String)
    → ((n : ℤ) (t : String) → number ≡ int n → name ≡ str t → (t ≡ "") ⊎ (t ≡ checkpoint_id))
    → (names_other name checkpoint_id && is_nonbool_int number) ≡ false
named_number (int n) name c h = rw (same_names_other name c (λ t. h n t refl)) refl
named_number null name c h = ground arith
named_number (bool b) name c h = ground arith
named_number (str s) name c h = ground arith
named_number (arr xs) name c h = ground arith
named_number (obj d) name c h = ground arith

or-false : (a b : Bool) → (a || b) ≡ false → (a ≡ false) × (b ≡ false)
or-false a b h = ground arith

is_later-IsNotLater :
    (end : DeclaredEnd) (item : Fields)
    → is_later end item ≡ false
    → IsNotLater end (get item "sequence_number") (get item "checkpoint_id")
unfolding is_later
is_later-IsNotLater end item h =
    let both = or-false _ _ h in
    record {
      number_least = above-false _ _ both.0;
      same_name = λ n t e f. names_other-false t end.checkpoint_id (
          let k : (names_other (str t) end.checkpoint_id && true) ≡ false = rw (e, f) at both.1 in
          ground arith);
    }

IsNotLater-is_later :
    (end : DeclaredEnd) (item : Fields)
    → IsNotLater end (get item "sequence_number") (get item "checkpoint_id")
    → is_later end item ≡ false
unfolding is_later
IsNotLater-is_later end item i = rw (above_none _ _ i.number_least) (named_number _ _ _ i.same_name)

-- A scope that can be looked up is another one or the scope of the end.
in_scope-IsElsewhere :
    (v : Json) (scope : String) → in_scope v scope ≡ some false → IsElsewhere v scope
in_scope-IsElsewhere (str s) scope h = λ e. cc (rw ((eq_iff s scope).1 e) at h)
in_scope-IsElsewhere (bool b) scope h = tt
in_scope-IsElsewhere (int n) scope h = tt
in_scope-IsElsewhere null scope h = cc
in_scope-IsElsewhere (arr xs) scope h = cc
in_scope-IsElsewhere (obj d) scope h = cc

IsElsewhere-in_scope :
    (v : Json) (scope : String) → IsElsewhere v scope → in_scope v scope ≡ some false
IsElsewhere-in_scope (str s) scope h = elim (Bool-cases (str_eq s scope)) [
  | inl e ↦ absurd (h ((eq_iff _ _).0 e))
  | inr e ↦ rw e refl
]
IsElsewhere-in_scope (bool b) scope h = refl
IsElsewhere-in_scope (int n) scope h = refl
IsElsewhere-in_scope null scope h = absurd h
IsElsewhere-in_scope (arr xs) scope h = absurd h
IsElsewhere-in_scope (obj d) scope h = absurd h

in_scope-IsHere : (v : Json) (scope : String) → in_scope v scope ≡ some true → IsHere v scope
in_scope-IsHere null scope h = inl refl
in_scope-IsHere (str s) scope h =
    let same : str_eq s scope ≡ true = cc h in inr (rw ((eq_iff s scope).0 same) refl)
in_scope-IsHere (bool b) scope h = cc
in_scope-IsHere (int n) scope h = cc
in_scope-IsHere (arr xs) scope h = cc
in_scope-IsHere (obj d) scope h = cc

IsHere-in_scope : (v : Json) (scope : String) → IsHere v scope → in_scope v scope ≡ some true
IsHere-in_scope v scope (inl e) = rw e refl
IsHere-in_scope v scope (inr e) = rw (e, (eq_iff scope scope).1 refl) refl

-- One turn of the loop lets the next turns decide exactly when its item is current.
check_item-fresh :
    (end : DeclaredEnd) (item : Option Fields) (next : Freshness)
    → check_item end item next ≡ fresh
    → IsCurrent end item × (next ≡ fresh)
unfolding check_item
check_item-fresh end none next h = (tt, h)
check_item-fresh end (some item) next h =
    elim (Option-cases (in_scope (get item "chain_scope") end.chain_scope)) [
      | inl e ↦ cc (rw e at h)
      | inr (false, e) ↦ (inl (in_scope-IsElsewhere _ _ e), rw e at h)
      | inr (true, e) ↦ elim (Bool-cases (is_later end item)) [
        | inl l ↦ cc (rw (e, l) at h)
        | inr l ↦ (inr (in_scope-IsHere _ _ e, is_later-IsNotLater end item l), rw (e, l) at h)
      ]
    ]

fresh_item :
    (end : DeclaredEnd) (item : Option Fields) (next : Freshness)
    → IsCurrent end item
    → next ≡ fresh
    → check_item end item next ≡ fresh
unfolding check_item
fresh_item end none next c h = h
fresh_item end (some item) next (inl e) h = rw (IsElsewhere-in_scope _ _ e) h
fresh_item end (some item) next (inr (e, l)) h =
    rw (IsHere-in_scope _ _ e, IsNotLater-is_later end item l) h

abbrev pub AllCurrent : DeclaredEnd → List Json → Type 0
AllCurrent end items = Each (λ v. IsCurrent end (as_dict v)) items

check_items_iff :
    (end : DeclaredEnd) (items : List Json) → (check_items end items ≡ fresh) ↔ AllCurrent end items
check_items_iff end [] = ((λ h. tt), (λ c. refl))
check_items_iff end (v ∷ vs) = (
  (λ h.
      let both = check_item-fresh end (as_dict v) _ h in
      (both.0, (check_items_iff end vs).0 both.1)),
  (λ c. fresh_item end (as_dict v) _ c.0 ((check_items_iff end vs).1 c.1)),
)

-- There is evidence, and it lists current items only.
abbrev pub IsFreshBy : DeclaredEnd → Option Fields → Type 0
IsFreshBy end none = ⊥
IsFreshBy end (some evidence) = AllCurrent end (later_items evidence)

check_evidence_iff :
    (end : DeclaredEnd) (evidence : Option Fields)
    → (check_evidence end evidence ≡ fresh) ↔ IsFreshBy end evidence
check_evidence_iff end none = ((λ h. cc), (λ c. absurd c))
check_evidence_iff end (some evidence) = check_items_iff end (later_items evidence)

-- The policy check on a declared end passes exactly when the end is not declared to be the latest
-- checkpoint, or there is evidence each of whose items is no object, or of another scope, or has at
-- most the number of the end and, with a number, names no checkpoint but that of the end.
pub latest_policy_iff :
    (export_document manifest : Fields) (segment_id : String) (end : DeclaredEnd)
    → (check_latest_checkpoint_policy export_document manifest segment_id end ≡ fresh) ↔ (
        (¬ (end.boundary_policy ≡ "latest_checkpoint_at_export"))
        ⊎ IsFreshBy end (latest_freshness_evidence export_document manifest segment_id))
unfolding check_latest_checkpoint_policy
latest_policy_iff export_document manifest segment_id end =
    let latest = str_eq end.boundary_policy "latest_checkpoint_at_export" in
    let by_evidence =
      check_evidence_iff end (latest_freshness_evidence export_document manifest segment_id) in
    elim (Bool-cases latest) [
      | inl e ↦ (
        (λ h. inr (by_evidence.0 (rw e at h))),
        (λ c. elim c [ inl n ↦ absurd (n ((eq_iff _ _).0 e)) | inr f ↦ rw e (by_evidence.1 f) ]),
      )
      | inr e ↦ ((λ h. inl (λ p. cc ((eq_iff _ _).1 p, e))), (λ c. rw e refl))
    ]

-- Evidence that lists no checkpoints passes as evidence of the latest one: when the first source is an
-- object without an object for the segment, without a list under "later_checkpoints" or
-- "observed_checkpoints" and without a sequence number, the check passes, whatever the declared end is.
pub silent_evidence_passes :
    (source manifest export_document : Fields) (segment_id : String) (end : DeclaredEnd)
    → get export_document "scope_faithfulness_freshness" ≡ obj source
    → as_dict (get source segment_id) ≡ none
    → as_list (get source "later_checkpoints") ≡ none
    → as_list (get source "observed_checkpoints") ≡ none
    → has_key source "sequence_number" ≡ false
    → check_latest_checkpoint_policy export_document manifest segment_id end ≡ fresh
unfolding check_latest_checkpoint_policy latest_freshness_evidence later_items
silent_evidence_passes source manifest export_document segment_id end g d l o n =
    let latest = str_eq end.boundary_policy "latest_checkpoint_at_export" in
    elim (Bool-cases latest) [ inl e ↦ rw (e, g, d, l, o, n) refl | inr e ↦ rw e refl ]

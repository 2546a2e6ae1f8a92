-- ===== src/Scope/Freshness.antt =====
-- `_check_latest_checkpoint_policy`: an export that declares its end as the latest checkpoint carries
-- evidence on later ones. The end has passed the schema check. The test for evidence that is a list is
-- left out, since `_latest_freshness_evidence` gives dicts only.
pub mod Laws
use keel_verifier.Base.{
  ℕ, String, ◌≡◌, ◌↔◌, ◌⊎◌, ◌≤◌, inl, inr, refl, Bool, true, false, ◌&&◌, ◌||◌, not, Option, none,
  some, List, [], ◌∷◌, ◌++◌, Each, Bool-cases, ltb, pos, negsuc, arith, str_eq, if◌then◌else◌,
}
use keel_verifier.Json.{
  Json, null, bool, int, str, arr, obj, Fields, get, as_dict, as_list, has_key, eq_str,
}

pub record DeclaredEnd : Type 0 where
  pub checkpoint_id : String
  pub chain_scope : String
  pub sequence_number : ℕ
  pub boundary_policy : String

-- `type_error` is the exception of a set that is asked for a list or a dict.
pub data Freshness : Type 0 where
  fresh evidence_missing stale_checkpoint type_error : Freshness

-- The entry of the segment, or the whole source.
abbrev pub entry_or_source : Fields → Option Fields → Fields
entry_or_source source none = source
entry_or_source source (some entry) = entry

-- The loop over the sources.
abbrev pub first_evidence : String → List Json → Option Fields
first_evidence segment_id [] = none
first_evidence segment_id (source ∷ sources) = elim (as_dict source) [
  | none ↦ first_evidence segment_id sources
  | some d ↦ some (entry_or_source d (as_dict (get d segment_id)))
]

unfoldable pub latest_freshness_evidence : Fields → Fields → String → Option Fields
latest_freshness_evidence export_document manifest segment_id = first_evidence segment_id (
    get export_document "scope_faithfulness_freshness"
    ∷ get manifest "scope_faithfulness_freshness"
    ∷ get export_document "checkpoint_selection_evidence"
    ∷ get manifest "checkpoint_selection_evidence"
    ∷ [])

abbrev pub or_no_items : Option (List Json) → List Json
or_no_items none = []
or_no_items (some items) = items

unfoldable pub later_items : Fields → List Json
later_items evidence =
    or_no_items (as_list (get evidence "later_checkpoints"))
    ++ (or_no_items (as_list (get evidence "observed_checkpoints"))
        ++ (if has_key evidence "sequence_number" then obj evidence ∷ [] else []))

-- What `in {None, scope}` gives; a list or a dict has no hash.
abbrev pub in_scope : Json → String → Option Bool
in_scope null scope = some true
in_scope (str s) scope = some (str_eq s scope)
in_scope (bool b) scope = some false
in_scope (int n) scope = some false
in_scope (arr xs) scope = none
in_scope (obj d) scope = none

abbrev pub above : Json → ℕ → Bool
above (int (pos m)) n = ltb n m
above (int (negsuc m)) n = false
above null n = false
above (bool b) n = false
above (str s) n = false
above (arr xs) n = false
above (obj d) n = false

abbrev pub is_nonbool_int : Json → Bool
is_nonbool_int (int n) = true
is_nonbool_int null = false
is_nonbool_int (bool b) = false
is_nonbool_int (str s) = false
is_nonbool_int (arr xs) = false
is_nonbool_int (obj d) = false

abbrev pub names_other : Json → String → Bool
names_other (str t) checkpoint_id = not (str_eq t "") && not (str_eq t checkpoint_id)
names_other null checkpoint_id = false
names_other (bool b) checkpoint_id = false
names_other (int n) checkpoint_id = false
names_other (arr xs) checkpoint_id = false
names_other (obj d) checkpoint_id = false

unfoldable pub is_later : DeclaredEnd → Fields → Bool
is_later end item =
    above (get item "sequence_number") end.sequence_number
    || (names_other (get item "checkpoint_id") end.checkpoint_id
        && is_nonbool_int (get item "sequence_number"))

-- One turn of the loop, before the turns that follow.
abbrev pub when_in_scope : Option Bool → Bool → Freshness → Freshness
when_in_scope none later next = type_error
when_in_scope (some false) later next = next
when_in_scope (some true) later next = if later then stale_checkpoint else next

abbrev pub check_item : DeclaredEnd → Option Fields → Freshness → Freshness
unfolding is_later
check_item end none next = next
check_item end (some item) next =
    when_in_scope (in_scope (get item "chain_scope") end.chain_scope) (is_later end item) next

abbrev pub check_items : DeclaredEnd → List Json → Freshness
check_items end [] = fresh
check_items end (item ∷ items) = check_item end (as_dict item) (check_items end items)

abbrev pub check_evidence : DeclaredEnd → Option Fields → Freshness
check_evidence end none = evidence_missing
check_evidence end (some evidence) = check_items end (later_items evidence)

unfoldable pub check_latest_checkpoint_policy : Fields → Fields → String → DeclaredEnd → Freshness
unfolding later_items latest_freshness_evidence
check_latest_checkpoint_policy export_document manifest segment_id end =
    if str_eq end.boundary_policy "latest_checkpoint_at_export"
    then check_evidence end (latest_freshness_evidence export_document manifest segment_id)
    else fresh

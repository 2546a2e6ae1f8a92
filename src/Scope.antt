-- ===== src/Scope.antt =====
-- keel_verifier/verifier.py: the chain evidence of an export's scope, whose records have passed the
-- schema check: their sequence numbers are positive and their other fields here are texts.
pub mod Order
pub mod Start
pub mod Linked
pub mod Root
pub mod Freshness
use Prim.Native.Nat.{Ordering}
use Prim.Native.Nat.{compare as compare_nat}
use Prim.Native.String.{compare}
use keel_verifier.Base.{
  ℕ, zero, suc, String, Bool, true, false, ◌&&◌, ◌||◌, not, Option, none, some, List, [], ◌∷◌, ◌++◌,
  any, all, leb, ◌==◌, ℤ, pos, negsuc, str_eq, if◌then◌else◌,
}
use keel_verifier.Json.{
  Json, null, bool, int, str, arr, obj, Fields, get, lookup, truthy, as_int, bool_int, eq, eq_str,
}

-- What is read of a record.
pub record Evidence : Type 0 where
  pub event_id : String
  pub sequence_number : ℕ
  pub record_hash : String
  pub prev_hash : String

pub record Segment : Type 0 where
  pub declared_start : Fields
  pub has_predicate : Bool
  pub disclosure_records : List Evidence
  pub proof_bridge_records : List Evidence

abbrev or_next : Ordering → Bool → Bool
or_next Ordering.lt next = true
or_next Ordering.gt next = false
or_next Ordering.eq next = next

-- The keys `(sequence_number, event_id, record_hash)` are in order.
unfoldable pub in_order : Evidence → Evidence → Bool
in_order a b =
    or_next (compare_nat a.sequence_number b.sequence_number)
      (or_next (compare a.event_id b.event_id) (or_next (compare a.record_hash b.record_hash) true))

unfoldable pub insert : Evidence → List Evidence → List Evidence
insert e [] = e ∷ []
insert e (x ∷ xs) = let rest = insert e xs in if in_order e x then e ∷ x ∷ xs else x ∷ rest

-- `sorted` with that key.
unfoldable pub sorted : List Evidence → List Evidence
sorted [] = []
sorted (x ∷ xs) = insert x (sorted xs)

unfoldable pub ordered_scope_evidence : Segment → List Evidence
ordered_scope_evidence segment = sorted (segment.disclosure_records ++ segment.proof_bridge_records)

-- The reasons of the two checks; `raises` is the exception of a declared start with a field that is
-- missing or no number.
pub data Checked : Type 0 where
  passes chain_proof_missing boundary_start_mismatch discontinuity raises : Checked

-- `v + 1`
abbrev pub plus_one : Json → Option Json
plus_one v = elim (as_int v) [
  | none ↦ none
  | some (pos n) ↦ some (int (pos (suc n)))
  | some (negsuc zero) ↦ some (int (pos 0))
  | some (negsuc (suc n)) ↦ some (int (negsuc n))
]

abbrev same_hash : Evidence → Option Json → Checked
same_hash first none = raises
same_hash first (some hash) =
    if eq_str hash first.prev_hash then passes else boundary_start_mismatch

-- The first record has the sequence number and the previous hash that the start declares.
abbrev pub starts_at : Evidence → Option Json → Option Json → Checked
starts_at first none hash = raises
starts_at first (some number) hash =
    if eq (int (pos first.sequence_number)) number
    then same_hash first hash
    else boundary_start_mismatch

-- A supplied record with the number of the predecessor has its hash.
abbrev pub agrees_with : Fields → Evidence → Bool
agrees_with start bridge =
    not (eq (int (pos bridge.sequence_number)) (get start "predecessor_sequence_number"))
    || eq_str (get start "predecessor_record_hash") bridge.record_hash

abbrev pub then_bridges : Checked → Fields → List Evidence → Checked
then_bridges passes start bridges =
    if all (agrees_with start) bridges then passes else boundary_start_mismatch
then_bridges c start bridges = c

abbrev after_number : Option Json → Option Json
after_number none = none
after_number (some v) = plus_one v

abbrev pub check_first : Segment → Evidence → Checked
check_first segment first =
    let start = segment.declared_start in
    if eq_str (get start "kind") "genesis"
    then starts_at first (some (int (pos 1))) (lookup "genesis_prev_hash" start)
    else if eq_str (get start "kind") "predecessor_proof"
    then then_bridges
        (starts_at first (lookup "first_evidence_sequence_number" start)
          (lookup "predecessor_record_hash" start))
        start segment.proof_bridge_records
    else if eq_str (get start "kind") "checkpoint_anchor"
    then starts_at first (after_number (lookup "sequence_number" start))
        (lookup "last_record_hash" start)
    else boundary_start_mismatch

abbrev pub check_records : Segment → List Evidence → Checked
check_records segment [] = if segment.has_predicate then passes else chain_proof_missing
check_records segment (first ∷ records) = check_first segment first

unfoldable pub check_scope_start : Segment → Checked
unfolding ordered_scope_evidence
check_scope_start segment = check_records segment (ordered_scope_evidence segment)

-- One record behind another: a greater number, and the hash of the one before.
abbrev pub follows : Option Evidence → Evidence → Bool
follows none e = true
follows (some previous) e =
    not (leb e.sequence_number previous.sequence_number) && str_eq e.prev_hash previous.record_hash

-- The loop of `_check_scope_continuity`.
unfoldable pub walk : List ℕ → Option Evidence → List Evidence → Checked
walk seen previous [] = passes
walk seen previous (e ∷ es) =
    let rest = walk (e.sequence_number ∷ seen) (some e) es in
    if any (λ n. n == e.sequence_number) seen
    then discontinuity
    else if follows previous e
    then rest
    else discontinuity

unfoldable pub check_scope_continuity : Segment → Checked
unfolding walk ordered_scope_evidence
check_scope_continuity segment = walk [] none (ordered_scope_evidence segment)

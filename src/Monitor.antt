-- ===== src/Monitor.antt =====
-- keel_verifier/monitor.py: the checks of a checkpoint-consistency surface against its own leaf
-- hashes, a customer's pin and the Rekor witnesses. Each message of the program is a constructor.
pub mod Leaves
pub mod Errors
pub mod Soundness
pub mod Loop
use keel_verifier.Base.{
  ℕ, zero, suc, ◌+◌, String, Bool, true, false, ◌&&◌, ◌||◌, not, Option, none, some, List, [], ◌∷◌,
  ◌++◌, ℤ, pos, negsuc, str_eq, length, take, map, leb, ltb, ◌==◌, if◌then◌else◌,
}
use Prim.Native.String.{◌++◌ as ◌<>◌}
use text.Mathlib.Text.{starts_with}
use keel_verifier.Json.{
  Json, null, bool, int, str, arr, obj, Items, Fields, to_list, get, has_key, as_str, as_dict,
  as_list, eq_str, truthy, or_else, is_null, eq,
}
use keel_verifier.Hex.{Bytes, from_hex, to_hex}
use keel_verifier.Merkle.{merkle_root}

-- `s.removeprefix(p)` for a text that starts with `p` of n characters: the rest.
unfoldable pub skip : ℕ → String → String
skip zero s = s
skip (suc n) String.[] = ""
skip (suc n) (String.◌∷◌ c s) = skip n s

abbrev pub sha256_prefix : String
sha256_prefix = "sha256:"

-- Why roots could not be recomputed.
pub data LeafError : Type 0 where
  not_prefixed bad_hex : LeafError

pub data Parsed {ℓ} (A : Type ℓ) : Type ℓ where
  ok : A → Parsed A
  raised : LeafError → Parsed A

abbrev pub hex_leaf : Option Bytes → Parsed Bytes
hex_leaf none = raised bad_hex
hex_leaf (some bs) = ok bs

-- One round of the loop of `merkle_root_from_leaf_hashes`.
unfoldable pub parse_leaf : Json → Parsed Bytes
unfolding skip from_hex
parse_leaf (str s) =
    if starts_with s sha256_prefix then hex_leaf (from_hex (skip 7 s)) else raised not_prefixed
parse_leaf _ = raised not_prefixed

abbrev pub cons_leaf : Parsed Bytes → Parsed (List Bytes) → Parsed (List Bytes)
cons_leaf (raised e) rest = raised e
cons_leaf (ok b) (raised e) = raised e
cons_leaf (ok b) (ok bs) = ok (b ∷ bs)

unfoldable pub parse_leaves : List Json → Parsed (List Bytes)
unfolding parse_leaf
parse_leaves [] = ok []
parse_leaves (x ∷ xs) = cons_leaf (parse_leaf x) (parse_leaves xs)

pub data RekorError : Type 0 where
  missing_witness wrong_type not_included wrong_artifact missing_uuid missing_index : RekorError

pub data MonitorError : Type 0 where
  missing_proof unsupported_proof_type invalid_window leaf_count : MonitorError
  roots_not_recomputed : LeafError → MonitorError
  from_root_mismatch to_root_mismatch requested_size_mismatch requested_root_mismatch : MonitorError
  pin_incomplete size_below_pin pin_root_mismatch : MonitorError
  pin_not_recomputed : LeafError → MonitorError
  entries_required : MonitorError
  entry_not_object : ℕ → MonitorError
  entry_witness : ℕ → RekorError → MonitorError

-- `if bad: errors.append(e)`
abbrev pub note {ℓ} : {E : Type ℓ} → Bool → E → List E
note bad e = if bad then e ∷ [] else []

abbrev pub differs : Option String → Json → Bool
differs none v = false
differs (some expected) v = not (eq_str v expected)

abbrev witness_errors : Fields → Option String → List RekorError
witness_errors w expected =
    note (not (eq_str (get w "witness_type") "rekor")) wrong_type
    ++ (note (not (eq_str (get w "status") "included")) not_included
        ++ (note (differs expected (get w "artifact_hash")) wrong_artifact
            ++ (note (not (truthy (get w "rekor_uuid"))) missing_uuid
                ++ note (is_null (get w "log_index")) missing_index)))

unfoldable pub verify_rekor_witness : Json → Option String → List RekorError
verify_rekor_witness (obj w) expected = witness_errors w expected
verify_rekor_witness _ expected = missing_witness ∷ []

abbrev root_text : Json → Option String
root_text (str s) = if starts_with s sha256_prefix then some s else none
root_text _ = none

unfoldable pub pin_root_hash : Fields → Option String
pin_root_hash pin = root_text (or_else (get pin "checkpoint_log_root_hash") (get pin "root_hash"))

abbrev natural : Json → Option ℕ
natural (int (pos n)) = some n
natural _ = none

unfoldable pub pin_tree_size : Fields → Option ℕ
pin_tree_size pin = natural (or_else (get pin "checkpoint_log_tree_size") (get pin "tree_size"))

-- The window `(from_size, to_size)` of a proof, when it passes the checks on its types and order.
abbrev pub window_of : Json → Json → Option (ℕ × ℕ)
window_of (int (pos m)) (int (pos n)) = if leb m n then some (m, n) else none
window_of _ _ = none

abbrev pub or_zero : Option (ℕ × ℕ) → ℕ × ℕ
or_zero none = (0, 0)
or_zero (some w) = w

-- `leaf_hashes` when it is a list of `to_size` items.
abbrev pub counted : ℕ → Option (List Json) → Option (List Json)
counted n none = none
counted n (some xs) = if length xs == n then some xs else none

abbrev pub or_no_leaves : Option (List Json) → List Json
or_no_leaves none = []
or_no_leaves (some xs) = xs

abbrev pub is_none {ℓ} : {A : Type ℓ} → Option A → Bool
is_none none = true
is_none (some a) = false

pub record Verdict : Type 0 where
  pub errors : List MonitorError
  pub from_size : ℕ
  pub to_size : ℕ
  pub from_root_hash : Option String
  pub to_root_hash : Option String

abbrev pub is_empty {ℓ} : {A : Type ℓ} → List A → Bool
is_empty [] = true
is_empty (x ∷ xs) = false

-- The field "ok" of the result.
abbrev pub accepted : Verdict → Bool
accepted v = is_empty v.errors

module _ (sha256 : Bytes → Bytes) where
  abbrev pub root_of_parsed : Parsed (List Bytes) → Parsed String
  root_of_parsed (raised e) = raised e
  root_of_parsed (ok nodes) = ok (sha256_prefix <> to_hex (merkle_root sha256 nodes))

  unfoldable pub merkle_root_from_leaf_hashes : List Json → Parsed String
  merkle_root_from_leaf_hashes leaf_hashes = root_of_parsed (parse_leaves leaf_hashes)

  -- Both roots of the window, or the error that the `except` clause catches.
  abbrev pub pair_roots : Parsed String → Parsed String → Parsed (String × String)
  pair_roots (raised e) b = raised e
  pair_roots (ok a) (raised e) = raised e
  pair_roots (ok a) (ok b) = ok (a, b)

  abbrev pub window_roots : ℕ → ℕ → List Json → Parsed (String × String)
  window_roots m n leaves =
      pair_roots (merkle_root_from_leaf_hashes (take m leaves))
        (merkle_root_from_leaf_hashes (take n leaves))

  abbrev pub root_errors : Parsed (String × String) → Fields → List MonitorError
  root_errors (raised e) proof = roots_not_recomputed e ∷ []
  root_errors (ok (a, b)) proof =
      note (not (eq_str (get proof "from_root_hash") a)) from_root_mismatch
      ++ note (not (eq_str (get proof "to_root_hash") b)) to_root_mismatch

  abbrev pub from_root : Parsed (String × String) → Option String
  from_root (raised e) = none
  from_root (ok (a, b)) = some a

  abbrev pub to_root : Parsed (String × String) → Option String
  to_root (raised e) = none
  to_root (ok (a, b)) = some b

  abbrev head_errors : Json → ℕ → Option String → List MonitorError
  head_errors (obj head) n root =
      note (not (eq (get head "tree_size") (int (pos n)))) requested_size_mismatch
      ++ note (differs root (get head "root_hash")) requested_root_mismatch
  head_errors _ n root = []

  abbrev pub pin_root_errors : Parsed String → String → List MonitorError
  pin_root_errors (raised e) pinned = pin_not_recomputed e ∷ []
  pin_root_errors (ok root) pinned = note (not (str_eq root pinned)) pin_root_mismatch

  abbrev pub pinned_errors : Option String → Option ℕ → ℕ → List Json → List MonitorError
  pinned_errors (some root) (some size) n leaves =
      if ltb n size
      then size_below_pin ∷ []
      else pin_root_errors (merkle_root_from_leaf_hashes (take size leaves)) root
  pinned_errors _ _ n leaves = pin_incomplete ∷ []

  abbrev pub pin_errors : Option Fields → ℕ → List Json → List MonitorError
  pin_errors none n leaves = []
  pin_errors (some pin) n leaves = pinned_errors (pin_root_hash pin) (pin_tree_size pin) n leaves

  entry_errors : ℕ → List Json → List MonitorError
  entry_errors index [] = []
  entry_errors index (obj entry ∷ rest) =
      map (entry_witness index) (verify_rekor_witness (get entry "transparency") none)
      ++ entry_errors (index + 1) rest
  entry_errors index (_ ∷ rest) = entry_not_object index ∷ entry_errors (index + 1) rest

  abbrev rekor_errors : Bool → Option (List Json) → List MonitorError
  rekor_errors false entries = []
  rekor_errors true none = entries_required ∷ []
  rekor_errors true (some entries) = entry_errors 0 entries

  -- The checks behind the proof object, over the window and the leaves that they settled on.
  unfoldable pub verify_proof :
      Fields → Fields → Option Fields → Bool → Option (ℕ × ℕ) → Option (List Json) → Verdict
  unfolding merkle_root_from_leaf_hashes pin_root_hash pin_tree_size entry_errors
      verify_rekor_witness
  verify_proof surface proof pin require_rekor window listed =
      let (m, n) = or_zero window in
      let leaves = or_no_leaves listed in
      let roots = window_roots m n leaves in
      record {
        errors =
            note (not (eq_str (get proof "proof_type") "keel.checkpoint_log.full_prefix_merkle.v1"))
              unsupported_proof_type
            ++ (note (is_none window) invalid_window
                ++ (note (is_none listed) leaf_count
                    ++ (root_errors roots proof
                        ++ (head_errors (get surface "requested_tree_head") n (to_root roots)
                            ++ (pin_errors pin n leaves
                                ++ rekor_errors require_rekor
                                    (as_list (get surface "entries")))))));
        from_size = m;
        to_size = n;
        from_root_hash = from_root roots;
        to_root_hash = to_root roots;
      }

  abbrev verify_surface : Fields → Option Fields → Bool → Json → Verdict
  verify_surface surface pin require_rekor (obj proof) =
      let window = window_of (get proof "from_size") (get proof "to_size") in
      verify_proof surface proof pin require_rekor window
        (counted (or_zero window).1 (as_list (get proof "leaf_hashes")))
  verify_surface surface pin require_rekor _ = record {
    errors = missing_proof ∷ [];
    from_size = 0;
    to_size = 0;
    from_root_hash = none;
    to_root_hash = none;
  }

  unfoldable pub verify_consistency_surface : Fields → Option Fields → Bool → Verdict
  unfolding verify_proof
  verify_consistency_surface surface customer_pin require_rekor =
      verify_surface surface customer_pin require_rekor (get surface "proof")

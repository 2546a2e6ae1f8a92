-- ===== src/Examples/Evidence.antt =====
-- Two disclosed records and a bridge between them, from the genesis on.
use keel_verifier.Base.{ℕ, ◌≡◌, ◌⊎◌, inl, inr, refl, false, [], ◌∷◌, String, map, pos}
use keel_verifier.Json.{Json, Fields, int, str, arr, obj, cons, nil, end, field, eq}
use keel_verifier.Hex.{Bytes}
use keel_verifier.Scope.{
  Evidence, Segment, passes, in_order, insert, sorted, ordered_scope_evidence, check_scope_start,
  check_scope_continuity,
}
use keel_verifier.Scope.Linked.{Continues, scope_checks_iff, scope_records_unique}
use keel_verifier.Scope.Root.{RootCollision, leaf_text, scope_merkle_root, scope_root-binds}
use keel_verifier.Scope.Freshness.{
  DeclaredEnd, fresh, latest_freshness_evidence, later_items, is_later,
  check_latest_checkpoint_policy,
}
use keel_verifier.Scope.Freshness.Laws.{IsFreshBy, latest_policy_iff, silent_evidence_passes}
use keel_verifier.Examples.Logs.{toy, toy-IsHash}

abbrev item : ℕ → String → String → Evidence
item n hash previous = record {
  event_id = "e";
  sequence_number = n;
  record_hash = hash;
  prev_hash = previous;
}

abbrev segment : Segment
segment = record {
  declared_start = field "kind" (str "genesis") (field "genesis_prev_hash" (str "g") end);
  has_predicate = false;
  disclosure_records = item 4 "c" "b" ∷ item 1 "a" "g" ∷ [];
  proof_bridge_records = item 2 "b" "a" ∷ [];
}

starts : check_scope_start segment ≡ passes
unfolding check_scope_start sorted insert in_order eq
starts = refl

continues : check_scope_continuity segment ≡ passes
unfolding check_scope_continuity sorted insert in_order
continues = refl

scope_checks_iff_example : Continues segment (ordered_scope_evidence segment)
scope_checks_iff_example = (scope_checks_iff segment).0 (starts, continues)

scope_records_unique_example : item 2 "b" "a" ≡ item 2 "b" "a"
scope_records_unique_example =
    scope_records_unique segment (item 2 "b" "a") (item 2 "b" "a") starts continues (inr (inl refl))
      (inr (inl refl)) refl

abbrev one_byte : Json → Bytes
one_byte v = 7 ∷ []

scope_root-binds_example :
    (map (leaf_text toy one_byte "p") (sorted (item 4 "c" "b" ∷ item 1 "a" "g" ∷ []))
      ≡ map (leaf_text toy one_byte "p") (sorted (item 1 "a" "g" ∷ item 4 "c" "b" ∷ [])))
    ⊎ RootCollision toy
        (map (leaf_text toy one_byte "p") (sorted (item 4 "c" "b" ∷ item 1 "a" "g" ∷ [])))
        (map (leaf_text toy one_byte "p") (sorted (item 1 "a" "g" ∷ item 4 "c" "b" ∷ [])))
unfolding sorted scope_merkle_root insert in_order
scope_root-binds_example =
    scope_root-binds toy one_byte "p" (item 4 "c" "b" ∷ item 1 "a" "g" ∷ [])
      (item 1 "a" "g" ∷ item 4 "c" "b" ∷ []) toy-IsHash refl refl

abbrev latest_end : DeclaredEnd
latest_end = record {
  checkpoint_id = "cp2";
  chain_scope = "all";
  sequence_number = 4;
  boundary_policy = "latest_checkpoint_at_export";
}

-- Evidence for one segment: the checkpoint of the end itself, and a later one of another scope.
abbrev observed : Fields
observed =
    field "observed_checkpoints"
      (arr (
        cons (obj (field "sequence_number" (int (pos 4)) (field "checkpoint_id" (str "cp2") end))) (
          cons (obj (field "sequence_number" (int (pos 9)) (field "chain_scope" (str "other") end)))
            nil)))
      end

abbrev with_evidence : Fields
with_evidence = field "scope_faithfulness_freshness" (obj (field "s1" (obj observed) end)) end

latest_fresh : check_latest_checkpoint_policy with_evidence end "s1" latest_end ≡ fresh
unfolding check_latest_checkpoint_policy latest_freshness_evidence later_items is_later
latest_fresh = refl

latest_policy_iff_example :
    (¬ (latest_end.boundary_policy ≡ "latest_checkpoint_at_export"))
    ⊎ IsFreshBy latest_end (latest_freshness_evidence with_evidence end "s1")
latest_policy_iff_example = (latest_policy_iff with_evidence end "s1" latest_end).0 latest_fresh

-- The evidence of the segment s1 is taken for that of s2.
silent_evidence_passes_example :
    check_latest_checkpoint_policy with_evidence end "s2" latest_end ≡ fresh
silent_evidence_passes_example =
    silent_evidence_passes (field "s1" (obj observed) end) end with_evidence "s2" latest_end refl
      refl refl refl refl

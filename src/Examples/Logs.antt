-- ===== src/Examples/Logs.antt =====
-- A log of one leaf that grows to two, under a toy hash that writes the sum of its bytes.
use keel_verifier.Base.{
  ℕ, zero, suc, ◌+◌, ◌%◌, ◌≡◌, String, refl, ◌⊎◌, false, Option, none, some, [], ◌∷◌, pos, arith,
  length,
}
use keel_verifier.Json.{Json, int, str, arr, obj, nil, cons, Fields, end, field}
use keel_verifier.Hex.{Bytes, to_hex, hex_char}
use keel_verifier.Hex.RoundTrip.{AreBytes}
use keel_verifier.Merkle.{bit_length, split, hash_node, merkle_root}
use keel_verifier.Merkle.Binding.{Collision, merkle_root-binds}
use keel_verifier.Monitor.{parse_leaves, verify_consistency_surface}
use keel_verifier.Monitor.Leaves.{IsHash}
use keel_verifier.Monitor.Errors.{IsConsistent}
use keel_verifier.Monitor.Soundness.{accepted-IsConsistent}
use keel_verifier.Monitor.Loop.{
  finished, one_cycle, load_state, active_pin, state_as_pin, pin_document, write_state,
  with_tree_head, run_cycles, Accepts, run_cycles-Accepts, tree_head_unchecked,
}

abbrev sum : Bytes → ℕ
sum [] = 0
sum (b ∷ bs) = b + sum bs

abbrev zeros : ℕ → Bytes
zeros zero = []
zeros (suc n) = 0 ∷ zeros n

abbrev pub toy : Bytes → Bytes
toy b = (sum b % 256) ∷ zeros 31

toy_sized : (b : Bytes) → length (toy b) ≡ 32
toy_sized b = refl

zeros_bytes : (n : ℕ) → AreBytes (zeros n)
zeros_bytes zero = tt
zeros_bytes (suc n) = (omega arith, zeros_bytes n)

pub toy-IsHash : IsHash toy
toy-IsHash = record { sized = toy_sized; bytes = λ b. (omega arith, zeros_bytes 31) }

abbrev leaf_a : String
leaf_a = "sha256:0700000000000000000000000000000000000000000000000000000000000000"

abbrev leaf_b : String
leaf_b = "sha256:0500000000000000000000000000000000000000000000000000000000000000"

-- The root of both leaves: 1 + 7 + 5.
abbrev root_ab : String
root_ab = "sha256:0d00000000000000000000000000000000000000000000000000000000000000"

abbrev surface_of : ℕ → ℕ → String → String → Json → Fields
surface_of m n from_root to_root leaves =
    field "proof"
      (obj (
        field "proof_type" (str "keel.checkpoint_log.full_prefix_merkle.v1") (
          field "from_size" (int (pos m)) (
            field "to_size" (int (pos n)) (
              field "from_root_hash" (str from_root)
                (field "to_root_hash" (str to_root) (field "leaf_hashes" leaves end)))))))
      end

abbrev leaves_a : Json
leaves_a = arr (cons (str leaf_a) nil)

abbrev leaves_ab : Json
leaves_ab = arr (cons (str leaf_a) (cons (str leaf_b) nil))

abbrev first_surface : Fields
first_surface = surface_of 1 1 leaf_a leaf_a leaves_a

abbrev second_surface : Fields
second_surface = surface_of 1 2 leaf_a root_ab leaves_ab

abbrev pin_a : Fields
pin_a =
    field "checkpoint_log_root_hash" (str leaf_a)
      (field "checkpoint_log_tree_size" (int (pos 1)) end)

abbrev digest_a : Bytes
digest_a = 7 ∷ zeros 31

abbrev digest_b : Bytes
digest_b = 5 ∷ zeros 31

second_accepted : (verify_consistency_surface toy second_surface (some pin_a) false).errors ≡ []
unfolding verify_consistency_surface parse_leaves to_hex merkle_root hex_char hash_node split
    bit_length
second_accepted = refl

accepted-IsConsistent_example :
    IsConsistent toy second_surface
      (some pin_a)
      (verify_consistency_surface toy second_surface (some pin_a) false)
accepted-IsConsistent_example =
    accepted-IsConsistent toy second_surface (some pin_a) false second_accepted

merkle_root-binds_example : (digest_a ∷ digest_b ∷ [] ≡ digest_a ∷ digest_b ∷ []) ⊎ Collision toy
merkle_root-binds_example =
    merkle_root-binds toy toy_sized (digest_a ∷ digest_b ∷ []) (digest_a ∷ digest_b ∷ []) refl
      (refl, (refl, tt)) (refl, (refl, tt)) refl

abbrev feed : ℕ → Option Fields
feed zero = some (
    field "tree_head" (obj (field "tree_size" (int (pos 1)) (field "root_hash" (str leaf_a) end)))
      first_surface)
feed (suc n) = some (
    field "tree_head" (obj (field "tree_size" (int (pos 2)) (field "root_hash" (str root_ab) end)))
      second_surface)

feed_finishes : (run_cycles toy feed none false 2 0 none).0 ≡ finished
unfolding verify_consistency_surface parse_leaves to_hex merkle_root hex_char hash_node split
    bit_length run_cycles one_cycle load_state active_pin state_as_pin write_state
feed_finishes = refl

run_cycles-Accepts_example :
    Accepts toy feed none false 2 0 none (run_cycles toy feed none false 2 0 none).1
run_cycles-Accepts_example = run_cycles-Accepts toy feed none false 2 0 none feed_finishes

tree_head_unchecked_example :
    (verify_consistency_surface toy (with_tree_head (obj pin_a) first_surface) none false
      ≡ verify_consistency_surface toy first_surface none false)
    × (write_state none (with_tree_head (obj pin_a) first_surface) ≡ some (pin_document pin_a))
tree_head_unchecked_example = tree_head_unchecked toy first_surface pin_a none false none

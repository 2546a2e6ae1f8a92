-- ===== src/Merkle.antt =====
-- keel_verifier/monitor.py: the Merkle tree over the leaf hashes of the checkpoint log.
-- SHA-256 is a parameter.
pub mod Split
pub mod Unroll
pub mod Binding
use keel_verifier.Base.{
  ℕ, zero, suc, ◌+◌, ◌-◌, ◌/◌, ◌^◌, List, [], ◌∷◌, ◌++◌, String, Option, none, some, length, take,
  drop, ◌==◌, if◌then◌else◌,
}
use keel_verifier.Hex.{Bytes, from_hex}

-- `int.bit_length`: the number of halvings down to 0.
bit_length_fuel : ℕ → ℕ → ℕ
bit_length_fuel zero n = 0
bit_length_fuel (suc f) n = let rest = bit_length_fuel f (n / 2) in if n == 0 then 0 else rest + 1

unfoldable pub bit_length : ℕ → ℕ
unfolding bit_length_fuel
bit_length n = bit_length_fuel n n

-- `1 << ((n - 1).bit_length() - 1)`
unfoldable pub split : ℕ → ℕ
unfolding bit_length
split n = 2 ^ (bit_length (n - 1) - 1)

abbrev pub or_no_bytes : Option Bytes → Bytes
or_no_bytes none = []
or_no_bytes (some bs) = bs

abbrev pub empty_root_hex : String
empty_root_hex = "e3b0c44298fc1c149afbf4c8996fb92427ae41e4649b934ca495991b7852b855"

-- The hash of no bytes.
unfoldable pub empty_root : Bytes
unfolding from_hex
empty_root = or_no_bytes (from_hex empty_root_hex)

module _ (sha256 : Bytes → Bytes) where
  unfoldable pub hash_node : Bytes → Bytes → Bytes
  hash_node left right = sha256 (1 ∷ (left ++ right))

  -- The fuel falls with each halving of the list.
  pub root_fuel : ℕ → List Bytes → Bytes
  unfolding hash_node
  root_fuel zero nodes = empty_root
  root_fuel (suc f) [] = empty_root
  root_fuel (suc f) (x ∷ []) = x
  root_fuel (suc f) (x ∷ y ∷ nodes) =
      let k = split (suc (suc (length nodes))) in
      hash_node (root_fuel f (take k (x ∷ y ∷ nodes))) (root_fuel f (drop k (x ∷ y ∷ nodes)))

  unfoldable pub merkle_root : List Bytes → Bytes
  unfolding root_fuel
  merkle_root nodes = root_fuel (length nodes) nodes

-- ===== src/Merkle/Unroll.antt =====
-- The root satisfies the recursive equation of `_merkle_root_bytes`: the fuel never runs out.
use keel_verifier.Base.{
  ℕ, zero, suc, ◌≤◌, ◌≡◌, refl, List, [], ◌∷◌, arith, length, take, drop, length-take, length-drop,
}
use keel_verifier.Hex.{Bytes}
use keel_verifier.Merkle.{split, hash_node, root_fuel, merkle_root}
use keel_verifier.Merkle.Split.{split_bounds}

module _ {ℓ} {A : Type ℓ} (f : ℕ) (xs : List A) (two : 2 ≤ length xs) (h : length xs ≤ suc f) where
  pub length-take-split : length (take (split (length xs)) xs) ≤ f
  length-take-split =
      omega (arith, length-take (split (length xs)) xs, split_bounds (length xs) two)

  pub length-drop-split : length (drop (split (length xs)) xs) ≤ f
  length-drop-split =
      omega (arith, length-drop (split (length xs)) xs, split_bounds (length xs) two)

module _ (sha256 : Bytes → Bytes) where
  pub root_fuel_irrelevant :
      (f g : ℕ) (nodes : List Bytes)
      → length nodes ≤ f
      → length nodes ≤ g
      → root_fuel sha256 f nodes ≡ root_fuel sha256 g nodes
  unfolding root_fuel
  root_fuel_irrelevant zero zero nodes h k = refl
  root_fuel_irrelevant zero (suc g) [] h k = refl
  root_fuel_irrelevant zero (suc g) (x ∷ nodes) h k = absurd (omega arith)
  root_fuel_irrelevant (suc f) zero [] h k = refl
  root_fuel_irrelevant (suc f) zero (x ∷ nodes) h k = absurd (omega arith)
  root_fuel_irrelevant (suc f) (suc g) [] h k = refl
  root_fuel_irrelevant (suc f) (suc g) (x ∷ []) h k = refl
  root_fuel_irrelevant (suc f) (suc g) (x ∷ y ∷ nodes) h k =
      let xs : List Bytes = x ∷ y ∷ nodes in
      cc (
        root_fuel_irrelevant f g (take (split (length xs)) xs)
            (length-take-split f xs (omega arith) h) (length-take-split g xs (omega arith) k),
        root_fuel_irrelevant f g (drop (split (length xs)) xs)
            (length-drop-split f xs (omega arith) h) (length-drop-split g xs (omega arith) k),
      )

  root_fuel-eq-merkle_root :
      (f : ℕ) (nodes : List Bytes)
      → length nodes ≤ f
      → root_fuel sha256 f nodes ≡ merkle_root sha256 nodes
  unfolding merkle_root
  root_fuel-eq-merkle_root f nodes h = root_fuel_irrelevant f (length nodes) nodes h (omega arith)

  -- A tree of two or more leaves is the hash of the trees of the leaves before and after the split.
  pub merkle_root-split :
      (nodes : List Bytes)
      → 2 ≤ length nodes
      → merkle_root sha256 nodes
        ≡ hash_node sha256
            (merkle_root sha256 (take (split (length nodes)) nodes))
            (merkle_root sha256 (drop (split (length nodes)) nodes))
  merkle_root-split [] h = absurd (omega arith)
  merkle_root-split (x ∷ []) h = absurd (omega arith)
  merkle_root-split (x ∷ y ∷ nodes) h =
      let xs : List Bytes = x ∷ y ∷ nodes in
      let f = suc (length nodes) in
      unfold merkle_root root_fuel in
      cc (
        root_fuel-eq-merkle_root f (take (split (length xs)) xs)
            (length-take-split f xs h (omega arith)),
        root_fuel-eq-merkle_root f (drop (split (length xs)) xs)
            (length-drop-split f xs h (omega arith)),
      )

-- ===== src/Merkle/Binding.antt =====
-- A root binds the leaves under it: other leaves under the same root exhibit a hash collision, and
-- that between two texts which the two trees hash.
use mathlib.Core.List.{List-discrete}
use native.Mathlib.Decide.{ℕ_discrete}
use keel_verifier.Base.{
  ℕ, zero, suc, ◌≤◌, ◌≡◌, ◌≢◌, refl, sym, ◌∙◌, List, [], ◌∷◌, ◌++◌, arith, length, take, drop, ◌⊎◌,
  inl, inr, ap, length-take, length-drop, take-append-drop,
}
use keel_verifier.Hex.{Bytes}
use keel_verifier.Merkle.{split, hash_node, root_fuel, merkle_root}
use keel_verifier.Merkle.Split.{split_bounds}
use keel_verifier.Merkle.Unroll.{merkle_root-split, length-take-split, length-drop-split}

abbrev pub Collision : (Bytes → Bytes) → Type 0
Collision hash = (x : Bytes) × (y : Bytes) × (x ≢ y) × (hash x ≡ hash y)

-- The texts that are hashed for the root of a list of leaves: one for each node over two trees.
pub data NodeText (sha256 : Bytes → Bytes) : List Bytes → Bytes → Type 0 where
  at_root :
      {xs : List Bytes} (k : ℕ)
      → 2 ≤ length xs
      → k ≡ split (length xs)
      → NodeText sha256 xs (1 ∷ (merkle_root sha256 (take k xs) ++ merkle_root sha256 (drop k xs)))
  in_left :
      {xs : List Bytes} {t : Bytes} (k : ℕ)
      → 2 ≤ length xs
      → k ≡ split (length xs)
      → NodeText sha256 (take k xs) t
      → NodeText sha256 xs t
  in_right :
      {xs : List Bytes} {t : Bytes} (k : ℕ)
      → 2 ≤ length xs
      → k ≡ split (length xs)
      → NodeText sha256 (drop k xs) t
      → NodeText sha256 xs t

-- The two trees hash two texts to one digest.
pub record NodeCollision (sha256 : Bytes → Bytes) (xs ys : List Bytes) : Type 0 where
  pub left_text : Bytes
  pub right_text : Bytes
  pub in_left_tree : NodeText sha256 xs left_text
  pub in_right_tree : NodeText sha256 ys right_text
  pub different : left_text ≢ right_text
  pub same_hash : sha256 left_text ≡ sha256 right_text

-- Every leaf is a digest of 32 bytes.
abbrev pub Digests : List Bytes → Type 0
Digests [] = Unit
Digests (x ∷ xs) = (length x ≡ 32) × Digests xs

Digests-take : (n : ℕ) (xs : List Bytes) → Digests xs → Digests (take n xs)
Digests-take zero xs d = tt
Digests-take (suc n) [] d = tt
Digests-take (suc n) (x ∷ xs) (e, d) = (e, Digests-take n xs d)

Digests-drop : (n : ℕ) (xs : List Bytes) → Digests xs → Digests (drop n xs)
Digests-drop zero xs d = d
Digests-drop (suc n) [] d = tt
Digests-drop (suc n) (x ∷ xs) (e, d) = Digests-drop n xs d

append_inj {ℓ} :
    {A : Type ℓ} (s t : List A) {u v : List A}
    → length s ≡ length t
    → s ++ u ≡ t ++ v
    → (s ≡ t) × (u ≡ v)
append_inj [] [] h e = (refl, e)
append_inj [] (y ∷ t) h e = absurd (omega arith)
append_inj (x ∷ s) [] h e = absurd (omega arith)
append_inj (x ∷ s) (y ∷ t) {u} {v} h e =
    let r = append_inj s t {u = u} {v = v} (omega arith) (cc e) in (cc (e, r.0), r.1)

module _ (sha256 : Bytes → Bytes) (sized : (b : Bytes) → length (sha256 b) ≡ 32) where
  length-merkle_root :
      (xs : List Bytes) → 1 ≤ length xs → Digests xs → length (merkle_root sha256 xs) ≡ 32
  length-merkle_root [] h d = absurd (omega arith)
  length-merkle_root (x ∷ []) h (e, _) = unfold merkle_root root_fuel in e
  length-merkle_root (x ∷ y ∷ xs) h d =
      rw (merkle_root-split sha256 (x ∷ y ∷ xs) (omega arith)) (unfold hash_node in sized _)

  hash_node-binds :
      (l r m s : Bytes)
      → length l ≡ 32
      → length m ≡ 32
      → hash_node sha256 l r ≡ hash_node sha256 m s
      → ((l ≡ m) × (r ≡ s))
        ⊎ (((1 ∷ (l ++ r)) ≢ (1 ∷ (m ++ s))) × (sha256 (1 ∷ (l ++ r)) ≡ sha256 (1 ∷ (m ++ s))))
  unfolding hash_node
  hash_node-binds l r m s hl hm e = elim (List-discrete ℕ_discrete (l ++ r) (m ++ s)) [
    | yes p ↦ inl (append_inj l m (omega arith) p)
    | no n ↦ inr ((λ q. n (cc q)), e)
  ]

  abbrev Binds : List Bytes → List Bytes → Type 0
  Binds xs ys =
      merkle_root sha256 xs ≡ merkle_root sha256 ys → (xs ≡ ys) ⊎ NodeCollision sha256 xs ys

  module _ (k : ℕ) (xs ys : List Bytes) (h : 2 ≤ length xs) (h' : 2 ≤ length ys)
      (s : k ≡ split (length xs)) (s' : k ≡ split (length ys)) where
    -- Both halves agree, so the lists do.
    rejoin :
        (take k xs ≡ take k ys) ⊎ NodeCollision sha256 (take k xs) (take k ys)
        → (drop k xs ≡ drop k ys) ⊎ NodeCollision sha256 (drop k xs) (drop k ys)
        → (xs ≡ ys) ⊎ NodeCollision sha256 xs ys
    rejoin (inl p) (inl q) = inl (sym (take-append-drop k xs) ∙ cc (p, q) ∙ take-append-drop k ys)
    rejoin (inr c) q = inr (record {
      left_text = c.left_text;
      right_text = c.right_text;
      in_left_tree = in_left k h s c.in_left_tree;
      in_right_tree = in_left k h' s' c.in_right_tree;
      different = c.different;
      same_hash = c.same_hash;
    })
    rejoin (inl p) (inr c) = inr (record {
      left_text = c.left_text;
      right_text = c.right_text;
      in_left_tree = in_right k h s c.in_left_tree;
      in_right_tree = in_right k h' s' c.in_right_tree;
      different = c.different;
      same_hash = c.same_hash;
    })

    -- The two halves of equal roots are settled one after the other.
    join_halves :
        ((merkle_root sha256 (take k xs) ≡ merkle_root sha256 (take k ys))
            × (merkle_root sha256 (drop k xs) ≡ merkle_root sha256 (drop k ys)))
          ⊎ (((1 ∷ (merkle_root sha256 (take k xs) ++ merkle_root sha256 (drop k xs)))
                ≢ (1 ∷ (merkle_root sha256 (take k ys) ++ merkle_root sha256 (drop k ys))))
              × (sha256 (1 ∷ (merkle_root sha256 (take k xs) ++ merkle_root sha256 (drop k xs)))
                  ≡ sha256
                      (1 ∷ (merkle_root sha256 (take k ys) ++ merkle_root sha256 (drop k ys)))))
        → Binds (take k xs) (take k ys)
        → Binds (drop k xs) (drop k ys)
        → (xs ≡ ys) ⊎ NodeCollision sha256 xs ys
    join_halves (inl (p, q)) f g = rejoin (f p) (g q)
    join_halves (inr (d, e)) f g = inr (record {
      left_text = 1 ∷ (merkle_root sha256 (take k xs) ++ merkle_root sha256 (drop k xs));
      right_text = 1 ∷ (merkle_root sha256 (take k ys) ++ merkle_root sha256 (drop k ys));
      in_left_tree = at_root k h s;
      in_right_tree = at_root k h' s';
      different = d;
      same_hash = e;
    })

  split_at :
      (k : ℕ) (xs : List Bytes)
      → 2 ≤ length xs
      → k ≡ split (length xs)
      → merkle_root sha256 xs
        ≡ hash_node sha256 (merkle_root sha256 (take k xs)) (merkle_root sha256 (drop k xs))
  split_at k xs h e = rw e (merkle_root-split sha256 xs h)

  length-root-take :
      (k : ℕ) (xs : List Bytes)
      → 1 ≤ k
      → 1 ≤ length xs
      → Digests xs
      → length (merkle_root sha256 (take k xs)) ≡ 32
  length-root-take k xs hk h d =
      length-merkle_root (take k xs) (omega (arith, length-take k xs)) (Digests-take k xs d)

  Binds-split :
      (k : ℕ) (xs ys : List Bytes)
      → 2 ≤ length xs
      → length xs ≡ length ys
      → k ≡ split (length xs)
      → Digests xs
      → Digests ys
      → Binds (take k xs) (take k ys)
      → Binds (drop k xs) (drop k ys)
      → Binds xs ys
  Binds-split k xs ys h n s c d left right e =
      join_halves k xs ys h (omega arith) s (s ∙ ap split n)
        (hash_node-binds _ _ _ _
          (length-root-take k xs (omega (arith, split_bounds (length xs) h)) (omega arith) c)
          (length-root-take k ys (omega (arith, split_bounds (length xs) h)) (omega arith) d)
          (sym (split_at k xs h s) ∙ e ∙ split_at k ys (omega arith) (s ∙ ap split n)))
        left right

  Binds-fuel :
      (f : ℕ) (xs ys : List Bytes)
      → length xs ≤ f
      → length xs ≡ length ys
      → Digests xs
      → Digests ys
      → Binds xs ys
  Binds-fuel f [] [] h n c d e = inl refl
  Binds-fuel f [] (y ∷ ys) h n c d e = absurd (omega arith)
  Binds-fuel f (x ∷ xs) [] h n c d e = absurd (omega arith)
  Binds-fuel f (x ∷ []) (y ∷ []) h n c d e = inl (unfold merkle_root root_fuel in cc e)
  Binds-fuel f (x ∷ []) (y ∷ y' ∷ ys) h n c d e = absurd (omega arith)
  Binds-fuel f (x ∷ x' ∷ xs) (y ∷ []) h n c d e = absurd (omega arith)
  Binds-fuel zero (x ∷ x' ∷ xs) (y ∷ y' ∷ ys) h n c d e = absurd (omega arith)
  Binds-fuel (suc f) (x ∷ x' ∷ xs) (y ∷ y' ∷ ys) h n c d e =
      let us : List Bytes = x ∷ x' ∷ xs in
      let vs : List Bytes = y ∷ y' ∷ ys in
      let k = split (length us) in
      Binds-split k us vs (omega arith) n refl c d
        (Binds-fuel f (take k us) (take k vs) (length-take-split f us (omega arith) h)
          (omega (arith, length-take k us, length-take k vs)) (Digests-take k us c)
          (Digests-take k vs d))
        (Binds-fuel f (drop k us) (drop k vs) (length-drop-split f us (omega arith) h)
          (omega (arith, length-drop k us, length-drop k vs)) (Digests-drop k us c)
          (Digests-drop k vs d))
        e

  -- Two lists of as many 32-byte leaves with one root are equal, or two texts that their trees hash
  -- have one digest.
  pub merkle_root-binds_texts :
      (xs ys : List Bytes)
      → length xs ≡ length ys
      → Digests xs
      → Digests ys
      → merkle_root sha256 xs ≡ merkle_root sha256 ys
      → (xs ≡ ys) ⊎ NodeCollision sha256 xs ys
  merkle_root-binds_texts xs ys = Binds-fuel (length xs) xs ys (omega arith)

  -- Two lists of as many 32-byte leaves with one root are equal, or two texts with one hash are at
  -- hand.
  pub merkle_root-binds :
      (xs ys : List Bytes)
      → length xs ≡ length ys
      → Digests xs
      → Digests ys
      → merkle_root sha256 xs ≡ merkle_root sha256 ys
      → (xs ≡ ys) ⊎ Collision sha256
  merkle_root-binds xs ys n c d e = elim (merkle_root-binds_texts xs ys n c d e) [
    | inl q ↦ inl q
    | inr c ↦ inr (c.left_text, c.right_text, c.different, c.same_hash)
  ]

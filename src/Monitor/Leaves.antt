-- ===== src/Monitor/Leaves.antt =====
-- The text of a root binds the leaf hashes under it.
use text.Mathlib.TextLemmas.{append_cancel_left}
use keel_verifier.Base.{
  String, ◌≡◌, ◌≢◌, ◌≤◌, refl, sym, ◌∙◌, List, [], ◌∷◌, ◌⊎◌, inl, arith, length,
}
use Prim.Native.String.{◌++◌ as ◌<>◌}
use keel_verifier.Json.{Json, null, str}
use keel_verifier.Hex.{Bytes, from_hex, to_hex}
use keel_verifier.Hex.RoundTrip.{AreBytes, from_hex-AreBytes, to_hex_inj}
use keel_verifier.Merkle.{merkle_root, hash_node}
use keel_verifier.Merkle.Unroll.{merkle_root-split}
use keel_verifier.Merkle.Binding.{NodeCollision, Digests, merkle_root-binds_texts}
use keel_verifier.Monitor.{
  Parsed, ok, raised, sha256_prefix, hex_leaf, parse_leaf, cons_leaf, parse_leaves, skip,
  merkle_root_from_leaf_hashes,
}

abbrev pub AllBytes : List Bytes → Type 0
AllBytes [] = Unit
AllBytes (x ∷ xs) = AreBytes x × AllBytes xs

-- What the monitor needs of SHA-256: digests of 32 bytes.
pub record IsHash (sha256 : Bytes → Bytes) : Type 0 where
  pub sized : (b : Bytes) → length (sha256 b) ≡ 32
  pub bytes : (b : Bytes) → AreBytes (sha256 b)

hex_leaf-AreBytes : (s : String) (b : Bytes) → hex_leaf (from_hex s) ≡ ok b → AreBytes b
hex_leaf-AreBytes s b e = from_hex-AreBytes s b (ground arith)

parse_leaf-AreBytes : (v : Json) (b : Bytes) → parse_leaf v ≡ ok b → AreBytes b
unfolding parse_leaf
parse_leaf-AreBytes (str s) b e = hex_leaf-AreBytes (skip 7 s) b (ground arith)
parse_leaf-AreBytes null b e = cc
parse_leaf-AreBytes _ b e = cc

-- A successful parse of a list is one of its head and of its tail.
cons_leaf-eq-ok :
    (p : Parsed Bytes) (q : Parsed (List Bytes)) (x : Bytes) (xs : List Bytes)
    → cons_leaf p q ≡ ok (x ∷ xs)
    → (p ≡ ok x) × (q ≡ ok xs)
cons_leaf-eq-ok (ok b) (ok bs) x xs e = (cc, cc)
cons_leaf-eq-ok (ok b) (raised f) x xs e = cc
cons_leaf-eq-ok (raised f) q x xs e = cc

cons_leaf-ne-nil : (p : Parsed Bytes) (q : Parsed (List Bytes)) → cons_leaf p q ≢ ok []
cons_leaf-ne-nil (ok b) (ok bs) e = cc
cons_leaf-ne-nil (ok b) (raised f) e = cc
cons_leaf-ne-nil (raised f) q e = cc

pub parse_leaves-AllBytes :
    (vs : List Json) (xs : List Bytes)
    → parse_leaves vs ≡ ok xs
    → AllBytes xs × (length xs ≡ length vs)
unfolding parse_leaves
parse_leaves-AllBytes [] [] e = (tt, refl)
parse_leaves-AllBytes [] (x ∷ xs) e = cc
parse_leaves-AllBytes (v ∷ vs) [] e = absurd (cons_leaf-ne-nil _ _ e)
parse_leaves-AllBytes (v ∷ vs) (x ∷ xs) e =
    let parts = cons_leaf-eq-ok (parse_leaf v) (parse_leaves vs) x xs e in
    let rest = parse_leaves-AllBytes vs xs parts.1 in
    ((parse_leaf-AreBytes v x parts.0, rest.0), omega (arith, rest.1))

module _ (sha256 : Bytes → Bytes) (H : IsHash sha256) where
  merkle_root-AreBytes :
      (xs : List Bytes) → 1 ≤ length xs → AllBytes xs → AreBytes (merkle_root sha256 xs)
  merkle_root-AreBytes [] h b = absurd (omega arith)
  merkle_root-AreBytes (x ∷ []) h (b, _) = unfold merkle_root in b
  merkle_root-AreBytes (x ∷ y ∷ xs) h b =
      rw (merkle_root-split sha256 (x ∷ y ∷ xs) (omega arith)) (unfold hash_node in H.bytes _)

  -- Equal texts of roots are equal roots.
  root_text_inj :
      (xs ys : List Bytes)
      → 1 ≤ length xs
      → length xs ≡ length ys
      → AllBytes xs
      → AllBytes ys
      → sha256_prefix <> to_hex (merkle_root sha256 xs)
        ≡ sha256_prefix <> to_hex (merkle_root sha256 ys)
      → merkle_root sha256 xs ≡ merkle_root sha256 ys
  root_text_inj xs ys h n a b e =
      to_hex_inj _ _ (merkle_root-AreBytes xs h a) (merkle_root-AreBytes ys (omega arith) b)
        (append_cancel_left sha256_prefix _ _ e)

  -- As many leaves under one root text are the same leaves, or their trees collide.
  same_root :
      (xs ys : List Bytes)
      → length xs ≡ length ys
      → AllBytes xs
      → AllBytes ys
      → Digests xs
      → Digests ys
      → sha256_prefix <> to_hex (merkle_root sha256 xs)
        ≡ sha256_prefix <> to_hex (merkle_root sha256 ys)
      → (xs ≡ ys) ⊎ NodeCollision sha256 xs ys
  same_root [] [] n a b c d e = inl refl
  same_root [] (y ∷ ys) n a b c d e = absurd (omega arith)
  same_root (x ∷ xs) ys n a b c d e =
      merkle_root-binds_texts sha256 H.sized (x ∷ xs) ys n c d
        (root_text_inj (x ∷ xs) ys (omega arith) n a b e)

  root_text_of :
      (vs : List Json) (xs : List Bytes) {t : String}
      → parse_leaves vs ≡ ok xs
      → merkle_root_from_leaf_hashes sha256 vs ≡ ok t
      → sha256_prefix <> to_hex (merkle_root sha256 xs) ≡ t
  unfolding merkle_root_from_leaf_hashes
  root_text_of vs xs p r = cc (p, r)

  -- The same, from the lists of texts that a surface carries.
  pub same_leaves :
      (vs ws : List Json) (xs ys : List Bytes) (t : String)
      → length vs ≡ length ws
      → parse_leaves vs ≡ ok xs
      → parse_leaves ws ≡ ok ys
      → Digests xs
      → Digests ys
      → merkle_root_from_leaf_hashes sha256 vs ≡ ok t
      → merkle_root_from_leaf_hashes sha256 ws ≡ ok t
      → (xs ≡ ys) ⊎ NodeCollision sha256 xs ys
  same_leaves vs ws xs ys t n p q c d r s =
      let left = parse_leaves-AllBytes vs xs p in
      let right = parse_leaves-AllBytes ws ys q in
      same_root xs ys (left.1 ∙ n ∙ sym right.1) left.0 right.0 c d
        (root_text_of vs xs p r ∙ sym (root_text_of ws ys q s))

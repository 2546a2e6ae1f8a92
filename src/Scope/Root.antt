-- ===== src/Scope/Root.antt =====
-- `_scope_merkle_root`: the tree over the disclosed records, and what its root binds.
use text.Mathlib.TextLemmas.{append_cancel_left}
use mathlib.Core.Path.{subst}
use mathlib.Core.List.{List-discrete}
use native.Mathlib.Decide.{ℕ_discrete}
use keel_verifier.Monitor.Leaves.{IsHash}
use Prim.Native.String.{◌++◌ as ◌<>◌}
use keel_verifier.Base.{
  suc, String, ◌≡◌, ◌≢◌, ◌∙◌, ap, sym, ◌⊎◌, inl, inr, refl, List, [], ◌∷◌, map, length, pos, arith,
}
use keel_verifier.Json.{Json, str, int, obj, end, field}
use keel_verifier.Hex.{Bytes, to_hex}
use keel_verifier.Hex.RoundTrip.{AreBytes, to_hex_inj}
use keel_verifier.Merkle.Unroll.{merkle_root-split}
use keel_verifier.Trust.Select.Laws.{Among}
use keel_verifier.Scope.Order.{length-sorted}
use keel_verifier.Merkle.{hash_node, merkle_root, empty_root_hex}
use keel_verifier.Merkle.Binding.{NodeCollision, Digests, merkle_root-binds_texts}
use keel_verifier.Scope.{Evidence, sorted}

module _ (sha256 : Bytes → Bytes) (canonical_json : Json → Bytes)
    (predicate_value_hash : String) where
  abbrev pub leaf_object : Evidence → Json
  leaf_object e = obj (
      field "canonical_predicate_value_hash" (str predicate_value_hash) (
        field "event_id" (str e.event_id) (
          field "record_hash" (str e.record_hash)
            (field "sequence_number" (int (pos e.sequence_number)) end))))

  abbrev pub leaf_text : Evidence → Bytes
  leaf_text e = canonical_json (leaf_object e)

  abbrev pub leaves : List Bytes → List Bytes
  leaves texts = map (λ t. sha256 (0 ∷ t)) texts

  abbrev pub root_of_leaves : List Bytes → String
  root_of_leaves [] = "sha256:" <> empty_root_hex
  root_of_leaves (x ∷ xs) = "sha256:" <> to_hex (merkle_root sha256 (x ∷ xs))

  unfoldable pub scope_merkle_root : List Evidence → String
  scope_merkle_root disclosures = root_of_leaves (leaves (map leaf_text (sorted disclosures)))

length-map : {A B : Type 0} (f : A → B) (xs : List A) → length (map f xs) ≡ length xs
length-map f [] = refl
length-map f (x ∷ xs) = ap suc (length-map f xs)

-- Two leaf texts, one of each list, have one leaf hash.
pub record LeafCollision (sha256 : Bytes → Bytes) (ts us : List Bytes) : Type 0 where
  pub left_text : Bytes
  pub right_text : Bytes
  pub in_left : Among left_text ts
  pub in_right : Among right_text us
  pub different : left_text ≢ right_text
  pub same_hash : sha256 (0 ∷ left_text) ≡ sha256 (0 ∷ right_text)

LeafCollision-cons :
    (sha256 : Bytes → Bytes) (t u : Bytes) (ts us : List Bytes)
    → LeafCollision sha256 ts us
    → LeafCollision sha256 (t ∷ ts) (u ∷ us)
LeafCollision-cons sha256 t u ts us c = record {
  left_text = c.left_text;
  right_text = c.right_text;
  in_left = inr c.in_left;
  in_right = inr c.in_right;
  different = c.different;
  same_hash = c.same_hash;
}

-- A collision between what two roots of leaf texts hash, as leaves or as nodes.
abbrev pub RootCollision : (Bytes → Bytes) → List Bytes → List Bytes → Type 0
RootCollision sha256 ts us =
    LeafCollision sha256 ts us
    ⊎ NodeCollision sha256 (map (λ t. sha256 (0 ∷ t)) ts) (map (λ t. sha256 (0 ∷ t)) us)

module _ (sha256 : Bytes → Bytes) (hash : IsHash sha256) where
  Digests-leaves : (ts : List Bytes) → Digests (map (λ t. sha256 (0 ∷ t)) ts)
  Digests-leaves [] = tt
  Digests-leaves (t ∷ ts) = (hash.sized (0 ∷ t), Digests-leaves ts)

  -- The root is a digest, and so made of bytes.
  AreBytes-root :
      (t : Bytes) (ts : List Bytes)
      → AreBytes (merkle_root sha256 (map (λ u. sha256 (0 ∷ u)) (t ∷ ts)))
  unfolding merkle_root hash_node
  AreBytes-root t [] = hash.bytes (0 ∷ t)
  AreBytes-root t (u ∷ ts) =
      let e = merkle_root-split sha256 (map (λ v. sha256 (0 ∷ v)) (t ∷ u ∷ ts)) (omega arith) in
      subst AreBytes (sym e) (hash.bytes _)

  leaves_bind :
      (ts us : List Bytes)
      → map (λ t. sha256 (0 ∷ t)) ts ≡ map (λ t. sha256 (0 ∷ t)) us
      → (ts ≡ us) ⊎ LeafCollision sha256 ts us
  leaves_bind [] [] e = inl refl
  leaves_bind [] (u ∷ us) e = cc
  leaves_bind (t ∷ ts) [] e = cc
  leaves_bind (t ∷ ts) (u ∷ us) e =
      let here : sha256 (0 ∷ t) ≡ sha256 (0 ∷ u) = cc e in
      let there : map (λ v. sha256 (0 ∷ v)) ts ≡ map (λ v. sha256 (0 ∷ v)) us = cc e in
      elim (List-discrete ℕ_discrete t u) [
        | no n ↦ inr (record {
          left_text = t;
          right_text = u;
          in_left = inl refl;
          in_right = inl refl;
          different = n;
          same_hash = here;
        })
        | yes p ↦ elim (leaves_bind ts us there) [
          | inl q ↦ inl (cc (p, q))
          | inr c ↦ inr (LeafCollision-cons sha256 t u ts us c)
        ]
      ]

  roots_bind :
      (canonical_json : Json → Bytes) (pvh : String) (ts us : List Bytes)
      → length ts ≡ length us
      → root_of_leaves sha256 canonical_json pvh (map (λ t. sha256 (0 ∷ t)) ts)
        ≡ root_of_leaves sha256 canonical_json pvh (map (λ t. sha256 (0 ∷ t)) us)
      → (ts ≡ us) ⊎ RootCollision sha256 ts us
  roots_bind cj pvh [] [] n e = inl refl
  roots_bind cj pvh [] (u ∷ us) n e = absurd (omega (arith, n))
  roots_bind cj pvh (t ∷ ts) [] n e = absurd (omega (arith, n))
  roots_bind cj pvh (t ∷ ts) (u ∷ us) n e =
      let roots =
        to_hex_inj _ _ (AreBytes-root t ts) (AreBytes-root u us)
          (append_cancel_left "sha256:" _ _ e) in
      let same =
        length-map (λ v. sha256 (0 ∷ v)) (t ∷ ts)
        ∙ n
        ∙ sym (length-map (λ v. sha256 (0 ∷ v)) (u ∷ us)) in
      elim (merkle_root-binds_texts sha256 hash.sized _ _ same (Digests-leaves (t ∷ ts))
        (Digests-leaves (u ∷ us)) roots) [
          | inl q ↦ elim (leaves_bind (t ∷ ts) (u ∷ us) q) [ inl r ↦ inl r | inr c ↦ inr (inl c) ]
          | inr c ↦ inr (inr c)
        ]

-- Two lists of as many disclosed records with one scope root have, in order, the same leaf texts, or two
-- different texts have one hash that are hashed for the two roots, as leaves or as nodes.
pub scope_root-binds :
    (sha256 : Bytes → Bytes) (canonical_json : Json → Bytes) (predicate_value_hash : String)
    (xs ys : List Evidence)
    → IsHash sha256
    → length xs ≡ length ys
    → scope_merkle_root sha256 canonical_json predicate_value_hash xs
      ≡ scope_merkle_root sha256 canonical_json predicate_value_hash ys
    → (map (leaf_text sha256 canonical_json predicate_value_hash) (sorted xs)
        ≡ map (leaf_text sha256 canonical_json predicate_value_hash) (sorted ys))
      ⊎ RootCollision sha256
          (map (leaf_text sha256 canonical_json predicate_value_hash) (sorted xs))
          (map (leaf_text sha256 canonical_json predicate_value_hash) (sorted ys))
unfolding scope_merkle_root
scope_root-binds sha256 cj pvh xs ys hash n e =
    roots_bind sha256 hash cj pvh (map (leaf_text sha256 cj pvh) (sorted xs))
      (map (leaf_text sha256 cj pvh) (sorted ys))
      (length-map _ (sorted xs)
        ∙ length-sorted xs
        ∙ n
        ∙ sym (length-sorted ys)
        ∙ sym (length-map _ (sorted ys)))
      e

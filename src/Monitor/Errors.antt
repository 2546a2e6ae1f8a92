-- ===== src/Monitor/Errors.antt =====
-- What the parts of a verdict without errors say.
use text.Mathlib.TextEquality.{eq_iff}
use keel_verifier.Base.{
  ℕ, String, ◌≡◌, ◌≤◌, refl, List, [], ◌∷◌, ◌++◌, inl, inr, arith, length, Bool, true, false,
  Option, none, some, Bool-cases, take, pos, ltb, not,
}
use keel_verifier.Json.{Json, null, int, str, obj, Fields, get, as_list, eq_str-eq}
use keel_verifier.Hex.{Bytes}
use keel_verifier.Monitor.{
  Parsed, ok, raised, note, Verdict, merkle_root_from_leaf_hashes, window_of, or_zero, counted,
  or_no_leaves, is_none, window_roots, pair_roots, root_errors, pin_errors, pinned_errors,
  pin_root_errors, pin_root_hash, pin_tree_size, verify_proof,
}

append-eq-nil {ℓ} : {A : Type ℓ} (xs ys : List A) → xs ++ ys ≡ [] → (xs ≡ []) × (ys ≡ [])
append-eq-nil [] ys e = (refl, e)
append-eq-nil (x ∷ xs) ys e = cc

note-eq-nil {ℓ} : {E : Type ℓ} (b : Bool) (x : E) → note b x ≡ [] → b ≡ false
note-eq-nil true x e = cc
note-eq-nil false x e = refl

-- The parts of an error list that are empty in an accepted run.
module _ (sha256 : Bytes → Bytes) (surface proof : Fields) (pin : Option Fields) (rekor : Bool)
    (window : Option (ℕ × ℕ)) (listed : Option (List Json)) where
  abbrev result : Verdict
  result = verify_proof sha256 surface proof pin rekor window listed

  pub quiet_proof :
      result.errors ≡ []
      → (is_none window ≡ false)
        × (is_none listed ≡ false)
        × (root_errors sha256
              (window_roots sha256 (or_zero window).0 (or_zero window).1 (or_no_leaves listed))
              proof
            ≡ [])
        × (pin_errors sha256 pin (or_zero window).1 (or_no_leaves listed) ≡ [])
  unfolding verify_proof
  quiet_proof e =
      let r1 = append-eq-nil _ _ e in
      let r2 = append-eq-nil _ _ r1.1 in
      let r3 = append-eq-nil _ _ r2.1 in
      let r4 = append-eq-nil _ _ r3.1 in
      let r5 = append-eq-nil _ _ r4.1 in
      let r6 = append-eq-nil _ _ r5.1 in (note-eq-nil _ _ r2.0, note-eq-nil _ _ r3.0, r4.0, r6.0)

not-false : (b : Bool) → not b ≡ false → b ≡ true
not-false true h = refl
not-false false h = cc

module _ (sha256 : Bytes → Bytes) where
  pub root_errors-eq-nil :
      (roots : Parsed (String × String)) (proof : Fields)
      → root_errors sha256 roots proof ≡ []
      → (a : String) × (b : String) × (roots ≡ ok (a, b))
        × (get proof "from_root_hash" ≡ str a)
        × (get proof "to_root_hash" ≡ str b)
  root_errors-eq-nil (raised e) proof h = cc
  root_errors-eq-nil (ok (a, b)) proof h =
      let parts = append-eq-nil _ _ h in
      (
        a,
        b,
        refl,
        eq_str-eq _ _ (not-false _ (note-eq-nil _ _ parts.0)),
        eq_str-eq _ _ (not-false _ (note-eq-nil _ _ parts.1)),
      )

  pub pair_roots-eq-ok :
      (p q : Parsed String) (a b : String)
      → pair_roots sha256 p q ≡ ok (a, b)
      → (p ≡ ok a) × (q ≡ ok b)
  pair_roots-eq-ok (ok a') (ok b') a b e = (cc, cc)
  pair_roots-eq-ok (ok a') (raised f) a b e = cc
  pair_roots-eq-ok (raised f) q a b e = cc

pub window_of-eq-some : (a b : Json) (w : ℕ × ℕ) → window_of a b ≡ some w → w.0 ≤ w.1
window_of-eq-some (int (pos m)) (int (pos n)) w e = ground arith
window_of-eq-some null b w e = cc
window_of-eq-some _ b w e = cc

pub counted-eq-some :
    (n : ℕ) (o : Option (List Json)) (xs : List Json)
    → counted n o ≡ some xs
    → (o ≡ some xs) × (length xs ≡ n)
counted-eq-some n none xs e = cc
counted-eq-some n (some ys) xs e = ground arith

-- The list of leaf hashes that the proof of a surface carries.
abbrev proof_leaves : Json → Option (List Json)
proof_leaves (obj proof) = as_list (get proof "leaf_hashes")
proof_leaves _ = none

abbrev pub leaves_of : Fields → Option (List Json)
leaves_of surface = proof_leaves (get surface "proof")

-- A pin is kept when its size is reached and its root is that of the leaves up to its size.
abbrev pub KeepsPin : (Bytes → Bytes) → Option Fields → ℕ → List Json → Type 0
KeepsPin sha256 none n leaves = Unit
KeepsPin sha256 (some pin) n leaves =
    (t : String) × (k : ℕ) × (pin_root_hash pin ≡ some t)
    × (pin_tree_size pin ≡ some k)
    × (k ≤ n)
    × (merkle_root_from_leaf_hashes sha256 (take k leaves) ≡ ok t)

-- What holds of a surface and of the verdict on it, when the verdict has no error.
pub record IsConsistent (sha256 : Bytes → Bytes) (surface : Fields) (pin : Option Fields)
    (v : Verdict) : Type 0 where
  pub proof : Fields
  pub has_proof : get surface "proof" ≡ obj proof
  pub leaves : List Json
  pub has_leaves : leaves_of surface ≡ some leaves
  pub all_counted : length leaves ≡ v.to_size
  pub ordered : v.from_size ≤ v.to_size
  pub from_text : String
  pub to_text : String
  pub from_recomputed : merkle_root_from_leaf_hashes sha256 (take v.from_size leaves) ≡ ok from_text
  pub to_recomputed : merkle_root_from_leaf_hashes sha256 leaves ≡ ok to_text
  pub from_claimed : get proof "from_root_hash" ≡ str from_text
  pub to_claimed : get proof "to_root_hash" ≡ str to_text
  pub to_reported : v.to_root_hash ≡ some to_text
  pub keeps_pin : KeepsPin sha256 pin v.to_size leaves

module _ (sha256 : Bytes → Bytes) where
  pin_root_errors-eq-nil :
      (p : Parsed String) (t : String) → pin_root_errors sha256 p t ≡ [] → p ≡ ok t
  pin_root_errors-eq-nil (raised f) t e = cc
  pin_root_errors-eq-nil (ok r) t e = cc ((eq_iff r t).0 (not-false _ (note-eq-nil _ _ e)))

  pinned_errors-eq-nil :
      (root : Option String) (size : Option ℕ) (n : ℕ) (leaves : List Json)
      → pinned_errors sha256 root size n leaves ≡ []
      → (t : String) × (k : ℕ) × (root ≡ some t)
        × (size ≡ some k)
        × (k ≤ n)
        × (merkle_root_from_leaf_hashes sha256 (take k leaves) ≡ ok t)
  pinned_errors-eq-nil none size n leaves e = cc
  pinned_errors-eq-nil (some t) none n leaves e = cc
  pinned_errors-eq-nil (some t) (some k) n leaves e = elim (Bool-cases (ltb n k)) [
    | inl below ↦ cc (rw below at e)
    | inr reached ↦ (t, k, refl, refl, ground arith, pin_root_errors-eq-nil _ t (rw reached at e))
  ]

  pub pin_errors-KeepsPin :
      (pin : Option Fields) (n : ℕ) (leaves : List Json)
      → pin_errors sha256 pin n leaves ≡ []
      → KeepsPin sha256 pin n leaves
  pin_errors-KeepsPin none n leaves e = tt
  pin_errors-KeepsPin (some pin) n leaves e = pinned_errors-eq-nil _ _ n leaves e

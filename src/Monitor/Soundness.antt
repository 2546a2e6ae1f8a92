-- ===== src/Monitor/Soundness.antt =====
-- What an accepted surface establishes.
use keel_verifier.Base.{
  ℕ, ◌≡◌, ◌≤◌, refl, List, [], arith, length, Bool, Option, none, some, take_all,
}
use keel_verifier.Json.{Json, null, obj, Fields, get, as_list}
use keel_verifier.Hex.{Bytes}
use keel_verifier.Monitor.{
  window_of, or_zero, counted, window_roots, root_errors, verify_proof, verify_surface,
  verify_consistency_surface,
}
use keel_verifier.Monitor.Errors.{
  quiet_proof, root_errors-eq-nil, pair_roots-eq-ok, pin_errors-KeepsPin, window_of-eq-some,
  counted-eq-some, KeepsPin, IsConsistent,
}

module _ (sha256 : Bytes → Bytes) (surface : Fields) (pin : Option Fields) (rekor : Bool) where
  IsConsistent-verify_proof :
      (proof : Fields) (m n : ℕ) (leaves : List Json)
      → get surface "proof" ≡ obj proof
      → m ≤ n
      → as_list (get proof "leaf_hashes") ≡ some leaves
      → length leaves ≡ n
      → root_errors sha256 (window_roots sha256 m n leaves) proof ≡ []
      → KeepsPin sha256 pin n leaves
      → IsConsistent sha256 surface pin
          (verify_proof sha256 surface proof pin rekor (some (m, n)) (some leaves))
  unfolding verify_proof
  IsConsistent-verify_proof proof m n leaves p o l c e keeps =
      let (a, b, r, f, t) = root_errors-eq-nil sha256 _ proof e in
      let parts = pair_roots-eq-ok sha256 _ _ a b r in
      record {
        proof = proof;
        has_proof = p;
        leaves = leaves;
        has_leaves = rw p l;
        all_counted = c;
        ordered = o;
        from_text = a;
        to_text = b;
        from_recomputed = parts.0;
        to_recomputed = rw (take_all n leaves (omega arith)) at parts.1;
        from_claimed = f;
        to_claimed = t;
        to_reported = rw r;
        keeps_pin = keeps;
      }

  settled :
      (proof : Fields) (window : Option (ℕ × ℕ)) (listed : Option (List Json))
      → get surface "proof" ≡ obj proof
      → window_of (get proof "from_size") (get proof "to_size") ≡ window
      → counted (or_zero window).1 (as_list (get proof "leaf_hashes")) ≡ listed
      → (verify_proof sha256 surface proof pin rekor window listed).errors ≡ []
      → IsConsistent sha256 surface pin (verify_proof sha256 surface proof pin rekor window listed)
  settled proof none listed p w l e = cc ((quiet_proof sha256 surface proof pin rekor _ _ e).0)
  settled proof (some (m, n)) none p w l e =
      cc ((quiet_proof sha256 surface proof pin rekor _ _ e).1)
  settled proof (some (m, n)) (some leaves) p w l e =
      let quiet = quiet_proof sha256 surface proof pin rekor (some (m, n)) (some leaves) e in
      let c = counted-eq-some n _ leaves l in
      IsConsistent-verify_proof proof m n leaves p
        (window_of-eq-some (get proof "from_size") (get proof "to_size") (m, n) w) c.0 c.1 quiet.2
        (pin_errors-KeepsPin sha256 pin n leaves quiet.3)

  by_proof :
      (j : Json)
      → get surface "proof" ≡ j
      → (verify_surface sha256 surface pin rekor j).errors ≡ []
      → IsConsistent sha256 surface pin (verify_surface sha256 surface pin rekor j)
  by_proof (obj proof) p e = settled proof _ _ p refl refl e
  by_proof null p e = cc
  by_proof _ p e = cc

  -- A surface that is accepted carries as many leaf hashes as its `to_size`, the roots of its proof
  -- are those recomputed from its leaves, and the customer's pin is the root of its first leaves.
  pub accepted-IsConsistent :
      (verify_consistency_surface sha256 surface pin rekor).errors ≡ []
      → IsConsistent sha256 surface pin (verify_consistency_surface sha256 surface pin rekor)
  unfolding verify_consistency_surface
  accepted-IsConsistent e = by_proof (get surface "proof") refl e

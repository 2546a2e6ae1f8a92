-- ===== src/Authority/Chain/Depth.antt =====
-- The remaining depth of the root bounds how long a supported chain is.
use keel_verifier.Base.{
  ℕ, suc, ◌≤◌, ◌<◌, String, ◌≡◌, true, Option, none, some, List, [], ◌∷◌, Each, length, pos, ltb,
  arith,
}
use keel_verifier.Json.{Json, int, Fields, get}
use keel_verifier.Authority.Values.{gt}
use keel_verifier.Authority.Outcome.{supported}
use keel_verifier.Authority.Library.{Library}
use keel_verifier.Authority.Keys.{authority_key_records}
use keel_verifier.Authority.Edges.{Edge, chain_edges_in_order}
use keel_verifier.Authority.Chain.{adjudicate_permit_authority_chain_v1}
use keel_verifier.Authority.Chain.Payload.{index2}
use keel_verifier.Authority.Chain.Spec.{IsNarrower, Links, link}
use keel_verifier.Authority.Chain.Laws.{adjudicate-IsAuthorised}

abbrev pub depth_of : Edge → Option Json
depth_of edge = index2 edge.payload "creation_policy" "remaining_depth"

-- The edge states its remaining depth as a natural number.
abbrev pub IsCounted : Edge → Type 0
IsCounted edge = (n : ℕ) × (depth_of edge ≡ some (int (pos n)))

gt-pos : (n m : ℕ) → gt (int (pos n)) (int (pos m)) ≡ some true → m < n
unfolding gt
gt-pos n m h = let less : ltb m n ≡ true = cc in ground arith

module _ (library : Library) where
  less_depth :
      (previous edge : Edge) (n m : ℕ)
      → IsNarrower library previous edge
      → depth_of previous ≡ some (int (pos n))
      → depth_of edge ≡ some (int (pos m))
      → m < n
  less_depth previous edge n m w p e =
      let mine : some w.less.depth ≡ some (int (pos m)) = cc (w.less.has_depth, e) in
      let theirs : some w.less.parent_depth ≡ some (int (pos n)) =
        cc (w.less.has_parent_depth, p) in
      let a : w.less.depth ≡ int (pos m) = cc mine in
      let b : w.less.parent_depth ≡ int (pos n) = cc theirs in
      gt-pos n m (rw (a, b) at w.less.deeper)

  length-Links :
      (seen : List Json) (previous : Option Edge) (edge : Edge) (edges : List Edge) (n : ℕ)
      → Links library seen previous (edge ∷ edges)
      → depth_of edge ≡ some (int (pos n))
      → Each IsCounted edges
      → length (edge ∷ edges) ≤ suc n
  length-Links seen previous edge [] n links e c = omega arith
  length-Links seen previous edge (next ∷ edges) n (link f new (link w m rest)) e ((k, d), c) =
      let less = less_depth edge next n k w e d in
      let others =
        length-Links (get new.delegate "principal_id" ∷ seen) (some edge) next edges k
          (link w m rest) d c in
      omega (arith, less, others)

-- When the edges of a supported chain state their remaining depths as natural numbers, it has at most
-- one edge more than the remaining depth of its root.
pub chain_length_bound :
    (library : Library) (load : String → Option (List Fields)) (input_doc : Fields)
    (key_manifest_source : Option String) (trust_root : Option Fields) (root : Edge)
    (edges : List Edge) (n : ℕ)
    → adjudicate_permit_authority_chain_v1 library load input_doc key_manifest_source trust_root
      ≡ supported
    → chain_edges_in_order (authority_key_records load trust_root key_manifest_source) input_doc
      ≡ some (root ∷ edges)
    → depth_of root ≡ some (int (pos n))
    → Each IsCounted edges
    → length (root ∷ edges) ≤ suc n
chain_length_bound library load input_doc source trust root edges n h o d c =
    let a = adjudicate-IsAuthorised library load input_doc source trust h in
    let both : some (a.root ∷ a.edges) ≡ some (root ∷ edges) = cc (a.in_order, o) in
    let same : (a.root ∷ a.edges) ≡ (root ∷ edges) = cc both in
    let links : Links library a.seen none (root ∷ edges) = rw (← same) a.links in
    length-Links library a.seen none root edges n links d c

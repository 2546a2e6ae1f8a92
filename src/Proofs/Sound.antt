-- ===== src/Proofs/Sound.antt =====
-- What five supported claims on a pack say together: they are about one chain.
use keel_verifier.Base.{String, ◌≡◌, refl, Option, none, some, List, ◌∷◌, Each}
use keel_verifier.Json.{Json, arr, str, nil, cons, Fields}
use keel_verifier.Authority.Verbs.{canonical_action_verb}
use keel_verifier.Authority.Outcome.{supported}
use keel_verifier.Authority.Library.{Library}
use keel_verifier.Authority.Keys.{authority_key_records}
use keel_verifier.Authority.Edges.{Edge, chain_edges_in_order}
use keel_verifier.Authority.Temporal.{IsUntainted, temporal_iff}
use keel_verifier.Authority.Chain.Scope.{Asks, Grants, requested_of_every_edge}
use keel_verifier.Authority.Revocation.Verdict.{EachHarmless, edge_revocation-EachHarmless}
use keel_verifier.Authority.Root.Standing.{
  IsStanding, IsEnabled, root_status_v1-IsStanding, root_status_v2-IsEnabled,
}
use keel_verifier.Proofs.Allow.{AllowClaims, claims_on, claims_if, pack_document, allow_pack_claims}

pub record AllSupported (claims : AllowClaims) : Type 0 where
  pub chain : claims.chain ≡ supported
  pub revocation_temporal : claims.revocation_temporal ≡ supported
  pub root_v1 : claims.root_v1 ≡ supported
  pub root_v2 : claims.root_v2 ≡ supported
  pub edge_revocation : claims.edge_revocation ≡ supported

module _ (library : Library) (load : String → Option (List Fields)) (trusted source : Option String)
    (trust_root : Option Fields) where
  -- The document's chain: its edges, and the requested action.
  pub record IsSound (document : Fields) : Type 0 where
    pub edges : List Edge
    pub in_order :
        chain_edges_in_order (authority_key_records load trust_root source) document ≡ some edges
    pub raw : String
    pub classes : Json
    pub requested : Asks library.lower document raw classes
    pub granted :
        Each
          (Grants library.lower
            (arr (cons (str (canonical_action_verb library.lower raw)) nil))
            classes)
          edges
    pub untainted : Each (IsUntainted library.fromisoformat) edges
    pub standing : IsStanding library load trusted source trust_root document
    pub enabled : IsEnabled library load trusted source trust_root document
    pub unrevoked : EachHarmless library load trusted document source trust_root

  claims_on-IsSound :
      (document : Fields)
      → AllSupported (claims_on library load trusted source trust_root document)
      → IsSound document
  claims_on-IsSound document a =
      let (raw, classes, edges, requested, in_order, granted) =
        requested_of_every_edge library load document source trust_root a.chain in
      let (edge, more, same, clean) =
        (temporal_iff library load document source trust_root).0 a.revocation_temporal in
      let both : some (edge ∷ more) ≡ some edges = cc (same, in_order) in
      let one : (edge ∷ more) ≡ edges = cc both in
      record {
        edges = edges;
        in_order = in_order;
        raw = raw;
        requested = requested;
        classes = classes;
        granted = granted;
        untainted = rw (← one) clean;
        standing =
            root_status_v1-IsStanding library load trusted source trust_root document a.root_v1;
        enabled =
            root_status_v2-IsEnabled library load trusted source trust_root document a.root_v2;
        unrevoked =
            edge_revocation-EachHarmless library load trusted document source trust_root
              a.edge_revocation;
      }

-- When the five claims on an allowed pack are supported, they hold of one document: every edge of its
-- chain grants the canonical verb of the requested action and the classes that the document maps it to,
-- and was signed before its key was revoked or compromised; no edge status event of the document
-- revokes an edge by the resolution, and the root has a latest status that does not suspend it and no
-- disabling in the document.
pub allow_pack-IsSound :
    (library : Library) (load : String → Option (List Fields)) (trusted source : Option String)
    (trust_root : Option Fields) (pack : Fields) (action_class_map : Option Fields)
    (claims : AllowClaims)
    → allow_pack_claims library load trusted source trust_root pack action_class_map ≡ some claims
    → AllSupported claims
    → (document : Fields) × (pack_document pack action_class_map ≡ some document)
      × IsSound library load trusted source trust_root document
unfolding allow_pack_claims
allow_pack-IsSound library load trusted source root pack map claims h a =
    by_document (pack_document pack map) refl h
  where
    by_document :
        (o : Option Fields)
        → pack_document pack map ≡ o
        → claims_if library load trusted source root o ≡ some claims
        → (document : Fields) × (pack_document pack map ≡ some document)
          × IsSound library load trusted source root document
    by_document none e k = cc
    by_document (some document) e k =
        let same : claims_on library load trusted source root document ≡ claims = cc k in
        let all : AllSupported (claims_on library load trusted source root document) = rw same a in
        (document, e, claims_on-IsSound library load trusted source root document all)

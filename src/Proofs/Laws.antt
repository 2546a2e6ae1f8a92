-- ===== src/Proofs/Laws.antt =====
-- What a supported refusal shows of its pack.
use keel_verifier.Base.{
  String, ◌≡◌, refl, Bool, true, false, Option, none, some, List, [], ◌∷◌, Each, map, all,
  Bool-cases, inl, inr, str_eq, if◌then◌else◌,
}
use text.Mathlib.TextEquality.{eq_iff}
use keel_verifier.Json.{Json, Fields, get}
use keel_verifier.Authority.Values.{has_hash}
use keel_verifier.Authority.Outcome.{Outcome, supported, raised, refused}
use keel_verifier.Authority.Library.{Library}
use keel_verifier.Authority.Keys.{authority_key_records}
use keel_verifier.Authority.Revocation.{
  RevocationCode, edge_revoked_at_or_before_resolution, status_evidence_missing,
}
use keel_verifier.Authority.Revocation.Verdict.{SomeRevokes, edge_revocation-SomeRevokes}
use keel_verifier.Proofs.{iterate, dicts_of, signed_edge_status_events}
use keel_verifier.Proofs.Recorded.{Failure}
use keel_verifier.Proofs.Denial.{
  ChainResult, explained, judged, all_explained, hashable_digests, edges_with, chain_document,
  is_refusal, explain, after_checks, judge_edges, judge_digests, judge_chain, judge_chains,
  judge_pack, judge_signed, canonical_payload, by_verdict, denial_pack_claims, pack_raises,
}
use keel_verifier.Proofs.Overall.{IsExplainedResult, conclude-explained}
use keel_verifier.Proofs.Chains.{
  IsRecorded, IsAnchored, Reaches, edge_failure-IsRecorded, contiguity_failure-Reaches,
}

module _ (library : Library) (load : String → Option (List Fields)) (trusted : Option String)
    (source : Option String) (trust_root : Option Fields) where
  -- The pack has the edges of a recorded chain: they are signed, they lead from a root to the refused
  -- subject, and one of them was revoked by the time the permit was issued.
  pub record IsExplained (signed : Fields) (events supplied : List Fields) (chain : Fields)
      : Type 0 where
    pub digests : List Json
    pub names : iterate (get chain "chain_edge_digests") ≡ some digests
    pub edge : Fields
    pub edges : List Fields
    pub found : edges_with supplied digests ≡ some (edge ∷ edges)
    pub recorded :
        Each (IsRecorded library (authority_key_records load trust_root source)) (edge ∷ edges)
    pub anchored : IsAnchored edge
    pub reaches : Reaches (get signed "subject_id") edge edges
    pub revoked :
        SomeRevokes library load trusted
          (chain_document digests (edge ∷ edges) (get signed "issued_at") events)
          source
          trust_root

  explain-explained :
      (o : Outcome RevocationCode)
      → explain o ≡ explained
      → o ≡ refused edge_revoked_at_or_before_resolution
  explain-explained (refused edge_revoked_at_or_before_resolution) h = refl
  explain-explained (refused status_evidence_missing) h = cc
  explain-explained supported h = cc
  explain-explained raised h = cc

  after_checks-explained :
      (o : Outcome Failure) (next : ChainResult)
      → after_checks o next ≡ explained
      → (o ≡ supported) × (next ≡ explained)
  after_checks-explained supported next h = (refl, h)
  after_checks-explained raised next h = cc
  after_checks-explained (refused f) next h = cc

  module _ (signed : Fields) (events supplied : List Fields) where
    judge_edges-IsExplained :
        (chain : Fields) (digests : List Json) (o : Option (List Fields))
        → iterate (get chain "chain_edge_digests") ≡ some digests
        → edges_with supplied digests ≡ o
        → judge_edges library load trusted source trust_root signed events digests o ≡ explained
        → IsExplained signed events supplied chain
    judge_edges-IsExplained chain digests none n f h = cc
    judge_edges-IsExplained chain digests (some []) n f h = cc
    judge_edges-IsExplained chain digests (some (edge ∷ edges)) n f h =
        let (checks, last) = after_checks-explained _ _ h in
        let (recorded, rest) =
          edge_failure-IsRecorded library (authority_key_records load trust_root source)
            (edge ∷ edges) _ checks in
        let (anchored, reaches) =
          contiguity_failure-Reaches (get signed "subject_id") edge edges rest in
        record {
          digests = digests;
          names = n;
          edge = edge;
          edges = edges;
          found = f;
          recorded = recorded;
          anchored = anchored;
          reaches = reaches;
          revoked =
              edge_revocation-SomeRevokes library load trusted _ source trust_root
                (explain-explained _ last);
        }

    judge_chain-IsExplained :
        (chain : Fields)
        → judge_chain library load trusted source trust_root signed events supplied chain
          ≡ explained
        → IsExplained signed events supplied chain
    unfolding judge_chain
    judge_chain-IsExplained chain h = by_digests (iterate (get chain "chain_edge_digests")) refl h
      where
        by_digests :
            (o : Option (List Json))
            → iterate (get chain "chain_edge_digests") ≡ o
            → judge_digests library load trusted source trust_root signed events supplied o
              ≡ explained
            → IsExplained signed events supplied chain
        by_digests none e k = cc
        by_digests (some digests) e k = elim (Bool-cases (all has_hash digests)) [
          | inl t ↦ judge_edges-IsExplained chain digests _ e refl (rw t at k)
          | inr t ↦ cc (rw t at k)
        ]

    IsExplained-chains :
        (chains : List Fields)
        → Each IsExplainedResult
            (map (judge_chain library load trusted source trust_root signed events supplied) chains)
        → Each (IsExplained signed events supplied) chains
    IsExplained-chains [] e = tt
    IsExplained-chains (chain ∷ chains) e =
        (judge_chain-IsExplained chain e.0, IsExplained-chains chains e.1)

  -- The signed payload of a pack is a refusal of an agent that has recorded chains, each explained.
  pub record IsRefusal (pack : Fields) : Type 0 where
    pub signed : Fields
    pub has_signed : canonical_payload library load trusted source trust_root pack ≡ some signed
    pub refusal : is_refusal signed ≡ true
    pub supplied : List Json
    pub has_supplied : iterate (get pack "authority_edges") ≡ some supplied
    pub events : List Fields
    pub has_events : signed_edge_status_events pack ≡ some events
    pub recorded : List Json
    pub has_recorded : iterate (get pack "recorded_chains") ≡ some recorded
    pub chain : Fields
    pub chains : List Fields
    pub are_chains : dicts_of recorded ≡ chain ∷ chains
    pub each : Each (IsExplained signed events (dicts_of supplied)) (chain ∷ chains)

  judge_pack-IsRefusal :
      (pack signed : Fields) (s : Option (List Json)) (e : Option (List Fields))
      (c : Option (List Json)) (rs : List ChainResult)
      → canonical_payload library load trusted source trust_root pack ≡ some signed
      → is_refusal signed ≡ true
      → iterate (get pack "authority_edges") ≡ s
      → signed_edge_status_events pack ≡ e
      → iterate (get pack "recorded_chains") ≡ c
      → judge_pack library load trusted source trust_root signed s e c ≡ judged all_explained rs
      → IsRefusal pack
  judge_pack-IsRefusal pack signed none e c rs p r i j k h = cc
  judge_pack-IsRefusal pack signed (some s) none c rs p r i j k h = cc
  judge_pack-IsRefusal pack signed (some s) (some e) none rs p r i j k h = cc
  judge_pack-IsRefusal pack signed (some s) (some e) (some c) rs p r i j k h =
      by_hash (hashable_digests (dicts_of s)) (dicts_of c) refl h
    where
      by_hash :
          (b : Bool) (chains : List Fields)
          → dicts_of c ≡ chains
          → (if b
              then judge_chains library load trusted source trust_root signed e (dicts_of s) chains
              else pack_raises)
            ≡ judged all_explained rs
          → IsRefusal pack
      by_hash false chains d q = cc
      by_hash true [] d q = cc
      by_hash true (chain ∷ chains) d q = record {
        signed = signed;
        has_signed = p;
        refusal = r;
        supplied = s;
        has_supplied = i;
        events = e;
        has_events = j;
        recorded = c;
        has_recorded = k;
        chain = chain;
        chains = chains;
        are_chains = d;
        each =
            IsExplained-chains signed e (dicts_of s) (chain ∷ chains)
              (conclude-explained
                (map (judge_chain library load trusted source trust_root signed e (dicts_of s))
                  (chain ∷ chains))
                rs q).0;
      }

  judge_signed-IsRefusal :
      (pack : Fields) (o : Option Fields) (rs : List ChainResult)
      → canonical_payload library load trusted source trust_root pack ≡ o
      → judge_signed library load trusted source trust_root pack o ≡ judged all_explained rs
      → IsRefusal pack
  judge_signed-IsRefusal pack none rs e h = cc
  judge_signed-IsRefusal pack (some signed) rs e h = elim (Bool-cases (is_refusal signed)) [
    | inl r ↦ judge_pack-IsRefusal pack signed _ _ _ rs e r refl refl refl (rw r at h)
    | inr r ↦ cc (rw r at h)
  ]

  by_verdict-IsRefusal :
      (pack : Fields) (o : Option String) (rs : List ChainResult)
      → by_verdict library load trusted source trust_root pack o ≡ judged all_explained rs
      → (o ≡ some "supported") × IsRefusal pack
  by_verdict-IsRefusal pack none rs h = cc
  by_verdict-IsRefusal pack (some v) rs h = elim (Bool-cases (str_eq v "supported")) [
    | inl e ↦ (cc ((eq_iff v "supported").0 e), judge_signed-IsRefusal pack _ rs refl (rw e at h))
    | inr e ↦ cc (rw e at h)
  ]

-- A refusal is supported only when the check of the permit's decision supports it, its signed payload
-- refuses an agent for an authority chain, and the pack has recorded chains, each of which is signed,
-- leads from a root to the refused subject, and has an edge revoked by the time of the refusal.
pub denial-IsRefusal :
    (library : Library) (load : String → Option (List Fields)) (trusted source : Option String)
    (trust_root : Option Fields) (decide : Json → Option String → Option String) (pack : Fields)
    (rs : List ChainResult)
    → denial_pack_claims library load trusted source trust_root decide pack
      ≡ judged all_explained rs
    → (decide (get pack "permit_decision") source ≡ some "supported")
      × IsRefusal library load trusted source trust_root pack
unfolding denial_pack_claims
denial-IsRefusal library load trusted source root decide pack rs =
    by_verdict-IsRefusal library load trusted source root pack _ rs

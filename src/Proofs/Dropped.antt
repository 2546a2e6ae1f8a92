-- ===== src/Proofs/Dropped.antt =====
-- The events of a pack that disable a root do not reach the claim that looks for them.
use keel_verifier.Base.{
  ℕ, String, ◌≡◌, ◌≢◌, ◌∙◌, ap, refl, false, Option, none, some, List, [], ◌∷◌, Bool-cases, inl,
  inr,
}
use keel_verifier.Json.{Fields, get, eq_str}
use keel_verifier.Trust.Window.{parse_iso_or_none}
use keel_verifier.Authority.Outcome.{Outcome, refused}
use keel_verifier.Authority.Library.{Library}
use keel_verifier.Authority.Keys.{authority_key_records}
use keel_verifier.Authority.Edges.{Edge, chain_edges_in_order}
use keel_verifier.Authority.Signer.{Judged, missing, unrelated, raises, effective}
use keel_verifier.Authority.Revocation.Events.{iter_export_entries}
use keel_verifier.Authority.Root.{
  RootCode, root_disabled_at_resolution, Root, root_of, by_status, conclude_v2, after_status,
  judge_statuses, judge_disables, judge_v2, with_root, with_chain,
  adjudicate_authority_root_status_temporal_v2,
}
use keel_verifier.Authority.Root.Events.{root_status_events, root_status_v2_events}
use keel_verifier.Proofs.{pack_claim}
use keel_verifier.Proofs.Allow.{
  AllowClaims, allow_document, from_inputs, from_claim, claim_or_empty, pack_document, claims_on,
  claims_if, allow_pack_claims,
}

-- The outcome is not that the root was disabled.
abbrev NotDisabled : Outcome RootCode → Type 0
NotDisabled o = o ≢ refused root_disabled_at_resolution

by_status-NotDisabled : (event : Fields) → NotDisabled (by_status event)
by_status-NotDisabled event h = elim (Bool-cases (eq_str (get event "status") "suspended")) [
  | inl e ↦ cc (rw e at h)
  | inr e ↦ cc (rw e at h)
]

conclude_v2-NotDisabled :
    (latest : Option (ℕ × Fields)) → NotDisabled (conclude_v2 latest false false)
conclude_v2-NotDisabled none h = cc
conclude_v2-NotDisabled (some (t, event)) h = by_status-NotDisabled event h

-- No event of the second version is found in the document that is made of a pack.
allow_document-no_disables :
    (pack : Fields) (map : Option Fields) (claim inputs : Fields) (edge_events events : List Fields)
    → root_status_v2_events (allow_document pack map claim inputs edge_events events) ≡ some []
unfolding root_status_v2_events iter_export_entries
allow_document-no_disables pack none claim inputs edge_events events = refl
allow_document-no_disables pack (some map) claim inputs edge_events events = refl

from_inputs-no_disables :
    (pack : Fields) (map : Option Fields) (claim : Fields) (i : Option Fields)
    (e f : Option (List Fields)) (document : Fields)
    → from_inputs pack map claim i e f ≡ some document
    → root_status_v2_events document ≡ some []
from_inputs-no_disables pack map claim none e f document h = cc
from_inputs-no_disables pack map claim (some i) none f document h = cc
from_inputs-no_disables pack map claim (some i) (some e) none document h = cc
from_inputs-no_disables pack map claim (some i) (some e) (some f) document h =
    let same : allow_document pack map claim i e f ≡ document = cc h in
    rw (← same) (allow_document-no_disables pack map claim i e f)

pack_document-no_disables :
    (pack : Fields) (map : Option Fields) (document : Fields)
    → pack_document pack map ≡ some document
    → root_status_v2_events document ≡ some []
unfolding pack_document
pack_document-no_disables pack map document h =
    by_claim (claim_or_empty (pack_claim pack "permit.authority_chain.v1")) h
  where
    by_claim :
        (o : Option Fields)
        → from_claim pack map o ≡ some document
        → root_status_v2_events document ≡ some []
    by_claim none k = cc
    by_claim (some claim) k = from_inputs-no_disables pack map claim _ _ _ document k

module _ (library : Library) (load : String → Option (List Fields))
    (trusted source : Option String) where
  module _ (root : Root) (resolution : ℕ) where
    after_status-NotDisabled :
        (event : Fields) (j : Judged) (latest : Option (ℕ × Fields))
        (next : Option (ℕ × Fields) → Outcome RootCode)
        → ((l : Option (ℕ × Fields)) → NotDisabled (next l))
        → NotDisabled (after_status library load trusted source root resolution event j latest next)
    after_status-NotDisabled event missing latest next n h = cc
    after_status-NotDisabled event raises latest next n h = cc
    after_status-NotDisabled event unrelated latest next n h = n latest h
    after_status-NotDisabled event (effective time) latest next n h = n _ h

    judge_statuses-NotDisabled :
        (events : List Fields) (latest : Option (ℕ × Fields))
        (next : Option (ℕ × Fields) → Outcome RootCode)
        → ((l : Option (ℕ × Fields)) → NotDisabled (next l))
        → NotDisabled
            (judge_statuses library load trusted source root resolution events latest next)
    unfolding judge_statuses
    judge_statuses-NotDisabled [] latest next n h = n latest h
    judge_statuses-NotDisabled (event ∷ events) latest next n h =
        after_status-NotDisabled event _ latest _ (λ l. judge_statuses-NotDisabled events l next n)
          h

    judge_v2-NotDisabled :
        (o : Option (List Fields))
        → NotDisabled (judge_v2 library load trusted source root resolution o (some []))
    unfolding judge_disables
    judge_v2-NotDisabled none h = cc
    judge_v2-NotDisabled (some events) h =
        judge_statuses-NotDisabled events none _ (λ l. conclude_v2-NotDisabled l) h

  with_chain-NotDisabled :
      (judge : Root → ℕ → Outcome RootCode) (o : Option (List Edge)) (t : Option ℕ)
      → ((root : Root) (resolution : ℕ) → NotDisabled (judge root resolution))
      → NotDisabled (with_chain library load trusted source judge o t)
  with_chain-NotDisabled judge none t n h = cc
  with_chain-NotDisabled judge (some []) t n h = cc
  with_chain-NotDisabled judge (some (edge ∷ edges)) none n h = cc
  with_chain-NotDisabled judge (some (edge ∷ edges)) (some resolution) n h =
      by_root (root_of edge.payload (get edge.payload "delegator")) h
    where
      by_root :
          (o : Option Root) → NotDisabled (with_root library load trusted source judge o resolution)
      by_root none k = cc
      by_root (some root) k = n root resolution k

  claims_on-NotDisabled :
      (trust_root : Option Fields) (document : Fields)
      → root_status_v2_events document ≡ some []
      → NotDisabled (
          adjudicate_authority_root_status_temporal_v2 library load trusted source trust_root
            document)
  unfolding adjudicate_authority_root_status_temporal_v2
  claims_on-NotDisabled trust_root document e h =
      with_chain-NotDisabled
        (λ root resolution.
          judge_v2 library load trusted source root resolution (root_status_events document)
            (root_status_v2_events document))
        (chain_edges_in_order (authority_key_records load trust_root source) document)
        (parse_iso_or_none library.fromisoformat (get document "resolution_time"))
        (λ root resolution k. judge_v2-NotDisabled root resolution _ (rw e at k)) h

-- Whatever events that disable the root a pack carries, its second claim on the root is never that the
-- root was disabled by the resolution: the document that the claim is made on has none of them.
pub disables_dropped :
    (library : Library) (load : String → Option (List Fields)) (trusted source : Option String)
    (trust_root : Option Fields) (pack : Fields) (action_class_map : Option Fields)
    (claims : AllowClaims)
    → allow_pack_claims library load trusted source trust_root pack action_class_map ≡ some claims
    → ¬ (claims.root_v2 ≡ refused root_disabled_at_resolution)
unfolding allow_pack_claims
disables_dropped library load trusted source root pack map claims h k =
    by_document (pack_document pack map) refl h
  where
    by_document :
        (o : Option Fields)
        → pack_document pack map ≡ o
        → claims_if library load trusted source root o ≡ some claims
        → ⊥
    by_document none e c = cc
    by_document (some document) e c =
        let same : claims_on library load trusted source root document ≡ claims = cc c in
        let v2 = ap (λ (c : AllowClaims). c.root_v2) same ∙ k in
        claims_on-NotDisabled library load trusted source root document
          (pack_document-no_disables pack map document e) v2

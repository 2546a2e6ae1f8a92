-- ===== src/Authority/Revocation/Laws.antt =====
-- What the events of a document have to do with the verdict on its chain.
use keel_verifier.Base.{
  ℕ, String, ◌≡◌, ◌⊎◌, inl, inr, refl, Bool, true, false, Option, none, some, List, Bool-cases,
}
use keel_verifier.Json.{Json, Fields, get, eq_str}
use keel_verifier.Trust.Window.{parse_iso_or_none}
use keel_verifier.Authority.Library.{Library}
use keel_verifier.Authority.Edges.{Edge}
use keel_verifier.Authority.Signer.{missing, unrelated, raises, effective}
use keel_verifier.Authority.Signer.Laws.{IsSigned, check_signer-effective, check_signer-unrelated}
use keel_verifier.Authority.Revocation.{
  names_edge, same_account, check_hash, check_related, judge_event,
}
use keel_verifier.Authority.Revocation.Events.{status_error, canonical_hash}

module _ (library : Library) (load : String → Option (List Fields)) (trusted : Option String)
    (edges : List Edge) (project_id : Json) (source : Option String) where
  -- A well-formed event on an edge of the chain, for its project, signed at its own time by an active
  -- key for permit bindings.
  pub record IsRevocation (event : Fields) (time : ℕ) : Type 0 where
    pub well_formed : status_error library event ≡ some false
    pub on_edge : names_edge edges event ≡ true
    pub for_project : same_account project_id event ≡ true
    pub revoked_at : parse_iso_or_none library.fromisoformat (get event "revoked_at") ≡ some time
    pub hashed : eq_str (get event "event_hash") (canonical_hash library event) ≡ true
    pub signer : IsSigned library load trusted source (canonical_hash library event) event time

  -- An event that is not about the chain.
  abbrev pub IsUnrelated : Fields → Type 0
  IsUnrelated event = (names_edge edges event ≡ false) ⊎ (same_account project_id event ≡ false)

  module _ (event : Fields) where
    check_hash-IsRevocation :
        (o : Option ℕ) (time : ℕ)
        → status_error library event ≡ some false
        → names_edge edges event ≡ true
        → same_account project_id event ≡ true
        → parse_iso_or_none library.fromisoformat (get event "revoked_at") ≡ o
        → check_hash library load trusted source event o ≡ effective time
        → IsRevocation event time
    check_hash-IsRevocation none time w n s r h = cc
    check_hash-IsRevocation (some t) time w n s r h =
        elim (Bool-cases (eq_str (get event "event_hash") (canonical_hash library event))) [
          | inr e ↦ cc (rw e at h)
          | inl e ↦
              let (same, signer) =
                check_signer-effective library load trusted source (canonical_hash library event)
                  event t time (rw e at h) in
              record {
                well_formed = w;
                on_edge = n;
                for_project = s;
                revoked_at = cc (r, same);
                hashed = e;
                signer = signer;
              }
        ]

    check_hash-unrelated :
        (o : Option ℕ) → check_hash library load trusted source event o ≡ unrelated → ⊥
    check_hash-unrelated none h = cc
    check_hash-unrelated (some t) h =
        elim (Bool-cases (eq_str (get event "event_hash") (canonical_hash library event))) [
          | inr e ↦ cc (rw e at h)
          | inl e ↦
              check_signer-unrelated library (canonical_hash library event) event t _ (rw e at h)
        ]

    check_related-effective :
        (time : ℕ)
        → status_error library event ≡ some false
        → check_related library load trusted edges project_id source event ≡ effective time
        → IsRevocation event time
    check_related-effective time w h = elim (Bool-cases (names_edge edges event)) [
      | inr e ↦ cc (rw e at h)
      | inl e ↦ elim (Bool-cases (same_account project_id event)) [
        | inr f ↦ cc (rw (e, f) at h)
        | inl f ↦ check_hash-IsRevocation _ time w e f refl (rw (e, f) at h)
      ]
    ]

    check_related-unrelated :
        check_related library load trusted edges project_id source event ≡ unrelated
        → IsUnrelated event
    check_related-unrelated h = elim (Bool-cases (names_edge edges event)) [
      | inr e ↦ inl e
      | inl e ↦ elim (Bool-cases (same_account project_id event)) [
        | inr f ↦ inr f
        | inl f ↦ absurd (check_hash-unrelated _ (rw (e, f) at h))
      ]
    ]

  pub judge_event-IsRevocation :
      (event : Fields) (time : ℕ)
      → judge_event library load trusted edges project_id source event ≡ effective time
      → IsRevocation event time
  unfolding judge_event
  judge_event-IsRevocation event time h = by_error (status_error library event) refl h
    where
      by_error :
          (o : Option Bool)
          → status_error library event ≡ o
          → elim o [
            | none ↦ raises
            | some true ↦ missing
            | some false ↦ check_related library load trusted edges project_id source event
          ]
            ≡ effective time
          → IsRevocation event time
      by_error none w k = cc
      by_error (some true) w k = cc
      by_error (some false) w k = check_related-effective event time w k

  pub judge_event-IsUnrelated :
      (event : Fields)
      → judge_event library load trusted edges project_id source event ≡ unrelated
      → IsUnrelated event
  unfolding judge_event
  judge_event-IsUnrelated event h = by_error (status_error library event) h
    where
      by_error :
          (o : Option Bool)
          → elim o [
            | none ↦ raises
            | some true ↦ missing
            | some false ↦ check_related library load trusted edges project_id source event
          ]
            ≡ unrelated
          → IsUnrelated event
      by_error none k = cc
      by_error (some true) k = cc
      by_error (some false) k = check_related-unrelated event k

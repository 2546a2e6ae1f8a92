-- ===== src/Authority/Root/Laws.antt =====
-- What a valid event on a root is, and what the two loops over the events keep.
use keel_verifier.Base.{
  ℕ, String, ◌≡◌, ◌<◌, ◌⊎◌, inl, inr, refl, Bool, true, false, ◌||◌, not, Option, none, some, List,
  [], ◌∷◌, leb, arith, Bool-cases,
}
use keel_verifier.Json.{Fields, get}
use keel_verifier.Trust.Window.{parse_iso_or_none}
use keel_verifier.Trust.Select.Laws.{Among}
use keel_verifier.Authority.Outcome.{Outcome, supported}
use keel_verifier.Authority.Library.{Library}
use keel_verifier.Authority.Signer.{Judged, missing, unrelated, raises, effective}
use keel_verifier.Authority.Signer.Laws.{IsSigned, check_signer-effective, check_signer-unrelated}
use keel_verifier.Authority.Root.{
  RootCode, Root, Version, second_version, about_root, check_time, check_root, judge_status,
  after_disable, judge_disables,
}
use keel_verifier.Authority.Root.Events.{root_hash}

module _ (library : Library) (load : String → Option (List Fields)) (trusted : Option String)
    (source : Option String) where
  -- A well-formed event about the root, signed at its own time by an active key for permit bindings.
  pub record IsStatus (version : Version) (root : Root) (event : Fields) (time : ℕ) : Type 0 where
    pub well_formed : version.valid library event ≡ some true
    pub about : about_root root event ≡ true
    pub at_time : parse_iso_or_none library.fromisoformat (get event version.time_field) ≡ some time
    pub signer :
        IsSigned library load trusted source (root_hash library version.names event) event time

  module _ (version : Version) (root : Root) (event : Fields) where
    check_time-IsStatus :
        (o : Option ℕ) (time : ℕ)
        → version.valid library event ≡ some true
        → about_root root event ≡ true
        → parse_iso_or_none library.fromisoformat (get event version.time_field) ≡ o
        → check_time library load trusted source version event o ≡ effective time
        → IsStatus version root event time
    check_time-IsStatus none time w a r h = cc
    check_time-IsStatus (some t) time w a r h =
        let (same, signer) =
          check_signer-effective library load trusted source (root_hash library version.names event)
            event t time h in
        record { well_formed = w; about = a; at_time = cc (r, same); signer = signer }

    check_time-unrelated :
        (o : Option ℕ) → check_time library load trusted source version event o ≡ unrelated → ⊥
    check_time-unrelated none h = cc
    check_time-unrelated (some t) h =
        check_signer-unrelated library (root_hash library version.names event) event t _ h

    pub judge_status-IsStatus :
        (time : ℕ)
        → judge_status library load trusted source version root event ≡ effective time
        → IsStatus version root event time
    unfolding judge_status
    judge_status-IsStatus time h = by_valid (version.valid library event) refl h
      where
        by_valid :
            (o : Option Bool)
            → version.valid library event ≡ o
            → elim o [
              | none ↦ raises
              | some false ↦ missing
              | some true ↦ check_root library load trusted source version root event
            ]
              ≡ effective time
            → IsStatus version root event time
        by_valid none w k = cc
        by_valid (some false) w k = cc
        by_valid (some true) w k = elim (Bool-cases (about_root root event)) [
          | inl a ↦ check_time-IsStatus _ time w a refl (rw a at k)
          | inr a ↦ cc (rw a at k)
        ]

    pub judge_status-unrelated :
        judge_status library load trusted source version root event ≡ unrelated
        → about_root root event ≡ false
    unfolding judge_status
    judge_status-unrelated h = by_valid (version.valid library event) h
      where
        by_valid :
            (o : Option Bool)
            → elim o [
              | none ↦ raises
              | some false ↦ missing
              | some true ↦ check_root library load trusted source version root event
            ]
              ≡ unrelated
            → about_root root event ≡ false
        by_valid none k = cc
        by_valid (some false) k = cc
        by_valid (some true) k = elim (Bool-cases (about_root root event)) [
          | inl a ↦ absurd (check_time-unrelated _ (rw a at k))
          | inr a ↦ a
        ]

  module _ (root : Root) (resolution : ℕ) where
    -- An event of the second version that is not about the root, or disables it after the resolution.
    abbrev pub IsHarmless : Fields → Type 0
    IsHarmless event =
        (about_root root event ≡ false)
        ⊎ ((time : ℕ) × IsStatus second_version root event time × (resolution < time))

    after_disable-IsHarmless :
        (event : Fields) (j : Judged) (t f : Bool) (next : Bool → Bool → Outcome RootCode)
        → judge_status library load trusted source second_version root event ≡ j
        → ((b g : Bool) → next b g ≡ supported → b ≡ false)
        → after_disable library load trusted source root resolution j t f next ≡ supported
        → (t ≡ false) × IsHarmless event × (g : Bool) × (next false g ≡ supported)
    after_disable-IsHarmless event missing t f next e only h = cc
    after_disable-IsHarmless event raises t f next e only h = cc
    after_disable-IsHarmless event unrelated t f next e only h =
        let off = only t f h in
        (off, inl (judge_status-unrelated second_version root event e), f, rw off at h)
    after_disable-IsHarmless event (effective time) t f next e only h =
        let off = only (t || leb time resolution) _ h in
        let early : t ≡ false = ground arith in
        let late : leb time resolution ≡ false = ground arith in
        let less : resolution < time = ground arith in
        let rest : next false (f || not false) ≡ supported = rw (early, late) at h in
        (
          early,
          inr (time, judge_status-IsStatus second_version root event time e, less),
          f || not false,
          rest,
        )

    pub judge_disables-IsHarmless :
        (events : List Fields) (t f : Bool) (next : Bool → Bool → Outcome RootCode)
        → ((b g : Bool) → next b g ≡ supported → b ≡ false)
        → judge_disables library load trusted source root resolution events t f next ≡ supported
        → (t ≡ false)
          × ((event : Fields) → Among event events → IsHarmless event)
          × (g : Bool) × (next false g ≡ supported)
    unfolding judge_disables
    judge_disables-IsHarmless [] t f next only h =
        let off = only t f h in (off, λ event a. absurd a, f, rw off at h)
    judge_disables-IsHarmless (event ∷ events) t f next only h =
        let (off, here, g, rest) =
          after_disable-IsHarmless event _ t f _ refl
            (λ b c e. (judge_disables-IsHarmless events b c next only e).0) h in
        let (still, others, g', end) = judge_disables-IsHarmless events false g next only rest in
        (off, λ e a. elim a [ inl s ↦ rw s here | inr s ↦ others e s ], g', end)

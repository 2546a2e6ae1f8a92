-- ===== src/Authority/Root/Verdict.antt =====
-- A root that is supported has, at the resolution, a latest status that does not suspend it, and no
-- disabling.
use keel_verifier.Base.{
  ℕ, String, ◌≡◌, ◌≤◌, ◌<◌, ◌⊎◌, inl, inr, refl, Bool, true, false, Option, none, some, List, [],
  ◌∷◌, ◌∙◌, leb, ltb, arith, Bool-cases, if◌then◌else◌,
}
use keel_verifier.Json.{Fields}
use keel_verifier.Trust.Select.Laws.{Among}
use keel_verifier.Authority.Outcome.{Outcome, supported}
use keel_verifier.Authority.Library.{Library}
use keel_verifier.Authority.Signer.{Judged, missing, unrelated, raises, effective}
use keel_verifier.Authority.Root.{
  about_root, RootCode, Root, first_version, later, judge_status, after_status, judge_statuses,
}
use keel_verifier.Authority.Root.Laws.{IsStatus, judge_status-IsStatus, judge_status-unrelated}

-- The latest event is as late as a time.
abbrev pub UpTo : Option (ℕ × Fields) → ℕ → Type 0
UpTo none time = ⊥
UpTo (some (t, event)) time = time ≤ t

UpTo-later : (l : Option (ℕ × Fields)) (t : ℕ) (e : Fields) → UpTo (later l t e) t
UpTo-later none t e = omega arith
UpTo-later (some (u, f)) t e = elim (Bool-cases (ltb u t)) [
  | inl h ↦ rw h (omega arith)
  | inr h ↦ rw h (ground arith)
]

UpTo-later-UpTo :
    (l : Option (ℕ × Fields)) (t : ℕ) (e : Fields) (n : ℕ) → UpTo l n → UpTo (later l t e) n
UpTo-later-UpTo none t e n u = absurd u
UpTo-later-UpTo (some (v, f)) t e n u = elim (Bool-cases (ltb v t)) [
  | inl h ↦ rw h (ground arith)
  | inr h ↦ rw h u
]

later_cases :
    (l : Option (ℕ × Fields)) (t : ℕ) (e : Fields) → (later l t e ≡ l) ⊎ (later l t e ≡ some (t, e))
later_cases none t e = inr refl
later_cases (some (v, f)) t e = elim (Bool-cases (ltb v t)) [
  | inl h ↦ inr (rw h refl)
  | inr h ↦ inl (rw h refl)
]

module _ (library : Library) (load : String → Option (List Fields)) (trusted : Option String)
    (source : Option String) (root : Root) (resolution : ℕ) where
  -- The event is not about the root, or is a valid one that is later than the resolution or not later
  -- than the latest.
  abbrev pub IsWithin : Option (ℕ × Fields) → Fields → Type 0
  IsWithin latest event =
      (about_root root event ≡ false)
      ⊎ ((time : ℕ) × IsStatus library load trusted source first_version root event time
          × ((resolution < time) ⊎ UpTo latest time))

  -- The latest event is one of the list, valid, and effective by the resolution.
  abbrev pub IsFrom : List Fields → Option (ℕ × Fields) → Type 0
  IsFrom events latest =
      (time : ℕ) × (event : Fields) × (latest ≡ some (time, event))
      × Among event events
      × IsStatus library load trusted source first_version root event time
      × (time ≤ resolution)

  -- What the loop over the events makes of the latest one.
  pub record Scans (events : List Fields) (latest : Option (ℕ × Fields))
      (next : Option (ℕ × Fields) → Outcome RootCode) : Type 0 where
    pub final : Option (ℕ × Fields)
    pub grows : (n : ℕ) → UpTo latest n → UpTo final n
    pub within : (event : Fields) → Among event events → IsWithin final event
    pub origin : (final ≡ latest) ⊎ IsFrom events final
    pub passes : next final ≡ supported

  IsFrom-cons :
      (event : Fields) (events : List Fields) (final : Option (ℕ × Fields))
      → IsFrom events final
      → IsFrom (event ∷ events) final
  IsFrom-cons event events final (t, e, s, a, v, l) = (t, e, s, inr a, v, l)

  -- One more event in front, which leaves `now` as the latest.
  Scans-cons :
      (event : Fields) (events : List Fields) (latest now : Option (ℕ × Fields))
      (next : Option (ℕ × Fields) → Outcome RootCode)
      → ((n : ℕ) → UpTo latest n → UpTo now n)
      → ((final : Option (ℕ × Fields))
          → ((n : ℕ) → UpTo now n → UpTo final n)
          → IsWithin final event)
      → (now ≡ latest) ⊎ IsFrom (event ∷ events) now
      → Scans events now next
      → Scans (event ∷ events) latest next
  Scans-cons event events latest now next up here from s = record {
    final = s.final;
    grows = λ n u. s.grows n (up n u);
    within = λ e a. elim a [ inl i ↦ rw i (here s.final s.grows) | inr i ↦ s.within e i ];
    origin = elim s.origin [
      | inr f ↦ inr (IsFrom-cons event events s.final f)
      | inl i ↦ elim from [ inl j ↦ inl (i ∙ j) | inr j ↦ inr (rw i j) ]
    ];
    passes = s.passes;
  }

  step :
      (event : Fields) (events : List Fields) (j : Judged) (latest : Option (ℕ × Fields))
      (next inner : Option (ℕ × Fields) → Outcome RootCode)
      → judge_status library load trusted source first_version root event ≡ j
      → ((l : Option (ℕ × Fields)) → inner l ≡ supported → Scans events l next)
      → after_status library load trusted source root resolution event j latest inner ≡ supported
      → Scans (event ∷ events) latest next
  step event events missing latest next inner e rest h = cc
  step event events raises latest next inner e rest h = cc
  step event events unrelated latest next inner e rest h =
      let off = judge_status-unrelated library load trusted source first_version root event e in
      Scans-cons event events latest latest next (λ n u. u) (λ f g. inl off) (inl refl)
        (rest latest h)
  step event events (effective time) latest next inner e rest h =
      by_time (leb time resolution) refl h
    where
      by_time :
          (b : Bool)
          → leb time resolution ≡ b
          → inner (if b then later latest time event else latest) ≡ supported
          → Scans (event ∷ events) latest next
      by_time true t k =
          let valid =
            judge_status-IsStatus library load trusted source first_version root event time e in
          let early : time ≤ resolution = ground arith in
          Scans-cons event events latest (later latest time event) next
            (UpTo-later-UpTo latest time event)
            (λ f g. inr (time, valid, inr (g time (UpTo-later latest time event))))
            (elim (later_cases latest time event) [
              | inl s ↦ inl s
              | inr s ↦ inr (time, event, s, inl refl, valid, early)
            ])
            (rest _ k)
      by_time false t k =
          let valid =
            judge_status-IsStatus library load trusted source first_version root event time e in
          let late : resolution < time = ground arith in
          Scans-cons event events latest latest next (λ n u. u) (λ f g. inr (time, valid, inl late))
            (inl refl) (rest latest k)

  pub judge_statuses-Scans :
      (events : List Fields) (latest : Option (ℕ × Fields))
      (next : Option (ℕ × Fields) → Outcome RootCode)
      → judge_statuses library load trusted source root resolution events latest next ≡ supported
      → Scans events latest next
  unfolding judge_statuses
  judge_statuses-Scans [] latest next h = record {
    final = latest;
    grows = λ n u. u;
    within = λ e a. absurd a;
    origin = inl refl;
    passes = h;
  }
  judge_statuses-Scans (event ∷ events) latest next h =
      step event events _ latest next _ refl (λ l k. judge_statuses-Scans events l next k) h

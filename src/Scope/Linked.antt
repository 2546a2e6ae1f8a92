-- ===== src/Scope/Linked.antt =====
-- What continuity means, and where the records of a segment start.
use text.Mathlib.TextEquality.{eq_iff}
use keel_verifier.Base.{
  ℕ, ◌≡◌, ◌∙◌, sym, ◌↔◌, ◌⊎◌, ◌<◌, ◌≤◌, inl, inr, refl, true, false, not, none, some, List, [], ◌∷◌,
  any, leb, ◌==◌, arith, str_eq, &&-eq-true, Bool-cases,
}
use keel_verifier.Trust.Select.Laws.{Among}
use keel_verifier.Scope.Start.{StartsAt, first-StartsAt, StartsAt-first}
use keel_verifier.Scope.{
  Evidence, Segment, passes, follows, walk, ordered_scope_evidence, check_records,
  check_scope_start, check_scope_continuity,
}
use keel_verifier.Scope.Order.{Among-ordered_scope_evidence}

-- Each record has a greater number than the record before it, and carries its hash.
pub data Linked : Evidence → List Evidence → Type 0 where
  last : {e : Evidence} → Linked e []
  then_next :
      {e f : Evidence} {es : List Evidence}
      → e.sequence_number < f.sequence_number
      → f.prev_hash ≡ e.record_hash
      → Linked f es
      → Linked e (f ∷ es)

-- All the numbers seen are at most `n`.
abbrev Bounded : List ℕ → ℕ → Type 0
Bounded [] n = Unit
Bounded (m ∷ ms) n = (m ≤ n) × Bounded ms n

Bounded-less : (ms : List ℕ) (n m : ℕ) → n < m → Bounded ms n → Bounded ms m
Bounded-less [] n m h b = tt
Bounded-less (k ∷ ms) n m h b = (omega (arith, b.0), Bounded-less ms n m h b.1)

unseen : (ms : List ℕ) (n m : ℕ) → n < m → Bounded ms n → any (λ k. k == m) ms ≡ false
unseen [] n m h b = refl
unseen (k ∷ ms) n m h b = ground (arith, unseen ms n m h b.1, b.0)

walk-Linked :
    (seen : List ℕ) (e : Evidence) (es : List Evidence)
    → walk seen (some e) es ≡ passes
    → Linked e es
unfolding walk
walk-Linked seen e [] h = last
walk-Linked seen e (f ∷ es) h = elim (Bool-cases (any (λ n. n == f.sequence_number) seen)) [
  | inl a ↦ cc (rw a at h)
  | inr a ↦ elim (Bool-cases (follows (some e) f)) [
    | inr b ↦ cc (rw (a, b) at h)
    | inl b ↦
        let both =
          &&-eq-true (not (leb f.sequence_number e.sequence_number))
            (str_eq f.prev_hash e.record_hash) b in
        let less : e.sequence_number < f.sequence_number = ground (arith, both.0) in
        then_next less ((eq_iff _ _).0 both.1) (walk-Linked _ f es (rw (a, b) at h))
  ]
]

Linked-walk :
    (seen : List ℕ) (e : Evidence) (es : List Evidence)
    → Bounded seen e.sequence_number
    → Linked e es
    → walk seen (some e) es ≡ passes
unfolding walk
Linked-walk seen e [] b last = refl
Linked-walk seen e (f ∷ es) b (then_next less same rest) =
    let new = unseen seen e.sequence_number f.sequence_number less b in
    let up : leb f.sequence_number e.sequence_number ≡ false = ground (arith, less) in
    let text = (eq_iff f.prev_hash e.record_hash).1 same in
    let more : Bounded (f.sequence_number ∷ seen) f.sequence_number =
      (omega arith, Bounded-less seen e.sequence_number f.sequence_number less b) in
    rw (new, up, text) (Linked-walk (f.sequence_number ∷ seen) f es more rest)

-- The records of a segment, in order: the first is the one that the declared start asks for, and each of
-- the others follows the one before it.
pub data Continues (segment : Segment) : List Evidence → Type 0 where
  nothing : segment.has_predicate ≡ true → Continues segment []
  from_start :
      {first : Evidence} {records : List Evidence}
      → StartsAt segment.declared_start segment.proof_bridge_records first
      → Linked first records
      → Continues segment (first ∷ records)

records-Continues :
    (segment : Segment) (records : List Evidence)
    → check_records segment records ≡ passes
    → walk [] none records ≡ passes
    → Continues segment records
unfolding walk
records-Continues segment [] h k = elim (Bool-cases segment.has_predicate) [
  | inl e ↦ nothing e
  | inr e ↦ cc (rw e at h)
]
records-Continues segment (first ∷ records) h k =
    from_start (first-StartsAt segment first h)
      (walk-Linked (first.sequence_number ∷ []) first records k)

Continues-records :
    (segment : Segment) (records : List Evidence)
    → Continues segment records
    → (check_records segment records ≡ passes) × (walk [] none records ≡ passes)
unfolding walk
Continues-records segment [] (nothing e) = (rw e refl, refl)
Continues-records segment (first ∷ records) (from_start s l) = (
  StartsAt-first segment first s,
  Linked-walk (first.sequence_number ∷ []) first records (omega arith, tt) l,
)

-- The two checks on a segment pass exactly when its records, in order, continue the declared start: the
-- first has the number and the previous hash that a genesis, a predecessor or a checkpoint asks for,
-- every bridging record with the number of a declared predecessor has the predecessor's hash, and each
-- record behind the first has a greater number than the one before it and its hash as previous hash;
-- without records there must be a predicate.
pub scope_checks_iff :
    (segment : Segment)
    → ((check_scope_start segment ≡ passes) × (check_scope_continuity segment ≡ passes))
      ↔ Continues segment (ordered_scope_evidence segment)
unfolding check_scope_start check_scope_continuity
scope_checks_iff segment = ((λ h. records-Continues segment _ h.0 h.1), Continues-records segment _)

Among-Linked :
    (e a : Evidence) (es : List Evidence)
    → Linked e es
    → Among a es
    → e.sequence_number < a.sequence_number
Among-Linked e a [] last m = absurd m
Among-Linked e a (f ∷ es) (then_next less same rest) (inl s) = rw s less
Among-Linked e a (f ∷ es) (then_next less same rest) (inr m) =
    let more = Among-Linked f a es rest m in omega (arith, less, more)

one_number :
    (e a b : Evidence) (es : List Evidence)
    → Linked e es
    → Among a (e ∷ es)
    → Among b (e ∷ es)
    → a.sequence_number ≡ b.sequence_number
    → a ≡ b
one_number e a b es l (inl s) (inl t) n = s ∙ sym t
one_number e a b es l (inl s) (inr t) n =
    let less = Among-Linked e b es l t in
    let same : a.sequence_number ≡ e.sequence_number = cc s in absurd (omega (arith, less, same, n))
one_number e a b es l (inr s) (inl t) n =
    let less = Among-Linked e a es l s in
    let same : b.sequence_number ≡ e.sequence_number = cc t in absurd (omega (arith, less, same, n))
one_number e a b [] l (inr s) (inr t) n = absurd s
one_number e a b (f ∷ es) (then_next less same rest) (inr s) (inr t) n =
    one_number f a b es rest s t n

one_record :
    (segment : Segment) (records : List Evidence) (a b : Evidence)
    → Continues segment records
    → Among a records
    → Among b records
    → a.sequence_number ≡ b.sequence_number
    → a ≡ b
one_record segment [] a b c m k n = absurd m
one_record segment (first ∷ records) a b (from_start s l) m k n =
    one_number first a b records l m k n

-- In a segment that passes the two checks, two supplied records with one sequence number, disclosed or
-- bridging, are the same record.
pub scope_records_unique :
    (segment : Segment) (a b : Evidence)
    → check_scope_start segment ≡ passes
    → check_scope_continuity segment ≡ passes
    → Among a segment.disclosure_records ⊎ Among a segment.proof_bridge_records
    → Among b segment.disclosure_records ⊎ Among b segment.proof_bridge_records
    → a.sequence_number ≡ b.sequence_number
    → a ≡ b
scope_records_unique segment a b h k m n e =
    one_record segment (ordered_scope_evidence segment) a b ((scope_checks_iff segment).0 (h, k))
      (Among-ordered_scope_evidence a segment m) (Among-ordered_scope_evidence b segment n) e

-- ===== src/Scope/Start.antt =====
-- What the start of a segment asks of its first record, without the order of the tests.
use keel_verifier.Base.{
  ℕ, zero, suc, ℤ, pos, negsuc, eqz_iff, String, ◌≡◌, ◌↔◌, inl, inr, refl, true, Option, none, some,
  List, [], ◌∷◌, all, Each, &&-eq-true, Bool-cases, Option-cases,
}
use keel_verifier.Json.{
  Json, null, bool, int, str, arr, obj, Fields, get, lookup, as_int, bool_int, eq, eq_str,
  eq_str-eq, eq_str_refl,
}
use keel_verifier.Scope.{
  Evidence, Segment, Checked, passes, plus_one, same_hash, starts_at, agrees_with, then_bridges,
  after_number, check_first,
}

-- A field of the start that is the number `n`.
pub record HasNumber (start : Fields) (name : String) (n : ℕ) : Type 0 where
  pub value : Json
  pub present : lookup name start ≡ some value
  pub number : as_int value ≡ some (pos n)

abbrev pub IsNext : ℤ → ℕ → Type 0
IsNext (pos m) n = n ≡ suc m
IsNext (negsuc zero) n = n ≡ 0
IsNext (negsuc (suc m)) n = ⊥

-- A field of the start that is a number, with `n` as the next.
pub record HasNumberBefore (start : Fields) (name : String) (n : ℕ) : Type 0 where
  pub value : Json
  pub before : ℤ
  pub present : lookup name start ≡ some value
  pub number : as_int value ≡ some before
  pub next : IsNext before n

-- A bridging record with the number of the predecessor is the predecessor.
abbrev pub Agrees : Fields → Evidence → Type 0
Agrees start bridge =
    as_int (get start "predecessor_sequence_number") ≡ some (pos bridge.sequence_number)
    → get start "predecessor_record_hash" ≡ str bridge.record_hash

pub data StartsAt (start : Fields) (bridges : List Evidence) (first : Evidence) : Type 0 where
  at_genesis :
      get start "kind" ≡ str "genesis"
      → first.sequence_number ≡ 1
      → lookup "genesis_prev_hash" start ≡ some (str first.prev_hash)
      → StartsAt start bridges first
  after_predecessor :
      get start "kind" ≡ str "predecessor_proof"
      → HasNumber start "first_evidence_sequence_number" first.sequence_number
      → lookup "predecessor_record_hash" start ≡ some (str first.prev_hash)
      → Each (Agrees start) bridges
      → StartsAt start bridges first
  after_checkpoint :
      get start "kind" ≡ str "checkpoint_anchor"
      → HasNumberBefore start "sequence_number" first.sequence_number
      → lookup "last_record_hash" start ≡ some (str first.prev_hash)
      → StartsAt start bridges first

-- A natural number equals the values that Python takes for it.
eq_number : (n : ℕ) (v : Json) → (eq (int (pos n)) v ≡ true) ↔ (as_int v ≡ some (pos n))
unfolding eq
eq_number n (int z) = (
  (λ h. cc ((eqz_iff (pos n) z).0 h)),
  (λ h.
      let same : some z ≡ some (pos n) = h in
      let e : pos n ≡ z = cc same in (eqz_iff (pos n) z).1 e),
)
eq_number n (bool b) = (
  (λ h. cc ((eqz_iff (pos n) (bool_int b)).0 h)),
  (λ h. let e : pos n ≡ bool_int b = cc h in (eqz_iff (pos n) (bool_int b)).1 e),
)
eq_number n null = ((λ h. cc), (λ h. cc))
eq_number n (str s) = ((λ h. cc), (λ h. cc))
eq_number n (arr xs) = ((λ h. cc), (λ h. cc))
eq_number n (obj d) = ((λ h. cc), (λ h. cc))

-- What the test of the number and of the hash asks.
pub record IsFirst (first : Evidence) (number hash : Option Json) : Type 0 where
  pub value : Json
  pub present : number ≡ some value
  pub same_number : eq (int (pos first.sequence_number)) value ≡ true
  pub chained : hash ≡ some (str first.prev_hash)

same_hash-passes :
    (first : Evidence) (hash : Option Json)
    → same_hash first hash ≡ passes
    → hash ≡ some (str first.prev_hash)
same_hash-passes first none h = cc
same_hash-passes first (some v) h = elim (Bool-cases (eq_str v first.prev_hash)) [
  | inl e ↦ cc (eq_str-eq v first.prev_hash e)
  | inr e ↦ cc (rw e at h)
]

starts_at-IsFirst :
    (first : Evidence) (number hash : Option Json)
    → starts_at first number hash ≡ passes
    → IsFirst first number hash
starts_at-IsFirst first none hash h = cc
starts_at-IsFirst first (some v) hash h =
    elim (Bool-cases (eq (int (pos first.sequence_number)) v)) [
      | inl e ↦ record {
        value = v;
        present = refl;
        same_number = e;
        chained = same_hash-passes first hash (rw e at h);
      }
      | inr e ↦ cc (rw e at h)
    ]

IsFirst-starts_at :
    (first : Evidence) (number hash : Option Json)
    → IsFirst first number hash
    → starts_at first number hash ≡ passes
IsFirst-starts_at first number hash i =
    rw (i.present, i.same_number, i.chained, eq_str_refl first.prev_hash) refl

plus_one-IsNext :
    (n : ℕ) (v w : Json)
    → plus_one v ≡ some w
    → eq (int (pos n)) w ≡ true
    → (z : ℤ) × (as_int v ≡ some z) × IsNext z n
plus_one-IsNext n v w h k =
    let number : as_int w ≡ some (pos n) = (eq_number n w).0 k in
    elim (Option-cases (as_int v)) [
      | inl e ↦ cc (rw (e, plus_one) at h)
      | inr (pos m, e) ↦
          let same : int (pos (suc m)) ≡ w = cc (rw (e, plus_one) at h) in
          let r : some (pos (suc m)) ≡ some (pos n) = rw (← same) at number in (pos m, e, cc r)
      | inr (negsuc zero, e) ↦
          let same : int (pos 0) ≡ w = cc (rw (e, plus_one) at h) in
          let r : some (pos 0) ≡ some (pos n) = rw (← same) at number in (negsuc zero, e, cc r)
      | inr (negsuc (suc m), e) ↦
          let same : int (negsuc m) ≡ w = cc (rw (e, plus_one) at h) in
          let r : some (negsuc m) ≡ some (pos n) = rw (← same) at number in cc r
    ]

IsNext-plus_one :
    (n : ℕ) (v : Json) (z : ℤ) → as_int v ≡ some z → IsNext z n → plus_one v ≡ some (int (pos n))
IsNext-plus_one n v (pos m) e k = rw (e, plus_one, k) refl
IsNext-plus_one n v (negsuc zero) e k = rw (e, plus_one, k) refl
IsNext-plus_one n v (negsuc (suc m)) e k = absurd k

IsFirst-HasNumberBefore :
    (start : Fields) (first : Evidence) (hash : Option Json)
    → IsFirst first (after_number (lookup "sequence_number" start)) hash
    → HasNumberBefore start "sequence_number" first.sequence_number
IsFirst-HasNumberBefore start first hash i =
    let present = i.present in
    elim (Option-cases (lookup "sequence_number" start)) [
      | inl e ↦ cc (rw e at present)
      | inr (v, e) ↦
          let (z, number, next) =
            plus_one-IsNext first.sequence_number v i.value (rw e at present) i.same_number in
          record { value = v; before = z; present = e; number = number; next = next }
    ]

bridges-Agrees :
    (start : Fields) (bridges : List Evidence)
    → all (agrees_with start) bridges ≡ true
    → Each (Agrees start) bridges
bridges-Agrees start [] h = tt
bridges-Agrees start (b ∷ bs) h =
    let both = &&-eq-true (agrees_with start b) (all (agrees_with start) bs) h in
    (
      λ number.
          let named = (eq_number b.sequence_number _).1 number in
          let agreed : agrees_with start b ≡ true = both.0 in eq_str-eq _ _ (rw named at agreed),
      bridges-Agrees start bs both.1,
    )

Agrees-bridges :
    (start : Fields) (bridges : List Evidence)
    → Each (Agrees start) bridges
    → all (agrees_with start) bridges ≡ true
Agrees-bridges start [] a = refl
Agrees-bridges start (b ∷ bs) a =
    let named = get start "predecessor_sequence_number" in
    elim (Bool-cases (eq (int (pos b.sequence_number)) named)) [
      | inl e ↦
          let hash = a.0 ((eq_number b.sequence_number named).0 e) in
          rw (e, hash, eq_str_refl b.record_hash, Agrees-bridges start bs a.1) refl
      | inr e ↦ rw (e, Agrees-bridges start bs a.1) refl
    ]

then_bridges-passes :
    (c : Checked) (start : Fields) (bridges : List Evidence)
    → then_bridges c start bridges ≡ passes
    → (c ≡ passes) × (all (agrees_with start) bridges ≡ true)
then_bridges-passes Checked.passes start bridges h =
    elim (Bool-cases (all (agrees_with start) bridges)) [
      | inl e ↦ (refl, e)
      | inr e ↦ cc (rw e at h)
    ]
then_bridges-passes Checked.chain_proof_missing start bridges h = cc
then_bridges-passes Checked.boundary_start_mismatch start bridges h = cc
then_bridges-passes Checked.discontinuity start bridges h = cc
then_bridges-passes Checked.raises start bridges h = cc

module _ (segment : Segment) (first : Evidence) where
  abbrev start : Fields
  start = segment.declared_start

  abbrev bridges : List Evidence
  bridges = segment.proof_bridge_records

  genesis-StartsAt :
      get start "kind" ≡ str "genesis"
      → IsFirst first (some (int (pos 1))) (lookup "genesis_prev_hash" start)
      → StartsAt start bridges first
  genesis-StartsAt k i =
      let present = i.present in
      let same : int (pos 1) ≡ i.value = cc present in
      let equal : eq (int (pos first.sequence_number)) (int (pos 1)) ≡ true =
        rw (← same) at i.same_number in
      let number = (eq_number first.sequence_number (int (pos 1))).0 equal in
      let one : pos 1 ≡ pos first.sequence_number = cc number in at_genesis k (cc one) i.chained

  predecessor-StartsAt :
      get start "kind" ≡ str "predecessor_proof"
      → then_bridges
          (starts_at first
            (lookup "first_evidence_sequence_number" start)
            (lookup "predecessor_record_hash" start))
          start
          bridges
        ≡ passes
      → StartsAt start bridges first
  predecessor-StartsAt k h =
      let both = then_bridges-passes _ start bridges h in
      let i = starts_at-IsFirst first _ _ both.0 in
      after_predecessor k
        (record {
          value = i.value;
          present = i.present;
          number = (eq_number first.sequence_number i.value).0 i.same_number;
        })
        i.chained (bridges-Agrees start bridges both.1)

  -- The test of the first record is what the declared start asks for.
  pub first-StartsAt : check_first segment first ≡ passes → StartsAt start bridges first
  first-StartsAt h = elim (Bool-cases (eq_str (get start "kind") "genesis")) [
    | inl e ↦
        genesis-StartsAt (eq_str-eq _ _ e) (starts_at-IsFirst first _ _ (rw (e, check_first) at h))
    | inr e ↦ elim (Bool-cases (eq_str (get start "kind") "predecessor_proof")) [
      | inl f ↦ predecessor-StartsAt (eq_str-eq _ _ f) (rw (e, f, check_first) at h)
      | inr f ↦ elim (Bool-cases (eq_str (get start "kind") "checkpoint_anchor")) [
        | inl g ↦
            let i = starts_at-IsFirst first _ _ (rw (e, f, g, check_first) at h) in
            after_checkpoint (eq_str-eq _ _ g)
              (IsFirst-HasNumberBefore start first (lookup "last_record_hash" start) i) i.chained
        | inr g ↦ cc (rw (e, f, g, check_first) at h)
      ]
    ]
  ]

  pub StartsAt-first : StartsAt start bridges first → check_first segment first ≡ passes
  StartsAt-first (at_genesis k n c) =
      let one : some (pos 1) ≡ some (pos first.sequence_number) = cc n in
      rw (k, (eq_number first.sequence_number (int (pos 1))).1 one, c, eq_str_refl first.prev_hash)
        refl
  StartsAt-first (after_predecessor k n c a) =
      rw
        (
          k,
          n.present,
          (eq_number first.sequence_number n.value).1 n.number,
          c,
          eq_str_refl first.prev_hash,
          Agrees-bridges start bridges a,
        )
        refl
  StartsAt-first (after_checkpoint k n c) =
      let equal = (eq_number first.sequence_number (int (pos first.sequence_number))).1 refl in
      rw
        (
          k,
          n.present,
          IsNext-plus_one first.sequence_number n.value n.before n.number n.next,
          c,
          equal,
          eq_str_refl first.prev_hash,
        )
        refl
